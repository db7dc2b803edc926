-- ===== src/NatMap.antt =====
-- Go's maps from uint32 keys (block ids, connection ids, tunnel ids, peer ids), as association lists.
use rabbit_mtcp_ws_socks.Prelude.{
  ℕ, ◌+◌, ◌≤◌, ◌<◌, ◌≡◌, refl, ap, Option, none, some, List, [], ◌∷◌, arith, ◌==◌, if◌then◌else◌,
  length,
}

module _ {ℓ} {V : Type ℓ} where
  unfoldable pub lookup : (key : ℕ) → List (ℕ × V) → Option V
  lookup key [] = none
  lookup key ((here, value) ∷ rest) = if here == key then some value else lookup key rest

  -- A write replaces the entry of the key, or comes last.
  unfoldable pub insert : (key : ℕ) → V → List (ℕ × V) → List (ℕ × V)
  insert key value [] = (key, value) ∷ []
  insert key value ((here, old) ∷ rest) =
      if here == key then (here, value) ∷ rest else (here, old) ∷ insert key value rest

  unfoldable pub delete : (key : ℕ) → List (ℕ × V) → List (ℕ × V)
  delete key [] = []
  delete key ((here, old) ∷ rest) =
      if here == key then delete key rest else (here, old) ∷ delete key rest

  pub lookup-insert :
      (key other : ℕ) (value : V) (entries : List (ℕ × V))
      → lookup other (insert key value entries)
        ≡ (if key == other then some value else lookup other entries)
  unfolding insert lookup
  lookup-insert key other value [] = refl
  lookup-insert key other value ((here, old) ∷ rest) =
      ground (lookup-insert key other value rest, arith)

  pub lookup-delete :
      (key other : ℕ) (entries : List (ℕ × V))
      → lookup other (delete key entries) ≡ (if key == other then none else lookup other entries)
  unfolding lookup delete
  lookup-delete key other [] = ground arith
  lookup-delete key other ((here, old) ∷ rest) = ground (lookup-delete key other rest, arith)

  pub length-delete-le : (k : ℕ) (m : List (ℕ × V)) → length (delete k m) ≤ length m
  unfolding delete
  length-delete-le k [] = omega arith
  length-delete-le k ((i, w) ∷ m) = ground (arith, length-delete-le k m)

  pub length-delete-lt :
      (k : ℕ) (m : List (ℕ × V)) {v : V} → lookup k m ≡ some v → length (delete k m) < length m
  unfolding lookup delete
  length-delete-lt k [] h = cc
  length-delete-lt k ((i, w) ∷ m) {v} h =
      ground (arith, length-delete-le k m, length-delete-lt k m {v = v})

  -- No key stands twice.
  abbrev pub IsMap : List (ℕ × V) → Type ℓ
  IsMap [] = Unit {ℓ}
  IsMap ((k, v) ∷ m) = (lookup k m ≡ none) × IsMap m

  pub insert-IsMap : (k : ℕ) (v : V) (m : List (ℕ × V)) → IsMap m → IsMap (insert k v m)
  unfolding lookup insert
  insert-IsMap k v [] h = (refl, tt)
  insert-IsMap k v ((i, w) ∷ m) (fresh, rest) =
      ground (arith, lookup-insert k i v m, insert-IsMap k v m rest)

  pub delete-IsMap : (k : ℕ) (m : List (ℕ × V)) → IsMap m → IsMap (delete k m)
  unfolding lookup delete
  delete-IsMap k [] h = tt
  delete-IsMap k ((i, w) ∷ m) (fresh, rest) =
      ground (arith, lookup-delete k i m, delete-IsMap k m rest)

  -- The number of entries after a write, and after a removal.
  pub length-insert_new :
      (k : ℕ) (v : V) (m : List (ℕ × V)) → lookup k m ≡ none → length (insert k v m) ≡ length m + 1
  unfolding lookup insert
  length-insert_new k v [] h = omega arith
  length-insert_new k v ((i, w) ∷ m) h = ground (arith, length-insert_new k v m)

  pub length-insert_old :
      (k : ℕ) (v : V) (m : List (ℕ × V)) {u : V}
      → lookup k m ≡ some u
      → length (insert k v m) ≡ length m
  unfolding lookup insert
  length-insert_old k v [] h = cc
  length-insert_old k v ((i, w) ∷ m) {u} h = ground (arith, length-insert_old k v m {u = u})

  pub delete_absent : (k : ℕ) (m : List (ℕ × V)) → lookup k m ≡ none → delete k m ≡ m
  unfolding lookup delete
  delete_absent k [] h = refl
  delete_absent k ((i, w) ∷ m) h = ground (arith, delete_absent k m)

  pub length-delete_present :
      (k : ℕ) (m : List (ℕ × V)) {u : V}
      → IsMap m
      → lookup k m ≡ some u
      → length (delete k m) + 1 ≡ length m
  unfolding lookup delete
  length-delete_present k [] d h = cc
  length-delete_present k ((i, w) ∷ m) {u} (fresh, rest) h = ground (
    arith,
    length-delete_present k m {u = u} rest,
    ap (λ j. lookup j m) {x = i} {y = k},
    delete_absent k m,
  )
