-- ===== src/Helpers/Search.antt =====
-- `find` of cmd/rabbit.go against strings.Index.
use rabbit_mtcp_ws_socks.Prelude.{
  ℕ, zero, suc, ◌+◌, ◌-◌, ◌≤◌, ◌<◌, ◌≡◌, refl, sym, ap, ◌∙◌, inl, inr, true, false, Option, none,
  some, List, [], ◌∷◌, arith, leb, if◌then◌else◌, Bool-cases, length, drop, get_or, length-drop,
}
use rabbit_mtcp_ws_socks.Prelude.Strings.{has_prefix, index_of, succ_index}
use rabbit_mtcp_ws_socks.Helpers.{match_at, find_loop, find}

drop-get_or : (s : List ℕ) (i : ℕ) → i < length s → drop i s ≡ get_or s i 0 ∷ drop (suc i) s
drop-get_or [] i h = absurd (omega arith)
drop-get_or (x ∷ s) zero h = refl
drop-get_or (x ∷ s) (suc i) h = drop-get_or s i (omega arith)

drop_next : (s : List ℕ) (i : ℕ) → drop (suc i) s ≡ drop (i + 1) s
drop_next s i = let e : suc i ≡ i + 1 = omega arith in ap (λ (k : ℕ). drop k s) e

match_at-has_prefix :
    (s : List ℕ) (i : ℕ) (sub : List ℕ)
    → i + length sub ≤ length s
    → match_at s i sub ≡ has_prefix sub (drop i s)
unfolding match_at has_prefix
match_at-has_prefix s i [] h = refl
match_at-has_prefix s i (c ∷ sub) h =
    rw
      (
        drop-get_or s i (omega arith),
        drop_next s i,
        match_at-has_prefix s (i + 1) sub (omega arith),
      )
      (ground arith)

has_prefix_short : (sub s : List ℕ) → length s < length sub → has_prefix sub s ≡ false
unfolding has_prefix
has_prefix_short [] s h = absurd (omega arith)
has_prefix_short (c ∷ sub) [] h = refl
has_prefix_short (c ∷ sub) (x ∷ s) h = rw (has_prefix_short sub s (omega arith)) (ground arith)

index_of_short : (s sub : List ℕ) → length s < length sub → index_of s sub ≡ none
unfolding index_of
index_of_short [] sub h = rw (has_prefix_short sub [] h)
index_of_short (x ∷ s) sub h =
    rw (has_prefix_short sub (x ∷ s) h, index_of_short s sub (omega arith))

index_of-nil : (s : List ℕ) → index_of s [] ≡ some 0
unfolding index_of has_prefix
index_of-nil [] = refl
index_of-nil (x ∷ s) = refl

leb→le : (a b : ℕ) → leb a b ≡ true → a ≤ b
leb→le a b h = ground arith

leb→lt : (a b : ℕ) → leb a b ≡ false → b < a
leb→lt a b h = ground arith

abbrev pub add_index : ℕ → Option ℕ → Option ℕ
add_index i none = none
add_index i (some k) = some (i + k)

add_index_succ : (i : ℕ) (o : Option ℕ) → add_index (i + 1) o ≡ add_index i (succ_index o)
add_index_succ i none = refl
add_index_succ i (some k) = ground arith

add_index_zero : (o : Option ℕ) → add_index 0 o ≡ o
add_index_zero none = refl
add_index_zero (some k) = ground arith

-- One round of the loop, at a list that is not used up.
round :
    (r i x : ℕ) (s sub l : List ℕ)
    → match_at s i sub ≡ has_prefix sub (x ∷ l)
    → find_loop r s sub (i + 1) ≡ add_index (i + 1) (index_of l sub)
    → find_loop (suc r) s sub i ≡ add_index i (index_of (x ∷ l) sub)
unfolding find_loop index_of
round r i x s sub l h ih = elim (Bool-cases (has_prefix sub (x ∷ l))) [
  | inl here ↦ rw (h, here) (ground arith)
  | inr not_here ↦ rw (h, not_here, ih) (add_index_succ i (index_of l sub))
]

rounds_suc : (n : ℕ) → (if leb 0 n then n - 0 + 1 else 0) ≡ suc n
rounds_suc n = ground arith

find_loop-index_of :
    (r i : ℕ) (s : List ℕ) (c : ℕ) (sub : List ℕ)
    → suc (length sub) ≤ length s
    → r + i ≡ length s - suc (length sub) + 1
    → find_loop r s (c ∷ sub) i ≡ add_index i (index_of (drop i s) (c ∷ sub))
unfolding find_loop match_at
find_loop-index_of zero i s c sub h e =
    ap (add_index i) (sym (index_of_short (drop i s) (c ∷ sub) (omega (arith, length-drop i s))))
find_loop-index_of (suc r) i s c sub h e =
    let here : i < length s = omega arith in
    let split : drop i s ≡ get_or s i 0 ∷ drop (i + 1) s =
      drop-get_or s i here ∙ ap (λ (l : List ℕ). get_or s i 0 ∷ l) (drop_next s i) in
    rw split (
      round r i (get_or s i 0) s (c ∷ sub) (drop (i + 1) s)
        (match_at-has_prefix s i (c ∷ sub) (omega arith) ∙ ap (has_prefix (c ∷ sub)) split)
        (find_loop-index_of r (i + 1) s c sub h (omega arith)))

-- `find` finds the first place where `sub` stands, as strings.Index does: the same index, or none.
pub find-index_of : (s sub : List ℕ) → find s sub ≡ index_of s sub
unfolding find find_loop match_at
find-index_of s [] = rw (index_of-nil s, rounds_suc (length s)) refl
find-index_of s (c ∷ sub) = elim (Bool-cases (leb (suc (length sub)) (length s))) [
  | inl fits ↦ rw fits (
      find_loop-index_of (length s - suc (length sub) + 1) 0 s c sub (leb→le _ _ fits) (omega arith)
      ∙ add_index_zero (index_of s (c ∷ sub)))
  | inr short ↦ rw short (sym (index_of_short s (c ∷ sub) (leb→lt _ _ short)))
]
