-- ===== src/Status/Access.antt =====
-- The texts of cmd/rabbit.go's status server: the list of networks, and the name and password.
use rabbit_mtcp_ws_socks.Status.{
  auth_part, parse_login, acl_entry, entries, all_if_empty, parse_acl,
}
use rabbit_mtcp_ws_socks.Prelude.{
  ℕ, suc, ◌+◌, ◌≡◌, refl, sym, ap, ◌∙◌, inl, inr, false, Option, none, some, List, [], ◌∷◌, ◌++◌,
  arith, ◌==◌, ==→ne, eq→==, ne→==, Bool-cases, length, take, drop, All, take-append,
}
use rabbit_mtcp_ws_socks.Prelude.Strings.{
  codes, str_eq, has_prefix, contains, split_at, cons_part, index_of,
}

-- No byte of the text is `c`.
abbrev pub Without : ℕ → List ℕ → Type 0
Without c s = All (λ b. (c == b) ≡ false) s

Without-append : (c : ℕ) (s t : List ℕ) → Without c s → Without c t → Without c (s ++ t)
Without-append c [] t h k = k
Without-append c (b ∷ s) t h k = (h.0, Without-append c s t h.1 k)

-- A byte is found where it first stands.
index_of_byte :
    (c : ℕ) (s t : List ℕ) → Without c s → index_of (s ++ (c ∷ t)) (c ∷ []) ≡ some (length s)
unfolding index_of has_prefix
index_of_byte c [] t h = ground (arith, eq→== c c)
index_of_byte c (b ∷ s) t h = rw (h.0, index_of_byte c s t h.1)

index_of_missing : (c : ℕ) (s : List ℕ) → Without c s → index_of s (c ∷ []) ≡ none
unfolding index_of has_prefix
index_of_missing c [] h = refl
index_of_missing c (b ∷ s) h = rw (h.0, index_of_missing c s h.1)

pub contains-Without : (c : ℕ) (s : List ℕ) → Without c s → contains s (c ∷ []) ≡ false
unfolding contains has_prefix
contains-Without c [] h = refl
contains-Without c (b ∷ s) h = rw (h.0, contains-Without c s h.1)

-- The texts that `auth_part` and `login_at` cut.
cut_front : (s t : List ℕ) (c : ℕ) → take (length s) (s ++ (c ∷ t)) ≡ s
cut_front s t c = take-append s (c ∷ t) (length s) refl

cut_back : (s t : List ℕ) (c : ℕ) → drop (length s + 1) (s ++ (c ∷ t)) ≡ t
cut_back [] t c = refl
cut_back (b ∷ s) t c =
    let e : suc (length s) + 1 ≡ suc (length s + 1) = omega arith in rw e (cut_back s t c)

auth_part_lem :
    (u : ℕ) (us pass addr : List ℕ)
    → Without 58 (u ∷ us)
    → let part = (u ∷ us) ++ (58 ∷ pass) in
      auth_part part (index_of part (58 ∷ [])) addr
      ≡ record { username = u ∷ us; password = pass; listen = addr }
auth_part_lem u us pass addr h =
    rw (index_of_byte 58 (u ∷ us) pass h, cut_front us pass 58, cut_back (u ∷ us) pass 58)

login_at_lem :
    (p : ℕ) (ps addr : List ℕ)
    → Without 64 (p ∷ ps)
    → parse_login ((p ∷ ps) ++ (64 ∷ addr)) ≡ auth_part (p ∷ ps) (index_of (p ∷ ps) (58 ∷ [])) addr
unfolding parse_login
login_at_lem p ps addr h =
    rw (index_of_byte 64 (p ∷ ps) addr h, cut_front ps addr 64, cut_back (p ∷ ps) addr 64)

-- `user:password@address`, where the name has no colon and neither has an `@`.
pub parse_login_lem :
    (u : ℕ) (us pass addr : List ℕ)
    → Without 58 (u ∷ us)
    → Without 64 (u ∷ us)
    → Without 64 pass
    → parse_login (((u ∷ us) ++ (58 ∷ pass)) ++ (64 ∷ addr))
      ≡ record { username = u ∷ us; password = pass; listen = addr }
parse_login_lem u us pass addr h k l =
    login_at_lem u (us ++ (58 ∷ pass)) addr (Without-append 64 (u ∷ us) (58 ∷ pass) k (refl, l))
    ∙ auth_part_lem u us pass addr h

-- `user@address` sets no name.
pub parse_login_no_colon :
    (u : ℕ) (us addr : List ℕ)
    → Without 58 (u ∷ us)
    → Without 64 (u ∷ us)
    → parse_login ((u ∷ us) ++ (64 ∷ addr)) ≡ record { username = []; password = []; listen = addr }
parse_login_no_colon u us addr h k =
    login_at_lem u us addr k
    ∙ ap (λ (o : Option ℕ). auth_part (u ∷ us) o addr) (index_of_missing 58 (u ∷ us) h)

-- No part of a split text has the separator.
cons_part-Without :
    (c b : ℕ) (ps : List (List ℕ))
    → (c == b) ≡ false
    → All (Without c) ps
    → All (Without c) (cons_part b ps)
cons_part-Without c b [] h k = ((h, tt), tt)
cons_part-Without c b (p ∷ ps) h k = ((h, k.0), k.1)

split_at-Without : (c : ℕ) (s : List ℕ) → All (Without c) (split_at c s)
unfolding split_at
split_at-Without c [] = (tt, tt)
split_at-Without c (b ∷ s) = elim (Bool-cases (b == c)) [
  | inl same ↦ rw same (tt, split_at-Without c s)
  | inr other ↦ rw other (
      cons_part-Without c b (split_at c s) (ne→== c b (λ e. ==→ne b c other (sym e)))
        (split_at-Without c s))
]

acl_entry-Without : (s : List ℕ) → Without 44 s → Without 44 (acl_entry s)
unfolding acl_entry
acl_entry-Without s h = elim (Bool-cases (contains s (codes "/"))) [
  | inl net ↦ rw net h
  | inr address ↦ rw address (Without-append 44 s (codes "/32") h (refl, (refl, (refl, tt))))
]

entries-Without : (ss : List (List ℕ)) → All (Without 44) ss → All (Without 44) (entries ss)
entries-Without [] h = tt
entries-Without (s ∷ ss) h = (acl_entry-Without s h.0, entries-Without ss h.1)

all_if_empty-Without :
    (ss : List (List ℕ)) → All (Without 44) ss → All (Without 44) (all_if_empty ss)
unfolding str_eq
all_if_empty-Without [] h = tt
all_if_empty-Without ([] ∷ []) h =
    ((refl, (refl, (refl, (refl, (refl, (refl, (refl, (refl, (refl, tt))))))))), tt)
all_if_empty-Without ((b ∷ a) ∷ []) h = h
all_if_empty-Without (a ∷ b ∷ ss) h = h

-- The entries of a configured list have no commas, and there is one.
pub parse_acl-Without : (acl : List ℕ) → All (Without 44) (parse_acl acl)
unfolding parse_acl
parse_acl-Without acl =
    entries-Without _ (all_if_empty-Without (split_at 44 acl) (split_at-Without 44 acl))

entries_some :
    (ss : List (List ℕ)) (t : List ℕ) (ts : List (List ℕ))
    → ss ≡ t ∷ ts
    → (u : List ℕ) × (us : List (List ℕ)) × (entries (all_if_empty ss) ≡ u ∷ us)
entries_some [] t ts h = absurd (cc)
entries_some (a ∷ []) t ts h = (_, _, refl)
entries_some (a ∷ b ∷ ss) t ts h = (_, _, refl)

cons_part_some :
    (b : ℕ) (ps : List (List ℕ)) → (t : List ℕ) × (ts : List (List ℕ)) × (cons_part b ps ≡ t ∷ ts)
cons_part_some b [] = (_, _, refl)
cons_part_some b (p ∷ ps) = (_, _, refl)

split_at_some : (c : ℕ) (s : List ℕ) → (t : List ℕ) × (ts : List (List ℕ)) × (split_at c s ≡ t ∷ ts)
unfolding split_at
split_at_some c [] = (_, _, refl)
split_at_some c (b ∷ s) = elim (Bool-cases (b == c)) [
  | inl same ↦ ([], split_at c s, rw same)
  | inr other ↦ let (t, ts, e) = cons_part_some b (split_at c s) in (t, ts, rw other e)
]

pub parse_acl_some : (acl : List ℕ) → (t : List ℕ) × (ts : List (List ℕ)) × (parse_acl acl ≡ t ∷ ts)
unfolding parse_acl
parse_acl_some acl = let (t, ts, e) = split_at_some 44 acl in entries_some (split_at 44 acl) t ts e
