-- ===== src/Helpers.antt =====
-- The helpers on strings at the end of cmd/rabbit.go.
pub mod Search
pub mod Splitting
mod Tests
use rabbit_mtcp_ws_socks.Prelude.{
  subst, ℕ, zero, suc, ◌+◌, ◌-◌, ◌*◌, ◌/◌, ◌%◌, ◌^◌, ◌≤◌, ◌<◌, min, max, ◌≡◌, refl, sym, ap, ◌∙◌,
  ◌≢◌, ◌↔◌, ◌⊎◌, inl, inr, Bool, true, false, not, ◌&&◌, ◌||◌, Option, none, some, List, [], ◌∷◌,
  ◌++◌, map, append-nil, append_assoc, arith, ltb, leb, ◌==◌, if◌then◌else◌, ltb→lt, lt→ltb, ltb→le,
  le→ltb, ==→eq, ==→ne, eq→==, ne→==, Bool-cases, Option-cases, Result, ok, err, Result-cases,
  length, take, drop, replicate, get_or, set, All, length-append, take-append-drop, length-take,
  length-drop, length-replicate, take-append, drop-append, take_all, drop_all, drop-nil, drop-drop,
  All-append, drop-take, take-min,
}
use rabbit_mtcp_ws_socks.Prelude.Strings.{split_at}

-- The inner loop of `find`: `sub` stands in `s` from `i` on.
pub match_at : List ℕ → ℕ → List ℕ → Bool
match_at s i [] = true
match_at s i (c ∷ sub) =
    let rest = match_at s (i + 1) sub in if get_or s i 0 == c then rest else false

-- The outer loop, for so many rounds.
pub find_loop : ℕ → List ℕ → List ℕ → ℕ → Option ℕ
find_loop zero s sub i = none
find_loop (suc r) s sub i =
    let rest = find_loop r s sub (i + 1) in if match_at s i sub then some i else rest

-- `find`, none for -1. When `sub` is the longer one, the loop does not start.
pub find : List ℕ → List ℕ → Option ℕ
find s sub =
    find_loop (if leb (length sub) (length s) then length s - length sub + 1 else 0) s sub 0

abbrev pub cons_result : List ℕ → Option (List (List ℕ)) → Option (List (List ℕ))
cons_result p none = none
cons_result p (some ps) = some (p ∷ ps)

-- s[idx:idx+i]
abbrev pub cut : List ℕ → ℕ → ℕ → List ℕ
cut s idx i = take i (drop idx s)

-- A round of the loop of `split`, by what `find` gave; `rest` is the loop from an index on.
abbrev pub split_round :
    List ℕ → List ℕ → ℕ → (rest : ℕ → Option (List (List ℕ))) → Option ℕ → Option (List (List ℕ))
split_round s sep idx rest none = some (drop idx s ∷ [])
split_round s sep idx rest (some i) = cons_result (cut s idx i) (rest (idx + (i + length sep)))

-- The loop of `split`; none if the fuel runs out.
pub split_loop : ℕ → List ℕ → List ℕ → ℕ → Option (List (List ℕ))
split_loop zero s sep idx = none
split_loop (suc fuel) s sep idx =
    split_round s sep idx (split_loop fuel s sep) (find (drop idx s) sep)

-- `split`. A round moves on by at least the separator's length.
pub split : List ℕ → List ℕ → Option (List (List ℕ))
split s sep = split_loop (length s + 1) s sep 0

-- The bytes that `trimSpace` takes away.
abbrev pub is_blank : ℕ → Bool
is_blank c = c == 32 || (c == 9 || (c == 10 || c == 13))

-- The two loops of `trimSpace`: `start` goes up for so many rounds, `end` comes down.
pub start_loop : ℕ → List ℕ → ℕ → ℕ
start_loop zero s start = start
start_loop (suc r) s start =
    let more = start_loop r s (start + 1) in if is_blank (get_or s start 0) then more else start

pub end_loop : List ℕ → ℕ → ℕ → ℕ
end_loop s start zero = zero
end_loop s start (suc e) =
    let more = end_loop s start e in
    if ltb start (suc e) && is_blank (get_or s e 0) then more else suc e

-- `trimSpace`.
pub trim_space : List ℕ → List ℕ
trim_space s =
    let start = start_loop (length s) s 0 in
    let end = end_loop s start (length s) in take (end - start) (drop start s)

-- strings.TrimSpace of an ASCII text.
abbrev pub is_space : ℕ → Bool
is_space c = c == 32 || (leb 9 c && leb c 13)

pub trim_left : List ℕ → List ℕ
trim_left [] = []
trim_left (c ∷ s) = let more = trim_left s in if is_space c then more else c ∷ s

abbrev pub cons_unless_blank : ℕ → List ℕ → List ℕ
cons_unless_blank c [] = if is_space c then [] else c ∷ []
cons_unless_blank c (d ∷ s) = c ∷ d ∷ s

pub trim_right : List ℕ → List ℕ
trim_right [] = []
trim_right (c ∷ s) = cons_unless_blank c (trim_right s)

unfoldable pub std_trim : List ℕ → List ℕ
unfolding trim_left trim_right
std_trim s = trim_right (trim_left s)

-- The loop of `splitAndTrim` over the parts.
pub trimmed_parts : List (List ℕ) → List (List ℕ)
trimmed_parts [] = []
trimmed_parts (p ∷ ps) = elim (std_trim p) [
  | [] ↦ trimmed_parts ps
  | c ∷ t ↦ (c ∷ t) ∷ trimmed_parts ps
]

-- `splitAndTrim` with a separator of one byte.
pub split_and_trim : List ℕ → ℕ → List (List ℕ)
split_and_trim [] sep = []
split_and_trim (c ∷ s) sep = trimmed_parts (split_at sep (c ∷ s))
