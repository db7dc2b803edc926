-- ===== src/Prelude/Strings.antt =====
-- Go strings as lists of bytes: equality, prefixes, and what the code uses of package strings.
use Prim.Native.Nat.{ℕ, suc}
use Prim.Native.Char.{code}
use Prim.Native.String.{String}
use mathlib.Core.Path.{◌≡◌, refl}
use mathlib.Core.Bool.{Bool, true, false, ◌&&◌, ◌||◌}
use mathlib.Core.Option.{Option, none, some}
use mathlib.Core.List.{List, [], ◌∷◌, ◌++◌}
use native.Mathlib.Omega.{arith}
use rabbit_mtcp_ws_socks.Prelude.Tests.{◌==◌, eq→==, if◌then◌else◌}

-- The bytes of an ASCII text.
abbrev pub codes : String → List ℕ
codes String.[] = []
codes (String.◌∷◌ c s) = code c ∷ codes s

unfoldable pub str_eq : List ℕ → List ℕ → Bool
str_eq [] [] = true
str_eq [] (b ∷ bs) = false
str_eq (a ∷ cs) [] = false
str_eq (a ∷ cs) (b ∷ bs) = (a == b) && str_eq cs bs

unfoldable pub has_prefix : List ℕ → List ℕ → Bool
has_prefix [] s = true
has_prefix (p ∷ ps) [] = false
has_prefix (p ∷ ps) (b ∷ bs) = (p == b) && has_prefix ps bs

-- strings.Contains(s, sub).
unfoldable pub contains : List ℕ → List ℕ → Bool
contains [] sub = has_prefix sub []
contains (b ∷ bs) sub = has_prefix sub (b ∷ bs) || contains bs sub

abbrev pub succ_index : Option ℕ → Option ℕ
succ_index none = none
succ_index (some i) = some (suc i)

-- strings.Index(s, sub), none for -1.
unfoldable pub index_of : List ℕ → List ℕ → Option ℕ
index_of [] sub = if has_prefix sub [] then some 0 else none
index_of (b ∷ bs) sub = if has_prefix sub (b ∷ bs) then some 0 else succ_index (index_of bs sub)

abbrev pub cons_part : ℕ → List (List ℕ) → List (List ℕ)
cons_part b [] = (b ∷ []) ∷ []
cons_part b (p ∷ ps) = (b ∷ p) ∷ ps

-- strings.Split(s, sep) at a separator of one byte.
unfoldable pub split_at : ℕ → List ℕ → List (List ℕ)
split_at sep [] = [] ∷ []
split_at sep (b ∷ bs) =
    let parts = split_at sep bs in if b == sep then [] ∷ parts else cons_part b parts

pub str_eq_refl : (s : List ℕ) → str_eq s s ≡ true
unfolding str_eq
str_eq_refl [] = refl
str_eq_refl (a ∷ cs) = ground (arith, str_eq_refl cs, eq→== a a)

pub str_eq→eq : (s t : List ℕ) → str_eq s t ≡ true → s ≡ t
unfolding str_eq
str_eq→eq [] [] h = refl
str_eq→eq [] (b ∷ bs) h = absurd (cc)
str_eq→eq (a ∷ cs) [] h = absurd (cc)
str_eq→eq (a ∷ cs) (b ∷ bs) h = ground (arith, str_eq→eq cs bs)

pub has_prefix-append : (p s : List ℕ) → has_prefix p (p ++ s) ≡ true
unfolding has_prefix
has_prefix-append [] s = refl
has_prefix-append (b ∷ bs) s = ground (arith, has_prefix-append bs s, eq→== b b)

pub contains_prefix : (s sub : List ℕ) → has_prefix sub s ≡ true → contains s sub ≡ true
unfolding contains
contains_prefix [] sub h = h
contains_prefix (b ∷ bs) sub h = rw h
