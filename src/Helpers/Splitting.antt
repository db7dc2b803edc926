-- ===== src/Helpers/Splitting.antt =====
-- `split` of cmd/rabbit.go: the parts that it gives.
use rabbit_mtcp_ws_socks.Prelude.{
  subst, ℕ, zero, suc, ◌+◌, ◌≤◌, ◌<◌, ◌≡◌, refl, sym, ap, ◌∙◌, inl, inr, true, false, Option, none,
  some, List, [], ◌∷◌, ◌++◌, arith, Bool-cases, Option-cases, length, take, drop, All,
  length-append, length-take, length-drop, drop-drop,
}
use rabbit_mtcp_ws_socks.Prelude.Strings.{has_prefix, contains, index_of, succ_index}
use rabbit_mtcp_ws_socks.Helpers.{cut, split_loop, split}
use rabbit_mtcp_ws_socks.Helpers.Search.{find-index_of}

-- What strings.Join makes of a first part and the others.
abbrev pub join : List ℕ → List ℕ → List (List ℕ) → List ℕ
join sep p [] = p
join sep p (q ∷ qs) = p ++ (sep ++ join sep q qs)

has_prefix-append_drop : (sub s : List ℕ) → has_prefix sub s ≡ true → s ≡ sub ++ drop (length sub) s
unfolding has_prefix
has_prefix-append_drop [] s h = refl
has_prefix-append_drop (c ∷ sub) [] h = absurd (cc)
has_prefix-append_drop (c ∷ sub) (x ∷ s) h = ground (arith, has_prefix-append_drop sub s)

has_prefix-take :
    (sub s : List ℕ) (n : ℕ) → has_prefix sub (take n s) ≡ true → has_prefix sub s ≡ true
unfolding has_prefix
has_prefix-take [] s n h = refl
has_prefix-take (c ∷ sub) s zero h = absurd (cc)
has_prefix-take (c ∷ sub) [] (suc n) h = absurd (cc)
has_prefix-take (c ∷ sub) (x ∷ s) (suc n) h = ground (arith, has_prefix-take sub s n)

succ_index-none : (o : Option ℕ) → succ_index o ≡ none → o ≡ none
succ_index-none none h = refl
succ_index-none (some k) h = absurd (cc)

succ_index-some :
    (o : Option ℕ) (i : ℕ) → succ_index o ≡ some i → (k : ℕ) × (o ≡ some k) × (i ≡ suc k)
succ_index-some none i h = absurd (cc)
succ_index-some (some k) i h = (k, refl, cc)

index_of-none : (s sub : List ℕ) → index_of s sub ≡ none → contains s sub ≡ false
unfolding index_of contains
index_of-none [] sub h = elim (Bool-cases (has_prefix sub [])) [
  | inl yes_ ↦ absurd (let x = rw yes_ at h in cc)
  | inr no_ ↦ no_
]
index_of-none (b ∷ bs) sub h = elim (Bool-cases (has_prefix sub (b ∷ bs))) [
  | inl yes_ ↦ absurd (let x = rw yes_ at h in cc)
  | inr no_ ↦ let x = rw no_ at h in rw no_ (index_of-none bs sub (succ_index-none _ x))
]

-- Where the separator is found: what stands before it does not contain it.
record Found (s : List ℕ) (c : ℕ) (sub : List ℕ) (i : ℕ) : Type 0 where
  parts : s ≡ take i s ++ ((c ∷ sub) ++ drop (i + suc (length sub)) s)
  before : contains (take i s) (c ∷ sub) ≡ false

here : (s : List ℕ) (c : ℕ) (sub : List ℕ) → has_prefix (c ∷ sub) s ≡ true → Found s c sub 0
unfolding contains has_prefix
here s c sub h =
    let e : 0 + suc (length sub) ≡ suc (length sub) = omega arith in
    record {
      parts = has_prefix-append_drop (c ∷ sub) s h ∙ ap (λ (k : ℕ). (c ∷ sub) ++ drop k s) (sym e);
      before = refl;
    }

later :
    (b : ℕ) (s : List ℕ) (c : ℕ) (sub : List ℕ) (i : ℕ)
    → has_prefix (c ∷ sub) (b ∷ s) ≡ false
    → Found s c sub i
    → Found (b ∷ s) c sub (suc i)
unfolding contains
later b s c sub i h f =
    let e : suc i + suc (length sub) ≡ suc (i + suc (length sub)) = omega arith in
    record {
      parts = rw e (ap (λ (l : List ℕ). b ∷ l) f.parts);
      before = elim (Bool-cases (has_prefix (c ∷ sub) (b ∷ take i s))) [
        | inl starts ↦ absurd (let x = has_prefix-take (c ∷ sub) (b ∷ s) (suc i) starts in cc)
        | inr not_ ↦ rw not_ f.before
      ];
    }

index_of-some :
    (s : List ℕ) (c : ℕ) (sub : List ℕ) (i : ℕ) → index_of s (c ∷ sub) ≡ some i → Found s c sub i
unfolding index_of
index_of-some [] c sub i h = elim (Bool-cases (has_prefix (c ∷ sub) [])) [
  | inl yes_ ↦ let x = rw yes_ at h in subst (Found [] c sub) (cc) (here [] c sub yes_)
  | inr no_ ↦ absurd (let x = rw no_ at h in cc)
]
index_of-some (b ∷ bs) c sub i h = elim (Bool-cases (has_prefix (c ∷ sub) (b ∷ bs))) [
  | inl yes_ ↦ let x = rw yes_ at h in subst (Found (b ∷ bs) c sub) (cc) (here (b ∷ bs) c sub yes_)
  | inr no_ ↦
      let x = rw no_ at h in
      let (k, e, e') = succ_index-some _ i x in
      subst (Found (b ∷ bs) c sub) (sym e') (later b bs c sub k no_ (index_of-some bs c sub k e))
]

-- What `split` gives from some place on.
record Parts (sep s : List ℕ) (p : List ℕ) (ps : List (List ℕ)) : Type 0 where
  joined : join sep p ps ≡ s
  free : All (λ q. contains q sep ≡ false) (p ∷ ps)

Found_length :
    (s : List ℕ) (c : ℕ) (sub : List ℕ) (i : ℕ) → Found s c sub i → i + suc (length sub) ≤ length s
Found_length s c sub i f = omega (
  arith,
  ap length f.parts,
  length-append (take i s) ((c ∷ sub) ++ drop (i + suc (length sub)) s),
  length-append (c ∷ sub) (drop (i + suc (length sub)) s),
  length-take i s,
  length-drop (i + suc (length sub)) s,
)

-- A part, and the parts from behind the separator on.
more-Parts :
    (s : List ℕ) (c : ℕ) (sep : List ℕ) (idx i : ℕ) (q : List ℕ) (qs : List (List ℕ))
    → Found (drop idx s) c sep i
    → Parts (c ∷ sep) (drop (idx + (i + suc (length sep))) s) q qs
    → Parts (c ∷ sep) (drop idx s) (cut s idx i) (q ∷ qs)
more-Parts s c sep idx i q qs f r = record {
  joined =
      ap (λ (l : List ℕ). cut s idx i ++ ((c ∷ sep) ++ l))
        (r.joined ∙ sym (drop-drop (i + suc (length sep)) idx s))
      ∙ sym f.parts;
  free = (f.before, r.free);
}

split_loop-Parts :
    (fuel : ℕ) (s : List ℕ) (c : ℕ) (sep : List ℕ) (idx : ℕ)
    → length s < fuel + idx
    → idx ≤ length s
    → (p : List ℕ) × (ps : List (List ℕ)) × (split_loop fuel s (c ∷ sep) idx ≡ some (p ∷ ps))
      × Parts (c ∷ sep) (drop idx s) p ps
unfolding split_loop
split_loop-Parts zero s c sep idx h h' = absurd (omega arith)
split_loop-Parts (suc fuel) s c sep idx h h' =
    let t = drop idx s in
    elim (Option-cases (index_of t (c ∷ sep))) [
      | inl e ↦ (
        t,
        [],
        rw (find-index_of t (c ∷ sep), e),
        record { joined = refl; free = (index_of-none t (c ∷ sep) e, tt) },
      )
      | inr (i, e) ↦
          let f = index_of-some t c sep i e in
          let (q, qs, next, r) =
            split_loop-Parts fuel s c sep (idx + (i + suc (length sep))) (omega arith)
              (omega (arith, Found_length t c sep i f, length-drop idx s)) in
          (
            cut s idx i,
            q ∷ qs,
            rw (find-index_of t (c ∷ sep) ∙ e, next),
            more-Parts s c sep idx i q qs f r,
          )
    ]

-- `split` with a separator that is not empty ends, and gives parts that do not contain the separator
-- and that, joined by it, are the string.
pub split_parts :
    (s : List ℕ) (c : ℕ) (sep : List ℕ)
    → (p : List ℕ) × (ps : List (List ℕ)) × (split s (c ∷ sep) ≡ some (p ∷ ps))
      × (join (c ∷ sep) p ps ≡ s)
      × All (λ q. contains q (c ∷ sep) ≡ false) (p ∷ ps)
unfolding split
split_parts s c sep =
    let (p, ps, e, f) = split_loop-Parts (length s + 1) s c sep 0 (omega arith) (omega arith) in
    (p, ps, e, f.joined, f.free)
