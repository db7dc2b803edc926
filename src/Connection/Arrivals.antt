-- ===== src/Connection/Arrivals.antt =====
-- The blocks that OrderedRelay of connection/block_processor.go holds back, and its loop over them.
use rabbit_mtcp_ws_socks.Prelude.{
  ℕ, zero, suc, ◌+◌, ◌-◌, ◌^◌, ◌≤◌, ◌<◌, ◌≡◌, sym, ap, ◌∙◌, ◌⊎◌, inl, inr, Bool, true, false, ◌||◌,
  Option, none, some, List, [], ◌∷◌, ◌++◌, append-nil, append_assoc, arith, ltb, ◌==◌,
  if◌then◌else◌, ==→eq, ==→ne, Bool-cases, Option-cases, length,
}
use rabbit_mtcp_ws_socks.Block.{Block}
use rabbit_mtcp_ws_socks.NatMap.{
  lookup, insert, delete, lookup-insert, lookup-delete, length-delete-lt,
}
use rabbit_mtcp_ws_socks.Connection.Processor.{succ32, send_cached}

unfoldable pub elem : ℕ → List ℕ → Bool
elem k [] = false
elem k (i ∷ s) = k == i || elem k s

-- One more than the highest id, as `lastRecvBlockID` keeps it; the last arrival stands first.
unfoldable pub top : List ℕ → ℕ
top [] = 0
top (i ∷ s) = if ltb (top s) (i + 1) then i + 1 else top s

-- The ids that arrive in a sequence of events, the last one first; `none` is an event with no block.
unfoldable pub arrivals : List ℕ → List (Option ℕ) → List ℕ
arrivals seen [] = seen
arrivals seen (none ∷ events) = arrivals seen events
arrivals seen (some i ∷ events) = arrivals (i ∷ seen) events

abbrev pub IsBelow : ℕ → Option ℕ → Type 0
IsBelow total none = Unit {0}
IsBelow total (some i) = i < total

-- The first `n` blocks of a sequence.
unfoldable pub first : (ℕ → Block) → ℕ → List Block
first sent zero = []
first sent (suc n) = first sent n ++ (sent n ∷ [])

pub first_next : (sent : ℕ → Block) (n : ℕ) → first sent n ++ (sent n ∷ []) ≡ first sent (n + 1)
unfolding first
first_next sent n = ap (first sent) {x = suc n} {y = n + 1} (omega arith)

pub elem-lt-top : (k : ℕ) (seen : List ℕ) → elem k seen ≡ true → k < top seen
unfolding elem top
elem-lt-top k [] h = cc
elem-lt-top k (i ∷ s) h = ground (arith, elem-lt-top k s)

pub top-elem : (seen : List ℕ) → 0 < top seen → elem (top seen - 1) seen ≡ true
unfolding elem top
top-elem [] h = absurd (omega arith)
top-elem (i ∷ s) h = ground (arith, top-elem s)

pub send_cached_stop :
    (fuel m : ℕ) (cache : List (ℕ × Block))
    → lookup m cache ≡ none
    → send_cached fuel cache m ≡ some ([], cache, m)
unfolding send_cached
send_cached_stop zero m cache e = rw (e, send_cached)
send_cached_stop (suc fuel) m cache e = rw (e, send_cached)

pub send_cached_more :
    (fuel m m' : ℕ) (cache : List (ℕ × Block)) (b : Block) (out : List Block)
    (cache' : List (ℕ × Block)) (recv' : ℕ)
    → lookup m cache ≡ some b
    → succ32 m ≡ m'
    → send_cached fuel (delete m cache) m' ≡ some (out, cache', recv')
    → send_cached (suc fuel) cache m ≡ some (b ∷ out, cache', recv')
unfolding send_cached
send_cached_more fuel m m' cache b out cache' recv' e q run =
    ground (arith, e, ap (λ k. send_cached fuel (delete m cache) k) q, run)

module _ (sent : ℕ → Block) (total : ℕ) where
  -- The ids below `m` have arrived; the others that have are in the cache, and nothing else is.
  pub record Holds (seen : List ℕ) (m : ℕ) (cache : List (ℕ × Block)) : Type 0 where
    pub within : m ≤ total
    pub below : (k : ℕ) → k < m → elem k seen ≡ true
    pub cached :
        (k : ℕ) (b : Block)
        → lookup k cache ≡ some b
        → (b ≡ sent k) × (m ≤ k) × (k < total) × (elem k seen ≡ true)
    pub kept : (k : ℕ) → elem k seen ≡ true → (k < m) ⊎ (lookup k cache ≡ some (sent k))

module _ (sent : ℕ → Block) (total : ℕ) (small : total < 2 ^ 32) where
  pub Holds-next :
      {seen : List ℕ} {m : ℕ} {cache : List (ℕ × Block)} {b : Block}
      → Holds sent total seen m cache
      → lookup m cache ≡ some b
      → Holds sent total seen (m + 1) (delete m cache)
  Holds-next {seen} {m} {cache} {b} v e =
      let (is_sent, lo, hi, here) = v.cached m b e in
      record {
        within = omega arith;
        below = λ k h. elim (Bool-cases (k == m)) [
          | inl q ↦ rw (==→eq k m q) here
          | inr q ↦ v.below k (omega (arith, ==→ne k m q))
        ];
        cached = λ k b' h. ground (arith, lookup-delete m k cache, v.cached k b');
        kept = λ k h. ground (arith, lookup-delete m k cache, v.kept k h);
      }

  -- The loop over the cache ends, and leaves no block that could be sent.
  pub send_cached_lem :
      (fuel : ℕ) {seen : List ℕ} {m : ℕ} {cache : List (ℕ × Block)}
      → Holds sent total seen m cache
      → length cache ≤ fuel
      → (out : List Block) × (cache' : List (ℕ × Block)) × (m' : ℕ) × (send_cached fuel cache m
          ≡ some (out, cache', m'))
        × (first sent m ++ out ≡ first sent m')
        × (lookup m' cache' ≡ none)
        × Holds sent total seen m' cache'
  unfolding send_cached
  send_cached_lem zero {seen} {m} {cache} v h = elim (Option-cases (lookup m cache)) [
    | inl e ↦ ([], cache, m, send_cached_stop 0 m cache e, append-nil (first sent m), e, v)
    | inr (b, e) ↦ absurd (omega (arith, length-delete-lt m cache e))
  ]
  send_cached_lem (suc fuel) {seen} {m} {cache} v h = elim (Option-cases (lookup m cache)) [
    | inl e ↦ ([], cache, m, send_cached_stop (suc fuel) m cache e, append-nil (first sent m), e, v)
    | inr (b, e) ↦
        let (is_sent, lo, hi, here) = v.cached m b e in
        let (out, cache', m', run, whole, none_left, w) =
          send_cached_lem fuel (Holds-next v e) (omega (arith, length-delete-lt m cache e)) in
        (
          b ∷ out,
          cache',
          m',
          send_cached_more fuel m (m + 1) cache b out cache' m' e (omega arith) run,
          ap (λ t. first sent m ++ (t ∷ out)) is_sent
              ∙ sym (append_assoc (first sent m) (sent m ∷ []) out)
              ∙ ap (λ t. t ++ out) (first_next sent m)
              ∙ whole,
          none_left,
          w,
        )
  ]

  pub Holds-old :
      {seen : List ℕ} {m : ℕ} {cache : List (ℕ × Block)} (i : ℕ)
      → Holds sent total seen m cache
      → i < m
      → Holds sent total (i ∷ seen) m cache
  unfolding elem
  Holds-old {seen} {m} {cache} i v h = record {
    within = v.within;
    below = λ k q. ground (arith, v.below k q);
    cached = λ k b q. ground (arith, v.cached k b q);
    kept = λ k q. ground (arith, v.kept k);
  }

  pub Holds-next_came :
      {seen : List ℕ} {m : ℕ} {cache : List (ℕ × Block)}
      → Holds sent total seen m cache
      → lookup m cache ≡ none
      → m < total
      → Holds sent total (m ∷ seen) (m + 1) cache
  unfolding elem
  Holds-next_came {seen} {m} {cache} v e h = record {
    within = omega arith;
    below = λ k q. ground (arith, v.below k);
    cached = λ k b q. ground (arith, v.cached k b q, ap (λ j. lookup j cache) {x = k} {y = m});
    kept = λ k q. ground (arith, v.kept k);
  }

  pub Holds-cached :
      {seen : List ℕ} {m : ℕ} {cache : List (ℕ × Block)} (i : ℕ)
      → Holds sent total seen m cache
      → m < i
      → i < total
      → Holds sent total (i ∷ seen) m (insert i (sent i) cache)
  unfolding elem
  Holds-cached {seen} {m} {cache} i v lo hi = record {
    within = v.within;
    below = λ k q. ground (arith, v.below k q);
    cached = λ k b q.
        ground (arith, lookup-insert i k (sent i) cache, v.cached k b, ap sent {x = i} {y = k});
    kept =
        λ k q. ground (arith, lookup-insert i k (sent i) cache, v.kept k, ap sent {x = i} {y = k});
  }
