-- ===== src/Connection/Delivery.antt =====
-- What OrderedRelay of connection/block_processor.go promises: complete delivery, and when it gives up.
use rabbit_mtcp_ws_socks.Prelude.{
  ℕ, zero, suc, ◌-◌, ◌^◌, ◌≤◌, ◌<◌, ◌≡◌, ap, ◌≢◌, ◌↔◌, inl, inr, true, false, Option, none, some,
  List, [], map, arith, Bool-cases, All,
}
use rabbit_mtcp_ws_socks.Block.{Block}
use rabbit_mtcp_ws_socks.NatMap.{lookup}
use rabbit_mtcp_ws_socks.Connection.Processor.{
  Processor, wait_exceeded, Relay, new_relay, ordered_relay,
}
use rabbit_mtcp_ws_socks.Connection.Arrivals.{
  elem, top, elem-lt-top, top-elem, arrivals, IsBelow, Holds,
}
use rabbit_mtcp_ws_socks.Connection.Receiving.{InOrder}
use rabbit_mtcp_ws_socks.Connection.Relay.{event_of, ordered_relay_lem, start-Runs}

module _ (sent : ℕ → Block) (total : ℕ) (small : total < 2 ^ 32)
    (numbered : (i : ℕ) → i < total → (sent i).block_id ≡ i) where
  missing :
      {seen : List ℕ} {m : ℕ} {cache : List (ℕ × Block)}
      → Holds sent total seen m cache
      → lookup m cache ≡ none
      → elem m seen ≡ false
  missing {seen} {m} {cache} v e = elim (Bool-cases (elem m seen)) [
    | inr f ↦ f
    | inl t ↦ elim (v.kept m t) [ inl lt ↦ absurd (omega arith) | inr there ↦ cc ]
  ]

  hole_waits :
      {seen : List ℕ} {x : Processor} {ordered : List Block}
      → InOrder sent total small numbered seen x ordered
      → wait_exceeded x ≡ true
      → (k : ℕ) × (elem k seen ≡ true) × (x.recv_block_id < k)
  unfolding wait_exceeded
  hole_waits {seen} {x} o h =
      let m = x.recv_block_id in
      let differ : m ≢ top seen = ground (arith, o.last) in
      let reached : m ≤ top seen = reach m o.holds.below in
      let there : elem (top seen - 1) seen ≡ true = top-elem seen (omega arith) in
      let gap = missing o.holds o.no_next in
      (
        top seen - 1,
        there,
        ground (arith, gap, there, ap (λ k. elem k seen) {x = top seen - 1} {y = m}),
      )
    where
      reach : (n : ℕ) → ((k : ℕ) → k < n → elem k seen ≡ true) → n ≤ top seen
      reach zero below = omega arith
      reach (suc n) below = elem-lt-top n seen (below n (omega arith))

  waits_hole :
      {seen : List ℕ} {x : Processor} {ordered : List Block} (k : ℕ)
      → InOrder sent total small numbered seen x ordered
      → elem k seen ≡ true
      → x.recv_block_id < k
      → wait_exceeded x ≡ true
  unfolding wait_exceeded
  waits_hole {seen} {x} k o e h = ground (arith, o.last, elem-lt-top k seen e)

  -- When a wait is exceeded the relay removes its connection exactly if it waits for a missing block:
  -- some block behind the first one that is missing has arrived.
  pub wait_exceeded_iff :
      (events : List (Option ℕ))
      → All (IsBelow total) events
      → (r : Relay) × (ordered_relay new_relay (map (event_of sent) events) ≡ some r)
        × ((wait_exceeded r.processor ≡ true)
            ↔ ((k : ℕ) × (elem k (arrivals [] events) ≡ true) × (r.processor.recv_block_id < k)))
  wait_exceeded_iff events h =
      let (r, run, v) =
        ordered_relay_lem sent total small numbered events (start-Runs sent total small numbered)
          h in
      (r, run, (hole_waits v.in_order, λ (k, e, lt). waits_hole k v.in_order e lt))
