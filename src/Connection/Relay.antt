-- ===== src/Connection/Relay.antt =====
-- OrderedRelay of connection/block_processor.go against the sequence that the sender numbered.
use rabbit_mtcp_ws_socks.Prelude.{
  ℕ, ◌+◌, ◌^◌, ◌<◌, ◌≡◌, refl, false, Option, none, some, List, [], ◌∷◌, ◌++◌, map, arith,
  if◌then◌else◌, All,
}
use rabbit_mtcp_ws_socks.Block.{Block}
use rabbit_mtcp_ws_socks.NatMap.{lookup}
use rabbit_mtcp_ws_socks.Connection.Processor.{
  Processor, receive, wait_exceeded, Event, arrived, timed_out, Relay, new_relay, relay_receive,
  relay_event, ordered_relay,
}
use rabbit_mtcp_ws_socks.Connection.Arrivals.{elem, top, arrivals, IsBelow, first}
use rabbit_mtcp_ws_socks.Connection.Receiving.{InOrder, receive_lem}

-- A block arrives, by its number, or the wait for one is exceeded.
abbrev pub event_of : (ℕ → Block) → Option ℕ → Event
event_of sent none = timed_out
event_of sent (some i) = arrived (sent i)

step_then :
    (r r1 r' : Relay) (e : Event) (es : List Event)
    → relay_event r e ≡ some r1
    → ordered_relay r1 es ≡ some r'
    → ordered_relay r (e ∷ es) ≡ some r'
unfolding ordered_relay
step_then r r1 r' e es run rest = rw (run, ordered_relay) rest

arrived_running :
    (r : Relay) (blk : Block) (out : List Block) (y : Processor)
    → r.stopped ≡ false
    → receive r.processor blk ≡ some (out, y)
    → relay_event r (arrived blk) ≡ some (record r { processor = y; ordered = r.ordered ++ out })
unfolding relay_event relay_receive
arrived_running r blk out y e run = ground arith

module _ (sent : ℕ → Block) (total : ℕ) (small : total < 2 ^ 32)
    (numbered : (i : ℕ) → i < total → (sent i).block_id ≡ i) where
  -- A relay that runs, and has had the blocks of `seen`.
  pub record Runs (seen : List ℕ) (r : Relay) : Type 0 where
    pub in_order : InOrder sent total small numbered seen r.processor r.ordered
    pub running : r.stopped ≡ false

  relay_event-timed_out :
      {seen : List ℕ} {r : Relay}
      → Runs seen r
      → (r' : Relay) × (relay_event r timed_out ≡ some r') × Runs seen r'
  unfolding relay_event
  relay_event-timed_out {seen} {r} v = (
    record r { removals = if wait_exceeded r.processor then r.removals + 1 else r.removals },
    rw v.running,
    record { in_order = v.in_order; running = v.running },
  )

  relay_event-arrived :
      {seen : List ℕ} {r : Relay} (i : ℕ)
      → Runs seen r
      → i < total
      → (r' : Relay) × (relay_event r (arrived (sent i)) ≡ some r') × Runs (i ∷ seen) r'
  relay_event-arrived {seen} {r} i v h =
      let (out, y, run, w) = receive_lem sent total small numbered i v.in_order h in
      (
        record r { processor = y; ordered = r.ordered ++ out },
        arrived_running r (sent i) out y v.running run,
        record { in_order = w; running = v.running },
      )

  pub ordered_relay_lem :
      (events : List (Option ℕ)) {seen : List ℕ} {r : Relay}
      → Runs seen r
      → All (IsBelow total) events
      → (r' : Relay) × (ordered_relay r (map (event_of sent) events) ≡ some r')
        × Runs (arrivals seen events) r'
  unfolding ordered_relay arrivals
  ordered_relay_lem [] {seen} {r} v h = (r, refl, v)
  ordered_relay_lem (none ∷ events) {seen} {r} v (_, h) =
      let (r1, run, w) = relay_event-timed_out v in
      let (r', rest, w') = ordered_relay_lem events w h in
      (r', step_then r r1 r' timed_out (map (event_of sent) events) run rest, w')
  ordered_relay_lem (some i ∷ events) {seen} {r} v (hi, h) =
      let (r1, run, w) = relay_event-arrived i v hi in
      let (r', rest, w') = ordered_relay_lem events w h in
      (r', step_then r r1 r' (arrived (sent i)) (map (event_of sent) events) run rest, w')

  pub start-Runs : Runs [] new_relay
  unfolding elem top first lookup
  start-Runs = record {
    in_order = record {
      holds = record {
        within = omega arith;
        below = λ k h. absurd (omega arith);
        cached = λ k b h. cc;
        kept = λ k h. cc;
      };
      no_next = refl;
      sent_on = refl;
      last = refl;
    };
    running = refl;
  }
