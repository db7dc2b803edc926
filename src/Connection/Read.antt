-- ===== src/Connection/Read.antt =====
-- Read and Close of connection/inbound_connection.go.
use rabbit_mtcp_ws_socks.Prelude.{
  subst, ℕ, zero, suc, ◌≤◌, ◌<◌, ◌≡◌, refl, sym, ap, ◌∙◌, ◌≢◌, inl, inr, Bool, true, false, ◌||◌,
  none, some, List, [], ◌∷◌, ◌++◌, append_assoc, arith, ◌==◌, if◌then◌else◌, ==→eq, ==→ne,
  Bool-cases, length, All, length-append,
}
use rabbit_mtcp_ws_socks.Connection.RingBuffer.{
  ByteRingBuffer, is_empty, contents, IsRing, read_lem, is_empty_iff,
}
use rabbit_mtcp_ws_socks.Connection.RingBuffer
use rabbit_mtcp_ws_socks.Connection.Inbound.{
  Inbound, proceed, read_block, recv_ordered, take_block, zero_block, Outcome, returned, panicked,
  running, drain_loop, first_wait, read_queue, read, close, stop, send_disconnect,
}
use rabbit_mtcp_ws_socks.Connection.Reading.{
  payloads, pending, IsReadable, bytes_of, Ended, stop-Ended,
}
use rabbit_mtcp_ws_socks.Connection.ReadWait.{first_wait-Ended}
use rabbit_mtcp_ws_socks.Connection.ReadLoops.{IsReady, drain_loop-Ended, more_loop-Ended}

no_bytes : (xs : List ℕ) → length xs ≡ 0 → xs ≡ []
no_bytes [] h = refl
no_bytes (x ∷ xs) h = absurd (omega arith)

read_queue-Ended :
    (fuel now : ℕ) (pick : ℕ → Bool) (c : Inbound) (done : List ℕ) (size : ℕ)
    → IsReady c done size fuel
    → Ended (done ++ pending c) size (read_queue fuel now pick c done size)
unfolding read_queue
read_queue-Ended fuel now pick c done size r = elim (Bool-cases (c.closed || c.read_closed)) [
  | inl t ↦ rw t (drain_loop-Ended fuel now c done size r)
  | inr f ↦ elim (Bool-cases (length done == 0)) [
    | inr more ↦ rw (f, more) (more_loop-Ended fuel now pick c done size r)
    | inl z ↦
        let e : done ≡ [] = no_bytes done (==→eq _ _ z) in
        rw (f, z)
          (subst (λ d. Ended (d ++ pending c) size (first_wait fuel now pick c size)) (sym e)
            (first_wait-Ended fuel now pick c size (record {
              ring = r.ring;
              used_up = r.used_up;
              is_open = r.is_open;
              readable = r.readable;
              enough = omega (arith, r.enough);
              room = omega arith;
            })))
  ]
]

-- A connection whose channels are open, with blocks in its queue that are well formed.
pub record IsOpen (c : Inbound) (fuel : ℕ) : Type 0 where
  pub ring : IsRing c.data_buffer
  pub is_open : c.queues_closed ≡ false
  pub readable : All IsReadable c.ordered_recv_queue
  pub enough : length c.ordered_recv_queue < fuel

read-Ended :
    (fuel now : ℕ) (pick : ℕ → Bool) (c : Inbound) (size : ℕ)
    → IsOpen c fuel
    → Ended (pending c) size (read fuel now pick c size)
unfolding read
read-Ended fuel now pick c size v =
    let (out, ring) = RingBuffer.read c.data_buffer size in
    let c1 : Inbound = record c { data_buffer = ring } in
    let (ring', split, count) = read_lem size v.ring in
    let line : out ++ pending c1 ≡ pending c =
      sym (append_assoc out (contents ring) (payloads c.ordered_recv_queue))
      ∙ ap (λ w. w ++ payloads c.ordered_recv_queue) split in
    elim (Bool-cases (is_empty c.data_buffer)) [
      | inl t ↦ rw t (
          read_queue-Ended fuel now pick c [] size (record {
            ring = v.ring;
            used_up = (is_empty_iff v.ring).0 t;
            is_open = v.is_open;
            readable = v.readable;
            enough = v.enough;
            room = omega arith;
          }))
      | inr f ↦ elim (Bool-cases (length out == size)) [
        | inl full ↦
            rw (f, full)
              (subst (λ a. Ended a size (returned out, c1)) line
                (stop-Ended c1 out size ring' (omega (arith, ==→eq _ _ full)) v.is_open))
        | inr more ↦
            rw (f, more)
              (subst (λ a. Ended a size (read_queue fuel now pick c1 out size)) line
                (read_queue-Ended fuel now pick c1 out size (record {
                  ring = ring';
                  used_up = no_bytes (contents ring) (
                      omega (
                        arith,
                        ==→ne _ _ more,
                        ap length split,
                        length-append out (contents ring),
                        count,
                      ));
                  is_open = v.is_open;
                  readable = v.readable;
                  enough = v.enough;
                  room = omega (arith, count);
                })))
      ]
    ]

-- While the channels are open, Read comes to an end of its own or waits for a block, and never
-- panics. The bytes that it returns, at most as many as the slice has, are the front of the bytes that
-- were to be read: those left over from the last block, then the data of the queued blocks.
pub read_conserves :
    (fuel now : ℕ) (pick : ℕ → Bool) (c : Inbound) (size : ℕ)
    → IsOpen c fuel
    → let (o, c') = read fuel now pick c size in
      (bytes_of o ++ pending c' ≡ pending c)
      × (length (bytes_of o) ≤ size)
      × (o ≢ panicked)
      × (o ≢ running)
      × IsRing c'.data_buffer
read_conserves fuel now pick c size v =
    let e = read-Ended fuel now pick c size v in (e.bytes, e.room, e.quiet, e.ends, e.ring)

-- The zero block of a closed channel changes nothing that counts.
zero_block-read :
    (now : ℕ) (c : Inbound) (size : ℕ)
    → read_block now c zero_block [] size ≡ (proceed, [], record c { last_activity = now })
unfolding read_block
zero_block-read now c size = refl

closed_take :
    (c : Inbound)
    → c.ordered_recv_queue ≡ []
    → c.queues_closed ≡ true
    → recv_ordered c ≡ some (zero_block, c)
unfolding recv_ordered take_block
closed_take c q o =
    ap (take_block c) q ∙ ap (λ (b : Bool). if b then some (zero_block, c) else none) o

spins :
    (fuel now : ℕ) (c : Inbound) (size : ℕ)
    → c.ordered_recv_queue ≡ []
    → c.queues_closed ≡ true
    → 0 < size
    → (drain_loop fuel now c [] size).0 ≡ running
unfolding drain_loop recv_ordered
spins zero now c size q o h = refl
spins (suc fuel) now c size q o h = ground (
  arith,
  closed_take c q o,
  zero_block-read now c size,
  spins fuel now (record c { last_activity = now }) size q o h,
)

close_lem :
    (now : ℕ) (c : Inbound)
    → c.closed ≡ false
    → let c' = close now c in
      (c'.closed ≡ true)
      × (c'.queues_closed ≡ true)
      × (c'.ordered_recv_queue ≡ c.ordered_recv_queue)
      × (c'.data_buffer ≡ c.data_buffer)
unfolding close send_disconnect stop
close_lem now c h = ground arith

read_closed :
    (fuel now : ℕ) (pick : ℕ → Bool) (c : Inbound) (size : ℕ)
    → c.closed ≡ true
    → is_empty c.data_buffer ≡ true
    → read fuel now pick c size ≡ drain_loop fuel now c [] size
unfolding read read_queue
read_closed fuel now pick c size h e = rw (e, h)

-- A Read that follows Close with nothing left to read never returns: the closed channel gives zero
-- blocks for ever, and the loop goes on through any amount of fuel.
pub read-close :
    (fuel now later : ℕ) (pick : ℕ → Bool) (c : Inbound) (size : ℕ)
    → c.closed ≡ false
    → c.ordered_recv_queue ≡ []
    → is_empty c.data_buffer ≡ true
    → 0 < size
    → (read fuel later pick (close now c) size).0 ≡ running
read-close fuel now later pick c size h q e room =
    let (closed, shut_queue, queue, ring) = close_lem now c h in
    ap (λ (r : Outcome × Inbound). r.0)
      (read_closed fuel later pick (close now c) size closed (ap is_empty ring ∙ e))
    ∙ spins fuel later (close now c) size (queue ∙ q) shut_queue room
