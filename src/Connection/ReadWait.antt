-- ===== src/Connection/ReadWait.antt =====
-- The wait of Read of connection/inbound_connection.go for a first block.
use rabbit_mtcp_ws_socks.Prelude.{
  subst, ℕ, suc, ◌≤◌, ◌≡◌, refl, sym, ap, ◌∙◌, ◌≢◌, ◌⊎◌, inl, inr, Bool, false, ◌&&◌, none, some,
  List, [], ◌++◌, arith, ◌==◌, if◌then◌else◌, ==→ne, Bool-cases, length,
}
use rabbit_mtcp_ws_socks.Block.{Block}
use rabbit_mtcp_ws_socks.Connection.RingBuffer.{IsRing}
use rabbit_mtcp_ws_socks.Connection.Inbound.{
  Inbound, index_panic, read_block, recv_ordered, Outcome, returned, at_eof, waiting, panicked,
  running, some_or_eof, more_loop, first_wait,
}
use rabbit_mtcp_ws_socks.Connection.Reading.{
  pending, bytes_of, Ended, some_or_eof_lem, stop-Ended, recv_cases, pending_step,
}
use rabbit_mtcp_ws_socks.Connection.ReadLoops.{
  IsReady, IsReady-next, read_one, status_cases, more_loop-Ended,
}

-- The first wait, on a block: it ends before it, behind it, or goes on to the last loop.
first_step :
    (fuel now : ℕ) (pick : ℕ → Bool) (c c1 : Inbound) (blk : Block) (size : ℕ)
    → recv_ordered c ≡ some (blk, c1)
    → let (status, done', c2) = read_block now c1 blk [] size in
      let r = first_wait fuel now pick c size in
      status ≢ index_panic
      → (r ≡ (at_eof, c))
        ⊎ ((r ≡ (some_or_eof done', c2))
            ⊎ ((r ≡ (returned done', c2))
                ⊎ ((length done' ≢ size) × (r ≡ more_loop fuel now pick c2 done' size))))
unfolding first_wait
first_step fuel now pick c c1 blk size e ne = elim (Bool-cases (c.read_done && pick fuel)) [
  | inl over ↦ inl (ground arith)
  | inr on ↦ elim (status_cases (read_block now c1 blk [] size).0) [
    | inl p ↦ absurd (ne p)
    | inr (inl p) ↦ inr (inl (ground arith))
    | inr (inr p) ↦ elim (Bool-cases (length (read_block now c1 blk [] size).1 == size)) [
      | inl f ↦ inr (inr (inl (ground arith)))
      | inr f ↦ inr (inr (inr (==→ne _ _ f, ground arith)))
    ]
  ]
]

first_stop :
    (fuel now : ℕ) (pick : ℕ → Bool) (c : Inbound) (size : ℕ)
    → recv_ordered c ≡ none
    → first_wait fuel now pick c size ≡ (if c.read_done then (at_eof, c) else (waiting, c))
unfolding first_wait
first_stop fuel now pick c size e = rw (e, first_wait)

some_or_eof-Ended :
    (c : Inbound) (done : List ℕ) (size : ℕ)
    → IsRing c.data_buffer
    → length done ≤ size
    → c.queues_closed ≡ false
    → Ended (done ++ pending c) size (some_or_eof done, c)
some_or_eof-Ended c done size v h o =
    let (same, quiet, ends) = some_or_eof_lem done in
    record {
      ring = v;
      bytes = ap (λ w. w ++ pending c) same;
      room = rw same h;
      quiet = quiet;
      ends = ends;
      open_still = o;
    }

nothing-Ended :
    (c : Inbound) (size : ℕ) (o : Outcome)
    → IsRing c.data_buffer
    → c.queues_closed ≡ false
    → bytes_of o ≡ []
    → o ≢ panicked
    → o ≢ running
    → Ended (pending c) size (o, c)
nothing-Ended c size o v e none_read quiet ends = record {
  ring = v;
  bytes = ap (λ w. w ++ pending c) none_read;
  room = rw none_read (omega arith);
  quiet = quiet;
  ends = ends;
  open_still = e;
}

pub first_wait-Ended :
    (fuel now : ℕ) (pick : ℕ → Bool) (c : Inbound) (size : ℕ)
    → IsReady c [] size (suc fuel)
    → Ended (pending c) size (first_wait fuel now pick c size)
first_wait-Ended fuel now pick c size r = elim (recv_cases c r.is_open) [
  | inl (none_left, q) ↦
      rw (first_stop fuel now pick c size none_left) (elim (Bool-cases c.read_done) [
        | inl d ↦
            subst (λ (b : Bool). Ended (pending c) size (if b then (at_eof, c) else (waiting, c)))
              (sym d) (nothing-Ended c size at_eof r.ring r.is_open refl (λ p. cc) (λ p. cc))
        | inr d ↦
            subst (λ (b : Bool). Ended (pending c) size (if b then (at_eof, c) else (waiting, c)))
              (sym d) (nothing-Ended c size waiting r.ring r.is_open refl (λ p. cc) (λ p. cc))
      ])
  | inr (blk, bs, took, q) ↦
      let c1 : Inbound = record c { ordered_recv_queue = bs } in
      let (status, done', c2) = read_block now c1 blk [] size in
      let (fine, t) = read_one now blk bs r q in
      let shift = pending_step c c2 blk bs [] done' size r.used_up q t in
      let still = t.open_still ∙ r.is_open in
      elim (first_step fuel now pick c c1 blk size took fine) [
        | inl e ↦ rw e (nothing-Ended c size at_eof r.ring r.is_open refl (λ p. cc) (λ p. cc))
        | inr (inl e) ↦ rw e (
            subst (λ a. Ended a size (some_or_eof done', c2)) shift
              (some_or_eof-Ended c2 done' size t.ring t.room still))
        | inr (inr (inl e)) ↦ rw e (
            subst (λ a. Ended a size (returned done', c2)) shift
              (stop-Ended c2 done' size t.ring t.room still))
        | inr (inr (inr (ne, e))) ↦ rw e (
            subst (λ a. Ended a size (more_loop fuel now pick c2 done' size)) shift
              (more_loop-Ended fuel now pick c2 done' size (IsReady-next r q t ne)))
      ]
]
