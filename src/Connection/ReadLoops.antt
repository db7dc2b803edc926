-- ===== src/Connection/ReadLoops.antt =====
-- The loops of Read of connection/inbound_connection.go that go on after a block.
use rabbit_mtcp_ws_socks.Prelude.{
  subst, ℕ, zero, suc, ◌≤◌, ◌<◌, ◌≡◌, refl, sym, ap, ◌∙◌, ◌≢◌, ◌⊎◌, inl, inr, Bool, false, ◌&&◌,
  none, some, List, [], ◌∷◌, ◌++◌, arith, ◌==◌, if◌then◌else◌, ==→ne, Bool-cases, length, All,
}
use rabbit_mtcp_ws_socks.Block.{Block}
use rabbit_mtcp_ws_socks.Connection.RingBuffer.{contents, IsRing}
use rabbit_mtcp_ws_socks.Connection.Inbound.{
  Inbound, BlockRead, proceed, end_of_file, index_panic, read_block, recv_ordered, Outcome,
  returned, drain_loop, more_loop,
}
use rabbit_mtcp_ws_socks.Connection.Reading.{
  payload_of, pending, IsReadable, Took, read_block-Took, Ended, some_or_eof_lem, stop-Ended,
  recv_cases, drain_stop, drain_step, pending_step,
}

-- A connection whose queue is open and readable, and whose buffer is used up.
pub record IsReady (c : Inbound) (done : List ℕ) (size fuel : ℕ) : Type 0 where
  pub ring : IsRing c.data_buffer
  pub used_up : contents c.data_buffer ≡ []
  pub is_open : c.queues_closed ≡ false
  pub readable : All IsReadable c.ordered_recv_queue
  pub enough : length c.ordered_recv_queue < fuel
  pub room : length done ≤ size

-- Behind a block that did not fill the slice, the loop is ready again, with a round less to go.
pub IsReady-next :
    {c c2 : Inbound} {blk : Block} {bs : List Block} {done done' : List ℕ} {size fuel : ℕ}
    → IsReady c done size (suc fuel)
    → c.ordered_recv_queue ≡ blk ∷ bs
    → Took (record c { ordered_recv_queue = bs }) (payload_of blk) done size done' c2
    → length done' ≢ size
    → IsReady c2 done' size fuel
IsReady-next {c} {c2} {blk} {bs} r q t ne =
    let rest : All IsReadable (blk ∷ bs) = subst (All IsReadable) q r.readable in
    record {
      ring = t.ring;
      used_up = elim t.full [ inl e ↦ e | inr f ↦ absurd (ne f) ];
      is_open = t.open_still ∙ r.is_open;
      readable = subst (All IsReadable) (sym t.queue) rest.1;
      enough = omega (arith, r.enough, ap length q, ap length t.queue);
      room = t.room;
    }

pub read_one :
    (now : ℕ) {c : Inbound} {done : List ℕ} {size fuel : ℕ} (blk : Block) (bs : List Block)
    → IsReady c done size fuel
    → c.ordered_recv_queue ≡ blk ∷ bs
    → let (status, done', c') =
        read_block now (record c { ordered_recv_queue = bs }) blk done size in
      (status ≢ index_panic)
      × Took (record c { ordered_recv_queue = bs }) (payload_of blk) done size done' c'
read_one now {c} {done} {size} blk bs r q =
    let rest : All IsReadable (blk ∷ bs) = subst (All IsReadable) q r.readable in
    read_block-Took now (record c { ordered_recv_queue = bs }) blk done size r.ring r.used_up r.room
      rest.0

pub drain_loop-Ended :
    (fuel now : ℕ) (c : Inbound) (done : List ℕ) (size : ℕ)
    → IsReady c done size fuel
    → Ended (done ++ pending c) size (drain_loop fuel now c done size)
drain_loop-Ended zero now c done size r = absurd (omega (arith, r.enough))
drain_loop-Ended (suc fuel) now c done size r = elim (recv_cases c r.is_open) [
  | inl (none_left, q) ↦
      let (same, quiet, ends) = some_or_eof_lem done in
      rw (drain_stop fuel now c done size none_left) (record {
        ring = r.ring;
        bytes = ap (λ w. w ++ pending c) same;
        room = rw same r.room;
        quiet = quiet;
        ends = ends;
        open_still = r.is_open;
      })
  | inr (blk, bs, took, q) ↦
      let c1 : Inbound = record c { ordered_recv_queue = bs } in
      let (status, done', c2) = read_block now c1 blk done size in
      let (fine, t) = read_one now blk bs r q in
      let shift = pending_step c c2 blk bs done done' size r.used_up q t in
      rw (drain_step fuel now c c1 blk done size took fine) (
        subst
          (λ a. Ended a size (
            if length done' == size
            then (returned done', c2)
            else drain_loop fuel now c2 done' size))
          shift
          (elim (Bool-cases (length done' == size)) [
            | inl e ↦ rw e (stop-Ended c2 done' size t.ring t.room (t.open_still ∙ r.is_open))
            | inr e ↦
                rw e (drain_loop-Ended fuel now c2 done' size (IsReady-next r q t (==→ne _ _ e)))
          ]))
]

more_stop :
    (fuel now : ℕ) (pick : ℕ → Bool) (c : Inbound) (done : List ℕ) (size : ℕ)
    → recv_ordered c ≡ none
    → more_loop (suc fuel) now pick c done size ≡ (returned done, c)
unfolding more_loop
more_stop fuel now pick c done size e = rw (e, more_loop)

pub status_cases : (s : BlockRead) → (s ≡ index_panic) ⊎ ((s ≡ end_of_file) ⊎ (s ≡ proceed))
status_cases index_panic = inl refl
status_cases end_of_file = inr (inl refl)
status_cases proceed = inr (inr refl)

-- Where a round of the last loop goes on a block: it stops before it, behind it, or goes on.
more_step :
    (fuel now : ℕ) (pick : ℕ → Bool) (c c1 : Inbound) (blk : Block) (done : List ℕ) (size : ℕ)
    → recv_ordered c ≡ some (blk, c1)
    → let (status, done', c2) = read_block now c1 blk done size in
      let r = more_loop (suc fuel) now pick c done size in
      status ≢ index_panic
      → (r ≡ (returned done, c))
        ⊎ ((r ≡ (returned done', c2))
            ⊎ ((length done' ≢ size) × (r ≡ more_loop fuel now pick c2 done' size)))
unfolding more_loop
more_step fuel now pick c c1 blk done size e ne = elim (Bool-cases (c.read_done && pick fuel)) [
  | inl over ↦ inl (ground arith)
  | inr on ↦ elim (status_cases status) [
    | inl p ↦ absurd (ne p)
    | inr (inl p) ↦ inr (inl (ground arith))
    | inr (inr p) ↦ elim (Bool-cases (length done' == size)) [
      | inl f ↦ inr (inl (ground arith))
      | inr f ↦ inr (inr (==→ne _ _ f, ground arith))
    ]
  ]
]
  where
    status : BlockRead
    status = (read_block now c1 blk done size).0

    done' : List ℕ
    done' = (read_block now c1 blk done size).1

    status_cases : (s : BlockRead) → (s ≡ index_panic) ⊎ ((s ≡ end_of_file) ⊎ (s ≡ proceed))
    status_cases index_panic = inl refl
    status_cases end_of_file = inr (inl refl)
    status_cases proceed = inr (inr refl)

pub more_loop-Ended :
    (fuel now : ℕ) (pick : ℕ → Bool) (c : Inbound) (done : List ℕ) (size : ℕ)
    → IsReady c done size fuel
    → Ended (done ++ pending c) size (more_loop fuel now pick c done size)
more_loop-Ended zero now pick c done size r = absurd (omega (arith, r.enough))
more_loop-Ended (suc fuel) now pick c done size r = elim (recv_cases c r.is_open) [
  | inl (none_left, q) ↦
      rw (more_stop fuel now pick c done size none_left)
        (stop-Ended c done size r.ring r.room r.is_open)
  | inr (blk, bs, took, q) ↦
      let c1 : Inbound = record c { ordered_recv_queue = bs } in
      let (status, done', c2) = read_block now c1 blk done size in
      let (fine, t) = read_one now blk bs r q in
      let shift = pending_step c c2 blk bs done done' size r.used_up q t in
      let goal : Outcome × Inbound → Type 0 = λ o. Ended (done ++ pending c) size o in
      elim (more_step fuel now pick c c1 blk done size took fine) [
        | inl e ↦ rw e (stop-Ended c done size r.ring r.room r.is_open)
        | inr (inl e) ↦ rw e (
            subst (λ a. Ended a size (returned done', c2)) shift
              (stop-Ended c2 done' size t.ring t.room (t.open_still ∙ r.is_open)))
        | inr (inr (ne, e)) ↦ rw e (
            subst (λ a. Ended a size (more_loop fuel now pick c2 done' size)) shift
              (more_loop-Ended fuel now pick c2 done' size (IsReady-next r q t ne)))
      ]
]
