-- ===== src/Connection/Reading.antt =====
-- Read of connection/inbound_connection.go: no byte is lost, invented or moved.
use rabbit_mtcp_ws_socks.Prelude.{
  suc, ◌∙◌, sym, append_assoc, ℕ, suc, ◌-◌, ◌≤◌, ◌≡◌, refl, sym, ap, ◌∙◌, ◌≢◌, ◌⊎◌, inl, inr, false,
  none, some, List, [], ◌∷◌, ◌++◌, append-nil, append_assoc, arith, ltb, ◌==◌, if◌then◌else◌,
  ltb→lt, ltb→le, ==→eq, ne→==, Bool-cases, length, length-append,
}
use rabbit_mtcp_ws_socks.Block.{Block, type_disconnect, type_data}
use rabbit_mtcp_ws_socks.Connection.RingBuffer.{
  ByteRingBuffer, over_write, is_empty, contents, IsRing, over_write_lem, read_lem, is_empty_iff,
}
use rabbit_mtcp_ws_socks.Connection.RingBuffer
use rabbit_mtcp_ws_socks.Connection.Inbound.{
  Inbound, index_panic, read_data, shut, read_block, take_block, recv_ordered, Outcome, returned,
  panicked, running, some_or_eof, drain_loop,
}

-- The bytes that a block brings to the reader.
abbrev pub payload_of : Block → List ℕ
payload_of blk = if blk.block_type == type_data then blk.block_data else []

abbrev pub payloads : List Block → List ℕ
payloads [] = []
payloads (b ∷ bs) = payload_of b ++ payloads bs

-- The bytes that are there to be read, in their order.
abbrev pub pending : Inbound → List ℕ
pending c = contents c.data_buffer ++ payloads c.ordered_recv_queue

-- A disconnect block says what is shut.
abbrev pub IsReadable : Block → Type 0
IsReadable blk = blk.block_type ≡ type_disconnect → 1 ≤ length blk.block_data

-- What reading one block does, when the buffer of left-over bytes is empty.
pub record Took (c : Inbound) (gain done : List ℕ) (size : ℕ) (done' : List ℕ) (c' : Inbound)
    : Type 0 where
  pub ring : IsRing c'.data_buffer
  pub bytes : done' ++ contents c'.data_buffer ≡ done ++ gain
  pub room : length done' ≤ size
  pub full : (contents c'.data_buffer ≡ []) ⊎ (length done' ≡ size)
  pub queue : c'.ordered_recv_queue ≡ c.ordered_recv_queue
  pub open_still : c'.queues_closed ≡ c.queues_closed

pub stays :
    (c c' : Inbound) (done : List ℕ) (size : ℕ)
    → c'.data_buffer ≡ c.data_buffer
    → c'.ordered_recv_queue ≡ c.ordered_recv_queue
    → c'.queues_closed ≡ c.queues_closed
    → IsRing c.data_buffer
    → contents c.data_buffer ≡ []
    → length done ≤ size
    → Took c [] done size done c'
stays c c' done size eb eq eo v e h = record {
  ring = rw eb v;
  bytes = ap (λ t. done ++ contents t) eb ∙ ap (λ t. done ++ t) e;
  room = h;
  full = inl (ap contents eb ∙ e);
  queue = eq;
  open_still = eo;
}

pub read_data-Took :
    (c : Inbound) (xs done : List ℕ) (size : ℕ)
    → IsRing c.data_buffer
    → contents c.data_buffer ≡ []
    → length done ≤ size
    → Took c xs done size (read_data c xs done size).0 (read_data c xs done size).1
unfolding read_data
read_data-Took c xs done size v e h =
    let space = size - length done in
    let (ring, held) = over_write_lem c.data_buffer xs in
    let (ring', split, count) = read_lem space ring in
    let out = (RingBuffer.read (over_write c.data_buffer xs) space).0 in
    elim (Bool-cases (ltb space (length xs))) [
      | inl t ↦ rw t (record {
        ring = ring';
        bytes = append_assoc done out _ ∙ ap (λ w. done ++ w) (split ∙ held);
        room = omega (arith, length-append done out, count);
        full = inr (omega (arith, length-append done out, count, ap length held, ltb→lt _ _ t));
        queue = refl;
        open_still = refl;
      })
      | inr f ↦ rw f (record {
        ring = v;
        bytes = ap (λ w. (done ++ xs) ++ w) e ∙ append-nil (done ++ xs);
        room = omega (arith, length-append done xs, ltb→le _ _ f);
        full = inl e;
        queue = refl;
        open_still = refl;
      })
    ]

pub shut_lem :
    (c : Inbound) (xs : List ℕ)
    → ((shut c xs).1.data_buffer ≡ c.data_buffer)
      × ((shut c xs).1.ordered_recv_queue ≡ c.ordered_recv_queue)
      × ((shut c xs).1.queues_closed ≡ c.queues_closed)
      × (1 ≤ length xs → (shut c xs).0 ≢ index_panic)
unfolding shut
shut_lem c [] = (refl, refl, refl, λ h e. absurd (omega arith))
shut_lem c (kind ∷ more) = ground arith

pub touched :
    {c : Inbound} {gain done done' : List ℕ} {size : ℕ} {c' : Inbound} (now : ℕ)
    → Took (record c { last_activity = now }) gain done size done' c'
    → Took c gain done size done' c'
touched now t = record {
  ring = t.ring;
  bytes = t.bytes;
  room = t.room;
  full = t.full;
  queue = t.queue;
  open_still = t.open_still;
}

pub read_block-Took :
    (now : ℕ) (c : Inbound) (blk : Block) (done : List ℕ) (size : ℕ)
    → IsRing c.data_buffer
    → contents c.data_buffer ≡ []
    → length done ≤ size
    → IsReadable blk
    → let (status, done', c') = read_block now c blk done size in
      (status ≢ index_panic) × Took c (payload_of blk) done size done' c'
unfolding read_block
read_block-Took now c0 blk done size v e h readable =
    let c : Inbound = record c0 { last_activity = now } in
    let (sb, sq, so, fine) = shut_lem c blk.block_data in
    elim (Bool-cases (blk.block_type == type_disconnect)) [
      | inl d ↦
          let is : blk.block_type ≡ type_disconnect = ==→eq _ _ d in
          let other : (blk.block_type == type_data) ≡ false = ne→== _ _ (omega arith) in
          rw (d, other)
            (fine (readable is), stays c0 (shut c blk.block_data).1 done size sb sq so v e h)
      | inr nd ↦ elim (Bool-cases (blk.block_type == type_data)) [
        | inl t ↦
            rw (nd, t) ((λ q. cc), touched now (read_data-Took c blk.block_data done size v e h))
        | inr f ↦ rw (nd, f) ((λ q. cc), stays c0 c done size refl refl refl v e h)
      ]
    ]

-- How the loops end: with every byte accounted for, and neither a panic nor a missing end.
abbrev pub bytes_of : Outcome → List ℕ
bytes_of (returned out) = out
bytes_of _ = []

pub record Ended (all : List ℕ) (size : ℕ) (r : Outcome × Inbound) : Type 0 where
  pub ring : IsRing r.1.data_buffer
  pub bytes : bytes_of r.0 ++ pending r.1 ≡ all
  pub room : length (bytes_of r.0) ≤ size
  pub quiet : r.0 ≢ panicked
  pub ends : r.0 ≢ running
  pub open_still : r.1.queues_closed ≡ false

pub some_or_eof_lem :
    (done : List ℕ)
    → (bytes_of (some_or_eof done) ≡ done)
      × (some_or_eof done ≢ panicked)
      × (some_or_eof done ≢ running)
unfolding some_or_eof
some_or_eof_lem [] = (refl, λ q. cc, λ q. cc)
some_or_eof_lem (b ∷ bs) = (refl, λ q. cc, λ q. cc)

-- A slice that is full, or a loop that stops, returns what it has.
pub stop-Ended :
    (c : Inbound) (done : List ℕ) (size : ℕ)
    → IsRing c.data_buffer
    → length done ≤ size
    → c.queues_closed ≡ false
    → Ended (done ++ pending c) size (returned done, c)
stop-Ended c done size v h o = record {
  ring = v;
  bytes = refl;
  room = h;
  quiet = λ q. cc;
  ends = λ q. cc;
  open_still = o;
}

pub recv_cases :
    (c : Inbound)
    → c.queues_closed ≡ false
    → ((recv_ordered c ≡ none) × (c.ordered_recv_queue ≡ []))
      ⊎ ((blk : Block) × (bs : List Block) × (recv_ordered c
            ≡ some (blk, record c { ordered_recv_queue = bs }))
          × (c.ordered_recv_queue ≡ blk ∷ bs))
unfolding recv_ordered
recv_cases c o = split c.ordered_recv_queue refl
  where
    split :
        (q : List Block)
        → q ≡ c.ordered_recv_queue
        → ((take_block c q ≡ none) × (q ≡ []))
          ⊎ ((blk : Block) × (bs : List Block) × (take_block c q
                ≡ some (blk, record c { ordered_recv_queue = bs }))
              × (q ≡ blk ∷ bs))
    split [] e = inl (unfold take_block in ground (arith, o), refl)
    split (blk ∷ bs) e = inr (blk, bs, unfold take_block in refl, refl)

pub drain_stop :
    (fuel now : ℕ) (c : Inbound) (done : List ℕ) (size : ℕ)
    → recv_ordered c ≡ none
    → drain_loop (suc fuel) now c done size ≡ (some_or_eof done, c)
unfolding drain_loop
drain_stop fuel now c done size e = rw (e, drain_loop)

pub drain_step :
    (fuel now : ℕ) (c c1 : Inbound) (blk : Block) (done : List ℕ) (size : ℕ)
    → recv_ordered c ≡ some (blk, c1)
    → let (status, done', c2) = read_block now c1 blk done size in
      status ≢ index_panic
      → drain_loop (suc fuel) now c done size
        ≡ (if length done' == size then (returned done', c2) else drain_loop fuel now c2 done' size)
unfolding drain_loop
drain_step fuel now c c1 blk done size e ne = ground arith

-- The bytes stay in line when a block moves from the queue to the slice and the buffer.
pub pending_step :
    (c c2 : Inbound) (blk : Block) (bs : List Block) (done done' : List ℕ) (size : ℕ)
    → contents c.data_buffer ≡ []
    → c.ordered_recv_queue ≡ blk ∷ bs
    → Took (record c { ordered_recv_queue = bs }) (payload_of blk) done size done' c2
    → done' ++ pending c2 ≡ done ++ pending c
pending_step c c2 blk bs done done' size e q t =
    ap (λ w. done' ++ (contents c2.data_buffer ++ payloads w)) t.queue
    ∙ sym (append_assoc done' (contents c2.data_buffer) (payloads bs))
    ∙ ap (λ w. w ++ payloads bs) t.bytes
    ∙ append_assoc done (payload_of blk) (payloads bs)
    ∙ ap (λ w. done ++ payloads w) (sym q)
    ∙ ap (λ w. done ++ (w ++ payloads c.ordered_recv_queue)) (sym e)
