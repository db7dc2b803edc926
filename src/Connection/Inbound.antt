-- ===== src/Connection/Inbound.antt =====
-- connection/inbound_connection.go, with the methods of baseConnection (connection/connection.go) that
-- it uses: the client's end of a proxied connection.
use rabbit_mtcp_ws_socks.Prelude.{
  ℕ, zero, suc, ◌+◌, ◌-◌, ◌%◌, ◌^◌, Bool, true, false, ◌&&◌, ◌||◌, Option, none, some, List, [],
  ◌∷◌, ◌++◌, ltb, ◌==◌, if◌then◌else◌, length,
}
use rabbit_mtcp_ws_socks.Block.{
  Block, type_disconnect, type_data, shutdown_read, shutdown_write, shutdown_both, max_size,
}
use rabbit_mtcp_ws_socks.Connection.RingBuffer.{
  ByteRingBuffer, new_byte_ring_buffer, over_write, is_empty,
}
use rabbit_mtcp_ws_socks.Connection.RingBuffer
use rabbit_mtcp_ws_socks.Connection.Processor.{
  Processor, new_processor, pack_data, pack_connect, pack_disconnect,
}

-- The queues are what stands in the channels. A channel's capacity is left out: a send on a full one
-- waits, and then goes on. `removals` counts the calls of `removeFromPool`, and `read_done` tells that
-- `readCtx` is done.
pub record Inbound : Type 0 where
  pub processor : Processor
  pub connection_id : ℕ
  pub closed : Bool
  pub read_closed : Bool
  pub write_closed : Bool
  pub send_queue : List Block
  pub ordered_recv_queue : List Block
  pub queues_closed : Bool
  pub data_buffer : ByteRingBuffer
  pub read_done : Bool
  pub last_activity : ℕ
  pub sent_bytes : ℕ
  pub recv_bytes : ℕ
  pub removals : ℕ

unfoldable pub new_inbound_connection : (connection_id now : ℕ) → Inbound
new_inbound_connection connection_id now = record {
  processor = new_processor;
  connection_id = connection_id;
  closed = false;
  read_closed = false;
  write_closed = false;
  send_queue = [];
  ordered_recv_queue = [];
  queues_closed = false;
  data_buffer = new_byte_ring_buffer max_size;
  read_done = false;
  last_activity = now;
  sent_bytes = 0;
  recv_bytes = 0;
  removals = 0;
}

-- `Stop` of baseConnection.
unfoldable pub stop : Inbound → Inbound
stop c = record c { removals = c.removals + 1 }

unfoldable pub send_connect : (now : ℕ) → Inbound → List ℕ → Inbound
send_connect now c address =
    let (blk, x) = pack_connect now c.processor address c.connection_id in
    record c { processor = x; send_queue = c.send_queue ++ (blk ∷ []) }

unfoldable pub send_disconnect : (now : ℕ) → Inbound → (shutdown_type : ℕ) → Inbound
unfolding stop
send_disconnect now c shutdown_type =
    let (blk, x) = pack_disconnect now c.processor c.connection_id shutdown_type in
    let sent = record c { processor = x; send_queue = c.send_queue ++ (blk ∷ []) } in
    if shutdown_type == shutdown_both then stop sent else sent

unfoldable pub queue_blocks : Inbound → Option (List Block × Processor) → Option Inbound
queue_blocks c none = none
queue_blocks c (some (blocks, x)) =
    some (record c { processor = x; send_queue = c.send_queue ++ blocks })

-- `sendData`. The blocks go into the queue one after the other.
unfoldable pub send_data : (now : ℕ → ℕ) → Inbound → List ℕ → Option Inbound
unfolding queue_blocks
send_data now c payload = queue_blocks c (pack_data now c.processor payload c.connection_id)

-- What `readBlock` returns; `index_panic` is Go's panic on `BlockData[0]` of an empty slice.
pub data BlockRead : Type 0 where
  proceed : BlockRead
  end_of_file : BlockRead
  index_panic : BlockRead

abbrev pub add_u64 : ℕ → ℕ → ℕ
add_u64 a b = (a + b) % 2 ^ 64

-- A call of Read has a slice of `size` bytes, of which those of `done` are filled (`readN` of them).
unfoldable pub read_data : Inbound → List ℕ → (done : List ℕ) → (size : ℕ) → List ℕ × Inbound
read_data c payload done size =
    let space = size - length done in
    let (out, ring) = RingBuffer.read (over_write c.data_buffer payload) space in
    if ltb space (length payload)
    then (
      done ++ out,
      record c { data_buffer = ring; recv_bytes = add_u64 c.recv_bytes (length out) },
    )
    else (done ++ payload, record c { recv_bytes = add_u64 c.recv_bytes (length payload) })

unfoldable pub shut : Inbound → List ℕ → BlockRead × Inbound
shut c [] = (index_panic, c)
shut c (kind ∷ more) =
    if kind == shutdown_both
    then (end_of_file, record c { closed = true })
    else (if kind == shutdown_write
        then (end_of_file, record c { read_closed = true })
        else (if kind == shutdown_read
            then (proceed, record c { write_closed = true })
            else (proceed, c)))

unfoldable pub read_block :
    (now : ℕ) → Inbound → Block → (done : List ℕ) → (size : ℕ) → BlockRead × List ℕ × Inbound
unfolding shut read_data
read_block now c0 blk done size =
    let c = record c0 { last_activity = now } in
    let (status, c1) = shut c blk.block_data in
    let (done', c2) = read_data c blk.block_data done size in
    if blk.block_type == type_disconnect
    then (status, done, c1)
    else (if blk.block_type == type_data then (proceed, done', c2) else (proceed, done, c))

-- A closed channel that is empty gives zero values for ever.
abbrev pub zero_block : Block
zero_block = record {
  block_type = 0;
  connection_id = 0;
  time_stamp = 0;
  block_id = 0;
  block_length = 0;
  block_data = [];
  packed = none;
}

unfoldable pub take_block : Inbound → List Block → Option (Block × Inbound)
take_block c [] = if c.queues_closed then some (zero_block, c) else none
take_block c (blk ∷ blocks) = some (blk, record c { ordered_recv_queue = blocks })

unfoldable pub recv_ordered : Inbound → Option (Block × Inbound)
unfolding take_block
recv_ordered c = take_block c c.ordered_recv_queue

-- How a call of Read ends: with the bytes that it put into the slice and no error; with none and
-- io.EOF; or not, because it waits for a block, panics or (fuel that ran out) goes on.
pub data Outcome : Type 0 where
  returned : List ℕ → Outcome
  at_eof : Outcome
  waiting : Outcome
  panicked : Outcome
  running : Outcome

unfoldable pub some_or_eof : List ℕ → Outcome
some_or_eof [] = at_eof
some_or_eof (b ∷ bs) = returned (b ∷ bs)

-- The loop of a closed connection: it reads all that is left in the channel.
unfoldable pub drain_loop :
    ℕ → (now : ℕ) → Inbound → (done : List ℕ) → (size : ℕ) → Outcome × Inbound
drain_loop zero now c done size = (running, c)
drain_loop (suc fuel) now c done size = elim (recv_ordered c) [
  | none ↦ (some_or_eof done, c)
  | some (blk, c1) ↦
      let (status, done', c2) = read_block now c1 blk done size in
      elim status [
        | index_panic ↦ (panicked, c2)
        | _ ↦
            let rest = drain_loop fuel now c2 done' size in
            if length done' == size then (returned done', c2) else rest
      ]
]

-- The last loop takes what is there without waiting. `pick` is the choice that select makes at each
-- round if both a block and the end of `readCtx` are there: true takes the end.
unfoldable pub more_loop :
    ℕ → (now : ℕ) → (pick : ℕ → Bool) → Inbound → (done : List ℕ) → (size : ℕ) → Outcome × Inbound
more_loop zero now pick c done size = (running, c)
more_loop (suc fuel) now pick c done size = elim (recv_ordered c) [
  | none ↦ (returned done, c)
  | some (blk, c1) ↦
      let go_on : Outcome × Inbound =
        let (status, done', c2) = read_block now c1 blk done size in
        elim status [
          | index_panic ↦ (panicked, c2)
          | end_of_file ↦ (returned done', c2)
          | proceed ↦
              let rest = more_loop fuel now pick c2 done' size in
              if length done' == size then (returned done', c2) else rest
        ] in
      if c.read_done && pick fuel then (returned done, c) else go_on
]

-- The wait for a first block, while nothing has been read.
unfoldable pub first_wait :
    ℕ → (now : ℕ) → (pick : ℕ → Bool) → Inbound → (size : ℕ) → Outcome × Inbound
first_wait fuel now pick c size = elim (recv_ordered c) [
  | none ↦ if c.read_done then (at_eof, c) else (waiting, c)
  | some (blk, c1) ↦
      let go_on : Outcome × Inbound =
        let (status, done', c2) = read_block now c1 blk [] size in
        elim status [
          | index_panic ↦ (panicked, c2)
          | end_of_file ↦ (some_or_eof done', c2)
          | proceed ↦
              let rest = more_loop fuel now pick c2 done' size in
              if length done' == size then (returned done', c2) else rest
        ] in
      if c.read_done && pick fuel then (at_eof, c) else go_on
]

-- Behind the bytes that the buffer had.
unfoldable pub read_queue :
    ℕ → (now : ℕ) → (pick : ℕ → Bool) → Inbound → (done : List ℕ) → (size : ℕ) → Outcome × Inbound
read_queue fuel now pick c done size =
    if c.closed || c.read_closed
    then drain_loop fuel now c done size
    else (if length done == 0
        then first_wait fuel now pick c size
        else more_loop fuel now pick c done size)

-- `Read` into a slice of `size` bytes. The queue holds the blocks that come before the call ends.
unfoldable pub read : (fuel now : ℕ) → (pick : ℕ → Bool) → Inbound → (size : ℕ) → Outcome × Inbound
read fuel now pick c size =
    let (out, ring) = RingBuffer.read c.data_buffer size in
    let c1 = record c { data_buffer = ring } in
    if is_empty c.data_buffer
    then read_queue fuel now pick c [] size
    else (if length out == size then (returned out, c1) else read_queue fuel now pick c1 out size)

-- A write on a closed connection is EINVAL (`none` inside); the outer `none` is for fuel that ran out.
unfoldable pub write : (now : ℕ → ℕ) → Inbound → List ℕ → Option (Option ℕ × Inbound)
write now c payload =
    if c.write_closed || c.closed then some (none, c) else elim (send_data now c payload) [
      | none ↦ none
      | some c1 ↦
          some (
            some (length payload),
            record c1 { sent_bytes = add_u64 c1.sent_bytes (length payload) },
          )
    ]

unfoldable pub close : (now : ℕ) → Inbound → Inbound
close now c =
    if c.closed
    then stop c
    else stop (record (send_disconnect now (record c { closed = true }) shutdown_both) {
      queues_closed = true;
    })

unfoldable pub close_read : (now : ℕ) → Inbound → Inbound
close_read now c = send_disconnect now c shutdown_read

unfoldable pub close_write : (now : ℕ) → Inbound → Inbound
close_write now c = send_disconnect now c shutdown_write
