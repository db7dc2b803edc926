-- ===== src/Connection/Tests.antt =====
-- Concrete runs for the connection package, and its theorems at concrete inputs.
use rabbit_mtcp_ws_socks.Connection.Outbound.{Socket, Outbound, new_outbound_connection}
use rabbit_mtcp_ws_socks.Prelude.{
  ℕ, ◌≤◌, ◌≡◌, refl, ◌≢◌, Bool, true, false, Option, none, some, List, [], ◌∷◌, ◌++◌, arith, length,
}
use rabbit_mtcp_ws_socks.Block.{Block, type_data}
use rabbit_mtcp_ws_socks.Connection.Processor.{new_processor, Relay}
use rabbit_mtcp_ws_socks.Connection.RingBuffer
use rabbit_mtcp_ws_socks.Connection.RingBuffer.{IsRing, over_write, is_empty}
use rabbit_mtcp_ws_socks.Connection.Inbound.{
  Inbound, returned, panicked, running, read, read_queue, first_wait, more_loop, recv_ordered,
  take_block, read_block, read_data, shut, close,
}
use rabbit_mtcp_ws_socks.Connection.Reading.{pending, bytes_of}
use rabbit_mtcp_ws_socks.Connection.Read.{IsOpen, read_conserves, read-close}

abbrev numbered_block : ℕ → Block
numbered_block i = record {
  block_type = type_data;
  connection_id = 9;
  time_stamp = 0;
  block_id = i;
  block_length = 1;
  block_data = i ∷ [];
  packed = none;
}

abbrev with_hole : List (Option ℕ)
with_hole = some 2 ∷ none ∷ some 0 ∷ some 0 ∷ []

abbrev shuffled : List (Option ℕ)
shuffled = some 1 ∷ none ∷ some 0 ∷ []

-- Two data blocks and the end of the other side's stream wait for a reader.
abbrev two_waiting : Inbound
two_waiting = record {
  processor = new_processor;
  connection_id = 9;
  closed = false;
  read_closed = false;
  write_closed = false;
  send_queue = [];
  ordered_recv_queue = numbered_block 4 ∷ numbered_block 5 ∷ [];
  queues_closed = false;
  data_buffer = record { buffer = 0 ∷ []; head = 0; tail = 0 };
  read_done = false;
  last_activity = 0;
  sent_bytes = 0;
  recv_bytes = 0;
  removals = 0;
}

abbrev idle : Inbound
idle = record two_waiting { ordered_recv_queue = [] }

two_waiting-IsOpen : IsOpen two_waiting 3
two_waiting-IsOpen = record {
  ring = record { head_in = omega arith; tail_in = omega arith };
  is_open = refl;
  readable = (λ h. omega arith, (λ h. omega arith, tt));
  enough = omega arith;
}

read_both : (read 3 7 (λ i. false) two_waiting 10).0 ≡ returned (4 ∷ 5 ∷ [])
unfolding read read_queue first_wait more_loop recv_ordered take_block read_block read_data shut
    RingBuffer.read over_write is_empty
read_both = refl

read_conserves_example :
    let (o, c') = read 3 7 (λ i. false) two_waiting 1 in
    (bytes_of o ++ pending c' ≡ 4 ∷ 5 ∷ [])
    × (length (bytes_of o) ≤ 1)
    × (o ≢ panicked)
    × (o ≢ running)
    × IsRing c'.data_buffer
read_conserves_example = read_conserves 3 7 (λ i. false) two_waiting 1 two_waiting-IsOpen

read-close_example : (read 5 8 (λ i. false) (close 7 idle) 10).0 ≡ running
unfolding is_empty
read-close_example = read-close 5 7 8 (λ i. false) idle 10 refl refl refl (omega arith)

abbrev idle_socket : Socket
idle_socket = record {
  written = [];
  read_closed = false;
  write_closed = false;
  is_closed = false;
  broken = none;
}

abbrev dialed : Outbound
dialed = record (new_outbound_connection 9) { socket = some idle_socket; closed = false }

-- The data block overtakes the one of the connect, and comes twice.
abbrev overtaking : List (Option ℕ)
overtaking = some 1 ∷ none ∷ some 0 ∷ some 1 ∷ []

-- The second read comes with the cancellation, the third after it.
abbrev cancelled_reads : List (List ℕ × Bool)
cancelled_reads = (1 ∷ 2 ∷ [], false) ∷ (3 ∷ [], true) ∷ (4 ∷ [], false) ∷ []
