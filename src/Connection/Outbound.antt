-- ===== src/Connection/Outbound.antt =====
-- connection/outbound_connection.go, with the methods of baseConnection that it uses: the server's
-- end of a proxied connection.
use rabbit_mtcp_ws_socks.Prelude.{
  ℕ, ◌+◌, ◌%◌, ◌^◌, Bool, true, false, not, ◌||◌, Option, none, some, List, [], ◌∷◌, ◌++◌, ◌==◌,
  if◌then◌else◌, length,
}
use rabbit_mtcp_ws_socks.Io.{IoError}
use rabbit_mtcp_ws_socks.Block.{
  Block, type_disconnect, type_data, shutdown_read, shutdown_write, shutdown_both,
}
use rabbit_mtcp_ws_socks.Connection.Processor.{Processor, new_processor, pack_data, pack_disconnect}

-- The TCP connection to the target: what was written to it, which sides were closed, and the error
-- of a write.
pub record Socket : Type 0 where
  pub written : List ℕ
  pub read_closed : Bool
  pub write_closed : Bool
  pub is_closed : Bool
  pub broken : Option IoError

-- `socket` is none while HalfOpenConn is nil; `cancelled` is the context, which removeFromPool
-- cancels.
pub record Outbound : Type 0 where
  pub processor : Processor
  pub connection_id : ℕ
  pub closed : Bool
  pub send_queue : List Block
  pub socket : Option Socket
  pub cancelled : Bool
  pub sent_bytes : ℕ
  pub recv_bytes : ℕ

unfoldable pub new_outbound_connection : ℕ → Outbound
new_outbound_connection connection_id = record {
  processor = new_processor;
  connection_id = connection_id;
  closed = true;
  send_queue = [];
  socket = none;
  cancelled = false;
  sent_bytes = 0;
  recv_bytes = 0;
}

-- `SendDisconnect`; a shutdown of both sides also stops the connection.
unfoldable pub send_disconnect : ℕ → Outbound → ℕ → Outbound
send_disconnect now c shutdown_type =
    let (blk, x) = pack_disconnect now c.processor c.connection_id shutdown_type in
    record c {
      processor = x;
      send_queue = c.send_queue ++ (blk ∷ []);
      cancelled = c.cancelled || (shutdown_type == shutdown_both);
    }

-- `sendData`.
unfoldable pub queue_data : Outbound → Option (List Block × Processor) → Option Outbound
queue_data c none = none
queue_data c (some (blocks, x)) =
    some (record c { processor = x; send_queue = c.send_queue ++ blocks })

unfoldable pub send_data : (ℕ → ℕ) → Outbound → List ℕ → Option Outbound
send_data now c payload = queue_data c (pack_data now c.processor payload c.connection_id)

-- Something done to the TCP connection.
unfoldable pub with_socket : (Socket → Socket) → Outbound → Outbound
with_socket f c = elim c.socket [ none ↦ c | some s ↦ record c { socket = some (f s) } ]

-- `closeThenCancel`.
unfoldable pub close_then_cancel : Outbound → Outbound
close_then_cancel c = record (with_socket (λ s. record s { is_closed = true }) c) {
  cancelled = true;
}

-- `closeThenCancelWithOnceSend`.
unfoldable pub close_once_send : ℕ → Outbound → Outbound
close_once_send now c =
    let c1 = close_then_cancel c in
    if c1.closed then c1 else send_disconnect now (record c1 { closed = true }) shutdown_both

-- `connect` with what the dial gives: none when it fails.
unfoldable pub connect : ℕ → Option Socket → Outbound → Outbound
connect now dialed c = if not c.closed then c else elim c.socket [
  | some s ↦ c
  | none ↦ elim dialed [
    | some s ↦ record c { socket = some s; closed = false }
    | none ↦ send_disconnect now c shutdown_both
  ]
]

-- What a Read of the TCP connection gives.
pub data ReadResult : Type 0 where
  got : List ℕ → ReadResult
  at_end : ReadResult
  timed_out : ReadResult
  failed : ReadResult

-- A turn of `RecvRelay` before it looks at the context: the connection and whether the relay has
-- returned. It is none when the model of packing runs out of fuel, which it never does.
unfoldable pub recv_turn : (ℕ → ℕ) → ReadResult → Outbound → Option (Outbound × Bool)
recv_turn now (got payload) c = elim (send_data now c payload) [
  | none ↦ none
  | some c1 ↦ some (record c1 { recv_bytes = (c1.recv_bytes + length payload) % 2 ^ 64 }, false)
]
recv_turn now at_end c = some (close_once_send (now 0) c, true)
recv_turn now timed_out c = some (c, false)
recv_turn now failed c = some (close_once_send (now 0) c, true)

-- `RecvRelay` of a connection that is not cancelled from elsewhere, over the results of its reads.
unfoldable pub recv_relay : (ℕ → ℕ) → List ReadResult → Outbound → Option (Outbound × Bool)
recv_relay now [] c = some (c, false)
recv_relay now (r ∷ rs) c = elim (recv_turn now r c) [
  | none ↦ none
  | some p ↦ if p.1 then some p else recv_relay now rs p.0
]

-- Writing a data block's bytes.
unfoldable pub write_out : ℕ → List ℕ → Outbound → Outbound
write_out now payload c = elim c.socket [
  | none ↦ c
  | some s ↦ elim s.broken [
    | none ↦ record c {
      socket = some (record s { written = s.written ++ payload });
      sent_bytes = (c.sent_bytes + length payload) % 2 ^ 64;
    }
    | some e ↦ close_once_send now c
  ]
]

-- The shutdown that a disconnect block asks for.
unfoldable pub shut_down : ℕ → Outbound → Outbound
shut_down kind c =
    if kind == shutdown_read
    then with_socket (λ s. record s { read_closed = true }) c
    else if kind == shutdown_write
    then with_socket (λ s. record s { write_closed = true }) c
    else close_then_cancel c

-- `SendRelay` for one block: none when Go panics on `BlockData[0]`.
unfoldable pub send_block : ℕ → Block → Outbound → Option Outbound
send_block now blk c =
    if blk.block_type == type_data
    then some (write_out now blk.block_data c)
    else if blk.block_type == type_disconnect
    then elim blk.block_data [ [] ↦ none | kind ∷ more ↦ some (shut_down kind c) ]
    else some c

-- `SendRelay` over the blocks that it receives before its context is done.
unfoldable pub send_relay : ℕ → List Block → Outbound → Option Outbound
send_relay now [] c = some c
send_relay now (b ∷ bs) c = elim (send_block now b c) [
  | none ↦ none
  | some c1 ↦ send_relay now bs c1
]
