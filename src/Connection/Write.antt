-- ===== src/Connection/Write.antt =====
-- Write and the other sending methods of connection/inbound_connection.go and connection/connection.go.
use rabbit_mtcp_ws_socks.Prelude.{
  ℕ, ◌+◌, ◌^◌, ◌<◌, ◌≡◌, refl, true, false, ◌||◌, none, some, List, [], ◌∷◌, ◌++◌, arith, length,
}
use rabbit_mtcp_ws_socks.Block.{Block, shutdown_both, new_disconnect_block}
use rabbit_mtcp_ws_socks.Block.Split.{IsSplit, new_data_blocks-IsSplit, next_id_lem}
use rabbit_mtcp_ws_socks.Connection.Processor.{pack_data, pack_disconnect}
use rabbit_mtcp_ws_socks.Connection.Inbound.{
  Inbound, send_disconnect, send_data, queue_blocks, write, close, stop, add_u64,
}

-- What a write of `payload` has done: the data blocks that carry it, numbered from the counter on,
-- stand at the end of the send queue, the counter has moved on by their number, and nothing else but
-- the count of bytes has changed.
pub record Wrote (c : Inbound) (payload : List ℕ) (c' : Inbound) (blocks : List Block)
    : Type 0 where
  pub queued : c'.send_queue ≡ c.send_queue ++ blocks
  pub split :
      IsSplit c.connection_id c.processor.send_block_id payload (c'.processor.send_block_id, blocks)
  pub counted : c'.sent_bytes ≡ add_u64 c.sent_bytes (length payload)
  pub others :
      record c' { send_queue = c.send_queue; processor = c.processor; sent_bytes = c.sent_bytes }
      ≡ c

-- A write on an open connection takes all of the payload and queues it as numbered data blocks.
pub write-Wrote :
    (now : ℕ → ℕ) (c : Inbound) (payload : List ℕ)
    → ((i : ℕ) → now i < 2 ^ 64)
    → c.connection_id < 2 ^ 32
    → c.processor.send_block_id < 2 ^ 32
    → c.write_closed || c.closed ≡ false
    → (c' : Inbound) × (blocks : List Block) × (write now c payload
        ≡ some (some (length payload), c'))
      × Wrote c payload c' blocks
unfolding write send_data queue_blocks pack_data
write-Wrote now c payload hn hc hk o =
    let ((counter, blocks), run, split) =
      new_data_blocks-IsSplit now c.connection_id c.processor.send_block_id payload hn hc hk in
    (
      record c {
        processor = record c.processor { send_block_id = counter };
        send_queue = c.send_queue ++ blocks;
        sent_bytes = add_u64 c.sent_bytes (length payload);
      },
      blocks,
      rw (o, run),
      record { queued = refl; split = split; counted = refl; others = refl },
    )

-- A write on a connection that was closed, or whose writing side was, is refused and changes nothing.
pub write_closed_lem :
    (now : ℕ → ℕ) (c : Inbound) (payload : List ℕ)
    → c.write_closed || c.closed ≡ true
    → write now c payload ≡ some (none, c)
unfolding write
write_closed_lem now c payload o = rw o

-- The first Close announces it to the other side by one disconnect block, closes the queues and stops
-- the relay (twice); every later Close only calls for its removal again.
pub close_once :
    (now later : ℕ) (c : Inbound)
    → c.processor.send_block_id < 2 ^ 32
    → c.closed ≡ false
    → let c1 = close now c in
      (c1.closed ≡ true)
      × (c1.queues_closed ≡ true)
      × (c1.send_queue
          ≡ c.send_queue
            ++ (new_disconnect_block now c.connection_id c.processor.send_block_id shutdown_both
                ∷ []))
      × (c1.removals ≡ c.removals + 2)
      × (close later c1 ≡ record c1 { removals = c1.removals + 1 })
unfolding close send_disconnect stop pack_disconnect
close_once now later c h o =
    rw (o, next_id_lem c.processor.send_block_id h) (refl, refl, refl, omega arith, refl)
