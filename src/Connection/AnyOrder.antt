-- ===== src/Connection/AnyOrder.antt =====
-- From a client's Write to the server's target, with the blocks arriving in any order: connection/
-- inbound_connection.go, block_processor.go and outbound_connection.go.
use rabbit_mtcp_ws_socks.Prelude.{ℕ, zero, suc, Option, none, some, List, [], ◌∷◌}
use rabbit_mtcp_ws_socks.Block.{Block, new_connect_block}
use rabbit_mtcp_ws_socks.Connection.Processor.{Relay}
use rabbit_mtcp_ws_socks.Connection.Inbound.{Inbound, new_inbound_connection, send_connect, write}
use rabbit_mtcp_ws_socks.Connection.Outbound.{Outbound}

-- The block of a list at a place, some block behind its end.
unfoldable pub block_at : List Block → ℕ → Block
block_at [] i = new_connect_block 0 0 0 []
block_at (b ∷ bs) zero = b
block_at (b ∷ bs) (suc i) = block_at bs i

-- The blocks that are queued after a write.
abbrev pub queue_after : Option (Option ℕ × Inbound) → List Block
queue_after none = []
queue_after (some (n, c)) = c.send_queue

-- A connection that was just dialed, and a write on it.
abbrev pub dialed_write :
    (clock : ℕ → ℕ) (id now : ℕ) (address payload : List ℕ) → Option (Option ℕ × Inbound)
dialed_write clock id now address payload =
    write clock (send_connect now (new_inbound_connection id now) address) payload
