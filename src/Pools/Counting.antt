-- ===== src/Pools/Counting.antt =====
-- The connection count of connection_pool/pool.go.
use rabbit_mtcp_ws_socks.Prelude.{ℕ, ◌%◌, ◌^◌, ◌≡◌, Bool, none, length}
use rabbit_mtcp_ws_socks.NatMap.{lookup, IsMap}
use rabbit_mtcp_ws_socks.Block.{Block}
use rabbit_mtcp_ws_socks.Pools.ConnectionPool.{
  ConnectionPool, new_connection_pool, new_connection, remove_connection, recv_block, send_relay,
}
use rabbit_mtcp_ws_socks.Pools.Entries.{Keyed}

-- The pools that a process can come to: blocks arrive, connections end, the client opens one under an
-- id that is not in use, and a block is handed on.
pub data PoolReach : ConnectionPool → Type 0 where
  started : (accept : Bool) → PoolReach (new_connection_pool accept)
  received : (b : Block) (p : ConnectionPool) → PoolReach p → PoolReach (recv_block b p)
  ended : (id : ℕ) (p : ConnectionPool) → PoolReach p → PoolReach (remove_connection id p)
  dialed :
      (id : ℕ) (p : ConnectionPool)
      → lookup id p.connection_mapping ≡ none
      → PoolReach p
      → PoolReach (new_connection id p)
  handed_on : (p : ConnectionPool) → PoolReach p → PoolReach (send_relay p)

record Counted (p : ConnectionPool) : Type 0 where
  one_each : IsMap p.connection_mapping
  keyed : Keyed p
  counted : p.connection_count ≡ length p.connection_mapping % 2 ^ 32
