-- ===== src/Pools/ConnectionPool.antt =====
-- connection_pool/pool.go: which connection a received block goes to.
use rabbit_mtcp_ws_socks.Prelude.{ℕ, suc, Bool, none, some, List, [], ◌∷◌, ◌++◌, if◌then◌else◌}
use rabbit_mtcp_ws_socks.NatMap.{lookup, insert, delete}
use rabbit_mtcp_ws_socks.Block.{Block}
use rabbit_mtcp_ws_socks.TunnelPool.Pool.{increment32, decrement32}

-- A connection in the pool: its id, and the blocks that its RecvBlock has put on its queue.
pub record Connection : Type 0 where
  pub connection_id : ℕ
  pub recv_queue : List Block

-- `connection_count` is the counter of both ClientStats and ServerStats, which are changed together.
pub record ConnectionPool : Type 0 where
  pub connection_mapping : List (ℕ × Connection)
  pub accept_new_connection : Bool
  pub connection_count : ℕ
  pub send_queue : List Block
  pub tunnel_send_queue : List Block
  pub unknown : ℕ

-- `NewConnectionPool`, in a process that has no other pool.
unfoldable pub new_connection_pool : Bool → ConnectionPool
new_connection_pool accept = record {
  connection_mapping = [];
  accept_new_connection = accept;
  connection_count = 0;
  send_queue = [];
  tunnel_send_queue = [];
  unknown = 0;
}

-- `addConnection`.
unfoldable pub add_connection : Connection → ConnectionPool → ConnectionPool
add_connection c p = record p {
  connection_mapping = insert c.connection_id c p.connection_mapping;
  connection_count = increment32 p.connection_count;
}

-- `removeConnection`, which runs once the connection's context is done.
unfoldable pub remove_connection : ℕ → ConnectionPool → ConnectionPool
remove_connection id p = elim (lookup id p.connection_mapping) [
  | none ↦ p
  | some c ↦ record p {
    connection_mapping = delete id p.connection_mapping;
    connection_count = decrement32 p.connection_count;
  }
]

-- `NewPooledInboundConnection` and `NewPooledOutboundConnection`, given the connection's id.
unfoldable pub new_connection : ℕ → ConnectionPool → ConnectionPool
new_connection id p = add_connection (record { connection_id = id; recv_queue = [] }) p

-- `RecvBlock` of the connection with this id.
unfoldable pub put_block : Block → Connection → ConnectionPool → ConnectionPool
put_block blk c p = record p {
  connection_mapping =
      insert c.connection_id (record c { recv_queue = c.recv_queue ++ (blk ∷ []) })
        p.connection_mapping;
}

-- `recvRelay` for one block; `unknown` counts the blocks it drops.
unfoldable pub recv_block : Block → ConnectionPool → ConnectionPool
recv_block blk p = elim (lookup blk.connection_id p.connection_mapping) [
  | some c ↦ put_block blk c p
  | none ↦
      if p.accept_new_connection
      then put_block blk (record { connection_id = blk.connection_id; recv_queue = [] })
          (new_connection blk.connection_id p)
      else record p { unknown = suc p.unknown }
]

unfoldable pub recv_relay : List Block → ConnectionPool → ConnectionPool
recv_relay [] p = p
recv_relay (b ∷ bs) p = recv_relay bs (recv_block b p)

-- `sendRelay` for one block: from the pool's queue to the tunnel pool's.
unfoldable pub send_relay : ConnectionPool → ConnectionPool
send_relay p = elim p.send_queue [
  | [] ↦ p
  | blk ∷ rest ↦ record p {
    send_queue = rest;
    tunnel_send_queue = p.tunnel_send_queue ++ (blk ∷ []);
  }
]
