-- ===== src/Pools/PeerGroup.antt =====
-- peer/peer_group.go with peer/server.go: the server's peers and their tunnels.
use rabbit_mtcp_ws_socks.Prelude.{ℕ, true, none, some, List, []}
use rabbit_mtcp_ws_socks.NatMap.{lookup, insert, delete}
use rabbit_mtcp_ws_socks.TunnelPool.Pool.{Tunnel, TunnelPool, new_tunnel_pool, add_tunnel}
use rabbit_mtcp_ws_socks.TunnelPool.Countdown.{ServerManager, new_server_manager}
use rabbit_mtcp_ws_socks.TunnelPool.Removal.{server_ops}
use rabbit_mtcp_ws_socks.Pools.ConnectionPool.{ConnectionPool, new_connection_pool}

-- `ServerPeer`: the pools of a peer.
pub record ServerPeer : Type 0 where
  pub peer_id : ℕ
  pub tunnel_pool : TunnelPool ServerManager
  pub connection_pool : ConnectionPool

-- `NewServerPeerWithID`: the server accepts new connections.
unfoldable pub new_server_peer : ℕ → ServerPeer
new_server_peer id = record {
  peer_id = id;
  tunnel_pool = new_tunnel_pool server_ops id new_server_manager;
  connection_pool = new_connection_pool true;
}

pub record PeerGroup : Type 0 where
  pub peer_mapping : List (ℕ × ServerPeer)

unfoldable pub new_peer_group : PeerGroup
new_peer_group = record { peer_mapping = [] }

-- The peer of a tunnel, new if there is none.
unfoldable pub peer_for : ℕ → PeerGroup → ServerPeer
peer_for id g = elim (lookup id g.peer_mapping) [ some p ↦ p | none ↦ new_server_peer id ]

unfoldable pub give_tunnel : Tunnel → ServerPeer → ServerPeer
give_tunnel t p = record p { tunnel_pool = add_tunnel server_ops t p.tunnel_pool }

-- `AddTunnel`.
unfoldable pub group_add_tunnel : Tunnel → PeerGroup → PeerGroup
group_add_tunnel t g = record g {
  peer_mapping = insert t.peer_id (give_tunnel t (peer_for t.peer_id g)) g.peer_mapping;
}

-- `RemovePeer`.
unfoldable pub remove_peer : ℕ → PeerGroup → PeerGroup
remove_peer id g = record g { peer_mapping = delete id g.peer_mapping }
