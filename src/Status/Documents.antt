-- ===== src/Status/Documents.antt =====
-- The documents of the status servers in cmd/rabbit.go, with the getters of
-- connection_pool/pool.go, tunnel_pool/pool.go and peer/peer_group.go that they are made of.
pub mod Listed
mod Tests
use rabbit_mtcp_ws_socks.Prelude.{
  subst, ℕ, zero, suc, ◌+◌, ◌-◌, ◌*◌, ◌/◌, ◌%◌, ◌^◌, ◌≤◌, ◌<◌, min, max, ◌≡◌, refl, sym, ap, ◌∙◌,
  ◌≢◌, ◌↔◌, ◌⊎◌, inl, inr, Bool, true, false, not, ◌&&◌, ◌||◌, Option, none, some, List, [], ◌∷◌,
  ◌++◌, map, append-nil, append_assoc, arith, ltb, leb, ◌==◌, if◌then◌else◌, ltb→lt, lt→ltb, ltb→le,
  le→ltb, ==→eq, ==→ne, eq→==, ne→==, Bool-cases, Option-cases, Result, ok, err, Result-cases,
  length, take, drop, replicate, get_or, set, All, length-append, take-append-drop, length-take,
  length-drop, length-replicate, take-append, drop-append, take_all, drop_all, drop-nil, drop-drop,
  All-append, drop-take, take-min,
}
use rabbit_mtcp_ws_socks.TunnelPool.Pool.{Tunnel, TunnelPool}
use rabbit_mtcp_ws_socks.TunnelPool.Countdown.{ServerManager}
use rabbit_mtcp_ws_socks.Pools.ConnectionPool.{Connection, ConnectionPool}
use rabbit_mtcp_ws_socks.Pools.PeerGroup.{ServerPeer, PeerGroup}

-- A loop over a map that appends what it makes of each value, in the order of the entries.
unfoldable pub gathered : {V A : Type 0} → (V → List A) → List (ℕ × V) → List A
gathered f [] = []
gathered f ((k, v) ∷ m) = f v ++ gathered f m

-- An entry of `GetTunnelConnsInfo`, less the addresses of the websocket and the activity as text.
pub record TunnelInfo : Type 0 where
  pub tunnel_id : ℕ
  pub peer_id : ℕ
  pub is_active : Bool
  pub latency_nano : ℕ
  pub sent_bytes : ℕ
  pub recv_bytes : ℕ

-- The entry of a tunnel in the pool of a peer: the peer's id is the pool's.
abbrev pub tunnel_info : (peer_id : ℕ) → Tunnel → TunnelInfo
tunnel_info peer_id t = record {
  tunnel_id = t.tunnel_id;
  peer_id = peer_id;
  is_active = t.is_active;
  latency_nano = t.latency_nano;
  sent_bytes = t.sent_bytes;
  recv_bytes = t.recv_bytes;
}

-- `GetTunnelConnsInfo`.
abbrev pub get_tunnel_conns_info : {S : Type 0} → TunnelPool S → List TunnelInfo
get_tunnel_conns_info p = gathered (λ t. tunnel_info p.peer_id t ∷ []) p.tunnel_mapping

-- The fields of `GetTunnelPoolInfo` that are not lengths of channels.
pub record TunnelPoolInfo : Type 0 where
  pub peer_id : ℕ
  pub tunnel_count : ℕ

abbrev pub get_tunnel_pool_info : {S : Type 0} → TunnelPool S → TunnelPoolInfo
get_tunnel_pool_info p = record { peer_id = p.peer_id; tunnel_count = length p.tunnel_mapping }

-- What the pool knows of the entry of a connection in `GetConnectionsInfo`.
pub record ConnectionInfo : Type 0 where
  pub connection_id : ℕ
  pub recv_queue_length : ℕ

abbrev pub connection_info : Connection → ConnectionInfo
connection_info c = record {
  connection_id = c.connection_id;
  recv_queue_length = length c.recv_queue;
}

-- `GetConnectionsInfo`.
abbrev pub get_connections_info : ConnectionPool → List ConnectionInfo
get_connections_info p = gathered (λ c. connection_info c ∷ []) p.connection_mapping

-- `GetConnectionPoolInfo`, given the size of the tunnel pool.
pub record ConnectionPoolInfo : Type 0 where
  pub connection_count : ℕ
  pub send_queue_length : ℕ
  pub tunnel_pool_size : ℕ
  pub accept_new_connection : Bool

abbrev pub get_connection_pool_info : (tunnel_pool_size : ℕ) → ConnectionPool → ConnectionPoolInfo
get_connection_pool_info size p = record {
  connection_count = length p.connection_mapping;
  send_queue_length = length p.send_queue;
  tunnel_pool_size = size;
  accept_new_connection = p.accept_new_connection;
}

-- `GetAllTunnelPools` and `GetAllConnectionPools`, the latter with the sizes of the tunnel pools.
abbrev pub get_all_tunnel_pools : PeerGroup → List (TunnelPool ServerManager)
get_all_tunnel_pools g = gathered (λ p. p.tunnel_pool ∷ []) g.peer_mapping

abbrev pub get_all_connection_pools : PeerGroup → List (ℕ × ConnectionPool)
get_all_connection_pools g =
    gathered (λ p. (length p.tunnel_pool.tunnel_mapping, p.connection_pool) ∷ []) g.peer_mapping

-- The loops over the pools.
unfoldable pub over_pools : {A B : Type 0} → (A → List B) → List A → List B
over_pools f [] = []
over_pools f (p ∷ ps) = f p ++ over_pools f ps

pub record Documents : Type 0 where
  pub tunnels : List TunnelInfo
  pub tunnel_pools : List TunnelPoolInfo
  pub connections : List ConnectionInfo
  pub connection_pools : List ConnectionPoolInfo

-- What the handler of /status/ of `statusServer2` collects.
unfoldable pub server_documents : PeerGroup → Documents
server_documents g = record {
  tunnels = over_pools get_tunnel_conns_info (get_all_tunnel_pools g);
  tunnel_pools = over_pools (λ p. get_tunnel_pool_info p ∷ []) (get_all_tunnel_pools g);
  connections = over_pools (λ (n, p). get_connections_info p) (get_all_connection_pools g);
  connection_pools =
      over_pools (λ (n, p). get_connection_pool_info n p ∷ []) (get_all_connection_pools g);
}

-- `GetTunnelsInfo` and `GetTunnelPoolInfo` of the connection pool, which ask its tunnel pool.
abbrev pub get_tunnels_info : {S : Type 0} → ConnectionPool × TunnelPool S → List TunnelInfo
get_tunnels_info (p, t) = get_tunnel_conns_info t

abbrev pub get_pool_tunnel_info : {S : Type 0} → ConnectionPool × TunnelPool S → TunnelPoolInfo
get_pool_tunnel_info (p, t) = get_tunnel_pool_info t

-- What the handler of /status/ of `statusServer1` collects from the client's connection pool, which
-- holds the client's tunnel pool.
unfoldable pub client_documents : {S : Type 0} → ConnectionPool × TunnelPool S → Documents
client_documents (p, t) = record {
  tunnels = get_tunnels_info (p, t);
  tunnel_pools = get_pool_tunnel_info (p, t) ∷ [];
  connections = get_connections_info p;
  connection_pools = get_connection_pool_info (length t.tunnel_mapping) p ∷ [];
}
