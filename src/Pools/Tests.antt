-- ===== src/Pools/Tests.antt =====
-- Runs of the pools, and their theorems at concrete inputs.
use rabbit_mtcp_ws_socks.Prelude.{ℕ, ◌≡◌, true, false, none, [], ◌∷◌}
use rabbit_mtcp_ws_socks.NatMap.{lookup}
use rabbit_mtcp_ws_socks.Block.{Block}
use rabbit_mtcp_ws_socks.TunnelPool.Pool.{Tunnel}
use rabbit_mtcp_ws_socks.Pools.ConnectionPool.{ConnectionPool, new_connection_pool, recv_relay}
use rabbit_mtcp_ws_socks.Pools.Entries.{Keyed, queue_of, blocks_for}
use rabbit_mtcp_ws_socks.Pools.Routing.{recv_relay_routes}
use rabbit_mtcp_ws_socks.Pools.PeerGroup.{PeerGroup, new_peer_group, group_add_tunnel}
use rabbit_mtcp_ws_socks.Pools.Owners.{Owned, GroupReach, GroupReach-Owned}

abbrev block_for : ℕ → ℕ → Block
block_for conn id = record {
  block_type = 2;
  connection_id = conn;
  time_stamp = 0;
  block_id = id;
  block_length = 0;
  block_data = [];
  packed = none;
}

abbrev server_pool : ConnectionPool
server_pool = new_connection_pool true

server_pool-Keyed : Keyed server_pool
unfolding new_connection_pool lookup
server_pool-Keyed k c h = absurd (cc)

recv_relay_routes_example :
    queue_of 7 (recv_relay (block_for 7 0 ∷ block_for 8 0 ∷ block_for 7 1 ∷ []) server_pool)
    ≡ block_for 7 0 ∷ block_for 7 1 ∷ []
unfolding new_connection_pool lookup blocks_for
recv_relay_routes_example =
    recv_relay_routes 7 (block_for 7 0 ∷ block_for 8 0 ∷ block_for 7 1 ∷ []) server_pool
      server_pool-Keyed

abbrev tunnel_of : ℕ → ℕ → Tunnel
tunnel_of peer i = record {
  tunnel_id = i;
  peer_id = peer;
  recv_bytes = 0;
  sent_bytes = 0;
  last_activity = 0;
  latency_nano = 0;
  is_client_mode = false;
  is_active = true;
  cancelled = false;
}

abbrev two_peers : PeerGroup
two_peers = group_add_tunnel (tunnel_of 2 11) (group_add_tunnel (tunnel_of 1 10) new_peer_group)

GroupReach-Owned_example : Owned two_peers
GroupReach-Owned_example = GroupReach-Owned two_peers (
    GroupReach.joined (tunnel_of 2 11) (group_add_tunnel (tunnel_of 1 10) new_peer_group)
      (GroupReach.joined (tunnel_of 1 10) new_peer_group GroupReach.started))
