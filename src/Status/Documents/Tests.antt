-- ===== src/Status/Documents/Tests.antt =====
-- The documents of a server with two tunnels.
use rabbit_mtcp_ws_socks.Prelude.{ℕ, ◌≡◌, refl, ◌↔◌, true, false, [], ◌∷◌}
use mathlib.Core.List.{Memᴰ}
use rabbit_mtcp_ws_socks.NatMap.{lookup, insert}
use rabbit_mtcp_ws_socks.TunnelPool.Pool.{
  Tunnel, new_tunnel_pool, add_tunnel, count_up, with_mapping,
}
use rabbit_mtcp_ws_socks.Pools.PeerGroup.{
  PeerGroup, new_peer_group, group_add_tunnel, peer_for, give_tunnel, new_server_peer,
}
use rabbit_mtcp_ws_socks.Pools.ConnectionPool.{new_connection_pool}
use rabbit_mtcp_ws_socks.Pools.Owners.{GroupReach}
use rabbit_mtcp_ws_socks.Status.Documents.{
  gathered, over_pools, tunnel_info, server_documents, client_documents,
}
use rabbit_mtcp_ws_socks.Status.Documents.Listed.{Holds, listed_tunnels}

abbrev tunnel_of : ℕ → ℕ → Tunnel
tunnel_of peer i = record {
  tunnel_id = i;
  peer_id = peer;
  recv_bytes = 0;
  sent_bytes = 0;
  last_activity = 0;
  latency_nano = 0;
  is_client_mode = false;
  is_active = true;
  cancelled = false;
}

abbrev two_peers : PeerGroup
two_peers = group_add_tunnel (tunnel_of 5 1) (group_add_tunnel (tunnel_of 9 2) new_peer_group)

two_tunnels :
    (server_documents two_peers).tunnels
    ≡ tunnel_info 9 (tunnel_of 9 2) ∷ tunnel_info 5 (tunnel_of 5 1) ∷ []
unfolding server_documents over_pools gathered group_add_tunnel new_peer_group peer_for give_tunnel
    new_server_peer new_tunnel_pool add_tunnel count_up with_mapping lookup insert
two_tunnels = refl

listed_tunnels_example :
    Memᴰ (tunnel_info 5 (tunnel_of 5 1)) (server_documents two_peers).tunnels
    ↔ Holds two_peers (tunnel_info 5 (tunnel_of 5 1))
listed_tunnels_example = listed_tunnels two_peers (tunnel_info 5 (tunnel_of 5 1)) (
    GroupReach.joined (tunnel_of 5 1) (group_add_tunnel (tunnel_of 9 2) new_peer_group)
      (GroupReach.joined (tunnel_of 9 2) new_peer_group GroupReach.started))

-- A client with one tunnel.
one_tunnel :
    (client_documents {S = Unit {0}} (
      new_connection_pool false,
      record {
        tunnel_mapping = (1, tunnel_of 5 1) ∷ [];
        peer_id = 5;
        manager = tt;
        client_tunnels = 1;
        server_tunnels = 0;
        decrease_notified = 1;
      },
    )).tunnels
    ≡ tunnel_info 5 (tunnel_of 5 1) ∷ []
unfolding client_documents gathered
one_tunnel = refl
