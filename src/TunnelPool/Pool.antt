-- ===== src/TunnelPool/Pool.antt =====
-- tunnel_pool/pool.go: the tunnels of a peer, with the counters of stats/stats.go they change.
use rabbit_mtcp_ws_socks.Prelude.{
  ℕ, suc, ◌+◌, ◌-◌, ◌%◌, ◌^◌, Bool, none, some, List, [], if◌then◌else◌, length,
}
use rabbit_mtcp_ws_socks.NatMap.{lookup, insert, delete}

-- tunnel_pool's Tunnel, less its net.Conn. `cancelled` is its context.
pub record Tunnel : Type 0 where
  pub tunnel_id : ℕ
  pub peer_id : ℕ
  pub recv_bytes : ℕ
  pub sent_bytes : ℕ
  pub last_activity : ℕ
  pub latency_nano : ℕ
  pub is_client_mode : Bool
  pub is_active : Bool
  pub cancelled : Bool

-- Manager: what Notify does to the manager's state, given the size of the pool.
pub record Manager (S : Type 0) : Type 0 where
  pub notify : ℕ → S → S

-- An int32 counter, by its 32 bits.
unfoldable pub increment32 : ℕ → ℕ
increment32 n = (n + 1) % 2 ^ 32

unfoldable pub decrement32 : ℕ → ℕ
decrement32 n = (n + (2 ^ 32 - 1)) % 2 ^ 32

-- The pool, with the tunnel counts of ClientStats and ServerStats, and the number of calls of the
-- manager's DecreaseNotify so far.
pub record TunnelPool (S : Type 0) : Type 0 where
  pub tunnel_mapping : List (ℕ × Tunnel)
  pub peer_id : ℕ
  pub manager : S
  pub client_tunnels : ℕ
  pub server_tunnels : ℕ
  pub decrease_notified : ℕ

module _ {S : Type 0} (m : Manager S) where
  -- `NewTunnelPool`, in a process that has no other pool.
  unfoldable pub new_tunnel_pool : ℕ → S → TunnelPool S
  new_tunnel_pool peer s = record {
    tunnel_mapping = [];
    peer_id = peer;
    manager = s;
    client_tunnels = 0;
    server_tunnels = 0;
    decrease_notified = 1;
  }

  unfoldable pub count_up : Tunnel → TunnelPool S → TunnelPool S
  count_up t p =
      if t.is_client_mode
      then record p { client_tunnels = increment32 p.client_tunnels }
      else record p { server_tunnels = increment32 p.server_tunnels }

  unfoldable pub count_down : Tunnel → TunnelPool S → TunnelPool S
  count_down t p =
      if t.is_client_mode
      then record p { client_tunnels = decrement32 p.client_tunnels }
      else record p { server_tunnels = decrement32 p.server_tunnels }

  -- A changed mapping, and the manager told of its size.
  unfoldable pub with_mapping : List (ℕ × Tunnel) → TunnelPool S → TunnelPool S
  with_mapping tm p = record p { tunnel_mapping = tm; manager = m.notify (length tm) p.manager }

  -- `AddTunnel`.
  unfoldable pub add_tunnel : Tunnel → TunnelPool S → TunnelPool S
  add_tunnel t p = count_up t (with_mapping (insert t.tunnel_id t p.tunnel_mapping) p)

  -- `RemoveTunnel`, which runs once the tunnel's context is done.
  unfoldable pub remove_tunnel : Tunnel → TunnelPool S → TunnelPool S
  remove_tunnel t p = elim (lookup t.tunnel_id p.tunnel_mapping) [
    | none ↦ p
    | some t1 ↦
        let p' = with_mapping (delete t1.tunnel_id p.tunnel_mapping) p in
        count_down t1 (record p' { decrease_notified = suc p'.decrease_notified })
  ]
