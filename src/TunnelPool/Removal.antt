-- ===== src/TunnelPool/Removal.antt =====
-- When a server's peer is removed: tunnel_pool/pool.go with the ServerManager of
-- tunnel_pool/manager.go.
use rabbit_mtcp_ws_socks.Prelude.{ℕ, ◌≡◌, true, false, none}
use rabbit_mtcp_ws_socks.NatMap.{lookup}
use rabbit_mtcp_ws_socks.TunnelPool.Pool.{
  Tunnel, Manager, TunnelPool, new_tunnel_pool, add_tunnel, remove_tunnel,
}
use rabbit_mtcp_ws_socks.TunnelPool.Countdown.{
  ServerManager, Countdown, running, new_server_manager, notify, elapse,
}

-- The pool of a peer on the server.
abbrev pub server_ops : Manager ServerManager
server_ops = record { notify = notify }

-- The pools of a server's peer, from its creation on: tunnels with new ids are added, tunnels end,
-- and the manager's timers end.
pub data Reach (peer : ℕ) : TunnelPool ServerManager → Type 0 where
  created : Reach peer (new_tunnel_pool server_ops peer new_server_manager)
  added :
      (t : Tunnel) (p : TunnelPool ServerManager)
      → t.is_client_mode ≡ false
      → lookup t.tunnel_id p.tunnel_mapping ≡ none
      → Reach peer p
      → Reach peer (add_tunnel server_ops t p)
  ended :
      (t : Tunnel) (p : TunnelPool ServerManager)
      → Reach peer p
      → Reach peer (remove_tunnel server_ops t p)
  elapsed :
      (p : TunnelPool ServerManager)
      → Reach peer p
      → Reach peer (record p { manager = elapse p.manager })

abbrev Waits : ℕ → ServerManager → Type 0
Waits n sm = sm.countdown ≡ running → (n ≡ 0) × (sm.triggered ≡ true)
