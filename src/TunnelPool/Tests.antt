-- ===== src/TunnelPool/Tests.antt =====
-- Runs of the tunnel_pool package, and its theorems at concrete inputs.
use rabbit_mtcp_ws_socks.Prelude.{
  ℕ, ◌+◌, ◌%◌, ◌^◌, ◌<◌, ◌≡◌, refl, inl, Bool, true, false, none, List, [], ◌∷◌, ◌++◌, arith,
  length,
}
use rabbit_mtcp_ws_socks.Io.{eof}
use rabbit_mtcp_ws_socks.Block.{Block, pack}
use rabbit_mtcp_ws_socks.Block.Codec.{IsBlock}
use rabbit_mtcp_ws_socks.TunnelPool.Countdown.{
  notify, count_is, timer, run, new_server_manager, stayed_empty, run_removes, ServerManager,
}
use rabbit_mtcp_ws_socks.TunnelPool.Pool.{
  Tunnel, TunnelPool, Manager, add_tunnel, remove_tunnel, new_tunnel_pool,
}
use rabbit_mtcp_ws_socks.TunnelPool.Members.{WellFormed}
use rabbit_mtcp_ws_socks.TunnelPool.Removal.{server_ops}
use rabbit_mtcp_ws_socks.TunnelPool.Relay.{
  Link, ended, panics, inbound_turn, inbound_relay, ping_pong_tick,
}
use rabbit_mtcp_ws_socks.TunnelPool.Receive.{delivered, arrived, delivered_all, packed_all}
use rabbit_mtcp_ws_socks.TunnelPool.Deliver.{inbound_relay_delivers}
use rabbit_mtcp_ws_socks.TunnelPool.PingPong.{short_control_panics}
use rabbit_mtcp_ws_socks.TunnelPool.Dial.{Dialer, Outcome, dial_fails, connects, decrease_notify}
use rabbit_mtcp_ws_socks.TunnelPool.DialTurns.{new_tunnels, add_all}
use rabbit_mtcp_ws_socks.TunnelPool.Filling.{decrease_notify_fills, decrease_notify_spins}

run_removes_example : (run (count_is 1 ∷ count_is 0 ∷ timer ∷ []) new_server_manager).removed ≡ true
unfolding stayed_empty
run_removes_example = run_removes (count_is 1 ∷ count_is 0 ∷ timer ∷ [])

abbrev tunnel : ℕ → Tunnel
tunnel i = record {
  tunnel_id = i;
  peer_id = 4;
  recv_bytes = 0;
  sent_bytes = 0;
  last_activity = 0;
  latency_nano = 0;
  is_client_mode = false;
  is_active = true;
  cancelled = false;
}

abbrev empty_pool : TunnelPool ServerManager
empty_pool = new_tunnel_pool server_ops 4 new_server_manager

empty_pool-WellFormed : WellFormed false empty_pool
unfolding new_tunnel_pool
empty_pool-WellFormed = (tt, tt, refl)

abbrev left_pool : TunnelPool ServerManager
left_pool = remove_tunnel server_ops (tunnel 7) (add_tunnel server_ops (tunnel 7) empty_pool)

abbrev block : ℕ → List ℕ → Block
block kind bytes = record {
  block_type = kind;
  connection_id = 5;
  time_stamp = 1;
  block_id = 0;
  block_length = length bytes;
  block_data = bytes;
  packed = none;
}

abbrev eight : List ℕ
eight = 1 ∷ 2 ∷ 3 ∷ 4 ∷ 5 ∷ 6 ∷ 7 ∷ 8 ∷ []

abbrev blocks : List Block
blocks = block 3 eight ∷ block 2 (42 ∷ []) ∷ []

block-IsBlock :
    (kind : ℕ) (bytes : List ℕ) → kind < 256 → length bytes < 256 → IsBlock (block kind bytes)
block-IsBlock kind bytes h k = record {
  type_in = h;
  connection_in = omega arith;
  time_in = omega arith;
  id_in = omega arith;
  length_in = omega arith;
  data_length = refl;
  packed_fresh = inl refl;
}

abbrev link : Bool → List ℕ → Link
link done bytes = record {
  tun = record (tunnel 7) { cancelled = done };
  incoming = record { bytes = bytes; ends = eof };
  written = [];
  broken = none;
  output = [];
  retried = [];
  client_sent = 0;
  client_recv = 0;
  server_sent = 0;
  server_recv = 0;
}

abbrev times : List ℕ
times = 10 ∷ 11 ∷ 12 ∷ 13 ∷ []

inbound_relay_delivers_example :
    (l' : Link) × (inbound_relay times (link false (packed_all blocks)) ≡ ended l')
    × (l'.output ≡ delivered_all blocks)
    × (l'.tun.cancelled ≡ true)
    × (l'.retried ≡ [])
    × (l'.tun.recv_bytes % 2 ^ 64 ≡ (0 + length (packed_all blocks)) % 2 ^ 64)
inbound_relay_delivers_example =
    inbound_relay_delivers blocks times (link false (packed_all blocks)) eof
      (
        (block-IsBlock 3 eight (omega arith) (omega arith), λ (h : true ≡ true). omega arith),
        (
          (
            block-IsBlock 2 (42 ∷ []) (omega arith) (omega arith),
            λ (h : false ≡ true). absurd (cc),
          ),
          tt,
        ),
      )
      refl refl (omega arith)

delivered-data : delivered_all blocks ≡ arrived (block 2 (42 ∷ [])) ∷ []
unfolding delivered_all delivered
delivered-data = refl

abbrev silent : Link
silent = ping_pong_tick 30 40 71000000000 (link false [])

short_control_panics_example :
    inbound_turn 5 (link false ((pack (block 3 (1 ∷ []))).0 ++ [])) ≡ panics
short_control_panics_example =
    short_control_panics 5 (block 3 (1 ∷ [])) (link false ((pack (block 3 (1 ∷ []))).0 ++ [])) []
      eof (block-IsBlock 3 (1 ∷ []) (omega arith) (omega arith)) refl (omega arith) refl refl

abbrev client_ops : Manager (Unit {0})
client_ops = record { notify = λ n s. s }

abbrev client_pool : TunnelPool (Unit {0})
client_pool = record {
  tunnel_mapping = [];
  peer_id = 4;
  manager = tt;
  client_tunnels = 0;
  server_tunnels = 0;
  decrease_notified = 0;
}

abbrev host_a : List ℕ
host_a = 97 ∷ []

abbrev host_b : List ℕ
host_b = 98 ∷ []

abbrev dials : List Outcome
dials = dial_fails ∷ dial_fails ∷ connects (tunnel 1) ∷ connects (tunnel 2) ∷ []

abbrev dialer : Dialer (Unit {0})
dialer = record {
  endpoints = host_a ∷ host_b ∷ [];
  last_failed = [];
  retry_weight = [];
  to_create = 2;
  slept = [];
  pool = client_pool;
}

decrease_notify_fills_example :
    let r = decrease_notify client_ops false 3 2 (host_a ∷ host_b ∷ []) client_pool dials in
    (r.1 ≡ true) × (r.0.pool ≡ add_all client_ops (tunnel 1 ∷ tunnel 2 ∷ []) client_pool)
unfolding new_tunnels
decrease_notify_fills_example =
    decrease_notify_fills client_ops false 3 2 (host_a ∷ host_b ∷ []) client_pool dials
      (omega arith, (omega arith, tt)) (omega arith)
      ((λ h. cc), ((λ h. cc), ((λ h. cc), ((λ h. cc), tt)))) refl

decrease_notify_spins_example :
    let r = decrease_notify client_ops false 3 2 [] client_pool dials in
    (r.1 ≡ false) × (r.0.pool ≡ client_pool) × (r.0.slept ≡ [])
decrease_notify_spins_example =
    decrease_notify_spins client_ops false 3 2 client_pool dials
      ((λ h. cc), ((λ h. cc), ((λ h. cc), ((λ h. cc), tt)))) (omega arith)
