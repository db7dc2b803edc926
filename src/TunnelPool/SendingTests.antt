-- ===== src/TunnelPool/SendingTests.antt =====
-- A run of the sending loop: a retry block comes while the loop waits, and a normal one is taken.
use rabbit_mtcp_ws_socks.Prelude.{ℕ, ◌≤◌, ◌≡◌, refl, true, false, none, List, [], ◌∷◌}
use rabbit_mtcp_ws_socks.Io.{eof}
use rabbit_mtcp_ws_socks.Block.{Block}
use rabbit_mtcp_ws_socks.TunnelPool.Relay.{Link}
use rabbit_mtcp_ws_socks.TunnelPool.Sending.{Phase, Sender, Step, Meanwhile, send_normal, move}
use rabbit_mtcp_ws_socks.TunnelPool.Priority.{
  Run, starts, steps, meanwhile, overtaken, overtakes, overtaken_once,
}

abbrev numbered : ℕ → Block
numbered id = record {
  block_type = 2;
  connection_id = 9;
  time_stamp = 0;
  block_id = id;
  block_length = 0;
  block_data = [];
  packed = none;
}

abbrev open_link : List ℕ → Link
open_link bytes = record {
  tun = record {
    tunnel_id = 1;
    peer_id = 2;
    recv_bytes = 0;
    sent_bytes = 0;
    last_activity = 0;
    latency_nano = 0;
    is_client_mode = true;
    is_active = true;
    cancelled = false;
  };
  incoming = record { bytes = bytes; ends = eof };
  written = [];
  broken = none;
  output = [];
  retried = [];
  client_sent = 0;
  client_recv = 0;
  server_sent = 0;
  server_recv = 0;
}

abbrev waiting : Sender
waiting = record {
  link = open_link [];
  retry_queue = [];
  normal_queue = numbered 5 ∷ [];
  retry_closed = false;
  normal_closed = false;
  phase = Phase.check;
}

abbrev retry_came : Sender
retry_came = record (move Phase.normal (move Phase.retry waiting)) { retry_queue = numbered 4 ∷ [] }

abbrev until_it_came : Run waiting retry_came
until_it_came =
    meanwhile
      (steps (steps starts (Step.goes_on waiting refl refl))
        (Step.no_retry (move Phase.retry waiting) refl refl refl refl))
      (Meanwhile.put_retry (move Phase.normal (move Phase.retry waiting)) (numbered 4))

abbrev past_it : Run waiting (send_normal false (numbered 5) [] retry_came)
past_it = steps until_it_came (Step.sends retry_came false (numbered 5) [] refl refl)

one_overtakes : overtaken past_it ≡ 1
unfolding overtaken overtakes
one_overtakes = refl

overtaken_once_example : overtaken past_it ≤ 1
overtaken_once_example = overtaken_once past_it
