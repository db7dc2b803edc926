-- ===== src/Config/Tests.antt =====
-- The checks of cmd/rabbit.go on concrete configurations, and the theorems about them.
use rabbit_mtcp_ws_socks.Prelude.{◌≡◌, refl, true, none, some}
use Prim.Native.String.{String}
use rabbit_mtcp_ws_socks.Config.{
  Config, client_mode, Flags, new_default_config, mode_of, parse_flags,
}
use rabbit_mtcp_ws_socks.Config.Checks.{parse_flags_passes}

abbrev no_flags : Flags
no_flags = record {
  mode_name = none;
  rabbit_addr = none;
  app_name = none;
  password = none;
  aead_cipher = none;
  listen = none;
  dest = none;
  auth_key = none;
  tls_cert_file = none;
  tls_key_file = none;
  mem_prof = none;
  status_server = none;
  status_acl = none;
  verbose = none;
  tunnel_n = none;
  ping_interval_sec = none;
  dial_timeout_sec = none;
  recv_timeout_sec = none;
  packet_wait_timeout_sec = none;
  reconnect_delay_sec = none;
  outbound_block_timeout_sec = none;
  max_retries = none;
  ordered_recv_queue_size = none;
  send_queue_size = none;
  recv_queue_size = none;
  outbound_recv_buffer_size = none;
  insecure = none;
  retry_failed_addr = none;
  use_syslog = none;
}

abbrev same_case : String → String
same_case s = s

abbrev secret : Config
secret = record new_default_config { password = "hunter2"; dest = "127.0.0.1:80" }

mode_of-client : mode_of secret.mode_name ≡ some client_mode
unfolding mode_of new_default_config
mode_of-client = refl

passes-secret : (parse_flags secret).0 ≡ true
unfolding new_default_config
passes-secret = (parse_flags_passes client_mode secret mode_of-client).0
