-- ===== src/Config.antt =====
-- The configuration of cmd/rabbit.go: defaults, file, command line, and the checks on it.
pub mod Checks
mod Tests
use Prim.Native.String.{String}
use rabbit_mtcp_ws_socks.Prelude.{
  subst, ℕ, zero, suc, ◌+◌, ◌-◌, ◌*◌, ◌/◌, ◌%◌, ◌^◌, ◌≤◌, ◌<◌, min, max, ◌≡◌, refl, sym, ap, ◌∙◌,
  ◌≢◌, ◌↔◌, ◌⊎◌, inl, inr, Bool, true, false, not, ◌&&◌, ◌||◌, Option, none, some, List, [], ◌∷◌,
  ◌++◌, map, append-nil, append_assoc, arith, ltb, leb, ◌==◌, if◌then◌else◌, ltb→lt, lt→ltb, ltb→le,
  le→ltb, ==→eq, ==→ne, eq→==, ne→==, Bool-cases, Option-cases, Result, ok, err, Result-cases,
  length, take, drop, replicate, get_or, set, All, length-append, take-append-drop, length-take,
  length-drop, length-replicate, take-append, drop-append, take_all, drop_all, drop-nil, drop-drop,
  All-append, drop-take, take-min,
}
use text.Mathlib.Text.{◌==◌ as str_eq, starts_with}

-- Go's int.
pub data ℤ : Type 0 where
  pos : ℕ → ℤ
  negsuc : ℕ → ℤ

abbrev pub is_zero : ℤ → Bool
is_zero (pos n) = n == 0
is_zero (negsuc n) = false

pub data Mode : Type 0 where
  client_mode : Mode
  server_mode : Mode

abbrev pub default_password : String
default_password = "PASSWORD"

-- `Config`; `mode_name` is its Mode and `mode` its unexported mode.
pub record Config : Type 0 where
  pub mode_name : String
  pub mode : Mode
  pub rabbit_addr : List String
  pub app_name : String
  pub password : String
  pub aead_cipher : String
  pub listen : String
  pub dest : String
  pub auth_key : String
  pub tls_cert_file : String
  pub tls_key_file : String
  pub mem_prof : String
  pub status_server : String
  pub status_acl : String
  pub verbose : ℤ
  pub tunnel_n : ℤ
  pub ping_interval_sec : ℤ
  pub dial_timeout_sec : ℤ
  pub recv_timeout_sec : ℤ
  pub packet_wait_timeout_sec : ℤ
  pub reconnect_delay_sec : ℤ
  pub outbound_block_timeout_sec : ℤ
  pub max_retries : ℤ
  pub ordered_recv_queue_size : ℤ
  pub send_queue_size : ℤ
  pub recv_queue_size : ℤ
  pub outbound_recv_buffer_size : ℤ
  pub insecure : Bool
  pub retry_failed_addr : Bool
  pub use_syslog : Bool

-- `NewDefaultConfig`.
unfoldable pub new_default_config : Config
new_default_config = record {
  mode_name = "client";
  mode = client_mode;
  rabbit_addr = "ws://127.0.0.1:443/tunnel" ∷ [];
  app_name = "rabbit-mtcp-ws";
  password = default_password;
  aead_cipher = "CHACHA20-IETF-POLY1305";
  listen = "127.0.0.1:1080";
  dest = "";
  auth_key = "";
  tls_cert_file = "";
  tls_key_file = "";
  mem_prof = "";
  status_server = "";
  status_acl = "";
  verbose = pos 4;
  tunnel_n = pos 4;
  ping_interval_sec = pos 30;
  dial_timeout_sec = pos 6;
  recv_timeout_sec = pos 20;
  packet_wait_timeout_sec = pos 8;
  reconnect_delay_sec = pos 5;
  outbound_block_timeout_sec = pos 3;
  max_retries = pos 3;
  ordered_recv_queue_size = pos 32;
  send_queue_size = pos 32;
  recv_queue_size = pos 32;
  outbound_recv_buffer_size = pos (32 * 1024);
  insecure = true;
  retry_failed_addr = true;
  use_syslog = true;
}

-- The command line: a flag that was given has a value. `rabbit_addr` is the list of the flag's
-- parts that are not blank.
pub record Flags : Type 0 where
  pub mode_name : Option String
  pub rabbit_addr : Option (List String)
  pub app_name : Option String
  pub password : Option String
  pub aead_cipher : Option String
  pub listen : Option String
  pub dest : Option String
  pub auth_key : Option String
  pub tls_cert_file : Option String
  pub tls_key_file : Option String
  pub mem_prof : Option String
  pub status_server : Option String
  pub status_acl : Option String
  pub verbose : Option ℤ
  pub tunnel_n : Option ℤ
  pub ping_interval_sec : Option ℤ
  pub dial_timeout_sec : Option ℤ
  pub recv_timeout_sec : Option ℤ
  pub packet_wait_timeout_sec : Option ℤ
  pub reconnect_delay_sec : Option ℤ
  pub outbound_block_timeout_sec : Option ℤ
  pub max_retries : Option ℤ
  pub ordered_recv_queue_size : Option ℤ
  pub send_queue_size : Option ℤ
  pub recv_queue_size : Option ℤ
  pub outbound_recv_buffer_size : Option ℤ
  pub insecure : Option Bool
  pub retry_failed_addr : Option Bool
  pub use_syslog : Option Bool

-- A flag that was given replaces the value.
unfoldable pub given {ℓ} : {A : Type ℓ} → Option A → A → A
given none a = a
given (some b) a = b

-- The last part of `LoadConfig`: the flags over the configuration, and the mode in lower case, which
-- strings.ToLower gives. The flag use-syslog is not looked at.
unfoldable pub apply_flags : (to_lower : String → String) → Flags → Config → Config
apply_flags to_lower f c = record c {
  mode_name = to_lower (given f.mode_name c.mode_name);
  rabbit_addr = given f.rabbit_addr c.rabbit_addr;
  app_name = given f.app_name c.app_name;
  password = given f.password c.password;
  aead_cipher = given f.aead_cipher c.aead_cipher;
  listen = given f.listen c.listen;
  dest = given f.dest c.dest;
  auth_key = given f.auth_key c.auth_key;
  tls_cert_file = given f.tls_cert_file c.tls_cert_file;
  tls_key_file = given f.tls_key_file c.tls_key_file;
  mem_prof = given f.mem_prof c.mem_prof;
  status_server = given f.status_server c.status_server;
  status_acl = given f.status_acl c.status_acl;
  verbose = given f.verbose c.verbose;
  tunnel_n = given f.tunnel_n c.tunnel_n;
  ping_interval_sec = given f.ping_interval_sec c.ping_interval_sec;
  dial_timeout_sec = given f.dial_timeout_sec c.dial_timeout_sec;
  recv_timeout_sec = given f.recv_timeout_sec c.recv_timeout_sec;
  packet_wait_timeout_sec = given f.packet_wait_timeout_sec c.packet_wait_timeout_sec;
  reconnect_delay_sec = given f.reconnect_delay_sec c.reconnect_delay_sec;
  outbound_block_timeout_sec = given f.outbound_block_timeout_sec c.outbound_block_timeout_sec;
  max_retries = given f.max_retries c.max_retries;
  ordered_recv_queue_size = given f.ordered_recv_queue_size c.ordered_recv_queue_size;
  send_queue_size = given f.send_queue_size c.send_queue_size;
  recv_queue_size = given f.recv_queue_size c.recv_queue_size;
  outbound_recv_buffer_size = given f.outbound_recv_buffer_size c.outbound_recv_buffer_size;
  insecure = given f.insecure c.insecure;
  retry_failed_addr = given f.retry_failed_addr c.retry_failed_addr;
}

-- The configuration file: there may be none, it may be unreadable, or it has content, which
-- yaml.Unmarshal turns into changes of the configuration, or refuses.
pub data File : Type 0 where
  absent : File
  unreadable : File
  content : (Config → Option Config) → File

pub data ConfigError : Type 0 where
  failed_to_read : ConfigError
  failed_to_parse : ConfigError

-- `LoadConfig`, when it does not just print the version.
unfoldable pub load_config : (to_lower : String → String) → Flags → File → Result ConfigError Config
load_config to_lower f absent = ok (apply_flags to_lower f new_default_config)
load_config to_lower f unreadable = err failed_to_read
load_config to_lower f (content unmarshal) = elim (unmarshal new_default_config) [
  | none ↦ err failed_to_parse
  | some c ↦ ok (apply_flags to_lower f c)
]

-- The mode that a name stands for.
unfoldable pub mode_of : String → Option Mode
mode_of name =
    if str_eq name "c" || str_eq name "client"
    then some client_mode
    else if str_eq name "s" || str_eq name "server"
    then some server_mode
    else none

-- The checks for a client: each of them can turn `pass` to false.
unfoldable pub check_client : Config → Bool
check_client c =
    let pass = if str_eq c.listen "" then false else true in
    let pass = if not (starts_with c.listen "socks5://") && str_eq c.dest "" then false else pass in
    if is_zero c.tunnel_n then false else pass

-- The checks of the password and, for a client, those above.
unfoldable pub check_all : (is_empty is_default : Bool) → Mode → (client_passes : Bool) → Bool
check_all is_empty is_default m client_passes =
    if is_empty
    then false
    else if is_default
    then false
    else elim m [ client_mode ↦ client_passes | server_mode ↦ true ]

-- `parseFlags` on the loaded configuration: whether it passes, and the configuration with its mode.
unfoldable pub parse_flags : Config → Bool × Config
parse_flags c = elim (mode_of c.mode_name) [
  | none ↦ (false, c)
  | some m ↦
      let c' = record c { mode = m } in
      (
        check_all (str_eq c.password "") (str_eq c.password default_password) m (check_client c'),
        c',
      )
]
