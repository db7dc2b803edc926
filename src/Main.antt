-- ===== src/Main.antt =====
-- main of cmd/rabbit.go: what it starts for a configuration.
pub mod Starting
mod Tests
use rabbit_mtcp_ws_socks.Prelude.{
  subst, ℕ, zero, suc, ◌+◌, ◌-◌, ◌*◌, ◌/◌, ◌%◌, ◌^◌, ◌≤◌, ◌<◌, min, max, ◌≡◌, refl, sym, ap, ◌∙◌,
  ◌≢◌, ◌↔◌, ◌⊎◌, inl, inr, Bool, true, false, not, ◌&&◌, ◌||◌, Option, none, some, List, [], ◌∷◌,
  ◌++◌, map, append-nil, append_assoc, arith, ltb, leb, ◌==◌, if◌then◌else◌, ltb→lt, lt→ltb, ltb→le,
  le→ltb, ==→eq, ==→ne, eq→==, ne→==, Bool-cases, Option-cases, Result, ok, err, Result-cases,
  length, take, drop, replicate, get_or, set, All, length-append, take-append-drop, length-take,
  length-drop, length-replicate, take-append, drop-append, take_all, drop_all, drop-nil, drop-drop,
  All-append, drop-take, take-min,
}
use Prim.Native.String.{String}
use text.Mathlib.Text.{starts_with, ◌==◌ as str_eq}
use rabbit_mtcp_ws_socks.Prelude.Strings.{codes}
use rabbit_mtcp_ws_socks.Config.{Config, Mode, client_mode, server_mode, ℤ, parse_flags}
use rabbit_mtcp_ws_socks.Tunnel.Cipher.{MetaCipher, CipherError, new_aead_cipher}

-- The service that runs until a signal comes.
pub data Service : Type 0 where
  socks5 : (listen : String) → Service
  forward : (listen dest : String) → Service
  serve : (addresses : List String) → Service

-- What main has started: the level of the logs, the seconds of the statistics' history, the cipher,
-- the status server's address and list of networks if there is one, and the service.
pub record Started : Type 0 where
  pub log_level : ℤ
  pub history_size : ℕ
  pub cipher : Option MetaCipher
  pub status_server : Option (String × String)
  pub service : Service

-- The cipher without the error.
abbrev pub value_of : Result CipherError MetaCipher → Option MetaCipher
value_of (ok c) = some c
value_of (err e) = none

pub client_service : Config → Service
client_service c =
    if starts_with c.listen "socks5://" then socks5 c.listen else forward c.listen c.dest

abbrev pub service_for : Mode → Config → Service
service_for client_mode c = client_service c
service_for server_mode c = serve c.rabbit_addr

-- `main` with the parsed configuration: nothing is started if it does not pass.
pub main_with :
    (md5 : List ℕ → List ℕ) (to_upper : String → String) → Bool × Config → Option Started
main_with md5 to_upper (false, c) = none
main_with md5 to_upper (true, c) = some (record {
  log_level = c.verbose;
  history_size = 20;
  cipher = value_of (new_aead_cipher md5 to_upper c.aead_cipher [] (codes c.password));
  status_server = if str_eq c.status_server "" then none else some (c.status_server, c.status_acl);
  service = service_for c.mode c;
})

-- `main` after the configuration was loaded.
pub main : (md5 : List ℕ → List ℕ) (to_upper : String → String) → Config → Option Started
main md5 to_upper c = main_with md5 to_upper (parse_flags c)
