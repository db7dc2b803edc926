-- ===== src/Server.antt =====
-- server/server.go: the addresses it serves, and what it does with a request for a tunnel.
pub mod Address
pub mod Admission
mod Tests
use rabbit_mtcp_ws_socks.Prelude.{
  subst, ℕ, zero, suc, ◌+◌, ◌-◌, ◌*◌, ◌/◌, ◌%◌, ◌^◌, ◌≤◌, ◌<◌, min, max, ◌≡◌, refl, sym, ap, ◌∙◌,
  ◌≢◌, ◌↔◌, ◌⊎◌, inl, inr, Bool, true, false, not, ◌&&◌, ◌||◌, Option, none, some, List, [], ◌∷◌,
  ◌++◌, map, append-nil, append_assoc, arith, ltb, leb, ◌==◌, if◌then◌else◌, ltb→lt, lt→ltb, ltb→le,
  le→ltb, ==→eq, ==→ne, eq→==, ne→==, Bool-cases, Option-cases, Result, ok, err, Result-cases,
  length, take, drop, replicate, get_or, set, All, length-append, take-append-drop, length-take,
  length-drop, length-replicate, take-append, drop-append, take_all, drop_all, drop-nil, drop-drop,
  All-append, drop-take, take-min,
}
use rabbit_mtcp_ws_socks.Prelude.Strings.{codes, str_eq, has_prefix, contains}
use rabbit_mtcp_ws_socks.TunnelPool.Exchange.{Wire, ExchangeError, passive_exchange_peer_id}
use rabbit_mtcp_ws_socks.TunnelPool.Pool.{Tunnel}
use rabbit_mtcp_ws_socks.Pools.PeerGroup.{PeerGroup, group_add_tunnel}

-- The parts of a url.URL that the code looks at.
pub record Url : Type 0 where
  pub scheme : List ℕ
  pub host : List ℕ
  pub path : List ℕ

pub data AddressError : Type 0 where
  invalid_schema : AddressError
  failed_to_parse : AddressError

-- The text with a schema: ws:// if it has none.
pub with_schema : List ℕ → Result AddressError (List ℕ)
with_schema s =
    if not (has_prefix (codes "ws://") s) && not (has_prefix (codes "wss://") s)
    then (if not (contains s (codes "://")) then ok (codes "ws://" ++ s) else err invalid_schema)
    else ok s

-- The host with a port: the schema's if it has none.
pub with_port : List ℕ → List ℕ → List ℕ
with_port scheme host =
    if not (contains host (codes ":"))
    then (if str_eq scheme (codes "ws")
        then host ++ codes ":80"
        else if str_eq scheme (codes "wss")
        then host ++ codes ":443"
        else host)
    else host

abbrev pub path_or_root : List ℕ → List ℕ
path_or_root [] = codes "/"
path_or_root (c ∷ s) = c ∷ s

abbrev pub address_parts : Option Url → Result AddressError (List ℕ × List ℕ × List ℕ)
address_parts none = err failed_to_parse
address_parts (some u) = ok (u.scheme, with_port u.scheme u.host, path_or_root u.path)

abbrev pub parsed_with :
    (List ℕ → Option Url)
    → Result AddressError (List ℕ)
    → Result AddressError (List ℕ × List ℕ × List ℕ)
parsed_with url_parse (err e) = err e
parsed_with url_parse (ok s) = address_parts (url_parse s)

-- `ParseWebSocketURL`: the schema, the host with its port, and the path. `url_parse` is url.Parse.
pub parse_web_socket_url :
    (url_parse : List ℕ → Option Url) → List ℕ → Result AddressError (List ℕ × List ℕ × List ℕ)
parse_web_socket_url url_parse s = parsed_with url_parse (with_schema s)

-- How ServeThread listens; it returns at once on an address that does not parse.
pub data Listening : Type 0 where
  no_address : AddressError → Listening
  no_tls_config : Listening
  listen_tls : (address path : List ℕ) → Listening
  listen_plain : (address path : List ℕ) → Listening

-- `Server`, with the group of its peers.
pub record Server : Type 0 where
  pub peer_group : PeerGroup
  pub key_file : List ℕ
  pub cert_file : List ℕ
  pub auth_key : List ℕ

-- `ServeThread` up to where it listens; `tls_config` says if TLSConfigFromFiles can load the files.
abbrev pub listening :
    (tls_config : Bool) → Server → Result AddressError (List ℕ × List ℕ × List ℕ) → Listening
listening tls_config s (err e) = no_address e
listening tls_config s (ok (_, address, path)) =
    if not (str_eq s.cert_file []) && not (str_eq s.key_file [])
    then (if tls_config then listen_tls address path else no_tls_config)
    else listen_plain address path

pub serve_thread : (List ℕ → Option Url) → (tls_config : Bool) → Server → List ℕ → Listening
serve_thread url_parse tls_config s ws_url =
    listening tls_config s (parse_web_socket_url url_parse ws_url)

-- What a request ends in.
pub data Outcome : Type 0 where
  unauthorized : Outcome
  not_upgraded : Outcome
  closed : ExchangeError → Outcome
  tunnel_added : Outcome

-- The check of the Authorization header, empty if there is none.
pub is_authorized : List ℕ → List ℕ → Bool
is_authorized auth_key header =
    if not (str_eq auth_key []) then str_eq header (codes "Bearer " ++ auth_key) else true

-- A new passive tunnel with the peer id of the exchange.
abbrev pub passive_tunnel : ℕ → ℕ → Tunnel
passive_tunnel tunnel_id peer_id = record {
  tunnel_id = tunnel_id;
  peer_id = peer_id;
  recv_bytes = 0;
  sent_bytes = 0;
  last_activity = 0;
  latency_nano = 0;
  is_client_mode = false;
  is_active = false;
  cancelled = false;
}

-- `AddTunnelFromConn`: the exchange of peer ids over the new connection, and the tunnel with the
-- random id to its peer.
abbrev pub exchanged : ℕ → Server → Result ExchangeError ℕ × Wire → Outcome × Server
exchanged tunnel_id s (err e, w) = (closed e, s)
exchanged tunnel_id s (ok peer_id, w) = (
  tunnel_added,
  record s { peer_group = group_add_tunnel (passive_tunnel tunnel_id peer_id) s.peer_group },
)

abbrev pub upgraded : ℕ → Server → Option Wire → Outcome × Server
upgraded tunnel_id s none = (not_upgraded, s)
upgraded tunnel_id s (some w) = exchanged tunnel_id s (passive_exchange_peer_id w)

-- The handler of the server's path, with the connection that the upgrade gives, if it does.
pub handle_tunnel : (header : List ℕ) → Option Wire → (tunnel_id : ℕ) → Server → Outcome × Server
handle_tunnel header conn tunnel_id s =
    if is_authorized s.auth_key header then upgraded tunnel_id s conn else (unauthorized, s)

-- The Authorization header of a client's dial, in DecreaseNotify of tunnel_pool/manager.go.
pub dial_header : List ℕ → List ℕ
dial_header auth_key = if not (str_eq auth_key []) then codes "Bearer " ++ auth_key else []
