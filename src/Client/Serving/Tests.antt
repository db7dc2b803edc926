-- ===== src/Client/Serving/Tests.antt =====
-- Serving SOCKS5 clients, on concrete connections.
use rabbit_mtcp_ws_socks.Prelude.{
  ℕ, ◌^◌, ◌<◌, ◌≡◌, refl, ap, Bool, true, false, Option, none, some, List, [], ◌∷◌, ◌++◌, arith, ok,
  length, get_or,
}
use rabbit_mtcp_ws_socks.Io.{eof}
use rabbit_mtcp_ws_socks.NatMap.{lookup}
use rabbit_mtcp_ws_socks.Block.{Block, pack, new_block_from_reader}
use rabbit_mtcp_ws_socks.Prelude.Strings.{codes, has_prefix}
use rabbit_mtcp_ws_socks.Pools.ConnectionPool.{ConnectionPool, new_connection_pool, recv_relay}
use rabbit_mtcp_ws_socks.Pools.Entries.{Keyed, queue_of}
use rabbit_mtcp_ws_socks.Pools.Dial.{connects_to}
use rabbit_mtcp_ws_socks.Client.Socks.{Host, domain, has_method, auth_password}
use rabbit_mtcp_ws_socks.Client.Accept.{conn, greeting, login, request}
use rabbit_mtcp_ws_socks.Client.Serving.{
  Url, Accepted, parse_socks5_url, with_user, target_text, decimal, serve_forward_socks5,
  serve_forward, forward_loop,
}
use rabbit_mtcp_ws_socks.Client.Serving.Guard.{
  Presents, stranger_changes_nothing, socks_reaches_server,
}

abbrev address : List ℕ
address = codes "socks5://u:pw@h:1080"

abbrev url_parse : List ℕ → Option Url
url_parse s = some (record { host = codes "h:1080"; user = some (codes "u", some (codes "pw")) })

abbrev ip_string : List ℕ → List ℕ
ip_string bs = codes "1.2.3.4"

abbrev always : List ℕ → Bool
always s = true

abbrev client_pool : ConnectionPool
client_pool = new_connection_pool false

abbrev server_pool : ConnectionPool
server_pool = new_connection_pool true

abbrev target : Host
target = domain (codes "a.b")

decimal-443 : decimal 4 443 ≡ codes "443"
unfolding decimal
decimal-443 = refl

address_schema : has_prefix (codes "socks5://") address ≡ true
unfolding has_prefix
address_schema = refl

no_schema : parse_socks5_url url_parse (codes ":1080") ≡ some (with_user (codes ":1080") none)
unfolding parse_socks5_url has_prefix
no_schema = refl

abbrev stranger : Accepted
stranger = record { client = conn (5 ∷ 1 ∷ 0 ∷ []) eof []; id = 7; now = 9 }

offers_nothing :
    (methods more : List ℕ)
    → 5 ∷ 1 ∷ 0 ∷ [] ≡ 5 ∷ length methods ∷ (methods ++ more)
    → ¬ (has_method auth_password methods ≡ true)
unfolding has_method
offers_nothing [] more h k = absurd (cc)
offers_nothing (m ∷ []) more h k =
    let first : 0 ≡ m = ap (λ (l : List ℕ). get_or l 2 0) h in absurd (cc)
offers_nothing (m ∷ n ∷ ms) more h k =
    let count : 1 ≡ length (m ∷ n ∷ ms) = ap (λ (l : List ℕ). get_or l 1 0) h in
    absurd (omega arith)

stranger-Presents :
    ¬ Presents (record { username = codes "u"; password = codes "pw" }) stranger.client
stranger-Presents (methods, more, rest, h, k, l) = offers_nothing methods more h k

stranger_changes_nothing_example :
    serve_forward_socks5 url_parse ip_string always address (none ∷ some stranger ∷ []) client_pool
    ≡ serve_forward_socks5 url_parse ip_string always address (none ∷ []) client_pool
stranger_changes_nothing_example =
    stranger_changes_nothing url_parse ip_string always address (codes "h:1080") (codes "u")
      (some (codes "pw")) (none ∷ []) [] stranger client_pool address_schema refl stranger-Presents

methods_offered : has_method auth_password (0 ∷ 2 ∷ []) ≡ true
unfolding has_method
methods_offered = refl

short_target : length (target_text ip_string (target, 443)) < 2 ^ 32
unfolding decimal
short_target = omega arith

server_pool-Keyed : Keyed server_pool
unfolding new_connection_pool lookup
server_pool-Keyed k c h = absurd (cc)

server_pool_accepts : server_pool.accept_new_connection ≡ true
unfolding new_connection_pool
server_pool_accepts = refl

server_pool_fresh : lookup 7 server_pool.connection_mapping ≡ none
unfolding new_connection_pool lookup
server_pool_fresh = refl

socks_reaches_server_example :
    (b : Block) × (p' : ConnectionPool) × (serve_forward_socks5 url_parse ip_string always address
        (some (record {
          client =
              conn
                (greeting
                  (0 ∷ 2 ∷ [])
                  (login (codes "u") (codes "pw") (request target 443 (22 ∷ []))))
                eof
                [];
          id = 7;
          now = 9;
        })
          ∷ [])
        client_pool
      ≡ some p')
    × (p'.send_queue ≡ client_pool.send_queue ++ (b ∷ []))
    × (new_block_from_reader (record { bytes = (pack b).0 ++ (1 ∷ []); ends = eof })
        ≡ (ok b, record { bytes = 1 ∷ []; ends = eof }))
    × (queue_of 7 (recv_relay (b ∷ []) server_pool) ≡ b ∷ [])
    × (connects_to b ≡ some (target_text ip_string (target, 443)))
socks_reaches_server_example =
    socks_reaches_server url_parse ip_string always address (codes "h:1080") (codes "u")
      (some (codes "pw")) (0 ∷ 2 ∷ []) target 443 7 9 (22 ∷ []) (1 ∷ []) eof eof client_pool
      server_pool address_schema refl refl methods_offered tt (omega arith) (omega arith)
      short_target server_pool-Keyed server_pool_accepts server_pool_fresh

forwards :
    serve_forward always (codes ":80") (codes "x:1") (none ∷ []) client_pool ≡ some client_pool
unfolding serve_forward forward_loop
forwards = refl
