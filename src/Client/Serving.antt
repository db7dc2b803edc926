-- ===== src/Client/Serving.antt =====
-- Client, parseSocks5URL, ServeForward and ServeForwardSocks5 of client/client.go: whom the client
-- listens for, and what it dials for each connection that it accepts.
pub mod Guard
mod Tests
use rabbit_mtcp_ws_socks.Prelude.{
  subst, ℕ, zero, suc, ◌+◌, ◌-◌, ◌*◌, ◌/◌, ◌%◌, ◌^◌, ◌≤◌, ◌<◌, min, max, ◌≡◌, refl, sym, ap, ◌∙◌,
  ◌≢◌, ◌↔◌, ◌⊎◌, inl, inr, Bool, true, false, not, ◌&&◌, ◌||◌, Option, none, some, List, [], ◌∷◌,
  ◌++◌, map, append-nil, append_assoc, arith, ltb, leb, ◌==◌, if◌then◌else◌, ltb→lt, lt→ltb, ltb→le,
  le→ltb, ==→eq, ==→ne, eq→==, ne→==, Bool-cases, Option-cases, Result, ok, err, Result-cases,
  length, take, drop, replicate, get_or, set, All, length-append, take-append-drop, length-take,
  length-drop, length-replicate, take-append, drop-append, take_all, drop_all, drop-nil, drop-drop,
  All-append, drop-take, take-min,
}
use rabbit_mtcp_ws_socks.Prelude.Strings.{codes, has_prefix}
use rabbit_mtcp_ws_socks.Client.Socks.{
  Auth, SocksError, Conn, Host, ipv4, domain, ipv6, handle_socks5_client,
}
use rabbit_mtcp_ws_socks.Pools.ConnectionPool.{ConnectionPool}
use rabbit_mtcp_ws_socks.Pools.Dial.{dial}

-- The parts of a url.URL that the code looks at: the user's name is there with or without a password.
pub record Url : Type 0 where
  pub host : List ℕ
  pub user : Option (List ℕ × Option (List ℕ))

-- The result of `parseSocks5URL`: where to listen, and the name and the password, which count if
-- they are required.
pub record ListenUrl : Type 0 where
  pub listen_addr : List ℕ
  pub username : List ℕ
  pub password : List ℕ
  pub require_auth : Bool

abbrev pub given_password : Option (List ℕ) → List ℕ
given_password none = []
given_password (some p) = p

abbrev pub with_user : List ℕ → Option (List ℕ × Option (List ℕ)) → ListenUrl
with_user host none = record {
  listen_addr = host;
  username = [];
  password = [];
  require_auth = false;
}
with_user host (some (name, password)) = record {
  listen_addr = host;
  username = name;
  password = given_password password;
  require_auth = true;
}

abbrev pub url_parts : Option Url → Option ListenUrl
url_parts none = none
url_parts (some u) = some (with_user u.host u.user)

-- `parseSocks5URL`, none where it fails. `url_parse` is url.Parse.
pub parse_socks5_url : (url_parse : List ℕ → Option Url) → List ℕ → Option ListenUrl
parse_socks5_url url_parse addr =
    if not (has_prefix (codes "socks5://") addr)
    then some (with_user addr none)
    else url_parts (url_parse addr)

-- What each connection has to present.
abbrev pub auth_info : ListenUrl → Option Auth
auth_info u =
    if u.require_auth then some (record { username = u.username; password = u.password }) else none

-- "%d" of a number of at most `fuel` + 1 digits.
pub decimal : (fuel n : ℕ) → List ℕ
decimal zero n = (48 + n % 10) ∷ []
decimal (suc fuel) n =
    let more = decimal fuel (n / 10) in
    if ltb n 10 then (48 + n) ∷ [] else more ++ ((48 + n % 10) ∷ [])

abbrev pub host_text : (ip_string : List ℕ → List ℕ) → Host → List ℕ
host_text ip_string (ipv4 bs) = ip_string bs
host_text ip_string (domain bs) = bs
host_text ip_string (ipv6 bs) = ip_string bs

-- The text of a target. `ip_string` is the String of package net's IP; a port has 5 digits at most.
abbrev pub target_text : (ip_string : List ℕ → List ℕ) → Host × ℕ → List ℕ
target_text ip_string (host, port) = host_text ip_string host ++ codes ":" ++ decimal 4 port

-- An accepted connection, with the id that the new connection of the pool draws and its time.
pub record Accepted : Type 0 where
  pub client : Conn
  pub id : ℕ
  pub now : ℕ

abbrev pub dial_target :
    (ip_string : List ℕ → List ℕ)
    → Accepted
    → Result SocksError (Host × ℕ)
    → ConnectionPool
    → ConnectionPool
dial_target ip_string a (ok target) p = dial a.id a.now (target_text ip_string target) p
dial_target ip_string a (err e) p = p

-- `handleSocks5Client` with the dialing of its target.
pub handle_client :
    (ip_string : List ℕ → List ℕ) → Option Auth → Accepted → ConnectionPool → ConnectionPool
handle_client ip_string auth a p = dial_target ip_string a (handle_socks5_client auth a.client).0 p

-- The loop of `ServeForwardSocks5` over what Accept returns, none for its error.
pub accept_loop :
    (ip_string : List ℕ → List ℕ)
    → Option Auth
    → List (Option Accepted)
    → ConnectionPool
    → ConnectionPool
accept_loop ip_string auth [] p = p
accept_loop ip_string auth (none ∷ rest) p = accept_loop ip_string auth rest p
accept_loop ip_string auth (some a ∷ rest) p =
    accept_loop ip_string auth rest (handle_client ip_string auth a p)

abbrev pub listen_at :
    (ip_string : List ℕ → List ℕ)
    → (listens : List ℕ → Bool) → Option ListenUrl
    → List (Option Accepted)
    → ConnectionPool
    → Option ConnectionPool
listen_at ip_string listens none rest p = none
listen_at ip_string listens (some u) rest p =
    if listens u.listen_addr then some (accept_loop ip_string (auth_info u) rest p) else none

-- `ServeForwardSocks5`: none where it returns an error. `listens` says if net.Listen can listen.
pub serve_forward_socks5 :
    (url_parse : List ℕ → Option Url)
    → (ip_string : List ℕ → List ℕ) → (listens : List ℕ → Bool) → List ℕ
    → List (Option Accepted)
    → ConnectionPool
    → Option ConnectionPool
serve_forward_socks5 url_parse ip_string listens addr rest p =
    listen_at ip_string listens (parse_socks5_url url_parse addr) rest p

-- The loop of `ServeForward`, which dials one target for all.
pub forward_loop : List ℕ → List (Option Accepted) → ConnectionPool → ConnectionPool
forward_loop dest [] p = p
forward_loop dest (none ∷ rest) p = forward_loop dest rest p
forward_loop dest (some a ∷ rest) p = forward_loop dest rest (dial a.id a.now dest p)

-- `ServeForward`.
pub serve_forward :
    (listens : List ℕ → Bool)
    → (addr dest : List ℕ) → List (Option Accepted)
    → ConnectionPool
    → Option ConnectionPool
serve_forward listens addr dest rest p =
    if listens addr then some (forward_loop dest rest p) else none
