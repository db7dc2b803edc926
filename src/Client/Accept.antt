-- ===== src/Client/Accept.antt =====
-- A whole SOCKS5 dialogue with the server of client/client.go.
use rabbit_mtcp_ws_socks.Prelude.{
  ℕ, ◌+◌, ◌*◌, ◌/◌, ◌%◌, ◌≡◌, refl, sym, ap, ◌∙◌, true, false, ◌&&◌, Option, none, some, List, [],
  ◌∷◌, ◌++◌, arith, ok, err, length,
}
use rabbit_mtcp_ws_socks.Io.{IoError, read_full-append}
use rabbit_mtcp_ws_socks.Prelude.Strings.{str_eq, str_eq_refl}
use rabbit_mtcp_ws_socks.Client.Socks.{
  Auth, SocksError, Conn, receive, receive_with, answer, answer_checked, has_method, check_login,
  perform_password_auth, choose_method, socks5_handshake, reply_bytes, Host, ipv4, domain, ipv6,
  read_host, finish_request, socks5_process_request, handle_socks5_client, auth_password, auth_none,
}

-- What a client sends, before `rest`: the methods it has, its name and password, its request.
abbrev pub greeting : List ℕ → List ℕ → List ℕ
greeting methods rest = 5 ∷ length methods ∷ (methods ++ rest)

abbrev pub login : List ℕ → List ℕ → List ℕ → List ℕ
login username password rest =
    1 ∷ length username ∷ (username ++ (length password ∷ (password ++ rest)))

abbrev pub address_type : Host → ℕ
address_type (ipv4 bs) = 1
address_type (domain bs) = 3
address_type (ipv6 bs) = 4

abbrev pub address : Host → List ℕ → List ℕ
address (ipv4 bs) rest = bs ++ rest
address (domain bs) rest = length bs ∷ (bs ++ rest)
address (ipv6 bs) rest = bs ++ rest

abbrev pub request : Host → ℕ → List ℕ → List ℕ
request host port rest =
    5 ∷ 1 ∷ 0 ∷ address_type host ∷ address host (port / 256 ∷ port % 256 ∷ rest)

-- An IPv4 address has 4 bytes, an IPv6 address 16.
abbrev pub IsHost : Host → Type 0
IsHost (ipv4 bs) = length bs ≡ 4
IsHost (domain bs) = Unit {0}
IsHost (ipv6 bs) = length bs ≡ 16

abbrev pub conn : List ℕ → IoError → List ℕ → Conn
conn bs e out = record { incoming = record { bytes = bs; ends = e }; answers = out; broken = none }

receive-append :
    (n : ℕ) (xs ys out : List ℕ) (e : IoError)
    → n ≡ length xs
    → receive n (conn (xs ++ ys) e out) ≡ (ok xs, conn ys e out)
unfolding receive receive_with
receive-append n xs ys out e h =
    ap (receive_with (conn (xs ++ ys) e out)) (read_full-append n xs ys e h)

answer_lem :
    (bs out : List ℕ) (ys : List ℕ) (e : IoError)
    → answer bs (conn ys e out) ≡ (ok tt, conn ys e (out ++ bs))
unfolding answer
answer_lem bs out ys e = refl

password_lem :
    (auth : Auth) (rest out : List ℕ) (e : IoError)
    → perform_password_auth auth (conn (login auth.username auth.password rest) e out)
      ≡ (ok tt, conn rest e (out ++ (1 ∷ 0 ∷ [])))
unfolding perform_password_auth check_login answer
password_lem auth rest out e =
    let u = auth.username in
    let p = auth.password in
    rw (
      receive-append 2 (1 ∷ length u ∷ []) (u ++ (length p ∷ (p ++ rest))) out e refl,
      receive-append (length u) u (length p ∷ (p ++ rest)) out e refl,
      receive-append 1 (length p ∷ []) (p ++ rest) out e refl,
      receive-append (length p) p rest out e refl,
      str_eq_refl u,
      str_eq_refl p,
    )

host_lem :
    (host : Host) (rest out : List ℕ) (e : IoError)
    → IsHost host
    → read_host (address_type host) (conn (address host rest) e out) ≡ (ok host, conn rest e out)
unfolding read_host
host_lem (ipv4 bs) rest out e h = rw (receive-append 4 bs rest out e (sym h))
host_lem (domain bs) rest out e h = rw (
  receive-append 1 (length bs ∷ []) (bs ++ rest) out e refl,
  receive-append (length bs) bs rest out e refl,
)
host_lem (ipv6 bs) rest out e h = rw (receive-append 16 bs rest out e (sym h))

port_lem :
    (host : Host) (port : ℕ) → ◌≡◌ {A = Host × ℕ} (host, port / 256 * 256 + port % 256) (host, port)
port_lem host port = ap (λ (p : ℕ). (host, p)) (omega arith)

finish_lem :
    (host : Host) (port : ℕ) (rest out : List ℕ) (e : IoError)
    → finish_request host (conn (port / 256 ∷ port % 256 ∷ rest) e out)
      ≡ (ok (host, port), conn rest e (out ++ reply_bytes 0))
unfolding finish_request answer_checked
finish_lem host port rest out e =
    rw (receive-append 2 (port / 256 ∷ port % 256 ∷ []) rest out e refl)
      (ap (λ (r : Host × ℕ). (ok r, conn rest e (out ++ reply_bytes 0))) (port_lem host port))

request_lem :
    (host : Host) (port : ℕ) (rest out : List ℕ) (e : IoError)
    → IsHost host
    → socks5_process_request (conn (request host port rest) e out)
      ≡ (ok (host, port), conn rest e (out ++ reply_bytes 0))
unfolding socks5_process_request
request_lem host port rest out e h =
    let more = port / 256 ∷ port % 256 ∷ rest in
    rw (
      receive-append 4 (5 ∷ 1 ∷ 0 ∷ address_type host ∷ []) (address host more) out e refl,
      host_lem host more out e h,
      finish_lem host port rest out e,
    )

handshake_lem :
    (auth : Option Auth) (methods more out : List ℕ) (e : IoError)
    → socks5_handshake auth (conn (greeting methods more) e out)
      ≡ choose_method auth methods (conn more e out)
unfolding socks5_handshake
handshake_lem auth methods more out e = rw (
  receive-append 2 (5 ∷ length methods ∷ []) (methods ++ more) out e refl,
  receive-append (length methods) methods more out e refl,
)

-- A client that offers password authentication, sends the configured name and password and then
-- asks for a host and a port is given exactly that host and port: the server answers method 2,
-- success and a granted request, and what the client sends after it is left to be relayed.
pub handle_socks5_client_password :
    (auth : Auth) (methods : List ℕ) (host : Host) (port : ℕ) (rest out : List ℕ) (e : IoError)
    → has_method auth_password methods ≡ true
    → IsHost host
    → handle_socks5_client
        (some auth)
        (conn (greeting methods (login auth.username auth.password (request host port rest))) e out)
      ≡ (ok (host, port), conn rest e (((out ++ (5 ∷ 2 ∷ [])) ++ (1 ∷ 0 ∷ [])) ++ reply_bytes 0))
unfolding handle_socks5_client choose_method answer
handle_socks5_client_password auth methods host port rest out e h k =
    let more = request host port rest in
    let out1 = out ++ (5 ∷ 2 ∷ []) in
    rw (
      handshake_lem (some auth) methods (login auth.username auth.password more) out e,
      h,
      password_lem auth more out1 e,
      request_lem host port rest (out1 ++ (1 ∷ 0 ∷ [])) e k,
    )

-- Where no password is configured, the same holds for a client that offers no authentication and
-- sends its request at once.
pub handle_socks5_client_open :
    (methods : List ℕ) (host : Host) (port : ℕ) (rest out : List ℕ) (e : IoError)
    → has_method auth_none methods ≡ true
    → IsHost host
    → handle_socks5_client none (conn (greeting methods (request host port rest)) e out)
      ≡ (ok (host, port), conn rest e ((out ++ (5 ∷ 0 ∷ [])) ++ reply_bytes 0))
unfolding handle_socks5_client choose_method answer
handle_socks5_client_open methods host port rest out e h k =
    let more = request host port rest in
    rw (
      handshake_lem none methods more out e,
      h,
      request_lem host port rest (out ++ (5 ∷ 0 ∷ [])) e k,
    )

-- A client that offers the method and sends a wrong name or password is told so and refused,
-- whatever it sends after that.
pub handshake_refuses :
    (auth : Auth) (methods username password rest out : List ℕ) (e : IoError)
    → has_method auth_password methods ≡ true
    → str_eq username auth.username && str_eq password auth.password ≡ false
    → socks5_handshake (some auth) (conn (greeting methods (login username password rest)) e out)
      ≡ (err SocksError.invalid_login, conn rest e ((out ++ (5 ∷ 2 ∷ [])) ++ (1 ∷ 1 ∷ [])))
unfolding choose_method answer perform_password_auth check_login
handshake_refuses auth methods username password rest out e k h =
    let out1 = out ++ (5 ∷ 2 ∷ []) in
    handshake_lem (some auth) methods (login username password rest) out e
    ∙ rw (
      k,
      receive-append 2 (1 ∷ length username ∷ [])
          (username ++ (length password ∷ (password ++ rest))) out1 e refl,
      receive-append (length username) username (length password ∷ (password ++ rest)) out1 e refl,
      receive-append 1 (length password ∷ []) (password ++ rest) out1 e refl,
      receive-append (length password) password rest out1 e refl,
      h,
    )
