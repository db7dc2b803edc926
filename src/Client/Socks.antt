-- ===== src/Client/Socks.antt =====
-- The SOCKS5 server of client/client.go: the handshake, the password check and the request.
use rabbit_mtcp_ws_socks.Prelude.{
  ℕ, ◌+◌, ◌*◌, Bool, false, not, ◌&&◌, ◌||◌, Option, none, some, List, [], ◌∷◌, ◌++◌, ◌==◌,
  if◌then◌else◌, Result, ok, err, get_or,
}
use rabbit_mtcp_ws_socks.Prelude.Effects.{M, ◌>>=◌, ◌>>◌, pure, fail}
use rabbit_mtcp_ws_socks.Io.{IoError, Stream, read_full}
use rabbit_mtcp_ws_socks.Prelude.Strings.{str_eq}

abbrev pub socks5_version : ℕ
socks5_version = 5

abbrev pub auth_none : ℕ
auth_none = 0

abbrev pub auth_password : ℕ
auth_password = 2

abbrev pub auth_no_acceptable : ℕ
auth_no_acceptable = 255

abbrev pub cmd_connect : ℕ
cmd_connect = 1

abbrev pub addr_type_ipv4 : ℕ
addr_type_ipv4 = 1

abbrev pub addr_type_domain : ℕ
addr_type_domain = 3

abbrev pub addr_type_ipv6 : ℕ
addr_type_ipv6 = 4

abbrev pub reply_success : ℕ
reply_success = 0

abbrev pub reply_command_not_supported : ℕ
reply_command_not_supported = 7

abbrev pub reply_address_type_not_supported : ℕ
reply_address_type_not_supported = 8

abbrev pub auth_password_ver : ℕ
auth_password_ver = 1

abbrev pub auth_status_success : ℕ
auth_status_success = 0

abbrev pub auth_status_failure : ℕ
auth_status_failure = 1

-- `Socks5Auth`.
pub record Auth : Type 0 where
  pub username : List ℕ
  pub password : List ℕ

-- The errors of the handshake and of a request.
pub data SocksError : Type 0 where
  io : IoError → SocksError
  unsupported_version : ℕ → SocksError
  no_password_auth : SocksError
  no_auth_none : SocksError
  unsupported_auth_version : ℕ → SocksError
  invalid_login : SocksError
  unsupported_command : ℕ → SocksError
  unsupported_address_type : ℕ → SocksError

-- The client's connection: what it sends, what was answered, and the error of a write.
pub record Conn : Type 0 where
  pub incoming : Stream
  pub answers : List ℕ
  pub broken : Option IoError

-- io.ReadFull of `n` bytes.
unfoldable pub receive_with :
    Conn → Result IoError (List ℕ) × Stream → Result SocksError (List ℕ) × Conn
receive_with c (ok bs, s) = (ok bs, record c { incoming = s })
receive_with c (err e, s) = (err (io e), record c { incoming = s })

unfoldable pub receive : ℕ → M Conn SocksError (List ℕ)
receive n c = receive_with c (read_full n c.incoming)

-- A write whose error is not looked at.
unfoldable pub answer : List ℕ → M Conn SocksError (Unit {0})
answer bs c = elim c.broken [
  | none ↦ (ok tt, record c { answers = c.answers ++ bs })
  | some e ↦ (ok tt, c)
]

-- A write whose error is returned.
unfoldable pub answer_checked : List ℕ → M Conn SocksError (Unit {0})
answer_checked bs c = elim c.broken [
  | none ↦ (ok tt, record c { answers = c.answers ++ bs })
  | some e ↦ (err (io e), c)
]

unfoldable pub has_method : ℕ → List ℕ → Bool
has_method m [] = false
has_method m (b ∷ bs) = (b == m) || has_method m bs

-- The check of the user's name and password.
unfoldable pub check_login : Auth → List ℕ → List ℕ → M Conn SocksError (Unit {0})
check_login auth username password =
    if str_eq username auth.username && str_eq password auth.password
    then answer (auth_password_ver ∷ auth_status_success ∷ [])
    else (answer (auth_password_ver ∷ auth_status_failure ∷ []) >> fail invalid_login)

-- `performPasswordAuth`.
unfoldable pub perform_password_auth : Auth → M Conn SocksError (Unit {0})
perform_password_auth auth = receive 2 >>= (λ head.
    if not (get_or head 0 0 == auth_password_ver)
    then fail (unsupported_auth_version (get_or head 0 0))
    else (receive (get_or head 1 0) >>= (λ username. receive 1 >>= (λ plen.
        receive (get_or plen 0 0) >>= (λ password. check_login auth username password)))))

-- The choice of the method, with the answer to it.
unfoldable pub choose_method : Option Auth → List ℕ → M Conn SocksError (Unit {0})
choose_method (some auth) methods =
    if has_method auth_password methods
    then (answer (socks5_version ∷ auth_password ∷ []) >> perform_password_auth auth)
    else (answer (socks5_version ∷ auth_no_acceptable ∷ []) >> fail no_password_auth)
choose_method none methods =
    if has_method auth_none methods
    then answer (socks5_version ∷ auth_none ∷ [])
    else (answer (socks5_version ∷ auth_no_acceptable ∷ []) >> fail no_auth_none)

-- `socks5Handshake`.
unfoldable pub socks5_handshake : Option Auth → M Conn SocksError (Unit {0})
socks5_handshake auth = receive 2 >>= (λ head.
    if not (get_or head 0 0 == socks5_version)
    then fail (unsupported_version (get_or head 0 0))
    else (receive (get_or head 1 0) >>= (λ methods. choose_method auth methods)))

-- `sendSocks5Reply`: the bound address is 0.0.0.0:0.
unfoldable pub reply_bytes : ℕ → List ℕ
reply_bytes reply = socks5_version ∷ reply ∷ 0 ∷ addr_type_ipv4 ∷ 0 ∷ 0 ∷ 0 ∷ 0 ∷ 0 ∷ 0 ∷ []

-- The target of a request, which the code prints as "%s:%d" with net.IP's String for the IP types.
pub data Host : Type 0 where
  ipv4 : List ℕ → Host
  domain : List ℕ → Host
  ipv6 : List ℕ → Host

unfoldable pub read_host : ℕ → M Conn SocksError Host
read_host atyp =
    if atyp == addr_type_ipv4
    then (receive 4 >>= (λ bs. pure (ipv4 bs)))
    else (if atyp == addr_type_domain
        then (receive 1 >>= (λ len. receive (get_or len 0 0) >>= (λ bs. pure (domain bs))))
        else (if atyp == addr_type_ipv6
            then (receive 16 >>= (λ bs. pure (ipv6 bs)))
            else (answer (reply_bytes reply_address_type_not_supported)
                >> fail (unsupported_address_type atyp))))

-- The port and the answer that the request is granted.
unfoldable pub finish_request : Host → M Conn SocksError (Host × ℕ)
finish_request host = receive 2 >>= (λ port.
    answer_checked (reply_bytes reply_success)
    >> pure (host, get_or port 0 0 * 256 + get_or port 1 0))

-- `socks5ProcessRequest`.
unfoldable pub socks5_process_request : M Conn SocksError (Host × ℕ)
socks5_process_request = receive 4 >>= (λ head.
    if not (get_or head 0 0 == socks5_version)
    then fail (unsupported_version (get_or head 0 0))
    else (if not (get_or head 1 0 == cmd_connect)
        then (answer (reply_bytes reply_command_not_supported)
            >> fail (unsupported_command (get_or head 1 0)))
        else (read_host (get_or head 3 0) >>= (λ host. finish_request host))))

-- `handleSocks5Client` up to the dialing of the target that it returns.
unfoldable pub handle_socks5_client : Option Auth → M Conn SocksError (Host × ℕ)
handle_socks5_client auth = socks5_handshake auth >> socks5_process_request
