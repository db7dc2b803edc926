-- ===== src/Client/Tests.antt =====
-- Dialogues with the SOCKS5 server, and its theorems at concrete inputs.
use rabbit_mtcp_ws_socks.Prelude.{ℕ, ◌≡◌, refl, true, false, ◌&&◌, some, List, [], ◌∷◌, ok}
use rabbit_mtcp_ws_socks.Io.{eof, read_full}
use rabbit_mtcp_ws_socks.Prelude.Strings.{str_eq}
use rabbit_mtcp_ws_socks.Client.Socks.{
  Auth, has_method, socks5_handshake, Host, domain, receive, receive_with, choose_method,
  perform_password_auth, check_login, answer,
}
use rabbit_mtcp_ws_socks.Client.Accept.{conn}

abbrev user : Auth
user = record { username = 117 ∷ []; password = 112 ∷ 119 ∷ [] }

abbrev target : Host
target = domain (97 ∷ 46 ∷ 98 ∷ [])

abbrev both_methods : List ℕ
both_methods = 0 ∷ 2 ∷ []

has_method-both : has_method 2 both_methods ≡ true
unfolding has_method
has_method-both = refl

has_method-none : has_method 0 both_methods ≡ true
unfolding has_method
has_method-none = refl

str_eq-other : str_eq (118 ∷ []) (117 ∷ []) && str_eq (112 ∷ 119 ∷ []) (112 ∷ 119 ∷ []) ≡ false
unfolding str_eq
str_eq-other = refl

abbrev good_bytes : List ℕ
good_bytes = 5 ∷ 1 ∷ 2 ∷ 1 ∷ 1 ∷ 117 ∷ 2 ∷ 112 ∷ 119 ∷ 7 ∷ []

passes :
    socks5_handshake (some user) (conn good_bytes eof [])
    ≡ (ok tt, conn (7 ∷ []) eof (5 ∷ 2 ∷ 1 ∷ 0 ∷ []))
unfolding socks5_handshake receive receive_with read_full choose_method has_method
    perform_password_auth check_login answer str_eq
passes = refl
