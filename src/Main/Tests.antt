-- ===== src/Main/Tests.antt =====
-- main of cmd/rabbit.go on concrete configurations.
use rabbit_mtcp_ws_socks.Main.{Started, main}
use rabbit_mtcp_ws_socks.Prelude.{
  ℕ, ◌≡◌, refl, none, some, List, [], ◌∷◌, Result, err, length, replicate,
}
use rabbit_mtcp_ws_socks.Io.{IoError, eof, failure}
use Prim.Native.String.{String}
use rabbit_mtcp_ws_socks.Prelude.Strings.{codes}
use rabbit_mtcp_ws_socks.Config.{
  Config, new_default_config, mode_of, parse_flags, check_client, check_all,
}
use rabbit_mtcp_ws_socks.Tunnel.Crypt.{Aead, Sink}
use rabbit_mtcp_ws_socks.Tunnel.Cipher.{Kind, aead_list, full_name, kdf}
use rabbit_mtcp_ws_socks.Tunnel.Websocket.{
  cipher_of, plain, encrypted, new_encrypted_websocket_conn, tunnel_write,
}
use rabbit_mtcp_ws_socks.Main.Starting.{
  map_cipher, misspelt_cipher_in_the_clear, known_cipher_encrypts,
}

abbrev md5 : List ℕ → List ℕ
md5 x = replicate 16 7

abbrev same_case : String → String
same_case s = s

abbrev hkdf : List ℕ → List ℕ → ℕ → List ℕ
hkdf secret salt n = replicate n 1

abbrev make_aead : Kind → List ℕ → Result IoError Aead
make_aead kind key = err (failure 1)

abbrev named : String → Config
named name = record new_default_config {
  password = "hunter2";
  dest = "host:80";
  aead_cipher = name;
}

abbrev socket : Sink
socket = record { taken = 1 ∷ []; accepts = 3; breaks = eof }

misspelt_cipher_in_the_clear_example :
    (st : Started) × (main md5 same_case (named "AES-257-GCM") ≡ some st)
    × (tunnel_write
          (9 ∷ [])
          (5 ∷ 6 ∷ [])
          (new_encrypted_websocket_conn socket (map_cipher (cipher_of hkdf make_aead) st.cipher))
        ≡ ((2, none), plain (record { taken = 1 ∷ 5 ∷ 6 ∷ []; accepts = 2; breaks = eof })))
unfolding parse_flags mode_of new_default_config check_client check_all aead_list full_name
misspelt_cipher_in_the_clear_example =
    misspelt_cipher_in_the_clear md5 same_case hkdf make_aead (named "AES-257-GCM") (9 ∷ [])
      (5 ∷ 6 ∷ []) (1 ∷ []) 2 eof (λ x. refl) refl refl

known_cipher_encrypts_example :
    let key = kdf md5 (codes (parse_flags (named "AES-256-GCM")).1.password) 32 in
    let cipher = cipher_of hkdf make_aead (record { psk = key; kind = Kind.aes_gcm }) in
    (st : Started) × (main md5 same_case (named "AES-256-GCM") ≡ some st)
    × (new_encrypted_websocket_conn socket (map_cipher (cipher_of hkdf make_aead) st.cipher)
        ≡ encrypted cipher (record { outgoing = socket; writer = none }))
    × (length key ≡ 32)
unfolding parse_flags mode_of new_default_config check_client check_all aead_list full_name
known_cipher_encrypts_example =
    known_cipher_encrypts md5 same_case hkdf make_aead (named "AES-256-GCM") 32 Kind.aes_gcm socket
      (λ x. refl) refl refl
