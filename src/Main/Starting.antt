-- ===== src/Main/Starting.antt =====
-- Whether the tunnels that main of cmd/rabbit.go starts are encrypted.
use rabbit_mtcp_ws_socks.Main.{main, main_with, value_of, Started}
use rabbit_mtcp_ws_socks.Prelude.{
  ℕ, suc, ◌≡◌, refl, ap, ◌∙◌, inl, inr, Bool, true, false, Option, none, some, List, [], ◌++◌,
  Option-cases, Result, length,
}
use rabbit_mtcp_ws_socks.Io.{IoError}
use Prim.Native.String.{String}
use rabbit_mtcp_ws_socks.Prelude.Strings.{codes}
use rabbit_mtcp_ws_socks.Config.{Config, mode_of, parse_flags}
use rabbit_mtcp_ws_socks.Tunnel.Crypt.{Aead, Sink, put}
use rabbit_mtcp_ws_socks.Tunnel.Cipher.{
  Kind, MetaCipher, md5_size, aead_list, full_name, kdf, new_aead_cipher, new_aead_cipher_lem,
  length-kdf, length-kdf,
}
use rabbit_mtcp_ws_socks.Tunnel.Websocket.{
  cipher_of, plain, encrypted, new_encrypted_websocket_conn, tunnel_write,
}

abbrev pub map_cipher {ℓ} : {A : Type ℓ} → (MetaCipher → A) → Option MetaCipher → Option A
map_cipher f none = none
map_cipher f (some c) = some (f c)

kept_cipher : (c : Config) → (parse_flags c).1.aead_cipher ≡ c.aead_cipher
unfolding parse_flags
kept_cipher c = elim (Option-cases (mode_of c.mode_name)) [
  | inl e ↦ rw (e, parse_flags)
  | inr (m, e) ↦ rw (e, parse_flags)
]

-- A configuration that passes is started, with the cipher that its name stands for or with none.
started :
    (md5 : List ℕ → List ℕ) (to_upper : String → String) (r : Bool × Config)
    → r.0 ≡ true
    → (st : Started) × (main_with md5 to_upper r ≡ some st)
      × (st.cipher
          ≡ value_of (new_aead_cipher md5 to_upper r.1.aead_cipher [] (codes r.1.password)))
unfolding main_with
started md5 to_upper (true, c) h = (_, refl, refl)
started md5 to_upper (false, c) h = absurd (cc)

no_cipher :
    (md5 : List ℕ → List ℕ) (to_upper : String → String) (name : String) (password : List ℕ)
    → ((x : List ℕ) → length (md5 x) ≡ md5_size)
    → aead_list (full_name (to_upper name)) ≡ none
    → value_of (new_aead_cipher md5 to_upper name [] password) ≡ none
no_cipher md5 to_upper name password h unknown =
    elim (new_aead_cipher_lem md5 to_upper name password h) [
      | inl (_, e) ↦ ap value_of e
      | inr (choice, e, _, _) ↦ absurd (cc)
    ]

-- A misspelt cipher is no error: a configuration that passes the checks, with a name of a cipher that
-- the table does not have, is started, and what is written to its tunnels goes out as it is, with no
-- salt and not encrypted, whatever the password is.
pub misspelt_cipher_in_the_clear :
    (md5 : List ℕ → List ℕ) (to_upper : String → String)
    (hkdf : (secret salt : List ℕ) → ℕ → List ℕ) (make_aead : Kind → List ℕ → Result IoError Aead)
    (c : Config) (salt b sent : List ℕ) (k : ℕ) (e : IoError)
    → ((x : List ℕ) → length (md5 x) ≡ md5_size)
    → (parse_flags c).0 ≡ true
    → aead_list (full_name (to_upper c.aead_cipher)) ≡ none
    → (st : Started) × (main md5 to_upper c ≡ some st)
      × (tunnel_write salt b (
            new_encrypted_websocket_conn
              (record { taken = sent; accepts = suc k; breaks = e })
              (map_cipher (cipher_of hkdf make_aead) st.cipher))
          ≡ ((length b, none), plain (record { taken = sent ++ b; accepts = k; breaks = e })))
unfolding main new_encrypted_websocket_conn tunnel_write put
misspelt_cipher_in_the_clear md5 to_upper hkdf make_aead c salt b sent k e h passes unknown =
    let (st, starts, same) = started md5 to_upper (parse_flags c) passes in
    let none_ : st.cipher ≡ none =
      same
      ∙ no_cipher md5 to_upper (parse_flags c).1.aead_cipher (codes (parse_flags c).1.password) h
          (ap (λ (n : String). aead_list (full_name (to_upper n))) (kept_cipher c) ∙ unknown) in
    (st, starts, rw none_)

-- A cipher that the table has is used: a configuration that passes the checks and names one is
-- started with it, its key being derived from the password and of the cipher's size; its tunnels are
-- encrypted with it.
pub known_cipher_encrypts :
    (md5 : List ℕ → List ℕ) (to_upper : String → String)
    (hkdf : (secret salt : List ℕ) → ℕ → List ℕ) (make_aead : Kind → List ℕ → Result IoError Aead)
    (c : Config) (size : ℕ) (kind : Kind) (s : Sink)
    → ((x : List ℕ) → length (md5 x) ≡ md5_size)
    → (parse_flags c).0 ≡ true
    → aead_list (full_name (to_upper c.aead_cipher)) ≡ some (size, kind)
    → let key = kdf md5 (codes (parse_flags c).1.password) size in
      let cipher = cipher_of hkdf make_aead (record { psk = key; kind = kind }) in
      (st : Started) × (main md5 to_upper c ≡ some st)
      × (new_encrypted_websocket_conn s (map_cipher (cipher_of hkdf make_aead) st.cipher)
          ≡ encrypted cipher (record { outgoing = s; writer = none }))
      × (length key ≡ size)
unfolding main new_encrypted_websocket_conn
known_cipher_encrypts md5 to_upper hkdf make_aead c size kind s h passes known =
    let (st, starts, same) = started md5 to_upper (parse_flags c) passes in
    let named = ap (λ (n : String). aead_list (full_name (to_upper n))) (kept_cipher c) ∙ known in
    elim (new_aead_cipher_lem md5 to_upper (parse_flags c).1.aead_cipher
      (codes (parse_flags c).1.password) h) [
        | inl (e, _) ↦ absurd (cc)
        | inr (choice, e, made, l) ↦
            let chosen : choice ≡ (size, kind) = cc in
            (
              st,
              starts,
              rw (same, made, chosen),
              length-kdf md5 (codes (parse_flags c).1.password) size h,
            )
      ]
