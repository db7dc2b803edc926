-- ===== src/Tunnel/Cipher.antt =====
-- The choice of a cipher and its key: tunnel/cipher.go and tunnel/aead.go.
use rabbit_mtcp_ws_socks.Prelude.{
  subst, ℕ, zero, suc, ◌+◌, ◌-◌, ◌≤◌, ◌≡◌, ◌∙◌, ◌⊎◌, inl, inr, Bool, true, false, ◌||◌, Option,
  none, some, List, [], ◌∷◌, ◌++◌, arith, ltb, ◌==◌, if◌then◌else◌, ltb→le, eq→==, Bool-cases,
  Option-cases, Result, ok, err, length, take, drop, length-append, length-take,
}
use Prim.Native.String.{String}
use text.Mathlib.Text.{◌==◌ as str_eq}
use rabbit_mtcp_ws_socks.Tunnel.Crypt.{Aead}

pub data CipherError : Type 0 where
  key_size_error : ℕ → CipherError
  aes_key_size_error : ℕ → CipherError
  cipher_not_supported : CipherError

-- Which constructor an AEAD's name stands for.
pub data Kind : Type 0 where
  aes_gcm : Kind
  chacha20_poly1305 : Kind

-- `metaCipher`: the key and the constructor of the AEAD.
pub record MetaCipher : Type 0 where
  pub psk : List ℕ
  pub kind : Kind

-- The names that stand for others.
unfoldable pub full_name : String → String
full_name name =
    if str_eq name "CHACHA20-IETF-POLY1305"
    then "AEAD_CHACHA20_POLY1305"
    else if str_eq name "AES-128-GCM"
    then "AEAD_AES_128_GCM"
    else if str_eq name "AES-192-GCM"
    then "AEAD_AES_192_GCM"
    else if str_eq name "AES-256-GCM"
    then "AEAD_AES_256_GCM"
    else name

-- `aeadList`: the size of the key and the constructor.
unfoldable pub aead_list : String → Option (ℕ × Kind)
aead_list name =
    if str_eq name "AEAD_AES_128_GCM"
    then some (16, aes_gcm)
    else if str_eq name "AEAD_AES_192_GCM"
    then some (24, aes_gcm)
    else if str_eq name "AEAD_AES_256_GCM"
    then some (32, aes_gcm)
    else if str_eq name "AEAD_CHACHA20_POLY1305"
    then some (32, chacha20_poly1305)
    else none

-- `aesGCM` and `chacha20Poly1305`.
unfoldable pub new_cipher : Kind → List ℕ → Result CipherError MetaCipher
new_cipher aes_gcm psk =
    if length psk == 16 || (length psk == 24 || length psk == 32)
    then ok (record { psk = psk; kind = aes_gcm })
    else err (aes_key_size_error (length psk))
new_cipher chacha20_poly1305 psk =
    if length psk == 32
    then ok (record { psk = psk; kind = chacha20_poly1305 })
    else err (key_size_error 32)

-- The size of an MD5 sum.
abbrev pub md5_size : ℕ
md5_size = 16

-- The loop of `kdf`, with crypto/md5's sum.
unfoldable pub kdf_loop :
    ℕ → (md5 : List ℕ → List ℕ) → (password : List ℕ) → (key_len : ℕ) → (b prev : List ℕ) → List ℕ
kdf_loop zero md5 password key_len b prev = b
kdf_loop (suc fuel) md5 password key_len b prev =
    let b' = b ++ md5 (prev ++ password) in
    let rest = kdf_loop fuel md5 password key_len b' (drop (length b' - md5_size) b') in
    if ltb (length b) key_len then rest else b

-- `kdf`. Each round adds at least one byte, so that `key_len` rounds are enough.
unfoldable pub kdf : (md5 : List ℕ → List ℕ) → List ℕ → ℕ → List ℕ
kdf md5 password key_len = take key_len (kdf_loop key_len md5 password key_len [] [])

unfoldable pub choose_key : (md5 : List ℕ → List ℕ) → (key password : List ℕ) → ℕ → List ℕ
choose_key md5 [] password size = kdf md5 password size
choose_key md5 (k ∷ key) password size = k ∷ key

unfoldable pub sized_cipher : List ℕ → ℕ × Kind → Result CipherError MetaCipher
sized_cipher key (size, kind) =
    if length key == size then new_cipher kind key else err (key_size_error size)

-- `NewAEADCipher`; `to_upper` is strings.ToUpper.
unfoldable pub new_aead_cipher :
    (md5 : List ℕ → List ℕ)
    → (to_upper : String → String) → String
    → (key password : List ℕ) → Result CipherError MetaCipher
new_aead_cipher md5 to_upper name key password = elim (aead_list (full_name (to_upper name))) [
  | none ↦ err cipher_not_supported
  | some choice ↦ sized_cipher (choose_key md5 key password choice.0) choice
]

-- `KeySize` and `SaltSize`.
unfoldable pub salt_size : MetaCipher → ℕ
salt_size c = if ltb 16 (length c.psk) then length c.psk else 16

-- `Encrypter` and `Decrypter`, which are the same: HKDF-SHA1 of the key and the salt gives a subkey
-- as long as the key, and the constructor an AEAD or an error.
unfoldable pub cipher_aead :
    (hkdf : (secret salt : List ℕ) → ℕ → List ℕ)
    → (make_aead : Kind → List ℕ → Option Aead) → MetaCipher
    → (salt : List ℕ) → Option Aead
cipher_aead hkdf make_aead c salt = make_aead c.kind (hkdf c.psk salt (length c.psk))

-- A loop that has enough rounds makes at least `key_len` bytes.
kdf_loop_long :
    (fuel : ℕ) (md5 : List ℕ → List ℕ) (password : List ℕ) (key_len : ℕ) (b prev : List ℕ)
    → ((x : List ℕ) → length (md5 x) ≡ md5_size)
    → key_len ≤ length b + fuel
    → key_len ≤ length (kdf_loop fuel md5 password key_len b prev)
unfolding kdf_loop
kdf_loop_long zero md5 password key_len b prev h l = omega arith
kdf_loop_long (suc fuel) md5 password key_len b prev h l =
    let b' = b ++ md5 (prev ++ password) in
    let ih =
      kdf_loop_long fuel md5 password key_len b' (drop (length b' - md5_size) b') h
        (omega (arith, length-append {0} b (md5 (prev ++ password)), h (prev ++ password))) in
    elim (Bool-cases (ltb (length b) key_len)) [
      | inl e ↦ rw e ih
      | inr e ↦ rw e (ltb→le (length b) key_len e)
    ]

pub length-kdf :
    (md5 : List ℕ → List ℕ) (password : List ℕ) (n : ℕ)
    → ((x : List ℕ) → length (md5 x) ≡ md5_size)
    → length (kdf md5 password n) ≡ n
unfolding kdf
length-kdf md5 password n h =
    let k = kdf_loop_long n md5 password n [] [] h (omega arith) in
    omega (arith, length-take {0} n (kdf_loop n md5 password n [] []))

-- What a choice promises: a key of its size is accepted.
abbrev Accepts : Option (ℕ × Kind) → Type 0
Accepts none = Unit {0}
Accepts (some choice) =
    (psk : List ℕ)
    → length psk ≡ choice.0
    → new_cipher choice.1 psk ≡ ok (record { psk = psk; kind = choice.1 })

sizes-Accepts :
    (b1 b2 b3 b4 : Bool)
    → Accepts (
        if b1
        then some (16, aes_gcm)
        else if b2
        then some (24, aes_gcm)
        else if b3
        then some (32, aes_gcm)
        else if b4
        then some (32, chacha20_poly1305)
        else none)
unfolding new_cipher
sizes-Accepts true b2 b3 b4 = λ (psk : List ℕ) (h : length psk ≡ 16). rw h
sizes-Accepts false true b3 b4 = λ (psk : List ℕ) (h : length psk ≡ 24). rw h
sizes-Accepts false false true b4 = λ (psk : List ℕ) (h : length psk ≡ 32). rw h
sizes-Accepts false false false true = λ (psk : List ℕ) (h : length psk ≡ 32). rw h
sizes-Accepts false false false false = tt

aead_list-Accepts : (name : String) → Accepts (aead_list name)
unfolding aead_list
aead_list-Accepts name =
    sizes-Accepts (str_eq name "AEAD_AES_128_GCM") (str_eq name "AEAD_AES_192_GCM")
      (str_eq name "AEAD_AES_256_GCM") (str_eq name "AEAD_CHACHA20_POLY1305")

sized_lem :
    (key : List ℕ) (choice : ℕ × Kind)
    → length key ≡ choice.0
    → sized_cipher key choice ≡ new_cipher choice.1 key
unfolding sized_cipher
sized_lem key choice h = rw (eq→== (length key) choice.0 h)

-- With no key given, a name that the table has, in any case and under either spelling, always gives
-- a cipher, with the key that is derived from the password, whose length is the size that the
-- table has for the name. Any other name gives the error, and no cipher.
pub new_aead_cipher_lem :
    (md5 : List ℕ → List ℕ) (to_upper : String → String) (name : String) (password : List ℕ)
    → ((x : List ℕ) → length (md5 x) ≡ md5_size)
    → ((aead_list (full_name (to_upper name)) ≡ none)
        × (new_aead_cipher md5 to_upper name [] password ≡ err cipher_not_supported))
      ⊎ ((choice : ℕ × Kind) × (aead_list (full_name (to_upper name)) ≡ some choice)
          × (new_aead_cipher md5 to_upper name [] password
              ≡ ok (record { psk = kdf md5 password choice.0; kind = choice.1 }))
          × (length (kdf md5 password choice.0) ≡ choice.0))
unfolding new_aead_cipher choose_key
new_aead_cipher_lem md5 to_upper name password h =
    elim (Option-cases (aead_list (full_name (to_upper name)))) [
      | inl e ↦ inl (e, rw (e, new_aead_cipher))
      | inr (choice, e) ↦
          let l = length-kdf md5 password choice.0 h in
          inr (
            choice,
            e,
            rw (e, new_aead_cipher)
                (sized_lem (kdf md5 password choice.0) choice l
                  ∙ subst Accepts e (aead_list-Accepts (full_name (to_upper name)))
                      (kdf md5 password choice.0) l),
            l,
          )
    ]
