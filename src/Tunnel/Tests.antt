-- ===== src/Tunnel/Tests.antt =====
-- Runs of the tunnel package, and its theorems at concrete inputs.
use Prim.Native.String.{String}
use rabbit_mtcp_ws_socks.Tunnel.Conn.{
  Cipher, ReadSide, WriteSide, conn_write, conn_write_to, conn_write_to-conn_write,
}
use rabbit_mtcp_ws_socks.Tunnel.Cipher.{chacha20_poly1305, aead_list, full_name}
use rabbit_mtcp_ws_socks.Prelude.{
  ℕ, suc, ◌+◌, ◌≡◌, refl, Option, none, some, List, [], ◌∷◌, arith, ok, length, replicate,
}
use rabbit_mtcp_ws_socks.Io.{IoError, eof, timeout}
use rabbit_mtcp_ws_socks.Tunnel.Nonce.{increment}
use rabbit_mtcp_ws_socks.Tunnel.Crypt.{
  Aead, AeadLaws, Sink, Writer, write, Reader, write_to, new_writer, new_reader,
}
use rabbit_mtcp_ws_socks.Tunnel.RoundTrip.{sink}

-- A cipher that puts one byte in front.
abbrev toy_unseal : List ℕ → Option (List ℕ)
toy_unseal [] = none
toy_unseal (b ∷ bs) = some bs

abbrev toy : Aead
toy = record {
  overhead = 1;
  nonce_size = 2;
  seal = λ nonce text. 9 ∷ text;
  unseal = λ nonce text. toy_unseal text;
}

toy-AeadLaws : AeadLaws toy
toy-AeadLaws = record { unseal-seal = λ nonce text. refl; length-seal = λ nonce text. omega arith }

increment-carry : increment (255 ∷ 3 ∷ []) ≡ 0 ∷ 4 ∷ []
unfolding increment
increment-carry = refl

abbrev hello : List ℕ
hello = 104 ∷ 105 ∷ []

abbrev sent : (ℕ × Option IoError) × Writer
sent = write toy hello (new_writer toy (sink [] (length hello + 3) timeout))

abbrev got : (ℕ × Option IoError) × (Reader × Sink)
got =
    write_to (suc (length hello)) toy
      (new_reader toy (record { bytes = sent.1.sink.taken; ends = eof }))
      (sink (1 ∷ []) (length hello + 0) timeout)

abbrev toy_cipher : Cipher
toy_cipher = record { salt_size = 3; aead = λ salt. ok toy }

abbrev salt : List ℕ
salt = 7 ∷ 7 ∷ 8 ∷ []

abbrev conn_sent : (ℕ × Option IoError) × WriteSide
conn_sent =
    conn_write toy_cipher salt hello
      (record { outgoing = sink [] (suc (length hello + 1)) timeout; writer = none })

abbrev conn_got : (ℕ × Option IoError) × (ReadSide × Sink)
conn_got =
    conn_write_to (suc (length hello)) toy_cipher
      (record {
        incoming = record { bytes = conn_sent.1.outgoing.taken; ends = eof };
        reader = none;
      })
      (sink [] (length hello + 0) timeout)

conn_write_to-conn_write_example :
    (conn_sent.0 ≡ (2, none)) × (conn_got.0 ≡ (2, none)) × (conn_got.1.1.taken ≡ hello)
conn_write_to-conn_write_example =
    conn_write_to-conn_write toy_cipher salt toy toy-AeadLaws refl refl hello [] 1 0 timeout timeout
      conn_sent refl conn_got refl

abbrev toy_md5 : List ℕ → List ℕ
toy_md5 text = replicate 16 (length text)

abbrev same_case : String → String
same_case s = s

key-chacha : aead_list (full_name "CHACHA20-IETF-POLY1305") ≡ some (32, chacha20_poly1305)
unfolding aead_list full_name
key-chacha = refl
