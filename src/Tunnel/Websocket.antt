-- ===== src/Tunnel/Websocket.antt =====
-- NewEncryptedWebsocketConn of tunnel/tunnel.go: the connection of a tunnel, encrypted or not.
use rabbit_mtcp_ws_socks.Prelude.{ℕ, Option, none, some, List, Result, length}
use rabbit_mtcp_ws_socks.Io.{IoError}
use rabbit_mtcp_ws_socks.Tunnel.Crypt.{Aead, Sink, put}
use rabbit_mtcp_ws_socks.Tunnel.Conn.{Cipher, WriteSide, conn_write}
use rabbit_mtcp_ws_socks.Tunnel.Cipher.{Kind, MetaCipher, salt_size}

-- A cipher as the connection uses it.
unfoldable pub cipher_of :
    (hkdf : (secret salt : List ℕ) → ℕ → List ℕ)
    → (make_aead : Kind → List ℕ → Result IoError Aead) → MetaCipher
    → Cipher
cipher_of hkdf make_aead c = record {
  salt_size = salt_size c;
  aead = λ salt. make_aead c.kind (hkdf c.psk salt (length c.psk));
}

-- The writing part of the connection: with no cipher, the adapter alone.
pub data TunnelConn : Type 0 where
  plain : Sink → TunnelConn
  encrypted : Cipher → WriteSide → TunnelConn

-- `NewEncryptedWebsocketConn`.
unfoldable pub new_encrypted_websocket_conn : Sink → Option Cipher → TunnelConn
new_encrypted_websocket_conn s none = plain s
new_encrypted_websocket_conn s (some c) = encrypted c (record { outgoing = s; writer = none })

-- WriteMessage's error, if any, or the length.
abbrev pub plain_written : List ℕ → Option IoError × Sink → (ℕ × Option IoError) × TunnelConn
plain_written b (some e, s) = ((0, some e), plain s)
plain_written b (none, s) = ((length b, none), plain s)

abbrev pub still_encrypted :
    Cipher → (ℕ × Option IoError) × WriteSide → (ℕ × Option IoError) × TunnelConn
still_encrypted c (r, w) = (r, encrypted c w)

-- Its Write, with the salt that a first encrypted write draws.
unfoldable pub tunnel_write : (salt b : List ℕ) → TunnelConn → (ℕ × Option IoError) × TunnelConn
tunnel_write salt b (plain s) = plain_written b (put s b)
tunnel_write salt b (encrypted c w) = still_encrypted c (conn_write c salt b w)
