-- ===== src/TunnelPool/Exchange.antt =====
-- The exchange of peer ids of tunnel_pool/tunnel.go, over the tunnel's encrypted connection.
use rabbit_mtcp_ws_socks.Prelude.{
  ℕ, ◌^◌, ◌<◌, ◌≡◌, refl, sym, ap, ◌∙◌, Bool, Option, none, some, List, [], ◌++◌, arith, ◌==◌,
  if◌then◌else◌, eq→==, Result, ok, err,
}
use rabbit_mtcp_ws_socks.Prelude.Bytes.{put_le, get_le, length-put_le, get_le-put_le}
use rabbit_mtcp_ws_socks.Io.{IoError, Stream, read_full, read_full-append}

-- The connection of a tunnel: what is to be read, what was written, and the error of a write.
pub record Wire : Type 0 where
  pub incoming : Stream
  pub sent : List ℕ
  pub broken : Option IoError

pub data ExchangeError : Type 0 where
  send_failed : IoError → ExchangeError
  recv_failed : IoError → ExchangeError
  invalid_exchanging : ExchangeError

-- `sendPeerID`.
unfoldable pub send_peer_id : ℕ → Wire → Option IoError × Wire
send_peer_id id w = elim w.broken [
  | some e ↦ (some e, w)
  | none ↦ (none, record w { sent = w.sent ++ put_le 4 id })
]

-- `recvPeerID`. The read deadline shows as an error of the stream.
unfoldable pub decode_peer_id : Wire → Result IoError (List ℕ) × Stream → Result IoError ℕ × Wire
decode_peer_id w (ok buf, s) = (ok (get_le buf), record w { incoming = s })
decode_peer_id w (err e, s) = (err e, record w { incoming = s })

unfoldable pub recv_peer_id : Wire → Result IoError ℕ × Wire
recv_peer_id w = decode_peer_id w (read_full 4 w.incoming)

-- `activeExchangePeerID` with the tunnel's peer id.
unfoldable pub active_check : ℕ → Result IoError ℕ × Wire → Option ExchangeError × Wire
active_check id (err e, w) = (some (recv_failed e), w)
active_check id (ok remote, w) = (if id == remote then none else some invalid_exchanging, w)

unfoldable pub active_exchange_peer_id : ℕ → Wire → Option ExchangeError × Wire
active_exchange_peer_id id w =
    let (e, w') = send_peer_id id w in
    elim e [ some e ↦ (some (send_failed e), w') | none ↦ active_check id (recv_peer_id w') ]

-- `passiveExchangePeerID`: the error or the tunnel's new peer id.
unfoldable pub passive_send : Result IoError ℕ × Wire → Result ExchangeError ℕ × Wire
passive_send (err e, w) = (err (recv_failed e), w)
passive_send (ok id, w) =
    let (e, w') = send_peer_id id w in
    elim e [ some e ↦ (err (send_failed e), w') | none ↦ (ok id, w') ]

unfoldable pub passive_exchange_peer_id : Wire → Result ExchangeError ℕ × Wire
passive_exchange_peer_id w = passive_send (recv_peer_id w)

abbrev pub wire : List ℕ → IoError → List ℕ → Wire
wire bs e out = record { incoming = record { bytes = bs; ends = e }; sent = out; broken = none }

recv-put_le :
    (id : ℕ) (rest out : List ℕ) (e : IoError)
    → id < 2 ^ 32
    → recv_peer_id (wire (put_le 4 id ++ rest) e out) ≡ (ok id, wire rest e out)
unfolding recv_peer_id decode_peer_id
recv-put_le id rest out e h =
    ap (decode_peer_id (wire (put_le 4 id ++ rest) e out))
      (read_full-append 4 (put_le 4 id) rest e (sym (length-put_le 4 id)))
    ∙ ap (λ (k : ℕ). (ok k, wire rest e out)) (get_le-put_le 4 id (omega arith))

-- The client accepts an answer of four bytes exactly when it is its own id.
pub active_checks :
    (id other : ℕ) (rest out : List ℕ) (e : IoError)
    → other < 2 ^ 32
    → active_exchange_peer_id id (wire (put_le 4 other ++ rest) e out)
      ≡ (if id == other then none else some invalid_exchanging, wire rest e (out ++ put_le 4 id))
unfolding send_peer_id active_exchange_peer_id active_check
active_checks id other rest out e h =
    ap (active_check id) (recv-put_le other rest (out ++ put_le 4 id) e h)

-- Two sides that exchange peer ids over connections that take writes agree: the client sends its
-- 32-bit id as four bytes, a server that reads these takes the id as its own and sends them back,
-- and a client that reads these accepts. What follows the ids is left to be read.
pub exchange_agrees :
    (id : ℕ) (rest answers out : List ℕ) (e : IoError)
    → id < 2 ^ 32
    → ((send_peer_id id (wire answers e [])).1.sent ≡ put_le 4 id)
      × (passive_exchange_peer_id (wire (put_le 4 id ++ rest) e out)
          ≡ (ok id, wire rest e (out ++ put_le 4 id)))
      × (active_exchange_peer_id id (wire (put_le 4 id ++ rest) e out)
          ≡ (none, wire rest e (out ++ put_le 4 id)))
unfolding send_peer_id passive_exchange_peer_id passive_send
exchange_agrees id rest answers out e h = (
  refl,
  ap passive_send (recv-put_le id rest out e h),
  active_checks id id rest out e h
      ∙ ap
          (λ (b : Bool).
            (if b then none else some invalid_exchanging, wire rest e (out ++ put_le 4 id)))
          (eq→== id id refl),
)
