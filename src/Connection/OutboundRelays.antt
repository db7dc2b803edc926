-- ===== src/Connection/OutboundRelays.antt =====
-- What the relays of connection/outbound_connection.go carry.
use rabbit_mtcp_ws_socks.Prelude.{
  ℕ, ◌+◌, ◌%◌, ◌^◌, ◌<◌, ◌≡◌, refl, sym, ap, ◌∙◌, false, ◌||◌, none, some, List, [], ◌∷◌, ◌++◌,
  append-nil, append_assoc, arith, length, All,
}
use rabbit_mtcp_ws_socks.Block.{Block, type_data}
use rabbit_mtcp_ws_socks.Block.Split.{joined, IsPiece}
use rabbit_mtcp_ws_socks.Connection.Inbound.{Inbound}
use rabbit_mtcp_ws_socks.Connection.Inbound
use rabbit_mtcp_ws_socks.Connection.Write.{write-Wrote}
use rabbit_mtcp_ws_socks.Connection.Outbound.{Socket, Outbound, write_out, send_block, send_relay}

abbrev pub IsData : Block → Type 0
IsData b = b.block_type ≡ type_data

-- A connection to the target, open for writing.
abbrev pub HasSocket : Outbound → Socket → Type 0
HasSocket c s = (c.socket ≡ some s) × (s.broken ≡ none)

write_out_lem :
    (now : ℕ) (payload : List ℕ) (c : Outbound) (s : Socket)
    → c.socket ≡ some s
    → s.broken ≡ none
    → write_out now payload c ≡ record c {
      socket = some (record s { written = s.written ++ payload });
      sent_bytes = (c.sent_bytes + length payload) % 2 ^ 64;
    }
unfolding write_out
write_out_lem now payload c s k e = ground arith

send_block_data :
    (now : ℕ) (b : Block) (c : Outbound)
    → b.block_type ≡ type_data
    → send_block now b c ≡ some (write_out now b.block_data c)
unfolding send_block
send_block_data now b c h = ground arith

send_data_block :
    (now : ℕ) (b : Block) (c : Outbound) (s : Socket)
    → IsData b
    → HasSocket c s
    → (c' : Outbound) × (send_block now b c ≡ some c')
      × (c'.socket ≡ some (record s { written = s.written ++ b.block_data }))
      × (c'.send_queue ≡ c.send_queue)
      × (c'.cancelled ≡ c.cancelled)
      × (c'.closed ≡ c.closed)
send_data_block now b c s h (k, e) = (
  record c {
    socket = some (record s { written = s.written ++ b.block_data });
    sent_bytes = (c.sent_bytes + length b.block_data) % 2 ^ 64;
  },
  send_block_data now b c h ∙ ap some (write_out_lem now b.block_data c s k e),
  refl,
  refl,
  refl,
  refl,
)

pub relay_step :
    (now : ℕ) (b : Block) (bs : List Block) (c c' : Outbound)
    → send_block now b c ≡ some c'
    → send_relay now (b ∷ bs) c ≡ send_relay now bs c'
unfolding send_relay
relay_step now b bs c c' h = rw (h, send_relay)

-- The bytes of data blocks are written to the target in the order of the blocks, and nothing is
-- sent back.
pub send_relay-joined :
    (now : ℕ) (bs : List Block) (c : Outbound) (s : Socket)
    → All IsData bs
    → HasSocket c s
    → (c' : Outbound) × (send_relay now bs c ≡ some c')
      × (c'.socket ≡ some (record s { written = s.written ++ joined bs }))
      × (c'.send_queue ≡ c.send_queue)
      × (c'.cancelled ≡ c.cancelled)
      × (c'.closed ≡ c.closed)
unfolding joined
send_relay-joined now [] c s h (k, e) = (
  c,
  empty_relay now c,
  k ∙ ap (λ (w : List ℕ). some (record s { written = w })) (sym (append-nil s.written)),
  refl,
  refl,
  refl,
)
  where
    empty_relay : (now : ℕ) (c : Outbound) → send_relay now [] c ≡ some c
    empty_relay now c = unfold send_relay in refl
send_relay-joined now (b ∷ bs) c s (h, hs) (k, e) =
    let (c1, r, k1, q1, x1, o1) = send_data_block now b c s h (k, e) in
    let (c2, r2, k2, q2, x2, o2) =
      send_relay-joined now bs c1 (record s { written = s.written ++ b.block_data }) hs (k1, e) in
    (
      c2,
      relay_step now b bs c c1 r ∙ r2,
      k2
          ∙ ap (λ (w : List ℕ). some (record s { written = w }))
              (append_assoc s.written b.block_data (joined bs)),
      q2 ∙ q1,
      x2 ∙ x1,
      o2 ∙ o1,
    )

pub pieces-IsData : (n : ℕ) (bs : List Block) → All (IsPiece n) bs → All IsData bs
pieces-IsData n [] h = tt
pieces-IsData n (b ∷ bs) (h, hs) = (h.is_data, pieces-IsData n bs hs)

-- From end to end: what is written to an open client connection leaves it as blocks at the end of
-- its send queue, and a server connection that receives just these blocks writes to its target
-- exactly the bytes that were written.
pub write-send_relay :
    (clock : ℕ → ℕ) (now : ℕ) (c : Inbound) (payload : List ℕ) (o : Outbound) (s : Socket)
    → ((i : ℕ) → clock i < 2 ^ 64)
    → c.connection_id < 2 ^ 32
    → c.processor.send_block_id < 2 ^ 32
    → c.write_closed || c.closed ≡ false
    → HasSocket o s
    → (c' : Inbound) × (blocks : List Block) × (o' : Outbound) × (Inbound.write clock c payload
        ≡ some (some (length payload), c'))
      × (c'.send_queue ≡ c.send_queue ++ blocks)
      × (send_relay now blocks o ≡ some o')
      × (o'.socket ≡ some (record s { written = s.written ++ payload }))
write-send_relay clock now c payload o s hn hc hk ho hs =
    let (c', blocks, run, w) = write-Wrote clock c payload hn hc hk ho in
    let (o', r, k, q, x, d) =
      send_relay-joined now blocks o s (pieces-IsData c.connection_id blocks w.split.pieces) hs in
    (
      c',
      blocks,
      o',
      run,
      w.queued,
      r,
      k ∙ ap (λ (p : List ℕ). some (record s { written = s.written ++ p })) w.split.all_data,
    )
