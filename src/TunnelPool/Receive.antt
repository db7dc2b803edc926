-- ===== src/TunnelPool/Receive.antt =====
-- What InboundRelay of tunnel_pool/tunnel.go delivers.
use rabbit_mtcp_ws_socks.Prelude.{
  ℕ, ◌≤◌, ◌≡◌, refl, sym, ap, ◌∙◌, inl, inr, Bool, true, false, ◌||◌, none, List, [], ◌∷◌, ◌++◌,
  append-nil, arith, ◌==◌, if◌then◌else◌, le→ltb, Bool-cases, Result, ok, length, take,
}
use rabbit_mtcp_ws_socks.Prelude.Bytes.{get_le}
use rabbit_mtcp_ws_socks.Io.{IoError, Stream}
use rabbit_mtcp_ws_socks.Block.{
  Block, pack, new_block_from_reader, type_ping, type_pong, new_pong_block, header,
}
use rabbit_mtcp_ws_socks.Block.Codec.{IsBlock, new_block_from_reader-pack, pack-eq-header}
use rabbit_mtcp_ws_socks.TunnelPool.Relay.{
  Link, plus64, count_sent, count_recv, pack_then_send, set_latency, since, set_last_active, next,
  dispatch, received, drained, inbound_turn,
}

-- A block as the reader of the other side holds it, packed again.
unfoldable pub arrived : Block → Block
arrived b = (pack (record b { packed = none })).1

abbrev pub is_control : Block → Bool
is_control b = (b.block_type == type_ping) || (b.block_type == type_pong)

-- What is put on the receive queue for a block.
unfoldable pub delivered : Block → List Block
delivered b = if is_control b then [] else arrived b ∷ []

unfoldable pub delivered_all : List Block → List Block
delivered_all [] = []
delivered_all (b ∷ bs) = delivered b ++ delivered_all bs

unfoldable pub packed_all : List Block → List ℕ
packed_all [] = []
packed_all (b ∷ bs) = (pack b).0 ++ packed_all bs

-- A ping or a pong carries at least the eight bytes of a time.
abbrev pub Sound : Block → Type 0
Sound b = IsBlock b × (is_control b ≡ true → 8 ≤ length b.block_data)

arrived_lem :
    (b : Block)
    → ((arrived b).block_type ≡ b.block_type)
      × ((arrived b).block_data ≡ b.block_data)
      × ((pack (record b { packed = none })).0 ≡ header b ++ b.block_data)
unfolding arrived pack header
arrived_lem b = (refl, refl, refl)

-- What a block leaves of the link.
abbrev Effect : Block → Link → Link → Type 0
Effect b l l' =
    (l'.output ≡ l.output ++ delivered b)
    × (l'.tun.cancelled ≡ l.tun.cancelled)
    × (l'.tun.recv_bytes ≡ plus64 l.tun.recv_bytes (length (pack (record b { packed = none })).0))
    × (l'.retried ≡ l.retried)

sent_lem :
    (b : Block) (l : Link)
    → let l' = pack_then_send false false b l in
      (l'.output ≡ l.output)
      × (l'.tun.cancelled ≡ l.tun.cancelled)
      × (l'.tun.recv_bytes ≡ l.tun.recv_bytes)
      × (l'.retried ≡ l.retried)
      × (l'.incoming ≡ l.incoming)
unfolding pack_then_send count_sent
sent_lem b l = ground arith

pub counted_lem :
    (n : ℕ) (l : Link)
    → let l' = count_recv n l in
      (l'.output ≡ l.output)
      × (l'.tun.cancelled ≡ l.tun.cancelled)
      × (l'.tun.recv_bytes ≡ plus64 l.tun.recv_bytes n)
      × (l'.retried ≡ l.retried)
      × (l'.incoming ≡ l.incoming)
unfolding count_recv
counted_lem n l = ground arith

abbrev Keeps : List Block → Link → Link → Type 0
Keeps out l l' =
    (l'.output ≡ l.output ++ out)
    × (l'.tun.cancelled ≡ l.tun.cancelled)
    × (l'.tun.recv_bytes ≡ l.tun.recv_bytes)
    × (l'.retried ≡ l.retried)
    × (l'.incoming ≡ l.incoming)

abbrev handed : Block → List Block
handed d = if is_control d then [] else d ∷ []

dispatch_ping :
    (now : ℕ) (d : Block) (l : Link)
    → (d.block_type == type_ping) ≡ true
    → 8 ≤ length d.block_data
    → dispatch now d l
      ≡ next (
          pack_then_send false false
            (new_pong_block now 0 0 d.time_stamp)
            (set_latency (get_le (take 8 d.block_data)) l))
unfolding dispatch
dispatch_ping now d l e h = rw (e, le→ltb (length d.block_data) 8 h)

dispatch_pong :
    (now : ℕ) (d : Block) (l : Link)
    → (d.block_type == type_ping) ≡ false
    → (d.block_type == type_pong) ≡ true
    → 8 ≤ length d.block_data
    → dispatch now d l ≡ next (set_latency (since now (get_le (take 8 d.block_data))) l)
unfolding dispatch
dispatch_pong now d l e f h = rw (e, f, le→ltb (length d.block_data) 8 h)

dispatch_other :
    (now : ℕ) (d : Block) (l : Link)
    → (d.block_type == type_ping) ≡ false
    → (d.block_type == type_pong) ≡ false
    → dispatch now d l ≡ next (record l { output = l.output ++ (d ∷ []) })
unfolding dispatch
dispatch_other now d l e f = rw (e, f)

-- Handling a sound block never panics.
dispatch_lem :
    (now : ℕ) (d : Block) (l : Link)
    → (is_control d ≡ true → 8 ≤ length d.block_data)
    → (l' : Link) × (dispatch now d l ≡ next l') × Keeps (handed d) l l'
unfolding set_latency
dispatch_lem now d l s = elim (Bool-cases (d.block_type == type_ping)) [
  | inl e ↦
      let l1 = set_latency (get_le (take 8 d.block_data)) l in
      let pong = new_pong_block now 0 0 d.time_stamp in
      let (o, c, r, q, i) = sent_lem pong l1 in
      (
        pack_then_send false false pong l1,
        dispatch_ping now d l e (s (rw e)),
        rw e (o ∙ sym (append-nil l.output), c, r, q, i),
      )
  | inr e ↦ elim (Bool-cases (d.block_type == type_pong)) [
    | inl f ↦ (
      set_latency (since now (get_le (take 8 d.block_data))) l,
      dispatch_pong now d l e f (s (rw (e, f))),
      rw (e, f) (sym (append-nil l.output), refl, refl, refl, refl),
    )
    | inr f ↦ (
      record l { output = l.output ++ (d ∷ []) },
      dispatch_other now d l e f,
      rw (e, f) (refl, refl, refl, refl, refl),
    )
  ]
]

pub reading_turn :
    (now : ℕ) (l : Link) (x : Result IoError Block × Stream)
    → l.tun.cancelled ≡ false
    → new_block_from_reader l.incoming ≡ x
    → inbound_turn now l ≡ received now x l
unfolding inbound_turn
reading_turn now l x c h = rw (c, h)

pub last_turn :
    (now : ℕ) (l : Link) (x : Result IoError Block × Stream)
    → l.tun.cancelled ≡ true
    → new_block_from_reader l.incoming ≡ x
    → inbound_turn now l ≡ drained x l
unfolding inbound_turn
last_turn now l x c h = rw (c, h)

-- One turn on a sound block that is next on the stream.
pub turn_lem :
    (now : ℕ) (b : Block) (l : Link) (rest : List ℕ) (e : IoError)
    → Sound b
    → l.tun.cancelled ≡ false
    → l.incoming ≡ record { bytes = (pack b).0 ++ rest; ends = e }
    → (l' : Link) × (inbound_turn now l ≡ next l')
      × (l'.output ≡ l.output ++ delivered b)
      × (l'.tun.cancelled ≡ false)
      × (l'.tun.recv_bytes ≡ plus64 l.tun.recv_bytes (length (pack b).0))
      × (l'.retried ≡ l.retried)
      × (l'.incoming ≡ record { bytes = rest; ends = e })
unfolding delivered arrived received set_last_active pack
turn_lem now b l rest e (w, s) c i =
    let bare = record b { packed = none } in
    let l1 = set_last_active now (record l { incoming = record { bytes = rest; ends = e } }) in
    let n = length (pack bare).0 in
    let l2 = count_recv n l1 in
    let (co, cc', cr, cq, ci) = counted_lem n l1 in
    let (l', d, (o, k, r, q, j)) = dispatch_lem now (pack bare).1 l2 s in
    (
      l',
      reading_turn now l (ok bare, record { bytes = rest; ends = e }) c
            (ap new_block_from_reader i ∙ new_block_from_reader-pack b rest e w)
          ∙ d,
      o ∙ ap (λ (x : List Block). x ++ delivered b) co,
      k ∙ cc' ∙ c,
      r ∙ cr ∙ ap (λ (x : List ℕ). plus64 l.tun.recv_bytes (length x)) (sym (pack-eq-header w)),
      q ∙ cq,
      j ∙ ci,
    )
