-- ===== src/Connection/OutboundEnd.antt =====
-- How a connection of connection/outbound_connection.go begins and ends.
use rabbit_mtcp_ws_socks.Prelude.{
  ℕ, ◌+◌, ◌%◌, ◌^◌, ◌<◌, ◌≡◌, refl, sym, ap, ◌∙◌, false, some, List, [], ◌∷◌, ◌++◌, append_assoc,
  arith, length, All,
}
use rabbit_mtcp_ws_socks.Block.{Block, shutdown_both}
use rabbit_mtcp_ws_socks.Block.Split.{joined, IsPiece, new_data_blocks-IsSplit}
use rabbit_mtcp_ws_socks.Connection.Processor.{pack_data, pack_disconnect}
use rabbit_mtcp_ws_socks.Connection.Outbound.{
  Outbound, send_data, queue_data, ReadResult, got, at_end, recv_turn,
}

abbrev goodbye : ℕ → Outbound → Block
goodbye now c = (pack_disconnect now c.processor c.connection_id shutdown_both).0

-- The results of reads that give these bytes, piece by piece, and then the end of the stream.
abbrev pub reads : List (List ℕ) → List ReadResult
reads [] = at_end ∷ []
reads (p ∷ ps) = got p ∷ reads ps

unfoldable pub together : List (List ℕ) → List ℕ
together [] = []
together (p ∷ ps) = p ++ together ps

pub joined-append : (xs ys : List Block) → joined (xs ++ ys) ≡ joined xs ++ joined ys
unfolding joined
joined-append [] ys = refl
joined-append (x ∷ xs) ys =
    ap (λ (t : List ℕ). x.block_data ++ t) (joined-append xs ys)
    ∙ sym (append_assoc x.block_data (joined xs) (joined ys))

pub recv_got :
    (clock : ℕ → ℕ) (p : List ℕ) (c : Outbound)
    → ((i : ℕ) → clock i < 2 ^ 64)
    → c.connection_id < 2 ^ 32
    → c.processor.send_block_id < 2 ^ 32
    → (c1 : Outbound) × (blocks : List Block) × (recv_turn clock (got p) c ≡ some (c1, false))
      × (c1.send_queue ≡ c.send_queue ++ blocks)
      × (joined blocks ≡ p)
      × All (IsPiece c.connection_id) blocks
      × (c1.processor.send_block_id < 2 ^ 32)
      × (c1.connection_id ≡ c.connection_id)
      × (c1.closed ≡ c.closed)
unfolding recv_turn send_data queue_data pack_data
recv_got clock p c hn hc hk =
    let ((counter, blocks), run, split) =
      new_data_blocks-IsSplit clock c.connection_id c.processor.send_block_id p hn hc hk in
    let c1 = record c {
      processor = record c.processor { send_block_id = counter };
      send_queue = c.send_queue ++ blocks;
      recv_bytes = (c.recv_bytes + length p) % 2 ^ 64;
    } in
    (
      c1,
      blocks,
      rw (run, recv_turn, send_data, pack_data),
      refl,
      split.all_data,
      split.pieces,
      (let n = split.next in omega arith),
      refl,
      refl,
    )
