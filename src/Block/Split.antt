-- ===== src/Block/Split.antt =====
-- NewDataBlocks of block/block.go: a payload in pieces.
use rabbit_mtcp_ws_socks.Prelude.{
  zero, suc, Bool-cases, ℕ, ◌+◌, ◌-◌, ◌%◌, ◌^◌, ◌≤◌, ◌<◌, ◌≡◌, refl, ap, inr, some, List, [], ◌∷◌,
  ◌++◌, arith, length, drop, take-append-drop, length-take, length-drop, drop-drop, All, sym,
  drop_all, le→ltb, ◌∙◌, Bool-cases, ltb, ltb→le, inl, ltb→lt,
}
use rabbit_mtcp_ws_socks.Block.{
  Block, type_data, data_size, header, new_data_block, next_id, slice, piece_end, data_blocks_loop,
  suc, new_data_blocks,
}
use rabbit_mtcp_ws_socks.Block.Codec.{IsBlock}

-- The bytes that a sequence of blocks carries.
unfoldable pub joined : List Block → List ℕ
joined [] = []
joined (b ∷ bs) = b.block_data ++ joined bs

-- The ids count up from `c`, modulo 2 ^ 32.
abbrev pub Numbered : ℕ → List Block → Type 0
Numbered c [] = Unit {0}
Numbered c (b ∷ bs) = (b.block_id ≡ c) × Numbered ((c + 1) % 2 ^ 32) bs

-- A data block of the connection with 1 to `data_size` bytes, packed already, that fits the wire.
pub record IsPiece (conn_id : ℕ) (b : Block) : Type 0 where
  pub is_data : b.block_type ≡ type_data
  pub of_connection : b.connection_id ≡ conn_id
  pub some_data : 1 ≤ length b.block_data
  pub bounded : length b.block_data ≤ data_size
  pub well_formed : IsBlock b
  pub is_packed : b.packed ≡ some (header b ++ b.block_data)

pub next_id_lem : (c : ℕ) → c < 2 ^ 32 → next_id c ≡ ((c + 1) % 2 ^ 32, c)
unfolding next_id
next_id_lem c h = ground arith

piece_end_bounds :
    (cursor len : ℕ)
    → cursor < len
    → (cursor < piece_end cursor len)
      × (piece_end cursor len ≤ len)
      × (piece_end cursor len ≤ cursor + data_size)
unfolding piece_end
piece_end_bounds cursor len h = ground arith

length-slice : (lo hi : ℕ) (xs : List ℕ) → hi ≤ length xs → length (slice lo hi xs) ≡ hi - lo
length-slice lo hi xs h = omega (arith, length-take (hi - lo) (drop lo xs), length-drop lo xs)

slice-append-drop : (lo hi : ℕ) (xs : List ℕ) → lo ≤ hi → slice lo hi xs ++ drop hi xs ≡ drop lo xs
slice-append-drop lo hi xs h =
    rw (ap (λ k. drop k xs) back, ← drop-drop (hi - lo) lo xs)
      (take-append-drop (hi - lo) (drop lo xs))
  where
    back : hi ≡ lo + (hi - lo)
    back = omega arith

new_data_block-IsPiece :
    (now conn_id block_id : ℕ) (xs : List ℕ)
    → now < 2 ^ 64
    → conn_id < 2 ^ 32
    → block_id < 2 ^ 32
    → 1 ≤ length xs
    → length xs ≤ data_size
    → IsPiece conn_id (new_data_block now conn_id block_id xs)
unfolding new_data_block
new_data_block-IsPiece now conn_id block_id xs hn hc hi lo hi' = record {
  is_data = refl;
  of_connection = refl;
  some_data = lo;
  bounded = hi';
  well_formed = record {
    type_in = omega arith;
    connection_in = hc;
    time_in = hn;
    id_in = hi;
    length_in = omega arith;
    data_length = omega arith;
    packed_fresh = inr (unfold header in refl);
  };
  is_packed = unfold header in refl;
}

-- What splitting `payload` for a connection gives, the counter starting at `counter`.
pub record IsSplit (conn_id counter : ℕ) (payload : List ℕ) (out : ℕ × List Block) : Type 0 where
  pub all_data : joined out.1 ≡ payload
  pub ids : Numbered counter out.1
  pub pieces : All (IsPiece conn_id) out.1
  pub next : out.0 ≡ (counter + length out.1) % 2 ^ 32

module _ (now : ℕ → ℕ) (conn_id : ℕ) (payload : List ℕ) (now_in : (i : ℕ) → now i < 2 ^ 64)
    (conn_in : conn_id < 2 ^ 32) where
  done-IsSplit :
      (counter cursor : ℕ)
      → counter < 2 ^ 32
      → length payload ≤ cursor
      → IsSplit conn_id counter (drop cursor payload) (counter, [])
  unfolding joined
  done-IsSplit counter cursor hc h = record {
    all_data = sym (drop_all payload cursor h) ∙ refl;
    ids = tt;
    pieces = tt;
    next = omega arith;
  }

  more-IsSplit :
      (i counter cursor : ℕ) {out : ℕ × List Block}
      → counter < 2 ^ 32
      → cursor < length payload
      → let end = piece_end cursor (length payload) in
        IsSplit conn_id ((counter + 1) % 2 ^ 32) (drop end payload) out
        → IsSplit conn_id counter
            (drop cursor payload)
            (out.0, new_data_block (now i) conn_id counter (slice cursor end payload) ∷ out.1)
  unfolding joined new_data_block
  more-IsSplit i counter cursor {out} hc h split =
      let end = piece_end cursor (length payload) in
      let (start, stop, width) = piece_end_bounds cursor (length payload) h in
      let size : length (slice cursor end payload) ≡ end - cursor =
        length-slice cursor end payload stop in
      record {
        all_data = rw split.all_data (slice-append-drop cursor end payload (omega arith));
        ids = (refl, split.ids);
        pieces = (
          new_data_block-IsPiece (now i) conn_id counter (slice cursor end payload) (now_in i)
              conn_in hc (omega arith) (omega arith),
          split.pieces,
        );
        next = omega (arith, split.next);
      }

  data_blocks_loop-IsSplit :
      (fuel i counter cursor : ℕ)
      → counter < 2 ^ 32
      → length payload ≤ cursor + fuel
      → (out : ℕ × List Block) × (data_blocks_loop fuel now i conn_id counter payload cursor
          ≡ some out)
        × IsSplit conn_id counter (drop cursor payload) out
  unfolding data_blocks_loop
  data_blocks_loop-IsSplit zero i counter cursor hc h = (
    (counter, []),
    rw (le→ltb cursor (length payload) (omega arith)),
    done-IsSplit counter cursor hc (omega arith),
  )
  data_blocks_loop-IsSplit (suc fuel) i counter cursor hc h =
      elim (Bool-cases (ltb cursor (length payload))) [
        | inr f ↦ ((counter, []), rw f, done-IsSplit counter cursor hc (ltb→le _ _ f))
        | inl t ↦
            let end = piece_end cursor (length payload) in
            let (start, stop, width) = piece_end_bounds cursor (length payload) (ltb→lt _ _ t) in
            let (out, e, split) =
              data_blocks_loop-IsSplit fuel (suc i) ((counter + 1) % 2 ^ 32) end (omega arith)
                (omega arith) in
            (
              (out.0, new_data_block (now i) conn_id counter (slice cursor end payload) ∷ out.1),
              rw (t, next_id_lem counter hc, e),
              more-IsSplit i counter cursor hc (ltb→lt _ _ t) split,
            )
      ]

-- Splitting any payload ends, and gives data blocks of the connection, none empty and none longer than
-- `data_size`, each well formed and packed, numbered one after the other from the counter on (modulo
-- 2 ^ 32), which together carry the payload in order; the counter moves on by their number.
pub new_data_blocks-IsSplit :
    (now : ℕ → ℕ) (conn_id counter : ℕ) (payload : List ℕ)
    → ((i : ℕ) → now i < 2 ^ 64)
    → conn_id < 2 ^ 32
    → counter < 2 ^ 32
    → (out : ℕ × List Block) × (new_data_blocks now conn_id counter payload ≡ some out)
      × IsSplit conn_id counter payload out
unfolding new_data_blocks
new_data_blocks-IsSplit now conn_id counter payload hn hc hk =
    data_blocks_loop-IsSplit now conn_id payload hn hc (length payload) 0 counter 0 hk (omega arith)
