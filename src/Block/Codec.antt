-- ===== src/Block/Codec.antt =====
-- The round trips of block/block.go between a block and its bytes.
use rabbit_mtcp_ws_socks.Prelude.{
  ℕ, ◌%◌, ◌^◌, ◌<◌, ◌≡◌, refl, sym, ◌⊎◌, inl, inr, List, [], ◌∷◌, ◌++◌, some, none, length, ltb, ok,
  arith, append_assoc, length-append, Bool-cases, ltb→le, false,
}
use rabbit_mtcp_ws_socks.Prelude.Bytes.{put_le, get_le, get_le-put_le, length-put_le}
use rabbit_mtcp_ws_socks.Io.{IoError, read_full-append}
use rabbit_mtcp_ws_socks.Block.{
  Block, header_size, header, pack, parse_header, new_block_from_reader, read_payload,
}

-- Every field fits its place on the wire, the length is that of the data, and a kept buffer is fresh.
pub record IsBlock (b : Block) : Type 0 where
  pub type_in : b.block_type < 256
  pub connection_in : b.connection_id < 2 ^ 32
  pub time_in : b.time_stamp < 2 ^ 64
  pub id_in : b.block_id < 2 ^ 32
  pub length_in : b.block_length < 2 ^ 32
  pub data_length : length b.block_data ≡ b.block_length
  pub packed_fresh : (b.packed ≡ none) ⊎ (b.packed ≡ some (header b ++ b.block_data))

pub length-header : (b : Block) → length (header b) ≡ header_size
unfolding header
length-header b = omega (
  arith,
  length-append (put_le 4 b.connection_id)
      (put_le 8 b.time_stamp ++ (put_le 4 b.block_id ++ put_le 4 b.block_length)),
  length-append (put_le 8 b.time_stamp) (put_le 4 b.block_id ++ put_le 4 b.block_length),
  length-append (put_le 4 b.block_id) (put_le 4 b.block_length),
  length-put_le 4 b.connection_id,
  length-put_le 8 b.time_stamp,
  length-put_le 4 b.block_id,
  length-put_le 4 b.block_length,
)

pub pack-eq-header : {b : Block} → IsBlock b → (pack b).0 ≡ header b ++ b.block_data
unfolding pack
pack-eq-header {b} w = ground arith

parse_header-header :
    {b : Block} → IsBlock b → parse_header (header b) ≡ record b { block_data = []; packed = none }
unfolding parse_header header put_le
parse_header-header {b} w = λ i. record {
  block_type = one_byte i;
  connection_id = get_le-put_le 4 b.connection_id w.connection_in i;
  time_stamp = get_le-put_le 8 b.time_stamp w.time_in i;
  block_id = get_le-put_le 4 b.block_id w.id_in i;
  block_length = get_le-put_le 4 b.block_length w.length_in i;
  block_data = [];
  packed = none;
}
  where
    one_byte : get_le ((b.block_type % 256) ∷ []) ≡ b.block_type
    one_byte = get_le-put_le 1 b.block_type w.type_in

no_data {ℓ} : {A : Type ℓ} (xs : List A) → length xs ≡ 0 → xs ≡ []
no_data [] h = refl
no_data (x ∷ xs) h = absurd (omega arith)

read_payload-append :
    (b : Block) (rest : List ℕ) (e : IoError)
    → length b.block_data ≡ b.block_length
    → read_payload
        (record b { block_data = [] })
        (record { bytes = b.block_data ++ rest; ends = e })
      ≡ (ok b, record { bytes = rest; ends = e })
unfolding read_payload
read_payload-append b rest e h = elim (Bool-cases (ltb 0 b.block_length)) [
  | inl t ↦ rw (t, read_full-append b.block_length b.block_data rest e (sym h))
  | inr f ↦ rw f (λ i. (
    ok (record b { block_data = sym (empty f) i }),
    record { bytes = empty f i ++ rest; ends = e },
  ))
]
  where
    empty : ltb 0 b.block_length ≡ false → b.block_data ≡ []
    empty f = no_data b.block_data (omega (arith, ltb→le _ _ f))

-- Reading a packed block gives the block back, with no buffer kept, and leaves what follows it.
pub new_block_from_reader-pack :
    (b : Block) (rest : List ℕ) (e : IoError)
    → IsBlock b
    → new_block_from_reader (record { bytes = (pack b).0 ++ rest; ends = e })
      ≡ (ok (record b { packed = none }), record { bytes = rest; ends = e })
unfolding new_block_from_reader
new_block_from_reader-pack b rest e w =
    rw
      (
        pack-eq-header w,
        append_assoc (header b) b.block_data rest,
        read_full-append 21 (header b) (b.block_data ++ rest) e (sym (length-header b)),
        parse_header-header w,
      )
      (read_payload-append (record b { packed = none }) rest e w.data_length)
