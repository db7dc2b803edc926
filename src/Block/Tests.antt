-- ===== src/Block/Tests.antt =====
-- Concrete runs for block/block.go, and its theorems at concrete inputs.
use rabbit_mtcp_ws_socks.Prelude.{
  ℕ, ◌-◌, ◌^◌, ◌≡◌, refl, inl, none, some, List, [], ◌∷◌, ◌++◌, arith, ok, err,
}
use rabbit_mtcp_ws_socks.Prelude.Bytes.{put_le, get_le}
use rabbit_mtcp_ws_socks.Io.{eof, unexpected_eof, short_error, read_full}
use rabbit_mtcp_ws_socks.Block.{
  Block, type_data, header, pack, parse_header, read_payload, new_block_from_reader,
  new_data_blocks,
}
use rabbit_mtcp_ws_socks.Block.Codec.{IsBlock, new_block_from_reader-pack}
use rabbit_mtcp_ws_socks.Block.Split.{IsSplit, new_data_blocks-IsSplit}

abbrev hello : Block
hello = record {
  block_type = type_data;
  connection_id = 258;
  time_stamp = 7;
  block_id = 3;
  block_length = 2;
  block_data = 104 ∷ 105 ∷ [];
  packed = none;
}

abbrev hello_bytes : List ℕ
hello_bytes =
    2 ∷ 2 ∷ 1 ∷ 0 ∷ 0 ∷ 7 ∷ 0 ∷ 0 ∷ 0 ∷ 0 ∷ 0 ∷ 0 ∷ 0 ∷ 3 ∷ 0 ∷ 0 ∷ 0 ∷ 2 ∷ 0 ∷ 0 ∷ 0 ∷ 104 ∷ 105
    ∷ []

pack-hello : (pack hello).0 ≡ hello_bytes
unfolding pack header put_le
pack-hello = refl

hello-IsBlock : IsBlock hello
hello-IsBlock = record {
  type_in = omega arith;
  connection_in = omega arith;
  time_in = omega arith;
  id_in = omega arith;
  length_in = omega arith;
  data_length = omega arith;
  packed_fresh = inl refl;
}

read_cut :
    new_block_from_reader (record { bytes = 2 ∷ 0 ∷ []; ends = eof })
    ≡ (err unexpected_eof, record { bytes = []; ends = eof })
unfolding new_block_from_reader read_full short_error
read_cut = refl

read_hello :
    new_block_from_reader (record { bytes = hello_bytes; ends = eof })
    ≡ (ok hello, record { bytes = []; ends = eof })
unfolding new_block_from_reader read_payload parse_header read_full get_le
read_hello = refl

new_block_from_reader-pack_example :
    new_block_from_reader (record { bytes = (pack hello).0 ++ (9 ∷ []); ends = eof })
    ≡ (ok hello, record { bytes = 9 ∷ []; ends = eof })
new_block_from_reader-pack_example = new_block_from_reader-pack hello (9 ∷ []) eof hello-IsBlock

new_data_blocks-IsSplit_example :
    (out : ℕ × List Block) × (new_data_blocks (λ i. 5) 9 (2 ^ 32 - 1) (1 ∷ 2 ∷ []) ≡ some out)
    × IsSplit 9 (2 ^ 32 - 1) (1 ∷ 2 ∷ []) out
new_data_blocks-IsSplit_example =
    new_data_blocks-IsSplit (λ i. 5) 9 (2 ^ 32 - 1) (1 ∷ 2 ∷ []) (λ i. omega arith) (omega arith)
      (omega arith)
