-- ===== src/Block.antt =====
-- block/block.go: the unit that travels through a tunnel, its wire format and its constructors.
pub mod Codec
pub mod Reader
pub mod Split
mod Tests
use rabbit_mtcp_ws_socks.Prelude.{
  ℕ, zero, suc, ◌+◌, ◌-◌, ◌*◌, ◌/◌, ◌%◌, ◌^◌, List, [], ◌∷◌, ◌++◌, Option, some, none, length, take,
  drop, ltb, if◌then◌else◌, Result, ok, err,
}
use rabbit_mtcp_ws_socks.Prelude.Bytes.{put_le, get_le}
use rabbit_mtcp_ws_socks.Prelude.Effects.{M, ◌>>=◌, bind_result, pure}
use rabbit_mtcp_ws_socks.Io.{IoError, Stream, read_full}

abbrev pub type_connect : ℕ
type_connect = 0

abbrev pub type_disconnect : ℕ
type_disconnect = 1

abbrev pub type_data : ℕ
type_data = 2

abbrev pub type_ping : ℕ
type_ping = 3

abbrev pub type_pong : ℕ
type_pong = 4

-- `iota` goes on counting in the same const block.
abbrev pub shutdown_read : ℕ
shutdown_read = 5

abbrev pub shutdown_write : ℕ
shutdown_write = 6

abbrev pub shutdown_both : ℕ
shutdown_both = 7

abbrev pub header_size : ℕ
header_size = 1 + 4 + 8 + 4 + 4

abbrev pub data_size : ℕ
data_size = 32 * 1024 - 13

abbrev pub max_size : ℕ
max_size = header_size + data_size

-- `time_stamp` is the bit pattern of the int64. `packed` is nil until the block is packed.
pub record Block : Type 0 where
  pub block_type : ℕ
  pub connection_id : ℕ
  pub time_stamp : ℕ
  pub block_id : ℕ
  pub block_length : ℕ
  pub block_data : List ℕ
  pub packed : Option (List ℕ)

-- The header's fields stand at the offsets 0, 1, 5, 13 and 17, one behind the other.
unfoldable pub header : Block → List ℕ
header b =
    (b.block_type % 256)
    ∷ (put_le 4 b.connection_id
        ++ (put_le 8 b.time_stamp ++ (put_le 4 b.block_id ++ put_le 4 b.block_length)))

-- `Pack` keeps the buffer that it fills, and returns it again the next time.
unfoldable pub pack : Block → List ℕ × Block
unfolding header
pack b = elim b.packed [
  | some p ↦ (p, b)
  | none ↦ let p = header b ++ b.block_data in (p, record b { packed = some p })
]

unfoldable pub parse_header : List ℕ → Block
parse_header buf = record {
  block_type = get_le (take 1 buf);
  connection_id = get_le (take 4 (drop 1 buf));
  time_stamp = get_le (take 8 (drop 5 buf));
  block_id = get_le (take 4 (drop 13 buf));
  block_length = get_le (take 4 (drop 17 buf));
  block_data = [];
  packed = none;
}

-- The data is read only if the length says that there is some.
unfoldable pub read_payload : Block → M Stream IoError Block
read_payload block =
    if ltb 0 block.block_length
    then (do payload ← read_full block.block_length; pure (record block { block_data = payload }))
    else pure block

-- `NewBlockFromReader`.
unfoldable pub new_block_from_reader : M Stream IoError Block
new_block_from_reader = do buf ← read_full header_size; read_payload (parse_header buf)

-- The constructors take the time that `time.Now().UnixNano()` gives.
unfoldable pub new_connect_block : (now conn_id block_id : ℕ) → List ℕ → Block
new_connect_block now conn_id block_id address = record {
  block_type = type_connect;
  connection_id = conn_id;
  time_stamp = now;
  block_id = block_id;
  block_length = length address % 2 ^ 32;
  block_data = address;
  packed = none;
}

unfoldable pub new_data_block : (now conn_id block_id : ℕ) → List ℕ → Block
unfolding pack
new_data_block now conn_id block_id payload =
    (pack (record {
      block_type = type_data;
      connection_id = conn_id;
      time_stamp = now;
      block_id = block_id;
      block_length = length payload % 2 ^ 32;
      block_data = payload;
      packed = none;
    })).1

-- `blockID.Inc() - 1` on an atomic uint32: the new counter, and the id.
unfoldable pub next_id : ℕ → ℕ × ℕ
next_id counter = let c = (counter + 1) % 2 ^ 32 in (c, (c + 2 ^ 32 - 1) % 2 ^ 32)

-- `data[lo:hi]`.
abbrev pub slice {ℓ} : {A : Type ℓ} → (lo hi : ℕ) → List A → List A
slice lo hi xs = take (hi - lo) (drop lo xs)

-- The end of the piece that starts at `cursor`.
unfoldable pub piece_end : (cursor len : ℕ) → ℕ
piece_end cursor len = let end = cursor + data_size in if ltb len end then len else end

unfoldable pub cons_block : Block → Option (ℕ × List Block) → Option (ℕ × List Block)
cons_block b none = none
cons_block b (some (c, bs)) = some (c, b ∷ bs)

-- The loop of `NewDataBlocks`; `now i` is the clock at its i-th block. `none` is for fuel that ran out.
unfoldable pub data_blocks_loop :
    ℕ → (now : ℕ → ℕ) (i conn_id counter : ℕ) → List ℕ → ℕ → Option (ℕ × List Block)
unfolding cons_block
data_blocks_loop zero now i conn_id counter payload cursor =
    if ltb cursor (length payload) then none else some (counter, [])
data_blocks_loop (suc fuel) now i conn_id counter payload cursor =
    let end = piece_end cursor (length payload) in
    let (counter', block_id) = next_id counter in
    let rest = data_blocks_loop fuel now (suc i) conn_id counter' payload end in
    let block = new_data_block (now i) conn_id block_id (slice cursor end payload) in
    if ltb cursor (length payload) then cons_block block rest else some (counter, [])

-- Each round takes a byte at least, so the length of the data is fuel enough.
unfoldable pub new_data_blocks :
    (now : ℕ → ℕ) (conn_id counter : ℕ) → List ℕ → Option (ℕ × List Block)
unfolding data_blocks_loop
new_data_blocks now conn_id counter payload =
    data_blocks_loop (length payload) now 0 conn_id counter payload 0

unfoldable pub new_disconnect_block : (now conn_id block_id shutdown_type : ℕ) → Block
new_disconnect_block now conn_id block_id shutdown_type = record {
  block_type = type_disconnect;
  connection_id = conn_id;
  time_stamp = now;
  block_id = block_id;
  block_length = 1;
  block_data = shutdown_type ∷ [];
  packed = none;
}

unfoldable pub new_ping_block : (now conn_id block_id latency : ℕ) → Block
new_ping_block now conn_id block_id latency = record {
  block_type = type_ping;
  connection_id = conn_id;
  time_stamp = now;
  block_id = block_id;
  block_length = 8;
  block_data = put_le 8 latency;
  packed = none;
}

unfoldable pub new_pong_block : (now conn_id block_id timestamp : ℕ) → Block
new_pong_block now conn_id block_id timestamp = record {
  block_type = type_pong;
  connection_id = conn_id;
  time_stamp = now;
  block_id = block_id;
  block_length = 8;
  block_data = put_le 8 timestamp;
  packed = none;
}
