-- ===== src/Block/Reader.antt =====
-- What NewBlockFromReader of block/block.go does on any stream of bytes, well formed or not.
use rabbit_mtcp_ws_socks.Prelude.{
  ℕ, zero, suc, ◌+◌, ◌%◌, ◌^◌, ◌≤◌, ◌<◌, ◌≡◌, refl, sym, ap, ◌∙◌, inl, inr, false, List, [], ◌∷◌,
  ◌++◌, append_assoc, arith, ltb, if◌then◌else◌, ltb→lt, ltb→le, le→ltb, Bool-cases, ok, err,
  length, take, drop, All, take-append-drop, length-take, length-drop, take_all, drop-drop,
}
use rabbit_mtcp_ws_socks.Prelude.Bytes.{IsByte, put_le, get_le, get_le-lt, put_le-get_le}
use rabbit_mtcp_ws_socks.Io.{Stream, short_error, read_full_short, read_full_fits}
use rabbit_mtcp_ws_socks.Block.{
  Block, header_size, header, pack, parse_header, read_payload, new_block_from_reader,
}
use rabbit_mtcp_ws_socks.Block.Codec.{IsBlock, pack-eq-header}

All-take : (P : ℕ → Type 0) (n : ℕ) (xs : List ℕ) → All P xs → All P (take n xs)
All-take P zero xs h = tt
All-take P (suc n) [] h = tt
All-take P (suc n) (x ∷ xs) (hx, hxs) = (hx, All-take P n xs hxs)

All-drop : (P : ℕ → Type 0) (n : ℕ) (xs : List ℕ) → All P xs → All P (drop n xs)
All-drop P zero xs h = h
All-drop P (suc n) [] h = tt
All-drop P (suc n) (x ∷ xs) (hx, hxs) = All-drop P n xs hxs

All-front : (P : ℕ → Type 0) (xs ys : List ℕ) → All P (xs ++ ys) → All P xs
All-front P [] ys h = tt
All-front P (x ∷ xs) ys (hx, h) = (hx, All-front P xs ys h)

All-back : (P : ℕ → Type 0) (xs ys : List ℕ) → All P (xs ++ ys) → All P ys
All-back P [] ys h = h
All-back P (x ∷ xs) ys (hx, h) = All-back P xs ys h

-- The word of `m` bytes at offset `k`, read and written again, is those bytes.
field_bytes :
    (m k : ℕ) (buf : List ℕ)
    → All IsByte buf
    → k + m ≤ length buf
    → put_le m (get_le (take m (drop k buf))) ≡ take m (drop k buf)
field_bytes m k buf h fits =
    rw size at (put_le-get_le (take m (drop k buf)) (All-take IsByte m _ (All-drop IsByte k buf h)))
  where
    size : length (take m (drop k buf)) ≡ m
    size = omega (arith, length-take m (drop k buf), length-drop k buf)

field_in :
    (m k : ℕ) (buf : List ℕ)
    → All IsByte buf
    → k + m ≤ length buf
    → get_le (take m (drop k buf)) < 256 ^ m
field_in m k buf h fits =
    rw size at (get_le-lt (take m (drop k buf)) (All-take IsByte m _ (All-drop IsByte k buf h)))
  where
    size : length (take m (drop k buf)) ≡ m
    size = omega (arith, length-take m (drop k buf), length-drop k buf)

slices : (m k : ℕ) (buf : List ℕ) → take m (drop k buf) ++ drop (k + m) buf ≡ drop k buf
slices m k buf = rw (← drop-drop m k buf) (take-append-drop m (drop k buf))

first_byte :
    (buf : List ℕ)
    → All IsByte buf
    → 1 ≤ length buf
    → (get_le (take 1 buf) % 256) ∷ drop 1 buf ≡ buf
unfolding put_le
first_byte buf h fits =
    ap (λ t. t ++ drop 1 buf) (field_bytes 1 0 buf h fits) ∙ take-append-drop 1 buf

header-parse_header :
    (buf : List ℕ) → All IsByte buf → length buf ≡ header_size → header (parse_header buf) ≡ buf
unfolding header parse_header
header-parse_header buf h size =
    rw
      (
        field_bytes 4 1 buf h (omega arith),
        field_bytes 8 5 buf h (omega arith),
        field_bytes 4 13 buf h (omega arith),
        field_bytes 4 17 buf h (omega arith),
        take_all (drop 17 buf) 4 (omega (arith, length-drop 17 buf)),
        slices 4 13 buf,
        slices 8 5 buf,
        slices 4 1 buf,
      )
      (first_byte buf h (omega arith))

read_payload_lem :
    (head : Block) (s : Stream)
    → head.block_data ≡ []
    → read_payload head s ≡ (
        if ltb (length s.bytes) head.block_length
        then (err (short_error s.bytes s.ends), record s { bytes = [] })
        else (
          ok (record head { block_data = take head.block_length s.bytes }),
          record s { bytes = drop head.block_length s.bytes },
        ))
unfolding read_payload
read_payload_lem head s e = elim (Bool-cases (ltb 0 head.block_length)) [
  | inl more ↦ elim (Bool-cases (ltb (length s.bytes) head.block_length)) [
    | inl t ↦ rw (more, t, read_full_short head.block_length s (ltb→lt _ _ t))
    | inr f ↦ rw (more, f, read_full_fits head.block_length s (ltb→le _ _ f))
  ]
  | inr f ↦
      rw (f, le→ltb (length s.bytes) head.block_length (omega (arith, ltb→le _ _ f)))
        (λ i. (
          ok (record head { block_data = (e ∙ ap (λ k. take k s.bytes) (sym (empty f))) i }),
          record s { bytes = drop (sym (empty f) i) s.bytes },
        ))
]
  where
    empty : ltb 0 head.block_length ≡ false → head.block_length ≡ 0
    empty f = omega (arith, ltb→le _ _ f)

pub new_block_from_reader_lem :
    (s : Stream)
    → let head = parse_header (take header_size s.bytes) in
      let body = drop header_size s.bytes in
      new_block_from_reader s ≡ (
        if ltb (length s.bytes) header_size
        then (err (short_error s.bytes s.ends), record s { bytes = [] })
        else (if ltb (length body) head.block_length
            then (err (short_error body s.ends), record s { bytes = [] })
            else (
              ok (record head { block_data = take head.block_length body }),
              record s { bytes = drop head.block_length body },
            )))
unfolding new_block_from_reader
new_block_from_reader_lem s = elim (Bool-cases (ltb (length s.bytes) header_size)) [
  | inl t ↦ rw (t, read_full_short header_size s (ltb→lt _ _ t))
  | inr f ↦
      rw (f, read_full_fits header_size s (ltb→le _ _ f))
        (read_payload_lem (parse_header (take header_size s.bytes))
          (record s { bytes = drop header_size s.bytes }) (unfold parse_header in refl))
]

accepted :
    (s : Stream) {b : Block} {s' : Stream}
    → new_block_from_reader s ≡ (ok b, s')
    → let head = parse_header (take header_size s.bytes) in
      let body = drop header_size s.bytes in
      (header_size ≤ length s.bytes)
      × (head.block_length ≤ length body)
      × (b ≡ record head { block_data = take head.block_length body })
      × (s' ≡ record s { bytes = drop head.block_length body })
accepted s {b} {s'} h = elim (Bool-cases (ltb (length s.bytes) header_size)) [
  | inl t ↦ cc (new_block_from_reader_lem s, t)
  | inr f ↦ elim (Bool-cases (ltb (length body) head.block_length)) [
    | inl t ↦ cc (new_block_from_reader_lem s, f, t)
    | inr g ↦ (
      ltb→le _ _ f,
      ltb→le _ _ g,
      cc (new_block_from_reader_lem s, f, g),
      cc (new_block_from_reader_lem s, f, g),
    )
  ]
]
  where
    head : Block
    head = parse_header (take header_size s.bytes)

    body : List ℕ
    body = drop header_size s.bytes

parsed-IsBlock :
    (buf xs : List ℕ)
    → All IsByte buf
    → length buf ≡ header_size
    → length xs ≡ (parse_header buf).block_length
    → IsBlock (record (parse_header buf) { block_data = xs })
unfolding parse_header
parsed-IsBlock buf xs h size e = record {
  type_in = field_in 1 0 buf h (omega arith);
  connection_in = field_in 4 1 buf h (omega arith);
  time_in = field_in 8 5 buf h (omega arith);
  id_in = field_in 4 13 buf h (omega arith);
  length_in = field_in 4 17 buf h (omega arith);
  data_length = e;
  packed_fresh = inl refl;
}

header_data : (b : Block) (xs : List ℕ) → header (record b { block_data = xs }) ≡ header b
unfolding header
header_data b xs = refl

pack_parsed :
    (buf xs : List ℕ)
    → All IsByte buf
    → length buf ≡ header_size
    → length xs ≡ (parse_header buf).block_length
    → (pack (record (parse_header buf) { block_data = xs })).0 ≡ buf ++ xs
pack_parsed buf xs h size e =
    pack-eq-header (parsed-IsBlock buf xs h size e)
    ∙ ap (λ t. t ++ xs) (header_data (parse_header buf) xs ∙ header-parse_header buf h size)

-- What the reader accepts is exactly what packing the block writes: the bytes that it took from the
-- stream are the packed block, and the block is well formed.
pub pack-new_block_from_reader :
    (s : Stream) {b : Block} {s' : Stream}
    → All IsByte s.bytes
    → new_block_from_reader s ≡ (ok b, s')
    → (s.bytes ≡ (pack b).0 ++ s'.bytes) × IsBlock b
pack-new_block_from_reader s {b} {s'} bytes h =
    let (fits, enough, eb, es) = accepted s h in
    let buf = take header_size s.bytes in
    let body = drop header_size s.bytes in
    let len = (parse_header buf).block_length in
    let front = All-take IsByte header_size s.bytes bytes in
    let size : length buf ≡ header_size = omega (arith, length-take header_size s.bytes) in
    let whole : length (take len body) ≡ len = omega (arith, length-take len body) in
    rw
      (
        eb,
        es,
        pack_parsed buf (take len body) front size whole,
        append_assoc buf (take len body) (drop len body),
        take-append-drop len body,
      )
      (
        sym (take-append-drop header_size s.bytes),
        parsed-IsBlock buf (take len body) front size whole,
      )
