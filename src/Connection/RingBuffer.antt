-- ===== src/Connection/RingBuffer.antt =====
-- connection/ring_buffer.go: the bytes of a block that did not fit the reader's buffer.
use rabbit_mtcp_ws_socks.Prelude.{
  ◌∙◌, drop-take, take-min, length-append, length-replicate, ap, sym, ==→eq, eq→==, drop-drop,
  take-append, length-take, arith, Bool-cases, inl, inr, ltb→le, refl, ℕ, ◌+◌, ◌-◌, ◌≤◌, min, ◌≡◌,
  ◌↔◌, Bool, true, List, [], ◌∷◌, ◌++◌, ltb, ◌==◌, if◌then◌else◌, length, take, drop, replicate,
  length-drop, take_all,
}
use rabbit_mtcp_ws_socks.Block.{slice}

pub record ByteRingBuffer : Type 0 where
  pub buffer : List ℕ
  pub head : ℕ
  pub tail : ℕ

pub new_byte_ring_buffer : ℕ → ByteRingBuffer
new_byte_ring_buffer size = record { buffer = replicate size 0; head = 0; tail = 0 }

-- Go's copy: the destination after it. It copies as many bytes as both slices have.
unfoldable pub copy : (dst src : List ℕ) → List ℕ
copy dst src = take (length dst) src ++ drop (length src) dst

unfoldable pub fill : (buffer payload : List ℕ) → ByteRingBuffer
fill buffer payload = record {
  buffer = copy buffer payload;
  head = 0;
  tail = min (length buffer) (length payload);
}

-- A buffer that is too short is replaced by one of the payload's length.
unfoldable pub over_write : ByteRingBuffer → List ℕ → ByteRingBuffer
over_write rb payload =
    fill
      (if ltb (length rb.buffer) (length payload) then replicate (length payload) 0 else rb.buffer)
      payload

-- `Read` into a slice of `space` bytes: the bytes that it puts there, and the buffer.
unfoldable pub read : ByteRingBuffer → ℕ → List ℕ × ByteRingBuffer
read rb space =
    let n = if ltb (rb.tail - rb.head) space then rb.tail - rb.head else space in
    (take space (slice rb.head rb.tail rb.buffer), record rb { head = rb.head + n })

unfoldable pub is_empty : ByteRingBuffer → Bool
is_empty rb = rb.tail - rb.head == 0

-- The bytes that are still to be read.
abbrev pub contents : ByteRingBuffer → List ℕ
contents rb = slice rb.head rb.tail rb.buffer

pub record IsRing (rb : ByteRingBuffer) : Type 0 where
  pub head_in : rb.head ≤ rb.tail
  pub tail_in : rb.tail ≤ length rb.buffer

pub length-contents : {rb : ByteRingBuffer} → IsRing rb → length (contents rb) ≡ rb.tail - rb.head
length-contents {rb} v =
    omega (
      arith,
      length-take (rb.tail - rb.head) (drop rb.head rb.buffer),
      length-drop rb.head rb.buffer,
    )

pub new_byte_ring_buffer-contents :
    (size : ℕ) → IsRing (new_byte_ring_buffer size) × (contents (new_byte_ring_buffer size) ≡ [])
unfolding new_byte_ring_buffer
new_byte_ring_buffer-contents size = (record { head_in = omega arith; tail_in = omega arith }, refl)

copy_room :
    (dst src : List ℕ) → length src ≤ length dst → copy dst src ≡ src ++ drop (length src) dst
unfolding copy
copy_room dst src h = rw (take_all src (length dst) h)

fill_lem :
    (buffer payload : List ℕ)
    → length payload ≤ length buffer
    → IsRing (fill buffer payload) × (contents (fill buffer payload) ≡ payload)
unfolding fill
fill_lem buffer payload h = rw (copy_room buffer payload h) (
  record {
    head_in = omega arith;
    tail_in = omega (arith, length-append payload (drop (length payload) buffer));
  },
  take-append payload (drop (length payload) buffer) (min (length buffer) (length payload) - 0)
      (omega arith),
)

-- Writing replaces what was there by the whole payload, whatever its size.
pub over_write_lem :
    (rb : ByteRingBuffer) (payload : List ℕ)
    → IsRing (over_write rb payload) × (contents (over_write rb payload) ≡ payload)
unfolding over_write
over_write_lem rb payload = elim (Bool-cases (ltb (length rb.buffer) (length payload))) [
  | inl t ↦
      let zeros : List ℕ = replicate (length payload) 0 in
      rw t (fill_lem zeros payload (omega (arith, length-replicate {A = ℕ} (length payload) 0)))
  | inr f ↦ rw f (fill_lem rb.buffer payload (ltb→le _ _ f))
]

moved :
    (rb : ByteRingBuffer) (n : ℕ)
    → n ≤ rb.tail - rb.head
    → contents (record rb { head = rb.head + n }) ≡ drop n (contents rb)
moved rb n h =
    ap (λ k. take k (drop (rb.head + n) rb.buffer)) {y = rb.tail - rb.head - n} (omega arith)
    ∙ ap (take (rb.tail - rb.head - n)) (sym (drop-drop n rb.head rb.buffer))
    ∙ sym (drop-take n (rb.tail - rb.head) (drop rb.head rb.buffer))

count_lem : (space size : ℕ) → (if ltb size space then size else space) ≡ min space size
count_lem space size = ground arith

-- Reading takes the front of the contents, as much of it as there is space for.
pub read_lem :
    {rb : ByteRingBuffer} (space : ℕ)
    → IsRing rb
    → let (out, rb') = read rb space in
      IsRing rb'
      × (out ++ contents rb' ≡ contents rb)
      × (length out ≡ min space (length (contents rb)))
unfolding read
read_lem {rb} space v =
    let n = min space (length (contents rb)) in
    let size = length-contents v in
    rw (count_lem space (rb.tail - rb.head)) (
      record { head_in = omega (arith, v.head_in); tail_in = v.tail_in },
      ap (λ t. take space (contents rb) ++ t)
            (moved rb (min space (rb.tail - rb.head)) (omega arith))
          ∙ ap (λ k. take space (contents rb) ++ drop (min space k) (contents rb)) (sym size)
          ∙ take-min space (contents rb),
      length-take space (contents rb),
    )

no_bytes : (xs : List ℕ) → length xs ≡ 0 → xs ≡ []
no_bytes [] h = refl
no_bytes (x ∷ xs) h = absurd (omega arith)

pub is_empty_iff : {rb : ByteRingBuffer} → IsRing rb → (is_empty rb ≡ true) ↔ (contents rb ≡ [])
unfolding is_empty
is_empty_iff {rb} v = (
  λ h. no_bytes (contents rb) (length-contents v ∙ ==→eq _ _ h),
  λ h. eq→== _ _ (sym (length-contents v) ∙ ap length h),
)
