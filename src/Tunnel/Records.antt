-- ===== src/Tunnel/Records.antt =====
-- The records of tunnel/tunnel.go, written and read back.
use rabbit_mtcp_ws_socks.Prelude.{
  ℕ, zero, suc, ◌+◌, ◌^◌, ◌≤◌, ◌<◌, ◌≡◌, refl, sym, ap, ◌∙◌, Option, none, List, [], ◌∷◌, ◌++◌,
  append-nil, append_assoc, arith, ok, length, take, drop, All, length-append, take-append-drop,
  length-take, length-drop, ◌-◌,
}
use rabbit_mtcp_ws_socks.Io.{IoError, read_full-append}
use rabbit_mtcp_ws_socks.Tunnel.Nonce.{increment}
use rabbit_mtcp_ws_socks.Tunnel.Crypt.{
  Aead, AeadLaws, put, Writer, size_bytes, seal_record, write_record, read_from, buffer_reads,
  Reader, record_size, fill, open_buf, read_record, write, payload_size_mask,
}

pub size_bytes_lem : (n : ℕ) → n < 2 ^ 15 → record_size (size_bytes n) ≡ n
unfolding record_size size_bytes
size_bytes_lem n h = omega arith

abbrev pub reader : List ℕ → List ℕ → List ℕ → IoError → Reader
reader nonce left bs e = record {
  nonce = nonce;
  leftover = left;
  stream = record { bytes = bs; ends = e };
}

module _ (a : Aead) (laws : AeadLaws a) where
  fill_sealed :
      (n : ℕ) (text nonce nonce' left rest : List ℕ) (e : IoError)
      → length text + a.overhead ≡ n
      → fill n (reader nonce left (a.seal nonce' text ++ rest) e)
        ≡ (ok (a.seal nonce' text), reader nonce left rest e)
  unfolding fill
  fill_sealed n text nonce nonce' left rest e h =
      rw (
        read_full-append n (a.seal nonce' text) rest e (sym h ∙ sym (laws.length-seal nonce' text)))

  open_sealed :
      (text nonce left rest : List ℕ) (e : IoError)
      → open_buf a (a.seal nonce text) (reader nonce left rest e)
        ≡ (ok text, reader (increment nonce) left rest e)
  unfolding open_buf
  open_sealed text nonce left rest e = rw (laws.unseal-seal nonce text, open_buf)

  length-size : (n : ℕ) → length (size_bytes n) + a.overhead ≡ 2 + a.overhead
  unfolding size_bytes
  length-size n = refl

  -- A sealed record is read back, whatever follows it.
  pub read_record-seal_record :
      (text nonce left rest : List ℕ) (e : IoError)
      → length text < 2 ^ 15
      → read_record a (reader nonce left (seal_record a nonce text ++ rest) e)
        ≡ (ok text, reader (increment (increment nonce)) left rest e)
  unfolding read_record seal_record
  read_record-seal_record text nonce left rest e h =
      let n = length text in
      rw (
        append_assoc (a.seal nonce (size_bytes n)) (a.seal (increment nonce) text) rest,
        fill_sealed (2 + a.overhead) (size_bytes n) nonce nonce left
            (a.seal (increment nonce) text ++ rest) e (length-size n),
        open_sealed (size_bytes n) nonce left (a.seal (increment nonce) text ++ rest) e,
        size_bytes_lem n h,
        fill_sealed (n + a.overhead) text (increment nonce) (increment nonce) left rest e refl,
        open_sealed text (increment nonce) left rest e,
      )

-- What the writer sends for a list of pieces, and the nonce after it.
unfoldable pub seal_all : Aead → List ℕ → List (List ℕ) → List ℕ
seal_all a nonce [] = []
seal_all a nonce (c ∷ cs) = seal_record a nonce c ++ seal_all a (increment (increment nonce)) cs

unfoldable pub nonce_after : List ℕ → List (List ℕ) → List ℕ
nonce_after nonce [] = nonce
nonce_after nonce (c ∷ cs) = nonce_after (increment (increment nonce)) cs

unfoldable pub concat : List (List ℕ) → List ℕ
concat [] = []
concat (c ∷ cs) = c ++ concat cs

-- A piece fits a record.
abbrev pub IsPiece : List ℕ → Type 0
IsPiece c = (0 < length c) × (length c ≤ 32767)

abbrev pub writer : List ℕ → List ℕ → ℕ → IoError → Writer
writer nonce bs k e = record {
  nonce = nonce;
  sink = record { taken = bs; accepts = k; breaks = e };
}

write_record_lem :
    (a : Aead) (c nonce bs : List ℕ) (k : ℕ) (e : IoError)
    → 0 < length c
    → write_record a c (writer nonce bs (suc k) e)
      ≡ (none, writer (increment (increment nonce)) (bs ++ seal_record a nonce c) k e)
unfolding write_record put
write_record_lem a [] nonce bs k e h = absurd (omega arith)
write_record_lem a (c ∷ cs) nonce bs k e h = refl

unfoldable pub reads_of : List (List ℕ) → List (List ℕ × Option IoError)
reads_of [] = []
reads_of (c ∷ cs) = (c, none) ∷ reads_of cs

pub result_eq :
    {n n' k k' : ℕ} {bs bs' nonce : List ℕ} {e : IoError}
    → n ≡ n'
    → bs ≡ bs'
    → k ≡ k'
    → ◌≡◌ {A = (ℕ × Option IoError) × Writer}
        ((n, none), writer nonce bs k e)
        ((n', none), writer nonce bs' k' e)
result_eq p q r = rw (p, q, r)

pub suc_plus : (n k : ℕ) → suc n + k ≡ suc (n + k)
suc_plus n k = omega arith

read_from_nil : (a : Aead) (n : ℕ) (w : Writer) → read_from a [] n w ≡ ((n, none), w)
unfolding read_from
read_from_nil a n w = refl

read_from_step :
    (a : Aead) (c : List ℕ) (reads : List (List ℕ × Option IoError)) (n : ℕ) (w w' : Writer)
    → write_record a c w ≡ (none, w')
    → read_from a ((c, none) ∷ reads) n w ≡ read_from a reads (n + length c) w'
unfolding read_from
read_from_step a c reads n w w' h = ground (arith)

-- Pieces that a reader gives are sent as records, in order.
pub read_from-reads_of :
    (a : Aead) (cs : List (List ℕ)) (n k : ℕ) (nonce bs : List ℕ) (e : IoError)
    → All IsPiece cs
    → read_from a (reads_of cs) n (writer nonce bs (length cs + k) e) ≡ (
      (n + length (concat cs), none),
      writer (nonce_after nonce cs) (bs ++ seal_all a nonce cs) k e,
    )
unfolding reads_of concat nonce_after seal_all
read_from-reads_of a [] n k nonce bs e h =
    read_from_nil a n (writer nonce bs (0 + k) e)
    ∙ result_eq (omega arith) (sym (append-nil bs)) (omega arith)
read_from-reads_of a (c ∷ cs) n k nonce bs e (hc, hcs) =
    let nonce' = increment (increment nonce) in
    let bs' = bs ++ seal_record a nonce c in
    ap (λ l. read_from a ((c, none) ∷ reads_of cs) n (writer nonce bs l e)) (suc_plus (length cs) k)
    ∙ read_from_step a c (reads_of cs) n (writer nonce bs (suc (length cs + k)) e)
        (writer nonce' bs' (length cs + k) e) (write_record_lem a c nonce bs (length cs + k) e hc.0)
    ∙ read_from-reads_of a cs (n + length c) k nonce' bs' e hcs
    ∙ result_eq (omega (arith, length-append {0} c (concat cs)))
        (append_assoc bs (seal_record a nonce c) (seal_all a nonce' cs)) refl

-- The pieces that a bytes.Buffer gives.
pub buffer_reads_lem :
    (fuel size : ℕ) (b : List ℕ)
    → length b ≤ fuel
    → 0 < size
    → size ≤ 32767
    → (cs : List (List ℕ)) × (buffer_reads fuel size b ≡ reads_of cs)
      × All IsPiece cs
      × (concat cs ≡ b)
      × (length cs ≤ length b)
unfolding buffer_reads concat reads_of
buffer_reads_lem zero size [] h z m = ([], refl, tt, refl, omega arith)
buffer_reads_lem zero size (x ∷ xs) h z m = absurd (omega arith)
buffer_reads_lem (suc fuel) size [] h z m = ([], refl, tt, refl, omega arith)
buffer_reads_lem (suc fuel) size (x ∷ xs) h z m =
    let b = x ∷ xs in
    let hd = length-drop size b in
    let ht = length-take size b in
    let (cs, e, p, c, l) = buffer_reads_lem fuel size (drop size b) (omega arith) z m in
    (
      take size b ∷ cs,
      rw e,
      ((omega arith, omega arith), p),
      ap (λ t. take size b ++ t) c ∙ take-append-drop size b,
      omega arith,
    )

-- Writing sends the bytes as records of at most the size mask's bytes each.
pub write_lem :
    (a : Aead) (b nonce bs : List ℕ) (k : ℕ) (e : IoError)
    → (cs : List (List ℕ)) × (write a b (writer nonce bs (length b + k) e) ≡ (
      (length b, none),
      writer (nonce_after nonce cs) (bs ++ seal_all a nonce cs) (length b - length cs + k) e,
    ))
      × All IsPiece cs
      × (concat cs ≡ b)
      × (length cs ≤ length b)
unfolding write
write_lem a b nonce bs k e =
    let (cs, er, p, c, l) =
      buffer_reads_lem (length b) payload_size_mask b (omega arith) (omega arith) (omega arith) in
    let j = length b - length cs + k in
    (
      cs,
      ap (λ r. read_from a r 0 (writer nonce bs (length b + k) e)) er
          ∙ ap (λ l. read_from a (reads_of cs) 0 (writer nonce bs l e)) {y = length cs + j}
              (omega arith)
          ∙ read_from-reads_of a cs 0 j nonce bs e p
          ∙ result_eq (omega arith ∙ ap length c) refl refl,
      p,
      c,
      l,
    )
