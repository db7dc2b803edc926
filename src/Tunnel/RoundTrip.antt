-- ===== src/Tunnel/RoundTrip.antt =====
-- What the writer of tunnel/tunnel.go sends, its reader gives back.
use rabbit_mtcp_ws_socks.Prelude.{
  ℕ, zero, suc, ◌+◌, ◌-◌, ◌<◌, ◌≡◌, refl, sym, ap, ◌∙◌, ◌⊎◌, inl, inr, Option, none, some, List, [],
  ◌∷◌, ◌++◌, append-nil, append_assoc, arith, err, length, take, drop, replicate, All,
  length-append, take-append-drop, length-take,
}
use rabbit_mtcp_ws_socks.Io.{IoError, eof, short_error, read_full_short}
use rabbit_mtcp_ws_socks.Tunnel.Nonce.{increment}
use rabbit_mtcp_ws_socks.Tunnel.Crypt.{
  Aead, AeadLaws, Sink, put, Writer, write, Reader, fill, read_record, read_next, read, not_eof,
  forward, forward_read, write_to_loop, write_to, new_writer, new_reader,
}
use rabbit_mtcp_ws_socks.Tunnel.Records.{
  reader, suc_plus, seal_all, nonce_after, concat, IsPiece, read_record-seal_record, write_lem,
}

abbrev pub sink : List ℕ → ℕ → IoError → Sink
sink bs k e = record { taken = bs; accepts = k; breaks = e }

forward_lem :
    (rest : Reader → Sink → ℕ → (ℕ × Option IoError) × (Reader × Sink)) (c bs : List ℕ) (r : Reader)
    (n k : ℕ) (e : IoError)
    → 0 < length c
    → forward rest c r (sink bs (suc k) e) n ≡ rest r (sink (bs ++ c) k e) (n + length c)
unfolding forward put
forward_lem rest [] bs r n k e h = absurd (omega arith)
forward_lem rest (x ∷ c) bs r n k e h = refl

read_record_end :
    (a : Aead) (nonce left : List ℕ) (e : IoError)
    → read_record a (reader nonce left [] e) ≡ (err e, reader nonce left [] e)
unfolding read_record fill short_error
read_record_end a nonce left e =
    rw (read_full_short (2 + a.overhead) (record { bytes = []; ends = e }) (omega arith))

told_eq :
    {n n' k k' : ℕ} {bs bs' : List ℕ} {r : Reader} {e : IoError} {o : Option IoError}
    → n ≡ n'
    → bs ≡ bs'
    → k ≡ k'
    → ◌≡◌ {A = (ℕ × Option IoError) × (Reader × Sink)}
        ((n, o), (r, sink bs k e))
        ((n', o), (r, sink bs' k' e))
told_eq p q r = rw (p, q, r)

pub write_to_loop-seal_all :
    (a : Aead)
    → AeadLaws a
    → (cs : List (List ℕ)) (fuel n k : ℕ) (nonce bs : List ℕ) (e f : IoError) → All IsPiece cs
    → length cs < fuel
    → write_to_loop fuel a (reader nonce [] (seal_all a nonce cs) f) (sink bs (length cs + k) e) n
      ≡ (
        (n + length (concat cs), not_eof f),
        (reader (nonce_after nonce cs) [] [] f, sink (bs ++ concat cs) k e),
      )
unfolding write_to_loop forward_read concat nonce_after seal_all
write_to_loop-seal_all a laws cs zero n k nonce bs e f h lt = absurd (omega arith)
write_to_loop-seal_all a laws [] (suc fuel) n k nonce bs e f h lt =
    rw (read_record_end a nonce [] f) (told_eq (omega arith) (sym (append-nil bs)) (omega arith))
write_to_loop-seal_all a laws (c ∷ cs) (suc fuel) n k nonce bs e f (hc, hcs) lt =
    let nonce' = increment (increment nonce) in
    rw (read_record-seal_record a laws c nonce [] (seal_all a nonce' cs) f (omega arith)) (
      rw
        (
          suc_plus (length cs) k,
          forward_lem (write_to_loop fuel a) c bs (reader nonce' [] (seal_all a nonce' cs) f) n
              (length cs + k) e hc.0,
          write_to_loop-seal_all a laws cs fuel (n + length c) k nonce' (bs ++ c) e f hcs
              (omega arith),
        )
        (told_eq (omega (arith, length-append {0} c (concat cs))) (append_assoc bs c (concat cs))
          refl))

pub count_eq : {m n : ℕ} → m ≡ n → ◌≡◌ {A = ℕ × Option IoError} (0 + m, none) (n, none)
count_eq h = ground arith

-- The round trip: when both connections take the writes, writing b on a new writer returns
-- its length and no error, and WriteTo of a new reader over what was sent, under the same cipher,
-- returns after at most one record more than b has bytes, with the length of b and no error,
-- having written exactly b behind what the other side had, its nonce equal to the writer's.
pub write_to-write :
    (a : Aead)
    → AeadLaws a
    → (b out : List ℕ) (k j : ℕ) (e e' : IoError) → (sent : (ℕ × Option IoError) × Writer)
    → sent ≡ write a b (new_writer a (sink [] (length b + k) e))
    → (got : (ℕ × Option IoError) × (Reader × Sink))
    → got
      ≡ write_to
          (suc (length b))
          a
          (new_reader a (record { bytes = sent.1.sink.taken; ends = eof }))
          (sink out (length b + j) e')
    → (sent.0 ≡ (length b, none))
      × (got.0 ≡ (length b, none))
      × (got.1.1.taken ≡ out ++ b)
      × (got.1.0.nonce ≡ sent.1.nonce)
unfolding new_writer new_reader write_to not_eof
write_to-write a laws b out k j e e' sent hs got hg =
    let z = replicate a.nonce_size 0 in
    let (cs, w, p, c, l) = write_lem a b z [] k e in
    let s = hs ∙ w in
    let r =
      write_to_loop-seal_all a laws cs (suc (length b)) 0 (length b - length cs + j) z out e' eof p
        (omega arith) in
    let g =
      hg
      ∙ ap
          (λ (t : (ℕ × Option IoError) × Writer).
            write_to_loop (suc (length b)) a (reader z [] t.1.sink.taken eof)
              (sink out (length b + j) e') 0)
          s
      ∙ ap
          (λ l.
            write_to_loop (suc (length b)) a (reader z [] (seal_all a z cs) eof) (sink out l e') 0)
          {y = length cs + (length b - length cs + j)} (omega arith)
      ∙ r in
    (
      ap (λ t. t.0) s,
      ap (λ t. t.0) g ∙ count_eq (ap length c),
      ap (λ t. t.1.1.taken) g ∙ ap (λ t. out ++ t) c,
      ap (λ t. t.1.0.nonce) g ∙ sym (ap (λ t. t.1.nonce) s),
    )

-- Reading never loses, invents or reorders a byte: on a reader with the bytes `left` left over,
-- over records of pieces `cs` and then the error e, Read gives the front of the bytes that are
-- still to come, and keeps the rest as left-over bytes and whole records under its nonce. Into a
-- buffer that is not empty it gives at least one byte and no error, or, when nothing is to come, no
-- byte and e.
pub read_lem :
    (a : Aead)
    → AeadLaws a
    → (room : ℕ) (nonce left : List ℕ) (cs : List (List ℕ)) (e : IoError) → All IsPiece cs
    → 0 < room
    → (out : List ℕ) × (er : Option IoError) × (nonce' : List ℕ) × (left' : List ℕ) × (cs' : List
        (List ℕ))
      × (read a room (reader nonce left (seal_all a nonce cs) e)
          ≡ ((out, er), reader nonce' left' (seal_all a nonce' cs') e))
      × All IsPiece cs'
      × (left ++ concat cs ≡ out ++ (left' ++ concat cs'))
      × (((er ≡ none) × (0 < length out)) ⊎ ((er ≡ some e) × (out ≡ []) × (left ++ concat cs ≡ [])))
unfolding read read_next concat seal_all
read_lem a laws room nonce (b ∷ bs) cs e h z =
    let left = b ∷ bs in
    let ht = length-take room left in
    (
      take room left,
      none,
      nonce,
      drop room left,
      cs,
      refl,
      h,
      sym (
          rw (
            sym (append_assoc (take room left) (drop room left) (concat cs)),
            take-append-drop room left,
          )),
      inl (refl, omega arith),
    )
read_lem a laws room nonce [] [] e h z = (
  [],
  some e,
  nonce,
  [],
  [],
  ap (read_next room) (read_record_end a nonce [] e),
  tt,
  refl,
  inr (refl, refl, refl),
)
read_lem a laws room nonce [] (c ∷ cs) e (hc, hcs) z =
    let ht = length-take room c in
    let n' = increment (increment nonce) in
    (
      take room c,
      none,
      n',
      drop room c,
      cs,
      ap (read_next room)
          (read_record-seal_record a laws c nonce [] (seal_all a n' cs) e (omega arith)),
      hcs,
      sym (
          rw (sym (append_assoc (take room c) (drop room c) (concat cs)), take-append-drop room c)),
      inl (refl, omega arith),
    )
