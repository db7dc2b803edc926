-- ===== src/Websocket/AsStream.antt =====
-- The adapter of tunnel/tunnel.go under io.ReadFull: message boundaries do not show.
use rabbit_mtcp_ws_socks.Websocket.{Library, Adapter, LibraryLaws, adapter_read}
use rabbit_mtcp_ws_socks.Prelude.{
  ℕ, zero, suc, ◌+◌, ◌-◌, ◌<◌, ◌≡◌, refl, sym, ap, ◌∙◌, ◌⊎◌, inl, inr, Option, none, some, List, [],
  ◌++◌, append-nil, append_assoc, arith, ltb, leb, if◌then◌else◌, ltb→lt, ltb→le, Bool-cases,
  Result, ok, err, length, length-append,
}
use rabbit_mtcp_ws_socks.Io.{
  IoError, Stream, short_error, read_full, read_full-append, read_full_short,
}
use rabbit_mtcp_ws_socks.Websocket.Reading.{pending, flat, turns, IsSound, Took, adapter_read-Took}

-- The loop of io.ReadFull over a reader: it reads on while bytes are missing and there is no error.
module _ {S : Type 0} (read : ℕ → S → (List ℕ × Option IoError) × S) where
  abbrev pub Filling : Type 0
  Filling = Option ((List ℕ × Option IoError) × S)

  abbrev pub prepend : List ℕ → Filling → Filling
  prepend p none = none
  prepend p (some ((xs, e), s)) = some ((p ++ xs, e), s)

  -- What a Read of `need` bytes or fewer gave, and the turns after it.
  abbrev pub after_read : (fill : ℕ → S → Filling) → ℕ → (List ℕ × Option IoError) × S → Filling
  after_read fill need ((p, some e), s) = some ((p, some e), s)
  after_read fill need ((p, none), s) = prepend p (fill (need - length p) s)

  pub fill : ℕ → ℕ → S → Filling
  fill zero need s = none
  fill (suc fuel) zero s = some (([], none), s)
  fill (suc fuel) (suc need) s = after_read (fill fuel) (suc need) (read (suc need) s)

  abbrev pub full : ℕ → (List ℕ × Option IoError) × S → Result IoError (List ℕ) × S
  full n ((xs, none), s) = (ok xs, s)
  full n ((xs, some e), s) = (if leb n (length xs) then ok xs else err (short_error xs e), s)

  abbrev pub full_of : ℕ → Filling → Option (Result IoError (List ℕ) × S)
  full_of n none = none
  full_of n (some r) = some (full n r)

  -- io.ReadFull into `n` bytes; none if the fuel runs out.
  pub read_full_from : ℕ → ℕ → S → Option (Result IoError (List ℕ) × S)
  read_full_from fuel n s = full_of n (fill fuel n s)

stream : List ℕ → IoError → Stream
stream xs e = record { bytes = xs; ends = e }

read_all :
    (n : ℕ) (xs ys zs : List ℕ) (e e' : IoError)
    → length xs ≡ n
    → zs ≡ xs ++ ys
    → e' ≡ e
    → read_full n (stream zs e) ≡ (ok xs, stream ys e')
unfolding stream
read_all n xs ys zs e e' h same kept = rw (same, kept) (read_full-append n xs ys e (sym h))

read_part :
    (n : ℕ) (xs ys zs : List ℕ) (e e' : IoError)
    → length xs < n
    → zs ≡ xs ++ ys
    → ys ≡ []
    → e' ≡ e
    → read_full n (stream zs e) ≡ (err (short_error xs e), stream ys e')
unfolding stream
read_part n xs ys zs e e' h same none_ kept =
    rw (same, none_, kept, append-nil xs) (read_full_short n (stream xs e) h)

module _ (w : Library) where
  open w use {messages, ends, current}

  record Filled (n : ℕ) (a : Adapter w) (xs : List ℕ) (e : Option IoError) (a' : Adapter w)
      : Type 0 where
    front : pending w a ≡ xs ++ pending w a'
    ends_kept : ends a'.conn ≡ ends a.conn
    sound : IsSound w a'
    enough : (length xs ≡ n) ⊎ ((length xs < n) × (e ≡ some (ends a.conn)) × (pending w a' ≡ []))

  joined :
      (need : ℕ) (a : Adapter w) (p : List ℕ) (a' : Adapter w) (xs : List ℕ) (x : Option IoError)
      (b : Adapter w)
      → Took w (suc need) a p none a'
      → Filled (suc need - length p) a' xs x b
      → Filled (suc need) a (p ++ xs) x b
  joined need a p a' xs x b t f = record {
    front = rw (t.front, f.front) (sym (append_assoc p xs (pending w b)));
    ends_kept = f.ends_kept ∙ t.ends_kept;
    sound = f.sound;
    enough = elim f.enough [
      | inl all ↦ inl (omega (arith, length-append p xs, t.fits))
      | inr (less, stopped, empty) ↦
          inr (omega (arith, length-append p xs, t.fits), stopped ∙ ap some t.ends_kept, empty)
    ];
  }

  ended :
      (need : ℕ) (a : Adapter w) (p : List ℕ) (e : IoError) (a' : Adapter w)
      → Took w (suc need) a p (some e) a'
      → Filled (suc need) a p (some e) a'
  ended need a p e a' t = record {
    front = t.front;
    ends_kept = t.ends_kept;
    sound = t.sound;
    enough = elim (Bool-cases (ltb (length p) (suc need))) [
      | inl less ↦ inr (ltb→lt _ _ less, ap some (t.stops e refl).0, (t.stops e refl).1)
      | inr all ↦ inl (omega (arith, ltb→le _ _ all, t.fits))
    ];
  }

  -- Enough was read: the error does not matter.
  full_all :
      (n : ℕ) (xs : List ℕ) (e : Option IoError) (a : Adapter w)
      → length xs ≡ n
      → full (adapter_read w) n ((xs, e), a) ≡ (ok xs, a)
  full_all n xs none a h = refl
  full_all n xs (some e) a h = ground arith

  full_part :
      (n : ℕ) (xs : List ℕ) (e : Option IoError) (a : Adapter w) (x : IoError)
      → length xs < n
      → e ≡ some x
      → full (adapter_read w) n ((xs, e), a) ≡ (err (short_error xs x), a)
  full_part n xs none a x h same = absurd (cc)
  full_part n xs (some y) a x h same = ground arith

  full-flat :
      (n : ℕ) (a : Adapter w) (xs : List ℕ) (e : Option IoError) (a' : Adapter w)
      → Filled n a xs e a'
      → (full (adapter_read w) n ((xs, e), a') ≡ ((read_full n (flat w a)).0, a'))
        × (flat w a' ≡ (read_full n (flat w a)).1)
  unfolding stream
  full-flat n a xs e a' f = elim f.enough [
    | inl all ↦
        let e1 : read_full n (flat w a) ≡ (ok xs, flat w a') =
          read_all n xs (pending w a') (pending w a) (ends a.conn) (ends a'.conn) all f.front
            f.ends_kept in
        (
          full_all n xs e a' all
              ∙ sym (ap (λ (r : Result IoError (List ℕ) × Stream). (r.0, a')) e1),
          sym (ap (λ (r : Result IoError (List ℕ) × Stream). r.1) e1),
        )
    | inr (less, stopped, empty) ↦
        let e1 : read_full n (flat w a) ≡ (err (short_error xs (ends a.conn)), flat w a') =
          read_part n xs (pending w a') (pending w a) (ends a.conn) (ends a'.conn) less f.front
            empty f.ends_kept in
        (
          full_part n xs e a' _ less stopped
              ∙ sym (ap (λ (r : Result IoError (List ℕ) × Stream). (r.0, a')) e1),
          sym (ap (λ (r : Result IoError (List ℕ) × Stream). r.1) e1),
        )
  ]

  module _ (laws : LibraryLaws w) where
    after_read-Filled :
        (fuel need : ℕ) (a : Adapter w) (p : List ℕ) (e : Option IoError) (a' : Adapter w)
        → Took w (suc need) a p e a'
        → ((m : ℕ) (b : Adapter w)
            → IsSound w b
            → turns w b + m < fuel
            → (xs : List ℕ) × (x : Option IoError) × (b' : Adapter w) × (fill
                  (adapter_read w)
                  fuel
                  m
                  b
                ≡ some ((xs, x), b'))
              × Filled m b xs x b')
        → turns w a + suc need < suc fuel
        → (xs : List ℕ) × (x : Option IoError) × (b' : Adapter w) × (after_read
              (adapter_read w)
              (fill (adapter_read w) fuel)
              (suc need)
              ((p, e), a')
            ≡ some ((xs, x), b'))
          × Filled (suc need) a xs x b'
    after_read-Filled fuel need a p none a' t ih enough_fuel =
        let (xs, x, b', eq, f) =
          ih (suc need - length p) a' t.sound
            (omega (arith, t.goes_on refl (omega arith), t.fits)) in
        (p ++ xs, x, b', rw eq, joined need a p a' xs x b' t f)
    after_read-Filled fuel need a p (some e) a' t ih enough_fuel =
        (p, some e, a', refl, ended need a p e a' t)

    fill-Filled :
        (fuel m : ℕ) (b : Adapter w)
        → IsSound w b
        → turns w b + m < fuel
        → (xs : List ℕ) × (x : Option IoError) × (b' : Adapter w) × (fill (adapter_read w) fuel m b
            ≡ some ((xs, x), b'))
          × Filled m b xs x b'
    unfolding fill
    fill-Filled zero m b s h = absurd (omega arith)
    fill-Filled (suc fuel) zero b s h =
        ([], none, b, refl, record { front = refl; ends_kept = refl; sound = s; enough = inl refl })
    fill-Filled (suc fuel) (suc m) b s h =
        let r = adapter_read w (suc m) b in
        after_read-Filled fuel m b r.0.0 r.0.1 r.1 (adapter_read-Took w laws (suc m) b s)
          (fill-Filled fuel) h

    -- The library behaving as it documents, io.ReadFull over the adapter ends, and does what it does
    -- on the plain stream of the bytes of the messages that are to come, ending in the connection's
    -- error: the same bytes or error, and the adapter is left where that stream is left. The loop
    -- takes no more turns than there are bytes wanted, messages to come, and one for an open reader.
    pub read_full_from-flat :
        (fuel n : ℕ) (a : Adapter w)
        → IsSound w a
        → turns w a + n < fuel
        → (a' : Adapter w) × (read_full_from (adapter_read w) fuel n a
            ≡ some ((read_full n (flat w a)).0, a'))
          × (flat w a' ≡ (read_full n (flat w a)).1)
          × IsSound w a'
    unfolding read_full_from
    read_full_from-flat fuel n a s h =
        let (xs, e, a', filled, f) = fill-Filled fuel n a s h in
        let (same, left) = full-flat n a xs e a' f in (a', rw filled (ap some same), left, f.sound)
