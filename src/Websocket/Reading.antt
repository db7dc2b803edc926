-- ===== src/Websocket/Reading.antt =====
-- The bytes that are to come from an adapter of tunnel/tunnel.go, and what one Read takes of them.
use rabbit_mtcp_ws_socks.Websocket.{
  Library, Adapter, LibraryLaws, close_reader, Piece, adapter_read, opened_read,
}
use rabbit_mtcp_ws_socks.Prelude.{
  subst, ℕ, ◌+◌, ◌≤◌, ◌<◌, ◌≡◌, refl, sym, ap, ◌∙◌, ◌≢◌, ◌⊎◌, inl, inr, Bool, true, false, Option,
  none, some, List, [], ◌∷◌, ◌++◌, append_assoc, arith, if◌then◌else◌, Result, ok, err, length,
}
use rabbit_mtcp_ws_socks.Io.{IoError, eof, unexpected_eof, timeout, failure, Stream}

abbrev pub concat : List (List ℕ) → List ℕ
concat [] = []
concat (m ∷ ms) = m ++ concat ms

module _ (w : Library) where
  open w use {Conn, messages, ends, current, closing, next_reader, read}

  -- The bytes to come.
  abbrev pub pending : Adapter w → List ℕ
  pending a = (if a.reader then current a.conn else []) ++ concat (messages a.conn)

  abbrev pub flat : Adapter w → Stream
  flat a = record { bytes = pending a; ends = ends a.conn }

  -- Each turn that reads nothing lowers this number.
  abbrev pub turns : Adapter w → ℕ
  turns a = (if a.reader then 1 else 0) + length (messages a.conn)

  abbrev pub Sound : Conn → Type 0
  Sound c = (closing c ≡ eof) ⊎ ((messages c ≡ []) × (closing c ≡ ends c))

  -- The reader, if there is one, reads a whole message or breaks off at the end.
  abbrev pub IsSound : Adapter w → Type 0
  IsSound a = (a.reader ≡ false) ⊎ Sound a.conn

  -- A Read gave a front of the bytes to come, at most `n`; with no error it gave some, or used up a
  -- reader; with an error there is nothing more, and it is the connection's.
  pub record Took (n : ℕ) (a : Adapter w) (p : List ℕ) (e : Option IoError) (a' : Adapter w)
      : Type 0 where
    pub front : pending a ≡ p ++ pending a'
    pub fits : length p ≤ n
    pub ends_kept : ends a'.conn ≡ ends a.conn
    pub sound : IsSound a'
    pub goes_on : e ≡ none → 0 < n → turns a' < turns a + length p
    pub not_more : turns a' ≤ turns a
    pub stops : (x : IoError) → e ≡ some x → (x ≡ ends a.conn) × (pending a' ≡ [])

  abbrev pub at : Conn → Bool → Adapter w
  at c r = record { conn = c; reader = r }

  -- The reader is kept: it gave a piece, or broke off.
  kept :
      (n : ℕ) (c : Conn) (p : List ℕ) (e : Option IoError) (c' : Conn)
      → Piece w n c p e c'
      → Sound c
      → ((x : IoError) → e ≡ some x → (x ≡ ends c) × (messages c ≡ []))
      → Took n (at c true) p e (at c' true)
  kept n c p e c' h s last = record {
    front = rw (h.front, h.messages_kept) (append_assoc p (current c') (concat (messages c)));
    fits = h.fits;
    ends_kept = h.ends_kept;
    sound = inr (elim s [
      | inl done ↦ inl (h.closing_kept ∙ done)
      | inr (over, broken) ↦ inr (h.messages_kept ∙ over, h.closing_kept ∙ broken ∙ sym h.ends_kept)
    ]);
    goes_on = λ none_ more. omega (arith, ap length h.messages_kept, h.goes_on none_ more);
    not_more = omega (arith, ap length h.messages_kept);
    stops = λ x some_.
        let (same, over) = last x some_ in
        let (_, empty) = h.stops x some_ in (same, rw (empty, h.messages_kept, over));
  }

  -- The reader has given its whole message.
  dropped :
      (n : ℕ) (c : Conn) (p : List ℕ) (c' : Conn)
      → Piece w n c p (some eof) c'
      → Took n (at c true) p none (at c' false)
  dropped n c p c' h = record {
    front =
        rw (h.front, h.messages_kept, (h.stops eof refl).1)
          (append_assoc p [] (concat (messages c)));
    fits = h.fits;
    ends_kept = h.ends_kept;
    sound = inl refl;
    goes_on = λ none_ more. omega (arith, ap length h.messages_kept);
    not_more = omega (arith, ap length h.messages_kept);
    stops = λ x e. absurd (cc);
  }

  -- A reader that is not at its message's end breaks off at the connection's.
  broken :
      (c : Conn) (p : List ℕ) (n : ℕ) (e : IoError) (c' : Conn)
      → Piece w n c p (some e) c'
      → e ≢ eof
      → Sound c
      → (x : IoError) → some e ≡ some x
      → (x ≡ ends c) × (messages c ≡ [])
  broken c p n e c' h ne s x same = elim s [
    | inl done ↦ absurd (ne ((h.stops e refl).0 ∙ done))
    | inr (over, end) ↦ ((h.stops x same).0 ∙ end, over)
  ]

  closed :
      (n : ℕ) (c : Conn) (p : List ℕ) (e : Option IoError) (c' : Conn)
      → Piece w n c p e c'
      → Sound c
      → let r = close_reader w ((p, e), c') in Took n (at c true) r.0.0 r.0.1 r.1
  unfolding close_reader
  closed n c p none c' h s = kept n c p none c' h s (λ x e. absurd (cc))
  closed n c p (some eof) c' h s = dropped n c p c' h
  closed n c p (some unexpected_eof) c' h s =
      kept n c p _ c' h s (broken c p n unexpected_eof c' h (λ e. cc) s)
  closed n c p (some timeout) c' h s = kept n c p _ c' h s (broken c p n timeout c' h (λ e. cc) s)
  closed n c p (some (failure k)) c' h s =
      kept n c p _ c' h s (broken c p n (failure k) c' h (λ e. cc) s)

  opened_read-err :
      (n : ℕ) (r : Result IoError (Unit {0}) × Conn) (e : IoError)
      → r.0 ≡ err e
      → opened_read w n r ≡ (([], some e), at r.1 false)
  unfolding opened_read
  opened_read-err n (ok u, c) e h = absurd (cc)
  opened_read-err n (err e', c) e h = cc

  opened_read-ok :
      (n : ℕ) (r : Result IoError (Unit {0}) × Conn)
      → r.0 ≡ ok tt
      → opened_read w n r ≡ close_reader w (read n r.1)
  unfolding opened_read
  opened_read-ok n (ok u, c) h = refl
  opened_read-ok n (err e, c) h = absurd (cc)

  abbrev Taken : ℕ → Adapter w → (List ℕ × Option IoError) × Adapter w → Type 0
  Taken n a r = Took n a r.0.0 r.0.1 r.1

  from_same :
      (n : ℕ) (b a : Adapter w) (r : (List ℕ × Option IoError) × Adapter w)
      → pending b ≡ pending a
      → ends b.conn ≡ ends a.conn
      → turns b ≡ turns a
      → Taken n a r
      → Taken n b r
  from_same n b a r p q t h = record {
    front = p ∙ h.front;
    fits = h.fits;
    ends_kept = h.ends_kept ∙ sym q;
    sound = h.sound;
    goes_on = λ e more. omega (arith, t, h.goes_on e more);
    not_more = omega (arith, t, h.not_more);
    stops = λ x e. ((h.stops x e).0 ∙ sym q, (h.stops x e).1);
  }

  nothing :
      (n : ℕ) (c c' : Conn)
      → messages c ≡ []
      → messages c' ≡ []
      → ends c' ≡ ends c
      → Taken n (at c false) (([], some (ends c)), at c' false)
  nothing n c c' h h' e = record {
    front = rw (h, h');
    fits = omega arith;
    ends_kept = e;
    sound = inl refl;
    goes_on = λ no_error. absurd (cc);
    not_more = omega (arith, ap length h, ap length h');
    stops = λ x same. (cc, rw h');
  }

  module _ (laws : LibraryLaws w) where
    -- NextReader fails: there is no message.
    failed :
        (n : ℕ) (c : Conn)
        → messages c ≡ []
        → Taken n (at c false) (opened_read w n (next_reader c))
    failed n c none_ =
        let (fails, empty, kept_end) = laws.next_none c none_ in
        subst (Taken n (at c false)) (sym (opened_read-err n (next_reader c) (ends c) fails))
          (nothing n c (next_reader c).1 none_ empty kept_end)

    -- NextReader gives a reader of the next message.
    opened :
        (n : ℕ) (c : Conn) (m : List ℕ) (ms : List (List ℕ))
        → messages c ≡ m ∷ ms
        → Taken n (at c false) (opened_read w n (next_reader c))
    opened n c m ms some_ =
        let (gives, o) = laws.next_some c m ms some_ in
        let c' = (next_reader c).1 in
        let r = read n c' in
        let sound : Sound c' = elim o.whole [
          | inl done ↦ inl done
          | inr (last, breaks) ↦ inr (o.rest ∙ last, breaks ∙ sym o.ends_kept)
        ] in
        subst (Taken n (at c false)) (sym (opened_read-ok n (next_reader c) gives)) (
          from_same n (at c false) (at c' true) (close_reader w r) (rw (some_, o.its, o.rest))
            (sym o.ends_kept) (omega (arith, ap length some_, ap length o.rest))
            (closed n c' r.0.0 r.0.1 r.1 (laws.read_piece n c') sound))

    no_reader :
        (n : ℕ) (c : Conn) (ms : List (List ℕ))
        → messages c ≡ ms
        → Taken n (at c false) (opened_read w n (next_reader c))
    no_reader n c [] h = failed n c h
    no_reader n c (m ∷ ms) h = opened n c m ms h

    read_at :
        (n : ℕ) (c : Conn) (r : Bool)
        → IsSound (at c r)
        → Taken n (at c r) (adapter_read w n (at c r))
    unfolding adapter_read
    read_at n c true (inl h) = absurd (cc)
    read_at n c true (inr s) =
        let r = read n c in closed n c r.0.0 r.0.1 r.1 (laws.read_piece n c) s
    read_at n c false s = no_reader n c (messages c) refl

    pub adapter_read-Took :
        (n : ℕ) (a : Adapter w) → IsSound a → let r = adapter_read w n a in Took n a r.0.0 r.0.1 r.1
    adapter_read-Took n a s = read_at n a.conn a.reader s
