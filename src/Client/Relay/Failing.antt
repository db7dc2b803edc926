-- ===== src/Client/Relay/Failing.antt =====
-- What biRelay of client/client.go keeps when a read or a write fails.
use rabbit_mtcp_ws_socks.Prelude.{
  ℕ, ◌≡◌, refl, sym, ap, ◌∙◌, Bool, true, false, ◌&&◌, List, [], ◌++◌, append-nil, append_assoc,
  if◌then◌else◌, take, drop, take-append-drop,
}
use rabbit_mtcp_ws_socks.Client.Relay.{
  End, Turn, moved, at_eof, broken, give_up, turn_between, BiRelay,
}

-- What was read from one end and what was written to the other: only bytes at the end are lost,
-- and none while the ends are open.
abbrev pub Follows : End → End → Type 0
Follows dst src =
    (lost : List ℕ) × (src.received ≡ dst.written ++ lost) × (dst.closed ≡ false → lost ≡ [])

abbrev pub Agrees : End → End → Type 0
Agrees a b = Follows a b × Follows b a × (a.closed ≡ b.closed)

closed_Follows :
    (a b a' b' : End)
    → Follows a b
    → b'.received ≡ b.received
    → a'.written ≡ a.written
    → a'.closed ≡ true
    → Follows a' b'
closed_Follows a b a' b' (lost, e, none_lost) h k c =
    (lost, h ∙ e ∙ ap (λ (x : List ℕ). x ++ lost) (sym k), λ o. absurd (cc))

open_Follows : (a b : End) → Follows a b → a.closed ≡ false → b.received ≡ a.written
open_Follows a b (lost, e, none_lost) o =
    e ∙ ap (λ (x : List ℕ). a.written ++ x) (none_lost o) ∙ append-nil a.written

moved_Follows :
    (bs : List ℕ) (a b a' b' : End)
    → Follows a b
    → a.closed ≡ false
    → b'.received ≡ b.received ++ bs
    → a'.written ≡ a.written ++ bs
    → Follows a' b'
moved_Follows bs a b a' b' f o h k = (
  [],
  h ∙ ap (λ (x : List ℕ). x ++ bs) (open_Follows a b f o) ∙ sym k ∙ sym (append-nil a'.written),
  λ _. refl,
)

part_Follows :
    (bs : List ℕ) (n : ℕ) (a b a' b' : End)
    → Follows a b
    → a.closed ≡ false
    → b'.received ≡ b.received ++ bs
    → a'.written ≡ a.written ++ take n bs
    → a'.closed ≡ true
    → Follows a' b'
part_Follows bs n a b a' b' f o h k c = (
  drop n bs,
  h
      ∙ ap (λ (x : List ℕ). x ++ bs) (open_Follows a b f o)
      ∙ ap (λ (x : List ℕ). a.written ++ x) (sym (take-append-drop n bs))
      ∙ sym (append_assoc a.written (take n bs) (drop n bs))
      ∙ ap (λ (x : List ℕ). x ++ drop n bs) (sym k),
  λ o'. absurd (cc),
)

turn_between-Agrees :
    (t : Turn) (dst src : End)
    → dst.closed ≡ false
    → Agrees dst src
    → Agrees (turn_between t (dst, src)).1.0 (turn_between t (dst, src)).1.1
turn_between-Agrees (moved bs) dst src o (x, y, e) = (
  moved_Follows bs dst src (record dst { written = dst.written ++ bs })
      (record src { received = src.received ++ bs }) x o refl refl,
  y,
  e,
)
turn_between-Agrees at_eof dst src o (x, y, e) = (x, y, e)
turn_between-Agrees (broken bs n) dst src o (x, y, e) =
    let (dst', src') = (turn_between (broken bs n) (dst, src)).1 in
    (
      part_Follows bs n dst src dst' src' x o refl refl refl,
      closed_Follows src dst src' dst' y refl refl refl,
      refl,
    )

guarded :
    (c : Bool) (t : Turn) (dst src : End)
    → (c ≡ false → dst.closed ≡ false)
    → Agrees dst src
    → Agrees
        (if c then (true, give_up (dst, src)) else turn_between t (dst, src)).1.0
        (if c then (true, give_up (dst, src)) else turn_between t (dst, src)).1.1
guarded true t dst src o (x, y, e) =
    let (dst', src') = give_up (dst, src) in
    (
      closed_Follows dst src dst' src' x refl refl refl,
      closed_Follows src dst src' dst' y refl refl refl,
      refl,
    )
guarded false t dst src o a = turn_between-Agrees t dst src (o refl) a

-- Both ends closed once both goroutines are done.
abbrev pub Shut : BiRelay → Type 0
Shut b = b.left_done && b.right_done ≡ true → (b.left.closed ≡ true) × (b.right.closed ≡ true)

wait_with : Bool → BiRelay → BiRelay
wait_with c b =
    if c
    then record b {
      left = record b.left { closed = true };
      right = record b.right { closed = true };
    }
    else b
