-- ===== src/Stats/History.antt =====
-- stats/stats.go: what the history holds after any calls.
use rabbit_mtcp_ws_socks.Prelude.{
  ℕ, zero, suc, ◌+◌, ◌-◌, ◌≤◌, ◌<◌, ◌≡◌, refl, sym, ap, inl, inr, List, [], ◌∷◌, ◌++◌, append-nil,
  arith, ltb, ltb→lt, ltb→le, Bool-cases, length, drop, length-append, length-drop, drop-nil,
  drop-drop,
}
use rabbit_mtcp_ws_socks.Stats.{
  Stats, new_stats, add_uint64, add_sent_bytes, add_recv_bytes, trim, update_history,
}

-- The calls of a run.
pub data Call : Type 0 where
  sent : ℕ → Call
  received : ℕ → Call
  tick : ℕ → Call

unfoldable pub run : List Call → Stats → Stats
run [] s = s
run (Call.sent n ∷ cs) s = run cs (add_sent_bytes n s)
run (Call.received n ∷ cs) s = run cs (add_recv_bytes n s)
run (Call.tick t ∷ cs) s = run cs (update_history t s)

-- The times of the ticks, and the totals at each of them.
unfoldable pub times : List Call → List ℕ
times [] = []
times (Call.sent n ∷ cs) = times cs
times (Call.received n ∷ cs) = times cs
times (Call.tick t ∷ cs) = t ∷ times cs

unfoldable pub sent_at : ℕ → List Call → List ℕ
sent_at total [] = []
sent_at total (Call.sent n ∷ cs) = sent_at (add_uint64 total n) cs
sent_at total (Call.received n ∷ cs) = sent_at total cs
sent_at total (Call.tick t ∷ cs) = total ∷ sent_at total cs

unfoldable pub received_at : ℕ → List Call → List ℕ
received_at total [] = []
received_at total (Call.sent n ∷ cs) = received_at total cs
received_at total (Call.received n ∷ cs) = received_at (add_uint64 total n) cs
received_at total (Call.tick t ∷ cs) = total ∷ received_at total cs

-- The last `h` elements.
unfoldable pub last {ℓ} : {A : Type ℓ} → ℕ → List A → List A
last h xs = drop (length xs - h) xs

drop-append_le {ℓ} :
    {A : Type ℓ} (n : ℕ) (xs ys : List A) → n ≤ length xs → drop n (xs ++ ys) ≡ drop n xs ++ ys
drop-append_le zero xs ys h = refl
drop-append_le (suc n) [] ys h = absurd (omega arith)
drop-append_le (suc n) (x ∷ xs) ys h = drop-append_le n xs ys (omega arith)

trim-last {ℓ} :
    {A : Type ℓ} (h l : ℕ) (xs : List A) (x : A)
    → length xs ≡ l
    → trim (ltb h (suc (l - (l - h)))) (last h xs ++ (x ∷ [])) ≡ last h (xs ++ (x ∷ []))
unfolding trim last
trim-last h l xs x e = elim (Bool-cases (ltb h (suc (l - (l - h))))) [
  | inl full ↦
      let over : h < suc (l - (l - h)) = ltb→lt h _ full in
      let size : length (xs ++ (x ∷ [])) - h ≡ (length xs - h) + 1 =
        omega (arith, length-append xs (x ∷ [])) in
      let front : drop (length xs - h) (xs ++ (x ∷ [])) ≡ drop (length xs - h) xs ++ (x ∷ []) =
        drop-append_le (length xs - h) xs (x ∷ []) (omega arith) in
      rw (full, size, sym front, drop-drop 1 (length xs - h) (xs ++ (x ∷ [])))
  | inr room ↦
      let under : suc (l - (l - h)) ≤ h = ltb→le h _ room in
      let size : length (xs ++ (x ∷ [])) - h ≡ 0 = omega (arith, length-append xs (x ∷ [])) in
      let none_cut : length xs - h ≡ 0 = omega arith in rw (room, size, none_cut)
]

length-last {ℓ} :
    {A : Type ℓ} (h : ℕ) (xs : List A) → length (last h xs) ≡ length xs - (length xs - h)
unfolding last
length-last h xs = length-drop (length xs - h) xs

-- The history holds the last of three sequences of equal length.
record Holds (h : ℕ) (ts ss rs : List ℕ) (s : Stats) : Type 0 where
  size : s.history_size ≡ h
  at : s.timestamps ≡ last h ts
  out : s.sent_bytes_history ≡ last h ss
  inn : s.recv_bytes_history ≡ last h rs
  sent_length : length ss ≡ length ts
  recv_length : length rs ≡ length ts

update_history-Holds :
    (h t : ℕ) (ts ss rs : List ℕ) (s : Stats)
    → Holds h ts ss rs s
    → Holds h
        (ts ++ (t ∷ []))
        (ss ++ (s.total_sent_bytes ∷ []))
        (rs ++ (s.total_recv_bytes ∷ []))
        (update_history t s)
unfolding update_history
update_history-Holds h t ts ss rs s w =
    let l = length ts in
    let len : length (s.timestamps ++ (t ∷ [])) ≡ suc (l - (l - h)) =
      rw (w.at, length-append (last h ts) (t ∷ []), length-last h ts) (omega arith) in
    record {
      size = w.size;
      at = rw (len, w.size, w.at, trim-last h l ts t refl);
      out = rw (len, w.size, w.out, trim-last h l ss s.total_sent_bytes w.sent_length);
      inn = rw (len, w.size, w.inn, trim-last h l rs s.total_recv_bytes w.recv_length);
      sent_length = omega (
        arith,
        length-append ss (s.total_sent_bytes ∷ []),
        length-append ts (t ∷ []),
        w.sent_length,
      );
      recv_length = omega (
        arith,
        length-append rs (s.total_recv_bytes ∷ []),
        length-append ts (t ∷ []),
        w.recv_length,
      );
    }

new_stats-Holds : (h : ℕ) → Holds h [] [] [] (new_stats h)
unfolding new_stats last
new_stats-Holds h = record {
  size = refl;
  at = sym (drop-nil (0 - h));
  out = sym (drop-nil (0 - h));
  inn = sym (drop-nil (0 - h));
  sent_length = refl;
  recv_length = refl;
}

append-cons {ℓ} :
    {A : Type ℓ} (xs : List A) (a : A) (ys : List A) → xs ++ (a ∷ ys) ≡ (xs ++ (a ∷ [])) ++ ys
append-cons [] a ys = refl
append-cons (x ∷ xs) a ys = ap (λ zs. x ∷ zs) (append-cons xs a ys)

run-Holds :
    (cs : List Call) (h : ℕ) (ts ss rs : List ℕ) (s : Stats)
    → Holds h ts ss rs s
    → Holds h
        (ts ++ times cs)
        (ss ++ sent_at s.total_sent_bytes cs)
        (rs ++ received_at s.total_recv_bytes cs)
        (run cs s)
unfolding run times sent_at received_at add_sent_bytes add_recv_bytes update_history
run-Holds [] h ts ss rs s w = rw (append-nil ts, append-nil ss, append-nil rs) w
run-Holds (Call.sent n ∷ cs) h ts ss rs s w = run-Holds cs h ts ss rs (add_sent_bytes n s) (record {
  size = w.size;
  at = w.at;
  out = w.out;
  inn = w.inn;
  sent_length = w.sent_length;
  recv_length = w.recv_length;
})
run-Holds (Call.received n ∷ cs) h ts ss rs s w =
    run-Holds cs h ts ss rs (add_recv_bytes n s) (record {
      size = w.size;
      at = w.at;
      out = w.out;
      inn = w.inn;
      sent_length = w.sent_length;
      recv_length = w.recv_length;
    })
run-Holds (Call.tick t ∷ cs) h ts ss rs s w =
    let more = run-Holds cs h _ _ _ (update_history t s) (update_history-Holds h t ts ss rs s w) in
    rw
      (
        append-cons ts t (times cs),
        append-cons ss s.total_sent_bytes (sent_at s.total_sent_bytes cs),
        append-cons rs s.total_recv_bytes (received_at s.total_recv_bytes cs),
      )
      more

-- After any calls on a new value the three slices hold the last `h` of the times of the updates and
-- of the two totals at each of them, a total being the sum of the bytes added so far modulo 2 ^ 64.
pub run_history :
    (cs : List Call) (h : ℕ)
    → ((run cs (new_stats h)).timestamps ≡ last h (times cs))
      × (((run cs (new_stats h)).sent_bytes_history ≡ last h (sent_at 0 cs))
          × ((run cs (new_stats h)).recv_bytes_history ≡ last h (received_at 0 cs)))
unfolding new_stats
run_history cs h =
    let w = run-Holds cs h [] [] [] (new_stats h) (new_stats-Holds h) in (w.at, (w.out, w.inn))
