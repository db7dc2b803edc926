-- ===== src/Stats.antt =====
-- stats/stats.go: the byte counters and their history.
pub mod History
pub mod Report
pub mod Metrics
mod Tests
use rabbit_mtcp_ws_socks.Prelude.{
  subst, ℕ, zero, suc, ◌+◌, ◌-◌, ◌*◌, ◌/◌, ◌%◌, ◌^◌, ◌≤◌, ◌<◌, min, max, ◌≡◌, refl, sym, ap, ◌∙◌,
  ◌≢◌, ◌↔◌, ◌⊎◌, inl, inr, Bool, true, false, not, ◌&&◌, ◌||◌, Option, none, some, List, [], ◌∷◌,
  ◌++◌, map, append-nil, append_assoc, arith, ltb, leb, ◌==◌, if◌then◌else◌, ltb→lt, lt→ltb, ltb→le,
  le→ltb, ==→eq, ==→ne, eq→==, ne→==, Bool-cases, Option-cases, Result, ok, err, Result-cases,
  length, take, drop, replicate, get_or, set, All, length-append, take-append-drop, length-take,
  length-drop, length-replicate, take-append, drop-append, take_all, drop_all, drop-nil, drop-drop,
  All-append, drop-take, take-min,
}

-- `Stats`, without its mutex. A time is in nanoseconds, an int32 count its 32 bits.
pub record Stats : Type 0 where
  pub total_sent_bytes : ℕ
  pub total_recv_bytes : ℕ
  pub tunnel_count : ℕ
  pub connection_count : ℕ
  pub sent_bytes_history : List ℕ
  pub recv_bytes_history : List ℕ
  pub timestamps : List ℕ
  pub history_size : ℕ

-- `NewStats`.
unfoldable pub new_stats : ℕ → Stats
new_stats size = record {
  total_sent_bytes = 0;
  total_recv_bytes = 0;
  tunnel_count = 0;
  connection_count = 0;
  sent_bytes_history = [];
  recv_bytes_history = [];
  timestamps = [];
  history_size = size;
}

-- `atomic.AddUint64`.
unfoldable pub add_uint64 : ℕ → ℕ → ℕ
add_uint64 total n = (total + n) % 2 ^ 64

-- `AddSentBytes` and `AddRecvBytes`.
unfoldable pub add_sent_bytes : ℕ → Stats → Stats
add_sent_bytes n s = record s { total_sent_bytes = add_uint64 s.total_sent_bytes n }

unfoldable pub add_recv_bytes : ℕ → Stats → Stats
add_recv_bytes n s = record s { total_recv_bytes = add_uint64 s.total_recv_bytes n }

-- The slices without their oldest element, if there are too many.
unfoldable pub trim {ℓ} : {A : Type ℓ} → Bool → List A → List A
trim full xs = if full then drop 1 xs else xs

-- `UpdateHistory` at the time `now`.
unfoldable pub update_history : ℕ → Stats → Stats
update_history now s =
    let full = ltb s.history_size (length (s.timestamps ++ (now ∷ []))) in
    record s {
      sent_bytes_history = trim full (s.sent_bytes_history ++ (s.total_sent_bytes ∷ []));
      recv_bytes_history = trim full (s.recv_bytes_history ++ (s.total_recv_bytes ∷ []));
      timestamps = trim full (s.timestamps ++ (now ∷ []));
    }
