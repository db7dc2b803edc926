-- ===== src/Stats/Report.antt =====
-- GetStats of stats/stats.go: the values that the status server shows.
use rabbit_mtcp_ws_socks.Prelude.{
  ℕ, ◌+◌, ◌-◌, ◌%◌, ◌^◌, ◌&&◌, List, [], ◌∷◌, ltb, leb, if◌then◌else◌, length,
}
use Prim.Native.String.{String}
use rabbit_mtcp_ws_socks.Stats.{Stats}

-- What the code uses of float64 and time.Time: the number of an integer, a number of bytes per a
-- number of nanoseconds, and nanoseconds as milliseconds.
pub record Floats : Type 1 where
  pub Float64 : Type 0
  pub of_int : ℕ → Float64
  pub zero_rate : Float64
  pub rate : (bytes window : ℕ) → Float64
  pub milliseconds : ℕ → Float64

-- What GetStats uses of the Go runtime.
pub record Runtime : Type 0 where
  pub goroutines : ℕ
  pub alloc : ℕ
  pub total_alloc : ℕ
  pub heap_alloc : ℕ
  pub sys : ℕ
  pub heap_sys : ℕ
  pub heap_idle : ℕ
  pub heap_inuse : ℕ
  pub heap_released : ℕ
  pub heap_objects : ℕ
  pub mallocs : ℕ
  pub frees : ℕ
  pub pause_total_ns : ℕ
  pub num_gc : ℕ
  pub last_gc : ℕ

-- The last element of a list that is not empty, and the first.
abbrev pub last_of : List ℕ → ℕ
last_of [] = 0
last_of (x ∷ []) = x
last_of (x ∷ y ∷ xs) = last_of (y ∷ xs)

abbrev pub first_of : List ℕ → ℕ
first_of [] = 0
first_of (x ∷ xs) = x

-- A difference of two uint64.
abbrev pub sub_uint64 : ℕ → ℕ → ℕ
sub_uint64 a b = (a + 2 ^ 64 - b) % 2 ^ 64

module _ (f : Floats) where
  open f use {Float64, of_int, zero_rate, rate, milliseconds}

  -- The values of the map by their Go types. A time is in nanoseconds.
  pub data Value : Type 0 where
    uint64 : ℕ → Value
    uint32 : ℕ → Value
    int32 : ℕ → Value
    int : ℕ → Value
    float64 : Float64 → Value
    time : ℕ → Value

  -- A rate over the history: zero unless two times differ.
  unfoldable pub rate_of : List ℕ → List ℕ → Float64
  rate_of history times =
      let window = last_of times - first_of times in
      if leb 2 (length times) && ltb 0 window
      then rate (sub_uint64 (last_of history) (first_of history)) window
      else zero_rate

  -- `GetStats`.
  unfoldable pub get_stats : Runtime → Stats → List (String × Value)
  get_stats m s =
      ("total_sent_bytes", uint64 s.total_sent_bytes)
      ∷ ("total_recv_bytes", uint64 s.total_recv_bytes)
      ∷ ("tunnel_count", int32 s.tunnel_count)
      ∷ ("connection_count", int32 s.connection_count)
      ∷ ("send_rate_Bps", float64 (rate_of s.sent_bytes_history s.timestamps))
      ∷ ("recv_rate_Bps", float64 (rate_of s.recv_bytes_history s.timestamps))
      ∷ ("goroutine_count", int m.goroutines)
      ∷ ("mem_alloc", uint64 m.alloc)
      ∷ ("total_mem_alloc", uint64 m.total_alloc)
      ∷ ("mem_heap_alloc", uint64 m.heap_alloc)
      ∷ ("mem_sys", uint64 m.sys)
      ∷ ("heap_sys", uint64 m.heap_sys)
      ∷ ("heap_idle", uint64 m.heap_idle)
      ∷ ("heap_inuse", uint64 m.heap_inuse)
      ∷ ("heap_released", uint64 m.heap_released)
      ∷ ("heap_objects", uint64 m.heap_objects)
      ∷ ("obj_mallocs", uint64 m.mallocs)
      ∷ ("obj_release", uint64 m.frees)
      ∷ ("gc_pause_ms", float64 (milliseconds m.pause_total_ns))
      ∷ ("gc_count", uint32 m.num_gc)
      ∷ ("last_gc", time m.last_gc)
      ∷ []
