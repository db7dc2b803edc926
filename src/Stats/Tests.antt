-- ===== src/Stats/Tests.antt =====
-- Runs of the counters, and the theorems about them at concrete calls.
use rabbit_mtcp_ws_socks.Prelude.{ℕ, ◌*◌, ◌/◌, ◌^◌, ◌≡◌, List, [], ◌∷◌}
use rabbit_mtcp_ws_socks.Stats.{Stats, new_stats, add_uint64}
use rabbit_mtcp_ws_socks.Stats.Report.{Floats, Runtime, get_stats, rate_of}
use rabbit_mtcp_ws_socks.Stats.Metrics.{Gauges, update_prometheus_metrics, counts_not_shown}
use rabbit_mtcp_ws_socks.Stats.History.{Call, run, last, times, sent_at, received_at, run_history}

abbrev three_ticks : List Call
three_ticks =
    Call.sent 5 ∷ Call.tick 1 ∷ Call.received 7 ∷ Call.sent 1 ∷ Call.tick 2 ∷ Call.tick 3 ∷ []

run_history_example :
    ((run three_ticks (new_stats 2)).timestamps ≡ 2 ∷ 3 ∷ [])
    × (((run three_ticks (new_stats 2)).sent_bytes_history ≡ 6 ∷ 6 ∷ [])
        × ((run three_ticks (new_stats 2)).recv_bytes_history ≡ 7 ∷ 7 ∷ []))
unfolding last times sent_at received_at add_uint64
run_history_example = run_history three_ticks 2

abbrev whole : Floats
whole = record {
  Float64 = ℕ;
  of_int = λ n. n;
  zero_rate = 0;
  rate = λ bytes window. bytes * 10 ^ 9 / window;
  milliseconds = λ ns. ns / 10 ^ 6;
}

abbrev idle_runtime : Runtime
idle_runtime = record {
  goroutines = 4;
  alloc = 0;
  total_alloc = 0;
  heap_alloc = 0;
  sys = 0;
  heap_sys = 0;
  heap_idle = 0;
  heap_inuse = 0;
  heap_released = 0;
  heap_objects = 0;
  mallocs = 0;
  frees = 0;
  pause_total_ns = 0;
  num_gc = 0;
  last_gc = 0;
}

abbrev blank_gauges : Gauges whole
blank_gauges = record {
  total_sent_bytes = 0;
  total_recv_bytes = 0;
  connection_count = 0;
  tunnel_count = 0;
  send_rate = 0;
  recv_rate = 0;
  goroutine_count = 0;
  mem_alloc = 0;
  mem_heap_alloc = 0;
  total_mem_alloc = 0;
  mem_sys = 0;
  heap_sys = 0;
  heap_idle = 0;
  heap_inuse = 0;
  heap_released = 0;
  heap_objects = 0;
  obj_mallocs = 0;
  obj_frees = 0;
  gc_pause_ms = 0;
  gc_count = 0;
  last_gc_time = 0;
}

-- Five bytes in two seconds, over three connections and two tunnels.
abbrev busy : Stats
busy = record (new_stats 20) {
  total_sent_bytes = 9;
  tunnel_count = 2;
  connection_count = 3;
  sent_bytes_history = 4 ∷ 9 ∷ [];
  recv_bytes_history = 0 ∷ 0 ∷ [];
  timestamps = 1000000000 ∷ 3000000000 ∷ [];
}

counts_not_shown_example :
    let g = update_prometheus_metrics whole (get_stats whole idle_runtime busy) blank_gauges in
    (g.total_sent_bytes ≡ 9)
    × (g.total_recv_bytes ≡ 0)
    × (g.send_rate ≡ 2)
    × (g.recv_rate ≡ 0)
    × (g.connection_count ≡ 0)
    × (g.tunnel_count ≡ 0)
unfolding new_stats rate_of
counts_not_shown_example = counts_not_shown whole idle_runtime busy blank_gauges
