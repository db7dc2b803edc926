-- ===== src/Stats/Metrics.antt =====
-- updatePrometheusMetrics of cmd/rabbit.go: which gauges the values of GetStats set.
use rabbit_mtcp_ws_socks.Stats.{Stats}
use rabbit_mtcp_ws_socks.Prelude.{
  ◌/◌, ◌^◌, ◌≡◌, refl, Option, none, some, List, [], ◌∷◌, if◌then◌else◌,
}
use Prim.Native.String.{String}
use text.Mathlib.Text.{◌==◌ as text_eq}
use rabbit_mtcp_ws_socks.Stats.Report
use rabbit_mtcp_ws_socks.Stats.Report.{Floats, Runtime}

module _ (f : Floats) where
  open f use {Float64, of_int, milliseconds}

  -- The gauges, by the values they show.
  pub record Gauges : Type 0 where
    pub total_sent_bytes : Float64
    pub total_recv_bytes : Float64
    pub connection_count : Float64
    pub tunnel_count : Float64
    pub send_rate : Float64
    pub recv_rate : Float64
    pub goroutine_count : Float64
    pub mem_alloc : Float64
    pub mem_heap_alloc : Float64
    pub total_mem_alloc : Float64
    pub mem_sys : Float64
    pub heap_sys : Float64
    pub heap_idle : Float64
    pub heap_inuse : Float64
    pub heap_released : Float64
    pub heap_objects : Float64
    pub obj_mallocs : Float64
    pub obj_frees : Float64
    pub gc_pause_ms : Float64
    pub gc_count : Float64
    pub last_gc_time : Float64

  -- A value of the map; a key that is missing has none.
  pub value_of : String → List (String × Report.Value f) → Option (Report.Value f)
  value_of key [] = none
  value_of key ((k, v) ∷ rest) = if text_eq k key then some v else value_of key rest

  -- Set the gauge if the value has the type that is asked for.
  abbrev pub set_uint64 : Option (Report.Value f) → Float64 → Float64
  set_uint64 (some (Report.Value.uint64 n)) old = of_int n
  set_uint64 other old = old

  abbrev pub set_uint32 : Option (Report.Value f) → Float64 → Float64
  set_uint32 (some (Report.Value.uint32 n)) old = of_int n
  set_uint32 other old = old

  abbrev pub set_int : Option (Report.Value f) → Float64 → Float64
  set_int (some (Report.Value.int n)) old = of_int n
  set_int other old = old

  abbrev pub set_float64 : Option (Report.Value f) → Float64 → Float64
  set_float64 (some (Report.Value.float64 x)) old = x
  set_float64 other old = old

  -- The time's Unix seconds.
  abbrev pub set_time : Option (Report.Value f) → Float64 → Float64
  set_time (some (Report.Value.time ns)) old = of_int (ns / 10 ^ 9)
  set_time other old = old

  -- `updatePrometheusMetrics`.
  pub update_prometheus_metrics : List (String × Report.Value f) → Gauges → Gauges
  update_prometheus_metrics values g = record {
    total_sent_bytes = set_uint64 (value_of "total_sent_bytes" values) g.total_sent_bytes;
    total_recv_bytes = set_uint64 (value_of "total_recv_bytes" values) g.total_recv_bytes;
    connection_count = set_int (value_of "connection_count" values) g.connection_count;
    tunnel_count = set_int (value_of "tunnel_count" values) g.tunnel_count;
    send_rate = set_float64 (value_of "send_rate_Bps" values) g.send_rate;
    recv_rate = set_float64 (value_of "recv_rate_Bps" values) g.recv_rate;
    goroutine_count = set_int (value_of "goroutine_count" values) g.goroutine_count;
    mem_alloc = set_uint64 (value_of "mem_alloc" values) g.mem_alloc;
    mem_heap_alloc = set_uint64 (value_of "mem_heap_alloc" values) g.mem_heap_alloc;
    total_mem_alloc = set_uint64 (value_of "total_mem_alloc" values) g.total_mem_alloc;
    mem_sys = set_uint64 (value_of "mem_sys" values) g.mem_sys;
    heap_sys = set_uint64 (value_of "heap_sys" values) g.heap_sys;
    heap_idle = set_uint64 (value_of "heap_idle" values) g.heap_idle;
    heap_inuse = set_uint64 (value_of "heap_inuse" values) g.heap_inuse;
    heap_released = set_uint64 (value_of "heap_released" values) g.heap_released;
    heap_objects = set_uint64 (value_of "heap_objects" values) g.heap_objects;
    obj_mallocs = set_uint64 (value_of "obj_mallocs" values) g.obj_mallocs;
    obj_frees = set_uint64 (value_of "obj_release" values) g.obj_frees;
    gc_pause_ms = set_float64 (value_of "gc_pause_ms" values) g.gc_pause_ms;
    gc_count = set_uint32 (value_of "gc_count" values) g.gc_count;
    last_gc_time = set_time (value_of "last_gc" values) g.last_gc_time;
  }

  -- Whatever the state of the counters and of the runtime, the gauges of the two byte counters and of
  -- their rates show the counters and the rates over the history; but those of the connection count
  -- and of the tunnel count keep the value they had, since GetStats gives these as int32.
  pub counts_not_shown :
      (m : Runtime) (s : Stats) (g : Gauges)
      → let g' = update_prometheus_metrics (Report.get_stats f m s) g in
        (g'.total_sent_bytes ≡ of_int s.total_sent_bytes)
        × (g'.total_recv_bytes ≡ of_int s.total_recv_bytes)
        × (g'.send_rate ≡ Report.rate_of f s.sent_bytes_history s.timestamps)
        × (g'.recv_rate ≡ Report.rate_of f s.recv_bytes_history s.timestamps)
        × (g'.connection_count ≡ g.connection_count)
        × (g'.tunnel_count ≡ g.tunnel_count)
  unfolding update_prometheus_metrics value_of Report.get_stats
  counts_not_shown m s g = (refl, refl, refl, refl, refl, refl)
