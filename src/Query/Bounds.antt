-- ===== src/Query/Bounds.antt =====
-- The latency of a mode of the table.
use native.Mathlib.Nat.{lt_of_mul-lt-mul_right, mul-le-mul, mod-eq_of_lt}
use ntv2_gst.Prelude.{
  ℕ, ◌+◌, ◌-◌, ◌*◌, ◌%◌, ◌^◌, ◌<◌, ◌≤◌, ◌≡◌, refl, Bool, true, ◌&&◌, some, ltb, leb, arith,
}
use ntv2_gst.Mode.Defs.{Mode}
use ntv2_gst.Mode.Table.{modes_raw}
use ntv2_gst.Mode.Caps.{get_mode_raw}
use ntv2_gst.Mode.Rows.{rows_hold, get_mode_raw-holds}
use ntv2_gst.Audio.Defs.{second}
use ntv2_gst.Elements.{Shared}
use ntv2_gst.Query.{Latency, query_latency, query, latency_of}

-- What GStreamer documents of `gst_util_uint64_scale_ceil`, where the result fits 64 bits.
abbrev pub IsScaleCeil : (ℕ → ℕ → ℕ → ℕ) → Type 0
IsScaleCeil scale_ceil =
    (val num denom : ℕ)
    → 0 < denom
    → val * num ≤ (2 ^ 64 - 1) * denom
    → (val * num ≤ scale_ceil val num denom * denom)
      × (scale_ceil val num denom * denom < val * num + denom)

abbrev timed_row : ℕ → Mode → Bool
timed_row i m = ltb 0 m.fps_n && leb (second * m.fps_d) (500_000_000 * m.fps_n)

timed_rows : rows_hold timed_row 0 modes_raw ≡ true
timed_rows = refl

-- The least latency is that of one frame, rounded up to a whole nanosecond, and the greatest that of the queue.
pub record IsLatency (mode : Mode) (queue_size : ℕ) (l : Latency) : Type 0 where
  pub live : l.live ≡ true
  pub covers : second * mode.fps_d ≤ l.min * mode.fps_n
  pub least : l.min * mode.fps_n < second * mode.fps_d + mode.fps_n
  pub max : l.max ≡ queue_size * l.min
  pub fits : l.max < 2 ^ 64

scale-lt :
    (min n d : ℕ)
    → 0 < n
    → second * d ≤ 500_000_000 * n
    → min * n < second * d + n
    → min < 500_000_001
scale-lt min n d pos slow least = lt_of_mul-lt-mul_right n (omega arith)

queue-lt : (q min : ℕ) → q < 2 ^ 31 → min < 500_000_001 → q * min < 2 ^ 64
queue-lt q min h k =
    let le : q * min ≤ 2 ^ 31 * 500_000_000 =
      mul-le-mul {n₂ = 2 ^ 31} {m₂ = 500_000_000} (omega arith) (omega arith) in
    omega arith

-- For each mode of the table and each queue size that the property allows, an element whose input has the mode
-- answers the query: the least latency is the shortest time of whole nanoseconds that a frame of the mode
-- fits in, the greatest one is that of as many frames as the queue takes, and no product of it wraps.
pub query-IsLatency :
    (scale_ceil : ℕ → ℕ → ℕ → ℕ)
    → IsScaleCeil scale_ceil
    → (parent : Bool) (e : ℕ) (mode : Mode) (queue_size : ℕ) (input : Shared) → e < 156
    → get_mode_raw e ≡ some mode
    → queue_size < 2 ^ 31
    → input.mode ≡ some mode
    → (l : Latency) × (query scale_ceil parent queue_size (some input) query_latency
        ≡ (true, some l))
      × IsLatency mode queue_size l
unfolding query
query-IsLatency scale_ceil ceil parent e mode queue_size input lt found small has_mode =
    let row_ok : timed_row e mode ≡ true =
      get_mode_raw-holds timed_row e mode timed_rows lt found in
    let pos : 0 < mode.fps_n = ground arith in
    let slow : second * mode.fps_d ≤ 500_000_000 * mode.fps_n = ground arith in
    let bounds = ceil second mode.fps_d mode.fps_n pos (omega arith) in
    let min = scale_ceil second mode.fps_d mode.fps_n in
    let fits =
      queue-lt queue_size min small (scale-lt min mode.fps_n mode.fps_d pos slow bounds.1) in
    let exact : queue_size * min % 2 ^ 64 ≡ queue_size * min = mod-eq_of_lt fits in
    (
      latency_of scale_ceil queue_size mode,
      rw has_mode refl,
      record {
        live = refl;
        covers = bounds.0;
        least = bounds.1;
        max = exact;
        fits = rw exact fits;
      },
    )
