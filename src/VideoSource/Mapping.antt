-- ===== src/VideoSource/Mapping.antt =====
-- `gst_aja_video_src_update_time_mapping` of gst-plugin/aja/gstajavideosrc.cpp: the window of samples, from
-- which `gst_calculate_linear_regression` computes how stream time maps to the pipeline's time, and the
-- steps in which the mapping that is in use follows the computed one.
pub mod Window
pub mod Steps
use ntv2_gst.Prelude.{
  ℕ, ◌+◌, ◌-◌, ◌*◌, ◌/◌, Bool, true, false, not, ◌&&◌, ◌==◌, ltb, leb, if◌then◌else◌, Option, none,
  some, List, set, take,
}
use ntv2_gst.Capture.Worker.{u32, u64}
use ntv2_gst.Audio.Defs.{TimeMapping, ClockMath, second}
use ntv2_gst.VideoSource.Defs.{TimeWindow}

-- `window_skip_count` behind a frame.
abbrev pub next_count : ℕ → ℕ → ℕ
next_count skip count = if leb skip (u32 (count + 1)) then 0 else u32 (count + 1)

-- The sample goes where the window is filled to.
abbrev pub add_sample : ℕ → ℕ → TimeWindow → TimeWindow
add_sample stream_time capture_time w = record w {
  times = set w.times w.window_fill (stream_time, capture_time);
  window_fill = u32 (w.window_fill + 1);
  window_skip_count = next_count w.window_skip w.window_skip_count;
}

-- The frames of a second, rounded up; the code computes them with doubles. The denominator is not 0.
abbrev pub fps_of : ℕ → ℕ → ℕ
fps_of fps_n fps_d = (fps_n + fps_d - 1) / fps_d

-- The frames from one sample to the next, for a window that is full: twice as many, and at most `limit`.
abbrev pub slower : ℕ → ℕ → ℕ
slower limit skip =
    let doubled = if ltb skip limit then u32 (skip * 2) else skip in
    if leb limit doubled then limit else doubled

unfoldable pub turn_window : ℕ → TimeWindow → TimeWindow
turn_window fps w =
    if leb w.window_size w.window_fill
    then record w {
      window_skip = slower (u32 (4 * fps)) w.window_skip;
      window_fill = 0;
      window_filled = true;
    }
    else w

-- "First sample ever, create some basic mapping to start".
unfoldable pub first_mapping : ℕ → ℕ → TimeWindow → TimeWindow
first_mapping stream_time capture_time w =
    if not w.window_filled && w.window_fill == 1
    then record w {
      current_time_mapping = record { xbase = stream_time; b = capture_time; num = 1; den = 1 };
      next_time_mapping_pending = false;
    }
    else w

-- The result of the regression, if it has one.
abbrev pub set_next : Option TimeMapping → TimeWindow → TimeWindow
set_next none w = w
set_next (some t) w = record w { next_time_mapping = t; next_time_mapping_pending = true }

-- "At most 5% frame duration change per update".
abbrev pub max_diff : ClockMath → ℕ → ℕ → ℕ
max_diff m fps_n fps_d = m.scale (second / 20) fps_d fps_n

-- 50 * GST_MSECOND.
abbrev pub far : ℕ
far = 50_000_000

-- The step from the mapping in use to the next one, at a stream time: the mapped times by both, and the
-- difference that is allowed.
abbrev pub nearer : ℕ → ℕ → ℕ → ℕ → TimeMapping → TimeMapping
nearer stream_time expected new_calculated limit t = record t {
  b = if ltb expected new_calculated then u64 (expected + limit) else expected - limit;
  xbase = stream_time;
}

abbrev pub distance : ℕ → ℕ → ℕ
distance new_calculated expected =
    if ltb expected new_calculated then new_calculated - expected else expected - new_calculated

module _ (m : ClockMath) (regression : List (ℕ × ℕ) → Option TimeMapping) where
  -- A frame whose times are a sample.
  unfoldable pub sample : ℕ → ℕ → ℕ → TimeWindow → TimeWindow
  sample fps stream_time capture_time w =
      let s =
        first_mapping stream_time capture_time
          (turn_window fps (add_sample stream_time capture_time w)) in
      if s.window_filled then set_next (regression (take s.window_size s.times)) s else s

  -- The part for a mapping that is pending.
  unfoldable pub follow : ℕ → ℕ → ℕ → Bool → TimeWindow → TimeWindow
  follow fps_n fps_d stream_time discont w =
      let expected = m.adjust stream_time w.current_time_mapping in
      let new_calculated = m.adjust stream_time w.next_time_mapping in
      let diff = distance new_calculated expected in
      let limit = max_diff m fps_n fps_d in
      if not discont && (ltb limit diff && ltb diff far)
      then record w {
        current_time_mapping =
            nearer stream_time expected new_calculated limit w.current_time_mapping;
      }
      else record w {
        current_time_mapping = w.next_time_mapping;
        next_time_mapping_pending = false;
      }

  unfoldable pub take_sample : ℕ → ℕ → ℕ → ℕ → TimeWindow → TimeWindow
  take_sample fps_n fps_d stream_time capture_time w =
      if w.window_skip_count == 0
      then sample (fps_of fps_n fps_d) stream_time capture_time w
      else record w { window_skip_count = next_count w.window_skip w.window_skip_count }

  -- The call, for the frame rate of `src->info`.
  unfoldable pub update_time_mapping : ℕ → ℕ → ℕ → ℕ → Bool → TimeWindow → TimeWindow
  update_time_mapping fps_n fps_d capture_time stream_time discont w =
      let s = take_sample fps_n fps_d stream_time capture_time w in
      if s.next_time_mapping_pending then follow fps_n fps_d stream_time discont s else s
