-- ===== src/VideoSource/Receive.antt =====
-- `gst_aja_video_src_got_frame` and `gst_aja_video_src_video_callback` of
-- gst-plugin/aja/gstajavideosrc.cpp. A call is one step here: the capture thread makes all of them, and the
-- frames of zeros that tell of the signal are put into the queue with no lock. The input has its device object,
-- so that a buffer that is given up is always given back.
pub mod Signal
pub mod Oldest
pub mod Sync
use ntv2_gst.Prelude.{
  ℕ, ◌+◌, ◌-◌, ◌*◌, ◌/◌, ◌^◌, Bool, true, false, not, ◌&&◌, ◌||◌, ◌==◌, ltb, leb, if◌then◌else◌,
  Option, none, some, List, [], ◌∷◌, ◌++◌, length,
}
use ntv2_gst.Mode.Defs.{Mode}
use ntv2_gst.Capture.Worker.{VideoBuff, u32, u64}
use ntv2_gst.Audio.Defs.{TimeMapping, ClockMath, clock_time_none, second}
use ntv2_gst.VideoSource.Defs.{
  SignalChange, no_change, got_signal, recovered_signal, lost_signal, SignalState, signal_unknown,
  signal_lost, signal_available, Frame, marker, TimeWindow, AjaVideoSrc,
}
use ntv2_gst.VideoSource.Mapping.{update_time_mapping}

-- What the call reads: the base time, `g_get_real_time`, and the time of the pipeline's clock.
pub record Clocks : Type 0 where
  pub base_time : ℕ
  pub now_sys : ℕ
  pub now_pipeline : ℕ

-- The time since the capture, if it is sensible.
abbrev pub capture_delay : ℕ → ℕ → ℕ
capture_delay now_sys capture_sys =
    if leb capture_sys now_sys && ltb (now_sys - capture_sys) 1_000_000
    then now_sys - capture_sys
    else 0

abbrev after : ℕ → ℕ → ℕ
after a b = if ltb b a then a - b else 0

-- The capture's time on the pipeline's clock, for the time stamp of the buffer.
unfoldable pub capture_pipeline : Clocks → ℕ → ℕ
capture_pipeline c time_stamp =
    after (after c.now_pipeline (capture_delay c.now_sys (time_stamp / 10))) c.base_time

-- What a call leaves, and the buffers that it has given back.
pub record Got : Type 0 where
  pub src : AjaVideoSrc
  pub released : List VideoBuff

-- A frame of zeros, for the streaming thread.
abbrev pub push_marker : SignalChange → AjaVideoSrc → AjaVideoSrc
push_marker change src =
    if src.flushing
    then src
    else record src { current_frames = src.current_frames ++ marker change ∷ [] }

abbrev pub is_lost : SignalState → Bool
is_lost signal_lost = true
is_lost _ = false

abbrev pub is_available : SignalState → Bool
is_available signal_available = true
is_available _ = false

-- The branch without a signal.
unfoldable pub lose_signal : AjaVideoSrc → AjaVideoSrc
lose_signal src =
    if is_lost src.signal_state
    then src
    else push_marker lost_signal (record src { signal_state = signal_lost })

-- The branch for a signal, with `had_signal`.
unfoldable pub find_signal : ℕ → VideoBuff → AjaVideoSrc → AjaVideoSrc × Bool
find_signal capture_time b src =
    let from = λ (s : AjaVideoSrc). record s {
      discont_time = capture_time;
      discont_frame_number = b.frame_number;
    } in
    if is_available src.signal_state
    then (if src.discont_time == clock_time_none then from src else src, true)
    else (
      from (
          push_marker (if is_lost src.signal_state then recovered_signal else got_signal)
            (record src { signal_state = signal_available })),
      false,
    )

-- The loop over the oldest frames, with its variables.
pub record Dropping : Type 0 where
  pub queue : List Frame
  pub signal_change : SignalChange
  pub skipped_frames : ℕ
  pub skip_from : ℕ
  pub skip_to : ℕ
  pub released : List VideoBuff

-- "We need to remember if we got signal back here at some point".
abbrev pub remember : SignalChange → SignalChange → SignalChange
remember recovered_signal kept = recovered_signal
remember got_signal recovered_signal = recovered_signal
remember got_signal kept = got_signal
remember _ kept = kept

abbrev pub drop_buff : ℕ → ℕ → Option VideoBuff → Dropping → Dropping
drop_buff skipped_last capture_time none d = d
drop_buff skipped_last capture_time (some b) d = record d {
  skipped_frames = u32 (d.skipped_frames + 1);
  skip_from = if d.skipped_frames == 0 && skipped_last == 0 then capture_time else d.skip_from;
  skip_to = capture_time;
  released = d.released ++ b ∷ [];
}

abbrev pub drop_one : ℕ → Frame → Dropping → Dropping
drop_one skipped_last f d =
    drop_buff skipped_last f.capture_time f.video_buff
      (record d { signal_change = remember f.signal_change d.signal_change })

-- `while (length (current_frames) >= queue_size)`. A queue size is at least 1, so that the loop ends with
-- the queue at the latest.
unfoldable pub drop_old : ℕ → ℕ → List Frame → Dropping → Dropping
drop_old queue_size skipped_last [] d = record d { queue = [] }
drop_old queue_size skipped_last (f ∷ fs) d =
    let rest = drop_old queue_size skipped_last fs (drop_one skipped_last f d) in
    if leb queue_size (length (f ∷ fs)) then rest else record d { queue = f ∷ fs }

abbrev pub fresh : AjaVideoSrc → Dropping
fresh src = record {
  queue = [];
  signal_change = no_change;
  skipped_frames = 0;
  skip_from = src.skip_from_timestamp;
  skip_to = src.skip_to_timestamp;
  released = [];
}

-- "Write the GOT_SIGNAL change into the oldest frame again".
abbrev pub tell_head : SignalChange → List Frame → List Frame
tell_head no_change fs = fs
tell_head told [] = []
tell_head told (f ∷ fs) = record f { signal_change = told } ∷ fs

abbrev pub frame_of : AjaVideoSrc → VideoBuff → ℕ → ℕ → Bool → Frame
frame_of src b timestamp stream_time had_signal = record {
  signal_change = no_change;
  video_buff = some b;
  capture_time = timestamp;
  stream_time = stream_time;
  mode = src.mode_enum;
  first_buffer = not had_signal;
}

-- `videoBuff->droppedChanged = true`, for the first frame behind dropped ones.
abbrev pub mark_if : Bool → VideoBuff → VideoBuff
mark_if c b = if c then record b { dropped_changed = true } else b

-- Under the lock, not flushing: drop what is too old, account for it, and queue the new frame.
unfoldable pub enqueue : AjaVideoSrc → VideoBuff → ℕ → ℕ → Bool → Got
enqueue src b timestamp stream_time had_signal =
    let d = drop_old src.settings.queue_size src.skipped_last src.current_frames (fresh src) in
    let skipped_before = d.skipped_frames == 0 && ltb 0 src.skipped_last in
    record {
      src = record src {
        current_frames =
            tell_head d.signal_change d.queue
            ++ frame_of src (mark_if skipped_before b) timestamp stream_time had_signal ∷ [];
        skipped_overall =
            if skipped_before
            then u64 (src.skipped_overall + src.skipped_last)
            else src.skipped_overall;
        skipped_last = u32 ((if skipped_before then 0 else src.skipped_last) + d.skipped_frames);
        skip_from_timestamp = d.skip_from;
        skip_to_timestamp = d.skip_to;
      };
      released = d.released;
    }

-- `first_time`, which the first frame sets.
abbrev pub set_first : ℕ → AjaVideoSrc → AjaVideoSrc
set_first stream_time src =
    if src.first_time == clock_time_none then record src { first_time = stream_time } else src

-- Whether the frame lies in the time to skip after the start.
abbrev pub skips : AjaVideoSrc → ℕ → Bool
skips src stream_time =
    ltb 0 src.settings.skip_first_time
    && ltb (u64 (stream_time + 2 ^ 64 - src.first_time)) src.settings.skip_first_time

module _ (m : ClockMath) where
  -- The time of a frame in the stream, from the last discontinuity.
  abbrev pub stream_time_of : Mode → AjaVideoSrc → ℕ → ℕ
  stream_time_of mode src frame_number = u64 (
      src.discont_time
      + m.scale (u64 (frame_number + 2 ^ 64 - src.discont_frame_number)) (mode.fps_d * second)
          mode.fps_n)

  abbrev pub timestamp_of : AjaVideoSrc → ℕ → ℕ
  timestamp_of src stream_time =
      if src.settings.output_stream_time
      then stream_time
      else m.adjust stream_time src.window.current_time_mapping

module _ (m : ClockMath) (regression : List (ℕ × ℕ) → Option TimeMapping) where
  -- The part behind the signal's, for a frame with its stream time.
  unfoldable pub receive : ℕ → ℕ → VideoBuff → Bool → AjaVideoSrc → Got
  receive capture_time stream_time b had_signal src =
      let t = set_first stream_time src in
      let u : AjaVideoSrc = record t {
        window =
            update_time_mapping m regression t.info.fps_n t.info.fps_d capture_time stream_time
              b.dropped_changed t.window;
      } in
      if skips t stream_time
      then record { src = t; released = b ∷ [] }
      else if u.flushing
      then record { src = u; released = b ∷ [] }
      else enqueue u b (timestamp_of m u stream_time) stream_time had_signal

  unfoldable pub got_frame : Mode → Clocks → Option VideoBuff → AjaVideoSrc → Got
  got_frame mode c none src = record { src = lose_signal src; released = [] }
  got_frame mode c (some b) src =
      let capture_time = capture_pipeline c b.time_stamp in
      let f = find_signal capture_time b src in
      if b.have_signal
      then receive capture_time (stream_time_of m mode f.0 b.frame_number) b f.1 f.0
      else record { src = lose_signal src; released = b ∷ [] }

  -- The callback, for `video_enabled`: what it leaves, and whether it takes the buffer.
  unfoldable pub video_callback : Bool → Mode → Clocks → Option VideoBuff → AjaVideoSrc → Got × Bool
  video_callback video_enabled mode c b src =
      let got = got_frame mode c b src in
      if video_enabled then (got, true) else (record { src = src; released = [] }, false)
