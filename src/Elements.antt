-- ===== src/Elements.antt =====
-- The states of the two source elements and the input that they share: `start`, `stop`, `close` and the
-- changes of state of gst-plugin/aja/gstajavideosrc.cpp and gst-plugin/aja/gstajaaudiosrc.cpp, and
-- `gst_aja_video_src_start_streams`. What is done to the device and the threads is a list of effects.
pub mod Opening
pub mod States
use ntv2_gst.Prelude.{
  ℕ, Bool, true, false, not, ◌&&◌, ◌||◌, if◌then◌else◌, Option, none, some, List, [], ◌∷◌, ◌++◌,
}
use ntv2_gst.Video.Format.{VideoFormat}
use ntv2_gst.Mode.Defs.{Mode}
use ntv2_gst.Capture.Defs.{Av}
use ntv2_gst.Capture.Lifecycle.{Effect, run, quit}
use ntv2_gst.Capture.Worker.{VideoBuff, AudioBuff}
use ntv2_gst.Audio.Defs.{AudioSrc, clock_time_none}
use ntv2_gst.Audio.Output
use ntv2_gst.VideoSource.Defs.{TimeWindow, AjaVideoSrc, signal_unknown}
use ntv2_gst.VideoSource.Output.{empty_queue}

-- `GstAjaInput`. Of the elements it is kept whether they are there.
pub record Shared : Type 0 where
  pub av : Option Av
  pub mode : Option Mode
  pub started : Bool
  pub audiosrc : Bool
  pub audio_enabled : Bool
  pub videosrc : Bool
  pub video_enabled : Bool
  pub start_streams : Bool  -- whether the function is set

-- The input with its video source.
pub record Elements : Type 0 where
  pub input : Shared
  pub video : AjaVideoSrc

-- What is behind a call.
pub record Changed : Type 0 where
  pub elements : Elements
  pub effects : List Effect

abbrev pub unchanged : Elements → Changed
unchanged e = record { elements = e; effects = [] }

-- The members that start afresh; the pending flag of the next mapping is not among them.
abbrev pub reset_window : TimeWindow → TimeWindow
reset_window w = record w {
  window_fill = 0;
  window_filled = false;
  window_skip = 1;
  window_skip_count = 0;
  current_time_mapping = record { xbase = 0; b = 0; num = 1; den = 1 };
  next_time_mapping = record { xbase = 0; b = 0; num = 1; den = 1 };
}

abbrev pub reset_streams : AjaVideoSrc → AjaVideoSrc
reset_streams src = record src {
  signal_state = signal_unknown;
  discont_time = clock_time_none;
  discont_frame_number = 0;
  first_time = clock_time_none;
  window = reset_window src.window;
}

-- The rest of `gst_aja_audio_src_start`, for whether the caps could be set, when audio was not enabled: the
-- element, and whether the start succeeds.
unfoldable pub audio_reset : Bool → AudioSrc → AudioSrc × Bool
audio_reset caps_set src =
    if caps_set
    then (
      record src {
        skipped_last = 0;
        skipped_overall = 0;
        skip_from_timestamp = clock_time_none;
        skip_to_timestamp = clock_time_none;
      },
      true,
    )
    else (src, false)

-- Skipped frames are counted from the start.
abbrev pub reset_skipped : AjaVideoSrc → AjaVideoSrc
reset_skipped src = record src {
  skipped_last = 0;
  skipped_overall = 0;
  skip_from_timestamp = clock_time_none;
  skip_to_timestamp = clock_time_none;
}

-- Whether the streams can start, but for the state of the element.
abbrev pub all_enabled : Shared → Bool
all_enabled input = input.video_enabled && (not input.audiosrc || input.audio_enabled)

-- What a start makes of the video source behind the streams.
abbrev pub and_reset : Option Changed → Option Changed
and_reset none = none
and_reset (some r) =
    let after = r.elements in
    some (record r { elements = record after { video = reset_skipped after.video } })

-- The calls are none where the program follows a NULL pointer or runs into an assertion.
module _ (nvmm_enabled : Bool) (is_large : VideoFormat → Bool) where
  abbrev pub run_av : Option Av → Elements → Option Changed
  run_av none e = none
  run_av (some av) e =
      let r = run nvmm_enabled is_large av in
      let input = e.input in
      some (record {
        elements = record e { input = record input { started = true; av = some r.0 } };
        effects = r.1;
      })

  -- The call, for whether the video source is playing or about to.
  unfoldable pub start_streams_of : Bool → Elements → Option Changed
  start_streams_of playing e =
      if all_enabled e.input && playing
      then run_av e.input.av (record e { video = reset_streams e.video })
      else some (unchanged e)

  -- The call through the input, which may not have the function.
  abbrev pub start_if_set : Bool → Bool → Elements → Option Changed
  start_if_set is_set playing e = if is_set then start_streams_of playing e else some (unchanged e)

  -- The start of a source that is not enabled, for the mode that is found, behind `g_assert (mode != NULL)`.
  abbrev pub enable_video : Bool → Option Mode → Elements → Option Changed
  enable_video playing none e = none
  enable_video playing (some mode) e =
      let input = e.input in
      and_reset (
        start_if_set input.start_streams playing
          (record e { input = record input { mode = some mode; video_enabled = true } }))

  unfoldable pub video_start : Bool → Option Mode → Elements → Option Changed
  video_start playing mode e =
      if e.input.video_enabled then some (unchanged e) else enable_video playing mode e

  unfoldable pub audio_start : Bool → Elements → Option Changed
  audio_start playing e =
      let input = e.input in
      if input.audio_enabled
      then some (unchanged e)
      else start_if_set (input.start_streams && input.videosrc) playing
          (record e { input = record input { audio_enabled = true } })

  -- The part of the change from paused to playing that follows the parent's.
  unfoldable pub paused_to_playing : Elements → Option Changed
  paused_to_playing e = start_if_set e.input.start_streams true e

-- The part of the change from playing to paused that follows the parent's.
abbrev pub playing_to_paused : Elements → Changed
playing_to_paused e =
    let input = e.input in unchanged (record e { input = record input { started = false } })

abbrev set_callbacks_of : (Av → Av) → Option Av → Option Av
set_callbacks_of f none = none
set_callbacks_of f (some av) = some (f av)

-- The part of the change from ready to paused that comes before the parent's, of the video source.
abbrev pub ready_to_paused : Elements → Changed
ready_to_paused e =
    let input = e.input in
    let video = e.video in
    unchanged (record {
      input = record input {
        av = set_callbacks_of (λ (av : Av). record av { video_callback = true }) input.av;
      };
      video = record video { flushing = false };
    })

-- The same of the audio source: whether there is a video source, without which the change fails. The element is
-- changed only if there is one, but for its signal.
unfoldable pub audio_ready_to_paused : Elements → AudioSrc → (Elements × AudioSrc) × Bool
audio_ready_to_paused e src =
    let input = e.input in
    let e' : Elements = record e {
      input = record input {
        av = set_callbacks_of (λ (av : Av). record av { audio_callback = true }) input.av;
      };
    } in
    let src' : AudioSrc = record src { had_signal = false } in
    if input.videosrc
    then ((e', record src' { flushing = false; next_offset = none }), true)
    else ((e', src'), false)

abbrev pub quit_av : (ℕ → Bool) → Option Av → Option Av × List Effect
quit_av reported none = (none, [])
quit_av reported (some av) = let r = quit reported av in (some r.0, r.1)

-- `gst_aja_video_src_stop`, with the buffers that it gives back.
unfoldable pub video_stop : (ℕ → Bool) → Elements → Changed × List VideoBuff
video_stop reported e =
    let input = e.input in
    let q = quit_av reported input.av in
    let drained = empty_queue e.video in
    if input.video_enabled
    then (
      record {
        elements = record {
          input = record input {
            av = set_callbacks_of (λ (av : Av). record av { video_callback = false }) q.0;
            video_enabled = false;
          };
          video = drained.0;
        };
        effects = q.1;
      },
      drained.1,
    )
    else (unchanged (record e { video = drained.0 }), drained.1)

-- `gst_aja_audio_src_stop`, with the buffers that it gives back.
unfoldable pub audio_stop : Elements → AudioSrc → (Elements × AudioSrc) × List AudioBuff
audio_stop e src =
    let input = e.input in
    let drained = Output.stop src in
    let disabled : Elements = record e {
      input = record input {
        av = set_callbacks_of (λ (av : Av). record av { audio_callback = false }) input.av;
        audio_enabled = false;
      };
    } in
    ((if input.audio_enabled then disabled else e, drained.0), drained.1)

-- `gst_aja_video_src_close`: the device object is quit, closed and deleted.
unfoldable pub video_close : (ℕ → Bool) → Elements → Changed
video_close reported e =
    let input = e.input in
    record {
      elements = record e {
        input = record input {
          av = none;
          mode = none;
          video_enabled = false;
          videosrc = false;
          start_streams = false;
        };
      };
      effects = (quit_av reported input.av).1;
    }

-- `gst_aja_audio_src_close`.
abbrev pub audio_close : Elements → Changed
audio_close e =
    let input = e.input in
    unchanged (record e { input = record input { audio_enabled = false; audiosrc = false } })
