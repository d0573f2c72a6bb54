-- ===== src/Capture/Worker.antt =====
-- One round of the capture loop `NTV2GstAV::ACInputWorker` of gst-plugin/aja/gstntv2.cpp. What the round
-- reads from the device, the pools and the callbacks is the record `Tick`; what it does to the outside is
-- the list of its `Action`s, in order. The mapping of buffers and the RDMA locks around the transfer, and
-- the log messages, are left out.
mod State
pub mod Drops
pub mod History
pub mod Numbers
pub mod SignalLoss
pub mod Handshake
pub use State.*
use ntv2_gst.Prelude.{
  ℕ, ◌+◌, ◌-◌, ◌*◌, ◌/◌, ◌%◌, ◌^◌, Bool, true, false, not, ◌&&◌, ◌||◌, ◌==◌, ltb, if◌then◌else◌,
  Option, none, some, List, [], ◌∷◌, ◌++◌,
}
use ntv2_gst.Video.Format.{VideoFormat, VideoFormat-discrete}
use ntv2_gst.Capture.Defs.{Av, TcIndex, is_sdi1}
use ntv2_gst.Capture.Formats.{link_format}
use ntv2_gst.Capture.Timecode.{tc_index_for, enables_ltc, tc_changed}
use ntv2_gst.Capture.Vpid.{Color, decode_vpid}

-- The timecode source, chosen anew when the configured mode has changed.
unfoldable pub update_timecode : Av → Worker → Worker × List Action
update_timecode av w =
    if tc_changed w.configured_tc_index av.timecode_mode
    then (
      record w {
        configured_tc_index = some av.timecode_mode;
        tc_index = some (tc_index_for av.input_channel av.timecode_mode);
      },
      if enables_ltc av.timecode_mode then set_ltc_input_enable ∷ [] else [],
    )
    else (w, [])

abbrev same_format : VideoFormat → VideoFormat → Bool
same_format f g = elim (VideoFormat-discrete f g) [ yes _ ↦ true | no _ ↦ false ]

-- `haveSignal`, by the expected format and that of one of its links.
unfoldable pub signal_found : Av → VideoFormat → Bool
signal_found av input =
    let effective : VideoFormat =
      if av.quad && is_sdi1 av.video_source then link_format av.video_format else av.video_format in
    same_format effective input || same_format av.video_format input

-- The accounting of the driver's counter of dropped frames.
unfoldable pub count_drops : ℕ → Worker → Worker
count_drops dropped w = if w.last_dropped_frames == dropped then w else record w {
  dropped_frames = u64 (
      w.dropped_frames
      + (if ltb dropped w.last_dropped_frames
          then u32 ((2 ^ 32 - 1 - w.last_dropped_frames) + dropped)
          else dropped - w.last_dropped_frames));
  last_dropped_frames = dropped;
  dropped_frames_now = true;
}

-- The bytes of VANC above the picture, for the geometry and the bit depth.
unfoldable pub vanc_offset : Geometry → ℕ → ℕ
vanc_offset fg_1920x1112 bits = if bits == 8 then 32 * 1920 * 2 else 32 * 1920 * 16 / 6
vanc_offset fg_1280x740 bits = if bits == 8 then 20 * 1280 * 2 else 20 * 1296 * 16 / 6
vanc_offset fg_other bits = 0

abbrev pub valid_vanc : Geometry → Bool
valid_vanc fg_other = false
valid_vanc _ = true

-- A timecode of all ones is none.
abbrev pub valid_time_code : Option Rp188 → Option Rp188
valid_time_code none = none
valid_time_code (some t) =
    if not (t.dbb == 0xffffffff) || (not (t.low == 0xffffffff) || not (t.high == 0xffffffff))
    then some t
    else none

unfoldable pub video_buff : Av → Worker → Tick → VideoBuff
video_buff av w t = record {
  have_signal = w.have_signal;
  video_data_size = u32 t.video_size;
  offset = vanc_offset t.geometry av.bit_depth;
  size = u64 (u32 t.video_size + 2 ^ 64 - vanc_offset t.geometry av.bit_depth);
  ancillary = valid_vanc t.geometry;
  last_frame = av.last_frame;
  time_stamp = t.frame_time;
  field_count = t.field_count % 2 ^ 8;
  frame_number = u64 (w.processed_frames + w.dropped_frames);
  frames_processed = u64 (w.processed_frames + 1);
  frames_dropped = w.dropped_frames;
  dropped_changed = w.dropped_frames_now;
  time_code = valid_time_code (t.time_code w.tc_index);
  color = decode_vpid (is_sdi1 av.video_source) t.vpid;
}

unfoldable pub audio_buff : Av → Worker → Tick → AudioBuff
audio_buff av w t = record {
  have_signal = w.have_signal;
  audio_data_size = t.audio_size;
  last_frame = av.last_frame;
  time_stamp = t.frame_time;
  frame_number = u32 (w.processed_frames + w.dropped_frames);
  frames_processed = u64 (w.processed_frames + 1);
  frames_dropped = w.dropped_frames;
  dropped_changed = w.dropped_frames_now;
}

-- How a round ends: with the next one, or by leaving the loop.
pub data Control : Type 0 where
  continues breaks : Control

pub record Round : Type 0 where
  pub av : Av
  pub worker : Worker
  pub actions : List Action
  pub control : Control

-- `DoCallback` makes the call only if a callback is set.
abbrev called : Bool → Action → List Action
called is_set call = if is_set then call ∷ [] else []

-- A frame is handed to a callback, and released if none takes it.
abbrev handed : Bool → Bool → Action → Action → List Action
handed is_set taken call release =
    if is_set then (if taken then call ∷ [] else call ∷ release ∷ []) else release ∷ []

-- The branch for a frame that waits on the device.
unfoldable pub deliver : Av → Worker → Tick → Round
deliver av w t =
    let video = video_buff av w t in
    let audio = audio_buff av w t in
    record {
      av = record av {
        last_frame_input = av.last_frame_input || av.last_frame;
        last_frame_video_out = av.last_frame_video_out || av.last_frame;
        last_frame_audio_out = av.last_frame_audio_out || av.last_frame;
      };
      worker = record w {
        iterations_without_frame = 0;
        processed_frames = u64 (w.processed_frames + 1);
        dropped_frames_now = false;
      };
      actions =
          transfer
            ∷ handed av.video_callback t.video_taken (video_callback (some video))
                (release_video video)
          ++ handed av.audio_callback t.audio_taken (audio_callback (some audio))
              (release_audio audio);
      control = continues;
    }

-- The branch for a round without a frame.
unfoldable pub idle : Av → Worker → Round
idle av w =
    if av.last_frame
    then record {
      av = record av { last_frame_video_out = true; last_frame_audio_out = true };
      worker = w;
      actions = [];
      control = breaks;
    }
    else if w.have_signal && ltb w.iterations_without_frame 32
    then record {
      av = av;
      worker = record w { iterations_without_frame = w.iterations_without_frame + 1 };
      actions = wait_for_interrupt ∷ [];
      control = continues;
    }
    else record {
      av = av;
      worker = w;
      actions =
          called av.video_callback (video_callback none)
          ++ (called av.audio_callback (audio_callback none) ++ sleep ∷ []);
      control = continues;
    }

-- The variables of the loop as the branches find them.
unfoldable pub prepare : Av → Worker → Tick → Worker
prepare av w t =
    let w1 = (update_timecode av w).0 in
    count_drops t.frames_dropped (record w1 { have_signal = signal_found av t.input_format })

abbrev pub frame_waits : Tick → Bool
frame_waits t = t.running && ltb 1 t.buffer_level

abbrev branch : Av → Worker → Tick → Round
branch av w t = if frame_waits t then deliver av w t else idle av w

-- A round of `while (!mGlobalQuit)`.
unfoldable pub round : Av → Worker → Tick → Round
round av w t =
    let rest = branch av (prepare av w t) t in
    record rest { actions = (update_timecode av w).1 ++ rest.actions }

-- What other threads do to the object between two rounds: `Quit`, in its two steps,
-- `UpdateTimecodeIndex` and `SetCallback`.
pub data Interference : Type 0 where
  nothing begin_quit finish_quit : Interference
  update_timecode_index : TcIndex → Interference
  set_callbacks : Bool → Bool → Interference

abbrev pub interfere : Interference → Av → Av
interfere nothing av = av
interfere begin_quit av = record av { last_frame = true }
interfere finish_quit av = record av { global_quit = true; started = false }
interfere (update_timecode_index m) av = record av { timecode_mode = m }
interfere (set_callbacks v a) av = record av { video_callback = v; audio_callback = a }

-- What a round did, and what the rounds behind it do if there are any.
abbrev pub after_round : Control → List Action × Av → List Action × Av → List Action × Av
after_round breaks here rest = here
after_round continues here rest = (here.0 ++ rest.0, rest.1)

-- The loop over a history of interferences and readings: what it did, and the object at its end. It ends
-- early when the object is told to quit or a round breaks.
unfoldable pub work : Av → Worker → List (Interference × Tick) → List Action × Av
work av w [] = ([], av)
work av w ((i, t) ∷ rest) =
    let av' = interfere i av in
    let r = round av' w t in
    if av'.global_quit
    then ([], av')
    else after_round r.control (r.actions, r.av) (work r.av r.worker rest)
