-- ===== src/VideoSource/Output.antt =====
-- `gst_aja_video_src_create`, `gst_aja_video_src_unlock`, `gst_aja_video_src_unlock_stop` and the emptying
-- of the queue in `gst_aja_video_src_stop` of gst-plugin/aja/gstajavideosrc.cpp.
pub mod First
use ntv2_gst.Prelude.{
  ℕ, ◌+◌, Bool, true, false, not, ◌&&◌, ◌||◌, ◌==◌, if◌then◌else◌, Option, none, some, List, [],
  ◌∷◌, ◌++◌,
}
use ntv2_gst.Mode.Defs.{Mode}
use ntv2_gst.Mode.Caps.{Caps, get_caps_raw}
use ntv2_gst.Capture.Worker.{VideoBuff, u64}
use ntv2_gst.Capture.Vpid.{Color}
use ntv2_gst.Audio.Defs.{ClockMath, second}
use ntv2_gst.Audio.Output.{Qos, minus}
use ntv2_gst.VideoSource.Defs.{
  SignalChange, no_change, got_signal, recovered_signal, lost_signal, SignalState, signal_unknown,
  Frame, VideoInfo, AjaVideoSrc,
}
use ntv2_gst.VideoSource.Timecode.{Masks, TimeCode, attach_timecode}
use ntv2_gst.VideoSource.Color.{set_color, same_color}
use ntv2_gst.VideoSource.Vbi.{extract_cc}

-- What is told of the signal: the property's change, and a message.
pub data Notice : Type 0 where
  notify_signal recovered_message lost_message : Notice

abbrev pub notices : SignalChange → List Notice
notices no_change = []
notices got_signal = notify_signal ∷ []
notices recovered_signal = notify_signal ∷ recovered_message ∷ []
notices lost_signal = notify_signal ∷ lost_message ∷ []

-- The loop around `retry`: the frame with its buffer, the queue behind it, and the notices.
pub record Taken : Type 0 where
  pub taken : Option (Frame × VideoBuff)
  pub queue : List Frame
  pub told : List Notice

abbrev pub take_or_retry : Frame → List Frame → Option VideoBuff → Taken → Taken
take_or_retry f fs none rest = record rest { told = notices f.signal_change ++ rest.told }
take_or_retry f fs (some b) rest = record {
  taken = some (f, b);
  queue = fs;
  told = notices f.signal_change;
}

unfoldable pub take_frame : List Frame → Taken
take_frame [] = record { taken = none; queue = []; told = [] }
take_frame (f ∷ fs) = let rest = take_frame fs in take_or_retry f fs f.video_buff rest

-- What `create` returns: the buffer, and what it sets of it. The caps are new ones if the mode or the colour has
-- changed, or if there were none; they are marked for NVMM or not.
pub record Output : Type 0 where
  pub buffer : VideoBuff
  pub timestamp : ℕ
  pub duration : ℕ
  pub interlaced : Bool
  pub tff : Bool
  pub discont : Bool
  pub time_code : Option TimeCode
  pub reference_time : ℕ
  pub qos : Option Qos
  pub new_caps : Option (VideoInfo × Bool)

-- What a call comes to: it waits as long as no frame with a buffer is queued.
pub data Flow : Type 0 where
  flushing waits : Flow
  ok : Output → Flow

-- What a call leaves: the element, what it told of the signal, and the buffers given back.
pub record Created : Type 0 where
  pub src : AjaVideoSrc
  pub told : List Notice
  pub flow : Flow
  pub released : List VideoBuff

-- What the call takes from outside: the masks, whether a timecode is valid, the parser of lines, the info
-- of caps, whether the buffers of the pool are NVMM memory, and whether the pad has caps.
pub record Outside : Type 0 where
  pub masks : Masks
  pub time_code_is_valid : TimeCode → Bool
  pub parse_lines : List ℕ → Bool
  pub info_from_caps : Option Caps → VideoInfo
  pub is_nvmm : Bool
  pub has_current_caps : Bool

unfoldable pub caps_change : Outside → AjaVideoSrc → Frame → VideoBuff → Bool
caps_change o src f b =
    not (src.mode_enum == f.mode) || (not (same_color src.color b.color) || not o.has_current_caps)

abbrev pub new_info : Outside → Frame → VideoBuff → VideoInfo
new_info o f b = set_color b.color (o.info_from_caps (get_caps_raw f.mode o.is_nvmm))

unfoldable pub renegotiate : Outside → Frame → VideoBuff → AjaVideoSrc → AjaVideoSrc
renegotiate o f b src =
    if caps_change o src f b
    then record src {
      mode_enum = f.mode;
      color = b.color;
      info = new_info o f b;
      last_cc_vbi_line = none;
    }
    else src

abbrev pub qos_of : ClockMath → Mode → AjaVideoSrc → Frame → VideoBuff → Option Qos
qos_of m mode src f b =
    if b.dropped_changed
    then some (record {
      running_time = m.running_time f.capture_time;
      stream_time = f.stream_time;
      timestamp = f.capture_time;
      duration = m.scale second mode.fps_d mode.fps_n;
      processed = minus b.frames_processed src.skipped_overall;
      dropped = u64 (b.frames_dropped + src.skipped_overall);
    })
    else none

unfoldable pub output_of : ClockMath → Outside → Mode → AjaVideoSrc → Frame → VideoBuff → Output
output_of m o mode src f b = record {
  buffer = b;
  timestamp = f.capture_time;
  duration = m.scale second mode.fps_d mode.fps_n;
  interlaced = mode.is_interlaced;
  tff = mode.is_interlaced && mode.is_tff;
  discont = f.first_buffer || b.dropped_changed;
  time_code = attach_timecode o.masks o.time_code_is_valid mode b.field_count b.time_code;
  reference_time = f.stream_time;
  qos = qos_of m mode src f b;
  new_caps = if caps_change o src f b then some (new_info o f b, o.is_nvmm) else none;
}

-- The captions, for a buffer with ancillary data.
unfoldable pub add_captions : Outside → Mode → VideoBuff → AjaVideoSrc → AjaVideoSrc
add_captions o mode b src =
    if b.ancillary && src.settings.output_cc
    then record src { last_cc_vbi_line = (extract_cc o.parse_lines mode src.last_cc_vbi_line).0 }
    else src

abbrev pub finish :
    ClockMath → Outside → Mode → AjaVideoSrc → List Notice → Option (Frame × VideoBuff) → Created
finish m o mode src told none = record { src = src; told = told; flow = waits; released = [] }
finish m o mode src told (some (f, b)) = record {
  src = add_captions o mode b (renegotiate o f b src);
  told = told;
  flow = ok (output_of m o mode src f b);
  released = b ∷ [];
}

-- `create`, whose `gst_aja_video_src_start` never fails, on an input with a mode.
unfoldable pub create : ClockMath → Outside → Mode → AjaVideoSrc → Created
create m o mode src =
    let t = take_frame src.current_frames in
    let rest = finish m o mode (record src { current_frames = t.queue }) t.told t.taken in
    if src.flushing then record { src = src; told = []; flow = flushing; released = [] } else rest

abbrev pub buff_list : Option VideoBuff → List VideoBuff
buff_list none = []
buff_list (some b) = b ∷ []

abbrev pub buffs : List Frame → List VideoBuff
buffs [] = []
buffs (f ∷ fs) = buff_list f.video_buff ++ buffs fs

-- These give back the buffers of the queue.
abbrev pub unlock : AjaVideoSrc → AjaVideoSrc
unlock src = record src { flushing = true }

abbrev pub unlock_stop : AjaVideoSrc → AjaVideoSrc × List VideoBuff
unlock_stop src = (record src { flushing = false; current_frames = [] }, buffs src.current_frames)

abbrev pub empty_queue : AjaVideoSrc → AjaVideoSrc × List VideoBuff
empty_queue src =
    (record src { current_frames = []; signal_state = signal_unknown }, buffs src.current_frames)

-- `gst_aja_video_src_finalize`: it takes the frames that are left out of the queue, and gives their buffers
-- back if the input has its device object still, as `aja_capture_video_frame_clear` asks.
abbrev pub finalize : Bool → AjaVideoSrc → AjaVideoSrc × List VideoBuff
finalize has_av src =
    (record src { current_frames = [] }, if has_av then buffs src.current_frames else [])
