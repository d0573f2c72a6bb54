-- ===== src/VideoSource/Defs.antt =====
-- The state of the video source element (gst-plugin/aja/gstajavideosrc.h), its frames, and what
-- gst-plugin/aja/gstajavideosrc.cpp enumerates. A GstClockTime is a number below 2 ^ 64, the last of which
-- is GST_CLOCK_TIME_NONE.
use ntv2_gst.Prelude.{ℕ, Bool, false, Option, none, List}
use ntv2_gst.Capture.Defs.{SdiInputMode}
use ntv2_gst.Capture.Vpid.{Color}
use ntv2_gst.Capture.Worker.{VideoBuff}
use ntv2_gst.Audio.Defs.{TimeMapping}

pub data SignalChange : Type 0 where
  no_change got_signal recovered_signal lost_signal : SignalChange

pub data SignalState : Type 0 where
  signal_unknown signal_lost signal_available : SignalState

-- `AjaCaptureVideoFrame`. Its video source is the one whose queue it is in.
pub record Frame : Type 0 where
  pub signal_change : SignalChange
  pub video_buff : Option VideoBuff
  pub capture_time : ℕ
  pub stream_time : ℕ
  pub mode : ℕ
  pub first_buffer : Bool

-- A frame of zeros with a signal change.
abbrev pub marker : SignalChange → Frame
marker change = record {
  signal_change = change;
  video_buff = none;
  capture_time = 0;
  stream_time = 0;
  mode = 0;
  first_buffer = false;
}

-- The members that `gst_aja_video_src_update_time_mapping` reads and writes. A pair of `times` is a stream
-- time with its capture time.
pub record TimeWindow : Type 0 where
  pub times : List (ℕ × ℕ)
  pub window_size : ℕ
  pub window_fill : ℕ
  pub window_filled : Bool
  pub window_skip : ℕ
  pub window_skip_count : ℕ
  pub current_time_mapping : TimeMapping
  pub next_time_mapping : TimeMapping
  pub next_time_mapping_pending : Bool

-- The members of the colorimetry of a `GstVideoInfo`.
pub data Matrix : Type 0 where
  matrix_of_caps matrix_bt601 matrix_bt709 matrix_bt2020 : Matrix

pub data Primaries : Type 0 where
  primaries_of_caps primaries_smpte170m primaries_bt709 primaries_bt2020 : Primaries

pub data Transfer : Type 0 where
  transfer_of_caps transfer_arib_std_b67 transfer_smpte2084 : Transfer

-- `src->info`, where a colour that the source does not set is the one of the caps of the mode. The range
-- is full (0-255) or not (16-235).
pub record VideoInfo : Type 0 where
  pub height : ℕ
  pub fps_n : ℕ
  pub fps_d : ℕ
  pub matrix : Matrix
  pub primaries : Primaries
  pub transfer : Transfer
  pub full_range : Bool

pub data InputMode : Type 0 where
  input_sdi input_hdmi input_analog : InputMode

pub data TimecodeMode : Type 0 where
  vitc1 vitc2 analog_ltc1 analog_ltc2 atc_ltc : TimecodeMode

-- What the user sets.
pub record Settings : Type 0 where
  pub queue_size : ℕ
  pub input_mode : InputMode
  pub sdi_input_mode : SdiInputMode
  pub timecode_mode : TimecodeMode
  pub passthrough : Bool
  pub output_stream_time : Bool
  pub skip_first_time : ℕ
  pub output_cc : Bool
  pub capture_cpu_core : ℕ
  pub use_nvmm : Bool

-- The members of `GstAjaVideoSrc`; `color` is transferCharacteristics, colorimetry and fullRange, and
-- `last_cc_vbi_line` is none for -1.
pub record AjaVideoSrc : Type 0 where
  pub settings : Settings
  pub mode_enum : ℕ
  pub color : Color
  pub info : VideoInfo
  pub flushing : Bool
  pub current_frames : List Frame
  pub last_cc_vbi_line : Option ℕ
  pub skipped_last : ℕ
  pub skipped_overall : ℕ
  pub skip_from_timestamp : ℕ
  pub skip_to_timestamp : ℕ
  pub signal_state : SignalState
  pub first_time : ℕ
  pub discont_time : ℕ
  pub discont_frame_number : ℕ
  pub window : TimeWindow
