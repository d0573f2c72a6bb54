-- ===== src/Capture/Worker/State.antt =====
-- What `NTV2GstAV::ACInputWorker` of gst-plugin/aja/gstntv2.cpp reads in a round, its variables, and the
-- buffers and calls that it makes (the buffers' types are in gst-plugin/aja/gstntv2.h).
use ntv2_gst.Prelude.{ℕ, ◌%◌, ◌^◌, Bool, true, false, Option, none}
use ntv2_gst.Video.Format.{VideoFormat}
use ntv2_gst.Capture.Defs.{TcIndex}
use ntv2_gst.Capture.Vpid.{Color}

abbrev pub u32 : ℕ → ℕ
u32 n = n % 2 ^ 32

abbrev pub u64 : ℕ → ℕ
u64 n = n % 2 ^ 64

-- `NTV2FrameGeometry`, the members of the switch.
pub data Geometry : Type 0 where
  fg_1920x1112 fg_1280x740 fg_other : Geometry

-- `NTV2_RP188`.
pub record Rp188 : Type 0 where
  pub dbb : ℕ
  pub low : ℕ
  pub high : ℕ

-- What one round reads.
pub record Tick : Type 0 where
  pub running : Bool  -- acState is NTV2_AUTOCIRCULATE_RUNNING
  pub buffer_level : ℕ
  pub frames_dropped : ℕ  -- acFramesDropped, uint32
  pub input_format : VideoFormat
  pub vpid : ℕ
  pub geometry : Geometry
  pub video_size : ℕ  -- the size of the mapped video buffer
  pub audio_size : ℕ  -- acAudioTransferSize
  pub frame_time : ℕ
  pub field_count : ℕ
  pub time_code : Option TcIndex → Option Rp188  -- GetInputTimeCode
  pub video_taken : Bool  -- what the video callback returns, if it is set
  pub audio_taken : Bool

-- The variables of the loop. `tc_index` is not set before the first round.
pub record Worker : Type 0 where
  pub tc_index : Option TcIndex
  pub configured_tc_index : Option TcIndex
  pub have_signal : Bool
  pub iterations_without_frame : ℕ
  pub processed_frames : ℕ
  pub dropped_frames : ℕ
  pub last_dropped_frames : ℕ
  pub dropped_frames_now : Bool

abbrev pub new_worker : Worker
new_worker = record {
  tc_index = none;
  configured_tc_index = none;
  have_signal = true;
  iterations_without_frame = 0;
  processed_frames = 0;
  dropped_frames = 0;
  last_dropped_frames = 0;
  dropped_frames_now = false;
}

-- The fields of `AjaVideoBuff` that the round fills.
pub record VideoBuff : Type 0 where
  pub have_signal : Bool
  pub video_data_size : ℕ
  pub offset : ℕ  -- where the buffer starts after the resize
  pub size : ℕ  -- its size after the resize
  pub ancillary : Bool
  pub last_frame : Bool
  pub time_stamp : ℕ
  pub field_count : ℕ
  pub frame_number : ℕ
  pub frames_processed : ℕ
  pub frames_dropped : ℕ
  pub dropped_changed : Bool
  pub time_code : Option Rp188
  pub color : Color

-- The fields of `AjaAudioBuff`; its frame number is a uint32.
pub record AudioBuff : Type 0 where
  pub have_signal : Bool
  pub audio_data_size : ℕ
  pub last_frame : Bool
  pub time_stamp : ℕ
  pub frame_number : ℕ
  pub frames_processed : ℕ
  pub frames_dropped : ℕ
  pub dropped_changed : Bool

pub data Action : Type 0 where
  set_ltc_input_enable : Action
  transfer : Action
  video_callback : Option VideoBuff → Action
  audio_callback : Option AudioBuff → Action
  release_video : VideoBuff → Action
  release_audio : AudioBuff → Action
  wait_for_interrupt : Action
  sleep : Action
