-- ===== src/Audio/Defs.antt =====
-- The state of the audio source element (gst-plugin/aja/gstajaaudiosrc.h), of the parts of the input and
-- of the video source that it reads, and its packets. A GstClockTime is a number below 2 ^ 64, the last of
-- which is GST_CLOCK_TIME_NONE; where the code only tests for that, or for the offset -1, it is `none`.
use ntv2_gst.Prelude.{ℕ, ◌-◌, ◌^◌, Bool, Option, List}
use ntv2_gst.Capture.Worker.{AudioBuff}

abbrev pub clock_time_none : ℕ
clock_time_none = 2 ^ 64 - 1

-- GST_SECOND.
abbrev pub second : ℕ
second = 1_000_000_000

-- `AjaCaptureAudioPacket`; only packets with a buffer are queued.
pub record Packet : Type 0 where
  pub audio_buff : AudioBuff
  pub capture_time : ℕ
  pub stream_time : ℕ
  pub first_buffer : Bool

-- The mapping of stream time to pipeline time.
pub record TimeMapping : Type 0 where
  pub xbase : ℕ
  pub b : ℕ
  pub num : ℕ
  pub den : ℕ

-- What the element reads of the video source of the same input; `refs` is its reference count.
pub record VideoSrc : Type 0 where
  pub first_time : ℕ
  pub discont_time : ℕ
  pub discont_frame_number : ℕ
  pub skip_first_time : ℕ
  pub output_stream_time : Bool
  pub current_time_mapping : TimeMapping
  pub refs : ℕ

-- The input: the frame rate of its mode, and its video source if it has one.
pub record Input : Type 0 where
  pub fps_n : ℕ
  pub fps_d : ℕ
  pub videosrc : Option VideoSrc

pub record AudioSrc : Type 0 where
  pub current_packets : List Packet
  pub queue_size : ℕ
  pub flushing : Bool
  pub had_signal : Bool
  pub skipped_last : ℕ
  pub skipped_overall : ℕ
  pub skip_from_timestamp : ℕ
  pub skip_to_timestamp : ℕ
  pub bpf : ℕ  -- info.bpf, bytes for a sample of all channels
  pub rate : ℕ  -- info.rate
  pub alignment_threshold : ℕ
  pub discont_wait : ℕ
  pub next_offset : Option ℕ
  pub discont_time : Option ℕ

-- The functions of GStreamer that the element computes times with: `gst_util_uint64_scale`, which
-- `gst_util_uint64_scale_int` agrees with, `gst_clock_adjust_with_calibration`, and
-- `gst_segment_to_running_time` for the element's segment.
pub record ClockMath : Type 0 where
  pub scale : ℕ → ℕ → ℕ → ℕ
  pub adjust : ℕ → TimeMapping → ℕ
  pub running_time : ℕ → ℕ
