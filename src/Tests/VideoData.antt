-- ===== src/Tests/VideoData.antt =====
-- The inputs of the tests of the video source.
use ntv2_gst.Prelude.{ℕ, true, false, Option, none, some, List, [], ◌∷◌, ◌+◌, ◌-◌, ◌%◌, ◌^◌}
use ntv2_gst.Mode.Defs.{Mode}
use ntv2_gst.Capture.Defs.{SdiInputMode}
use ntv2_gst.Capture.Vpid.{unspecified}
use ntv2_gst.Capture.Worker.{VideoBuff}
use ntv2_gst.Audio.Defs.{TimeMapping, ClockMath}
use ntv2_gst.VideoSource.Defs.{
  no_change, got_signal, signal_available, Frame, marker, TimeWindow, VideoInfo, matrix_of_caps,
  primaries_of_caps, transfer_of_caps, InputMode, TimecodeMode, Settings, AjaVideoSrc,
}
use ntv2_gst.VideoSource.Receive.{Clocks}
use ntv2_gst.VideoSource.Timecode.{Masks}
use ntv2_gst.VideoSource.Output.{Outside}
use ntv2_gst.Tests.Data.{mode_9, test_math}

abbrev pub test_video : ℕ → VideoBuff
test_video n = record {
  have_signal = true;
  video_data_size = 1000;
  offset = 0;
  size = 1000;
  ancillary = false;
  last_frame = false;
  time_stamp = n;
  field_count = 0;
  frame_number = n;
  frames_processed = n;
  frames_dropped = 0;
  dropped_changed = false;
  time_code = none;
  color = unspecified;
}

abbrev pub test_frame : ℕ → Frame
test_frame n = record {
  signal_change = no_change;
  video_buff = some (test_video n);
  capture_time = n;
  stream_time = n;
  mode = 9;
  first_buffer = false;
}

abbrev pub identity : TimeMapping
identity = record { xbase = 0; b = 0; num = 1; den = 1 }

-- A mapping that is ahead by 10 milliseconds.
abbrev pub ahead : TimeMapping
ahead = record { xbase = 0; b = 10_000_000; num = 1; den = 1 }

-- A window of two samples, with one taken.
abbrev pub test_window : TimeWindow
test_window = record {
  times = (1, 1) ∷ (2, 2) ∷ [];
  window_size = 2;
  window_fill = 1;
  window_filled = true;
  window_skip = 1;
  window_skip_count = 0;
  current_time_mapping = identity;
  next_time_mapping = ahead;
  next_time_mapping_pending = true;
}

abbrev pub test_settings : Settings
test_settings = record {
  queue_size = 2;
  input_mode = InputMode.input_sdi;
  sdi_input_mode = SdiInputMode.single_link;
  timecode_mode = TimecodeMode.vitc1;
  passthrough = false;
  output_stream_time = false;
  skip_first_time = 0;
  output_cc = true;
  capture_cpu_core = 0;
  use_nvmm = false;
}

abbrev pub test_info : VideoInfo
test_info = record {
  height = 486;
  fps_n = 25;
  fps_d = 1;
  matrix = matrix_of_caps;
  primaries = primaries_of_caps;
  transfer = transfer_of_caps;
  full_range = false;
}

-- A source with a marker and a frame in its queue.
abbrev pub test_element : AjaVideoSrc
test_element = record {
  settings = test_settings;
  mode_enum = 9;
  color = unspecified;
  info = test_info;
  flushing = false;
  current_frames = marker got_signal ∷ test_frame 1 ∷ [];
  last_cc_vbi_line = none;
  skipped_last = 0;
  skipped_overall = 0;
  skip_from_timestamp = 0;
  skip_to_timestamp = 0;
  signal_state = signal_available;
  first_time = 0;
  discont_time = 0;
  discont_frame_number = 0;
  window = test_window;
}

abbrev pub test_clocks : Clocks
test_clocks = record { base_time = 0; now_sys = 100; now_pipeline = 1000 }

abbrev pub no_regression : List (ℕ × ℕ) → Option TimeMapping
no_regression times = none

-- A clock whose calibration shifts the time by the difference of its two base times.
abbrev pub shifting : ClockMath
shifting = record test_math { adjust = λ t c. (c.b + t - c.xbase) % 2 ^ 64 }

abbrev pub test_masks : Masks
test_masks = record {
  frame_units = 0xF;
  frame_tens = 0x300;
  second_units = 0xF0000;
  second_tens = 0x7000000;
  minutes_units = 0xF;
  minutes_tens = 0x700;
  hour_units = 0xF0000;
  hour_tens = 0x3000000;
}

abbrev pub test_outside : Outside
test_outside = record {
  masks = test_masks;
  time_code_is_valid = λ _. true;
  parse_lines = λ _. false;
  info_from_caps = λ _. test_info;
  is_nvmm = false;
  has_current_caps = true;
}

abbrev pub mode_720 : Mode
mode_720 = record mode_9 { height = 720 }
