-- ===== src/Tests/Data.antt =====
-- The inputs of the tests.
use ntv2_gst.Prelude.{ℕ, Bool, true, false, none, some, [], ◌∷◌, ◌/◌, ◌*◌, ◌^◌, ◌-◌, min}
use ntv2_gst.Video.Format.{VideoFormat}
use ntv2_gst.Mode.Defs.{Mode, row, pal, yuv}
use ntv2_gst.Capture.Defs.{Av, InputSource, SdiInputMode, TcIndex, FrameBufferFormat, AudioSource}
use ntv2_gst.Capture.Init.{InitArgs}
use ntv2_gst.Capture.Routing.Crosspoints.{Formats}
use ntv2_gst.Capture.Routing.{DeviceFacts}
use ntv2_gst.Capture.Worker.{Worker, Tick, Geometry, AudioBuff}
use ntv2_gst.Audio.Defs.{Packet, VideoSrc, Input, AudioSrc, ClockMath}

abbrev pub mode_9 : Mode
mode_9 = row VideoFormat.format_625_5000 720 486 8 yuv 25 1 true true pal

-- An open device on its first SDI input.
abbrev pub test_av : Av
test_av = record {
  is_open = true;
  input_channel = 0;
  video_source = InputSource.sdi1;
  input_source = InputSource.sdi1;
  video_format = VideoFormat.format_1080p_2500;
  pixel_format = FrameBufferFormat.ycbcr_8bit;
  bit_depth = 8;
  is_rgba = false;
  is_422 = true;
  is_auto = false;
  sdi_input_mode = SdiInputMode.single_link;
  quad = false;
  timecode_mode = TcIndex.ltc1;
  capture_tall = false;
  passthrough = false;
  capture_cpu_core = 0;
  use_nvmm = false;
  audio_system = 0;
  audio_source = AudioSource.embedded;
  num_audio_channels = 8;
  last_frame = false;
  last_frame_input = false;
  last_frame_video_out = false;
  last_frame_audio_out = false;
  global_quit = false;
  started = true;
  video_callback = true;
  audio_callback = true;
  video_pool = true;
  audio_pool = true;
  ac_thread = true;
}

-- A round without a frame, and one with one.
abbrev pub test_tick : Bool → ℕ → Tick
test_tick running dropped = record {
  running = running;
  buffer_level = 3;
  frames_dropped = dropped;
  input_format = VideoFormat.format_1080p_2500;
  vpid = 0;
  geometry = Geometry.fg_other;
  video_size = 1000;
  audio_size = 100;
  frame_time = 5;
  field_count = 0;
  time_code = λ _. none;
  video_taken = true;
  audio_taken = true;
}

-- The worker behind the choice of its timecode source.
abbrev pub test_worker : ℕ → Worker
test_worker iterations = record {
  tc_index = some TcIndex.ltc1;
  configured_tc_index = some TcIndex.ltc1;
  have_signal = true;
  iterations_without_frame = iterations;
  processed_frames = 0;
  dropped_frames = 0;
  last_dropped_frames = 4_294_967_295;
  dropped_frames_now = false;
}

abbrev pub test_args : InitArgs
test_args = record {
  video_format = VideoFormat.format_3840x2160p_2500;
  source = InputSource.sdi1;
  bit_depth = 8;
  is_rgba = false;
  is_422 = true;
  is_auto = false;
  sdi_input_mode = SdiInputMode.quad_link_sqd;
  timecode = TcIndex.ltc1;
  capture_tall = false;
  passthrough = false;
  capture_cpu_core = 0;
  use_nvmm = false;
}

-- No format of 8K, and a bidirectional device of eight outputs with nothing connected.
abbrev pub test_formats : Formats
test_formats = record {
  is_uhd2 = λ _. false;
  below_uhd2 = λ _. true;
  is_quad_quad_hfr = λ _. false;
  is_quad_quad = λ _. false;
}

abbrev pub test_device : DeviceFacts
test_device = record {
  can_do_input_source = λ _. true;
  bidirectional_sdi = true;
  num_video_outputs = 8;
  hdmi_rgb = false;
  connections = [];
}

-- Scaling by whole division, cut at the largest 64-bit number, and a clock without calibration.
abbrev pub test_math : ClockMath
test_math = record {
  scale = λ a num den. min (2 ^ 64 - 1) (a * num / den);
  adjust = λ t _. t;
  running_time = λ t. t;
}

abbrev pub test_buff : ℕ → AudioBuff
test_buff n = record {
  have_signal = true;
  audio_data_size = 7680;
  last_frame = false;
  time_stamp = n;
  frame_number = n;
  frames_processed = n;
  frames_dropped = 0;
  dropped_changed = false;
}

abbrev pub test_packet : ℕ → Packet
test_packet n = record {
  audio_buff = test_buff n;
  capture_time = n * 40_000_000;
  stream_time = n * 40_000_000;
  first_buffer = false;
}

abbrev pub test_videosrc : VideoSrc
test_videosrc = record {
  first_time = 0;
  discont_time = 0;
  discont_frame_number = 0;
  skip_first_time = 1_000_000_000;
  output_stream_time = true;
  current_time_mapping = record { xbase = 0; b = 0; num = 1; den = 1 };
  refs = 1;
}

abbrev pub test_input : Input
test_input = record { fps_n = 25; fps_d = 1; videosrc = some test_videosrc }

-- Two queued packets, and room for no more.
abbrev pub test_src : AudioSrc
test_src = record {
  current_packets = test_packet 1 ∷ test_packet 2 ∷ [];
  queue_size = 2;
  flushing = false;
  had_signal = true;
  skipped_last = 0;
  skipped_overall = 0;
  skip_from_timestamp = 0;
  skip_to_timestamp = 0;
  bpf = 4;
  rate = 48_000;
  alignment_threshold = 40_000_000;
  discont_wait = 0;
  next_offset = some 1920;
  discont_time = none;
}
