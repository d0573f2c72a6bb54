-- ===== src/Video/Nominal.antt =====
-- What the name of a video format says of it: the frame rate as a fraction, and the raster. An
-- interlaced format is named after its fields, two to a frame. These are no functions of the plugin;
-- its tables are compared with them.
use ntv2_gst.Prelude.{ℕ, Option, none, some}
use ntv2_gst.Video.Format.{VideoFormat}

pub record Rate : Type 0 where
  pub num : ℕ
  pub den : ℕ

pub record Size : Type 0 where
  pub width : ℕ
  pub height : ℕ

abbrev fps : ℕ → ℕ → Option Rate
fps n d = some (record { num = n; den = d })

abbrev pub nominal_rate : VideoFormat → Option Rate
nominal_rate VideoFormat.format_1080i_5000 = fps 25 1
nominal_rate VideoFormat.format_1080i_5994 = fps 30000 1001
nominal_rate VideoFormat.format_1080i_6000 = fps 30 1
nominal_rate VideoFormat.format_1080p_2398 = fps 24000 1001
nominal_rate VideoFormat.format_1080p_2400 = fps 24 1
nominal_rate VideoFormat.format_1080p_2500 = fps 25 1
nominal_rate VideoFormat.format_1080p_2997 = fps 30000 1001
nominal_rate VideoFormat.format_1080p_2k_2398 = fps 24000 1001
nominal_rate VideoFormat.format_1080p_2k_2400 = fps 24 1
nominal_rate VideoFormat.format_1080p_2k_2500 = fps 25 1
nominal_rate VideoFormat.format_1080p_2k_2997 = fps 30000 1001
nominal_rate VideoFormat.format_1080p_2k_3000 = fps 30 1
nominal_rate VideoFormat.format_1080p_2k_4795_a = fps 48000 1001
nominal_rate VideoFormat.format_1080p_2k_4800_a = fps 48 1
nominal_rate VideoFormat.format_1080p_2k_5000_a = fps 50 1
nominal_rate VideoFormat.format_1080p_2k_5994_a = fps 60000 1001
nominal_rate VideoFormat.format_1080p_2k_6000_a = fps 60 1
nominal_rate VideoFormat.format_1080p_3000 = fps 30 1
nominal_rate VideoFormat.format_1080p_5000_a = fps 50 1
nominal_rate VideoFormat.format_1080p_5000_b = fps 50 1
nominal_rate VideoFormat.format_1080p_5994_a = fps 60000 1001
nominal_rate VideoFormat.format_1080p_5994_b = fps 60000 1001
nominal_rate VideoFormat.format_1080p_6000_a = fps 60 1
nominal_rate VideoFormat.format_1080p_6000_b = fps 60 1
nominal_rate VideoFormat.format_3840x2160p_2398 = fps 24000 1001
nominal_rate VideoFormat.format_3840x2160p_2400 = fps 24 1
nominal_rate VideoFormat.format_3840x2160p_2500 = fps 25 1
nominal_rate VideoFormat.format_3840x2160p_2997 = fps 30000 1001
nominal_rate VideoFormat.format_3840x2160p_3000 = fps 30 1
nominal_rate VideoFormat.format_3840x2160p_5000 = fps 50 1
nominal_rate VideoFormat.format_3840x2160p_5994 = fps 60000 1001
nominal_rate VideoFormat.format_3840x2160p_6000 = fps 60 1
nominal_rate VideoFormat.format_4096x2160p_11988 = fps 120000 1001
nominal_rate VideoFormat.format_4096x2160p_12000 = fps 120 1
nominal_rate VideoFormat.format_4096x2160p_2398 = fps 24000 1001
nominal_rate VideoFormat.format_4096x2160p_2400 = fps 24 1
nominal_rate VideoFormat.format_4096x2160p_2500 = fps 25 1
nominal_rate VideoFormat.format_4096x2160p_2997 = fps 30000 1001
nominal_rate VideoFormat.format_4096x2160p_3000 = fps 30 1
nominal_rate VideoFormat.format_4096x2160p_4795 = fps 48000 1001
nominal_rate VideoFormat.format_4096x2160p_4800 = fps 48 1
nominal_rate VideoFormat.format_4096x2160p_5000 = fps 50 1
nominal_rate VideoFormat.format_4096x2160p_5994 = fps 60000 1001
nominal_rate VideoFormat.format_4096x2160p_6000 = fps 60 1
nominal_rate VideoFormat.format_4x1920x1080p_2398 = fps 24000 1001
nominal_rate VideoFormat.format_4x1920x1080p_2400 = fps 24 1
nominal_rate VideoFormat.format_4x1920x1080p_2500 = fps 25 1
nominal_rate VideoFormat.format_4x1920x1080p_2997 = fps 30000 1001
nominal_rate VideoFormat.format_4x1920x1080p_3000 = fps 30 1
nominal_rate VideoFormat.format_4x1920x1080p_5000 = fps 50 1
nominal_rate VideoFormat.format_4x1920x1080p_5994 = fps 60000 1001
nominal_rate VideoFormat.format_4x1920x1080p_6000 = fps 60 1
nominal_rate VideoFormat.format_4x2048x1080p_11988 = fps 120000 1001
nominal_rate VideoFormat.format_4x2048x1080p_12000 = fps 120 1
nominal_rate VideoFormat.format_4x2048x1080p_2398 = fps 24000 1001
nominal_rate VideoFormat.format_4x2048x1080p_2400 = fps 24 1
nominal_rate VideoFormat.format_4x2048x1080p_2500 = fps 25 1
nominal_rate VideoFormat.format_4x2048x1080p_2997 = fps 30000 1001
nominal_rate VideoFormat.format_4x2048x1080p_3000 = fps 30 1
nominal_rate VideoFormat.format_4x2048x1080p_4795 = fps 48000 1001
nominal_rate VideoFormat.format_4x2048x1080p_4800 = fps 48 1
nominal_rate VideoFormat.format_4x2048x1080p_5000 = fps 50 1
nominal_rate VideoFormat.format_4x2048x1080p_5994 = fps 60000 1001
nominal_rate VideoFormat.format_4x2048x1080p_6000 = fps 60 1
nominal_rate VideoFormat.format_4x3840x2160p_2398 = fps 24000 1001
nominal_rate VideoFormat.format_4x3840x2160p_2400 = fps 24 1
nominal_rate VideoFormat.format_4x3840x2160p_2500 = fps 25 1
nominal_rate VideoFormat.format_4x3840x2160p_2997 = fps 30000 1001
nominal_rate VideoFormat.format_4x3840x2160p_3000 = fps 30 1
nominal_rate VideoFormat.format_4x3840x2160p_5000 = fps 50 1
nominal_rate VideoFormat.format_4x3840x2160p_5994 = fps 60000 1001
nominal_rate VideoFormat.format_4x3840x2160p_6000 = fps 60 1
nominal_rate VideoFormat.format_4x4096x2160p_2398 = fps 24000 1001
nominal_rate VideoFormat.format_4x4096x2160p_2400 = fps 24 1
nominal_rate VideoFormat.format_4x4096x2160p_2500 = fps 25 1
nominal_rate VideoFormat.format_4x4096x2160p_2997 = fps 30000 1001
nominal_rate VideoFormat.format_4x4096x2160p_3000 = fps 30 1
nominal_rate VideoFormat.format_4x4096x2160p_4795 = fps 48000 1001
nominal_rate VideoFormat.format_4x4096x2160p_4800 = fps 48 1
nominal_rate VideoFormat.format_4x4096x2160p_5000 = fps 50 1
nominal_rate VideoFormat.format_4x4096x2160p_5994 = fps 60000 1001
nominal_rate VideoFormat.format_4x4096x2160p_6000 = fps 60 1
nominal_rate VideoFormat.format_525_2398 = fps 24000 1001
nominal_rate VideoFormat.format_525_2400 = fps 24 1
nominal_rate VideoFormat.format_525_5994 = fps 30000 1001
nominal_rate VideoFormat.format_625_5000 = fps 25 1
nominal_rate VideoFormat.format_720p_2398 = fps 24000 1001
nominal_rate VideoFormat.format_720p_2500 = fps 25 1
nominal_rate VideoFormat.format_720p_5000 = fps 50 1
nominal_rate VideoFormat.format_720p_5994 = fps 60000 1001
nominal_rate VideoFormat.format_720p_6000 = fps 60 1
nominal_rate _ = none

abbrev raster : ℕ → ℕ → Option Size
raster w h = some (record { width = w; height = h })

-- A format named 4x is four pictures of the size named, two by two. The names of the standard
-- definition formats count lines with the blanking, and say nothing of the raster.
abbrev pub nominal_size : VideoFormat → Option Size
nominal_size VideoFormat.format_1080i_5000 = raster 1920 1080
nominal_size VideoFormat.format_1080i_5994 = raster 1920 1080
nominal_size VideoFormat.format_1080i_6000 = raster 1920 1080
nominal_size VideoFormat.format_1080p_2398 = raster 1920 1080
nominal_size VideoFormat.format_1080p_2400 = raster 1920 1080
nominal_size VideoFormat.format_1080p_2500 = raster 1920 1080
nominal_size VideoFormat.format_1080p_2997 = raster 1920 1080
nominal_size VideoFormat.format_1080p_2k_2398 = raster 2048 1080
nominal_size VideoFormat.format_1080p_2k_2400 = raster 2048 1080
nominal_size VideoFormat.format_1080p_2k_2500 = raster 2048 1080
nominal_size VideoFormat.format_1080p_2k_2997 = raster 2048 1080
nominal_size VideoFormat.format_1080p_2k_3000 = raster 2048 1080
nominal_size VideoFormat.format_1080p_2k_4795_a = raster 2048 1080
nominal_size VideoFormat.format_1080p_2k_4800_a = raster 2048 1080
nominal_size VideoFormat.format_1080p_2k_5000_a = raster 2048 1080
nominal_size VideoFormat.format_1080p_2k_5994_a = raster 2048 1080
nominal_size VideoFormat.format_1080p_2k_6000_a = raster 2048 1080
nominal_size VideoFormat.format_1080p_3000 = raster 1920 1080
nominal_size VideoFormat.format_1080p_5000_a = raster 1920 1080
nominal_size VideoFormat.format_1080p_5000_b = raster 1920 1080
nominal_size VideoFormat.format_1080p_5994_a = raster 1920 1080
nominal_size VideoFormat.format_1080p_5994_b = raster 1920 1080
nominal_size VideoFormat.format_1080p_6000_a = raster 1920 1080
nominal_size VideoFormat.format_1080p_6000_b = raster 1920 1080
nominal_size VideoFormat.format_3840x2160p_2398 = raster 3840 2160
nominal_size VideoFormat.format_3840x2160p_2400 = raster 3840 2160
nominal_size VideoFormat.format_3840x2160p_2500 = raster 3840 2160
nominal_size VideoFormat.format_3840x2160p_2997 = raster 3840 2160
nominal_size VideoFormat.format_3840x2160p_3000 = raster 3840 2160
nominal_size VideoFormat.format_3840x2160p_5000 = raster 3840 2160
nominal_size VideoFormat.format_3840x2160p_5994 = raster 3840 2160
nominal_size VideoFormat.format_3840x2160p_6000 = raster 3840 2160
nominal_size VideoFormat.format_4096x2160p_11988 = raster 4096 2160
nominal_size VideoFormat.format_4096x2160p_12000 = raster 4096 2160
nominal_size VideoFormat.format_4096x2160p_2398 = raster 4096 2160
nominal_size VideoFormat.format_4096x2160p_2400 = raster 4096 2160
nominal_size VideoFormat.format_4096x2160p_2500 = raster 4096 2160
nominal_size VideoFormat.format_4096x2160p_2997 = raster 4096 2160
nominal_size VideoFormat.format_4096x2160p_3000 = raster 4096 2160
nominal_size VideoFormat.format_4096x2160p_4795 = raster 4096 2160
nominal_size VideoFormat.format_4096x2160p_4800 = raster 4096 2160
nominal_size VideoFormat.format_4096x2160p_5000 = raster 4096 2160
nominal_size VideoFormat.format_4096x2160p_5994 = raster 4096 2160
nominal_size VideoFormat.format_4096x2160p_6000 = raster 4096 2160
nominal_size VideoFormat.format_4x1920x1080p_2398 = raster 3840 2160
nominal_size VideoFormat.format_4x1920x1080p_2400 = raster 3840 2160
nominal_size VideoFormat.format_4x1920x1080p_2500 = raster 3840 2160
nominal_size VideoFormat.format_4x1920x1080p_2997 = raster 3840 2160
nominal_size VideoFormat.format_4x1920x1080p_3000 = raster 3840 2160
nominal_size VideoFormat.format_4x1920x1080p_5000 = raster 3840 2160
nominal_size VideoFormat.format_4x1920x1080p_5994 = raster 3840 2160
nominal_size VideoFormat.format_4x1920x1080p_6000 = raster 3840 2160
nominal_size VideoFormat.format_4x2048x1080p_11988 = raster 4096 2160
nominal_size VideoFormat.format_4x2048x1080p_12000 = raster 4096 2160
nominal_size VideoFormat.format_4x2048x1080p_2398 = raster 4096 2160
nominal_size VideoFormat.format_4x2048x1080p_2400 = raster 4096 2160
nominal_size VideoFormat.format_4x2048x1080p_2500 = raster 4096 2160
nominal_size VideoFormat.format_4x2048x1080p_2997 = raster 4096 2160
nominal_size VideoFormat.format_4x2048x1080p_3000 = raster 4096 2160
nominal_size VideoFormat.format_4x2048x1080p_4795 = raster 4096 2160
nominal_size VideoFormat.format_4x2048x1080p_4800 = raster 4096 2160
nominal_size VideoFormat.format_4x2048x1080p_5000 = raster 4096 2160
nominal_size VideoFormat.format_4x2048x1080p_5994 = raster 4096 2160
nominal_size VideoFormat.format_4x2048x1080p_6000 = raster 4096 2160
nominal_size VideoFormat.format_4x3840x2160p_2398 = raster 7680 4320
nominal_size VideoFormat.format_4x3840x2160p_2400 = raster 7680 4320
nominal_size VideoFormat.format_4x3840x2160p_2500 = raster 7680 4320
nominal_size VideoFormat.format_4x3840x2160p_2997 = raster 7680 4320
nominal_size VideoFormat.format_4x3840x2160p_3000 = raster 7680 4320
nominal_size VideoFormat.format_4x3840x2160p_5000 = raster 7680 4320
nominal_size VideoFormat.format_4x3840x2160p_5994 = raster 7680 4320
nominal_size VideoFormat.format_4x3840x2160p_6000 = raster 7680 4320
nominal_size VideoFormat.format_4x4096x2160p_2398 = raster 8192 4320
nominal_size VideoFormat.format_4x4096x2160p_2400 = raster 8192 4320
nominal_size VideoFormat.format_4x4096x2160p_2500 = raster 8192 4320
nominal_size VideoFormat.format_4x4096x2160p_2997 = raster 8192 4320
nominal_size VideoFormat.format_4x4096x2160p_3000 = raster 8192 4320
nominal_size VideoFormat.format_4x4096x2160p_4795 = raster 8192 4320
nominal_size VideoFormat.format_4x4096x2160p_4800 = raster 8192 4320
nominal_size VideoFormat.format_4x4096x2160p_5000 = raster 8192 4320
nominal_size VideoFormat.format_4x4096x2160p_5994 = raster 8192 4320
nominal_size VideoFormat.format_4x4096x2160p_6000 = raster 8192 4320
nominal_size VideoFormat.format_720p_2398 = raster 1280 720
nominal_size VideoFormat.format_720p_2500 = raster 1280 720
nominal_size VideoFormat.format_720p_5000 = raster 1280 720
nominal_size VideoFormat.format_720p_5994 = raster 1280 720
nominal_size VideoFormat.format_720p_6000 = raster 1280 720
nominal_size _ = none
