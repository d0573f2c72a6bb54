-- ===== src/Video/Format.antt =====
-- The video formats of the NTV2 SDK (`NTV2VideoFormat`) that gst-plugin/aja names: in the mode table of
-- gstaja.cpp and in the format switches of gstntv2.cpp. The enumeration itself belongs to the SDK;
-- `format_other` stands for each of its members that the plugin does not name.
use ntv2_gst.Prelude.{ℕ}
use native.Mathlib.Decide.{ℕ_discrete}

pub data VideoFormat : Type 0 where
  format_unknown : VideoFormat
  format_1080i_5000 : VideoFormat
  format_1080i_5994 : VideoFormat
  format_1080i_6000 : VideoFormat
  format_1080p_2398 : VideoFormat
  format_1080p_2400 : VideoFormat
  format_1080p_2500 : VideoFormat
  format_1080p_2997 : VideoFormat
  format_1080p_2k_2398 : VideoFormat
  format_1080p_2k_2400 : VideoFormat
  format_1080p_2k_2500 : VideoFormat
  format_1080p_2k_2997 : VideoFormat
  format_1080p_2k_3000 : VideoFormat
  format_1080p_2k_4795_a : VideoFormat
  format_1080p_2k_4800_a : VideoFormat
  format_1080p_2k_5000_a : VideoFormat
  format_1080p_2k_5994_a : VideoFormat
  format_1080p_2k_6000_a : VideoFormat
  format_1080p_3000 : VideoFormat
  format_1080p_5000_a : VideoFormat
  format_1080p_5000_b : VideoFormat
  format_1080p_5994_a : VideoFormat
  format_1080p_5994_b : VideoFormat
  format_1080p_6000_a : VideoFormat
  format_1080p_6000_b : VideoFormat
  format_3840x2160p_2398 : VideoFormat
  format_3840x2160p_2400 : VideoFormat
  format_3840x2160p_2500 : VideoFormat
  format_3840x2160p_2997 : VideoFormat
  format_3840x2160p_3000 : VideoFormat
  format_3840x2160p_5000 : VideoFormat
  format_3840x2160p_5994 : VideoFormat
  format_3840x2160p_6000 : VideoFormat
  format_4096x2160p_11988 : VideoFormat
  format_4096x2160p_12000 : VideoFormat
  format_4096x2160p_2398 : VideoFormat
  format_4096x2160p_2400 : VideoFormat
  format_4096x2160p_2500 : VideoFormat
  format_4096x2160p_2997 : VideoFormat
  format_4096x2160p_3000 : VideoFormat
  format_4096x2160p_4795 : VideoFormat
  format_4096x2160p_4800 : VideoFormat
  format_4096x2160p_5000 : VideoFormat
  format_4096x2160p_5994 : VideoFormat
  format_4096x2160p_6000 : VideoFormat
  format_4x1920x1080p_2398 : VideoFormat
  format_4x1920x1080p_2400 : VideoFormat
  format_4x1920x1080p_2500 : VideoFormat
  format_4x1920x1080p_2997 : VideoFormat
  format_4x1920x1080p_3000 : VideoFormat
  format_4x1920x1080p_5000 : VideoFormat
  format_4x1920x1080p_5994 : VideoFormat
  format_4x1920x1080p_6000 : VideoFormat
  format_4x2048x1080p_11988 : VideoFormat
  format_4x2048x1080p_12000 : VideoFormat
  format_4x2048x1080p_2398 : VideoFormat
  format_4x2048x1080p_2400 : VideoFormat
  format_4x2048x1080p_2500 : VideoFormat
  format_4x2048x1080p_2997 : VideoFormat
  format_4x2048x1080p_3000 : VideoFormat
  format_4x2048x1080p_4795 : VideoFormat
  format_4x2048x1080p_4800 : VideoFormat
  format_4x2048x1080p_5000 : VideoFormat
  format_4x2048x1080p_5994 : VideoFormat
  format_4x2048x1080p_6000 : VideoFormat
  format_4x3840x2160p_2398 : VideoFormat
  format_4x3840x2160p_2400 : VideoFormat
  format_4x3840x2160p_2500 : VideoFormat
  format_4x3840x2160p_2997 : VideoFormat
  format_4x3840x2160p_3000 : VideoFormat
  format_4x3840x2160p_5000 : VideoFormat
  format_4x3840x2160p_5994 : VideoFormat
  format_4x3840x2160p_6000 : VideoFormat
  format_4x4096x2160p_2398 : VideoFormat
  format_4x4096x2160p_2400 : VideoFormat
  format_4x4096x2160p_2500 : VideoFormat
  format_4x4096x2160p_2997 : VideoFormat
  format_4x4096x2160p_3000 : VideoFormat
  format_4x4096x2160p_4795 : VideoFormat
  format_4x4096x2160p_4800 : VideoFormat
  format_4x4096x2160p_5000 : VideoFormat
  format_4x4096x2160p_5994 : VideoFormat
  format_4x4096x2160p_6000 : VideoFormat
  format_525_2398 : VideoFormat
  format_525_2400 : VideoFormat
  format_525_5994 : VideoFormat
  format_625_5000 : VideoFormat
  format_720p_2398 : VideoFormat
  format_720p_2500 : VideoFormat
  format_720p_5000 : VideoFormat
  format_720p_5994 : VideoFormat
  format_720p_6000 : VideoFormat
  format_other : ℕ → VideoFormat

-- The tests `==` of the code, on the enumerators.
pub VideoFormat-discrete : Discrete VideoFormat
VideoFormat-discrete = hlevel ℕ_discrete
