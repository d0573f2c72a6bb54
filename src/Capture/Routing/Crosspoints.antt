-- ===== src/Capture/Routing/Crosspoints.antt =====
-- The crosspoints and calls of the device that `SetupVideo` of gst-plugin/aja/gstntv2.cpp names. Crosspoints are
-- numbered as in their names, from 1 on; channels from 0 on.
use ntv2_gst.Prelude.{ℕ, Bool, ◌&&◌, ◌==◌}
use ntv2_gst.Video.Format.{VideoFormat}
use ntv2_gst.Capture.Defs.{InputSource, FrameBufferFormat}

-- `NTV2InputCrosspointID`.
pub data InputXpt : Type 0 where
  frame_buffer frame_buffer_b frame_buffer_ds2 : ℕ → InputXpt
  mux_a_input mux_b_input csc_input hdmi_out_input sdi_out_input : ℕ → InputXpt

-- `NTV2CrosspointID`; `hdmi_in_quadrant n` is NTV2_XptHDMIIn1Qn.
pub data OutputXpt : Type 0 where
  sdi_in sdi_in_ds2 mux_a_yuv mux_b_yuv hdmi_in hdmi_in_rgb hdmi_in_quadrant : ℕ → OutputXpt
  csc_rgb csc_yuv : ℕ → OutputXpt
  analog_in : OutputXpt

-- A crosspoint told by its kind and its number.
abbrev pub input_key : InputXpt → ℕ × ℕ
input_key (frame_buffer n) = (0, n)
input_key (frame_buffer_b n) = (1, n)
input_key (frame_buffer_ds2 n) = (2, n)
input_key (mux_a_input n) = (3, n)
input_key (mux_b_input n) = (4, n)
input_key (csc_input n) = (5, n)
input_key (hdmi_out_input n) = (6, n)
input_key (sdi_out_input n) = (7, n)

abbrev pub output_key : OutputXpt → ℕ × ℕ
output_key (sdi_in n) = (0, n)
output_key (sdi_in_ds2 n) = (1, n)
output_key (mux_a_yuv n) = (2, n)
output_key (mux_b_yuv n) = (3, n)
output_key (hdmi_in n) = (4, n)
output_key (hdmi_in_rgb n) = (5, n)
output_key (hdmi_in_quadrant n) = (6, n)
output_key (csc_rgb n) = (7, n)
output_key (csc_yuv n) = (8, n)
output_key analog_in = (9, 0)

abbrev same_key : ℕ × ℕ → ℕ × ℕ → Bool
same_key a b = a.0 == b.0 && a.1 == b.1

abbrev pub same_input : InputXpt → InputXpt → Bool
same_input i j = same_key (input_key i) (input_key j)

abbrev pub same_output : OutputXpt → OutputXpt → Bool
same_output i j = same_key (output_key i) (output_key j)

pub data VideoEffect : Type 0 where
  enable_output_interrupt wait_output_interrupt apply_route : VideoEffect
  enable_input_interrupt subscribe_input set_mode_capture set_mode_display : ℕ → VideoEffect
  enable_channel set_vanc set_vanc_shift wait_lock : ℕ → VideoEffect
  set_frame_buffer_format : ℕ → FrameBufferFormat → VideoEffect
  set_4k_squares set_tsi set_quad_quad set_quad_quad_squares set_sdi_transmit :
      ℕ → Bool → VideoEffect
  set_video_format : VideoFormat → ℕ → VideoEffect
  remove add : InputXpt → OutputXpt → VideoEffect
  set_reference : InputSource → VideoEffect

-- Tests of the SDK on a format: that it lies between NTV2_FORMAT_FIRST_UHD2_DEF_FORMAT and
-- NTV2_FORMAT_END_UHD2_FULL_DEF_FORMATS, or before the first of these, and the tests for quad-quad formats.
pub record Formats : Type 0 where
  pub is_uhd2 : VideoFormat → Bool
  pub below_uhd2 : VideoFormat → Bool
  pub is_quad_quad_hfr : VideoFormat → Bool
  pub is_quad_quad : VideoFormat → Bool
