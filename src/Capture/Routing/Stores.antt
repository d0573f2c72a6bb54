-- ===== src/Capture/Routing/Stores.antt =====
-- The frame stores, in the first part of `SetupVideo` of gst-plugin/aja/gstntv2.cpp.
use ntv2_gst.Prelude.{ℕ, ◌+◌, Bool, true, false, ◌&&◌, ◌==◌, if◌then◌else◌, List, [], ◌∷◌, ◌++◌}
use ntv2_gst.Capture.Defs.{
  Av, SdiInputMode, FrameBufferFormat, abgr, ycbcr_8bit, ycbcr_10bit, is_hdmi1,
}
use ntv2_gst.Capture.Routing.Crosspoints.{
  VideoEffect, enable_output_interrupt, enable_input_interrupt, subscribe_input, set_mode_capture,
  set_frame_buffer_format, enable_channel, set_4k_squares, set_tsi, set_quad_quad,
  set_quad_quad_squares, set_video_format, Formats,
}

abbrev pub pixel_format_of : Av → FrameBufferFormat
pixel_format_of av =
    if av.is_rgba then abgr else (if av.bit_depth == 8 then ycbcr_8bit else ycbcr_10bit)

-- The mode of quad-link capture; for a single link the code has aborted before.
abbrev pub link_mode : Bool → SdiInputMode → ℕ → List VideoEffect
link_mode is_uhd2 SdiInputMode.quad_link_sqd c =
    if is_uhd2
    then set_quad_quad c true ∷ set_quad_quad_squares c true ∷ []
    else set_4k_squares c true ∷ set_tsi c false ∷ []
link_mode is_uhd2 SdiInputMode.quad_link_tsi c =
    if is_uhd2
    then set_quad_quad c true ∷ set_quad_quad_squares c false ∷ []
    else set_4k_squares c false ∷ set_tsi c true ∷ []
link_mode is_uhd2 SdiInputMode.single_link c = []

abbrev pub quad_mode : Formats → Av → List VideoEffect
quad_mode k av =
    let c = av.input_channel in
    if av.quad && is_hdmi1 av.video_source
    then set_4k_squares c true ∷ set_tsi c true ∷ []
    else if av.quad
    then link_mode (k.is_uhd2 av.video_format) av.sdi_input_mode c
    else set_4k_squares c false ∷ set_tsi c false ∷ []

-- The frame stores of the three channels behind, in quad mode.
abbrev pub other_stores : Av → List VideoEffect
other_stores av =
    let c = av.input_channel in
    set_mode_capture (c + 1)
    ∷ set_mode_capture (c + 2)
    ∷ set_mode_capture (c + 3)
    ∷ set_frame_buffer_format (c + 1) av.pixel_format
    ∷ set_frame_buffer_format (c + 2) av.pixel_format
    ∷ set_frame_buffer_format (c + 3) av.pixel_format
    ∷ enable_channel (c + 1)
    ∷ enable_channel (c + 2)
    ∷ enable_channel (c + 3)
    ∷ []

unfoldable pub setup_stores : Formats → Av → List VideoEffect
setup_stores k av =
    let c = av.input_channel in
    enable_output_interrupt
      ∷ enable_input_interrupt c
      ∷ subscribe_input c
      ∷ set_mode_capture c
      ∷ set_frame_buffer_format c av.pixel_format
      ∷ quad_mode k av
    ++ enable_channel c ∷ (if av.quad then other_stores av else [])
    ++ set_video_format av.video_format c ∷ []
