-- ===== src/Capture/Routing.antt =====
-- `SetupVideo` of gst-plugin/aja/gstntv2.cpp. The calls of the device and of the router are a list of effects,
-- in order. The connections that the router has at first, the tests of the SDK on formats, and what it knows
-- of the device are parameters. The time base and `mOutputChannel`, which nothing reads, are left out.
pub mod Crosspoints
pub mod Stores
pub mod Quad
pub mod Distinct
use ntv2_gst.Prelude.{
  ℕ, ◌+◌, ◌/◌, Bool, true, false, not, ◌&&◌, ◌||◌, ◌==◌, if◌then◌else◌, Option, none, some, List,
  [], ◌∷◌, ◌++◌, ltb, get_or,
}
use ntv2_gst.Capture.Defs.{
  Av, InputSource, SdiInputMode, quad_link_tsi, FrameBufferFormat, ycbcr_8bit, is_hdmi1,
  is_quad_link,
}
use ntv2_gst.Capture.AudioSetup.{channel_below}
use ntv2_gst.Capture.Routing.Crosspoints.{
  InputXpt, OutputXpt, frame_buffer, csc_input, sdi_out_input, hdmi_out_input, sdi_in, hdmi_in,
  hdmi_in_rgb, analog_in, csc_rgb, csc_yuv, mux_a_yuv, same_input, same_output, VideoEffect, remove,
  add, set_sdi_transmit, wait_output_interrupt, set_mode_display, set_vanc, set_vanc_shift,
  apply_route, set_reference, wait_lock, Formats,
}
use ntv2_gst.Capture.Routing.Stores.{setup_stores, pixel_format_of}
use ntv2_gst.Capture.Routing.Quad.{disconnect_quad, disconnect_single, connect_quad, is_tsi}

-- What is asked of the device.
pub record DeviceFacts : Type 0 where
  pub can_do_input_source : InputSource → Bool
  pub bidirectional_sdi : Bool
  pub num_video_outputs : ℕ
  pub hdmi_rgb : Bool  -- whether the HDMI input of the channel has RGB colours
  pub connections : List (InputXpt × OutputXpt)

-- The variables of the routing; the converter is told by its number.
pub record Selected : Type 0 where
  pub identifier : OutputXpt
  pub input_source : InputSource
  pub csc : ℕ
  pub input_rgb : Bool

-- The input of a channel; that of the first one by default.
abbrev pub sdi_source : ℕ → InputSource
sdi_source channel =
    get_or
      (InputSource.sdi1 ∷ InputSource.sdi2 ∷ InputSource.sdi3 ∷ InputSource.sdi4 ∷ InputSource.sdi5
        ∷ InputSource.sdi6 ∷ InputSource.sdi7 ∷ InputSource.sdi8 ∷ [])
      channel InputSource.sdi1

abbrev pub hdmi_source : ℕ → InputSource
hdmi_source channel =
    get_or (InputSource.hdmi1 ∷ InputSource.hdmi2 ∷ InputSource.hdmi3 ∷ InputSource.hdmi4 ∷ [])
      channel InputSource.hdmi1

-- The switch on the source, for a channel; none where the code aborts.
unfoldable pub select_input_source : DeviceFacts → ℕ → InputSource → Option Selected
select_input_source d channel InputSource.sdi1 =
    let source = sdi_source channel in
    some (record {
      identifier = sdi_in (channel_below 8 channel + 1);
      input_source = if d.can_do_input_source source then source else InputSource.sdi1;
      csc = channel_below 8 channel + 1;
      input_rgb = false;
    })
select_input_source d channel InputSource.hdmi1 =
    let n = channel_below 4 channel + 1 in
    some (record {
      identifier = if d.hdmi_rgb then hdmi_in_rgb n else hdmi_in n;
      input_source = hdmi_source channel;
      csc = n;
      input_rgb = d.hdmi_rgb;
    })
select_input_source d channel InputSource.analog1 = some (record {
  identifier = analog_in;
  input_source = InputSource.analog1;
  csc = 1;
  input_rgb = false;
})
select_input_source d channel _ = none

-- "Special-case for UHD HDMI and SDI TSI".
abbrev pub muxed : Formats → Av → OutputXpt → OutputXpt
muxed k av identifier =
    if av.quad && is_hdmi1 av.video_source
    then mux_a_yuv 1
    else if av.quad && (is_tsi av.sdi_input_mode && k.below_uhd2 av.video_format)
    then (if av.input_channel == 0 then mux_a_yuv 1 else mux_a_yuv 3)
    else identifier

-- The frame buffer is fed directly, or through the converter.
abbrev pub connect_input : Av → Selected → ℕ → OutputXpt → List VideoEffect
connect_input av s fb identifier =
    if (av.is_rgba && s.input_rgb) || (not av.is_rgba && not s.input_rgb)
    then add (frame_buffer fb) identifier ∷ []
    else add (csc_input s.csc) identifier
      ∷ add (frame_buffer fb) (if av.is_rgba then csc_rgb s.csc else csc_yuv s.csc)
      ∷ []

abbrev pub disable_transmit : Av → List VideoEffect
disable_transmit av =
    set_sdi_transmit av.input_channel false
      ∷ (if av.quad
          then set_sdi_transmit (av.input_channel + 1) false
            ∷ set_sdi_transmit (av.input_channel + 2) false
            ∷ set_sdi_transmit (av.input_channel + 3) false
            ∷ wait_output_interrupt
            ∷ wait_output_interrupt
            ∷ wait_output_interrupt
            ∷ []
          else [])
    ++ wait_output_interrupt ∷ []

-- End to end, on a device whose SDI is not bidirectional: for the first four channels.
abbrev pub end_to_end : Av → List VideoEffect
end_to_end av =
    let n = av.input_channel + 1 in
    if ltb av.input_channel 4
    then (if is_hdmi1 av.video_source
        then add (hdmi_out_input n) (hdmi_in n)
        else add (sdi_out_input n) (sdi_in n))
      ∷ []
    else []

-- Passthrough on a bidirectional device.
abbrev pub pass_through : DeviceFacts → Av → List VideoEffect
pass_through d av =
    let behind = if d.num_video_outputs == 8 then 4 else 2 in
    let out = av.input_channel + behind in
    if av.passthrough && d.bidirectional_sdi
    then set_mode_display (av.input_channel + d.num_video_outputs / 2)
      ∷ (if ltb av.input_channel 4
          then add (sdi_out_input (out + 1)) (sdi_in (av.input_channel + 1))
            ∷ set_sdi_transmit out true
            ∷ []
          else [])
    else []

abbrev is_8bit : FrameBufferFormat → Bool
is_8bit ycbcr_8bit = true
is_8bit _ = false

abbrev pub enable_vanc : Av → List VideoEffect
enable_vanc av =
    if av.capture_tall
    then set_vanc av.input_channel
      ∷ (if is_8bit av.pixel_format then set_vanc_shift av.input_channel ∷ [] else [])
    else []

-- The router's part, for the selected input.
unfoldable pub route : Formats → DeviceFacts → Av → Selected → List VideoEffect
route k d av s =
    let fb = channel_below 8 av.input_channel + 1 in
    (if av.quad
      then disconnect_quad av d.connections
      else disconnect_single fb s.csc s.identifier d.connections)
    ++ (connect_input av s fb (muxed k av s.identifier)
        ++ ((if d.bidirectional_sdi then disable_transmit av else end_to_end av)
            ++ ((if av.quad then connect_quad k av else [])
                ++ (pass_through d av
                    ++ (enable_vanc av
                        ++ apply_route
                          ∷ set_reference s.input_source
                          ∷ wait_lock av.input_channel
                          ∷ [])))))

abbrev pub with_source :
    Formats → DeviceFacts → Av → Option Selected → Option (Av × List VideoEffect)
with_source k d av none = none
with_source k d av (some s) =
    some (record av { input_source = s.input_source }, setup_stores k av ++ route k d av s)

-- Quad mode with neither HDMI nor quad link, for which the code aborts.
abbrev pub aborts : Av → Bool
aborts av = av.quad && (not (is_hdmi1 av.video_source) && not (is_quad_link av.sdi_input_mode))

-- The call, which succeeds where it does not abort.
unfoldable pub setup_video : Formats → DeviceFacts → Av → Option (Av × List VideoEffect)
setup_video k d av =
    let av' : Av = record av { pixel_format = pixel_format_of av } in
    if aborts av
    then none
    else with_source k d av' (select_input_source d av.input_channel av.video_source)
