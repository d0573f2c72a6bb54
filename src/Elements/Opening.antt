-- ===== src/Elements/Opening.antt =====
-- `gst_aja_video_src_open` of gst-plugin/aja/gstajavideosrc.cpp and `gst_aja_audio_src_open` of
-- gst-plugin/aja/gstajaaudiosrc.cpp, on an input that has been acquired, with the part of `Init` that comes
-- before the set-up of the device.
use ntv2_gst.Prelude.{ℕ, Bool, true, false, Option, some, List, []}
use ntv2_gst.Video.Format.{VideoFormat}
use ntv2_gst.Mode.Defs.{Mode}
use ntv2_gst.Capture.Defs.{
  Av, Status, success, InputSource, TcIndex, AudioSource, embedded, hdmi, aes, analog,
}
use ntv2_gst.Capture.Init.{InitArgs, Outcome, returned, goes_on, init_config}
use ntv2_gst.Capture.Lifecycle.{Effect, open_device}
use ntv2_gst.Capture.AudioSetup.{AudioSetup, init_audio}
use ntv2_gst.VideoSource.Defs.{
  InputMode, input_sdi, input_hdmi, input_analog, TimecodeMode, vitc1, vitc2, analog_ltc1,
  analog_ltc2, atc_ltc, Settings,
}
use ntv2_gst.Elements.{Shared}

abbrev pub input_source_of : InputMode → InputSource
input_source_of input_sdi = InputSource.sdi1
input_source_of input_hdmi = InputSource.hdmi1
input_source_of input_analog = InputSource.analog1

abbrev pub tc_index_of : TimecodeMode → TcIndex
tc_index_of vitc1 = TcIndex.tc_sdi1
tc_index_of vitc2 = TcIndex.sdi_2 0
tc_index_of analog_ltc1 = TcIndex.ltc1
tc_index_of analog_ltc2 = TcIndex.ltc2
tc_index_of atc_ltc = TcIndex.sdi_ltc 0

-- The arguments of `Init`.
abbrev pub init_args : Settings → Mode → InitArgs
init_args s mode = record {
  video_format = mode.video_format;
  source = input_source_of s.input_mode;
  bit_depth = mode.bit_depth;
  is_rgba = mode.is_rgba;
  is_422 = mode.is_422;
  is_auto = false;
  sdi_input_mode = s.sdi_input_mode;
  timecode = tc_index_of s.timecode_mode;
  capture_tall = s.output_cc;
  passthrough = s.passthrough;
  capture_cpu_core = s.capture_cpu_core;
  use_nvmm = s.use_nvmm;
}

-- What a call leaves of the input, and what it comes to: a return, with a status, or the rest of `Init`.
pub record Opened : Type 0 where
  pub input : Shared
  pub outcome : Outcome
  pub effects : List Effect

abbrev pub config_if : Bool → (VideoFormat → Bool) → VideoFormat → InitArgs → Status → Av → Outcome
config_if nvmm_enabled is_uhd2 sdi_format a success av =
    init_config nvmm_enabled is_uhd2 sdi_format a av
config_if nvmm_enabled is_uhd2 sdi_format a status av = returned status av

-- The object that an outcome leaves.
abbrev pub av_of : Outcome → Av
av_of (returned _ av) = av
av_of (goes_on av) = av

-- `found` is what `GetFirstDeviceFromArgument` answers, and the other arguments are those of `init_config`.
unfoldable pub video_open :
    Bool → Bool → (VideoFormat → Bool) → VideoFormat → Settings → Mode → Av → Shared → Opened
video_open found nvmm_enabled is_uhd2 sdi_format settings mode av input =
    let opened = open_device found av in
    let outcome =
      config_if nvmm_enabled is_uhd2 sdi_format (init_args settings mode) opened.0.1 opened.0.0 in
    record {
      input = record input { mode = some mode; start_streams = true; av = some (av_of outcome) };
      outcome = outcome;
      effects = opened.1;
    }

pub data AudioInputMode : Type 0 where
  mode_embedded mode_hdmi mode_aes mode_analog : AudioInputMode

abbrev pub audio_source_of : AudioInputMode → AudioSource
audio_source_of mode_embedded = embedded
audio_source_of mode_hdmi = hdmi
audio_source_of mode_aes = aes
audio_source_of mode_analog = analog

abbrev pub init_audio_if : ℕ → ℕ → AudioSource → ℕ → Status → Av → Option (AudioSetup × ℕ)
init_audio_if max_channels reported source asked success av =
    init_audio max_channels reported source asked av
init_audio_if max_channels reported source asked status av =
    some (record { av = av; status = status; effects = [] }, asked)

-- The set-up, and the number of channels behind the call.
unfoldable pub audio_open :
    Bool → ℕ → ℕ → AudioInputMode → ℕ → Av → Option (AudioSetup × ℕ) × List Effect
audio_open found max_channels reported input_mode asked av =
    let opened = open_device found av in
    (
      init_audio_if max_channels reported (audio_source_of input_mode) asked opened.0.1 opened.0.0,
      opened.1,
    )
