-- ===== src/Capture/Init.antt =====
-- `NTV2GstAV::Init` of gst-plugin/aja/gstntv2.cpp up to its call of `SetupVideo` (Setup adds it), with
-- `DetermineInputFormat`. The ordering of the SDK's format enumeration enters as `is_uhd2`, the test that
-- a format lies between NTV2_FORMAT_FIRST_UHD2_DEF_FORMAT and NTV2_FORMAT_END_UHD2_FULL_DEF_FORMATS; what
-- the device reports as the format of the SDI input enters as `sdi_format`; the build flag ENABLE_NVMM as
-- `nvmm_enabled`. The semaphore taken for the whole call is left out.
pub mod Accepts
pub mod Setup
use ntv2_gst.Prelude.{
  ℕ, ◌≡◌, refl, Bool, true, false, not, ◌&&◌, ◌||◌, ◌==◌, if◌then◌else◌, Option, some, none,
}
use ntv2_gst.Video.Format.{VideoFormat}
use ntv2_gst.Capture.Defs.{
  Av, Status, success, fail, InputSource, SdiInputMode, TcIndex, is_quad_link, is_hdmi1,
}
use ntv2_gst.Capture.Formats.{quad_format, can_capture_tall, determined_format}

-- The arguments of the call.
pub record InitArgs : Type 0 where
  pub video_format : VideoFormat
  pub source : InputSource
  pub bit_depth : ℕ
  pub is_rgba : Bool
  pub is_422 : Bool
  pub is_auto : Bool
  pub sdi_input_mode : SdiInputMode
  pub timecode : TcIndex
  pub capture_tall : Bool
  pub passthrough : Bool
  pub capture_cpu_core : ℕ
  pub use_nvmm : Bool

-- `returned` is an early return, `goes_on` the statement that follows.
pub data Outcome : Type 0 where
  returned : Status → Av → Outcome
  goes_on : Av → Outcome

infixl 5 ◌>>=◌
abbrev pub ◌>>=◌ : Outcome → (Av → Outcome) → Outcome
returned s av >>= f = returned s av
goes_on av >>= f = f av

-- `P` holds wherever the statements up to here do not return.
abbrev pub Ends : (Av → Type 0) → Outcome → Type 0
Ends P m = (av : Av) → m ≡ goes_on av → P av

pub Ends-bind :
    (P Q : Av → Type 0) (m : Outcome) (f : Av → Outcome)
    → Ends P m
    → ((mid : Av) → P mid → Ends Q (f mid))
    → Ends Q (m >>= f)
Ends-bind P Q (returned s av) f first next out h = cc
Ends-bind P Q (goes_on mid) f first next out h = next mid (first mid refl) out h

pub Ends-if :
    (P : Av → Type 0) (t : Bool) (m n : Outcome)
    → (t ≡ true → Ends P m)
    → (t ≡ false → Ends P n)
    → Ends P (if t then m else n)
Ends-if P true m n yes_case no_case = yes_case refl
Ends-if P false m n yes_case no_case = no_case refl

set_arguments : InitArgs → Av → Av
set_arguments a av = record av {
  video_source = a.source;
  bit_depth = a.bit_depth;
  is_rgba = a.is_rgba;
  is_422 = a.is_422;
  is_auto = a.is_auto;
  timecode_mode = a.timecode;
  capture_tall = a.capture_tall;
  passthrough = a.passthrough;
  sdi_input_mode = a.sdi_input_mode;
  capture_cpu_core = a.capture_cpu_core;
}

set_use_nvmm : Bool → InitArgs → Av → Outcome
set_use_nvmm nvmm_enabled a av =
    if nvmm_enabled
    then goes_on (record av { use_nvmm = a.use_nvmm })
    else (if a.use_nvmm then returned fail av else goes_on av)

-- The cases of the format switch, by what `quad_format` says.
map_format : (VideoFormat → Bool) → VideoFormat → Option VideoFormat → Av → Outcome
map_format is_uhd2 f (some g) av = goes_on (record av { video_format = g; quad = true })
map_format is_uhd2 f none av =
    if is_uhd2 f
    then goes_on (record av { video_format = f; quad = true })
    else if is_quad_link av.sdi_input_mode
    then returned fail av
    else goes_on (record av { video_format = f; quad = false })

set_format : (VideoFormat → Bool) → VideoFormat → Av → Outcome
unfolding map_format
set_format is_uhd2 f av =
    if is_quad_link av.sdi_input_mode || is_hdmi1 av.video_source
    then map_format is_uhd2 f (quad_format f) (record av { quad = true })
    else goes_on (record av { video_format = f; quad = false })

check_channel : Av → Outcome
check_channel av =
    if is_quad_link av.sdi_input_mode
      && (not (av.input_channel == 0) && not (av.input_channel == 4))
    then returned fail av
    else goes_on av

pub determine_input_format : VideoFormat → Bool → Option VideoFormat
determine_input_format VideoFormat.format_unknown quad = none
determine_input_format f quad = some (determined_format f quad)

take_determined : Option VideoFormat → Av → Outcome
take_determined none av = returned fail av
take_determined (some f) av = goes_on (record av { video_format = f; bit_depth = 8 })

check_auto : VideoFormat → Av → Outcome
unfolding take_determined
check_auto sdi_format av =
    if av.is_auto
    then (if av.started
        then returned success av
        else take_determined (determine_input_format sdi_format (is_quad_link av.sdi_input_mode))
            av)
    else goes_on av

limit_capture_tall : Av → Av
limit_capture_tall av = record av {
  capture_tall =
      (av.capture_tall && can_capture_tall av.video_format) && not (is_hdmi1 av.video_source);
}

unfoldable pub init_config : Bool → (VideoFormat → Bool) → VideoFormat → InitArgs → Av → Outcome
unfolding set_arguments set_use_nvmm set_format check_channel check_auto limit_capture_tall
init_config nvmm_enabled is_uhd2 sdi_format a av =
    set_use_nvmm nvmm_enabled a (set_arguments a av)
    >>= set_format is_uhd2 a.video_format
    >>= check_channel
    >>= check_auto sdi_format
    >>= λ av'. goes_on (limit_capture_tall av')
