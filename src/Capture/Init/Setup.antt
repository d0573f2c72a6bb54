-- ===== src/Capture/Init/Setup.antt =====
-- `NTV2GstAV::Init` of gst-plugin/aja/gstntv2.cpp as a whole, with its call of `SetupVideo`: what it
-- answers, the object it leaves and the calls of the device; none where the program aborts.
use ntv2_gst.Prelude.{
  ℕ, ◌≡◌, refl, sym, ◌⊎◌, if◌then◌else◌, Bool, true, false, ◌||◌, Option, some, none, List, [],
  arith, subst,
}
use ntv2_gst.Video.Format.{VideoFormat}
use ntv2_gst.Capture.Defs.{Av, InputSource, Status, success, is_quad_link, is_hdmi1}
use ntv2_gst.Capture.Formats.{quad_format}
use ntv2_gst.Capture.Init.{
  InitArgs, Outcome, returned, goes_on, set_arguments, set_use_nvmm, set_format, map_format,
  check_channel, check_auto, take_determined, limit_capture_tall, Ends, Ends-bind, Ends-if,
  init_config,
}
use ntv2_gst.Capture.Init.Accepts.{IsConfigured, goes_on-injective, init_config-IsConfigured}
use ntv2_gst.Capture.Routing.Crosspoints.{VideoEffect, Formats}
use ntv2_gst.Capture.Routing.{DeviceFacts, select_input_source, with_source, aborts, setup_video}

abbrev pub Answer : Type 0
Answer = Option (Status × (Av × List VideoEffect))

abbrev succeed : Option (Av × List VideoEffect) → Answer
succeed none = none
succeed (some r) = some (success, r)

abbrev then_setup : Formats → DeviceFacts → Outcome → Answer
then_setup k d (returned s av) = some (s, (av, []))
then_setup k d (goes_on av) = succeed (setup_video k d av)

unfoldable pub init :
    Bool → (VideoFormat → Bool) → VideoFormat → Formats → DeviceFacts → InitArgs → Av → Answer
init nvmm_enabled is_uhd2 sdi_format k d a av =
    then_setup k d (init_config nvmm_enabled is_uhd2 sdi_format a av)

-- The sources that the routing knows.
abbrev pub IsRouted : InputSource → Type 0
IsRouted s = (s ≡ InputSource.sdi1) ⊎ ((s ≡ InputSource.hdmi1) ⊎ (s ≡ InputSource.analog1))

HasSource : InitArgs → Av → Type 0
HasSource a av = av.video_source ≡ a.source

module _ (a : InitArgs) where
  set_use_nvmm-HasSource :
      (nvmm_enabled : Bool) (av : Av)
      → Ends (HasSource a) (set_use_nvmm nvmm_enabled a (set_arguments a av))
  unfolding set_use_nvmm set_arguments HasSource
  set_use_nvmm-HasSource nvmm_enabled av out h = ground arith

  map_format-HasSource :
      (is_uhd2 : VideoFormat → Bool) (f : VideoFormat) (o : Option VideoFormat) (av : Av)
      → HasSource a av
      → Ends (HasSource a) (map_format is_uhd2 f o av)
  unfolding map_format HasSource
  map_format-HasSource is_uhd2 f none av s out h = ground arith
  map_format-HasSource is_uhd2 f (some g) av s out h = ground arith

  set_format-HasSource :
      (is_uhd2 : VideoFormat → Bool) (f : VideoFormat) (av : Av)
      → HasSource a av
      → Ends (HasSource a) (set_format is_uhd2 f av)
  unfolding set_format HasSource
  set_format-HasSource is_uhd2 f av s =
      Ends-if (HasSource a) (is_quad_link av.sdi_input_mode || is_hdmi1 av.video_source) _ _
        (λ _. map_format-HasSource is_uhd2 f (quad_format f) (record av { quad = true }) s)
        (λ _ out h. subst (HasSource a) (goes_on-injective h) s)

  check_channel-HasSource : (av : Av) → HasSource a av → Ends (HasSource a) (check_channel av)
  unfolding check_channel HasSource
  check_channel-HasSource av s out h = ground arith

  check_auto-HasSource :
      (sdi_format : VideoFormat) (av : Av)
      → HasSource a av
      → Ends (HasSource a) (check_auto sdi_format av)
  unfolding check_auto take_determined HasSource
  check_auto-HasSource sdi_format av s out h = ground arith

  init_config-HasSource :
      (nvmm_enabled : Bool) (is_uhd2 : VideoFormat → Bool) (sdi_format : VideoFormat) (av : Av)
      → Ends (HasSource a) (init_config nvmm_enabled is_uhd2 sdi_format a av)
  unfolding init_config limit_capture_tall HasSource
  init_config-HasSource nvmm_enabled is_uhd2 sdi_format av =
      Ends-bind (HasSource a) (HasSource a) _ _
        (Ends-bind (HasSource a) (HasSource a) _ _
          (Ends-bind (HasSource a) (HasSource a) _ _
            (Ends-bind (HasSource a) (HasSource a) _ _ (set_use_nvmm-HasSource nvmm_enabled av)
              (λ mid. set_format-HasSource is_uhd2 a.video_format mid))
            check_channel-HasSource)
          (check_auto-HasSource sdi_format))
        (λ mid s out h. ground arith)

IsConfigured-aborts : (av : Av) → IsConfigured av → aborts av ≡ false
IsConfigured-aborts av c = let q = c.quad_source in ground arith

succeed-with_source :
    (k : Formats) (d : DeviceFacts) (av : Av) (n : ℕ) (s : InputSource)
    → IsRouted s
    → ¬ (succeed (with_source k d av (select_input_source d n s)) ≡ none)
unfolding select_input_source
succeed-with_source k d av n InputSource.sdi1 r h = cc
succeed-with_source k d av n InputSource.hdmi1 r h = cc
succeed-with_source k d av n InputSource.analog1 r h = cc
succeed-with_source k d av n _ r h = ground arith

succeed-if :
    (t : Bool) (o : Option (Av × List VideoEffect))
    → t ≡ false
    → ¬ (succeed o ≡ none)
    → ¬ (succeed (if t then none else o) ≡ none)
succeed-if true o refuted r = λ h. cc
succeed-if false o refuted r = r

succeed-setup_video :
    (k : Formats) (d : DeviceFacts) (av : Av)
    → aborts av ≡ false
    → IsRouted av.video_source
    → ¬ (succeed (setup_video k d av) ≡ none)
unfolding setup_video
succeed-setup_video k d av runs r =
    succeed-if (aborts av) _ runs (succeed-with_source k d _ av.input_channel av.video_source r)

then_setup-answers :
    (k : Formats) (d : DeviceFacts) (a : InitArgs) (m : Outcome)
    → Ends IsConfigured m
    → Ends (HasSource a) m
    → IsRouted a.source
    → ¬ (then_setup k d m ≡ none)
unfolding HasSource
then_setup-answers k d a (returned s av) fits keeps r = λ h. cc
then_setup-answers k d a (goes_on av) fits keeps r =
    succeed-setup_video k d av (IsConfigured-aborts av (fits av refl))
      (subst IsRouted (sym (keeps av refl)) r)

-- `Init` never runs into an abort of `SetupVideo` for an SDI, an HDMI or the analog source: whatever the
-- other arguments, the object and the device, it answers.
pub init-answers :
    (nvmm_enabled : Bool) (is_uhd2 : VideoFormat → Bool) (sdi_format : VideoFormat) (k : Formats)
    (d : DeviceFacts) (a : InitArgs) (av : Av)
    → IsRouted a.source
    → ¬ (init nvmm_enabled is_uhd2 sdi_format k d a av ≡ none)
unfolding init
init-answers nvmm_enabled is_uhd2 sdi_format k d a av =
    then_setup-answers k d a _ (init_config-IsConfigured nvmm_enabled is_uhd2 sdi_format a av)
      (init_config-HasSource a nvmm_enabled is_uhd2 sdi_format av)
