-- ===== src/Capture/Init/Accepts.antt =====
-- Which configurations `NTV2GstAV::Init` lets through to the set-up of the device.
use ntv2_gst.Prelude.{◌≡◌, ◌⊎◌, Bool, true, false, ◌||◌, Option, some, none, arith, subst}
use ntv2_gst.Video.Format.{VideoFormat}
use ntv2_gst.Capture.Defs.{Av, is_quad_link, is_hdmi1}
use ntv2_gst.Capture.Formats.{quad_format, can_capture_tall}
use ntv2_gst.Capture.Init.{
  InitArgs, goes_on, set_format, map_format, check_channel, check_auto, take_determined,
  limit_capture_tall, Ends, Ends-bind, Ends-if, init_config,
}

-- What holds of the object when the device is set up.
pub record IsConfigured (av : Av) : Type 0 where
  pub quad_channel :
      (is_quad_link av.sdi_input_mode ≡ false) ⊎ ((av.input_channel ≡ 0) ⊎ (av.input_channel ≡ 4))
  pub quad_on : (is_quad_link av.sdi_input_mode ≡ false) ⊎ (av.quad ≡ true)
  pub quad_source :
      (av.quad ≡ false)
      ⊎ ((is_quad_link av.sdi_input_mode ≡ true) ⊎ (is_hdmi1 av.video_source ≡ true))
  pub tall_format : (av.capture_tall ≡ false) ⊎ (can_capture_tall av.video_format ≡ true)
  pub tall_source : (av.capture_tall ≡ false) ⊎ (is_hdmi1 av.video_source ≡ false)

pub goes_on-injective : {a b : Av} → goes_on a ≡ goes_on b → a ≡ b
goes_on-injective h = cc

-- The format and the mode agree, once the format is set.
record Mapped (av : Av) : Type 0 where
  quad_on : (is_quad_link av.sdi_input_mode ≡ false) ⊎ (av.quad ≡ true)
  quad_source :
      (av.quad ≡ false)
      ⊎ ((is_quad_link av.sdi_input_mode ≡ true) ⊎ (is_hdmi1 av.video_source ≡ true))

map_format-Mapped :
    (is_uhd2 : VideoFormat → Bool) (f : VideoFormat) (o : Option VideoFormat) (av : Av)
    → (is_quad_link av.sdi_input_mode || is_hdmi1 av.video_source) ≡ true
    → Ends Mapped (map_format is_uhd2 f o av)
unfolding map_format
map_format-Mapped is_uhd2 f none av c out h = ground arith
map_format-Mapped is_uhd2 f (some g) av c out h = ground arith

set_format-Mapped :
    (is_uhd2 : VideoFormat → Bool) (f : VideoFormat) (av : Av)
    → Ends Mapped (set_format is_uhd2 f av)
unfolding set_format
set_format-Mapped is_uhd2 f av =
    Ends-if Mapped _ _ _
      (λ c. map_format-Mapped is_uhd2 f (quad_format f) (record av { quad = true }) c)
      (λ c out h. ground arith)

-- The channel fits the links, on top of the format.
record Fits (av : Av) : Type 0 where
  mapped : Mapped av
  channel :
      (is_quad_link av.sdi_input_mode ≡ false) ⊎ ((av.input_channel ≡ 0) ⊎ (av.input_channel ≡ 4))

check_channel-Fits : (av : Av) → Mapped av → Ends Fits (check_channel av)
unfolding check_channel
check_channel-Fits av m out h = ground arith

take_determined-Fits :
    (o : Option VideoFormat) (av : Av) → Fits av → Ends Fits (take_determined o av)
unfolding take_determined
take_determined-Fits none av m out h = cc
take_determined-Fits (some f) av m out h = ground arith

check_auto-Fits :
    (sdi_format : VideoFormat) (av : Av) → Fits av → Ends Fits (check_auto sdi_format av)
unfolding check_auto
check_auto-Fits sdi_format av m =
    Ends-if Fits av.is_auto _ _
      (λ _.
        Ends-if Fits av.started _ _ (λ _ out h. absurd (cc h)) (λ _. take_determined-Fits _ av m))
      (λ _ out h. subst Fits (goes_on-injective h) m)

limit_capture_tall-IsConfigured : (av : Av) → Fits av → IsConfigured (limit_capture_tall av)
unfolding limit_capture_tall
limit_capture_tall-IsConfigured av m = ground arith

-- Whenever `Init` reaches the set-up of the device, the configuration is consistent: quad-link capture
-- is on channel 1 or 5 and in quad mode, quad mode comes from quad link or HDMI, and full-height capture
-- is on only for a format that can carry it and not for HDMI.
pub init_config-IsConfigured :
    (nvmm_enabled : Bool) (is_uhd2 : VideoFormat → Bool) (sdi_format : VideoFormat) (a : InitArgs)
    (av : Av)
    → (av' : Av) → init_config nvmm_enabled is_uhd2 sdi_format a av ≡ goes_on av'
    → IsConfigured av'
unfolding init_config
init_config-IsConfigured nvmm_enabled is_uhd2 sdi_format a av =
    Ends-bind Fits IsConfigured _ _
      (Ends-bind Fits Fits _ _
        (Ends-bind Mapped Fits _ _
          (Ends-bind (λ _. Unit {0}) Mapped _ _ (λ _ _. tt)
            (λ mid _. set_format-Mapped is_uhd2 a.video_format mid))
          check_channel-Fits)
        (check_auto-Fits sdi_format))
      (λ mid fits out h.
        subst IsConfigured (goes_on-injective h) (limit_capture_tall-IsConfigured mid fits))
