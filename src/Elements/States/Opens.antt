-- ===== src/Elements/States/Opens.antt =====
-- `open` of both sources reaches its end, and leaves an input with its device object.
use ntv2_gst.Prelude.{
  ℕ, ◌<◌, ◌≡◌, ◌≢◌, refl, Bool, true, false, Option, none, some, arith, inl, inr, if_rule,
}
use ntv2_gst.Mode.Defs.{Mode}
use ntv2_gst.Mode.Rows.{get_mode_raw-lt}
use ntv2_gst.Capture.Defs.{Av}
use ntv2_gst.Elements.{Shared, Elements}
use ntv2_gst.VideoSource.Defs.{InputMode, input_sdi, input_hdmi, input_analog}
use ntv2_gst.Capture.Defs.{Status, success}
use ntv2_gst.Capture.Lifecycle.{open_device}
use ntv2_gst.Capture.Init.Setup.{Answer, IsRouted, init-answers}
use ntv2_gst.Capture.AudioSetup.{AudioSetup}
use ntv2_gst.Capture.AudioSetup.Accepted.{
  IsSource, from_embedded, from_hdmi, from_aes, from_analog, init_audio-IsAnswered,
}
use ntv2_gst.Registry.{acquire_slot}
use ntv2_gst.Elements.Opening.{
  init_args, input_source_of, AudioInputMode, mode_embedded, mode_hdmi, mode_aes, mode_analog,
  audio_source_of, init_audio_if, audio_open,
}
use ntv2_gst.Elements.States.{
  Env, slot_of, acquired, av_or_new, is_success, after_init, open_mode, with_input, open_video,
  after_init_audio, open_audio,
}

-- The input that `open` leaves, without a fault.
abbrev IsOpened : Option (Shared × Bool) → Type 0
IsOpened o = (r : Shared × Bool) × (o ≡ some r) × (r.0.av ≢ none)

-- What `open` comes to, without a fault.
abbrev pub Opens : Elements → Option (Elements × Bool) → Type 0
Opens e o =
    (r : Elements × Bool) × (o ≡ some r)
    × (r.0.input.av ≢ none)
    × (r.0.video.mode_enum ≡ e.video.mode_enum)

with_input-Opens :
    (e : Elements) (o : Option (Shared × Bool)) → IsOpened o → Opens e (with_input e o)
with_input-Opens e none (r, eq, there) = absurd (cc)
with_input-Opens e (some (input, ok)) (r, eq, there) =
    ((record e { input = input }, ok), refl, ground arith, refl)

after_init-IsOpened : (input : Shared) (a : Answer) → a ≢ none → IsOpened (after_init input a)
after_init-IsOpened input none h = absurd (h refl)
after_init-IsOpened input (some (status, (av, l))) h =
    ((record input { av = some av }, is_success status), refl, λ h. cc)

input_source_of-IsRouted : (m : InputMode) → IsRouted (input_source_of m)
input_source_of-IsRouted input_sdi = inl refl
input_source_of-IsRouted input_hdmi = inr (inl refl)
input_source_of-IsRouted input_analog = inr (inr refl)

open_mode-IsOpened :
    (env : Env) (mode : Mode) (e : Elements) → IsOpened (open_mode env (some mode) e)
open_mode-IsOpened env mode e =
    let input = e.input in
    let opened = open_device env.found (av_or_new env.new_av input.av) in
    let ready : Shared = record input { mode = some mode; start_streams = true } in
    if_rule IsOpened (is_success opened.0.1) _ _
      (λ _. after_init-IsOpened ready _ (
        init-answers env.nvmm_enabled env.is_uhd2 env.sdi_format env.formats env.facts
          (init_args e.video.settings mode) opened.0.0
          (input_source_of-IsRouted e.video.settings.input_mode)))
      (λ _. ((record ready { av = some opened.0.0 }, false), refl, λ h. cc))

audio_source_of-IsSource : (m : AudioInputMode) → IsSource (audio_source_of m)
audio_source_of-IsSource mode_embedded = from_embedded
audio_source_of-IsSource mode_hdmi = from_hdmi
audio_source_of-IsSource mode_aes = from_aes
audio_source_of-IsSource mode_analog = from_analog

after_init_audio-IsOpened :
    (input : Shared) (o : Option (AudioSetup × ℕ)) → o ≢ none → IsOpened (after_init_audio input o)
after_init_audio-IsOpened input none h = absurd (h refl)
after_init_audio-IsOpened input (some (s, n)) h =
    ((record input { av = some s.av }, is_success s.status), refl, λ h. cc)

init_audio_if-ne-none :
    (max_channels reported asked : ℕ) (m : AudioInputMode) (status : Status) (av : Av)
    → init_audio_if max_channels reported (audio_source_of m) asked status av ≢ none
init_audio_if-ne-none max_channels reported asked m success av h =
    let (l, (r, (s, (eq, a)))) =
      init_audio-IsAnswered max_channels reported asked (audio_source_of m) av
        (audio_source_of-IsSource m) in
    cc
init_audio_if-ne-none max_channels reported asked m _ av h = cc

module _ (env : Env) (e : Elements) where
  pub open_video-Opens : e.video.mode_enum < 156 → Opens e (open_video env e)
  unfolding open_video
  open_video-Opens has_mode =
      let (mode, found) = get_mode_raw-lt e.video.mode_enum has_mode in
      let r = acquire_slot 1 false (slot_of e.input) in
      let e' : Elements = record e { input = acquired env.new_av r.0 e.input } in
      rw found (
        if_rule (Opens e) r.1 _ _
          (λ _. with_input-Opens e' (open_mode env (some mode) e') (open_mode-IsOpened env mode e'))
          (λ _. ((e', false), refl, λ h. cc, refl)))

  pub open_audio-Opens : Opens e (open_audio env e)
  unfolding open_audio audio_open
  open_audio-Opens =
      let r = acquire_slot 2 true (slot_of e.input) in
      let input = acquired env.new_av r.0 e.input in
      let e' : Elements = record e { input = input } in
      if_rule (Opens e) r.1 _ _
        (λ _. with_input-Opens e' _ (
          after_init_audio-IsOpened input _ (
            init_audio_if-ne-none env.max_channels env.reported_channels env.channels env.audio_mode
              _ _)))
        (λ _. ((e', false), refl, λ h. cc, refl))
