-- ===== src/Capture/AudioSetup/Accepted.antt =====
-- What `InitAudio` accepts, and what a call that it refuses leaves.
use ntv2_gst.Prelude.{
  ℕ, ◌≤◌, ◌<◌, true, false, ltb, some, List, ◌++◌, ◌≡◌, refl, ap, arith, if_rule,
}
use ntv2_gst.Capture.Defs.{Av, success, fail, AudioSource, embedded, hdmi, aes, analog}
use ntv2_gst.Capture.AudioSetup.{
  AudioEffect, AudioSetup, select_input, channels_or_max, configure, set_channels, with_selected,
  setup_audio, with_answer, init_audio, answer, channel_below,
}

-- The sources that there are cases for.
pub data IsSource : AudioSource → Type 0 where
  from_embedded : IsSource embedded
  from_hdmi : IsSource hdmi
  from_aes : IsSource aes
  from_analog : IsSource analog

-- A refused call has asked for more channels than there are, has made the effects `selected` only, and answers
-- with what was asked for. An accepted one has asked for no more, has configured all channels that were asked
-- for, or all that there are if none were, and answers with what the device reports.
pub data IsAnswered (max_channels reported asked system : ℕ) (selected : List AudioEffect)
    (r : AudioSetup × ℕ) : Type 0 where
  refused :
      max_channels < asked
      → r.0.status ≡ fail
      → r.0.effects ≡ selected
      → r.1 ≡ asked
      → IsAnswered max_channels reported asked system selected r
  accepted :
      asked ≤ max_channels
      → r.0.status ≡ success
      → r.0.effects ≡ selected ++ configure system (channels_or_max max_channels asked)
      → r.1 ≡ reported
      → IsAnswered max_channels reported asked system selected r

too_many :
    (max_channels asked : ℕ)
    → ltb max_channels (channels_or_max max_channels asked) ≡ true
    → max_channels < asked
too_many max_channels asked h = ground arith

enough :
    (max_channels asked : ℕ)
    → ltb max_channels (channels_or_max max_channels asked) ≡ false
    → asked ≤ max_channels
enough max_channels asked h = ground arith

-- The answer for a set-up of the channels.
abbrev answered : ℕ → ℕ → AudioSetup → AudioSetup × ℕ
answered asked reported s = (s, answer s.status asked reported)

set_channels-IsAnswered :
    (max_channels reported : ℕ) (av : Av) (selected : List AudioEffect)
    → IsAnswered max_channels reported av.num_audio_channels av.audio_system selected
        (answered av.num_audio_channels reported (set_channels max_channels av selected))
set_channels-IsAnswered max_channels reported av selected =
    if_rule
      (λ (s : AudioSetup).
        IsAnswered max_channels reported av.num_audio_channels av.audio_system selected
          (answered av.num_audio_channels reported s))
      (ltb max_channels (channels_or_max max_channels av.num_audio_channels)) _ _
      (λ t. refused (too_many max_channels av.num_audio_channels t) refl refl refl)
      (λ f. accepted (enough max_channels av.num_audio_channels f) refl refl refl)

select_input-IsSource :
    (system channel : ℕ) (source : AudioSource)
    → IsSource source
    → (l : List AudioEffect) × (select_input system channel source ≡ some l)
unfolding select_input
select_input-IsSource system channel source from_embedded = (_, refl)
select_input-IsSource system channel source from_hdmi = (_, refl)
select_input-IsSource system channel source from_aes = (_, refl)
select_input-IsSource system channel source from_analog = (_, refl)

-- For each of the four sources, `InitAudio` selects the input of the audio system of the channel, and then
-- fails exactly if more channels are asked for than the device has: the channels are not configured then, and
-- the caller gets the number that it asked for. If not, the channels that were asked for are configured, or
-- all if none were, and the caller gets the number that the device reports.
pub init_audio-IsAnswered :
    (max_channels reported asked : ℕ) (source : AudioSource) (av : Av)
    → IsSource source
    → let system = channel_below 8 av.input_channel in
      (l : List AudioEffect) × ((r : AudioSetup × ℕ) × ((select_input system av.input_channel source
            ≡ some l)
          × ((init_audio max_channels reported source asked av ≡ some r)
              × IsAnswered max_channels reported asked system l r)))
unfolding init_audio setup_audio
init_audio-IsAnswered max_channels reported asked source av i =
    let system = channel_below 8 av.input_channel in
    let av' : Av = record av {
      audio_source = source;
      num_audio_channels = asked;
      audio_system = system;
    } in
    let l = select_input-IsSource system av.input_channel source i in
    (
      l.0,
      (
        answered asked reported (set_channels max_channels av' l.0),
        (
          l.1,
          (
            ap (λ o. with_answer asked reported (with_selected max_channels av' o)) l.1,
            set_channels-IsAnswered max_channels reported av' l.0,
          ),
        ),
      ),
    )
