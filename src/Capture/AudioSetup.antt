-- ===== src/Capture/AudioSetup.antt =====
-- `InitAudio` and `SetupAudio` of gst-plugin/aja/gstntv2.cpp. The calls of the device are a list of effects.
-- An audio system and an embedded input are numbered from 0 on.
pub mod Accepted
use ntv2_gst.Prelude.{
  ℕ, Bool, true, false, ◌==◌, ltb, if◌then◌else◌, Option, none, some, List, [], ◌∷◌, ◌++◌,
}
use ntv2_gst.Capture.Defs.{Av, Status, success, fail, AudioSource, embedded, hdmi, aes, analog}

pub data AudioEffect : Type 0 where
  set_audio_system_input_source : ℕ → AudioSource → ℕ → AudioEffect
  set_embedded_audio_input : ℕ → ℕ → AudioEffect
  set_number_audio_channels : ℕ → ℕ → AudioEffect
  set_audio_rate_48k set_embedded_audio_clock set_audio_buffer_big set_loop_back_off :
      ℕ → AudioEffect

-- The channel of a switch with cases for the first `n` channels, and channel 1 by default.
abbrev pub channel_below : ℕ → ℕ → ℕ
channel_below n channel = if ltb channel n then channel else 0

abbrev pub select_both : ℕ → AudioSource → ℕ → List AudioEffect
select_both system source input =
    set_audio_system_input_source system source input ∷ set_embedded_audio_input input system ∷ []

-- The switch on the source; none where the code aborts.
unfoldable pub select_input : ℕ → ℕ → AudioSource → Option (List AudioEffect)
select_input system channel embedded = some (select_both system embedded (channel_below 8 channel))
select_input system channel hdmi = some (select_both system hdmi (channel_below 4 channel))
select_input system channel aes = some (set_audio_system_input_source system aes 0 ∷ [])
select_input system channel analog = some (set_audio_system_input_source system analog 0 ∷ [])
select_input system channel _ = none

-- The number of channels; `max_channels` is `NTV2DeviceGetMaxAudioChannels`.
abbrev pub channels_or_max : ℕ → ℕ → ℕ
channels_or_max max_channels n = if n == 0 then max_channels else n

abbrev pub configure : ℕ → ℕ → List AudioEffect
configure system channels =
    set_number_audio_channels channels system
    ∷ set_audio_rate_48k system
    ∷ set_embedded_audio_clock system
    ∷ set_audio_buffer_big system
    ∷ set_loop_back_off system
    ∷ []

-- The object and the status behind a call, and its effects.
pub record AudioSetup : Type 0 where
  pub av : Av
  pub status : Status
  pub effects : List AudioEffect

abbrev pub set_channels : ℕ → Av → List AudioEffect → AudioSetup
set_channels max_channels av selected =
    let n = channels_or_max max_channels av.num_audio_channels in
    let av' : Av = record av { num_audio_channels = n } in
    if ltb max_channels n
    then record { av = av'; status = fail; effects = selected }
    else record { av = av'; status = success; effects = selected ++ configure av.audio_system n }

abbrev pub with_selected : ℕ → Av → Option (List AudioEffect) → Option AudioSetup
with_selected max_channels av none = none
with_selected max_channels av (some selected) = some (set_channels max_channels av selected)

unfoldable pub setup_audio : ℕ → Av → Option AudioSetup
setup_audio max_channels av =
    let system = channel_below 8 av.input_channel in
    with_selected max_channels (record av { audio_system = system })
      (select_input system av.input_channel av.audio_source)

-- The number of channels that the caller of `InitAudio` gets: the one that it asked for if the set-up fails,
-- and else the one that the device reports.
abbrev pub answer : Status → ℕ → ℕ → ℕ
answer success asked reported = reported
answer _ asked reported = asked

abbrev pub with_answer : ℕ → ℕ → Option AudioSetup → Option (AudioSetup × ℕ)
with_answer asked reported none = none
with_answer asked reported (some s) = some (s, answer s.status asked reported)

unfoldable pub init_audio : ℕ → ℕ → AudioSource → ℕ → Av → Option (AudioSetup × ℕ)
init_audio max_channels reported source asked av =
    with_answer asked reported
      (setup_audio max_channels (record av { audio_source = source; num_audio_channels = asked }))
