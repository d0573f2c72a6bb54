-- ===== src/Elements/States.antt =====
-- `gst_aja_video_src_change_state` of gst-plugin/aja/gstajavideosrc.cpp and `gst_aja_audio_src_change_state` of
-- gst-plugin/aja/gstajaaudiosrc.cpp as a whole, with `open` and the acquisition of the input, for two sources
-- on one input. A call is none where the program follows a NULL pointer or runs into an assertion. What the
-- parent's change of state answers is an argument, as is all that the device answers.
pub mod Keeps
pub mod Opens
pub mod Changes
pub mod Safe
pub mod Again
use ntv2_gst.Prelude.{ℕ, Bool, true, false, not, ◌&&◌, if◌then◌else◌, Option, none, some, List}
use ntv2_gst.Video.Format.{VideoFormat}
use ntv2_gst.Mode.Defs.{Mode}
use ntv2_gst.Mode.Caps.{get_mode_raw}
use ntv2_gst.Capture.Defs.{Av, Status, success, fail}
use ntv2_gst.Capture.Init.Setup.{Answer, init}
use ntv2_gst.Capture.Lifecycle.{open_device}
use ntv2_gst.Capture.Routing.Crosspoints.{Formats, VideoEffect}
use ntv2_gst.Capture.Routing.{DeviceFacts}
use ntv2_gst.Capture.AudioSetup.{AudioSetup}
use ntv2_gst.Audio.Defs.{AudioSrc}
use ntv2_gst.Registry.{Slot, is_none, acquire_slot}
use ntv2_gst.Elements.{
  Shared, Elements, Changed, ready_to_paused as prepare_video, playing_to_paused as pause_video,
  paused_to_playing as resume_video, video_stop, video_close, audio_ready_to_paused, audio_stop,
  audio_close, video_start, audio_start,
}
use ntv2_gst.Elements.Opening.{init_args, AudioInputMode, audio_open}

pub data ElementState : Type 0 where
  state_null state_ready state_paused state_playing : ElementState

pub data Transition : Type 0 where
  null_to_ready ready_to_paused paused_to_playing : Transition
  playing_to_paused paused_to_ready ready_to_null : Transition

-- What a call meets: the object that would be made for the input, the device, the SDK and the build.
pub record Env : Type 0 where
  pub new_av : Av
  pub found : Bool
  pub nvmm_enabled : Bool
  pub is_uhd2 : VideoFormat → Bool
  pub is_large : VideoFormat → Bool
  pub sdi_format : VideoFormat
  pub formats : Formats
  pub facts : DeviceFacts
  pub reported : ℕ → Bool
  pub max_channels : ℕ
  pub reported_channels : ℕ
  pub audio_mode : AudioInputMode
  pub channels : ℕ

-- The input as the registry sees it, where the video source is the element 1 and the audio source 2.
abbrev pub slot_of : Shared → Slot
slot_of input = record {
  has_av = not (is_none input.av);
  audiosrc = if input.audiosrc then some 2 else none;
  videosrc = if input.videosrc then some 1 else none;
}

abbrev av_or_new : Av → Option Av → Av
av_or_new new_av none = new_av
av_or_new new_av (some av) = av

-- The acquired input has an object, an old or a new one.
abbrev pub acquired : Av → Slot → Shared → Shared
acquired new_av slot input = record input {
  av = some (av_or_new new_av input.av);
  audiosrc = not (is_none slot.audiosrc);
  videosrc = not (is_none slot.videosrc);
}

abbrev is_success : Status → Bool
is_success success = true
is_success _ = false

abbrev pub after_init : Shared → Answer → Option (Shared × Bool)
after_init input none = none
after_init input (some (status, (av, _))) = some (record input { av = some av }, is_success status)

-- `open` behind the acquisition, for the mode that is found.
abbrev pub open_mode : Env → Option Mode → Elements → Option (Shared × Bool)
open_mode env none e = none
open_mode env (some mode) e =
    let input = e.input in
    let opened = open_device env.found (av_or_new env.new_av input.av) in
    let ready : Shared = record input { mode = some mode; start_streams = true } in
    if is_success opened.0.1
    then after_init ready (
        init env.nvmm_enabled env.is_uhd2 env.sdi_format env.formats env.facts
          (init_args e.video.settings mode) opened.0.0)
    else some (record ready { av = some opened.0.0 }, false)

abbrev with_input : Elements → Option (Shared × Bool) → Option (Elements × Bool)
with_input e none = none
with_input e (some (input, ok)) = some (record e { input = input }, ok)

unfoldable pub open_video : Env → Elements → Option (Elements × Bool)
open_video env e =
    let r = acquire_slot 1 false (slot_of e.input) in
    let e' : Elements = record e { input = acquired env.new_av r.0 e.input } in
    if r.1
    then with_input e' (open_mode env (get_mode_raw e.video.mode_enum) e')
    else some (e', false)

abbrev pub after_init_audio : Shared → Option (AudioSetup × ℕ) → Option (Shared × Bool)
after_init_audio input none = none
after_init_audio input (some (s, _)) = some (record input { av = some s.av }, is_success s.status)

unfoldable pub open_audio : Env → Elements → Option (Elements × Bool)
open_audio env e =
    let r = acquire_slot 2 true (slot_of e.input) in
    let input = acquired env.new_av r.0 e.input in
    let opened =
      audio_open env.found env.max_channels env.reported_channels env.audio_mode env.channels
        (av_or_new env.new_av e.input.av) in
    let e' : Elements = record e { input = input } in
    if r.1 then with_input e' (after_init_audio input opened.0) else some (e', false)

-- A call on the device object follows its pointer.
abbrev pub on_av : {A : Type 0} → Option Av → Option A → Option A
on_av none r = none
on_av (some av) r = r

abbrev pub and_parent : Bool → Option (Elements × Bool) → Option (Elements × Bool)
and_parent parent none = none
and_parent parent (some (e, ok)) = some (e, ok && parent)

abbrev pub resumed : Option Changed → Option (Elements × Bool)
resumed none = none
resumed (some r) = some (r.elements, true)

-- The elements behind the call, and whether it succeeds.
unfoldable pub video_change_state : Env → Bool → Transition → Elements → Option (Elements × Bool)
video_change_state env parent null_to_ready e = and_parent parent (open_video env e)
video_change_state env parent ready_to_paused e =
    on_av e.input.av (some ((prepare_video e).elements, parent))
video_change_state env parent paused_to_playing e =
    if parent then resumed (resume_video env.nvmm_enabled env.is_large e) else some (e, false)
video_change_state env parent playing_to_paused e =
    some (if parent then (pause_video e).elements else e, parent)
video_change_state env parent paused_to_ready e =
    let stopped = some ((video_stop env.reported e).0.elements, parent) in
    if parent
    then (if e.input.video_enabled then on_av e.input.av stopped else stopped)
    else some (e, false)
video_change_state env parent ready_to_null e =
    some (if parent then (video_close env.reported e).elements else e, parent)

abbrev on_audio_av :
    Option Av → (Elements × AudioSrc) × Bool → Option ((Elements × AudioSrc) × Bool)
on_audio_av none r = none
on_audio_av (some av) r = some r

abbrev with_audio : AudioSrc → Option (Elements × Bool) → Option ((Elements × AudioSrc) × Bool)
with_audio src none = none
with_audio src (some (e, ok)) = some ((e, src), ok)

-- The elements with the audio source behind the call, and whether it succeeds.
unfoldable pub audio_change_state :
    Env → Bool → Transition → Elements × AudioSrc → Option ((Elements × AudioSrc) × Bool)
audio_change_state env parent null_to_ready (e, src) =
    with_audio src (and_parent parent (open_audio env e))
audio_change_state env parent ready_to_paused (e, src) =
    let r = audio_ready_to_paused e src in on_audio_av e.input.av (r.0, r.1 && parent)
audio_change_state env parent paused_to_ready (e, src) =
    let stopped : (Elements × AudioSrc) × Bool = ((audio_stop e src).0, parent) in
    if parent
    then (if e.input.audio_enabled then on_audio_av e.input.av stopped else some stopped)
    else some ((e, src), false)
audio_change_state env parent ready_to_null (e, src) =
    some ((if parent then (audio_close e).elements else e, src), parent)
audio_change_state env parent paused_to_playing (e, src) = some ((e, src), parent)
audio_change_state env parent playing_to_paused (e, src) = some ((e, src), parent)

abbrev pub from : Transition → ElementState
from null_to_ready = state_null
from ready_to_paused = state_ready
from paused_to_playing = state_paused
from playing_to_paused = state_playing
from paused_to_ready = state_paused
from ready_to_null = state_ready

abbrev pub to : Transition → ElementState
to null_to_ready = state_ready
to ready_to_paused = state_paused
to paused_to_playing = state_playing
to playing_to_paused = state_paused
to paused_to_ready = state_ready
to ready_to_null = state_null

-- Both sources with their states.
pub record Sources : Type 0 where
  pub elements : Elements
  pub audio : AudioSrc
  pub video_state : ElementState
  pub audio_state : ElementState

-- A change of state, for what the parent answers, or the start of a source on its streaming thread.
pub data Move : Type 0 where
  video_changes audio_changes : Bool → Transition → Move
  video_starts audio_starts : Move

abbrev is_playing : ElementState → Bool
is_playing state_playing = true
is_playing _ = false

-- An element that fails to change keeps its state.
abbrev pub video_changed : Transition → Sources → Option (Elements × Bool) → Option Sources
video_changed t s none = none
video_changed t s (some (e, ok)) =
    some (record s { elements = e; video_state = if ok then to t else s.video_state })

abbrev audio_changed : Transition → Sources → Option ((Elements × AudioSrc) × Bool) → Option Sources
audio_changed t s none = none
audio_changed t s (some ((e, src), ok)) =
    some (record s { elements = e; audio = src; audio_state = if ok then to t else s.audio_state })

abbrev pub started : Sources → Option Changed → Option Sources
started s none = none
started s (some r) = some (record s { elements = r.elements })

unfoldable pub move : Env → Move → Sources → Option Sources
move env (video_changes parent t) s = video_changed t s (video_change_state env parent t s.elements)
move env (audio_changes parent t) s =
    audio_changed t s (audio_change_state env parent t (s.elements, s.audio))
move env video_starts s =
    let e = s.elements in
    started s (
      video_start env.nvmm_enabled env.is_large (is_playing s.video_state)
        (get_mode_raw e.video.mode_enum) e)
move env audio_starts s =
    started s (audio_start env.nvmm_enabled env.is_large (is_playing s.video_state) s.elements)
