-- ===== src/Tests/States.antt =====
-- Runs for the changes of state of the sources.
use mathlib.Core.Option
use ntv2_gst.Prelude.{◌≡◌, refl, ap, true, false, Option, none, some, List, [], ◌∷◌, arith}
use ntv2_gst.Video.Format.{VideoFormat}
use ntv2_gst.Mode.Caps.{get_mode_raw}
use ntv2_gst.Registry.{acquire_slot}
use ntv2_gst.Capture.Lifecycle.{open_device}
use ntv2_gst.Capture.Defs.{is_hdmi1}
use ntv2_gst.Capture.Init.{init_config}
use ntv2_gst.Capture.Init.Setup.{init}
use ntv2_gst.Capture.Routing.{setup_video, select_input_source}
use ntv2_gst.Capture.AudioSetup.{init_audio, setup_audio, select_input}
use ntv2_gst.Elements.{Elements, video_close}
use ntv2_gst.Elements.Opening.{mode_embedded, audio_open}
use ntv2_gst.Elements.States.{
  Env, state_null, null_to_ready, ready_to_paused, ready_to_null, video_change_state,
  audio_change_state, open_video, open_audio, Move, video_changed, Sources, video_changes,
  audio_changes, move,
}
use ntv2_gst.Elements.States.Safe.{start, next, move-is_made}
use ntv2_gst.Elements.States.Again.{open-fails_again}
use ntv2_gst.Tests.Data.{test_av, mode_9, test_src, test_formats, test_device}
use ntv2_gst.Tests.VideoData.{test_element}

-- A device that is not there.
abbrev missing : Env
missing = record {
  new_av = record test_av { is_open = false };
  found = false;
  nvmm_enabled = false;
  is_uhd2 = λ _. false;
  is_large = λ _. false;
  sdi_format = VideoFormat.format_unknown;
  formats = test_formats;
  facts = test_device;
  reported = λ _. true;
  max_channels = 16;
  reported_channels = 16;
  audio_mode = mode_embedded;
  channels = 2;
}

abbrev present : Env
present = record missing { found = true }

abbrev closed_elements : Elements
closed_elements = record {
  input = record {
    av = none;
    mode = none;
    started = false;
    audiosrc = false;
    audio_enabled = false;
    videosrc = false;
    video_enabled = false;
    start_streams = false;
  };
  video = test_element;
}

abbrev closed : Sources
closed = record {
  elements = closed_elements;
  audio = test_src;
  video_state = state_null;
  audio_state = state_null;
}

-- Behind the failure the input has its roles and an object whose device is not open.
abbrev failed_elements : Elements
failed_elements = record {
  input = record {
    av = some (record test_av { is_open = false });
    mode = some mode_9;
    started = false;
    audiosrc = false;
    audio_enabled = false;
    videosrc = true;
    video_enabled = false;
    start_streams = true;
  };
  video = test_element;
}

abbrev failed : Sources
failed = record closed { elements = failed_elements }

open_failed :
    video_change_state missing true null_to_ready closed_elements ≡ some (failed_elements, false)
unfolding video_change_state open_video open_device get_mode_raw acquire_slot
open_failed = refl

-- The video source has failed to open; the audio source opens.
move-is_made_example :
    (u : Sources) × (move present (audio_changes true null_to_ready) failed ≡ some u)
unfolding move
move-is_made_example =
    move-is_made closed failed refl refl (omega arith)
      (next start missing (video_changes true null_to_ready) (refl, λ h. absurd (cc))
        (ap (video_changed null_to_ready closed) open_failed))
      present (audio_changes true null_to_ready) refl

open-fails_again_example :
    (e : Elements) × (video_change_state present true null_to_ready failed_elements
      ≡ some (e, false))
open-fails_again_example =
    open-fails_again missing true closed_elements failed_elements false open_failed present true

abbrev play : List Move → Option Sources → Option Sources
play [] s = s
play (m ∷ ms) none = none
play (m ∷ ms) (some s) = play ms (move present m s)

-- The video source is closed while the audio source is not: its next change follows a NULL pointer.
closed_too_early :
    play
      (video_changes true null_to_ready
        ∷ audio_changes true null_to_ready
        ∷ video_changes true ready_to_null
        ∷ audio_changes true ready_to_paused
        ∷ [])
      (some closed)
    ≡ none
unfolding move video_change_state audio_change_state open_video open_audio acquire_slot get_mode_raw
    open_device init init_config is_hdmi1 setup_video select_input_source audio_open init_audio
    setup_audio select_input video_close
closed_too_early = refl

-- In the other order both are closed.
closed_in_order :
    Option.map
      (λ (s : Sources). s.elements.input.av)
      (play
        (video_changes true null_to_ready
          ∷ audio_changes true null_to_ready
          ∷ audio_changes true ready_to_null
          ∷ video_changes true ready_to_null
          ∷ [])
        (some closed))
    ≡ some none
unfolding move video_change_state audio_change_state open_video open_audio acquire_slot get_mode_raw
    open_device init init_config is_hdmi1 setup_video select_input_source audio_open init_audio
    setup_audio select_input video_close
closed_in_order = refl
