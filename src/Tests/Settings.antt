-- ===== src/Tests/Settings.antt =====
-- Runs for the properties, the queries and the devices of the sources.
use native.Mathlib.Nat.{div-add-mod', mod-lt}
use Prim.Native.String.{String}
use text.Mathlib.Text.{◌==◌ as str_eq}
use ntv2_gst.Prelude.{
  ℕ, ◌+◌, ◌-◌, ◌*◌, ◌/◌, ◌≡◌, refl, true, false, Option, some, List, [], ◌∷◌, map, arith,
  if◌then◌else◌, ◌==◌, get_elem?,
}
use ntv2_gst.Mode.Defs.{Mode}
use ntv2_gst.Mode.Nicks.{nicks}
use ntv2_gst.Mode.Caps.{get_mode_raw}
use ntv2_gst.Elements.{Shared}
use ntv2_gst.Elements.Opening.{mode_embedded}
use ntv2_gst.Query.{Latency, query_latency, query}
use ntv2_gst.Query.Bounds.{IsScaleCeil, IsLatency, query-IsLatency}
use ntv2_gst.Property.Video
use ntv2_gst.Property.Audio
use ntv2_gst.Property.Video.Valid.{Call, sets, IsValid, sets-init-IsValid}
use ntv2_gst.Provider.{DeviceInfo, probe, Element, video_element, audio_element, create_element}
use ntv2_gst.Provider.Probe.{sources, probe-sources}
use ntv2_gst.Tests.Data.{mode_9, test_av, test_src}
use ntv2_gst.Tests.VideoData.{test_element}

abbrev test_ceil : ℕ → ℕ → ℕ → ℕ
test_ceil val num denom = (val * num + denom - 1) / denom

test_ceil-IsScaleCeil : IsScaleCeil test_ceil
test_ceil-IsScaleCeil val num denom pos fits =
    let t = val * num + denom - 1 in
    let whole = div-add-mod' t denom in let rest = mod-lt t pos in (omega arith, omega arith)

abbrev test_shared : Shared
test_shared = record {
  av = some test_av;
  mode = some mode_9;
  started = false;
  audiosrc = false;
  audio_enabled = false;
  videosrc = true;
  video_enabled = false;
  start_streams = true;
}

mode_9-found : get_mode_raw 9 ≡ some mode_9
unfolding get_mode_raw
mode_9-found = refl

query-IsLatency_example :
    (l : Latency) × (query test_ceil true 10 (some test_shared) query_latency ≡ (true, some l))
    × IsLatency mode_9 10 l
query-IsLatency_example =
    query-IsLatency test_ceil test_ceil-IsScaleCeil true 9 mode_9 10 test_shared (omega arith)
      mode_9-found (omega arith) refl

abbrev test_video_element : Video.Element
test_video_element = record {
  src = test_element;
  device_identifier = "1";
  input_channel = 2;
  av = some test_av;
}

abbrev test_calls : List Call
test_calls = (Video.Prop.mode, 9) ∷ (Video.Prop.queue_size, 3) ∷ []

sets-init-IsValid_example :
    let e' = sets false true (Video.init [] test_video_element) test_calls in
    IsValid 8 e' × ((m : Mode) × (get_mode_raw e'.src.mode_enum ≡ some m))
unfolding Video.is_valid
sets-init-IsValid_example =
    sets-init-IsValid false true 8 (omega arith) [] test_video_element test_calls (refl, (refl, tt))

-- The default is the mode that the user knows as "720p5994".
default_mode : get_elem? nicks (Video.init [] test_video_element).src.mode_enum ≡ some "720p5994"
unfolding Video.init
default_mode = refl

abbrev test_audio_element : Audio.Element
test_audio_element = record {
  src = test_src;
  device_identifier = "1";
  input_mode = mode_embedded;
  input_channel = 2;
  channels = 2;
}

abbrev test_info : ℕ → ℕ → DeviceInfo
test_info index inputs = record {
  device_id = 5;
  device_index = index;
  pci_slot = 0;
  device_serial_number = 9;
  device_identifier = "kona";
  num_vid_inputs = inputs;
  num_anlg_vid_inputs = 0;
  num_hdmi_vid_inputs = 1;
  num_audio_streams = 8;
  num_analog_audio_input_channels = 0;
  num_aes_audio_input_channels = 0;
  num_embedded_audio_input_channels = 16;
  num_hdmi_audio_input_channels = 8;
  dual_link_support = false;
  sdi_3g_support = true;
  sdi_12g_support = true;
  ip_support = false;
  bi_directional_sdi = true;
  ltc_in_support = true;
  ltc_in_on_ref_port = false;
  has_2k_support = true;
  has_4k_support = true;
  has_8k_support = false;
}

abbrev test_print : ℕ → String
test_print n = if n == 0 then "0" else "1"

abbrev test_make : String → Option Element
test_make name =
    if str_eq name "ajavideosrc"
    then some (video_element test_video_element)
    else some (audio_element test_audio_element)

-- An output device, and one with four inputs.
probe-sources_example :
    map (create_element test_print test_make) (probe false (test_info 0 0 ∷ test_info 1 4 ∷ []))
    ≡ sources test_print test_video_element test_audio_element (test_info 0 0 ∷ test_info 1 4 ∷ [])
probe-sources_example =
    probe-sources test_print test_make test_video_element test_audio_element refl refl false
      (test_info 0 0 ∷ test_info 1 4 ∷ [])
