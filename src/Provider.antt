-- ===== src/Provider.antt =====
-- The devices that gst-plugin/aja/gstajadeviceprovider.cpp lists, and the elements that they make. The list of the
-- scanner, the printing of an unsigned number, and the factories of the elements are parameters.
pub mod Probe
use Prim.Native.String.{String, ◌++◌ as str_append}
use ntv2_gst.Prelude.{ℕ, Bool, true, false, ◌==◌, if◌then◌else◌, Option, none, some, List, [], ◌∷◌}
use mathlib.Core.List.{reverse}
use ntv2_gst.Mode.Caps.{Caps, get_template_caps_raw}
use ntv2_gst.Property.Video
use ntv2_gst.Property.Audio

-- The members of `NTV2DeviceInfo` that are read.
pub record DeviceInfo : Type 0 where
  pub device_id : ℕ
  pub device_index : ℕ
  pub pci_slot : ℕ
  pub device_serial_number : ℕ
  pub device_identifier : String
  pub num_vid_inputs : ℕ
  pub num_anlg_vid_inputs : ℕ
  pub num_hdmi_vid_inputs : ℕ
  pub num_audio_streams : ℕ
  pub num_analog_audio_input_channels : ℕ
  pub num_aes_audio_input_channels : ℕ
  pub num_embedded_audio_input_channels : ℕ
  pub num_hdmi_audio_input_channels : ℕ
  pub dual_link_support : Bool
  pub sdi_3g_support : Bool
  pub sdi_12g_support : Bool
  pub ip_support : Bool
  pub bi_directional_sdi : Bool
  pub ltc_in_support : Bool
  pub ltc_in_on_ref_port : Bool
  pub has_2k_support : Bool
  pub has_4k_support : Bool
  pub has_8k_support : Bool

pub data PropertyValue : Type 0 where
  uint uint64 : ℕ → PropertyValue
  boolean : Bool → PropertyValue
  text : String → PropertyValue

-- The caps of a device: those of the template, or the text of the audio ones.
pub data DeviceCaps : Type 0 where
  raw_video : Caps → DeviceCaps
  raw_audio : String → DeviceCaps

pub record AjaDevice : Type 0 where
  pub display_name : String
  pub device_class : String
  pub caps : DeviceCaps
  pub properties : List (String × PropertyValue)
  pub video : Bool
  pub device_index : ℕ

abbrev pub properties_of : DeviceInfo → List (String × PropertyValue)
properties_of d =
    ("device-id", uint d.device_id)
    ∷ ("device-index", uint d.device_index)
    ∷ ("pci-slot", uint d.pci_slot)
    ∷ ("serial-number", uint64 d.device_serial_number)
    ∷ ("device-identifier", text d.device_identifier)
    ∷ ("num-vid-inputs", uint d.num_vid_inputs)
    ∷ ("num-anlg-vid-inputs", uint d.num_anlg_vid_inputs)
    ∷ ("num-hdmi-vid-inputs", uint d.num_hdmi_vid_inputs)
    ∷ ("num-audio-streams", uint d.num_audio_streams)
    ∷ ("num-analog-audio-input-channels", uint d.num_analog_audio_input_channels)
    ∷ ("num-aes-audio-input-channels", uint d.num_aes_audio_input_channels)
    ∷ ("num-embedded-audio-input-channels", uint d.num_embedded_audio_input_channels)
    ∷ ("num-hdmi-audio-input-channels", uint d.num_hdmi_audio_input_channels)
    ∷ ("dual-link-support", boolean d.dual_link_support)
    ∷ ("sdi-3g-support", boolean d.sdi_3g_support)
    ∷ ("sdi-12g-support", boolean d.sdi_12g_support)
    ∷ ("ip-support", boolean d.ip_support)
    ∷ ("bi-directional-sdi", boolean d.bi_directional_sdi)
    ∷ ("ltc-in-support", boolean d.ltc_in_support)
    ∷ ("ltc-in-on-ref-port", boolean d.ltc_in_on_ref_port)
    ∷ ("2k-support", boolean d.has_2k_support)
    ∷ ("4k-support", boolean d.has_4k_support)
    ∷ ("8k-support", boolean d.has_8k_support)
    ∷ []

abbrev audio_caps_text : String
audio_caps_text =
    str_append "audio/x-raw, format=S32LE, channels=[1,2], rate=48000, layout=interleaved;" (
      str_append "audio/x-raw, format=S32LE, channels=[3,16], rate=48000, "
        "channel-mask = (bitmask) 0, layout=interleaved;")

abbrev display_name_of : DeviceInfo → Bool → String
display_name_of d video = str_append "AJA " (
    str_append d.device_identifier
      (str_append " (" (str_append (if video then "Video" else "Audio") ")")))

unfoldable pub device_new : Bool → DeviceInfo → Bool → AjaDevice
device_new nvmm_enabled d video = record {
  display_name = display_name_of d video;
  device_class = if video then "Video/Source" else "Audio/Source";
  caps =
      if video then raw_video (get_template_caps_raw nvmm_enabled) else raw_audio audio_caps_text;
  properties = properties_of d;
  video = video;
  device_index = d.device_index;
}

-- The loop, which puts each device in front of those before it.
abbrev pub probe_loop : Bool → List DeviceInfo → List AjaDevice → List AjaDevice
probe_loop nvmm_enabled [] ret = ret
probe_loop nvmm_enabled (d ∷ ds) ret = probe_loop nvmm_enabled ds (
    if d.num_vid_inputs == 0
    then ret
    else device_new nvmm_enabled d false ∷ device_new nvmm_enabled d true ∷ ret)

unfoldable pub probe : Bool → List DeviceInfo → List AjaDevice
probe nvmm_enabled devices = reverse (probe_loop nvmm_enabled devices [])

-- An element that a factory has made.
pub data Element : Type 0 where
  video_element : Video.Element → Element
  audio_element : Audio.Element → Element

abbrev pub set_identifier : String → Element → Element
set_identifier s (video_element e) =
    video_element (Video.set_property false true Video.Prop.device_identifier s e).0
set_identifier s (audio_element e) =
    audio_element (Audio.set_property Audio.Prop.device_identifier s e)

abbrev set_if_made : String → Option Element → Option Element
set_if_made s none = none
set_if_made s (some e) = some (set_identifier s e)

-- For the factory of an element's name, which may fail.
unfoldable pub create_element :
    (ℕ → String) → (String → Option Element) → AjaDevice → Option Element
create_element print make self =
    set_if_made (print self.device_index)
      (make (if self.video then "ajavideosrc" else "ajaaudiosrc"))
