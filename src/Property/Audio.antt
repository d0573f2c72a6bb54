-- ===== src/Property/Audio.antt =====
-- The properties of the audio source: `gst_aja_audio_src_class_init`, `gst_aja_audio_src_init`,
-- `gst_aja_audio_src_set_property` and `gst_aja_audio_src_get_property` of gst-plugin/aja/gstajaaudiosrc.cpp.
-- GObject calls them only with a value of the type that the property was installed with.
-- NTV2_MAX_NUM_CHANNELS is `max_channels`.
pub mod Checked
use Prim.Native.String.{String}
use ntv2_gst.Prelude.{ℕ, ◌-◌, ◌*◌, ◌^◌, Bool, true, ◌&&◌, [], leb}
use ntv2_gst.Audio.Defs.{AudioSrc, clock_time_none, second}
use ntv2_gst.Elements.Opening.{AudioInputMode, mode_embedded}

pub data Prop : Type 0 where
  device_identifier input_mode input_channel channels alignment_threshold discont_wait : Prop
  queue_size : Prop

-- The values of a property, by its GParamSpec.
abbrev pub Value : Prop → Type 0
Value Prop.device_identifier = String
Value Prop.input_mode = AudioInputMode
Value Prop.input_channel = ℕ
Value Prop.channels = ℕ
Value Prop.alignment_threshold = ℕ
Value Prop.discont_wait = ℕ
Value Prop.queue_size = ℕ

-- The element, with what it keeps to acquire and to set up its input.
pub record Element : Type 0 where
  pub src : AudioSrc
  pub device_identifier : String
  pub input_mode : AudioInputMode
  pub input_channel : ℕ
  pub channels : ℕ

-- Whether a value lies in the range of its GParamSpec.
unfoldable pub is_valid : ℕ → (p : Prop) → Value p → Bool
is_valid max_channels Prop.input_channel v = leb v (max_channels - 1)
is_valid max_channels Prop.channels v = leb 2 v && leb v 16
is_valid max_channels Prop.alignment_threshold v = leb v (2 ^ 64 - 1 - 1)
is_valid max_channels Prop.discont_wait v = leb v (2 ^ 64 - 1 - 1)
is_valid max_channels Prop.queue_size v = leb 1 v && leb v (2 ^ 31 - 1)
is_valid max_channels _ v = true

unfoldable pub set_property : (p : Prop) → Value p → Element → Element
set_property Prop.device_identifier v e = record e { device_identifier = v }
set_property Prop.input_mode v e = record e { input_mode = v }
set_property Prop.input_channel v e = record e { input_channel = v }
set_property Prop.channels v e = record e { channels = v }
set_property Prop.alignment_threshold v e =
    let src = e.src in record e { src = record src { alignment_threshold = v } }
set_property Prop.discont_wait v e =
    let src = e.src in record e { src = record src { discont_wait = v } }
set_property Prop.queue_size v e =
    let src = e.src in record e { src = record src { queue_size = v } }

unfoldable pub get_property : (p : Prop) → Element → Value p
get_property Prop.device_identifier e = e.device_identifier
get_property Prop.input_mode e = e.input_mode
get_property Prop.input_channel e = e.input_channel
get_property Prop.channels e = e.channels
get_property Prop.alignment_threshold e = e.src.alignment_threshold
get_property Prop.discont_wait e = e.src.discont_wait
get_property Prop.queue_size e = e.src.queue_size

-- For what the memory of the new element holds.
unfoldable pub init : Element → Element
init e =
    let src = e.src in
    record e {
      input_channel = 0;
      input_mode = mode_embedded;
      device_identifier = "0";
      channels = 8;
      src = record src {
        queue_size = 10;
        alignment_threshold = 40 * 1_000_000;
        discont_wait = 1 * second;
        current_packets = [];
        skipped_last = 0;
        skipped_overall = 0;
        skip_from_timestamp = clock_time_none;
        skip_to_timestamp = clock_time_none;
      };
    }
