-- ===== src/Property/Video.antt =====
-- The properties of the video source: `gst_aja_video_src_class_init`, `gst_aja_video_src_init`,
-- `gst_aja_video_src_set_property` and `gst_aja_video_src_get_property` of gst-plugin/aja/gstajavideosrc.cpp.
-- GObject calls them only with a value of the type that the property was installed with. ENABLE_NVMM is
-- `nvmm_enabled`, GST_CHECK_VERSION (1, 15, 0) `has_anc`, and NTV2_MAX_NUM_CHANNELS `max_channels`.
pub mod Valid
use Prim.Native.String.{String}
use ntv2_gst.Prelude.{
  ℕ, ◌-◌, ◌^◌, Bool, true, false, ◌&&◌, if◌then◌else◌, Option, none, some, List, [], ltb, leb,
}
use ntv2_gst.Mode.Caps.{mode_raw_end}
use ntv2_gst.Capture.Defs.{Av, SdiInputMode, TcIndex}
use ntv2_gst.Audio.Defs.{clock_time_none}
use ntv2_gst.VideoSource.Defs.{
  InputMode, input_sdi, TimecodeMode, vitc1, Settings, TimeWindow, AjaVideoSrc, SignalState,
  signal_unknown, signal_lost, signal_available,
}
use ntv2_gst.Elements.Opening.{tc_index_of}

pub data Prop : Type 0 where
  mode device_identifier input_mode sdi_input_mode input_channel passthrough queue_size : Prop
  output_stream_time skip_first_time timecode_mode output_cc signal capture_cpu_core nvmm : Prop

-- The values of a property, by its GParamSpec. A mode is a position in the table.
abbrev pub Value : Prop → Type 0
Value Prop.mode = ℕ
Value Prop.device_identifier = String
Value Prop.input_mode = InputMode
Value Prop.sdi_input_mode = SdiInputMode
Value Prop.input_channel = ℕ
Value Prop.passthrough = Bool
Value Prop.queue_size = ℕ
Value Prop.output_stream_time = Bool
Value Prop.skip_first_time = ℕ
Value Prop.timecode_mode = TimecodeMode
Value Prop.output_cc = Bool
Value Prop.signal = Bool
Value Prop.capture_cpu_core = ℕ
Value Prop.nvmm = Bool

-- The element, with what it keeps to acquire its input, and the device object of that input.
pub record Element : Type 0 where
  pub src : AjaVideoSrc
  pub device_identifier : String
  pub input_channel : ℕ
  pub av : Option Av

-- Whether a value lies in the range of its GParamSpec; each value of an enumeration and each text does.
unfoldable pub is_valid : ℕ → (p : Prop) → Value p → Bool
is_valid max_channels Prop.mode v = ltb v mode_raw_end
is_valid max_channels Prop.input_channel v = leb v (max_channels - 1)
is_valid max_channels Prop.queue_size v = leb 1 v && leb v (2 ^ 31 - 1)
is_valid max_channels Prop.skip_first_time v = leb v (2 ^ 64 - 1)
is_valid max_channels Prop.capture_cpu_core v = leb v (2 ^ 32 - 1)
is_valid max_channels _ v = true

abbrev with_settings : (Settings → Settings) → Element → Element
with_settings f e = let src = e.src in record e { src = record src { settings = f src.settings } }

-- The change of the timecode's source goes on to the device object, if there is one.
abbrev update_timecode_index : TcIndex → Option Av → Option Av
update_timecode_index index none = none
update_timecode_index index (some av) = some (record av { timecode_mode = index })

-- The element, and whether no warning of an invalid property is given.
unfoldable pub set_property : Bool → Bool → (p : Prop) → Value p → Element → Element × Bool
set_property nvmm_enabled has_anc Prop.mode v e =
    let src = e.src in (record e { src = record src { mode_enum = v } }, true)
set_property nvmm_enabled has_anc Prop.device_identifier v e =
    (record e { device_identifier = v }, true)
set_property nvmm_enabled has_anc Prop.input_mode v e =
    (with_settings (λ (s : Settings). record s { input_mode = v }) e, true)
set_property nvmm_enabled has_anc Prop.sdi_input_mode v e =
    (with_settings (λ (s : Settings). record s { sdi_input_mode = v }) e, true)
set_property nvmm_enabled has_anc Prop.input_channel v e = (record e { input_channel = v }, true)
set_property nvmm_enabled has_anc Prop.passthrough v e =
    (with_settings (λ (s : Settings). record s { passthrough = v }) e, true)
set_property nvmm_enabled has_anc Prop.queue_size v e =
    (with_settings (λ (s : Settings). record s { queue_size = v }) e, true)
set_property nvmm_enabled has_anc Prop.output_stream_time v e =
    (with_settings (λ (s : Settings). record s { output_stream_time = v }) e, true)
set_property nvmm_enabled has_anc Prop.skip_first_time v e =
    (with_settings (λ (s : Settings). record s { skip_first_time = v }) e, true)
set_property nvmm_enabled has_anc Prop.timecode_mode v e =
    let e' : Element = with_settings (λ (s : Settings). record s { timecode_mode = v }) e in
    (record e' { av = update_timecode_index (tc_index_of v) e.av }, true)
set_property nvmm_enabled has_anc Prop.output_cc v e = (
  with_settings (λ (s : Settings). record s { output_cc = if has_anc then v else false }) e,
  true,
)
set_property nvmm_enabled has_anc Prop.capture_cpu_core v e =
    (with_settings (λ (s : Settings). record s { capture_cpu_core = v }) e, true)
set_property nvmm_enabled has_anc Prop.nvmm v e =
    if nvmm_enabled
    then (with_settings (λ (s : Settings). record s { use_nvmm = v }) e, true)
    else (e, false)
set_property nvmm_enabled has_anc Prop.signal v e = (e, false)

abbrev is_available : SignalState → Bool
is_available signal_available = true
is_available signal_lost = false
is_available signal_unknown = false

-- None with the warning.
unfoldable pub get_property : Bool → (p : Prop) → Element → Option (Value p)
get_property nvmm_enabled Prop.mode e = some e.src.mode_enum
get_property nvmm_enabled Prop.device_identifier e = some e.device_identifier
get_property nvmm_enabled Prop.input_mode e = some e.src.settings.input_mode
get_property nvmm_enabled Prop.sdi_input_mode e = some e.src.settings.sdi_input_mode
get_property nvmm_enabled Prop.input_channel e = some e.input_channel
get_property nvmm_enabled Prop.passthrough e = some e.src.settings.passthrough
get_property nvmm_enabled Prop.queue_size e = some e.src.settings.queue_size
get_property nvmm_enabled Prop.output_stream_time e = some e.src.settings.output_stream_time
get_property nvmm_enabled Prop.skip_first_time e = some e.src.settings.skip_first_time
get_property nvmm_enabled Prop.timecode_mode e = some e.src.settings.timecode_mode
get_property nvmm_enabled Prop.output_cc e = some e.src.settings.output_cc
get_property nvmm_enabled Prop.signal e = some (is_available e.src.signal_state)
get_property nvmm_enabled Prop.capture_cpu_core e = some e.src.settings.capture_cpu_core
get_property nvmm_enabled Prop.nvmm e = if nvmm_enabled then some e.src.settings.use_nvmm else none

abbrev init_window : List (ℕ × ℕ) → TimeWindow → TimeWindow
init_window times w = record w {
  window_size = 64;
  times = times;
  window_fill = 0;
  window_skip = 1;
  window_skip_count = 0;
}

abbrev init_settings : Settings → Settings
init_settings s = record s {
  input_mode = input_sdi;
  sdi_input_mode = SdiInputMode.single_link;
  passthrough = false;
  queue_size = 10;
  output_stream_time = false;
  skip_first_time = 0;
  timecode_mode = vitc1;
  capture_cpu_core = 2 ^ 32 - 1;
}

-- For what the memory of the new element and of its times holds.
unfoldable pub init : List (ℕ × ℕ) → Element → Element
init times e =
    let src = e.src in
    record e {
      device_identifier = "0";
      input_channel = 0;
      src = record src {
        mode_enum = 15;
        settings = init_settings src.settings;
        window = init_window times src.window;
        signal_state = signal_unknown;
        current_frames = [];
        skipped_last = 0;
        skipped_overall = 0;
        skip_from_timestamp = clock_time_none;
        skip_to_timestamp = clock_time_none;
      };
    }
