-- ===== src/Mode/Caps.antt =====
-- How a mode becomes GStreamer caps: `gst_aja_get_mode_raw`, `gst_aja_mode_get_structure_raw`,
-- `gst_aja_mode_get_caps_raw` and `gst_aja_mode_get_template_caps_raw` of gst-plugin/aja/gstaja.cpp.
-- A NULL mode, which the code dereferences, is `none`. `ENABLE_NVMM` is the argument `nvmm_enabled`.
use mathlib.Core.Option
use ntv2_gst.Prelude.{
  ℕ, zero, suc, ◌+◌, Bool, true, false, ◌&&◌, ◌||◌, Option, none, some, List, [], ◌∷◌, ◌++◌, ltb,
  leb, ◌==◌, if◌then◌else◌, get_elem?,
}
use ntv2_gst.Mode.Defs.{Mode, Colorimetry}
use ntv2_gst.Mode.Table.{modes_raw}

-- `GST_AJA_MODE_RAW_END`.
abbrev pub mode_raw_end : ℕ
mode_raw_end = 156

unfoldable pub get_mode_raw : ℕ → Option Mode
get_mode_raw e = if ltb e 0 || leb mode_raw_end e then none else get_elem? modes_raw e

pub data PixelFormat : Type 0 where
  rgba_format uyvy v210 : PixelFormat

pub data InterlaceMode : Type 0 where
  interleaved progressive : InterlaceMode

pub data FieldOrder : Type 0 where
  top_field_first bottom_field_first : FieldOrder

-- A `video/x-raw` structure; the field that an optional entry stands for may be absent.
pub record Structure : Type 0 where
  pub format : PixelFormat
  pub width : ℕ
  pub height : ℕ
  pub framerate_n : ℕ
  pub framerate_d : ℕ
  pub interlace_mode : InterlaceMode
  pub par_n : ℕ
  pub par_d : ℕ
  pub colorimetry : Option Colorimetry
  pub field_order : Option FieldOrder

unfoldable pub structure_of : Mode → Structure
structure_of m = record {
  format = if m.is_rgba then rgba_format else (if m.bit_depth == 8 then uyvy else v210);
  width = m.width;
  height = m.height;
  framerate_n = m.fps_n;
  framerate_d = m.fps_d;
  interlace_mode = if m.is_interlaced then interleaved else progressive;
  par_n = m.par_n;
  par_d = m.par_d;
  colorimetry = some m.colorimetry;
  field_order =
      if m.is_interlaced
      then (if m.is_tff then some top_field_first else some bottom_field_first)
      else none;
}

unfoldable pub get_structure_raw : ℕ → Option Structure
get_structure_raw e = Option.map structure_of (get_mode_raw e)

-- Caps: structures, each with its mark for the feature `memory:NVMM`.
abbrev pub Caps : Type 0
Caps = List (Structure × Bool)

-- `gst_caps_set_features` with `memory:NVMM`, at a position.
abbrev pub set_nvmm : Caps → ℕ → Caps
set_nvmm [] i = []
set_nvmm ((s, f) ∷ caps) zero = (s, true) ∷ caps
set_nvmm ((s, f) ∷ caps) (suc i) = (s, f) ∷ set_nvmm caps i

unfoldable pub get_caps_raw : ℕ → Bool → Option Caps
get_caps_raw e is_nvmm =
    Option.map (λ s. let caps : Caps = (s, false) ∷ [] in if is_nvmm then set_nvmm caps 0 else caps)
      (get_structure_raw e)

-- `gst_structure_remove_field (s, "colorimetry")`.
abbrev pub remove_colorimetry : Structure → Structure
remove_colorimetry s = record s { colorimetry = none }

-- One round of the template's loop, at a mode: the caps and `numCaps`.
unfoldable pub template_round : Bool → Mode → Caps × ℕ → Caps × ℕ
template_round nvmm_enabled m (caps, num_caps) =
    let s = remove_colorimetry (structure_of m) in
    let caps' : Caps = caps ++ (s, false) ∷ [] in
    if nvmm_enabled && m.is_rgba
    then (set_nvmm (caps' ++ (s, false) ∷ []) (num_caps + 1), num_caps + 1 + 1)
    else (caps', num_caps + 1)

-- The rounds over the rows that are left.
unfoldable pub template_loop : Bool → List Mode → Caps × ℕ → Caps × ℕ
template_loop nvmm_enabled [] st = st
template_loop nvmm_enabled (m ∷ ms) st =
    template_loop nvmm_enabled ms (template_round nvmm_enabled m st)

-- The rows from a position on: the loop starts at `i = 1`.
abbrev pub rows_from : ℕ → List Mode → List Mode
rows_from zero ms = ms
rows_from (suc i) [] = []
rows_from (suc i) (m ∷ ms) = rows_from i ms

unfoldable pub get_template_caps_raw : Bool → Caps
get_template_caps_raw nvmm_enabled = (template_loop nvmm_enabled (rows_from 1 modes_raw) ([], 0)).0
