-- ===== src/Tests/Modes.antt =====
-- Runs for the mode table, on the first PAL mode and on an RGBA one.
use ntv2_gst.Prelude.{ℕ, ◌≡◌, ◌↔◌, ◌≢◌, refl, some, false, true, arith, get_elem?}
use mathlib.Core.Option
use mathlib.Core.List.{Memᴰ}
use ntv2_gst.Mode.Defs.{Mode, row, hd, rgba}
use ntv2_gst.Mode.Nicks.{nicks}
use ntv2_gst.Mode.Naming.{nick_of}
use ntv2_gst.Video.Format.{VideoFormat}
use ntv2_gst.Video.Nominal.{nominal_rate}
use ntv2_gst.Mode.Caps.{get_mode_raw, get_template_caps_raw, remove_colorimetry, structure_of}
use ntv2_gst.Mode.Select.{nick-get_mode_raw, rate-get_mode_raw, mode_rate}
use ntv2_gst.Mode.Template.{template-Mem_iff}
use ntv2_gst.Tests.Data.{mode_9}

abbrev mode_17 : Mode
mode_17 = row VideoFormat.format_720p_2398 1280 720 8 rgba 24000 1001 false true hd

nick-get_mode_raw_example : Option.map nick_of (get_mode_raw 9) ≡ get_elem? nicks 9
nick-get_mode_raw_example = nick-get_mode_raw 9 (omega arith) (omega arith) (omega arith)

get_mode_raw_9 : get_mode_raw 9 ≡ some mode_9
unfolding get_mode_raw
get_mode_raw_9 = refl

get_mode_raw_17 : get_mode_raw 17 ≡ some mode_17
unfolding get_mode_raw
get_mode_raw_17 = refl

rate-get_mode_raw_example :
    (nominal_rate mode_9.video_format ≡ some (mode_rate mode_9)) ↔ (◌≢◌ {A = ℕ} 9 22)
rate-get_mode_raw_example = rate-get_mode_raw 9 mode_9 (omega arith) get_mode_raw_9

template-Mem_iff_example :
    Memᴰ (remove_colorimetry (structure_of mode_9), false) (get_template_caps_raw true)
    ↔ (◌≢◌ {A = ℕ} 9 0)
template-Mem_iff_example = template-Mem_iff true 9 mode_9 (omega arith) get_mode_raw_9
