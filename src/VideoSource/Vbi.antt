-- ===== src/VideoSource/Vbi.antt =====
-- `extract_cc_from_vbi` of gst-plugin/aja/gstajavideosrc.cpp. The parser of GStreamer is a parameter: from
-- the offsets of the lines that it was given, it tells whether a CEA-708 caption is found now.
pub mod Lines
use ntv2_gst.Prelude.{
  ℕ, zero, suc, ◌+◌, ◌-◌, ◌*◌, ◌/◌, ◌==◌, Bool, true, false, if◌then◌else◌, Option, none, some,
  List, [], ◌∷◌, ◌++◌,
}
use ntv2_gst.Mode.Defs.{Mode}

-- The bytes of a line; none for "Unsupported format for ancillary data !".
unfoldable pub line_width : ℕ → ℕ → Option ℕ
line_width height bit_depth =
    if height == 720
    then some (if bit_depth == 8 then 1280 * 2 else 1296 * 16 / 6)
    else if height == 1080
    then some (if bit_depth == 8 then 1920 * 2 else 1920 * 16 / 6)
    else none

-- `while (i < 15 && !found)`, for `left` lines from the one numbered `i` on: the line with a caption, and
-- the offsets of all lines read.
unfoldable pub scan_lines : (List ℕ → Bool) → ℕ → List ℕ → ℕ → ℕ → Option ℕ × List ℕ
scan_lines parse width read zero i = (none, read)
scan_lines parse width read (suc left) i =
    let here = read ++ i * width ∷ [] in
    let rest = scan_lines parse width here left (i + 1) in
    if parse here then (some i, here) else rest

abbrev pub first_line : Option ℕ → ℕ
first_line none = 0
first_line (some i) = i

abbrev pub scan_from : (List ℕ → Bool) → Option ℕ → Option ℕ → Option ℕ × List ℕ
scan_from parse last_line none = (last_line, [])
scan_from parse last_line (some width) =
    scan_lines parse width [] (15 - first_line last_line) (first_line last_line)

-- The call, for `last_cc_vbi_line`: the new one, and the lines read.
unfoldable pub extract_cc : (List ℕ → Bool) → Mode → Option ℕ → Option ℕ × List ℕ
extract_cc parse mode last_line = scan_from parse last_line (line_width mode.height mode.bit_depth)
