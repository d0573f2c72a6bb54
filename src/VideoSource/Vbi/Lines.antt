-- ===== src/VideoSource/Vbi/Lines.antt =====
-- The lines that are read for captions, and the ancillary data that the capture loop gives with a buffer
-- (gst-plugin/aja/gstntv2.cpp).
use ntv2_gst.Prelude.{
  ℕ, zero, suc, ◌+◌, ◌-◌, ◌*◌, ◌/◌, ◌≤◌, ◌<◌, Bool, ◌==◌, Option, none, some, List, [], ◌∷◌, ◌++◌,
  ◌≡◌, refl, sym, arith, if_rule, if_both, subst,
}
use ntv2_gst.Mode.Defs.{Mode}
use ntv2_gst.Capture.Worker.{Geometry, vanc_offset}
use ntv2_gst.VideoSource.Vbi.{line_width, scan_lines, scan_from, extract_cc}

-- The frame geometries with ancillary data, for the picture heights that they hold.
pub data HasVanc : Geometry → ℕ → Type 0 where
  vanc_1080 : HasVanc Geometry.fg_1920x1112 1080
  vanc_720 : HasVanc Geometry.fg_1280x740 720

-- Offsets of lines of some width, all before `size`.
abbrev pub AllWithin : ℕ → ℕ → List ℕ → Type 0
AllWithin size width [] = Unit
AllWithin size width (o ∷ os) = (o + width ≤ size) × AllWithin size width os

abbrev pub LineOk : Option ℕ → Type 0
LineOk none = Unit
LineOk (some i) = i < 15

within-append :
    (size width o : ℕ) (os : List ℕ)
    → o + width ≤ size
    → AllWithin size width os
    → AllWithin size width (os ++ o ∷ [])
within-append size width o [] h k = (h, tt)
within-append size width o (p ∷ os) h k = (k.0, within-append size width o os h k.1)

line_end : (i left width size : ℕ) → (i + suc left) * width ≤ size → i * width + width ≤ size
line_end i left width size h = grind arith

scan_lines-within :
    (parse : List ℕ → Bool) (width size : ℕ) (read : List ℕ) (left i : ℕ)
    → i + left ≤ 15
    → (i + left) * width ≤ size
    → AllWithin size width read
    → AllWithin size width (scan_lines parse width read left i).1
      × LineOk (scan_lines parse width read left i).0
unfolding scan_lines
scan_lines-within parse width size read zero i b h k = (k, tt)
scan_lines-within parse width size read (suc left) i b h k =
    let here = within-append size width (i * width) read (line_end i left width size h) k in
    if_rule (λ (r : Option ℕ × List ℕ). AllWithin size width r.1 × LineOk r.0)
      (parse (read ++ i * width ∷ [])) _ _ (λ _. (here, omega arith))
      (λ _.
        scan_lines-within parse width size (read ++ i * width ∷ []) left (i + 1) (omega arith)
          (subst (λ n. n * width ≤ size) (omega arith) h) here)

-- A scan whose lines have a width, and lie within `size` bytes.
pub record IsScanned (size : ℕ) (width : Option ℕ) (r : Option ℕ × List ℕ) : Type 0 where
  pub some_width : ℕ
  pub has_width : width ≡ some some_width
  pub lines : AllWithin size some_width r.1
  pub last_line : LineOk r.0

scan_from-IsScanned :
    (parse : List ℕ → Bool) (last : Option ℕ) (width size : ℕ)
    → LineOk last
    → 15 * width ≤ size
    → IsScanned size (some width) (scan_from parse last (some width))
scan_from-IsScanned parse none width size h k =
    let r = scan_lines-within parse width size [] 15 0 (omega arith) k tt in
    record { some_width = width; has_width = refl; lines = r.0; last_line = r.1 }
scan_from-IsScanned parse (some i) width size h k =
    let r =
      scan_lines-within parse width size [] (15 - i) i (omega arith)
        (subst (λ n. n * width ≤ size) (omega arith) k) tt in
    record { some_width = width; has_width = refl; lines = r.0; last_line = r.1 }

vanc_fits :
    (g : Geometry) (height bits : ℕ)
    → HasVanc g height
    → (w : ℕ) × ((line_width height bits ≡ some w) × (15 * w ≤ vanc_offset g bits))
unfolding line_width vanc_offset
vanc_fits g height bits vanc_1080 =
    if_both (λ w (size : ℕ). (v : ℕ) × ((some w ≡ some v) × (15 * v ≤ size))) (bits == 8) _ _ _ _
      (λ _. (1920 * 2, (refl, omega arith))) (λ _. (1920 * 16 / 6, (refl, omega arith)))
vanc_fits g height bits vanc_720 =
    if_both (λ w (size : ℕ). (v : ℕ) × ((some w ≡ some v) × (15 * v ≤ size))) (bits == 8) _ _ _ _
      (λ _. (1280 * 2, (refl, omega arith))) (λ _. (1296 * 16 / 6, (refl, omega arith)))

-- The search for captions never reads behind the ancillary data. For a mode of 1080 or 720 lines and the
-- frame geometry with room above its picture, and a line number from before that is below 15, or none: all
-- lines that are read, in full, lie within the bytes that the capture loop puts before the picture, and the
-- line number that is kept is below 15, or none.
pub extract_cc-IsScanned :
    (parse : List ℕ → Bool) (g : Geometry) (mode : Mode) (last : Option ℕ)
    → HasVanc g mode.height
    → LineOk last
    → IsScanned
        (vanc_offset g mode.bit_depth)
        (line_width mode.height mode.bit_depth)
        (extract_cc parse mode last)
unfolding extract_cc
extract_cc-IsScanned parse g mode last v h =
    let f = vanc_fits g mode.height mode.bit_depth v in
    subst (λ w. IsScanned (vanc_offset g mode.bit_depth) w (scan_from parse last w)) (sym f.1.0)
      (scan_from-IsScanned parse last f.0 _ h f.1.1)
