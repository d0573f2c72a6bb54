-- ===== src/Mode/Unique.antt =====
-- Two modes never have the same caps.
use ntv2_gst.Prelude.{
  ℕ, ◌+◌, ◌*◌, ◌<◌, ◌≡◌, refl, ap, Bool, true, not, ◌||◌, ◌==◌, if◌then◌else◌, arith,
}
use ntv2_gst.Mode.Defs.{Mode}
use ntv2_gst.Mode.Table.{modes_raw}
use ntv2_gst.Mode.Caps.{
  Structure, PixelFormat, rgba_format, uyvy, v210, interleaved, progressive, structure_of,
  get_structure_raw,
}
use ntv2_gst.Mode.Rows.{rows_hold, get_mode_raw-lt, get_mode_raw-holds}

abbrev format_code : PixelFormat → ℕ
format_code rgba_format = 0
format_code uyvy = 1
format_code v210 = 2

-- A number computed from a structure that no two modes share.
abbrev key : Structure → ℕ
key s =
    (((s.framerate_n * 1002 + s.framerate_d) * 8193 + s.width) * 3 + format_code s.format) * 4
    + (elim s.interlace_mode [ interleaved ↦ 1 | progressive ↦ 0 ])
    + (if s.par_n == 12 then 2 else 0)

abbrev key_test : ℕ → ℕ → ℕ → Mode → Bool
key_test i k j m = i == j || not (k == key (structure_of m))

abbrev key_row : ℕ → Mode → Bool
key_row i m = rows_hold (key_test i (key (structure_of m))) 0 modes_raw

key_rows : rows_hold key_row 0 modes_raw ≡ true
unfolding structure_of
key_rows = refl

key_test-eq : (i j k : ℕ) (m : Mode) → key_test i k j m ≡ true → k ≡ key (structure_of m) → i ≡ j
key_test-eq i j k m h e = ground arith

-- Two modes of the table with the same caps structure are the same mode.
get_structure_raw-injective :
    (e e' : ℕ) → e < 156 → e' < 156 → get_structure_raw e ≡ get_structure_raw e' → e ≡ e'
unfolding get_structure_raw
get_structure_raw-injective e e' lt lt' same =
    let (m, found) = get_mode_raw-lt e lt in
    let (m', found') = get_mode_raw-lt e' lt' in
    let equal : structure_of m ≡ structure_of m' = cc in
    key_test-eq e e' (key (structure_of m)) m'
      (get_mode_raw-holds (key_test e (key (structure_of m))) e' m'
        (get_mode_raw-holds key_row e m key_rows lt found) lt' found')
      (ap key equal)
