-- ===== src/Mode/Select.antt =====
-- Selecting a mode by its name, and the table against the names of the formats.
use mathlib.Core.Option
use Prim.Native.String.{String}
use text.Mathlib.Text.{◌==◌ as str_eq}
use text.Mathlib.TextEquality.{eq_iff}
use ntv2_gst.Prelude.{
  ℕ, ◌<◌, ◌≡◌, ◌≢◌, ◌↔◌, refl, Bool, true, false, not, ◌&&◌, ◌||◌, Option, none, some, ◌==◌,
  if◌then◌else◌, get_elem?, arith,
}
use ntv2_gst.Video.Nominal.{Rate, nominal_rate}
use ntv2_gst.Mode.Defs.{Mode}
use ntv2_gst.Mode.Table.{modes_raw}
use ntv2_gst.Mode.Nicks.{nicks}
use ntv2_gst.Mode.Caps.{get_mode_raw}
use ntv2_gst.Mode.Rows.{rows_hold, get_mode_raw-lt, get_mode_raw-holds}
use ntv2_gst.Mode.Naming.{nick_of}

abbrev nick_test : Option String → String → Bool
nick_test none s = false
nick_test (some t) s = str_eq s t

abbrev nick_row : ℕ → Mode → Bool
nick_row i m = (i == 22 || i == 119) || nick_test (get_elem? nicks i) (nick_of m)

nick_rows : rows_hold nick_row 0 modes_raw ≡ true
nick_rows = refl

nick_test-eq : (o : Option String) (s : String) → nick_test o s ≡ true → some s ≡ o
nick_test-eq none s h = cc
nick_test-eq (some t) s h = ground (arith, eq_iff s t)

not_skipped : (e : ℕ) (t : Bool) → e ≢ 22 → e ≢ 119 → ((e == 22 || e == 119) || t) ≡ true → t ≡ true
not_skipped e t not22 not119 h = ground arith

-- Each mode of the table but those at positions 22 and 119 is offered to the user under the name that its
-- row computes to.
pub nick-get_mode_raw :
    (e : ℕ) → e < 156 → e ≢ 22 → e ≢ 119 → Option.map nick_of (get_mode_raw e) ≡ get_elem? nicks e
nick-get_mode_raw e lt not22 not119 =
    let (m, found) = get_mode_raw-lt e lt in
    let row_ok : nick_row e m ≡ true = get_mode_raw-holds nick_row e m nick_rows lt found in
    rw found (nick_test-eq (get_elem? nicks e) (nick_of m) (not_skipped e _ not22 not119 row_ok))

abbrev rate_test : Option Rate → Mode → Bool
rate_test none m = false
rate_test (some r) m = r.num == m.fps_n && r.den == m.fps_d

abbrev rate_row : ℕ → Mode → Bool
rate_row i m =
    if i == 22
    then not (rate_test (nominal_rate m.video_format) m)
    else rate_test (nominal_rate m.video_format) m

rate_rows : rows_hold rate_row 0 modes_raw ≡ true
rate_rows = refl

abbrev pub mode_rate : Mode → Rate
mode_rate m = record { num = m.fps_n; den = m.fps_d }

rate_test-eq : (o : Option Rate) (m : Mode) → (rate_test o m ≡ true) ↔ (o ≡ some (mode_rate m))
rate_test-eq none m = ground arith
rate_test-eq (some r) m = ground arith

-- A mode of the table has the frame rate of its video format exactly if it is not the one at position 22.
pub rate-get_mode_raw :
    (e : ℕ) (m : Mode)
    → e < 156
    → get_mode_raw e ≡ some m
    → (nominal_rate m.video_format ≡ some (mode_rate m)) ↔ (e ≢ 22)
rate-get_mode_raw e m lt found =
    let row_ok : rate_row e m ≡ true = get_mode_raw-holds rate_row e m rate_rows lt found in
    let eq = rate_test-eq (nominal_rate m.video_format) m in ground arith
