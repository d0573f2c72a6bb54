-- ===== src/Mode/Rows.antt =====
-- Facts about every row of a mode table, from one evaluation.
use ntv2_gst.Prelude.{
  ℕ, zero, suc, ◌+◌, ◌<◌, ◌≡◌, refl, ◌∙◌, Bool, true, ◌&&◌, none, some, List, [], ◌∷◌, get_elem?,
  length, arith,
}
use ntv2_gst.Mode.Defs.{Mode}
use ntv2_gst.Mode.Table.{modes_raw}
use ntv2_gst.Mode.Caps.{get_mode_raw}

-- A test of position and row holds of all rows, the first of which stands at `i`.
abbrev pub rows_hold : (ℕ → Mode → Bool) → ℕ → List Mode → Bool
rows_hold p i [] = true
rows_hold p i (m ∷ ms) = p i m && rows_hold p (i + 1) ms

rows_hold_at :
    (p : ℕ → Mode → Bool) (i j k : ℕ) (ms : List Mode) (m : Mode)
    → i + k ≡ j
    → rows_hold p i ms ≡ true
    → get_elem? ms k ≡ some m
    → p j m ≡ true
rows_hold_at p i j k [] m s h e = cc
rows_hold_at p i j zero (x ∷ ms) m s h e = let at : i ≡ j = omega arith in ground arith
rows_hold_at p i j (suc k) (x ∷ ms) m s h e =
    rows_hold_at p (i + 1) j k ms m (omega arith) (ground arith) e

get_elem?-lt {ℓ} :
    {A : Type ℓ} (xs : List A) (i : ℕ) → i < length xs → (a : A) × (get_elem? xs i ≡ some a)
get_elem?-lt [] i h = elim h [ ]
get_elem?-lt (x ∷ xs) zero h = (x, refl)
get_elem?-lt (x ∷ xs) (suc i) h = get_elem?-lt xs i (omega arith)

-- Inside the enumeration, looking up a mode is reading the table.
pub get_mode_raw-in : (e : ℕ) → e < 156 → get_mode_raw e ≡ get_elem? modes_raw e
unfolding get_mode_raw
get_mode_raw-in e h = ground arith

pub get_mode_raw-lt : (e : ℕ) → e < 156 → (m : Mode) × (get_mode_raw e ≡ some m)
get_mode_raw-lt e h =
    let (m, found) = get_elem?-lt modes_raw e h in (m, get_mode_raw-in e h ∙ found)

pub get_mode_raw-out : (e : ℕ) → 156 < suc e → get_mode_raw e ≡ none
unfolding get_mode_raw
get_mode_raw-out e h = ground arith

-- What a test says of all rows, it says of each mode that is found.
pub get_mode_raw-holds :
    (p : ℕ → Mode → Bool) (e : ℕ) (m : Mode)
    → rows_hold p 0 modes_raw ≡ true
    → e < 156
    → get_mode_raw e ≡ some m
    → p e m ≡ true
get_mode_raw-holds p e m h lt found =
    rows_hold_at p 0 e e modes_raw m (omega arith) h (rw (get_mode_raw-in e lt) at found)
