-- ===== src/Mode/Template.antt =====
-- The template caps of the video source: which modes they offer.
use mathlib.Core.List.{Memᴰ, append_assoc, append-nil}
use mathlib.Core.List.Memᴰ
use ntv2_gst.Prelude.{
  ℕ, zero, suc, ◌+◌, ◌<◌, ◌≡◌, ◌≢◌, ◌↔◌, refl, Bool, true, false, not, ◌&&◌, some, List, [], ◌∷◌,
  ◌++◌, ◌==◌, get_elem?, arith, length, length-append, ◌∙◌, sym, ap, subst,
}
use ntv2_gst.Mode.Defs.{Mode}
use ntv2_gst.Mode.Table.{modes_raw}
use ntv2_gst.Mode.Caps.{
  uyvy, Structure, Caps, get_mode_raw, structure_of, remove_colorimetry, set_nvmm, template_round,
  template_loop, get_template_caps_raw, rows_from,
}
use ntv2_gst.Mode.Rows.{get_mode_raw-in}

-- Marking the position behind `caps'` marks the entry that was appended last.
set_nvmm-append :
    (caps : Caps) (i : ℕ) (s : Structure)
    → length caps ≡ i
    → set_nvmm (caps ++ (s, false) ∷ []) i ≡ caps ++ (s, true) ∷ []
set_nvmm-append [] zero s h = refl
set_nvmm-append [] (suc i) s h = absurd (omega arith)
set_nvmm-append (c ∷ caps) zero s h = absurd (omega arith)
set_nvmm-append ((t, f) ∷ caps) (suc i) s h =
    ap (λ (l : Caps). (t, f) ∷ l) (set_nvmm-append caps i s (omega arith))

abbrev listed : Bool → Structure → Caps
listed true s = (s, false) ∷ (s, true) ∷ []
listed false s = (s, false) ∷ []

-- What a round appends.
abbrev entries : Bool → Mode → Caps
entries nvmm m = listed (nvmm && m.is_rgba) (remove_colorimetry (structure_of m))

abbrev all_entries : Bool → List Mode → Caps
all_entries nvmm [] = []
all_entries nvmm (m ∷ ms) = entries nvmm m ++ all_entries nvmm ms

round-entries :
    (nvmm : Bool) (m : Mode) (caps : Caps) (n : ℕ)
    → length caps ≡ n
    → template_round nvmm m (caps, n) ≡ (caps ++ entries nvmm m, n + length (entries nvmm m))
unfolding template_round
round-entries nvmm m caps n h =
    let s : Structure = remove_colorimetry (structure_of m) in
    let two : caps ++ (s, false) ∷ [] ++ (s, true) ∷ [] ≡ caps ++ ((s, false) ∷ (s, true) ∷ []) =
      append_assoc caps ((s, false) ∷ []) ((s, true) ∷ []) in
    let marked : set_nvmm (caps ++ (s, false) ∷ [] ++ (s, false) ∷ []) (n + 1)
        ≡ caps ++ (s, false) ∷ [] ++ (s, true) ∷ [] =
      set_nvmm-append (caps ++ (s, false) ∷ []) (n + 1) s
        (omega (arith, length-append caps ((s, false) ∷ []))) in
    ground (arith)

loop-entries :
    (nvmm : Bool) (ms : List Mode) (caps : Caps) (n : ℕ)
    → length caps ≡ n
    → (template_loop nvmm ms (caps, n)).0 ≡ caps ++ all_entries nvmm ms
unfolding template_loop
loop-entries nvmm [] caps n h = sym (append-nil caps)
loop-entries nvmm (m ∷ ms) caps n h =
    ap (λ (st : Caps × ℕ). (template_loop nvmm ms st).0) (round-entries nvmm m caps n h)
    ∙ loop-entries nvmm ms (caps ++ entries nvmm m) _
        (omega (arith, length-append caps (entries nvmm m)))
    ∙ append_assoc caps (entries nvmm m) (all_entries nvmm ms)

template-entries :
    (nvmm : Bool) → get_template_caps_raw nvmm ≡ all_entries nvmm (rows_from 1 modes_raw)
unfolding get_template_caps_raw
template-entries nvmm = loop-entries nvmm (rows_from 1 modes_raw) [] 0 refl

listed-plain : (b : Bool) (s : Structure) → Memᴰ (s, false) (listed b s)
listed-plain true s = Memᴰ.head refl
listed-plain false s = Memᴰ.head refl

listed-nvmm : (b : Bool) (s : Structure) → b ≡ true → Memᴰ (s, true) (listed b s)
listed-nvmm true s h = Memᴰ.tail (Memᴰ.head refl)
listed-nvmm false s h = cc

-- An entry of a row's is an entry of the table.
entries-all :
    (nvmm : Bool) (ms : List Mode) (i : ℕ) (m : Mode) (c : Structure × Bool)
    → get_elem? ms i ≡ some m
    → Memᴰ c (entries nvmm m)
    → Memᴰ c (all_entries nvmm ms)
entries-all nvmm [] i m c h mem = cc
entries-all nvmm (x ∷ ms) zero m c h mem =
    let same : m ≡ x = ground arith in
    Memᴰ.append_left (all_entries nvmm ms) (subst (λ y. Memᴰ c (entries nvmm y)) same mem)
entries-all nvmm (x ∷ ms) (suc i) m c h mem =
    Memᴰ.append_right (entries nvmm x) (entries-all nvmm ms i m c h mem)

-- The raster, the rate and the depth that only the first row has.
abbrev like_first : Structure → Bool
like_first s = elim s.format [ uyvy ↦ s.height == 486 && s.framerate_n == 24000 | _ ↦ false ]

abbrev none_like_first : Caps → Bool
none_like_first [] = true
none_like_first ((s, f) ∷ caps) = not (like_first s) && none_like_first caps

none_like_first-mem :
    (caps : Caps) (s : Structure) (f : Bool)
    → none_like_first caps ≡ true
    → Memᴰ (s, f) caps
    → like_first s ≡ false
none_like_first-mem [] s f h mem = elim mem [ ]
none_like_first-mem ((t, g) ∷ caps) s f h (Memᴰ.head e) = ground arith
none_like_first-mem ((t, g) ∷ caps) s f h (Memᴰ.tail mem) =
    none_like_first-mem caps s f (ground arith) mem

template_none_like_first : (nvmm : Bool) → none_like_first (get_template_caps_raw nvmm) ≡ true
unfolding structure_of
template_none_like_first true = rw (template-entries true)
template_none_like_first false = rw (template-entries false)

first_like_first : (m : Mode) → get_mode_raw 0 ≡ some m → like_first (structure_of m) ≡ true
unfolding structure_of get_mode_raw
first_like_first m h = ground arith

-- The rows behind the first.
rows_from-get : (e : ℕ) → get_elem? (rows_from 1 modes_raw) e ≡ get_elem? modes_raw (suc e)
rows_from-get e = refl

template_holds :
    (nvmm : Bool) (e : ℕ) (m : Mode) (c : Structure × Bool)
    → suc e < 156
    → get_mode_raw (suc e) ≡ some m
    → Memᴰ c (entries nvmm m)
    → Memᴰ c (get_template_caps_raw nvmm)
template_holds nvmm e m c lt found mem =
    rw (template-entries nvmm) (
      entries-all nvmm (rows_from 1 modes_raw) e m c (rw (get_mode_raw-in (suc e) lt) at found) mem)

-- The template offers a mode of the table in system memory, without its colorimetry, exactly if the mode
-- is not the first one, with NVMM enabled or not.
pub template-Mem_iff :
    (nvmm : Bool) (e : ℕ) (m : Mode)
    → e < 156
    → get_mode_raw e ≡ some m
    → Memᴰ (remove_colorimetry (structure_of m), false) (get_template_caps_raw nvmm) ↔ (e ≢ 0)
template-Mem_iff nvmm zero m lt found = (
  λ mem. absurd (
      cc (
        first_like_first m found,
        none_like_first-mem (get_template_caps_raw nvmm) _ false (template_none_like_first nvmm)
            mem,
      )),
  λ h. absurd (h refl),
)
template-Mem_iff nvmm (suc e) m lt found = (
  λ mem. omega arith,
  λ h. template_holds nvmm e m _ lt found (listed-plain (nvmm && m.is_rgba) _),
)

first_not_rgba : (m : Mode) → get_mode_raw 0 ≡ some m → m.is_rgba ≡ false
unfolding get_mode_raw
first_not_rgba m h = ground arith

-- With NVMM enabled the template also offers, in NVMM memory, every RGBA mode of the table.
template-nvmm :
    (e : ℕ) (m : Mode)
    → e < 156
    → get_mode_raw e ≡ some m
    → m.is_rgba ≡ true
    → Memᴰ (remove_colorimetry (structure_of m), true) (get_template_caps_raw true)
template-nvmm zero m lt found is_rgba = absurd (cc (first_not_rgba m found))
template-nvmm (suc e) m lt found is_rgba =
    template_holds true e m _ lt found (listed-nvmm m.is_rgba _ is_rgba)
