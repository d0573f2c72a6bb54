-- ===== src/VideoSource/Mapping/Steps.antt =====
-- How the mapping in use follows the computed one: in steps that the output's timestamps show.
use ntv2_gst.Prelude.{
  ℕ, ◌+◌, ◌-◌, ◌^◌, ◌≤◌, ◌<◌, Bool, true, false, not, ◌&&◌, ◌==◌, leb, ltb, if◌then◌else◌, Option,
  none, some, List, ◌≡◌, ◌⊎◌, inl, inr, refl, sym, ap, arith, if_rule, if-false, subst,
}
use ntv2_gst.Capture.Worker.{u64}
use ntv2_gst.Audio.Defs.{TimeMapping, ClockMath}
use ntv2_gst.VideoSource.Defs.{TimeWindow}
use ntv2_gst.VideoSource.Mapping.{
  add_sample, turn_window, first_mapping, set_next, sample, follow, take_sample,
  update_time_mapping, fps_of, max_diff, far, nearer, distance,
}

-- What `gst_clock_adjust_with_calibration` promises: its results are 64-bit numbers, and it maps the base
-- of a calibration, whose denominator is not 0, to its external time.
pub record IsAdjust (m : ClockMath) : Type 0 where
  pub bounded : (t : ℕ) (c : TimeMapping) → m.adjust t c < 2 ^ 64
  pub base : (t : ℕ) (c : TimeMapping) → c.xbase ≡ t → 0 < c.den → c.b < 2 ^ 64 → m.adjust t c ≡ c.b

-- The mapping in use, and whether the window was filled once.
abbrev Kept : TimeWindow → TimeWindow → Type 0
Kept v w = (v.current_time_mapping ≡ w.current_time_mapping) × (v.window_filled ≡ true)

first_mapping-Kept : (s c : ℕ) (w v : TimeWindow) → Kept v w → Kept (first_mapping s c v) w
unfolding first_mapping
first_mapping-Kept s c w v k =
    subst (λ u. Kept u w) (sym (if-false _ _ (ap (λ b. not b && v.window_fill == 1) k.1))) k

turn_window-Kept : (fps : ℕ) (w v : TimeWindow) → Kept v w → Kept (turn_window fps v) w
unfolding turn_window
turn_window-Kept fps w v k =
    if_rule (λ u. Kept u w) (leb v.window_size v.window_fill) _ _ (λ _. (k.0, refl)) (λ _. k)

set_next-Kept : (o : Option TimeMapping) (w v : TimeWindow) → Kept v w → Kept (set_next o v) w
set_next-Kept none w v k = k
set_next-Kept (some t) w v k = k

take_sample-Kept :
    (m : ClockMath) (reg : List (ℕ × ℕ) → Option TimeMapping) (n d s c : ℕ) (w : TimeWindow)
    → w.window_filled ≡ true
    → Kept (take_sample m reg n d s c w) w
unfolding take_sample sample
take_sample-Kept m reg n d s c w h =
    let v = first_mapping s c (turn_window (fps_of n d) (add_sample s c w)) in
    let k = first_mapping-Kept s c w _ (turn_window-Kept (fps_of n d) w _ (refl, h)) in
    if_rule (λ u. Kept u w) (w.window_skip_count == 0) _ _
      (λ _. if_rule (λ u. Kept u w) v.window_filled _ _ (λ _. set_next-Kept _ w v k) (λ _. k))
      (λ _. (refl, h))

-- A step from a mapped time to a new one, with a target: it is at most `limit`, and the target is reached,
-- or nearer by as much.
abbrev pub IsStep : ℕ → ℕ → ℕ → ℕ → Bool → Type 0
IsStep limit old target new pending =
    (distance new old ≤ limit)
    × ((pending ≡ false) ⊎ (distance new target + limit ≡ distance target old))

-- The base of the nearer mapping, when the difference is larger than the limit.
stepped : ℕ → ℕ → ℕ → ℕ
stepped old target limit = if ltb old target then u64 (old + limit) else old - limit

stepped-fits :
    (old target limit : ℕ)
    → old < 2 ^ 64
    → target < 2 ^ 64
    → ltb limit (distance target old) ≡ true
    → stepped old target limit < 2 ^ 64
unfolding stepped
stepped-fits old target limit h k l = ground arith

stepped-moves :
    (old target limit : ℕ)
    → target < 2 ^ 64
    → ltb limit (distance target old) ≡ true
    → distance (stepped old target limit) old ≤ limit
unfolding stepped
stepped-moves old target limit h l = ground arith

stepped-nears :
    (old target limit : ℕ)
    → target < 2 ^ 64
    → ltb limit (distance target old) ≡ true
    → distance (stepped old target limit) target + limit ≡ distance target old
unfolding stepped
stepped-nears old target limit h l = ground arith

and-left : (a b : Bool) → (not false && (a && b)) ≡ true → a ≡ true
and-left a b h = ground arith

reached :
    (limit diff : ℕ)
    → diff < far
    → (not false && (ltb limit diff && ltb diff far)) ≡ false
    → diff ≤ limit
reached limit diff h f = ground arith

follow-IsStep :
    (m : ClockMath) (reg : List (ℕ × ℕ) → Option TimeMapping)
    → IsAdjust m
    → (n d s : ℕ) (w : TimeWindow) → 0 < w.current_time_mapping.den
    → distance (m.adjust s w.next_time_mapping) (m.adjust s w.current_time_mapping) < far
    → IsStep
        (max_diff m n d)
        (m.adjust s w.current_time_mapping)
        (m.adjust s w.next_time_mapping)
        (m.adjust s (follow m reg n d s false w).current_time_mapping)
        (follow m reg n d s false w).next_time_mapping_pending
unfolding follow stepped
follow-IsStep m reg a n d s w h k =
    let old = m.adjust s w.current_time_mapping in
    let target = m.adjust s w.next_time_mapping in
    let limit = max_diff m n d in
    let near = nearer s old target limit w.current_time_mapping in
    let top = a.bounded s w.next_time_mapping in
    if_rule
      (λ (v : TimeWindow).
        IsStep limit old target (m.adjust s v.current_time_mapping) v.next_time_mapping_pending)
      (not false && (ltb limit (distance target old) && ltb (distance target old) far))
      (record w { current_time_mapping = near })
      (record w { current_time_mapping = w.next_time_mapping; next_time_mapping_pending = false })
      (λ t.
        let l = and-left (ltb limit (distance target old)) (ltb (distance target old) far) t in
        let e =
          a.base s near refl h
            (stepped-fits old target limit (a.bounded s w.current_time_mapping) top l) in
        subst (λ x. IsStep limit old target x w.next_time_mapping_pending) (sym e)
          (stepped-moves old target limit top l, inr (stepped-nears old target limit top l)))
      (λ f. (reached limit (distance target old) k f, inl refl))

self : (limit old : ℕ) → distance old old ≤ limit
self limit old = ground arith

-- The timestamps move to a new mapping in small steps. Behind the first filling of the window, on a frame
-- that is not discontinuous, for a mapping in use with a denominator that is not 0, and a computed mapping
-- that takes the frame's stream time to less than 50 milliseconds from where the one in use takes it: the
-- update moves the mapped time by at most a twentieth of a frame; and no mapping is pending behind it, or
-- the mapped time is nearer to that of the computed one by a twentieth of a frame.
pub update_time_mapping-IsStep :
    (m : ClockMath) (reg : List (ℕ × ℕ) → Option TimeMapping)
    → IsAdjust m
    → (n d capture_time stream_time : ℕ) (w : TimeWindow) → w.window_filled ≡ true
    → 0 < w.current_time_mapping.den
    → let t = take_sample m reg n d stream_time capture_time w in
      distance
          (m.adjust stream_time t.next_time_mapping)
          (m.adjust stream_time w.current_time_mapping)
        < far
      → let t = take_sample m reg n d stream_time capture_time w in
        let v = update_time_mapping m reg n d capture_time stream_time false w in
        IsStep
          (max_diff m n d)
          (m.adjust stream_time w.current_time_mapping)
          (m.adjust stream_time t.next_time_mapping)
          (m.adjust stream_time v.current_time_mapping)
          v.next_time_mapping_pending
unfolding update_time_mapping
update_time_mapping-IsStep m reg a n d c s w h den near =
    let t = take_sample m reg n d s c w in
    let same = (take_sample-Kept m reg n d s c w h).0 in
    let target = m.adjust s t.next_time_mapping in
    let limit = max_diff m n d in
    subst
      (λ (x : TimeMapping).
        let v = if t.next_time_mapping_pending then follow m reg n d s false t else t in
        IsStep limit (m.adjust s x) target (m.adjust s v.current_time_mapping)
          v.next_time_mapping_pending)
      same
      (if_rule
        (λ (v : TimeWindow).
          IsStep limit (m.adjust s t.current_time_mapping) target
            (m.adjust s v.current_time_mapping) v.next_time_mapping_pending)
        t.next_time_mapping_pending _ _
        (λ _.
          follow-IsStep m reg a n d s t (subst (λ x. 0 < x.den) (sym same) den)
            (subst (λ x. distance target (m.adjust s x) < far) (sym same) near))
        (λ f. (self limit (m.adjust s t.current_time_mapping), inl f)))
