-- ===== src/VideoSource/Mapping/Window.antt =====
-- The window of samples: a ring of the latest ones.
use mathlib.Core.List.{append_assoc, append-nil}
use ntv2_gst.Prelude.{
  ℕ, zero, suc, ◌+◌, ◌*◌, ◌^◌, ◌≤◌, ◌<◌, Bool, true, false, not, ◌&&◌, ◌==◌, leb, if◌then◌else◌,
  Option, none, some, List, [], ◌∷◌, ◌++◌, length, set, take, drop, ◌≡◌, refl, sym, ap, ◌∙◌, arith,
  length-set, if_rule, if_both, subst,
}
use ntv2_gst.Capture.Worker.{u32}
use ntv2_gst.Audio.Defs.{TimeMapping, ClockMath}
use ntv2_gst.VideoSource.Defs.{TimeWindow}
use ntv2_gst.VideoSource.Mapping.{
  next_count, add_sample, slower, turn_window, first_mapping, set_next, sample, follow, take_sample,
  update_time_mapping, fps_of,
}

module _ {ℓ} {A : Type ℓ} where
  -- The latest entries of a ring that is filled up to a position, from the oldest on.
  abbrev pub ring : ℕ → List A → List A
  ring i xs = drop i xs ++ take i xs

  drop-set : (xs : List A) (i : ℕ) (v : A) → drop (suc i) (set xs i v) ≡ drop (suc i) xs
  drop-set [] i v = refl
  drop-set (x ∷ xs) zero v = refl
  drop-set (x ∷ xs) (suc i) v = drop-set xs i v

  take-set :
      (xs : List A) (i : ℕ) (v : A)
      → i < length xs
      → take (suc i) (set xs i v) ≡ take i xs ++ v ∷ []
  take-set [] i v h = absurd (omega arith)
  take-set (x ∷ xs) zero v h = refl
  take-set (x ∷ xs) (suc i) v h = ap (λ l. x ∷ l) (take-set xs i v (omega arith))

  drop_first :
      (xs ys : List A) (i : ℕ) → i < length xs → drop 1 (drop i xs ++ ys) ≡ drop (suc i) xs ++ ys
  drop_first [] ys i h = absurd (omega arith)
  drop_first (x ∷ xs) ys zero h = refl
  drop_first (x ∷ xs) ys (suc i) h = drop_first xs ys i (omega arith)

  drop_all : (xs : List A) (i : ℕ) → length xs ≤ i → drop i xs ≡ []
  drop_all [] zero h = refl
  drop_all [] (suc i) h = refl
  drop_all (x ∷ xs) zero h = absurd (omega arith)
  drop_all (x ∷ xs) (suc i) h = drop_all xs i (omega arith)

  take_all : (xs : List A) (i : ℕ) → length xs ≤ i → take i xs ≡ xs
  take_all [] zero h = refl
  take_all [] (suc i) h = refl
  take_all (x ∷ xs) zero h = absurd (omega arith)
  take_all (x ∷ xs) (suc i) h = ap (λ l. x ∷ l) (take_all xs i (omega arith))

  ring_next :
      (xs : List A) (i : ℕ) (v : A)
      → i < length xs
      → ring (suc i) (set xs i v) ≡ drop 1 (ring i xs) ++ v ∷ []
  ring_next xs i v h =
      ap (λ l. l ++ take (suc i) (set xs i v)) (drop-set xs i v)
      ∙ ap (λ l. drop (suc i) xs ++ l) (take-set xs i v h)
      ∙ sym (append_assoc (drop (suc i) xs) (take i xs) (v ∷ []))
      ∙ ap (λ l. l ++ v ∷ []) (sym (drop_first xs (take i xs) i h))

  -- A full ring starts over.
  ring_turn : (xs : List A) (i : ℕ) → length xs ≡ i → ring 0 xs ≡ ring i xs
  ring_turn xs i h =
      append-nil xs
      ∙ sym (ap (λ l. l ++ take i xs) (drop_all xs i (omega arith)) ∙ take_all xs i (omega arith))

-- The members of the window that a regression does not change.
pub record Core : Type 0 where
  pub times : List (ℕ × ℕ)
  pub size : ℕ
  pub fill : ℕ
  pub skip : ℕ
  pub count : ℕ

abbrev pub core : TimeWindow → Core
core w = record {
  times = w.times;
  size = w.window_size;
  fill = w.window_fill;
  skip = w.window_skip;
  count = w.window_skip_count;
}

-- A window as it is between two frames: there is room for a sample, and the frames from one sample to the
-- next, of which there are at most `limit`, are counted.
pub record IsWindow (limit : ℕ) (c : Core) : Type 0 where
  pub sized : length c.times ≡ c.size
  pub within : c.fill < c.size
  pub some_skip : 0 < c.skip
  pub skip_limited : c.skip ≤ limit
  pub counted : c.count < c.skip

-- The latest samples, from the oldest on.
abbrev pub latest : Core → List (ℕ × ℕ)
latest c = ring c.fill c.times

first_mapping-core : (s c : ℕ) (w : TimeWindow) → core (first_mapping s c w) ≡ core w
unfolding first_mapping
first_mapping-core s c w =
    if_rule (λ v. core v ≡ core w) (not w.window_filled && w.window_fill == 1) _ _ (λ _. refl)
      (λ _. refl)

set_next-core : (o : Option TimeMapping) (w : TimeWindow) → core (set_next o w) ≡ core w
set_next-core none w = refl
set_next-core (some t) w = refl

follow-core :
    (m : ClockMath) (reg : List (ℕ × ℕ) → Option TimeMapping) (n d s : ℕ) (discont : Bool)
    (w : TimeWindow)
    → core (follow m reg n d s discont w) ≡ core w
unfolding follow
follow-core m reg n d s discont w =
    if_rule (λ v. core v ≡ core w) (not discont && _) _ _ (λ _. refl) (λ _. refl)

sample-core :
    (m : ClockMath) (reg : List (ℕ × ℕ) → Option TimeMapping) (fps s c : ℕ) (w : TimeWindow)
    → core (sample m reg fps s c w) ≡ core (turn_window fps (add_sample s c w))
unfolding sample
sample-core m reg fps s c w =
    if_rule (λ v. core v ≡ core (turn_window fps (add_sample s c w)))
      (first_mapping s c (turn_window fps (add_sample s c w))).window_filled _ _
      (λ _. set_next-core _ _ ∙ first_mapping-core s c _) (λ _. first_mapping-core s c _)

-- What a frame makes of the window: it is still one, and its latest samples are those of `l`.
pub record IsUpdated (limit size : ℕ) (l : List (ℕ × ℕ)) (c : Core) : Type 0 where
  pub window : IsWindow limit c
  pub samples : latest c ≡ l
  pub same_size : c.size ≡ size

next_count-lt :
    (skip count : ℕ) → count < skip → 0 < skip → skip < 2 ^ 32 → next_count skip count < skip
next_count-lt skip count h k l = ground arith

slower-bounds :
    (fps skip : ℕ)
    → 4 * fps < 2 ^ 31
    → 0 < skip
    → skip ≤ 4 * fps
    → (skip ≤ slower (u32 (4 * fps)) skip) × (slower (u32 (4 * fps)) skip ≤ 4 * fps)
slower-bounds fps skip h k l = ground arith

turned :
    (size fill : ℕ)
    → fill < size
    → size < 2 ^ 32
    → leb size (u32 (fill + 1)) ≡ true
    → u32 (fill + 1) ≡ size
turned size fill h k t = ground arith

unturned :
    (size fill : ℕ)
    → fill < size
    → size < 2 ^ 32
    → leb size (u32 (fill + 1)) ≡ false
    → u32 (fill + 1) < size
unturned size fill h k t = ground arith

turn_window-IsUpdated :
    (fps s c : ℕ) (w : TimeWindow)
    → 4 * fps < 2 ^ 31
    → w.window_size < 2 ^ 32
    → IsWindow (4 * fps) (core w)
    → IsUpdated
        (4 * fps)
        w.window_size
        (drop 1 (latest (core w)) ++ (s, c) ∷ [])
        (core (turn_window fps (add_sample s c w)))
unfolding turn_window
turn_window-IsUpdated fps s c w h k i =
    let a = add_sample s c w in
    let same = length-set w.times w.window_fill (s, c) ∙ i.sized in
    let lt : w.window_fill < length w.times =
      subst (λ l. w.window_fill < l) (sym i.sized) i.within in
    let within = i.within in
    let n : u32 (w.window_fill + 1) ≡ suc w.window_fill = ground arith in
    let next =
      ap (λ k. ring k (set w.times w.window_fill (s, c))) n
      ∙ ring_next w.times w.window_fill (s, c) lt in
    let slow = slower-bounds fps w.window_skip h i.some_skip i.skip_limited in
    let count =
      next_count-lt w.window_skip w.window_skip_count i.counted i.some_skip
        (omega (arith, i.skip_limited)) in
    if_rule
      (λ v. IsUpdated (4 * fps) w.window_size (drop 1 (latest (core w)) ++ (s, c) ∷ []) (core v))
      (leb a.window_size a.window_fill) _ _
      (λ t. record {
        window = record {
          sized = same;
          within = omega (arith, n);
          some_skip = omega (arith, slow.0);
          skip_limited = slow.1;
          counted = omega (
            arith,
            slow.0,
            next_count-lt w.window_skip w.window_skip_count (omega arith) (omega arith)
                (omega arith),
          );
        };
        samples =
            ring_turn (set w.times w.window_fill (s, c)) (u32 (w.window_fill + 1))
              (same ∙ sym (turned _ _ i.within k t))
            ∙ next;
        same_size = refl;
      })
      (λ f. record {
        window = record {
          sized = same;
          within = unturned _ _ i.within k f;
          some_skip = i.some_skip;
          skip_limited = i.skip_limited;
          counted = count;
        };
        samples = next;
        same_size = refl;
      })

-- The samples behind a frame.
abbrev pub latest_after : ℕ → ℕ → Core → List (ℕ × ℕ)
latest_after stream_time capture_time c =
    if c.count == 0 then drop 1 (latest c) ++ (stream_time, capture_time) ∷ [] else latest c

take_sample-IsUpdated :
    (m : ClockMath) (reg : List (ℕ × ℕ) → Option TimeMapping) (n d s c : ℕ) (w : TimeWindow)
    → 4 * fps_of n d < 2 ^ 31
    → w.window_size < 2 ^ 32
    → IsWindow (4 * fps_of n d) (core w)
    → IsUpdated
        (4 * fps_of n d)
        w.window_size
        (latest_after s c (core w))
        (core (take_sample m reg n d s c w))
unfolding take_sample
take_sample-IsUpdated m reg n d s c w h k i =
    if_both (λ (v : TimeWindow) l. IsUpdated (4 * fps_of n d) w.window_size l (core v))
      (w.window_skip_count == 0) _ _ _ _
      (λ _.
        subst (IsUpdated (4 * fps_of n d) w.window_size (drop 1 (latest (core w)) ++ (s, c) ∷ []))
          (sym (sample-core m reg (fps_of n d) s c w))
          (turn_window-IsUpdated (fps_of n d) s c w h k i))
      (λ _. record {
        window = record {
          sized = i.sized;
          within = i.within;
          some_skip = i.some_skip;
          skip_limited = i.skip_limited;
          counted =
              next_count-lt w.window_skip w.window_skip_count i.counted i.some_skip
                (omega (arith, i.skip_limited));
        };
        samples = refl;
        same_size = refl;
      })

-- The window is a ring of the latest samples, and is never written out of its bounds. For a frame rate for
-- which 4 seconds are fewer than 2 ^ 31 frames, and a window with room for a sample, an update leaves one
-- with room for a sample, of the same size; the frames from one sample to the next stay below 4 seconds'; and
-- the latest samples are as before, or, when the frames to skip are over, without the oldest one and with
-- the frame's times behind.
pub update_time_mapping-IsUpdated :
    (m : ClockMath) (reg : List (ℕ × ℕ) → Option TimeMapping) (n d capture_time stream_time : ℕ)
    (discont : Bool) (w : TimeWindow)
    → 4 * fps_of n d < 2 ^ 31
    → w.window_size < 2 ^ 32
    → IsWindow (4 * fps_of n d) (core w)
    → IsUpdated
        (4 * fps_of n d)
        w.window_size
        (latest_after stream_time capture_time (core w))
        (core (update_time_mapping m reg n d capture_time stream_time discont w))
unfolding update_time_mapping
update_time_mapping-IsUpdated m reg n d c s discont w h k i =
    let t = take_sample m reg n d s c w in
    let u = take_sample-IsUpdated m reg n d s c w h k i in
    if_rule (λ v. IsUpdated (4 * fps_of n d) w.window_size (latest_after s c (core w)) (core v))
      t.next_time_mapping_pending _ _
      (λ _.
        subst (IsUpdated (4 * fps_of n d) w.window_size (latest_after s c (core w)))
          (sym (follow-core m reg n d s discont t)) u)
      (λ _. u)
