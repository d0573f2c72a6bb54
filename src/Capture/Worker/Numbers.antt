-- ===== src/Capture/Worker/Numbers.antt =====
-- The numbers of the frames that the capture loop hands to the video callback.
use ntv2_gst.Prelude.{
  ℕ, ◌+◌, ◌*◌, ◌^◌, ◌≤◌, ◌<◌, arith, none, some, List, [], ◌∷◌, ◌++◌, if_rule, length,
}
use ntv2_gst.Capture.Defs.{Av}
use ntv2_gst.Capture.Worker.{
  Worker, new_worker, Tick, Action, video_callback, Round, Control, continues, breaks, round,
  deliver, idle, branch, prepare, Interference, interfere, work, after_round, video_buff,
  update_timecode, count_drops,
}

-- The frames in a list of actions have growing numbers, from a bound on.
abbrev pub Increasing : ℕ → List Action → Type 0
Increasing n [] = Unit {0}
Increasing n (video_callback (some v) ∷ acts) =
    (n ≤ v.frame_number) × Increasing (v.frame_number + 1) acts
Increasing n (_ ∷ acts) = Increasing n acts

-- The bound behind the actions.
abbrev next_number : ℕ → List Action → ℕ
next_number n [] = n
next_number n (video_callback (some v) ∷ acts) = next_number (v.frame_number + 1) acts
next_number n (_ ∷ acts) = next_number n acts

Increasing-mono : (m n : ℕ) (acts : List Action) → m ≤ n → Increasing n acts → Increasing m acts
Increasing-mono m n [] le h = tt
Increasing-mono m n (video_callback (some v) ∷ acts) le h = (omega arith, h.1)
Increasing-mono m n (video_callback none ∷ acts) le h = Increasing-mono m n acts le h
Increasing-mono m n (_ ∷ acts) le h = Increasing-mono m n acts le h

Increasing-append :
    (n : ℕ) (acts bs : List Action)
    → Increasing n acts
    → Increasing (next_number n acts) bs
    → Increasing n (acts ++ bs)
Increasing-append n [] bs h k = k
Increasing-append n (video_callback (some v) ∷ acts) bs h k =
    (h.0, Increasing-append (v.frame_number + 1) acts bs h.1 k)
Increasing-append n (video_callback none ∷ acts) bs h k = Increasing-append n acts bs h k
Increasing-append n (_ ∷ acts) bs h k = Increasing-append n acts bs h k

abbrev total : Worker → ℕ
total w = w.processed_frames + w.dropped_frames

-- The counter of the driver moves the sum by less than 2 ^ 32.
prepare-total :
    (av : Av) (w : Worker) (t : Tick)
    → t.frames_dropped < 2 ^ 32
    → total w + 2 ^ 33 < 2 ^ 64
    → (total w ≤ total (prepare av w t)) × (total (prepare av w t) < total w + 2 ^ 32)
unfolding prepare count_drops update_timecode
prepare-total av w t small fits = ground arith

-- What a round shows: growing numbers from the sum on, below the sum behind it.
record Counts (n : ℕ) (r : Round) : Type 0 where
  increasing : Increasing n r.actions
  next : next_number n r.actions ≤ total r.worker
  grows : n ≤ total r.worker
  bounded : total r.worker < n + 2 ^ 32 + 1

branch-Counts :
    (n : ℕ) (av : Av) (w : Worker) (t : Tick)
    → n ≤ total w
    → total w < n + 2 ^ 32
    → n + 2 ^ 33 < 2 ^ 64
    → Counts n (branch av w t)
unfolding deliver idle video_buff
branch-Counts n av w t lo hi fits = ground arith

skip_timecode :
    (n : ℕ) (r : Round) (av : Av) (w : Worker)
    → Counts n r
    → Counts n (record r { actions = (update_timecode av w).1 ++ r.actions })
unfolding update_timecode
skip_timecode n r av w c = ground arith

round-Counts :
    (av : Av) (w : Worker) (t : Tick)
    → t.frames_dropped < 2 ^ 32
    → total w + 2 ^ 33 < 2 ^ 64
    → Counts (total w) (round av w t)
unfolding round
round-Counts av w t small fits =
    let (lo, hi) = prepare-total av w t small fits in
    skip_timecode (total w) (branch av (prepare av w t) t) av w
      (branch-Counts (total w) av (prepare av w t) t lo hi fits)

-- The readings of the driver's counter are 32-bit numbers.
abbrev pub AreU32 : List (Interference × Tick) → Type 0
AreU32 [] = Unit {0}
AreU32 ((i, t) ∷ hist) = (t.frames_dropped < 2 ^ 32) × AreU32 hist

after_round-Increasing :
    (n : ℕ) (c : Control) (here rest : List Action × Av)
    → Increasing n here.0
    → Increasing (next_number n here.0) rest.0
    → Increasing n (after_round c here rest).0
after_round-Increasing n breaks here rest h k = h
after_round-Increasing n continues here rest h k = Increasing-append n here.0 rest.0 h k

work-from :
    (av : Av) (w : Worker) (hist : List (Interference × Tick))
    → AreU32 hist
    → total w + length hist * 2 ^ 33 < 2 ^ 64
    → Increasing (total w) (work av w hist).0
unfolding work
work-from av w [] small fits = tt
work-from av w ((i, t) ∷ hist) small fits =
    let av' : Av = interfere i av in
    let r : Round = round av' w t in
    let counts : Counts (total w) r = round-Counts av' w t small.0 (omega arith) in
    let rest = work-from r.av r.worker hist small.1 (omega (arith, counts)) in
    if_rule (λ (x : List Action × Av). Increasing (total w) x.0) av'.global_quit _ _ (λ _. tt)
      (λ _. after_round-Increasing (total w) r.control _ _ counts.increasing (
        Increasing-mono (next_number (total w) r.actions) (total r.worker)
          ((work r.av r.worker hist).0) counts.next rest))

-- Over any history of fewer than 2 ^ 31 rounds, from a new loop, in which the driver's counter of dropped
-- frames always fits 32 bits, the frames that the video callback gets have strictly growing numbers,
-- whatever the counter reads and other threads do.
pub work-Increasing :
    (av : Av) (hist : List (Interference × Tick))
    → AreU32 hist
    → length hist < 2 ^ 31
    → Increasing 0 (work av new_worker hist).0
work-Increasing av hist small short = work-from av new_worker hist small (omega arith)
