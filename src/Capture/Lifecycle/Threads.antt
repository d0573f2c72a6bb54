-- ===== src/Capture/Lifecycle/Threads.antt =====
-- The capture threads and the pools, over calls of `Run` and `Quit` in any order.
use ntv2_gst.Prelude.{
  ℕ, zero, suc, ◌+◌, Bool, true, false, not, ◌&&◌, ◌==◌, if◌then◌else◌, List, [], ◌∷◌, ◌++◌,
  replicate, ◌≡◌, refl, ap, ◌∙◌, arith, if_rule, if_both,
}
use ntv2_gst.Video.Format.{VideoFormat}
use ntv2_gst.Capture.Defs.{Av}
use ntv2_gst.Capture.Lifecycle.{
  Effect, sleep, timeout_error, join_thread, free_video_pool, free_audio_pool, start_thread,
  disable, wait_last_frame, timeout, ask_last_frame, stop_ac_thread, free_host_buffers,
  stop_capture, quit, run,
}

-- The sum of what each effect weighs.
abbrev pub weigh : (Effect → ℕ) → List Effect → ℕ
weigh k [] = 0
weigh k (e ∷ es) = k e + weigh k es

abbrev pub is_start : Effect → ℕ
is_start start_thread = 1
is_start _ = 0

abbrev pub is_join : Effect → ℕ
is_join join_thread = 1
is_join _ = 0

abbrev pub bit : Bool → ℕ
bit b = if b then 1 else 0

weigh-append : (k : Effect → ℕ) (xs ys : List Effect) → weigh k (xs ++ ys) ≡ weigh k xs + weigh k ys
weigh-append k [] ys = omega arith
weigh-append k (x ∷ xs) ys = let ih = weigh-append k xs ys in omega (arith, ih)

weigh-replicate : (k : Effect → ℕ) (n : ℕ) (e : Effect) → k e ≡ 0 → weigh k (replicate n e) ≡ 0
weigh-replicate k zero e h = refl
weigh-replicate k (suc n) e h = let ih = weigh-replicate k n e h in omega (arith, ih, h)

-- `Quit` behind its wait for the last frame.
abbrev after_wait : Av × List Effect → Av × List Effect
after_wait asked =
    let told : Av = record (asked.0) { global_quit = true; started = false } in
    let stopped = stop_ac_thread told in
    let freed = free_host_buffers stopped.0 in
    (freed.0, asked.1 ++ (stopped.1 ++ (freed.1 ++ stop_capture freed.0)))

-- Weights that see neither the wait nor the pools nor what is disabled.
record IsThreads (k : Effect → ℕ) : Type 0 where
  no_sleep : k sleep ≡ 0
  no_timeout : k timeout_error ≡ 0
  no_video : k free_video_pool ≡ 0
  no_audio : k free_audio_pool ≡ 0
  no_disable : (n : ℕ) → k (disable n) ≡ 0

capture-weigh : (k : Effect → ℕ) → IsThreads k → (av : Av) → weigh k (stop_capture av) ≡ 0
capture-weigh k i av =
    let d = i.no_disable in
    if_rule (λ (l : List Effect). k (disable av.input_channel) + weigh k l ≡ 0) av.quad _ _
      (λ _.
        let a = d av.input_channel in
        let b = d (av.input_channel + 1) in
        let c = d (av.input_channel + 2) in
        let e = d (av.input_channel + 3) in omega (arith, a, b, c, e))
      (λ _. let a = d av.input_channel in omega (arith, a))

freed-weigh : (k : Effect → ℕ) → IsThreads k → (av : Av) → weigh k (free_host_buffers av).1 ≡ 0
freed-weigh k i av =
    let v = i.no_video in
    let a = i.no_audio in
    weigh-append k (if av.video_pool then free_video_pool ∷ [] else [])
      (if av.audio_pool then free_audio_pool ∷ [] else [])
    ∙ if_rule
        (λ (l : List Effect).
          weigh k l + weigh k (if av.audio_pool then free_audio_pool ∷ [] else []) ≡ 0)
        av.video_pool _ _
        (λ _.
          if_rule (λ (l : List Effect). (k free_video_pool + 0) + weigh k l ≡ 0) av.audio_pool _ _
            (λ _. omega (arith, v, a)) (λ _. omega (arith, v)))
        (λ _.
          if_rule (λ (l : List Effect). 0 + weigh k l ≡ 0) av.audio_pool _ _ (λ _. omega (arith, a))
            (λ _. refl))

waited-weigh :
    (k : Effect → ℕ)
    → IsThreads k
    → (reported : ℕ → Bool) (av : Av)
    → (weigh k (ask_last_frame reported av).1 ≡ 0)
      × ((ask_last_frame reported av).0.ac_thread ≡ av.ac_thread)
waited-weigh k i reported av =
    let n = wait_last_frame reported timeout 0 in
    let s = weigh-replicate k n sleep i.no_sleep in
    let t = i.no_timeout in
    if_rule (λ (r : Av × List Effect). (weigh k r.1 ≡ 0) × (r.0.ac_thread ≡ av.ac_thread))
      (not av.last_frame && not av.global_quit) _ _
      (λ _. (
        weigh-append k (replicate n sleep) (if n == timeout then timeout_error ∷ [] else [])
            ∙ if_rule (λ (l : List Effect). weigh k (replicate n sleep) + weigh k l ≡ 0)
                (n == timeout) _ _ (λ _. omega (arith, s, t)) (λ _. omega (arith, s)),
        refl,
      ))
      (λ _. (refl, refl))

-- What is behind the thread's end.
ended-weigh :
    (k : Effect → ℕ)
    → IsThreads k
    → (asked : Av × List Effect) → weigh k asked.1 ≡ 0
    → weigh k (after_wait asked).1 ≡ (if asked.0.ac_thread then k join_thread else 0)
ended-weigh k i asked h =
    let told : Av = record (asked.0) { global_quit = true; started = false } in
    let stopped = stop_ac_thread told in
    let freed = free_host_buffers stopped.0 in
    let a = weigh-append k asked.1 (stopped.1 ++ (freed.1 ++ stop_capture freed.0)) in
    let b = weigh-append k stopped.1 (freed.1 ++ stop_capture freed.0) in
    let c = weigh-append k freed.1 (stop_capture freed.0) in
    let d = freed-weigh k i stopped.0 in
    let e = capture-weigh k i freed.0 in
    let f =
      if_both (λ (r : Av × List Effect) (n : ℕ). weigh k r.1 ≡ n) told.ac_thread
        (record told { ac_thread = false }, join_thread ∷ []) (told, []) (k join_thread) 0
        (λ _. omega arith) (λ _. refl) in
    omega (arith, a, b, c, d, e, f, h)

ended-no_thread : (asked : Av × List Effect) → (after_wait asked).0.ac_thread ≡ false
ended-no_thread asked =
    let told : Av = record (asked.0) { global_quit = true; started = false } in
    if_rule (λ (r : Av × List Effect). r.0.ac_thread ≡ false) told.ac_thread _ _ (λ _. refl)
      (λ f. f)

starts-IsThreads : IsThreads is_start
starts-IsThreads = record {
  no_sleep = refl;
  no_timeout = refl;
  no_video = refl;
  no_audio = refl;
  no_disable = λ n. refl;
}

joins-IsThreads : IsThreads is_join
joins-IsThreads = record {
  no_sleep = refl;
  no_timeout = refl;
  no_video = refl;
  no_audio = refl;
  no_disable = λ n. refl;
}

-- The calls that start and end a capture, with what each reads.
pub data Life : Type 0 where
  run_call : Bool → (VideoFormat → Bool) → Life
  quit_call : (ℕ → Bool) → Life

abbrev pub live : Life → Av → Av × List Effect
live (run_call nvmm_enabled is_large) av = run nvmm_enabled is_large av
live (quit_call reported) av = quit reported av

unfoldable pub lives : List Life → Av → Av × List Effect
lives [] av = (av, [])
lives (l ∷ ls) av = let r = live l av in let rest = lives ls r.0 in (rest.0, r.1 ++ rest.1)

-- How often `Run` is called on an object that has a thread already.
abbrev pub overlap : Life → Av → ℕ
overlap (run_call _ _) av = bit av.ac_thread
overlap (quit_call _) av = 0

abbrev pub overlaps : List Life → Av → ℕ
overlaps [] av = 0
overlaps (l ∷ ls) av = overlap l av + overlaps ls (live l av).0

quit-threads :
    (reported : ℕ → Bool) (av : Av)
    → weigh is_start (quit reported av).1 + bit av.ac_thread
      ≡ weigh is_join (quit reported av).1 + bit (quit reported av).0.ac_thread + 0
unfolding quit
quit-threads reported av =
    let asked = ask_last_frame reported av in
    let w = waited-weigh is_start starts-IsThreads reported av in
    let v = waited-weigh is_join joins-IsThreads reported av in
    let s = ended-weigh is_start starts-IsThreads asked w.0 in
    let j = ended-weigh is_join joins-IsThreads asked v.0 in
    let same = ap bit v.1 in
    let zero_starts = if_rule (λ (n : ℕ). n ≡ 0) asked.0.ac_thread 0 0 (λ _. refl) (λ _. refl) in
    let gone = ap bit (ended-no_thread asked) in omega (arith, s, j, same, zero_starts, gone)

live-threads :
    (l : Life) (av : Av)
    → weigh is_start (live l av).1 + bit av.ac_thread
      ≡ weigh is_join (live l av).1 + bit (live l av).0.ac_thread + overlap l av
unfolding run
live-threads (run_call nvmm_enabled is_large) av = omega arith
live-threads (quit_call reported) av = quit-threads reported av

-- Over calls of `Run` and `Quit` in any order, the capture threads that are started, with the one that the
-- object has before if it has one, are as many as those that are joined, with the one that the object has in
-- the end if it has one, and one more for each call of `Run` on an object that has a thread already.
pub lives-threads :
    (ls : List Life) (av : Av)
    → weigh is_start (lives ls av).1 + bit av.ac_thread
      ≡ weigh is_join (lives ls av).1 + bit (lives ls av).0.ac_thread + overlaps ls av
unfolding lives
lives-threads [] av = omega arith
lives-threads (l ∷ ls) av =
    let r = live l av in
    let rest = lives ls r.0 in
    let one = live-threads l av in
    let ih = lives-threads ls r.0 in
    let s = weigh-append is_start r.1 rest.1 in
    let j = weigh-append is_join r.1 rest.1 in omega (arith, one, ih, s, j)
