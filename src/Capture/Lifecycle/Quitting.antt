-- ===== src/Capture/Lifecycle/Quitting.antt =====
-- What `Quit` leaves, and how long it waits.
use ntv2_gst.Prelude.{
  ℕ, zero, suc, ◌+◌, ◌≤◌, ◌<◌, ◌≡◌, ◌⊎◌, refl, sym, ap, ◌∙◌, Bool, true, false, not, ◌&&◌, ◌==◌,
  if◌then◌else◌, if_rule, Bool-cases, inl, inr, ==_iff, List, [], ◌∷◌, ◌++◌, replicate, if-true,
  arith, subst,
}
use ntv2_gst.Capture.Defs.{Av}
use ntv2_gst.Capture.Lifecycle.{
  Effect, sleep, timeout_error, free_video_pool, free_audio_pool, wait_last_frame, quit,
  stop_capture, ask_last_frame, stop_ac_thread, free_host_buffers, timeout,
}

-- What holds of a count of polls from a first one on: it is in range, no poll before it was answered, and
-- it was answered unless it is behind the last.
pub record IsFirst (reported : ℕ → Bool) (from end i : ℕ) : Type 0 where
  pub low : from ≤ i
  pub high : i ≤ end
  pub silent : (j : ℕ) → from ≤ j → j < i → reported j ≡ false
  pub answered : (i ≡ end) ⊎ (reported i ≡ true)

beyond : (i j : ℕ) → i ≤ j → (i == j) ≡ false → i + 1 ≤ j
beyond i j h e = ground arith

wait-IsFirst :
    (reported : ℕ → Bool) (left i : ℕ)
    → IsFirst reported i (i + left) (wait_last_frame reported left i)
unfolding wait_last_frame
wait-IsFirst reported zero i = record {
  low = omega arith;
  high = omega arith;
  silent = λ j h k. absurd (omega arith);
  answered = inl (omega arith);
}
wait-IsFirst reported (suc left) i =
    if_rule (IsFirst reported i (i + suc left)) (reported i) _ _
      (λ t. record {
        low = omega arith;
        high = omega arith;
        silent = λ j h k. absurd (omega arith);
        answered = inr t;
      })
      (λ f.
        let ih = wait-IsFirst reported left (i + 1) in
        let low = ih.low in
        let high = ih.high in
        record {
          low = omega arith;
          high = omega arith;
          silent = λ j h k. elim (Bool-cases (i == j)) [
            | inl e ↦ subst (λ n. reported n ≡ false) ((==_iff i j).0 e) f
            | inr e ↦ ih.silent j (beyond i j h e) k
          ];
          answered = elim (ih.answered) [ inl e ↦ inl (e ∙ omega arith) | inr e ↦ inr e ];
        })

-- The object behind a call of `Quit`.
record IsQuit (av : Av) : Type 0 where
  told : av.global_quit ≡ true
  stopped : av.started ≡ false
  no_thread : av.ac_thread ≡ false
  no_video_pool : av.video_pool ≡ false
  no_audio_pool : av.audio_pool ≡ false

quit-IsQuit : (reported : ℕ → Bool) (av : Av) → IsQuit (quit reported av).0
unfolding quit
quit-IsQuit reported av =
    if_rule (λ (r : Av × List Effect). IsQuit (free_host_buffers r.0).0)
      (ask_last_frame reported av).0.ac_thread _ _
      (λ _. record {
        told = refl;
        stopped = refl;
        no_thread = refl;
        no_video_pool = refl;
        no_audio_pool = refl;
      })
      (λ f. record {
        told = refl;
        stopped = refl;
        no_thread = f;
        no_video_pool = refl;
        no_audio_pool = refl;
      })

again : (reported : ℕ → Bool) (av : Av) → IsQuit av → quit reported av ≡ (av, stop_capture av)
unfolding quit
again reported av q =
    let g = q.told in
    let s = q.stopped in
    let t = q.no_thread in let v = q.no_video_pool in let a = q.no_audio_pool in ground arith

-- A second call of `Quit` changes nothing and does not wait; it only stops the capture of the same
-- channels again.
quit-quit :
    (reported reported' : ℕ → Bool) (av : Av)
    → quit reported' (quit reported av).0
      ≡ ((quit reported av).0, stop_capture (quit reported av).0)
quit-quit reported reported' av = again reported' (quit reported av).0 (quit-IsQuit reported av)

-- How often the effects sleep and report a timeout.
abbrev pub sleeps : List Effect → ℕ
sleeps [] = 0
sleeps (sleep ∷ es) = 1 + sleeps es
sleeps (_ ∷ es) = sleeps es

abbrev pub timeouts : List Effect → ℕ
timeouts [] = 0
timeouts (timeout_error ∷ es) = 1 + timeouts es
timeouts (_ ∷ es) = timeouts es

sleeps-append : (xs ys : List Effect) → sleeps (xs ++ ys) ≡ sleeps xs + sleeps ys
sleeps-append [] ys = omega arith
sleeps-append (sleep ∷ xs) ys = let ih = sleeps-append xs ys in omega arith
sleeps-append (_ ∷ xs) ys = sleeps-append xs ys

timeouts-append : (xs ys : List Effect) → timeouts (xs ++ ys) ≡ timeouts xs + timeouts ys
timeouts-append [] ys = omega arith
timeouts-append (timeout_error ∷ xs) ys = let ih = timeouts-append xs ys in omega arith
timeouts-append (_ ∷ xs) ys = timeouts-append xs ys

waited : (i : ℕ) → (sleeps (replicate i sleep) ≡ i) × (timeouts (replicate i sleep) ≡ 0)
waited zero = (refl, refl)
waited (suc i) = let ih = waited i in (omega arith, ih.1)

-- Effects that neither sleep nor report.
abbrev IsSilent : List Effect → Type 0
IsSilent es = (sleeps es ≡ 0) × (timeouts es ≡ 0)

IsSilent-append : (xs ys : List Effect) → IsSilent xs → IsSilent ys → IsSilent (xs ++ ys)
IsSilent-append xs ys h k =
    let a = sleeps-append xs ys in let b = timeouts-append xs ys in (omega arith, omega arith)

freed-IsSilent :
    (v a : Bool)
    → IsSilent
        ((if v then free_video_pool ∷ [] else []) ++ (if a then free_audio_pool ∷ [] else []))
freed-IsSilent true true = (refl, refl)
freed-IsSilent true false = (refl, refl)
freed-IsSilent false true = (refl, refl)
freed-IsSilent false false = (refl, refl)

stopped-IsSilent : (av : Av) → IsSilent (stop_capture av)
stopped-IsSilent av = if_rule IsSilent av.quad _ _ (λ _. (refl, refl)) (λ _. (refl, refl))

-- What `Quit` does behind its wait.
abbrev after_wait : Av × List Effect → List Effect
after_wait stopped =
    stopped.1 ++ ((free_host_buffers stopped.0).1 ++ stop_capture (free_host_buffers stopped.0).0)

after_wait-IsSilent : (av : Av) → IsSilent (after_wait (stop_ac_thread av))
after_wait-IsSilent av =
    let rest : (av' : Av)
        → IsSilent ((free_host_buffers av').1 ++ stop_capture (free_host_buffers av').0) =
      λ av'.
        IsSilent-append (free_host_buffers av').1 _ (freed-IsSilent av'.video_pool av'.audio_pool)
          (stopped-IsSilent (free_host_buffers av').0) in
    if_rule (λ (r : Av × List Effect). IsSilent (after_wait r)) av.ac_thread _ _
      (λ _. rest (record av { ac_thread = false })) (λ _. rest av)

late_timeouts :
    (late : Bool)
    → (sleeps (if late then timeout_error ∷ [] else []) ≡ 0)
      × (timeouts (if late then timeout_error ∷ [] else []) ≡ (if late then 1 else 0))
late_timeouts true = (refl, refl)
late_timeouts false = (refl, refl)

-- The effects of the wait and of what follows.
whole :
    (i : ℕ) (rest : List Effect)
    → IsSilent rest
    → let es : List Effect =
        (replicate i sleep ++ (if i == 300 then timeout_error ∷ [] else [])) ++ rest in
      (sleeps es ≡ i) × (timeouts es ≡ (if i == 300 then 1 else 0))
whole i rest h =
    let late : List Effect = if i == 300 then timeout_error ∷ [] else [] in
    let a = sleeps-append (replicate i sleep ++ late) rest in
    let b = sleeps-append (replicate i sleep) late in
    let c = timeouts-append (replicate i sleep ++ late) rest in
    let d = timeouts-append (replicate i sleep) late in
    let w = waited i in let l = late_timeouts (i == 300) in (omega arith, omega arith)

asks : (l g : Bool) → l ≡ false → g ≡ false → (not l && not g) ≡ true
asks l g h k = ground arith

-- The effects of `Quit` behind its first part.
abbrev effects_of : Av × List Effect → List Effect
effects_of asked =
    let told : Av = record (asked.0) { global_quit = true; started = false } in
    asked.1 ++ after_wait (stop_ac_thread told)

-- A call of `Quit` on an object that has neither been asked for its last frame nor told to stop sleeps as
-- often as there are polls before the first one at which both outputs have reported their last frame, of
-- 300 at most, and reports a timeout exactly if there is no such poll.
pub quit-IsFirst :
    (reported : ℕ → Bool) (av : Av)
    → av.last_frame ≡ false
    → av.global_quit ≡ false
    → IsFirst reported 0 300 (sleeps (quit reported av).1)
      × (timeouts (quit reported av).1 ≡ (if sleeps (quit reported av).1 == 300 then 1 else 0))
unfolding quit
quit-IsFirst reported av h k =
    let i = wait_last_frame reported timeout 0 in
    let asked = if-true _ _ (asks av.last_frame av.global_quit h k) in
    let told : Av = record av { last_frame = true; global_quit = true; started = false } in
    let w = whole i (after_wait (stop_ac_thread told)) (after_wait-IsSilent told) in
    let slept = ap (λ r. sleeps (effects_of r)) asked ∙ w.0 in
    (
      subst (IsFirst reported 0 300) (sym slept) (wait-IsFirst reported 300 0),
      ap (λ r. timeouts (effects_of r)) asked
          ∙ w.1
          ∙ ap (λ n. if n == 300 then 1 else 0) (sym slept),
    )
