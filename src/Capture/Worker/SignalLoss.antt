-- ===== src/Capture/Worker/SignalLoss.antt =====
-- How the capture loop notices that no frames come although the driver still reports the signal.
use ntv2_gst.Prelude.{
  ◌||◌, ℕ, zero, suc, ◌+◌, ◌<◌, ◌≡◌, refl, Bool, true, false, arith, none, some, List, [], ◌∷◌,
  ◌++◌, ap, replicate, ◌∙◌, sym, subst,
}
use ntv2_gst.Video.Format.{VideoFormat}
use ntv2_gst.Video.Format.{VideoFormat, VideoFormat-discrete}
use ntv2_gst.Capture.Defs.{Av, TcIndex, TcIndex-discrete}
use ntv2_gst.Capture.Timecode.{tc_changed}
use ntv2_gst.Capture.Worker.{
  Worker, Tick, Action, video_callback, audio_callback, wait_for_interrupt, sleep, round, idle,
  prepare, frame_waits, update_timecode, count_drops, signal_found, Interference, nothing, work,
  continues,
}

agrees : (f : VideoFormat) (d : Dec (f ≡ f)) → elim d [ yes _ ↦ true | no _ ↦ false ] ≡ true
agrees f (yes _) = refl
agrees f (no n) = absurd (n refl)

either : (a b : Bool) → b ≡ true → (a || b) ≡ true
either a b h = ground arith

-- The expected format itself counts as signal.
pub signal_found-same : (av : Av) → signal_found av av.video_format ≡ true
unfolding signal_found
signal_found-same av =
    either _ _ (agrees av.video_format (VideoFormat-discrete av.video_format av.video_format))

-- A quiet stretch: the same reading again and again, without a frame, of the expected signal; the
-- timecode source is chosen.
pub record IsQuiet (av : Av) (w : Worker) (t : Tick) : Type 0 where
  pub running : av.global_quit ≡ false
  pub no_last : av.last_frame ≡ false
  pub no_frame : frame_waits t ≡ false
  pub signal : signal_found av t.input_format ≡ true
  pub configured : w.configured_tc_index ≡ some av.timecode_mode

tc_unchanged : (m : TcIndex) → tc_changed (some m) m ≡ false
unfolding tc_changed
tc_unchanged m =
    elim (TcIndex-discrete m m) as (λ d. (elim d [ yes _ ↦ false | no _ ↦ true ]) ≡ false) [
      | yes _ ↦ refl
      | no h ↦ absurd (h refl)
    ]

prepare-quiet :
    (av : Av) (w : Worker) (t : Tick)
    → IsQuiet av w t
    → ((prepare av w t).have_signal ≡ true)
      × ((prepare av w t).iterations_without_frame ≡ w.iterations_without_frame)
      × ((prepare av w t).configured_tc_index ≡ w.configured_tc_index)
      × ((update_timecode av w).1 ≡ [])
unfolding prepare update_timecode count_drops
prepare-quiet av w t q = ground (arith, tc_unchanged av.timecode_mode)

-- What a quiet round does below the limit, and at it.
round-waits :
    (av : Av) (w : Worker) (t : Tick)
    → IsQuiet av w t
    → w.iterations_without_frame < 32
    → ((round av w t).actions ≡ wait_for_interrupt ∷ [])
      × ((round av w t).control ≡ continues)
      × ((round av w t).av ≡ av)
      × ((round av w t).worker.iterations_without_frame ≡ w.iterations_without_frame + 1)
      × ((round av w t).worker.configured_tc_index ≡ w.configured_tc_index)
unfolding round idle
round-waits av w t q below = ground (arith, prepare-quiet av w t q)

round-reports :
    (av : Av) (w : Worker) (t : Tick)
    → IsQuiet av w t
    → w.iterations_without_frame ≡ 32
    → av.video_callback ≡ true
    → av.audio_callback ≡ true
    → ((round av w t).actions ≡ video_callback none ∷ audio_callback none ∷ sleep ∷ [])
      × ((round av w t).control ≡ continues)
unfolding round idle
round-reports av w t q at video audio = ground (arith, prepare-quiet av w t q)

round-IsQuiet :
    (av : Av) (w : Worker) (t : Tick)
    → IsQuiet av w t
    → w.iterations_without_frame < 32
    → IsQuiet (round av w t).av (round av w t).worker t
round-IsQuiet av w t q below =
    let (a, c, same, i, k) = round-waits av w t q below in
    subst (λ x. IsQuiet x (round av w t).worker t) (sym same)
      (record {
        running = q.running;
        no_last = q.no_last;
        no_frame = q.no_frame;
        signal = q.signal;
        configured = k ∙ q.configured;
      })

work-cons :
    (av : Av) (w : Worker) (t : Tick) (hist : List (Interference × Tick))
    → av.global_quit ≡ false
    → (round av w t).control ≡ continues
    → (work av w ((nothing, t) ∷ hist)).0
      ≡ (round av w t).actions ++ (work (round av w t).av (round av w t).worker hist).0
unfolding work
work-cons av w t hist runs goes = ground arith

work-nil : (av : Av) (w : Worker) → (work av w []).0 ≡ []
unfolding work
work-nil av w = refl

-- In a quiet stretch, in which the signal is reported and no frame arrives, with both callbacks set, `n`
-- rounds left to the limit of 32 and the same reading in `n + 1` rounds, the loop waits `n` times for the
-- next interrupt and then tells both callbacks that the signal is lost.
pub work-signal_loss :
    (n : ℕ) (av : Av) (w : Worker) (t : Tick)
    → IsQuiet av w t
    → w.iterations_without_frame + n ≡ 32
    → av.video_callback ≡ true
    → av.audio_callback ≡ true
    → (work av w (replicate (suc n) (nothing, t))).0
      ≡ replicate n wait_for_interrupt ++ (video_callback none ∷ audio_callback none ∷ sleep ∷ [])
work-signal_loss zero av w t q at video audio =
    let (a, c) = round-reports av w t q (omega arith) video audio in
    work-cons av w t [] q.running c ∙ rw (a, work-nil)
work-signal_loss (suc n) av w t q at video audio =
    let (a, c, same, i, k) = round-waits av w t q (omega arith) in
    let rest =
      work-signal_loss n (round av w t).av (round av w t).worker t
        (round-IsQuiet av w t q (omega arith)) (omega arith)
        (ap (λ (x : Av). x.video_callback) same ∙ video)
        (ap (λ (x : Av). x.audio_callback) same ∙ audio) in
    work-cons av w t (replicate (suc n) (nothing, t)) q.running c
    ∙ rw a (ap (λ (l : List Action). wait_for_interrupt ∷ l) rest)
