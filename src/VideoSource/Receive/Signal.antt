-- ===== src/VideoSource/Receive/Signal.antt =====
-- What the streaming thread hears of the signal through the queue.
pub mod Heard
use ntv2_gst.Prelude.{
  ℕ, ◌+◌, ◌≤◌, Bool, true, false, not, ◌&&◌, ◌==◌, ltb, leb, leb→le, if◌then◌else◌, Option, none,
  some, List, [], ◌∷◌, ◌++◌, length, ◌≡◌, refl, sym, ap, ◌∙◌, arith, if_rule, if-false, subst,
  tests,
}
use ntv2_gst.Mode.Defs.{Mode}
use ntv2_gst.Capture.Worker.{VideoBuff}
use ntv2_gst.Audio.Defs.{TimeMapping, ClockMath, clock_time_none}
use ntv2_gst.VideoSource.Defs.{
  SignalChange, no_change, got_signal, recovered_signal, lost_signal, SignalState, signal_unknown,
  signal_lost, signal_available, Frame, marker, AjaVideoSrc,
}
use ntv2_gst.VideoSource.Receive.{
  Clocks, Got, capture_pipeline, is_available, is_lost, push_marker, lose_signal, find_signal,
  remember, Dropping, drop_one, drop_buff, drop_old, fresh, tell_head, set_first, skips,
  stream_time_of, enqueue, receive, got_frame,
}

-- The state that a change tells, and the one that a queue tells in the end.
abbrev pub told : SignalState → SignalChange → SignalState
told s no_change = s
told s got_signal = signal_available
told s recovered_signal = signal_available
told s lost_signal = signal_lost

abbrev pub heard : SignalState → List Frame → SignalState
heard s [] = s
heard s (f ∷ fs) = heard (told s f.signal_change) fs

pub heard-append :
    (s : SignalState) (xs ys : List Frame) → heard s (xs ++ ys) ≡ heard (heard s xs) ys
heard-append s [] ys = refl
heard-append s (x ∷ xs) ys = heard-append (told s x.signal_change) xs ys

lost_not_available : ¬ (signal_lost ≡ signal_available)
lost_not_available e = absurd (ground (arith, ap is_lost e))

told-lost :
    (s : SignalState) (c : SignalChange) (fs : List Frame)
    → ((t : SignalState) → heard signal_lost fs ≡ signal_available → heard t fs ≡ signal_available)
    → heard (told signal_lost c) fs ≡ signal_available
    → heard (told s c) fs ≡ signal_available
told-lost s no_change fs h k = h s k
told-lost s got_signal fs h k = k
told-lost s recovered_signal fs h k = k
told-lost s lost_signal fs h k = k

-- What a queue tells against a lost signal, it tells in any case.
heard-lost :
    (fs : List Frame) (s : SignalState)
    → heard signal_lost fs ≡ signal_available
    → heard s fs ≡ signal_available
heard-lost [] s h = absurd (lost_not_available h)
heard-lost (f ∷ fs) s h = told-lost s f.signal_change fs (heard-lost fs) h

told-available :
    (s : SignalState) (c : SignalChange) (fs : List Frame)
    → ((t : SignalState)
        → heard t fs ≡ signal_available
        → heard signal_available fs ≡ signal_available)
    → heard (told s c) fs ≡ signal_available
    → heard (told signal_available c) fs ≡ signal_available
told-available s no_change fs h k = h s k
told-available s got_signal fs h k = k
told-available s recovered_signal fs h k = k
told-available s lost_signal fs h k = k

-- A queue that leads to an available signal also keeps one.
heard-available :
    (fs : List Frame) (s : SignalState)
    → heard s fs ≡ signal_available
    → heard signal_available fs ≡ signal_available
heard-available [] s h = refl
heard-available (f ∷ fs) s h = told-available s f.signal_change fs (heard-available fs) h

-- The loop remembers a signal that came, never one that went.
abbrev came : SignalChange → Bool
came lost_signal = false
came _ = true

remember-came : (x c : SignalChange) → came c ≡ true → came (remember x c) ≡ true
remember-came recovered_signal c h = refl
remember-came got_signal recovered_signal h = refl
remember-came got_signal no_change h = refl
remember-came got_signal got_signal h = refl
remember-came got_signal lost_signal h = refl
remember-came no_change c h = h
remember-came lost_signal c h = h

remember-heard :
    (s : SignalState) (x c : SignalChange) (fs : List Frame)
    → came c ≡ true
    → heard (told (told s c) x) fs ≡ signal_available
    → heard (told s (remember x c)) fs ≡ signal_available
remember-heard s recovered_signal c fs h k = k
remember-heard s got_signal recovered_signal fs h k = k
remember-heard s got_signal no_change fs h k = k
remember-heard s got_signal got_signal fs h k = k
remember-heard s got_signal lost_signal fs h k = k
remember-heard s no_change c fs h k = k
remember-heard s lost_signal c fs h k = heard-lost fs (told s c) k

tell_head-heard :
    (s : SignalState) (c : SignalChange) (f : Frame) (fs : List Frame)
    → came c ≡ true
    → heard (told s c) (f ∷ fs) ≡ signal_available
    → heard s (tell_head c (f ∷ fs)) ≡ signal_available
tell_head-heard s no_change f fs h k = k
tell_head-heard s got_signal f fs h k = heard-available fs (told signal_available f.signal_change) k
tell_head-heard s recovered_signal f fs h k =
    heard-available fs (told signal_available f.signal_change) k
tell_head-heard s lost_signal f fs h k = absurd (ground (arith, h))

-- What the loop is to keep of a queue.
abbrev Kept : SignalState → Dropping → Type 0
Kept s d = heard s (tell_head d.signal_change d.queue) ≡ signal_available

drop_buff-signal_change :
    (last t : ℕ) (b : Option VideoBuff) (d : Dropping)
    → (drop_buff last t b d).signal_change ≡ d.signal_change
drop_buff-signal_change last t none d = refl
drop_buff-signal_change last t (some b) d = refl

drop_old-Kept :
    (size last : ℕ) (s : SignalState) (f : Frame) (fs : List Frame) (d : Dropping)
    → 2 ≤ size
    → came d.signal_change ≡ true
    → heard (told s d.signal_change) (f ∷ fs) ≡ signal_available
    → Kept s (drop_old size last (f ∷ fs) d)
unfolding drop_old
drop_old-Kept size last s f [] d h k a =
    if_rule (Kept s) (leb size 1) _ _ (λ t. absurd (omega (tests, leb→le size 1 t)))
      (λ _. tell_head-heard s d.signal_change f [] k a)
drop_old-Kept size last s f (g ∷ fs) d h k a =
    let e =
      drop_buff-signal_change last f.capture_time f.video_buff
        (record d { signal_change = remember f.signal_change d.signal_change }) in
    if_rule (Kept s) (leb size (length (f ∷ g ∷ fs))) _ _
      (λ _.
        drop_old-Kept size last s g fs (drop_one last f d) h
          (ap came e ∙ remember-came f.signal_change d.signal_change k)
          (ap (λ c. heard (told s c) (g ∷ fs)) e
            ∙ remember-heard s f.signal_change d.signal_change (g ∷ fs) k a))
      (λ _. tell_head-heard s d.signal_change f (g ∷ fs) k a)

drop_all-Kept :
    (size last : ℕ) (s : SignalState) (fs : List Frame) (d : Dropping)
    → 2 ≤ size
    → d.signal_change ≡ no_change
    → heard s fs ≡ signal_available
    → Kept s (drop_old size last fs d)
unfolding drop_old
drop_all-Kept size last s [] d h e a = ap (λ c. heard s (tell_head c [])) e ∙ a
drop_all-Kept size last s (f ∷ fs) d h e a =
    drop_old-Kept size last s f fs d h (ap came e) (ap (λ c. heard (told s c) (f ∷ fs)) e ∙ a)

-- The queue tells what the state is.
abbrev pub IsHeard : SignalState → AjaVideoSrc → Type 0
IsHeard s src = heard s src.current_frames ≡ src.signal_state

pub enqueue-signal_state :
    (src : AjaVideoSrc) (b : VideoBuff) (t u : ℕ) (had_signal : Bool)
    → (enqueue src b t u had_signal).src.signal_state ≡ src.signal_state
unfolding enqueue
enqueue-signal_state src b t u had_signal = refl

pub enqueue-heard :
    (s : SignalState) (src : AjaVideoSrc) (b : VideoBuff) (t u : ℕ) (had_signal : Bool)
    → 2 ≤ src.settings.queue_size
    → heard s src.current_frames ≡ signal_available
    → heard s (enqueue src b t u had_signal).src.current_frames ≡ signal_available
unfolding enqueue
enqueue-heard s src b t u had_signal h a =
    let d = drop_old src.settings.queue_size src.skipped_last src.current_frames (fresh src) in
    heard-append s (tell_head d.signal_change d.queue) _
    ∙ drop_all-Kept src.settings.queue_size src.skipped_last s src.current_frames (fresh src) h refl
        a
