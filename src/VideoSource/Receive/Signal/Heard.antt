-- ===== src/VideoSource/Receive/Signal/Heard.antt =====
-- A call of `gst_aja_video_src_got_frame` and what the streaming thread hears of it.
use ntv2_gst.Prelude.{
  ℕ, ◌≤◌, Bool, true, false, ◌==◌, if◌then◌else◌, Option, none, some, List, [], ◌∷◌, ◌++◌, ◌≡◌,
  refl, sym, ◌∙◌, arith, if_rule, if-false, subst,
}
use ntv2_gst.Mode.Defs.{Mode}
use ntv2_gst.Capture.Worker.{VideoBuff}
use ntv2_gst.Audio.Defs.{TimeMapping, ClockMath, clock_time_none}
use ntv2_gst.VideoSource.Defs.{
  got_signal, recovered_signal, lost_signal, SignalState, signal_unknown, signal_lost,
  signal_available, Frame, marker, AjaVideoSrc,
}
use ntv2_gst.VideoSource.Receive.{
  Clocks, Got, capture_pipeline, is_available, is_lost, lose_signal, find_signal, set_first, skips,
  stream_time_of, receive, got_frame,
}
use ntv2_gst.VideoSource.Receive.Signal.{
  heard, heard-append, IsHeard, enqueue-heard, enqueue-signal_state,
}

is_lost-signal_lost : (t : SignalState) → is_lost t ≡ true → t ≡ signal_lost
is_lost-signal_lost signal_lost h = refl
is_lost-signal_lost signal_unknown h = absurd (ground (arith, h))
is_lost-signal_lost signal_available h = absurd (ground (arith, h))

is_available-signal_available : (t : SignalState) → is_available t ≡ true → t ≡ signal_available
is_available-signal_available signal_available h = refl
is_available-signal_available signal_unknown h = absurd (ground (arith, h))
is_available-signal_available signal_lost h = absurd (ground (arith, h))

lose_signal-IsHeard :
    (s : SignalState) (src : AjaVideoSrc)
    → src.flushing ≡ false
    → IsHeard s src
    → IsHeard s (lose_signal src)
unfolding lose_signal
lose_signal-IsHeard s src f h =
    if_rule (IsHeard s) (is_lost src.signal_state) _ _ (λ _. h)
      (λ _.
        subst (IsHeard s) (sym (if-false _ _ f))
          (heard-append s src.current_frames (marker lost_signal ∷ [])))

-- A source behind the branch for a signal.
record IsFound (s : SignalState) (src t : AjaVideoSrc) : Type 0 where
  queue : heard s t.current_frames ≡ signal_available
  state : t.signal_state ≡ signal_available
  size : t.settings ≡ src.settings

told-came :
    (b : Bool) (s t : SignalState) (fs : List Frame)
    → heard s (fs ++ marker (if b then recovered_signal else got_signal) ∷ []) ≡ signal_available
told-came true s t fs = heard-append s fs _
told-came false s t fs = heard-append s fs _

find_signal-IsFound :
    (s : SignalState) (c : ℕ) (b : VideoBuff) (src : AjaVideoSrc)
    → src.flushing ≡ false
    → IsHeard s src
    → IsFound s src (find_signal c b src).0
unfolding find_signal
find_signal-IsFound s c b src f h =
    if_rule (λ (r : AjaVideoSrc × Bool). IsFound s src r.0) (is_available src.signal_state) _ _
      (λ a.
        let e = is_available-signal_available src.signal_state a in
        if_rule (λ (t : AjaVideoSrc). IsFound s src t) (src.discont_time == clock_time_none) _ _
          (λ _. record { queue = h ∙ e; state = e; size = refl })
          (λ _. record { queue = h ∙ e; state = e; size = refl }))
      (λ _.
        subst
          (λ (t : AjaVideoSrc).
            IsFound s src (record t { discont_time = c; discont_frame_number = b.frame_number }))
          (sym (if-false _ _ f))
          (record {
            queue = told-came (is_lost src.signal_state) s s src.current_frames;
            state = refl;
            size = refl;
          }))

set_first-IsFound :
    (s : SignalState) (n : ℕ) (src t : AjaVideoSrc)
    → IsFound s src t
    → IsFound s src (set_first n t)
set_first-IsFound s n src t i =
    if_rule (IsFound s src) (t.first_time == clock_time_none) _ _
      (λ _. record { queue = i.queue; state = i.state; size = i.size }) (λ _. i)

receive-IsHeard :
    (m : ClockMath) (regression : List (ℕ × ℕ) → Option TimeMapping) (s : SignalState) (c n : ℕ)
    (b : VideoBuff) (had_signal : Bool) (src t : AjaVideoSrc)
    → 2 ≤ src.settings.queue_size
    → IsFound s src t
    → IsHeard s (receive m regression c n b had_signal t).src
unfolding receive
receive-IsHeard m reg s c n b had_signal src t h i =
    let j = set_first-IsFound s n src t i in
    if_rule (λ (g : Got). IsHeard s g.src) (skips (set_first n t) n) _ _
      (λ _. j.queue ∙ sym j.state)
      (λ _.
        if_rule (λ (g : Got). IsHeard s g.src) (set_first n t).flushing _ _
          (λ _. j.queue ∙ sym j.state)
          (λ _.
            enqueue-heard s _ b _ n had_signal (subst (λ q. 2 ≤ q.queue_size) (sym j.size) h)
              j.queue
            ∙ sym (enqueue-signal_state _ b _ n had_signal ∙ j.state)))

-- The streaming thread ends up with the state of the signal, though old frames are dropped and some of the
-- changes that they tell of are forgotten with them. With a queue size of at least 2, while the source does not
-- flush: if a thread that was told the state `s` and takes all of the queue ends up with the state of the source,
-- with a signal, without, or unknown, it does so too behind any call for a frame, with a signal or without.
-- Which changes it is told of on the way, and whether it is told of a signal as a new or a recovered one, is left
-- open.
pub got_frame-IsHeard :
    (m : ClockMath) (regression : List (ℕ × ℕ) → Option TimeMapping) (mode : Mode) (s : SignalState)
    (c : Clocks) (b : Option VideoBuff) (src : AjaVideoSrc)
    → 2 ≤ src.settings.queue_size
    → src.flushing ≡ false
    → IsHeard s src
    → IsHeard s (got_frame m regression mode c b src).src
unfolding got_frame
got_frame-IsHeard m reg mode s c none src h f i = lose_signal-IsHeard s src f i
got_frame-IsHeard m reg mode s c (some b) src h f i =
    let t = capture_pipeline c b.time_stamp in
    let r = find_signal t b src in
    if_rule (λ (g : Got). IsHeard s g.src) b.have_signal _ _
      (λ _.
        receive-IsHeard m reg s t (stream_time_of m mode r.0 b.frame_number) b r.1 src r.0 h
          (find_signal-IsFound s t b src f i))
      (λ _. lose_signal-IsHeard s src f i)
