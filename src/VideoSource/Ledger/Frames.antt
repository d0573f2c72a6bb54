-- ===== src/VideoSource/Ledger/Frames.antt =====
-- A call of `gst_aja_video_src_got_frame` keeps the account of a buffer.
use ntv2_gst.Prelude.{
  ℕ, ◌+◌, ◌≤◌, ◌<◌, Bool, ◌==◌, if◌then◌else◌, Option, none, some, List, [], ◌∷◌, ◌++◌, length, ◌≡◌,
  refl, sym, ap, ◌∙◌, if_rule, subst,
}
use ntv2_gst.Mode.Defs.{Mode}
use ntv2_gst.Capture.Worker.{VideoBuff}
use ntv2_gst.Audio.Defs.{TimeMapping, ClockMath, clock_time_none}
use ntv2_gst.VideoSource.Defs.{
  SignalChange, got_signal, recovered_signal, lost_signal, signal_lost, signal_available, Frame,
  marker, AjaVideoSrc,
}
use ntv2_gst.VideoSource.Receive.{
  Clocks, Got, capture_pipeline, is_available, is_lost, push_marker, lose_signal, find_signal,
  set_first, skips, stream_time_of, receive, got_frame,
}
use ntv2_gst.VideoSource.Output.{buffs, buff_list}
use ntv2_gst.VideoSource.Ledger.{count, IsKept}
use ntv2_gst.VideoSource.Ledger.Accounts.{enqueue-IsKept}

-- A change that leaves the buffers of the queue.
pub record IsQuiet (src t : AjaVideoSrc) : Type 0 where
  pub same_buffs : buffs t.current_frames ≡ buffs src.current_frames
  pub same_settings : t.settings ≡ src.settings

still : (src : AjaVideoSrc) → IsQuiet src src
still src = record { same_buffs = refl; same_settings = refl }

marker-buffs : (c : SignalChange) (fs : List Frame) → buffs (fs ++ marker c ∷ []) ≡ buffs fs
marker-buffs c [] = refl
marker-buffs c (f ∷ fs) = ap (λ l. buff_list f.video_buff ++ l) (marker-buffs c fs)

push_marker-IsQuiet :
    (c : SignalChange) (src t : AjaVideoSrc) → IsQuiet src t → IsQuiet src (push_marker c t)
push_marker-IsQuiet c src t i =
    if_rule (IsQuiet src) t.flushing _ _ (λ _. i)
      (λ _. record {
        same_buffs = marker-buffs c t.current_frames ∙ i.same_buffs;
        same_settings = i.same_settings;
      })

pub lose_signal-IsQuiet : (src : AjaVideoSrc) → IsQuiet src (lose_signal src)
unfolding lose_signal
lose_signal-IsQuiet src =
    if_rule (IsQuiet src) (is_lost src.signal_state) _ _ (λ _. still src)
      (λ _.
        push_marker-IsQuiet lost_signal src (record src { signal_state = signal_lost })
          (record { same_buffs = refl; same_settings = refl }))

pub find_signal-IsQuiet :
    (c : ℕ) (b : VideoBuff) (src : AjaVideoSrc) → IsQuiet src (find_signal c b src).0
unfolding find_signal
find_signal-IsQuiet c b src =
    let change = if is_lost src.signal_state then recovered_signal else got_signal in
    let i =
      push_marker-IsQuiet change src (record src { signal_state = signal_available })
        (record { same_buffs = refl; same_settings = refl }) in
    if_rule (λ (r : AjaVideoSrc × Bool). IsQuiet src r.0) (is_available src.signal_state) _ _
      (λ _.
        if_rule (λ (t : AjaVideoSrc). IsQuiet src t) (src.discont_time == clock_time_none) _ _
          (λ _. record { same_buffs = refl; same_settings = refl }) (λ _. still src))
      (λ _. record { same_buffs = i.same_buffs; same_settings = i.same_settings })

pub set_first-IsQuiet : (n : ℕ) (src t : AjaVideoSrc) → IsQuiet src t → IsQuiet src (set_first n t)
set_first-IsQuiet n src t i =
    if_rule (IsQuiet src) (t.first_time == clock_time_none) _ _
      (λ _. record { same_buffs = i.same_buffs; same_settings = i.same_settings }) (λ _. i)

-- Quiet changes keep every account, with a list of what goes straight back.
quiet-IsKept :
    (n : ℕ) (src t : AjaVideoSrc) (bs : List VideoBuff)
    → length (buffs src.current_frames) ≤ src.settings.queue_size
    → IsQuiet src t
    → IsKept n src.settings.queue_size bs
        (buffs src.current_frames)
        (record { src = t; released = bs })
quiet-IsKept n src t bs h i = record {
  account = ap (λ q. count n bs + count n q) i.same_buffs;
  within = subst (λ q. length q ≤ src.settings.queue_size) (sym i.same_buffs) h;
  same_size = ap (λ s. s.queue_size) i.same_settings;
}

along :
    (n : ℕ) (bs : List VideoBuff) {size size' : ℕ} {before before' : List VideoBuff} {g : Got}
    → size' ≡ size
    → before' ≡ before
    → IsKept n size' bs before' g
    → IsKept n size bs before g
along n bs {size' = size'} {before = before} {g = g} e f k =
    subst (λ z. IsKept n z bs before g) e (subst (λ l. IsKept n size' bs l g) f k)

receive-IsKept :
    (m : ClockMath) (reg : List (ℕ × ℕ) → Option TimeMapping) (n c s : ℕ) (b : VideoBuff)
    (had_signal : Bool) (src t : AjaVideoSrc)
    → 0 < src.settings.queue_size
    → length (buffs src.current_frames) ≤ src.settings.queue_size
    → IsQuiet src t
    → IsKept n src.settings.queue_size
        (b ∷ [])
        (buffs src.current_frames)
        (receive m reg c s b had_signal t)
unfolding receive
receive-IsKept m reg n c s b had_signal src t h w i =
    let Kept : Got → Type 0 =
      IsKept n src.settings.queue_size (b ∷ []) (buffs src.current_frames) in
    let j = set_first-IsQuiet s src t i in
    if_rule Kept (skips (set_first s t) s) _ _ (λ _. quiet-IsKept n src _ (b ∷ []) w j)
      (λ _.
        if_rule Kept (set_first s t).flushing _ _
          (λ _.
            quiet-IsKept n src _ (b ∷ []) w
              (record { same_buffs = j.same_buffs; same_settings = j.same_settings }))
          (λ _. along n (b ∷ []) (ap (λ q. q.queue_size) j.same_settings) j.same_buffs (
            enqueue-IsKept n _ b _ s had_signal
              (subst (λ q. 0 < q.queue_size) (sym j.same_settings) h))))

pub got_frame-IsKept :
    (m : ClockMath) (reg : List (ℕ × ℕ) → Option TimeMapping) (n : ℕ) (mode : Mode) (c : Clocks)
    (b : Option VideoBuff) (src : AjaVideoSrc)
    → 0 < src.settings.queue_size
    → length (buffs src.current_frames) ≤ src.settings.queue_size
    → IsKept n src.settings.queue_size
        (buff_list b)
        (buffs src.current_frames)
        (got_frame m reg mode c b src)
unfolding got_frame
got_frame-IsKept m reg n mode c none src h w =
    quiet-IsKept n src (lose_signal src) [] w (lose_signal-IsQuiet src)
got_frame-IsKept m reg n mode c (some b) src h w =
    let t = capture_pipeline c b.time_stamp in
    let r = find_signal t b src in
    if_rule (IsKept n src.settings.queue_size (b ∷ []) (buffs src.current_frames)) b.have_signal _ _
      (λ _.
        receive-IsKept m reg n t (stream_time_of m mode r.0 b.frame_number) b r.1 src r.0 h w
          (find_signal-IsQuiet t b src))
      (λ _. quiet-IsKept n src (lose_signal src) (b ∷ []) w (lose_signal-IsQuiet src))
