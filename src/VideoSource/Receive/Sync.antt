-- ===== src/VideoSource/Receive/Sync.antt =====
-- The frames and the audio packets of one input, which the capture loop hands to the video source and then
-- to the audio source (gst-plugin/aja/gstajavideosrc.cpp and gst-plugin/aja/gstajaaudiosrc.cpp).
use ntv2_gst.Prelude.{
  ℕ, Bool, true, false, ◌&&◌, ◌==◌, ltb, Option, none, some, List, [], ◌∷◌, ◌++◌, ◌≡◌, ◌⊎◌, inl,
  inr, refl, sym, ap, ◌∙◌, if-true, if-false, if_rule, subst,
}
use ntv2_gst.Mode.Defs.{Mode}
use ntv2_gst.Capture.Worker.{VideoBuff, AudioBuff}
use ntv2_gst.Audio.Defs.{TimeMapping, VideoSrc, Input, AudioSrc, ClockMath, Packet, clock_time_none}
use ntv2_gst.Audio.Receive.{Received, got_packet}
use ntv2_gst.Audio.Receive
use ntv2_gst.VideoSource.Defs.{Frame, AjaVideoSrc}
use ntv2_gst.VideoSource.Mapping.{update_time_mapping}
use ntv2_gst.VideoSource.Receive.{
  Clocks, Got, capture_pipeline, is_available, find_signal, set_first, skips, stream_time_of,
  timestamp_of, enqueue, receive, got_frame, drop_old, fresh, tell_head,
}

-- What the audio source reads of the video source, with its references.
abbrev pub seen : ℕ → AjaVideoSrc → VideoSrc
seen refs src = record {
  first_time = src.first_time;
  discont_time = src.discont_time;
  discont_frame_number = src.discont_frame_number;
  skip_first_time = src.settings.skip_first_time;
  output_stream_time = src.settings.output_stream_time;
  current_time_mapping = src.window.current_time_mapping;
  refs = refs;
}

abbrev input_with : Mode → VideoSrc → Input
input_with mode v = record { fps_n = mode.fps_n; fps_d = mode.fps_d; videosrc = some v }

abbrev pub shared : Mode → ℕ → AjaVideoSrc → Input
shared mode refs src = input_with mode (seen refs src)

abbrev pub last {ℓ} : {A : Type ℓ} → List A → Option A
last [] = none
last (x ∷ []) = some x
last (x ∷ y ∷ xs) = last (y ∷ xs)

last-append {ℓ} : {A : Type ℓ} (xs : List A) (x : A) → last (xs ++ x ∷ []) ≡ some x
last-append [] x = refl
last-append (y ∷ []) x = refl
last-append (y ∷ z ∷ xs) x = last-append (z ∷ xs) x

-- The times of what a queue ends with: the timestamp and the stream time.
abbrev pub frame_times : Option Frame → Option (ℕ × ℕ)
frame_times none = none
frame_times (some f) = some (f.capture_time, f.stream_time)

abbrev pub packet_times : Option Packet → Option (ℕ × ℕ)
packet_times none = none
packet_times (some p) = some (p.capture_time, p.stream_time)

-- A frame and a packet that are both given back, or are queued with the same times.
abbrev pub IsSynced : VideoBuff → AudioBuff → Got → Received → Type 0
IsSynced b ab g r =
    ((g.released ≡ b ∷ []) × (r.released ≡ ab ∷ []))
    ⊎ ((t : ℕ × ℕ) × ((frame_times (last g.src.current_frames) ≡ some t)
          × (packet_times (last r.src.current_packets) ≡ some t)))

find_signal-flushing :
    (c : ℕ) (b : VideoBuff) (src : AjaVideoSrc)
    → src.flushing ≡ false
    → (find_signal c b src).0.flushing ≡ false
unfolding find_signal
find_signal-flushing c b src h =
    if_rule (λ (r : AjaVideoSrc × Bool). r.0.flushing ≡ false) (is_available src.signal_state) _ _
      (λ _.
        if_rule (λ (s : AjaVideoSrc). s.flushing ≡ false) (src.discont_time == clock_time_none) _ _
          (λ _. h) (λ _. h))
      (λ _. if_rule (λ (s : AjaVideoSrc). s.flushing ≡ false) src.flushing _ _ (λ _. h) (λ _. h))

set_first-flushing :
    (t : ℕ) (src : AjaVideoSrc) → src.flushing ≡ false → (set_first t src).flushing ≡ false
set_first-flushing t src h =
    if_rule (λ (s : AjaVideoSrc). s.flushing ≡ false) (src.first_time == clock_time_none) _ _
      (λ _. h) (λ _. h)

set_first-stream_time_of :
    (m : ClockMath) (mode : Mode) (t n : ℕ) (src : AjaVideoSrc)
    → stream_time_of m mode (set_first t src) n ≡ stream_time_of m mode src n
set_first-stream_time_of m mode t n src =
    if_rule (λ s. stream_time_of m mode s n ≡ stream_time_of m mode src n)
      (src.first_time == clock_time_none) _ _ (λ _. refl) (λ _. refl)

-- The audio source's part, for the state that the video source leaves.
packet-skipped :
    (m : ClockMath) (mode : Mode) (refs : ℕ) (v : AjaVideoSrc) (a : AudioSrc) (ab : AudioBuff)
    → ab.have_signal ≡ true
    → skips v (stream_time_of m mode v ab.frame_number) ≡ true
    → (got_packet m a (shared mode refs v) (some ab)).released ≡ ab ∷ []
unfolding got_packet Receive.stream_time_of Receive.skips
packet-skipped m mode refs v a ab h k =
    ap (λ (r : Received). r.released) (if-true _ _ h)
    ∙ ap (λ (r : Received). r.released) (if-true _ _ k)

enqueue-packet_times :
    (a : AudioSrc) (p : Packet)
    → packet_times (last (Receive.enqueue a p).0.current_packets)
      ≡ some (p.capture_time, p.stream_time)
unfolding Receive.enqueue
enqueue-packet_times a p =
    let d = Receive.drop_old a.queue_size a.skipped_last a.current_packets (Receive.fresh a) in
    ap packet_times (last-append d.queue _)
    ∙ if_rule (λ (q : Packet). packet_times (some q) ≡ some (p.capture_time, p.stream_time))
        (d.skipped_frames == 0 && ltb 0 a.skipped_last) _ _ (λ _. refl) (λ _. refl)

packet-queued :
    (m : ClockMath) (mode : Mode) (refs : ℕ) (v : AjaVideoSrc) (a : AudioSrc) (ab : AudioBuff)
    → ab.have_signal ≡ true
    → a.flushing ≡ false
    → skips v (stream_time_of m mode v ab.frame_number) ≡ false
    → let t = stream_time_of m mode v ab.frame_number in
      packet_times (last (got_packet m a (shared mode refs v) (some ab)).src.current_packets)
      ≡ some (timestamp_of m v t, t)
unfolding got_packet Receive.stream_time_of Receive.skips Receive.receive
packet-queued m mode refs v a ab h f k =
    let times : Received → Option (ℕ × ℕ) = λ r. packet_times (last r.src.current_packets) in
    ap times (if-true _ _ h)
    ∙ ap times (if-false _ _ k)
    ∙ ap times (if-false _ _ f)
    ∙ enqueue-packet_times (record a { had_signal = true }) _

enqueue-frame_times :
    (src : AjaVideoSrc) (b : VideoBuff) (t s : ℕ) (had_signal : Bool)
    → frame_times (last (enqueue src b t s had_signal).src.current_frames) ≡ some (t, s)
unfolding enqueue
enqueue-frame_times src b t s had_signal =
    let d = drop_old src.settings.queue_size src.skipped_last src.current_frames (fresh src) in
    ap frame_times (last-append (tell_head d.signal_change d.queue) _)

enqueue-seen :
    (src : AjaVideoSrc) (b : VideoBuff) (t s refs : ℕ) (had_signal : Bool)
    → seen refs (enqueue src b t s had_signal).src ≡ seen refs src
unfolding enqueue
enqueue-seen src b t s refs had_signal = refl

-- The video source's part, behind the signal's and the first time's.
receive-IsSynced :
    (m : ClockMath) (regression : List (ℕ × ℕ) → Option TimeMapping) (mode : Mode) (refs c : ℕ)
    (b : VideoBuff) (had_signal : Bool) (v : AjaVideoSrc) (a : AudioSrc) (ab : AudioBuff)
    → ab.have_signal ≡ true
    → a.flushing ≡ false
    → v.flushing ≡ false
    → let t = set_first (stream_time_of m mode v ab.frame_number) v in
      stream_time_of m mode t ab.frame_number ≡ stream_time_of m mode v ab.frame_number
      → let g = receive m regression c (stream_time_of m mode v ab.frame_number) b had_signal v in
        IsSynced b ab g (got_packet m a (shared mode refs g.src) (some ab))
unfolding receive
receive-IsSynced m reg mode refs c b had_signal v a ab h f vf e =
    let st = stream_time_of m mode v ab.frame_number in
    let t = set_first st v in
    let u : AjaVideoSrc = record t {
      window = update_time_mapping m reg t.info.fps_n t.info.fps_d c st b.dropped_changed t.window;
    } in
    if_rule (λ (g : Got). IsSynced b ab g (got_packet m a (shared mode refs g.src) (some ab)))
      (skips t st) _ _
      (λ k. inl (refl, packet-skipped m mode refs t a ab h (ap (λ s. skips t s) e ∙ k)))
      (λ k.
        subst (λ (g : Got). IsSynced b ab g (got_packet m a (shared mode refs g.src) (some ab)))
          (sym (if-false _ _ (set_first-flushing st v vf)))
          (inr (
            (timestamp_of m u st, st),
            (
              enqueue-frame_times u b (timestamp_of m u st) st had_signal,
              subst
                  (λ s.
                    packet_times
                      (last (got_packet m a (input_with mode s) (some ab)).src.current_packets)
                    ≡ some (timestamp_of m u st, st))
                  (sym (enqueue-seen u b (timestamp_of m u st) st refs had_signal))
                  (packet-queued m mode refs u a ab h f (ap (λ s. skips t s) e ∙ k)
                    ∙ ap (λ s. some (timestamp_of m u s, s)) e),
            ),
          )))

-- Sound and picture of a frame have the same times. For a frame and a packet with the same number and with
-- a signal, on one input, where neither source flushes, when the video source gets the frame and then the
-- audio source gets the packet: both are given back, or both are queued, with the same timestamp and the
-- same stream time.
pub got_frame-IsSynced :
    (m : ClockMath) (regression : List (ℕ × ℕ) → Option TimeMapping) (mode : Mode) (refs : ℕ)
    (c : Clocks) (b : VideoBuff) (src : AjaVideoSrc) (a : AudioSrc) (ab : AudioBuff)
    → b.have_signal ≡ true
    → ab.have_signal ≡ true
    → ab.frame_number ≡ b.frame_number
    → src.flushing ≡ false
    → a.flushing ≡ false
    → let g = got_frame m regression mode c (some b) src in
      IsSynced b ab g (got_packet m a (shared mode refs g.src) (some ab))
unfolding got_frame
got_frame-IsSynced m reg mode refs c b src a ab hb ha n f fa =
    let t = capture_pipeline c b.time_stamp in
    let r = find_signal t b src in
    let Synced : Got → Type 0 =
      λ g. IsSynced b ab g (got_packet m a (shared mode refs g.src) (some ab)) in
    subst Synced (sym (if-true _ _ hb)) (
      subst (λ k. Synced (receive m reg t (stream_time_of m mode r.0 k) b r.1 r.0)) n
        (receive-IsSynced m reg mode refs t b r.1 r.0 a ab ha fa (find_signal-flushing t b src f)
          (set_first-stream_time_of m mode _ _ r.0)))
