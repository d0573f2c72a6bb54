-- ===== src/VideoSource/Output/First.antt =====
-- The frame that a call of `gst_aja_video_src_create` takes.
use ntv2_gst.Prelude.{
  Bool, true, arith, ◌||◌, ◌↔◌, ◌⊎◌, false, ◌&&◌, none, some, List, [], ◌∷◌, ◌++◌, ◌≡◌, refl, sym,
  ap, ◌∙◌, if_rule, if-false,
}
use mathlib.Core.List.{append_assoc}
use ntv2_gst.Mode.Defs.{Mode}
use ntv2_gst.Capture.Worker.{VideoBuff}
use ntv2_gst.Audio.Defs.{ClockMath}
use ntv2_gst.VideoSource.Defs.{Frame, AjaVideoSrc}
use ntv2_gst.VideoSource.Output.{
  Notice, notices, Taken, take_or_retry, take_frame, Output, flushing, ok, Created, Outside,
  renegotiate, caps_change, output_of, add_captions, finish, create,
}

-- A frame that tells of the signal only.
abbrev pub IsMarker : Frame → Type 0
IsMarker f = f.video_buff ≡ none

abbrev pub AllMarkers : List Frame → Type 0
AllMarkers [] = Unit
AllMarkers (f ∷ fs) = IsMarker f × AllMarkers fs

abbrev pub all_notices : List Frame → List Notice
all_notices [] = []
all_notices (f ∷ fs) = notices f.signal_change ++ all_notices fs

take_frame-markers :
    (fs : List Frame)
    → AllMarkers fs
    → take_frame fs ≡ record { taken = none; queue = []; told = all_notices fs }
unfolding take_frame
take_frame-markers [] h = refl
take_frame-markers (f ∷ fs) h =
    ap (λ b. take_or_retry f fs b (take_frame fs)) h.0
    ∙ ap (λ r. take_or_retry f fs none r) (take_frame-markers fs h.1)

take_frame-first :
    (pre : List Frame) (f : Frame) (post : List Frame) (b : VideoBuff)
    → AllMarkers pre
    → f.video_buff ≡ some b
    → take_frame (pre ++ f ∷ post) ≡ record {
      taken = some (f, b);
      queue = post;
      told = all_notices pre ++ notices f.signal_change;
    }
unfolding take_frame
take_frame-first [] f post b h e = ap (λ o. take_or_retry f post o (take_frame post)) e
take_frame-first (g ∷ pre) f post b h e =
    ap (λ o. take_or_retry g (pre ++ f ∷ post) o (take_frame (pre ++ f ∷ post))) h.0
    ∙ ap (λ r. take_or_retry g (pre ++ f ∷ post) none r) (take_frame-first pre f post b h.1 e)
    ∙ ap (λ (l : List Notice). record { taken = some (f, b); queue = post; told = l })
        (sym (append_assoc (notices g.signal_change) (all_notices pre) (notices f.signal_change)))

pub renegotiate-current_frames :
    (o : Outside) (f : Frame) (b : VideoBuff) (src : AjaVideoSrc)
    → (renegotiate o f b src).current_frames ≡ src.current_frames
unfolding renegotiate
renegotiate-current_frames o f b src =
    if_rule (λ (s : AjaVideoSrc). s.current_frames ≡ src.current_frames) (caps_change o src f b) _ _
      (λ _. refl) (λ _. refl)

pub add_captions-current_frames :
    (o : Outside) (mode : Mode) (b : VideoBuff) (src : AjaVideoSrc)
    → (add_captions o mode b src).current_frames ≡ src.current_frames
unfolding add_captions
add_captions-current_frames o mode b src =
    if_rule (λ (s : AjaVideoSrc). s.current_frames ≡ src.current_frames)
      (b.ancillary && src.settings.output_cc) _ _ (λ _. refl) (λ _. refl)

pub renegotiate-settings :
    (o : Outside) (f : Frame) (b : VideoBuff) (src : AjaVideoSrc)
    → (renegotiate o f b src).settings ≡ src.settings
unfolding renegotiate
renegotiate-settings o f b src =
    if_rule (λ (s : AjaVideoSrc). s.settings ≡ src.settings) (caps_change o src f b) _ _ (λ _. refl)
      (λ _. refl)

pub add_captions-settings :
    (o : Outside) (mode : Mode) (b : VideoBuff) (src : AjaVideoSrc)
    → (add_captions o mode b src).settings ≡ src.settings
unfolding add_captions
add_captions-settings o mode b src =
    if_rule (λ (s : AjaVideoSrc). s.settings ≡ src.settings) (b.ancillary && src.settings.output_cc)
      _ _ (λ _. refl) (λ _. refl)

-- A buffer that is put out as it was captured: itself, at the frame's times, and for as long as a frame of the
-- mode lasts. It is discontinuous if it is marked as a first one or for dropped frames.
pub record IsPutOut (m : ClockMath) (mode : Mode) (f : Frame) (b : VideoBuff) (out : Output)
    : Type 0 where
  pub buffer_of : out.buffer ≡ b
  pub timestamp_of : out.timestamp ≡ f.capture_time
  pub reference_of : out.reference_time ≡ f.stream_time
  pub duration_of : out.duration ≡ m.scale 1_000_000_000 mode.fps_d mode.fps_n
  pub discont_iff : (out.discont ≡ true) ↔ ((f.first_buffer ≡ true) ⊎ (b.dropped_changed ≡ true))

or_iff : (p q : Bool) → ((p || q) ≡ true) ↔ ((p ≡ true) ⊎ (q ≡ true))
or_iff p q = ground arith

output_of-IsPutOut :
    (m : ClockMath) (o : Outside) (mode : Mode) (src : AjaVideoSrc) (f : Frame) (b : VideoBuff)
    → IsPutOut m mode f b (output_of m o mode src f b)
unfolding output_of
output_of-IsPutOut m o mode src f b = record {
  buffer_of = refl;
  timestamp_of = refl;
  reference_of = refl;
  duration_of = refl;
  discont_iff = or_iff f.first_buffer b.dropped_changed;
}

-- What a call makes of a queue.
pub record IsCreated (m : ClockMath) (mode : Mode) (f : Frame) (b : VideoBuff) (queue : List Frame)
    (told : List Notice) (released : List VideoBuff) (c : Created) : Type 0 where
  pub flow_of : (out : Output) × (c.flow ≡ ok out) × IsPutOut m mode f b out
  pub queue_of : c.src.current_frames ≡ queue
  pub told_of : c.told ≡ told
  pub released_of : c.released ≡ released

-- A call returns the oldest frame that has a buffer. While the source does not flush, and in its queue
-- frames that tell of the signal only stand before one with a buffer: the call ends, with that buffer, at the
-- frame's times and for the time of one frame of the mode, discontinuous exactly if the frame is marked as
-- a first one or its buffer for dropped frames; it has told what all these frames tell, in their order; it gives back that buffer alone; and
-- the frames behind stay queued.
pub create-IsCreated :
    (m : ClockMath) (o : Outside) (mode : Mode) (src : AjaVideoSrc) (pre : List Frame) (f : Frame)
    (post : List Frame) (b : VideoBuff)
    → src.flushing ≡ false
    → src.current_frames ≡ pre ++ f ∷ post
    → AllMarkers pre
    → f.video_buff ≡ some b
    → IsCreated m mode f b post
        (all_notices pre ++ notices f.signal_change)
        (b ∷ [])
        (create m o mode src)
unfolding create
create-IsCreated m o mode src pre f post b h q ms e =
    let t = ap take_frame q ∙ take_frame-first pre f post b ms e in
    let s : AjaVideoSrc = record src { current_frames = post } in
    let eq =
      if-false (record { src = src; told = []; flow = flushing; released = [] })
        (finish m o mode (record src { current_frames = (take_frame src.current_frames).queue })
          (take_frame src.current_frames).told (take_frame src.current_frames).taken)
        h
      ∙ ap (λ (t : Taken). finish m o mode (record src { current_frames = t.queue }) t.told t.taken)
          t in
    record {
      flow_of = (
        output_of m o mode s f b,
        ap (λ (c : Created). c.flow) eq,
        output_of-IsPutOut m o mode s f b,
      );
      queue_of =
          ap (λ (c : Created). c.src.current_frames) eq
          ∙ add_captions-current_frames o mode b (renegotiate o f b s)
          ∙ renegotiate-current_frames o f b s;
      told_of = ap (λ (c : Created). c.told) eq;
      released_of = ap (λ (c : Created). c.released) eq;
    }
