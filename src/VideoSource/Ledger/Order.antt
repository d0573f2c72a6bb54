-- ===== src/VideoSource/Ledger/Order.antt =====
-- The order of the frames on their way through the video source, from the capture loop to the pads.
use ntv2_gst.Prelude.{
  ℕ, Bool, true, false, ◌&&◌, ◌==◌, ltb, leb, Option, none, some, List, [], ◌∷◌, ◌++◌, length, ◌≡◌,
  refl, sym, ap, ◌∙◌, if_rule, subst,
}
use ntv2_gst.Prelude.Sublist.{
  Sublist, stop, Sublist-refl, Sublist-nil, Sublist-append, Sublist-left, Sublist-chain,
}
use mathlib.Core.List.{append_assoc}
use ntv2_gst.Mode.Defs.{Mode}
use ntv2_gst.Capture.Worker.{VideoBuff}
use ntv2_gst.Audio.Defs.{TimeMapping, ClockMath}
use ntv2_gst.VideoSource.Defs.{Frame, AjaVideoSrc}
use ntv2_gst.VideoSource.Receive.{
  Clocks, Got, capture_pipeline, find_signal, set_first, skips, stream_time_of, timestamp_of,
  receive, got_frame, video_callback, Dropping, drop_one, drop_old, fresh, tell_head, mark_if,
  frame_of, enqueue,
}
use ntv2_gst.VideoSource.Mapping.{update_time_mapping}
use ntv2_gst.VideoSource.Output.{
  Notice, Outside, take_frame, Created, finish, renegotiate, create, buffs, buff_list,
}
use ntv2_gst.VideoSource.Output.First.{renegotiate-current_frames, add_captions-current_frames}
use ntv2_gst.VideoSource.Ledger.{
  Call, callback, create_call, unlock_call, unlock_stop_call, stop_call, call, came, arrivals,
}
use ntv2_gst.VideoSource.Ledger.Accounts.{tell_head-buffs}
use ntv2_gst.VideoSource.Ledger.Balance.{taken_buffs, take_frame-buffs}
use ntv2_gst.VideoSource.Ledger.Frames.{
  IsQuiet, lose_signal-IsQuiet, find_signal-IsQuiet, set_first-IsQuiet,
}

abbrev pub numbers : List VideoBuff → List ℕ
numbers [] = []
numbers (b ∷ bs) = b.frame_number ∷ numbers bs

-- The buffers that a call puts out: `create` gives back a buffer as it puts it out.
abbrev pub put_out : Call → Got → List VideoBuff
put_out (create_call o mode) r = r.released
put_out _ r = []

module _ (m : ClockMath) (regression : List (ℕ × ℕ) → Option TimeMapping) where
  -- What a history of calls puts out.
  unfoldable pub outputs : AjaVideoSrc → List Call → List VideoBuff
  outputs src [] = []
  outputs src (c ∷ cs) = let r = call m regression src c in put_out c r ++ outputs r.src cs

numbers-append : (xs ys : List VideoBuff) → numbers (xs ++ ys) ≡ numbers xs ++ numbers ys
numbers-append [] ys = refl
numbers-append (x ∷ xs) ys = ap (λ l. x.frame_number ∷ l) (numbers-append xs ys)

buffs-append : (xs ys : List Frame) → buffs (xs ++ ys) ≡ buffs xs ++ buffs ys
buffs-append [] ys = refl
buffs-append (x ∷ xs) ys =
    ap (λ l. buff_list x.video_buff ++ l) (buffs-append xs ys)
    ∙ sym (append_assoc (buff_list x.video_buff) (buffs xs) (buffs ys))

-- What goes out and what stays in the queue are, in order, what was in the queue and what came.
abbrev Passes : List VideoBuff → List VideoBuff → List VideoBuff → List VideoBuff → Type 0
Passes before came out after =
    Sublist (numbers out ++ numbers after) (numbers before ++ numbers came)

stays-Passes : (came q q' : List VideoBuff) → q' ≡ q → Passes q came [] q'
stays-Passes came q q' e =
    subst (λ l. Passes q came [] l) (sym e) (Sublist-left (numbers q) (numbers came))

drop_old-Sublist :
    (size last : ℕ) (fs : List Frame) (d : Dropping)
    → Sublist (numbers (buffs (drop_old size last fs d).queue)) (numbers (buffs fs))
unfolding drop_old
drop_old-Sublist size last [] d = stop
drop_old-Sublist size last (f ∷ fs) d =
    let ih = drop_old-Sublist size last fs (drop_one last f d) in
    if_rule (λ (e : Dropping). Sublist (numbers (buffs e.queue)) (numbers (buffs (f ∷ fs))))
      (leb size (length (f ∷ fs))) _ _
      (λ _.
        subst (λ l. Sublist (numbers (buffs (drop_old size last fs (drop_one last f d)).queue)) l)
          (sym (numbers-append (buff_list f.video_buff) (buffs fs)))
          (Sublist-append (Sublist-nil (numbers (buff_list f.video_buff))) ih))
      (λ _. Sublist-refl (numbers (buffs (f ∷ fs))))

mark_if-numbers : (c : Bool) (b : VideoBuff) → numbers (mark_if c b ∷ []) ≡ numbers (b ∷ [])
mark_if-numbers true b = refl
mark_if-numbers false b = refl

enqueue-Passes :
    (src : AjaVideoSrc) (b : VideoBuff) (t s : ℕ) (had_signal : Bool)
    → Passes
        (buffs src.current_frames)
        (b ∷ [])
        []
        (buffs (enqueue src b t s had_signal).src.current_frames)
unfolding enqueue
enqueue-Passes src b t s had_signal =
    let d = drop_old src.settings.queue_size src.skipped_last src.current_frames (fresh src) in
    let c = d.skipped_frames == 0 && ltb 0 src.skipped_last in
    let f = frame_of src (mark_if c b) t s had_signal in
    let queue =
      ap numbers (buffs-append (tell_head d.signal_change d.queue) (f ∷ []))
      ∙ numbers-append (buffs (tell_head d.signal_change d.queue)) (buffs (f ∷ []))
      ∙ ap (λ q. numbers q ++ numbers (buffs (f ∷ []))) (tell_head-buffs d.signal_change d.queue)
      ∙ ap (λ q. numbers (buffs d.queue) ++ q) (mark_if-numbers c b) in
    subst (λ l. Sublist l (numbers (buffs src.current_frames) ++ numbers (b ∷ []))) (sym queue)
      (Sublist-append
        (drop_old-Sublist src.settings.queue_size src.skipped_last src.current_frames (fresh src))
        (Sublist-refl (numbers (b ∷ []))))

receive-Passes :
    (m : ClockMath) (reg : List (ℕ × ℕ) → Option TimeMapping) (c s : ℕ) (b : VideoBuff)
    (had_signal : Bool) (src t : AjaVideoSrc)
    → IsQuiet src t
    → Passes
        (buffs src.current_frames)
        (b ∷ [])
        []
        (buffs (receive m reg c s b had_signal t).src.current_frames)
unfolding receive
receive-Passes m reg c s b had_signal src t i =
    let P : Got → Type 0 =
      λ g. Passes (buffs src.current_frames) (b ∷ []) [] (buffs g.src.current_frames) in
    let same = (set_first-IsQuiet s src t i).same_buffs in
    let u : AjaVideoSrc = record (set_first s t) {
      window =
          update_time_mapping m reg (set_first s t).info.fps_n (set_first s t).info.fps_d c s
            b.dropped_changed (set_first s t).window;
    } in
    if_rule P (skips (set_first s t) s) _ _ (λ _. stays-Passes (b ∷ []) _ _ same)
      (λ _.
        if_rule P (set_first s t).flushing _ _ (λ _. stays-Passes (b ∷ []) _ _ same)
          (λ _.
            subst
              (λ q.
                Passes q (b ∷ []) []
                  (buffs (enqueue u b (timestamp_of m u s) s had_signal).src.current_frames))
              same (enqueue-Passes u b (timestamp_of m u s) s had_signal)))

got_frame-Passes :
    (m : ClockMath) (reg : List (ℕ × ℕ) → Option TimeMapping) (mode : Mode) (c : Clocks)
    (b : Option VideoBuff) (src : AjaVideoSrc)
    → Passes
        (buffs src.current_frames)
        (buff_list b)
        []
        (buffs (got_frame m reg mode c b src).src.current_frames)
unfolding got_frame
got_frame-Passes m reg mode c none src = stays-Passes [] _ _ (lose_signal-IsQuiet src).same_buffs
got_frame-Passes m reg mode c (some b) src =
    let t = capture_pipeline c b.time_stamp in
    let r = find_signal t b src in
    if_rule
      (λ (g : Got). Passes (buffs src.current_frames) (b ∷ []) [] (buffs g.src.current_frames))
      b.have_signal _ _
      (λ _.
        receive-Passes m reg t (stream_time_of m mode r.0 b.frame_number) b r.1 src r.0
          (find_signal-IsQuiet t b src))
      (λ _. stays-Passes (b ∷ []) _ _ (lose_signal-IsQuiet src).same_buffs)

finish-Passes :
    (m : ClockMath) (o : Outside) (mode : Mode) (src : AjaVideoSrc) (told : List Notice)
    (taken : Option (Frame × VideoBuff)) (before : List VideoBuff)
    → taken_buffs taken ++ buffs src.current_frames ≡ before
    → Passes before []
        (finish m o mode src told taken).released
        (buffs (finish m o mode src told taken).src.current_frames)
finish-Passes m o mode src told none before h = stays-Passes [] _ _ h
finish-Passes m o mode src told (some (f, b)) before h =
    let q = ap buffs (
      add_captions-current_frames o mode b (renegotiate o f b src)
      ∙ renegotiate-current_frames o f b src) in
    subst (λ l. Sublist l (numbers before ++ [])) (sym (ap (λ l. numbers (b ∷ l)) q ∙ ap numbers h))
      (Sublist-left (numbers before) [])

create-Passes :
    (m : ClockMath) (o : Outside) (mode : Mode) (src : AjaVideoSrc)
    → Passes
        (buffs src.current_frames)
        []
        (create m o mode src).released
        (buffs (create m o mode src).src.current_frames)
unfolding create
create-Passes m o mode src =
    let t = take_frame src.current_frames in
    if_rule
      (λ (c : Created).
        Passes (buffs src.current_frames) [] c.released (buffs c.src.current_frames))
      src.flushing _ _ (λ _. stays-Passes [] _ _ refl)
      (λ _.
        finish-Passes m o mode (record src { current_frames = t.queue }) t.told t.taken
          (buffs src.current_frames) (take_frame-buffs src.current_frames))

callback-Passes :
    (m : ClockMath) (reg : List (ℕ × ℕ) → Option TimeMapping) (enabled : Bool) (mode : Mode)
    (c : Clocks) (b : Option VideoBuff) (src : AjaVideoSrc)
    → Passes
        (buffs src.current_frames)
        (came (callback enabled mode c b))
        []
        (buffs (video_callback m reg enabled mode c b src).0.src.current_frames)
unfolding video_callback
callback-Passes m reg true mode c none src = got_frame-Passes m reg mode c none src
callback-Passes m reg true mode c (some b) src = got_frame-Passes m reg mode c (some b) src
callback-Passes m reg false mode c b src = stays-Passes [] _ _ refl

call-Passes :
    (m : ClockMath) (reg : List (ℕ × ℕ) → Option TimeMapping) (src : AjaVideoSrc) (c : Call)
    → Passes
        (buffs src.current_frames)
        (came c)
        (put_out c (call m reg src c))
        (buffs (call m reg src c).src.current_frames)
call-Passes m reg src (callback enabled mode c b) = callback-Passes m reg enabled mode c b src
call-Passes m reg src (create_call o mode) = create-Passes m o mode src
call-Passes m reg src unlock_call = stays-Passes [] _ _ refl
call-Passes m reg src unlock_stop_call = Sublist-nil _
call-Passes m reg src stop_call = Sublist-nil _

-- In any history of calls, the buffers that `create` puts out are, by their frame numbers, in order among
-- those in the queue before and those that came since: none is put out of its turn, and none twice.
pub outputs-Sublist :
    (m : ClockMath) (reg : List (ℕ × ℕ) → Option TimeMapping) (cs : List Call) (src : AjaVideoSrc)
    → Sublist
        (numbers (outputs m reg src cs))
        (numbers (buffs src.current_frames) ++ numbers (arrivals cs))
unfolding outputs
outputs-Sublist m reg [] src = Sublist-nil _
outputs-Sublist m reg (c ∷ cs) src =
    let r = call m reg src c in
    subst (λ l. Sublist l (numbers (buffs src.current_frames) ++ numbers (came c ++ arrivals cs)))
      (sym (numbers-append (put_out c r) (outputs m reg r.src cs)))
      (subst
        (λ l.
          Sublist (numbers (put_out c r) ++ numbers (outputs m reg r.src cs))
            (numbers (buffs src.current_frames) ++ l))
        (sym (numbers-append (came c) (arrivals cs)))
        (Sublist-chain (numbers (put_out c r)) (numbers (buffs r.src.current_frames))
          (numbers (buffs src.current_frames)) (numbers (came c)) _ (numbers (arrivals cs))
          (call-Passes m reg src c) (outputs-Sublist m reg cs r.src)))
