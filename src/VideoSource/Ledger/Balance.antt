-- ===== src/VideoSource/Ledger/Balance.antt =====
-- No buffer is lost or given back twice, in any history of the video source.
use ntv2_gst.Prelude.{
  ℕ, ◌+◌, ◌≤◌, ◌<◌, Bool, true, false, Option, none, some, List, [], ◌∷◌, ◌++◌, length, ◌≡◌, refl,
  sym, ap, ◌∙◌, arith, if_rule, subst,
}
use ntv2_gst.Mode.Defs.{Mode}
use ntv2_gst.Capture.Worker.{VideoBuff}
use ntv2_gst.Audio.Defs.{TimeMapping, ClockMath}
use ntv2_gst.VideoSource.Defs.{Frame, AjaVideoSrc}
use ntv2_gst.VideoSource.Receive.{Clocks, Got, video_callback}
use ntv2_gst.VideoSource.Output.{
  Notice, Outside, Taken, take_or_retry, take_frame, Created, finish, renegotiate, create, buffs,
  buff_list,
}
use ntv2_gst.VideoSource.Output.First.{
  renegotiate-current_frames, add_captions-current_frames, renegotiate-settings,
  add_captions-settings,
}
use ntv2_gst.VideoSource.Ledger.{
  Call, callback, create_call, unlock_call, unlock_stop_call, stop_call, call, calls, came,
  arrivals, count, IsKept,
}
use ntv2_gst.VideoSource.Ledger.Accounts.{count-append}
use ntv2_gst.VideoSource.Ledger.Frames.{got_frame-IsKept}

-- The buffer that `create` takes.
abbrev pub taken_buffs : Option (Frame × VideoBuff) → List VideoBuff
taken_buffs none = []
taken_buffs (some (f, b)) = b ∷ []

retry-buffs :
    (f : Frame) (fs : List Frame) (b : Option VideoBuff) (rest : Taken)
    → taken_buffs rest.taken ++ buffs rest.queue ≡ buffs fs
    → taken_buffs (take_or_retry f fs b rest).taken ++ buffs (take_or_retry f fs b rest).queue
      ≡ buff_list b ++ buffs fs
retry-buffs f fs none rest h = h
retry-buffs f fs (some b) rest h = refl

pub take_frame-buffs :
    (fs : List Frame) → taken_buffs (take_frame fs).taken ++ buffs (take_frame fs).queue ≡ buffs fs
unfolding take_frame
take_frame-buffs [] = refl
take_frame-buffs (f ∷ fs) = retry-buffs f fs f.video_buff (take_frame fs) (take_frame-buffs fs)

length-++_le : (xs ys : List VideoBuff) (k : ℕ) → length (xs ++ ys) ≤ k → length ys ≤ k
length-++_le [] ys k h = h
length-++_le (x ∷ xs) ys k h = length-++_le xs ys k (omega arith)

abbrev got_of : Created → Got
got_of c = record { src = c.src; released = c.released }

finish-IsKept :
    (m : ClockMath) (o : Outside) (mode : Mode) (n : ℕ) (src : AjaVideoSrc) (told : List Notice)
    (taken : Option (Frame × VideoBuff)) (before : List VideoBuff)
    → taken_buffs taken ++ buffs src.current_frames ≡ before
    → length before ≤ src.settings.queue_size
    → IsKept n src.settings.queue_size [] before (got_of (finish m o mode src told taken))
finish-IsKept m o mode n src told none before h w = record {
  account = ap (λ q. 0 + count n q) h;
  within = subst (λ q. length q ≤ src.settings.queue_size) (sym h) w;
  same_size = refl;
}
finish-IsKept m o mode n src told (some (f, b)) before h w =
    let q = ap buffs (
      add_captions-current_frames o mode b (renegotiate o f b src)
      ∙ renegotiate-current_frames o f b src) in
    let total = ap (count n) h in
    let same = ap (count n) q in
    let short = ap length q in
    let long =
      length-++_le (b ∷ []) (buffs src.current_frames) src.settings.queue_size
        (subst (λ l. length l ≤ src.settings.queue_size) (sym h) w) in
    record {
      account = omega (arith, total, same);
      within = omega (arith, short, long);
      same_size =
          ap (λ s. s.queue_size)
            (add_captions-settings o mode b (renegotiate o f b src)
              ∙ renegotiate-settings o f b src);
    }

create-IsKept :
    (m : ClockMath) (o : Outside) (mode : Mode) (n : ℕ) (src : AjaVideoSrc)
    → length (buffs src.current_frames) ≤ src.settings.queue_size
    → IsKept n src.settings.queue_size [] (buffs src.current_frames) (got_of (create m o mode src))
unfolding create
create-IsKept m o mode n src w =
    let t = take_frame src.current_frames in
    if_rule
      (λ (c : Created). IsKept n src.settings.queue_size [] (buffs src.current_frames) (got_of c))
      src.flushing _ _ (λ _. record { account = refl; within = w; same_size = refl })
      (λ _.
        finish-IsKept m o mode n (record src { current_frames = t.queue }) t.told t.taken
          (buffs src.current_frames) (take_frame-buffs src.current_frames) w)

callback-IsKept :
    (m : ClockMath) (reg : List (ℕ × ℕ) → Option TimeMapping) (n : ℕ) (enabled : Bool) (mode : Mode)
    (c : Clocks) (b : Option VideoBuff) (src : AjaVideoSrc)
    → 0 < src.settings.queue_size
    → length (buffs src.current_frames) ≤ src.settings.queue_size
    → IsKept n src.settings.queue_size
        (came (callback enabled mode c b))
        (buffs src.current_frames)
        (video_callback m reg enabled mode c b src).0
unfolding video_callback
callback-IsKept m reg n true mode c none src h w = got_frame-IsKept m reg n mode c none src h w
callback-IsKept m reg n true mode c (some b) src h w =
    got_frame-IsKept m reg n mode c (some b) src h w
callback-IsKept m reg n false mode c b src h w = record {
  account = refl;
  within = w;
  same_size = refl;
}

call-IsKept :
    (m : ClockMath) (reg : List (ℕ × ℕ) → Option TimeMapping) (n : ℕ) (src : AjaVideoSrc) (c : Call)
    → 0 < src.settings.queue_size
    → length (buffs src.current_frames) ≤ src.settings.queue_size
    → IsKept n src.settings.queue_size (came c) (buffs src.current_frames) (call m reg src c)
call-IsKept m reg n src (callback enabled mode c b) h w =
    callback-IsKept m reg n enabled mode c b src h w
call-IsKept m reg n src (create_call o mode) h w = create-IsKept m o mode n src w
call-IsKept m reg n src unlock_call h w = record { account = refl; within = w; same_size = refl }
call-IsKept m reg n src unlock_stop_call h w = record {
  account = omega arith;
  within = omega arith;
  same_size = refl;
}
call-IsKept m reg n src stop_call h w = record {
  account = omega arith;
  within = omega arith;
  same_size = refl;
}

both_accounts :
    (r q c b r' q' c' rr cc : ℕ)
    → r + q ≡ c + b
    → r' + q' ≡ c' + q
    → rr ≡ r + r'
    → cc ≡ c + c'
    → rr + q' ≡ cc + b
both_accounts r q c b r' q' c' rr cc h i j k = omega arith

-- In any history of calls, from an element with no more buffers in its queue than the queue size, which is
-- at least 1, each buffer that the element took over or had in its queue is given back once or is in the queue
-- at the end, and none is given back otherwise; and the queue never ends with more buffers than its size.
-- Buffers are told apart by their frame numbers.
pub video_calls-IsKept :
    (m : ClockMath) (reg : List (ℕ × ℕ) → Option TimeMapping) (n : ℕ) (cs : List Call)
    (src : AjaVideoSrc)
    → 0 < src.settings.queue_size
    → length (buffs src.current_frames) ≤ src.settings.queue_size
    → IsKept n src.settings.queue_size (arrivals cs) (buffs src.current_frames) (calls m reg src cs)
unfolding calls
video_calls-IsKept m reg n [] src h w = record { account = refl; within = w; same_size = refl }
video_calls-IsKept m reg n (c ∷ cs) src h w =
    let r = call m reg src c in
    let one = call-IsKept m reg n src c h w in
    let s = one.same_size in
    let ih =
      video_calls-IsKept m reg n cs r.src (subst (λ k. 0 < k) (sym s) h)
        (subst (λ k. length (buffs r.src.current_frames) ≤ k) (sym s) one.within) in
    let rest = calls m reg r.src cs in
    record {
      account =
          both_accounts _ _ _ _ _ _ _ _ _ one.account ih.account
            (count-append n r.released rest.released) (count-append n (came c) (arrivals cs));
      within = subst (λ k. length (buffs rest.src.current_frames) ≤ k) s ih.within;
      same_size = ih.same_size ∙ s;
    }
