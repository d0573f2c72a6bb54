-- ===== src/VideoSource/Ledger/Accounts.antt =====
-- The account of a buffer in a call for a frame.
use ntv2_gst.Prelude.{
  ℕ, suc, ◌+◌, ◌≤◌, ◌<◌, Bool, true, false, ◌&&◌, ◌==◌, ltb, leb, Option, none, some, List, [], ◌∷◌,
  ◌++◌, length, ◌≡◌, refl, ap, arith, if_rule, length-append,
}
use ntv2_gst.Capture.Worker.{VideoBuff}
use ntv2_gst.VideoSource.Defs.{
  SignalChange, no_change, got_signal, recovered_signal, lost_signal, Frame, AjaVideoSrc,
}
use ntv2_gst.VideoSource.Receive.{
  remember, Dropping, drop_one, drop_buff, drop_old, fresh, tell_head, mark_if, frame_of, enqueue,
}
use ntv2_gst.VideoSource.Output.{buffs, buff_list}
use ntv2_gst.VideoSource.Ledger.{count, IsKept}

pub count-append : (n : ℕ) (xs ys : List VideoBuff) → count n (xs ++ ys) ≡ count n xs + count n ys
count-append n [] ys = omega arith
count-append n (x ∷ xs) ys = let ih = count-append n xs ys in omega arith

pub count-buffs_append :
    (n : ℕ) (xs ys : List Frame)
    → count n (buffs (xs ++ ys)) ≡ count n (buffs xs) + count n (buffs ys)
count-buffs_append n [] ys = omega arith
count-buffs_append n (x ∷ xs) ys =
    let ih = count-buffs_append n xs ys in
    let l = count-append n (buff_list x.video_buff) (buffs (xs ++ ys)) in
    let r = count-append n (buff_list x.video_buff) (buffs xs) in omega (arith, ih, l, r)

length-buff_list :
    (b : Option VideoBuff) (bs : List VideoBuff) → length (buff_list b ++ bs) ≤ suc (length bs)
length-buff_list none bs = omega arith
length-buff_list (some b) bs = omega arith

-- A queue has at most as many buffers as frames.
length-buffs : (fs : List Frame) → length (buffs fs) ≤ length fs
length-buffs [] = omega arith
length-buffs (f ∷ fs) =
    let ih = length-buffs fs in
    let l = length-buff_list f.video_buff (buffs fs) in omega (arith, ih, l)

pub tell_head-buffs : (c : SignalChange) (fs : List Frame) → buffs (tell_head c fs) ≡ buffs fs
tell_head-buffs no_change fs = refl
tell_head-buffs got_signal [] = refl
tell_head-buffs got_signal (f ∷ fs) = refl
tell_head-buffs recovered_signal [] = refl
tell_head-buffs recovered_signal (f ∷ fs) = refl
tell_head-buffs lost_signal [] = refl
tell_head-buffs lost_signal (f ∷ fs) = refl

length-tell_head : (c : SignalChange) (fs : List Frame) → length (tell_head c fs) ≡ length fs
length-tell_head no_change fs = refl
length-tell_head got_signal [] = refl
length-tell_head got_signal (f ∷ fs) = refl
length-tell_head recovered_signal [] = refl
length-tell_head recovered_signal (f ∷ fs) = refl
length-tell_head lost_signal [] = refl
length-tell_head lost_signal (f ∷ fs) = refl

-- What the loop is to leave: each buffer given back or queued, and room for one frame.
record IsDropped (n size : ℕ) (fs : List Frame) (d e : Dropping) : Type 0 where
  balance : count n e.released + count n (buffs e.queue) ≡ count n d.released + count n (buffs fs)
  room : length e.queue < size

drop_buff-released :
    (n last t : ℕ) (b : Option VideoBuff) (d : Dropping)
    → count n (drop_buff last t b d).released ≡ count n d.released + count n (buff_list b)
drop_buff-released n last t none d = omega arith
drop_buff-released n last t (some b) d = count-append n d.released (b ∷ [])

drop_old-IsDropped :
    (n size last : ℕ) (fs : List Frame) (d : Dropping)
    → 0 < size
    → IsDropped n size fs d (drop_old size last fs d)
unfolding drop_old
drop_old-IsDropped n size last [] d h = record { balance = refl; room = h }
drop_old-IsDropped n size last (f ∷ fs) d h =
    let i = drop_old-IsDropped n size last fs (drop_one last f d) h in
    let r =
      drop_buff-released n last f.capture_time f.video_buff
        (record d { signal_change = remember f.signal_change d.signal_change }) in
    let s = count-append n (buff_list f.video_buff) (buffs fs) in
    let b = i.balance in
    if_rule (IsDropped n size (f ∷ fs) d) (leb size (length (f ∷ fs))) _ _
      (λ _. record { balance = omega (arith, b, r, s); room = i.room })
      (λ k. record { balance = refl; room = ground arith })

mark_if-count : (n : ℕ) (c : Bool) (b : VideoBuff) → count n (mark_if c b ∷ []) ≡ count n (b ∷ [])
mark_if-count n true b = refl
mark_if-count n false b = refl

pub enqueue-IsKept :
    (n : ℕ) (src : AjaVideoSrc) (b : VideoBuff) (t s : ℕ) (had_signal : Bool)
    → 0 < src.settings.queue_size
    → IsKept n src.settings.queue_size
        (b ∷ [])
        (buffs src.current_frames)
        (enqueue src b t s had_signal)
unfolding enqueue
enqueue-IsKept n src b t s had_signal h =
    let size = src.settings.queue_size in
    let d = drop_old size src.skipped_last src.current_frames (fresh src) in
    let i = drop_old-IsDropped n size src.skipped_last src.current_frames (fresh src) h in
    let c = d.skipped_frames == 0 && ltb 0 src.skipped_last in
    let f = frame_of src (mark_if c b) t s had_signal in
    let split = count-buffs_append n (tell_head d.signal_change d.queue) (f ∷ []) in
    let same = ap (count n) (tell_head-buffs d.signal_change d.queue) in
    let mark = mark_if-count n c b in
    let bal = i.balance in
    let room = i.room in
    let short = length-buffs (tell_head d.signal_change d.queue ++ f ∷ []) in
    let parts = length-append (tell_head d.signal_change d.queue) (f ∷ []) in
    let head = length-tell_head d.signal_change d.queue in
    record {
      account = omega (arith, split, same, mark, bal);
      within = omega (arith, short, parts, head, room);
      same_size = refl;
    }
