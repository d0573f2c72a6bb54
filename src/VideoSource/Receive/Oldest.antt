-- ===== src/VideoSource/Receive/Oldest.antt =====
-- What the queue of the video source drops for a new frame, and what becomes of the changes of the signal that
-- the dropped frames tell of.
use ntv2_gst.Prelude.{
  not, ℕ, ◌+◌, ◌≤◌, ◌<◌, Bool, true, false, ◌&&◌, ◌||◌, ◌==◌, ltb, leb, if◌then◌else◌, Option, none,
  some, List, [], ◌∷◌, ◌++◌, length, ◌≡◌, ◌⊎◌, inl, inr, refl, sym, ap, ◌∙◌, arith, if_rule,
}
use mathlib.Core.List.{append_assoc, append-nil}
use ntv2_gst.Capture.Worker.{VideoBuff}
use ntv2_gst.VideoSource.Defs.{
  SignalChange, no_change, got_signal, recovered_signal, lost_signal, Frame, AjaVideoSrc,
}
use ntv2_gst.VideoSource.Receive.{
  remember, Dropping, drop_buff, drop_one, drop_old, fresh, tell_head, mark_if, frame_of, enqueue,
  Got,
}
use ntv2_gst.VideoSource.Output.{buffs, buff_list}
use ntv2_gst.VideoSource.Ledger.Accounts.{tell_head-buffs}

abbrev is_recovered : SignalChange → Bool
is_recovered recovered_signal = true
is_recovered _ = false

abbrev is_got : SignalChange → Bool
is_got got_signal = true
is_got _ = false

-- The changes that frames tell of.
abbrev pub changes : List Frame → List SignalChange
changes [] = []
changes (f ∷ fs) = f.signal_change ∷ changes fs

abbrev pub any : (SignalChange → Bool) → List SignalChange → Bool
any p [] = false
any p (c ∷ cs) = p c || any p cs

-- The change that outlasts others, behind a first one: a recovered signal, or else a new one.
abbrev pub strongest : SignalChange → List SignalChange → SignalChange
strongest c cs =
    if is_recovered c || any is_recovered cs
    then recovered_signal
    else if is_got c || any is_got cs
    then got_signal
    else c

-- The changes with the first one told instead, if there is one to tell.
abbrev pub overlay : SignalChange → List SignalChange → List SignalChange
overlay no_change cs = cs
overlay c [] = []
overlay c (x ∷ cs) = c ∷ cs

strongest-remember :
    (x c : SignalChange) (cs : List SignalChange)
    → strongest (remember x c) cs ≡ strongest c (x ∷ cs)
strongest-remember recovered_signal recovered_signal cs = refl
strongest-remember recovered_signal got_signal cs = refl
strongest-remember recovered_signal lost_signal cs = refl
strongest-remember recovered_signal no_change cs = refl
strongest-remember got_signal recovered_signal cs = refl
strongest-remember got_signal got_signal cs = refl
strongest-remember got_signal lost_signal cs = refl
strongest-remember got_signal no_change cs = refl
strongest-remember lost_signal c cs = refl
strongest-remember no_change c cs = refl

-- What the loop leaves of a queue, for the frames `pre` that it takes.
record IsDropped (size : ℕ) (fs : List Frame) (d e : Dropping) (pre : List Frame) : Type 0 where
  split : fs ≡ pre ++ e.queue
  released_of : e.released ≡ d.released ++ buffs pre
  change_of : e.signal_change ≡ strongest d.signal_change (changes pre)
  room : length e.queue < size
  needed : (pre ≡ []) ⊎ (size ≤ length e.queue + 1)

drop_buff-released :
    (last t : ℕ) (o : Option VideoBuff) (d : Dropping)
    → ((drop_buff last t o d).released ≡ d.released ++ buff_list o)
      × ((drop_buff last t o d).signal_change ≡ d.signal_change)
drop_buff-released last t none d = (sym (append-nil d.released), refl)
drop_buff-released last t (some b) d = (refl, refl)

strongest-no_change : (c : SignalChange) → strongest c [] ≡ c
strongest-no_change no_change = refl
strongest-no_change got_signal = refl
strongest-no_change recovered_signal = refl
strongest-no_change lost_signal = refl

-- A first frame that is dropped, before others.
IsDropped-cons :
    (size last : ℕ) (f : Frame) (fs : List Frame) (d e : Dropping) (pre : List Frame)
    → size ≤ length (f ∷ fs)
    → IsDropped size fs (drop_one last f d) e pre
    → IsDropped size (f ∷ fs) d e (f ∷ pre)
IsDropped-cons size last f fs d e pre h i =
    let c : Dropping = record d { signal_change = remember f.signal_change d.signal_change } in
    let b = drop_buff-released last f.capture_time f.video_buff c in
    let split = i.split in
    record {
      split = ap (λ l. f ∷ l) i.split;
      released_of =
          i.released_of
          ∙ ap (λ l. l ++ buffs pre) b.0
          ∙ append_assoc d.released (buff_list f.video_buff) (buffs pre);
      change_of =
          i.change_of
          ∙ ap (λ c. strongest c (changes pre)) b.1
          ∙ strongest-remember f.signal_change d.signal_change (changes pre);
      room = i.room;
      needed = elim i.needed [
        | inl e' ↦
            let same = ap length (i.split ∙ ap (λ l. l ++ e.queue) e') in
            inr (omega (arith, same, h))
        | inr k ↦ inr k
      ];
    }

drop_old-IsDropped :
    (size last : ℕ) (fs : List Frame) (d : Dropping)
    → 0 < size
    → (pre : List Frame) × IsDropped size fs d (drop_old size last fs d) pre
unfolding drop_old
drop_old-IsDropped size last [] d h = (
  [],
  record {
    split = refl;
    released_of = sym (append-nil d.released);
    change_of = sym (strongest-no_change d.signal_change);
    room = h;
    needed = inl refl;
  },
)
drop_old-IsDropped size last (f ∷ fs) d h =
    let (pre, i) = drop_old-IsDropped size last fs (drop_one last f d) h in
    if_rule (λ (e : Dropping). (pre : List Frame) × IsDropped size (f ∷ fs) d e pre)
      (leb size (length (f ∷ fs))) _ _
      (λ k. (f ∷ pre, IsDropped-cons size last f fs d _ pre (ground arith) i))
      (λ k. (
        [],
        record {
          split = refl;
          released_of = sym (append-nil d.released);
          change_of = sym (strongest-no_change d.signal_change);
          room = ground arith;
          needed = inl refl;
        },
      ))

tell_head-changes :
    (c : SignalChange) (fs : List Frame) → changes (tell_head c fs) ≡ overlay c (changes fs)
tell_head-changes no_change fs = refl
tell_head-changes got_signal [] = refl
tell_head-changes got_signal (f ∷ fs) = refl
tell_head-changes recovered_signal [] = refl
tell_head-changes recovered_signal (f ∷ fs) = refl
tell_head-changes lost_signal [] = refl
tell_head-changes lost_signal (f ∷ fs) = refl

mark_if-frame_number : (c : Bool) (b : VideoBuff) → (mark_if c b).frame_number ≡ b.frame_number
mark_if-frame_number true b = refl
mark_if-frame_number false b = refl

-- What the queue becomes, for a buffer of the number `n`, the oldest frames `pre` and the others `post`: the others, as `kept`, and the
-- newest one.
pub record IsQueued (src : AjaVideoSrc) (n t s : ℕ) (had_signal : Bool) (r : Got)
    (pre post kept : List Frame) (newest : Frame) : Type 0 where
  pub split : src.current_frames ≡ pre ++ post
  pub released_of : r.released ≡ buffs pre
  pub queue_of : r.src.current_frames ≡ kept ++ newest ∷ []
  pub kept_buffs : buffs kept ≡ buffs post
  pub kept_changes : changes kept ≡ overlay (strongest no_change (changes pre)) (changes post)
  pub newest_buff : (b : VideoBuff) × (newest.video_buff ≡ some b) × (b.frame_number ≡ n)
  pub newest_times : (newest.capture_time ≡ t) × (newest.stream_time ≡ s)
  pub newest_tells : newest.signal_change ≡ no_change
  pub newest_first : newest.first_buffer ≡ not had_signal
  pub room : length post < src.settings.queue_size
  pub needed : (pre ≡ []) ⊎ (src.settings.queue_size ≤ length post + 1)

-- A queue with a size of at least 1 takes a frame in this way: it drops its oldest frames, as few as make room
-- for the new one, and gives back their buffers in their order; the others stay with their buffers, in theirs,
-- with a frame behind them that has the new buffer, told by its number, and its times. The oldest that stays tells of a recovered signal if one that
-- was dropped did, or else of a new signal if one that was dropped did, or else of what it told of before; the
-- others tell of what they did. So a lost signal is forgotten with its frame.
pub enqueue-IsQueued :
    (src : AjaVideoSrc) (b : VideoBuff) (t s : ℕ) (had_signal : Bool)
    → 0 < src.settings.queue_size
    → (pre post kept : List Frame) × (newest : Frame) × IsQueued src b.frame_number t s had_signal
        (enqueue src b t s had_signal)
        pre
        post
        kept
        newest
unfolding enqueue
enqueue-IsQueued src b t s had_signal h =
    let size = src.settings.queue_size in
    let d = drop_old size src.skipped_last src.current_frames (fresh src) in
    let (pre, i) = drop_old-IsDropped size src.skipped_last src.current_frames (fresh src) h in
    let c = d.skipped_frames == 0 && ltb 0 src.skipped_last in
    (
      pre,
      d.queue,
      tell_head d.signal_change d.queue,
      frame_of src (mark_if c b) t s had_signal,
      record {
        split = i.split;
        released_of = i.released_of;
        queue_of = refl;
        kept_buffs = tell_head-buffs d.signal_change d.queue;
        kept_changes =
            tell_head-changes d.signal_change d.queue
            ∙ ap (λ c. overlay c (changes d.queue)) i.change_of;
        newest_buff = (mark_if c b, refl, mark_if-frame_number c b);
        newest_times = (refl, refl);
        newest_tells = refl;
        newest_first = refl;
        room = i.room;
        needed = i.needed;
      },
    )
