-- ===== src/Elements/States/Again.antt =====
-- A video source that has tried to open its input.
use ntv2_gst.Prelude.{
  ◌≡◌, ap, subst, Bool, true, false, not, Option, none, some, if_rule, arith, if-false,
}
use ntv2_gst.Mode.Defs.{Mode}
use ntv2_gst.Mode.Caps.{get_mode_raw}
use ntv2_gst.Capture.Init.Setup.{Answer}
use ntv2_gst.Capture.Lifecycle.{open_device}
use ntv2_gst.Registry.{Slot, is_none, acquire_slot}
use ntv2_gst.Elements.{Shared, Elements}
use ntv2_gst.Elements.States.{
  Env, slot_of, acquired, av_or_new, is_success, after_init, open_mode, with_input, open_video,
  and_parent, null_to_ready, video_change_state,
}

-- The role of the video source is taken, if the call ends.
abbrev IsTaken : Option (Shared × Bool) → Type 0
IsTaken none = Unit {0}
IsTaken (some (input, ok)) = input.videosrc ≡ true

abbrev IsTakenBy : Option (Elements × Bool) → Type 0
IsTakenBy none = Unit {0}
IsTakenBy (some (e, ok)) = e.input.videosrc ≡ true

after_init-IsTaken :
    (input : Shared) (a : Answer) → input.videosrc ≡ true → IsTaken (after_init input a)
after_init-IsTaken input none h = tt
after_init-IsTaken input (some (status, (av, l))) h = h

open_mode-IsTaken :
    (env : Env) (mode : Option Mode) (e : Elements)
    → e.input.videosrc ≡ true
    → IsTaken (open_mode env mode e)
open_mode-IsTaken env none e h = tt
open_mode-IsTaken env (some mode) e h =
    let input = e.input in
    let ready : Shared = record input { mode = some mode; start_streams = true } in
    if_rule IsTaken (is_success (open_device env.found (av_or_new env.new_av e.input.av)).0.1) _ _
      (λ _. after_init-IsTaken ready _ h) (λ _. h)

with_input-IsTakenBy :
    (e : Elements) (o : Option (Shared × Bool)) → IsTaken o → IsTakenBy (with_input e o)
with_input-IsTakenBy e none h = tt
with_input-IsTakenBy e (some (input, ok)) h = h

acquire_slot-video : (s : Slot) → is_none (acquire_slot 1 false s).0.videosrc ≡ false
unfolding acquire_slot
acquire_slot-video s = ground arith

open_video-IsTakenBy : (env : Env) (e : Elements) → IsTakenBy (open_video env e)
unfolding open_video
open_video-IsTakenBy env e =
    let r = acquire_slot 1 false (slot_of e.input) in
    let e' : Elements = record e { input = acquired env.new_av r.0 e.input } in
    let taken : e'.input.videosrc ≡ true = ap not (acquire_slot-video (slot_of e.input)) in
    if_rule IsTakenBy r.1 _ _
      (λ _.
        with_input-IsTakenBy e' _ (open_mode-IsTaken env (get_mode_raw e.video.mode_enum) e' taken))
      (λ _. taken)

and_parent-IsTakenBy :
    (parent : Bool) (o : Option (Elements × Bool)) → IsTakenBy o → IsTakenBy (and_parent parent o)
and_parent-IsTakenBy parent none h = tt
and_parent-IsTakenBy parent (some (e, ok)) h = h

refused :
    (input : Shared) → input.videosrc ≡ true → (acquire_slot 1 false (slot_of input)).1 ≡ false
unfolding acquire_slot
refused input h = ground arith

open_video-refused :
    (env : Env) (e : Elements)
    → e.input.videosrc ≡ true
    → (e' : Elements) × (open_video env e ≡ some (e', false))
unfolding open_video
open_video-refused env e h = (_, if-false _ _ (refused e.input h))

-- A video source that has tried to open its input once, whether the device was found, the set-up went well and
-- the parent agreed or not, fails each time that it tries again before it is closed, whatever is found then.
pub open-fails_again :
    (env : Env) (parent : Bool) (e e' : Elements) (ok : Bool)
    → video_change_state env parent null_to_ready e ≡ some (e', ok)
    → (env' : Env) (parent' : Bool)
    → (e'' : Elements) × (video_change_state env' parent' null_to_ready e' ≡ some (e'', false))
unfolding video_change_state
open-fails_again env parent e e' ok h env' parent' =
    let taken : IsTakenBy (some (e', ok)) =
      subst IsTakenBy h
        (and_parent-IsTakenBy parent (open_video env e) (open_video-IsTakenBy env e)) in
    let (e'', eq) = open_video-refused env' e' taken in (e'', ap (and_parent parent') eq)
