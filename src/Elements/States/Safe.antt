-- ===== src/Elements/States/Safe.antt =====
-- The changes of state never follow a NULL pointer.
use ntv2_gst.Prelude.{
  ap, Option, ◌<◌, ◌≡◌, ◌≢◌, ◌⊎◌, refl, Bool, true, false, none, some, inl, inr, arith, subst, sym,
  ◌∙◌,
}
use ntv2_gst.Elements.{Changed, video_close}
use ntv2_gst.Mode.Caps.{get_mode_raw}
use ntv2_gst.Mode.Rows.{get_mode_raw-lt}
use ntv2_gst.Elements.States.{
  ElementState, state_null, state_paused, state_playing, Transition, null_to_ready, ready_to_paused,
  paused_to_playing, playing_to_paused, paused_to_ready, ready_to_null, Env, from,
  video_change_state, audio_change_state, Sources, Move, video_changes, audio_changes, video_starts,
  audio_starts, move, started,
}
use ntv2_gst.Elements.States.Keeps.{video_start-Runs, audio_start-Runs, Runs}
use ntv2_gst.Elements.States.Changes.{
  IsSafe, Goes, there-IsSafe, video_change_state-Opens, audio_change_state-Opens,
  video_changed-Goes, audio_changed-Goes,
}

-- A source streams while it is paused or playing.
abbrev pub Streams : ElementState → Type 0
Streams st = (st ≡ state_paused) ⊎ (st ≡ state_playing)

-- The moves that GStreamer makes, where the video source is closed behind the audio source.
abbrev pub Fits : Sources → Move → Type 0
Fits s (video_changes parent t) =
    (s.video_state ≡ from t) × (t ≡ ready_to_null → s.audio_state ≡ state_null)
Fits s (audio_changes parent t) = s.audio_state ≡ from t
Fits s video_starts = Streams s.video_state
Fits s audio_starts = Streams s.audio_state

-- What a program of such moves comes to, from two closed sources.
pub data Reach (s : Sources) : Sources → Type 0 where
  start : Reach s s
  next :
      {t u : Sources}
      → Reach s t
      → (env : Env) (m : Move) → Fits t m
      → move env m t ≡ some u
      → Reach s u

-- A source above NULL has its device object.
video_there :
    (s : Sources) (st : ElementState)
    → IsSafe s
    → s.video_state ≡ st
    → st ≢ state_null
    → s.elements.input.av ≢ none
video_there s st i eq ne = let v = i.video in ground arith

audio_there :
    (s : Sources) (st : ElementState)
    → IsSafe s
    → s.audio_state ≡ st
    → st ≢ state_null
    → s.elements.input.av ≢ none
audio_there s st i eq ne = let a = i.audio in ground arith

from-null : (t : Transition) → (t ≡ null_to_ready) ⊎ (from t ≢ state_null)
from-null null_to_ready = inl refl
from-null ready_to_null = inr (λ h. cc)
from-null _ = inr (λ h. cc)

closed-Goes :
    (env : Env) (parent : Bool) (s : Sources)
    → IsSafe s
    → s.audio_state ≡ state_null
    → Goes (move env (video_changes parent ready_to_null) s)
unfolding move video_change_state video_close
closed-Goes env true s i h = (_, refl, record { video = inl refl; audio = inl h; mode = i.mode })
closed-Goes env false s i h = (s, refl, i)

video_opens :
    (s : Sources) (t : Transition)
    → IsSafe s
    → s.video_state ≡ from t
    → (t ≡ null_to_ready) ⊎ (s.elements.input.av ≢ none)
video_opens s t i h = elim (from-null t) [
  | inl e ↦ inl e
  | inr ne ↦ inr (video_there s (from t) i h ne)
]

audio_opens :
    (s : Sources) (t : Transition)
    → IsSafe s
    → s.audio_state ≡ from t
    → (t ≡ null_to_ready) ⊎ (s.elements.input.av ≢ none)
audio_opens s t i h = elim (from-null t) [
  | inl e ↦ inl e
  | inr ne ↦ inr (audio_there s (from t) i h ne)
]

module _ (env : Env) where
  changed-Goes :
      (parent : Bool) (t : Transition) (s : Sources)
      → IsSafe s
      → s.video_state ≡ from t
      → t ≢ ready_to_null
      → Goes (move env (video_changes parent t) s)
  unfolding move
  changed-Goes parent t s i h ne =
      video_changed-Goes t s (video_change_state env parent t s.elements) i.mode
        (video_change_state-Opens env parent s.elements i.mode t (video_opens s t i h) ne)

  started-Goes :
      (s : Sources) (o : Option Changed)
      → IsSafe s
      → s.elements.input.av ≢ none
      → Runs s.elements o
      → Goes (started s o)
  started-Goes s none i h (c, eq, k) = absurd (cc)
  started-Goes s (some r) i h (c, eq, k) =
      let e : r ≡ c = cc in
      let same = ap (λ (x : Changed). x.elements.video.mode_enum) e ∙ k.mode in
      let in_table = i.mode in
      (
        _,
        refl,
        there-IsSafe _ (subst (λ (x : Changed). x.elements.input.av ≢ none) (sym e) (k.av h))
            (ground arith),
      )

  mode_found : (s : Sources) → IsSafe s → get_mode_raw s.elements.video.mode_enum ≢ none
  mode_found s i h = let (mode, found) = get_mode_raw-lt s.elements.video.mode_enum i.mode in cc

  move-Goes : (m : Move) (s : Sources) → IsSafe s → Fits s m → Goes (move env m s)
  unfolding move
  move-Goes (video_changes parent ready_to_null) s i (at, closed) =
      closed-Goes env parent s i (closed refl)
  move-Goes (video_changes parent null_to_ready) s i (at, _) =
      changed-Goes parent null_to_ready s i at (λ h. cc)
  move-Goes (video_changes parent ready_to_paused) s i (at, _) =
      changed-Goes parent ready_to_paused s i at (λ h. cc)
  move-Goes (video_changes parent paused_to_playing) s i (at, _) =
      changed-Goes parent paused_to_playing s i at (λ h. cc)
  move-Goes (video_changes parent playing_to_paused) s i (at, _) =
      changed-Goes parent playing_to_paused s i at (λ h. cc)
  move-Goes (video_changes parent paused_to_ready) s i (at, _) =
      changed-Goes parent paused_to_ready s i at (λ h. cc)
  move-Goes (audio_changes parent t) s i at =
      audio_changed-Goes t s (audio_change_state env parent t (s.elements, s.audio)) i.mode
        (audio_change_state-Opens env parent s.elements s.audio t (audio_opens s t i at))
  move-Goes video_starts s i streams =
      let there : s.elements.input.av ≢ none = let v = i.video in ground arith in
      started-Goes s _ i there
        (video_start-Runs env.nvmm_enabled env.is_large _ _ s.elements there (mode_found s i))
  move-Goes audio_starts s i streams =
      let there : s.elements.input.av ≢ none = let a = i.audio in ground arith in
      started-Goes s _ i there (audio_start-Runs env.nvmm_enabled env.is_large _ s.elements there)

some-injective : {t u : Sources} → some t ≡ some u → t ≡ u
some-injective h = cc

Reach-IsSafe : {s t : Sources} → IsSafe s → Reach s t → IsSafe t
Reach-IsSafe i start = i
Reach-IsSafe i (next {t} r env m fits eq) =
    let (u, eq', safe) = move-Goes env m t (Reach-IsSafe i r) fits in
    subst IsSafe (some-injective (sym eq' ∙ eq)) safe

-- Two sources on one input, from where both are closed and the mode is one of the table, whatever the device and
-- the parents answer: as long as each source changes from the state that it is in and is started while it
-- streams, and the video source is closed only while the audio source is, each change of state and each
-- start runs to its end; it neither follows the pointer to a device object that is not there, nor runs into
-- an assertion, of which a start makes one that its mode is found.
pub move-is_made :
    (s t : Sources)
    → s.video_state ≡ state_null
    → s.audio_state ≡ state_null
    → s.elements.video.mode_enum < 156
    → Reach s t
    → (env : Env) (m : Move) → Fits t m
    → (u : Sources) × (move env m t ≡ some u)
move-is_made s t v a in_table r env m fits =
    let i = Reach-IsSafe (record { video = inl v; audio = inl a; mode = in_table }) r in
    let (u, eq, _) = move-Goes env m t i fits in (u, eq)
