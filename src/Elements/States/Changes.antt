-- ===== src/Elements/States/Changes.antt =====
-- What each change of state comes to where the device object is there.
use ntv2_gst.Prelude.{
  true, sym, subst, ◌<◌, ◌≡◌, ◌≢◌, ◌⊎◌, refl, Bool, false, ◌&&◌, Option, none, some, arith, inl,
  inr, if_rule,
}
use ntv2_gst.Capture.Defs.{Av}
use ntv2_gst.Audio.Defs.{AudioSrc}
use ntv2_gst.Elements.{
  Elements, Changed, ready_to_paused as prepare_video, video_stop, audio_ready_to_paused,
  audio_stop,
}
use ntv2_gst.Elements.States.{
  state_null, Transition, null_to_ready, ready_to_paused, paused_to_ready, ready_to_null,
  playing_to_paused, paused_to_playing, Env, open_video, open_audio, on_av, and_parent, resumed,
  video_change_state, audio_change_state, on_audio_av, with_audio, video_changed, audio_changed,
  Sources,
}
use ntv2_gst.Elements.States.Keeps.{
  Keeps, Runs, unchanged-Keeps, paused_to_playing-Runs, video_stop-Keeps,
  audio_ready_to_paused-Keeps, audio_stop-Keeps,
}
use ntv2_gst.Elements.States.Opens.{Opens, open_video-Opens, open_audio-Opens}

-- The device object is there while a source is above NULL, and the mode is one of the table.
pub record IsSafe (s : Sources) : Type 0 where
  pub video : (s.video_state ≡ state_null) ⊎ (s.elements.input.av ≢ none)
  pub audio : (s.audio_state ≡ state_null) ⊎ (s.elements.input.av ≢ none)
  pub mode : s.elements.video.mode_enum < 156

-- The move is made, and leads to a safe state.
abbrev pub Goes : Option Sources → Type 0
Goes o = (s : Sources) × (o ≡ some s) × IsSafe s

pub there-IsSafe :
    (s : Sources) → s.elements.input.av ≢ none → s.elements.video.mode_enum < 156 → IsSafe s
there-IsSafe s h m = record { video = inr h; audio = inr h; mode = m }

on_av_lem : {A : Type 0} (o : Option Av) (r : Option A) → o ≢ none → on_av o r ≡ r
on_av_lem none r h = absurd (h refl)
on_av_lem (some av) r h = refl

keep-Opens :
    (e e' : Elements) (ok : Bool) → Keeps e e' → e.input.av ≢ none → Opens e (some (e', ok))
keep-Opens e e' ok k h = ((e', ok), refl, k.av h, k.mode)

resumed-Opens :
    (e : Elements) (o : Option Changed) → e.input.av ≢ none → Runs e o → Opens e (resumed o)
resumed-Opens e none h (c, eq, k) = absurd (cc)
resumed-Opens e (some r) h (c, eq, k) =
    let same : r ≡ c = cc in
    keep-Opens e r.elements true (subst (λ (x : Changed). Keeps e x.elements) (sym same) k) h

prepare_video-Keeps : (e : Elements) → Keeps e (prepare_video e).elements
prepare_video-Keeps e = ground arith

and_parent-Opens :
    (e : Elements) (parent : Bool) (o : Option (Elements × Bool))
    → Opens e o
    → Opens e (and_parent parent o)
and_parent-Opens e parent none (r, eq, there, m) = absurd (cc)
and_parent-Opens e parent (some (e', ok)) (r, eq, there, m) =
    ((e', ok && parent), refl, ground arith, ground arith)

module _ (env : Env) (parent : Bool) (e : Elements) (in_table : e.video.mode_enum < 156) where
  -- A change of the video source, but for the one that closes it.
  pub video_change_state-Opens :
      (t : Transition)
      → (t ≡ null_to_ready) ⊎ (e.input.av ≢ none)
      → t ≢ ready_to_null
      → Opens e (video_change_state env parent t e)
  unfolding video_change_state
  video_change_state-Opens null_to_ready h ne =
      and_parent-Opens e parent (open_video env e) (open_video-Opens env e in_table)
  video_change_state-Opens ready_to_paused (inl h) ne = absurd (cc)
  video_change_state-Opens ready_to_paused (inr h) ne =
      rw (on_av_lem {A = Elements × Bool} e.input.av (some ((prepare_video e).elements, parent)) h)
        (keep-Opens e (prepare_video e).elements parent (prepare_video-Keeps e) h)
  video_change_state-Opens paused_to_playing (inl h) ne = absurd (cc)
  video_change_state-Opens paused_to_playing (inr h) ne =
      if_rule (Opens e) parent _ _
        (λ _. resumed-Opens e _ h (paused_to_playing-Runs env.nvmm_enabled env.is_large e h))
        (λ _. keep-Opens e e false (unchanged-Keeps e) h)
  video_change_state-Opens playing_to_paused (inl h) ne = absurd (cc)
  video_change_state-Opens playing_to_paused (inr h) ne =
      keep-Opens e _ parent
        (if_rule (Keeps e) parent _ e (λ _. record { av = λ h. h; mode = refl })
          (λ _. unchanged-Keeps e))
        h
  video_change_state-Opens paused_to_ready (inl h) ne = absurd (cc)
  video_change_state-Opens paused_to_ready (inr h) ne =
      let stopped = (video_stop env.reported e).0.elements in
      let k : Opens e (some (stopped, parent)) =
        keep-Opens e stopped parent (video_stop-Keeps env.reported e) h in
      if_rule (Opens e) parent _ _
        (λ _.
          if_rule (Opens e) e.input.video_enabled _ _
            (λ _. rw (on_av_lem {A = Elements × Bool} e.input.av (some (stopped, parent)) h) k)
            (λ _. k))
        (λ _. keep-Opens e e false (unchanged-Keeps e) h)
  video_change_state-Opens ready_to_null h ne = absurd (ne refl)

-- The same for the audio source, which does not close the input.
abbrev pub AudioOpens : Elements → Option ((Elements × AudioSrc) × Bool) → Type 0
AudioOpens e o =
    (r : (Elements × AudioSrc) × Bool) × (o ≡ some r)
    × (r.0.0.input.av ≢ none)
    × (r.0.0.video.mode_enum ≡ e.video.mode_enum)

keep-AudioOpens :
    (e e' : Elements) (src : AudioSrc) (ok : Bool)
    → Keeps e e'
    → e.input.av ≢ none
    → AudioOpens e (some ((e', src), ok))
keep-AudioOpens e e' src ok k h = (((e', src), ok), refl, k.av h, k.mode)

on_audio_av-AudioOpens :
    (e : Elements) (o : Option Av) (r : (Elements × AudioSrc) × Bool)
    → o ≢ none
    → AudioOpens e (some r)
    → AudioOpens e (on_audio_av o r)
on_audio_av-AudioOpens e none r h k = absurd (h refl)
on_audio_av-AudioOpens e (some av) r h k = k

opened-AudioOpens :
    (e : Elements) (src : AudioSrc) (o : Option (Elements × Bool))
    → Opens e o
    → AudioOpens e (with_audio src o)
opened-AudioOpens e src none (r, eq, there, m) = absurd (cc)
opened-AudioOpens e src (some (e', ok)) (r, eq, there, m) =
    (((e', src), ok), refl, ground arith, ground arith)

module _ (env : Env) (parent : Bool) (e : Elements) (src : AudioSrc) where
  pub audio_change_state-Opens :
      (t : Transition)
      → (t ≡ null_to_ready) ⊎ (e.input.av ≢ none)
      → AudioOpens e (audio_change_state env parent t (e, src))
  unfolding audio_change_state
  audio_change_state-Opens null_to_ready h =
      opened-AudioOpens e src (and_parent parent (open_audio env e))
        (and_parent-Opens e parent (open_audio env e) (open_audio-Opens env e))
  audio_change_state-Opens ready_to_paused (inl h) = absurd (cc)
  audio_change_state-Opens ready_to_paused (inr h) =
      let r = audio_ready_to_paused e src in
      on_audio_av-AudioOpens e e.input.av (r.0, r.1 && parent) h
        (keep-AudioOpens e r.0.0 r.0.1 (r.1 && parent) (audio_ready_to_paused-Keeps e src) h)
  audio_change_state-Opens paused_to_playing (inl h) = absurd (cc)
  audio_change_state-Opens paused_to_playing (inr h) =
      keep-AudioOpens e e src parent (unchanged-Keeps e) h
  audio_change_state-Opens playing_to_paused (inl h) = absurd (cc)
  audio_change_state-Opens playing_to_paused (inr h) =
      keep-AudioOpens e e src parent (unchanged-Keeps e) h
  audio_change_state-Opens paused_to_ready (inl h) = absurd (cc)
  audio_change_state-Opens paused_to_ready (inr h) =
      let r = (audio_stop e src).0 in
      let k = keep-AudioOpens e r.0 r.1 parent (audio_stop-Keeps e src) h in
      if_rule (AudioOpens e) parent _ _
        (λ _.
          if_rule (AudioOpens e) e.input.audio_enabled _ _
            (λ _. on_audio_av-AudioOpens e e.input.av (r, parent) h k) (λ _. k))
        (λ _. keep-AudioOpens e e src false (unchanged-Keeps e) h)
  audio_change_state-Opens ready_to_null (inl h) = absurd (cc)
  audio_change_state-Opens ready_to_null (inr h) =
      keep-AudioOpens e _ src parent
        (if_rule (Keeps e) parent _ e (λ _. record { av = λ h. h; mode = refl })
          (λ _. unchanged-Keeps e))
        h

pub video_changed-Goes :
    (t : Transition) (s : Sources) (o : Option (Elements × Bool))
    → s.elements.video.mode_enum < 156
    → Opens s.elements o
    → Goes (video_changed t s o)
video_changed-Goes t s none in_table (r, eq, there, m) = absurd (cc)
video_changed-Goes t s (some (e, ok)) in_table (r, eq, there, m) =
    (_, refl, there-IsSafe _ (ground arith) (ground arith))

pub audio_changed-Goes :
    (t : Transition) (s : Sources) (o : Option ((Elements × AudioSrc) × Bool))
    → s.elements.video.mode_enum < 156
    → AudioOpens s.elements o
    → Goes (audio_changed t s o)
audio_changed-Goes t s none in_table (r, eq, there, m) = absurd (cc)
audio_changed-Goes t s (some ((e, src), ok)) in_table (r, eq, there, m) =
    (_, refl, there-IsSafe _ (ground arith) (ground arith))
