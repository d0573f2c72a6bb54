-- ===== src/Elements/States/Keeps.antt =====
-- What the changes of state of the sources leave as it is.
use ntv2_gst.Prelude.{
  ◌∙◌, sym, subst, [], ℕ, ◌≡◌, ◌≢◌, refl, Bool, true, false, ◌&&◌, Option, none, some, arith,
  if_rule,
}
use ntv2_gst.Video.Format.{VideoFormat}
use ntv2_gst.Mode.Defs.{Mode}
use ntv2_gst.Capture.Defs.{Av}
use ntv2_gst.Audio.Defs.{AudioSrc}
use ntv2_gst.Elements.{
  Elements, start_streams_of, paused_to_playing, video_stop, video_start, audio_start,
  audio_ready_to_paused, audio_stop, run_av, start_if_set, Changed, and_reset, all_enabled,
  reset_streams,
}

-- A change keeps a device object that is there, and the mode.
pub record Keeps (e e' : Elements) : Type 0 where
  pub av : e.input.av ≢ none → e'.input.av ≢ none
  pub mode : e'.video.mode_enum ≡ e.video.mode_enum

pub unchanged-Keeps : (e : Elements) → Keeps e e
unchanged-Keeps e = record { av = λ h. h; mode = refl }

-- A call runs to its end, and keeps these.
abbrev pub Runs : Elements → Option Changed → Type 0
Runs e o = (c : Changed) × (o ≡ some c) × Keeps e c.elements

-- What a call from other elements keeps, if they have the same device object and mode.
along : (e e' : Elements) (o : Option Changed) → Keeps e e' → Runs e' o → Runs e o
along e e' o k (c, eq, k') = (c, eq, record { av = λ h. k'.av (k.av h); mode = k'.mode ∙ k.mode })

unchanged-Runs : (e : Elements) → Runs e (some (record { elements = e; effects = [] }))
unchanged-Runs e = (_, refl, unchanged-Keeps e)

and_reset-Runs : (e : Elements) (o : Option Changed) → Runs e o → Runs e (and_reset o)
and_reset-Runs e none (c, eq, k) = absurd (cc)
and_reset-Runs e (some r) (c, eq, k) =
    let same : r ≡ c = cc in
    let j = subst (λ (x : Changed). Keeps e x.elements) (sym same) k in
    (_, refl, record { av = j.av; mode = j.mode })

module _ (nvmm_enabled : Bool) (is_large : VideoFormat → Bool) where
  run_av-Runs :
      (o : Option Av) (e : Elements) → o ≢ none → Runs e (run_av nvmm_enabled is_large o e)
  run_av-Runs none e h = absurd (h refl)
  run_av-Runs (some av) e h = (_, refl, record { av = λ _ k. cc; mode = refl })

  start_streams_of-Runs :
      (playing : Bool) (e : Elements)
      → e.input.av ≢ none
      → Runs e (start_streams_of nvmm_enabled is_large playing e)
  unfolding start_streams_of
  start_streams_of-Runs playing e h =
      if_rule (Runs e) (all_enabled e.input && playing) _ _
        (λ _.
          along e (record e { video = reset_streams e.video }) _
            (record { av = λ k. k; mode = refl }) (run_av-Runs e.input.av _ h))
        (λ _. unchanged-Runs e)

  start_if_set-Runs :
      (is_set playing : Bool) (e : Elements)
      → e.input.av ≢ none
      → Runs e (start_if_set nvmm_enabled is_large is_set playing e)
  start_if_set-Runs true playing e h = start_streams_of-Runs playing e h
  start_if_set-Runs false playing e h = unchanged-Runs e

  pub paused_to_playing-Runs :
      (e : Elements) → e.input.av ≢ none → Runs e (paused_to_playing nvmm_enabled is_large e)
  unfolding paused_to_playing
  paused_to_playing-Runs e h = start_if_set-Runs e.input.start_streams true e h

  -- A start for a mode that is found.
  pub video_start-Runs :
      (playing : Bool) (mode : Option Mode) (e : Elements)
      → e.input.av ≢ none
      → mode ≢ none
      → Runs e (video_start nvmm_enabled is_large playing mode e)
  unfolding video_start
  video_start-Runs playing none e h found = absurd (found refl)
  video_start-Runs playing (some mode) e h found =
      let input = e.input in
      let e' : Elements = record e {
        input = record input { mode = some mode; video_enabled = true };
      } in
      if_rule (Runs e) input.video_enabled _ _ (λ _. unchanged-Runs e)
        (λ _. and_reset-Runs e _ (
          along e e' _ (record { av = λ k. k; mode = refl })
            (start_if_set-Runs input.start_streams playing e' h)))

  pub audio_start-Runs :
      (playing : Bool) (e : Elements)
      → e.input.av ≢ none
      → Runs e (audio_start nvmm_enabled is_large playing e)
  unfolding audio_start
  audio_start-Runs playing e h =
      let input = e.input in
      let e' : Elements = record e { input = record input { audio_enabled = true } } in
      if_rule (Runs e) input.audio_enabled _ _ (λ _. unchanged-Runs e)
        (λ _.
          along e e' _ (record { av = λ k. k; mode = refl })
            (start_if_set-Runs (input.start_streams && input.videosrc) playing e' h))

pub video_stop-Keeps :
    (reported : ℕ → Bool) (e : Elements) → Keeps e (video_stop reported e).0.elements
unfolding video_stop
video_stop-Keeps reported e = ground arith

pub audio_ready_to_paused-Keeps :
    (e : Elements) (src : AudioSrc) → Keeps e (audio_ready_to_paused e src).0.0
unfolding audio_ready_to_paused
audio_ready_to_paused-Keeps e src = ground arith

pub audio_stop-Keeps : (e : Elements) (src : AudioSrc) → Keeps e (audio_stop e src).0.0
unfolding audio_stop
audio_stop-Keeps e src = ground arith
