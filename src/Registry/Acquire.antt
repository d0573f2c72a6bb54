-- ===== src/Registry/Acquire.antt =====
-- What acquiring an input changes.
use ntv2_gst.Prelude.{
  ℕ, Bool, true, false, ◌&&◌, ◌||◌, if◌then◌else◌, Option, some, ◌≡◌, ◌↔◌, ◌⊎◌, inl, inr, refl, sym,
  ap, ◌∙◌, arith, if_rule, none,
}
use ntv2_gst.Registry.{Slot, is_none, acquire_slot}

clash : (b : Bool) → b ≡ false → b ≡ true → ⊥
clash b h k = ground arith

not_true : (b : Bool) → (b ≡ true → ⊥) → b ≡ false
not_true true h = absurd (h refl)
not_true false h = refl

returned_iff :
    (p q : Bool) (x y z : Slot × Bool)
    → x.1 ≡ true
    → y.1 ≡ true
    → z.1 ≡ false
    → ((if p then x else if q then y else z).1 ≡ true) ↔ ((p || q) ≡ true)
returned_iff true q x y z h k l = (λ _. refl, λ _. h)
returned_iff false true x y z h k l = (λ _. refl, λ _. k)
returned_iff false false x y z h k l = (λ e. sym l ∙ e, λ e. l ∙ e)

taken : (a : Bool) (o : Option ℕ) (e : ℕ) → o ≡ some e → (a && is_none o) ≡ false
taken true o e h = ap is_none h
taken false o e h = refl

kept_roles :
    (src : ℕ) (is_audio : Bool) (input : Slot)
    → (((acquire_slot src is_audio input).1 ≡ true)
        ↔ ((is_audio && is_none input.audiosrc || is_none input.videosrc) ≡ true))
      × ((e : ℕ) → input.audiosrc ≡ some e → (acquire_slot src is_audio input).0.audiosrc ≡ some e)
      × ((e : ℕ) → input.videosrc ≡ some e → (acquire_slot src is_audio input).0.videosrc ≡ some e)
unfolding acquire_slot
kept_roles src is_audio input = (
  returned_iff (is_audio && is_none input.audiosrc) (is_none input.videosrc) _ _ _ refl refl refl,
  λ e h.
      if_rule (λ (r : Slot × Bool). r.0.audiosrc ≡ some e) (is_audio && is_none input.audiosrc) _ _
        (λ t. absurd (clash _ (taken is_audio input.audiosrc e h) t))
        (λ _.
          if_rule (λ (r : Slot × Bool). r.0.audiosrc ≡ some e) (is_none input.videosrc) _ _ (λ _. h)
            (λ _. h)),
  λ e h.
      if_rule (λ (r : Slot × Bool). r.0.videosrc ≡ some e) (is_audio && is_none input.audiosrc) _ _
        (λ _. h)
        (λ _.
          if_rule (λ (r : Slot × Bool). r.0.videosrc ≡ some e) (is_none input.videosrc) _ _
            (λ t. absurd (clash _ (taken true input.videosrc e h) t)) (λ _. h)),
)

held : (o o' : Option ℕ) → ((e : ℕ) → o ≡ some e → o' ≡ some e) → (o ≡ none) ⊎ (o' ≡ o)
held none o' h = inl refl
held (some e) o' h = inr (h e refl)

-- The call returns its input exactly if it is asked for audio and the audio role is free, or the video
-- role is free; and an element that holds a role of the input before the call holds it afterwards.
pub acquire_slot_lem :
    (src : ℕ) (is_audio : Bool) (input : Slot)
    → (((acquire_slot src is_audio input).1 ≡ true)
        ↔ ((is_audio && is_none input.audiosrc || is_none input.videosrc) ≡ true))
      × ((input.audiosrc ≡ none) ⊎ ((acquire_slot src is_audio input).0.audiosrc ≡ input.audiosrc))
      × ((input.videosrc ≡ none) ⊎ ((acquire_slot src is_audio input).0.videosrc ≡ input.videosrc))
acquire_slot_lem src is_audio input =
    let (returns, audio, video) = kept_roles src is_audio input in
    (returns, held _ _ audio, held _ _ video)
