-- ===== src/Property/Audio/Checked.antt =====
-- The settings of the audio source behind any calls of `set_property`, and how they read.
use ntv2_gst.Prelude.{ℕ, ◌-◌, ◌^◌, ◌<◌, ◌≤◌, ◌≡◌, ◌≢◌, refl, true, List, [], ◌∷◌, arith}
use ntv2_gst.Property.Audio.{Prop, Value, Element, is_valid, set_property, get_property, init}

get-set_self : (p : Prop) (v : Value p) (e : Element) → get_property p (set_property p v e) ≡ v
unfolding set_property get_property
get-set_self Prop.queue_size v e = refl
get-set_self _ v e = refl

get-set_other :
    (p q : Prop) (v : Value p) (e : Element)
    → p ≢ q
    → get_property q (set_property p v e) ≡ get_property q e
unfolding set_property get_property
get-set_other Prop.device_identifier Prop.device_identifier v e ne = absurd (ne refl)
get-set_other Prop.input_mode Prop.input_mode v e ne = absurd (ne refl)
get-set_other Prop.input_channel Prop.input_channel v e ne = absurd (ne refl)
get-set_other Prop.channels Prop.channels v e ne = absurd (ne refl)
get-set_other Prop.alignment_threshold Prop.alignment_threshold v e ne = absurd (ne refl)
get-set_other Prop.discont_wait Prop.discont_wait v e ne = absurd (ne refl)
get-set_other Prop.queue_size Prop.queue_size v e ne = absurd (ne refl)
get-set_other _ _ v e ne = refl

-- A call sets a property to a value.
abbrev pub Call : Type 0
Call = (p : Prop) × Value p

pub sets : Element → List Call → Element
sets e [] = e
sets e (c ∷ cs) = sets (set_property c.0 c.1 e) cs

abbrev pub AllValid : ℕ → List Call → Type 0
AllValid max_channels [] = Unit {0}
AllValid max_channels (c ∷ cs) = (is_valid max_channels c.0 c.1 ≡ true) × AllValid max_channels cs

-- The settings that the code relies on.
pub record IsChecked (max_channels : ℕ) (e : Element) : Type 0 where
  pub channel : e.input_channel < max_channels
  pub channels_pos : 2 ≤ e.channels
  pub channels_small : e.channels ≤ 16
  pub queue_pos : 0 < e.src.queue_size
  pub queue_small : e.src.queue_size < 2 ^ 31
  pub threshold : e.src.alignment_threshold < 2 ^ 64 - 1
  pub wait : e.src.discont_wait < 2 ^ 64 - 1

module _ (max_channels : ℕ) (some_channel : 0 < max_channels) where
  set_property-IsChecked :
      (p : Prop) (v : Value p) (e : Element)
      → is_valid max_channels p v ≡ true
      → IsChecked max_channels e
      → IsChecked max_channels (set_property p v e)
  unfolding set_property is_valid
  set_property-IsChecked Prop.device_identifier v e h i = ground arith
  set_property-IsChecked _ v e h i = ground arith

  sets-IsChecked :
      (e : Element) (cs : List Call)
      → AllValid max_channels cs
      → IsChecked max_channels e
      → IsChecked max_channels (sets e cs)
  unfolding sets
  sets-IsChecked e [] h i = i
  sets-IsChecked e (c ∷ cs) h i =
      sets-IsChecked (set_property c.0 c.1 e) cs h.1 (set_property-IsChecked c.0 c.1 e h.0 i)

  init-IsChecked : (e : Element) → IsChecked max_channels (init e)
  unfolding init
  init-IsChecked e = ground arith

  -- From a new element on, whichever properties are set to values in their ranges, for at least one channel: the
  -- channel has an input, 2 to 16 channels of audio are asked for, the queue has room for a packet and fewer
  -- than 2 ^ 31 of them, and no time is the one that stands for none; and the property set last reads as its
  -- value.
  sets-init-IsChecked :
      (e : Element) (cs : List Call) (p : Prop) (v : Value p)
      → AllValid max_channels cs
      → is_valid max_channels p v ≡ true
      → let e' = set_property p v (sets (init e) cs) in
        IsChecked max_channels e'
        × (get_property p e' ≡ v)
        × ((q : Prop) → p ≢ q → get_property q e' ≡ get_property q (sets (init e) cs))
  sets-init-IsChecked e cs p v h k =
      let e' = sets (init e) cs in
      (
        set_property-IsChecked p v e' k (sets-IsChecked (init e) cs h (init-IsChecked e)),
        get-set_self p v e',
        λ q. get-set_other p q v e',
      )
