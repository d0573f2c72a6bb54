-- ===== src/Property/Video/Valid.antt =====
-- The settings of the video source behind any calls of `set_property`.
use ntv2_gst.Prelude.{ℕ, ◌^◌, ◌<◌, ◌≡◌, Bool, true, some, List, [], ◌∷◌, arith}
use ntv2_gst.Mode.Defs.{Mode}
use ntv2_gst.Mode.Caps.{get_mode_raw}
use ntv2_gst.Mode.Rows.{get_mode_raw-lt}
use ntv2_gst.Property.Video.{Prop, Value, Element, is_valid, set_property, init}

-- A call sets a property to a value.
abbrev pub Call : Type 0
Call = (p : Prop) × Value p

pub sets : Bool → Bool → Element → List Call → Element
sets nvmm_enabled has_anc e [] = e
sets nvmm_enabled has_anc e (c ∷ cs) =
    sets nvmm_enabled has_anc (set_property nvmm_enabled has_anc c.0 c.1 e).0 cs

-- All values lie in the ranges of their properties, as GObject sees to.
abbrev pub AllValid : ℕ → List Call → Type 0
AllValid max_channels [] = Unit {0}
AllValid max_channels (c ∷ cs) = (is_valid max_channels c.0 c.1 ≡ true) × AllValid max_channels cs

-- The settings that the code relies on.
pub record IsValid (max_channels : ℕ) (e : Element) : Type 0 where
  pub mode_enum : e.src.mode_enum < 156
  pub channel : e.input_channel < max_channels
  pub queue_pos : 0 < e.src.settings.queue_size
  pub queue_small : e.src.settings.queue_size < 2 ^ 31
  pub skip : e.src.settings.skip_first_time < 2 ^ 64
  pub core : e.src.settings.capture_cpu_core < 2 ^ 32

module _ (nvmm_enabled has_anc : Bool) (max_channels : ℕ) (some_channel : 0 < max_channels) where
  set_property-IsValid :
      (p : Prop) (v : Value p) (e : Element)
      → is_valid max_channels p v ≡ true
      → IsValid max_channels e
      → IsValid max_channels (set_property nvmm_enabled has_anc p v e).0
  unfolding set_property is_valid
  set_property-IsValid Prop.signal v e h i = i
  set_property-IsValid _ v e h i = ground arith

  sets-IsValid :
      (e : Element) (cs : List Call)
      → AllValid max_channels cs
      → IsValid max_channels e
      → IsValid max_channels (sets nvmm_enabled has_anc e cs)
  unfolding sets
  sets-IsValid e [] h i = i
  sets-IsValid e (c ∷ cs) h i =
      sets-IsValid (set_property nvmm_enabled has_anc c.0 c.1 e).0 cs h.1
        (set_property-IsValid c.0 c.1 e h.0 i)

  init-IsValid : (times : List (ℕ × ℕ)) (e : Element) → IsValid max_channels (init times e)
  unfolding init
  init-IsValid times e = ground arith

  -- From a new element on, whichever properties are set to values in their ranges, for at least one channel: the
  -- mode is found in the table, so that `open` and `start` never fail on it; the channel has an input; the
  -- queue has room for a frame and fewer than 2 ^ 31 of them; and the time to skip and the core fit their words.
  pub sets-init-IsValid :
      (times : List (ℕ × ℕ)) (e : Element) (cs : List Call)
      → AllValid max_channels cs
      → let e' = sets nvmm_enabled has_anc (init times e) cs in
        IsValid max_channels e' × ((m : Mode) × (get_mode_raw e'.src.mode_enum ≡ some m))
  sets-init-IsValid times e cs h =
      let i = sets-IsValid (init times e) cs h (init-IsValid times e) in
      (i, get_mode_raw-lt _ i.mode_enum)
