-- ===== src/Capture/Routing/Distinct.antt =====
-- Which inputs of the router `SetupVideo` of gst-plugin/aja/gstntv2.cpp feeds in quad mode.
use ntv2_gst.Prelude.{
  ℕ, ◌+◌, Bool, true, false, not, ◌&&◌, ◌||◌, ◌==◌, if◌then◌else◌, List, [], ◌∷◌, ◌++◌, ◌≡◌, ◌⊎◌,
  inl, inr, refl, if_rule, arith, sym, subst,
}
use ntv2_gst.Capture.Defs.{Av, is_hdmi1}
use ntv2_gst.Capture.AudioSetup.{channel_below}
use ntv2_gst.Capture.Routing.{Selected, connect_input, muxed}
use ntv2_gst.Capture.Routing.Crosspoints.{
  InputXpt, frame_buffer, csc_input, VideoEffect, add, Formats,
}
use ntv2_gst.Capture.Routing.Quad.{input_in, connect_links, connect_quad, is_tsi}

-- The inputs that are fed, in order.
abbrev pub fed : List VideoEffect → List InputXpt
fed [] = []
fed (add i o ∷ es) = i ∷ fed es
fed (_ ∷ es) = fed es

-- Whether no input is fed twice.
abbrev pub is_distinct : List InputXpt → Bool
is_distinct [] = true
is_distinct (i ∷ is) = not (input_in is i) && is_distinct is

-- The connections of the selected input, with those of the four links.
abbrev pub quad_connections : Formats → Av → Selected → List VideoEffect
quad_connections k av s =
    connect_input av s (channel_below 8 av.input_channel + 1) (muxed k av s.identifier)
    ++ connect_quad k av

-- The two cases in which an input is fed twice: HDMI on the second channel, and a quad-quad format with TSI
-- on a channel behind the first one.
abbrev pub feeds_twice : Bool → Bool → ℕ → Bool
feeds_twice is_hdmi tsi_quad_quad channel =
    if is_hdmi then channel == 1 else tsi_quad_quad && not (channel == 0)

-- What is to hold of a channel, behind the connection of its own frame buffer.
abbrev AreDistinct : Bool → Bool → Bool → Bool → ℕ → Type 0
AreDistinct is_hdmi tsi hfr quad_quad channel =
    is_distinct (
      frame_buffer (channel_below 8 channel + 1)
      ∷ fed (connect_links is_hdmi tsi hfr quad_quad (channel == 0)))
    ≡ not (feeds_twice is_hdmi (tsi && (hfr || quad_quad)) channel)

first-AreDistinct : (tsi hfr quad_quad : Bool) → AreDistinct false tsi hfr quad_quad 0
unfolding connect_links
first-AreDistinct true true quad_quad = refl
first-AreDistinct true false true = refl
first-AreDistinct true false false = refl
first-AreDistinct false hfr quad_quad = refl

fifth-AreDistinct : (tsi hfr quad_quad : Bool) → AreDistinct false tsi hfr quad_quad 4
unfolding connect_links
fifth-AreDistinct true true quad_quad = refl
fifth-AreDistinct true false true = refl
fifth-AreDistinct true false false = refl
fifth-AreDistinct false hfr quad_quad = refl

links-AreDistinct :
    (is_hdmi tsi hfr quad_quad : Bool) (channel : ℕ)
    → (is_hdmi ≡ true) ⊎ ((channel ≡ 0) ⊎ (channel ≡ 4))
    → AreDistinct is_hdmi tsi hfr quad_quad channel
unfolding connect_links
links-AreDistinct true tsi hfr quad_quad channel h = ground arith
links-AreDistinct false tsi hfr quad_quad channel (inl h) = absurd (ground arith)
links-AreDistinct false tsi hfr quad_quad channel (inr (inl h)) =
    subst (AreDistinct false tsi hfr quad_quad) (sym h) (first-AreDistinct tsi hfr quad_quad)
links-AreDistinct false tsi hfr quad_quad channel (inr (inr h)) =
    subst (AreDistinct false tsi hfr quad_quad) (sym h) (fifth-AreDistinct tsi hfr quad_quad)

-- No link feeds a converter.
links-no_csc :
    (is_hdmi tsi hfr quad_quad first : Bool) (csc : ℕ)
    → input_in (fed (connect_links is_hdmi tsi hfr quad_quad first)) (csc_input csc) ≡ false
unfolding connect_links
links-no_csc true tsi hfr quad_quad first csc = refl
links-no_csc false true true quad_quad true csc = refl
links-no_csc false true true quad_quad false csc = refl
links-no_csc false true false true true csc = refl
links-no_csc false true false true false csc = refl
links-no_csc false true false false true csc = refl
links-no_csc false true false false false csc = refl
links-no_csc false false hfr quad_quad true csc = refl
links-no_csc false false hfr quad_quad false csc = refl

behind_csc : (b c d : Bool) → b ≡ false → c ≡ d → (not b && c) ≡ d
behind_csc true c d h e = absurd (ground arith)
behind_csc false c d h e = e

-- In quad mode, for HDMI on any channel and for SDI on the channels 1 and 5, which Init accepts alone: the
-- connection of the selected input to the frame buffer of its channel, directly or through a converter, with
-- the connections of the four links, feeds no input of the router twice, but in two cases. On the second
-- channel for HDMI, and on channel 5 for a quad-quad format with TSI, it does feed one twice.
pub quad_connections-is_distinct :
    (k : Formats) (av : Av) (s : Selected)
    → (is_hdmi1 av.video_source ≡ true) ⊎ ((av.input_channel ≡ 0) ⊎ (av.input_channel ≡ 4))
    → is_distinct (fed (quad_connections k av s))
      ≡ not (
          feeds_twice
            (is_hdmi1 av.video_source)
            (is_tsi av.sdi_input_mode
              && (k.is_quad_quad_hfr av.video_format || k.is_quad_quad av.video_format))
            av.input_channel)
quad_connections-is_distinct k av s h =
    let hdmi = is_hdmi1 av.video_source in
    let tsi = is_tsi av.sdi_input_mode in
    let hfr = k.is_quad_quad_hfr av.video_format in
    let qq = k.is_quad_quad av.video_format in
    let links = links-AreDistinct hdmi tsi hfr qq av.input_channel h in
    if_rule
      (λ (l : List VideoEffect).
        is_distinct (fed (l ++ connect_quad k av))
        ≡ not (feeds_twice hdmi (tsi && (hfr || qq)) av.input_channel))
      ((av.is_rgba && s.input_rgb) || (not av.is_rgba && not s.input_rgb)) _ _ (λ _. links)
      (λ _. behind_csc _ _ _ (links-no_csc hdmi tsi hfr qq (av.input_channel == 0) s.csc) links)
