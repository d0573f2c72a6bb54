-- ===== src/Capture/Routing/Quad.antt =====
-- The connections that `SetupVideo` of gst-plugin/aja/gstntv2.cpp takes away, and those that it makes for the
-- four links of quad mode.
use ntv2_gst.Prelude.{ℕ, Bool, true, false, ◌&&◌, ◌||◌, ◌==◌, if◌then◌else◌, List, [], ◌∷◌, ◌++◌}
use ntv2_gst.Capture.Defs.{Av, SdiInputMode, is_hdmi1}
use ntv2_gst.Capture.Routing.Crosspoints.{
  InputXpt, OutputXpt, frame_buffer, frame_buffer_b, frame_buffer_ds2, mux_a_input, mux_b_input,
  csc_input, sdi_in, sdi_in_ds2, mux_a_yuv, mux_b_yuv, hdmi_in, hdmi_in_quadrant, same_input,
  same_output, VideoEffect, remove, add, Formats,
}

abbrev pub is_tsi : SdiInputMode → Bool
is_tsi SdiInputMode.quad_link_tsi = true
is_tsi _ = false

abbrev pub input_in : List InputXpt → InputXpt → Bool
input_in [] i = false
input_in (j ∷ js) i = same_input i j || input_in js i

abbrev pub output_in : List OutputXpt → OutputXpt → Bool
output_in [] o = false
output_in (p ∷ ps) o = same_output o p || output_in ps o

abbrev pub remove_if : Bool → InputXpt → OutputXpt → List VideoEffect
remove_if c i o = if c then remove i o ∷ [] else []

-- The loop over the connections, which takes away those with an input or an output that is listed.
unfoldable pub disconnect :
    List InputXpt → List OutputXpt → List (InputXpt × OutputXpt) → List VideoEffect
disconnect is os [] = []
disconnect is os ((i, o) ∷ cs) =
    let rest = disconnect is os cs in remove_if (input_in is i || output_in os o) i o ++ rest

-- The inputs and the outputs of the multiplexers for four links, by the first one's number.
abbrev pub mux_inputs : ℕ → ℕ → List InputXpt
mux_inputs a b = mux_a_input a ∷ mux_b_input a ∷ mux_a_input b ∷ mux_b_input b ∷ []

abbrev pub mux_outputs : ℕ → ℕ → List OutputXpt
mux_outputs a b = mux_a_yuv a ∷ mux_b_yuv a ∷ mux_a_yuv b ∷ mux_b_yuv b ∷ []

-- The inputs of the frame buffers and the SDI inputs of the links `a` to `d`.
abbrev pub link_inputs : ℕ → ℕ → ℕ → ℕ → List InputXpt
link_inputs a b c d =
    frame_buffer a
    ∷ frame_buffer_b a
    ∷ frame_buffer_ds2 a
    ∷ frame_buffer b
    ∷ frame_buffer_b b
    ∷ frame_buffer_ds2 b
    ∷ frame_buffer c
    ∷ frame_buffer d
    ∷ []

abbrev pub link_outputs : ℕ → ℕ → ℕ → ℕ → List OutputXpt
link_outputs a b c d = sdi_in a ∷ sdi_in b ∷ sdi_in c ∷ sdi_in d ∷ sdi_in_ds2 a ∷ sdi_in_ds2 b ∷ []

abbrev pub disconnect_hdmi : List (InputXpt × OutputXpt) → List VideoEffect
disconnect_hdmi =
    disconnect
      (frame_buffer 1 ∷ frame_buffer_b 1 ∷ frame_buffer 2 ∷ frame_buffer_b 2 ∷ mux_inputs 1 2)
      (mux_outputs 1 2
        ++ hdmi_in 1 ∷ hdmi_in_quadrant 2 ∷ hdmi_in_quadrant 3 ∷ hdmi_in_quadrant 4 ∷ [])

unfoldable pub disconnect_quad : Av → List (InputXpt × OutputXpt) → List VideoEffect
disconnect_quad av cs =
    if is_hdmi1 av.video_source
    then disconnect_hdmi cs
    else if av.input_channel == 0
    then disconnect (link_inputs 1 2 3 4 ++ mux_inputs 1 2)
        (mux_outputs 1 2 ++ link_outputs 1 2 3 4) cs
    else disconnect (link_inputs 5 6 7 8 ++ mux_inputs 3 4)
        (mux_outputs 3 4 ++ link_outputs 5 6 7 8) cs

-- Whether a second input of a frame buffer belongs to an SDI input.
abbrev pub shares_b : OutputXpt → InputXpt → Bool
shares_b o i =
    (output_in (sdi_in 6 ∷ sdi_in 8 ∷ []) o && same_input i (frame_buffer_b 6))
    || ((output_in (sdi_in 5 ∷ sdi_in 6 ∷ []) o && same_input i (frame_buffer_b 5))
        || ((output_in (sdi_in 4 ∷ sdi_in 2 ∷ []) o && same_input i (frame_buffer_b 2))
            || (output_in (sdi_in 1 ∷ sdi_in 2 ∷ []) o && same_input i (frame_buffer_b 1))))

-- The loop without quad mode: the input, its frame buffer and its converter.
unfoldable pub disconnect_single :
    ℕ → ℕ → OutputXpt → List (InputXpt × OutputXpt) → List VideoEffect
disconnect_single fb csc identifier [] = []
disconnect_single fb csc identifier ((i, o) ∷ cs) =
    let rest = disconnect_single fb csc identifier cs in
    remove_if (same_input i (frame_buffer fb) || same_output o identifier) i o
    ++ (remove_if (same_input i (csc_input csc) || same_output o identifier) i o
        ++ (remove_if (shares_b identifier i) i o ++ rest))

abbrev pub add_all : List InputXpt → List OutputXpt → List VideoEffect
add_all (i ∷ is) (o ∷ os) = add i o ∷ add_all is os
add_all _ _ = []

-- The four links into the multiplexers, and these into the frame buffers.
abbrev pub connect_mux : ℕ → ℕ → ℕ → ℕ → List OutputXpt → List VideoEffect
connect_mux fb fb' a b links =
    add (frame_buffer_b fb) (mux_b_yuv a)
    ∷ add (frame_buffer fb') (mux_a_yuv b)
    ∷ add (frame_buffer_b fb') (mux_b_yuv b)
    ∷ add_all (mux_inputs a b) links

-- The three connections of the links behind the first one.
abbrev pub add_three :
    InputXpt → OutputXpt → InputXpt → OutputXpt → InputXpt → OutputXpt → List VideoEffect
add_three i o j p k q = add i o ∷ add j p ∷ add k q ∷ []

-- The cases, by the source, by the tests of the format, and by whether the channel is the first one.
unfoldable pub connect_links : Bool → Bool → Bool → Bool → Bool → List VideoEffect
connect_links is_hdmi tsi hfr quad_quad first =
    if is_hdmi
    then connect_mux 1 2 1 2
        (hdmi_in 1 ∷ hdmi_in_quadrant 2 ∷ hdmi_in_quadrant 3 ∷ hdmi_in_quadrant 4 ∷ [])
    else if tsi && hfr
    then (if first
        then add_three (frame_buffer_ds2 1) (sdi_in 2) (frame_buffer 2) (sdi_in 3)
            (frame_buffer_ds2 2) (sdi_in 4)
        else add_three (frame_buffer_ds2 5) (sdi_in 6) (frame_buffer 5) (sdi_in 7)
            (frame_buffer_ds2 6) (sdi_in 8))
    else if tsi && quad_quad
    then (if first
        then add_three (frame_buffer_ds2 1) (sdi_in_ds2 1) (frame_buffer 2) (sdi_in 2)
            (frame_buffer_ds2 2) (sdi_in_ds2 2)
        else add_three (frame_buffer_ds2 5) (sdi_in_ds2 5) (frame_buffer 5) (sdi_in 6)
            (frame_buffer_ds2 6) (sdi_in_ds2 6))
    else if tsi
    then (if first
        then connect_mux 1 2 1 2 (sdi_in 1 ∷ sdi_in 2 ∷ sdi_in 3 ∷ sdi_in 4 ∷ [])
        else connect_mux 5 6 3 4 (sdi_in 5 ∷ sdi_in 6 ∷ sdi_in 7 ∷ sdi_in 8 ∷ []))
    else if first
    then add_three (frame_buffer 2) (sdi_in 2) (frame_buffer 3) (sdi_in 3) (frame_buffer 4)
        (sdi_in 4)
    else add_three (frame_buffer 6) (sdi_in 6) (frame_buffer 7) (sdi_in 7) (frame_buffer 8)
        (sdi_in 8)

abbrev pub connect_quad : Formats → Av → List VideoEffect
connect_quad k av =
    connect_links (is_hdmi1 av.video_source) (is_tsi av.sdi_input_mode)
      (k.is_quad_quad_hfr av.video_format) (k.is_quad_quad av.video_format) (av.input_channel == 0)
