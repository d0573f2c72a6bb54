-- ===== src/Tests/Quits.antt =====
-- Runs for the end of a capture.
use ntv2_gst.Prelude.{
  ◌==◌, if◌then◌else◌, inl, refl, ℕ, ◌+◌, List, [], ◌∷◌, true, false, ◌≡◌, Bool, leb,
}
use ntv2_gst.Capture.Lifecycle.Threads.{
  Life, run_call, quit_call, lives, overlaps, weigh, is_start, is_join, bit, lives-threads,
}
use ntv2_gst.Capture.Lifecycle.{quit}
use ntv2_gst.Capture.Lifecycle.Quitting.{IsFirst, sleeps, timeouts, quit-IsFirst}
use ntv2_gst.Capture.Routing.Distinct.{
  is_distinct, fed, quad_connections, quad_connections-is_distinct,
}
use ntv2_gst.Capture.Routing.{Selected}
use ntv2_gst.Capture.Routing.Crosspoints.{hdmi_in}
use ntv2_gst.Capture.Defs.{Av, InputSource, is_hdmi1}
use ntv2_gst.Tests.Data.{test_av, test_formats}

-- The outputs report before the third poll.
abbrev test_reported : ℕ → Bool
test_reported i = leb 2 i

quit-IsFirst_example :
    IsFirst test_reported 0 300 (sleeps (quit test_reported test_av).1)
    × (timeouts (quit test_reported test_av).1
        ≡ (if sleeps (quit test_reported test_av).1 == 300 then 1 else 0))
quit-IsFirst_example = quit-IsFirst test_reported test_av refl refl

-- Two calls of `Run` before one of `Quit`.
abbrev test_lives : List Life
test_lives =
    run_call false (λ _. false) ∷ run_call false (λ _. false) ∷ quit_call test_reported ∷ []

lives-threads_example :
    weigh is_start (lives test_lives test_av).1 + bit test_av.ac_thread
    ≡ weigh is_join (lives test_lives test_av).1
      + bit (lives test_lives test_av).0.ac_thread
      + overlaps test_lives test_av
lives-threads_example = lives-threads test_lives test_av

-- HDMI on the second channel.
abbrev test_hdmi : Av
test_hdmi = record test_av { video_source = InputSource.hdmi1; input_channel = 1; quad = true }

abbrev test_selected : Selected
test_selected = record {
  identifier = hdmi_in 2;
  input_source = InputSource.hdmi2;
  csc = 2;
  input_rgb = true;
}

quad_connections-is_distinct_example :
    is_distinct (fed (quad_connections test_formats test_hdmi test_selected)) ≡ false
unfolding is_hdmi1
quad_connections-is_distinct_example =
    quad_connections-is_distinct test_formats test_hdmi test_selected (inl refl)
