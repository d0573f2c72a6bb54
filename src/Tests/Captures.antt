-- ===== src/Tests/Captures.antt =====
-- Runs for the capture device.
use ntv2_gst.Prelude.{
  inl, ◌+◌, ◌-◌, ◌/◌, ◌^◌, ◌≡◌, refl, true, false, some, none, List, [], ◌∷◌, ◌++◌, arith,
  replicate,
}
use ntv2_gst.Video.Format.{VideoFormat}
use ntv2_gst.Capture.Defs.{Av, SdiInputMode}
use ntv2_gst.Capture.Formats.{quad_format}
use ntv2_gst.Capture.Vpid.{layout_of, split_bit_1}
use ntv2_gst.Capture.Init.{goes_on, init_config}
use ntv2_gst.Capture.Init.Setup.{init, init-answers}
use ntv2_gst.Capture.Init.Accepts.{IsConfigured, init_config-IsConfigured}
use ntv2_gst.Capture.Worker.{
  wait_for_interrupt, video_callback, audio_callback, sleep, Tick, new_worker, Interference,
  nothing, begin_quit, finish_quit, set_callbacks, work, count_drops, u32,
}
use ntv2_gst.Capture.Worker.Drops.{count_drops_lem}
use ntv2_gst.Capture.Worker.Numbers.{Increasing, work-Increasing}
use ntv2_gst.Capture.Worker.SignalLoss.{IsQuiet, work-signal_loss, signal_found-same}
use ntv2_gst.Capture.Worker.Handshake.{Reported, work-begin_quit}
use ntv2_gst.Tests.Data.{test_formats, test_device, test_av, test_tick, test_worker, test_args}

abbrev test_quad_av : Av
test_quad_av = record test_av {
  started = false;
  video_format = VideoFormat.format_4x1920x1080p_2500;
  sdi_input_mode = SdiInputMode.quad_link_sqd;
  quad = true;
}

init_config_quad :
    init_config false
      (λ _. false)
      VideoFormat.format_unknown
      test_args
      (record test_av { started = false })
    ≡ goes_on test_quad_av
unfolding init_config quad_format
init_config_quad = refl

init_config-IsConfigured_example : IsConfigured test_quad_av
init_config-IsConfigured_example =
    init_config-IsConfigured false (λ _. false) VideoFormat.format_unknown test_args
      (record test_av { started = false }) test_quad_av init_config_quad

init-answers_example : ¬ (
    init false
      (λ _. false)
      VideoFormat.format_unknown
      test_formats
      test_device
      test_args
      (record test_av { started = false })
    ≡ none)
init-answers_example =
    init-answers false (λ _. false) VideoFormat.format_unknown test_formats test_device test_args
      (record test_av { started = false }) (inl refl)

quad_format_25 :
    quad_format VideoFormat.format_3840x2160p_2500 ≡ some VideoFormat.format_4x1920x1080p_2500
unfolding quad_format
quad_format_25 = refl

layout_85 : layout_of (0x85109000 / 2 ^ 24) ≡ split_bit_1
unfolding layout_of
layout_85 = refl

-- The driver's counter wraps from its last value to 5: six frames more, of which five are counted.
count_drops_lem_example :
    ((count_drops (u32 4_294_967_301) (test_worker 0)).dropped_frames
        + (4_294_967_301 / 2 ^ 32 - 4_294_967_295 / 2 ^ 32)
      ≡ 6)
    × ((count_drops (u32 4_294_967_301) (test_worker 0)).last_dropped_frames ≡ 5)
    × ((count_drops (u32 4_294_967_301) (test_worker 0)).dropped_frames_now ≡ true)
count_drops_lem_example =
    count_drops_lem (test_worker 0) 4_294_967_295 4_294_967_301 refl (omega arith) (omega arith)
      (omega arith)

abbrev test_hist : List (Interference × Tick)
test_hist =
    (nothing, test_tick true 0)
    ∷ (nothing, test_tick false 2)
    ∷ (set_callbacks true true, test_tick true 2)
    ∷ (begin_quit, test_tick true 3)
    ∷ []

work-Increasing_example : Increasing 0 (work test_av new_worker test_hist).0
work-Increasing_example =
    work-Increasing test_av test_hist (omega arith, (omega arith, (omega arith, (omega arith, tt))))
      (omega arith)

work-begin_quit_example :
    Reported
      (work test_av new_worker
        ((begin_quit, test_tick true 0) ∷ (finish_quit, test_tick false 0) ∷ [])).1
work-begin_quit_example =
    work-begin_quit test_av new_worker (test_tick true 0) ((finish_quit, test_tick false 0) ∷ [])
      refl

test-IsQuiet : IsQuiet test_av (test_worker 30) (test_tick false 0)
test-IsQuiet = record {
  running = refl;
  no_last = refl;
  no_frame = refl;
  signal = signal_found-same test_av;
  configured = refl;
}

work-signal_loss_example :
    (work test_av (test_worker 30) (replicate 3 (nothing, test_tick false 0))).0
    ≡ replicate 2 wait_for_interrupt ++ (video_callback none ∷ audio_callback none ∷ sleep ∷ [])
work-signal_loss_example =
    work-signal_loss 2 test_av (test_worker 30) (test_tick false 0) test-IsQuiet (omega arith) refl
      refl
