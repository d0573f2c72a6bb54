-- ===== src/Tests/Videos.antt =====
-- Runs for the video source.
use ntv2_gst.Prelude.{◌<◌, ◌≡◌, refl, true, false, some, List, [], ◌∷◌, ◌++◌, arith}
use ntv2_gst.Capture.Worker.{Geometry, vanc_offset}
use ntv2_gst.Audio.Receive.{got_packet}
use ntv2_gst.VideoSource.Defs.{got_signal, signal_unknown, marker}
use ntv2_gst.VideoSource.Mapping.{
  update_time_mapping, take_sample, sample, turn_window, first_mapping, max_diff, distance, far,
}
use ntv2_gst.VideoSource.Mapping.Window.{
  update_time_mapping-IsUpdated, IsUpdated, IsWindow, core, latest_after,
}
use ntv2_gst.VideoSource.Mapping.Steps.{update_time_mapping-IsStep, IsAdjust, IsStep}
use ntv2_gst.VideoSource.Receive.{got_frame}
use ntv2_gst.VideoSource.Receive.{enqueue}
use ntv2_gst.VideoSource.Receive.Oldest.{IsQueued, enqueue-IsQueued}
use ntv2_gst.VideoSource.Defs.{Frame}
use ntv2_gst.VideoSource.Receive.Sync.{got_frame-IsSynced, IsSynced, shared}
use ntv2_gst.VideoSource.Receive.Signal.{IsHeard}
use ntv2_gst.VideoSource.Receive.Signal.Heard.{got_frame-IsHeard}
use ntv2_gst.VideoSource.Timecode.{decode_timecode}
use ntv2_gst.VideoSource.Timecode.Digits.{decode_timecode-words_of, IsRp188, words_of}
use ntv2_gst.VideoSource.Vbi.{line_width, extract_cc}
use ntv2_gst.VideoSource.Vbi.Lines.{extract_cc-IsScanned, IsScanned, vanc_720}
use ntv2_gst.VideoSource.Output.{create, notices, buffs}
use ntv2_gst.VideoSource.Output.First.{create-IsCreated, IsCreated, all_notices}
use ntv2_gst.VideoSource.Ledger.{
  Call, callback, create_call, unlock_call, unlock_stop_call, calls, arrivals,
}
use ntv2_gst.VideoSource.Ledger.Life.{IsReturned, stopped, video_stopped-IsReturned}
use ntv2_gst.Tests.Data.{test_src, test_buff, test_math, mode_9}
use ntv2_gst.Tests.VideoData.{
  test_video, test_frame, test_window, test_element, test_clocks, no_regression, shifting,
  test_masks, test_outside, mode_720,
}

test_window-IsWindow : IsWindow 100 (core test_window)
test_window-IsWindow = record {
  sized = refl;
  within = omega arith;
  some_skip = omega arith;
  skip_limited = omega arith;
  counted = omega arith;
}

update_time_mapping-IsUpdated_example :
    IsUpdated 100 2
      (latest_after 3 3 (core test_window))
      (core (update_time_mapping test_math no_regression 25 1 3 3 false test_window))
update_time_mapping-IsUpdated_example =
    update_time_mapping-IsUpdated test_math no_regression 25 1 3 3 false test_window (omega arith)
      (omega arith) test_window-IsWindow

shifting-IsAdjust : IsAdjust shifting
shifting-IsAdjust = record {
  bounded = λ t c. omega arith;
  base = λ t c e d h. ground (arith, e, h);
}

test_near :
    let t = take_sample shifting no_regression 25 1 5 5 test_window in
    distance
      (shifting.adjust 5 t.next_time_mapping)
      (shifting.adjust 5 test_window.current_time_mapping)
    < far
unfolding take_sample sample turn_window first_mapping
test_near = omega arith

update_time_mapping-IsStep_example :
    let t = take_sample shifting no_regression 25 1 5 5 test_window in
    let v = update_time_mapping shifting no_regression 25 1 5 5 false test_window in
    IsStep
      (max_diff shifting 25 1)
      (shifting.adjust 5 test_window.current_time_mapping)
      (shifting.adjust 5 t.next_time_mapping)
      (shifting.adjust 5 v.current_time_mapping)
      v.next_time_mapping_pending
update_time_mapping-IsStep_example =
    update_time_mapping-IsStep shifting no_regression shifting-IsAdjust 25 1 5 5 test_window refl
      (omega arith) test_near

got_frame-IsSynced_example :
    let g =
      got_frame test_math no_regression mode_9 test_clocks (some (test_video 5)) test_element in
    IsSynced
      (test_video 5)
      (test_buff 5)
      g
      (got_packet test_math test_src (shared mode_9 1 g.src) (some (test_buff 5)))
got_frame-IsSynced_example =
    got_frame-IsSynced test_math no_regression mode_9 1 test_clocks (test_video 5) test_element
      test_src (test_buff 5) refl refl refl refl refl

got_frame-IsHeard_example :
    IsHeard signal_unknown
      (got_frame test_math no_regression mode_9 test_clocks (some (test_video 5)) test_element).src
got_frame-IsHeard_example =
    got_frame-IsHeard test_math no_regression mode_9 signal_unknown test_clocks
      (some (test_video 5)) test_element (omega arith) refl refl

test_masks-IsRp188 : IsRp188 test_masks
test_masks-IsRp188 = record {
  frame_units_mask = refl;
  frame_tens_mask = refl;
  second_units_mask = refl;
  second_tens_mask = refl;
  minutes_units_mask = refl;
  minutes_tens_mask = refl;
  hour_units_mask = refl;
  hour_tens_mask = refl;
}

-- 12:34:56, frame 21, with some of the other bits set.
decode_timecode-words_of_example :
    let t = decode_timecode test_masks mode_9 1 (words_of 0 12 34 56 21 1 2 3 4 5 6 7 8) in
    ((t.hours ≡ 12) × (t.minutes ≡ 34)) × ((t.seconds ≡ 56) × (t.frames ≡ 21))
decode_timecode-words_of_example =
    decode_timecode-words_of test_masks test_masks-IsRp188 mode_9 1 0 12 34 56 21 1 2 3 4 5 6 7 8
      (omega arith) (omega arith) (omega arith) (omega arith) (omega arith) (omega arith)
      (omega arith) (omega arith) (omega arith) (omega arith)

extract_cc-IsScanned_example :
    IsScanned
      (vanc_offset Geometry.fg_1280x740 mode_720.bit_depth)
      (line_width mode_720.height mode_720.bit_depth)
      (extract_cc (λ _. false) mode_720 (some 3))
extract_cc-IsScanned_example =
    extract_cc-IsScanned (λ _. false) Geometry.fg_1280x740 mode_720 (some 3) vanc_720 (omega arith)

create-IsCreated_example :
    IsCreated test_math mode_9
      (test_frame 1)
      (test_video 1)
      []
      (all_notices (marker got_signal ∷ []) ++ notices (test_frame 1).signal_change)
      (test_video 1 ∷ [])
      (create test_math test_outside mode_9 test_element)
create-IsCreated_example =
    create-IsCreated test_math test_outside mode_9 test_element (marker got_signal ∷ [])
      (test_frame 1) [] (test_video 1) refl refl (refl, tt) refl

abbrev test_calls : List Call
test_calls =
    callback true mode_9 test_clocks (some (test_video 2))
    ∷ create_call test_outside mode_9
    ∷ unlock_call
    ∷ callback true mode_9 test_clocks (some (test_video 3))
    ∷ unlock_stop_call
    ∷ []

video_stopped-IsReturned_example :
    IsReturned 2 2
      (arrivals test_calls)
      (buffs test_element.current_frames)
      (calls test_math no_regression test_element test_calls)
      (stopped test_math no_regression test_element test_calls)
      false
video_stopped-IsReturned_example =
    video_stopped-IsReturned test_math no_regression 2 test_calls test_element false (omega arith)
      (omega arith)

enqueue-IsQueued_example :
    (pre post kept : List Frame) × (newest : Frame) × IsQueued test_element 2 5 6 true
      (enqueue test_element (test_video 2) 5 6 true)
      pre
      post
      kept
      newest
enqueue-IsQueued_example = enqueue-IsQueued test_element (test_video 2) 5 6 true (omega arith)
