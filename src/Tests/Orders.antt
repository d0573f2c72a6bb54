-- ===== src/Tests/Orders.antt =====
-- Runs for the order of the frames.
use ntv2_gst.Prelude.{ap, arith, true, some, List, [], ◌∷◌, ◌≡◌, refl, sym, subst}
use ntv2_gst.Prelude.Sublist.{Sublist, Sublist-refl, Ascending}
use ntv2_gst.Capture.Worker.{VideoBuff, Interference, nothing, Tick, new_worker, work}
use ntv2_gst.VideoSource.Defs.{AjaVideoSrc}
use ntv2_gst.VideoSource.Receive.{
  video_callback, got_frame, receive, find_signal, enqueue, drop_old,
}
use ntv2_gst.VideoSource.Output.{create, take_frame}
use ntv2_gst.VideoSource.Ledger.{Call, callback, create_call, unlock_call, arrivals}
use ntv2_gst.VideoSource.Ledger.Order.{numbers, outputs}
use ntv2_gst.VideoSource.Ledger.Delivered.{delivered, work-outputs-Ascending}
use ntv2_gst.Tests.Data.{test_av, test_tick, test_math, mode_9}
use ntv2_gst.Tests.VideoData.{test_video, test_element, test_clocks, no_regression, test_outside}

abbrev good_hist : List (Interference × Tick)
good_hist =
    (nothing, test_tick true 0)
    ∷ (nothing, test_tick true 2)
    ∷ (nothing, test_tick true 3)
    ∷ (nothing, test_tick true 3)
    ∷ []

abbrev no_frames : AjaVideoSrc
no_frames = record test_element { current_frames = [] }

-- Three frames come to a queue of two.
abbrev order_calls : List Call
order_calls =
    callback true mode_9 test_clocks (some (test_video 0))
    ∷ callback true mode_9 test_clocks (some (test_video 3))
    ∷ callback true mode_9 test_clocks (some (test_video 5))
    ∷ create_call test_outside mode_9
    ∷ unlock_call
    ∷ []

order_put_out : numbers (outputs test_math no_regression no_frames order_calls) ≡ 3 ∷ []
unfolding outputs create video_callback got_frame receive find_signal enqueue take_frame drop_old
order_put_out = refl

-- The source gets each of the frames, and puts it out.
abbrev hand_over : List VideoBuff → List Call
hand_over [] = create_call test_outside mode_9 ∷ []
hand_over (b ∷ bs) =
    callback true mode_9 test_clocks (some b) ∷ create_call test_outside mode_9 ∷ hand_over bs

arrivals-hand_over : (bs : List VideoBuff) → arrivals (hand_over bs) ≡ bs
arrivals-hand_over [] = refl
arrivals-hand_over (b ∷ bs) = ap (λ l. b ∷ l) (arrivals-hand_over bs)

-- What the loop hands out in these rounds: the frames 0, 3, 5 and 6.
abbrev good_frames : List VideoBuff
good_frames = delivered (work test_av new_worker good_hist).0

all_taken : Sublist (numbers (arrivals (hand_over good_frames))) (numbers good_frames)
all_taken =
    subst (λ l. Sublist (numbers l) (numbers good_frames)) (sym (arrivals-hand_over good_frames))
      (Sublist-refl (numbers good_frames))

work-outputs-Ascending_example :
    Ascending 0 (numbers (outputs test_math no_regression no_frames (hand_over good_frames)))
work-outputs-Ascending_example =
    work-outputs-Ascending test_av good_hist test_math no_regression (hand_over good_frames)
      no_frames (omega arith, (omega arith, (omega arith, (omega arith, tt)))) (omega arith) refl
      all_taken
