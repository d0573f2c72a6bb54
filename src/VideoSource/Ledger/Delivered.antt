-- ===== src/VideoSource/Ledger/Delivered.antt =====
-- The frames from the capture loop, `ACInputWorker`, to what `gst_aja_video_src_create` puts out.
use ntv2_gst.Prelude.{ℕ, ◌+◌, ◌^◌, ◌<◌, Option, none, some, List, [], ◌∷◌, ◌++◌, length, ◌≡◌, subst}
use ntv2_gst.Prelude.Sublist.{Sublist, Sublist-trans, Ascending, Sublist-Ascending}
use ntv2_gst.Capture.Defs.{Av}
use ntv2_gst.Capture.Worker.{
  VideoBuff, Tick, Action, video_callback, Interference, new_worker, work,
}
use ntv2_gst.Capture.Worker.Numbers.{Increasing, AreU32, work-Increasing}
use ntv2_gst.Audio.Defs.{TimeMapping, ClockMath}
use ntv2_gst.VideoSource.Defs.{AjaVideoSrc}
use ntv2_gst.VideoSource.Output.{buffs}
use ntv2_gst.VideoSource.Ledger.{Call, arrivals}
use ntv2_gst.VideoSource.Ledger.Order.{numbers, outputs, outputs-Sublist}

-- The frames that the video callback gets.
abbrev pub delivered : List Action → List VideoBuff
delivered [] = []
delivered (video_callback (some v) ∷ acts) = v ∷ delivered acts
delivered (_ ∷ acts) = delivered acts

Increasing-Ascending :
    (n : ℕ) (acts : List Action) → Increasing n acts → Ascending n (numbers (delivered acts))
Increasing-Ascending n [] h = tt
Increasing-Ascending n (video_callback (some v) ∷ acts) h =
    (h.0, Increasing-Ascending (v.frame_number + 1) acts h.1)
Increasing-Ascending n (video_callback none ∷ acts) h = Increasing-Ascending n acts h
Increasing-Ascending n (_ ∷ acts) h = Increasing-Ascending n acts h

-- From the capture loop to the pad, frames stay in order and none comes twice: when the loop runs from its
-- start for fewer than 2 ^ 31 rounds, in which the driver's counter of dropped frames always fits 32 bits,
-- and the source starts with no buffer in its queue, then in any history of its calls in which the buffers
-- that it takes over are, by their frame numbers, in order among those that the loop hands out, the buffers
-- that `create` puts out have strictly growing frame numbers.
pub work-outputs-Ascending :
    (av : Av) (hist : List (Interference × Tick)) (m : ClockMath)
    (reg : List (ℕ × ℕ) → Option TimeMapping) (cs : List Call) (src : AjaVideoSrc)
    → AreU32 hist
    → length hist < 2 ^ 31
    → buffs src.current_frames ≡ []
    → Sublist (numbers (arrivals cs)) (numbers (delivered (work av new_worker hist).0))
    → Ascending 0 (numbers (outputs m reg src cs))
work-outputs-Ascending av hist m reg cs src small short empty taken =
    Sublist-Ascending 0
      (Sublist-trans
        (subst (λ q. Sublist (numbers (outputs m reg src cs)) (numbers q ++ numbers (arrivals cs)))
          empty (outputs-Sublist m reg cs src))
        taken)
      (Increasing-Ascending 0 (work av new_worker hist).0 (work-Increasing av hist small short))
