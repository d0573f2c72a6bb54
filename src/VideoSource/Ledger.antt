-- ===== src/VideoSource/Ledger.antt =====
-- Histories of the video source: the calls that reach it, in any order, and the buffers it holds.
pub mod Accounts
pub mod Frames
pub mod Balance
pub mod Order
pub mod Life
pub mod Delivered
use ntv2_gst.Prelude.{
  ℕ, ◌+◌, ◌==◌, Bool, true, false, if◌then◌else◌, Option, none, some, List, [], ◌∷◌, ◌++◌, length,
  ◌≡◌, ◌≤◌, arith,
}
use ntv2_gst.Mode.Defs.{Mode}
use ntv2_gst.Capture.Worker.{VideoBuff}
use ntv2_gst.Audio.Defs.{TimeMapping, ClockMath}
use ntv2_gst.VideoSource.Defs.{Frame, AjaVideoSrc}
use ntv2_gst.VideoSource.Receive.{Clocks, Got, video_callback}
use ntv2_gst.VideoSource.Output.{Outside, create, unlock, unlock_stop, empty_queue, buffs}

-- A call of the callback, with `video_enabled`, of `create`, of `unlock` or `unlock_stop`, or the last part of
-- `stop`.
pub data Call : Type 0 where
  callback : Bool → Mode → Clocks → Option VideoBuff → Call
  create_call : Outside → Mode → Call
  unlock_call unlock_stop_call stop_call : Call

-- The buffers that a call takes over. What the callback does not take stays with the capture loop.
abbrev pub came : Call → List VideoBuff
came (callback true mode c (some b)) = b ∷ []
came _ = []

module _ (m : ClockMath) (regression : List (ℕ × ℕ) → Option TimeMapping) where
  abbrev pub call : AjaVideoSrc → Call → Got
  call src (callback enabled mode c b) = (video_callback m regression enabled mode c b src).0
  call src (create_call o mode) =
      let r = create m o mode src in record { src = r.src; released = r.released }
  call src unlock_call = record { src = unlock src; released = [] }
  call src unlock_stop_call = let r = unlock_stop src in record { src = r.0; released = r.1 }
  call src stop_call = let r = empty_queue src in record { src = r.0; released = r.1 }

  -- A history of calls, with all that they give back.
  unfoldable pub calls : AjaVideoSrc → List Call → Got
  calls src [] = record { src = src; released = [] }
  calls src (c ∷ cs) =
      let r = call src c in
      let rest = calls r.src cs in record rest { released = r.released ++ rest.released }

abbrev pub arrivals : List Call → List VideoBuff
arrivals [] = []
arrivals (c ∷ cs) = came c ++ arrivals cs

-- How often a buffer, told by its frame number, stands in a list.
abbrev pub count : ℕ → List VideoBuff → ℕ
count n [] = 0
count n (b ∷ bs) = (if b.frame_number == n then 1 else 0) + count n bs

-- A call keeps the account of a buffer if those that it gives back and those in the queue afterwards are
-- those that came and those in the queue before; and it keeps the buffers in the queue within its size.
pub record IsKept (n size : ℕ) (came before : List VideoBuff) (r : Got) : Type 0 where
  pub account :
      count n r.released + count n (buffs r.src.current_frames) ≡ count n came + count n before
  pub within : length (buffs r.src.current_frames) ≤ size
  pub same_size : r.src.settings.queue_size ≡ size
