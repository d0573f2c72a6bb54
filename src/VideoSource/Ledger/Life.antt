-- ===== src/VideoSource/Ledger/Life.antt =====
-- The end of the video source: the end of its `stop`, and `gst_aja_video_src_finalize` behind it.
use ntv2_gst.Prelude.{
  ℕ, ◌+◌, ◌≤◌, ◌<◌, Bool, true, false, Option, List, [], ◌∷◌, ◌++◌, length, ◌≡◌, refl, ap, arith,
}
use ntv2_gst.Capture.Worker.{VideoBuff}
use ntv2_gst.Audio.Defs.{TimeMapping, ClockMath}
use ntv2_gst.VideoSource.Defs.{AjaVideoSrc}
use ntv2_gst.VideoSource.Receive.{Got}
use ntv2_gst.VideoSource.Output.{buffs, finalize}
use ntv2_gst.VideoSource.Ledger.{Call, stop_call, call, calls, came, arrivals, count, IsKept}
use ntv2_gst.VideoSource.Ledger.Balance.{video_calls-IsKept}

-- A history that ends with a call of `stop`.
abbrev pub stopped : ClockMath → (List (ℕ × ℕ) → Option TimeMapping) → AjaVideoSrc → List Call → Got
stopped m reg src cs = calls m reg src (cs ++ stop_call ∷ [])

stopped-empty :
    (m : ClockMath) (reg : List (ℕ × ℕ) → Option TimeMapping) (cs : List Call) (src : AjaVideoSrc)
    → (stopped m reg src cs).src.current_frames ≡ []
unfolding calls
stopped-empty m reg [] src = refl
stopped-empty m reg (c ∷ cs) src = stopped-empty m reg cs (call m reg src c).src

arrivals-stop : (cs : List Call) → arrivals (cs ++ stop_call ∷ []) ≡ arrivals cs
arrivals-stop [] = refl
arrivals-stop (c ∷ cs) = ap (λ l. came c ++ l) (arrivals-stop cs)

finalize-none :
    (has_av : Bool) (src : AjaVideoSrc) → src.current_frames ≡ [] → (finalize has_av src).1 ≡ []
finalize-none true src e = ap buffs e
finalize-none false src e = refl

-- What a history leaves, as the account of a buffer, and what `stop` and `finalize` make of it.
pub record IsReturned (n size : ℕ) (came before : List VideoBuff) (r stopped : Got) (has_av : Bool)
    : Type 0 where
  pub kept : IsKept n size came before r
  pub returned : count n stopped.released ≡ count n came + count n before
  pub nothing_left : (finalize has_av stopped.src).1 ≡ []

-- In any history of calls, from an element with no more buffers in its queue than the queue size, which is
-- at least 1, each buffer that the element took over or had in its queue is given back once or is in the queue
-- at the end, and none is given back otherwise; and the queue never ends with more buffers than its size.
-- When the source is stopped then, each of these buffers has been given back once; and finalize finds none
-- to give back, whether the input has its device object still or not. Buffers are told apart by their frame
-- numbers.
pub video_stopped-IsReturned :
    (m : ClockMath) (reg : List (ℕ × ℕ) → Option TimeMapping) (n : ℕ) (cs : List Call)
    (src : AjaVideoSrc) (has_av : Bool)
    → 0 < src.settings.queue_size
    → length (buffs src.current_frames) ≤ src.settings.queue_size
    → IsReturned n src.settings.queue_size
        (arrivals cs)
        (buffs src.current_frames)
        (calls m reg src cs)
        (stopped m reg src cs)
        has_av
video_stopped-IsReturned m reg n cs src has_av h w =
    let empty = stopped-empty m reg cs src in
    let account = (video_calls-IsKept m reg n (cs ++ stop_call ∷ []) src h w).account in
    let none_left = ap (λ q. count n (buffs q)) empty in
    let same = ap (count n) (arrivals-stop cs) in
    record {
      kept = video_calls-IsKept m reg n cs src h w;
      returned = omega (arith, account, none_left, same);
      nothing_left = finalize-none has_av (stopped m reg src cs).src empty;
    }
