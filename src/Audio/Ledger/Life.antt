-- ===== src/Audio/Ledger/Life.antt =====
-- The end of the audio source: `gst_aja_audio_src_stop`, and `gst_aja_audio_src_finalize` behind it.
use ntv2_gst.Prelude.{
  ℕ, ◌+◌, ◌^◌, ◌≤◌, ◌<◌, Bool, true, false, List, [], ◌∷◌, ◌++◌, length, ◌≡◌, refl, ap, arith,
}
use ntv2_gst.Capture.Worker.{AudioBuff}
use ntv2_gst.Audio.Defs.{Input, AudioSrc, ClockMath}
use ntv2_gst.Audio.Receive.{Received}
use ntv2_gst.Audio.Receive.Oldest.{buffs}
use ntv2_gst.Audio.Output.{finalize}
use ntv2_gst.Audio.Ledger.{Call, stop_call, call, count, IsKept}
use ntv2_gst.Audio.Ledger.Balance.{came, calls, arrivals, calls-IsKept}

-- A history that ends with a call of `stop`.
abbrev pub stopped : ClockMath → AudioSrc → Input → List Call → Received
stopped m src input cs = calls m src input (cs ++ stop_call ∷ [])

stopped-empty :
    (m : ClockMath) (cs : List Call) (src : AudioSrc) (input : Input)
    → (stopped m src input cs).src.current_packets ≡ []
unfolding calls
stopped-empty m [] src input = refl
stopped-empty m (c ∷ cs) src input = let r = call m src input c in stopped-empty m cs r.src r.input

arrivals-stop : (cs : List Call) → arrivals (cs ++ stop_call ∷ []) ≡ arrivals cs
arrivals-stop [] = refl
arrivals-stop (c ∷ cs) = ap (λ l. came c ++ l) (arrivals-stop cs)

finalize-none :
    (has_av : Bool) (src : AudioSrc) → src.current_packets ≡ [] → (finalize has_av src).1 ≡ []
finalize-none true src e = ap buffs e
finalize-none false src e = refl

-- What a history leaves, as the account of a buffer, and what `stop` and `finalize` make of it.
pub record IsReturned (n size : ℕ) (came before : List AudioBuff) (r stopped : Received)
    (has_av : Bool) : Type 0 where
  pub kept : IsKept n size came before r
  pub returned : count n stopped.released ≡ count n came + count n before
  pub nothing_left : (finalize has_av stopped.src).1 ≡ []

-- In any history of calls, from an element whose queue is within its size, which is at least 1 and fits
-- 32 bits with room for one more, each buffer that came or was queued is given back once or is queued at
-- the end, and none is given back otherwise, and the queue never ends longer than its size. When the source
-- is stopped then, each of these buffers has been given back once; and finalize finds none to give back,
-- whether the input has its device object still or not. Buffers are told apart by their frame numbers.
pub stopped-IsReturned :
    (m : ClockMath) (n : ℕ) (cs : List Call) (src : AudioSrc) (input : Input) (has_av : Bool)
    → 0 < src.queue_size
    → length src.current_packets ≤ src.queue_size
    → src.queue_size + 1 < 2 ^ 32
    → IsReturned n src.queue_size
        (arrivals cs)
        (buffs src.current_packets)
        (calls m src input cs)
        (stopped m src input cs)
        has_av
stopped-IsReturned m n cs src input has_av h w l =
    let empty = stopped-empty m cs src input in
    let account = (calls-IsKept m n (cs ++ stop_call ∷ []) src input h w l).account in
    let none_left = ap (λ q. count n (buffs q)) empty in
    let same = ap (count n) (arrivals-stop cs) in
    record {
      kept = calls-IsKept m n cs src input h w l;
      returned = omega (arith, account, none_left, same);
      nothing_left = finalize-none has_av (stopped m src input cs).src empty;
    }
