-- ===== src/Audio/Ledger.antt =====
-- Histories of the audio source: the calls that reach it, in any order, and the buffers it holds.
pub mod Balance
pub mod Order
pub mod Life
use ntv2_gst.Prelude.{
  ℕ, zero, suc, ◌+◌, ◌-◌, ◌*◌, ◌%◌, ◌^◌, ◌≤◌, ◌<◌, Bool, true, false, not, ◌&&◌, ◌||◌, ◌==◌, ltb,
  leb, if◌then◌else◌, Option, none, some, List, [], ◌∷◌, ◌++◌, map, length, take, drop, ◌≡◌, refl,
  sym, ap, ◌∙◌, arith, if-true, if-false, if_rule, subst, tests,
}
use ntv2_gst.Capture.Worker.{AudioBuff}
use ntv2_gst.Audio.Defs.{Packet, VideoSrc, Input, AudioSrc, ClockMath}
use ntv2_gst.Audio.Receive.{
  Received, got_packet, enqueue, receive, receive_with, receive_synced, stream_time_of, skips,
}
use ntv2_gst.Audio.Receive.Oldest.{buffs, excess, mark_if, enqueue-oldest}
use ntv2_gst.Audio.Output.{
  stamp, pop, create, unlock, unlock_stop, stop, Output, Flow, ok, not_negotiated, flushing, waits,
  check, continue_at,
}

-- A call of the callback, of `create` (with the result of its start), of `unlock`, `unlock_stop` or `stop`.
pub data Call : Type 0 where
  callback : Option AudioBuff → Call
  create_call : Bool → Call
  unlock_call unlock_stop_call stop_call : Call

-- `create` gives back the buffer of the packet that it takes, once its memory is in the result.
abbrev pub taken : Flow → List Packet → List AudioBuff
taken (ok o) (p ∷ ps) = p.audio_buff ∷ []
taken _ _ = []

abbrev pub call : ClockMath → AudioSrc → Input → Call → Received
call m src input (callback b) = got_packet m src input b
call m src input (create_call started) =
    let r = create m started input src in
    record { src = r.0; input = input; released = taken r.1 src.current_packets }
call m src input unlock_call = record { src = unlock src; input = input; released = [] }
call m src input unlock_stop_call =
    let r = unlock_stop src in record { src = r.0; input = input; released = r.1 }
call m src input stop_call = let r = stop src in record { src = r.0; input = input; released = r.1 }

-- How often a buffer, told by its frame number, stands in a list.
abbrev pub count : ℕ → List AudioBuff → ℕ
count n [] = 0
count n (b ∷ bs) = (if b.frame_number == n then 1 else 0) + count n bs

pub count-append : (n : ℕ) (xs ys : List AudioBuff) → count n (xs ++ ys) ≡ count n xs + count n ys
count-append n [] ys = omega arith
count-append n (x ∷ xs) ys = let ih = count-append n xs ys in omega arith

count-take-drop :
    (n k : ℕ) (ps : List Packet)
    → count n (buffs (take k ps)) + count n (buffs (drop k ps)) ≡ count n (buffs ps)
count-take-drop n zero ps = omega arith
count-take-drop n (suc k) [] = refl
count-take-drop n (suc k) (p ∷ ps) = let ih = count-take-drop n k ps in omega arith

buffs-append : (xs ys : List Packet) → buffs (xs ++ ys) ≡ buffs xs ++ buffs ys
buffs-append [] ys = refl
buffs-append (x ∷ xs) ys = ap (λ l. x.audio_buff ∷ l) (buffs-append xs ys)

mark_if-count :
    (n : ℕ) (c : Bool) (f : Packet)
    → count n (buffs (mark_if c f ∷ [])) ≡ count n (f.audio_buff ∷ [])
mark_if-count n true f = refl
mark_if-count n false f = refl

-- A call keeps the account of a buffer if those that it gives back and those in the queue afterwards are
-- those that came and those in the queue before; and it keeps the queue within its size.
pub record IsKept (n : ℕ) (size : ℕ) (came before : List AudioBuff) (r : Received) : Type 0 where
  pub account :
      count n r.released + count n (buffs r.src.current_packets) ≡ count n came + count n before
  pub within : length r.src.current_packets ≤ size
  pub same_size : r.src.queue_size ≡ size

enqueue-queue_size : (src : AudioSrc) (f : Packet) → (enqueue src f).0.queue_size ≡ src.queue_size
unfolding enqueue
enqueue-queue_size src f = refl

adds : (r q t d m c b : ℕ) → r ≡ t → q ≡ d + m → m ≡ c → t + d ≡ b → r + q ≡ c + b
adds r q t d m c b h i j k = omega arith

enqueue-IsKept :
    (n : ℕ) (src : AudioSrc) (input : Input) (f : Packet)
    → 0 < src.queue_size
    → length src.current_packets + 1 < 2 ^ 32
    → IsKept n src.queue_size
        (f.audio_buff ∷ [])
        (buffs src.current_packets)
        (record { src = (enqueue src f).0; input = input; released = (enqueue src f).1 })
enqueue-IsKept n src input f h l =
    let e = enqueue-oldest src f h l in
    let k = excess src.queue_size src.current_packets in
    let q = mark_if (k == 0 && ltb 0 src.skipped_last) f in
    let split = count-take-drop n k src.current_packets in
    let queue =
      ap (λ l. count n (buffs l)) e.1.0
      ∙ ap (count n) (buffs-append (drop k src.current_packets) (q ∷ []))
      ∙ count-append n (buffs (drop k src.current_packets)) (buffs (q ∷ [])) in
    let old = ap (count n) e.0 in
    let new = mark_if-count n (k == 0 && ltb 0 src.skipped_last) f in
    record {
      account = adds _ _ _ _ _ _ _ old queue new split;
      within = e.1.1;
      same_size = enqueue-queue_size src f;
    }

receive-IsKept :
    (n : ℕ) (src : AudioSrc) (input : Input) (b : AudioBuff) (t s : ℕ)
    → 0 < src.queue_size
    → length src.current_packets ≤ src.queue_size
    → src.queue_size + 1 < 2 ^ 32
    → IsKept n src.queue_size (b ∷ []) (buffs src.current_packets) (receive src input b t s)
unfolding receive
receive-IsKept n src input b t s h w l =
    if_rule (IsKept n src.queue_size (b ∷ []) (buffs src.current_packets)) src.flushing _ _
      (λ _. record { account = refl; within = w; same_size = refl })
      (λ _. enqueue-IsKept n (record src { had_signal = true }) input _ h (omega arith))

-- The buffer goes back at once, and the queue stays.
given-back :
    (n : ℕ) (src : AudioSrc) (input : Input) (b : AudioBuff) (signal : Bool)
    → length src.current_packets ≤ src.queue_size
    → IsKept n src.queue_size
        (b ∷ [])
        (buffs src.current_packets)
        (record { src = record src { had_signal = signal }; input = input; released = b ∷ [] })
given-back n src input b signal w = record { account = refl; within = w; same_size = refl }

receive_with-IsKept :
    (m : ClockMath) (n : ℕ) (src : AudioSrc) (input : Input) (v : Option VideoSrc) (b : AudioBuff)
    → 0 < src.queue_size
    → length src.current_packets ≤ src.queue_size
    → src.queue_size + 1 < 2 ^ 32
    → IsKept n src.queue_size (b ∷ []) (buffs src.current_packets) (receive_with m src input v b)
receive_with-IsKept m n src input none b h w l = receive-IsKept n src input b _ _ h w l
receive_with-IsKept m n src input (some v) b h w l =
    if_rule (IsKept n src.queue_size (b ∷ []) (buffs src.current_packets))
      (skips m v (stream_time_of m input v b)) _ _ (λ _. given-back n src _ b true w)
      (λ _. receive-IsKept n src _ b _ _ h w l)

pub got_packet-IsKept :
    (m : ClockMath) (n : ℕ) (src : AudioSrc) (input : Input) (b : AudioBuff)
    → 0 < src.queue_size
    → length src.current_packets ≤ src.queue_size
    → src.queue_size + 1 < 2 ^ 32
    → IsKept n src.queue_size (b ∷ []) (buffs src.current_packets) (got_packet m src input (some b))
unfolding got_packet
got_packet-IsKept m n src input b h w l =
    if_rule (IsKept n src.queue_size (b ∷ []) (buffs src.current_packets)) b.have_signal _ _
      (λ _. receive_with-IsKept m n src input input.videosrc b h w l)
      (λ _. given-back n src input b false w)
