-- ===== src/Audio/Ledger/Order.antt =====
-- The order of the packets on their way through the audio source.
use ntv2_gst.Prelude.{
  ℕ, suc, zero, ◌+◌, ◌^◌, ◌≤◌, ◌<◌, Bool, true, false, ◌&&◌, ◌==◌, ltb, Option, none, some, List,
  [], ◌∷◌, ◌++◌, length, drop, ◌≡◌, refl, sym, ap, ◌∙◌, arith, if_rule, subst,
}
use ntv2_gst.Prelude.Sublist.{
  Sublist, stop, skip, Sublist-refl, Sublist-nil, Sublist-append, Sublist-left, Sublist-chain,
}
use ntv2_gst.Capture.Worker.{AudioBuff}
use ntv2_gst.Audio.Defs.{Packet, VideoSrc, Input, AudioSrc, ClockMath}
use ntv2_gst.Audio.Receive.{
  Received, got_packet, enqueue, receive, receive_with, stream_time_of, skips,
}
use ntv2_gst.Audio.Receive.Oldest.{buffs, excess, mark_if, enqueue-oldest}
use ntv2_gst.Audio.Output.{pop, create, Flow}
use ntv2_gst.Audio.Ledger.{
  Call, callback, create_call, unlock_call, unlock_stop_call, stop_call, call, taken,
}
use ntv2_gst.Audio.Ledger.Balance.{came, arrivals, call-IsKept, stamp-Same}

abbrev pub numbers : List AudioBuff → List ℕ
numbers [] = []
numbers (b ∷ bs) = b.frame_number ∷ numbers bs

-- The buffers that a call puts out: `create` gives back a buffer as it puts it out.
abbrev pub put_out : Call → Received → List AudioBuff
put_out (create_call started) r = r.released
put_out _ r = []

-- What a history of calls puts out.
unfoldable pub outputs : ClockMath → AudioSrc → Input → List Call → List AudioBuff
outputs m src input [] = []
outputs m src input (c ∷ cs) =
    let r = call m src input c in put_out c r ++ outputs m r.src r.input cs

numbers-append : (xs ys : List AudioBuff) → numbers (xs ++ ys) ≡ numbers xs ++ numbers ys
numbers-append [] ys = refl
numbers-append (x ∷ xs) ys = ap (λ l. x.frame_number ∷ l) (numbers-append xs ys)

-- What goes out and what stays in the queue are, in order, what was in the queue and what came.
abbrev Passes : List Packet → List AudioBuff → List AudioBuff → List Packet → Type 0
Passes before came out after =
    Sublist (numbers out ++ numbers (buffs after)) (numbers (buffs before) ++ numbers came)

stays-Passes : (b : List AudioBuff) (ps : List Packet) → Passes ps b [] ps
stays-Passes b ps = Sublist-left (numbers (buffs ps)) (numbers b)

drop-Sublist :
    (k : ℕ) (ps : List Packet) → Sublist (numbers (buffs (drop k ps))) (numbers (buffs ps))
drop-Sublist zero ps = Sublist-refl (numbers (buffs ps))
drop-Sublist (suc k) [] = stop
drop-Sublist (suc k) (p ∷ ps) = skip p.audio_buff.frame_number (drop-Sublist k ps)

queue-numbers :
    (c : Bool) (f : Packet) (ps : List Packet)
    → numbers (buffs (ps ++ mark_if c f ∷ []))
      ≡ numbers (buffs ps) ++ f.audio_buff.frame_number ∷ []
queue-numbers true f [] = refl
queue-numbers false f [] = refl
queue-numbers c f (p ∷ ps) = ap (λ l. p.audio_buff.frame_number ∷ l) (queue-numbers c f ps)

enqueue-Passes :
    (src : AudioSrc) (f : Packet)
    → 0 < src.queue_size
    → length src.current_packets + 1 < 2 ^ 32
    → Passes src.current_packets (f.audio_buff ∷ []) [] (enqueue src f).0.current_packets
enqueue-Passes src f h l =
    let k = excess src.queue_size src.current_packets in
    let c = k == 0 && ltb 0 src.skipped_last in
    subst (λ l. Sublist l (numbers (buffs src.current_packets) ++ f.audio_buff.frame_number ∷ []))
      (sym (
        ap (λ q. numbers (buffs q)) (enqueue-oldest src f h l).1.0
        ∙ queue-numbers c f (drop k src.current_packets)))
      (Sublist-append (drop-Sublist k src.current_packets)
        (Sublist-refl (f.audio_buff.frame_number ∷ [])))

receive-Passes :
    (src : AudioSrc) (input : Input) (b : AudioBuff) (t s : ℕ)
    → 0 < src.queue_size
    → length src.current_packets + 1 < 2 ^ 32
    → Passes src.current_packets (b ∷ []) [] (receive src input b t s).src.current_packets
unfolding receive
receive-Passes src input b t s h l =
    if_rule (λ (r : Received). Passes src.current_packets (b ∷ []) [] r.src.current_packets)
      src.flushing _ _ (λ _. stays-Passes (b ∷ []) src.current_packets)
      (λ _. enqueue-Passes (record src { had_signal = true }) _ h l)

receive_with-Passes :
    (m : ClockMath) (src : AudioSrc) (input : Input) (v : Option VideoSrc) (b : AudioBuff)
    → 0 < src.queue_size
    → length src.current_packets + 1 < 2 ^ 32
    → Passes src.current_packets (b ∷ []) [] (receive_with m src input v b).src.current_packets
receive_with-Passes m src input none b h l = receive-Passes src input b _ _ h l
receive_with-Passes m src input (some v) b h l =
    if_rule (λ (r : Received). Passes src.current_packets (b ∷ []) [] r.src.current_packets)
      (skips m v (stream_time_of m input v b)) _ _ (λ _. stays-Passes (b ∷ []) src.current_packets)
      (λ _. receive-Passes src _ b _ _ h l)

got_packet-Passes :
    (m : ClockMath) (src : AudioSrc) (input : Input) (b : Option AudioBuff)
    → 0 < src.queue_size
    → length src.current_packets + 1 < 2 ^ 32
    → Passes src.current_packets
        (came (callback b))
        []
        (got_packet m src input b).src.current_packets
unfolding got_packet
got_packet-Passes m src input none h l = stays-Passes [] src.current_packets
got_packet-Passes m src input (some b) h l =
    if_rule (λ (r : Received). Passes src.current_packets (b ∷ []) [] r.src.current_packets)
      b.have_signal _ _ (λ _. receive_with-Passes m src input input.videosrc b h l)
      (λ _. stays-Passes (b ∷ []) src.current_packets)

pop-Passes :
    (m : ClockMath) (input : Input) (src : AudioSrc) (ps : List Packet)
    → src.current_packets ≡ ps
    → Passes ps [] (taken (pop m input src ps).1 ps) (pop m input src ps).0.current_packets
unfolding pop
pop-Passes m input src [] e = subst (λ q. Passes [] [] [] q) (sym e) stop
pop-Passes m input src (p ∷ ps) e =
    subst (λ q. Passes (p ∷ ps) [] (p.audio_buff ∷ []) q)
      (sym (stamp-Same m input (record src { current_packets = ps }) p).0)
      (Sublist-left (numbers (buffs (p ∷ ps))) [])

create-Passes :
    (m : ClockMath) (input : Input) (started : Bool) (src : AudioSrc)
    → Passes src.current_packets []
        (taken (create m started input src).1 src.current_packets)
        (create m started input src).0.current_packets
unfolding create
create-Passes m input started src =
    let P : AudioSrc × Flow → Type 0 =
      λ r. Passes src.current_packets [] (taken r.1 src.current_packets) r.0.current_packets in
    if_rule P started _ _
      (λ _.
        if_rule P src.flushing _ _ (λ _. stays-Passes [] src.current_packets)
          (λ _. pop-Passes m input src src.current_packets refl))
      (λ _. stays-Passes [] src.current_packets)

call-Passes :
    (m : ClockMath) (src : AudioSrc) (input : Input) (c : Call)
    → 0 < src.queue_size
    → length src.current_packets + 1 < 2 ^ 32
    → Passes src.current_packets
        (came c)
        (put_out c (call m src input c))
        (call m src input c).src.current_packets
call-Passes m src input (callback none) h l = got_packet-Passes m src input none h l
call-Passes m src input (callback (some b)) h l = got_packet-Passes m src input (some b) h l
call-Passes m src input (create_call started) h l = create-Passes m input started src
call-Passes m src input unlock_call h l = stays-Passes [] src.current_packets
call-Passes m src input unlock_stop_call h l = Sublist-nil _
call-Passes m src input stop_call h l = Sublist-nil _

-- In any history of calls, from an element whose queue is within its size, which is at least 1 and fits
-- 32 bits with room for one more, the buffers that `create` puts out are, by their frame numbers, in order
-- among those in the queue before and those that came since: none is put out of its turn, and none twice.
pub audio_outputs-Sublist :
    (m : ClockMath) (cs : List Call) (src : AudioSrc) (input : Input)
    → 0 < src.queue_size
    → length src.current_packets ≤ src.queue_size
    → src.queue_size + 1 < 2 ^ 32
    → Sublist
        (numbers (outputs m src input cs))
        (numbers (buffs src.current_packets) ++ numbers (arrivals cs))
unfolding outputs
audio_outputs-Sublist m [] src input h w l = Sublist-nil _
audio_outputs-Sublist m (c ∷ cs) src input h w l =
    let r = call m src input c in
    let kept = call-IsKept m 0 src input c h w l in
    let s = kept.same_size in
    let rest =
      audio_outputs-Sublist m cs r.src r.input (subst (λ k. 0 < k) (sym s) h)
        (subst (λ k. length r.src.current_packets ≤ k) (sym s) kept.within)
        (subst (λ k. k + 1 < 2 ^ 32) (sym s) l) in
    let before = numbers (buffs src.current_packets) in
    let out = numbers (put_out c r) in
    let outs = numbers (outputs m r.src r.input cs) in
    subst (λ l. Sublist l (before ++ numbers (came c ++ arrivals cs)))
      (sym (numbers-append (put_out c r) (outputs m r.src r.input cs)))
      (subst (λ l. Sublist (out ++ outs) (before ++ l))
        (sym (numbers-append (came c) (arrivals cs)))
        (Sublist-chain out (numbers (buffs r.src.current_packets)) before (numbers (came c)) outs
          (numbers (arrivals cs)) (call-Passes m src input c h (omega arith)) rest))
