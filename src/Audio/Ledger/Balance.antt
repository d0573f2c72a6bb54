-- ===== src/Audio/Ledger/Balance.antt =====
-- No buffer is lost or given back twice, in any history of the audio source.
use ntv2_gst.Prelude.{
  ℕ, ◌+◌, ◌^◌, ◌≤◌, ◌<◌, ◌==◌, Option, none, some, List, [], ◌∷◌, ◌++◌, length, ◌≡◌, refl, sym, ap,
  ◌∙◌, arith, if_rule, subst,
}
use ntv2_gst.Capture.Worker.{AudioBuff}
use ntv2_gst.Audio.Defs.{Packet, Input, AudioSrc, ClockMath}
use ntv2_gst.Audio.Receive.{Received, got_packet}
use ntv2_gst.Audio.Receive.Oldest.{buffs}
use ntv2_gst.Audio.Output.{
  stamp, pop, create, Output, Flow, flushing, not_negotiated, check, continue_at,
}
use ntv2_gst.Audio.Ledger.{
  Call, callback, create_call, unlock_call, unlock_stop_call, stop_call, call, taken, count,
  count-append, IsKept, got_packet-IsKept,
}

-- The part of the state that the account is about.
abbrev pub Same : AudioSrc → AudioSrc → Type 0
Same s t = (s.current_packets ≡ t.current_packets) × (s.queue_size ≡ t.queue_size)

continue_at-Same :
    (m : ClockMath) (input : Input) (src : AudioSrc) (p : Packet) (next : Option ℕ)
    → Same (continue_at m input src p next).0 src
unfolding continue_at
continue_at-Same m input src p none = (refl, refl)
continue_at-Same m input src p (some next) =
    if_rule (λ (r : AudioSrc × Output). Same r.0 src) (src.alignment_threshold == 0) _ _
      (λ _. (refl, refl)) (λ _. (refl, refl))

pub stamp-Same :
    (m : ClockMath) (input : Input) (src : AudioSrc) (p : Packet) → Same (stamp m input src p).0 src
unfolding stamp
stamp-Same m input src p =
    if_rule (λ (r : AudioSrc × Output). Same r.0 src) (check m src p).discont _ _
      (λ _. (refl, refl))
      (λ _.
        continue_at-Same m input (record src { discont_time = (check m src p).discont_time }) p
          src.next_offset)

-- The result of `create` as the account sees it.
abbrev created : Input → AudioSrc → AudioSrc × Flow → Received
created input src r = record { src = r.0; input = input; released = taken r.1 src.current_packets }

pop-IsKept :
    (m : ClockMath) (n : ℕ) (input : Input) (src : AudioSrc) (ps : List Packet)
    → length ps ≤ src.queue_size
    → src.current_packets ≡ ps
    → IsKept n src.queue_size [] (buffs ps) (record {
      src = (pop m input src ps).0;
      input = input;
      released = taken (pop m input src ps).1 ps;
    })
unfolding pop
pop-IsKept m n input src [] h e = record {
  account = ap (λ q. 0 + count n (buffs q)) e;
  within = subst (λ q. length q ≤ src.queue_size) (sym e) h;
  same_size = refl;
}
pop-IsKept m n input src (p ∷ ps) h e =
    let same = stamp-Same m input (record src { current_packets = ps }) p in
    let queue = ap (λ q. count n (buffs q)) same.0 in
    record {
      account = omega arith;
      within = subst (λ q. length q ≤ src.queue_size) (sym same.0) (omega arith);
      same_size = same.1;
    }

-- The buffer that comes with a call.
abbrev pub came : Call → List AudioBuff
came (callback (some b)) = b ∷ []
came _ = []

got_nothing-IsKept :
    (m : ClockMath) (n : ℕ) (src : AudioSrc) (input : Input)
    → length src.current_packets ≤ src.queue_size
    → IsKept n src.queue_size [] (buffs src.current_packets) (got_packet m src input none)
unfolding got_packet
got_nothing-IsKept m n src input w = record { account = refl; within = w; same_size = refl }

pub call-IsKept :
    (m : ClockMath) (n : ℕ) (src : AudioSrc) (input : Input) (c : Call)
    → 0 < src.queue_size
    → length src.current_packets ≤ src.queue_size
    → src.queue_size + 1 < 2 ^ 32
    → IsKept n src.queue_size (came c) (buffs src.current_packets) (call m src input c)
unfolding create
call-IsKept m n src input (callback none) h w l = got_nothing-IsKept m n src input w
call-IsKept m n src input (callback (some b)) h w l = got_packet-IsKept m n src input b h w l
call-IsKept m n src input (create_call started) h w l =
    let stays : (f : Flow)
        → taken f src.current_packets ≡ []
        → IsKept n src.queue_size [] (buffs src.current_packets) (created input src (src, f)) =
      λ f e. record {
        account = ap (λ r. count n r + count n (buffs src.current_packets)) e;
        within = w;
        same_size = refl;
      } in
    if_rule (λ r. IsKept n src.queue_size [] (buffs src.current_packets) (created input src r))
      started _ _
      (λ _.
        if_rule (λ r. IsKept n src.queue_size [] (buffs src.current_packets) (created input src r))
          src.flushing _ _ (λ _. stays flushing refl)
          (λ _. pop-IsKept m n input src src.current_packets w refl))
      (λ _. stays not_negotiated refl)
call-IsKept m n src input unlock_call h w l = record {
  account = refl;
  within = w;
  same_size = refl;
}
call-IsKept m n src input unlock_stop_call h w l = record {
  account = omega arith;
  within = omega arith;
  same_size = refl;
}
call-IsKept m n src input stop_call h w l = record {
  account = omega arith;
  within = omega arith;
  same_size = refl;
}

-- A history of calls, with all that they give back.
unfoldable pub calls : ClockMath → AudioSrc → Input → List Call → Received
calls m src input [] = record { src = src; input = input; released = [] }
calls m src input (c ∷ cs) =
    let r = call m src input c in
    let rest = calls m r.src r.input cs in record rest { released = r.released ++ rest.released }

abbrev pub arrivals : List Call → List AudioBuff
arrivals [] = []
arrivals (c ∷ cs) = came c ++ arrivals cs

both_accounts :
    (r q c b r' q' c' rr cc : ℕ)
    → r + q ≡ c + b
    → r' + q' ≡ c' + q
    → rr ≡ r + r'
    → cc ≡ c + c'
    → rr + q' ≡ cc + b
both_accounts r q c b r' q' c' rr cc h i j k = omega arith

-- In any history of calls, from an element whose queue is within its size, which is at least 1 and fits
-- 32 bits with room for one more, each buffer that came or was queued is given back once or is queued at
-- the end, and none is given back otherwise; and the queue never ends longer than its size. Buffers are
-- told apart by their frame numbers.
pub calls-IsKept :
    (m : ClockMath) (n : ℕ) (cs : List Call) (src : AudioSrc) (input : Input)
    → 0 < src.queue_size
    → length src.current_packets ≤ src.queue_size
    → src.queue_size + 1 < 2 ^ 32
    → IsKept n src.queue_size (arrivals cs) (buffs src.current_packets) (calls m src input cs)
unfolding calls
calls-IsKept m n [] src input h w l = record { account = refl; within = w; same_size = refl }
calls-IsKept m n (c ∷ cs) src input h w l =
    let r = call m src input c in
    let one = call-IsKept m n src input c h w l in
    let s = one.same_size in
    let ih =
      calls-IsKept m n cs r.src r.input (subst (λ k. 0 < k) (sym s) h)
        (subst (λ k. length r.src.current_packets ≤ k) (sym s) one.within)
        (subst (λ k. k + 1 < 2 ^ 32) (sym s) l) in
    let rest = calls m r.src r.input cs in
    record {
      account =
          both_accounts _ _ _ _ _ _ _ _ _ one.account ih.account
            (count-append n r.released rest.released) (count-append n (came c) (arrivals cs));
      within = subst (λ k. length rest.src.current_packets ≤ k) s ih.within;
      same_size = ih.same_size ∙ s;
    }
