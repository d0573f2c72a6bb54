-- ===== src/Audio/Receive/Oldest.antt =====
-- What the audio queue drops for a new packet.
use ntv2_gst.Prelude.{
  ℕ, suc, ◌+◌, ◌-◌, ◌^◌, ◌≤◌, ◌<◌, Bool, true, ◌&&◌, ◌==◌, ltb, leb, if◌then◌else◌, List, [], ◌∷◌,
  ◌++◌, map, length, take, drop, ◌≡◌, refl, sym, ap, ◌∙◌, arith, length-append, length-drop,
  if_rule, subst, tests,
}
use mathlib.Core.List.{append_assoc, append-nil}
use ntv2_gst.Capture.Worker.{AudioBuff, u32, u64}
use ntv2_gst.Audio.Defs.{Packet, AudioSrc}
use ntv2_gst.Audio.Receive.{Dropping, drop_one, drop_old, fresh, enqueue}

abbrev pub buffs : List Packet → List AudioBuff
buffs ps = map (λ p. p.audio_buff) ps

-- How many packets the loop takes from a queue.
abbrev pub excess : ℕ → List Packet → ℕ
excess size ps = length ps + 1 - size

-- What the loop is to leave: the queue without its oldest packets, which are given back in their order.
record IsDropped (k : ℕ) (ps : List Packet) (d e : Dropping) : Type 0 where
  queue_of : e.queue ≡ drop k ps
  released_of : e.released ≡ d.released ++ buffs (take k ps)
  skipped_of : e.skipped_frames ≡ u32 (d.skipped_frames + k)

IsDropped-suc :
    (s k : ℕ) (p : Packet) (ps : List Packet) (d e : Dropping)
    → IsDropped k ps (drop_one s p d) e
    → IsDropped (suc k) (p ∷ ps) d e
IsDropped-suc s k p ps d e i = record {
  queue_of = i.queue_of;
  released_of = i.released_of ∙ append_assoc d.released (p.audio_buff ∷ []) (buffs (take k ps));
  skipped_of = i.skipped_of ∙ ground arith;
}

IsDropped-zero :
    (ps : List Packet) (d : Dropping)
    → d.skipped_frames < 2 ^ 32
    → IsDropped 0 ps d (record d { queue = ps })
IsDropped-zero ps d h = record {
  queue_of = refl;
  released_of = sym (append-nil _);
  skipped_of = ground arith;
}

drop_old_lem :
    (size s : ℕ) (ps : List Packet) (d : Dropping)
    → 0 < size
    → d.skipped_frames < 2 ^ 32
    → IsDropped (excess size ps) ps d (drop_old size s ps d)
unfolding drop_old
drop_old_lem size s [] d h l =
    subst (λ k. IsDropped k [] d (record d { queue = [] })) (omega arith) (IsDropped-zero [] d l)
drop_old_lem size s (p ∷ ps) d h l =
    if_rule (λ e. IsDropped (excess size (p ∷ ps)) (p ∷ ps) d e) (leb size (length (p ∷ ps))) _ _
      (λ t.
        subst (λ k. IsDropped k (p ∷ ps) d (drop_old size s ps (drop_one s p d))) (omega tests)
          (IsDropped-suc s (excess size ps) p ps d _
            (drop_old_lem size s ps (drop_one s p d) h (ground arith))))
      (λ t.
        subst (λ k. IsDropped k (p ∷ ps) d (record d { queue = p ∷ ps })) (ground arith)
          (IsDropped-zero (p ∷ ps) d l))

-- The packet with its buffer marked, or as it is.
abbrev pub mark_if : Bool → Packet → Packet
mark_if c f =
    let b = f.audio_buff in
    if c then record f { audio_buff = record b { dropped_changed = true } } else f

small : (n : ℕ) → n < 2 ^ 32 → u32 (0 + n) ≡ n
small n h = ground arith

-- The new queue, from what the loop has left.
queued-cong :
    (src : AudioSrc) (f : Packet) (d : Dropping) (k : ℕ)
    → d.queue ≡ drop k src.current_packets
    → d.skipped_frames ≡ k
    → d.queue ++ mark_if (d.skipped_frames == 0 && ltb 0 src.skipped_last) f ∷ []
      ≡ drop k src.current_packets ++ mark_if (k == 0 && ltb 0 src.skipped_last) f ∷ []
queued-cong src f d k e s =
    ap (λ q. q ++ mark_if (d.skipped_frames == 0 && ltb 0 src.skipped_last) f ∷ []) e
    ∙ ap (λ n. drop k src.current_packets ++ mark_if (n == 0 && ltb 0 src.skipped_last) f ∷ []) s

fits :
    (size : ℕ) (ps : List Packet) (f : Packet)
    → 0 < size
    → length (drop (excess size ps) ps ++ f ∷ []) ≤ size
fits size ps f h =
    let a = length-append (drop (excess size ps) ps) (f ∷ []) in
    let b = length-drop (excess size ps) ps in omega arith

-- A queue of fewer than 2 ^ 32 - 1 packets, with a size of at least one, takes a packet in this way: it
-- gives back exactly its oldest packets that would make it longer than its size, in their order, and
-- keeps the others in theirs with the new packet behind them, marked if none was dropped now and some
-- were before; and it is no longer than its size afterwards.
pub enqueue-oldest :
    (src : AudioSrc) (f : Packet)
    → 0 < src.queue_size
    → length src.current_packets + 1 < 2 ^ 32
    → let k = excess src.queue_size src.current_packets in
      ((enqueue src f).1 ≡ buffs (take k src.current_packets))
      × (((enqueue src f).0.current_packets
            ≡ drop k src.current_packets ++ mark_if (k == 0 && ltb 0 src.skipped_last) f ∷ [])
          × (length (enqueue src f).0.current_packets ≤ src.queue_size))
unfolding enqueue
enqueue-oldest src f h l =
    let i =
      drop_old_lem src.queue_size src.skipped_last src.current_packets (fresh src) h
        (ground arith) in
    let k = excess src.queue_size src.current_packets in
    let q =
      queued-cong src f (drop_old src.queue_size src.skipped_last src.current_packets (fresh src)) k
        i.queue_of (i.skipped_of ∙ small k (omega arith)) in
    (
      i.released_of,
      (
        q,
        subst (λ l. length l ≤ src.queue_size) (sym q)
            (fits src.queue_size src.current_packets _ h),
      ),
    )

skipped-sum :
    (overall last n k : ℕ)
    → n ≡ k
    → overall + last + k < 2 ^ 32
    → (if n == 0 && ltb 0 last then u64 (overall + last) else overall)
        + u32 ((if n == 0 && ltb 0 last then 0 else last) + n)
      ≡ overall + last + k
skipped-sum overall last n k e h = ground arith

-- The counters of dropped packets account for each of them: for a queue with a size of at least one, the
-- sum of those reported and those not yet reported grows by exactly the packets that a new one pushes
-- out, as long as the sum and the length of the queue together stay below 2 ^ 32 - 1.
enqueue-skipped :
    (src : AudioSrc) (f : Packet)
    → 0 < src.queue_size
    → length src.current_packets + 1 < 2 ^ 32
    → src.skipped_overall + src.skipped_last + length src.current_packets + 1 < 2 ^ 32
    → (enqueue src f).0.skipped_overall + (enqueue src f).0.skipped_last
      ≡ src.skipped_overall + src.skipped_last + excess src.queue_size src.current_packets
unfolding enqueue
enqueue-skipped src f h l b =
    let i =
      drop_old_lem src.queue_size src.skipped_last src.current_packets (fresh src) h
        (ground arith) in
    let k = i.skipped_of ∙ small (excess src.queue_size src.current_packets) (omega arith) in
    skipped-sum src.skipped_overall src.skipped_last _ _ k (omega arith)
