-- ===== src/Audio/Output/Counting.antt =====
-- The buffers between two resyncs: their timestamps count samples.
use ntv2_gst.Prelude.{
  ℕ, ◌+◌, ◌/◌, ◌^◌, ◌<◌, ◌≤◌, Bool, true, false, not, ◌&&◌, ◌==◌, if◌then◌else◌, some, List, [],
  ◌∷◌, map, ◌≡◌, refl, sym, ap, ◌∙◌, ◌≢◌, arith, if-false,
}
use ntv2_gst.Audio.Defs.{Packet, Input, AudioSrc, ClockMath, clock_time_none, second}
use ntv2_gst.Audio.Output.{
  Output, stamp, check, continue_at, counted, from_capture, qos_of, sample_count, defined, minus,
}
use ntv2_gst.Capture.Worker.{u64}

-- The successive calls of `create` for the packets of a list.
unfoldable pub stamps : ClockMath → Input → AudioSrc → List Packet → AudioSrc × List Output
stamps m input src [] = (src, [])
stamps m input src (p ∷ ps) =
    let r = stamp m input src p in let rest = stamps m input r.0 ps in (rest.0, r.1 ∷ rest.1)

abbrev pub all_continuous : List Output → Bool
all_continuous [] = true
all_continuous (o ∷ os) = not o.discont && all_continuous os

-- Consecutive runs of samples, each by its first offset and the offset behind it.
abbrev pub spans : ℕ → List ℕ → List (ℕ × ℕ)
spans o [] = []
spans o (c ∷ cs) = (o, o + c) ∷ spans (o + c) cs

abbrev pub total : List ℕ → ℕ
total [] = 0
total (c ∷ cs) = c + total cs

small : (n : ℕ) → n < clock_time_none → u64 n ≡ n
small n h = ground arith

defined-below : (n : ℕ) → n < clock_time_none → defined (u64 n) ≡ some n
unfolding defined
defined-below n h = ground arith

-- A result that is not the discontinuous one of two.
else_of :
    (b : Bool) (x y : AudioSrc × Output)
    → x.1.discont ≡ true
    → (if b then x else y).1.discont ≡ false
    → (if b then x else y) ≡ y
else_of true x y h k = ground arith
else_of false x y h k = refl

test_false : (n : ℕ) → n ≢ 0 → (n == 0) ≡ false
test_false n h = ground arith

stamp-continuous :
    (m : ClockMath) (input : Input) (src : AudioSrc) (p : Packet) (next : ℕ)
    → src.next_offset ≡ some next
    → src.alignment_threshold ≢ 0
    → (stamp m input src p).1.discont ≡ false
    → stamp m input src p ≡ (
      record src {
        next_offset = defined (u64 (next + sample_count m src p));
        discont_time = (check m src p).discont_time;
      },
      counted m input src p next,
    )
unfolding stamp continue_at counted from_capture qos_of
stamp-continuous m input src p next h k d =
    else_of (check m src p).discont _ _ refl d
    ∙ ap (continue_at m input (record src { discont_time = (check m src p).discont_time }) p) h
    ∙ if-false _ _ (test_false src.alignment_threshold k)

-- The sample counts of the packets.
abbrev pub counts : ℕ → List Packet → List ℕ
counts bpf [] = []
counts bpf (p ∷ ps) = p.audio_buff.audio_data_size / bpf ∷ counts bpf ps

and-left : (a b : Bool) → (not a && b) ≡ true → a ≡ false
and-left a b h = ground arith

and-right : (a b : Bool) → (not a && b) ≡ true → b ≡ true
and-right a b h = ground arith

-- What `gst_util_uint64_scale` promises: it is monotone in its first argument, and its result, which is
-- cut at the largest 64-bit number, is one.
pub record IsScale (m : ClockMath) : Type 0 where
  pub monotone : (a b num den : ℕ) → a ≤ b → m.scale a num den ≤ m.scale b num den
  pub bounded : (a num den : ℕ) → m.scale a num den < 2 ^ 64

minus-cancel : (a b : ℕ) → a ≤ b → b < 2 ^ 64 → a + minus b a ≡ b
minus-cancel a b h k = ground arith

abbrev pub span_of : Output → ℕ × ℕ
span_of o = (o.timestamp, o.timestamp + o.duration)

counted-span :
    (m : ClockMath) (input : Input) (src : AudioSrc) (p : Packet) (next : ℕ)
    → IsScale m
    → next + sample_count m src p < clock_time_none
    → span_of (counted m input src p next)
      ≡ (m.scale next second src.rate, m.scale (next + sample_count m src p) second src.rate)
unfolding counted qos_of
counted-span m input src p next i h =
    ap
      (λ e. (
        m.scale next second src.rate,
        m.scale next second src.rate
            + minus (m.scale e second src.rate) (m.scale next second src.rate),
      ))
      (small (next + sample_count m src p) h)
    ∙ ap (λ t. (m.scale next second src.rate, t))
        (minus-cancel _ _
          (i.monotone next (next + sample_count m src p) second src.rate (omega arith))
          (i.bounded _ _ _))

-- Between two resyncs the buffers hold consecutive runs of samples. For a scaling that is monotone and
-- below 2 ^ 64, behind a known offset, with an alignment threshold that is not 0, and as long as no
-- buffer is marked discontinuous and the offsets stay below the one that stands for none, each buffer
-- starts at the time of its first sample, counted from that offset, and ends at the time of the sample
-- behind its last one, and the offset kept is the one behind them all.
pub stamps-span_of :
    (m : ClockMath)
    → IsScale m
    → (input : Input) (ps : List Packet) (src : AudioSrc) (next : ℕ) → src.next_offset ≡ some next
    → src.alignment_threshold ≢ 0
    → next + total (counts src.bpf ps) < clock_time_none
    → all_continuous (stamps m input src ps).1 ≡ true
    → (map span_of (stamps m input src ps).1
        ≡ map
            (λ s. (m.scale s.0 second src.rate, m.scale s.1 second src.rate))
            (spans next (counts src.bpf ps)))
      × ((stamps m input src ps).0.next_offset ≡ some (next + total (counts src.bpf ps)))
unfolding stamps
stamps-span_of m i input [] src next h k lt c = (refl, h ∙ ap (λ n. some n) (omega arith))
stamps-span_of m i input (p ∷ ps) src next h k lt c =
    let eq =
      stamp-continuous m input src p next h k (and-left (stamp m input src p).1.discont _ c) in
    let n = sample_count m src p in
    let src' : AudioSrc = record src {
      next_offset = defined (u64 (next + n));
      discont_time = (check m src p).discont_time;
    } in
    let ih =
      stamps-span_of m i input ps src' (next + n) (defined-below (next + n) (omega arith)) k
        (omega arith)
        (ap (λ r. all_continuous (stamps m input r.0 ps).1) (sym eq)
          ∙ and-right (stamp m input src p).1.discont _ c) in
    (
      ap (λ r. span_of r.1 ∷ map span_of (stamps m input r.0 ps).1) eq
          ∙ ap (λ s. s ∷ map span_of (stamps m input src' ps).1)
              (counted-span m input src p next i (omega arith))
          ∙ ap (λ l. (m.scale next second src.rate, m.scale (next + n) second src.rate) ∷ l) ih.0,
      ap (λ r. (stamps m input r.0 ps).0.next_offset) eq ∙ ih.1 ∙ ap (λ k. some k) (omega arith),
    )
