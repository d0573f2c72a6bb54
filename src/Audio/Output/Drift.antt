-- ===== src/Audio/Output/Drift.antt =====
-- The check of the counted offset against the captured time.
use ntv2_gst.Prelude.{
  ℕ, ◌≤◌, Bool, true, false, if◌then◌else◌, Option, none, some, ◌≡◌, ◌≢◌, refl, ap, ◌∙◌, sym, ◌↔◌,
  arith, if-false,
}
use ntv2_gst.Audio.Defs.{Packet, Input, AudioSrc, ClockMath, clock_time_none, second}
use ntv2_gst.Audio.Output.{
  Output, Check, stamp, check, check_offset, misaligned, drifting, continue_at, counted,
  from_capture, qos_of, start_offset, start_time, distance, minus, is_flagged,
}

-- How long a drift has lasted at a time.
abbrev pub lasted : Option ℕ → ℕ → ℕ
lasted none s = 0
lasted (some t) s = minus s t

drifting_iff :
    (wait : ℕ) (since : Option ℕ) (s : ℕ)
    → ((drifting wait since s).discont ≡ true) ↔ (wait ≤ lasted since s)
unfolding drifting
drifting_iff wait none s = ground arith
drifting_iff wait (some t) s = ground arith

continue_at-discont :
    (m : ClockMath) (input : Input) (src : AudioSrc) (p : Packet) (next : Option ℕ)
    → (continue_at m input src p next).1.discont ≡ false
unfolding continue_at from_capture counted qos_of
continue_at-discont m input src p none = refl
continue_at-discont m input src p (some next) = ground arith

chosen :
    (b : Bool) (x y : AudioSrc × Output)
    → x.1.discont ≡ true
    → y.1.discont ≡ false
    → (if b then x else y).1.discont ≡ b
chosen true x y h k = h
chosen false x y h k = k

stamp-discont :
    (m : ClockMath) (input : Input) (src : AudioSrc) (p : Packet)
    → (stamp m input src p).1.discont ≡ (check m src p).discont
unfolding stamp from_capture qos_of
stamp-discont m input src p = chosen (check m src p).discont _ _ refl (
    continue_at-discont m input (record src { discont_time = (check m src p).discont_time }) p
      src.next_offset)

misaligned_iff :
    (m : ClockMath) (src : AudioSrc) (next o : ℕ)
    → src.alignment_threshold ≢ 0
    → src.alignment_threshold ≢ clock_time_none
    → (misaligned m src next o ≡ true)
      ↔ (m.scale src.alignment_threshold src.rate second ≤ distance o next)
unfolding misaligned
misaligned_iff m src next o h k = ground arith

both :
    (b : Bool) (c : Check) (d : Option ℕ) (A B : Type 0)
    → (b ≡ true) ↔ A
    → (c.discont ≡ true) ↔ B
    → ((if b then c else record { discont = false; discont_time = d }).discont ≡ true) ↔ (A × B)
both true c d A B f g = (λ h. (f.0 refl, g.0 h), λ h. g.1 h.1)
both false c d A B f g = (λ h. absurd (ground arith), λ h. f.1 h.0)

check-drift :
    (m : ClockMath) (src : AudioSrc) (next o t : ℕ)
    → src.alignment_threshold ≢ 0
    → src.alignment_threshold ≢ clock_time_none
    → ((check_offset m src (some next) o t).discont ≡ true) ↔ (
        (m.scale src.alignment_threshold src.rate second ≤ distance o next)
        × (src.discont_wait ≤ lasted src.discont_time t))
unfolding check_offset
check-drift m src next o t h k =
    both (misaligned m src next o) (drifting src.discont_wait src.discont_time t) none _ _
      (misaligned_iff m src next o h k) (drifting_iff src.discont_wait src.discont_time t)

check-unflagged :
    (m : ClockMath) (src : AudioSrc) (p : Packet) (next : ℕ)
    → src.next_offset ≡ some next
    → is_flagged m p ≡ false
    → check m src p ≡ check_offset m src (some next) (start_offset m src p) (start_time m src p)
unfolding check
check-unflagged m src p next h k =
    if-false _ _ k ∙ ap (λ n. check_offset m src n (start_offset m src p) (start_time m src p)) h

along : {A : Type 0} {b c : Bool} → b ≡ c → (c ≡ true) ↔ A → (b ≡ true) ↔ A
along e f = (λ h. f.0 (sym e ∙ h), λ a. e ∙ f.1 a)

-- With an alignment threshold that is neither 0 nor none, a packet that no flag marks, behind a known
-- offset, makes a resync exactly when its captured offset lies at least the threshold, in samples, from the
-- counted one, and the drift has lasted for at least the discont-wait; a drift that begins with the packet
-- has lasted for no time. Otherwise the buffer is not marked discontinuous.
pub stamp-drift_iff :
    (m : ClockMath) (input : Input) (src : AudioSrc) (p : Packet) (next : ℕ)
    → src.next_offset ≡ some next
    → is_flagged m p ≡ false
    → src.alignment_threshold ≢ 0
    → src.alignment_threshold ≢ clock_time_none
    → ((stamp m input src p).1.discont ≡ true) ↔ (
        (m.scale src.alignment_threshold src.rate second ≤ distance (start_offset m src p) next)
        × (src.discont_wait ≤ lasted src.discont_time (start_time m src p)))
stamp-drift_iff m input src p next h flag t0 t1 =
    along (stamp-discont m input src p ∙ ap (λ c. c.discont) (check-unflagged m src p next h flag))
      (check-drift m src next (start_offset m src p) (start_time m src p) t0 t1)
