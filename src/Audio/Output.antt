-- ===== src/Audio/Output.antt =====
-- `gst_aja_audio_src_create`, `gst_aja_audio_src_unlock`, `gst_aja_audio_src_unlock_stop` and
-- `gst_aja_audio_src_stop` of gst-plugin/aja/gstajaaudiosrc.cpp.
pub mod Counting
pub mod Drift
use ntv2_gst.Prelude.{
  ℕ, ◌+◌, ◌-◌, ◌*◌, ◌/◌, ◌%◌, ◌^◌, Bool, true, false, not, ◌&&◌, ◌||◌, ◌==◌, ltb, leb,
  if◌then◌else◌, Option, none, some, List, [], ◌∷◌, map,
}
use ntv2_gst.Capture.Worker.{AudioBuff, u64}
use ntv2_gst.Audio.Defs.{Packet, Input, AudioSrc, ClockMath, clock_time_none, second}

-- The QoS message that follows dropped frames.
pub record Qos : Type 0 where
  pub running_time : ℕ
  pub stream_time : ℕ
  pub timestamp : ℕ
  pub duration : ℕ
  pub processed : ℕ
  pub dropped : ℕ

-- What `create` sets of the buffer that it returns, and the message.
pub record Output : Type 0 where
  pub timestamp : ℕ
  pub duration : ℕ
  pub discont : Bool
  pub reference_time : ℕ
  pub qos : Option Qos

-- What a call comes to: it waits as long as no packet is queued.
pub data Flow : Type 0 where
  not_negotiated flushing waits : Flow
  ok : Output → Flow

-- A time or an offset that may be the one that stands for none.
unfoldable pub defined : ℕ → Option ℕ
defined n = if n == clock_time_none then none else some n

-- The difference of two 64-bit numbers, as the source computes it.
abbrev pub minus : ℕ → ℕ → ℕ
minus a b = u64 (a + 2 ^ 64 - b)

abbrev pub is_some {ℓ} : {A : Type ℓ} → Option A → Bool
is_some none = false
is_some (some _) = true

-- The distance of two offsets.
abbrev pub distance : ℕ → ℕ → ℕ
distance a b = if leb a b then b - a else a - b

-- Whether the distance calls for a resync, and the time that the drift began.
pub record Check : Type 0 where
  pub discont : Bool
  pub discont_time : Option ℕ

-- A packet beyond the threshold, by the time that the drift has lasted.
unfoldable pub drifting : ℕ → Option ℕ → ℕ → Check
drifting discont_wait none start_time =
    if ltb 0 discont_wait
    then record { discont = false; discont_time = defined start_time }
    else record { discont = true; discont_time = none }
drifting discont_wait (some t) start_time =
    if ltb 0 discont_wait
    then (if leb discont_wait (minus start_time t)
        then record { discont = true; discont_time = none }
        else record { discont = false; discont_time = some t })
    else record { discont = true; discont_time = some t }

module _ (m : ClockMath) where
  -- Whether a packet at an offset lies beyond the alignment threshold.
  unfoldable pub misaligned : AudioSrc → ℕ → ℕ → Bool
  misaligned src next start_offset =
      (ltb 0 src.alignment_threshold && not (src.alignment_threshold == clock_time_none))
      && leb (m.scale src.alignment_threshold src.rate second) (distance start_offset next)

  -- The check of a packet that no flag marks as discontinuous.
  unfoldable pub check_offset : AudioSrc → Option ℕ → ℕ → ℕ → Check
  check_offset src none start_offset start_time = record {
    discont = true;
    discont_time = src.discont_time;
  }
  check_offset src (some next) start_offset start_time =
      if misaligned src next start_offset
      then drifting src.discont_wait src.discont_time start_time
      else record { discont = false; discont_time = none }

  abbrev pub sample_count : AudioSrc → Packet → ℕ
  sample_count src p = p.audio_buff.audio_data_size / src.bpf

  abbrev pub start_offset : AudioSrc → Packet → ℕ
  start_offset src p = m.scale p.capture_time src.rate second

  abbrev pub start_time : AudioSrc → Packet → ℕ
  start_time src p = m.scale (start_offset src p) second src.rate

  abbrev pub end_offset : AudioSrc → Packet → ℕ
  end_offset src p = u64 (start_offset src p + sample_count src p)

  abbrev pub is_flagged : Packet → Bool
  is_flagged p = p.first_buffer || p.audio_buff.dropped_changed

  unfoldable pub check : AudioSrc → Packet → Check
  check src p =
      if is_flagged p
      then record { discont = true; discont_time = src.discont_time }
      else check_offset src src.next_offset (start_offset src p) (start_time src p)

  unfoldable pub qos_of : Input → AudioSrc → Packet → Option Qos
  qos_of input src p =
      if p.audio_buff.dropped_changed
      then some (record {
        running_time = m.running_time p.capture_time;
        stream_time = p.stream_time;
        timestamp = p.capture_time;
        duration = m.scale second input.fps_d input.fps_n;
        processed = minus p.audio_buff.frames_processed src.skipped_overall;
        dropped = u64 (p.audio_buff.frames_dropped + src.skipped_overall);
      })
      else none

  -- A buffer with the times of its packet, resynchronised or passed through.
  unfoldable pub from_capture : Input → AudioSrc → Packet → Bool → Output
  from_capture input src p discont = record {
    timestamp = p.capture_time;
    duration = minus (m.scale (end_offset src p) second src.rate) (start_time src p);
    discont = discont;
    reference_time = p.stream_time;
    qos = qos_of input src p;
  }

  -- A buffer with the times of the samples counted so far.
  unfoldable pub counted : Input → AudioSrc → Packet → ℕ → Output
  counted input src p next = record {
    timestamp = m.scale next second src.rate;
    duration =
        minus (m.scale (u64 (next + sample_count src p)) second src.rate)
          (m.scale next second src.rate);
    discont = false;
    reference_time = p.stream_time;
    qos = qos_of input src p;
  }

  -- The last part of the call, for a packet without a discontinuity.
  unfoldable pub continue_at : Input → AudioSrc → Packet → Option ℕ → AudioSrc × Output
  continue_at input src p none = (src, from_capture input src p false)
  continue_at input src p (some next) =
      if src.alignment_threshold == 0 then (src, from_capture input src p false) else (
        record src { next_offset = defined (u64 (next + sample_count src p)) },
        counted input src p next,
      )

  -- The times of a packet that has been taken from the queue.
  unfoldable pub stamp : Input → AudioSrc → Packet → AudioSrc × Output
  stamp input src p =
      let c = check src p in
      if c.discont
      then (
        record src { next_offset = defined (end_offset src p); discont_time = none },
        from_capture input src p true,
      )
      else continue_at input (record src { discont_time = c.discont_time }) p src.next_offset

  unfoldable pub pop : Input → AudioSrc → List Packet → AudioSrc × Flow
  pop input src [] = (src, waits)
  pop input src (p ∷ ps) =
      let r = stamp input (record src { current_packets = ps }) p in (r.0, ok r.1)

  -- `create`, for the result of `gst_aja_audio_src_start`.
  unfoldable pub create : Bool → Input → AudioSrc → AudioSrc × Flow
  create started input src =
      let r = pop input src src.current_packets in
      if started then (if src.flushing then (src, flushing) else r) else (src, not_negotiated)

abbrev pub unlock : AudioSrc → AudioSrc
unlock src = record src { flushing = true }

-- These give back the buffers of the queue.
abbrev pub unlock_stop : AudioSrc → AudioSrc × List AudioBuff
unlock_stop src = (
  record src { flushing = false; current_packets = [] },
  map (λ p. p.audio_buff) src.current_packets,
)

abbrev pub stop : AudioSrc → AudioSrc × List AudioBuff
stop src = (
  record src { had_signal = false; current_packets = [] },
  map (λ p. p.audio_buff) src.current_packets,
)

-- `gst_aja_audio_src_finalize`: it takes the packets that are left out of the queue, and gives their buffers
-- back if the input has its device object still, as `aja_capture_audio_packet_clear` asks.
abbrev pub finalize : Bool → AudioSrc → AudioSrc × List AudioBuff
finalize has_av src = (
  record src { current_packets = [] },
  if has_av then map (λ p. p.audio_buff) src.current_packets else [],
)
