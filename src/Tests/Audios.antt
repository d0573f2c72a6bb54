-- ===== src/Tests/Audios.antt =====
-- Runs for the audio source.
use native.Mathlib.Nat.{le-div_iff_mul-le, div-mul-le_self, mul-le-mul_right}
use ntv2_gst.Prelude.{
  take, drop, length, ◌≤◌, ℕ, zero, suc, ◌*◌, ◌/◌, ◌≤◌, ◌≡◌, ◌↔◌, refl, true, false, some, none,
  List, [], ◌∷◌, ◌++◌, map, arith,
}
use ntv2_gst.Audio.Defs.{second}
use ntv2_gst.Audio.Receive.{enqueue}
use ntv2_gst.Audio.Receive.Oldest.{buffs, mark_if, enqueue-oldest}
use ntv2_gst.Audio.Output.{
  stamp, check, check_offset, misaligned, continue_at, counted, defined, start_offset, start_time,
  distance,
}
use ntv2_gst.Audio.Output.Counting.{
  IsScale, stamps, stamps-span_of, span_of, all_continuous, spans, counts,
}
use ntv2_gst.Audio.Output.Drift.{lasted, stamp-drift_iff}
use ntv2_gst.Audio.Ledger.{Call, callback, create_call, unlock_call, unlock_stop_call}
use ntv2_gst.Audio.Ledger.Life.{IsReturned, stopped, stopped-IsReturned}
use ntv2_gst.Audio.Ledger.Order.{numbers, outputs, audio_outputs-Sublist}
use ntv2_gst.Prelude.Sublist.{Sublist}
use ntv2_gst.Audio.Ledger.Balance.{calls, arrivals}
use ntv2_gst.Tests.Data.{test_src, test_input, test_packet, test_buff, test_math}

div_mono : (a b k : ℕ) → a ≤ b → a / k ≤ b / k
div_mono a b zero h = omega arith
div_mono a b (suc k) h =
    let low = div-mul-le_self a (suc k) in
    (le-div_iff_mul-le {k = suc k} {x = a / suc k} {y = b} (omega arith)).1 (omega arith)

test_math-IsScale : IsScale test_math
test_math-IsScale = record {
  monotone = λ a b num den h.
      let q = div_mono (a * num) (b * num) den (mul-le-mul_right num h) in omega arith;
  bounded = λ a num den. omega arith;
}

test_continuous :
    all_continuous (stamps test_math test_input test_src (test_packet 1 ∷ test_packet 2 ∷ [])).1
    ≡ true
unfolding stamps stamp check check_offset misaligned continue_at counted defined
test_continuous = refl

stamps-span_of_example :
    (map span_of (stamps test_math test_input test_src (test_packet 1 ∷ test_packet 2 ∷ [])).1
      ≡ map
          (λ s.
            (test_math.scale s.0 second test_src.rate, test_math.scale s.1 second test_src.rate))
          (spans 1920 (counts test_src.bpf (test_packet 1 ∷ test_packet 2 ∷ []))))
    × ((stamps test_math test_input test_src (test_packet 1 ∷ test_packet 2 ∷ [])).0.next_offset
        ≡ some 5760)
stamps-span_of_example =
    stamps-span_of test_math test_math-IsScale test_input (test_packet 1 ∷ test_packet 2 ∷ [])
      test_src 1920 refl (omega arith) (omega arith) test_continuous

stamp-drift_iff_example :
    ((stamp test_math test_input test_src (test_packet 3)).1.discont ≡ true) ↔ (
      (test_math.scale test_src.alignment_threshold test_src.rate second
        ≤ distance (start_offset test_math test_src (test_packet 3)) 1920)
      × (test_src.discont_wait
          ≤ lasted test_src.discont_time (start_time test_math test_src (test_packet 3))))
stamp-drift_iff_example =
    stamp-drift_iff test_math test_input test_src (test_packet 3) 1920 refl refl (omega arith)
      (omega arith)

enqueue-oldest_example :
    ((enqueue test_src (test_packet 3)).1 ≡ buffs (take 1 test_src.current_packets))
    × (((enqueue test_src (test_packet 3)).0.current_packets
          ≡ drop 1 test_src.current_packets ++ mark_if false (test_packet 3) ∷ [])
        × (length (enqueue test_src (test_packet 3)).0.current_packets ≤ 2))
enqueue-oldest_example = enqueue-oldest test_src (test_packet 3) (omega arith) (omega arith)

abbrev test_calls : List Call
test_calls =
    callback (some (test_buff 30))
    ∷ create_call true
    ∷ callback (some (test_buff 10))
    ∷ callback none
    ∷ unlock_call
    ∷ callback (some (test_buff 31))
    ∷ unlock_stop_call
    ∷ []

stopped-IsReturned_example :
    IsReturned 30 2
      (arrivals test_calls)
      (buffs test_src.current_packets)
      (calls test_math test_src test_input test_calls)
      (stopped test_math test_src test_input test_calls)
      false
stopped-IsReturned_example =
    stopped-IsReturned test_math 30 test_calls test_src test_input false (omega arith) (omega arith)
      (omega arith)

audio_outputs-Sublist_example :
    Sublist
      (numbers (outputs test_math test_src test_input test_calls))
      (numbers (buffs test_src.current_packets) ++ numbers (arrivals test_calls))
audio_outputs-Sublist_example =
    audio_outputs-Sublist test_math test_calls test_src test_input (omega arith) (omega arith)
      (omega arith)
