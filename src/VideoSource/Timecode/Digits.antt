-- ===== src/VideoSource/Timecode/Digits.antt =====
-- RP188 words that are decoded.
use Prim.Native.Nat.{bit_and}
use ntv2_gst.Prelude.{ℕ, ◌+◌, ◌*◌, ◌/◌, ◌%◌, ◌^◌, ◌<◌, ◌≡◌, ap, ◌∙◌, arith}
use ntv2_gst.Prelude.Bits.{bit_and-3, bit_and-7, bit_and-15, bit_and-shift}
use ntv2_gst.Mode.Defs.{Mode}
use ntv2_gst.Capture.Worker.{Rp188}
use ntv2_gst.VideoSource.Timecode.{Masks, decode_timecode}

-- The masks of the SDK's header, which are those of SMPTE RP 188.
pub record IsRp188 (k : Masks) : Type 0 where
  pub frame_units_mask : k.frame_units ≡ 0xF
  pub frame_tens_mask : k.frame_tens ≡ 0x300
  pub second_units_mask : k.second_units ≡ 0xF0000
  pub second_tens_mask : k.second_tens ≡ 0x7000000
  pub minutes_units_mask : k.minutes_units ≡ 0xF
  pub minutes_tens_mask : k.minutes_tens ≡ 0x700
  pub hour_units_mask : k.hour_units ≡ 0xF0000
  pub hour_tens_mask : k.hour_tens ≡ 0x3000000

-- A word with a number in its lower half and one in its upper half, each as a digit of units and one of
-- tens, of 4 and of `w` bits. All other bits are free: a group of 4 behind each units, and what is left of
-- 16 behind each tens.
abbrev pub word_of : ℕ → ℕ → ℕ → ℕ → ℕ → ℕ → ℕ → ℕ → ℕ
word_of lower upper lower_bits upper_bits g1 g2 g3 g4 =
    lower % 10
    + 2 ^ 4 * g1
    + 2 ^ 8 * (lower / 10)
    + 2 ^ (8 + lower_bits) * g2
    + 2 ^ 16 * (upper % 10 + 2 ^ 4 * g3 + 2 ^ 8 * (upper / 10) + 2 ^ (8 + upper_bits) * g4)

-- The masks pick bits out of a word.
units_low : (x : ℕ) → bit_and x 0xF ≡ x % 16
units_low = bit_and-15

units_high : (x : ℕ) → bit_and x 0xF0000 / 2 ^ 16 ≡ x / 2 ^ 16 % 16
units_high x =
    let s = bit_and-shift 16 x 15 in let l = bit_and-15 (x / 2 ^ 16) in omega (arith, s, l)

two_bits_low : (x : ℕ) → bit_and x 0x300 / 2 ^ 8 ≡ x / 2 ^ 8 % 4
two_bits_low x = let s = bit_and-shift 8 x 3 in let l = bit_and-3 (x / 2 ^ 8) in omega (arith, s, l)

three_bits_low : (x : ℕ) → bit_and x 0x700 / 2 ^ 8 ≡ x / 2 ^ 8 % 8
three_bits_low x =
    let s = bit_and-shift 8 x 7 in let l = bit_and-7 (x / 2 ^ 8) in omega (arith, s, l)

two_bits_high : (x : ℕ) → bit_and x 0x3000000 / 2 ^ 24 ≡ x / 2 ^ 24 % 4
two_bits_high x =
    let s = bit_and-shift 24 x 3 in let l = bit_and-3 (x / 2 ^ 24) in omega (arith, s, l)

three_bits_high : (x : ℕ) → bit_and x 0x7000000 / 2 ^ 24 ≡ x / 2 ^ 24 % 8
three_bits_high x =
    let s = bit_and-shift 24 x 7 in let l = bit_and-7 (x / 2 ^ 24) in omega (arith, s, l)

-- A number from its two digits.
two_digits :
    (tens units n : ℕ) → tens ≡ n / 10 → units ≡ n % 10 → n < 100 → (tens * 10 + units) % 2 ^ 8 ≡ n
two_digits tens units n h k l = omega arith

seconds_and_frames :
    (frames seconds g1 g2 g3 g4 : ℕ)
    → frames < 40
    → seconds < 80
    → g1 < 2 ^ 4
    → g2 < 2 ^ 6
    → g3 < 2 ^ 4
    → let x = word_of frames seconds 2 3 g1 g2 g3 g4 in
      ((x % 16 ≡ frames % 10) × (x / 2 ^ 8 % 4 ≡ frames / 10))
      × ((x / 2 ^ 16 % 16 ≡ seconds % 10) × (x / 2 ^ 24 % 8 ≡ seconds / 10))
seconds_and_frames f s g1 g2 g3 g4 hf hs h1 h2 h3 =
    ((omega arith, omega arith), (omega arith, omega arith))

hours_and_minutes :
    (minutes hours g1 g2 g3 g4 : ℕ)
    → minutes < 80
    → hours < 40
    → g1 < 2 ^ 4
    → g2 < 2 ^ 5
    → g3 < 2 ^ 4
    → let x = word_of minutes hours 3 2 g1 g2 g3 g4 in
      ((x % 16 ≡ minutes % 10) × (x / 2 ^ 8 % 8 ≡ minutes / 10))
      × ((x / 2 ^ 16 % 16 ≡ hours % 10) × (x / 2 ^ 24 % 4 ≡ hours / 10))
hours_and_minutes f s g1 g2 g3 g4 hf hs h1 h2 h3 =
    ((omega arith, omega arith), (omega arith, omega arith))

-- The two words of a timecode, with eight groups of other bits.
abbrev pub words_of : ℕ → ℕ → ℕ → ℕ → ℕ → ℕ → ℕ → ℕ → ℕ → ℕ → ℕ → ℕ → ℕ → Rp188
words_of dbb hours minutes seconds frames g1 g2 g3 g4 g5 g6 g7 g8 = record {
  dbb = dbb;
  low = word_of frames seconds 2 3 g1 g2 g3 g4;
  high = word_of minutes hours 3 2 g5 g6 g7 g8;
}

-- A timecode is decoded to what was encoded. For the masks of the SDK, and hours below 40, minutes and
-- seconds below 80, and frames below 40, as binary-coded decimal digits in the two words of RP 188, where
-- the other bits are whatever they are, within their groups: decoding gives these hours, minutes, seconds
-- and frames.
pub decode_timecode-words_of :
    (k : Masks)
    → IsRp188 k
    → (mode : Mode) (aja_field_count dbb hours minutes seconds frames g1 g2 g3 g4 g5 g6 g7 g8 : ℕ)
    → hours < 40
    → minutes < 80
    → seconds < 80
    → frames < 40
    → g1 < 2 ^ 4
    → g2 < 2 ^ 6
    → g3 < 2 ^ 4
    → g5 < 2 ^ 4
    → g6 < 2 ^ 5
    → g7 < 2 ^ 4
    → let t =
        decode_timecode k mode aja_field_count
          (words_of dbb hours minutes seconds frames g1 g2 g3 g4 g5 g6 g7 g8) in
      ((t.hours ≡ hours) × (t.minutes ≡ minutes)) × ((t.seconds ≡ seconds) × (t.frames ≡ frames))
unfolding decode_timecode
decode_timecode-words_of k i mode fc dbb hh mm ss ff g1 g2 g3 g4 g5 g6 g7 g8 lh lm ls lf b1 b2 b3 b5
      b6 b7 =
    let x = word_of ff ss 2 3 g1 g2 g3 g4 in
    let y = word_of mm hh 3 2 g5 g6 g7 g8 in
    let l = seconds_and_frames ff ss g1 g2 g3 g4 lf ls b1 b2 b3 in
    let h = hours_and_minutes mm hh g5 g6 g7 g8 lm lh b5 b6 b7 in
    (
      (
        two_digits _ _ hh
            (ap (λ m. bit_and y m / 2 ^ 24) i.hour_tens_mask ∙ two_bits_high y ∙ h.1.1)
            (ap (λ m. bit_and y m / 2 ^ 16) i.hour_units_mask ∙ units_high y ∙ h.1.0) (omega arith),
        two_digits _ _ mm
            (ap (λ m. bit_and y m / 2 ^ 8) i.minutes_tens_mask ∙ three_bits_low y ∙ h.0.1)
            (ap (λ m. bit_and y m) i.minutes_units_mask ∙ units_low y ∙ h.0.0) (omega arith),
      ),
      (
        two_digits _ _ ss
            (ap (λ m. bit_and x m / 2 ^ 24) i.second_tens_mask ∙ three_bits_high x ∙ l.1.1)
            (ap (λ m. bit_and x m / 2 ^ 16) i.second_units_mask ∙ units_high x ∙ l.1.0)
            (omega arith),
        two_digits _ _ ff (ap (λ m. bit_and x m / 2 ^ 8) i.frame_tens_mask ∙ two_bits_low x ∙ l.0.1)
            (ap (λ m. bit_and x m) i.frame_units_mask ∙ units_low x ∙ l.0.0) (omega arith),
      ),
    )
