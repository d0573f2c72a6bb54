-- ===== src/VideoSource/Timecode.antt =====
-- The timecode of a buffer, in `gst_aja_video_src_create` of gst-plugin/aja/gstajavideosrc.cpp. The masks of
-- the RP188 words are constants of the SDK, and parameters here.
pub mod Digits
use Prim.Native.Nat.{bit_and}
use ntv2_gst.Prelude.{
  ℕ, ◌+◌, ◌*◌, ◌/◌, ◌%◌, ◌^◌, Bool, true, false, ◌&&◌, ◌||◌, ◌==◌, if◌then◌else◌, Option, none,
  some,
}
use ntv2_gst.Mode.Defs.{Mode}
use ntv2_gst.Capture.Worker.{Rp188}

-- RP188_FRAMEUNITS_MASK and the others.
pub record Masks : Type 0 where
  pub frame_units : ℕ
  pub frame_tens : ℕ
  pub second_units : ℕ
  pub second_tens : ℕ
  pub minutes_units : ℕ
  pub minutes_tens : ℕ
  pub hour_units : ℕ
  pub hour_tens : ℕ

-- What `gst_video_time_code_init` is given.
pub record TimeCode : Type 0 where
  pub fps_n : ℕ
  pub fps_d : ℕ
  pub interlaced : Bool
  pub drop_frame : Bool
  pub hours : ℕ
  pub minutes : ℕ
  pub seconds : ℕ
  pub frames : ℕ
  pub field_count : ℕ

abbrev u8 : ℕ → ℕ
u8 n = n % 2 ^ 8

-- A number of two decimal digits: the tens behind a shift of 24 bits and the units behind one of 16, and
-- behind shifts of 8 and of none.
abbrev pub high_digits : ℕ → ℕ → ℕ → ℕ
high_digits tens units word = u8 (bit_and word tens / 2 ^ 24 * 10 + bit_and word units / 2 ^ 16)

abbrev pub low_digits : ℕ → ℕ → ℕ → ℕ
low_digits tens units word = u8 (bit_and word tens / 2 ^ 8 * 10 + bit_and word units)

-- The flag for drop-frame timecode: "Any better way to detect this?"
abbrev pub is_drop_frame : Mode → Bool
is_drop_frame mode = mode.fps_d == 1001 && (mode.fps_n == 30_000 || mode.fps_n == 60_000)

abbrev pub field_count_of : Mode → ℕ → ℕ
field_count_of mode aja_field_count =
    if mode.is_interlaced then (if aja_field_count == 0 then 2 else aja_field_count) else 0

unfoldable pub decode_timecode : Masks → Mode → ℕ → Rp188 → TimeCode
decode_timecode k mode aja_field_count t = record {
  fps_n = mode.fps_n;
  fps_d = mode.fps_d;
  interlaced = mode.is_interlaced;
  drop_frame = is_drop_frame mode;
  hours = high_digits k.hour_tens k.hour_units t.high;
  minutes = low_digits k.minutes_tens k.minutes_units t.high;
  seconds = high_digits k.second_tens k.second_units t.low;
  frames = low_digits k.frame_tens k.frame_units t.low;
  field_count = field_count_of mode aja_field_count;
}

-- The timecode that the buffer gets, for `gst_video_time_code_is_valid`.
unfoldable pub attach_timecode :
    Masks → (TimeCode → Bool) → Mode → ℕ → Option Rp188 → Option TimeCode
attach_timecode k is_valid mode aja_field_count none = none
attach_timecode k is_valid mode aja_field_count (some t) =
    let tc = decode_timecode k mode aja_field_count t in if is_valid tc then some tc else none
