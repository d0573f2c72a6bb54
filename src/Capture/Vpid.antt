-- ===== src/Capture/Vpid.antt =====
-- The decoding of the SDI payload identifier in `NTV2GstAV::ACInputWorker` of
-- gst-plugin/aja/gstntv2.cpp. An identifier is the number of its 32 bits; `x & 3` is `x % 4`, and `x & 9`
-- is written out by its two bits.
use ntv2_gst.Prelude.{
  ℕ, ◌+◌, ◌*◌, ◌/◌, ◌%◌, ◌^◌, ◌≤◌, ◌≡◌, ◌⊎◌, Bool, true, false, ◌&&◌, ◌||◌, not, ◌==◌,
  if◌then◌else◌, List, [], ◌∷◌, arith,
}

-- SDR-TV 0, HLG 1, PQ 2, unspecified 3; Rec 709 0, VANC 1, UHDTV 2, unspecified 3.
pub record Color : Type 0 where
  pub transfer_characteristics : ℕ
  pub colorimetry : ℕ
  pub full_range : Bool

abbrev pub unspecified : Color
unspecified = record { transfer_characteristics = 3; colorimetry = 3; full_range = false }

abbrev and_9 : ℕ → ℕ
and_9 x = x / 8 % 2 * 8 + x % 2

-- The case labels of the switch on the top byte, by the group of statements that they lead to.
pub data Layout : Type 0 where
  bare split_bit_1 split_low plain_low fixed_low other : Layout

abbrev one_of : ℕ → List ℕ → Bool
one_of x [] = false
one_of x (y ∷ ys) = x == y || one_of x ys

unfoldable pub layout_of : ℕ → Layout
layout_of id =
    if one_of id (
      0x81 ∷ 0x82 ∷ 0x83 ∷ 0x86 ∷ 0x84 ∷ 0x8B ∷ 0x8D ∷ 0xB1 ∷ 0x8E ∷ 0x8F ∷ 0x90 ∷ 0x91 ∷ 0x92
      ∷ 0x93 ∷ 0xA0 ∷ 0xB0 ∷ 0xB2 ∷ 0xB3 ∷ 0xB4 ∷ 0xB5 ∷ [])
    then bare
    else if one_of id (0x85 ∷ 0x8C ∷ [])
    then split_bit_1
    else if one_of id (0x87 ∷ 0x8A ∷ 0x95 ∷ 0x96 ∷ 0x98 ∷ 0x9A ∷ 0x9B ∷ [])
    then split_low
    else if one_of id (
        0x88 ∷ 0x89 ∷ 0x94 ∷ 0x97 ∷ 0x99 ∷ 0xC0 ∷ 0xC2 ∷ 0xF3 ∷ 0xC4 ∷ 0xC5 ∷ 0xCE ∷ 0xCF ∷ 0xD0
        ∷ 0xD1 ∷ 0xD2 ∷ 0xD3 ∷ [])
    then plain_low
    else if one_of id (0xA1 ∷ 0xA2 ∷ 0xA5 ∷ 0xA6 ∷ 0xC1 ∷ [])
    then fixed_low
    else other

abbrev transfer_bits : ℕ → ℕ
transfer_bits v = v / 2 ^ 20 % 4

-- The ladder on `colorimetry`, which leaves the preset 3 on any other value.
abbrev split_colorimetry : ℕ → ℕ
split_colorimetry v =
    let c = and_9 (v / 2 ^ 12) in
    if c == 0x00 then 0 else if c == 0x01 then 1 else if c == 0x08 then 2 else 3

abbrev low_range : ℕ → Bool
low_range v = v % 4 == 0 || v % 4 == 3

abbrev decode_layout : Layout → ℕ → Color
decode_layout split_bit_1 v = record {
  transfer_characteristics = transfer_bits v;
  colorimetry = split_colorimetry v;
  full_range = v / 2 % 2 == 1;
}
decode_layout split_low v = record {
  transfer_characteristics = transfer_bits v;
  colorimetry = split_colorimetry v;
  full_range = low_range v;
}
decode_layout plain_low v = record {
  transfer_characteristics = transfer_bits v;
  colorimetry = v / 2 ^ 12 % 4;
  full_range = low_range v;
}
decode_layout fixed_low v = record {
  transfer_characteristics = transfer_bits v;
  colorimetry = 3;
  full_range = low_range v;
}
decode_layout bare v = unspecified
decode_layout other v = unspecified

-- The whole block: `is_sdi` is the test of `mVideoSource`.
unfoldable pub decode_vpid : Bool → ℕ → Color
decode_vpid is_sdi v =
    if is_sdi && not (v == 0)
    then (if v / 2 ^ 31 % 2 == 1 then decode_layout (layout_of (v / 2 ^ 24)) v else unspecified)
    else unspecified

decode_layout_bounds :
    (l : Layout) (v : ℕ)
    → ((decode_layout l v).transfer_characteristics ≤ 3) × ((decode_layout l v).colorimetry ≤ 3)
decode_layout_bounds bare v = ground arith
decode_layout_bounds split_bit_1 v = ground arith
decode_layout_bounds _ v = ground arith

-- Whatever identifier is read, the decoded characteristics are among the four that are defined.
decode_vpid_bounds :
    (is_sdi : Bool) (v : ℕ)
    → ((decode_vpid is_sdi v).transfer_characteristics ≤ 3)
      × ((decode_vpid is_sdi v).colorimetry ≤ 3)
unfolding decode_vpid
decode_vpid_bounds is_sdi v = ground (arith, decode_layout_bounds (layout_of (v / 2 ^ 24)) v)

split_colorimetry-bits : (v : ℕ) → split_colorimetry v ≡ v / 2 ^ 12 % 2 + 2 * (v / 2 ^ 15 % 2)
split_colorimetry-bits v = ground arith

-- For an SDI source and a modern identifier whose top byte has a split layout, the colorimetry is the
-- number whose low bit is bit 12 and whose high bit is bit 15 of the identifier, and the transfer
-- characteristics are its bits 20 and 21.
decode_vpid-split :
    (v : ℕ)
    → v / 2 ^ 31 % 2 ≡ 1
    → (layout_of (v / 2 ^ 24) ≡ split_bit_1) ⊎ (layout_of (v / 2 ^ 24) ≡ split_low)
    → ((decode_vpid true v).colorimetry ≡ v / 2 ^ 12 % 2 + 2 * (v / 2 ^ 15 % 2))
      × ((decode_vpid true v).transfer_characteristics ≡ v / 2 ^ 20 % 2 + 2 * (v / 2 ^ 21 % 2))
unfolding decode_vpid
decode_vpid-split v modern l = ground (arith, split_colorimetry-bits v)
