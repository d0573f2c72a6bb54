-- ===== src/VideoSource/Color.antt =====
-- The colorimetry of the caps, in `gst_aja_video_src_create` of gst-plugin/aja/gstajavideosrc.cpp, for a
-- GStreamer of version 1.17 or later.
use ntv2_gst.Prelude.{ℕ, Bool, true, false, ◌&&◌, ◌||◌, ◌==◌, ltb, if◌then◌else◌}
use ntv2_gst.Capture.Vpid.{Color}
use ntv2_gst.VideoSource.Defs.{
  VideoInfo, matrix_bt601, matrix_bt709, matrix_bt2020, primaries_smpte170m, primaries_bt709,
  primaries_bt2020, transfer_arib_std_b67, transfer_smpte2084,
}

-- SDR-TV and what is unspecified leave the transfer function of the caps.
abbrev pub set_transfer : ℕ → VideoInfo → VideoInfo
set_transfer t info =
    if t == 1
    then record info { transfer = transfer_arib_std_b67 }
    else if t == 2
    then record info { transfer = transfer_smpte2084 }
    else info

abbrev pub with_bt2020 : VideoInfo → VideoInfo
with_bt2020 info = record info { matrix = matrix_bt2020; primaries = primaries_bt2020 }

abbrev pub set_by_height : VideoInfo → VideoInfo
set_by_height info =
    if ltb info.height 720
    then record info { matrix = matrix_bt601; primaries = primaries_smpte170m }
    else if ltb info.height 2160
    then record info { matrix = matrix_bt709; primaries = primaries_bt709 }
    else with_bt2020 info

abbrev pub set_matrix : Color → VideoInfo → VideoInfo
set_matrix c info =
    if c.colorimetry == 0
    then set_by_height info
    else if c.colorimetry == 2
    then with_bt2020 info
    else if c.transfer_characteristics == 1 || c.transfer_characteristics == 2
    then with_bt2020 info
    else info

-- The info of the caps, with the colour of a buffer.
unfoldable pub set_color : Color → VideoInfo → VideoInfo
set_color c info = record (set_matrix c (set_transfer c.transfer_characteristics info)) {
  full_range = c.full_range;
}

abbrev same_bool : Bool → Bool → Bool
same_bool true b = b
same_bool false true = false
same_bool false false = true

-- Whether the buffer's colour is that of the caps.
abbrev pub same_color : Color → Color → Bool
same_color c d =
    c.transfer_characteristics == d.transfer_characteristics
    && (c.colorimetry == d.colorimetry && same_bool c.full_range d.full_range)
