-- ===== src/Mode/Defs.antt =====
-- The rows of the mode table: `struct _GstAjaMode` of gst-plugin/aja/gstaja.h, and the macros of
-- gst-plugin/aja/gstaja.cpp that fill its columns.
use ntv2_gst.Prelude.{ℕ, Bool, true, false}
use ntv2_gst.Video.Format.{VideoFormat}

-- The colorimetry strings of the table.
pub data Colorimetry : Type 0 where
  bt601 bt709 bt2020 : Colorimetry

pub record Mode : Type 0 where
  pub video_format : VideoFormat
  pub width : ℕ
  pub height : ℕ
  pub bit_depth : ℕ
  pub is_rgba : Bool
  pub fps_n : ℕ
  pub fps_d : ℕ
  pub is_interlaced : Bool
  pub is_422 : Bool
  pub par_n : ℕ
  pub par_d : ℕ
  pub is_tff : Bool
  pub colorimetry : Colorimetry

-- The last four columns, which the macros NTSC, PAL, HD and UHD give.
pub record Standard : Type 0 where
  pub par_n : ℕ
  pub par_d : ℕ
  pub is_tff : Bool
  pub colorimetry : Colorimetry

abbrev pub ntsc : Standard
ntsc = record { par_n = 10; par_d = 11; is_tff = false; colorimetry = bt601 }

abbrev pub pal : Standard
pal = record { par_n = 12; par_d = 11; is_tff = true; colorimetry = bt601 }

abbrev pub hd : Standard
hd = record { par_n = 1; par_d = 1; is_tff = true; colorimetry = bt709 }

abbrev pub uhd : Standard
uhd = record { par_n = 1; par_d = 1; is_tff = true; colorimetry = bt2020 }

-- The macros YUV and RGBA.
abbrev pub yuv : Bool
yuv = false

abbrev pub rgba : Bool
rgba = true

-- A row, in the order of the table's columns.
abbrev pub row : VideoFormat → ℕ → ℕ → ℕ → Bool → ℕ → ℕ → Bool → Bool → Standard → Mode
row f w h bits is_rgba n d interlaced is_422 s = record {
  video_format = f;
  width = w;
  height = h;
  bit_depth = bits;
  is_rgba = is_rgba;
  fps_n = n;
  fps_d = d;
  is_interlaced = interlaced;
  is_422 = is_422;
  par_n = s.par_n;
  par_d = s.par_d;
  is_tff = s.is_tff;
  colorimetry = s.colorimetry;
}
