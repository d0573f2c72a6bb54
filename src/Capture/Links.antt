-- ===== src/Capture/Links.antt =====
-- The two format switches of gst-plugin/aja/gstntv2.cpp against the names of the formats: the one of
-- `Init` from a picture to its four links, and the one of `ACInputWorker` from the links to one of them.
use mathlib.Core.Option
use ntv2_gst.Prelude.{◌*◌, ◌≡◌, ◌≢◌, ◌⊎◌, ◌↔◌, refl, some, arith}
use ntv2_gst.Video.Format.{VideoFormat}
use ntv2_gst.Video.Nominal.{Size, nominal_rate, nominal_size}
use ntv2_gst.Capture.Formats.{quad_format, link_format}

-- Mapping a format to four links, where `Init` does, keeps its raster and its frame rate.
quad_format-nominal :
    (f g : VideoFormat)
    → quad_format f ≡ some g
    → (nominal_size g ≡ nominal_size f) × (nominal_rate g ≡ nominal_rate f)
unfolding quad_format
quad_format-nominal VideoFormat.format_unknown g h = cc
quad_format-nominal _ g h = ground arith

abbrev pub double : Size → Size
double s = record { width = 2 * s.width; height = 2 * s.height }

-- Where one link differs in format from the four, it has their frame rate and half their width and
-- height.
link_format-nominal :
    (g : VideoFormat)
    → link_format g ≢ g
    → (nominal_rate (link_format g) ≡ nominal_rate g)
      × (Option.map double (nominal_size (link_format g)) ≡ nominal_size g)
unfolding link_format
link_format-nominal VideoFormat.format_unknown h = absurd (h refl)
link_format-nominal _ h = ground arith

-- The formats with a format of four links for which `ACInputWorker` does not reduce the four to one are
-- exactly the 4096x2160 ones of 119.88 and 120 frames a second.
quad-link_format :
    (f g : VideoFormat)
    → quad_format f ≡ some g
    → (link_format g ≡ g)
      ↔ ((f ≡ VideoFormat.format_4096x2160p_11988) ⊎ (f ≡ VideoFormat.format_4096x2160p_12000))
unfolding quad_format link_format
quad-link_format VideoFormat.format_unknown g h = cc
quad-link_format _ g h = ground arith
