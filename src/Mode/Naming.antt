-- ===== src/Mode/Naming.antt =====
-- The name of a mode computed from its row: what the nicks of gst-plugin/aja/gstaja.cpp describe.
use Prim.Native.String.{String, ◌++◌}
use ntv2_gst.Prelude.{ℕ, Bool, true, false, ◌==◌, if◌then◌else◌}
use ntv2_gst.Mode.Defs.{Mode}

-- The raster: its height and, for the 4k rasters, its width.
abbrev pub raster_name : ℕ → ℕ → String
raster_name w h =
    if h == 720
    then "720"
    else if h == 1080
    then "1080"
    else if w == 3840
    then "UHD"
    else if w == 4096
    then "4K"
    else if w == 7680
    then "UHD2"
    else "8K"

-- The rate of pictures: of frames, or of fields where the mode is interlaced.
abbrev pub rate_name : ℕ → ℕ → Bool → String
rate_name n d false =
    if d == 1001
    then (if n == 24000
        then "2398"
        else if n == 30000
        then "2997"
        else if n == 48000
        then "4795"
        else if n == 60000
        then "5994"
        else if n == 120000
        then "11988"
        else "?")
    else (if n == 24
        then "24"
        else if n == 25
        then "25"
        else if n == 30
        then "30"
        else if n == 48
        then "48"
        else if n == 50
        then "50"
        else if n == 60
        then "60"
        else if n == 120
        then "120"
        else "?")
rate_name n d true = if d == 1001 then "5994" else (if n == 25 then "50" else "60")

abbrev pub depth_name : ℕ → Bool → String
depth_name bits true = "-rgba"
depth_name bits false = if bits == 10 then "-10" else ""

abbrev pub sd_name : Mode → String
sd_name m =
    if m.par_n == 12
    then "pal"
    else if m.fps_n == 24000
    then "ntsc-2398"
    else if m.fps_n == 24
    then "ntsc-24"
    else "ntsc"

-- For example `720p5994-rgba`, `1080i50-10`, `UHDp24`, `ntsc-24`.
abbrev pub nick_of : Mode → String
nick_of m =
    (if m.height == 486
      then sd_name m
      else raster_name m.width m.height
        ++ ((if m.is_interlaced then "i" else "p") ++ rate_name m.fps_n m.fps_d m.is_interlaced))
    ++ depth_name m.bit_depth m.is_rgba
