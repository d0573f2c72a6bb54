-- ===== src/Mode/Nicks.antt =====
-- The names under which users select a mode: the `GEnumValue` rows of `gst_aja_mode_get_type_raw` in
-- gst-plugin/aja/gstaja.cpp, of which the nick is kept.
use Prim.Native.String.{String}
use ntv2_gst.Prelude.{List, [], ◌∷◌, ◌++◌}

abbrev pub nicks_ntsc : List String
nicks_ntsc =
    "ntsc-2398" ∷ "ntsc-24" ∷ "ntsc" ∷ "ntsc-2398-rgba" ∷ "ntsc-24-rgba" ∷ "ntsc-rgba"
    ∷ "ntsc-2398-10" ∷ "ntsc-24-10" ∷ "ntsc-10" ∷ []

abbrev pub nicks_pal : List String
nicks_pal = "pal" ∷ "pal-rgba" ∷ "pal-10" ∷ []

abbrev pub nicks_720 : List String
nicks_720 =
    "720p2398" ∷ "720p25" ∷ "720p50" ∷ "720p5994" ∷ "720p60" ∷ "720p2398-rgba" ∷ "720p25-rgba"
    ∷ "720p50-rgba" ∷ "720p5994-rgba" ∷ "720p60-rgba" ∷ "720p2398-10" ∷ "720p25-10" ∷ "720p50-10"
    ∷ "720p5994-10" ∷ "720p60-10" ∷ []

abbrev pub nicks_1080 : List String
nicks_1080 =
    "1080p2398" ∷ "1080p24" ∷ "1080p25" ∷ "1080p2997" ∷ "1080p30" ∷ "1080i50" ∷ "1080p50"
    ∷ "1080i5994" ∷ "1080p5994" ∷ "1080i60" ∷ "1080p60" ∷ "1080p2398-rgba" ∷ "1080p24-rgba"
    ∷ "1080p25-rgba" ∷ "1080p2997-rgba" ∷ "1080p30-rgba" ∷ "1080i50-rgba" ∷ "1080p50-rgba"
    ∷ "1080i5994-rgba" ∷ "1080p5994-rgba" ∷ "1080i60-rgba" ∷ "1080p60-rgba" ∷ "1080p2398-10"
    ∷ "1080p24-10" ∷ "1080p25-10" ∷ "1080p2997-10" ∷ "1080p30-10" ∷ "1080i50-10" ∷ "1080p50-10"
    ∷ "1080i5994-10" ∷ "1080p5994-10" ∷ "1080i60-10" ∷ "1080p60-10" ∷ []

abbrev pub nicks_uhd : List String
nicks_uhd =
    "UHDp2398" ∷ "UHDp24" ∷ "UHDp25" ∷ "UHDp2997" ∷ "UHDp30" ∷ "UHDp50" ∷ "UHDp5994" ∷ "UHDp60"
    ∷ "UHDp2398-rgba" ∷ "UHDp24-rgba" ∷ "UHDp25-rgba" ∷ "UHDp2997-rgba" ∷ "UHDp30-rgba"
    ∷ "UHDp50-rgba" ∷ "UHDp5994-rgba" ∷ "UHDp60-rgba" ∷ "UHDp2398-10" ∷ "UHDp24-10" ∷ "UHDp25-10"
    ∷ "UHDp2997-10" ∷ "UHDp30-10" ∷ "UHDp50-10" ∷ "UHDp5994-10" ∷ "UHDp60-10" ∷ []

abbrev pub nicks_4k : List String
nicks_4k =
    "4Kp2398" ∷ "4Kp24" ∷ "4Kp25" ∷ "4Kp2997" ∷ "4Kp30" ∷ "4Kp4795" ∷ "4Kp48" ∷ "4Kp50" ∷ "4Kp5994"
    ∷ "4Kp60" ∷ "4Kp11988" ∷ "4Kp120" ∷ "4Kp2398-rgba" ∷ "4Kp24-rgba" ∷ "4Kp25-rgba"
    ∷ "4Kp2997-rgba" ∷ "4Kp30-rgba" ∷ "4Kp4795-rgba" ∷ "4Kp48-rgba" ∷ "4Kp50-rgba" ∷ "4Kp5994-rgba"
    ∷ "4Kp60-rgba" ∷ "4Kp11988-rgba" ∷ "4Kp120-rgba" ∷ "4Kp2398-10" ∷ "4Kp24-10" ∷ "4Kp25-10"
    ∷ "4Kp2997-10" ∷ "4Kp30-10" ∷ "4Kp4795-10" ∷ "4Kp48-10" ∷ "4Kp50-10" ∷ "4Kp5994-10" ∷ "4Kp60-10"
    ∷ "4Kp11988-10" ∷ "4Kp1200-10" ∷ []

abbrev pub nicks_uhd2 : List String
nicks_uhd2 =
    "UHD2p2398" ∷ "UHD2p24" ∷ "UHD2p25" ∷ "UHD2p2997" ∷ "UHD2p30" ∷ "UHD2p50" ∷ "UHD2p5994"
    ∷ "UHD2p60" ∷ "UHD2p2398-10" ∷ "UHD2p24-10" ∷ "UHD2p25-10" ∷ "UHD2p2997-10" ∷ "UHD2p30-10"
    ∷ "UHD2p50-10" ∷ "UHD2p5994-10" ∷ "UHD2p60-10" ∷ []

abbrev pub nicks_8k : List String
nicks_8k =
    "8Kp2398" ∷ "8Kp24" ∷ "8Kp25" ∷ "8Kp2997" ∷ "8Kp30" ∷ "8Kp4795" ∷ "8Kp48" ∷ "8Kp50" ∷ "8Kp5994"
    ∷ "8Kp60" ∷ "8Kp2398-10" ∷ "8Kp24-10" ∷ "8Kp25-10" ∷ "8Kp2997-10" ∷ "8Kp30-10" ∷ "8Kp4795-10"
    ∷ "8Kp48-10" ∷ "8Kp50-10" ∷ "8Kp5994-10" ∷ "8Kp60-10" ∷ []

abbrev pub nicks : List String
nicks =
    nicks_ntsc
    ++ (nicks_pal
        ++ (nicks_720 ++ (nicks_1080 ++ (nicks_uhd ++ (nicks_4k ++ (nicks_uhd2 ++ nicks_8k))))))
