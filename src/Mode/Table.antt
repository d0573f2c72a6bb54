-- ===== src/Mode/Table.antt =====
-- The mode table `modesRaw` of gst-plugin/aja/gstaja.cpp, one list for each block of its rows.
use ntv2_gst.Prelude.{true, false, List, [], ◌∷◌, ◌++◌}
use ntv2_gst.Video.Format.{VideoFormat}
use ntv2_gst.Mode.Defs.{Mode, row, ntsc, pal, hd, uhd, yuv, rgba}

abbrev pub modes_ntsc : List Mode
modes_ntsc =
    row VideoFormat.format_525_2398 720 486 8 yuv 24000 1001 true true ntsc
    ∷ row VideoFormat.format_525_2400 720 486 8 yuv 24 1 true true ntsc
    ∷ row VideoFormat.format_525_5994 720 486 8 yuv 30000 1001 true true ntsc
    ∷ row VideoFormat.format_525_2398 720 486 8 rgba 24000 1001 true true ntsc
    ∷ row VideoFormat.format_525_2400 720 486 8 rgba 24 1 true true ntsc
    ∷ row VideoFormat.format_525_5994 720 486 8 rgba 30000 1001 true true ntsc
    ∷ row VideoFormat.format_525_2398 720 486 10 yuv 24000 1001 true true ntsc
    ∷ row VideoFormat.format_525_2400 720 486 10 yuv 24 1 true true ntsc
    ∷ row VideoFormat.format_525_5994 720 486 10 yuv 30000 1001 true true ntsc
    ∷ []

abbrev pub modes_pal : List Mode
modes_pal =
    row VideoFormat.format_625_5000 720 486 8 yuv 25 1 true true pal
    ∷ row VideoFormat.format_625_5000 720 486 8 rgba 25 1 true true pal
    ∷ row VideoFormat.format_625_5000 720 486 10 yuv 25 1 true true pal
    ∷ []

abbrev pub modes_720 : List Mode
modes_720 =
    row VideoFormat.format_720p_2398 1280 720 8 yuv 24000 1001 false true hd
    ∷ row VideoFormat.format_720p_2500 1280 720 8 yuv 25 1 false true hd
    ∷ row VideoFormat.format_720p_5000 1280 720 8 yuv 50 1 false true hd
    ∷ row VideoFormat.format_720p_5994 1280 720 8 yuv 60000 1001 false true hd
    ∷ row VideoFormat.format_720p_6000 1280 720 8 yuv 60 1 false true hd
    ∷ row VideoFormat.format_720p_2398 1280 720 8 rgba 24000 1001 false true hd
    ∷ row VideoFormat.format_720p_2500 1280 720 8 rgba 25 1 false true hd
    ∷ row VideoFormat.format_720p_5000 1280 720 8 rgba 50 1 false true hd
    ∷ row VideoFormat.format_720p_5994 1280 720 8 rgba 60000 1001 false true hd
    ∷ row VideoFormat.format_720p_6000 1280 720 8 rgba 60 1 false true hd
    ∷ row VideoFormat.format_720p_2398 1280 720 10 yuv 2400 1001 false true hd
    ∷ row VideoFormat.format_720p_2500 1280 720 10 yuv 25 1 false true hd
    ∷ row VideoFormat.format_720p_5000 1280 720 10 yuv 50 1 false true hd
    ∷ row VideoFormat.format_720p_5994 1280 720 10 yuv 60000 1001 false true hd
    ∷ row VideoFormat.format_720p_6000 1280 720 10 yuv 60 1 false true hd
    ∷ []

abbrev pub modes_1080 : List Mode
modes_1080 =
    row VideoFormat.format_1080p_2398 1920 1080 8 yuv 24000 1001 false true hd
    ∷ row VideoFormat.format_1080p_2400 1920 1080 8 yuv 24 1 false true hd
    ∷ row VideoFormat.format_1080p_2500 1920 1080 8 yuv 25 1 false true hd
    ∷ row VideoFormat.format_1080p_2997 1920 1080 8 yuv 30000 1001 false true hd
    ∷ row VideoFormat.format_1080p_3000 1920 1080 8 yuv 30 1 false true hd
    ∷ row VideoFormat.format_1080i_5000 1920 1080 8 yuv 25 1 true true hd
    ∷ row VideoFormat.format_1080p_5000_a 1920 1080 8 yuv 50 1 false true hd
    ∷ row VideoFormat.format_1080i_5994 1920 1080 8 yuv 30000 1001 true true hd
    ∷ row VideoFormat.format_1080p_5994_a 1920 1080 8 yuv 60000 1001 false true hd
    ∷ row VideoFormat.format_1080i_6000 1920 1080 8 yuv 30 1 true true hd
    ∷ row VideoFormat.format_1080p_6000_a 1920 1080 8 yuv 60 1 false true hd
    ∷ row VideoFormat.format_1080p_2398 1920 1080 8 rgba 24000 1001 false true hd
    ∷ row VideoFormat.format_1080p_2400 1920 1080 8 rgba 24 1 false true hd
    ∷ row VideoFormat.format_1080p_2500 1920 1080 8 rgba 25 1 false true hd
    ∷ row VideoFormat.format_1080p_2997 1920 1080 8 rgba 30000 1001 false true hd
    ∷ row VideoFormat.format_1080p_3000 1920 1080 8 rgba 30 1 false true hd
    ∷ row VideoFormat.format_1080i_5000 1920 1080 8 rgba 25 1 true true hd
    ∷ row VideoFormat.format_1080p_5000_a 1920 1080 8 rgba 50 1 false true hd
    ∷ row VideoFormat.format_1080i_5994 1920 1080 8 rgba 30000 1001 true true hd
    ∷ row VideoFormat.format_1080p_5994_a 1920 1080 8 rgba 60000 1001 false true hd
    ∷ row VideoFormat.format_1080i_6000 1920 1080 8 rgba 30 1 true true hd
    ∷ row VideoFormat.format_1080p_6000_a 1920 1080 8 rgba 60 1 false true hd
    ∷ row VideoFormat.format_1080p_2398 1920 1080 10 yuv 24000 1001 false true hd
    ∷ row VideoFormat.format_1080p_2400 1920 1080 10 yuv 24 1 false true hd
    ∷ row VideoFormat.format_1080p_2500 1920 1080 10 yuv 25 1 false true hd
    ∷ row VideoFormat.format_1080p_2997 1920 1080 10 yuv 30000 1001 false true hd
    ∷ row VideoFormat.format_1080p_3000 1920 1080 10 yuv 30 1 false true hd
    ∷ row VideoFormat.format_1080i_5000 1920 1080 10 yuv 25 1 true true hd
    ∷ row VideoFormat.format_1080p_5000_a 1920 1080 10 yuv 50 1 false true hd
    ∷ row VideoFormat.format_1080i_5994 1920 1080 10 yuv 30000 1001 true true hd
    ∷ row VideoFormat.format_1080p_5994_a 1920 1080 10 yuv 60000 1001 false true hd
    ∷ row VideoFormat.format_1080i_6000 1920 1080 10 yuv 30 1 true true hd
    ∷ row VideoFormat.format_1080p_6000_a 1920 1080 10 yuv 60 1 false true hd
    ∷ []

abbrev pub modes_uhd : List Mode
modes_uhd =
    row VideoFormat.format_3840x2160p_2398 3840 2160 8 yuv 24000 1001 false true uhd
    ∷ row VideoFormat.format_3840x2160p_2400 3840 2160 8 yuv 24 1 false true uhd
    ∷ row VideoFormat.format_3840x2160p_2500 3840 2160 8 yuv 25 1 false true uhd
    ∷ row VideoFormat.format_3840x2160p_2997 3840 2160 8 yuv 30000 1001 false true uhd
    ∷ row VideoFormat.format_3840x2160p_3000 3840 2160 8 yuv 30 1 false true uhd
    ∷ row VideoFormat.format_3840x2160p_5000 3840 2160 8 yuv 50 1 false true uhd
    ∷ row VideoFormat.format_3840x2160p_5994 3840 2160 8 yuv 60000 1001 false true uhd
    ∷ row VideoFormat.format_3840x2160p_6000 3840 2160 8 yuv 60 1 false true uhd
    ∷ row VideoFormat.format_3840x2160p_2398 3840 2160 8 rgba 24000 1001 false true uhd
    ∷ row VideoFormat.format_3840x2160p_2400 3840 2160 8 rgba 24 1 false true uhd
    ∷ row VideoFormat.format_3840x2160p_2500 3840 2160 8 rgba 25 1 false true uhd
    ∷ row VideoFormat.format_3840x2160p_2997 3840 2160 8 rgba 30000 1001 false true uhd
    ∷ row VideoFormat.format_3840x2160p_3000 3840 2160 8 rgba 30 1 false true uhd
    ∷ row VideoFormat.format_3840x2160p_5000 3840 2160 8 rgba 50 1 false true uhd
    ∷ row VideoFormat.format_3840x2160p_5994 3840 2160 8 rgba 60000 1001 false true uhd
    ∷ row VideoFormat.format_3840x2160p_6000 3840 2160 8 rgba 60 1 false true uhd
    ∷ row VideoFormat.format_3840x2160p_2398 3840 2160 10 yuv 24000 1001 false true uhd
    ∷ row VideoFormat.format_3840x2160p_2400 3840 2160 10 yuv 24 1 false true uhd
    ∷ row VideoFormat.format_3840x2160p_2500 3840 2160 10 yuv 25 1 false true uhd
    ∷ row VideoFormat.format_3840x2160p_2997 3840 2160 10 yuv 30000 1001 false true uhd
    ∷ row VideoFormat.format_3840x2160p_3000 3840 2160 10 yuv 30 1 false true uhd
    ∷ row VideoFormat.format_3840x2160p_5000 3840 2160 10 yuv 50 1 false true uhd
    ∷ row VideoFormat.format_3840x2160p_5994 3840 2160 10 yuv 60000 1001 false true uhd
    ∷ row VideoFormat.format_3840x2160p_6000 3840 2160 10 yuv 60 1 false true uhd
    ∷ []

abbrev pub modes_4k : List Mode
modes_4k =
    row VideoFormat.format_4096x2160p_2398 4096 2160 8 yuv 24000 1001 false true uhd
    ∷ row VideoFormat.format_4096x2160p_2400 4096 2160 8 yuv 24 1 false true uhd
    ∷ row VideoFormat.format_4096x2160p_2500 4096 2160 8 yuv 25 1 false true uhd
    ∷ row VideoFormat.format_4096x2160p_2997 4096 2160 8 yuv 30000 1001 false true uhd
    ∷ row VideoFormat.format_4096x2160p_3000 4096 2160 8 yuv 30 1 false true uhd
    ∷ row VideoFormat.format_4096x2160p_4795 4096 2160 8 yuv 48000 1001 false true uhd
    ∷ row VideoFormat.format_4096x2160p_4800 4096 2160 8 yuv 48 1 false true uhd
    ∷ row VideoFormat.format_4096x2160p_5000 4096 2160 8 yuv 50 1 false true uhd
    ∷ row VideoFormat.format_4096x2160p_5994 4096 2160 8 yuv 60000 1001 false true uhd
    ∷ row VideoFormat.format_4096x2160p_6000 4096 2160 8 yuv 60 1 false true uhd
    ∷ row VideoFormat.format_4096x2160p_11988 4096 2160 8 yuv 120000 1001 false true uhd
    ∷ row VideoFormat.format_4096x2160p_12000 4096 2160 8 yuv 120 1 false true uhd
    ∷ row VideoFormat.format_4096x2160p_2398 4096 2160 8 rgba 24000 1001 false true uhd
    ∷ row VideoFormat.format_4096x2160p_2400 4096 2160 8 rgba 24 1 false true uhd
    ∷ row VideoFormat.format_4096x2160p_2500 4096 2160 8 rgba 25 1 false true uhd
    ∷ row VideoFormat.format_4096x2160p_2997 4096 2160 8 rgba 30000 1001 false true uhd
    ∷ row VideoFormat.format_4096x2160p_3000 4096 2160 8 rgba 30 1 false true uhd
    ∷ row VideoFormat.format_4096x2160p_4795 4096 2160 8 rgba 48000 1001 false true uhd
    ∷ row VideoFormat.format_4096x2160p_4800 4096 2160 8 rgba 48 1 false true uhd
    ∷ row VideoFormat.format_4096x2160p_5000 4096 2160 8 rgba 50 1 false true uhd
    ∷ row VideoFormat.format_4096x2160p_5994 4096 2160 8 rgba 60000 1001 false true uhd
    ∷ row VideoFormat.format_4096x2160p_6000 4096 2160 8 rgba 60 1 false true uhd
    ∷ row VideoFormat.format_4096x2160p_11988 4096 2160 8 rgba 120000 1001 false true uhd
    ∷ row VideoFormat.format_4096x2160p_12000 4096 2160 8 rgba 120 1 false true uhd
    ∷ row VideoFormat.format_4096x2160p_2398 4096 2160 10 yuv 24000 1001 false true uhd
    ∷ row VideoFormat.format_4096x2160p_2400 4096 2160 10 yuv 24 1 false true uhd
    ∷ row VideoFormat.format_4096x2160p_2500 4096 2160 10 yuv 25 1 false true uhd
    ∷ row VideoFormat.format_4096x2160p_2997 4096 2160 10 yuv 30000 1001 false true uhd
    ∷ row VideoFormat.format_4096x2160p_3000 4096 2160 10 yuv 30 1 false true uhd
    ∷ row VideoFormat.format_4096x2160p_4795 4096 2160 10 yuv 48000 1001 false true uhd
    ∷ row VideoFormat.format_4096x2160p_4800 4096 2160 10 yuv 48 1 false true uhd
    ∷ row VideoFormat.format_4096x2160p_5000 4096 2160 10 yuv 50 1 false true uhd
    ∷ row VideoFormat.format_4096x2160p_5994 4096 2160 10 yuv 60000 1001 false true uhd
    ∷ row VideoFormat.format_4096x2160p_6000 4096 2160 10 yuv 60 1 false true uhd
    ∷ row VideoFormat.format_4096x2160p_11988 4096 2160 10 yuv 120000 1001 false true uhd
    ∷ row VideoFormat.format_4096x2160p_12000 4096 2160 10 yuv 120 1 false true uhd
    ∷ []

abbrev pub modes_uhd2 : List Mode
modes_uhd2 =
    row VideoFormat.format_4x3840x2160p_2398 7680 4320 8 yuv 24000 1001 false true uhd
    ∷ row VideoFormat.format_4x3840x2160p_2400 7680 4320 8 yuv 24 1 false true uhd
    ∷ row VideoFormat.format_4x3840x2160p_2500 7680 4320 8 yuv 25 1 false true uhd
    ∷ row VideoFormat.format_4x3840x2160p_2997 7680 4320 8 yuv 30000 1001 false true uhd
    ∷ row VideoFormat.format_4x3840x2160p_3000 7680 4320 8 yuv 30 1 false true uhd
    ∷ row VideoFormat.format_4x3840x2160p_5000 7680 4320 8 yuv 50 1 false true uhd
    ∷ row VideoFormat.format_4x3840x2160p_5994 7680 4320 8 yuv 60000 1001 false true uhd
    ∷ row VideoFormat.format_4x3840x2160p_6000 7680 4320 8 yuv 60 1 false true uhd
    ∷ row VideoFormat.format_4x3840x2160p_2398 7680 4320 10 yuv 24000 1001 false true uhd
    ∷ row VideoFormat.format_4x3840x2160p_2400 7680 4320 10 yuv 24 1 false true uhd
    ∷ row VideoFormat.format_4x3840x2160p_2500 7680 4320 10 yuv 25 1 false true uhd
    ∷ row VideoFormat.format_4x3840x2160p_2997 7680 4320 10 yuv 30000 1001 false true uhd
    ∷ row VideoFormat.format_4x3840x2160p_3000 7680 4320 10 yuv 30 1 false true uhd
    ∷ row VideoFormat.format_4x3840x2160p_5000 7680 4320 10 yuv 50 1 false true uhd
    ∷ row VideoFormat.format_4x3840x2160p_5994 7680 4320 10 yuv 60000 1001 false true uhd
    ∷ row VideoFormat.format_4x3840x2160p_6000 7680 4320 10 yuv 60 1 false true uhd
    ∷ []

abbrev pub modes_8k : List Mode
modes_8k =
    row VideoFormat.format_4x4096x2160p_2398 8192 4320 8 yuv 24000 1001 false true uhd
    ∷ row VideoFormat.format_4x4096x2160p_2400 8192 4320 8 yuv 24 1 false true uhd
    ∷ row VideoFormat.format_4x4096x2160p_2500 8192 4320 8 yuv 25 1 false true uhd
    ∷ row VideoFormat.format_4x4096x2160p_2997 8192 4320 8 yuv 30000 1001 false true uhd
    ∷ row VideoFormat.format_4x4096x2160p_3000 8192 4320 8 yuv 30 1 false true uhd
    ∷ row VideoFormat.format_4x4096x2160p_4795 8192 4320 8 yuv 48000 1001 false true uhd
    ∷ row VideoFormat.format_4x4096x2160p_4800 8192 4320 8 yuv 48 1 false true uhd
    ∷ row VideoFormat.format_4x4096x2160p_5000 8192 4320 8 yuv 50 1 false true uhd
    ∷ row VideoFormat.format_4x4096x2160p_5994 8192 4320 8 yuv 60000 1001 false true uhd
    ∷ row VideoFormat.format_4x4096x2160p_6000 8192 4320 8 yuv 60 1 false true uhd
    ∷ row VideoFormat.format_4x4096x2160p_2398 8192 4320 10 yuv 24000 1001 false true uhd
    ∷ row VideoFormat.format_4x4096x2160p_2400 8192 4320 10 yuv 24 1 false true uhd
    ∷ row VideoFormat.format_4x4096x2160p_2500 8192 4320 10 yuv 25 1 false true uhd
    ∷ row VideoFormat.format_4x4096x2160p_2997 8192 4320 10 yuv 30000 1001 false true uhd
    ∷ row VideoFormat.format_4x4096x2160p_3000 8192 4320 10 yuv 30 1 false true uhd
    ∷ row VideoFormat.format_4x4096x2160p_4795 8192 4320 10 yuv 48000 1001 false true uhd
    ∷ row VideoFormat.format_4x4096x2160p_4800 8192 4320 10 yuv 48 1 false true uhd
    ∷ row VideoFormat.format_4x4096x2160p_5000 8192 4320 10 yuv 50 1 false true uhd
    ∷ row VideoFormat.format_4x4096x2160p_5994 8192 4320 10 yuv 60000 1001 false true uhd
    ∷ row VideoFormat.format_4x4096x2160p_6000 8192 4320 10 yuv 60 1 false true uhd
    ∷ []

-- The array itself; a `GstAjaModeRawEnum` is a position in it.
abbrev pub modes_raw : List Mode
modes_raw =
    modes_ntsc
    ++ (modes_pal
        ++ (modes_720 ++ (modes_1080 ++ (modes_uhd ++ (modes_4k ++ (modes_uhd2 ++ modes_8k))))))
