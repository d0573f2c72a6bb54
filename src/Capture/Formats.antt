-- ===== src/Capture/Formats.antt =====
-- The format switches of gst-plugin/aja/gstntv2.cpp.
use ntv2_gst.Prelude.{Bool, true, false, if◌then◌else◌, Option, some, none}
use ntv2_gst.Video.Format.{VideoFormat}

-- `switch (inVideoFormat)` of `NTV2GstAV::Init`: the format of four links for a format of one. The cases
-- below `default` are `none`.
unfoldable pub quad_format : VideoFormat → Option VideoFormat
quad_format VideoFormat.format_3840x2160p_2398 = some VideoFormat.format_4x1920x1080p_2398
quad_format VideoFormat.format_3840x2160p_2400 = some VideoFormat.format_4x1920x1080p_2400
quad_format VideoFormat.format_3840x2160p_2500 = some VideoFormat.format_4x1920x1080p_2500
quad_format VideoFormat.format_3840x2160p_2997 = some VideoFormat.format_4x1920x1080p_2997
quad_format VideoFormat.format_3840x2160p_3000 = some VideoFormat.format_4x1920x1080p_3000
quad_format VideoFormat.format_3840x2160p_5000 = some VideoFormat.format_4x1920x1080p_5000
quad_format VideoFormat.format_3840x2160p_5994 = some VideoFormat.format_4x1920x1080p_5994
quad_format VideoFormat.format_3840x2160p_6000 = some VideoFormat.format_4x1920x1080p_6000
quad_format VideoFormat.format_4096x2160p_2398 = some VideoFormat.format_4x2048x1080p_2398
quad_format VideoFormat.format_4096x2160p_2400 = some VideoFormat.format_4x2048x1080p_2400
quad_format VideoFormat.format_4096x2160p_2500 = some VideoFormat.format_4x2048x1080p_2500
quad_format VideoFormat.format_4096x2160p_2997 = some VideoFormat.format_4x2048x1080p_2997
quad_format VideoFormat.format_4096x2160p_3000 = some VideoFormat.format_4x2048x1080p_3000
quad_format VideoFormat.format_4096x2160p_4795 = some VideoFormat.format_4x2048x1080p_4795
quad_format VideoFormat.format_4096x2160p_4800 = some VideoFormat.format_4x2048x1080p_4800
quad_format VideoFormat.format_4096x2160p_5000 = some VideoFormat.format_4x2048x1080p_5000
quad_format VideoFormat.format_4096x2160p_5994 = some VideoFormat.format_4x2048x1080p_5994
quad_format VideoFormat.format_4096x2160p_6000 = some VideoFormat.format_4x2048x1080p_6000
quad_format VideoFormat.format_4096x2160p_11988 = some VideoFormat.format_4x2048x1080p_11988
quad_format VideoFormat.format_4096x2160p_12000 = some VideoFormat.format_4x2048x1080p_12000
quad_format _ = none

-- `switch (mVideoFormat)` of `NTV2GstAV::ACInputWorker`: the format of one input for a format of four.
unfoldable pub link_format : VideoFormat → VideoFormat
link_format VideoFormat.format_4x1920x1080p_2398 = VideoFormat.format_1080p_2398
link_format VideoFormat.format_4x1920x1080p_2400 = VideoFormat.format_1080p_2400
link_format VideoFormat.format_4x1920x1080p_2500 = VideoFormat.format_1080p_2500
link_format VideoFormat.format_4x1920x1080p_2997 = VideoFormat.format_1080p_2997
link_format VideoFormat.format_4x1920x1080p_3000 = VideoFormat.format_1080p_3000
link_format VideoFormat.format_4x1920x1080p_5000 = VideoFormat.format_1080p_5000_a
link_format VideoFormat.format_4x1920x1080p_5994 = VideoFormat.format_1080p_5994_a
link_format VideoFormat.format_4x1920x1080p_6000 = VideoFormat.format_1080p_6000_a
link_format VideoFormat.format_4x2048x1080p_2398 = VideoFormat.format_1080p_2k_2398
link_format VideoFormat.format_4x2048x1080p_2400 = VideoFormat.format_1080p_2k_2400
link_format VideoFormat.format_4x2048x1080p_2500 = VideoFormat.format_1080p_2k_2500
link_format VideoFormat.format_4x2048x1080p_2997 = VideoFormat.format_1080p_2k_2997
link_format VideoFormat.format_4x2048x1080p_3000 = VideoFormat.format_1080p_2k_3000
link_format VideoFormat.format_4x2048x1080p_4795 = VideoFormat.format_1080p_2k_4795_a
link_format VideoFormat.format_4x2048x1080p_4800 = VideoFormat.format_1080p_2k_4800_a
link_format VideoFormat.format_4x2048x1080p_5000 = VideoFormat.format_1080p_2k_5000_a
link_format VideoFormat.format_4x2048x1080p_5994 = VideoFormat.format_1080p_2k_5994_a
link_format VideoFormat.format_4x2048x1080p_6000 = VideoFormat.format_1080p_2k_6000_a
link_format VideoFormat.format_4x3840x2160p_2398 = VideoFormat.format_3840x2160p_2398
link_format VideoFormat.format_4x3840x2160p_2400 = VideoFormat.format_3840x2160p_2400
link_format VideoFormat.format_4x3840x2160p_2500 = VideoFormat.format_3840x2160p_2500
link_format VideoFormat.format_4x3840x2160p_2997 = VideoFormat.format_3840x2160p_2997
link_format VideoFormat.format_4x3840x2160p_3000 = VideoFormat.format_3840x2160p_3000
link_format VideoFormat.format_4x3840x2160p_5000 = VideoFormat.format_3840x2160p_5000
link_format VideoFormat.format_4x3840x2160p_5994 = VideoFormat.format_3840x2160p_5994
link_format VideoFormat.format_4x3840x2160p_6000 = VideoFormat.format_3840x2160p_6000
link_format VideoFormat.format_4x4096x2160p_2398 = VideoFormat.format_4096x2160p_2398
link_format VideoFormat.format_4x4096x2160p_2400 = VideoFormat.format_4096x2160p_2400
link_format VideoFormat.format_4x4096x2160p_2500 = VideoFormat.format_4096x2160p_2500
link_format VideoFormat.format_4x4096x2160p_2997 = VideoFormat.format_4096x2160p_2997
link_format VideoFormat.format_4x4096x2160p_3000 = VideoFormat.format_4096x2160p_3000
link_format VideoFormat.format_4x4096x2160p_4795 = VideoFormat.format_4096x2160p_4795
link_format VideoFormat.format_4x4096x2160p_4800 = VideoFormat.format_4096x2160p_4800
link_format VideoFormat.format_4x4096x2160p_5000 = VideoFormat.format_4096x2160p_5000
link_format VideoFormat.format_4x4096x2160p_5994 = VideoFormat.format_4096x2160p_5994
link_format VideoFormat.format_4x4096x2160p_6000 = VideoFormat.format_4096x2160p_6000
link_format f = f

-- The formats for which `NTV2GstAV::Init` keeps `mCaptureTall`.
unfoldable pub can_capture_tall : VideoFormat → Bool
can_capture_tall VideoFormat.format_720p_2398 = true
can_capture_tall VideoFormat.format_720p_2500 = true
can_capture_tall VideoFormat.format_720p_5000 = true
can_capture_tall VideoFormat.format_720p_5994 = true
can_capture_tall VideoFormat.format_720p_6000 = true
can_capture_tall VideoFormat.format_1080i_5000 = true
can_capture_tall VideoFormat.format_1080i_5994 = true
can_capture_tall VideoFormat.format_1080i_6000 = true
can_capture_tall VideoFormat.format_1080p_2398 = true
can_capture_tall VideoFormat.format_1080p_2400 = true
can_capture_tall VideoFormat.format_1080p_2500 = true
can_capture_tall VideoFormat.format_1080p_2997 = true
can_capture_tall VideoFormat.format_1080p_3000 = true
can_capture_tall VideoFormat.format_1080p_5000_a = true
can_capture_tall VideoFormat.format_1080p_5994_a = true
can_capture_tall VideoFormat.format_1080p_6000_a = true
can_capture_tall _ = false

-- The switch of `NTV2GstAV::DetermineInputFormat`, for a format that is not NTV2_FORMAT_UNKNOWN.
unfoldable pub determined_format : VideoFormat → Bool → VideoFormat
determined_format VideoFormat.format_1080p_5000_a quad =
    if quad then VideoFormat.format_4x1920x1080p_5000 else VideoFormat.format_1080p_5000_a
determined_format VideoFormat.format_1080p_5000_b quad =
    if quad then VideoFormat.format_4x1920x1080p_5000 else VideoFormat.format_1080p_5000_a
determined_format VideoFormat.format_1080p_5994_a quad =
    if quad then VideoFormat.format_4x1920x1080p_5994 else VideoFormat.format_1080p_5994_a
determined_format VideoFormat.format_1080p_5994_b quad =
    if quad then VideoFormat.format_4x1920x1080p_5994 else VideoFormat.format_1080p_5994_a
determined_format VideoFormat.format_1080p_6000_a quad =
    if quad then VideoFormat.format_4x1920x1080p_6000 else VideoFormat.format_1080p_6000_a
determined_format VideoFormat.format_1080p_6000_b quad =
    if quad then VideoFormat.format_4x1920x1080p_6000 else VideoFormat.format_1080p_6000_a
determined_format f quad = f
