-- ===== src/Capture/Defs.antt =====
-- The state of `NTV2GstAV` (gst-plugin/aja/gstntv2.h) and the enumerations that it uses. Those of the
-- SDK have the members that the plugin names and one constructor for the others.
use ntv2_gst.Prelude.{ℕ, Bool}
use ntv2_gst.Video.Format.{VideoFormat}
use native.Mathlib.Decide.{ℕ_discrete}

pub data Status : Type 0 where
  success fail open_failed : Status

-- `NTV2InputSource`.
pub data InputSource : Type 0 where
  sdi1 sdi2 sdi3 sdi4 sdi5 sdi6 sdi7 sdi8 hdmi1 hdmi2 hdmi3 hdmi4 analog1 : InputSource
  source_other : ℕ → InputSource

pub InputSource-discrete : Discrete InputSource
InputSource-discrete = hlevel ℕ_discrete

pub data SdiInputMode : Type 0 where
  single_link quad_link_sqd quad_link_tsi : SdiInputMode

-- `NTV2TCIndex`. A channel's own members are families over the channel: `sdi_2 c` is
-- NTV2_TCINDEX_SDI<c+1>_2 and `sdi_ltc c` is NTV2_TCINDEX_SDI<c+1>_LTC; NTV2_TCINDEX_SDI1 is `tc_sdi1`.
pub data TcIndex : Type 0 where
  tc_sdi1 ltc1 ltc2 : TcIndex
  sdi_2 sdi_ltc : ℕ → TcIndex
  tc_other : ℕ → TcIndex

pub TcIndex-discrete : Discrete TcIndex
TcIndex-discrete = hlevel ℕ_discrete

-- `NTV2AudioSource`.
pub data AudioSource : Type 0 where
  embedded hdmi aes analog : AudioSource
  audio_other : ℕ → AudioSource

-- `NTV2FrameBufferFormat`, the members that the plugin sets.
pub data FrameBufferFormat : Type 0 where
  abgr ycbcr_8bit ycbcr_10bit : FrameBufferFormat

-- The members of the object that its methods read and write. A channel is its number, from 0:
-- NTV2_CHANNEL1 is 0. Of the pools, the thread and the callbacks it is kept whether they are there.
pub record Av : Type 0 where
  pub is_open : Bool  -- mDeviceID differs from DEVICE_ID_NOTFOUND
  pub input_channel : ℕ
  pub video_source : InputSource
  pub input_source : InputSource
  pub video_format : VideoFormat
  pub pixel_format : FrameBufferFormat
  pub bit_depth : ℕ
  pub is_rgba : Bool
  pub is_422 : Bool
  pub is_auto : Bool
  pub sdi_input_mode : SdiInputMode
  pub quad : Bool
  pub timecode_mode : TcIndex
  pub capture_tall : Bool
  pub passthrough : Bool
  pub capture_cpu_core : ℕ
  pub use_nvmm : Bool
  pub audio_system : ℕ
  pub audio_source : AudioSource
  pub num_audio_channels : ℕ
  pub last_frame : Bool
  pub last_frame_input : Bool
  pub last_frame_video_out : Bool
  pub last_frame_audio_out : Bool
  pub global_quit : Bool
  pub started : Bool
  pub video_callback : Bool
  pub audio_callback : Bool
  pub video_pool : Bool
  pub audio_pool : Bool
  pub ac_thread : Bool

-- Whether the input is a quad-link SDI input.
abbrev pub is_quad_link : SdiInputMode → Bool
is_quad_link SdiInputMode.single_link = Bool.false
is_quad_link SdiInputMode.quad_link_sqd = Bool.true
is_quad_link SdiInputMode.quad_link_tsi = Bool.true

unfoldable pub is_hdmi1 : InputSource → Bool
is_hdmi1 InputSource.hdmi1 = Bool.true
is_hdmi1 _ = Bool.false

unfoldable pub is_sdi1 : InputSource → Bool
is_sdi1 InputSource.sdi1 = Bool.true
is_sdi1 _ = Bool.false
