-- ===== src/VideoSource.antt =====
-- The video source element of gst-plugin/aja/gstajavideosrc.cpp.
pub mod Defs
pub mod Mapping
pub mod Receive
pub mod Timecode
pub mod Color
pub mod Vbi
pub mod Output
pub mod Ledger
