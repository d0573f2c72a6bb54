-- ===== src/Capture.antt =====
-- The capture engine `NTV2GstAV` of gst-plugin/aja/gstntv2.cpp.
pub mod Defs
pub mod Formats
pub mod Links
pub mod Timecode
pub mod Vpid
pub mod Worker
pub mod Lifecycle
pub mod AudioSetup
pub mod Routing
pub mod Init
