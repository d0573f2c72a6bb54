-- ===== src/Audio.antt =====
-- The audio source element of gst-plugin/aja/gstajaaudiosrc.cpp.
pub mod Defs
pub mod Receive
pub mod Output
pub mod Ledger
