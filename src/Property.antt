-- ===== src/Property.antt =====
-- The properties of the two sources: gst-plugin/aja/gstajavideosrc.cpp and gst-plugin/aja/gstajaaudiosrc.cpp.
pub mod Video
pub mod Audio
