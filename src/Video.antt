-- ===== src/Video.antt =====
-- The video formats of the SDK, and what their names say.
pub mod Format
pub mod Nominal
