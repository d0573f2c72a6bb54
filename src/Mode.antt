-- ===== src/Mode.antt =====
-- The video modes.
pub mod Defs
pub mod Table
pub mod Nicks
pub mod Caps
pub mod Naming
pub mod Unique
pub mod Template
pub mod Rows
pub mod Select
