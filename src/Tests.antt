-- ===== src/Tests.antt =====
-- Runs of the theorems on concrete inputs.
mod Data
mod VideoData
mod Videos
mod Modes
mod Captures
mod Audios
mod Blocks
mod Inputs
mod Quits
mod Pools
mod Settings
mod States
mod Orders
