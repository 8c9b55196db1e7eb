-- ===== src/Examples.antt =====
-- Runs at concrete inputs, and the theorems applied there.
pub mod Pages
pub mod Tables
pub mod Blocks
pub mod Console
pub mod Text
pub mod Regions
pub mod Session
pub mod Faults
pub mod Boot
pub mod Screens
