-- ===== src/Tests.antt =====
-- Runs of the definitions, and the theorems at concrete inputs.
pub mod Fixtures
mod Network
mod Serving
mod Texts
mod Settings
mod Tools
