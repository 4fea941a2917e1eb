-- ===== src/Witnesses.antt =====
-- Concrete runs: the theorems at inputs where their hypotheses hold, over a small world.
pub mod World
pub mod Laws
pub mod Service
pub mod Parts
pub mod Server
pub mod Vendors
pub mod Setup
pub mod Copying
