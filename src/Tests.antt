-- ===== src/Tests.antt =====
-- Runs of the program on small inputs, and the theorems at these inputs.
pub mod Samples
pub mod Engine
pub mod Settlement
pub mod Book
pub mod Codec
pub mod Intake
pub mod Prices
pub mod Executor
pub mod Custody
pub mod Server
pub mod Floats
pub mod Oracle
pub mod Funding
pub mod Backfill
