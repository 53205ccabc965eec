-- ===== src/Tests.antt =====
-- Runs of the model on small inputs, and the theorems applied to them.
mod Fixtures
mod Battles
mod Parts
mod Records
mod Encounters
mod Clocks
mod Matches
