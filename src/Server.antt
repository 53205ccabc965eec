-- ===== src/Server.antt =====
-- Package internal/server: its admission quota and the Decision Clock.
pub mod Admission
pub mod Clock
pub mod Matches
