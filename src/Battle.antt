-- ===== src/Battle.antt =====
-- Package internal/battle: the combat engine. `Types` is battle.go, `Damage` is constants.go,
-- `State`, `Turn`, `Calls` and `Start` are engine.go, and `Views` is what clients are shown.
pub mod Types
pub mod Damage
pub mod State
pub mod Turn
pub mod Calls
pub mod Start
pub mod Views
pub mod Replay
pub mod Safety
pub mod Strikes
pub mod Hiding
pub mod Invariant
