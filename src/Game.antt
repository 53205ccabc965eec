-- ===== src/Game.antt =====
-- Package internal/game: the Save, experience and the rules that read them.
pub mod Xp
pub mod Nickname
pub mod QueueStats
pub mod Budget
pub mod Power
