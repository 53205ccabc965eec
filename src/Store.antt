-- ===== src/Store.antt =====
-- internal/store/saveops.go and the records of internal/game/save.go: the rules of a Save. The
-- content is not nil here. Encoding, cloning and the clock are not modelled.
pub mod Moves
pub mod Rewards
pub mod Loadouts
pub mod Growth
pub mod Mint
pub mod Pvp
pub mod PayOnce
pub mod Records
pub mod Transition
pub mod Memory
use termon.Prelude.{ℕ, String, Bool, List}
use termon.Prelude.Int.{ℤ}

pub record Monster : Type 0 where
  pub id : String
  pub species : String
  pub nickname : String
  pub xp : ℤ
  pub level : ℕ
  pub move_library : List String
  pub battle_loadout : List String
  pub evolution_pending : Bool

pub record ProgressionNotice : Type 0 where
  pub id : String
  pub kind : String
  pub monster_id : String
  pub source_key : String
  pub moves : List String

-- `party` has three slots; the empty id is a vacant slot.
pub record Save : Type 0 where
  pub handle : String
  pub wins : ℕ
  pub losses : ℕ
  pub collection : List Monster
  pub party : List String
  pub notices : List ProgressionNotice
