-- ===== src/Battle/Types.antt =====
-- internal/battle/battle.go: the vocabulary of a Battle. Go's string enumerations are data types; a
-- constructor `unset` is the empty string.
use termon.Prelude.{ℕ, String, Bool, Option, List}
use termon.Content.{Species}

-- An index 0 or 1 into the arrays of length two, and such an array.
pub data Side : Type 0 where
  first second : Side

abbrev pub other : Side → Side
other Side.first = Side.second
other Side.second = Side.first

pub record Pair {ℓ} (A : Type ℓ) : Type ℓ where
  pub at_first : A
  pub at_second : A

module _ {ℓ} {A : Type ℓ} where
  abbrev pub pick : Pair A → Side → A
  pick p Side.first = p.at_first
  pick p Side.second = p.at_second

  abbrev pub put : Pair A → Side → A → Pair A
  put p Side.first a = record p { at_first = a }
  put p Side.second a = record p { at_second = a }

abbrev pub both {ℓ} : {A : Type ℓ} → A → Pair A
both a = record { at_first = a; at_second = a }

-- The fields of `game.Monster` that a Battle reads.
pub record Monster : Type 0 where
  pub id : String
  pub species : String
  pub nickname : String
  pub level : ℕ
  pub battle_loadout : List String

-- `*[5]int`: hp, atk, def, spa, spe
pub record StatOverride : Type 0 where
  pub hp : ℕ
  pub atk : ℕ
  pub def : ℕ
  pub spa : ℕ
  pub spe : ℕ

pub record PartyMember : Type 0 where
  pub monster : Monster
  pub max_hp : ℕ
  pub stats : Option StatOverride

pub record Party : Type 0 where
  pub trainer : String
  pub members : List PartyMember
  pub clamp_outgoing_damage : Bool

pub data ActionKind : Type 0 where
  move switch unset : ActionKind
  unknown : String → ActionKind

pub record Action : Type 0 where
  pub kind : ActionKind
  pub move_slug : String
  pub switch_to : String

abbrev pub no_action : Action
no_action = record { kind = unset; move_slug = ""; switch_to = "" }

pub data State : Type 0 where
  revealing awaiting_actions resolving_turn awaiting_replacement over : State

pub data EndReason : Type 0 where
  ko forfeit disconnect_timeout decision_timeout unset : EndReason

pub data EventKind : Type 0 where
  turn_started send_out switched replacement move_used missed critical_hit : EventKind
  super_effective not_very_effective damage_dealt fainted forfeit decision_timeout : EventKind
  battle_over : EventKind

pub record Event : Type 0 where
  pub turn : ℕ
  pub actor : String
  pub monster_id : String
  pub slot : ℕ
  pub target_id : String
  pub move_slug : String
  pub kind : EventKind
  pub text : String
  pub damage : ℕ

pub record Member : Type 0 where
  pub id : String
  pub species : String
  pub nickname : String
  pub level : ℕ
  pub loadout : List String
  pub public_movepool : List String
  pub spec : Species
  pub hp : ℕ
  pub max_hp : ℕ
  pub atk : ℕ
  pub def : ℕ
  pub spa : ℕ
  pub spe : ℕ
  pub fainted : Bool

pub record SideState : Type 0 where
  pub trainer : String
  pub members : List Member
  pub active : ℕ
  pub clamp_outgoing_damage : Bool
