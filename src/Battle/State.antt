-- ===== src/Battle/State.antt =====
-- The state of internal/battle/engine.go and its private helpers. An index out of range panics in
-- Go; such a helper returns an `Option`, and `none` is the panic.
use termon.Prelude.{
  ℕ, ◌+◌, ◌%◌, ◌^◌, String, Bool, true, false, ◌&&◌, not, Option, none, some, List, [], ◌∷◌, ◌++◌,
  ltb, eqb, ◌==◌, if◌then◌else◌, get_elem?, set, contains,
}
use termon.Prelude.Dict.{lookup}
use termon.Machine.{Machine}
use termon.Content.{ContentSet}
use termon.Battle.Types.{
  Side, Pair, Action, ActionKind, State, EndReason, Event, EventKind, Member, SideState,
}

pub record Battle (M : Machine) : Type 0 where
  pub content : ContentSet M
  pub rng : M.Rng
  pub sides : Pair SideState
  pub state : State
  pub turn : ℕ
  pub actions : Pair Action
  pub locked : Pair Bool
  pub lock_kind : Pair ActionKind
  pub events : List Event
  pub events_version : ℕ
  pub winner : String
  pub reason : EndReason
  -- `none` is -1
  pub replace_side : Option Side

-- `Event{Turn: turn, Kind: kind, Text: text}`, from which the other events are built.
abbrev pub event : ℕ → EventKind → String → Event
event turn kind text = record {
  turn = turn;
  actor = "";
  monster_id = "";
  slot = 0;
  target_id = "";
  move_slug = "";
  kind = kind;
  text = text;
  damage = 0;
}

unfoldable pub active_member : SideState → Option Member
active_member s = get_elem? s.members s.active

-- A write through the pointer that `activeMember` returns.
unfoldable pub set_active_member : SideState → Member → SideState
set_active_member s m = record s { members = set s.members s.active m }

unfoldable pub member_name : Member → String
member_name m = if m.nickname == "" then m.spec.name else m.nickname

unfoldable pub index_of : String → ℕ → List Member → Option ℕ
index_of id i [] = none
index_of id i (m ∷ ms) = if m.id == id then some i else index_of id (i + 1) ms

-- `none` is `(0, false)`.
unfoldable pub member_index : SideState → String → Option ℕ
unfolding index_of
member_index s id = index_of id 0 s.members

unfoldable pub has_reserve_from : ℕ → ℕ → List Member → Bool
has_reserve_from active i [] = false
has_reserve_from active i (m ∷ ms) =
    let rest = has_reserve_from active (i + 1) ms in
    if not (eqb i active) && not m.fainted && ltb 0 m.hp then true else rest

unfoldable pub has_healthy_reserve : SideState → Bool
unfolding has_reserve_from
has_healthy_reserve s = has_reserve_from s.active 0 s.members

unfoldable pub members_fainted : List Member → Bool
members_fainted [] = true
members_fainted (m ∷ ms) = let rest = members_fainted ms in if m.fainted then rest else false

unfoldable pub all_fainted : SideState → Bool
unfolding members_fainted
all_fainted s = members_fainted s.members

-- `validSwitch`, and the guard of `Replace`: the index of a healthy member that is not active.
unfoldable pub valid_switch : SideState → String → Bool
valid_switch s id = elim (member_index s id) [
  | none ↦ false
  | some i ↦ elim (get_elem? s.members i) [
    | none ↦ false
    | some m ↦ not (eqb i s.active) && not m.fainted && ltb 0 m.hp
  ]
]

module _ {M : Machine} where
  unfoldable pub append_events : Battle M → List Event → Battle M
  append_events b events = record b {
    events = b.events ++ events;
    events_version = (b.events_version + 1) % 2 ^ 64;
  }

  -- `none` is `(0, false)`.
  unfoldable pub side_index : Battle M → String → Option Side
  side_index b trainer =
      if b.sides.at_first.trainer == trainer
      then some Side.first
      else if b.sides.at_second.trainer == trainer
      then some Side.second
      else none

  unfoldable pub knows_move : Battle M → Member → String → Bool
  knows_move b m slug =
      if contains m.loadout slug
      then elim (lookup slug b.content.moves) [ none ↦ false | some _ ↦ true ]
      else false
