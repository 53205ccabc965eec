-- ===== src/Battle/Views.antt =====
-- What clients read of a Battle: `Snapshot` and `FieldedHPAfter` of internal/battle/engine.go with
-- the helpers on a `Snapshot` of internal/battle/battle.go.
pub mod Policy
use termon.Prelude.{
  ℕ, suc, ◌+◌, min, ◌≡◌, String, Bool, true, false, ◌&&◌, ◌||◌, not, Option, none, some, List, [],
  ◌∷◌, ltb, eqb, ◌==◌, if◌then◌else◌, length, get_elem?, take, drop, filter_by, ◌>>=◌,
}
use termon.Machine.{Machine}
use termon.Battle.Types.{
  Side, other, pick, ActionKind, State, EndReason, Event, EventKind, Member, SideState,
}
use termon.Battle.State.{Battle, active_member, member_name, member_index, side_index}
use termon.Battle.Calls.{is_awaiting_replacement, awaits}

pub record SnapshotMember : Type 0 where
  pub slot : ℕ
  pub id : String
  pub species : String
  pub name : String
  pub hp : ℕ
  pub max_hp : ℕ
  pub fainted : Bool
  pub active : Bool
  pub loadout : List String

pub record SnapshotFoe : Type 0 where
  pub species : String
  pub name : String
  pub id : String
  pub fainted : Bool
  pub active : Bool
  pub hp : ℕ
  pub max_hp : ℕ

pub record Snapshot : Type 0 where
  pub phase : State
  pub turn : ℕ
  pub winner : String
  pub reason : EndReason
  pub your_party : List SnapshotMember
  pub foe_roster : List SnapshotFoe
  pub you_locked : Bool
  pub you_lock_kind : ActionKind
  pub foe_locked : Bool
  pub replacement_required : Bool

pub record FieldedHp : Type 0 where
  pub monster_id : String
  pub hp : ℕ
  pub max_hp : ℕ

abbrev pub no_plate : FieldedHp
no_plate = record { monster_id = ""; hp = 0; max_hp = 0 }

unfoldable pub own_member : ℕ → ℕ → Member → SnapshotMember
own_member active slot m = record {
  slot = slot + 1;
  id = m.id;
  species = m.spec.slug;
  name = member_name m;
  hp = m.hp;
  max_hp = m.max_hp;
  fainted = m.fainted;
  active = eqb slot active;
  loadout = m.loadout;
}

unfoldable pub own_party : ℕ → ℕ → List Member → List SnapshotMember
own_party active slot [] = []
own_party active slot (m ∷ ms) = own_member active slot m ∷ own_party active (slot + 1) ms

-- The active Monster shows its HP, a reserve shows zeros.
unfoldable pub foe_member : Member → Member → SnapshotFoe
foe_member active m =
    let is_active = m.id == active.id in
    record {
      species = m.spec.slug;
      name = member_name m;
      id = m.id;
      fainted = m.fainted;
      active = is_active;
      hp = if is_active then m.hp else 0;
      max_hp = if is_active then m.max_hp else 0;
    }

unfoldable pub foe_roster_of : SideState → List Member → Option (List SnapshotFoe)
foe_roster_of s [] = some []
foe_roster_of s (m ∷ ms) = do
  active ← active_member s
  rest ← foe_roster_of s ms
  some (foe_member active m ∷ rest)

unfoldable pub healthy_reserves : Snapshot → List SnapshotMember
healthy_reserves s =
    filter_by (λ (m : SnapshotMember). not m.active && not m.fainted && ltb 0 m.hp) s.your_party

-- `nil` and the empty list are one.
active_loadout : List SnapshotMember → List String
active_loadout [] = []
active_loadout (m ∷ ms) = let rest = active_loadout ms in if m.active then m.loadout else rest

unfoldable pub your_party_active_loadout : Snapshot → List String
unfolding active_loadout
your_party_active_loadout s = active_loadout s.your_party

unfoldable pub fielding_kind : EventKind → Bool
fielding_kind EventKind.send_out = true
fielding_kind EventKind.switched = true
fielding_kind EventKind.replacement = true
fielding_kind _ = false

-- The scan of `fieldedAt` from the back: the last fielding event of a Trainer.
unfoldable pub last_fielded : String → List Event → Option String
last_fielded trainer [] = none
last_fielded trainer (e ∷ es) = elim (last_fielded trainer es) [
  | some id ↦ some id
  | none ↦ if e.actor == trainer && fielding_kind e.kind then some e.monster_id else none
]

unfoldable pub is_damage : EventKind → Bool
is_damage EventKind.damage_dealt = true
is_damage _ = false

unfoldable pub add_hp : FieldedHp → ℕ → FieldedHp
add_hp p n = record p { hp = p.hp + n }

-- The loop of `FieldedHPAfter`, which gives back the damage of the later events.
unfoldable pub give_back :
    String → String → List Event → FieldedHp × FieldedHp → FieldedHp × FieldedHp
give_back you_id foe_id [] plates = plates
give_back you_id foe_id (e ∷ es) plates =
    let (you, foe) = give_back you_id foe_id es plates in
    if not (is_damage e.kind) || eqb e.damage 0
    then (you, foe)
    else if e.target_id == you_id
    then (add_hp you e.damage, foe)
    else if e.target_id == foe_id
    then (you, add_hp foe e.damage)
    else (you, foe)

unfoldable pub plate : SideState → String → FieldedHp
plate s id = elim (member_index s id) [
  | none ↦ no_plate
  | some i ↦ elim (get_elem? s.members i) [
    | none ↦ no_plate
    | some m ↦ record { monster_id = m.id; hp = m.hp; max_hp = m.max_hp }
  ]
]

module _ {M : Machine} where
  unfoldable pub blank_snapshot : Battle M → Snapshot
  blank_snapshot b = record {
    phase = b.state;
    turn = b.turn;
    winner = b.winner;
    reason = b.reason;
    your_party = [];
    foe_roster = [];
    you_locked = false;
    you_lock_kind = ActionKind.unset;
    foe_locked = false;
    replacement_required = false;
  }

  unfoldable pub snapshot_for : Battle M → Side → Option Snapshot
  unfolding blank_snapshot
  snapshot_for b you = do
    let s = pick b.sides you
    let foe = pick b.sides (other you)
    roster ← foe_roster_of foe foe.members
    some (record (blank_snapshot b) {
      your_party = own_party s.active 0 s.members;
      foe_roster = roster;
      you_locked = pick b.locked you;
      you_lock_kind = if pick b.locked you then pick b.lock_kind you else ActionKind.unset;
      foe_locked = pick b.locked (other you);
      replacement_required = is_awaiting_replacement b.state && awaits b.replace_side you;
    })

  unfoldable pub snapshot : Battle M → String → Option Snapshot
  unfolding blank_snapshot
  snapshot b viewer = elim (side_index b viewer) [
    | none ↦ some (blank_snapshot b)
    | some you ↦ snapshot_for b you
  ]

  unfoldable pub fielded_at : Battle M → Side → ℕ → Option String
  fielded_at b side n =
      let s = pick b.sides side in
      elim (last_fielded s.trainer (take n b.events)) [
        | some id ↦ some id
        | none ↦ do lead ← get_elem? s.members 0; some lead.id
      ]

  unfoldable pub fielded_hp_after : Battle M → String → ℕ → Option (FieldedHp × FieldedHp)
  fielded_hp_after b viewer n = elim (side_index b viewer) [
    | none ↦ some (no_plate, no_plate)
    | some view ↦ do
      let k = min n (length b.events)
      you_id ← fielded_at b view k
      foe_id ← fielded_at b (other view) k
      some (
          give_back you_id foe_id (drop k b.events)
            (plate (pick b.sides view) you_id, plate (pick b.sides (other view)) foe_id))
  ]
