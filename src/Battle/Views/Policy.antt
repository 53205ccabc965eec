-- ===== src/Battle/Views/Policy.antt =====
-- internal/battle/policyview.go: the inputs of a Dojo policy. A nil slice and an empty one are one.
use termon.Prelude.{
  ℕ, ◌+◌, String, Bool, true, false, ◌&&◌, not, Option, none, some, List, [], ◌∷◌, ◌++◌, eqb, ◌==◌,
  if◌then◌else◌, contains, ◌>>=◌,
}
use termon.Machine.{Machine}
use termon.Content.{ContentSet, level_legal_movepool}
use termon.Battle.Types.{other, pick, Event, EventKind, Member, SideState}
use termon.Battle.State.{Battle, active_member, side_index}

pub record PolicyMember : Type 0 where
  pub id : String
  pub species : String
  pub kind : String
  pub level : ℕ
  pub hp : ℕ
  pub max_hp : ℕ
  pub atk : ℕ
  pub def : ℕ
  pub spa : ℕ
  pub spe : ℕ
  pub loadout : List String
  pub public_movepool : List String
  pub active : Bool
  pub fainted : Bool

pub record PolicyFoe : Type 0 where
  pub id : String
  pub species : String
  pub kind : String
  pub level : ℕ
  pub hp : ℕ
  pub max_hp : ℕ
  pub atk : ℕ
  pub def : ℕ
  pub spa : ℕ
  pub spe : ℕ
  pub active : Bool
  pub fainted : Bool
  pub revealed_moves : List String
  pub public_movepool : List String

pub record PolicyView : Type 0 where
  pub viewer : String
  pub turn : ℕ
  pub self : List PolicyMember
  pub foe_active : Option PolicyFoe
  pub foe_roster : List PolicyFoe

unfoldable pub policy_member_from : Member → Bool → PolicyMember
policy_member_from m active = record {
  id = m.id;
  species = m.spec.slug;
  kind = m.spec.kind;
  level = m.level;
  hp = m.hp;
  max_hp = m.max_hp;
  atk = m.atk;
  def = m.def;
  spa = m.spa;
  spe = m.spe;
  loadout = m.loadout;
  public_movepool = m.public_movepool;
  active = active;
  fainted = m.fainted;
}

unfoldable pub policy_members : ℕ → ℕ → List Member → List PolicyMember
policy_members active slot [] = []
policy_members active slot (m ∷ ms) =
    policy_member_from m (eqb slot active) ∷ policy_members active (slot + 1) ms

abbrev pub is_move_used : EventKind → Bool
is_move_used EventKind.move_used = true
is_move_used _ = false

-- The distinct Moves that a Monster has used, in the order of the log.
unfoldable pub revealed_moves : String → List String → List Event → List String
revealed_moves id seen [] = seen
revealed_moves id seen (e ∷ es) =
    revealed_moves id
      (if is_move_used e.kind && e.monster_id == id && not (contains seen e.move_slug)
        then seen ++ (e.move_slug ∷ [])
        else seen)
      es

unfoldable pub policy_foe : List Event → Member → Member → PolicyFoe
policy_foe events active m =
    let is_active = m.id == active.id in
    record {
      id = m.id;
      species = m.spec.slug;
      kind = m.spec.kind;
      level = m.level;
      hp = if is_active then m.hp else 0;
      max_hp = m.max_hp;
      atk = m.atk;
      def = m.def;
      spa = m.spa;
      spe = m.spe;
      active = is_active;
      fainted = m.fainted;
      revealed_moves = revealed_moves m.id [] events;
      public_movepool = m.public_movepool;
    }

unfoldable pub policy_roster : List Event → SideState → List Member → Option (List PolicyFoe)
policy_roster events s [] = some []
policy_roster events s (m ∷ ms) = do
  active ← active_member s
  rest ← policy_roster events s ms
  some (policy_foe events active m ∷ rest)

-- The last roster entry marked active, as the loop's writes to `FoeActive` leave it.
unfoldable pub last_active : List PolicyFoe → Option PolicyFoe
last_active [] = none
last_active (f ∷ fs) = elim (last_active fs) [
  | some g ↦ some g
  | none ↦ if f.active then some f else none
]

module _ {M : Machine} where
  -- The outer `none` is a panic, the inner one is `ok` false.
  unfoldable pub policy_view_for : Battle M → String → Option (Option PolicyView)
  policy_view_for b trainer = elim (side_index b trainer) [
    | none ↦ some none
    | some i ↦ do
      let s = pick b.sides i
      let foe = pick b.sides (other i)
      roster ← policy_roster b.events foe foe.members
      some (
          some (record {
            viewer = trainer;
            turn = b.turn;
            self = policy_members s.active 0 s.members;
            foe_active = last_active roster;
            foe_roster = roster;
          }))
  ]

  unfoldable pub policy_movepool : ContentSet M → PolicyFoe → List String
  policy_movepool set foe = elim foe.public_movepool [
    | [] ↦ level_legal_movepool set foe.species foe.level
    | m ∷ ms ↦ m ∷ ms
  ]
