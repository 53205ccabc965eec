-- ===== src/Battle/Invariant.antt =====
-- What holds of the sides and the log of a Battle at every point of internal/battle/engine.go, and
-- how the code may change them. The children prove it of each function.
pub mod Lemmas
pub mod Goes
pub mod Writes
pub mod Moves
pub mod Opening
pub mod Turns
pub mod Closing
pub mod Select
pub mod Reserves
pub mod Steps
pub mod Begin
use termon.Prelude.{
  ℕ, ◌+◌, ◌≤◌, ◌<◌, ◌≡◌, ◌≢◌, String, Bool, true, false, Option, none, some, List, [], ◌∷◌, ◌++◌,
  map, eqb, ◌==◌, if◌then◌else◌, length, All, IsDistinct, contains, Runs,
}
use termon.Battle.Types.{Side, other, Pair, pick, Event, EventKind, Member, SideState}
use termon.Battle.State.{active_member}
use termon.Battle.Views.{is_damage, fielding_kind, last_fielded}

abbrev pub ids : List Member → List String
ids = map (λ (m : Member). m.id)

-- HP stays within its bounds, and fainted means HP 0.
abbrev pub MemberOk : Member → Type 0
MemberOk m = (m.hp ≤ m.max_hp) × (1 ≤ m.max_hp) × (m.fainted ≡ eqb m.hp 0)

pub record SideOk (s : SideState) : Type 0 where
  pub members : All MemberOk s.members
  pub active : s.active < length s.members
  pub distinct : IsDistinct (ids s.members)

-- The log's last fielding event of the Trainer names the active Monster.
abbrev pub Shown : List Event → SideState → Type 0
Shown events s = Runs (λ m. last_fielded s.trainer events ≡ some m.id) (active_member s)

pub record Sound (p : Pair SideState) (events : List Event) : Type 0 where
  pub sides : (t : Side) → SideOk (pick p t)
  pub shown : (t : Side) → Shown events (pick p t)
  pub rivals : p.at_first.trainer ≢ p.at_second.trainer

-- The HP that the log takes from the Monster with an id.
abbrev pub damage_to : String → List Event → ℕ
damage_to id [] = 0
damage_to id (e ∷ es) =
    let rest = damage_to id es in
    if is_damage e.kind then (if e.target_id == id then e.damage + rest else rest) else rest

-- Member by member, the HP before is the HP after and the damage in the log.
abbrev pub Wounded : List Event → List Member → List Member → Type 0
Wounded log [] [] = Unit
Wounded log (m ∷ ms) (m' ∷ ms') =
    (m'.id ≡ m.id)
    × (m'.max_hp ≡ m.max_hp)
    × (m.hp ≡ m'.hp + damage_to m.id log)
    × Wounded log ms ms'
Wounded log _ _ = ⊥

-- No Monster id stands in both parties.
abbrev pub IsApart : Pair SideState → Type 0
IsApart p =
    (t : Side)
    → All (λ id. contains (ids (pick p (other t)).members) id ≡ false) (ids (pick p t).members)

pub record Passage (p p' : Pair SideState) (log : List Event) : Type 0 where
  pub trainers : (t : Side) → (pick p' t).trainer ≡ (pick p t).trainer
  pub members : (t : Side) → ids (pick p' t).members ≡ ids (pick p t).members
  pub wounds : IsApart p → (t : Side) → Wounded log (pick p t).members (pick p' t).members

-- An event that neither fields a Monster nor deals damage.
abbrev pub Quiet : List Event → Type 0
Quiet = All (λ e. (fielding_kind e.kind ≡ false) × (is_damage e.kind ≡ false))
