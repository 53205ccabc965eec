-- ===== src/Battle/Hiding.antt =====
-- What `Snapshot` of internal/battle/engine.go keeps from a client about the other side.
use termon.Prelude.{
  ◌≡◌, refl, ◌∙◌, String, some, List, [], ◌∷◌, ◌==◌, eq_iff, arith, inl, inr, Bool-cases,
}
use termon.Machine.{Machine}
use termon.Battle.Types.{Side, other, pick, Member, SideState}
use termon.Battle.State.{Battle, active_member, member_name, side_index}
use termon.Battle.Views.{foe_member, foe_roster_of, blank_snapshot, snapshot_for, snapshot}

-- Two members that a client cannot tell apart, given the id of the active one: a reserve may differ
-- in HP, level, loadout and stats.
abbrev pub Alike : String → Member → Member → Type 0
Alike active m m' =
    (m'.id ≡ m.id)
    × (member_name m' ≡ member_name m)
    × (m'.spec.slug ≡ m.spec.slug)
    × (m'.fainted ≡ m.fainted)
    × (m.id ≡ active → (m'.hp ≡ m.hp) × (m'.max_hp ≡ m.max_hp))

abbrev pub AllAlike : String → List Member → List Member → Type 0
AllAlike active [] [] = Unit
AllAlike active (m ∷ ms) (m' ∷ ms') = Alike active m m' × AllAlike active ms ms'
AllAlike active _ _ = ⊥

-- Two Battles that agree on what is shown to the side `t`. The chosen actions, the content, the log
-- and the random source may differ, and so may the kind of the other side's locked action.
pub record SameToViewer {M : Machine} (t : Side) (b c : Battle M) : Type 0 where
  pub own : pick c.sides t ≡ pick b.sides t
  pub trainers : (u : Side) → (pick c.sides u).trainer ≡ (pick b.sides u).trainer
  pub locked : c.locked ≡ b.locked
  pub own_kind : pick c.lock_kind t ≡ pick b.lock_kind t
  pub state : c.state ≡ b.state
  pub turn : c.turn ≡ b.turn
  pub winner : c.winner ≡ b.winner
  pub reason : c.reason ≡ b.reason
  pub replace_side : c.replace_side ≡ b.replace_side

foe_member-Alike :
    (act act' m m' : Member)
    → act'.id ≡ act.id
    → Alike act.id m m'
    → foe_member act' m' ≡ foe_member act m
unfolding foe_member
foe_member-Alike act act' m m' e h = elim (Bool-cases (m.id == act.id)) [
  | inl same ↦
      let (hp, max_hp) = h.4 (ground (arith, eq_iff m.id act.id)) in
      ground (arith, e, h.0, h.1, h.2, h.3, hp, max_hp)
  | inr reserve ↦ ground (arith, e, h.0, h.1, h.2, h.3)
]

foe_roster_of-AllAlike :
    (s s' : SideState) (act act' : Member) (ms ms' : List Member)
    → active_member s ≡ some act
    → active_member s' ≡ some act'
    → act'.id ≡ act.id
    → AllAlike act.id ms ms'
    → foe_roster_of s' ms' ≡ foe_roster_of s ms
unfolding foe_roster_of
foe_roster_of-AllAlike s s' act act' [] [] e g i h = refl
foe_roster_of-AllAlike s s' act act' [] (m' ∷ ms') e g i h = absurd h
foe_roster_of-AllAlike s s' act act' (m ∷ ms) [] e g i h = absurd h
foe_roster_of-AllAlike s s' act act' (m ∷ ms) (m' ∷ ms') e g i h =
    rw
      (
        e,
        g,
        foe_roster_of-AllAlike s s' act act' ms ms' e g i h.1,
        foe_member-Alike act act' m m' i h.0,
      )
      refl

module _ {M : Machine} where
  side_index-Same :
      (t : Side) (b c : Battle M) (viewer : String)
      → SameToViewer t b c
      → side_index c viewer ≡ side_index b viewer
  unfolding side_index
  side_index-Same t b c viewer h = rw (h.trainers Side.first, h.trainers Side.second) refl

  -- Take two Battles that agree on the phase, the turn, the result, the locks, the pending replacement
  -- and the viewer's own side, and whose other sides agree on each Monster's id, name, species and
  -- fainted mark and on the active Monster's id, HP and maximal HP. `Snapshot` gives the viewer the same
  -- in both. So a client learns nothing of the other side's action, of its kind, or of the loadouts,
  -- levels, stats and HP of its reserves.
  pub snapshot-SameToViewer :
      (b c : Battle M) (viewer : String) (t : Side) (act act' : Member)
      → side_index b viewer ≡ some t
      → SameToViewer t b c
      → active_member (pick b.sides (other t)) ≡ some act
      → active_member (pick c.sides (other t)) ≡ some act'
      → act'.id ≡ act.id
      → AllAlike act.id (pick b.sides (other t)).members (pick c.sides (other t)).members
      → snapshot c viewer ≡ snapshot b viewer
  unfolding snapshot snapshot_for blank_snapshot
  snapshot-SameToViewer b c viewer t act act' v h e g i alike =
      let roster =
        foe_roster_of-AllAlike (pick b.sides (other t)) (pick c.sides (other t)) act act' _ _ e g i
          alike in
      let v' = side_index-Same t b c viewer h ∙ v in
      rw
        (
          snapshot, v, v', snapshot_for, roster, h.own, h.locked, h.own_kind, h.state, h.turn,
          h.winner, h.reason, h.replace_side,
        )
        refl
