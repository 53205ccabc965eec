-- ===== src/Battle/Start.antt =====
-- `New` and `initSide` of internal/battle/engine.go. The arguments are not nil here.
use termon.Prelude.{
  ℕ, String, ◌+++◌, false, ◌||◌, Option, none, some, List, [], ◌∷◌, max, ltb, ◌==◌, if◌then◌else◌,
  length, contains, ◌>>=◌,
}
use termon.Prelude.Dict.{lookup}
use termon.Machine.{Machine}
use termon.Content.{ContentSet, Species, level_legal_movepool}
use termon.Game.Xp.{natural_stat}
use termon.Battle.Types.{
  Side, both, pick, no_action, ActionKind, State, EndReason, EventKind, PartyMember, StatOverride,
  Party, Member, SideState,
}
use termon.Battle.State.{Battle, event, active_member, member_name, append_events}

pub data StartError : Type 0 where
  trainers_not_distinct : StartError
  party_size : String → StartError
  missing_monster_id : String → StartError
  duplicate_monster_id : String → String → StartError
  missing_species : String → String → StartError
  unknown_species : String → StartError
  loadout_size : String → String → StartError
  unknown_loadout_move : String → StartError
  invalid_stats : String → StartError

pub data Result {ℓ} (A : Type ℓ) : Type ℓ where
  ok : A → Result A
  err : StartError → Result A

-- The stats of a member: natural, with the Capture HP, with the normalized override.
unfoldable pub starting_stats : Species → ℕ → PartyMember → StatOverride
starting_stats spec level pm = elim pm.stats [
  | some s ↦ s
  | none ↦ record {
    hp = if ltb 0 pm.max_hp then pm.max_hp else natural_stat spec.base_stats.hp level;
    atk = natural_stat spec.base_stats.attack level;
    def = natural_stat spec.base_stats.defense level;
    spa = natural_stat spec.base_stats.sp_attack level;
    spe = natural_stat spec.base_stats.speed level;
  }
]

module _ {M : Machine} where
  -- The first loadout slug that is no Move.
  unfoldable pub missing_move : ContentSet M → List String → Option String
  missing_move set [] = none
  missing_move set (slug ∷ slugs) = elim (lookup slug set.moves) [
    | none ↦ some slug
    | some _ ↦ missing_move set slugs
  ]

  -- The checks and the member built for one Monster, past the checks on its id.
  unfoldable pub init_member : ContentSet M → String → PartyMember → Result Member
  init_member set trainer pm =
      let m = pm.monster in
      if m.species == ""
      then err (missing_species trainer m.id)
      else elim (lookup m.species set.species) [
        | none ↦ err (unknown_species m.species)
        | some spec ↦
            let level = max m.level 1 in
            let stats = starting_stats spec level pm in
            if ltb (length m.battle_loadout) 1 || ltb 4 (length m.battle_loadout)
            then err (loadout_size trainer m.id)
            else elim (missing_move set m.battle_loadout) [
              | some slug ↦ err (unknown_loadout_move slug)
              | none ↦
                  if ltb stats.hp 1 || ltb stats.def 1
                  then err (invalid_stats spec.slug)
                  else ok (record {
                    id = m.id;
                    species = m.species;
                    nickname = m.nickname;
                    level = level;
                    loadout = m.battle_loadout;
                    public_movepool = level_legal_movepool set m.species level;
                    spec = spec;
                    hp = stats.hp;
                    max_hp = stats.hp;
                    atk = stats.atk;
                    def = stats.def;
                    spa = stats.spa;
                    spe = stats.spe;
                    fainted = false;
                  })
            ]
      ]

  -- The loop over `p.Members`; `seen` holds the ids so far.
  unfoldable pub init_members :
      ContentSet M → String → List String → List PartyMember → Result (List Member)
  init_members set trainer seen [] = ok []
  init_members set trainer seen (pm ∷ pms) =
      let rest = init_members set trainer (pm.monster.id ∷ seen) pms in
      if pm.monster.id == ""
      then err (missing_monster_id trainer)
      else if contains seen pm.monster.id
      then err (duplicate_monster_id trainer pm.monster.id)
      else elim (init_member set trainer pm) [
        | err e ↦ err e
        | ok m ↦ elim rest [ err e ↦ err e | ok ms ↦ ok (m ∷ ms) ]
      ]

  unfoldable pub init_side : ContentSet M → Party → Result SideState
  init_side set p =
      if ltb (length p.members) 1 || ltb 3 (length p.members)
      then err (party_size p.trainer)
      else elim (init_members set p.trainer [] p.members) [
        | err e ↦ err e
        | ok ms ↦ ok (record {
          trainer = p.trainer;
          members = ms;
          active = 0;
          clamp_outgoing_damage = p.clamp_outgoing_damage;
        })
      ]

  unfoldable pub send_out : Battle M → Side → Option (Battle M)
  send_out b side = do
    let s = pick b.sides side
    m ← active_member s
    some (
        append_events b (
          record (event 0 EventKind.send_out ("Go! " +++ member_name m +++ "!")) {
            actor = s.trainer;
            monster_id = m.id;
            slot = s.active;
          }
          ∷ []))

  unfoldable pub emit_start_send_outs : Battle M → Option (Battle M)
  emit_start_send_outs b = do b1 ← send_out b Side.first; send_out b1 Side.second

  unfoldable pub fresh : ContentSet M → M.Rng → SideState → SideState → Battle M
  fresh set rng a b = record {
    content = set;
    rng = rng;
    sides = record { at_first = a; at_second = b };
    state = State.awaiting_actions;
    turn = 0;
    actions = both no_action;
    locked = both false;
    lock_kind = both ActionKind.unset;
    events = [];
    events_version = 0;
    winner = "";
    reason = EndReason.unset;
    replace_side = none;
  }

  unfoldable pub new : ContentSet M → Party → Party → M.Rng → Option (Result (Battle M))
  new set a b rng =
      if a.trainer == "" || b.trainer == "" || a.trainer == b.trainer
      then some (err trainers_not_distinct)
      else elim (init_side set a) [
        | err e ↦ some (err e)
        | ok sa ↦ elim (init_side set b) [
          | err e ↦ some (err e)
          | ok sb ↦ do b1 ← emit_start_send_outs (fresh set rng sa sb); some (ok b1)
        ]
      ]
