-- ===== src/Store/Mint.antt =====
-- New Monsters and the party check of internal/store/saveops.go.
use termon.Content.{ContentSet}
use termon.Machine.{Machine}
use termon.Prelude.{List, Option, String, [], contains, if◌then◌else◌, none, some, ◌==◌, ◌∷◌}
use termon.Prelude.Dict.{lookup}
use termon.Prelude.Int.{pos}
use termon.Store.{Monster, Save}
use termon.Store.Moves.{evolution_pending, first_four_movepool}
use termon.Store.Rewards.{
  IdSource, StoreError, find_monster, id_failed, invalid_party, short_movepool, unknown_species,
}

-- `done` is a result with a nil error.
pub data Reply {ℓ} (A : Type ℓ) : Type ℓ where
  done : A → Reply A
  failed : StoreError → Reply A

-- The loop of `validatePartyIDs`.
unfoldable pub party_refusal : Save → List String → List String → Option StoreError
party_refusal save seen [] = none
party_refusal save seen (id ∷ ids) =
    let skip = party_refusal save seen ids in
    let rest = party_refusal save (id ∷ seen) ids in
    if id == ""
    then skip
    else if contains seen id
    then some invalid_party
    else elim (find_monster save id) [ none ↦ some invalid_party | some i ↦ rest ]

unfoldable pub validate_party_ids : Save → List String → Option StoreError
unfolding party_refusal
validate_party_ids save party = party_refusal save [] party

module _ {M : Machine} where
  unfoldable pub monster_for_species : ContentSet M → String → String → Reply Monster
  monster_for_species content species id = elim (lookup species content.species) [
    | none ↦ failed unknown_species
    | some sp ↦ elim (first_four_movepool sp) [
      | none ↦ failed short_movepool
      | some moves ↦ done (record {
        id = id;
        species = species;
        nickname = "";
        xp = pos 0;
        level = 1;
        move_library = moves;
        battle_loadout = moves;
        evolution_pending = evolution_pending content species 1;
      })
    ]
  ]

-- The Monster, or the error, and the ids that are left.
unfoldable pub mint_starter_monster :
    {M : Machine} (S : IdSource) → ContentSet M → String → S.Supply → Reply Monster × S.Supply
mint_starter_monster S content species supply =
    let (id, rest) = S.new_id supply in
    elim id [
      | none ↦ (failed id_failed, rest)
      | some fresh ↦ (monster_for_species content species fresh, rest)
    ]
