-- ===== src/Store/Memory/Saves.antt =====
-- The calls of internal/store/memory.go that change one Save: `mutateSave` and what goes through it.
use termon.Content.{ContentSet}
use termon.Game.Nickname.{Letters, validate_nickname}
use termon.Machine.{Machine}
use termon.Prelude.{List, String, get_elem?, if◌then◌else◌, none, some, ℕ}
use termon.Prelude.Dict.{insert, lookup}
use termon.Store.{Monster, Save}
use termon.Store.Memory.{Answer, MemoryStore, MemoryTrainer, answer, refuse}
use termon.Store.Mint.{validate_party_ids}
use termon.Store.Moves.{validate_loadout}
use termon.Store.Rewards.{
  IdSource, Rewarded, StoreError, accept_evolution, find_monster, invalid_loadout, invalid_nickname,
  not_found, remove_notices, unknown_monster, validate_save, write_monster,
}

module _ {M : Machine} {S : IdSource} (content : ContentSet M) where
  -- What `fn` did to the clone: an error leaves the row alone.
  unfoldable pub write_save : MemoryStore S → String → MemoryTrainer → Rewarded S → Answer S Save
  write_save s trainer_id row r =
      let drawn = record s { supply = r.supply } in
      let (checked, error) = validate_save content r.save in
      elim r.error [
        | some e ↦ refuse drawn e
        | none ↦ elim error [
          | some e ↦ refuse drawn e
          | none ↦
              answer
                (record drawn {
                  trainers = insert trainer_id (record row { save = some checked }) s.trainers;
                })
                checked
        ]
      ]

  unfoldable pub mutate_save :
      MemoryStore S → String → (Save → S.Supply → Rewarded S) → Answer S Save
  unfolding write_save
  mutate_save s trainer_id change = elim (lookup trainer_id s.trainers) [
    | none ↦ refuse s not_found
    | some row ↦ elim row.save [
      | none ↦ refuse s not_found
      | some save ↦ write_save s trainer_id row (change save s.supply)
    ]
  ]

abbrev refused : (S : IdSource) → Save → S.Supply → StoreError → Rewarded S
refused S save supply e = record { save = save; supply = supply; error = some e }

abbrev accepted : (S : IdSource) → Save → S.Supply → Rewarded S
accepted S save supply = record { save = save; supply = supply; error = none }

unfoldable pub party_change : (S : IdSource) → List String → Save → S.Supply → Rewarded S
party_change S party save supply = elim (validate_party_ids save party) [
  | some e ↦ refused S save supply e
  | none ↦ accepted S (record save { party = party }) supply
]

-- The change of the Monster that has the id.
unfoldable pub monster_change :
    (S : IdSource) → String → (Save → ℕ → Monster → Rewarded S) → Save → S.Supply → Rewarded S
monster_change S id change save supply = elim (find_monster save id) [
  | none ↦ refused S save supply unknown_monster
  | some i ↦ elim (get_elem? save.collection i) [
    | none ↦ refused S save supply unknown_monster
    | some m ↦ change save i m
  ]
]

unfoldable pub loadout_change :
    (S : IdSource) → String → List String → List String → Save → S.Supply → Rewarded S
unfolding monster_change
loadout_change S id moves notice_ids save supply =
    monster_change S id
      (λ s i m.
        if validate_loadout m.move_library moves
        then accepted S
            (remove_notices (write_monster s i (record m { battle_loadout = moves })) notice_ids)
            supply
        else refused S s supply invalid_loadout)
      save supply

unfoldable pub nickname_change : (S : IdSource) → String → String → Save → S.Supply → Rewarded S
unfolding monster_change
nickname_change S id nickname save supply =
    monster_change S id
      (λ s i m. accepted S (write_monster s i (record m { nickname = nickname })) supply) save
      supply

unfoldable pub notices_change : (S : IdSource) → List String → Save → S.Supply → Rewarded S
notices_change S notice_ids save supply = accepted S (remove_notices save notice_ids) supply

unfoldable pub evolution_change :
    {M : Machine} (S : IdSource) → ContentSet M → String → Save → S.Supply → Rewarded S
evolution_change S content monster_id save supply = accept_evolution content save monster_id supply

module _ {M : Machine} {S : IdSource} (content : ContentSet M) where
  unfoldable pub set_party : MemoryStore S → String → List String → Answer S Save
  unfolding mutate_save party_change
  set_party s trainer_id party = mutate_save content s trainer_id (party_change S party)

  unfoldable pub set_battle_loadout :
      MemoryStore S → String → String → List String → List String → Answer S Save
  unfolding mutate_save loadout_change
  set_battle_loadout s trainer_id monster_id moves notice_ids =
      mutate_save content s trainer_id (loadout_change S monster_id moves notice_ids)

  unfoldable pub acknowledge_progression_notices :
      MemoryStore S → String → List String → Answer S Save
  unfolding mutate_save notices_change
  acknowledge_progression_notices s trainer_id notice_ids =
      mutate_save content s trainer_id (notices_change S notice_ids)

  unfoldable pub set_nickname : Letters → MemoryStore S → String → String → String → Answer S Save
  unfolding mutate_save nickname_change
  set_nickname letters s trainer_id monster_id nickname =
      elim (validate_nickname letters nickname) [
        | none ↦ refuse s invalid_nickname
        | some validated ↦ mutate_save content s trainer_id (nickname_change S monster_id validated)
      ]

  unfoldable pub store_accept_evolution : MemoryStore S → String → String → Answer S Save
  unfolding mutate_save evolution_change
  store_accept_evolution s trainer_id monster_id =
      mutate_save content s trainer_id (evolution_change S content monster_id)
