-- ===== src/Store/Memory/Activities.antt =====
-- `RecordActivityResult`, `ActivityExists` and `ActivityResult` of internal/store/memory.go.
use termon.Content.{ContentSet}
use termon.Machine.{Machine}
use termon.Prelude.{Bool, Option, String, false, if◌then◌else◌, none, not, some, true, ◌==◌}
use termon.Prelude.Dict.{Dict, insert, lookup}
use termon.Store.{Save}
use termon.Store.Memory.{Answer, MemoryStore, MemoryTrainer, answer, refuse}
use termon.Store.Mint.{Reply, done, failed}
use termon.Store.Records.{ActivityResult, Codec, canonical_activity_payload}
use termon.Store.Rewards.{ActivityRecord, IdSource, id_failed, not_found, result_conflict}
use termon.Store.Transition.{ActivityTransition, plan_activity_transition}

-- A mastery record is written only where its key is free.
unfoldable pub add_mastery : Dict ActivityResult → Option ActivityResult → Dict ActivityResult
add_mastery activities none = activities
add_mastery activities (some mastery) = elim (lookup mastery.natural_key activities) [
  | none ↦ insert mastery.natural_key mastery activities
  | some _ ↦ activities
]

module _ {S : IdSource} where
  unfoldable pub commit_activity :
      MemoryStore S
      → ActivityRecord
      → MemoryTrainer
      → Reply ActivityTransition
      → Answer S (Option Save)
  unfolding add_mastery
  commit_activity s rec row (failed e) = refuse s e
  commit_activity s rec row (done t) =
      answer
        (record s {
          activities = add_mastery (insert rec.natural_key t.result s.activities) t.daily_mastery;
          trainers = insert rec.trainer_id (record row { save = some t.save }) s.trainers;
        })
        (some t.save)

  -- The seed that was drawn, or the failure to draw one.
  unfoldable pub seed_activity :
      {M : Machine}
      → ContentSet M
      → Codec
      → MemoryStore S
      → ActivityRecord
      → MemoryTrainer
      → Save
      → Option String × S.Supply
      → Answer S (Option Save)
  unfolding commit_activity
  seed_activity content codec s rec row save (none, rest) =
      refuse (record s { supply = rest }) id_failed
  seed_activity content codec s rec row save (some seed, rest) =
      commit_activity (record s { supply = rest }) rec row
        (plan_activity_transition content codec seed save rec)

  -- `none` is a panic: the key is there and the Trainer is not. A Trainer without a Save gives back nil.
  unfoldable pub record_activity_result :
      {M : Machine}
      → ContentSet M
      → Codec
      → MemoryStore S
      → ActivityRecord
      → Option (Answer S (Option Save))
  unfolding seed_activity
  record_activity_result content codec s rec = elim (lookup rec.natural_key s.activities) [
    | some existing ↦
        if not (existing.payload == canonical_activity_payload codec rec)
        then some (refuse s result_conflict)
        else elim (lookup rec.trainer_id s.trainers) [
          | none ↦ none
          | some row ↦ some (answer s row.save)
        ]
    | none ↦ elim (lookup rec.trainer_id s.trainers) [
      | none ↦ some (refuse s not_found)
      | some row ↦ elim row.save [
        | none ↦ some (refuse s not_found)
        | some save ↦ some (seed_activity content codec s rec row save (S.new_id s.supply))
      ]
    ]
  ]

  unfoldable pub activity_result_of : MemoryStore S → String → String → Option ActivityResult
  activity_result_of s trainer_id natural_key = elim (lookup natural_key s.activities) [
    | none ↦ none
    | some act ↦ if not (act.trainer_id == trainer_id) then none else some act
  ]

  unfoldable pub activity_exists : MemoryStore S → String → String → Bool
  activity_exists s trainer_id natural_key = elim (lookup natural_key s.activities) [
    | none ↦ false
    | some act ↦ if not (act.trainer_id == trainer_id) then false else true
  ]
