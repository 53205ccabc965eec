-- ===== src/Store/Memory/Trainers.antt =====
-- Credentials, onboarding and sessions of internal/store/memory.go.
use termon.Prelude.{
  List, Option, String, [], eqb, if◌then◌else◌, length, ltb, none, some, ℕ, ◌-◌, ◌==◌, ◌∷◌,
}
use termon.Content.{ContentSet}
use termon.Machine.{Machine}
use termon.Prelude.Dict.{Dict, insert, lookup}
use termon.Store.{Monster, Save}
use termon.Store.Memory.{
  Answer, MemoryStore, MemoryTrainer, Trainer, answer, clone_memory_trainer, refuse,
}
use termon.Store.Mint.{Reply, done, failed, mint_starter_monster}
use termon.Store.Records.{ActivityResult, SessionRecord}
use termon.Store.Rewards.{IdSource, already_onboarded, injected_failure, not_found, not_one_starter}

-- The row with its first Save.
abbrev pub onboarded : MemoryTrainer → Save → Monster → MemoryTrainer
onboarded row save starter = record row {
  handle = save.handle;
  wins = save.wins;
  losses = save.losses;
  version = 1;
  save = some (record {
    handle = save.handle;
    wins = save.wins;
    losses = save.losses;
    collection = starter ∷ [];
    party = starter.id ∷ "" ∷ "" ∷ [];
    notices = [];
  });
}

-- `delete` for every activity of the Trainer.
unfoldable pub drop_activities : String → Dict ActivityResult → Dict ActivityResult
drop_activities id [] = []
drop_activities id ((key, act) ∷ rest) =
    let kept = drop_activities id rest in if act.trainer_id == id then kept else (key, act) ∷ kept

module _ {S : IdSource} where
  -- The clone of a row that is missing is nil.
  unfoldable pub cloned : MemoryStore S → String → Option Trainer
  cloned s id = elim (lookup id s.trainers) [
    | none ↦ none
    | some row ↦ some (clone_memory_trainer row)
  ]

  unfoldable pub resolve_credential : MemoryStore S → String → Answer S (Option Trainer)
  unfolding cloned
  resolve_credential s credential = elim (lookup credential s.credentials) [
    | none ↦ refuse s not_found
    | some id ↦ answer s (cloned s id)
  ]

  unfoldable pub create_trainer : MemoryStore S → String → ℕ → Answer S (Option Trainer)
  unfolding cloned
  create_trainer s credential now = elim (lookup credential s.credentials) [
    | some id ↦ answer s (cloned s id)
    | none ↦
        let row : MemoryTrainer = record {
          id = credential;
          handle = "";
          wins = 0;
          losses = 0;
          save = none;
          version = 0;
          created_at = now;
        } in
        answer
          (record s {
            credentials = insert credential credential s.credentials;
            trainers = insert credential row s.trainers;
          })
          (some (clone_memory_trainer row))
  ]

  unfoldable pub load_trainer : MemoryStore S → String → Answer S Trainer
  load_trainer s id =
      if ltb 0 s.fail_loads
      then refuse (record s { fail_loads = s.fail_loads - 1 }) injected_failure
      else elim (lookup id s.trainers) [
        | none ↦ refuse s not_found
        | some row ↦ answer s (clone_memory_trainer row)
      ]

  -- The starter's id is drawn even when its species is refused.
  unfoldable pub onboard :
      MemoryStore S → String → MemoryTrainer → Save → Reply Monster × S.Supply → Answer S Unit
  onboard s id row save (failed e, rest) = refuse (record s { supply = rest }) e
  onboard s id row save (done starter, rest) =
      answer
        (record s { trainers = insert id (onboarded row save starter) s.trainers; supply = rest })
        tt

  -- Onboarding requires one starter.
  unfoldable pub onboarding_of :
      {M : Machine}
      → ContentSet M
      → MemoryStore S
      → String
      → MemoryTrainer
      → Save
      → List Monster
      → Answer S Unit
  unfolding onboard
  onboarding_of content s id row save [] = refuse s not_one_starter
  onboarding_of content s id row save (m ∷ ms) =
      if eqb (length ms) 0
      then onboard s id row save (mint_starter_monster S content m.species s.supply)
      else refuse s not_one_starter

  unfoldable pub complete_onboarding :
      {M : Machine} → ContentSet M → MemoryStore S → String → Save → Answer S Unit
  unfolding onboarding_of
  complete_onboarding content s id save = elim (lookup id s.trainers) [
    | none ↦ refuse s not_found
    | some row ↦ elim row.save [
      | some _ ↦ refuse s already_onboarded
      | none ↦ onboarding_of content s id row save save.collection
    ]
  ]

  unfoldable pub reset_trainer : MemoryStore S → String → Answer S Unit
  unfolding drop_activities
  reset_trainer s id = elim (lookup id s.trainers) [
    | none ↦ refuse s not_found
    | some row ↦
        answer
          (record s {
            trainers =
                insert id
                  (record row { handle = ""; wins = 0; losses = 0; save = none; version = 0 })
                  s.trainers;
            activities = drop_activities id s.activities;
          })
          tt
  ]

  unfoldable pub start_session : MemoryStore S → SessionRecord → Answer S Unit
  start_session s rec = elim (lookup rec.trainer_id s.trainers) [
    | none ↦ refuse s not_found
    | some _ ↦ elim (lookup rec.id s.sessions) [
      | some _ ↦ answer s tt
      | none ↦ answer (record s { sessions = insert rec.id rec s.sessions }) tt
    ]
  ]

  unfoldable pub end_session : MemoryStore S → String → ℕ → String → Answer S Unit
  end_session s session_id ended_at reason = elim (lookup session_id s.sessions) [
    | none ↦ answer s tt
    | some rec ↦ elim rec.ended_at [
      | some _ ↦ answer s tt
      | none ↦
          answer
            (record s {
              sessions =
                  insert session_id (record rec { ended_at = some ended_at; end_reason = reason })
                    s.sessions;
            })
            tt
    ]
  ]
