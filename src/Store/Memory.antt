-- ===== src/Store/Memory.antt =====
-- internal/store/memory.go: the in-memory back end. A call holds the lock from its first read to its
-- return, so it is one function on the store; rows that the source shares by pointer are read again
-- where they are used. The content, the codec, the ids and the times of a call are its arguments.
use termon.Prelude.{Option, String, [], none, some, ℕ}
use termon.Prelude.Dict.{Dict, lookup}
use termon.Store.{Save}
use termon.Store.Mint.{Reply, done, failed}
use termon.Store.Records.{ActivityResult, BattleResult, SessionRecord}
use termon.Store.Rewards.{IdSource, StoreError}
pub mod Trainers
pub mod Battles
pub mod Activities
pub mod Saves
pub mod Requests
pub mod Starters
pub mod Sound
pub mod Payouts
pub mod History
pub mod Atomic
pub mod Lasting
pub mod Repeats
pub mod Solo
pub mod Miscount

-- A row of `trainers`; `save` is nil before onboarding.
pub record MemoryTrainer : Type 0 where
  pub id : String
  pub handle : String
  pub wins : ℕ
  pub losses : ℕ
  pub save : Option Save
  pub version : ℕ
  pub created_at : ℕ

pub record StoredBattle : Type 0 where
  pub result : BattleResult
  pub body : String

-- `supply` is the state of the random source behind `newOpaqueID`.
pub record MemoryStore (S : IdSource) : Type 0 where
  pub credentials : Dict String
  pub trainers : Dict MemoryTrainer
  pub battles : Dict StoredBattle
  pub activities : Dict ActivityResult
  pub sessions : Dict SessionRecord
  pub fail_results : ℕ
  pub fail_loads : ℕ
  pub supply : S.Supply

-- A store after a call, with what the call returned.
pub record Answer (S : IdSource) (A : Type 0) : Type 0 where
  pub store : MemoryStore S
  pub reply : Reply A

-- A Trainer as callers see it.
pub record Trainer : Type 0 where
  pub id : String
  pub save : Option Save

unfoldable pub new_memory_store : (S : IdSource) → S.Supply → MemoryStore S
new_memory_store S supply = record {
  credentials = [];
  trainers = [];
  battles = [];
  activities = [];
  sessions = [];
  fail_results = 0;
  fail_loads = 0;
  supply = supply;
}

unfoldable pub clone_memory_trainer : MemoryTrainer → Trainer
clone_memory_trainer row = record {
  id = row.id;
  save = elim row.save [
    | none ↦ none
    | some save ↦ some (record save { wins = row.wins; losses = row.losses; handle = row.handle })
  ];
}

-- The Save of a row that is there and onboarded.
unfoldable pub save_of : {S : IdSource} → MemoryStore S → String → Option Save
unfolding lookup
save_of s id = elim (lookup id s.trainers) [ none ↦ none | some row ↦ row.save ]

abbrev pub refuse : {S : IdSource} {A : Type 0} → MemoryStore S → StoreError → Answer S A
refuse s e = record { store = s; reply = failed e }

abbrev pub answer : {S : IdSource} {A : Type 0} → MemoryStore S → A → Answer S A
answer s a = record { store = s; reply = done a }
