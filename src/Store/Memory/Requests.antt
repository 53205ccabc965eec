-- ===== src/Store/Memory/Requests.antt =====
-- The calls of the Store interface of internal/store/store.go that change a store, as values, and a
-- history of them on internal/store/memory.go.
use termon.Store.Memory.Activities.{record_activity_result}
use termon.Store.Memory.Battles.{record_battle_result}
use termon.Content.{ContentSet}
use termon.Game.Nickname.{Letters}
use termon.Machine.{Machine}
use termon.Prelude.{List, Option, String, [], none, some, ℕ, ◌∷◌}
use termon.Store.{Save}
use termon.Store.Memory.{Answer, MemoryStore}
use termon.Store.Memory.Saves.{
  acknowledge_progression_notices, set_battle_loadout, set_nickname, set_party,
  store_accept_evolution,
}
use termon.Store.Memory.Trainers.{
  complete_onboarding, create_trainer, end_session, load_trainer, reset_trainer, start_session,
}
use termon.Store.Mint.{Reply, done, failed}
use termon.Store.Records.{BattleRecord, Codec, SessionRecord}
use termon.Store.Rewards.{ActivityRecord, IdSource, StoreError}

pub data Request : Type 0 where
  create : String → ℕ → Request
  load reset : String → Request
  onboarding : String → Save → Request
  battle : BattleRecord → Request
  activity : ActivityRecord → Request
  party : String → List String → Request
  loadout : String → String → List String → List String → Request
  acknowledge : String → List String → Request
  nickname : String → String → String → Request
  evolve : String → String → Request
  open_session : SessionRecord → Request
  close_session : String → ℕ → String → Request

-- A store after a call, and its error; `none` is nil.
pub record Served (S : IdSource) : Type 0 where
  pub store : MemoryStore S
  pub error : Option StoreError

abbrev pub error_of : {A : Type 0} → Reply A → Option StoreError
error_of (done a) = none
error_of (failed e) = some e

abbrev pub served : {S : IdSource} {A : Type 0} → Answer S A → Served S
served a = record { store = a.store; error = error_of a.reply }

-- A panic has written nothing, and the deferred unlock runs.
abbrev pub served_or_panicked :
    {S : IdSource} {A : Type 0} → MemoryStore S → Option (Answer S A) → Served S
served_or_panicked s none = record { store = s; error = none }
served_or_panicked s (some a) = served a

module _ {M : Machine} {S : IdSource} (content : ContentSet M) (codec : Codec)
    (letters : Letters) where
  unfoldable pub handle : MemoryStore S → Request → Served S
  handle s (create credential now) = served (create_trainer s credential now)
  handle s (load id) = served (load_trainer s id)
  handle s (reset id) = served (reset_trainer s id)
  handle s (onboarding id save) = served (complete_onboarding content s id save)
  handle s (battle rec) = served (record_battle_result content codec s rec)
  handle s (activity rec) = served_or_panicked s (record_activity_result content codec s rec)
  handle s (party id slots) = served (set_party content s id slots)
  handle s (loadout id monster moves notices) =
      served (set_battle_loadout content s id monster moves notices)
  handle s (acknowledge id notices) = served (acknowledge_progression_notices content s id notices)
  handle s (nickname id monster name) = served (set_nickname content letters s id monster name)
  handle s (evolve id monster) = served (store_accept_evolution content s id monster)
  handle s (open_session rec) = served (start_session s rec)
  handle s (close_session id at reason) = served (end_session s id at reason)

  unfoldable pub handle_all : MemoryStore S → List Request → MemoryStore S
  unfolding handle
  handle_all s [] = s
  handle_all s (r ∷ rs) = handle_all (handle s r).store rs
