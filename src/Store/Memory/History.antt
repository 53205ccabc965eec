-- ===== src/Store/Memory/History.antt =====
-- Histories of calls on internal/store/memory.go and the Saves that they leave.
use termon.Store.Memory.Saves.{
  evolution_change, loadout_change, notices_change, party_change, acknowledge_progression_notices,
  set_battle_loadout, set_party, store_accept_evolution, mutate_save, nickname_change, set_nickname,
  write_save,
}
use termon.Content.{Species, ContentSet}
use termon.Content.Loading.{Learns, load_species, load_species-Learns}
use termon.Prelude.{
  List, Option, [], ap, none, some, ◌∙◌, ◌∷◌, ◌≡◌, Bool-cases, Option-cases, String, inl, inr, ◌==◌,
}
use termon.Prelude.Dict.{Each, lookup}
use termon.Store.Growth.{passes, IsSound}
use termon.Store.Memory.{new_memory_store, MemoryStore, MemoryTrainer, save_of}
use termon.Store.Memory.Activities.{commit_activity, record_activity_result, seed_activity}
use termon.Store.Memory.Payouts.{record_battle_result-AllSound}
use termon.Store.Memory.Requests.{
  Request, acknowledge, activity, battle, close_session, create, evolve, handle, handle_all, load,
  loadout, nickname, onboarding, open_session, party, reset, served_or_panicked,
}
use termon.Store.Memory.Sound.{
  AllSound-save_of, Filled, Loaded, complete_onboarding-AllSound, create_trainer-AllSound,
  end_session-AllSound, load_trainer-AllSound, reset_trainer-AllSound, start_session-AllSound,
  AllSound, insert-AllSound, validate_save-IsSound,
}
use termon.Store.Records.{canonical_activity_payload, Codec}
use termon.Store.Transition.{
  Captured, capture_step, plan_activity_transition, reward_and_finish, reward_step,
  ActivityTransition, activity_ids, finish_step,
}
use termon.Game.Nickname.{Letters, validate_nickname}
use termon.Machine.{Machine}
use termon.Store.{Save}
use termon.Store.Mint.{Reply, done, failed}
use termon.Store.Rewards.{ActivityRecord, IdSource, Rewarded, validate_save}

module _ {M : Machine} {S : IdSource} (content : ContentSet M) where
  write_save-AllSound :
      (s : MemoryStore S) (id : String) (row : MemoryTrainer) (r : Rewarded S)
      → AllSound s
      → AllSound (write_save content s id row r).store
  unfolding write_save
  write_save-AllSound s id row r h = elim (Option-cases r.error) [
    | inr (e, bad) ↦ rw (write_save, bad) h
    | inl fine ↦ elim (Option-cases (validate_save content r.save).1) [
      | inr (e, bad) ↦ rw (write_save, fine, bad) h
      | inl passed ↦
          rw (write_save, fine, passed)
            (insert-AllSound s id _ h (validate_save-IsSound content r.save passed))
    ]
  ]

  mutate_save-AllSound :
      (s : MemoryStore S) (id : String) (change : Save → S.Supply → Rewarded S)
      → AllSound s
      → AllSound (mutate_save content s id change).store
  unfolding mutate_save
  mutate_save-AllSound s id change h = elim (Option-cases (lookup id s.trainers)) [
    | inl gone ↦ rw (mutate_save, gone) h
    | inr (row, found) ↦ elim (Option-cases row.save) [
      | inl blank ↦ rw (mutate_save, found, blank) h
      | inr (save, has) ↦
          rw (mutate_save, found, has) (write_save-AllSound s id row (change save s.supply) h)
    ]
  ]

  set_nickname-AllSound :
      (letters : Letters) (s : MemoryStore S) (id monster name : String)
      → AllSound s
      → AllSound (set_nickname content letters s id monster name).store
  unfolding set_nickname
  set_nickname-AllSound letters s id monster name h =
      elim (Option-cases (validate_nickname letters name)) [
        | inl bad ↦ rw (set_nickname, bad) h
        | inr (valid, fine) ↦
            rw (set_nickname, fine) (mutate_save-AllSound s id (nickname_change S monster valid) h)
      ]

abbrev PlanSound : Reply ActivityTransition → Type 0
PlanSound (failed e) = Unit
PlanSound (done t) = IsSound t.save

module _ {M : Machine} (content : ContentSet M) where
  finish_step-PlanSound :
      (codec : Codec) (seed : String) (rec : ActivityRecord) (kept_id : String)
      (r : Rewarded (activity_ids codec seed))
      → PlanSound (finish_step content codec seed rec kept_id r)
  unfolding finish_step
  finish_step-PlanSound codec seed rec kept_id r =
      elim (Option-cases (validate_save content r.save).1) [
        | inr (e, bad) ↦ rw (finish_step, bad) tt
        | inl passed ↦ rw (finish_step, passed) (validate_save-IsSound content r.save passed)
      ]

  reward_and_finish-PlanSound :
      (codec : Codec) (seed : String) (rec : ActivityRecord) (c : Reply Captured)
      → PlanSound (reward_and_finish content codec seed rec c)
  unfolding reward_and_finish
  reward_and_finish-PlanSound codec seed rec (failed e) = tt
  reward_and_finish-PlanSound codec seed rec (done c) =
      let r = reward_step content codec seed c rec in
      elim (Option-cases r.error) [
        | inr (e, bad) ↦ rw (reward_and_finish, bad) tt
        | inl paid ↦
            rw (reward_and_finish, paid) (finish_step-PlanSound codec seed rec c.captured_id r)
      ]

module _ {M : Machine} {S : IdSource} (content : ContentSet M) where
  commit_activity-AllSound :
      (s : MemoryStore S) (rec : ActivityRecord) (row : MemoryTrainer)
      (plan : Reply ActivityTransition)
      → PlanSound plan
      → AllSound s
      → AllSound (commit_activity s rec row plan).store
  unfolding commit_activity
  commit_activity-AllSound s rec row (failed e) p h = h
  commit_activity-AllSound s rec row (done t) p h = insert-AllSound s rec.trainer_id _ h p

  seed_activity-AllSound :
      (codec : Codec) (s : MemoryStore S) (rec : ActivityRecord) (row : MemoryTrainer) (save : Save)
      (drawn : Option String × S.Supply)
      → AllSound s
      → AllSound (seed_activity content codec s rec row save drawn).store
  unfolding seed_activity plan_activity_transition
  seed_activity-AllSound codec s rec row save (none, rest) h = h
  seed_activity-AllSound codec s rec row save (some seed, rest) h =
      commit_activity-AllSound (record s { supply = rest }) rec row _
        (reward_and_finish-PlanSound content codec seed rec
          (capture_step content codec seed save rec))
        h

  record_activity_result-AllSound :
      (codec : Codec) (s : MemoryStore S) (rec : ActivityRecord)
      → AllSound s
      → AllSound (served_or_panicked s (record_activity_result content codec s rec)).store
  unfolding record_activity_result
  record_activity_result-AllSound codec s rec h =
      elim (Option-cases (lookup rec.natural_key s.activities)) [
        | inr (old, kept) ↦
            elim (Bool-cases (old.payload == canonical_activity_payload codec rec)) [
              | inr other ↦ rw (record_activity_result, kept, other) h
              | inl same ↦ elim (Option-cases (lookup rec.trainer_id s.trainers)) [
                | inl gone ↦ rw (record_activity_result, kept, same, gone) h
                | inr (row, found) ↦ rw (record_activity_result, kept, same, found) h
              ]
            ]
        | inl new ↦ elim (Option-cases (lookup rec.trainer_id s.trainers)) [
          | inl gone ↦ rw (record_activity_result, new, gone) h
          | inr (row, found) ↦ elim (Option-cases row.save) [
            | inl blank ↦ rw (record_activity_result, new, found, blank) h
            | inr (save, has) ↦
                rw (record_activity_result, new, found, has)
                  (seed_activity-AllSound codec s rec row save (S.new_id s.supply) h)
          ]
        ]
      ]

  pub handle-AllSound :
      (codec : Codec) (letters : Letters) (s : MemoryStore S) (r : Request)
      → Loaded content
      → Filled S
      → AllSound s
      → AllSound (handle content codec letters s r).store
  unfolding handle set_party set_battle_loadout acknowledge_progression_notices
      store_accept_evolution
  handle-AllSound codec letters s (create credential now) l f h =
      create_trainer-AllSound s credential now h
  handle-AllSound codec letters s (load id) l f h = load_trainer-AllSound s id h
  handle-AllSound codec letters s (reset id) l f h = reset_trainer-AllSound s id h
  handle-AllSound codec letters s (onboarding id save) l f h =
      complete_onboarding-AllSound S content s id save l f h
  handle-AllSound codec letters s (battle rec) l f h =
      record_battle_result-AllSound content codec s rec h
  handle-AllSound codec letters s (activity rec) l f h =
      record_activity_result-AllSound codec s rec h
  handle-AllSound codec letters s (party id slots) l f h =
      mutate_save-AllSound content s id (party_change S slots) h
  handle-AllSound codec letters s (loadout id monster moves notices) l f h =
      mutate_save-AllSound content s id (loadout_change S monster moves notices) h
  handle-AllSound codec letters s (acknowledge id notices) l f h =
      mutate_save-AllSound content s id (notices_change S notices) h
  handle-AllSound codec letters s (nickname id monster name) l f h =
      set_nickname-AllSound content letters s id monster name h
  handle-AllSound codec letters s (evolve id monster) l f h =
      mutate_save-AllSound content s id (evolution_change S content monster) h
  handle-AllSound codec letters s (open_session rec) l f h = start_session-AllSound s rec h
  handle-AllSound codec letters s (close_session id at reason) l f h =
      end_session-AllSound s id at reason h

  handle_all-AllSound :
      (codec : Codec) (letters : Letters) (s : MemoryStore S) (rs : List Request)
      → Loaded content
      → Filled S
      → AllSound s
      → AllSound (handle_all content codec letters s rs)
  unfolding handle_all
  handle_all-AllSound codec letters s [] l f h = h
  handle_all-AllSound codec letters s (r ∷ rs) l f h =
      handle_all-AllSound codec letters (handle content codec letters s r).store rs l f
        (handle-AllSound codec letters s r l f h)

-- With content whose Species were loaded from files over Moves of which none has the empty slug, and a
-- source of ids that are not empty, every Save that a store keeps after any history of calls from the empty store passes `validateSave`, whatever the
-- calls ask for, and whether they succeed, fail or panic.
pub validate_save-handle_all :
    {M : Machine} (S : IdSource) (codec : Codec) (letters : Letters) (base content : ContentSet M)
    (files : List (String × Species)) (supply : S.Supply) (rs : List Request) (id : String)
    (save : Save)
    → base.species ≡ []
    → lookup "" base.moves ≡ none
    → load_species base files ≡ some content
    → Filled S
    → save_of (handle_all content codec letters (new_memory_store S supply) rs) id ≡ some save
    → (validate_save content save).1 ≡ none
unfolding new_memory_store
validate_save-handle_all S codec letters base content files supply rs id save blank named loaded
      filled kept =
    let start : Each (Learns base.moves) base.species = rw blank tt in
    let (learned, same) = load_species-Learns base files content start loaded in
    passes content save (
      AllSound-save_of (handle_all content codec letters (new_memory_store S supply) rs) id save
        (handle_all-AllSound content codec letters (new_memory_store S supply) rs
          (ap (lookup "") same ∙ named, learned) filled tt)
        kept)
