-- ===== src/Store/Memory/Atomic.antt =====
-- Calls of internal/store/memory.go that return an error.
use termon.Prelude.{
  ltb, not, subst, ◌||◌, Bool, Bool-cases, List, Option, Option-cases, String, [], arith, eqb,
  false, inl, inr, length, none, refl, some, ℕ, ◌==◌, ◌∷◌, ◌≡◌,
}
use termon.Store.Memory.{save_of, MemoryStore, MemoryTrainer}
use termon.Store.Memory.Battles.{apply_result, count_result, store_battle, record_battle_result}
use termon.Store.Memory.Requests.{
  acknowledge, activity, close_session, create, evolve, handle, load, loadout, nickname, onboarding,
  open_session, party, reset, Request, battle, error_of, served_or_panicked,
}
use termon.Store.Memory.Saves.{
  acknowledge_progression_notices, evolution_change, loadout_change, notices_change, party_change,
  set_battle_loadout, set_party, store_accept_evolution, mutate_save, nickname_change, set_nickname,
  write_save,
}
use termon.Store.Records.{
  canonical_battle_body, same_result, BattleRecord, Codec, SessionRecord,
  canonical_activity_payload,
}
use termon.Content.{ContentSet}
use termon.Game.Nickname.{Letters, validate_nickname}
use termon.Machine.{Machine}
use termon.Prelude.Dict.{lookup}
use termon.Store.{Monster, Save}
use termon.Store.Memory.Activities.{commit_activity, record_activity_result, seed_activity}
use termon.Store.Memory.Trainers.{
  complete_onboarding, create_trainer, end_session, load_trainer, onboard, onboarding_of,
  reset_trainer, start_session,
}
use termon.Store.Mint.{Reply, done, failed, mint_starter_monster}
use termon.Store.Rewards.{ActivityRecord, IdSource, Rewarded, StoreError}
use termon.Store.Transition.{ActivityTransition, plan_activity_transition}

-- The records of two stores are the same; the ids and the injected failures may differ.
abbrev pub Same : {S : IdSource} → MemoryStore S → MemoryStore S → Type 0
Same s t =
    (t.credentials ≡ s.credentials)
    × (t.trainers ≡ s.trainers)
    × (t.battles ≡ s.battles)
    × (t.activities ≡ s.activities)
    × (t.sessions ≡ s.sessions)

-- The call asks for the rewards of a Battle.
abbrev pub asks_rewards : Request → Bool
asks_rewards (battle rec) = rec.apply_rewards
asks_rewards _ = false

-- With an error the records are as before.
abbrev Undone : {S : IdSource} → MemoryStore S → MemoryStore S → Option StoreError → Type 0
Undone s t none = Unit
Undone s t (some e) = Same s t

Same-refl : {S : IdSource} (s : MemoryStore S) → Same s s
Same-refl s = (refl, refl, refl, refl, refl)

module _ {S : IdSource} where
  create_trainer-Undone :
      (s : MemoryStore S) (credential : String) (now : ℕ)
      → (let a = create_trainer s credential now in Undone s a.store (error_of a.reply))
  unfolding create_trainer
  create_trainer-Undone s credential now = ground arith

  load_trainer-Undone :
      (s : MemoryStore S) (id : String)
      → (let a = load_trainer s id in Undone s a.store (error_of a.reply))
  unfolding load_trainer
  load_trainer-Undone s id = ground arith

  reset_trainer-Undone :
      (s : MemoryStore S) (id : String)
      → (let a = reset_trainer s id in Undone s a.store (error_of a.reply))
  unfolding reset_trainer
  reset_trainer-Undone s id = ground arith

  start_session-Undone :
      (s : MemoryStore S) (rec : SessionRecord)
      → (let a = start_session s rec in Undone s a.store (error_of a.reply))
  unfolding start_session
  start_session-Undone s rec = ground arith

  end_session-Undone :
      (s : MemoryStore S) (id : String) (at : ℕ) (reason : String)
      → (let a = end_session s id at reason in Undone s a.store (error_of a.reply))
  unfolding end_session
  end_session-Undone s id at reason = ground arith

  onboard-Undone :
      (s : MemoryStore S) (id : String) (row : MemoryTrainer) (save : Save)
      (minted : Reply Monster × S.Supply)
      → (let a = onboard s id row save minted in Undone s a.store (error_of a.reply))
  unfolding onboard
  onboard-Undone s id row save (failed e, rest) = Same-refl s
  onboard-Undone s id row save (done m, rest) = tt

module _ {M : Machine} {S : IdSource} (content : ContentSet M) where
  onboarding_of-Undone :
      (s : MemoryStore S) (id : String) (row : MemoryTrainer) (save : Save) (ms : List Monster)
      → (let a = onboarding_of content s id row save ms in Undone s a.store (error_of a.reply))
  unfolding onboarding_of
  onboarding_of-Undone s id row save [] = Same-refl s
  onboarding_of-Undone s id row save (m ∷ ms) =
      let minted =
        onboard-Undone s id row save (mint_starter_monster S content m.species s.supply) in
      elim (Bool-cases (eqb (length ms) 0)) [
        | inl one ↦ rw (onboarding_of, one) minted
        | inr more ↦ rw (onboarding_of, more) (Same-refl s)
      ]

  complete_onboarding-Undone :
      (s : MemoryStore S) (id : String) (save : Save)
      → (let a = complete_onboarding content s id save in Undone s a.store (error_of a.reply))
  unfolding complete_onboarding
  complete_onboarding-Undone s id save = elim (Option-cases (lookup id s.trainers)) [
    | inl gone ↦ rw (complete_onboarding, gone) (Same-refl s)
    | inr (row, found) ↦ elim (Option-cases row.save) [
      | inr (old, has) ↦ rw (complete_onboarding, found, has) (Same-refl s)
      | inl new ↦
          rw (complete_onboarding, found, new) (onboarding_of-Undone s id row save save.collection)
    ]
  ]

  write_save-Undone :
      (s : MemoryStore S) (id : String) (row : MemoryTrainer) (r : Rewarded S)
      → (let a = write_save content s id row r in Undone s a.store (error_of a.reply))
  unfolding write_save
  write_save-Undone s id row r = ground arith

  mutate_save-Undone :
      (s : MemoryStore S) (id : String) (change : Save → S.Supply → Rewarded S)
      → (let a = mutate_save content s id change in Undone s a.store (error_of a.reply))
  unfolding mutate_save
  mutate_save-Undone s id change = elim (Option-cases (lookup id s.trainers)) [
    | inl gone ↦ rw (mutate_save, gone) (Same-refl s)
    | inr (row, found) ↦ elim (Option-cases row.save) [
      | inl blank ↦ rw (mutate_save, found, blank) (Same-refl s)
      | inr (save, has) ↦
          rw (mutate_save, found, has) (write_save-Undone s id row (change save s.supply))
    ]
  ]

  set_nickname-Undone :
      (letters : Letters) (s : MemoryStore S) (id monster name : String)
      → (let a = set_nickname content letters s id monster name in
          Undone s a.store (error_of a.reply))
  unfolding set_nickname
  set_nickname-Undone letters s id monster name =
      elim (Option-cases (validate_nickname letters name)) [
        | inl bad ↦ rw (set_nickname, bad) (Same-refl s)
        | inr (valid, fine) ↦
            rw (set_nickname, fine) (mutate_save-Undone s id (nickname_change S monster valid))
      ]

  seed_activity-Undone :
      (codec : Codec) (s : MemoryStore S) (rec : ActivityRecord) (row : MemoryTrainer) (save : Save)
      (drawn : Option String × S.Supply)
      → (let a = seed_activity content codec s rec row save drawn in
          Undone s a.store (error_of a.reply))
  unfolding seed_activity commit_activity
  seed_activity-Undone codec s rec row save (none, rest) = Same-refl s
  seed_activity-Undone codec s rec row save (some seed, rest) =
      committed (plan_activity_transition content codec seed save rec)
    where
      committed :
          (plan : Reply ActivityTransition)
          → (let a = commit_activity (record s { supply = rest }) rec row plan in
              Undone s a.store (error_of a.reply))
      committed (failed e) = Same-refl s
      committed (done t) = tt

  record_activity_result-Undone :
      (codec : Codec) (s : MemoryStore S) (rec : ActivityRecord)
      → (let v = served_or_panicked s (record_activity_result content codec s rec) in
          Undone s v.store v.error)
  unfolding record_activity_result
  record_activity_result-Undone codec s rec =
      elim (Option-cases (lookup rec.natural_key s.activities)) [
        | inr (old, kept) ↦
            elim (Bool-cases (old.payload == canonical_activity_payload codec rec)) [
              | inr other ↦ rw (record_activity_result, kept, other) (Same-refl s)
              | inl same ↦ elim (Option-cases (lookup rec.trainer_id s.trainers)) [
                | inl gone ↦ rw (record_activity_result, kept, same, gone) tt
                | inr (row, found) ↦ rw (record_activity_result, kept, same, found) tt
              ]
            ]
        | inl new ↦ elim (Option-cases (lookup rec.trainer_id s.trainers)) [
          | inl gone ↦ rw (record_activity_result, new, gone) (Same-refl s)
          | inr (row, found) ↦ elim (Option-cases row.save) [
            | inl blank ↦ rw (record_activity_result, new, found, blank) (Same-refl s)
            | inr (save, has) ↦
                rw (record_activity_result, new, found, has)
                  (seed_activity-Undone codec s rec row save (S.new_id s.supply))
          ]
        ]
      ]

  apply_result-Undone :
      (s counted : MemoryStore S) (rec : BattleRecord) (body : String)
      → rec.apply_rewards ≡ false
      → (let a = apply_result content s counted rec body in Undone s a.store (error_of a.reply))
  unfolding apply_result store_battle
  apply_result-Undone s counted rec body plain = rw (apply_result, plain) tt

  record_battle_result-Undone :
      (codec : Codec) (s : MemoryStore S) (rec : BattleRecord)
      → rec.apply_rewards ≡ false
      → (let a = record_battle_result content codec s rec in Undone s a.store (error_of a.reply))
  unfolding record_battle_result
  record_battle_result-Undone codec s rec plain = elim (Bool-cases (ltb 0 s.fail_results)) [
    | inl failing ↦ rw (record_battle_result, failing) (Same-refl s)
    | inr working ↦ elim (Option-cases (lookup rec.result.id s.battles)) [
      | inr (old, kept) ↦
          elim (Bool-cases (
            not (same_result old.result rec.result)
            || not (old.body == canonical_battle_body codec rec))) [
              | inl other ↦ rw (record_battle_result, working, kept, other) (Same-refl s)
              | inr same ↦ rw (record_battle_result, working, kept, same) tt
            ]
      | inl new ↦ elim (Option-cases (save_of s rec.result.winner)) [
        | inl gone ↦ rw (record_battle_result, working, new, gone) (Same-refl s)
        | inr (w, w_has) ↦ elim (Option-cases (save_of s rec.result.loser)) [
          | inl gone ↦ rw (record_battle_result, working, new, w_has, gone) (Same-refl s)
          | inr (l, l_has) ↦
              rw (record_battle_result, working, new, w_has, l_has)
                (apply_result-Undone s (count_result s rec.result) rec _ plain)
        ]
      ]
    ]
  ]

  handle-Undone :
      (codec : Codec) (letters : Letters) (s : MemoryStore S) (r : Request)
      → asks_rewards r ≡ false
      → (let v = handle content codec letters s r in Undone s v.store v.error)
  unfolding handle set_party set_battle_loadout acknowledge_progression_notices
      store_accept_evolution
  handle-Undone codec letters s (create credential now) plain =
      create_trainer-Undone s credential now
  handle-Undone codec letters s (load id) plain = load_trainer-Undone s id
  handle-Undone codec letters s (reset id) plain = reset_trainer-Undone s id
  handle-Undone codec letters s (onboarding id save) plain = complete_onboarding-Undone s id save
  handle-Undone codec letters s (battle rec) plain = record_battle_result-Undone codec s rec plain
  handle-Undone codec letters s (activity rec) plain = record_activity_result-Undone codec s rec
  handle-Undone codec letters s (party id slots) plain =
      mutate_save-Undone s id (party_change S slots)
  handle-Undone codec letters s (loadout id monster moves notices) plain =
      mutate_save-Undone s id (loadout_change S monster moves notices)
  handle-Undone codec letters s (acknowledge id notices) plain =
      mutate_save-Undone s id (notices_change S notices)
  handle-Undone codec letters s (nickname id monster name) plain =
      set_nickname-Undone letters s id monster name
  handle-Undone codec letters s (evolve id monster) plain =
      mutate_save-Undone s id (evolution_change S content monster)
  handle-Undone codec letters s (open_session rec) plain = start_session-Undone s rec
  handle-Undone codec letters s (close_session id at reason) plain =
      end_session-Undone s id at reason

  -- A call that returns an error leaves every credential, Trainer, Battle, activity and session as it
  -- was, unless it records a Battle with rewards.
  pub handle_error :
      (codec : Codec) (letters : Letters) (s : MemoryStore S) (r : Request) (e : StoreError)
      → asks_rewards r ≡ false
      → (handle content codec letters s r).error ≡ some e
      → Same s (handle content codec letters s r).store
  handle_error codec letters s r e plain refused =
      let v = handle content codec letters s r in
      subst (Undone s v.store) refused (handle-Undone codec letters s r plain)
