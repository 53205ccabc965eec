-- ===== src/Store/Memory/Lasting/Histories.antt =====
-- A history of calls on internal/store/memory.go: stored Battles and activities last.
use termon.Store.Memory.Lasting.{
  has_reset, Lasts, Lasts-refl, Lasts-trans, create_trainer-Lasts, draw-Lasts, end_session-Lasts,
  is_reset, load_trainer-Lasts, onboard-Lasts, reset_trainer-Lasts, start_session-Lasts,
  write-Lasts,
}
use termon.Content.{ContentSet}
use termon.Game.Nickname.{Letters, validate_nickname}
use termon.Machine.{Machine}
use termon.Prelude.{Bool-cases, List, Option-cases, String, [], eqb, false, inl, inr, length, ◌∷◌}
use termon.Prelude.Dict.{lookup}
use termon.Store.{Monster, Save}
use termon.Store.Memory.{MemoryStore, MemoryTrainer}
use termon.Store.Memory.Lasting.Calls.{record_activity_result-Lasts, record_battle_result-Lasts}
use termon.Store.Memory.Saves.{
  acknowledge_progression_notices, evolution_change, loadout_change, mutate_save, nickname_change,
  notices_change, party_change, set_battle_loadout, set_nickname, set_party, store_accept_evolution,
  write_save,
}
use termon.Store.Memory.Trainers.{complete_onboarding, onboarding_of}
use termon.Store.Mint.{mint_starter_monster}
use termon.Store.Records.{Codec}
use termon.Store.Rewards.{IdSource, Rewarded, validate_save}
use termon.Store.Memory.Requests.{
  Request, acknowledge, activity, battle, close_session, create, evolve, handle, handle_all, load,
  loadout, nickname, onboarding, open_session, party, reset,
}

module _ {M : Machine} {S : IdSource} (content : ContentSet M) where
  onboarding_of-Lasts :
      (s : MemoryStore S) (id : String) (row : MemoryTrainer) (save : Save) (ms : List Monster)
      → Lasts false s (onboarding_of content s id row save ms).store
  unfolding onboarding_of
  onboarding_of-Lasts s id row save [] = Lasts-refl s
  onboarding_of-Lasts s id row save (m ∷ ms) = elim (Bool-cases (eqb (length ms) 0)) [
    | inl one ↦
        rw (onboarding_of, one)
          (onboard-Lasts s id row save (mint_starter_monster S content m.species s.supply))
    | inr more ↦ rw (onboarding_of, more) (Lasts-refl s)
  ]

  complete_onboarding-Lasts :
      (s : MemoryStore S) (id : String) (save : Save)
      → Lasts false s (complete_onboarding content s id save).store
  unfolding complete_onboarding
  complete_onboarding-Lasts s id save = elim (Option-cases (lookup id s.trainers)) [
    | inl gone ↦ rw (complete_onboarding, gone) (Lasts-refl s)
    | inr (row, found) ↦ elim (Option-cases row.save) [
      | inr (old, has) ↦ rw (complete_onboarding, found, has) (Lasts-refl s)
      | inl new ↦
          rw (complete_onboarding, found, new) (onboarding_of-Lasts s id row save save.collection)
    ]
  ]

  write_save-Lasts :
      (s : MemoryStore S) (id : String) (row : MemoryTrainer) (r : Rewarded S)
      → Lasts false s (write_save content s id row r).store
  unfolding write_save
  write_save-Lasts s id row r = elim (Option-cases r.error) [
    | inr (e, bad) ↦ rw (write_save, bad) (draw-Lasts s r.supply)
    | inl fine ↦ elim (Option-cases (validate_save content r.save).1) [
      | inr (e, bad) ↦ rw (write_save, fine, bad) (draw-Lasts s r.supply)
      | inl passed ↦ rw (write_save, fine, passed) (write-Lasts s id _ r.supply)
    ]
  ]

  mutate_save-Lasts :
      (s : MemoryStore S) (id : String) (change : Save → S.Supply → Rewarded S)
      → Lasts false s (mutate_save content s id change).store
  unfolding mutate_save
  mutate_save-Lasts s id change = elim (Option-cases (lookup id s.trainers)) [
    | inl gone ↦ rw (mutate_save, gone) (Lasts-refl s)
    | inr (row, found) ↦ elim (Option-cases row.save) [
      | inl blank ↦ rw (mutate_save, found, blank) (Lasts-refl s)
      | inr (save, has) ↦
          rw (mutate_save, found, has) (write_save-Lasts s id row (change save s.supply))
    ]
  ]

  set_nickname-Lasts :
      (letters : Letters) (s : MemoryStore S) (id monster name : String)
      → Lasts false s (set_nickname content letters s id monster name).store
  unfolding set_nickname
  set_nickname-Lasts letters s id monster name =
      elim (Option-cases (validate_nickname letters name)) [
        | inl bad ↦ rw (set_nickname, bad) (Lasts-refl s)
        | inr (valid, fine) ↦
            rw (set_nickname, fine) (mutate_save-Lasts s id (nickname_change S monster valid))
      ]

  handle-Lasts :
      (codec : Codec) (letters : Letters) (s : MemoryStore S) (r : Request)
      → Lasts (is_reset r) s (handle content codec letters s r).store
  unfolding handle set_party set_battle_loadout acknowledge_progression_notices
      store_accept_evolution
  handle-Lasts codec letters s (create credential now) = create_trainer-Lasts s credential now
  handle-Lasts codec letters s (load id) = load_trainer-Lasts s id
  handle-Lasts codec letters s (reset id) = reset_trainer-Lasts s id
  handle-Lasts codec letters s (onboarding id save) = complete_onboarding-Lasts s id save
  handle-Lasts codec letters s (battle rec) = record_battle_result-Lasts content codec s rec
  handle-Lasts codec letters s (activity rec) = record_activity_result-Lasts content codec s rec
  handle-Lasts codec letters s (party id slots) = mutate_save-Lasts s id (party_change S slots)
  handle-Lasts codec letters s (loadout id monster moves notices) =
      mutate_save-Lasts s id (loadout_change S monster moves notices)
  handle-Lasts codec letters s (acknowledge id notices) =
      mutate_save-Lasts s id (notices_change S notices)
  handle-Lasts codec letters s (nickname id monster name) =
      set_nickname-Lasts letters s id monster name
  handle-Lasts codec letters s (evolve id monster) =
      mutate_save-Lasts s id (evolution_change S content monster)
  handle-Lasts codec letters s (open_session rec) = start_session-Lasts s rec
  handle-Lasts codec letters s (close_session id at reason) = end_session-Lasts s id at reason

  pub handle_all-Lasts :
      (codec : Codec) (letters : Letters) (s : MemoryStore S) (rs : List Request)
      → Lasts (has_reset rs) s (handle_all content codec letters s rs)
  unfolding handle_all has_reset
  handle_all-Lasts codec letters s [] = Lasts-refl s
  handle_all-Lasts codec letters s (r ∷ rs) =
      let next = (handle content codec letters s r).store in
      Lasts-trans (is_reset r) (has_reset rs) s next (handle_all content codec letters next rs)
        (handle-Lasts codec letters s r) (handle_all-Lasts codec letters next rs)
