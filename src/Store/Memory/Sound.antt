-- ===== src/Store/Memory/Sound.antt =====
-- The Saves that internal/store/memory.go keeps.
use termon.Prelude.{
  eq_iff, eqb, length, Bool-cases, List, Option, Option-cases, String, [], ap, arith, false, inl,
  inr, ltb, none, refl, some, subst, sym, ℕ, ◌==◌, ◌∷◌, ◌≡◌,
}
use termon.Store.Memory.Starters.{monster_for_species-IsSound}
use termon.Store.Memory.Trainers.{
  complete_onboarding, onboarded, onboarding_of, create_trainer, end_session, load_trainer, onboard,
  reset_trainer, start_session,
}
use termon.Store.Mint.{done, failed, Reply, mint_starter_monster, monster_for_species}
use termon.Content.{ContentSet}
use termon.Content.Loading.{Learns}
use termon.Machine.{Machine}
use termon.Prelude.Dict.{Each, Each-insert, Each-lookup, insert, lookup}
use termon.Store.{Monster, Save}
use termon.Store.Growth.{IsSound, IsSound-of, collection_error-cons, collection_error-inv}
use termon.Store.Memory.{MemoryStore, MemoryTrainer, save_of}
use termon.Store.Memory.Battles.{on_row}
use termon.Store.Records.{SessionRecord}
use termon.Store.Rewards.{
  IdSource, collection_error, mark_pending, monster_ids, party_error, pending_mark, validate_save,
}

abbrev pub SaveSound : Option Save → Type 0
SaveSound none = Unit
SaveSound (some save) = IsSound save

abbrev pub AllSound : {S : IdSource} → MemoryStore S → Type 0
AllSound s = Each (λ row. SaveSound row.save) s.trainers

module _ {M : Machine} (content : ContentSet M) where
  mark_pending-collection_error :
      (seen : List String) (ms : List Monster)
      → collection_error seen ms ≡ none
      → collection_error seen (mark_pending content ms) ≡ none
  unfolding mark_pending
  mark_pending-collection_error seen [] h = h
  mark_pending-collection_error seen (m ∷ ms) h =
      let (a, b, fine, rest) = collection_error-inv seen m ms h in
      collection_error-cons seen (pending_mark content m) (mark_pending content ms) a b fine
        (mark_pending-collection_error (m.id ∷ seen) ms rest)

  monster_ids-mark_pending :
      (ms : List Monster) → monster_ids (mark_pending content ms) ≡ monster_ids ms
  unfolding mark_pending
  monster_ids-mark_pending [] = refl
  monster_ids-mark_pending (m ∷ ms) = ap (◌∷◌ m.id) (monster_ids-mark_pending ms)

  -- What `validateSave` passes, it leaves in a state that it passes.
  pub validate_save-IsSound :
      (save : Save) → (validate_save content save).1 ≡ none → IsSound (validate_save content save).0
  unfolding validate_save
  validate_save-IsSound save h =
      let sound = IsSound-of content save h in
      rw (validate_save, sound.0, sound.1)
        (
          mark_pending-collection_error [] save.collection sound.0,
          subst (λ ids. party_error ids [] save.party ≡ none)
              (sym (monster_ids-mark_pending save.collection)) sound.1,
        )

module _ {S : IdSource} where
  pub insert-AllSound :
      (s : MemoryStore S) (id : String) (row : MemoryTrainer)
      → AllSound s
      → SaveSound row.save
      → Each (λ (r : MemoryTrainer). SaveSound r.save) (insert id row s.trainers)
  insert-AllSound s id row h p =
      Each-insert (λ (r : MemoryTrainer). SaveSound r.save) id row s.trainers h p

  AllSound-row :
      (s : MemoryStore S) (id : String) (row : MemoryTrainer)
      → AllSound s
      → lookup id s.trainers ≡ some row
      → SaveSound row.save
  AllSound-row s id row h e =
      Each-lookup (λ (r : MemoryTrainer). SaveSound r.save) id row s.trainers h e

  pub AllSound-save_of :
      (s : MemoryStore S) (id : String) (save : Save)
      → AllSound s
      → save_of s id ≡ some save
      → IsSound save
  unfolding save_of
  AllSound-save_of s id save h e = elim (Option-cases (lookup id s.trainers)) [
    | inl gone ↦ absurd (ground (arith, gone))
    | inr (row, found) ↦
        let has : row.save ≡ some save = ground (arith, found, e) in
        subst SaveSound has (AllSound-row s id row h found)
  ]

  pub on_row-AllSound :
      (s : MemoryStore S) (id : String) (change : MemoryTrainer → Save → MemoryTrainer)
      → AllSound s
      → ((row : MemoryTrainer) (save : Save) → IsSound save → SaveSound (change row save).save)
      → AllSound (on_row s id change)
  unfolding on_row
  on_row-AllSound s id change h keeps = elim (Option-cases (lookup id s.trainers)) [
    | inl gone ↦ rw (on_row, gone) h
    | inr (row, found) ↦ elim (Option-cases row.save) [
      | inl blank ↦ rw (on_row, found, blank) h
      | inr (save, has) ↦
          rw (on_row, found, has)
            (insert-AllSound s id (change row save) h
              (keeps row save (subst SaveSound has (AllSound-row s id row h found))))
    ]
  ]

  pub create_trainer-AllSound :
      (s : MemoryStore S) (credential : String) (now : ℕ)
      → AllSound s
      → AllSound (create_trainer s credential now).store
  unfolding create_trainer
  create_trainer-AllSound s credential now h =
      elim (Option-cases (lookup credential s.credentials)) [
        | inr (id, old) ↦ rw (create_trainer, old) h
        | inl new ↦ rw (create_trainer, new) (insert-AllSound s credential _ h tt)
      ]

  pub load_trainer-AllSound :
      (s : MemoryStore S) (id : String) → AllSound s → AllSound (load_trainer s id).store
  unfolding load_trainer
  load_trainer-AllSound s id h = elim (Bool-cases (ltb 0 s.fail_loads)) [
    | inl failing ↦ rw (load_trainer, failing) h
    | inr working ↦ elim (Option-cases (lookup id s.trainers)) [
      | inl gone ↦ rw (load_trainer, working, gone) h
      | inr (row, found) ↦ rw (load_trainer, working, found) h
    ]
  ]

  pub reset_trainer-AllSound :
      (s : MemoryStore S) (id : String) → AllSound s → AllSound (reset_trainer s id).store
  unfolding reset_trainer
  reset_trainer-AllSound s id h = elim (Option-cases (lookup id s.trainers)) [
    | inl gone ↦ rw (reset_trainer, gone) h
    | inr (row, found) ↦ rw (reset_trainer, found) (insert-AllSound s id _ h tt)
  ]

  pub start_session-AllSound :
      (s : MemoryStore S) (rec : SessionRecord) → AllSound s → AllSound (start_session s rec).store
  unfolding start_session
  start_session-AllSound s rec h = elim (Option-cases (lookup rec.trainer_id s.trainers)) [
    | inl gone ↦ rw (start_session, gone) h
    | inr (row, found) ↦ elim (Option-cases (lookup rec.id s.sessions)) [
      | inl new ↦ rw (start_session, found, new) h
      | inr (old, kept) ↦ rw (start_session, found, kept) h
    ]
  ]

  pub end_session-AllSound :
      (s : MemoryStore S) (id : String) (at : ℕ) (reason : String)
      → AllSound s
      → AllSound (end_session s id at reason).store
  unfolding end_session
  end_session-AllSound s id at reason h = elim (Option-cases (lookup id s.sessions)) [
    | inl gone ↦ rw (end_session, gone) h
    | inr (rec, found) ↦ elim (Option-cases rec.ended_at) [
      | inl running ↦ rw (end_session, found, running) h
      | inr (t, ended) ↦ rw (end_session, found, ended) h
    ]
  ]

-- What a successful call of `newOpaqueID` gives is not empty.
abbrev pub Filled : IdSource → Type 0
Filled S = (supply : S.Supply) (id : String) → (S.new_id supply).0 ≡ some id → (id == "") ≡ false

-- Content that `Load` has built.
abbrev pub Loaded : {M : Machine} → ContentSet M → Type 0
Loaded content = (lookup "" content.moves ≡ none) × Each (Learns content.moves) content.species

abbrev StarterSound : Reply Monster → Type 0
StarterSound (failed e) = Unit
StarterSound (done m) = (collection_error [] (m ∷ []) ≡ none) × ((m.id == "") ≡ false)

onboard-AllSound :
    {S : IdSource} (s : MemoryStore S) (id : String) (row : MemoryTrainer) (save : Save)
    (minted : Reply Monster × S.Supply)
    → StarterSound minted.0
    → AllSound s
    → AllSound (onboard s id row save minted).store
unfolding onboard party_error
onboard-AllSound s id row save (failed e, rest) fine h = h
onboard-AllSound s id row save (done m, rest) fine h =
    insert-AllSound s id (onboarded row save m) h (fine.0, ground (arith, fine.1, eq_iff m.id m.id))

module _ {M : Machine} (S : IdSource) (content : ContentSet M) where
  monster_for_species-StarterSound :
      (species id : String)
      → Loaded content
      → (id == "") ≡ false
      → StarterSound (monster_for_species content species id)
  monster_for_species-StarterSound species id loaded fresh =
      by_reply (monster_for_species content species id)
        (λ m e. monster_for_species-IsSound content species id m loaded.0 loaded.1 fresh e)
    where
      by_reply :
          (reply : Reply Monster)
          → ((m : Monster) → reply ≡ done m → (collection_error [] (m ∷ []) ≡ none) × (m.id ≡ id))
          → StarterSound reply
      by_reply (failed e) k = tt
      by_reply (done m) k =
          let (checked, same) = k m refl in
          (checked, subst (λ x. (x == "") ≡ false) (sym same) fresh)

  mint_starter_monster-StarterSound :
      (species : String) (supply : S.Supply)
      → Loaded content
      → Filled S
      → StarterSound (mint_starter_monster S content species supply).0
  unfolding mint_starter_monster
  mint_starter_monster-StarterSound species supply loaded filled =
      elim (Option-cases (S.new_id supply).0) [
        | inl dry ↦ rw (mint_starter_monster, dry) tt
        | inr (fresh, drawn) ↦
            rw (mint_starter_monster, drawn)
              (monster_for_species-StarterSound species fresh loaded (filled supply fresh drawn))
      ]

  pub complete_onboarding-AllSound :
      (s : MemoryStore S) (id : String) (save : Save)
      → Loaded content
      → Filled S
      → AllSound s
      → AllSound (complete_onboarding content s id save).store
  unfolding complete_onboarding
  complete_onboarding-AllSound s id save loaded filled h =
      elim (Option-cases (lookup id s.trainers)) [
        | inl gone ↦ rw (complete_onboarding, gone) h
        | inr (row, found) ↦ elim (Option-cases row.save) [
          | inr (old, has) ↦ rw (complete_onboarding, found, has) h
          | inl new ↦ rw (complete_onboarding, found, new) (by_collection row save.collection)
        ]
      ]
    where
      by_collection :
          (row : MemoryTrainer) (ms : List Monster)
          → AllSound (onboarding_of content s id row save ms).store
      by_collection row [] = h
      by_collection row (m ∷ ms) = elim (Bool-cases (eqb (length ms) 0)) [
        | inr more ↦ rw more h
        | inl one ↦ rw one (
            onboard-AllSound s id row save (mint_starter_monster S content m.species s.supply)
              (mint_starter_monster-StarterSound m.species s.supply loaded filled) h)
      ]
