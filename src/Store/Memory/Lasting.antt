-- ===== src/Store/Memory/Lasting.antt =====
-- What every later call on internal/store/memory.go leaves in place: the stored Battles, the rows of the
-- Trainers and, unless a Trainer is reset, the stored activities.
pub mod Calls
pub mod Histories
use termon.Prelude.{
  ◌∷◌, List, [], Bool-cases, Option-cases, inl, inr, ltb, refl, ℕ, Bool, String, arith, eq_iff,
  false, none, some, true, ◌||◌, ◌≡◌,
}
use termon.Store.Memory.Requests.{Request, reset}
use termon.Store.{Monster, Save}
use termon.Store.Memory.Battles.{on_row, set_save, settle_rewards, store_battle}
use termon.Store.Memory.Trainers.{
  create_trainer, end_session, load_trainer, onboard, reset_trainer, start_session,
}
use termon.Store.Mint.{Reply, done, failed}
use termon.Store.Records.{BattleRecord, SessionRecord}
use termon.Prelude.Dict.{Dict, insert, lookup, lookup-insert}
use termon.Queue.{is_there}
use termon.Store.Memory.{MemoryStore, MemoryTrainer}
use termon.Store.Rewards.{IdSource}

abbrev pub has_row : {S : IdSource} → MemoryStore S → String → Bool
has_row s id = is_there (lookup id s.trainers)

abbrev pub is_reset : Request → Bool
is_reset (reset id) = true
is_reset other = false

-- Some call of the history resets a Trainer.
unfoldable pub has_reset : List Request → Bool
has_reset [] = false
has_reset (r ∷ rs) = is_reset r || has_reset rs

-- The entries of one map are in another.
abbrev pub Extends : {V : Type 0} → Dict V → Dict V → Type 0
Extends {V} old new = (k : String) (v : V) → lookup k old ≡ some v → lookup k new ≡ some v

-- With `drops`, activities may go.
pub record Lasts {S : IdSource} (drops : Bool) (s t : MemoryStore S) : Type 0 where
  pub battles : Extends s.battles t.battles
  pub working : s.fail_results ≡ 0 → t.fail_results ≡ 0
  pub activities : drops ≡ false → Extends s.activities t.activities
  pub rows : (id : String) → has_row s id ≡ true → has_row t id ≡ true

pub insert-rows :
    {V : Type 0} (entries : Dict V) (k id : String) (v : V)
    → is_there (lookup id entries) ≡ true
    → is_there (lookup id (insert k v entries)) ≡ true
insert-rows entries k id v h = ground (arith, h, lookup-insert k id v entries)

-- A key that is free is written.
pub insert-Extends :
    {V : Type 0} (entries : Dict V) (k : String) (v : V)
    → lookup k entries ≡ none
    → Extends entries (insert k v entries)
insert-Extends entries k v free j w h =
    ground (arith, h, free, eq_iff k j, lookup-insert k j v entries)

module _ {S : IdSource} where
  pub Lasts-refl : (s : MemoryStore S) → Lasts false s s
  Lasts-refl s = record {
    battles = λ k v h. h;
    working = λ h. h;
    activities = λ _ k v h. h;
    rows = λ id h. h;
  }

  pub Lasts-trans :
      (b c : Bool) (s t u : MemoryStore S) → Lasts b s t → Lasts c t u → Lasts (b || c) s u
  Lasts-trans b c s t u h k = record {
    battles = λ j v e. k.battles j v (h.battles j v e);
    working = λ e. k.working (h.working e);
    activities = λ none_drops j v e.
        k.activities (ground (arith, none_drops)) j v
          (h.activities (ground (arith, none_drops)) j v e);
    rows = λ id e. k.rows id (h.rows id e);
  }

  -- A row is written; the rest is as it was.
  pub write-Lasts :
      (s : MemoryStore S) (id : String) (row : MemoryTrainer) (supply : S.Supply)
      → Lasts false s (record s { trainers = insert id row s.trainers; supply = supply })
  write-Lasts s id row supply = record {
    battles = λ k v h. h;
    working = λ h. h;
    activities = λ _ k v h. h;
    rows = λ k h. insert-rows s.trainers id k row h;
  }

  pub draw-Lasts :
      (s : MemoryStore S) (supply : S.Supply) → Lasts false s (record s { supply = supply })
  draw-Lasts s supply = record {
    battles = λ k v h. h;
    working = λ h. h;
    activities = λ _ k v h. h;
    rows = λ id h. h;
  }

  pub create_trainer-Lasts :
      (s : MemoryStore S) (credential : String) (now : ℕ)
      → Lasts false s (create_trainer s credential now).store
  unfolding create_trainer
  create_trainer-Lasts s credential now = elim (Option-cases (lookup credential s.credentials)) [
    | inr (id, known) ↦ rw (create_trainer, known) (Lasts-refl s)
    | inl new ↦
        rw (create_trainer, new)
          (record {
            battles = λ k v h. h;
            working = λ h. h;
            activities = λ _ k v h. h;
            rows = λ k h. insert-rows s.trainers credential k _ h;
          })
  ]

  pub load_trainer-Lasts :
      (s : MemoryStore S) (id : String) → Lasts false s (load_trainer s id).store
  unfolding load_trainer
  load_trainer-Lasts s id = elim (Bool-cases (ltb 0 s.fail_loads)) [
    | inl failing ↦
        rw (load_trainer, failing)
          (record {
            battles = λ k v h. h;
            working = λ h. h;
            activities = λ _ k v h. h;
            rows = λ k h. h;
          })
    | inr working ↦ elim (Option-cases (lookup id s.trainers)) [
      | inl gone ↦ rw (load_trainer, working, gone) (Lasts-refl s)
      | inr (row, found) ↦ rw (load_trainer, working, found) (Lasts-refl s)
    ]
  ]

  pub reset_trainer-Lasts :
      (s : MemoryStore S) (id : String) → Lasts true s (reset_trainer s id).store
  unfolding reset_trainer
  reset_trainer-Lasts s id = elim (Option-cases (lookup id s.trainers)) [
    | inl gone ↦
        rw (reset_trainer, gone)
          (record {
            battles = λ k v h. h;
            working = λ h. h;
            activities = λ _ k v h. h;
            rows = λ k h. h;
          })
    | inr (row, found) ↦
        rw (reset_trainer, found)
          (record {
            battles = λ k v h. h;
            working = λ h. h;
            activities = λ e. absurd (ground (arith, e));
            rows = λ k h. insert-rows s.trainers id k _ h;
          })
  ]

  pub start_session-Lasts :
      (s : MemoryStore S) (rec : SessionRecord) → Lasts false s (start_session s rec).store
  unfolding start_session
  start_session-Lasts s rec = elim (Option-cases (lookup rec.trainer_id s.trainers)) [
    | inl gone ↦ rw (start_session, gone) (Lasts-refl s)
    | inr (row, found) ↦ elim (Option-cases (lookup rec.id s.sessions)) [
      | inr (old, there) ↦ rw (start_session, found, there) (Lasts-refl s)
      | inl new ↦
          rw (start_session, found, new)
            (record {
              battles = λ k v h. h;
              working = λ h. h;
              activities = λ _ k v h. h;
              rows = λ k h. h;
            })
    ]
  ]

  pub end_session-Lasts :
      (s : MemoryStore S) (id : String) (at : ℕ) (reason : String)
      → Lasts false s (end_session s id at reason).store
  unfolding end_session
  end_session-Lasts s id at reason = elim (Option-cases (lookup id s.sessions)) [
    | inl gone ↦ rw (end_session, gone) (Lasts-refl s)
    | inr (rec, found) ↦ elim (Option-cases rec.ended_at) [
      | inr (old, closed) ↦ rw (end_session, found, closed) (Lasts-refl s)
      | inl live ↦
          rw (end_session, found, live)
            (record {
              battles = λ k v h. h;
              working = λ h. h;
              activities = λ _ k v h. h;
              rows = λ k h. h;
            })
    ]
  ]

  pub onboard-Lasts :
      (s : MemoryStore S) (id : String) (row : MemoryTrainer) (save : Save)
      (minted : Reply Monster × S.Supply)
      → Lasts false s (onboard s id row save minted).store
  unfolding onboard
  onboard-Lasts s id row save (failed e, rest) = draw-Lasts s rest
  onboard-Lasts s id row save (done m, rest) = write-Lasts s id _ rest

  on_row-Lasts :
      (s : MemoryStore S) (id : String) (change : MemoryTrainer → Save → MemoryTrainer)
      → Lasts false s (on_row s id change)
  unfolding on_row
  on_row-Lasts s id change = elim (Option-cases (lookup id s.trainers)) [
    | inl gone ↦ rw (on_row, gone) (Lasts-refl s)
    | inr (row, found) ↦ elim (Option-cases row.save) [
      | inl blank ↦ rw (on_row, found, blank) (Lasts-refl s)
      | inr (save, has) ↦ rw (on_row, found, has) (write-Lasts s id _ s.supply)
    ]
  ]

  -- The battles are those of a store in which the id is free.
  pub store_battle-Lasts :
      (s : MemoryStore S) (rec : BattleRecord) (body : String)
      → lookup rec.result.id s.battles ≡ none
      → Lasts false s (store_battle s rec body).store
  unfolding store_battle
  store_battle-Lasts s rec body free = record {
    battles = insert-Extends s.battles rec.result.id _ free;
    working = λ h. h;
    activities = λ _ k v h. h;
    rows = λ k h. h;
  }

  on_row-battles :
      (s : MemoryStore S) (id : String) (change : MemoryTrainer → Save → MemoryTrainer)
      → (on_row s id change).battles ≡ s.battles
  unfolding on_row
  on_row-battles s id change = elim (Option-cases (lookup id s.trainers)) [
    | inl gone ↦ rw (on_row, gone) refl
    | inr (row, found) ↦ elim (Option-cases row.save) [
      | inl blank ↦ rw (on_row, found, blank) refl
      | inr (save, has) ↦ rw (on_row, found, has) refl
    ]
  ]

  pub two_rows-Lasts :
      (s : MemoryStore S) (a b : String) (f g : MemoryTrainer → Save → MemoryTrainer)
      → Lasts false s (on_row (on_row s a f) b g)
  two_rows-Lasts s a b f g =
      Lasts-trans false false s (on_row s a f) (on_row (on_row s a f) b g) (on_row-Lasts s a f)
        (on_row-Lasts (on_row s a f) b g)

  pub two_rows-free :
      (s : MemoryStore S) (id a b : String) (f g : MemoryTrainer → Save → MemoryTrainer)
      → lookup id s.battles ≡ none
      → lookup id (on_row (on_row s a f) b g).battles ≡ none
  two_rows-free s id a b f g free =
      rw (on_row-battles (on_row s a f) b g, on_row-battles s a f) free

  pub settle_rewards-Lasts :
      (s : MemoryStore S) (rec : BattleRecord) (body : String)
      (saves : Reply (Save × Save) × S.Supply)
      → lookup rec.result.id s.battles ≡ none
      → Lasts false s (settle_rewards s rec body saves).store
  unfolding settle_rewards
  settle_rewards-Lasts s rec body (failed e, rest) free = draw-Lasts s rest
  settle_rewards-Lasts s rec body (done (w, l), rest) free =
      let drawn = record s { supply = rest } in
      let a = rec.result.winner in
      let b = rec.result.loser in
      let f = set_save w in
      let g = set_save l in
      let mid = on_row (on_row drawn a f) b g in
      Lasts-trans false false s drawn (store_battle mid rec body).store (draw-Lasts s rest) (
        Lasts-trans false false drawn mid (store_battle mid rec body).store
          (two_rows-Lasts drawn a b f g)
          (store_battle-Lasts mid rec body (two_rows-free drawn rec.result.id a b f g free)))
