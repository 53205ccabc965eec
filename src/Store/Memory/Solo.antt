-- ===== src/Store/Memory/Solo.antt =====
-- A second call of `RecordActivityResult` of internal/store/memory.go under a key that is stored.
use termon.Prelude.{
  List, Bool-cases, Option, Option-cases, String, ap, arith, eq_iff, false, if◌then◌else◌, inl, inr,
  none, refl, some, subst, true, ◌==◌, ◌∙◌, ◌≡◌,
}
use termon.Queue.{is_there}
use termon.Store.Memory.{save_of, Answer, MemoryStore, MemoryTrainer, answer, refuse}
use termon.Store.Memory.Requests.{Request, handle_all}
use termon.Store.Memory.Lasting.{has_row, has_reset}
use termon.Store.Memory.Lasting.Histories.{handle_all-Lasts}
use termon.Game.Nickname.{Letters}
use termon.Content.{ContentSet}
use termon.Machine.{Machine}
use termon.Prelude.Dict.{Dict, insert, lookup, lookup-insert, lookup-insert_self}
use termon.Store.{Save}
use termon.Store.Memory.Activities.{
  add_mastery, commit_activity, record_activity_result, seed_activity,
}
use termon.Store.Mint.{Reply, done, failed}
use termon.Store.Records.{ActivityResult, Codec, canonical_activity_payload}
use termon.Store.Rewards.{
  ActivityRecord, IdSource, Rewarded, not_found, result_conflict, validate_save,
}
use termon.Store.Transition.{
  ActivityTransition, Captured, activity_ids, activity_result, capture_step, finish_step,
  plan_activity_transition, reward_and_finish, reward_step,
}

-- The record of a finished activity carries the payload of its request.
abbrev Carries : String → Reply ActivityTransition → Type 0
Carries payload (failed e) = Unit
Carries payload (done t) = t.result.payload ≡ payload

add_mastery-lookup :
    (activities : Dict ActivityResult) (mastery : Option ActivityResult) (k : String)
    (kept : ActivityResult)
    → lookup k activities ≡ some kept
    → lookup k (add_mastery activities mastery) ≡ some kept
unfolding add_mastery
add_mastery-lookup activities none k kept h = h
add_mastery-lookup activities (some m) k kept h =
    elim (Option-cases (lookup m.natural_key activities)) [
      | inr (old, there) ↦ rw (add_mastery, there) h
      | inl free ↦
          rw (add_mastery, free)
            (ground
              (arith, h, free, lookup-insert m.natural_key k m activities, eq_iff m.natural_key k))
    ]

module _ {M : Machine} (content : ContentSet M) (codec : Codec) (seed : String) where
  finish_step-Carries :
      (rec : ActivityRecord) (id : String) (r : Rewarded (activity_ids codec seed))
      → Carries (canonical_activity_payload codec rec) (finish_step content codec seed rec id r)
  unfolding finish_step activity_result
  finish_step-Carries rec id r = elim (Option-cases (validate_save content r.save).1) [
    | inr (e, bad) ↦ rw (finish_step, bad) tt
    | inl passed ↦ rw (finish_step, passed) refl
  ]

  reward_and_finish-Carries :
      (rec : ActivityRecord) (c : Reply Captured)
      → Carries (canonical_activity_payload codec rec) (reward_and_finish content codec seed rec c)
  unfolding reward_and_finish
  reward_and_finish-Carries rec (failed e) = tt
  reward_and_finish-Carries rec (done c) =
      let r = reward_step content codec seed c rec in
      elim (Option-cases r.error) [
        | inr (e, bad) ↦ rw (reward_and_finish, bad) tt
        | inl paid ↦ rw (reward_and_finish, paid) (finish_step-Carries rec c.captured_id r)
      ]

-- What a successful call has written, by what it returned: the record under its key, and the Save of
-- its Trainer.
abbrev Written :
    {S : IdSource} → ActivityRecord → String → MemoryStore S → Reply (Option Save) → Type 0
Written rec payload s (failed e) = Unit
Written rec payload s (done out) =
    ((kept : ActivityResult) × (lookup rec.natural_key s.activities ≡ some kept)
      × (kept.payload ≡ payload))
    × ((row : MemoryTrainer) × (lookup rec.trainer_id s.trainers ≡ some row) × (row.save ≡ out))

module _ {M : Machine} {S : IdSource} (content : ContentSet M) (codec : Codec) where
  commit_activity-Written :
      (s : MemoryStore S) (rec : ActivityRecord) (row : MemoryTrainer) (payload : String)
      (plan : Reply ActivityTransition)
      → Carries payload plan
      → Written rec payload
          (commit_activity s rec row plan).store
          (commit_activity s rec row plan).reply
  unfolding commit_activity
  commit_activity-Written s rec row payload (failed e) h = tt
  commit_activity-Written s rec row payload (done t) h = (
    (
      t.result,
      add_mastery-lookup (insert rec.natural_key t.result s.activities) t.daily_mastery
          rec.natural_key t.result (lookup-insert_self rec.natural_key t.result s.activities),
      h,
    ),
    (
      record row { save = some t.save },
      lookup-insert_self rec.trainer_id (record row { save = some t.save }) s.trainers,
      refl,
    ),
  )

  seed_activity-Written :
      (s : MemoryStore S) (rec : ActivityRecord) (row : MemoryTrainer) (save : Save)
      (drawn : Option String × S.Supply)
      → (let a = seed_activity content codec s rec row save drawn in
          Written rec (canonical_activity_payload codec rec) a.store a.reply)
  unfolding seed_activity plan_activity_transition
  seed_activity-Written s rec row save (none, rest) = tt
  seed_activity-Written s rec row save (some seed, rest) =
      commit_activity-Written (record s { supply = rest }) rec row _ _
        (reward_and_finish-Carries content codec seed rec
          (capture_step content codec seed save rec))

  record_activity_result-Written :
      (s : MemoryStore S) (rec : ActivityRecord) (a : Answer S (Option Save))
      → record_activity_result content codec s rec ≡ some a
      → Written rec (canonical_activity_payload codec rec) a.store a.reply
  unfolding record_activity_result
  record_activity_result-Written s rec a ran =
      elim (Option-cases (lookup rec.natural_key s.activities)) [
        | inr (old, kept) ↦
            elim (Bool-cases (old.payload == canonical_activity_payload codec rec)) [
              | inr other ↦
                  let same : refuse s result_conflict ≡ a = ground (arith, kept, other, ran) in
                  given a same tt
              | inl equal ↦ elim (Option-cases (lookup rec.trainer_id s.trainers)) [
                | inl gone ↦ absurd (ground (arith, kept, equal, gone, ran))
                | inr (row, found) ↦
                    let same : answer s row.save ≡ a = ground (arith, kept, equal, found, ran) in
                    given a same ((old, kept, (eq_iff _ _).0 equal), (row, found, refl))
              ]
            ]
        | inl new ↦ elim (Option-cases (lookup rec.trainer_id s.trainers)) [
          | inl gone ↦
              let same : refuse s not_found ≡ a = ground (arith, new, gone, ran) in given a same tt
          | inr (row, found) ↦ elim (Option-cases row.save) [
            | inl blank ↦
                let same : refuse s not_found ≡ a = ground (arith, new, found, blank, ran) in
                given a same tt
            | inr (save, has) ↦
                let same : seed_activity content codec s rec row save (S.new_id s.supply) ≡ a =
                  ground (arith, new, found, has, ran) in
                given a same (seed_activity-Written s rec row save (S.new_id s.supply))
          ]
        ]
      ]
    where
      given :
          {b : Answer S (Option Save)} (a : Answer S (Option Save))
          → b ≡ a
          → Written rec (canonical_activity_payload codec rec) b.store b.reply
          → Written rec (canonical_activity_payload codec rec) a.store a.reply
      given a same h =
          subst
            (λ (c : Answer S (Option Save)).
              Written rec (canonical_activity_payload codec rec) c.store c.reply)
            same h

  -- A call under a key that is stored, for a Trainer that has a row.
  on_kept :
      (u : MemoryStore S) (again : ActivityRecord) (old : ActivityResult) (payload : String)
      → lookup again.natural_key u.activities ≡ some old
      → old.payload ≡ payload
      → has_row u again.trainer_id ≡ true
      → record_activity_result content codec u again
        ≡ some (
            if payload == canonical_activity_payload codec again
            then answer u (save_of u again.trainer_id)
            else refuse u result_conflict)
  unfolding record_activity_result save_of
  on_kept u again old payload kept paid here =
      elim (Option-cases (lookup again.trainer_id u.trainers)) [
        | inl gone ↦ absurd (ground (arith, here, gone))
        | inr (row, found) ↦ elim (Bool-cases (payload == canonical_activity_payload codec again)) [
          | inl equal ↦
              let same : (old.payload == canonical_activity_payload codec again) ≡ true =
                ap (λ x. x == canonical_activity_payload codec again) paid ∙ equal in
              rw (record_activity_result, kept, same, save_of, found, equal) refl
          | inr other ↦
              let differs : (old.payload == canonical_activity_payload codec again) ≡ false =
                ap (λ x. x == canonical_activity_payload codec again) paid ∙ other in
              rw (record_activity_result, kept, differs, other) refl
        ]
      ]

  -- Once a call of `RecordActivityResult` has succeeded, the store has the Save that it returned. Take any
  -- history of further calls that resets no Trainer. A call for the same Trainer under the same key then
  -- does not panic and leaves the store as it is: with an equal payload it returns the Save that the store
  -- has of the Trainer, and otherwise it is a conflict.
  pub record_activity_result-again :
      (letters : Letters) (s : MemoryStore S) (rec again : ActivityRecord) (t : MemoryStore S)
      (out : Option Save) (later : List Request)
      → record_activity_result content codec s rec ≡ some (answer t out)
      → has_reset later ≡ false
      → again.natural_key ≡ rec.natural_key
      → again.trainer_id ≡ rec.trainer_id
      → (save_of t rec.trainer_id ≡ out)
        × (let u = handle_all content codec letters t later in
            record_activity_result content codec u again
            ≡ some (
                if canonical_activity_payload codec rec == canonical_activity_payload codec again
                then answer u (save_of u again.trainer_id)
                else refuse u result_conflict))
  unfolding save_of
  record_activity_result-again letters s rec again t out later ran no_reset one_key one_trainer =
      let ((old, kept, paid), (row, found, has)) =
        record_activity_result-Written s rec (answer t out) ran in
      let lasts = handle_all-Lasts content codec letters t later in
      let there : has_row t again.trainer_id ≡ true =
        ap (λ k. is_there (lookup k t.trainers)) one_trainer ∙ ap is_there found in
      (
        rw (save_of, found) has,
        on_kept (handle_all content codec letters t later) again old
            (canonical_activity_payload codec rec)
            (lasts.activities no_reset again.natural_key old
              (ap (λ k. lookup k t.activities) one_key ∙ kept))
            paid (lasts.rows again.trainer_id there),
      )
