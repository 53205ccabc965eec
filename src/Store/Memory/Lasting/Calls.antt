-- ===== src/Store/Memory/Lasting/Calls.antt =====
-- The calls of internal/store/memory.go, one by one and in a history: stored Battles and activities last.
use termon.Content.{ContentSet}
use termon.Machine.{Machine}
use termon.Prelude.{
  Bool-cases, Option, Option-cases, String, arith, false, inl, inr, ltb, none, not, some, ◌==◌,
  ◌||◌, ◌≡◌,
}
use termon.Prelude.Dict.{Dict, insert, lookup}
use termon.Store.{Save}
use termon.Store.Memory.{MemoryStore, MemoryTrainer, save_of}
use termon.Store.Memory.Activities.{
  add_mastery, commit_activity, record_activity_result, seed_activity,
}
use termon.Store.Memory.Battles.{apply_result, count_result, lost, record_battle_result, won}
use termon.Store.Memory.Lasting.{
  Extends, Lasts, Lasts-refl, Lasts-trans, draw-Lasts, insert-Extends, insert-rows,
  settle_rewards-Lasts, store_battle-Lasts, two_rows-Lasts, two_rows-free,
}
use termon.Store.Mint.{Reply, done, failed}
use termon.Store.Records.{
  ActivityResult, BattleRecord, Codec, canonical_activity_payload, canonical_battle_body,
  same_result,
}
use termon.Store.Rewards.{ActivityRecord, IdSource}
use termon.Store.Transition.{ActivityTransition, plan_activity_transition}
use termon.Store.Memory.Requests.{served_or_panicked}

-- A key that is free is written, and a second key only if it is free too.
add_mastery-Extends :
    (entries : Dict ActivityResult) (k : String) (v : ActivityResult)
    (mastery : Option ActivityResult)
    → lookup k entries ≡ none
    → Extends entries (add_mastery (insert k v entries) mastery)
unfolding add_mastery
add_mastery-Extends entries k v none free = insert-Extends entries k v free
add_mastery-Extends entries k v (some m) free =
    elim (Option-cases (lookup m.natural_key (insert k v entries))) [
      | inr (old, there) ↦ rw (add_mastery, there) (insert-Extends entries k v free)
      | inl new ↦
          rw (add_mastery, new)
            (λ j w h.
              insert-Extends (insert k v entries) m.natural_key m new j w
                (insert-Extends entries k v free j w h))
    ]

module _ {M : Machine} {S : IdSource} (content : ContentSet M) where
  apply_result-Lasts :
      (s counted : MemoryStore S) (rec : BattleRecord) (body : String)
      → lookup rec.result.id counted.battles ≡ none
      → Lasts false counted (apply_result content s counted rec body).store
  unfolding apply_result
  apply_result-Lasts s counted rec body free = elim (Bool-cases rec.apply_rewards) [
    | inr plain ↦ rw (apply_result, plain) (store_battle-Lasts counted rec body free)
    | inl paid ↦ elim (Option-cases (save_of counted rec.result.winner)) [
      | inl gone ↦ rw (apply_result, paid, gone) (Lasts-refl counted)
      | inr (w, w_has) ↦ elim (Option-cases (save_of counted rec.result.loser)) [
        | inl gone ↦ rw (apply_result, paid, w_has, gone) (Lasts-refl counted)
        | inr (l, l_has) ↦
            rw (apply_result, paid, w_has, l_has) (settle_rewards-Lasts counted rec body _ free)
      ]
    ]
  ]

  new_battle-Lasts :
      (s : MemoryStore S) (rec : BattleRecord) (body : String)
      → lookup rec.result.id s.battles ≡ none
      → Lasts false s (apply_result content s (count_result s rec.result) rec body).store
  unfolding count_result
  new_battle-Lasts s rec body free =
      let a = rec.result.winner in
      let b = rec.result.loser in
      let counted = count_result s rec.result in
      Lasts-trans false false s counted (apply_result content s counted rec body).store
        (two_rows-Lasts s a b won lost)
        (apply_result-Lasts s counted rec body (two_rows-free s rec.result.id a b won lost free))

  pub record_battle_result-Lasts :
      (codec : Codec) (s : MemoryStore S) (rec : BattleRecord)
      → Lasts false s (record_battle_result content codec s rec).store
  unfolding record_battle_result
  record_battle_result-Lasts codec s rec = elim (Bool-cases (ltb 0 s.fail_results)) [
    | inl failing ↦
        rw (record_battle_result, failing)
          (record {
            battles = λ k v h. h;
            working = λ h. omega (arith, h);
            activities = λ _ k v h. h;
            rows = λ k h. h;
          })
    | inr working ↦ elim (Option-cases (lookup rec.result.id s.battles)) [
      | inr (old, kept) ↦
          elim (Bool-cases (
            not (same_result old.result rec.result)
            || not (old.body == canonical_battle_body codec rec))) [
              | inl other ↦ rw (record_battle_result, working, kept, other) (Lasts-refl s)
              | inr same ↦ rw (record_battle_result, working, kept, same) (Lasts-refl s)
            ]
      | inl new ↦ elim (Option-cases (save_of s rec.result.winner)) [
        | inl gone ↦ rw (record_battle_result, working, new, gone) (Lasts-refl s)
        | inr (w, w_has) ↦ elim (Option-cases (save_of s rec.result.loser)) [
          | inl gone ↦ rw (record_battle_result, working, new, w_has, gone) (Lasts-refl s)
          | inr (l, l_has) ↦
              rw (record_battle_result, working, new, w_has, l_has)
                (new_battle-Lasts s rec (canonical_battle_body codec rec) new)
        ]
      ]
    ]
  ]

  commit_activity-Lasts :
      (s : MemoryStore S) (rec : ActivityRecord) (row : MemoryTrainer)
      (plan : Reply ActivityTransition)
      → lookup rec.natural_key s.activities ≡ none
      → Lasts false s (commit_activity s rec row plan).store
  unfolding commit_activity
  commit_activity-Lasts s rec row (failed e) free = Lasts-refl s
  commit_activity-Lasts s rec row (done t) free = record {
    battles = λ k v h. h;
    working = λ h. h;
    activities =
        λ _. add_mastery-Extends s.activities rec.natural_key t.result t.daily_mastery free;
    rows = λ k h. insert-rows s.trainers rec.trainer_id k _ h;
  }

  seed_activity-Lasts :
      (codec : Codec) (s : MemoryStore S) (rec : ActivityRecord) (row : MemoryTrainer) (save : Save)
      (drawn : Option String × S.Supply)
      → lookup rec.natural_key s.activities ≡ none
      → Lasts false s (seed_activity content codec s rec row save drawn).store
  unfolding seed_activity
  seed_activity-Lasts codec s rec row save (none, rest) free = draw-Lasts s rest
  seed_activity-Lasts codec s rec row save (some seed, rest) free =
      let drawn = record s { supply = rest } in
      let plan = plan_activity_transition content codec seed save rec in
      Lasts-trans false false s drawn (commit_activity drawn rec row plan).store (draw-Lasts s rest)
        (commit_activity-Lasts drawn rec row plan free)

  pub record_activity_result-Lasts :
      (codec : Codec) (s : MemoryStore S) (rec : ActivityRecord)
      → Lasts false s (served_or_panicked s (record_activity_result content codec s rec)).store
  unfolding record_activity_result
  record_activity_result-Lasts codec s rec =
      elim (Option-cases (lookup rec.natural_key s.activities)) [
        | inr (old, kept) ↦
            elim (Bool-cases (old.payload == canonical_activity_payload codec rec)) [
              | inr other ↦ rw (record_activity_result, kept, other) (Lasts-refl s)
              | inl same ↦ elim (Option-cases (lookup rec.trainer_id s.trainers)) [
                | inl gone ↦ rw (record_activity_result, kept, same, gone) (Lasts-refl s)
                | inr (row, found) ↦ rw (record_activity_result, kept, same, found) (Lasts-refl s)
              ]
            ]
        | inl new ↦ elim (Option-cases (lookup rec.trainer_id s.trainers)) [
          | inl gone ↦ rw (record_activity_result, new, gone) (Lasts-refl s)
          | inr (row, found) ↦ elim (Option-cases row.save) [
            | inl blank ↦ rw (record_activity_result, new, found, blank) (Lasts-refl s)
            | inr (save, has) ↦
                rw (record_activity_result, new, found, has)
                  (seed_activity-Lasts codec s rec row save (S.new_id s.supply) new)
          ]
        ]
      ]
