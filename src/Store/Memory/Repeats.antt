-- ===== src/Store/Memory/Repeats.antt =====
-- A second call of `RecordBattleResult` or `RecordActivityResult` of internal/store/memory.go under a
-- key that is stored.
use termon.Prelude.{
  List, Bool, ap, false, if◌then◌else◌, subst, ◌&&◌, Bool-cases, Option-cases, String, arith,
  eq_iff, eqb_iff, inl, inr, ltb, not, refl, some, true, ℕ, ◌==◌, ◌||◌, ◌∙◌, ◌≡◌,
}
use termon.Store.Memory.Requests.{Request, handle_all}
use termon.Store.Memory.Lasting.Histories.{handle_all-Lasts}
use termon.Game.Nickname.{Letters}
use termon.Prelude.Dict.{lookup-insert_self, lookup}
use termon.Store.Memory.{StoredBattle, answer, refuse, MemoryStore, MemoryTrainer, save_of}
use termon.Store.Memory.Battles.{
  lost, memory_battle_records, won, apply_result, count_result, on_row, record_battle_result,
  set_save, settle_rewards, store_battle,
}
use termon.Store.Rewards.{result_conflict, IdSource}
use termon.Content.{ContentSet}
use termon.Machine.{Machine}
use termon.Store.{Save}
use termon.Store.Mint.{Reply, done, failed}
use termon.Store.Records.{
  BattleRecord, BattleResult, Codec, ResultRecords, canonical_battle_body, same_result,
}

both_false : (a b : Bool) → not a || not b ≡ false → (a ≡ true) × (b ≡ true)
both_false true true h = (refl, refl)
both_false true false h = absurd (ground (arith, h))
both_false false b h = absurd (ground (arith, h))

same_result-eq : (a b : BattleResult) → same_result a b ≡ true → a ≡ b
unfolding same_result
same_result-eq a b h = ground (
  arith,
  h,
  eq_iff a.id b.id,
  eq_iff a.winner b.winner,
  eq_iff a.loser b.loser,
  eq_iff a.reason b.reason,
  eqb_iff a.completed_at b.completed_at,
)

-- A stored Battle that a call agrees with is the one it would store.
replayed :
    (old : StoredBattle) (r : BattleResult) (body : String)
    → not (same_result old.result r) || not (old.body == body) ≡ false
    → old ≡ record { result = r; body = body }
replayed old r body same =
    let one : old.result ≡ r = same_result-eq old.result r (both_false _ _ same).0 in
    let two : old.body ≡ body = (eq_iff old.body body).0 (both_false _ _ same).1 in
    λ i. record { result = one i; body = two i }

module _ {S : IdSource} where
  on_row-fail_results :
      (s : MemoryStore S) (id : String) (change : MemoryTrainer → Save → MemoryTrainer)
      → (on_row s id change).fail_results ≡ s.fail_results
  unfolding on_row
  on_row-fail_results s id change = elim (Option-cases (lookup id s.trainers)) [
    | inl gone ↦ rw (on_row, gone) refl
    | inr (row, found) ↦ elim (Option-cases row.save) [
      | inl blank ↦ rw (on_row, found, blank) refl
      | inr (save, has) ↦ rw (on_row, found, has) refl
    ]
  ]

  count_result-fail_results :
      (s : MemoryStore S) (r : BattleResult) → (count_result s r).fail_results ≡ s.fail_results
  unfolding count_result
  count_result-fail_results s r =
      on_row-fail_results (on_row s r.winner won) r.loser lost ∙ on_row-fail_results s r.winner won

  -- What a successful call has written, by what it returned.
  abbrev Stored : BattleRecord → String → ℕ → MemoryStore S → Reply ResultRecords → Type 0
  Stored rec body fails s (failed e) = Unit
  Stored rec body fails s (done out) =
      (lookup rec.result.id s.battles ≡ some (record { result = rec.result; body = body }))
      × (s.fail_results ≡ fails)

  store_battle-Stored :
      (s : MemoryStore S) (rec : BattleRecord) (body : String)
      → Stored rec body s.fail_results
          (store_battle s rec body).store
          (store_battle s rec body).reply
  unfolding store_battle
  store_battle-Stored s rec body = (lookup-insert_self rec.result.id _ s.battles, refl)

  settle_rewards-Stored :
      (s : MemoryStore S) (rec : BattleRecord) (body : String)
      (saves : Reply (Save × Save) × S.Supply)
      → Stored rec body s.fail_results
          (settle_rewards s rec body saves).store
          (settle_rewards s rec body saves).reply
  unfolding settle_rewards store_battle
  settle_rewards-Stored s rec body (failed e, rest) = tt
  settle_rewards-Stored s rec body (done (w, l), rest) =
      let drawn = record s { supply = rest } in
      (
        lookup-insert_self rec.result.id _ _,
        on_row-fail_results (on_row drawn rec.result.winner (set_save w)) rec.result.loser
              (set_save l)
            ∙ on_row-fail_results drawn rec.result.winner (set_save w),
      )

module _ {M : Machine} {S : IdSource} (content : ContentSet M) where
  apply_result-Stored :
      (s counted : MemoryStore S) (rec : BattleRecord) (body : String)
      → Stored rec body counted.fail_results
          (apply_result content s counted rec body).store
          (apply_result content s counted rec body).reply
  unfolding apply_result
  apply_result-Stored s counted rec body = elim (Bool-cases rec.apply_rewards) [
    | inr plain ↦ rw (apply_result, plain) (store_battle-Stored counted rec body)
    | inl paid ↦ elim (Option-cases (save_of counted rec.result.winner)) [
      | inl gone ↦ rw (apply_result, paid, gone) tt
      | inr (w_save, w_has) ↦ elim (Option-cases (save_of counted rec.result.loser)) [
        | inl gone ↦ rw (apply_result, paid, w_has, gone) tt
        | inr (l_save, l_has) ↦
            rw (apply_result, paid, w_has, l_has) (settle_rewards-Stored counted rec body _)
      ]
    ]
  ]

  counted_Stored :
      (codec : Codec) (s : MemoryStore S) (rec : BattleRecord)
      → (let body = canonical_battle_body codec rec in
          let a = apply_result content s (count_result s rec.result) rec body in
          Stored rec body s.fail_results a.store a.reply)
  counted_Stored codec s rec =
      let body = canonical_battle_body codec rec in
      let a = apply_result content s (count_result s rec.result) rec body in
      subst (λ n. Stored rec body n a.store a.reply) (count_result-fail_results s rec.result)
        (apply_result-Stored s (count_result s rec.result) rec body)

  record_battle_result-Stored :
      (codec : Codec) (s : MemoryStore S) (rec : BattleRecord)
      → Stored rec
          (canonical_battle_body codec rec)
          s.fail_results
          (record_battle_result content codec s rec).store
          (record_battle_result content codec s rec).reply
  unfolding record_battle_result
  record_battle_result-Stored codec s rec = elim (Bool-cases (ltb 0 s.fail_results)) [
    | inl failing ↦ rw (record_battle_result, failing) tt
    | inr working ↦ elim (Option-cases (lookup rec.result.id s.battles)) [
      | inr (old, kept) ↦
          elim (Bool-cases (
            not (same_result old.result rec.result)
            || not (old.body == canonical_battle_body codec rec))) [
              | inl other ↦ rw (record_battle_result, working, kept, other) tt
              | inr same ↦
                  rw (record_battle_result, working, kept, same)
                    (
                      kept
                          ∙ ap some
                              (replayed old rec.result (canonical_battle_body codec rec) same),
                      refl,
                    )
            ]
      | inl new ↦ elim (Option-cases (save_of s rec.result.winner)) [
        | inl gone ↦ rw (record_battle_result, working, new, gone) tt
        | inr (w, w_has) ↦ elim (Option-cases (save_of s rec.result.loser)) [
          | inl gone ↦ rw (record_battle_result, working, new, w_has, gone) tt
          | inr (l, l_has) ↦
              rw (record_battle_result, working, new, w_has, l_has) (counted_Stored codec s rec)
        ]
      ]
    ]
  ]

  on_stored :
      (codec : Codec) (t : MemoryStore S) (again : BattleRecord) (r : BattleResult) (body : String)
      → t.fail_results ≡ 0
      → lookup again.result.id t.battles ≡ some (record { result = r; body = body })
      → record_battle_result content codec t again ≡ (
          if same_result r again.result && (body == canonical_battle_body codec again)
          then answer t (record {
            winner = save_of t again.result.winner;
            loser = save_of t again.result.loser;
            applied = false;
          })
          else refuse t result_conflict)
  unfolding record_battle_result memory_battle_records
  on_stored codec t again r body quiet kept =
      let idle : ltb 0 t.fail_results ≡ false = ground (arith, quiet) in
      elim (Bool-cases (same_result r again.result)) [
        | inr other ↦ rw (record_battle_result, idle, kept, other) refl
        | inl same ↦ elim (Bool-cases (body == canonical_battle_body codec again)) [
          | inr other ↦ rw (record_battle_result, idle, kept, same, other) refl
          | inl equal ↦ rw (record_battle_result, idle, kept, same, equal) refl
        ]
      ]

  -- Once a call of `RecordBattleResult` has succeeded, and no failure is injected, take any history of
  -- further calls on the store, resets of Trainers included. A call under the same Battle id then leaves the
  -- store as it is: with an equal result and body it returns the Saves that the store has of both Trainers
  -- and reports that nothing was applied, and otherwise it is a conflict.
  pub record_battle_result-again :
      (codec : Codec) (letters : Letters) (s : MemoryStore S) (rec again : BattleRecord)
      (out : ResultRecords) (later : List Request)
      → s.fail_results ≡ 0
      → (record_battle_result content codec s rec).reply ≡ done out
      → again.result.id ≡ rec.result.id
      → (let t =
            handle_all content codec letters
              (record_battle_result content codec s rec).store
              later in
          let same =
            same_result rec.result again.result
            && (canonical_battle_body codec rec == canonical_battle_body codec again) in
          record_battle_result content codec t again ≡ (
            if same
            then answer t (record {
              winner = save_of t again.result.winner;
              loser = save_of t again.result.loser;
              applied = false;
            })
            else refuse t result_conflict))
  record_battle_result-again codec letters s rec again out later quiet worked one_id =
      let a = record_battle_result content codec s rec in
      let (kept, still) : Stored rec (canonical_battle_body codec rec) s.fail_results a.store
          (done out) =
        subst (λ r. Stored rec (canonical_battle_body codec rec) s.fail_results a.store r) worked
          (record_battle_result-Stored codec s rec) in
      let lasts = handle_all-Lasts content codec letters a.store later in
      on_stored codec (handle_all content codec letters a.store later) again rec.result
        (canonical_battle_body codec rec) (lasts.working (still ∙ quiet))
        (lasts.battles again.result.id _ (ap (λ k. lookup k a.store.battles) one_id ∙ kept))
