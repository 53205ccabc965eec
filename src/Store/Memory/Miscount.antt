-- ===== src/Store/Memory/Miscount.antt =====
-- `RecordBattleResult` of internal/store/memory.go when the rewards fail.
use termon.Prelude.{
  arith, eq_iff, ltb, subst, sym, Bool-cases, Option-cases, String, ap, false, inl, inr, none, refl,
  some, ◌==◌, ◌∙◌, ◌≡◌,
}
use termon.Prelude.Dict.{Dict, lookup-insert_self, insert, lookup, lookup-insert}
use termon.Store.Memory.{Answer, MemoryStore, MemoryTrainer, save_of}
use termon.Store.Records.{canonical_battle_body, BattleRecord, BattleResult, Codec, ResultRecords}
use termon.Content.{ContentSet}
use termon.Machine.{Machine}
use termon.Store.{Save}
use termon.Store.Memory.Battles.{
  apply_result, count_result, lost, on_row, record_battle_result, settle_rewards, store_battle, won,
}
use termon.Store.Mint.{Reply, done, failed}
use termon.Store.Rewards.{IdSource, StoreError}

-- With an error the records are those of the store with the counts.
abbrev Counted : {S : IdSource} → MemoryStore S → MemoryStore S → Reply ResultRecords → Type 0
Counted counted t (done out) = Unit
Counted counted t (failed e) = (t.trainers ≡ counted.trainers) × (t.battles ≡ counted.battles)

first_of_two :
    (j k : String) (v w : MemoryTrainer) (entries : Dict MemoryTrainer)
    → (j == k) ≡ false
    → lookup j (insert k w (insert j v entries)) ≡ some v
first_of_two j k v w entries apart = ground (
  arith,
  apart,
  lookup-insert k j w (insert j v entries),
  lookup-insert_self j v entries,
  eq_iff j k,
  eq_iff k j,
)

module _ {S : IdSource} where
  save_of-found :
      (s : MemoryStore S) (id : String) (row : MemoryTrainer)
      → lookup id s.trainers ≡ some row
      → save_of s id ≡ row.save
  unfolding save_of
  save_of-found s id row found = rw (save_of, found) refl

  settle_rewards-Counted :
      (s : MemoryStore S) (rec : BattleRecord) (body : String)
      (saves : Reply (Save × Save) × S.Supply)
      → (let a = settle_rewards s rec body saves in Counted s a.store a.reply)
  unfolding settle_rewards store_battle
  settle_rewards-Counted s rec body (failed e, rest) = (refl, refl)
  settle_rewards-Counted s rec body (done (w, l), rest) = tt

  on_row-found :
      (s : MemoryStore S) (id : String) (change : MemoryTrainer → Save → MemoryTrainer)
      (row : MemoryTrainer) (save : Save)
      → lookup id s.trainers ≡ some row
      → row.save ≡ some save
      → on_row s id change ≡ record s { trainers = insert id (change row save) s.trainers }
  unfolding on_row
  on_row-found s id change row save found has = ground (arith, found, has)

  count_result-found :
      (s : MemoryStore S) (r : BattleResult) (w_row l_row : MemoryTrainer) (w_save l_save : Save)
      → (r.winner == r.loser) ≡ false
      → lookup r.winner s.trainers ≡ some w_row
      → w_row.save ≡ some w_save
      → lookup r.loser s.trainers ≡ some l_row
      → l_row.save ≡ some l_save
      → count_result s r ≡ record s {
        trainers =
            insert r.loser (lost l_row l_save) (insert r.winner (won w_row w_save) s.trainers);
      }
  unfolding count_result
  count_result-found s r w_row l_row w_save l_save apart w_found w_has l_found l_has =
      let first = on_row-found s r.winner won w_row w_save w_found w_has in
      ap (λ (t : MemoryStore S). on_row t r.loser lost) first
      ∙ on_row-found (record s { trainers = insert r.winner (won w_row w_save) s.trainers }) r.loser
          lost l_row l_save
          (lookup-insert r.winner r.loser (won w_row w_save) s.trainers ∙ rw apart l_found) l_has

module _ {M : Machine} {S : IdSource} (content : ContentSet M) where
  apply_result-Counted :
      (s counted : MemoryStore S) (rec : BattleRecord) (body : String)
      → (let a = apply_result content s counted rec body in Counted counted a.store a.reply)
  unfolding apply_result store_battle
  apply_result-Counted s counted rec body = elim (Bool-cases rec.apply_rewards) [
    | inr plain ↦ rw (apply_result, plain) tt
    | inl paid ↦ elim (Option-cases (save_of counted rec.result.winner)) [
      | inl gone ↦ rw (apply_result, paid, gone) (refl, refl)
      | inr (w_save, w_has) ↦ elim (Option-cases (save_of counted rec.result.loser)) [
        | inl gone ↦ rw (apply_result, paid, w_has, gone) (refl, refl)
        | inr (l_save, l_has) ↦
            rw (apply_result, paid, w_has, l_has) (settle_rewards-Counted counted rec body _)
      ]
    ]
  ]

  reaches_apply :
      (codec : Codec) (s : MemoryStore S) (rec : BattleRecord) (w_save l_save : Save)
      → s.fail_results ≡ 0
      → lookup rec.result.id s.battles ≡ none
      → save_of s rec.result.winner ≡ some w_save
      → save_of s rec.result.loser ≡ some l_save
      → record_battle_result content codec s rec
        ≡ apply_result content s (count_result s rec.result) rec (canonical_battle_body codec rec)
  unfolding record_battle_result
  reaches_apply codec s rec w_save l_save quiet new w_has l_has =
      let idle : ltb 0 s.fail_results ≡ false = ground (arith, quiet) in
      rw (record_battle_result, idle, new, w_has, l_has) refl

  -- A call of `RecordBattleResult` for a new Battle of two onboarded Trainers that returns an error,
  -- without an injected failure, has counted the win and the loss all the same, and has not stored the
  -- Battle: repeating it counts them again.
  pub record_battle_result-failed :
      (codec : Codec) (s : MemoryStore S) (rec : BattleRecord) (w_row l_row : MemoryTrainer)
      (w_save l_save : Save) (e : StoreError)
      → s.fail_results ≡ 0
      → lookup rec.result.id s.battles ≡ none
      → (rec.result.winner == rec.result.loser) ≡ false
      → lookup rec.result.winner s.trainers ≡ some w_row
      → w_row.save ≡ some w_save
      → lookup rec.result.loser s.trainers ≡ some l_row
      → l_row.save ≡ some l_save
      → (record_battle_result content codec s rec).reply ≡ failed e
      → (let t = (record_battle_result content codec s rec).store in
          (lookup rec.result.winner t.trainers ≡ some (won w_row w_save))
          × (lookup rec.result.loser t.trainers ≡ some (lost l_row l_save))
          × (lookup rec.result.id t.battles ≡ none))
  record_battle_result-failed codec s rec w_row l_row w_save l_save e quiet new apart w_found w_has
        l_found l_has refused =
      let r = rec.result in
      let body = canonical_battle_body codec rec in
      let counted : MemoryStore S = record s {
        trainers =
            insert r.loser (lost l_row l_save) (insert r.winner (won w_row w_save) s.trainers);
      } in
      let counts =
        count_result-found s r w_row l_row w_save l_save apart w_found w_has l_found l_has in
      let ran : record_battle_result content codec s rec ≡ apply_result content s counted rec body =
        reaches_apply codec s rec w_save l_save quiet new
          (save_of-found s r.winner w_row w_found ∙ w_has)
          (save_of-found s r.loser l_row l_found ∙ l_has)
        ∙ ap (λ c. apply_result content s c rec body) counts in
      let a = apply_result content s counted rec body in
      let reply : a.reply ≡ failed e =
        ap (λ (x : Answer S ResultRecords). x.reply) (sym ran) ∙ refused in
      let (rows, battles) : Counted counted a.store (failed e) =
        subst (Counted counted a.store) reply (apply_result-Counted s counted rec body) in
      subst
        (λ (x : Answer S ResultRecords).
          (lookup r.winner x.store.trainers ≡ some (won w_row w_save))
          × (lookup r.loser x.store.trainers ≡ some (lost l_row l_save))
          × (lookup r.id x.store.battles ≡ none))
        (sym ran)
        (
          ap (lookup r.winner) rows
              ∙ first_of_two r.winner r.loser (won w_row w_save) (lost l_row l_save) s.trainers
                  apart,
          ap (lookup r.loser) rows
              ∙ lookup-insert_self r.loser (lost l_row l_save)
                  (insert r.winner (won w_row w_save) s.trainers),
          ap (lookup r.id) battles ∙ new,
        )
