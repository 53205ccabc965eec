-- ===== src/Store/Memory/Battles.antt =====
-- `RecordBattleResult` of internal/store/memory.go.
use termon.Content.{ContentSet}
use termon.Machine.{Machine}
use termon.Prelude.{
  Bool, String, [], false, if◌then◌else◌, ltb, none, not, some, true, ℕ, ◌&&◌, ◌+◌, ◌-◌, ◌==◌, ◌||◌,
  ◌∷◌,
}
use termon.Prelude.Dict.{Dict, insert, lookup}
use termon.Store.{Save}
use termon.Store.Memory.{Answer, MemoryStore, MemoryTrainer, StoredBattle, answer, refuse, save_of}
use termon.Store.Mint.{Reply, done, failed}
use termon.Store.Pvp.{apply_pvp_rewards, pvp_decay_multiplier}
use termon.Store.Records.{
  BattleRecord, BattleResult, Codec, ResultRecords, canonical_battle_body, same_result,
}
use termon.Store.Rewards.{
  IdSource, Rewarded, injected_failure, not_found, result_conflict, validate_save,
}

-- Twenty-four hours in nanoseconds.
abbrev pub day : ℕ
day = 86400000000000

-- A Battle of the two Trainers in the day before `at`.
abbrev in_window : String → String → ℕ → BattleResult → Bool
in_window a b at r =
    not (ltb (r.completed_at + day) at)
    && (ltb r.completed_at at
        && ((r.winner == a && r.loser == b) || (r.winner == b && r.loser == a)))

unfoldable pub count_pair_results : Dict StoredBattle → String → String → ℕ → ℕ
count_pair_results [] a b at = 0
count_pair_results ((_, st) ∷ rest) a b at =
    let counted = count_pair_results rest a b at in
    if in_window a b at st.result then counted + 1 else counted

abbrev pub won : MemoryTrainer → Save → MemoryTrainer
won row save = record row { wins = row.wins + 1; save = some (record save { wins = row.wins + 1 }) }

abbrev pub lost : MemoryTrainer → Save → MemoryTrainer
lost row save = record row {
  losses = row.losses + 1;
  save = some (record save { losses = row.losses + 1 });
}

abbrev pub set_save : Save → MemoryTrainer → Save → MemoryTrainer
set_save save row old = record row { save = some save }

module _ {S : IdSource} where
  unfoldable pub memory_battle_records : MemoryStore S → BattleResult → Bool → ResultRecords
  memory_battle_records s result applied = record {
    winner = save_of s result.winner;
    loser = save_of s result.loser;
    applied = applied;
  }

  -- A change of a row that has a Save; both pointers lead to such rows.
  unfoldable pub on_row :
      MemoryStore S → String → (MemoryTrainer → Save → MemoryTrainer) → MemoryStore S
  on_row s id change = elim (lookup id s.trainers) [
    | none ↦ s
    | some row ↦ elim row.save [
      | none ↦ s
      | some save ↦ record s { trainers = insert id (change row save) s.trainers }
    ]
  ]

  -- The counts of both Trainers, one after the other.
  unfoldable pub count_result : MemoryStore S → BattleResult → MemoryStore S
  unfolding on_row
  count_result s r = on_row (on_row s r.winner won) r.loser lost

  unfoldable pub store_battle : MemoryStore S → BattleRecord → String → Answer S ResultRecords
  unfolding memory_battle_records
  store_battle s rec body =
      let stored = record s {
        battles = insert rec.result.id (record { result = rec.result; body = body }) s.battles;
      } in
      answer stored (memory_battle_records stored rec.result true)

-- The rewards of both Saves, then the checks of both.
unfoldable pub rewarded_saves :
    {M : Machine} (S : IdSource)
    → ContentSet M
    → BattleRecord
    → ℕ
    → Save
    → Save
    → S.Supply
    → Reply (Save × Save) × S.Supply
rewarded_saves S content rec decay w_save l_save supply =
    let w : Rewarded S =
      apply_pvp_rewards content w_save rec.winner_active rec.winner_reserve true decay rec.result.id
        supply in
    let l : Rewarded S =
      apply_pvp_rewards content l_save rec.loser_active rec.loser_reserve false decay rec.result.id
        w.supply in
    let (w_checked, w_error) = validate_save content w.save in
    let (l_checked, l_error) = validate_save content l.save in
    elim w.error [
      | some e ↦ (failed e, w.supply)
      | none ↦ elim l.error [
        | some e ↦ (failed e, l.supply)
        | none ↦ elim w_error [
          | some e ↦ (failed e, l.supply)
          | none ↦ elim l_error [
            | some e ↦ (failed e, l.supply)
            | none ↦ (done (w_checked, l_checked), l.supply)
          ]
        ]
      ]
    ]

module _ {S : IdSource} where
  -- The store with what the rewards left of the ids, and both Saves written.
  unfoldable pub settle_rewards :
      MemoryStore S
      → BattleRecord
      → String
      → Reply (Save × Save) × S.Supply
      → Answer S ResultRecords
  unfolding on_row store_battle
  settle_rewards s rec body (failed e, rest) = refuse (record s { supply = rest }) e
  settle_rewards s rec body (done (w, l), rest) =
      let drawn = record s { supply = rest } in
      store_battle
        (on_row (on_row drawn rec.result.winner (set_save w)) rec.result.loser (set_save l)) rec
        body

module _ {M : Machine} {S : IdSource} (content : ContentSet M) where
  -- The Battle is new and both Trainers are onboarded: `counted` has the new counts.
  unfoldable pub apply_result :
      MemoryStore S → MemoryStore S → BattleRecord → String → Answer S ResultRecords
  unfolding rewarded_saves settle_rewards store_battle
  apply_result s counted rec body =
      let decay : ℕ =
        pvp_decay_multiplier (
          count_pair_results s.battles rec.result.winner rec.result.loser
            rec.result.completed_at) in
      if rec.apply_rewards
      then elim (save_of counted rec.result.winner) [
        | none ↦ refuse counted not_found
        | some w_save ↦ elim (save_of counted rec.result.loser) [
          | none ↦ refuse counted not_found
          | some l_save ↦
              settle_rewards counted rec body
                (rewarded_saves S content rec decay w_save l_save counted.supply)
        ]
      ]
      else store_battle counted rec body

  unfoldable pub record_battle_result :
      Codec → MemoryStore S → BattleRecord → Answer S ResultRecords
  unfolding memory_battle_records count_result apply_result
  record_battle_result codec s rec =
      let body : String = canonical_battle_body codec rec in
      if ltb 0 s.fail_results
      then refuse (record s { fail_results = s.fail_results - 1 }) injected_failure
      else elim (lookup rec.result.id s.battles) [
        | some existing ↦
            if not (same_result existing.result rec.result) || not (existing.body == body)
            then refuse s result_conflict
            else answer s (memory_battle_records s rec.result false)
        | none ↦ elim (save_of s rec.result.winner) [
          | none ↦ refuse s not_found
          | some _ ↦ elim (save_of s rec.result.loser) [
            | none ↦ refuse s not_found
            | some _ ↦ apply_result s (count_result s rec.result) rec body
          ]
        ]
      ]
