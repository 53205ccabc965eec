-- ===== src/Store/Memory/Payouts.antt =====
-- `RecordBattleResult` of internal/store/memory.go and the Saves that it leaves.
use termon.Content.{ContentSet}
use termon.Machine.{Machine}
use termon.Prelude.{
  Bool-cases, Option-cases, String, false, inl, inr, ltb, not, true, ℕ, ◌==◌, ◌||◌,
}
use termon.Prelude.Dict.{lookup}
use termon.Store.{Save}
use termon.Store.Growth.{IsSound}
use termon.Store.Memory.{MemoryStore, save_of}
use termon.Store.Memory.Battles.{
  apply_result, count_result, lost, on_row, record_battle_result, rewarded_saves, set_save,
  settle_rewards, store_battle, won,
}
use termon.Store.Memory.Sound.{AllSound, on_row-AllSound, validate_save-IsSound}
use termon.Store.Mint.{Reply, done, failed}
use termon.Store.Pvp.{apply_pvp_rewards}
use termon.Store.Records.{BattleRecord, BattleResult, Codec, canonical_battle_body, same_result}
use termon.Store.Rewards.{IdSource, Rewarded, validate_save}

-- Both Saves that the rewards of a Battle leave pass.
abbrev BothSound : Reply (Save × Save) → Type 0
BothSound (failed e) = Unit
BothSound (done (w, l)) = IsSound w × IsSound l

settle_rewards-AllSound :
    {S : IdSource} (s : MemoryStore S) (rec : BattleRecord) (body : String)
    (saves : Reply (Save × Save) × S.Supply)
    → BothSound saves.0
    → AllSound s
    → AllSound (settle_rewards s rec body saves).store
unfolding settle_rewards store_battle
settle_rewards-AllSound s rec body (failed e, rest) both h = h
settle_rewards-AllSound s rec body (done (w, l), rest) both h =
    let drawn = record s { supply = rest } in
    on_row-AllSound (on_row drawn rec.result.winner (set_save w)) rec.result.loser (set_save l)
      (on_row-AllSound drawn rec.result.winner (set_save w) h (λ row save p. both.0))
      (λ row save p. both.1)

module _ {M : Machine} (S : IdSource) (content : ContentSet M) where
  rewarded_saves-BothSound :
      (rec : BattleRecord) (decay : ℕ) (w_save l_save : Save) (supply : S.Supply)
      → BothSound (rewarded_saves S content rec decay w_save l_save supply).0
  unfolding rewarded_saves
  rewarded_saves-BothSound rec decay w_save l_save supply =
      let w : Rewarded S =
        apply_pvp_rewards content w_save rec.winner_active rec.winner_reserve true decay
          rec.result.id supply in
      let l : Rewarded S =
        apply_pvp_rewards content l_save rec.loser_active rec.loser_reserve false decay
          rec.result.id w.supply in
      elim (Option-cases w.error) [
        | inr (e, bad) ↦ rw (rewarded_saves, bad) tt
        | inl w_paid ↦ elim (Option-cases l.error) [
          | inr (e, bad) ↦ rw (rewarded_saves, w_paid, bad) tt
          | inl l_paid ↦ elim (Option-cases (validate_save content w.save).1) [
            | inr (e, bad) ↦ rw (rewarded_saves, w_paid, l_paid, bad) tt
            | inl w_passed ↦ elim (Option-cases (validate_save content l.save).1) [
              | inr (e, bad) ↦ rw (rewarded_saves, w_paid, l_paid, w_passed, bad) tt
              | inl l_passed ↦
                  rw (rewarded_saves, w_paid, l_paid, w_passed, l_passed)
                    (
                      validate_save-IsSound content w.save w_passed,
                      validate_save-IsSound content l.save l_passed,
                    )
            ]
          ]
        ]
      ]

module _ {M : Machine} {S : IdSource} (content : ContentSet M) where
  count_result-AllSound :
      (s : MemoryStore S) (r : BattleResult) → AllSound s → AllSound (count_result s r)
  unfolding count_result
  count_result-AllSound s r h =
      on_row-AllSound (on_row s r.winner won) r.loser lost
        (on_row-AllSound s r.winner won h (λ row save p. p)) (λ row save p. p)

  apply_result-AllSound :
      (s counted : MemoryStore S) (rec : BattleRecord) (body : String)
      → AllSound counted
      → AllSound (apply_result content s counted rec body).store
  unfolding apply_result store_battle
  apply_result-AllSound s counted rec body h = elim (Bool-cases rec.apply_rewards) [
    | inr plain ↦ rw (apply_result, plain) h
    | inl paid ↦ elim (Option-cases (save_of counted rec.result.winner)) [
      | inl gone ↦ rw (apply_result, paid, gone) h
      | inr (w_save, w_has) ↦ elim (Option-cases (save_of counted rec.result.loser)) [
        | inl gone ↦ rw (apply_result, paid, w_has, gone) h
        | inr (l_save, l_has) ↦
            rw (apply_result, paid, w_has, l_has)
              (settle_rewards-AllSound counted rec body _
                (rewarded_saves-BothSound S content rec _ w_save l_save counted.supply) h)
      ]
    ]
  ]

  pub record_battle_result-AllSound :
      (codec : Codec) (s : MemoryStore S) (rec : BattleRecord)
      → AllSound s
      → AllSound (record_battle_result content codec s rec).store
  unfolding record_battle_result
  record_battle_result-AllSound codec s rec h = elim (Bool-cases (ltb 0 s.fail_results)) [
    | inl failing ↦ rw (record_battle_result, failing) h
    | inr working ↦ elim (Option-cases (lookup rec.result.id s.battles)) [
      | inr (old, kept) ↦
          elim (Bool-cases (
            not (same_result old.result rec.result)
            || not (old.body == canonical_battle_body codec rec))) [
              | inl other ↦ rw (record_battle_result, working, kept, other) h
              | inr same ↦ rw (record_battle_result, working, kept, same) h
            ]
      | inl new ↦ elim (Option-cases (save_of s rec.result.winner)) [
        | inl gone ↦ rw (record_battle_result, working, new, gone) h
        | inr (w, w_has) ↦ elim (Option-cases (save_of s rec.result.loser)) [
          | inl gone ↦ rw (record_battle_result, working, new, w_has, gone) h
          | inr (l, l_has) ↦
              rw (record_battle_result, working, new, w_has, l_has)
                (apply_result-AllSound s (count_result s rec.result) rec _
                  (count_result-AllSound s rec.result h))
        ]
      ]
    ]
  ]
