-- ===== src/Store/Pvp.antt =====
-- What a multiplayer Battle pays in internal/store/saveops.go: `pvpDecayMultiplier` and
-- `applyPvPRewards`.
use termon.Content.{ContentSet}
use termon.Machine.{Machine}
use termon.Prelude.{
  Bool, List, String, [], contains, if◌then◌else◌, leb, none, some, ℕ, ◌*◌, ◌+◌, ◌/◌, ◌∷◌,
}
use termon.Prelude.Int.{pos, ℤ}
use termon.Store.{Save}
use termon.Store.Rewards.{IdSource, Rewarded, reward_monster}

-- In hundredths: the products of the source with 1.0, 0.75 and 0.50 are exact.
unfoldable pub pvp_decay_multiplier : ℕ → ℕ
pvp_decay_multiplier prior_count =
    if leb prior_count 1 then 100 else if leb prior_count 3 then 75 else 50

module _ {M : Machine} {S : IdSource} where
  -- A loop that pays each id once and stops at an error; `seen` goes on to the next loop.
  unfoldable pub reward_once :
      ContentSet M
      → List String
      → List String
      → ℤ
      → String
      → Save
      → S.Supply
      → Rewarded S × List String
  reward_once content seen [] xp source_key save supply =
      (record { save = save; supply = supply; error = none }, seen)
  reward_once content seen (id ∷ ids) xp source_key save supply =
      let skip = reward_once content seen ids xp source_key save supply in
      let r = reward_monster content save id xp source_key supply in
      let rest = reward_once content (id ∷ seen) ids xp source_key r.save r.supply in
      if contains seen id then skip else elim r.error [ some e ↦ (r, id ∷ seen) | none ↦ rest ]

  unfoldable pub apply_pvp_rewards :
      ContentSet M → Save → List String → List String → Bool → ℕ → String → S.Supply → Rewarded S
  apply_pvp_rewards content save active reserve is_winner decay source_key supply =
      let base : ℕ = 130 * decay / 100 in
      let winner_bonus : ℕ = if is_winner then 25 * decay / 100 else 0 in
      let first =
        reward_once content [] active (pos (base + winner_bonus)) source_key save supply in
      elim first.0.error [
        | some e ↦ first.0
        | none ↦
            (reward_once content first.1 reserve (pos (base * 40 / 100)) source_key first.0.save
              first.0.supply).0
      ]
