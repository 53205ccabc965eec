-- ===== src/Game/QueueStats.antt =====
-- `QueueStats` and `rescaleBudget` of internal/game/queue.go. The two loops that move `allocated` to the
-- budget run on fuel: `none` is a loop that has not ended. `x - y` on floats is `x + (-y)`.
use termon.Content.{Species}
use termon.Game.Xp.{natural_stat}
use termon.Machine.{Machine}
use termon.Prelude.{
  List, Option, [], drop, false, if◌then◌else◌, ltb, max, none, set, some, suc, true, zero, ℕ, ◌&&◌,
  ◌+◌, ◌-◌, ◌>>=◌, ◌∷◌,
}
use termon.Prelude.Int.{negsuc, pos, pos_part}

abbrev pub sum : List ℕ → ℕ
sum [] = 0
sum (x ∷ xs) = x + sum xs

-- The loop that looks for the largest value above 1; the first of equals wins.
unfoldable pub largest_from : ℕ → Option ℕ → ℕ → List ℕ → Option ℕ
largest_from i drop drop_val [] = drop
largest_from i drop drop_val (v ∷ vs) =
    let taken = largest_from (i + 1) (some i) v vs in
    let rest = largest_from (i + 1) drop drop_val vs in
    if ltb 1 v && ltb drop_val v then taken else rest

-- `out[i]--` and `out[i]++`.
unfoldable pub lower : ℕ → List ℕ → List ℕ
lower i [] = []
lower zero (x ∷ xs) = (x - 1) ∷ xs
lower (suc i) (x ∷ xs) = x ∷ lower i xs

unfoldable pub bump : ℕ → List ℕ → List ℕ
bump i [] = []
bump zero (x ∷ xs) = (x + 1) ∷ xs
bump (suc i) (x ∷ xs) = x ∷ bump i xs

-- The values and `allocated`.
abbrev pub Shares : Type 0
Shares = List ℕ × ℕ

unfoldable pub take_back : ℕ → ℕ → Shares → Option Shares
unfolding largest_from lower
take_back zero budget s = none
take_back (suc fuel) budget (out, allocated) = elim (ltb budget allocated) [
  | false ↦ some (out, allocated)
  | true ↦ elim (largest_from 0 none 0 out) [
    | none ↦ some (out, allocated)
    | some drop ↦ take_back fuel budget (lower drop out, allocated - 1)
  ]
]

module _ (M : Machine) where
  -- The loop over the natural stats: the floors, their sum and the remainders.
  unfoldable pub allot : ℕ → ℕ → List ℕ → List ℕ × List M.Float
  allot budget total [] = ([], [])
  allot budget total (v ∷ vs) =
      let exact =
        M.over (M.times (M.of_int (pos budget)) (M.of_int (pos v))) (M.of_int (pos total)) in
      let floor : ℕ = max 1 (pos_part (M.to_int exact)) in
      let rest = allot budget total vs in
      (floor ∷ rest.0, M.plus exact (M.of_int (negsuc (floor - 1))) ∷ rest.1)

  -- The index of the largest remainder; the first of equals wins.
  unfoldable pub best_from : ℕ → ℕ → M.Float → List M.Float → ℕ
  best_from i best r [] = best
  best_from i best r (x ∷ xs) =
      let taken = best_from (i + 1) i x xs in
      let rest = best_from (i + 1) best r xs in if M.less r x then taken else rest

  unfoldable pub best_index : List M.Float → ℕ
  unfolding best_from
  best_index [] = 0
  best_index (r ∷ rs) = best_from 1 0 r rs

  unfoldable pub hand_out : ℕ → ℕ → List M.Float → Shares → Option Shares
  unfolding best_index bump
  hand_out zero budget remainders s = none
  hand_out (suc fuel) budget remainders (out, allocated) = elim (ltb allocated budget) [
    | false ↦ some (out, allocated)
    | true ↦
        let best = best_index remainders in
        hand_out fuel budget (set remainders best (M.of_int (negsuc 0)))
          (bump best out, allocated + 1)
  ]

  unfoldable pub rescale_budget : List ℕ → ℕ → Option (List ℕ)
  unfolding allot take_back hand_out
  rescale_budget nat budget =
      let total : ℕ = sum nat in
      if ltb total 1
      then some (1 ∷ 1 ∷ 1 ∷ 1 ∷ 1 ∷ [])
      else let (floors, remainders) = allot budget total nat in
        take_back (sum floors + 1) budget (floors, sum floors) >>= λ s.
        hand_out (budget + 1) budget remainders s >>= λ t. some t.0

  -- QueueLevel is 30 and QueueStatBudget is 320.
  unfoldable pub queue_stats : Species → Option (List ℕ)
  unfolding natural_stat rescale_budget
  queue_stats spec =
      let base = spec.base_stats in
      rescale_budget
        (natural_stat base.hp 30
          ∷ natural_stat base.attack 30
          ∷ natural_stat base.defense 30
          ∷ natural_stat base.sp_attack 30
          ∷ natural_stat base.speed 30
          ∷ [])
        320
