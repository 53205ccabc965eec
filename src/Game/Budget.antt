-- ===== src/Game/Budget.antt =====
-- The sum that `rescaleBudget` of internal/game/queue.go comes to.
use termon.Content.{Species}
use termon.Game.QueueStats.{
  allot, best_from, best_index, hand_out, queue_stats, rescale_budget, Shares, bump, largest_from,
  lower, take_back, sum,
}
use termon.Game.Xp.{natural_stat, natural_stat_pos}
use termon.Machine.{Machine}
use termon.Prelude.{
  Option-cases, Runs-bind, Runs-some, length-set, ltb→lt, set, Bool-cases, ap, drop, false, inl,
  inr, ltb, refl, subst, suc, sym, zero, ◌&&◌, ◌+◌, ◌∙◌, ◌⊎◌, All, List, Option, Runs, [], arith,
  get_elem?, length, none, some, ℕ, ◌-◌, ◌<◌, ◌∷◌, ◌≡◌, ◌≤◌,
}
use termon.Prelude.Int.{negsuc}

-- Values of at least 1, with their number and their sum.
abbrev Fair : ℕ → List ℕ → ℕ → Type 0
Fair n out allocated = (length out ≡ n) × All (λ v. 1 ≤ v) out × (sum out ≡ allocated)

sum-ge-length : (out : List ℕ) → All (λ v. 1 ≤ v) out → length out ≤ sum out
sum-ge-length [] h = omega arith
sum-ge-length (x ∷ xs) h = omega (arith, sum-ge-length xs h.1, h.0)

-- Before the loop over the values: the value of no index is 0.
abbrev Start : Option ℕ → ℕ → Type 0
Start none val = val ≡ 0
Start (some d) val = Unit

-- What the loop from index i finds past `drop`: nothing if all values are at most 1, or else a value
-- above 1, at an index that it returns.
abbrev Found : ℕ → Option ℕ → List ℕ → Option ℕ → Type 0
Found i drop vs none = (drop ≡ none) × All (λ v. v ≤ 1) vs
Found i drop vs (some d) =
    (drop ≡ some d) ⊎ ((k : ℕ) × (d ≡ i + k) × Runs (λ v. 1 < v) (get_elem? vs k))

Found-nil : (i : ℕ) (drop : Option ℕ) → Found i drop [] drop
Found-nil i none = (refl, tt)
Found-nil i (some d) = inl refl

Found-taken :
    (i v : ℕ) (drop : Option ℕ) (vs : List ℕ) (r : Option ℕ)
    → 1 < v
    → Found (i + 1) (some i) vs r
    → Found i drop (v ∷ vs) r
Found-taken i v drop vs none big h = absurd (ground (arith, h.0))
Found-taken i v drop vs (some d) big (inl e) = inr (0, ground (arith, e), big)
Found-taken i v drop vs (some d) big (inr (k, e, g)) = inr (suc k, omega (arith, e), g)

Found-passed :
    (i v val : ℕ) (drop : Option ℕ) (vs : List ℕ) (r : Option ℕ)
    → Start drop val
    → ltb 1 v && ltb val v ≡ false
    → Found (i + 1) drop vs r
    → Found i drop (v ∷ vs) r
Found-passed i v val none vs none st small h = (refl, (ground (arith, st, small), h.1))
Found-passed i v val (some j) vs none st small h = absurd (ground (arith, h.0))
Found-passed i v val drop vs (some d) st small (inl e) = inl e
Found-passed i v val drop vs (some d) st small (inr (k, e, g)) = inr (suc k, omega (arith, e), g)

largest_from-Found :
    (i : ℕ) (drop : Option ℕ) (val : ℕ) (vs : List ℕ)
    → Start drop val
    → Found i drop vs (largest_from i drop val vs)
unfolding largest_from
largest_from-Found i drop val [] st = Found-nil i drop
largest_from-Found i drop val (v ∷ vs) st = elim (Bool-cases (ltb 1 v && ltb val v)) [
  | inl big ↦ rw big (
      Found-taken i v drop vs _ (ground (arith, big)) (largest_from-Found (i + 1) (some i) v vs tt))
  | inr small ↦
      rw small (Found-passed i v val drop vs _ st small (largest_from-Found (i + 1) drop val vs st))
]

lower_lem :
    (k : ℕ) (out : List ℕ)
    → All (λ v. 1 ≤ v) out
    → Runs (λ v. 1 < v) (get_elem? out k)
    → (length (lower k out) ≡ length out)
      × All (λ v. 1 ≤ v) (lower k out)
      × (sum (lower k out) + 1 ≡ sum out)
unfolding lower
lower_lem k [] h g = absurd g
lower_lem zero (x ∷ xs) h g = (refl, (omega (arith, g), h.1), omega (arith, g))
lower_lem (suc k) (x ∷ xs) h g =
    let (size, fair, total) = lower_lem k xs h.1 g in
    (ap suc size, (h.0, fair), omega (arith, total))

bump_lem :
    (k : ℕ) (out : List ℕ)
    → All (λ v. 1 ≤ v) out
    → k < length out
    → (length (bump k out) ≡ length out)
      × All (λ v. 1 ≤ v) (bump k out)
      × (sum (bump k out) ≡ sum out + 1)
unfolding bump
bump_lem k [] h g = absurd (omega arith)
bump_lem zero (x ∷ xs) h g = (refl, (omega arith, h.1), omega arith)
bump_lem (suc k) (x ∷ xs) h g =
    let (size, fair, total) = bump_lem k xs h.1 (omega arith) in
    (ap suc size, (h.0, fair), omega (arith, total))

All-ones : (out : List ℕ) → All (λ v. v ≤ 1) out → sum out ≤ length out
All-ones [] h = omega arith
All-ones (x ∷ xs) h = omega (arith, All-ones xs h.1, h.0)

lower-Found :
    (out : List ℕ) (d : ℕ)
    → All (λ v. 1 ≤ v) out
    → Found 0 none out (some d)
    → (length (lower d out) ≡ length out)
      × All (λ v. 1 ≤ v) (lower d out)
      × (sum (lower d out) + 1 ≡ sum out)
lower-Found out d h (inl e) = absurd (ground (arith, e))
lower-Found out d h (inr (k, e, g)) =
    let here : d ≡ k = omega (arith, e) in
    lower_lem d out h (subst (λ j. Runs (λ v. 1 < v) (get_elem? out j)) (sym here) g)

-- The first loop ends with a sum of at most the budget, when the budget is at least the number of values.
take_back-Fair :
    (fuel budget n : ℕ) (out : List ℕ) (allocated : ℕ)
    → n ≤ budget
    → allocated < fuel
    → Fair n out allocated
    → Runs
        (λ (s : Shares). Fair n s.0 s.1 × (s.1 ≤ budget))
        (take_back fuel budget (out, allocated))
unfolding take_back
take_back-Fair zero budget n out allocated room short h = absurd (omega arith)
take_back-Fair (suc fuel) budget n out allocated room short h =
    let found = largest_from-Found 0 none 0 out refl in
    elim (Bool-cases (ltb budget allocated)) [
      | inr fits ↦ rw (take_back, fits) (h, ground (arith, fits))
      | inl over ↦
          let above = ltb→lt budget allocated over in
          elim (Option-cases (largest_from 0 none 0 out)) [
            | inl nothing ↦
                let f = subst (Found 0 none out) nothing found in
                absurd (omega (arith, All-ones out f.1, h.0, h.2, above))
            | inr (d, at) ↦
                let (size, fair, total) =
                  lower-Found out d h.1 (subst (Found 0 none out) at found) in
                rw (take_back, over, at)
                  (take_back-Fair fuel budget n (lower d out) (allocated - 1) room
                    (omega (arith, above)) (size ∙ h.0, fair, omega (arith, total, h.2)))
          ]
    ]

module _ (M : Machine) where
  best_from-lt :
      (i best : ℕ) (r : M.Float) (xs : List M.Float)
      → best < i
      → best_from M i best r xs < i + length xs
  unfolding best_from
  best_from-lt i best r [] h = omega arith
  best_from-lt i best r (x ∷ xs) h = elim (Bool-cases (M.less r x)) [
    | inl more ↦ rw more (omega (arith, best_from-lt (i + 1) i x xs (omega arith)))
    | inr less ↦ rw less (omega (arith, best_from-lt (i + 1) best r xs (omega arith)))
  ]

  best_index-lt : (rs : List M.Float) → 0 < length rs → best_index M rs < length rs
  unfolding best_index
  best_index-lt [] h = absurd (omega arith)
  best_index-lt (r ∷ rs) h = omega (arith, best_from-lt 1 0 r rs)

  -- The second loop ends with the budget.
  hand_out-Fair :
      (fuel budget n : ℕ) (remainders : List M.Float) (out : List ℕ) (allocated : ℕ)
      → 0 < n
      → length remainders ≡ n
      → allocated ≤ budget
      → budget < allocated + fuel
      → Fair n out allocated
      → Runs
          (λ (s : Shares). Fair n s.0 budget)
          (hand_out M fuel budget remainders (out, allocated))
  unfolding hand_out
  hand_out-Fair zero budget n remainders out allocated some_ size low short h = absurd (omega arith)
  hand_out-Fair (suc fuel) budget n remainders out allocated some_ size low short h =
      elim (Bool-cases (ltb allocated budget)) [
        | inr full ↦
            let done : allocated ≡ budget = ground (arith, full, low) in
            rw (hand_out, full) (h.0, h.1, h.2 ∙ done)
        | inl room ↦
            let best = best_index M remainders in
            let more = ltb→lt allocated budget room in
            let inside : best < length out =
              omega (arith, best_index-lt remainders (omega (arith, size)), size, h.0) in
            let (kept, fair, total) = bump_lem best out h.1 inside in
            rw (hand_out, room)
              (hand_out-Fair fuel budget n (set remainders best (M.of_int (negsuc 0)))
                (bump best out) (allocated + 1) some_
                (length-set remainders best (M.of_int (negsuc 0)) ∙ size) (omega (arith, more))
                (omega arith) (kept ∙ h.0, fair, omega (arith, total, h.2)))
      ]

  allot_lem :
      (budget total : ℕ) (nat : List ℕ)
      → (length (allot M budget total nat).0 ≡ length nat)
        × (length (allot M budget total nat).1 ≡ length nat)
        × All (λ v. 1 ≤ v) (allot M budget total nat).0
  unfolding allot
  allot_lem budget total [] = (refl, refl, tt)
  allot_lem budget total (v ∷ vs) =
      let (floors, rems, fair) = allot_lem budget total vs in
      (ap suc floors, ap suc rems, (omega arith, fair))

  rescale_budget-Fair :
      (nat : List ℕ) (budget : ℕ)
      → 0 < length nat
      → 1 ≤ sum nat
      → length nat ≤ budget
      → Runs (λ out. Fair (length nat) out budget) (rescale_budget M nat budget)
  unfolding rescale_budget
  rescale_budget-Fair nat budget some_ total room =
      let (floors, rems, fair) = allot_lem budget (sum nat) nat in
      let a = allot M budget (sum nat) nat in
      let big : ltb (sum nat) 1 ≡ false = ground (arith, total) in
      rw big (
        Runs-bind (λ (s : Shares). Fair (length nat) s.0 s.1 × (s.1 ≤ budget))
          (λ out. Fair (length nat) out budget) (take_back (sum a.0 + 1) budget (a.0, sum a.0)) _
          (take_back-Fair (sum a.0 + 1) budget (length nat) a.0 (sum a.0) room (omega arith)
            (floors, fair, refl))
          (λ s h.
            Runs-bind (λ (t : Shares). Fair (length nat) t.0 budget)
              (λ out. Fair (length nat) out budget) (hand_out M (budget + 1) budget a.1 s) _
              (hand_out-Fair (budget + 1) budget (length nat) a.1 s.0 s.1 some_ rems h.1
                (omega arith) h.0)
              (λ t k. k)))

  -- The loops of `QueueStats` end, for every Species and whatever the float arithmetic gives: the result
  -- is five stats, each at least 1, that add up to exactly 320.
  pub queue_stats-total :
      (spec : Species)
      → (out : List ℕ) × (queue_stats M spec ≡ some out)
        × (length out ≡ 5)
        × All (λ v. 1 ≤ v) out
        × (sum out ≡ 320)
  unfolding queue_stats
  queue_stats-total spec =
      let b = spec.base_stats in
      let (out, ran, (size, fair, total)) =
        Runs-some (λ out. Fair 5 out 320) (queue_stats M spec)
          (rescale_budget-Fair
            (natural_stat b.hp 30
              ∷ natural_stat b.attack 30
              ∷ natural_stat b.defense 30
              ∷ natural_stat b.sp_attack 30
              ∷ natural_stat b.speed 30
              ∷ [])
            320 (omega arith) (omega (arith, natural_stat_pos b.hp 30)) (omega arith)) in
      (out, ran, size, fair, total)
