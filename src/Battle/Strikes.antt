-- ===== src/Battle/Strikes.antt =====
-- The order, the cancellation and the size of the attacks of a turn (internal/battle/engine.go).
use termon.Prelude.{
  ℕ, ◌^◌, ◌-◌, ◌≤◌, ◌<◌, ◌≡◌, ◌/◌, min, max, refl, ap, ◌∙◌, Bool, true, false, not, some, [], ◌∷◌,
  ltb, eqb, Runs, Runs-some, arith, inl, inr, ◌⊎◌, Bool-cases,
}
use termon.Prelude.Int.{pos, pos_part}
use termon.Machine.{Machine}
use termon.Battle.Types.{Side, other, both, pick, put, Member, SideState}
use termon.Battle.State.{Battle, active_member, set_active_member, append_events, all_fainted}
use termon.Battle.Turn.{
  is_move, wild_limit, clamp_damage, write_active, move_order, variance_roll, deal, execute_move,
  attack, play_moves,
}
use termon.Battle.Invariant.Moves.{Alive}
use termon.Battle.Invariant.Lemmas.{write_twice}

-- What float64 promises of the operations behind the cap, where `leq x y` is `x <= y`; it fails when
-- one of the two is no number. An integer up to 2 ^ 53 has an exact float64.
pub record Rounding (M : Machine) : Type 1 where
  pub leq : M.Float → M.Float → Type 0
  pub upper_number : (x y : M.Float) → leq x y → leq y y
  pub int_self : (n : ℕ) → leq (M.of_int (pos n)) (M.of_int (pos n))
  pub int_nonneg : (n : ℕ) → leq (M.literal 0 1) (M.of_int (pos n))
  pub not_less : (x y : M.Float) → leq x x → leq y y → M.less x y ≡ false → leq y x
  -- the variance factor of a roll in [0, 1)
  pub factor_low :
      (g : M.Rng)
      → leq (M.literal 85 100) (M.plus (M.literal 85 100) (M.times (M.literal 15 100) (M.roll g).0))
  pub factor_high :
      (g : M.Rng)
      → leq (M.plus (M.literal 85 100) (M.times (M.literal 15 100) (M.roll g).0)) (M.literal 1 1)
  -- a factor between 0.85 and 1 does not carry a number that is not negative past an integer that
  -- bounds it, nor below 0
  pub times_le :
      (x f : M.Float) (n : ℕ)
      → leq (M.literal 0 1) x
      → leq x (M.of_int (pos n))
      → leq (M.literal 85 100) f
      → leq f (M.literal 1 1)
      → leq (M.times x f) (M.of_int (pos n))
  pub times_nonneg :
      (x f : M.Float) (n : ℕ)
      → leq (M.literal 0 1) x
      → leq x (M.of_int (pos n))
      → leq (M.literal 85 100) f
      → leq f (M.literal 1 1)
      → leq (M.literal 0 1) (M.times x f)
  -- `int(x)` of an x from 0 to float64(n), which is n itself, is at most n
  pub truncate :
      (x : M.Float) (n : ℕ)
      → n ≤ 2 ^ 53
      → leq (M.literal 0 1) x
      → leq x (M.of_int (pos n))
      → pos_part (M.to_int x) ≤ n

abbrev with_hp : Member → ℕ → Bool → Member
with_hp m h f = record m { hp = h; fainted = f }

member_eq :
    (m : Member) {h h' : ℕ} {f f' : Bool} → h ≡ h' → f ≡ f' → with_hp m h f ≡ with_hp m h' f'
member_eq m {h' = h'} {f = f} e g = ap (λ x. with_hp m x f) e ∙ ap (with_hp m h') g

module _ {M : Machine} where
  bound :
      (laws : Rounding M) (b : Battle M) (x : M.Float) (n : ℕ)
      → max 1 n ≤ 2 ^ 53
      → laws.leq (M.literal 0 1) x
      → laws.leq x (M.of_int (pos (max 1 n)))
      → (variance_roll b x).0 ≤ max 1 n
  unfolding variance_roll
  bound laws b x n exact low h =
      let low_factor = laws.factor_low b.rng in
      let high_factor = laws.factor_high b.rng in
      let t =
        laws.truncate _ (max 1 n) exact
          (laws.times_nonneg x _ (max 1 n) low h low_factor high_factor)
          (laws.times_le x _ (max 1 n) low h low_factor high_factor) in
      omega (arith, t)

  -- When the side's outgoing damage is capped, the damage is a number that is not negative, and the
  -- target's maximal HP is at most 2 ^ 53, the cap and the variance together give a roll between 1 and the
  -- cap, which is a fifth of the target's maximal HP less one, and at least 1. The float64 operations
  -- satisfy the rounding laws.
  pub variance_roll-clamp_damage :
      (laws : Rounding M) (b : Battle M) (max_hp : ℕ) (damage : M.Float)
      → max_hp ≤ 2 ^ 53
      → laws.leq (M.literal 0 1) damage
      → (1 ≤ (variance_roll b (clamp_damage M true max_hp damage)).0)
        × ((variance_roll b (clamp_damage M true max_hp damage)).0 ≤ max 1 ((max_hp - 1) / 5))
  unfolding clamp_damage wild_limit variance_roll
  variance_roll-clamp_damage laws b max_hp damage small low =
      let cap = max 1 ((max_hp - 1) / 5) in
      let exact : max 1 ((max_hp - 1) / 5) ≤ 2 ^ 53 = omega arith in
      (
        omega arith,
        elim (Bool-cases (M.less (M.of_int (pos (max 1 ((max_hp - 1) / 5)))) damage)) [
          | inl above ↦
              rw above
                (bound laws b (M.of_int (pos cap)) _ exact (laws.int_nonneg _) (laws.int_self _))
          | inr under ↦
              let number = laws.upper_number _ _ low in
              rw under
                (bound laws b damage _ exact low (laws.not_less _ _ (laws.int_self _) number under))
        ],
      )

  -- A hit on the active Monster of a side, which has not fainted: the sides change in nothing but that
  -- this Monster loses the rolled damage, to no less than 0 HP, and is marked fainted exactly when the
  -- damage reaches its HP; the returned flag says the same.
  pub deal_lem :
      (b : Battle M) (a d : Side) (m : Member) (rolled : ℕ)
      → active_member (pick b.sides d) ≡ some m
      → m.fainted ≡ false
      → ((deal b a d m rolled).1 ≡ not (ltb rolled m.hp))
        × ((deal b a d m rolled).0.sides
            ≡ put b.sides d (
                set_active_member
                  (pick b.sides d)
                  (record m { hp = m.hp - rolled; fainted = not (ltb rolled m.hp) })))
  unfolding deal write_active append_events
  deal_lem b a d m rolled e up = elim (Bool-cases (ltb 0 (m.hp - min rolled m.hp))) [
    | inl lives ↦ rw lives (
      ground arith,
      ap (λ x. put b.sides d (set_active_member (pick b.sides d) x))
          (member_eq m {f = m.fainted} (omega arith) (ground arith)),
    )
    | inr dies ↦ rw dies (
      ground arith,
      write_twice b.sides d _ _
          ∙ ap (λ x. put b.sides d (set_active_member (pick b.sides d) x))
              (member_eq m {f = true} (omega arith) (ground arith)),
    )
  ]

  -- When both active Monsters have HP left, of the moves of two sides that of the faster Monster comes
  -- first, and the order holds each once.
  pub move_order_lem :
      (b : Battle M) (a c : Side)
      → ((t : Side) → Alive (pick b.sides t))
      → Runs
          (λ r.
            ((r.0 ≡ a ∷ c ∷ [])
              × Runs
                  (λ m. Runs (λ n. n.spe ≤ m.spe) (active_member (pick {A = SideState} b.sides c)))
                  (active_member (pick {A = SideState} b.sides a)))
            ⊎ ((r.0 ≡ c ∷ a ∷ [])
                × Runs
                    (λ m.
                      Runs (λ n. m.spe ≤ n.spe) (active_member (pick {A = SideState} b.sides c)))
                    (active_member (pick {A = SideState} b.sides a))))
          (move_order b (a ∷ c ∷ []))
  unfolding move_order
  move_order_lem b a c alive =
      let (m, e, _) = Runs-some (λ m. 0 < m.hp) (active_member (pick b.sides a)) (alive a) in
      let (n, g, _) = Runs-some (λ m. 0 < m.hp) (active_member (pick b.sides c)) (alive c) in
      rw (move_order, e, g)
        (elim (Bool-cases (ltb m.spe n.spe)) [
          | inl slower ↦ rw slower (inr (refl, ground arith))
          | inr not_slower ↦ rw not_slower (elim (Bool-cases (eqb n.spe m.spe)) [
            | inl tie ↦ rw tie (elim (Bool-cases (M.at_least (M.roll b.rng).0 (M.literal 5 10))) [
              | inl late ↦ rw late (inr (refl, ground arith))
              | inr early ↦ rw early (inl (refl, ground arith))
            ])
            | inr faster ↦ rw faster (inl (refl, ground arith))
          ])
        ])

  -- An attack that takes the last HP of the other side's active Monster, while that side has another
  -- one, cancels the move that the fallen Monster had chosen: the moves of the turn end with the Battle
  -- that the attack left, with no further event and nobody declared the winner.
  pub play_moves_cancelled :
      (b c : Battle M) (a : Side) (m : Member)
      → is_move (pick b.actions a).kind ≡ true
      → execute_move b a (other a) ≡ some (c, true)
      → active_member (pick c.sides (other a)) ≡ some m
      → m.fainted ≡ true
      → all_fainted (pick c.sides (other a)) ≡ false
      → play_moves (a ∷ other a ∷ []) (both false) b ≡ some (c, false)
  unfolding play_moves attack
  play_moves_cancelled b c Side.first m mine struck e fell left =
      rw (play_moves, attack, mine, struck, e, left, fell) refl
  play_moves_cancelled b c Side.second m mine struck e fell left =
      rw (play_moves, attack, mine, struck, e, left, fell) refl
