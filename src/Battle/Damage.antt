-- ===== src/Battle/Damage.antt =====
-- `DamageBase` and the combat constants of internal/battle/constants.go.
use termon.Prelude.{ℕ, String, ◌==◌, if◌then◌else◌}
use termon.Prelude.Int.{pos, ◌+ℤ◌}
use termon.Machine.{Machine}

module _ (M : Machine) where
  open M use {Float, of_int, to_int, literal, times, over}

  unfoldable pub damage_base : Float → ℕ → ℕ → String → String → Float → Float
  damage_base power atk def move_type attacker_type effectiveness =
      let base =
        to_int (over (over (times power (of_int (pos atk))) (of_int (pos def))) (literal 272 100))
        +ℤ pos 2 in
      let dmg = of_int base in
      let stab = if move_type == attacker_type then times dmg (literal 15 10) else dmg in
      times stab effectiveness
