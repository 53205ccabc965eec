-- ===== src/Game/Power.antt =====
-- internal/game/power.go
use termon.Prelude.{ℕ, ◌-◌, min, max}
use termon.Prelude.Int.{pos}
use termon.Machine.{Machine}

module _ (M : Machine) where
  open M use {Float, of_int, literal, plus, times, over, floor, larger}

  -- Power grows from 40% of its ceiling at level 1 to all of it at level 50.
  unfoldable pub move_power : Float → ℕ → Float
  move_power ceiling level =
      let l = min 50 (max 1 level) in
      larger (literal 1 1) (
        floor (
          times ceiling (
            plus (literal 4 10)
              (over (times (literal 6 10) (of_int (pos (l - 1)))) (literal 49 1)))))
