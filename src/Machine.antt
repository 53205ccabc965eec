-- ===== src/Machine.antt =====
-- What the engine uses of Go and its standard library and does not implement: float64 arithmetic,
-- the random source behind `battle.Rand` (internal/battle/rand.go), and `%d` of package fmt.
use termon.Prelude.{ℕ, String, Bool}
use termon.Prelude.Int.{ℤ}

pub record Machine : Type 1 where
  pub Float : Type 0
  pub Rng : Type 0
  -- `float64(n)` and `int(x)`
  pub of_int : ℤ → Float
  pub to_int : Float → ℤ
  -- the constant n / d of the source, `literal 272 100` for 2.72
  pub literal : ℕ → ℕ → Float
  pub plus : Float → Float → Float
  pub times : Float → Float → Float
  pub over : Float → Float → Float
  -- `x < y` and `x >= y`
  pub less : Float → Float → Bool
  pub at_least : Float → Float → Bool
  -- `math.Floor` and the built-in `max`
  pub floor : Float → Float
  pub larger : Float → Float → Float
  -- `Rand.Float64`, with the source that the next roll reads
  pub roll : Rng → Float × Rng
  pub decimal : ℕ → String
