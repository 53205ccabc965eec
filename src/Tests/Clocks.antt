-- ===== src/Tests/Clocks.antt =====
-- The theorems on the Decision Clock of internal/server/hub_match.go at a few ticks.
use termon.Server.Clock.{one_second, PvpMode, Sight, new_clock, ticks}
use termon.Server.Clock.Bank.{Within, ticks-Within_new}
use termon.Battle.Types.{Side, State, both, pick}
use termon.Prelude.{Bool, List, [], arith, false, none, refl, true, ℕ, ◌*◌, ◌∷◌, ◌≡◌}
use termon.Prelude.Int.{pos, ℤ, ◌+ℤ◌, ◌-ℤ◌, ◌≤ℤ◌}
use termon.Server.Clock.Unseen.{ticks_unseen}

abbrev sees : ℕ → Bool → Sight
sees turn locked = record {
  state = State.awaiting_actions;
  turn = turn;
  locked = record { at_first = locked; at_second = false };
  required = both false;
}

-- Ten seconds, and twenty, after the start.
abbrev two_ticks : List (Sight × ℤ)
two_ticks = (sees 1 false, pos (10 * one_second)) ∷ (sees 1 true, pos (20 * one_second)) ∷ []

ticks-Within_new_example :
    Within (pos (20 * one_second)) (pick (ticks new_clock two_ticks).clocks Side.first)
ticks-Within_new_example =
    ticks-Within_new (pos 0) two_ticks Side.first (omega arith, (omega arith, tt))

-- The lock freezes fifty seconds.
frozen : (pick (ticks new_clock two_ticks).clocks Side.first).bank ≡ pos (50 * one_second)
unfolding ticks ◌+ℤ◌ ◌-ℤ◌
frozen = refl

abbrev running : PvpMode
running = record {
  clocks = both (record {
    bank = pos (20 * one_second);
    deadline = none;
    started = true;
    was_locked = false;
  });
  key_turn = 0;
  key_state = none;
}

-- Two turns, thirty seconds apart.
abbrev slow_ticks : List (Sight × ℤ)
slow_ticks = (sees 1 true, pos 0) ∷ (sees 2 true, pos (30 * one_second)) ∷ []

ticks_unseen_example :
    pos (20 * one_second) ≤ℤ (pick (ticks running slow_ticks).clocks Side.second).bank
ticks_unseen_example =
    ticks_unseen running slow_ticks Side.second (omega arith) refl (refl, (refl, tt))
