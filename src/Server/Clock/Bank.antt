-- ===== src/Server/Clock/Bank.antt =====
-- The banks of the Decision Clock of internal/server/hub_match.go.
use termon.Battle.Types.{pick, Side}
use termon.Battle.Calls.{is_awaiting_actions, is_awaiting_replacement}
use termon.Prelude.{
  List, [], ◌||◌, ◌∷◌, Bool, Bool-cases, Option, arith, false, inl, inr, none, some, true,
}
use termon.Server.Clock.{
  PvpMode, Sight, freeze_at, is_same_phase, new_clock, owes, sweep_decision_clock, sweep_side, tick,
  ticks, SideClock, arm, clock_bank_cap, clock_phase_gain, freeze, min_ℤ,
}
use termon.Prelude.Int.{int_laws, ℤ, ◌+ℤ◌, ◌≤ℤ◌}

-- A deadline at most the cap after a time.
abbrev Near : ℤ → Option ℤ → Type 0
Near t none = Unit
Near t (some d) = d ≤ℤ (t +ℤ clock_bank_cap)

abbrev pub Within : ℤ → SideClock → Type 0
Within t c = (c.bank ≤ℤ clock_bank_cap) × Near t c.deadline

pub min_ℤ-le : (a b : ℤ) → min_ℤ a b ≤ℤ b
min_ℤ-le a b = ground arith

pub min_ℤ-ge : (c a b : ℤ) → c ≤ℤ a → c ≤ℤ b → c ≤ℤ min_ℤ a b
min_ℤ-ge c a b h k = ground arith

Near-later : (t now : ℤ) (d : Option ℤ) → t ≤ℤ now → Near t d → Near now d
Near-later t now none h n = tt
Near-later t now (some d) h n = omega (int_laws, n)

arm-Within :
    (t now : ℤ) (owed locked : Bool) (c : SideClock)
    → Within t c
    → Within now (arm now owed locked c)
unfolding arm
arm-Within t now false locked c h = (h.0, tt)
arm-Within t now true locked c h = elim (Bool-cases c.started) [
  | inr fresh ↦ rw (arm, fresh) (omega arith, omega int_laws)
  | inl running ↦
      let low = min_ℤ-le (c.bank +ℤ clock_phase_gain) clock_bank_cap in
      rw (arm, running) (low, omega (int_laws, low))
]

freeze_at-Within :
    (now : ℤ) (locked : Bool) (c : SideClock) (deadline : Option ℤ)
    → Within now c
    → Near now deadline
    → Within now (freeze_at now locked c deadline)
unfolding freeze_at
freeze_at-Within now locked c none h near = h
freeze_at-Within now false c (some d) h near = h
freeze_at-Within now true c (some d) h near = elim (Bool-cases c.was_locked) [
  | inl before ↦ rw (freeze_at, before) h
  | inr stops ↦ rw (freeze_at, stops) (omega (int_laws, near), h.1)
]

sweep_side-Within :
    (t now : ℤ) (mode : PvpMode) (sight : Sight) (side : Side)
    → t ≤ℤ now
    → Within t (pick mode.clocks side)
    → Within now (sweep_side mode sight now side)
unfolding sweep_side freeze
sweep_side-Within t now mode sight side later h =
    let c = pick mode.clocks side in
    let locked = pick sight.locked side in
    elim (Bool-cases (is_same_phase mode sight)) [
      | inl same ↦
          let k : Within now c = (h.0, Near-later t now c.deadline later h.1) in
          rw (sweep_side, same) (freeze_at-Within now locked c c.deadline k k.1)
      | inr new ↦
          let k = arm-Within t now (owes sight side) locked c h in
          rw (sweep_side, new)
            (freeze_at-Within now locked (arm now (owes sight side) locked c) _ k k.1)
    ]

-- The times do not fall.
abbrev pub InOrder : ℤ → List (Sight × ℤ) → Type 0
InOrder t [] = Unit
InOrder t ((sight, now) ∷ rest) = (t ≤ℤ now) × InOrder now rest

-- The time of the last tick.
abbrev pub last_time : ℤ → List (Sight × ℤ) → ℤ
last_time t [] = t
last_time t ((sight, now) ∷ rest) = last_time now rest

tick-Within :
    (t now : ℤ) (mode : PvpMode) (sight : Sight) (side : Side)
    → t ≤ℤ now
    → Within t (pick mode.clocks side)
    → Within now (pick (tick mode sight now).0.clocks side)
unfolding tick sweep_decision_clock
tick-Within t now mode sight side later h =
    elim (Bool-cases (is_awaiting_actions sight.state || is_awaiting_replacement sight.state)) [
      | inr idle ↦
          rw (tick, idle) (h.0, Near-later t now (pick mode.clocks side).deadline later h.1)
      | inl waits ↦ rw (tick, waits) (swept side (sweep_side-Within t now mode sight side later h))
    ]
  where
    swept :
        (side : Side)
        → Within now (sweep_side mode sight now side)
        → Within now (pick (sweep_decision_clock mode sight now).clocks side)
    swept Side.first k = k
    swept Side.second k = k

ticks-Within :
    (t : ℤ) (mode : PvpMode) (seen : List (Sight × ℤ)) (side : Side)
    → InOrder t seen
    → Within t (pick mode.clocks side)
    → Within (last_time t seen) (pick (ticks mode seen).clocks side)
unfolding ticks
ticks-Within t mode [] side order h = h
ticks-Within t mode ((sight, now) ∷ rest) side order h =
    ticks-Within now (tick mode sight now).0 rest side order.1
      (tick-Within t now mode sight side order.0 h)

-- After any ticks of a new match at times that do not fall, whatever the Battle shows them, neither bank
-- is above sixty seconds and neither deadline is more than sixty seconds after the last tick.
pub ticks-Within_new :
    (t : ℤ) (seen : List (Sight × ℤ)) (side : Side)
    → InOrder t seen
    → Within (last_time t seen) (pick (ticks new_clock seen).clocks side)
ticks-Within_new t seen Side.first order =
    ticks-Within t new_clock seen Side.first order (omega arith, tt)
ticks-Within_new t seen Side.second order =
    ticks-Within t new_clock seen Side.second order (omega arith, tt)
