-- ===== src/Server/Clock/Unseen.antt =====
-- A side of the Decision Clock of internal/server/hub_match.go that no sweep sees locked.
use termon.Battle.Types.{pick, Side}
use termon.Battle.Calls.{is_awaiting_actions, is_awaiting_replacement}
use termon.Prelude.{
  All, Bool, Bool-cases, List, Option, [], arith, false, inl, inr, none, refl, some, true, ◌||◌,
  ◌∷◌, ◌≡◌,
}
use termon.Prelude.Int.{int_laws, ℤ, ◌+ℤ◌, ◌≤ℤ◌}
use termon.Server.Clock.{
  PvpMode, SideClock, Sight, arm, clock_bank_cap, clock_phase_gain, freeze, freeze_at,
  is_same_phase, owes, sweep_decision_clock, sweep_side, tick, ticks,
}
use termon.Server.Clock.Bank.{min_ℤ-ge, min_ℤ-le}

-- A running clock with a bank of at least b.
abbrev Holds : ℤ → SideClock → Type 0
Holds b c = (c.bank ≤ℤ clock_bank_cap) × (b ≤ℤ c.bank) × (c.started ≡ true)

abbrev Unlocked : Side → Sight × ℤ → Type 0
Unlocked side seen = pick seen.0.locked side ≡ false

arm-Holds :
    (b now : ℤ) (owed locked : Bool) (c : SideClock) → Holds b c → Holds b (arm now owed locked c)
unfolding arm
arm-Holds b now false locked c h = h
arm-Holds b now true locked c h =
    let grown = c.bank +ℤ clock_phase_gain in
    let more : b ≤ℤ grown = omega (int_laws, h.1) in
    let fits : b ≤ℤ clock_bank_cap = omega (int_laws, h.0, h.1) in
    rw (arm, h.2) (min_ℤ-le grown clock_bank_cap, min_ℤ-ge b grown clock_bank_cap more fits, refl)

freeze_at-Holds :
    (b now : ℤ) (c : SideClock) (deadline : Option ℤ)
    → Holds b c
    → Holds b (freeze_at now false c deadline)
unfolding freeze_at
freeze_at-Holds b now c none h = h
freeze_at-Holds b now c (some d) h = h

sweep_side-Holds :
    (b now : ℤ) (mode : PvpMode) (sight : Sight) (side : Side)
    → Unlocked side (sight, now)
    → Holds b (pick mode.clocks side)
    → Holds b (sweep_side mode sight now side)
unfolding sweep_side freeze
sweep_side-Holds b now mode sight side free h =
    let c = pick mode.clocks side in
    elim (Bool-cases (is_same_phase mode sight)) [
      | inl same ↦ rw (sweep_side, same, free) (freeze_at-Holds b now c c.deadline h)
      | inr new ↦
          rw (sweep_side, new, free)
            (freeze_at-Holds b now (arm now (owes sight side) false c) _
              (arm-Holds b now (owes sight side) false c h))
    ]

tick-Holds :
    (b now : ℤ) (mode : PvpMode) (sight : Sight) (side : Side)
    → Unlocked side (sight, now)
    → Holds b (pick mode.clocks side)
    → Holds b (pick (tick mode sight now).0.clocks side)
unfolding tick sweep_decision_clock
tick-Holds b now mode sight side free h =
    elim (Bool-cases (is_awaiting_actions sight.state || is_awaiting_replacement sight.state)) [
      | inr idle ↦ rw (tick, idle) h
      | inl waits ↦ rw (tick, waits) (swept side (sweep_side-Holds b now mode sight side free h))
    ]
  where
    swept :
        (side : Side)
        → Holds b (sweep_side mode sight now side)
        → Holds b (pick (sweep_decision_clock mode sight now).clocks side)
    swept Side.first k = k
    swept Side.second k = k

ticks-Holds :
    (b : ℤ) (mode : PvpMode) (seen : List (Sight × ℤ)) (side : Side)
    → All (Unlocked side) seen
    → Holds b (pick mode.clocks side)
    → Holds b (pick (ticks mode seen).clocks side)
unfolding ticks
ticks-Holds b mode [] side free h = h
ticks-Holds b mode ((sight, now) ∷ rest) side free h =
    ticks-Holds b (tick mode sight now).0 rest side free.1
      (tick-Holds b now mode sight side free.0 h)

-- A started clock with a bank of at most sixty seconds loses no time over any ticks that do not see its
-- side locked, however late they come and however many phases they see: its bank never falls.
pub ticks_unseen :
    (mode : PvpMode) (seen : List (Sight × ℤ)) (side : Side)
    → (pick mode.clocks side).bank ≤ℤ clock_bank_cap
    → (pick mode.clocks side).started ≡ true
    → All (Unlocked side) seen
    → (pick mode.clocks side).bank ≤ℤ (pick (ticks mode seen).clocks side).bank
ticks_unseen mode seen side low started free =
    (ticks-Holds (pick mode.clocks side).bank mode seen side free (low, omega arith, started)).1
