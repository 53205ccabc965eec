-- ===== src/Server/Clock.antt =====
-- The Decision Clock of internal/server/hub_match.go: `tick` and `sweepDecisionClock` of a PvP match, which
-- Tick of hub.go calls under the hub's lock. Times and banks are nanoseconds. `saveBefore` is left out.
pub mod Bank
pub mod Unseen
use termon.Battle.Views.{snapshot}
use termon.Battle.Types.{both, pick, Pair, Side, State}
use termon.Battle.Calls.{is_awaiting_actions, is_awaiting_replacement}
use termon.Battle.State.{Battle, side_index}
use termon.Machine.{Machine}
use termon.Prelude.{
  ◌>>=◌, Bool, List, Option, String, [], eqb, false, if◌then◌else◌, none, not, some, true, ℕ, ◌&&◌,
  ◌*◌, ◌||◌, ◌∷◌,
}
use termon.Prelude.Int.{ltb_ℤ, pos, ℤ, ◌+ℤ◌, ◌-ℤ◌}

abbrev pub one_second : ℕ
one_second = 1000000000

abbrev pub clock_bank_start : ℤ
clock_bank_start = pos (60 * one_second)

abbrev pub clock_phase_gain : ℤ
clock_phase_gain = pos (10 * one_second)

abbrev pub clock_bank_cap : ℤ
clock_bank_cap = pos (60 * one_second)

abbrev pub min_ℤ : ℤ → ℤ → ℤ
min_ℤ a b = if ltb_ℤ b a then b else a

-- The clock of one side; a deadline `none` is the zero time.
pub record SideClock : Type 0 where
  pub bank : ℤ
  pub deadline : Option ℤ
  pub started : Bool
  pub was_locked : Bool

-- `key_state` `none` is the empty string.
pub record PvpMode : Type 0 where
  pub clocks : Pair SideClock
  pub key_turn : ℕ
  pub key_state : Option State

abbrev pub new_clock : PvpMode
new_clock = record {
  clocks = both (record { bank = pos 0; deadline = none; started = false; was_locked = false });
  key_turn = 0;
  key_state = none;
}

-- What a tick reads of the Battle: `required` is ReplacementRequired of a Trainer's Snapshot.
pub record Sight : Type 0 where
  pub state : State
  pub turn : ℕ
  pub locked : Pair Bool
  pub required : Pair Bool

abbrev locked_of : {M : Machine} → Battle M → String → Bool
locked_of b trainer = elim (side_index b trainer) [ none ↦ false | some side ↦ pick b.locked side ]

-- `none` is a panic of Snapshot.
unfoldable pub sight_of : {M : Machine} → Battle M → String → String → Option Sight
sight_of b left right = do
  one ← snapshot b left
  two ← snapshot b right
  some (record {
    state = b.state;
    turn = b.turn;
    locked = record { at_first = locked_of b left; at_second = locked_of b right };
    required = record { at_first = one.replacement_required; at_second = two.replacement_required };
  })

abbrev same_state : State → State → Bool
same_state State.revealing State.revealing = true
same_state State.awaiting_actions State.awaiting_actions = true
same_state State.resolving_turn State.resolving_turn = true
same_state State.awaiting_replacement State.awaiting_replacement = true
same_state State.over State.over = true
same_state _ _ = false

-- The phase of a sight is the one that the clocks are armed for.
unfoldable pub is_same_phase : PvpMode → Sight → Bool
is_same_phase mode sight = elim mode.key_state [
  | none ↦ false
  | some key ↦ same_state key sight.state && eqb mode.key_turn sight.turn
]

unfoldable pub owes : Sight → Side → Bool
owes sight side =
    is_awaiting_actions sight.state
    || (is_awaiting_replacement sight.state && pick sight.required side)

-- A new phase for one side: the bank grows, up to the cap, and the deadline is set.
unfoldable pub arm : ℤ → Bool → Bool → SideClock → SideClock
arm now owed locked c =
    let bank : ℤ =
      if c.started then min_ℤ (c.bank +ℤ clock_phase_gain) clock_bank_cap else clock_bank_start in
    if not owed
    then record c { deadline = none }
    else record { bank = bank; deadline = some (now +ℤ bank); started = true; was_locked = locked }

-- Locking stops the clock: what remains of the bank is frozen.
unfoldable pub freeze_at : ℤ → Bool → SideClock → Option ℤ → SideClock
freeze_at now locked c none = c
freeze_at now locked c (some deadline) =
    if locked && not c.was_locked
    then record c { bank = deadline -ℤ now; was_locked = true }
    else if not locked
    then record c { was_locked = false }
    else c

unfoldable pub freeze : ℤ → Bool → SideClock → SideClock
unfolding freeze_at
freeze now locked c = freeze_at now locked c c.deadline

-- A sweep for one side.
unfoldable pub sweep_side : PvpMode → Sight → ℤ → Side → SideClock
unfolding arm freeze is_same_phase owes
sweep_side mode sight now side =
    let c = pick mode.clocks side in
    freeze now (pick sight.locked side)
      (if is_same_phase mode sight then c else arm now (owes sight side) (pick sight.locked side) c)

unfoldable pub sweep_decision_clock : PvpMode → Sight → ℤ → PvpMode
unfolding sweep_side
sweep_decision_clock mode sight now = record {
  clocks = record {
    at_first = sweep_side mode sight now Side.first;
    at_second = sweep_side mode sight now Side.second;
  };
  key_turn = sight.turn;
  key_state = some sight.state;
}

unfoldable pub has_expired : PvpMode → Sight → ℤ → Side → Bool
has_expired mode sight now side = elim (pick mode.clocks side).deadline [
  | none ↦ false
  | some deadline ↦ not (pick sight.locked side) && ltb_ℤ deadline now
]

-- The sides whose clocks have run out, in order.
unfoldable pub expired_sides : PvpMode → Sight → ℤ → List Side
unfolding has_expired
expired_sides mode sight now =
    let second_side = if has_expired mode sight now Side.second then Side.second ∷ [] else [] in
    if has_expired mode sight now Side.first then Side.first ∷ second_side else second_side

unfoldable pub tick : PvpMode → Sight → ℤ → PvpMode × List Side
unfolding sweep_decision_clock expired_sides
tick mode sight now =
    let swept = sweep_decision_clock mode sight now in
    if not (is_awaiting_actions sight.state || is_awaiting_replacement sight.state)
    then (record mode { key_state = none }, [])
    else (swept, expired_sides swept sight now)

-- Ticks, each with what it sees and its time.
unfoldable pub ticks : PvpMode → List (Sight × ℤ) → PvpMode
unfolding tick
ticks mode [] = mode
ticks mode ((sight, now) ∷ rest) = ticks (tick mode sight now).0 rest
