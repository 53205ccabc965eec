-- ===== src/Battle/Calls.antt =====
-- The exported methods of internal/battle/engine.go that change a Battle. Each runs under the lock,
-- so a call is one step. The result is the Battle after the call and the returned error.
use termon.Prelude.{
  List, ℕ, String, ◌+++◌, Bool, true, false, ◌&&◌, not, Option, none, some, [], ◌∷◌, if◌then◌else◌,
  ◌>>=◌,
}
use termon.Machine.{Machine}
use termon.Battle.Types.{
  Side, other, both, pick, put, Action, no_action, ActionKind, State, EndReason, EventKind,
}
use termon.Battle.State.{
  Battle, event, active_member, member_name, member_index, valid_switch, append_events, side_index,
  knows_move,
}
use termon.Battle.Turn.{is_over, resolve_turn}

pub data Error : Type 0 where
  battle_over already_selected not_awaiting_actions not_awaiting_replacement not_revealing : Error
  unknown_trainer : String → Error
  unknown_move : String → String → Error
  cannot_switch : String → String → Error
  unknown_action_kind : ActionKind → Error
  not_replacing : String → Error
  invalid_replacement : String → Error

abbrev pub is_awaiting_actions : State → Bool
is_awaiting_actions State.awaiting_actions = true
is_awaiting_actions _ = false

abbrev pub is_awaiting_replacement : State → Bool
is_awaiting_replacement State.awaiting_replacement = true
is_awaiting_replacement _ = false

abbrev pub is_revealing : State → Bool
is_revealing State.revealing = true
is_revealing _ = false

-- Whether `replaceSide` is the given index.
abbrev pub awaits : Option Side → Side → Bool
awaits (some Side.first) Side.first = true
awaits (some Side.second) Side.second = true
awaits _ _ = false

module _ {M : Machine} where
  -- The checks of `Select` on an action, by its kind; `none` inside is no error.
  unfoldable pub action_error :
      ActionKind → Battle M → Side → String → Action → Option (Option Error)
  action_error ActionKind.move b side trainer action = do
    m ← active_member (pick b.sides side)
    some (
        if knows_move b m action.move_slug
        then none
        else some (unknown_move trainer action.move_slug))
  action_error ActionKind.switch b side trainer action = some (
      if valid_switch (pick b.sides side) action.switch_to
      then none
      else some (cannot_switch trainer action.switch_to))
  action_error kind b side trainer action = some (some (unknown_action_kind kind))

  unfoldable pub lock_action : Battle M → Side → Action → Battle M
  lock_action b side action = record b {
    actions = put b.actions side action;
    lock_kind = put b.lock_kind side action.kind;
    locked = put b.locked side true;
  }

  -- The second lock resolves the turn.
  unfoldable pub lock_and_resolve : Battle M → Side → Action → Option (Battle M)
  lock_and_resolve b side action =
      let b1 = lock_action b side action in
      if b1.locked.at_first && b1.locked.at_second then resolve_turn b1 else some b1

  unfoldable pub select_for : Battle M → Side → String → Action → Option (Battle M × Option Error)
  select_for b side trainer action =
      if pick b.locked side then some (b, some already_selected) else do
        e ← action_error action.kind b side trainer action
        elim e [
          | some err ↦ some (b, some err)
          | none ↦ do b1 ← lock_and_resolve b side action; some (b1, none)
        ]

  unfoldable pub select : Battle M → String → Action → Option (Battle M × Option Error)
  select b trainer action =
      if is_over b.state
      then some (b, some battle_over)
      else if not (is_awaiting_actions b.state)
      then some (b, some not_awaiting_actions)
      else elim (side_index b trainer) [
        | none ↦ some (b, some (unknown_trainer trainer))
        | some side ↦ select_for b side trainer action
      ]

  unfoldable pub send_replacement : Battle M → Side → String → ℕ → Option (Battle M × Option Error)
  send_replacement b side trainer i = do
    let s = record (pick b.sides side) { active = i }
    m ← active_member s
    let b1 =
        append_events (record b { sides = put b.sides side s })
          (record (event b.turn EventKind.replacement ("Go! " +++ member_name m +++ "!")) {
            actor = trainer;
            monster_id = m.id;
            slot = i;
          }
            ∷ [])
    some (record b1 { replace_side = none; state = State.revealing }, none)

  unfoldable pub replace_for : Battle M → Side → String → String → Option (Battle M × Option Error)
  replace_for b side trainer monster_id =
      if not (awaits b.replace_side side)
      then some (b, some (not_replacing trainer))
      else if not (valid_switch (pick b.sides side) monster_id)
      then some (b, some (invalid_replacement monster_id))
      else elim (member_index (pick b.sides side) monster_id) [
        | none ↦ some (b, some (invalid_replacement monster_id))
        | some i ↦ send_replacement b side trainer i
      ]

  unfoldable pub replace : Battle M → String → String → Option (Battle M × Option Error)
  replace b trainer monster_id =
      if is_over b.state
      then some (b, some battle_over)
      else if not (is_awaiting_replacement b.state)
      then some (b, some not_awaiting_replacement)
      else elim (side_index b trainer) [
        | none ↦ some (b, some (unknown_trainer trainer))
        | some side ↦ replace_for b side trainer monster_id
      ]

  -- The two ways out of the playback, by `replaceSide`.
  unfoldable pub leave_reveal : Option Side → Battle M → Battle M × Option Error
  leave_reveal (some _) b = (record b { state = State.awaiting_replacement }, none)
  leave_reveal none b = (record b { state = State.awaiting_actions }, none)

  unfoldable pub advance_reveal : Battle M → Battle M × Option Error
  advance_reveal b =
      if not (is_revealing b.state) then (b, some not_revealing) else leave_reveal b.replace_side b

  -- The writes of `endByLoss` once the loser is known.
  unfoldable pub lose :
      Battle M → Side → String → EndReason → EventKind → String → Option (Battle M × Option Error)
  lose b loser name reason kind action = do
    let winner = (pick b.sides (other loser)).trainer
    m ← active_member (pick b.sides loser)
    w ← active_member (pick b.sides (other loser))
    let ended = record b {
      state = State.over;
      reason = reason;
      winner = winner;
      replace_side = none;
      actions = both no_action;
      locked = both false;
    }
    some (
      append_events ended (
          record (event b.turn kind (member_name m +++ " " +++ action +++ ".")) { actor = name }
          ∷ record (event b.turn EventKind.battle_over (member_name w +++ " wins!")) {
            actor = winner;
          }
          ∷ []),
      none,
    )

  unfoldable pub end_by_loss :
      Battle M → String → EndReason → EventKind → String → Option (Battle M × Option Error)
  end_by_loss b loser reason kind action =
      if is_over b.state then some (b, some battle_over) else elim (side_index b loser) [
        | none ↦ some (b, some (unknown_trainer loser))
        | some side ↦ lose b side loser reason kind action
      ]

  unfoldable pub forfeit : Battle M → String → Option (Battle M × Option Error)
  forfeit b trainer = end_by_loss b trainer EndReason.forfeit EventKind.forfeit "forfeited"

  unfoldable pub disconnect_timeout : Battle M → String → Option (Battle M × Option Error)
  disconnect_timeout b trainer =
      end_by_loss b trainer EndReason.disconnect_timeout EventKind.forfeit "lost connection"

  unfoldable pub expire_decision : Battle M → String → Option (Battle M × Option Error)
  expire_decision b trainer =
      end_by_loss b trainer EndReason.decision_timeout EventKind.decision_timeout "ran out of time"

-- A call of an exported method.
pub data Call : Type 0 where
  selects : String → Action → Call
  replaces : String → String → Call
  advances : Call
  forfeits : String → Call
  disconnects : String → Call
  expires : String → Call

module _ {M : Machine} where
  unfoldable pub step : Battle M → Call → Option (Battle M × Option Error)
  step b (selects trainer action) = select b trainer action
  step b (replaces trainer id) = replace b trainer id
  step b advances = some (advance_reveal b)
  step b (forfeits trainer) = forfeit b trainer
  step b (disconnects trainer) = disconnect_timeout b trainer
  step b (expires trainer) = expire_decision b trainer

  -- A history of calls; the callers ignore or show the errors, and go on.
  unfoldable pub run : Battle M → List Call → Option (Battle M)
  run b [] = some b
  run b (c ∷ cs) = do (b1, e) ← step b c; run b1 cs
