-- ===== src/Tests/Battles.antt =====
-- The theorems on internal/battle at a small Battle.
use termon.Battle.Calls.{
  selects, Call, advances, step, run, select, select_for, action_error, lock_action,
  lock_and_resolve, advance_reveal, leave_reveal, replace, forfeit,
}
use termon.Battle.Types.{
  ActionKind, Side, pick, put, both, State, EndReason, Event, Member, SideState,
}
use termon.Prelude.{
  ◌≡◌, ◌≢◌, refl, subst, String, true, false, not, ◌⊎◌, ◌++◌, Option, some, none, List, [], ◌∷◌,
  Runs, max, ◌-◌, ◌/◌, ltb, ◌≤◌, length, arith,
}
use termon.Prelude.Dict.{lookup}
use termon.Prelude.Int.{◌+ℤ◌}
use termon.Content.{level_legal_movepool, effectiveness}
use termon.Game.Xp.{natural_stat}
use termon.Game.Power.{move_power}
use termon.Battle.Damage.{damage_base}
use termon.Battle.State.{
  Battle, active_member, set_active_member, append_events, all_fainted, member_name,
  has_healthy_reserve, side_index, knows_move,
}
use termon.Battle.Start.{
  Result, ok, starting_stats, missing_move, init_member, init_members, init_side, send_out,
  emit_start_send_outs, fresh, new,
}
use termon.Battle.Turn.{
  is_over, move_named, write_active, clear_turn_locks, execute_switch, execute_switches,
  collect_moves, move_order, critical_roll, announce, variance_roll, clamp_damage, deal, hit,
  execute_move, attack, play_moves, replace_or_end, check_replacement, close_turn, open_turn,
  resolve_turn,
}
use termon.Battle.Views.{fielded_hp_after, snapshot}
use termon.Battle.Invariant.{Wounded, IsApart}
use termon.Battle.Invariant.Goes.{Goes}
use termon.Battle.Invariant.Moves.{Alive}
use termon.Battle.Invariant.Opening.{Knockout}
use termon.Battle.Invariant.Closing.{Revealing}
use termon.Battle.Invariant.Select.{Valid}
use termon.Battle.Invariant.Begin.{On, new-Valid}
use termon.Battle.Invariant.Steps.{run-Valid}
use termon.Battle.Safety.{
  new-run, step-Valid, run-Wounded, step-over, replace_live, forfeit_live, select_lem,
}
use termon.Battle.Replay.{plate_of, fielded_hp_after-run}
use termon.Battle.Hiding.{AllAlike, SameToViewer, snapshot-SameToViewer}
use termon.Battle.Strikes.{
  variance_roll-clamp_damage, deal_lem, move_order_lem, play_moves_cancelled,
}
use termon.Tests.Fixtures.{
  entered, hit_of, machine, machine_laws, content, ann, bob, started, returned, blank, first_turn,
  uses_move,
}

battle : Battle machine
unfolding new
battle = started (new content ann bob 3) blank

starts : new content ann bob 3 ≡ some (ok battle)
unfolding battle new init_side init_members init_member missing_move starting_stats natural_stat
    lookup emit_start_send_outs send_out fresh append_events active_member member_name
    level_legal_movepool
starts = refl

Valid-start :
    (o : Option (Result (Battle machine)))
    → Runs (On (λ c. Valid c × (c.state ≡ State.awaiting_actions))) o
    → (b : Battle machine) → o ≡ some (ok b)
    → Valid b
Valid-start o h b e =
    (subst (λ r. Runs (On (λ c. Valid c × (c.state ≡ State.awaiting_actions))) r) e h).0

battle-Valid : Valid battle
battle-Valid = Valid-start (new content ann bob 3) (new-Valid content ann bob 3) battle starts

later : Battle machine
unfolding run
later = returned (run battle first_turn) blank

plays : run battle first_turn ≡ some later
unfolding later run step select select_for action_error lock_action lock_and_resolve advance_reveal
    leave_reveal resolve_turn open_turn close_turn check_replacement replace_or_end play_moves
    attack execute_move hit deal variance_roll clamp_damage announce critical_roll move_order
    collect_moves execute_switches execute_switch clear_turn_locks write_active move_named
    effectiveness damage_base move_power has_healthy_reserve all_fainted side_index knows_move
    battle new init_side init_members init_member missing_move starting_stats natural_stat lookup
    emit_start_send_outs send_out fresh append_events active_member set_active_member member_name
    level_legal_movepool ◌+ℤ◌
plays = refl

later_awaits : later.state ≡ State.awaiting_replacement
unfolding later run step select select_for action_error lock_action lock_and_resolve advance_reveal
    leave_reveal resolve_turn open_turn close_turn check_replacement replace_or_end play_moves
    attack execute_move hit deal variance_roll clamp_damage announce critical_roll move_order
    collect_moves execute_switches execute_switch clear_turn_locks write_active move_named
    effectiveness damage_base move_power has_healthy_reserve all_fainted side_index knows_move
    battle new init_side init_members init_member missing_move starting_stats natural_stat lookup
    emit_start_send_outs send_out fresh append_events active_member set_active_member member_name
    level_legal_movepool ◌+ℤ◌
later_awaits = refl

later-Valid : Valid later
later-Valid =
    let h = run-Valid battle first_turn battle-Valid in
    (subst (Runs (λ c. Goes battle c × Valid c)) plays h).1

a1 : Member
a1 = entered "a1" 20 41 41 13 27 27

b1 : Member
b1 = entered "b1" 5 32 32 10 21 21

ann_leads : active_member (pick battle.sides Side.first) ≡ some a1
unfolding battle new init_side init_members init_member missing_move starting_stats natural_stat
    lookup emit_start_send_outs send_out fresh append_events active_member set_active_member
    member_name level_legal_movepool a1
ann_leads = refl

bob_leads : active_member (pick battle.sides Side.second) ≡ some b1
unfolding battle new init_side init_members init_member missing_move starting_stats natural_stat
    lookup emit_start_send_outs send_out fresh append_events active_member set_active_member
    member_name level_legal_movepool b1
bob_leads = refl

ann_plays : side_index battle "ann" ≡ some Side.first
unfolding side_index battle new init_side init_members init_member missing_move starting_stats
    natural_stat lookup emit_start_send_outs send_out fresh append_events active_member
    set_active_member member_name level_legal_movepool
ann_plays = refl

battle-IsApart : IsApart battle.sides
unfolding battle new init_side init_members init_member missing_move starting_stats natural_stat
    lookup emit_start_send_outs send_out fresh append_events active_member set_active_member
    member_name level_legal_movepool
battle-IsApart Side.first = (refl, (refl, tt))
battle-IsApart Side.second = (refl, (refl, tt))

new-run_example : Runs (On (λ c. Runs Valid (run c first_turn))) (new content ann bob 3)
new-run_example = new-run content ann bob 3 first_turn

step-Valid_example : Runs (λ r. Valid r.0 × ((r.1 ≡ none) ⊎ (r.0 ≡ battle))) (step battle advances)
step-Valid_example = step-Valid battle advances battle-Valid

run-Wounded_example :
    Runs
      (λ c.
        (log : List Event) × (c.events ≡ battle.events ++ log)
        × ((t : Side)
            → Wounded log
                (pick {A = SideState} battle.sides t).members
                (pick {A = SideState} c.sides t).members))
      (run battle first_turn)
run-Wounded_example = run-Wounded battle first_turn battle-Valid battle-IsApart

fielded_hp_after-run_example :
    Runs
      (λ c. fielded_hp_after c "ann" (length battle.events) ≡ some (plate_of a1, plate_of b1))
      (run battle first_turn)
fielded_hp_after-run_example =
    fielded_hp_after-run battle first_turn "ann" Side.first a1 b1 battle-Valid battle-IsApart
      ann_plays ann_leads bob_leads

replace_live_example :
    (trainer : String) × (id : String) × Runs
      (λ r. (r.1 ≡ none) × (r.0.state ≡ State.revealing) × ((t : Side) → Alive (pick r.0.sides t)))
      (replace later trainer id)
replace_live_example = replace_live later later-Valid later_awaits

battle_awaits : battle.state ≡ State.awaiting_actions
unfolding battle new init_side init_members init_member missing_move starting_stats natural_stat
    lookup emit_start_send_outs send_out fresh append_events active_member set_active_member
    member_name level_legal_movepool
battle_awaits = refl

battle_going : is_over battle.state ≡ false
unfolding battle new init_side init_members init_member missing_move starting_stats natural_stat
    lookup emit_start_send_outs send_out fresh append_events active_member set_active_member
    member_name level_legal_movepool
battle_going = refl

forfeit_live_example :
    Runs
      (λ r.
        (r.1 ≡ none)
        × (r.0.state ≡ State.over)
        × (r.0.winner ≡ (pick {A = SideState} battle.sides Side.second).trainer)
        × (r.0.reason ≡ EndReason.forfeit)
        × (r.0.sides ≡ battle.sides))
      (forfeit battle (pick {A = SideState} battle.sides Side.first).trainer)
forfeit_live_example = forfeit_live battle Side.first battle-Valid battle_going

step-over_example : Runs (λ r. (r.0 ≡ blank) × (r.1 ≢ none)) (step blank advances)
step-over_example = step-over blank advances refl

-- Ann has locked her move, and Bob has not.
abbrev ann_locks : List Call
ann_locks = selects "ann" (uses_move "blast") ∷ []

half : Battle machine
unfolding run
half = returned (run battle ann_locks) blank

half_plays : run battle ann_locks ≡ some half
unfolding half run step select select_for action_error lock_action lock_and_resolve side_index
    knows_move battle new init_side init_members init_member missing_move starting_stats
    natural_stat lookup emit_start_send_outs send_out fresh append_events active_member
    set_active_member member_name level_legal_movepool
half_plays = refl

half-Valid : Valid half
half-Valid =
    let h = run-Valid battle ann_locks battle-Valid in
    (subst (Runs (λ c. Goes battle c × Valid c)) half_plays h).1

half_awaits : half.state ≡ State.awaiting_actions
unfolding half run step select select_for action_error lock_action lock_and_resolve side_index
    knows_move battle new init_side init_members init_member missing_move starting_stats
    natural_stat lookup emit_start_send_outs send_out fresh append_events active_member
    set_active_member member_name level_legal_movepool
half_awaits = refl

half_locked : pick half.locked Side.first ≡ true
unfolding half run step select select_for action_error lock_action lock_and_resolve side_index
    knows_move battle new init_side init_members init_member missing_move starting_stats
    natural_stat lookup emit_start_send_outs send_out fresh append_events active_member
    set_active_member member_name level_legal_movepool
half_locked = refl

bob_may :
    action_error ActionKind.move half Side.second
      (pick {A = SideState} half.sides Side.second).trainer
      (uses_move "tackle")
    ≡ some none
unfolding half run step select select_for action_error lock_action lock_and_resolve side_index
    knows_move battle new init_side init_members init_member missing_move starting_stats
    natural_stat lookup emit_start_send_outs send_out fresh append_events active_member
    set_active_member member_name level_legal_movepool
bob_may = refl

select_lem_example :
    Runs
      (λ r. (r.1 ≡ none) × (Knockout r.0 ⊎ Revealing r.0))
      (select half (pick {A = SideState} half.sides Side.second).trainer (uses_move "tackle"))
select_lem_example =
    select_lem half Side.second (uses_move "tackle") half-Valid half_awaits half_locked bob_may

-- Bob has secretly chosen.
secret : Battle machine
secret = record battle { actions = put battle.actions Side.second (uses_move "blast") }

alike : SameToViewer Side.first battle secret
unfolding secret
alike = record {
  own = refl;
  trainers = λ u. refl;
  locked = refl;
  own_kind = refl;
  state = refl;
  turn = refl;
  winner = refl;
  reason = refl;
  replace_side = refl;
}

secret_leads : active_member (pick secret.sides Side.second) ≡ some b1
unfolding secret
secret_leads = bob_leads

bob_alike :
    AllAlike b1.id (pick battle.sides Side.second).members (pick secret.sides Side.second).members
unfolding secret battle new init_side init_members init_member missing_move starting_stats
    natural_stat lookup emit_start_send_outs send_out fresh append_events active_member
    set_active_member member_name level_legal_movepool
bob_alike =
    ((refl, refl, refl, refl, λ e. (refl, refl)), ((refl, refl, refl, refl, λ e. (refl, refl)), tt))

snapshot-SameToViewer_example : snapshot secret "ann" ≡ snapshot battle "ann"
snapshot-SameToViewer_example =
    snapshot-SameToViewer battle secret "ann" Side.first b1 b1 ann_plays alike bob_leads
      secret_leads refl bob_alike

deal_lem_example :
    ((deal battle Side.first Side.second b1 100).1 ≡ not (ltb 100 b1.hp))
    × ((deal battle Side.first Side.second b1 100).0.sides
        ≡ put battle.sides Side.second (
            set_active_member
              (pick battle.sides Side.second)
              (record b1 { hp = b1.hp - 100; fainted = not (ltb 100 b1.hp) })))
deal_lem_example = deal_lem battle Side.first Side.second b1 100 bob_leads (unfold b1 in refl)

both_up : (t : Side) → Alive (pick battle.sides t)
unfolding battle new init_side init_members init_member missing_move starting_stats natural_stat
    lookup emit_start_send_outs send_out fresh append_events active_member set_active_member
    member_name level_legal_movepool
both_up Side.first = ground arith
both_up Side.second = ground arith

move_order_lem_example :
    Runs
      (λ r.
        ((r.0 ≡ Side.first ∷ Side.second ∷ [])
          × Runs
              (λ m.
                Runs
                  (λ n. n.spe ≤ m.spe)
                  (active_member (pick {A = SideState} battle.sides Side.second)))
              (active_member (pick {A = SideState} battle.sides Side.first)))
        ⊎ ((r.0 ≡ Side.second ∷ Side.first ∷ [])
            × Runs
                (λ m.
                  Runs
                    (λ n. m.spe ≤ n.spe)
                    (active_member (pick {A = SideState} battle.sides Side.second)))
                (active_member (pick {A = SideState} battle.sides Side.first))))
      (move_order battle (Side.first ∷ Side.second ∷ []))
move_order_lem_example = move_order_lem battle Side.first Side.second both_up

variance_roll-clamp_damage_example :
    (1 ≤ (variance_roll battle (clamp_damage machine true 41 90000)).0)
    × ((variance_roll battle (clamp_damage machine true 41 90000)).0 ≤ max 1 ((41 - 1) / 5))
variance_roll-clamp_damage_example =
    variance_roll-clamp_damage machine_laws battle 41 90000 (omega arith) (omega arith)

-- Ann and Bob have chosen their moves.
chosen : Battle machine
chosen = record battle {
  actions = record { at_first = uses_move "blast"; at_second = uses_move "tackle" };
}

struck : Battle machine
unfolding execute_move
struck = hit_of (execute_move chosen Side.first Side.second) blank

strikes : execute_move chosen Side.first Side.second ≡ some (struck, true)
unfolding struck chosen battle new init_side init_members init_member missing_move starting_stats
    natural_stat lookup emit_start_send_outs send_out fresh append_events active_member
    set_active_member member_name level_legal_movepool execute_move hit deal variance_roll
    clamp_damage announce critical_roll write_active move_named effectiveness damage_base move_power
    ◌+ℤ◌
strikes = refl

fallen : Member
fallen = record b1 { hp = 0; fainted = true }

bob_fell : active_member (pick struck.sides Side.second) ≡ some fallen
unfolding fallen b1 struck chosen battle new init_side init_members init_member missing_move
    starting_stats natural_stat lookup emit_start_send_outs send_out fresh append_events
    active_member set_active_member member_name level_legal_movepool execute_move hit deal
    variance_roll clamp_damage announce critical_roll write_active move_named effectiveness
    damage_base move_power ◌+ℤ◌
bob_fell = refl

bob_stands : all_fainted (pick struck.sides Side.second) ≡ false
unfolding all_fainted struck chosen battle new init_side init_members init_member missing_move
    starting_stats natural_stat lookup emit_start_send_outs send_out fresh append_events
    active_member set_active_member member_name level_legal_movepool execute_move hit deal
    variance_roll clamp_damage announce critical_roll write_active move_named effectiveness
    damage_base move_power ◌+ℤ◌
bob_stands = refl

play_moves_cancelled_example :
    play_moves (Side.first ∷ Side.second ∷ []) (both false) chosen ≡ some (struck, false)
play_moves_cancelled_example =
    play_moves_cancelled chosen struck Side.first fallen (unfold chosen in refl) strikes bob_fell
      (unfold fallen in refl) bob_stands
