-- ===== src/Capture.antt =====
-- internal/capture/objective.go and gauge.go: the objectives of an encounter and its Capture Gauge.
-- HP, damage and awards are not negative here, so they are ℕ.
pub mod Progress
pub mod Encounter
pub mod Generate
pub mod Awards
pub mod Endurance
use termon.Prelude.{
  ℕ, ◌+◌, ◌*◌, min, String, Bool, true, false, ◌&&◌, ◌||◌, not, Option, none, some, List, [], ◌∷◌,
  ◌++◌, length, contains, ltb, leb, eqb, ◌==◌, if◌then◌else◌,
}
use termon.Prelude.Dict.{Dict, lookup, insert}
use termon.Battle.Types.{Event, EventKind}
use termon.Battle.Views.{Snapshot, SnapshotMember}

pub record Objective : Type 0 where
  pub id : String
  pub display_name : String
  pub award : ℕ
  pub description : String

abbrev pub show_move_variety : Objective
show_move_variety = record {
  id = "show_move_variety";
  display_name = "Use 3 different Moves";
  award = 30;
  description = "Resolve three turns using three distinct Moves from the active Party.";
}

abbrev pub read_the_matchup : Objective
read_the_matchup = record {
  id = "read_the_matchup";
  display_name = "Land a super-effective Move";
  award = 35;
  description = "Hit with a Move that is 1.5× Type against the Wild Monster.";
}

abbrev pub safe_switch : Objective
safe_switch = record {
  id = "safe_switch";
  display_name = "Safe switch";
  award = 35;
  description = "Complete a voluntary Switch into a healthy reserve with at least 50% HP.";
}

abbrev pub measured_pressure : Objective
measured_pressure = record {
  id = "measured_pressure";
  display_name = "Measured pressure";
  award = 35;
  description =
      "Deal positive damage on two different turns while the Wild Monster is above 25% HP at the end of the second turn.";
}

abbrev pub hold_the_line : Objective
hold_the_line = record {
  id = "hold_the_line";
  display_name = "Hold the line";
  award = 35;
  description =
      "After the Wild Monster acts, end a resolved turn with the active Monster above 50% HP.";
}

unfoldable pub authored_lesson_objectives : ℕ → List String
authored_lesson_objectives lesson =
    if eqb lesson 1
    then show_move_variety.id ∷ read_the_matchup.id ∷ hold_the_line.id ∷ []
    else if eqb lesson 2
    then show_move_variety.id ∷ safe_switch.id ∷ read_the_matchup.id ∷ []
    else []

pub record TurnInput : Type 0 where
  pub turn : ℕ
  pub trainer_move_slug : String
  pub trainer_move_hit : Bool
  pub trainer_super_eff : Bool
  pub trainer_damage : ℕ
  pub voluntary_switch : Bool
  pub switch_target_max_hp : ℕ
  pub switch_target_hp : ℕ
  pub replacement : Bool
  pub wild_acted : Bool
  pub trainer_active_hp : ℕ
  pub trainer_active_max : ℕ
  pub wild_hp : ℕ
  pub wild_max_hp : ℕ

-- `distinct_moves` lists the keys of the set, each once.
pub record Session : Type 0 where
  pub objectives : List Objective
  pub gauge : ℕ
  pub completed : Dict Bool
  pub distinct_moves : List String
  pub pressure_turns : ℕ

unfoldable pub incomplete : List Objective → Dict Bool → Dict Bool
incomplete [] completed = completed
incomplete (o ∷ os) completed = incomplete os (insert o.id false completed)

unfoldable pub new_session : List Objective → Session
new_session objectives = record {
  objectives = objectives;
  gauge = 0;
  completed = incomplete objectives [];
  distinct_moves = [];
  pressure_turns = 0;
}

-- `s.Completed[id]`: a missing key reads false.
unfoldable pub is_complete : Dict Bool → String → Bool
is_complete completed id = elim (lookup id completed) [ none ↦ false | some done ↦ done ]

abbrev with_move : String → List String → List String
with_move slug moves = if slug == "" || contains moves slug then moves else moves ++ slug ∷ []

unfoldable pub try_complete : Session → String → TurnInput → Session × Bool
try_complete s id turn =
    if id == show_move_variety.id
    then (let moves = with_move turn.trainer_move_slug s.distinct_moves in
        (record s { distinct_moves = moves }, leb 3 (length moves)))
    else if id == read_the_matchup.id
    then (s, turn.trainer_move_hit && turn.trainer_super_eff && ltb 0 turn.trainer_damage)
    else if id == safe_switch.id
    then (
      s,
      not (turn.replacement || not turn.voluntary_switch)
          && not (ltb turn.switch_target_max_hp 1)
          && leb turn.switch_target_max_hp (turn.switch_target_hp * 2),
    )
    else if id == measured_pressure.id
    then (let n =
          if ltb 0 turn.trainer_damage && ltb turn.wild_max_hp (turn.wild_hp * 4)
          then s.pressure_turns + 1
          else s.pressure_turns in
        (record s { pressure_turns = n }, leb 2 n))
    else if id == hold_the_line.id
    then (s, turn.wild_acted && ltb turn.trainer_active_max (turn.trainer_active_hp * 2))
    else (s, false)

-- One round of the loop of `AfterTurn`, with the id it appends.
unfoldable pub evaluate : Session → Objective → TurnInput → Session × List String
evaluate s o turn =
    if is_complete s.completed o.id
    then (s, [])
    else let (s1, done) = try_complete s o.id turn in
      if done
      then (
        record s1 {
          completed = insert o.id true s1.completed;
          gauge = min 100 (s1.gauge + o.award);
        },
        o.id ∷ [],
      )
      else (s1, [])

unfoldable pub evaluate_all : Session → List Objective → TurnInput → Session × List String
evaluate_all s [] turn = (s, [])
evaluate_all s (o ∷ os) turn =
    let (s1, first) = evaluate s o turn in
    let (s2, rest) = evaluate_all s1 os turn in (s2, first ++ rest)

unfoldable pub after_turn : Session → TurnInput → Session × List String
after_turn s turn = evaluate_all s s.objectives turn

-- The turns of an encounter.
unfoldable pub after_turns : Session → List TurnInput → Session
after_turns s [] = s
after_turns s (turn ∷ turns) = after_turns (after_turn s turn).0 turns

unfoldable pub is_full : Session → Bool
is_full s = leb 100 s.gauge

unfoldable pub outcome_after_turn : Session → Bool → String
unfolding is_full
outcome_after_turn s wild_fainted =
    if is_full s then "captured" else if wild_fainted then "hunt_failed" else ""

-- One event in the loop of `BuildTurnInput`.
unfoldable pub read_event : String → String → Event → TurnInput → TurnInput
read_event trainer wild_trainer e turn =
    let mine = e.actor == trainer in
    elim e.kind [
      | EventKind.missed ↦ if mine then record turn { trainer_move_hit = false } else turn
      | EventKind.super_effective ↦ if mine then record turn { trainer_super_eff = true } else turn
      | EventKind.damage_dealt ↦
          if mine
          then record turn {
            trainer_move_hit = true;
            trainer_damage = turn.trainer_damage + e.damage;
          }
          else turn
      | EventKind.switched ↦ if mine then record turn { voluntary_switch = true } else turn
      | EventKind.replacement ↦ if mine then record turn { replacement = true } else turn
      | EventKind.move_used ↦
          if e.actor == wild_trainer then record turn { wild_acted = true } else turn
      | _ ↦ turn
    ]

unfoldable pub read_events : String → String → ℕ → List Event → TurnInput → TurnInput
unfolding read_event
read_events trainer wild_trainer n [] turn = turn
read_events trainer wild_trainer n (e ∷ es) turn =
    read_events trainer wild_trainer n es
      (if eqb e.turn n then read_event trainer wild_trainer e turn else turn)

-- The last active member wins in the first loop over the party.
unfoldable pub read_party : List SnapshotMember → TurnInput → TurnInput
read_party [] turn = turn
read_party (m ∷ ms) turn = read_party ms (
    if m.active
    then record turn { trainer_active_hp = m.hp; trainer_active_max = m.max_hp }
    else turn)

-- The first active member wins in the second.
unfoldable pub read_switch : List SnapshotMember → TurnInput → TurnInput
read_switch [] turn = turn
read_switch (m ∷ ms) turn =
    let rest = read_switch ms turn in
    if m.active
    then record turn { switch_target_hp = m.hp; switch_target_max_hp = m.max_hp }
    else rest

unfoldable pub build_turn_input :
    List Event → ℕ → String → String → String → Snapshot → ℕ → ℕ → TurnInput
build_turn_input events n trainer wild_trainer trainer_move snap wild_hp wild_max =
    let start : TurnInput = record {
      turn = n;
      trainer_move_slug = trainer_move;
      trainer_move_hit = false;
      trainer_super_eff = false;
      trainer_damage = 0;
      voluntary_switch = false;
      switch_target_max_hp = 0;
      switch_target_hp = 0;
      replacement = false;
      wild_acted = false;
      trainer_active_hp = 0;
      trainer_active_max = 0;
      wild_hp = wild_hp;
      wild_max_hp = wild_max;
    } in
    let turn = read_party snap.your_party (read_events trainer wild_trainer n events start) in
    if turn.voluntary_switch then read_switch snap.your_party turn else turn
