-- ===== src/Battle/Turn.antt =====
-- The resolution of one turn, `resolveTurn` of internal/battle/engine.go and what it calls.
use termon.Prelude.{
  ℕ, ◌+◌, ◌-◌, ◌/◌, min, max, String, ◌+++◌, Bool, true, false, ◌&&◌, ◌||◌, not, Option, none, some,
  List, [], ◌∷◌, ltb, eqb, ◌==◌, if◌then◌else◌, ◌>>=◌,
}
use termon.Prelude.Int.{pos, pos_part}
use termon.Prelude.Dict.{lookup}
use termon.Machine.{Machine}
use termon.Content.{Move, effectiveness}
use termon.Game.Power.{move_power}
use termon.Battle.Types.{
  Side, other, Pair, both, pick, put, no_action, ActionKind, State, EndReason, EventKind, Member,
}
use termon.Battle.Damage.{damage_base}
use termon.Battle.State.{
  Battle, event, active_member, set_active_member, member_name, member_index, has_healthy_reserve,
  all_fainted, append_events,
}

abbrev pub is_over : State → Bool
is_over State.over = true
is_over _ = false

abbrev pub is_move : ActionKind → Bool
is_move ActionKind.move = true
is_move _ = false

abbrev pub is_switch : ActionKind → Bool
is_switch ActionKind.switch = true
is_switch _ = false

-- The cap on a wild side's damage.
unfoldable pub wild_limit : ℕ → ℕ
wild_limit max_hp = max 1 ((max_hp - 1) / 5)

unfoldable pub clamp_damage : (M : Machine) → Bool → ℕ → M.Float → M.Float
clamp_damage M clamps max_hp damage =
    let limit = M.of_int (pos (wild_limit max_hp)) in
    if clamps then (if M.less limit damage then limit else damage) else damage

module _ {M : Machine} where
  -- A missing slug reads the zero `Move`.
  unfoldable pub move_named : Battle M → String → Move M
  move_named b slug = elim (lookup slug b.content.moves) [
    | none ↦ record {
      slug = "";
      name = "";
      order = 0;
      kind = "";
      category = "";
      power = M.literal 0 1;
      accuracy = M.literal 0 1;
    }
    | some m ↦ m
  ]

  unfoldable pub write_active : Battle M → Side → Member → Battle M
  unfolding set_active_member
  write_active b side m = record b {
    sides = put b.sides side (set_active_member (pick b.sides side) m);
  }

  unfoldable pub end_win : Battle M → Side → EndReason → Option (Battle M)
  end_win b winner reason = if is_over b.state then some b else do
    w ← active_member (pick b.sides winner)
    let name = (pick b.sides winner).trainer
    some (
        append_events (record b { state = State.over; reason = reason; winner = name })
          (record (event b.turn EventKind.battle_over (member_name w +++ " wins!")) { actor = name }
            ∷ []))

  unfoldable pub clear_turn_locks : Battle M → Battle M
  clear_turn_locks b = record b {
    actions = both no_action;
    locked = both false;
    lock_kind = both ActionKind.unset;
  }

  unfoldable pub execute_switch : Battle M → Side → Option (Battle M)
  execute_switch b side =
      if is_switch (pick b.actions side).kind
      then elim (member_index (pick b.sides side) (pick b.actions side).switch_to) [
        | none ↦ some b
        | some i ↦ do
          let s = record (pick b.sides side) { active = i }
          m ← active_member s
          some (
              append_events (record b { sides = put b.sides side s })
                (record (event b.turn EventKind.switched
                    ("Switched to " +++ member_name m +++ "!")) {
                      actor = s.trainer;
                      monster_id = m.id;
                      slot = i;
                    }
                  ∷ []))
      ]
      else some b

  unfoldable pub execute_switches : Battle M → Option (Battle M)
  execute_switches b = do b1 ← execute_switch b Side.first; execute_switch b1 Side.second

  unfoldable pub collect_moves : Battle M → List Side
  collect_moves b =
      if is_move b.actions.at_first.kind
      then (if is_move b.actions.at_second.kind
          then Side.first ∷ Side.second ∷ []
          else Side.first ∷ [])
      else (if is_move b.actions.at_second.kind then Side.second ∷ [] else [])

  -- The faster active member first; a roll decides between equal speeds.
  unfoldable pub move_order : Battle M → List Side → Option (List Side × Battle M)
  move_order b (a ∷ c ∷ rest) = do
    fast_a ← active_member (pick b.sides a)
    fast_c ← active_member (pick b.sides c)
    if ltb fast_a.spe fast_c.spe
        then some (c ∷ a ∷ [], b)
        else if eqb fast_c.spe fast_a.spe
        then (let (r, rng) = M.roll b.rng in
            some (
              if M.at_least r (M.literal 5 10) then c ∷ a ∷ [] else a ∷ c ∷ [],
              record b { rng = rng },
            ))
        else some (a ∷ c ∷ [], b)
  move_order b (a ∷ []) = some (a ∷ [], b)
  move_order b [] = some ([], b)

  -- The critical roll: the damage with it, and the log.
  unfoldable pub critical_roll : Battle M → Side → M.Float → M.Float × Battle M
  critical_roll b attacker damage =
      let (r, rng) = M.roll b.rng in
      let b1 = record b { rng = rng } in
      if M.less r (M.literal 1 16)
      then (
        M.times damage (M.literal 15 10),
        append_events b1 (
            record (event b.turn EventKind.critical_hit "A critical hit!") {
              actor = (pick b.sides attacker).trainer;
            }
            ∷ []),
      )
      else (damage, b1)

  unfoldable pub announce : Battle M → Side → M.Float → Battle M
  announce b attacker eff =
      let actor = (pick b.sides attacker).trainer in
      if M.at_least eff (M.literal 15 10)
      then append_events b (
          record (event b.turn EventKind.super_effective "It's super effective!") { actor = actor }
          ∷ [])
      else if M.less (M.literal 0 1) eff && M.less eff (M.literal 1 1)
      then append_events b (
          record (event b.turn EventKind.not_very_effective "It's not very effective...") {
            actor = actor;
          }
          ∷ [])
      else b

  -- The variance roll and the rounding: what a hit takes, before the cap at the target's HP.
  unfoldable pub variance_roll : Battle M → M.Float → ℕ × Battle M
  variance_roll b damage =
      let (r, rng) = M.roll b.rng in
      let varied = M.times damage (M.plus (M.literal 85 100) (M.times (M.literal 15 100) r)) in
      (max 1 (pos_part (M.to_int varied)), record b { rng = rng })

  unfoldable pub deal : Battle M → Side → Side → Member → ℕ → Battle M × Bool
  unfolding write_active
  deal b attacker defender def rolled =
      let dealt = min rolled def.hp in
      let hurt = record def { hp = def.hp - dealt } in
      let b1 = append_events (write_active b defender hurt) (
        record (event b.turn EventKind.damage_dealt
          (member_name def +++ " took " +++ M.decimal dealt +++ " damage.")) {
            actor = (pick b.sides attacker).trainer;
            target_id = def.id;
            damage = dealt;
          }
        ∷ []) in
      if ltb 0 hurt.hp then (b1, false) else (
        append_events (write_active b1 defender (record hurt { fainted = true })) (
            record (event b.turn EventKind.fainted (member_name def +++ " fainted!")) {
              actor = (pick b.sides defender).trainer;
              monster_id = def.id;
              slot = (pick b.sides defender).active;
            }
            ∷ []),
        true,
      )

  unfoldable pub hit : Battle M → Side → Side → Member → Member → Move M → Battle M × Bool
  hit b attacker defender atk def move =
      let attack = if move.category == "special" then atk.spa else atk.atk in
      let eff = effectiveness b.content move.kind def.spec.kind in
      let base =
        damage_base M (move_power M move.power atk.level) attack def.def move.kind atk.spec.kind
          eff in
      let (damage, b1) = critical_roll b attacker base in
      let b2 = announce b1 attacker eff in
      let clamped =
        clamp_damage M (pick b2.sides attacker).clamp_outgoing_damage def.max_hp damage in
      let (rolled, b3) = variance_roll b2 clamped in deal b3 attacker defender def rolled

  unfoldable pub execute_move : Battle M → Side → Side → Option (Battle M × Bool)
  execute_move b attacker defender = do
    atk ← active_member (pick b.sides attacker)
    def ← active_member (pick b.sides defender)
    let move = move_named b (pick b.actions attacker).move_slug
    let actor = (pick b.sides attacker).trainer
    let b1 = append_events b (
        record (event b.turn EventKind.move_used
          (member_name atk +++ " used " +++ move.name +++ "!")) {
            actor = actor;
            monster_id = atk.id;
            slot = (pick b.sides attacker).active;
            target_id = def.id;
            move_slug = move.slug;
          }
        ∷ [])
    let (r, rng) = M.roll b1.rng
    let b2 = record b1 { rng = rng }
    if M.at_least (M.times r (M.literal 100 1)) move.accuracy
        then some (
          append_events b2
              (record (event b.turn EventKind.missed "...it missed!") { actor = actor } ∷ []),
          false,
        )
        else some (hit b2 attacker defender atk def move)

  -- The body of the loop over `order` for a side that attacks, with the rest of the loop. The second
  -- part of the result tells that the loop returned from `resolveTurn`.
  unfoldable pub attack :
      Side
      → Pair Bool
      → (Pair Bool → Battle M → Option (Battle M × Bool))
      → Battle M
      → Option (Battle M × Bool)
  attack side cancelled next b = do
    (b1, fainted) ← execute_move b side (other side)
    def ← active_member (pick b1.sides (other side))
    if all_fainted (pick b1.sides (other side))
        then (do b2 ← end_win b1 side EndReason.ko; some (clear_turn_locks b2, true))
        else next (if fainted && def.fainted then put cancelled (other side) true else cancelled) b1

  unfoldable pub play_moves : List Side → Pair Bool → Battle M → Option (Battle M × Bool)
  play_moves [] cancelled b = some (b, false)
  play_moves (side ∷ rest) cancelled b =
      if pick cancelled side || not (is_move (pick b.actions side).kind)
      then play_moves rest cancelled b
      else attack side cancelled (play_moves rest) b

  unfoldable pub replace_or_end : Battle M → Side → Option (Battle M × Bool)
  replace_or_end b side =
      if has_healthy_reserve (pick b.sides side)
      then some (record b { replace_side = some side }, true)
      else do b1 ← end_win b (other side) EndReason.ko; some (b1, false)

  unfoldable pub check_replacement : Battle M → Option (Battle M × Bool)
  check_replacement b = do
    m ← active_member b.sides.at_first
    if m.fainted then replace_or_end b Side.first else (do
      n ← active_member b.sides.at_second
      if n.fainted then replace_or_end b Side.second else some (b, false))

  -- What follows the loop.
  unfoldable pub close_turn : Battle M → Option (Battle M)
  close_turn b =
      let b1 = clear_turn_locks b in
      if is_over b1.state
      then some b1
      else do (b2, replaced) ← check_replacement b1; some (record b2 { state = State.revealing })

  unfoldable pub open_turn : Battle M → Battle M
  open_turn b =
      append_events (record b { state = State.resolving_turn; turn = b.turn + 1 })
        (event (b.turn + 1) EventKind.turn_started ("Turn " +++ M.decimal (b.turn + 1)) ∷ [])

  unfoldable pub resolve_turn : Battle M → Option (Battle M)
  resolve_turn b = do
    b1 ← execute_switches (open_turn b)
    (order, b2) ← move_order b1 (collect_moves b1)
    (b3, returned) ← play_moves order (both false) b2
    if returned then some b3 else close_turn b3
