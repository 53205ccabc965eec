-- ===== src/Tests/Parts.antt =====
-- The theorems on the other packages at small inputs.
use termon.Prelude.{
  ℕ, ◌+◌, ◌≤◌, ◌≡◌, ◌≢◌, ◌↔◌, refl, true, false, ◌&&◌, ◌||◌, ◌⊎◌, ◌++◌, ◌==◌, none, some, List, [],
  ◌∷◌, length, contains, IsDistinct, eqb, ltb, if◌then◌else◌, arith,
}
use termon.Prelude.Int.{pos}
use termon.Prelude.Dict.{lookup}
use termon.Content.{level_legal_movepool}
use termon.Game.Xp.{xp_for_level, level_for_xp, level_for_xp_iff}
use termon.Queue.{Queue, join, cancel, pair, position, waited}
use termon.Queue.Line.{InLine, pair-join-cancel-InLine, cancel-join, pair-join}
use termon.Session.{claim, drop_conn, drop_conn-claim}
use termon.Server.Admission.{Admission, new_registration_limiter, allow_all, admit}
use termon.Server.Admission.Quota.{Bounded, allow_all-Bounded, admit_lem}
use termon.Capture.{
  Objective, TurnInput, show_move_variety, hold_the_line, new_session, is_complete, after_turn,
  after_turns,
}
use termon.Capture.Progress.{Earned, after_turns-Earned_new, after_turn_lem}
use termon.Lobby.{
  Presence, Room, Error, joins, moves, visits, Dir, act_all, near_master, place_beside_master,
}
use termon.Lobby.Layout.{new_dojo}
use termon.Lobby.Floor.{Tidy}
use termon.Lobby.Steps.{act_all-Tidy_new, near_master-place_beside_master}
use termon.Store.{Monster, Save}
use termon.Store.Moves.{unlocks_for_level, keep_known_moves, validate_loadout, is_loadout}
use termon.Store.Loadouts.{unlocks_for_level-level_legal_movepool, keep_known_moves_lem}
use termon.Store.Rewards.{
  Activity, Outcome, SparringTier, ActivityRecord, IdSource, collection_error, party_error,
  validate_save, mark_pending, apply_activity_rewards,
}
use termon.Store.Growth.{validate_save-apply_activity_rewards}
use termon.Tests.Fixtures.{content}

level_for_xp_iff_example : (xp_for_level 25 ≤ 2400) ↔ (25 ≤ level_for_xp (pos 2400))
level_for_xp_iff_example = level_for_xp_iff 2400 25 (omega arith) (omega arith)

two : Queue
two = record { order = "ann" ∷ "bob" ∷ []; enqueued_at = ("ann", pos 5) ∷ ("bob", pos 7) ∷ [] }

empty : Queue
empty = record { order = []; enqueued_at = [] }

empty-InLine : InLine empty
unfolding empty lookup
empty-InLine = record { distinct = tt; timed = λ h. refl }

pair-join-cancel-InLine_example :
    InLine (join empty "ann" (pos 5)).0
    × InLine (cancel empty "ann").0
    × InLine (pair empty (pos 5)).0
pair-join-cancel-InLine_example = pair-join-cancel-InLine empty "ann" (pos 5) empty-InLine

cancel-join_example :
    ((join two "cy" (pos 9)).1.rank ≡ some (length two.order + 1))
    × (position (join two "cy" (pos 9)).0 "cy" ≡ (join two "cy" (pos 9)).1)
    × ((cancel (join two "cy" (pos 9)).0 "cy").0.order ≡ two.order)
    × ((cancel (join two "cy" (pos 9)).0 "cy").1 ≡ true)
cancel-join_example = cancel-join two "cy" (pos 9) refl (unfold two in refl)

pair-join_example :
    ((pair two (pos 9)).1
      ≡ some (record {
        a = "ann";
        b = "bob";
        wait_a = waited two "ann" (pos 9);
        wait_b = waited two "bob" (pos 9);
      }))
    × ((pair (join two "cy" (pos 9)).0 (pos 9)).1 ≡ (pair two (pos 9)).1)
    × ((pair (join two "cy" (pos 9)).0 (pos 9)).0.order ≡ (pair two (pos 9)).0.order ++ "cy" ∷ [])
pair-join_example =
    pair-join two "ann" "bob" "cy" [] (pos 9) (unfold two in refl) refl (unfold two in refl)

drop_conn-claim_example :
    (lookup "ann" (claim (("ann", 1) ∷ []) "ann" 2).0
      ≡ (if "ann" == "ann" then some 2 else lookup "ann" (("ann", 1) ∷ [])))
    × ((claim (("ann", 1) ∷ []) "ann" 2).1 ≢ some 2)
    × (lookup "ann" (drop_conn (claim (("ann", 1) ∷ []) "ann" 2).0 "ann" 1)
        ≡ (if eqb 2 1 then none else some 2))
drop_conn-claim_example = drop_conn-claim (("ann", 1) ∷ []) "ann" "ann" 2 1

default_admission : Admission
default_admission = record {
  open_access = true;
  registrations_per_ip = pos 0;
  registration_window = pos 0;
}

allow_all-Bounded_example : Bounded (
    allow_all (new_registration_limiter default_admission) (("10.0.0.1", 1) ∷ ("10.0.0.1", 2) ∷ []))
allow_all-Bounded_example =
    allow_all-Bounded default_admission (("10.0.0.1", 1) ∷ ("10.0.0.1", 2) ∷ [])

admit_lem_example :
    ((admit 2 60 "ip" 30 (("ip", record { count = 1; reset_at = 50 }) ∷ [])).1
      ≡ (if ltb 30 50 then ltb 1 2 else true))
    × (lookup "ip" (admit 2 60 "ip" 30 (("ip", record { count = 1; reset_at = 50 }) ∷ [])).0
        ≡ some (
            if ltb 30 50
            then (if ltb 1 2
                then record { count = 1 + 1; reset_at = 50 }
                else record { count = 1; reset_at = 50 })
            else record { count = 1; reset_at = 30 + 60 }))
admit_lem_example =
    admit_lem 2 60 "ip" 30 (("ip", record { count = 1; reset_at = 50 }) ∷ [])
      (record { count = 1; reset_at = 50 }) (unfold lookup in refl)

turn : TurnInput
turn = record {
  turn = 1;
  trainer_move_slug = "tackle";
  trainer_move_hit = true;
  trainer_super_eff = false;
  trainer_damage = 9;
  voluntary_switch = false;
  switch_target_max_hp = 0;
  switch_target_hp = 0;
  replacement = false;
  wild_acted = true;
  trainer_active_hp = 30;
  trainer_active_max = 40;
  wild_hp = 20;
  wild_max_hp = 30;
}

objectives : List Objective
objectives = show_move_variety ∷ hold_the_line ∷ []

objectives-IsDistinct : IsDistinct (show_move_variety.id ∷ hold_the_line.id ∷ [])
objectives-IsDistinct = (refl, (refl, tt))

after_turns-Earned_new_example : Earned (after_turns (new_session objectives) (turn ∷ []))
after_turns-Earned_new_example =
    after_turns-Earned_new objectives (turn ∷ []) (unfold objectives in objectives-IsDistinct)

after_turn_lem_example :
    (is_complete (after_turn (new_session objectives) turn).0.completed "hold_the_line"
      ≡ is_complete (new_session objectives).completed "hold_the_line"
        || contains (after_turn (new_session objectives) turn).1 "hold_the_line")
    × (contains (after_turn (new_session objectives) turn).1 "hold_the_line"
          && is_complete (new_session objectives).completed "hold_the_line"
        ≡ false)
unfolding new_session after_turns
after_turn_lem_example =
    after_turn_lem (new_session objectives) turn "hold_the_line"
      (after_turns-Earned_new objectives [] (unfold objectives in objectives-IsDistinct))

visitor : Presence
visitor = record {
  hash = "ann";
  handle = "Ann";
  species = "chippunk";
  at = (pos 0, pos 0);
  in_battle = false;
  in_queue = false;
}

act_all-Tidy_new_example :
    Tidy (act_all new_dojo (joins visitor ∷ moves "ann" Dir.north ∷ visits "ann" ∷ []))
act_all-Tidy_new_example =
    act_all-Tidy_new (joins visitor ∷ moves "ann" Dir.north ∷ visits "ann" ∷ [])

hall : Room
hall = record { blocked = []; spawns = []; by_hash = ("ann", visitor) ∷ [] }

near_master-place_beside_master_example :
    (((place_beside_master hall "ann").1 ≡ none)
      × (near_master (place_beside_master hall "ann").0 "ann" ≡ true))
    ⊎ (((place_beside_master hall "ann").1 ≡ some Error.no_space_beside_master)
        × ((place_beside_master hall "ann").0 ≡ hall))
near_master-place_beside_master_example =
    near_master-place_beside_master hall "ann" visitor (unfold hall in unfold lookup in refl)

abbrev ids : IdSource
ids = record { Supply = ℕ; new_id = λ n. (some "notice", n + 1) }

sprout : Monster
sprout = record {
  id = "a1";
  species = "chippunk";
  nickname = "";
  xp = pos 0;
  level = 1;
  move_library = "tackle" ∷ [];
  battle_loadout = "tackle" ∷ [];
  evolution_pending = false;
}

save : Save
save = record {
  handle = "ann";
  wins = 0;
  losses = 0;
  collection = sprout ∷ [];
  party = "a1" ∷ "" ∷ "" ∷ [];
  notices = [];
}

record_of : ActivityRecord
record_of = record {
  kind = Activity.lesson;
  natural_key = "lesson:1";
  trainer_id = "ann";
  capture = none;
  daily_par_met = false;
  completed_at = 0;
  outcome = Outcome.other_outcome "cleared";
  sparring_tier = SparringTier.apprentice;
  mastery_only = false;
  active_ids = "a1" ∷ [];
  reserve_ids = [];
}

save_passes : (validate_save content save).1 ≡ none
unfolding validate_save save sprout collection_error party_error mark_pending validate_loadout
    is_loadout xp_for_level level_for_xp termon.Game.Xp.level_from
save_passes = refl

validate_save-apply_activity_rewards_example :
    (validate_save content
      (apply_activity_rewards {S = ids} content save record_of "lesson:1" 0).save).1
    ≡ none
validate_save-apply_activity_rewards_example =
    validate_save-apply_activity_rewards ids content save record_of "lesson:1" 0 save_passes

unlocks_for_level-level_legal_movepool_example :
    (contains ("tackle" ∷ [] ++ unlocks_for_level content "chippunk" 5 ("tackle" ∷ [])) "blast"
      ≡ contains ("tackle" ∷ []) "blast"
        || contains (level_legal_movepool content "chippunk" 5) "blast")
    × (contains (unlocks_for_level content "chippunk" 5 ("tackle" ∷ [])) "blast"
          && contains ("tackle" ∷ []) "blast"
        ≡ false)
    × IsDistinct (unlocks_for_level content "chippunk" 5 ("tackle" ∷ []))
unlocks_for_level-level_legal_movepool_example =
    unlocks_for_level-level_legal_movepool content "chippunk" "blast" 5 ("tackle" ∷ [])

keep_known_moves_lem_example :
    (contains (keep_known_moves ("tackle" ∷ "gone" ∷ []) ("tackle" ∷ [])).0 "gone"
      ≡ contains ("tackle" ∷ "gone" ∷ []) "gone" && contains ("tackle" ∷ []) "gone")
    × IsDistinct (keep_known_moves ("tackle" ∷ "gone" ∷ []) ("tackle" ∷ [])).0
    × (((keep_known_moves ("tackle" ∷ "gone" ∷ []) ("tackle" ∷ [])).1 ≡ true)
        ⊎ ((keep_known_moves ("tackle" ∷ "gone" ∷ []) ("tackle" ∷ [])).0 ≡ "tackle" ∷ "gone" ∷ []))
keep_known_moves_lem_example = keep_known_moves_lem ("tackle" ∷ "gone" ∷ []) ("tackle" ∷ []) "gone"
