-- ===== src/Tests/Records.antt =====
-- The theorems on internal/store at small inputs: two Trainers and a starter Species of four moves.
use termon.Store.Memory.Lasting.{has_reset}
use termon.Store.Memory.Requests.{
  Request, load, party, reset, create, handle, handle_all, nickname, onboarding,
}
use termon.Content.Loading.{load_species}
use termon.Game.Nickname.{validate_nickname, Letters}
use termon.Game.Xp.{level_for_xp, xp_for_level}
use termon.Prelude.{
  Bool, IsDistinct, if◌then◌else◌, ◌&&◌, ◌==◌, arith, List, String, [], false, none, refl, some,
  suc, true, zero, ℕ, ◌+++◌, ◌+◌, ◌∷◌, ◌≡◌,
}
use termon.Prelude.Dict.{insert, lookup}
use termon.Store.Memory.{MemoryStore, MemoryTrainer, answer, refuse, new_memory_store, save_of}
use termon.Store.Memory.Activities.{record_activity_result}
use termon.Store.Memory.Atomic.{Same, handle_error}
use termon.Store.Memory.Battles.{lost, record_battle_result, won}
use termon.Store.Memory.Miscount.{record_battle_result-failed}
use termon.Store.Memory.Repeats.{record_battle_result-again}
use termon.Store.Memory.Saves.{set_nickname, set_party}
use termon.Store.Memory.Solo.{record_activity_result-again}
use termon.Store.Memory.Trainers.{complete_onboarding, create_trainer}
use termon.Store.Mint.{done, failed, mint_starter_monster, monster_for_species, validate_party_ids}
use termon.Store.Moves.{first_four_movepool, validate_loadout, evolution_pending}
use termon.Store.PayOnce.{apply_pvp_rewards_lem, first_seen}
use termon.Store.Pvp.{apply_pvp_rewards, reward_once}
use termon.Store.Records.{
  BattleRecord, ResultRecords, canonical_activity_payload, canonical_battle_body, same_result,
  Codec,
}
use termon.Store.Rewards.{
  Activity, ActivityRecord, Outcome, SparringTier, activity_xp, apply_activity_rewards,
  collection_error, find_monster, invalid_party, mark_pending, party_error, result_conflict,
  reward_each, reward_monster, unknown_monster, IdSource, validate_save,
}
use termon.Store.Transition.{plan_activity_transition}
use termon.Store.{Monster, Save}
use termon.Content.{ContentSet, Move, Species, TypeDef}
use termon.Prelude.Int.{pos}
use termon.Store.Memory.History.{validate_save-handle_all}
use termon.Store.Memory.Sound.{Filled}
use termon.Tests.Fixtures.{machine}

abbrev grass_move : String → ℕ → Move machine
grass_move slug rank = record {
  slug = slug;
  name = slug;
  order = rank;
  kind = "grass";
  category = "special";
  power = 40000;
  accuracy = 100000;
}

abbrev grass : TypeDef machine
grass = record { slug = "grass"; name = "Grass"; matchup = [] }

abbrev seedling : Species
seedling = record {
  slug = "seedling";
  name = "Seedling";
  kind = "grass";
  base_stats = record { hp = 30; attack = 30; defense = 10; sp_attack = 20; speed = 20 };
  movepool =
      record { move = "leaf"; level = 1 }
      ∷ record { move = "root"; level = 1 }
      ∷ record { move = "vine"; level = 1 }
      ∷ record { move = "seed"; level = 1 }
      ∷ [];
  evolves_to = none;
}

abbrev base : ContentSet machine
base = record {
  species = [];
  moves =
      ("leaf", grass_move "leaf" 1)
      ∷ ("root", grass_move "root" 2)
      ∷ ("vine", grass_move "vine" 3)
      ∷ ("seed", grass_move "seed" 4)
      ∷ [];
  types = ("grass", grass) ∷ [];
}

abbrev garden : ContentSet machine
garden = record base { species = ("seedling", seedling) ∷ [] }

-- Ids that a counter numbers.
abbrev counted : ℕ → String
counted zero = "m"
counted (suc n) = counted n +++ "m"

abbrev counter : IdSource
counter = record { Supply = ℕ; new_id = λ n. (some "idm", n + 1) }

abbrev codec : Codec
codec = record {
  marshal_payload = λ p. p.capture_species;
  marshal_body = λ b. b.stats.entry_path;
  hashed_id = λ seed n. "x" +++ counted n;
  date = λ t. "today";
}

abbrev letters : Letters
letters = record { trim_space = λ s. s; runes = λ s. []; is_letter_digit_or_mark = λ r. true }

abbrev first_save : String → Save
first_save title = record {
  handle = title;
  wins = 0;
  losses = 0;
  collection =
      record {
        id = "";
        species = "seedling";
        nickname = "";
        xp = pos 0;
        level = 1;
        move_library = [];
        battle_loadout = [];
        evolution_pending = false;
      }
      ∷ [];
  party = [];
  notices = [];
}

abbrev sprig : String → String → Monster
sprig id called = record {
  id = id;
  species = "seedling";
  nickname = called;
  xp = pos 0;
  level = 1;
  move_library = "leaf" ∷ "root" ∷ "vine" ∷ "seed" ∷ [];
  battle_loadout = "leaf" ∷ "root" ∷ "vine" ∷ "seed" ∷ [];
  evolution_pending = false;
}

abbrev kept_save : String → String → String → Save
kept_save title id called = record {
  handle = title;
  wins = 0;
  losses = 0;
  collection = sprig id called ∷ [];
  party = id ∷ "" ∷ "" ∷ [];
  notices = [];
}

abbrev history : List Request
history =
    create "ann" 5
    ∷ onboarding "ann" (first_save "Ann")
    ∷ party "ann" ("other" ∷ [])
    ∷ nickname "ann" "idm" "Sprig"
    ∷ []

counter-Filled : Filled counter
counter-Filled supply id e = let same : "idm" ≡ id = ground (arith, e) in rw (← same) refl

history_runs :
    save_of (handle_all garden codec letters (new_memory_store counter 0) history) "ann"
    ≡ some (kept_save "Ann" "idm" "Sprig")
unfolding save_of handle_all set_nickname validate_nickname set_party complete_onboarding
    create_trainer new_memory_store insert mint_starter_monster monster_for_species
    first_four_movepool validate_party_ids find_monster validate_save collection_error party_error
    mark_pending xp_for_level level_for_xp termon.Game.Xp.level_from validate_loadout
    evolution_pending lookup
history_runs = refl

validate_save-handle_all_example : (validate_save garden (kept_save "Ann" "idm" "Sprig")).1 ≡ none
validate_save-handle_all_example =
    validate_save-handle_all counter codec letters base garden (("seedling", seedling) ∷ []) 0
      history "ann" (kept_save "Ann" "idm" "Sprig") refl (unfold lookup in refl)
      (unfold load_species insert lookup in refl) counter-Filled history_runs

abbrev row : String → String → MemoryTrainer
row id title = record {
  id = id;
  handle = title;
  wins = 0;
  losses = 0;
  save = some (kept_save title "idm" "");
  version = 1;
  created_at = 0;
}

abbrev two_trainers : MemoryStore counter
two_trainers = record {
  credentials = ("ann", "ann") ∷ ("bob", "bob") ∷ [];
  trainers = ("ann", row "ann" "Ann") ∷ ("bob", row "bob" "Bob") ∷ [];
  battles = [];
  activities = [];
  sessions = [];
  fail_results = 0;
  fail_loads = 0;
  supply = 0;
}

handle_error_example :
    Same two_trainers (handle garden codec letters two_trainers (party "ann" ("x" ∷ []))).store
handle_error_example =
    handle_error garden codec letters two_trainers (party "ann" ("x" ∷ [])) invalid_party refl
      (unfold handle set_party lookup validate_party_ids find_monster in refl)

abbrev ann_wins : String → Bool → BattleRecord
ann_wins entrant paid = record {
  result = record { id = "b1"; winner = "ann"; loser = "bob"; reason = "faint"; completed_at = 7 };
  winner_active = entrant ∷ entrant ∷ [];
  winner_reserve = [];
  loser_active = [];
  loser_reserve = [];
  apply_rewards = paid;
  stats = record {
    version = 1;
    started_at = 0;
    duration_ms = 0;
    turns = 1;
    entry_path = "queue";
    trainer_stats = [];
  };
}

-- Both Saves after the first call of `record_battle_result-again_example`.
abbrev first_records : ResultRecords
first_records = record {
  winner = some (record (kept_save "Ann" "idm" "") { wins = 1 });
  loser = some (record (kept_save "Bob" "idm" "") { losses = 1 });
  applied = true;
}

first_call :
    (record_battle_result garden codec two_trainers (ann_wins "idm" false)).reply
    ≡ done first_records
unfolding record_battle_result lookup save_of insert
first_call = refl

-- A reset and two other calls between the two records.
abbrev meanwhile : List Request
meanwhile = party "bob" ("idm" ∷ "" ∷ "" ∷ []) ∷ reset "ann" ∷ load "bob" ∷ []

record_battle_result-again_example :
    (let t =
        handle_all garden codec letters
          (record_battle_result garden codec two_trainers (ann_wins "idm" false)).store
          meanwhile in
      record_battle_result garden codec t (ann_wins "idm" false) ≡ (
        if same_result (ann_wins "idm" false).result (ann_wins "idm" false).result
          && (canonical_battle_body codec (ann_wins "idm" false)
              == canonical_battle_body codec (ann_wins "idm" false))
        then answer t
            (record { winner = save_of t "ann"; loser = save_of t "bob"; applied = false })
        else refuse t result_conflict))
record_battle_result-again_example =
    record_battle_result-again garden codec letters two_trainers (ann_wins "idm" false)
      (ann_wins "idm" false) first_records meanwhile refl first_call refl

fails :
    (record_battle_result garden codec two_trainers (ann_wins "gone" true)).reply
    ≡ failed unknown_monster
unfolding record_battle_result lookup save_of insert apply_pvp_rewards reward_once reward_monster
    find_monster
fails = refl

record_battle_result-failed_example :
    (let t = (record_battle_result garden codec two_trainers (ann_wins "gone" true)).store in
      (lookup "ann" t.trainers ≡ some (won (row "ann" "Ann") (kept_save "Ann" "idm" "")))
      × (lookup "bob" t.trainers ≡ some (lost (row "bob" "Bob") (kept_save "Bob" "idm" "")))
      × (lookup "b1" t.battles ≡ none))
record_battle_result-failed_example =
    record_battle_result-failed garden codec two_trainers (ann_wins "gone" true) (row "ann" "Ann")
      (row "bob" "Bob") (kept_save "Ann" "idm" "") (kept_save "Bob" "idm" "") unknown_monster refl
      (unfold lookup in refl) refl (unfold lookup in refl) refl (unfold lookup in refl) refl fails

abbrev lesson_of : ActivityRecord
lesson_of = record {
  kind = Activity.lesson;
  natural_key = "lesson:1";
  trainer_id = "ann";
  active_ids = [];
  reserve_ids = [];
  outcome = Outcome.other_outcome "cleared";
  capture = none;
  mastery_only = false;
  daily_par_met = false;
  completed_at = 0;
  sparring_tier = SparringTier.apprentice;
}

abbrev after_lesson : MemoryStore counter
after_lesson = record two_trainers {
  activities =
      (
        "lesson:1",
        record {
          id = "xmm";
          natural_key = "lesson:1";
          trainer_id = "ann";
          kind = Activity.lesson;
          completed_at = 0;
          payload = "";
          captured_monster_id = "";
        },
      )
      ∷ [];
  supply = 1;
}

lesson_runs :
    record_activity_result garden codec two_trainers lesson_of
    ≡ some (answer after_lesson (some (kept_save "Ann" "idm" "")))
unfolding record_activity_result lookup insert plan_activity_transition apply_activity_rewards
    reward_each activity_xp canonical_activity_payload validate_save collection_error party_error
    mark_pending xp_for_level level_for_xp termon.Game.Xp.level_from validate_loadout
    evolution_pending
lesson_runs = refl

abbrev calls_between : List Request
calls_between = party "ann" ("idm" ∷ "" ∷ "" ∷ []) ∷ load "ann" ∷ []

record_activity_result-again_example :
    (save_of after_lesson "ann" ≡ some (kept_save "Ann" "idm" ""))
    × (let u = handle_all garden codec letters after_lesson calls_between in
        record_activity_result garden codec u lesson_of
        ≡ some (
            if canonical_activity_payload codec lesson_of
              == canonical_activity_payload codec lesson_of
            then answer u (save_of u "ann")
            else refuse u result_conflict))
unfolding has_reset
record_activity_result-again_example =
    record_activity_result-again garden codec letters two_trainers lesson_of lesson_of after_lesson
      (some (kept_save "Ann" "idm" "")) calls_between lesson_runs refl refl refl

apply_pvp_rewards_lem_example :
    (let r =
        reward_each {S = counter} garden []
          ("idm" ∷ [])
          (pos 155)
          "b1"
          (kept_save "Ann" "idm" "")
          0 in
      (apply_pvp_rewards {S = counter} garden
          (kept_save "Ann" "idm" "")
          ("idm" ∷ "idm" ∷ [])
          ("idm" ∷ [])
          true
          100
          "b1"
          0
        ≡ elim r.error [
          | some e ↦ r
          | none ↦ reward_each garden [] [] (pos 52) "b1" r.save r.supply
        ])
      × IsDistinct (first_seen [] ("idm" ∷ "idm" ∷ []))
      × IsDistinct (first_seen ("idm" ∷ "idm" ∷ []) ("idm" ∷ [])))
apply_pvp_rewards_lem_example =
    apply_pvp_rewards_lem counter garden (kept_save "Ann" "idm" "") ("idm" ∷ "idm" ∷ [])
      ("idm" ∷ []) true 100 "b1" 0
