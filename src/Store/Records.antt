-- ===== src/Store/Records.antt =====
-- The records of internal/store/store.go that a back end keeps, and what it writes of them. JSON,
-- SHA-256 and the calendar are parameters. A time is a number of nanoseconds.
use termon.Prelude.{Bool, List, Option, String, eqb, false, none, some, ℕ, ◌&&◌, ◌==◌}
use termon.Store.{Save}
use termon.Store.Rewards.{Activity, ActivityRecord, CaptureSpec, Outcome}

pub record BattleResult : Type 0 where
  pub id : String
  pub winner : String
  pub loser : String
  pub reason : String
  pub completed_at : ℕ

pub record BattleMoveStats : Type 0 where
  pub slug : String
  pub uses : ℕ
  pub misses : ℕ
  pub critical_hits : ℕ
  pub damage_dealt : ℕ

pub record BattleMonster : Type 0 where
  pub id : String
  pub species : String

pub record BattleTrainerStats : Type 0 where
  pub trainer_id : String
  pub result : String
  pub moves : ℕ
  pub misses : ℕ
  pub critical_hits : ℕ
  pub switches : ℕ
  pub damage_dealt : ℕ
  pub faints : ℕ
  pub monsters : List BattleMonster
  pub move_stats : List BattleMoveStats

pub record BattleStats : Type 0 where
  pub version : ℕ
  pub started_at : ℕ
  pub duration_ms : ℕ
  pub turns : ℕ
  pub entry_path : String
  pub trainer_stats : List BattleTrainerStats

pub record BattleRecord : Type 0 where
  pub result : BattleResult
  pub winner_active : List String
  pub winner_reserve : List String
  pub loser_active : List String
  pub loser_reserve : List String
  pub apply_rewards : Bool
  pub stats : BattleStats

pub record ActivityResult : Type 0 where
  pub id : String
  pub natural_key : String
  pub trainer_id : String
  pub kind : Activity
  pub completed_at : ℕ
  pub payload : String
  pub captured_monster_id : String

-- `none` is the zero time.
pub record SessionRecord : Type 0 where
  pub id : String
  pub trainer_id : String
  pub started_at : ℕ
  pub ended_at : Option ℕ
  pub end_reason : String
  pub app_version : String
  pub resume_target : String

pub record ResultRecords : Type 0 where
  pub winner : Option Save
  pub loser : Option Save
  pub applied : Bool

-- `activityPayload` and `battleResultBody`.
pub record ActivityPayload : Type 0 where
  pub kind : Activity
  pub outcome : Outcome
  pub active_ids : List String
  pub reserve_ids : List String
  pub capture_species : String
  pub fill_party : Bool
  pub mastery_only : Bool

pub record BattleBody : Type 0 where
  pub winner_active : List String
  pub winner_reserve : List String
  pub loser_active : List String
  pub loser_reserve : List String
  pub apply_rewards : Bool
  pub stats : BattleStats

-- `json.Marshal` on the two bodies, the id that hashes a seed and a counter, and the date of a time.
pub record Codec : Type 0 where
  pub marshal_payload : ActivityPayload → String
  pub marshal_body : BattleBody → String
  pub hashed_id : String → ℕ → String
  pub date : ℕ → String

abbrev capture_fields : Option CaptureSpec → String × Bool
capture_fields none = ("", false)
capture_fields (some c) = (c.species, c.fill_party)

unfoldable pub canonical_activity_payload : Codec → ActivityRecord → String
canonical_activity_payload codec rec = codec.marshal_payload (record {
  kind = rec.kind;
  outcome = rec.outcome;
  active_ids = rec.active_ids;
  reserve_ids = rec.reserve_ids;
  capture_species = (capture_fields rec.capture).0;
  fill_party = (capture_fields rec.capture).1;
  mastery_only = rec.mastery_only;
})

unfoldable pub canonical_battle_body : Codec → BattleRecord → String
canonical_battle_body codec rec = codec.marshal_body (record {
  winner_active = rec.winner_active;
  winner_reserve = rec.winner_reserve;
  loser_active = rec.loser_active;
  loser_reserve = rec.loser_reserve;
  apply_rewards = rec.apply_rewards;
  stats = rec.stats;
})

-- `==` on two results.
unfoldable pub same_result : BattleResult → BattleResult → Bool
same_result a b =
    a.id == b.id
    && (a.winner == b.winner
        && (a.loser == b.loser && (a.reason == b.reason && eqb a.completed_at b.completed_at)))
