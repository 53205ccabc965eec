-- ===== src/Store/Transition.antt =====
-- internal/store/activity_transition.go: every change that a new activity causes.
use termon.Content.{ContentSet}
use termon.Machine.{Machine}
use termon.Prelude.{
  Bool, Option, String, [], false, if◌then◌else◌, none, not, set, some, true, ℕ, ◌&&◌, ◌+++◌, ◌++◌,
  ◌+◌, ◌∷◌,
}
use termon.Store.{Save}
use termon.Store.Mint.{Reply, done, failed, monster_for_species}
use termon.Store.Records.{ActivityResult, Codec, canonical_activity_payload}
use termon.Store.Rewards.{
  Activity, ActivityRecord, CaptureSpec, IdSource, Outcome, Rewarded, apply_activity_rewards,
  first_vacant_party_slot, validate_save,
}

pub record ActivityTransition : Type 0 where
  pub save : Save
  pub result : ActivityResult
  pub daily_mastery : Option ActivityResult

-- `activityIDs`: the hashes of the seed and a counter; `nextOpaqueID` never fails.
abbrev pub activity_ids : Codec → String → IdSource
activity_ids codec seed = record {
  Supply = ℕ;
  new_id = λ next. (some (codec.hashed_id seed (next + 1)), next + 1);
}

abbrev is_captured : Outcome → Bool
is_captured Outcome.captured = true
is_captured _ = false

abbrev is_daily_mastery : Activity → Bool
is_daily_mastery Activity.daily_mastery = true
is_daily_mastery _ = false

abbrev is_daily_xp : Activity → Bool
is_daily_xp Activity.daily_xp = true
is_daily_xp _ = false

-- The Save with the Monster that was captured, its id, and the counter of the ids.
pub record Captured : Type 0 where
  pub save : Save
  pub captured_id : String
  pub next : ℕ

-- `Party[slot] = id` for the first vacant slot, if there is one.
unfoldable pub fill_party : Save → String → Save
fill_party save id = elim (first_vacant_party_slot save.party) [
  | none ↦ save
  | some slot ↦ record save { party = set save.party slot id }
]

module _ {M : Machine} (content : ContentSet M) (codec : Codec) (seed : String) where
  unfoldable pub add_capture : Save → ActivityRecord → CaptureSpec → Reply Captured
  unfolding fill_party
  add_capture save rec spec =
      let id : String = codec.hashed_id seed 1 in
      elim (monster_for_species content spec.species id) [
        | failed e ↦ failed e
        | done m ↦
            let kept : Save = record save {
              collection = save.collection ++ m ∷ [];
              notices =
                  save.notices
                  ++ record {
                    id = codec.hashed_id seed 2;
                    kind = "capture_review";
                    monster_id = id;
                    source_key = rec.natural_key;
                    moves = [];
                  }
                    ∷ [];
            } in
            done (record {
              save = if spec.fill_party then fill_party kept id else kept;
              captured_id = id;
              next = 2;
            })
      ]

  unfoldable pub capture_step : Save → ActivityRecord → Reply Captured
  unfolding add_capture
  capture_step save rec =
      let none_taken : Reply Captured = done (record { save = save; captured_id = ""; next = 0 }) in
      elim rec.capture [
        | none ↦ none_taken
        | some spec ↦ if is_captured rec.outcome then add_capture save rec spec else none_taken
      ]

  unfoldable pub reward_step : Captured → ActivityRecord → Rewarded (activity_ids codec seed)
  reward_step c rec =
      if not rec.mastery_only && not (is_daily_mastery rec.kind)
      then apply_activity_rewards content c.save rec rec.natural_key c.next
      else record { save = c.save; supply = c.next; error = none }

  -- The record of the activity and, for a daily whose par was met, that of its mastery.
  unfoldable pub activity_result : ActivityRecord → String → ℕ → ActivityResult
  activity_result rec captured_id next = record {
    id = codec.hashed_id seed (next + 1);
    natural_key = rec.natural_key;
    trainer_id = rec.trainer_id;
    kind = rec.kind;
    completed_at = rec.completed_at;
    payload = canonical_activity_payload codec rec;
    captured_monster_id = captured_id;
  }

  unfoldable pub mastery_result : ActivityRecord → ℕ → Option ActivityResult
  mastery_result rec next =
      let key : String = rec.trainer_id +++ (":daily-mastery:" +++ codec.date rec.completed_at) in
      if is_daily_xp rec.kind && rec.daily_par_met
      then some (record {
        id = codec.hashed_id seed (next + 1);
        natural_key = key;
        trainer_id = rec.trainer_id;
        kind = Activity.daily_mastery;
        completed_at = rec.completed_at;
        payload =
            canonical_activity_payload codec (record rec {
              kind = Activity.daily_mastery;
              natural_key = key;
              mastery_only = true;
            });
        captured_monster_id = "";
      })
      else none

  -- The new records, and the check of the Save.
  unfoldable pub finish_step :
      ActivityRecord → String → Rewarded (activity_ids codec seed) → Reply ActivityTransition
  unfolding activity_result mastery_result
  finish_step rec captured_id r =
      let (checked, error) = validate_save content r.save in
      elim error [
        | some e ↦ failed e
        | none ↦ done (record {
          save = checked;
          result = activity_result rec captured_id r.supply;
          daily_mastery = mastery_result rec (r.supply + 1);
        })
      ]

  unfoldable pub reward_and_finish : ActivityRecord → Reply Captured → Reply ActivityTransition
  unfolding reward_step finish_step
  reward_and_finish rec (failed e) = failed e
  reward_and_finish rec (done c) =
      let r = reward_step c rec in
      elim r.error [ some e ↦ failed e | none ↦ finish_step rec c.captured_id r ]

  unfoldable pub plan_activity_transition : Save → ActivityRecord → Reply ActivityTransition
  unfolding capture_step reward_and_finish
  plan_activity_transition current rec = reward_and_finish rec (capture_step current rec)
