-- ===== src/Store/Rewards.antt =====
-- The rewards, the evolution and the checks of a Save in internal/store/saveops.go. `newID` may fail;
-- it is a supply of ids that is a parameter.
use termon.Prelude.{
  ℕ, ◌+◌, ◌*◌, ◌/◌, String, ◌+++◌, Bool, ◌||◌, not, Option, none, some, List, [], ◌∷◌, ◌++◌, eqb,
  length, get_elem?, set, contains, filter_by, ◌==◌, if◌then◌else◌,
}
use termon.Prelude.Int.{ℤ, pos, ltb_ℤ, ◌+ℤ◌}
use termon.Prelude.Dict.{lookup}
use termon.Machine.{Machine}
use termon.Content.{ContentSet}
use termon.Game.Xp.{xp_for_level, level_for_xp, clamp_xp}
use termon.Store.{Monster, ProgressionNotice, Save}
use termon.Store.Moves.{unlocks_for_level, evolution_pending, validate_loadout}

pub data StoreError : Type 0 where
  unknown_monster evolution_not_pending id_failed : StoreError
  corrupt_save : String → StoreError
  not_found already_onboarded result_conflict invalid_party invalid_loadout : StoreError
  invalid_nickname unknown_species short_movepool not_one_starter injected_failure : StoreError

unfoldable pub find_from : ℕ → String → List Monster → Option ℕ
find_from i id [] = none
find_from i id (m ∷ ms) = if m.id == id then some i else find_from (i + 1) id ms

unfoldable pub find_monster : Save → String → Option ℕ
unfolding find_from
find_monster save id = find_from 0 id save.collection

-- The checks of `validateSave` on the collection; `none` is no error. `seen` holds the ids so far.
unfoldable pub collection_error : List String → List Monster → Option StoreError
collection_error seen [] = none
collection_error seen (m ∷ ms) =
    let rest = collection_error (m.id ∷ seen) ms in
    if m.id == ""
    then some (corrupt_save "empty monster id")
    else if contains seen m.id
    then some (corrupt_save "duplicate monster id")
    else if ltb_ℤ m.xp (pos 0) || ltb_ℤ (pos (xp_for_level 50)) m.xp
    then some (corrupt_save "xp out of range")
    else if not (eqb m.level (level_for_xp m.xp))
    then some (corrupt_save "level mismatch")
    else if not (validate_loadout m.move_library m.battle_loadout)
    then some (corrupt_save "invalid loadout")
    else rest

abbrev pub monster_ids : List Monster → List String
monster_ids [] = []
monster_ids (m ∷ ms) = m.id ∷ monster_ids ms

unfoldable pub party_error : List String → List String → List String → Option StoreError
party_error known seen [] = none
party_error known seen (id ∷ ids) =
    let skip = party_error known seen ids in
    let rest = party_error known (id ∷ seen) ids in
    if id == ""
    then skip
    else if contains seen id
    then some (corrupt_save "duplicate party id")
    else if contains known id
    then rest
    else some (corrupt_save "unknown party monster")

unfoldable pub first_vacant_from : ℕ → List String → Option ℕ
first_vacant_from i [] = none
first_vacant_from i (id ∷ ids) = if id == "" then some i else first_vacant_from (i + 1) ids

-- `none` is -1.
unfoldable pub first_vacant_party_slot : List String → Option ℕ
unfolding first_vacant_from
first_vacant_party_slot party = first_vacant_from 0 party

unfoldable pub remove_notices : Save → List String → Save
remove_notices save ids = record save {
  notices = filter_by (λ (n : ProgressionNotice). not (contains ids n.id)) save.notices;
}

-- What one activity pays: the base share and the bonus of those who were active.
pub data Activity : Type 0 where
  expedition lesson sparring daily_xp daily_mastery : Activity
  other_activity : String → Activity

pub data Outcome : Type 0 where
  prep_1 prep_2 target hunt_failed captured : Outcome
  other_outcome : String → Outcome

pub data SparringTier : Type 0 where
  apprentice rival master : SparringTier
  other_tier : String → SparringTier

pub record CaptureSpec : Type 0 where
  pub species : String
  pub fill_party : Bool

-- A time is a number of nanoseconds.
pub record ActivityRecord : Type 0 where
  pub kind : Activity
  pub natural_key : String
  pub trainer_id : String
  pub active_ids : List String
  pub reserve_ids : List String
  pub outcome : Outcome
  pub capture : Option CaptureSpec
  pub mastery_only : Bool
  pub daily_par_met : Bool
  pub completed_at : ℕ
  pub sparring_tier : SparringTier

abbrev outcome_xp : Outcome → ℕ × ℕ
outcome_xp Outcome.prep_1 = (40, 0)
outcome_xp Outcome.prep_2 = (40, 0)
outcome_xp Outcome.target = (65, 0)
outcome_xp Outcome.hunt_failed = (65, 0)
outcome_xp Outcome.captured = (65, 35)
outcome_xp (Outcome.other_outcome _) = (0, 0)

-- `strings.ToLower` has been applied to the tier.
abbrev tier_xp : SparringTier → ℕ × ℕ
tier_xp SparringTier.apprentice = (65, 0)
tier_xp SparringTier.rival = (90, 0)
tier_xp SparringTier.master = (130, 0)
tier_xp (SparringTier.other_tier _) = (65, 0)

unfoldable pub activity_xp : ActivityRecord → ℕ × ℕ
activity_xp rec = if rec.mastery_only then (0, 0) else elim rec.kind [
  | Activity.expedition ↦ outcome_xp rec.outcome
  | Activity.lesson ↦ (90, 0)
  | Activity.sparring ↦ tier_xp rec.sparring_tier
  | Activity.daily_xp ↦ (180, 0)
  | Activity.daily_mastery ↦ (0, 0)
  | Activity.other_activity _ ↦ (0, 0)
]

-- `newID`: the id, or the failure, and the supply after it.
pub record IdSource : Type 1 where
  pub Supply : Type 0
  pub new_id : Supply → Option String × Supply

abbrev pub write_monster : Save → ℕ → Monster → Save
write_monster save i m = record save { collection = set save.collection i m }

-- A Save that an operation leaves, with what is left of the ids and the error; `none` is nil.
pub record Rewarded (S : IdSource) : Type 0 where
  pub save : Save
  pub supply : S.Supply
  pub error : Option StoreError

module _ {M : Machine} where
  unfoldable pub mark_pending : ContentSet M → List Monster → List Monster
  mark_pending content [] = []
  mark_pending content (m ∷ ms) =
      record m { evolution_pending = evolution_pending content m.species m.level }
      ∷ mark_pending content ms

  unfoldable pub validate_save : ContentSet M → Save → Save × Option StoreError
  validate_save content save = elim (collection_error [] save.collection) [
    | some e ↦ (save, some e)
    | none ↦ elim (party_error (monster_ids save.collection) [] save.party) [
      | some e ↦ (save, some e)
      | none ↦ (record save { collection = mark_pending content save.collection }, none)
    ]
  ]

-- The experience and the level after an award.
abbrev pub grown : Monster → ℤ → Monster
grown m add = let xp = clamp_xp (m.xp +ℤ add) in record m { xp = xp; level = level_for_xp xp }

abbrev pub pending_mark : {M : Machine} → ContentSet M → Monster → Monster
pending_mark content m = record m {
  evolution_pending = evolution_pending content m.species m.level;
}

module _ {S : IdSource} where
  -- The unlocked moves join the library, with a notice.
  unfoldable pub unlock_moves :
      Save → ℕ → Monster → List String → String → S.Supply → (Monster → Monster) → Rewarded S
  unlock_moves save i m added source_key supply after =
      if eqb (length added) 0
      then record { save = write_monster save i (after m); supply = supply; error = none }
      else let learned = record m { move_library = m.move_library ++ added } in
        let (id, rest) = S.new_id supply in
        elim id [
          | none ↦ record {
            save = write_monster save i learned;
            supply = rest;
            error = some id_failed;
          }
          | some notice ↦ record {
            save = record (write_monster save i (after learned)) {
              notices =
                  save.notices
                  ++ record {
                    id = notice;
                    kind = "move_unlock";
                    monster_id = m.id;
                    source_key = source_key;
                    moves = added;
                  }
                    ∷ [];
            };
            supply = rest;
            error = none;
          }
        ]

module _ {M : Machine} {S : IdSource} where
  -- `applyXPToMonster` on the Monster at an index.
  unfoldable pub apply_xp : ContentSet M → Save → ℕ → Monster → ℤ → String → S.Supply → Rewarded S
  apply_xp content save i m add source_key supply =
      if not (ltb_ℤ (pos 0) add)
      then record { save = save; supply = supply; error = none }
      else let g = grown m add in
        if eqb g.level m.level
        then record {
          save = write_monster save i (pending_mark content g);
          supply = supply;
          error = none;
        }
        else unlock_moves save i g (unlocks_for_level content g.species g.level g.move_library)
            source_key supply (pending_mark content)

  unfoldable pub reward_monster : ContentSet M → Save → String → ℤ → String → S.Supply → Rewarded S
  reward_monster content save id xp source_key supply = elim (find_monster save id) [
    | none ↦ record { save = save; supply = supply; error = some unknown_monster }
    | some i ↦ elim (get_elem? save.collection i) [
      | none ↦ record { save = save; supply = supply; error = some unknown_monster }
      | some m ↦ apply_xp content save i m xp source_key supply
    ]
  ]

  -- A loop that pays the same to each id and stops at an error; `skip` holds the ids that are passed
  -- over.
  unfoldable pub reward_each :
      ContentSet M → List String → List String → ℤ → String → Save → S.Supply → Rewarded S
  reward_each content skip [] xp source_key save supply = record {
    save = save;
    supply = supply;
    error = none;
  }
  reward_each content skip (id ∷ ids) xp source_key save supply =
      if contains skip id
      then reward_each content skip ids xp source_key save supply
      else let r = reward_monster content save id xp source_key supply in
        elim r.error [
          | some e ↦ r
          | none ↦ reward_each content skip ids xp source_key r.save r.supply
        ]

  unfoldable pub apply_activity_rewards :
      ContentSet M → Save → ActivityRecord → String → S.Supply → Rewarded S
  apply_activity_rewards content save rec source_key supply =
      let (base, bonus) = activity_xp rec in
      let r = reward_each content [] rec.active_ids (pos (base + bonus)) source_key save supply in
      elim r.error [
        | some e ↦ r
        | none ↦
            reward_each content rec.active_ids rec.reserve_ids (pos (base * 40 / 100)) source_key
              r.save r.supply
      ]

  unfoldable pub accept_evolution : ContentSet M → Save → String → S.Supply → Rewarded S
  accept_evolution content save id supply =
      let refuse : StoreError → Rewarded S =
        λ e. record { save = save; supply = supply; error = some e } in
      elim (find_monster save id) [
        | none ↦ refuse unknown_monster
        | some i ↦ elim (get_elem? save.collection i) [
          | none ↦ refuse unknown_monster
          | some m ↦
              if not m.evolution_pending
              then refuse evolution_not_pending
              else elim (lookup m.species content.species) [
                | none ↦ refuse evolution_not_pending
                | some sp ↦ elim sp.evolves_to [
                  | none ↦ refuse evolution_not_pending
                  | some e ↦
                      unlock_moves save i m
                        (unlocks_for_level content e.species m.level m.move_library)
                        ("evolution:" +++ m.id) supply
                        (λ (n : Monster). pending_mark content (record n { species = e.species }))
                ]
              ]
        ]
      ]
