-- ===== src/Capture/Generate.antt =====
-- internal/capture/generate.go: the objectives of a Target Encounter. A missing Species or Move of the
-- content reads as a blank one. Levels are at least 1.
use termon.Capture.{
  Objective, hold_the_line, measured_pressure, read_the_matchup, safe_switch, show_move_variety,
}
use termon.Capture.Encounter.{
  PartyFighter, complement, first_se_move, has_power, identity_for_family, target_hp, weak_hits,
  wild_hit, wild_level,
}
use termon.Content.{ContentSet, Move, MovepoolEntry, Species}
use termon.Machine.{Machine}
use termon.Prelude.{
  Bool, List, Option, String, [], contains, eqb, false, if◌then◌else◌, leb, length, ltb, max, none,
  not, set, some, take, true, ℕ, ◌&&◌, ◌*◌, ◌++◌, ◌+◌, ◌-◌, ◌/◌, ◌==◌, ◌>>=◌, ◌∷◌,
}
use termon.Prelude.Dict.{lookup}
use termon.Prelude.Int.{negsuc}

abbrev blank_species : Species
blank_species = record {
  slug = "";
  name = "";
  kind = "";
  base_stats = record { hp = 0; attack = 0; defense = 0; sp_attack = 0; speed = 0 };
  movepool = [];
  evolves_to = none;
}

abbrev blank_move : (M : Machine) → Move M
blank_move M = record {
  slug = "";
  name = "";
  order = 0;
  kind = "";
  category = "";
  power = M.literal 0 1;
  accuracy = M.literal 0 1;
}

abbrev or_else {ℓ} : {A : Type ℓ} → A → Option A → A
or_else d none = d
or_else d (some a) = a

-- The smallest of all weak hits; `none` is the sentinel.
unfoldable pub smallest : Option ℕ → List ℕ → Option ℕ
smallest best [] = best
smallest best (x ∷ xs) =
    smallest (elim best [ none ↦ some x | some b ↦ if ltb x b then some x else some b ]) xs

module _ {M : Machine} where
  -- The damaging Moves of a loadout, each once.
  unfoldable pub damaging : ContentSet M → List String → List String → List String
  damaging set seen [] = seen
  damaging set seen (slug ∷ slugs) =
      damaging set
        (elim (lookup slug set.moves) [
          | none ↦ seen
          | some mv ↦ if has_power mv && not (contains seen slug) then slug ∷ seen else seen
        ])
        slugs

  unfoldable pub all_varied : ContentSet M → List PartyFighter → Bool
  unfolding damaging
  all_varied set [] = true
  all_varied set (p ∷ ps) =
      let rest = all_varied set ps in
      if ltb (length (damaging set [] p.loadout)) 3 then false else rest

  unfoldable pub any_matchup : ContentSet M → Species → List PartyFighter → Bool
  unfolding first_se_move
  any_matchup set wild [] = false
  any_matchup set wild (p ∷ ps) =
      let rest = any_matchup set wild ps in
      elim (first_se_move set p.loadout wild.kind) [ some _ ↦ true | none ↦ rest ]

  unfoldable pub weakest_of : ContentSet M → Species → ℕ → Option ℕ → List PartyFighter → Option ℕ
  unfolding smallest weak_hits
  weakest_of set wild wild_lv best [] = best
  weakest_of set wild wild_lv best (p ∷ ps) =
      weakest_of set wild wild_lv
        (smallest best (
          weak_hits set (or_else blank_species (lookup p.species set.species)) p.level wild wild_lv
            (M.literal 85 100) p.loadout))
        ps

  unfoldable pub weakest_min_hit : ContentSet M → List PartyFighter → Species → ℕ → ℕ
  unfolding weakest_of
  weakest_min_hit set party wild wild_lv = or_else 1 (weakest_of set wild wild_lv none party)

  -- The best of the first four Moves by accuracy, then by power.
  unfoldable pub strike_from : ContentSet M → M.Float → Move M → List MovepoolEntry → Move M
  strike_from set score best [] = best
  strike_from set score best (e ∷ es) =
      let mv : Move M = or_else (blank_move M) (lookup e.move set.moves) in
      let s : M.Float = M.plus (M.times mv.accuracy (M.literal 1000 1)) mv.power in
      let skip = strike_from set score best es in
      let taken = strike_from set s mv es in if has_power mv && M.less score s then taken else skip

  unfoldable pub wild_strike : ContentSet M → Species → Move M
  unfolding strike_from
  wild_strike set wild = strike_from set (M.of_int (negsuc 0)) (blank_move M) (take 4 wild.movepool)

  unfoldable pub can_hold : ContentSet M → Species → ℕ → List PartyFighter → Bool
  unfolding wild_hit wild_strike
  can_hold set wild wild_lv [] = false
  can_hold set wild wild_lv (p ∷ ps) =
      let rest = can_hold set wild wild_lv ps in
      let spec : Species = or_else blank_species (lookup p.species set.species) in
      let max_hp : ℕ = max 1 (spec.base_stats.hp * (100 + 2 * (p.level - 1)) / 100) in
      if ltb (wild_hit set wild wild_lv (wild_strike set wild) spec p.level * 2) max_hp
      then true
      else rest

  unfoldable pub eligible : ContentSet M → List PartyFighter → Species → ℕ → String → Bool
  unfolding all_varied any_matchup can_hold weakest_min_hit target_hp
  eligible set party wild wild_lv id =
      if id == "show_move_variety"
      then all_varied set party
      else if id == "read_the_matchup"
      then any_matchup set wild party
      else if id == "safe_switch"
      then leb 2 (length party)
      else if id == "measured_pressure"
      then (if ltb (weakest_min_hit set party wild wild_lv) 1
          then false
          else ltb (2 * weakest_min_hit set party wild wild_lv)
              (target_hp set party wild wild_lv * 3 / 4))
      else if id == "hold_the_line"
      then can_hold set wild wild_lv party
      else false

-- The loop of `Generate` over the candidates, with the test of `eligible`.
unfoldable pub choose : (String → Bool) → List String → List String → List String
choose fits ids [] = ids
choose fits ids (id ∷ order) =
    choose fits
      (if eqb (length ids) 3
        then ids
        else if contains ids id
        then ids
        else if fits id
        then ids ++ id ∷ []
        else ids)
      order

unfoldable pub objective_by_id : String → Option Objective
objective_by_id id =
    if id == "show_move_variety"
    then some show_move_variety
    else if id == "read_the_matchup"
    then some read_the_matchup
    else if id == "safe_switch"
    then some safe_switch
    else if id == "measured_pressure"
    then some measured_pressure
    else if id == "hold_the_line"
    then some hold_the_line
    else none

-- `ObjectivesFromIDs`, and the last loop of `Generate`; `none` is an error.
unfoldable pub objectives_from_ids : List String → Option (List Objective)
unfolding objective_by_id
objectives_from_ids [] = some []
objectives_from_ids (id ∷ ids) =
    objective_by_id id >>= λ o. objectives_from_ids ids >>= λ os. some (o ∷ os)

unfoldable pub candidates : String → List String
unfolding identity_for_family complement
candidates family =
    identity_for_family family
    ∷ "read_the_matchup"
    ∷ "safe_switch"
    ∷ complement (identity_for_family family)
    ∷ []

unfoldable pub generate :
    {M : Machine} → ContentSet M → List PartyFighter → String → Option (List Objective)
unfolding candidates choose objectives_from_ids wild_level eligible
generate set party wild_family = elim (lookup wild_family set.species) [
  | none ↦ none
  | some wild ↦
      let ids : List String =
        choose (eligible set party wild (wild_level party)) ("show_move_variety" ∷ [])
          (candidates wild_family) in
      if not (eqb (length ids) 3) then none else objectives_from_ids ids
]
