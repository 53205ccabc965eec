-- ===== src/Capture/Encounter.antt =====
-- internal/capture/pve.go: the level and the HP of a Target Encounter. `slices.Sort` is insertion by
-- order. Levels are at least 1.
use termon.Battle.Damage.{damage_base}
use termon.Content.{ContentSet, Move, Species, effectiveness}
use termon.Game.Power.{move_power}
use termon.Game.Xp.{natural_stat}
use termon.Machine.{Machine}
use termon.Prelude.{
  Bool, List, Option, String, [], contains, if◌then◌else◌, leb, length, ltb, max, min, none, set,
  some, suc, zero, ℕ, ◌*◌, ◌+◌, ◌-◌, ◌/◌, ◌==◌, ◌∷◌,
}
use termon.Prelude.Dict.{lookup}
use termon.Prelude.Int.{pos_part}

pub record PartyFighter : Type 0 where
  pub species : String
  pub level : ℕ
  pub loadout : List String

unfoldable pub max_level : ℕ → List PartyFighter → ℕ
max_level level [] = level
max_level level (p ∷ ps) = max_level (if ltb level p.level then p.level else level) ps

unfoldable pub wild_level : List PartyFighter → ℕ
unfolding max_level
wild_level party = min 50 (max 1 (max_level 1 party))

-- Below one HP the source divides a negative number towards 0.
unfoldable pub clamp_wild_damage : ℕ → ℕ → ℕ
clamp_wild_damage defender_max_hp dealt = min dealt (max 1 ((defender_max_hp - 1) / 5))

unfoldable pub insert_sorted : ℕ → List ℕ → List ℕ
insert_sorted v [] = v ∷ []
insert_sorted v (x ∷ xs) = if leb v x then v ∷ x ∷ xs else x ∷ insert_sorted v xs

unfoldable pub sort : List ℕ → List ℕ
unfolding insert_sorted
sort [] = []
sort (x ∷ xs) = insert_sorted x (sort xs)

unfoldable pub sum_first : ℕ → List ℕ → ℕ
sum_first zero xs = 0
sum_first (suc n) [] = 0
sum_first (suc n) (x ∷ xs) = x + sum_first n xs

-- The objective ids that stand for a Family, and the other one.
abbrev pub holders : List String
holders =
    "rootkit" ∷ "thornpatch" ∷ "mossmuff" ∷ "taproot" ∷ "cindernode" ∷ "flowcell" ∷ "splashlotl"
    ∷ "ampcoil" ∷ "surgetail" ∷ "bloatware" ∷ "wormate" ∷ "servoboar" ∷ []

unfoldable pub identity_for_family : String → String
identity_for_family family =
    if contains holders family then "hold_the_line" else "measured_pressure"

unfoldable pub complement : String → String
complement id = if id == "measured_pressure" then "hold_the_line" else "measured_pressure"

abbrev pub largest : List ℕ → ℕ
largest [] = 0
largest (x ∷ xs) = max x (largest xs)

module _ {M : Machine} where
  abbrev pub has_power : Move M → Bool
  has_power mv = M.less (M.literal 0 1) mv.power

  unfoldable pub raw_hit : ContentSet M → Species → ℕ → Move M → Species → ℕ → M.Float → ℕ
  unfolding natural_stat damage_base move_power effectiveness
  raw_hit set atk_spec atk_level move def_spec def_level variance =
      let a : ℕ =
        natural_stat
          (if move.category == "special"
            then atk_spec.base_stats.sp_attack
            else atk_spec.base_stats.attack)
          atk_level in
      let d : ℕ = natural_stat def_spec.base_stats.defense def_level in
      let dmg : M.Float =
        damage_base M (move_power M move.power atk_level) a d move.kind atk_spec.kind
          (effectiveness set move.kind def_spec.kind) in
      max 1 (pos_part (M.to_int (M.times dmg variance)))

  unfoldable pub wild_hit : ContentSet M → Species → ℕ → Move M → Species → ℕ → ℕ
  unfolding raw_hit clamp_wild_damage
  wild_hit set wild_spec level move def_spec def_level =
      clamp_wild_damage (natural_stat def_spec.base_stats.hp def_level)
        (raw_hit set wild_spec level move def_spec def_level (M.literal 1 1))

  unfoldable pub first_se_move : ContentSet M → List String → String → Option (Move M)
  unfolding effectiveness
  first_se_move set [] wild_kind = none
  first_se_move set (slug ∷ slugs) wild_kind =
      let rest = first_se_move set slugs wild_kind in
      elim (lookup slug set.moves) [
        | none ↦ rest
        | some mv ↦
            if M.at_least (effectiveness set mv.kind wild_kind) (M.literal 15 10)
            then some mv
            else rest
      ]

  -- The weakest hit of each damaging Move of a loadout, in order, and the strongest hit.
  unfoldable pub weak_hits :
      ContentSet M → Species → ℕ → Species → ℕ → M.Float → List String → List ℕ
  unfolding raw_hit
  weak_hits set spec level wild wild_lv variance [] = []
  weak_hits set spec level wild wild_lv variance (slug ∷ slugs) =
      let rest = weak_hits set spec level wild wild_lv variance slugs in
      elim (lookup slug set.moves) [
        | none ↦ rest
        | some mv ↦
            if has_power mv then raw_hit set spec level mv wild wild_lv variance ∷ rest else rest
      ]

  -- What three turns of a fighter's weakest Moves deal, with its super-effective one if it has one.
  unfoldable pub line_of : ContentSet M → PartyFighter → Species → Species → ℕ → List ℕ → ℕ
  unfolding first_se_move sum_first
  line_of set p spec wild wild_lv mins = elim (first_se_move set p.loadout wild.kind) [
    | none ↦ sum_first 3 mins
    | some se ↦
        if leb 3 (length mins)
        then sum_first 2 mins + raw_hit set spec p.level se wild wild_lv (M.literal 85 100)
        else sum_first 3 mins
  ]

  -- One round of the loop of `TargetHP`: the strongest hit of all, and the lower bound of the HP.
  unfoldable pub band_after :
      ContentSet M → Species → ℕ → ℕ × ℕ → PartyFighter → Option Species → ℕ × ℕ
  unfolding weak_hits line_of sort
  band_after set wild wild_lv band p none = band
  band_after set wild wild_lv band p (some spec) =
      let mins : List ℕ =
        sort (weak_hits set spec p.level wild wild_lv (M.literal 85 100) p.loadout) in
      let mx : ℕ =
        max 1 (largest (weak_hits set spec p.level wild wild_lv (M.literal 1 1) p.loadout)) in
      (max band.0 mx, max band.1 (max (mx + 1) (line_of set p spec wild wild_lv mins + 1)))

  unfoldable pub hp_band : ContentSet M → Species → ℕ → ℕ × ℕ → List PartyFighter → ℕ × ℕ
  unfolding band_after
  hp_band set wild wild_lv band [] = band
  hp_band set wild wild_lv band (p ∷ ps) =
      hp_band set wild wild_lv (band_after set wild wild_lv band p (lookup p.species set.species))
        ps

  unfoldable pub target_hp : ContentSet M → List PartyFighter → Species → ℕ → ℕ
  unfolding hp_band
  target_hp set party wild wild_lv =
      let (global_max, low) = hp_band set wild wild_lv (0, 1) party in
      min (max low (8 * global_max)) (low + global_max)
