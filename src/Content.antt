-- ===== src/Content.antt =====
-- internal/content/content.go and the lookups on `Set` of internal/content/load.go. The sprite art
-- of a `Set` is not modelled. Levels and base stats are at least 1 in loaded content.
pub mod Loading
use termon.Prelude.{ℕ, String, Option, none, some, List, [], leb, filter_by, map}
use termon.Prelude.Dict.{Dict, lookup}
use termon.Machine.{Machine}

pub record Stats : Type 0 where
  pub hp : ℕ
  pub attack : ℕ
  pub defense : ℕ
  pub sp_attack : ℕ
  pub speed : ℕ

pub record MovepoolEntry : Type 0 where
  pub move : String
  pub level : ℕ

pub record Evolution : Type 0 where
  pub species : String
  pub level : ℕ

pub record Species : Type 0 where
  pub slug : String
  pub name : String
  pub kind : String
  pub base_stats : Stats
  pub movepool : List MovepoolEntry
  pub evolves_to : Option Evolution

pub record Move (M : Machine) : Type 0 where
  pub slug : String
  pub name : String
  pub order : ℕ
  pub kind : String
  pub category : String
  pub power : M.Float
  pub accuracy : M.Float

pub record TypeDef (M : Machine) : Type 0 where
  pub slug : String
  pub name : String
  pub matchup : Dict M.Float

pub record ContentSet (M : Machine) : Type 0 where
  pub species : Dict Species
  pub moves : Dict (Move M)
  pub types : Dict (TypeDef M)

abbrev or_neutral : (M : Machine) → Option M.Float → M.Float
or_neutral M none = M.literal 1 1
or_neutral M (some mult) = mult

module _ {M : Machine} where
  unfoldable pub effectiveness : ContentSet M → String → String → M.Float
  unfolding lookup
  effectiveness s attack_type defender_type = elim (lookup attack_type s.types) [
    | none ↦ M.literal 1 1
    | some t ↦ or_neutral M (lookup defender_type t.matchup)
  ]

  -- `LevelLegalMovepool` of internal/battle/policyview.go.
  unfoldable pub level_legal_movepool : ContentSet M → String → ℕ → List String
  level_legal_movepool s species level = elim (lookup species s.species) [
    | none ↦ []
    | some sp ↦
        map (λ (e : MovepoolEntry). e.move)
          (filter_by (λ (e : MovepoolEntry). leb e.level level) sp.movepool)
  ]
