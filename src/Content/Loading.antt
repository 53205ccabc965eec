-- ===== src/Content/Loading.antt =====
-- `loadSpecies` of internal/content/load.go on decoded files, a slug and a Species each. The moves and
-- the types are loaded before. `false` is an error, and `none` is one that ends the load.
use termon.Content.{ContentSet, Move, MovepoolEntry, Species, TypeDef}
use termon.Machine.{Machine}
use termon.Prelude.{
  Bool, Bool-cases, List, Option, String, [], ap, arith, contains, false, if◌then◌else◌, inl, inr,
  length, ltb, none, not, set, some, subst, sym, true, ◌==◌, ◌||◌, ◌∷◌, ◌≡◌, ◌≤◌,
}
use termon.Prelude.Dict.{Dict, Each, Each-insert, insert, lookup}

module _ {M : Machine} where
  unfoldable pub movepool_passes : Dict (Move M) → String → List String → List MovepoolEntry → Bool
  movepool_passes moves kind seen [] = true
  movepool_passes moves kind seen (e ∷ es) =
      let rest = movepool_passes moves kind (e.move ∷ seen) es in
      if contains seen e.move then false else elim (lookup e.move moves) [
        | none ↦ false
        | some m ↦ if not (m.kind == kind) then false else rest
      ]

  unfoldable pub species_passes : Dict (TypeDef M) → Dict (Move M) → String → Species → Bool
  unfolding movepool_passes
  species_passes types moves slug s =
      let bs = s.base_stats in
      if not (s.slug == slug) then false else elim (lookup s.kind types) [
        | none ↦ false
        | some _ ↦
            if ltb bs.hp 1
              || (ltb bs.attack 1 || (ltb bs.defense 1 || (ltb bs.sp_attack 1 || ltb bs.speed 1)))
            then false
            else if ltb (length s.movepool) 4
            then false
            else movepool_passes moves s.kind [] s.movepool
      ]

  unfoldable pub load_species : ContentSet M → List (String × Species) → Option (ContentSet M)
  unfolding species_passes
  load_species set [] = some set
  load_species set ((slug, s) ∷ files) =
      if species_passes set.types set.moves slug s
      then load_species (record set { species = insert slug s set.species }) files
      else none

  -- What the movepool of a loaded Species is known for.
  abbrev pub Learns : Dict (Move M) → Species → Type 0
  Learns moves s = (4 ≤ length s.movepool) × (movepool_passes moves s.kind [] s.movepool ≡ true)

  species_passes-Learns :
      (types : Dict (TypeDef M)) (moves : Dict (Move M)) (slug : String) (s : Species)
      → species_passes types moves slug s ≡ true
      → Learns moves s
  unfolding species_passes
  species_passes-Learns types moves slug s h = ground arith

  pub load_species-Learns :
      (set : ContentSet M) (files : List (String × Species)) (loaded : ContentSet M)
      → Each (Learns set.moves) set.species
      → load_species set files ≡ some loaded
      → Each (Learns loaded.moves) loaded.species × (loaded.moves ≡ set.moves)
  unfolding load_species
  load_species-Learns set [] loaded h e =
      let same : set ≡ loaded = ground arith in
      (
        subst (λ (c : ContentSet M). Each (Learns c.moves) c.species) same h,
        ap (λ (c : ContentSet M). c.moves) (sym same),
      )
  load_species-Learns set ((slug, s) ∷ files) loaded h e =
      elim (Bool-cases (species_passes set.types set.moves slug s)) [
        | inr bad ↦ absurd (ground (arith, bad))
        | inl good ↦
            load_species-Learns (record set { species = insert slug s set.species }) files loaded
              (Each-insert (Learns set.moves) slug s set.species h
                (species_passes-Learns set.types set.moves slug s good))
              (ground (arith, good))
      ]
