-- ===== src/Store/Moves.antt =====
-- The move lists of a Monster in internal/store/saveops.go: what a level unlocks, what content still
-- knows, and what a loadout may hold.
use termon.Prelude.{
  ℕ, String, Bool, true, false, ◌&&◌, ◌||◌, not, Option, none, some, List, [], ◌∷◌, ◌++◌, map, leb,
  ltb, eqb, length, take, contains, ◌==◌, if◌then◌else◌,
}
use termon.Prelude.Dict.{lookup}
use termon.Machine.{Machine}
use termon.Content.{ContentSet, Species, MovepoolEntry}
use termon.Store.{Monster, Save}

-- The moves of a movepool that the level unlocks, past the known ones. `known` grows on the way.
unfoldable pub unlocks : ℕ → List String → List MovepoolEntry → List String
unlocks level known [] = []
unlocks level known (e ∷ es) =
    let skipped = unlocks level known es in
    let taken = unlocks level (e.move ∷ known) es in
    if leb e.level level && not (contains known e.move) then e.move ∷ taken else skipped

-- The slugs that are legal, each once, and whether any was dropped.
unfoldable pub keep : List String → List String → List String → List String × Bool
keep legal seen [] = ([], false)
keep legal seen (slug ∷ slugs) =
    let kept = keep legal (slug ∷ seen) slugs in
    let rest = keep legal seen slugs in
    if contains legal slug && not (contains seen slug)
    then (slug ∷ kept.0, kept.1)
    else (rest.0, true)

unfoldable pub keep_known_moves : List String → List String → List String × Bool
unfolding keep
keep_known_moves slugs legal = keep legal [] slugs

-- The loop of `fillLoadout` over the library.
unfoldable pub fill : List String → List String → List String
fill out [] = out
fill out (slug ∷ library) =
    fill (if eqb (length out) 4 then out else if contains out slug then out else out ++ slug ∷ [])
      library

unfoldable pub fill_loadout : List String → List String → List String
unfolding fill
fill_loadout load library = fill load library

-- The loop of `validateLoadout`; `true` is no error.
unfoldable pub is_loadout : List String → List String → List String → Bool
is_loadout library seen [] = true
is_loadout library seen (slug ∷ slugs) =
    let rest = is_loadout library (slug ∷ seen) slugs in
    if slug == ""
    then false
    else if contains seen slug
    then false
    else if contains library slug
    then rest
    else false

-- `validateLoadout` returns nil.
unfoldable pub validate_loadout : List String → List String → Bool
unfolding is_loadout
validate_loadout library loadout =
    if ltb (length loadout) 1 || ltb 4 (length loadout)
    then false
    else is_loadout library [] loadout

unfoldable pub first_four_movepool : Species → Option (List String)
first_four_movepool spec =
    if ltb (length spec.movepool) 4
    then none
    else some (map (λ (e : MovepoolEntry). e.move) (take 4 spec.movepool))

module _ {M : Machine} where
  unfoldable pub unlocks_for_level : ContentSet M → String → ℕ → List String → List String
  unlocks_for_level set species level library = elim (lookup species set.species) [
    | none ↦ []
    | some sp ↦ unlocks level library sp.movepool
  ]

  unfoldable pub evolution_pending : ContentSet M → String → ℕ → Bool
  evolution_pending set species level = elim (lookup species set.species) [
    | none ↦ false
    | some sp ↦ elim sp.evolves_to [ none ↦ false | some e ↦ leb e.level level ]
  ]

  -- The keys of `legal`: the movepool's moves that are in the content.
  unfoldable pub legal_moves : ContentSet M → List MovepoolEntry → List String
  legal_moves set [] = []
  legal_moves set (e ∷ es) = elim (lookup e.move set.moves) [
    | none ↦ legal_moves set es
    | some _ ↦ e.move ∷ legal_moves set es
  ]

  -- What `sanitizeMonsterMoves` does once the library is known not to be empty.
  unfoldable pub settle_moves :
      ContentSet M → Monster → List String × Bool → List String × Bool → Monster × Bool
  settle_moves set m lib load =
      let added = unlocks_for_level set m.species m.level lib.0 in
      let library = lib.0 ++ added in
      let lib_changed = lib.1 || ltb 0 (length added) in
      let refill = eqb (length load.0) 0 || (load.1 && ltb (length load.0) 4) in
      let loadout = if refill then fill_loadout load.0 library else load.0 in
      if not lib_changed && not (load.1 || refill)
      then (m, false)
      else (record m { move_library = library; battle_loadout = loadout }, true)

  unfoldable pub sanitize_monster_moves : ContentSet M → Monster → Monster × Bool
  sanitize_monster_moves set m = elim (lookup m.species set.species) [
    | none ↦ (m, false)
    | some sp ↦
        let legal = legal_moves set sp.movepool in
        let lib = keep_known_moves m.move_library legal in
        let load = keep_known_moves m.battle_loadout legal in
        if eqb (length lib.0) 0
        then elim (first_four_movepool sp) [
          | none ↦ (m, false)
          | some minted ↦ settle_moves set m (minted, true) load
        ]
        else settle_moves set m lib load
  ]

  unfoldable pub sanitize_all : ContentSet M → List Monster → List Monster × Bool
  sanitize_all set [] = ([], false)
  sanitize_all set (m ∷ ms) =
      let (m1, changed) = sanitize_monster_moves set m in
      let (ms1, more) = sanitize_all set ms in (m1 ∷ ms1, changed || more)

  unfoldable pub sanitize_save_moves : ContentSet M → Save → Save × Bool
  unfolding sanitize_all
  sanitize_save_moves set save =
      let (collection, changed) = sanitize_all set save.collection in
      (record save { collection = collection }, changed)
