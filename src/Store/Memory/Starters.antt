-- ===== src/Store/Memory/Starters.antt =====
-- The first Save of a Trainer: the starter that `mintStarterMonster` of internal/store/saveops.go makes
-- from loaded content.
use termon.Game.Xp.{level_for_xp, xp_for_level}
use termon.Prelude.{
  contains_self, length, subst, ◌≤◌, All, Bool-cases, List, Option-cases, String, [], ap, arith,
  contains, eq_iff, false, inl, inr, map, none, refl, some, suc, take, true, zero, ℕ, ◌==◌, ◌∷◌,
  ◌≡◌,
}
use termon.Prelude.Dict.{Each-lookup, Dict, Each, lookup}
use termon.Prelude.Int.{pos}
use termon.Store.Growth.{Fine, collection_error-cons}
use termon.Store.Moves.{evolution_pending, first_four_movepool, is_loadout, validate_loadout}
use termon.Content.{ContentSet, Move, MovepoolEntry, Species}
use termon.Content.Loading.{Learns, movepool_passes}
use termon.Machine.{Machine}
use termon.Store.{Monster}
use termon.Store.Mint.{done, monster_for_species}
use termon.Store.Rewards.{collection_error}

length-map-take :
    (n : ℕ) (es : List MovepoolEntry)
    → n ≤ length es
    → length (map (λ (e : MovepoolEntry). e.move) (take n es)) ≡ n
length-map-take zero es h = refl
length-map-take (suc n) [] h = absurd (ground (arith, h))
length-map-take (suc n) (e ∷ es) h = ap suc (length-map-take n es (omega arith))

starter-Fine :
    (m : Monster)
    → m.xp ≡ pos 0
    → m.level ≡ 1
    → validate_loadout m.move_library m.battle_loadout ≡ true
    → Fine m
unfolding xp_for_level level_for_xp termon.Game.Xp.level_from
starter-Fine m x l v = (rw x refl, rw (x, l) refl, v)

module _ {M : Machine} where
  is_loadout-take :
      (moves : Dict (Move M)) (kind : String) (library seen : List String) (n : ℕ)
      (es : List MovepoolEntry)
      → lookup "" moves ≡ none
      → movepool_passes moves kind seen es ≡ true
      → All (λ x. contains library x ≡ true) (map (λ (e : MovepoolEntry). e.move) (take n es))
      → is_loadout library seen (map (λ (e : MovepoolEntry). e.move) (take n es)) ≡ true
  unfolding is_loadout movepool_passes
  is_loadout-take moves kind library seen zero es named h k = refl
  is_loadout-take moves kind library seen (suc n) [] named h k = refl
  is_loadout-take moves kind library seen (suc n) (e ∷ es) named h k =
      elim (Bool-cases (contains seen e.move)) [
        | inl twice ↦ absurd (ground (arith, twice))
        | inr new ↦ elim (Option-cases (lookup e.move moves)) [
          | inl gone ↦ absurd (ground (arith, new, gone))
          | inr (m, found) ↦
              let rest =
                is_loadout-take moves kind library (e.move ∷ seen) n es named
                  (ground (arith, new, found)) k.1 in
              elim (Bool-cases (e.move == "")) [
                | inr full ↦ rw (full, new, k.0, rest) refl
                | inl empty ↦
                    let blank : e.move ≡ "" = (eq_iff e.move "").0 empty in
                    absurd (let clash = ap (λ x. lookup x moves) blank in ground (arith, clash))
              ]
        ]
      ]

  first_four-IsLoadout :
      (moves : Dict (Move M)) (s : Species) (four : List String)
      → lookup "" moves ≡ none
      → Learns moves s
      → first_four_movepool s ≡ some four
      → validate_loadout four four ≡ true
  unfolding first_four_movepool validate_loadout
  first_four-IsLoadout moves s four named h e =
      let names = map (λ (x : MovepoolEntry). x.move) (take 4 s.movepool) in
      let size : length names ≡ 4 = length-map-take 4 s.movepool h.0 in
      let same : names ≡ four = ground (arith, h.0, e) in
      let loaded : is_loadout names [] names ≡ true =
        is_loadout-take moves s.kind names [] 4 s.movepool named h.1 (contains_self names) in
      subst (λ x. validate_loadout x x ≡ true) same (ground (arith, size, loaded))

  pub monster_for_species-IsSound :
      (content : ContentSet M) (species id : String) (m : Monster)
      → lookup "" content.moves ≡ none
      → Each (Learns content.moves) content.species
      → (id == "") ≡ false
      → monster_for_species content species id ≡ done m
      → (collection_error [] (m ∷ []) ≡ none) × (m.id ≡ id)
  unfolding monster_for_species
  monster_for_species-IsSound content species id m named loaded fresh e =
      elim (Option-cases (lookup species content.species)) [
        | inl gone ↦ absurd (ground (arith, gone))
        | inr (sp, found) ↦ elim (Option-cases (first_four_movepool sp)) [
          | inl short ↦ absurd (ground (arith, found, short))
          | inr (four, named_four) ↦
              let legal =
                first_four-IsLoadout content.moves sp four named
                  (Each-lookup (Learns content.moves) species sp content.species loaded found)
                  named_four in
              let starter : Monster = record {
                id = id;
                species = species;
                nickname = "";
                xp = pos 0;
                level = 1;
                move_library = four;
                battle_loadout = four;
                evolution_pending = evolution_pending content species 1;
              } in
              let minted : starter ≡ m = ground (arith, found, named_four) in
              subst (λ (x : Monster). (collection_error [] (x ∷ []) ≡ none) × (x.id ≡ id)) minted
                (
                  collection_error-cons [] starter [] fresh refl
                      (starter-Fine starter refl refl legal) (unfold collection_error in refl),
                  refl,
                )
        ]
      ]
