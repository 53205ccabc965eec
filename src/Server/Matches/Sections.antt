-- ===== src/Server/Matches/Sections.antt =====
-- Every sequence of locked sections of internal/server/hub_match.go keeps the index of the registry in order.
use termon.Server.Matches.Landing.{
  HubPaired, find_battle-paired, finish_match-paired, land_failed-paired, land_saved-paired,
  landed-paired, start_match-paired, start_solo-paired,
}
use termon.Server.Matches.{
  enter_lobby, enters, forget_seat, forgets, land_failed, land_saved, starts_solo, new_hub,
  cancel_queue, cancels, fails, finds, finishes, run_sections, same_id, saves, set_presence, Hub,
  Section, run_section, starts,
}
use termon.Server.Matches.Index.{is_seated, has_name}
use termon.Prelude.{arith, refl, true, List, String, [], none, ◌∷◌, ◌≡◌}
use termon.Prelude.Dict.{lookup}

-- Every match starts under an id that no match has had.
unfoldable pub IsNew : Hub → Section → Type 0
IsNew h (starts a b id) = lookup id h.objects ≡ none
IsNew h (starts_solo hash id) = lookup id h.objects ≡ none
IsNew h other = Unit

unfoldable pub IsFresh : Hub → List Section → Type 0
IsFresh h [] = Unit
IsFresh h (s ∷ rest) = IsNew h s × IsFresh (run_section h s) rest

run_section-paired : (h : Hub) (s : Section) → IsNew h s → HubPaired h → HubPaired (run_section h s)
unfolding run_section IsNew cancel_queue enter_lobby forget_seat set_presence
run_section-paired h (finds hash ready now) new k = find_battle-paired h hash ready now k
run_section-paired h (cancels hash) new k = k
run_section-paired h (starts a b id) new k = start_match-paired h a b id new k
run_section-paired h (starts_solo hash id) new k = start_solo-paired h hash id new k
run_section-paired h (enters hash) new k = k
run_section-paired h (forgets hash) new k = k
run_section-paired h (finishes id now) new k = finish_match-paired h id now k
run_section-paired h (saves id) new k =
    landed-paired h id (λ g m. land_saved g id m) (λ g m. land_saved-paired g id m) k
run_section-paired h (fails id now) new k =
    landed-paired h id (λ g m. land_failed g id m now)
      (λ g m there own. land_failed-paired g id m now there own) k

run_sections-paired :
    (h : Hub) (sections : List Section)
    → IsFresh h sections
    → HubPaired h
    → HubPaired (run_sections h sections)
unfolding run_sections IsFresh
run_sections-paired h [] new k = k
run_sections-paired h (s ∷ rest) new k =
    run_sections-paired (run_section h s) rest new.1 (run_section-paired h s new.0 k)

new_hub-paired : HubPaired new_hub
unfolding has_name same_id lookup
new_hub-paired = (
  record { named = λ j. refl; seated = λ k j there. absurd (ground (arith, there)) },
  λ id flies. absurd (ground (arith, flies)),
)

-- A new hub runs any sequence of locked sections: Trainers enter and leave the Dojos, join and leave the
-- Queue, start PvP matches, daily challenges and sparring, and finish them, and saves land or fail, in any
-- order. Lessons and expeditions are not among them. If every match starts under an id that no match has,
-- then afterwards a Trainer's entry in the registry leads to a match of that Trainer, and if that is a PvP
-- match, both of its Trainers have the same entry: it is registered under both or under neither.
pub run_sections-is_seated :
    (sections : List Section)
    → IsFresh new_hub sections
    → (trainer id : String)
    → same_id (lookup trainer (run_sections new_hub sections).index) id ≡ true
    → is_seated
        (run_sections new_hub sections).index
        (lookup id (run_sections new_hub sections).objects)
        trainer
        id
      ≡ true
run_sections-is_seated sections new trainer id sits =
    (run_sections-paired new_hub sections new new_hub-paired).0.seated trainer id sits
