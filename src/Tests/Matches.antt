-- ===== src/Tests/Matches.antt =====
-- The theorems on the registry of matches of internal/server/hub_match.go at two Trainers that meet in the
-- Queue and whose first save fails, while a third one spars.
use termon.Prelude.{none, IsDistinct, String, contains, some, List, [], refl, true, ◌∷◌, ◌≡◌}
use termon.Queue.{join, pair, pair_front}
use termon.Prelude.Dict.{delete, lookup, insert}
use termon.Server.Matches.{
  Hub, enters, find_battle, finds, saves, starts_solo, Section, finishes, starts, fails, new_hub,
  run_sections,
}
use termon.Server.Matches.Flights.{is_committing, run_sections-IsDistinct}
use termon.Prelude.Int.{pos}
use termon.Server.Matches.Index.{is_seated}
use termon.Server.Matches.Sections.{IsFresh, IsNew, run_sections-is_seated}

abbrev one_failure : List Section
one_failure =
    enters "ann"
    ∷ enters "bob"
    ∷ finds "ann" true (pos 0)
    ∷ finds "bob" true (pos 1)
    ∷ starts "ann" "bob" "m1"
    ∷ starts_solo "cho" "m2"
    ∷ finishes "m1" (pos 2)
    ∷ finishes "m2" (pos 3)
    ∷ fails "m1" (pos 4)
    ∷ saves "m2"
    ∷ []

-- The Queue pairs the two when the second of them joins.
abbrev both_entered : Hub
both_entered = run_sections new_hub (enters "ann" ∷ enters "bob" ∷ finds "ann" true (pos 0) ∷ [])

paired : (find_battle both_entered "bob" true (pos 1)).1 ≡ some ("ann", "bob")
unfolding run_sections find_battle lookup insert join pair pair_front
paired = refl

one_failure-IsFresh : IsFresh new_hub one_failure
unfolding IsFresh IsNew run_sections lookup insert join pair pair_front
one_failure-IsFresh = (tt, (tt, (tt, (tt, (refl, (refl, (tt, (tt, (tt, (tt, tt))))))))))

run_sections-is_seated_example :
    is_seated
      (run_sections new_hub one_failure).index
      (lookup "m1" (run_sections new_hub one_failure).objects)
      "ann"
      "m1"
    ≡ true
unfolding run_sections lookup insert join pair pair_front delete
run_sections-is_seated_example =
    run_sections-is_seated one_failure one_failure-IsFresh "ann" "m1" refl

run_sections-IsDistinct_example :
    IsDistinct (run_sections new_hub one_failure).in_flight
    × ((id : String)
        → contains (run_sections new_hub one_failure).in_flight id
          ≡ is_committing (lookup id (run_sections new_hub one_failure).objects))
run_sections-IsDistinct_example = run_sections-IsDistinct one_failure one_failure-IsFresh

-- Sparring has ended.
spar_ended : lookup "cho" (run_sections new_hub one_failure).index ≡ none
unfolding run_sections lookup insert join pair pair_front delete
spar_ended = refl

-- The failed save leaves the match in its place, to be tried again.
still_there : lookup "bob" (run_sections new_hub one_failure).index ≡ some "m1"
unfolding run_sections lookup insert join pair pair_front delete
still_there = refl

abbrev two_finishes : List Section
two_finishes = starts "ann" "bob" "m1" ∷ finishes "m1" (pos 0) ∷ finishes "m1" (pos 1) ∷ []

-- A second finish while a save is under way is refused.
one_at_a_time : (run_sections new_hub two_finishes).in_flight ≡ "m1" ∷ []
unfolding run_sections lookup insert
one_at_a_time = refl
