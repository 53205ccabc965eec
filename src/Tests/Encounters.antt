-- ===== src/Tests/Encounters.antt =====
-- The theorems on internal/capture/pve.go, generate.go and internal/game/queue.go at small inputs.
use termon.Prelude.Int.{◌+ℤ◌}
use termon.Capture.{
  Objective, after_turns, is_full, measured_pressure, new_session, safe_switch, show_move_variety,
}
use termon.Capture.Awards.{ThreeAwards, all_complete, generate-is_full}
use termon.Capture.Encounter.{PartyFighter}
use termon.Capture.Generate.{generate}
use termon.Game.Budget.{queue_stats-total}
use termon.Game.QueueStats.{queue_stats, sum}
use termon.Prelude.{All, List, [], length, refl, some, ℕ, ◌∷◌, ◌≡◌, ◌≤◌}
use termon.Prelude.Dict.{lookup}
use termon.Tests.Fixtures.{chippunk, content, machine}

abbrev fighter : PartyFighter
fighter = record { species = "chippunk"; level = 20; loadout = "tackle" ∷ "blast" ∷ [] }

abbrev three_objectives : List Objective
three_objectives = show_move_variety ∷ measured_pressure ∷ safe_switch ∷ []

generated : generate content (fighter ∷ fighter ∷ []) "chippunk" ≡ some three_objectives
unfolding generate lookup ◌+ℤ◌
generated = refl

generate-is_full_example :
    ThreeAwards three_objectives
    × (is_full (after_turns (new_session three_objectives) [])
        ≡ all_complete (after_turns (new_session three_objectives) []).completed three_objectives)
generate-is_full_example =
    generate-is_full content (fighter ∷ fighter ∷ []) "chippunk" three_objectives [] generated

queue_stats-total_example :
    (out : List ℕ) × (queue_stats machine chippunk ≡ some out)
    × (length out ≡ 5)
    × All (λ v. 1 ≤ v) out
    × (sum out ≡ 320)
queue_stats-total_example = queue_stats-total machine chippunk
