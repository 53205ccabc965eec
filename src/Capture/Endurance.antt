-- ===== src/Capture/Endurance.antt =====
-- `TargetHP` of internal/capture/pve.go against the hits of the party.
use termon.Capture.Encounter.{PartyFighter, largest, line_of, sort, weak_hits}
use termon.Prelude.{Option, none, some, ℕ, ◌<◌}
use termon.Content.{ContentSet, Species}
use termon.Machine.{Machine}
use termon.Prelude.Dict.{lookup}

module _ {M : Machine} (content : ContentSet M) (wild : Species) (level : ℕ) where
  -- What one fighter can do at most: its strongest raw hit and its line of weak ones.
  abbrev pub best_hit : PartyFighter → Species → ℕ
  best_hit p spec = largest (weak_hits content spec p.level wild level (M.literal 1 1) p.loadout)

  abbrev pub best_line : PartyFighter → Species → ℕ
  best_line p spec =
      line_of content p spec wild level
        (sort (weak_hits content spec p.level wild level (M.literal 85 100) p.loadout))

  -- A number that is above both, if the Species is known.
  abbrev pub AboveBoth : ℕ → PartyFighter → Option Species → Type 0
  AboveBoth n p none = Unit
  AboveBoth n p (some spec) = (best_hit p spec < n) × (best_line p spec < n)

  abbrev pub Above : ℕ → PartyFighter → Type 0
  Above n p = AboveBoth n p (lookup p.species content.species)
