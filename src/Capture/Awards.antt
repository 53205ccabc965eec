-- ===== src/Capture/Awards.antt =====
-- The objectives that `Generate` of internal/capture/generate.go gives and the gauge they fill.
use termon.Capture.{
  TurnInput, after_turn, after_turns, new_session, Session, hold_the_line, is_full,
  measured_pressure, read_the_matchup, safe_switch, show_move_variety, Objective, is_complete,
}
use termon.Capture.Progress.{
  Evaluated-Earned, after_turn-Evaluated, after_turns-Earned_new, Earned, earned, objective_ids,
}
use termon.Prelude.{
  ap, ◌∙◌, All, ◌<◌, Option-cases, arith, leb, min, subst, Bool-cases, contains, inl, inr, refl,
  set, IsDistinct, String, eqb, false, get_elem?, length, some, ◌≡◌, ◌⊎◌, Bool, List, [], true, ℕ,
  ◌&&◌, ◌+◌, ◌∷◌,
}
use termon.Capture.Encounter.{holders, wild_level, PartyFighter, complement, identity_for_family}
use termon.Capture.Generate.{eligible, candidates, generate, choose, objectives_from_ids}
use termon.Prelude.Dict.{lookup, Dict}
use termon.Content.{ContentSet}
use termon.Machine.{Machine}

abbrev awards : List Objective → ℕ
awards [] = 0
awards (o ∷ os) = o.award + awards os

-- Every objective of a list is complete.
abbrev pub all_complete : Dict Bool → List Objective → Bool
all_complete completed [] = true
all_complete completed (o ∷ os) = is_complete completed o.id && all_complete completed os

-- Three objectives of 100 points, each once, with the variety of Moves first.
abbrev pub ThreeAwards : List Objective → Type 0
ThreeAwards os =
    (length os ≡ 3)
    × IsDistinct (objective_ids os)
    × (awards os ≡ 100)
    × All (λ o. 0 < o.award) os
    × (get_elem? os 0 ≡ some show_move_variety)

-- What ids lead to such objectives.
abbrev Leads : List String → Type 0
Leads ids = (os : List Objective) × (objectives_from_ids ids ≡ some os) × ThreeAwards os

-- Too few ids, or three that lead to such objectives.
abbrev Chosen : List String → Type 0
Chosen ids = (eqb (length ids) 3 ≡ false) ⊎ Leads ids

leads :
    (o p : Objective)
    → objectives_from_ids (show_move_variety.id ∷ o.id ∷ p.id ∷ [])
      ≡ some (show_move_variety ∷ o ∷ p ∷ [])
    → IsDistinct (show_move_variety.id ∷ o.id ∷ p.id ∷ [])
    → 30 + (o.award + (p.award + 0)) ≡ 100
    → 0 < o.award
    → 0 < p.award
    → Chosen (show_move_variety.id ∷ o.id ∷ p.id ∷ [])
leads o p e distinct sum one two = inr (
  show_move_variety ∷ o ∷ p ∷ [],
  e,
  (refl, distinct, sum, (omega arith, (one, (two, tt))), refl),
)

-- The choice among the candidates of each identity, by the results of the tests that are asked.
choose_pressure :
    (fits : String → Bool)
    → Chosen (
        choose fits
          ("show_move_variety" ∷ [])
          (measured_pressure.id ∷ "read_the_matchup" ∷ "safe_switch" ∷ hold_the_line.id ∷ []))
unfolding choose objectives_from_ids
choose_pressure fits = elim (Bool-cases (fits measured_pressure.id)) [
  | inl in_a ↦ elim (Bool-cases (fits read_the_matchup.id)) [
    | inl in_b ↦
        rw (in_a, in_b)
          (leads measured_pressure read_the_matchup refl (refl, (refl, (refl, tt))) refl
            (omega arith) (omega arith))
    | inr out_b ↦ elim (Bool-cases (fits safe_switch.id)) [
      | inl in_c ↦
          rw (in_a, out_b, in_c)
            (leads measured_pressure safe_switch refl (refl, (refl, (refl, tt))) refl (omega arith)
              (omega arith))
      | inr out_c ↦ elim (Bool-cases (fits hold_the_line.id)) [
        | inl in_d ↦
            rw (in_a, out_b, out_c, in_d)
              (leads measured_pressure hold_the_line refl (refl, (refl, (refl, tt))) refl
                (omega arith) (omega arith))
        | inr out_d ↦ rw (in_a, out_b, out_c, out_d) (inl refl)
      ]
    ]
  ]
  | inr out_a ↦ elim (Bool-cases (fits read_the_matchup.id)) [
    | inl in_b ↦ elim (Bool-cases (fits safe_switch.id)) [
      | inl in_c ↦
          rw (out_a, in_b, in_c)
            (leads read_the_matchup safe_switch refl (refl, (refl, (refl, tt))) refl (omega arith)
              (omega arith))
      | inr out_c ↦ elim (Bool-cases (fits hold_the_line.id)) [
        | inl in_d ↦
            rw (out_a, in_b, out_c, in_d)
              (leads read_the_matchup hold_the_line refl (refl, (refl, (refl, tt))) refl
                (omega arith) (omega arith))
        | inr out_d ↦ rw (out_a, in_b, out_c, out_d) (inl refl)
      ]
    ]
    | inr out_b ↦ elim (Bool-cases (fits safe_switch.id)) [
      | inl in_c ↦ elim (Bool-cases (fits hold_the_line.id)) [
        | inl in_d ↦
            rw (out_a, out_b, in_c, in_d)
              (leads safe_switch hold_the_line refl (refl, (refl, (refl, tt))) refl (omega arith)
                (omega arith))
        | inr out_d ↦ rw (out_a, out_b, in_c, out_d) (inl refl)
      ]
      | inr out_c ↦ elim (Bool-cases (fits hold_the_line.id)) [
        | inl in_d ↦ rw (out_a, out_b, out_c, in_d) (inl refl)
        | inr out_d ↦ rw (out_a, out_b, out_c, out_d) (inl refl)
      ]
    ]
  ]
]

choose_hold :
    (fits : String → Bool)
    → Chosen (
        choose fits
          ("show_move_variety" ∷ [])
          (hold_the_line.id ∷ "read_the_matchup" ∷ "safe_switch" ∷ measured_pressure.id ∷ []))
unfolding choose objectives_from_ids
choose_hold fits = elim (Bool-cases (fits hold_the_line.id)) [
  | inl in_a ↦ elim (Bool-cases (fits read_the_matchup.id)) [
    | inl in_b ↦
        rw (in_a, in_b)
          (leads hold_the_line read_the_matchup refl (refl, (refl, (refl, tt))) refl (omega arith)
            (omega arith))
    | inr out_b ↦ elim (Bool-cases (fits safe_switch.id)) [
      | inl in_c ↦
          rw (in_a, out_b, in_c)
            (leads hold_the_line safe_switch refl (refl, (refl, (refl, tt))) refl (omega arith)
              (omega arith))
      | inr out_c ↦ elim (Bool-cases (fits measured_pressure.id)) [
        | inl in_d ↦
            rw (in_a, out_b, out_c, in_d)
              (leads hold_the_line measured_pressure refl (refl, (refl, (refl, tt))) refl
                (omega arith) (omega arith))
        | inr out_d ↦ rw (in_a, out_b, out_c, out_d) (inl refl)
      ]
    ]
  ]
  | inr out_a ↦ elim (Bool-cases (fits read_the_matchup.id)) [
    | inl in_b ↦ elim (Bool-cases (fits safe_switch.id)) [
      | inl in_c ↦
          rw (out_a, in_b, in_c)
            (leads read_the_matchup safe_switch refl (refl, (refl, (refl, tt))) refl (omega arith)
              (omega arith))
      | inr out_c ↦ elim (Bool-cases (fits measured_pressure.id)) [
        | inl in_d ↦
            rw (out_a, in_b, out_c, in_d)
              (leads read_the_matchup measured_pressure refl (refl, (refl, (refl, tt))) refl
                (omega arith) (omega arith))
        | inr out_d ↦ rw (out_a, in_b, out_c, out_d) (inl refl)
      ]
    ]
    | inr out_b ↦ elim (Bool-cases (fits safe_switch.id)) [
      | inl in_c ↦ elim (Bool-cases (fits measured_pressure.id)) [
        | inl in_d ↦
            rw (out_a, out_b, in_c, in_d)
              (leads safe_switch measured_pressure refl (refl, (refl, (refl, tt))) refl
                (omega arith) (omega arith))
        | inr out_d ↦ rw (out_a, out_b, in_c, out_d) (inl refl)
      ]
      | inr out_c ↦ elim (Bool-cases (fits measured_pressure.id)) [
        | inl in_d ↦ rw (out_a, out_b, out_c, in_d) (inl refl)
        | inr out_d ↦ rw (out_a, out_b, out_c, out_d) (inl refl)
      ]
    ]
  ]
]

candidates-Chosen :
    (fits : String → Bool) (family : String)
    → Chosen (choose fits ("show_move_variety" ∷ []) (candidates family))
unfolding candidates identity_for_family complement
candidates-Chosen fits family = elim (Bool-cases (contains holders family)) [
  | inl holds ↦ rw holds (choose_hold fits)
  | inr presses ↦ rw presses (choose_pressure fits)
]

full_of_three :
    (os : List Objective) (gauge : ℕ) (completed : Dict Bool)
    → length os ≡ 3
    → awards os ≡ 100
    → All (λ o. 0 < o.award) os
    → gauge ≡ min 100 (earned completed os)
    → leb 100 gauge ≡ all_complete completed os
full_of_three (a ∷ b ∷ c ∷ []) gauge completed size sum (pa, (pb, (pc, _))) g =
    ground (arith, size, sum, g)
full_of_three _ gauge completed size sum p g = absurd (omega arith)

-- An encounter of three distinct objectives of 100 points is full exactly when all are complete.
Full-ThreeAwards :
    (s : Session)
    → Earned s
    → ThreeAwards s.objectives
    → is_full s ≡ all_complete s.completed s.objectives
unfolding is_full
Full-ThreeAwards s earned (size, distinct, sum, paid, first) =
    full_of_three s.objectives s.gauge s.completed size sum paid earned.gauge

generate-ThreeAwards :
    {M : Machine} (set : ContentSet M) (party : List PartyFighter) (family : String)
    (os : List Objective)
    → generate set party family ≡ some os
    → ThreeAwards os
unfolding generate
generate-ThreeAwards set party family os e = elim (Option-cases (lookup family set.species)) [
  | inl gone ↦ absurd (ground (arith, gone))
  | inr (wild, found) ↦
      let fits = eligible set party wild (wild_level party) in
      let ids = choose fits ("show_move_variety" ∷ []) (candidates family) in
      elim (candidates-Chosen fits family) [
        | inl few ↦ absurd (ground (arith, found, few))
        | inr (three, lead, good) ↦ elim (Bool-cases (eqb (length ids) 3)) [
          | inr few ↦ absurd (ground (arith, found, few))
          | inl enough ↦
              let same : three ≡ os = ground (arith, found, enough, lead, e) in
              subst ThreeAwards same good
        ]
      ]
]

new_session_objectives : (os : List Objective) → (new_session os).objectives ≡ os
unfolding new_session
new_session_objectives os = refl

after_turns_objectives :
    (s : Session) (turns : List TurnInput)
    → Earned s
    → (after_turns s turns).objectives ≡ s.objectives
unfolding after_turns
after_turns_objectives s [] h = refl
after_turns_objectives s (turn ∷ turns) h =
    let e = after_turn-Evaluated s turn h in
    after_turns_objectives (after_turn s turn).0 turns (Evaluated-Earned s (after_turn s turn) e h)
    ∙ e.objectives

-- The objectives that are generated for an encounter are three different ones, the variety of Moves
-- first, of positive awards that add up to 100; and after any turns of that encounter the gauge is full
-- exactly when all three are complete.
pub generate-is_full :
    {M : Machine} (content : ContentSet M) (party : List PartyFighter) (family : String)
    (os : List Objective) (turns : List TurnInput)
    → generate content party family ≡ some os
    → ThreeAwards os
      × (is_full (after_turns (new_session os) turns)
          ≡ all_complete (after_turns (new_session os) turns).completed os)
unfolding after_turns
generate-is_full content party family os turns e =
    let s = after_turns (new_session os) turns in
    let three = generate-ThreeAwards content party family os e in
    let start : Earned (new_session os) = after_turns-Earned_new os [] three.1 in
    let same : s.objectives ≡ os =
      after_turns_objectives (new_session os) turns start ∙ new_session_objectives os in
    (
      three,
      Full-ThreeAwards s (after_turns-Earned_new os turns three.1) (rw same three)
          ∙ ap (all_complete s.completed) same,
    )
