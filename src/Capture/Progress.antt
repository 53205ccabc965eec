-- ===== src/Capture/Progress.antt =====
-- The progress of an encounter in internal/capture/gauge.go: the gauge and the completed objectives.
use termon.Prelude.{
  ◌&&◌, ℕ, zero, suc, ◌+◌, ◌≡◌, refl, sym, ◌∙◌, subst, min, String, Bool, true, false, ◌||◌, some,
  List, [], ◌∷◌, map, get_elem?, All, contains, contains-append, IsDistinct, ◌==◌, eq_iff,
  if◌then◌else◌, arith, Bool-cases, inl, inr,
}
use termon.Prelude.Dict.{Dict, lookup, insert, lookup-insert}
use termon.Capture.{
  Objective, TurnInput, Session, incomplete, new_session, is_complete, try_complete, evaluate,
  evaluate_all, after_turn, after_turns,
}

-- The awards of the completed objectives.
abbrev pub earned : Dict Bool → List Objective → ℕ
earned completed [] = 0
earned completed (o ∷ os) =
    let rest = earned completed os in if is_complete completed o.id then o.award + rest else rest

abbrev pub objective_ids : List Objective → List String
objective_ids = map (λ (o : Objective). o.id)

is_complete-insert :
    (id k : String) (b : Bool) (c : Dict Bool)
    → is_complete (insert id b c) k ≡ (if id == k then b else is_complete c k)
unfolding is_complete
is_complete-insert id k b c = ground (arith, lookup-insert id k b c)

earned-absent :
    (id : String) (c : Dict Bool) (os : List Objective)
    → contains (objective_ids os) id ≡ false
    → earned (insert id true c) os ≡ earned c os
earned-absent id c [] a = refl
earned-absent id c (o ∷ os) a =
    let rest = earned-absent id c os (ground arith) in
    ground (arith, is_complete-insert id o.id true c, rest, eq_iff o.id id, eq_iff id o.id)

contains-get :
    (os : List Objective) (i : ℕ) (o : Objective)
    → get_elem? os i ≡ some o
    → contains (objective_ids os) o.id ≡ true
contains-get [] i o g = absurd (ground arith)
contains-get (x ∷ xs) zero o g = ground (arith, eq_iff x.id o.id)
contains-get (x ∷ xs) (suc i) o g = ground (arith, contains-get xs i o g)

earned_complete :
    (o : Objective) (c : Dict Bool) (os : List Objective) (i : ℕ)
    → IsDistinct (objective_ids os)
    → get_elem? os i ≡ some o
    → is_complete c o.id ≡ false
    → earned (insert o.id true c) os ≡ o.award + earned c os
earned_complete o c [] i d g n = absurd (ground arith)
earned_complete o c (x ∷ xs) zero d g n =
    let same : x ≡ o = ground arith in
    let rest = earned-absent o.id c xs (rw (← same) (d.0)) in
    rw same (ground (arith, is_complete-insert o.id o.id true c, eq_iff o.id o.id, rest, n))
earned_complete o c (x ∷ xs) (suc i) d g n =
    let rest = earned_complete o c xs i d.1 g n in
    let there = contains-get xs i o g in
    ground (arith, is_complete-insert o.id x.id true c, eq_iff o.id x.id, rest, d.0)

earned-incomplete :
    (os : List Objective) (c : Dict Bool)
    → ((k : String) → is_complete c k ≡ false)
    → (k : String) → is_complete (incomplete os c) k ≡ false
unfolding incomplete
earned-incomplete [] c h k = h k
earned-incomplete (o ∷ os) c h k =
    earned-incomplete os (insert o.id false c)
      (λ j. ground (arith, is_complete-insert o.id j false c, h j)) k

earned_nothing :
    (c : Dict Bool) (os : List Objective)
    → ((k : String) → is_complete c k ≡ false)
    → earned c os ≡ 0
earned_nothing c [] h = refl
earned_nothing c (o ∷ os) h = ground (arith, h o.id, earned_nothing c os h)

try_complete_lem :
    (s : Session) (id : String) (turn : TurnInput)
    → ((try_complete s id turn).0.objectives ≡ s.objectives)
      × ((try_complete s id turn).0.gauge ≡ s.gauge)
      × ((try_complete s id turn).0.completed ≡ s.completed)
unfolding try_complete
try_complete_lem s id turn = ground arith

-- What a turn keeps: the gauge is what was earned, up to 100.
pub record Earned (s : Session) : Type 0 where
  pub distinct : IsDistinct (objective_ids s.objectives)
  pub gauge : s.gauge ≡ min 100 (earned s.completed s.objectives)

abbrev At : List Objective → Objective → Type 0
At os o = (i : ℕ) × (get_elem? os i ≡ some o)

All-At :
    (os : List Objective) (P : Objective → Type 0) → ((o : Objective) → At os o → P o) → All P os
All-At [] P h = tt
All-At (x ∷ xs) P h = (h x (0, refl), All-At xs P (λ o (i, g). h o (suc i, g)))

-- What an evaluation does: objectives stay complete, and the reported ids are those that became so.
pub record Evaluated (s : Session) (r : Session × List String) : Type 0 where
  pub objectives : r.0.objectives ≡ s.objectives
  pub gauge : r.0.gauge ≡ min 100 (earned r.0.completed r.0.objectives)
  pub complete :
      (k : String) → is_complete r.0.completed k ≡ is_complete s.completed k || contains r.1 k
  pub novel : (k : String) → contains r.1 k ≡ true → is_complete s.completed k ≡ false

Evaluated-none :
    (s s1 : Session)
    → s1.objectives ≡ s.objectives
    → s1.gauge ≡ s.gauge
    → s1.completed ≡ s.completed
    → Earned s
    → Evaluated s (s1, [])
Evaluated-none s s1 e f g h = record {
  objectives = e;
  gauge = rw (e, f, g) h.gauge;
  complete = λ k. rw g (ground arith);
  novel = λ k c. absurd (ground arith);
}

-- The objective is completed now.
Evaluated-done :
    (s s1 : Session) (o : Objective)
    → s1.objectives ≡ s.objectives
    → s1.gauge ≡ s.gauge
    → s1.completed ≡ s.completed
    → At s.objectives o
    → is_complete s.completed o.id ≡ false
    → Earned s
    → Evaluated s (
      record s1 { completed = insert o.id true s1.completed; gauge = min 100 (s1.gauge + o.award) },
      o.id ∷ [],
    )
Evaluated-done s s1 o e f g at n h = record {
  objectives = e;
  gauge =
      let sum = earned_complete o s.completed s.objectives at.0 h.distinct at.1 n in
      rw (e, f, g, sum) (omega (arith, h.gauge));
  complete = λ k. rw g (ground (arith, is_complete-insert o.id k true s.completed));
  novel = λ k c. let same : o.id ≡ k = ground (arith, eq_iff o.id k) in rw same at n;
}

evaluate-Evaluated :
    (s : Session) (o : Objective) (turn : TurnInput)
    → At s.objectives o
    → Earned s
    → Evaluated s (evaluate s o turn)
unfolding evaluate
evaluate-Evaluated s o turn at h = elim (Bool-cases (is_complete s.completed o.id)) [
  | inl already ↦ rw already (Evaluated-none s s refl refl refl h)
  | inr before ↦
      let (e, f, g) = try_complete_lem s o.id turn in
      elim (Bool-cases (try_complete s o.id turn).1) [
        | inl done ↦
            rw (before, done) (Evaluated-done s (try_complete s o.id turn).0 o e f g at before h)
        | inr pending ↦ rw (before, pending) (Evaluated-none s (try_complete s o.id turn).0 e f g h)
      ]
]

pub Evaluated-Earned :
    (s : Session) (r : Session × List String) → Evaluated s r → Earned s → Earned r.0
Evaluated-Earned s r v h = record { distinct = rw (v.objectives) h.distinct; gauge = v.gauge }

evaluate_all-Evaluated :
    (s : Session) (os : List Objective) (turn : TurnInput)
    → All (At s.objectives) os
    → Earned s
    → Evaluated s (evaluate_all s os turn)
unfolding evaluate_all
evaluate_all-Evaluated s [] turn at h = Evaluated-none s s refl refl refl h
evaluate_all-Evaluated s (o ∷ os) turn at h =
    let r = evaluate s o turn in
    let v = evaluate-Evaluated s o turn at.0 h in
    let q = evaluate_all r.0 os turn in
    let w =
      evaluate_all-Evaluated r.0 os turn (subst (λ l. All (At l) os) (sym v.objectives) at.1)
        (Evaluated-Earned s r v h) in
    record {
      objectives = w.objectives ∙ v.objectives;
      gauge = w.gauge;
      complete = λ k. ground (arith, v.complete k, w.complete k, contains-append r.1 q.1 k);
      novel = λ k c. ground (arith, v.complete k, v.novel k, w.novel k, contains-append r.1 q.1 k);
    }

pub after_turn-Evaluated :
    (s : Session) (turn : TurnInput) → Earned s → Evaluated s (after_turn s turn)
unfolding after_turn
after_turn-Evaluated s turn h =
    evaluate_all-Evaluated s s.objectives turn (All-At s.objectives (At s.objectives) (λ o a. a)) h

after_turns-Earned :
    (s : Session) (turns : List TurnInput) → Earned s → Earned (after_turns s turns)
unfolding after_turns
after_turns-Earned s [] h = h
after_turns-Earned s (turn ∷ turns) h =
    after_turns-Earned (after_turn s turn).0 turns
      (Evaluated-Earned s (after_turn s turn) (after_turn-Evaluated s turn h) h)

-- In an encounter with distinct objectives, after any turns, the gauge is the sum of the awards of the
-- completed objectives, up to 100.
pub after_turns-Earned_new :
    (objectives : List Objective) (turns : List TurnInput)
    → IsDistinct (objective_ids objectives)
    → Earned (after_turns (new_session objectives) turns)
unfolding new_session
after_turns-Earned_new objectives turns d =
    after_turns-Earned (new_session objectives) turns (record {
      distinct = d;
      gauge =
          let zero_sum =
            earned_nothing (incomplete objectives []) objectives (
              earned-incomplete objectives [] (λ k. unfold is_complete in unfold lookup in refl)) in
          rw zero_sum (omega arith);
    })

-- A turn of an encounter whose gauge is what was earned completes each reported objective for the
-- first time: afterwards complete are those that were and those it reports, none of which was.
pub after_turn_lem :
    (s : Session) (turn : TurnInput) (k : String)
    → Earned s
    → (is_complete (after_turn s turn).0.completed k
        ≡ is_complete s.completed k || contains (after_turn s turn).1 k)
      × (contains (after_turn s turn).1 k && is_complete s.completed k ≡ false)
after_turn_lem s turn k h =
    let v = after_turn-Evaluated s turn h in (v.complete k, ground (arith, v.novel k))
