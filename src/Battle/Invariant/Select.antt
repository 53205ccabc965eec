-- ===== src/Battle/Invariant/Select.antt =====
-- What a valid Battle is between two calls of internal/battle/engine.go, and `Select` on it.
use termon.Battle.Types.{other, Side, Pair, both, pick, put, Action, ActionKind, State, SideState}
use mathlib.Core.List.{append-nil}
use termon.Prelude.{
  ◌≡◌, ◌≢◌, refl, sym, subst, String, Bool, true, false, ◌&&◌, Option, none, some, [], Runs,
  Runs-bind, Runs-mono, arith, inl, inr, ◌⊎◌, Bool-cases, Option-cases,
}
use termon.Machine.{Machine}
use termon.Battle.State.{Battle, side_index, valid_switch}
use termon.Battle.Turn.{is_over, is_switch, resolve_turn}
use termon.Battle.Calls.{
  Error, is_awaiting_actions, is_awaiting_replacement, is_revealing, action_error, lock_action,
  lock_and_resolve, select_for, select,
}
use termon.Battle.Invariant.{Sound}
use termon.Battle.Invariant.Lemmas.{active-some}
use termon.Battle.Invariant.Goes.{Goes, Goes-trans, Goes-Quiet}
use termon.Battle.Invariant.Moves.{Alive}
use termon.Battle.Invariant.Opening.{Legal, Ready, Knockout}
use termon.Battle.Invariant.Closing.{Revealing, Resolved, resolve_turn-Resolved}

-- What each phase says of the pending replacement, the locks, the hidden actions and the sides. The
-- phase of a resolving turn is never seen from outside.
abbrev pub PhaseOk : State → Option Side → Pair Bool → Pair Action → Pair SideState → Type 0
PhaseOk State.revealing r l a p = (l ≡ both false) × Ready p r
PhaseOk State.awaiting_actions r l a p =
    (r ≡ none)
    × ((t : Side) → Alive (pick p t))
    × ((t : Side) → pick l t ≡ true → Legal (pick p t) (pick a t))
    × (l.at_first && l.at_second ≡ false)
PhaseOk State.awaiting_replacement r l a p = (l ≡ both false) × (r ≢ none) × Ready p r
PhaseOk State.over r l a p = l ≡ both false
PhaseOk State.resolving_turn r l a p = ⊥

pub record Valid {M : Machine} (b : Battle M) : Type 0 where
  pub sound : Sound b.sides b.events
  pub phase : PhaseOk b.state b.replace_side b.locked b.actions b.sides

pub record Stepped {M : Machine} (b : Battle M) (r : Battle M × Option Error) : Type 0 where
  pub goes : Goes b r.0
  pub valid : Valid r.0
  pub refused : (e : Error) → r.1 ≡ some e → r.0 ≡ b

awaiting_actions_of : (s : State) → is_awaiting_actions s ≡ true → s ≡ State.awaiting_actions
awaiting_actions_of s h = ground arith

pub awaiting_replacement_of :
    (s : State) → is_awaiting_replacement s ≡ true → s ≡ State.awaiting_replacement
awaiting_replacement_of s h = ground arith

pub revealing_of : (s : State) → is_revealing s ≡ true → s ≡ State.revealing
revealing_of s h = ground arith

Legal-put :
    (p : Pair SideState) (l : Pair Bool) (acts : Pair Action) (t : Side) (a : Action)
    → ((u : Side) → pick l u ≡ true → Legal (pick p u) (pick acts u))
    → Legal (pick p t) a
    → (u : Side) → pick (put l t true) u ≡ true
    → Legal (pick p u) (pick (put acts t a) u)
Legal-put p l acts Side.first a old new Side.first e = new
Legal-put p l acts Side.first a old new Side.second e = old Side.second e
Legal-put p l acts Side.second a old new Side.first e = old Side.first e
Legal-put p l acts Side.second a old new Side.second e = new

both_locked : (l : Pair Bool) → l.at_first && l.at_second ≡ true → (u : Side) → pick l u ≡ true
both_locked l e Side.first = ground arith
both_locked l e Side.second = ground arith

put_both_locked :
    (l : Pair Bool) (t : Side)
    → pick l (other t) ≡ true
    → (put l t true).at_first && (put l t true).at_second ≡ true
put_both_locked l Side.first e = ground (arith, e)
put_both_locked l Side.second e = ground (arith, e)

unlocked :
    (l : Pair Bool) (t : Side)
    → pick l (other t) ≡ true
    → l.at_first && l.at_second ≡ false
    → pick l t ≡ false
unlocked l Side.first e h = ground (arith, e, h)
unlocked l Side.second e h = ground (arith, e, h)

module _ {M : Machine} where
  pub phase_at :
      (b : Battle M) (s : State)
      → b.state ≡ s
      → Valid b
      → PhaseOk s b.replace_side b.locked b.actions b.sides
  phase_at b s e v = subst (λ x. PhaseOk x b.replace_side b.locked b.actions b.sides) e v.phase

  -- A refusal returns the Battle as it was.
  pub Stepped-same : (b : Battle M) (e : Option Error) → Valid b → Stepped b (b, e)
  Stepped-same b e v = record {
    goes = Goes-Quiet b b [] refl (sym (append-nil b.events)) tt v.sound;
    valid = v;
    refused = λ e p. refl;
  }

  action_error-Legal :
      (kind : ActionKind) (b : Battle M) (t : Side) (trainer : String) (a : Action)
      → Sound b.sides b.events
      → Runs
          (λ e. e ≡ none → is_switch kind ≡ true → valid_switch (pick b.sides t) a.switch_to ≡ true)
          (action_error kind b t trainer a)
  unfolding action_error
  action_error-Legal ActionKind.move b t trainer a h =
      let (m, e, _) = active-some (pick b.sides t) (h.sides t) in
      rw e (λ _ k. absurd (ground arith))
  action_error-Legal ActionKind.switch b t trainer a h = λ e _. ground arith
  action_error-Legal ActionKind.unset b t trainer a h = λ e k. absurd (ground arith)
  action_error-Legal (ActionKind.unknown x) b t trainer a h = λ e k. absurd (ground arith)

  pub Valid-at :
      (b : Battle M) (s : State)
      → b.state ≡ s
      → Sound b.sides b.events
      → PhaseOk s b.replace_side b.locked b.actions b.sides
      → Valid b
  Valid-at b s e h p = record {
    sound = h;
    phase = subst (λ x. PhaseOk x b.replace_side b.locked b.actions b.sides) (sym e) p;
  }

  Valid-Resolved : (b c : Battle M) → Resolved b c → Valid c
  Valid-Resolved b c r = valid r.outcome
    where
      valid : Knockout c ⊎ Revealing c → Valid c
      valid (inl k) = Valid-at c State.over k.state r.goes.sound k.unlocked
      valid (inr k) = Valid-at c State.revealing k.state r.goes.sound (k.unlocked, k.ready)

  -- A call that returns no error.
  pub done_of : (b c : Battle M) → Goes b c → Valid c → Stepped b (c, none)
  done_of b c g v = record { goes = g; valid = v; refused = λ e p. absurd (ground arith) }

  lock_and_resolve-Valid :
      (b : Battle M) (t : Side) (a : Action)
      → Valid b
      → b.state ≡ State.awaiting_actions
      → Legal (pick b.sides t) a
      → Runs (λ c. Goes b c × Valid c) (lock_and_resolve b t a)
  unfolding lock_and_resolve lock_action
  lock_and_resolve-Valid b t a v st legal =
      elim (Bool-cases ((put b.locked t true).at_first && (put b.locked t true).at_second)) [
        | inl full ↦ rw full (
            Runs-mono (Resolved b1) (λ c. Goes b c × Valid c) (resolve_turn b1)
              (resolve_turn-Resolved b1 v.sound alive
                (λ u. legal1 u (both_locked (put b.locked t true) full u)) pending)
              (λ c r. (Goes-trans b b1 c locked r.goes, Valid-Resolved b1 c r)))
        | inr waits ↦
            rw waits (
              locked,
              Valid-at b1 State.awaiting_actions st v.sound (pending, alive, legal1, waits),
            )
      ]
    where
      b1 : Battle M
      b1 = lock_action b t a

      phase : PhaseOk State.awaiting_actions b.replace_side b.locked b.actions b.sides
      phase = phase_at b State.awaiting_actions st v

      pending : b.replace_side ≡ none
      pending = phase.0

      alive : (u : Side) → Alive (pick b.sides u)
      alive = phase.1

      legal1 :
          (u : Side)
          → pick (put b.locked t true) u ≡ true
          → Legal (pick b.sides u) (pick (put b.actions t a) u)
      legal1 = Legal-put b.sides b.locked b.actions t a phase.2 legal

      locked : Goes b b1
      locked = Goes-Quiet b b1 [] refl (sym (append-nil b.events)) tt v.sound

  -- The lock of the second side resolves the turn.
  second_lock :
      (b : Battle M) (t : Side) (a : Action)
      → Valid b
      → b.state ≡ State.awaiting_actions
      → pick b.locked (other t) ≡ true
      → Legal (pick b.sides t) a
      → Runs (λ c. Knockout c ⊎ Revealing c) (lock_and_resolve b t a)
  unfolding lock_and_resolve lock_action
  second_lock b t a v st foe legal =
      let phase = phase_at b State.awaiting_actions st v in
      let b1 = lock_action b t a in
      let full = put_both_locked b.locked t foe in
      let legal1 = Legal-put b.sides b.locked b.actions t a phase.2 legal in
      rw (lock_and_resolve, full)
        (Runs-mono (Resolved b1) _ (resolve_turn b1)
          (resolve_turn-Resolved b1 v.sound phase.1
            (λ u. legal1 u (both_locked (put b.locked t true) full u)) phase.0)
          (λ c r. r.outcome))

  pub select-second :
      (b : Battle M) (t : Side) (trainer : String) (a : Action)
      → Valid b
      → b.state ≡ State.awaiting_actions
      → side_index b trainer ≡ some t
      → pick b.locked (other t) ≡ true
      → action_error a.kind b t trainer a ≡ some none
      → Runs (λ r. (r.1 ≡ none) × (Knockout r.0 ⊎ Revealing r.0)) (select b trainer a)
  unfolding select select_for
  select-second b t trainer a v st side foe fine =
      let going : is_over b.state ≡ false = rw st refl in
      let awaiting : is_awaiting_actions b.state ≡ true = rw st refl in
      let free = unlocked b.locked t foe (phase_at b State.awaiting_actions st v).3 in
      let legal =
        subst
          (Runs (λ e.
            e ≡ none → is_switch a.kind ≡ true → valid_switch (pick b.sides t) a.switch_to ≡ true))
          fine (action_error-Legal a.kind b t trainer a v.sound) in
      rw (select, going, awaiting, side, select_for, free, fine)
        (Runs-bind (λ c. Knockout c ⊎ Revealing c) _ (lock_and_resolve b t a) _
          (second_lock b t a v st foe (legal refl)) (λ c r. (refl, r)))

  select_for-Stepped :
      (b : Battle M) (t : Side) (trainer : String) (a : Action)
      → Valid b
      → b.state ≡ State.awaiting_actions
      → Runs (Stepped b) (select_for b t trainer a)
  unfolding select_for
  select_for-Stepped b t trainer a v st = elim (Bool-cases (pick b.locked t)) [
    | inl done ↦ rw done (Stepped-same b _ v)
    | inr free ↦ rw free (
        Runs-bind
          (λ e.
            e ≡ none → is_switch a.kind ≡ true → valid_switch (pick b.sides t) a.switch_to ≡ true)
          (Stepped b) (action_error a.kind b t trainer a) _
          (action_error-Legal a.kind b t trainer a v.sound)
          (elim [
            | some err ↦ λ _. Stepped-same b (some err) v
            | none ↦ λ k.
                Runs-bind (λ c. Goes b c × Valid c) (Stepped b) (lock_and_resolve b t a) _
                  (lock_and_resolve-Valid b t a v st (k refl)) (λ c g. done_of b c g.0 g.1)
          ]))
  ]

  pub select-Stepped :
      (b : Battle M) (trainer : String) (a : Action)
      → Valid b
      → Runs (Stepped b) (select b trainer a)
  unfolding select
  select-Stepped b trainer a v = elim (Bool-cases (is_over b.state)) [
    | inl ended ↦ rw ended (Stepped-same b _ v)
    | inr going ↦ elim (Bool-cases (is_awaiting_actions b.state)) [
      | inr busy ↦ rw (going, busy) (Stepped-same b _ v)
      | inl awaiting ↦ elim (Option-cases (side_index b trainer)) [
        | inl e ↦ rw (going, awaiting, e) (Stepped-same b _ v)
        | inr (t, e) ↦
            rw (going, awaiting, e)
              (select_for-Stepped b t trainer a v (awaiting_actions_of b.state awaiting))
      ]
    ]
  ]
