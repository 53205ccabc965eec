-- ===== src/Battle/Invariant/Steps.antt =====
-- `Replace`, `AdvanceReveal` and the losses of internal/battle/engine.go, and histories of calls.
use termon.Battle.Invariant.Select.{
  awaiting_replacement_of, revealing_of, Valid, Stepped, phase_at, Stepped-same, Valid-at, done_of,
  select-Stepped,
}
use termon.Prelude.{
  get_elem?, ℕ, ◌<◌, ◌≡◌, refl, sym, subst, String, Bool, true, false, Option, none, some, List, [],
  ◌∷◌, eq_iff, Runs, Runs-bind, Runs-mono, arith, inl, inr, Bool-cases, Option-cases,
}
use mathlib.Core.List.{append-nil}
use termon.Machine.{Machine}
use termon.Battle.Types.{Side, other, Pair, both, pick, State, EndReason, EventKind, Member}
use termon.Battle.State.{Battle, active_member, append_events, side_index, valid_switch}
use termon.Battle.Turn.{is_over}
use termon.Battle.Calls.{
  is_awaiting_replacement, is_revealing, leave_reveal, awaits, send_replacement, replace_for,
  replace, advance_reveal, lose, end_by_loss, forfeit, disconnect_timeout, expire_decision, Call,
  selects, replaces, advances, forfeits, disconnects, expires, step, run,
}
use termon.Battle.Views.{is_damage, fielding_kind}
use termon.Battle.Invariant.Lemmas.{active-some}
use termon.Battle.Invariant.Goes.{Goes, Goes-trans, Goes-Quiet}
use termon.Battle.Invariant.Writes.{Goes-field, pick-put_other}
use termon.Battle.Invariant.Moves.{Alive}
use termon.Battle.Invariant.Opening.{Ready, valid_switch-some}

module _ {M : Machine} where
  -- The replacement is due on the side that sends it out, and the Monster is healthy.
  send_replacement-Stepped :
      (b : Battle M) (t : Side) (trainer : String) (i : ℕ) (m : Member)
      → Valid b
      → trainer ≡ (pick b.sides t).trainer
      → Alive (pick b.sides (other t))
      → get_elem? (pick b.sides t).members i ≡ some m
      → 0 < m.hp
      → b.locked ≡ both false
      → Runs (Stepped b) (send_replacement b t trainer i)
  unfolding send_replacement append_events active_member fielding_kind is_damage
  send_replacement-Stepped b t trainer i m v mine up g hp free = rw g (
      let c = Goes-field b _ t i m _ v.sound g mine refl refl refl refl refl in
      done_of b _ c (
        Valid-at _ State.revealing refl c.sound
          (free, pick-put_other (λ _ s. Alive s) b.sides t _ up (rw g hp))))

  side_index-some :
      (b : Battle M) (trainer : String) (t : Side)
      → side_index b trainer ≡ some t
      → trainer ≡ (pick b.sides t).trainer
  unfolding side_index
  side_index-some b trainer Side.first e =
      ground
        (arith, eq_iff b.sides.at_first.trainer trainer, eq_iff b.sides.at_second.trainer trainer)
  side_index-some b trainer Side.second e =
      ground
        (arith, eq_iff b.sides.at_first.trainer trainer, eq_iff b.sides.at_second.trainer trainer)

  replace_for-Stepped :
      (b : Battle M) (t : Side) (trainer id : String)
      → Valid b
      → b.state ≡ State.awaiting_replacement
      → trainer ≡ (pick b.sides t).trainer
      → Runs (Stepped b) (replace_for b t trainer id)
  unfolding replace_for
  replace_for-Stepped b t trainer id v st mine = elim (Bool-cases (awaits b.replace_side t)) [
    | inr early ↦ rw early (Stepped-same b _ v)
    | inl due ↦ elim (Bool-cases (valid_switch (pick b.sides t) id)) [
      | inr bad ↦ rw (due, bad) (Stepped-same b _ v)
      | inl good ↦
          let (free, _, ready) = phase_at b State.awaiting_replacement st v in
          let (i, m, e, g, hp) = valid_switch-some (pick b.sides t) id good in
          let r : Ready b.sides (some t) =
            subst (Ready b.sides) (awaits-some b.replace_side t due) ready in
          rw (due, good, e) (send_replacement-Stepped b t trainer i m v mine r.0 g hp free)
    ]
  ]
    where
      awaits-some : (o : Option Side) (t : Side) → awaits o t ≡ true → o ≡ some t
      awaits-some o t h = ground arith

  replace-Stepped :
      (b : Battle M) (trainer id : String) → Valid b → Runs (Stepped b) (replace b trainer id)
  unfolding replace
  replace-Stepped b trainer id v = elim (Bool-cases (is_over b.state)) [
    | inl ended ↦ rw ended (Stepped-same b _ v)
    | inr going ↦ elim (Bool-cases (is_awaiting_replacement b.state)) [
      | inr busy ↦ rw (going, busy) (Stepped-same b _ v)
      | inl awaiting ↦ elim (Option-cases (side_index b trainer)) [
        | inl e ↦ rw (going, awaiting, e) (Stepped-same b _ v)
        | inr (t, e) ↦
            rw (going, awaiting, e)
              (replace_for-Stepped b t trainer id v (awaiting_replacement_of b.state awaiting)
                (side_index-some b trainer t e))
      ]
    ]
  ]

  leave_reveal-Stepped :
      (b : Battle M) (o : Option Side)
      → Valid b
      → b.replace_side ≡ o
      → b.locked ≡ both false
      → Ready b.sides o
      → Stepped b (leave_reveal o b)
  unfolding leave_reveal
  leave_reveal-Stepped b none v e free ready =
      done_of b _ (Goes-Quiet b _ [] refl (sym (append-nil b.events)) tt v.sound) (
        Valid-at _ State.awaiting_actions refl v.sound
          (e, ready, (λ t l. absurd (unlocked b.locked t free l)), rw free refl))
    where
      unlocked : (l : Pair Bool) (t : Side) → l ≡ both false → pick l t ≡ true → ⊥
      unlocked l Side.first e h = ground arith
      unlocked l Side.second e h = ground arith
  leave_reveal-Stepped b (some t) v e free ready =
      done_of b _ (Goes-Quiet b _ [] refl (sym (append-nil b.events)) tt v.sound) (
        Valid-at _ State.awaiting_replacement refl v.sound
          (free, (λ n. absurd (ground arith)), subst (Ready b.sides) (sym e) ready))

  advance_reveal-Stepped : (b : Battle M) → Valid b → Stepped b (advance_reveal b)
  unfolding advance_reveal
  advance_reveal-Stepped b v = elim (Bool-cases (is_revealing b.state)) [
    | inr busy ↦ rw busy (Stepped-same b _ v)
    | inl playing ↦
        let (free, ready) = phase_at b State.revealing (revealing_of b.state playing) v in
        rw playing (leave_reveal-Stepped b b.replace_side v refl free ready)
  ]

  lose-Stepped :
      (b : Battle M) (t : Side) (name : String) (reason : EndReason) (kind : EventKind)
      (text : String)
      → Valid b
      → fielding_kind kind ≡ false
      → is_damage kind ≡ false
      → Runs (Stepped b) (lose b t name reason kind text)
  unfolding lose append_events fielding_kind is_damage
  lose-Stepped b t name reason kind text v quiet harmless =
      let (m, e, _) = active-some (pick b.sides t) (v.sound.sides t) in
      let (w, g, _) = active-some (pick b.sides (other t)) (v.sound.sides (other t)) in
      rw (e, g)
        (let c = Goes-Quiet b _ _ refl refl ((quiet, harmless), ((refl, refl), tt)) v.sound in
          done_of b _ c (Valid-at _ State.over refl c.sound refl))

  end_by_loss-Stepped :
      (b : Battle M) (name : String) (reason : EndReason) (kind : EventKind) (text : String)
      → Valid b
      → fielding_kind kind ≡ false
      → is_damage kind ≡ false
      → Runs (Stepped b) (end_by_loss b name reason kind text)
  unfolding end_by_loss
  end_by_loss-Stepped b name reason kind text v quiet harmless =
      elim (Bool-cases (is_over b.state)) [
        | inl ended ↦ rw ended (Stepped-same b _ v)
        | inr going ↦ elim (Option-cases (side_index b name)) [
          | inl e ↦ rw (going, e) (Stepped-same b _ v)
          | inr (t, e) ↦ rw (going, e) (lose-Stepped b t name reason kind text v quiet harmless)
        ]
      ]

  -- The call runs to its end in every valid state.
  pub step-Stepped : (b : Battle M) (c : Call) → Valid b → Runs (Stepped b) (step b c)
  unfolding step forfeit disconnect_timeout expire_decision fielding_kind is_damage
  step-Stepped b (selects trainer a) v = select-Stepped b trainer a v
  step-Stepped b (replaces trainer id) v = replace-Stepped b trainer id v
  step-Stepped b advances v = advance_reveal-Stepped b v
  step-Stepped b (forfeits trainer) v = end_by_loss-Stepped b trainer _ _ _ v refl refl
  step-Stepped b (disconnects trainer) v = end_by_loss-Stepped b trainer _ _ _ v refl refl
  step-Stepped b (expires trainer) v = end_by_loss-Stepped b trainer _ _ _ v refl refl

  pub run-Valid :
      (b : Battle M) (cs : List Call) → Valid b → Runs (λ c. Goes b c × Valid c) (run b cs)
  unfolding run
  run-Valid b [] v = (Goes-Quiet b b [] refl (sym (append-nil b.events)) tt v.sound, v)
  run-Valid b (c ∷ cs) v =
      Runs-bind (Stepped b) (λ c. Goes b c × Valid c) (step b c) _ (step-Stepped b c v)
        (λ r s.
          Runs-mono (λ c. Goes r.0 c × Valid c) (λ c. Goes b c × Valid c) (run r.0 cs)
            (run-Valid r.0 cs s.valid) (λ c g. (Goes-trans b r.0 c s.goes g.0, g.1)))
