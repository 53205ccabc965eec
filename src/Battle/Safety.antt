-- ===== src/Battle/Safety.antt =====
-- The exported methods of internal/battle/engine.go on valid Battles.
use termon.Battle.Calls.{
  action_error, disconnect_timeout, expire_decision, replace_for, send_replacement, is_revealing,
  is_awaiting_replacement, Call, selects, replaces, advances, forfeits, disconnects, expires, step,
  run, awaits, select, replace, advance_reveal, forfeit, end_by_loss, lose,
}
use termon.Battle.Invariant.Select.{select-second, Valid, Stepped, phase_at}
use termon.Battle.Types.{Action, Side, other, pick, State, EndReason, Party, Event, SideState}
use termon.Prelude.{
  ◌≡◌, ◌≢◌, refl, subst, String, true, false, none, some, List, ◌++◌, Runs, Runs-mono, arith, inl,
  inr, ◌⊎◌, Option-cases,
}
use termon.Machine.{Machine}
use termon.Content.{ContentSet}
use termon.Battle.State.{Battle, active_member, append_events, valid_switch}
use termon.Battle.Start.{ok, err, new}
use termon.Battle.Turn.{is_over}
use termon.Battle.Invariant.{Wounded, IsApart}
use termon.Battle.Invariant.Reserves.{healthy-valid_switch, side_index-trainer}
use termon.Battle.Invariant.Writes.{pick-put_other}
use termon.Battle.Invariant.Lemmas.{active-some}
use termon.Battle.Invariant.Goes.{Goes}
use termon.Battle.Invariant.Moves.{Alive}
use termon.Battle.Invariant.Opening.{Ready, Knockout, valid_switch-some}
use termon.Battle.Invariant.Closing.{Revealing}
use termon.Battle.Invariant.Steps.{step-Stepped, run-Valid}
use termon.Battle.Invariant.Begin.{On, new-Valid}

module _ {M : Machine} where
  -- `New` followed by any history of calls does not panic: either `New` returns an error, or the
  -- Battle it starts is valid after every call.
  pub new-run :
      (set : ContentSet M) (a b : Party) (rng : M.Rng) (cs : List Call)
      → Runs (On (λ c. Runs Valid (run c cs))) (new set a b rng)
  new-run set a b rng cs = Runs-mono _ _ (new set a b rng) (new-Valid set a b rng) (elim [
    | ok c ↦
        λ v. Runs-mono (λ d. Goes c d × Valid d) Valid (run c cs) (run-Valid c cs v.0) (λ d g. g.1)
    | err e ↦ λ v. tt
  ])

  -- On a valid Battle no call panics, the Battle is valid after the call, and the call returns no error
  -- or leaves the Battle as it was.
  pub step-Valid :
      (b : Battle M) (c : Call)
      → Valid b
      → Runs (λ r. Valid r.0 × ((r.1 ≡ none) ⊎ (r.0 ≡ b))) (step b c)
  step-Valid b c v = Runs-mono (Stepped b) _ (step b c) (step-Stepped b c v) (λ r s.
      (s.valid, elim (Option-cases r.1) [ inl e ↦ inl e | inr (why, e) ↦ inr (s.refused why e) ]))

  -- From a valid Battle in which no Monster id stands in both parties, a history of calls only appends
  -- to the log, and each member's HP at the start is its HP at the end and the damage that the appended
  -- events record for it.
  pub run-Wounded :
      (b : Battle M) (cs : List Call)
      → Valid b
      → IsApart b.sides
      → Runs
          (λ c.
            (log : List Event) × (c.events ≡ b.events ++ log)
            × ((t : Side)
                → Wounded log
                    (pick {A = SideState} b.sides t).members
                    (pick {A = SideState} c.sides t).members))
          (run b cs)
  run-Wounded b cs v apart =
      Runs-mono (λ c. Goes b c × Valid c) _ (run b cs) (run-Valid b cs v)
        (λ c g. (g.0.log, g.0.events, g.0.passage.wounds apart))

  ended : (b : Battle M) → b.state ≡ State.over → is_over b.state ≡ true
  ended b st = rw st refl

  replace_for-live :
      (b : Battle M) (t : Side) (id : String)
      → b.replace_side ≡ some t
      → valid_switch (pick b.sides t) id ≡ true
      → Alive (pick b.sides (other t))
      → Runs
          (λ r.
            (r.1 ≡ none) × (r.0.state ≡ State.revealing) × ((t : Side) → Alive (pick r.0.sides t)))
          (replace_for b t (pick b.sides t).trainer id)
  unfolding replace_for send_replacement append_events active_member
  replace_for-live b t id due good up =
      let (i, m, e, g, hp) = valid_switch-some (pick b.sides t) id good in
      let mine : awaits b.replace_side t ≡ true = rw due (awaits-self t) in
      rw (replace_for, mine, good, e, g)
        (refl, refl, pick-put_other (λ _ s. Alive s) b.sides t _ up (rw g hp))
    where
      awaits-self : (t : Side) → awaits (some t) t ≡ true
      awaits-self Side.first = refl
      awaits-self Side.second = refl

  -- A call on a Battle that is over returns an error and changes nothing.
  pub step-over :
      (b : Battle M) (c : Call)
      → b.state ≡ State.over
      → Runs (λ r. (r.0 ≡ b) × (r.1 ≢ none)) (step b c)
  unfolding step select replace advance_reveal forfeit end_by_loss disconnect_timeout
      expire_decision
  step-over b (selects trainer a) st = rw (ended b st) (refl, λ e. ground arith)
  step-over b (replaces trainer id) st = rw (ended b st) (refl, λ e. ground arith)
  step-over b advances st =
      let quiet : is_revealing b.state ≡ false = rw st refl in rw quiet (refl, λ e. ground arith)
  step-over b (forfeits trainer) st = rw (ended b st) (refl, λ e. ground arith)
  step-over b (disconnects trainer) st = rw (ended b st) (refl, λ e. ground arith)
  step-over b (expires trainer) st = rw (ended b st) (refl, λ e. ground arith)

  -- A valid Battle that awaits a replacement takes it: the Trainer whose turn it is to replace has a
  -- Monster to send out, and the Battle goes on to the reveal with both active Monsters alive.
  pub replace_live :
      (b : Battle M)
      → Valid b
      → b.state ≡ State.awaiting_replacement
      → (trainer : String) × (id : String) × Runs
          (λ r.
            (r.1 ≡ none) × (r.0.state ≡ State.revealing) × ((t : Side) → Alive (pick r.0.sides t)))
          (replace b trainer id)
  unfolding replace
  replace_live b v st =
      let (free, due, ready) = phase_at b State.awaiting_replacement st v in
      elim (Option-cases b.replace_side) [
        | inl e ↦ absurd (due e)
        | inr (t, e) ↦
            let r : Ready b.sides (some t) = subst (Ready b.sides) e ready in
            let (id, good) = healthy-valid_switch (pick b.sides t) (v.sound.sides t).distinct r.2 in
            let going : is_over b.state ≡ false = rw st refl in
            let awaiting : is_awaiting_replacement b.state ≡ true = rw st refl in
            let found = side_index-trainer b t v.sound in
            (
              (pick b.sides t).trainer,
              id,
              rw (replace, going, awaiting, found) (replace_for-live b t id e good r.0),
            )
      ]

  -- A Trainer of a valid Battle that is not over can leave it: `Forfeit` returns no error, ends the
  -- Battle with the other Trainer as its winner and the reason forfeit, and takes no HP.
  pub forfeit_live :
      (b : Battle M) (t : Side)
      → Valid b
      → is_over b.state ≡ false
      → Runs
          (λ r.
            (r.1 ≡ none)
            × (r.0.state ≡ State.over)
            × (r.0.winner ≡ (pick {A = SideState} b.sides (other t)).trainer)
            × (r.0.reason ≡ EndReason.forfeit)
            × (r.0.sides ≡ b.sides))
          (forfeit b (pick {A = SideState} b.sides t).trainer)
  unfolding forfeit end_by_loss lose append_events
  forfeit_live b t v going =
      let (m, e, _) = active-some (pick b.sides t) (v.sound.sides t) in
      let (w, g, _) = active-some (pick b.sides (other t)) (v.sound.sides (other t)) in
      rw (forfeit, going, side_index-trainer b t v.sound, e, g) (refl, refl, refl, refl, refl)

  -- In a valid Battle that awaits the actions, where the other side has locked its action, a Trainer selects
  -- an action that passes the checks of `Select`. The call does not panic and returns no error, and the turn
  -- is resolved: the Battle is over by a knockout, with all Monsters of the loser fainted, or it reveals the
  -- turn, with nobody locked, and with a replacement due for a side exactly when its active Monster has no
  -- HP, in which case that side has a healthy reserve.
  pub select_lem :
      (b : Battle M) (t : Side) (a : Action)
      → Valid b
      → b.state ≡ State.awaiting_actions
      → pick b.locked (other t) ≡ true
      → action_error a.kind b t (pick {A = SideState} b.sides t).trainer a ≡ some none
      → Runs
          (λ r. (r.1 ≡ none) × (Knockout r.0 ⊎ Revealing r.0))
          (select b (pick {A = SideState} b.sides t).trainer a)
  select_lem b t a v st foe fine =
      select-second b t (pick b.sides t).trainer a v st (side_index-trainer b t v.sound) foe fine
