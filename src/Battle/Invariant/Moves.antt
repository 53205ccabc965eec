-- ===== src/Battle/Invariant/Moves.antt =====
-- `executeMove` of internal/battle/engine.go on a sound Battle.
use mathlib.Core.List.{append_assoc, append-nil}
use termon.Prelude.{
  ℕ, ◌-◌, ◌<◌, min, ◌≡◌, refl, sym, ap, ◌∙◌, Bool, true, false, ◌&&◌, Option, none, some, List, [],
  ◌++◌, All-append, Runs, eq_iff, eqb, ltb, arith, inl, inr, Bool-cases,
}
use termon.Machine.{Machine}
use termon.Content.{Move}
use termon.Battle.Types.{Side, other, pick, Event, Member, SideState}
use termon.Battle.State.{Battle, active_member, append_events}
use termon.Battle.Turn.{
  write_active, critical_roll, announce, variance_roll, deal, hit, execute_move, move_named,
}
use termon.Battle.Views.{is_damage, fielding_kind, last_fielded}
use termon.Battle.Invariant.{MemberOk, Sound, Quiet}
use termon.Battle.Invariant.Lemmas.{
  active-some, write_twice, active-set_active_member, pick-put_self, pick-other-put,
}
use termon.Battle.Invariant.Goes.{Goes, Goes-trans, Goes-Quiet, Calm, Calm-trans}
use termon.Battle.Invariant.Writes.{Goes-hit}

-- A step that changes the random source and appends quiet events, and nothing else that matters.
pub record Hush {M : Machine} (b b' : Battle M) : Type 0 where
  pub sides : b'.sides ≡ b.sides
  pub log : List Event
  pub events : b'.events ≡ b.events ++ log
  pub quiet : Quiet log
  pub calm : Calm b b'

-- The side's active Monster has HP left.
abbrev pub Alive : SideState → Type 0
Alive s = Runs (λ m. 0 < m.hp) (active_member s)

-- What an attack of side `a` leaves: the attacker is as before, and the flag tells whether the other
-- side's active Monster is out of HP.
pub record Struck {M : Machine} (b : Battle M) (a : Side) (r : Battle M × Bool) : Type 0 where
  pub goes : Goes b r.0
  pub calm : Calm b r.0
  pub attacker : pick r.0.sides a ≡ pick b.sides a
  pub target : Runs (λ m. r.1 ≡ eqb m.hp 0) (active_member (pick r.0.sides (other a)))

module _ {M : Machine} where
  pub Hush-trans : (a b c : Battle M) → Hush a b → Hush b c → Hush a c
  Hush-trans a b c h k = record {
    sides = k.sides ∙ h.sides;
    log = h.log ++ k.log;
    events = k.events ∙ ap (λ l. l ++ k.log) h.events ∙ append_assoc a.events h.log k.log;
    quiet =
        All-append (λ e. (fielding_kind e.kind ≡ false) × (is_damage e.kind ≡ false)) h.log k.log
          h.quiet k.quiet;
    calm = Calm-trans h.calm k.calm;
  }

  pub Hush-append :
      (b : Battle M) (rng : M.Rng) (log : List Event)
      → Quiet log
      → Hush b (append_events (record b { rng = rng }) log)
  unfolding append_events
  Hush-append b rng log q = record {
    sides = refl;
    log = log;
    events = refl;
    quiet = q;
    calm = record { state = refl; actions = refl; locked = refl; replace_side = refl };
  }

  pub Hush-roll : (b : Battle M) (rng : M.Rng) → Hush b (record b { rng = rng })
  Hush-roll b rng = record {
    sides = refl;
    log = [];
    events = sym (append-nil b.events);
    quiet = tt;
    calm = record { state = refl; actions = refl; locked = refl; replace_side = refl };
  }

  Hush-critical_roll : (b : Battle M) (a : Side) (d : M.Float) → Hush b (critical_roll b a d).1
  unfolding critical_roll fielding_kind is_damage
  Hush-critical_roll b a d = elim (Bool-cases (M.less (M.roll b.rng).0 (M.literal 1 16))) [
    | inl crit ↦ rw crit (Hush-append b (M.roll b.rng).1 _ (ground arith))
    | inr plain ↦ rw plain (Hush-roll b (M.roll b.rng).1)
  ]

  Hush-announce : (b : Battle M) (a : Side) (eff : M.Float) → Hush b (announce b a eff)
  unfolding announce fielding_kind is_damage
  Hush-announce b a eff = elim (Bool-cases (M.at_least eff (M.literal 15 10))) [
    | inl se ↦ rw se (Hush-append b b.rng _ (ground arith))
    | inr ne ↦ rw ne (elim (Bool-cases (M.less (M.literal 0 1) eff && M.less eff (M.literal 1 1))) [
      | inl weak ↦ rw weak (Hush-append b b.rng _ (ground arith))
      | inr plain ↦ rw plain (Hush-roll b b.rng)
    ])
  ]

  pub Goes-Hush : (b b' : Battle M) → Hush b b' → Sound b.sides b.events → Goes b b'
  Goes-Hush b b' h s = Goes-Quiet b b' h.log h.sides h.events h.quiet s

  Hush-variance_roll : (b : Battle M) (d : M.Float) → Hush b (variance_roll b d).1
  unfolding variance_roll
  Hush-variance_roll b d = Hush-roll b (M.roll b.rng).1

  -- The damage is dealt to the active Monster of the other side.
  deal-Struck :
      (b : Battle M) (a : Side) (m : Member) (rolled : ℕ)
      → Sound b.sides b.events
      → active_member (pick b.sides (other a)) ≡ some m
      → MemberOk m
      → Struck b a (deal b a (other a) m rolled)
  unfolding deal write_active append_events fielding_kind is_damage last_fielded
  deal-Struck b a m rolled h e fine = elim (Bool-cases (ltb 0 (m.hp - min rolled m.hp))) [
    | inl lives ↦ rw lives (record {
      goes =
          Goes-hit b _ (other a) m (record m { hp = m.hp - min rolled m.hp }) _ h e refl refl
            (ground arith) (ground (arith, eq_iff m.id m.id)) (λ id ne. ground arith)
            (λ u. ground arith) refl refl;
      calm = record { state = refl; actions = refl; locked = refl; replace_side = refl };
      attacker = pick-other-put b.sides a _;
      target = rw (pick-put_self, active-set_active_member _ m _ e) (ground arith);
    })
    | inr dies ↦ rw dies (record {
      goes =
          Goes-hit b _ (other a) m (record m { hp = m.hp - min rolled m.hp; fainted = true }) _ h e
            refl refl (ground arith) (ground (arith, eq_iff m.id m.id)) (λ id ne. ground arith)
            (λ u. ground arith) (write_twice b.sides (other a) _ _) (append_assoc b.events _ _);
      calm = record { state = refl; actions = refl; locked = refl; replace_side = refl };
      attacker = pick-other-put _ a _ ∙ pick-other-put b.sides a _;
      target =
          rw (write_twice b.sides (other a), pick-put_self, active-set_active_member _ m _ e)
            (ground arith);
    })
  ]

  Struck-Hush :
      (b c : Battle M) (a : Side) (r : Battle M × Bool)
      → Hush b c
      → Sound b.sides b.events
      → Struck c a r
      → Struck b a r
  Struck-Hush b c a r q h k = record {
    goes = Goes-trans b c r.0 (Goes-Hush b c q h) k.goes;
    calm = Calm-trans q.calm k.calm;
    attacker = k.attacker ∙ ap (λ p. pick p a) q.sides;
    target = k.target;
  }

  deal_after_Hush :
      (b c : Battle M) (a : Side) (m : Member) (rolled : ℕ)
      → Hush b c
      → Sound b.sides b.events
      → active_member (pick b.sides (other a)) ≡ some m
      → MemberOk m
      → Struck b a (deal c a (other a) m rolled)
  deal_after_Hush b c a m rolled q h e fine = Struck-Hush b c a _ q h (
      deal-Struck c a m rolled (Goes-Hush b c q h).sound
        (ap (λ p. active_member (pick p (other a))) q.sides ∙ e) fine)

  miss-Struck :
      (b c : Battle M) (a : Side)
      → Hush b c
      → Sound b.sides b.events
      → Alive (pick b.sides (other a))
      → Struck b a (c, false)
  miss-Struck b c a q h alive = record {
    goes = Goes-Hush b c q h;
    calm = q.calm;
    attacker = ap (λ p. pick p a) q.sides;
    target = rw (q.sides) (Alive-target (active_member (pick b.sides (other a))) alive);
  }
    where
      Alive-target : (o : Option Member) → Runs (λ m. 0 < m.hp) o → Runs (λ m. false ≡ eqb m.hp 0) o
      Alive-target none h = h
      Alive-target (some m) h = ground arith

  hit-Struck :
      (b : Battle M) (a : Side) (atk m : Member) (move : Move M)
      → Sound b.sides b.events
      → active_member (pick b.sides (other a)) ≡ some m
      → MemberOk m
      → Struck b a (hit b a (other a) atk m move)
  unfolding hit
  hit-Struck b a atk m move h e fine =
      deal_after_Hush b _ a m _
        (Hush-trans b _ _ (Hush-critical_roll b a _)
          (Hush-trans _ _ _ (Hush-announce _ a _) (Hush-variance_roll _ _)))
        h e fine

  -- From two live active Monsters, `executeMove` does not panic and strikes the other side.
  pub execute_move-Struck :
      (b : Battle M) (a : Side)
      → Sound b.sides b.events
      → Alive (pick b.sides (other a))
      → Runs (Struck b a) (execute_move b a (other a))
  unfolding execute_move append_events fielding_kind is_damage
  execute_move-Struck b a h alive =
      let (atk, found, _) = active-some (pick b.sides a) (h.sides a) in
      let (def, target, fine) = active-some (pick b.sides (other a)) (h.sides (other a)) in
      rw (found, target)
        (elim (Bool-cases (
          M.at_least (M.times (M.roll b.rng).0 (M.literal 100 1))
            (move_named b (pick b.actions a).move_slug).accuracy)) [
              | inl misses ↦ rw misses (
                  miss-Struck b _ a
                    (Hush-trans b _ _ (Hush-append b b.rng _ (ground arith))
                      (Hush-append _ (M.roll b.rng).1 _ (ground arith)))
                    h alive)
              | inr hits ↦ rw hits (
                  let q = Hush-append b (M.roll b.rng).1 _ (ground arith) in
                  Struck-Hush b _ a _ q h
                    (hit-Struck _ a atk def _ (Goes-Hush b _ q h).sound target fine))
            ])
