-- ===== src/Battle/Invariant/Turns.antt =====
-- The loop over the moves in `resolveTurn` of internal/battle/engine.go.
use mathlib.Core.List.{append-nil}
use termon.Prelude.{
  ◌<◌, ◌≡◌, refl, sym, ◌∙◌, Bool, true, false, ◌&&◌, ◌||◌, not, Option, some, List, [], ◌∷◌, Runs,
  Runs-bind, Runs-mono, eqb, if◌then◌else◌, arith, inl, inr, Bool-cases, ◌>>=◌,
}
use termon.Machine.{Machine}
use termon.Battle.Types.{Side, other, Pair, both, pick, put, State, EndReason, Member, SideState}
use termon.Battle.State.{Battle, active_member, append_events, all_fainted}
use termon.Battle.Turn.{is_move, end_win, clear_turn_locks, execute_move, attack, play_moves}
use termon.Battle.Views.{is_damage, fielding_kind}
use termon.Battle.Invariant.{MemberOk, Sound}
use termon.Battle.Invariant.Lemmas.{active-some}
use termon.Battle.Invariant.Goes.{Goes, Goes-trans, Goes-Quiet, Calm, Calm-trans}
use termon.Battle.Invariant.Moves.{Alive, Struck, execute_move-Struck}
use termon.Battle.Invariant.Opening.{Down, Standing, both_alive, one_down, Knockout, IsOrder}

pub record Played {M : Machine} (b : Battle M) (r : Battle M × Bool) : Type 0 where
  pub goes : Goes b r.0
  pub ended : r.1 ≡ true → Knockout r.0
  pub going : r.1 ≡ false → Calm b r.0 × Standing r.0.sides

-- The fainted flag of an attack against the side's active Monster.
abbrev IsDown : Bool → SideState → Type 0
IsDown f s = Runs (λ m. f ≡ eqb m.hp 0) (active_member s)

Alive-of : (s : SideState) → IsDown false s → Alive s
Alive-of s h =
    Runs-mono (λ m. false ≡ eqb m.hp 0) (λ m. 0 < m.hp) (active_member s) h (λ m e. ground arith)

Down-of : (s : SideState) → IsDown true s → Down s
Down-of s h =
    Runs-mono (λ m. true ≡ eqb m.hp 0) (λ m. m.hp ≡ 0) (active_member s) h (λ m e. ground arith)

Alive-both :
    (p : Pair SideState) (a : Side)
    → Alive (pick p a)
    → Alive (pick p (other a))
    → (t : Side) → Alive (pick p t)
Alive-both p Side.first h k Side.first = h
Alive-both p Side.first h k Side.second = k
Alive-both p Side.second h k Side.first = k
Alive-both p Side.second h k Side.second = h

Alive-other-other :
    (p : Pair SideState) (a : Side) → Alive (pick p a) → Alive (pick p (other (other a)))
Alive-other-other p Side.first h = h
Alive-other-other p Side.second h = h

module _ {M : Machine} where
  -- A knockout is declared once the other side has nobody left.
  knockout-Played :
      (b c : Battle M) (a : Side)
      → Goes b c
      → c.state ≡ State.resolving_turn
      → all_fainted (pick c.sides (other a)) ≡ true
      → Runs (Played b) (end_win c a EndReason.ko >>= λ d. some (clear_turn_locks d, true))
  unfolding end_win clear_turn_locks append_events fielding_kind is_damage
  knockout-Played b c a g st beaten =
      let (w, e, _) = active-some (pick c.sides a) (g.sound.sides a) in
      rw (st, e)
        (record {
          goes = Goes-trans b c _ g (Goes-Quiet c _ _ refl refl (ground arith) g.sound);
          ended = λ _. record {
            victor = a;
            state = refl;
            reason = refl;
            winner = refl;
            beaten = beaten;
            unlocked = refl;
          };
          going = λ x. absurd (ground arith);
        })

  -- One attack, with what the rest of the loop does from the state that it leaves.
  attack-Played :
      (b : Battle M) (a : Side) (cancelled : Pair Bool)
      (next : Pair Bool → Battle M → Option (Battle M × Bool))
      → Sound b.sides b.events
      → ((t : Side) → Alive (pick b.sides t))
      → b.state ≡ State.resolving_turn
      → ((f : Bool) (c : Battle M)
          → Goes b c
          → Calm b c
          → Alive (pick c.sides a)
          → IsDown f (pick c.sides (other a))
          → all_fainted (pick c.sides (other a)) ≡ false
          → Runs (Played b) (next (if f then put cancelled (other a) true else cancelled) c))
      → Runs (Played b) (attack a cancelled next b)
  unfolding attack
  attack-Played b a cancelled next h alive st k =
      Runs-bind (Struck b a) (Played b) (execute_move b a (other a)) _
        (execute_move-Struck b a h (alive (other a)))
        λ r s.
          let (m, e, fine) =
            active-some (pick r.0.sides (other a)) (s.goes.sound.sides (other a)) in
          let flag : r.1 && m.fainted ≡ r.1 = same_flag r.1 m fine (rw e at s.target) in
          rw e (elim (Bool-cases (all_fainted (pick r.0.sides (other a)))) [
            | inl beaten ↦ rw beaten (knockout-Played b r.0 a s.goes (s.calm.state ∙ st) beaten)
            | inr left ↦
                rw (left, flag) (k r.1 r.0 s.goes s.calm (rw s.attacker (alive a)) s.target left)
          ])
    where
      same_flag : (f : Bool) (m : Member) → MemberOk m → f ≡ eqb m.hp 0 → f && m.fainted ≡ f
      same_flag f m fine d = ground arith

  Played-end : (b c : Battle M) → Goes b c → Calm b c → Standing c.sides → Played b (c, false)
  Played-end b c g q st = record {
    goes = g;
    ended = λ x. absurd (ground arith);
    going = λ _. (q, st);
  }

  Standing-after :
      (c : Battle M) (a : Side) (f : Bool)
      → Alive (pick c.sides a)
      → IsDown f (pick c.sides (other a))
      → all_fainted (pick c.sides (other a)) ≡ false
      → Standing c.sides
  Standing-after c a true up d left =
      one_down (other a) (Alive-other-other c.sides a up) (Down-of (pick c.sides (other a)) d) left
  Standing-after c a false up d left =
      both_alive (Alive-both c.sides a up (Alive-of (pick c.sides (other a)) d))

  Played-trans :
      (b c : Battle M) (r : Battle M × Bool) → Goes b c → Calm b c → Played c r → Played b r
  Played-trans b c r g q p = record {
    goes = Goes-trans b c r.0 g p.goes;
    ended = p.ended;
    going = λ e. let (q', st) = p.going e in (Calm-trans q q', st);
  }

  -- The last attacker of the turn.
  play_last :
      (b : Battle M) (a : Side) (cancelled : Pair Bool)
      → Sound b.sides b.events
      → ((t : Side) → Alive (pick b.sides t))
      → b.state ≡ State.resolving_turn
      → Runs (Played b) (play_moves (a ∷ []) cancelled b)
  unfolding play_moves
  play_last b a cancelled h alive st =
      elim (Bool-cases (pick cancelled a || not (is_move (pick b.actions a).kind))) [
        | inl skip ↦ rw skip (Played-end b b (stay b h) calm (both_alive alive))
        | inr go ↦ rw go (
            attack-Played b a cancelled _ h alive st
              (λ f c g q up d left. Played-end b c g q (Standing-after c a f up d left)))
      ]
    where
      calm : Calm b b
      calm = record { state = refl; actions = refl; locked = refl; replace_side = refl }

      stay : (b : Battle M) → Sound b.sides b.events → Goes b b
      stay b h = Goes-Quiet b b [] refl (sym (append-nil b.events)) tt h

  -- A fainted Monster's Move is cancelled.
  play_cancelled :
      (c : Battle M) (a : Side) → play_moves (a ∷ []) (put (both false) a true) c ≡ some (c, false)
  unfolding play_moves
  play_cancelled c Side.first = refl
  play_cancelled c Side.second = refl

  play_two :
      (b : Battle M) (a : Side)
      → Sound b.sides b.events
      → ((t : Side) → Alive (pick b.sides t))
      → b.state ≡ State.resolving_turn
      → Runs (Played b) (play_moves (a ∷ other a ∷ []) (both false) b)
  unfolding play_moves
  play_two b a h alive st =
      elim (Bool-cases (pick (both false) a || not (is_move (pick b.actions a).kind))) [
        | inl skip ↦ rw skip (play_last b (other a) (both false) h alive st)
        | inr go ↦ rw go (attack-Played b a (both false) _ h alive st second)
      ]
    where
      second :
          (f : Bool) (c : Battle M)
          → Goes b c
          → Calm b c
          → Alive (pick c.sides a)
          → IsDown f (pick c.sides (other a))
          → all_fainted (pick c.sides (other a)) ≡ false
          → Runs (Played b) (
              play_moves
                (other a ∷ [])
                (if f then put (both false) (other a) true else both false)
                c)
      second true c g q up d left =
          rw (play_cancelled c (other a)) (Played-end b c g q (Standing-after c a true up d left))
      second false c g q up d left =
          Runs-mono (Played c) (Played b) (play_moves (other a ∷ []) (both false) c)
            (play_last c (other a) (both false) g.sound
              (Alive-both c.sides a up (Alive-of (pick c.sides (other a)) d)) (q.state ∙ st))
            (λ r p. Played-trans b c r g q p)

  pub play_moves-Played :
      (b : Battle M) (order : List Side)
      → Sound b.sides b.events
      → ((t : Side) → Alive (pick b.sides t))
      → b.state ≡ State.resolving_turn
      → IsOrder order
      → Runs (Played b) (play_moves order (both false) b)
  play_moves-Played b [] h alive st o =
      unfold play_moves in
      Played-end b b (Goes-Quiet b b [] refl (sym (append-nil b.events)) tt h)
        (record { state = refl; actions = refl; locked = refl; replace_side = refl })
        (both_alive alive)
  play_moves-Played b (a ∷ []) h alive st o = play_last b a (both false) h alive st
  play_moves-Played b (a ∷ c ∷ []) h alive st o = rw o (play_two b a h alive st)
  play_moves-Played b (a ∷ c ∷ d ∷ rest) h alive st o = absurd o
