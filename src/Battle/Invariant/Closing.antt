-- ===== src/Battle/Invariant/Closing.antt =====
-- The end of `resolveTurn`, and the whole of it.
use mathlib.Core.List.{append-nil}
use termon.Prelude.{
  ◌<◌, ◌≡◌, refl, sym, ◌∙◌, Bool, true, false, none, some, [], Runs, Runs-bind, Runs-mono,
  if◌then◌else◌, arith, inl, inr, ◌⊎◌,
}
use termon.Machine.{Machine}
use termon.Battle.Types.{Side, both, pick, State, Member, SideState}
use termon.Battle.State.{Battle, active_member, append_events}
use termon.Battle.Turn.{
  is_over, clear_turn_locks, execute_switches, collect_moves, move_order, play_moves,
  replace_or_end, check_replacement, close_turn, open_turn, resolve_turn,
}
use termon.Battle.Views.{is_damage, fielding_kind}
use termon.Battle.Invariant.{SideOk, Sound}
use termon.Battle.Invariant.Lemmas.{active-some}
use termon.Battle.Invariant.Goes.{Goes, Goes-trans, Goes-Quiet}
use termon.Battle.Invariant.Moves.{Goes-Hush, Alive}
use termon.Battle.Invariant.Opening.{
  Legal, Down, Ready, Standing, both_alive, one_down, Knockout, Lined, Arranged,
  execute_switches-Lined, collect_moves-IsOrder, move_order-Arranged, has_healthy_reserve-Down,
}
use termon.Battle.Invariant.Turns.{Played, play_moves-Played}

-- The Battle plays the turn back, and a replacement is due exactly when an active Monster is down.
pub record Revealing {M : Machine} (b : Battle M) : Type 0 where
  pub state : b.state ≡ State.revealing
  pub unlocked : b.locked ≡ both false
  pub ready : Ready b.sides b.replace_side

pub record Resolved {M : Machine} (b b' : Battle M) : Type 0 where
  pub goes : Goes b b'
  pub outcome : Knockout b' ⊎ Revealing b'

Alive-fainted :
    (s : SideState)
    → SideOk s
    → Alive s
    → (m : Member) × (active_member s ≡ some m) × (m.fainted ≡ false)
Alive-fainted s v h =
    let (m, e, fine) = active-some s v in let up : 0 < m.hp = rw e at h in (m, e, ground arith)

Down-fainted :
    (s : SideState)
    → SideOk s
    → Down s
    → (m : Member) × (active_member s ≡ some m) × (m.fainted ≡ true)
Down-fainted s v h =
    let (m, e, fine) = active-some s v in let down : m.hp ≡ 0 = rw e at h in (m, e, ground arith)

module _ {M : Machine} where
  record Closed (b b' : Battle M) : Type 0 where
    goes : Goes b b'
    revealing : Revealing b'

  close_turn-Closed :
      (b : Battle M)
      → Sound b.sides b.events
      → b.state ≡ State.resolving_turn
      → b.replace_side ≡ none
      → Standing b.sides
      → Runs (Closed b) (close_turn b)
  unfolding close_turn clear_turn_locks check_replacement
  close_turn-Closed b h st r (both_alive alive) =
      let no : is_over b.state ≡ false = rw st refl in
      let (m, e, f) = Alive-fainted b.sides.at_first (h.sides Side.first) (alive Side.first) in
      let (n, g, k) = Alive-fainted b.sides.at_second (h.sides Side.second) (alive Side.second) in
      rw (no, e, f, g, k)
        (record {
          goes = Goes-Quiet b _ [] refl (sym (append-nil b.events)) tt h;
          revealing = record { state = refl; unlocked = refl; ready = rw r alive };
        })
  close_turn-Closed b h st r (one_down Side.first up d left) =
      let no : is_over b.state ≡ false = rw st refl in
      let (m, e, f) = Down-fainted b.sides.at_first (h.sides Side.first) d in
      let reserve = has_healthy_reserve-Down b.sides.at_first (h.sides Side.first) d left in
      unfold replace_or_end in
      rw (no, e, f, reserve)
        (record {
          goes = Goes-Quiet b _ [] refl (sym (append-nil b.events)) tt h;
          revealing = record { state = refl; unlocked = refl; ready = (up, d, reserve) };
        })
  close_turn-Closed b h st r (one_down Side.second up d left) =
      let no : is_over b.state ≡ false = rw st refl in
      let (m, e, f) = Alive-fainted b.sides.at_first (h.sides Side.first) up in
      let (n, g, k) = Down-fainted b.sides.at_second (h.sides Side.second) d in
      let reserve = has_healthy_reserve-Down b.sides.at_second (h.sides Side.second) d left in
      unfold replace_or_end in
      rw (no, e, f, g, k, reserve)
        (record {
          goes = Goes-Quiet b _ [] refl (sym (append-nil b.events)) tt h;
          revealing = record { state = refl; unlocked = refl; ready = (up, d, reserve) };
        })

  open_turn-Goes : (b : Battle M) → Sound b.sides b.events → Goes b (open_turn b)
  unfolding open_turn append_events fielding_kind is_damage
  open_turn-Goes b h = Goes-Quiet b _ _ refl refl (ground arith) h

  open_turn_lem :
      (b : Battle M)
      → ((open_turn b).state ≡ State.resolving_turn)
        × ((open_turn b).sides ≡ b.sides)
        × ((open_turn b).actions ≡ b.actions)
        × ((open_turn b).replace_side ≡ b.replace_side)
  unfolding open_turn append_events
  open_turn_lem b = (refl, refl, refl, refl)

  finish :
      (b c : Battle M) (r : Battle M × Bool)
      → Goes b c
      → Played c r
      → c.state ≡ State.resolving_turn
      → c.replace_side ≡ none
      → Runs (Resolved b) (if r.1 then some r.0 else close_turn r.0)
  finish b c (d, true) g p st n = record {
    goes = Goes-trans b c d g p.goes;
    outcome = inl (p.ended refl);
  }
  finish b c (d, false) g p st n =
      let (q, standing) = p.going refl in
      Runs-mono (Closed d) (Resolved b) (close_turn d)
        (close_turn-Closed d p.goes.sound (q.state ∙ st) (q.replace_side ∙ n) standing)
        λ e k. record {
          goes = Goes-trans b c e g (Goes-trans c d e p.goes k.goes);
          outcome = inr k.revealing;
        }

  -- From two live active Monsters and legal actions, the turn resolves.
  pub resolve_turn-Resolved :
      (b : Battle M)
      → Sound b.sides b.events
      → ((t : Side) → Alive (pick b.sides t))
      → ((t : Side) → Legal (pick b.sides t) (pick b.actions t))
      → b.replace_side ≡ none
      → Runs (Resolved b) (resolve_turn b)
  unfolding resolve_turn
  resolve_turn-Resolved b h alive legal n =
      let g = open_turn-Goes b h in
      let (st, same, acts, rep) = open_turn_lem b in
      Runs-bind (Lined (open_turn b)) (Resolved b) (execute_switches (open_turn b)) _
        (execute_switches-Lined (open_turn b) g.sound (rw (same, acts) legal) (rw same alive))
        λ c k.
          Runs-bind (Arranged c) (Resolved b) (move_order c (collect_moves c)) _
            (move_order-Arranged c (collect_moves c) k.alive (collect_moves-IsOrder c))
            λ o a.
              let d = o.1 in
              let to_d =
                Goes-trans b c d (Goes-trans b (open_turn b) c g k.goes)
                  (Goes-Hush c d a.hush k.goes.sound) in
              let st' : d.state ≡ State.resolving_turn = a.hush.calm.state ∙ k.calm.state ∙ st in
              let none' : d.replace_side ≡ none =
                a.hush.calm.replace_side ∙ k.calm.replace_side ∙ rep ∙ n in
              Runs-bind (Played d) (Resolved b) (play_moves o.0 (both false) d) _
                (play_moves-Played d o.0 to_d.sound (rw (a.hush.sides) k.alive) st' a.order)
                λ r p. finish b d r to_d p st' none'
