-- ===== src/Battle/Invariant/Opening.antt =====
-- What the turn does before the moves: the switches, and the order of the moves. Also the
-- predicates on the sides that the turn passes on.
use mathlib.Core.List.{append-nil}
use termon.Prelude.{
  ℕ, suc, ◌+◌, ◌<◌, ◌≡◌, refl, sym, ap, ◌∙◌, String, Bool, true, false, Option, none, some, List,
  [], ◌∷◌, get_elem?, All, Runs, Runs-bind, Runs-mono, Runs-some, eqb, ltb, if◌then◌else◌, arith,
  inl, inr, Bool-cases, Option-cases,
}
use termon.Machine.{Machine}
use termon.Battle.Types.{Side, other, Pair, both, pick, Action, State, EndReason, Member, SideState}
use termon.Battle.State.{
  Battle, active_member, append_events, valid_switch, member_index, has_healthy_reserve,
  has_reserve_from, all_fainted, members_fainted,
}
use termon.Battle.Turn.{
  is_move, is_switch, execute_switch, execute_switches, collect_moves, move_order,
}
use termon.Battle.Views.{is_damage, fielding_kind}
use termon.Battle.Invariant.{MemberOk, SideOk, Sound}
use termon.Battle.Invariant.Lemmas.{pick-put_self, pick-put_ne}
use termon.Battle.Invariant.Goes.{Goes, Goes-trans, Goes-Quiet, Calm, Calm-trans}
use termon.Battle.Invariant.Writes.{Goes-field}
use termon.Battle.Invariant.Moves.{Hush, Hush-roll, Alive}

-- A locked switch names a healthy reserve.
abbrev pub Legal : SideState → Action → Type 0
Legal s a = is_switch a.kind ≡ true → valid_switch s a.switch_to ≡ true

abbrev pub Down : SideState → Type 0
Down s = Runs (λ m. m.hp ≡ 0) (active_member s)

-- What the pending replacement says of the sides.
abbrev pub Ready : Pair SideState → Option Side → Type 0
Ready p none = (t : Side) → Alive (pick p t)
Ready p (some t) =
    Alive (pick p (other t)) × Down (pick p t) × (has_healthy_reserve (pick p t) ≡ true)

-- After the moves: nobody is down, or one side is and has somebody left.
pub data Standing (p : Pair SideState) : Type 0 where
  both_alive : ((t : Side) → Alive (pick p t)) → Standing p
  one_down :
      (t : Side)
      → Alive (pick p (other t))
      → Down (pick p t)
      → all_fainted (pick p t) ≡ false
      → Standing p

-- The Battle is over because one side has nobody left.
pub record Knockout {M : Machine} (b : Battle M) : Type 0 where
  pub victor : Side
  pub state : b.state ≡ State.over
  pub reason : b.reason ≡ EndReason.ko
  pub winner : b.winner ≡ (pick b.sides victor).trainer
  pub beaten : all_fainted (pick b.sides (other victor)) ≡ true
  pub unlocked : b.locked ≡ both false

pub valid_switch-some :
    (s : SideState) (id : String)
    → valid_switch s id ≡ true
    → (i : ℕ) × (m : Member) × (member_index s id ≡ some i)
      × (get_elem? s.members i ≡ some m)
      × (0 < m.hp)
unfolding valid_switch
valid_switch-some s id h = elim (Option-cases (member_index s id)) [
  | inl e ↦ absurd (ground arith)
  | inr (i, e) ↦ elim (Option-cases (get_elem? s.members i)) [
    | inl g ↦ absurd (ground arith)
    | inr (m, g) ↦ (i, m, e, g, ground arith)
  ]
]

reserve-from :
    (active i : ℕ) (ms : List Member)
    → All MemberOk ms
    → members_fainted ms ≡ false
    → ((j : ℕ) (m : Member) → get_elem? ms j ≡ some m → i + j ≡ active → m.hp ≡ 0)
    → has_reserve_from active i ms ≡ true
unfolding has_reserve_from members_fainted
reserve-from active i [] ok left down = ground arith
reserve-from active i (m ∷ ms) ok left down = elim (Bool-cases m.fainted) [
  | inl f ↦
      let rest =
        reserve-from active (i + 1) ms ok.1 (ground arith)
          (λ j x g e. down (suc j) x g (omega arith)) in
      ground arith
  | inr f ↦ ground (arith, down 0 m refl)
]

-- A side that is down but not beaten has a healthy reserve, so the other branch is never taken.
pub has_healthy_reserve-Down :
    (s : SideState) → SideOk s → Down s → all_fainted s ≡ false → has_healthy_reserve s ≡ true
unfolding has_healthy_reserve all_fainted active_member
has_healthy_reserve-Down s v d left =
    reserve-from s.active 0 s.members v.members left
      (λ j m g e. let k : j ≡ s.active = omega arith in Runs-some m (rw k at g) d)
  where
    Runs-some :
        (m : Member)
        → get_elem? s.members s.active ≡ some m
        → Runs (λ m. m.hp ≡ 0) (get_elem? s.members s.active)
        → m.hp ≡ 0
    Runs-some m g d = rw g at d

-- The order names each side at most once.
abbrev pub IsOrder : List Side → Type 0
IsOrder [] = Unit
IsOrder (a ∷ []) = Unit
IsOrder (a ∷ c ∷ []) = c ≡ other a
IsOrder (a ∷ c ∷ d ∷ rest) = ⊥

other-other : (a : Side) → other (other a) ≡ a
other-other Side.first = refl
other-other Side.second = refl

tied :
    (late : Bool) (a c : Side)
    → a ≡ other c
    → c ≡ other a
    → IsOrder (if late then c ∷ a ∷ [] else a ∷ c ∷ [])
tied true a c back o = back
tied false a c back o = o

-- The record of a switch: the side's active Monster is alive, and the other side is as it was.
record Switched {M : Machine} (b : Battle M) (t : Side) (b' : Battle M) : Type 0 where
  goes : Goes b b'
  calm : Calm b b'
  alive : Alive (pick b'.sides t)
  same : pick b'.sides (other t) ≡ pick b.sides (other t)

module _ {M : Machine} where
  execute_switch-Switched :
      (b : Battle M) (t : Side)
      → Sound b.sides b.events
      → Legal (pick b.sides t) (pick b.actions t)
      → Alive (pick b.sides t)
      → Runs (Switched b t) (execute_switch b t)
  unfolding execute_switch append_events fielding_kind is_damage active_member
  execute_switch-Switched b t h legal alive =
      elim (Bool-cases (is_switch (pick b.actions t).kind)) [
        | inl sw ↦
            let (i, m, e, g, hp) =
              valid_switch-some (pick b.sides t) (pick b.actions t).switch_to (legal sw) in
            rw (sw, e, g)
              (record {
                goes = Goes-field b _ t i m _ h g refl refl refl refl refl refl;
                calm = record { state = refl; actions = refl; locked = refl; replace_side = refl };
                alive = rw (pick-put_self, g) hp;
                same = pick-put_ne b.sides t _;
              })
        | inr no_sw ↦ rw no_sw (record {
          goes = Goes-Quiet b b [] refl (sym (append-nil b.events)) tt h;
          calm = record { state = refl; actions = refl; locked = refl; replace_side = refl };
          alive = alive;
          same = refl;
        })
      ]

  -- Both switches, from two live Monsters.
  pub record Lined (b b' : Battle M) : Type 0 where
    pub goes : Goes b b'
    pub calm : Calm b b'
    pub alive : (t : Side) → Alive (pick b'.sides t)

  pub execute_switches-Lined :
      (b : Battle M)
      → Sound b.sides b.events
      → ((t : Side) → Legal (pick b.sides t) (pick b.actions t))
      → ((t : Side) → Alive (pick b.sides t))
      → Runs (Lined b) (execute_switches b)
  unfolding execute_switches
  execute_switches-Lined b h legal alive =
      Runs-bind (Switched b Side.first) (Lined b) (execute_switch b Side.first) _
        (execute_switch-Switched b Side.first h (legal Side.first) (alive Side.first))
        λ c k.
          Runs-mono (Switched c Side.second) (Lined b) (execute_switch c Side.second)
            (execute_switch-Switched c Side.second k.goes.sound
              (rw (k.calm.actions, k.same) (legal Side.second)) (rw k.same (alive Side.second)))
            λ d l. record {
              goes = Goes-trans b c d k.goes l.goes;
              calm = Calm-trans k.calm l.calm;
              alive = elim [ Side.first ↦ rw l.same k.alive | Side.second ↦ l.alive ];
            }

  pub collect_moves-IsOrder : (b : Battle M) → IsOrder (collect_moves b)
  unfolding collect_moves
  collect_moves-IsOrder b = elim (Bool-cases (is_move b.actions.at_first.kind)) [
    | inl p ↦ elim (Bool-cases (is_move b.actions.at_second.kind)) [
      | inl q ↦ rw (p, q) refl
      | inr q ↦ rw (p, q) tt
    ]
    | inr p ↦ elim (Bool-cases (is_move b.actions.at_second.kind)) [
      | inl q ↦ rw (p, q) tt
      | inr q ↦ rw (p, q) tt
    ]
  ]

  pub record Arranged (b : Battle M) (r : List Side × Battle M) : Type 0 where
    pub hush : Hush b r.1
    pub order : IsOrder r.0

  pub move_order-Arranged :
      (b : Battle M) (moves : List Side)
      → ((t : Side) → Alive (pick b.sides t))
      → IsOrder moves
      → Runs (Arranged b) (move_order b moves)
  unfolding move_order
  move_order-Arranged b [] alive o = record { hush = Hush-roll b b.rng; order = tt }
  move_order-Arranged b (a ∷ []) alive o = record { hush = Hush-roll b b.rng; order = tt }
  move_order-Arranged b (a ∷ c ∷ []) alive o =
      let (m, e, _) = Runs-some (λ m. 0 < m.hp) (active_member (pick b.sides a)) (alive a) in
      let (n, g, _) = Runs-some (λ m. 0 < m.hp) (active_member (pick b.sides c)) (alive c) in
      let back : a ≡ other c = sym (other-other a) ∙ ap other (sym o) in
      rw (e, g)
        (elim (Bool-cases (ltb m.spe n.spe)) [
          | inl slower ↦ rw slower (record { hush = Hush-roll b b.rng; order = back })
          | inr not_slower ↦ rw not_slower (elim (Bool-cases (eqb n.spe m.spe)) [
            | inl tie ↦ rw tie (record {
              hush = Hush-roll b (M.roll b.rng).1;
              order = tied (M.at_least (M.roll b.rng).0 (M.literal 5 10)) a c back o;
            })
            | inr faster ↦ rw faster (record { hush = Hush-roll b b.rng; order = o })
          ])
        ])
  move_order-Arranged b (a ∷ c ∷ d ∷ rest) alive o = absurd o
