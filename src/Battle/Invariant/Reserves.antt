-- ===== src/Battle/Invariant/Reserves.antt =====
-- A side with a healthy reserve has a legal replacement, and its Trainer's name finds the side.
use termon.Prelude.{
  ℕ, zero, suc, ◌+◌, ◌<◌, ◌≡◌, refl, ap, ◌∙◌, String, true, false, ◌&&◌, not, some, List, [], ◌∷◌,
  ltb, eqb, ◌==◌, eq_iff, get_elem?, IsDistinct, contains, arith, Bool-cases, inl, inr,
}
use termon.Machine.{Machine}
use termon.Battle.Types.{Side, pick, Member, SideState}
use termon.Battle.State.{
  Battle, index_of, member_index, has_reserve_from, has_healthy_reserve, valid_switch, side_index,
}
use termon.Battle.Invariant.{ids, Sound}

-- The entry that makes the scan return true.
record Reserve (active k : ℕ) (ms : List Member) : Type 0 where
  index : ℕ
  member : Member
  at : get_elem? ms index ≡ some member
  inactive : eqb (k + index) active ≡ false
  upright : member.fainted ≡ false
  hp : 0 < member.hp

find-Reserve :
    (active k : ℕ) (ms : List Member) → has_reserve_from active k ms ≡ true → Reserve active k ms
unfolding has_reserve_from
find-Reserve active k [] h = absurd (ground arith)
find-Reserve active k (m ∷ ms) h =
    elim (Bool-cases (not (eqb k active) && not m.fainted && ltb 0 m.hp)) [
      | inl here ↦ record {
        index = 0;
        member = m;
        at = refl;
        inactive = ground arith;
        upright = ground arith;
        hp = ground arith;
      }
      | inr next ↦
          let r = find-Reserve active (k + 1) ms (ground arith) in
          record {
            index = suc r.index;
            member = r.member;
            at = r.at;
            inactive = ground (arith, r.inactive);
            upright = r.upright;
            hp = r.hp;
          }
    ]

contains-get :
    (ms : List Member) (i : ℕ) (m : Member) (id : String)
    → get_elem? ms i ≡ some m
    → contains (ids ms) id ≡ false
    → (id == m.id) ≡ false
contains-get [] i m id h c = absurd (ground arith)
contains-get (x ∷ xs) zero m id h c = ground (arith, eq_iff x.id id, eq_iff id m.id)
contains-get (x ∷ xs) (suc i) m id h c = contains-get xs i m id h (ground arith)

index_of-get :
    (ms : List Member) (i k : ℕ) (m : Member)
    → get_elem? ms i ≡ some m
    → IsDistinct (ids ms)
    → index_of m.id k ms ≡ some (k + i)
unfolding index_of
index_of-get [] i k m g d = absurd (ground arith)
index_of-get (x ∷ xs) zero k m g d = ground (arith, eq_iff x.id m.id)
index_of-get (x ∷ xs) (suc i) k m g d =
    ground (arith, index_of-get xs i (k + 1) m g d.1, contains-get xs i m x.id g d.0)

-- The healthy reserve's id passes the check of a switch.
pub healthy-valid_switch :
    (s : SideState)
    → IsDistinct (ids s.members)
    → has_healthy_reserve s ≡ true
    → (id : String) × (valid_switch s id ≡ true)
unfolding has_healthy_reserve valid_switch member_index
healthy-valid_switch s d h =
    let r = find-Reserve s.active 0 s.members h in
    let e : member_index s r.member.id ≡ some r.index =
      index_of-get s.members r.index 0 r.member r.at d ∙ ap some (omega arith) in
    (r.member.id, rw (valid_switch, e, r.at) (ground (arith, r.inactive, r.upright, r.hp)))

pub side_index-trainer :
    {M : Machine} (b : Battle M) (t : Side)
    → Sound b.sides b.events
    → side_index b (pick b.sides t).trainer ≡ some t
unfolding side_index
side_index-trainer b Side.first h =
    ground (arith, eq_iff b.sides.at_first.trainer b.sides.at_first.trainer)
side_index-trainer b Side.second h = ground (
  arith,
  eq_iff b.sides.at_first.trainer b.sides.at_second.trainer,
  eq_iff b.sides.at_second.trainer b.sides.at_second.trainer,
  h.rivals,
)
