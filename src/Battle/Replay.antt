-- ===== src/Battle/Replay.antt =====
-- `FieldedHPAfter` of internal/battle/engine.go against the HP that the Battle had at that point of
-- its log.
use termon.Prelude.{
  ℕ, zero, suc, ◌+◌, ◌≡◌, refl, sym, ap, ◌∙◌, subst, String, true, false, some, List, [], ◌∷◌, ◌==◌,
  eq_iff, min, length, length-append, take, take-append-length, drop, drop-append-length, get_elem?,
  All-get, IsDistinct, contains, Runs, Runs-mono, arith,
}
use termon.Machine.{Machine}
use termon.Battle.Types.{Side, other, Pair, pick, Event, Member, SideState}
use termon.Battle.State.{Battle, active_member, index_of, member_index, side_index}
use termon.Battle.Calls.{Call, run}
use termon.Battle.Views.{
  FieldedHp, last_fielded, add_hp, give_back, plate, fielded_at, fielded_hp_after,
}
use termon.Battle.Invariant.{ids, damage_to, Wounded, IsApart, Shown, Sound}
use termon.Battle.Invariant.Lemmas.{ids-get_elem?}
use termon.Battle.Invariant.Goes.{Goes}
use termon.Battle.Invariant.Select.{Valid}
use termon.Battle.Invariant.Steps.{run-Valid}

give_back-damage_to :
    (you foe : String) (log : List Event) (p q : FieldedHp)
    → (you == foe) ≡ false
    → give_back you foe log (p, q) ≡ (add_hp p (damage_to you log), add_hp q (damage_to foe log))
unfolding give_back add_hp
give_back-damage_to you foe [] p q apart = ground arith
give_back-damage_to you foe (e ∷ es) p q apart =
    rw (give_back-damage_to you foe es p q apart)
      (ground (arith, eq_iff you foe, eq_iff e.target_id you, eq_iff e.target_id foe))

-- What a member of the earlier side has become in the later one.
record Found (log : List Event) (m : Member) (ms' : List Member) (k i : ℕ) : Type 0 where
  member : Member
  index : index_of m.id k ms' ≡ some (k + i)
  at : get_elem? ms' i ≡ some member
  same_id : member.id ≡ m.id
  same_max : member.max_hp ≡ m.max_hp
  hp : m.hp ≡ member.hp + damage_to m.id log

contains-get :
    (ms : List Member) (i : ℕ) (m : Member) (id : String)
    → get_elem? ms i ≡ some m
    → contains (ids ms) id ≡ false
    → (id == m.id) ≡ false
contains-get [] i m id h c = absurd (ground arith)
contains-get (x ∷ xs) zero m id h c = ground (arith, eq_iff x.id id, eq_iff id m.id)
contains-get (x ∷ xs) (suc i) m id h c = contains-get xs i m id h (ground arith)

find-Wounded :
    (log : List Event) (ms ms' : List Member) (i k : ℕ) (m : Member)
    → Wounded log ms ms'
    → IsDistinct (ids ms)
    → get_elem? ms i ≡ some m
    → Found log m ms' k i
unfolding index_of
find-Wounded log [] ms' i k m w d g = absurd (ground arith)
find-Wounded log (x ∷ xs) [] i k m w d g = absurd w
find-Wounded log (x ∷ xs) (y ∷ ys) zero k m w d g =
    let same : x ≡ m = ground arith in
    record {
      member = y;
      index = rw (← same) (ground (arith, eq_iff y.id x.id, w.0));
      at = refl;
      same_id = rw (← same) w.0;
      same_max = rw (← same) w.1;
      hp = rw (← same) w.2;
    }
find-Wounded log (x ∷ xs) (y ∷ ys) (suc i) k m w d g =
    let f = find-Wounded log xs ys i (k + 1) m w.3 d.1 g in
    let apart : (y.id == m.id) ≡ false = rw w.0 (contains-get xs i m x.id g d.0) in
    record {
      member = f.member;
      index = ground (arith, apart, f.index);
      at = f.at;
      same_id = f.same_id;
      same_max = f.same_max;
      hp = f.hp;
    }

-- The plate of a member.
abbrev pub plate_of : Member → FieldedHp
plate_of m = record { monster_id = m.id; hp = m.hp; max_hp = m.max_hp }

member_index-Found :
    (log : List Event) (m : Member) (s' : SideState) (i : ℕ)
    → Found log m s'.members 0 i
    → member_index s' m.id ≡ some i
unfolding member_index
member_index-Found log m s' i f = f.index ∙ ap some (omega arith)

plate-member_index :
    (s : SideState) (id : String) (i : ℕ) (m : Member)
    → member_index s id ≡ some i
    → get_elem? s.members i ≡ some m
    → plate s id ≡ plate_of m
unfolding plate
plate-member_index s id i m e g = rw (plate, e, g) refl

plate-Found :
    (log : List Event) (m : Member) (s' : SideState) (i : ℕ)
    → Found log m s'.members 0 i
    → add_hp (plate s' m.id) (damage_to m.id log) ≡ plate_of m
unfolding add_hp
plate-Found log m s' i f =
    rw (plate-member_index s' m.id i f.member (member_index-Found log m s' i f) f.at)
      (ground (arith, f.same_id, f.same_max, f.hp))

contains_self :
    (xs : List String) (i : ℕ) (x : String) → get_elem? xs i ≡ some x → contains xs x ≡ true
contains_self [] i x h = absurd (ground arith)
contains_self (y ∷ ys) zero x h = ground (arith, eq_iff y x)
contains_self (y ∷ ys) (suc i) x h = ground (arith, contains_self ys i x h)

-- The active Monsters of the two sides have different ids.
IsApart-active :
    (p : Pair SideState) (t : Side) (m w : Member)
    → IsApart p
    → active_member (pick p t) ≡ some m
    → active_member (pick p (other t)) ≡ some w
    → (m.id == w.id) ≡ false
unfolding active_member
IsApart-active p t m w apart e g =
    let absent =
      All-get (λ id. contains (ids (pick p (other t)).members) id ≡ false) (ids (pick p t).members)
        (pick p t).active m.id (apart t) (ids-get_elem? (pick p t).members (pick p t).active m e) in
    let there =
      contains_self (ids (pick p (other t)).members) (pick p (other t)).active w.id
        (ids-get_elem? (pick p (other t)).members (pick p (other t)).active w g) in
    ground (arith, eq_iff m.id w.id)

Shown-some :
    (events : List Event) (s : SideState) (m : Member)
    → Shown events s
    → active_member s ≡ some m
    → last_fielded s.trainer events ≡ some m.id
Shown-some events s m h e = rw e at h

module _ {M : Machine} where
  -- The plate that a later Battle shows for a side, with the later damage given back.
  plate_back :
      (b c : Battle M) (g : Goes b c) (t : Side) (m : Member)
      → Sound b.sides b.events
      → IsApart b.sides
      → active_member (pick b.sides t) ≡ some m
      → add_hp (plate (pick c.sides t) m.id) (damage_to m.id g.log) ≡ plate_of m
  unfolding active_member
  plate_back b c g t m h apart e = plate-Found g.log m (pick c.sides t) (pick b.sides t).active (
      find-Wounded g.log (pick b.sides t).members (pick c.sides t).members (pick b.sides t).active 0
        m (g.passage.wounds apart t) (h.sides t).distinct e)

  fielded_at-Goes :
      (b c : Battle M) (g : Goes b c) (t : Side) (m : Member)
      → Sound b.sides b.events
      → active_member (pick b.sides t) ≡ some m
      → fielded_at c t (length b.events) ≡ some m.id
  unfolding fielded_at
  fielded_at-Goes b c g t m h e =
      let last : last_fielded (pick c.sides t).trainer (take (length b.events) c.events)
          ≡ some m.id =
        subst (λ l. last_fielded (pick c.sides t).trainer l ≡ some m.id)
          (sym (ap (take (length b.events)) g.events ∙ take-append-length b.events g.log))
          (subst (λ n. last_fielded n b.events ≡ some m.id) (sym (g.passage.trainers t))
            (Shown-some b.events (pick b.sides t) m (h.shown t) e)) in
      rw (fielded_at, last) refl

  side_index-Goes :
      (b c : Battle M) (viewer : String) → Goes b c → side_index c viewer ≡ side_index b viewer
  unfolding side_index
  side_index-Goes b c viewer g =
      rw (g.passage.trainers Side.first, g.passage.trainers Side.second) refl

  -- The length of the log is in its bounds later.
  min-Goes :
      (b c : Battle M) (g : Goes b c) → min (length b.events) (length c.events) ≡ length b.events
  min-Goes b c g = rw g.events (omega (arith, length-append b.events g.log))

  -- `FieldedHPAfter` once its reads are known.
  fielded_hp_after-reads :
      (c : Battle M) (viewer : String) (t : Side) (n k : ℕ) (you foe : String)
      → side_index c viewer ≡ some t
      → min n (length c.events) ≡ k
      → fielded_at c t k ≡ some you
      → fielded_at c (other t) k ≡ some foe
      → fielded_hp_after c viewer n
        ≡ some (
            give_back you foe
              (drop k c.events)
              (plate (pick c.sides t) you, plate (pick c.sides (other t)) foe))
  unfolding fielded_hp_after
  fielded_hp_after-reads c viewer t n k you foe v l e f = rw (fielded_hp_after, v, l, e, f) refl

  replay-Goes :
      (b c : Battle M) (g : Goes b c) (viewer : String) (t : Side) (m w : Member)
      → Sound b.sides b.events
      → IsApart b.sides
      → side_index b viewer ≡ some t
      → active_member (pick b.sides t) ≡ some m
      → active_member (pick b.sides (other t)) ≡ some w
      → fielded_hp_after c viewer (length b.events) ≡ some (plate_of m, plate_of w)
  replay-Goes b c g viewer t m w h apart v e f =
      let later : drop (length b.events) c.events ≡ g.log =
        ap (drop (length b.events)) g.events ∙ drop-append-length b.events g.log in
      fielded_hp_after-reads c viewer t (length b.events) (length b.events) m.id w.id
        (side_index-Goes b c viewer g ∙ v) (min-Goes b c g) (fielded_at-Goes b c g t m h e)
        (fielded_at-Goes b c g (other t) w h f)
      ∙ rw
          (
            later,
            give_back-damage_to m.id w.id g.log _ _ (IsApart-active b.sides t m w apart e f),
            plate_back b c g t m h apart e,
            plate_back b c g (other t) w h apart f,
          )
          refl

  -- Take a valid Battle `b` in which no Monster id stands in both parties, a Trainer of it and the two
  -- active Monsters. After every history of calls, `FieldedHPAfter` at the length that the log of `b`
  -- had returns the id, the HP and the maximal HP that these two Monsters had in `b`, the Trainer's
  -- own first.
  pub fielded_hp_after-run :
      (b : Battle M) (cs : List Call) (viewer : String) (t : Side) (m w : Member)
      → Valid b
      → IsApart b.sides
      → side_index b viewer ≡ some t
      → active_member (pick b.sides t) ≡ some m
      → active_member (pick b.sides (other t)) ≡ some w
      → Runs
          (λ c. fielded_hp_after c viewer (length b.events) ≡ some (plate_of m, plate_of w))
          (run b cs)
  fielded_hp_after-run b cs viewer t m w v apart found e f =
      Runs-mono (λ c. Goes b c × Valid c) _ (run b cs) (run-Valid b cs v)
        (λ c g. replay-Goes b c g.0 viewer t m w v.sound apart found e f)
