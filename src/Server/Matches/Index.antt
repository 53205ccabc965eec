-- ===== src/Server/Matches/Index.antt =====
-- The index of the match registry: a PvP match stands under both of its Trainers or under neither, a solo
-- match under its one Trainer.
use termon.Prelude.{
  subst, refl, Bool, Option, String, arith, false, if◌then◌else◌, inl, inr, none, some, true, ◌&&◌,
  ◌==◌, ◌||◌, ◌≡◌, Bool-cases,
}
use termon.Prelude.Dict.{insert, Dict, lookup, lookup-insert, lookup-delete}
use termon.Server.Matches.{HubMatch, drop_entry, same_id}
use text.Mathlib.TextEquality.{eq_iff}

-- The entry of a Trainer leads to a match of that Trainer: a PvP match stands under both of its Trainers,
-- and a solo match was started by this one.
unfoldable pub is_seated : Dict String → Option HubMatch → String → String → Bool
is_seated index none k id = false
is_seated index (some m) k id =
    if m.solo
    then k == m.a && same_id (lookup m.a index) id
    else (k == m.a || k == m.b) && (same_id (lookup m.a index) id && same_id (lookup m.b index) id)

unfoldable pub has_name : Option HubMatch → String → Bool
has_name none id = true
has_name (some m) id = m.id == id

pub record IsPaired (index : Dict String) (objects : Dict HubMatch) : Type 0 where
  pub named : (id : String) → has_name (lookup id objects) id ≡ true
  pub seated :
      (k id : String)
      → same_id (lookup k index) id ≡ true
      → is_seated index (lookup id objects) k id ≡ true

pub lookup-drop_entry :
    (k id j : String) (index : Dict String)
    → lookup j (drop_entry k id index)
      ≡ (if k == j && same_id (lookup k index) id then none else lookup j index)
unfolding drop_entry
lookup-drop_entry k id j index = elim (Bool-cases (same_id (lookup k index) id)) [
  | inl here ↦ rw here ground (arith, here, lookup-delete k j index)
  | inr there ↦ rw there ground (arith, there)
]

-- A match that is written back with its id and its Trainers stays where it is.
put-has_name :
    (objects : Dict HubMatch) (id j : String) (old m : HubMatch)
    → lookup id objects ≡ some old
    → m.id ≡ old.id
    → has_name (lookup id objects) id ≡ true
    → has_name (lookup j objects) j ≡ true
    → has_name (lookup j (insert id m objects)) j ≡ true
unfolding has_name
put-has_name objects id j old m there same_name h k =
    ground (arith, eq_iff id j, eq_iff old.id id, eq_iff m.id j, lookup-insert id j m objects)

put-is_seated :
    (index : Dict String) (objects : Dict HubMatch) (id k j : String) (old m : HubMatch)
    → lookup id objects ≡ some old
    → m.solo ≡ old.solo
    → m.a ≡ old.a
    → m.b ≡ old.b
    → is_seated index (lookup j objects) k j ≡ true
    → is_seated index (lookup j (insert id m objects)) k j ≡ true
unfolding is_seated
put-is_seated index objects id k j old m there same_mode same_a same_b h =
    ground (arith, eq_iff id j, lookup-insert id j m objects)

pub put-IsPaired :
    (index : Dict String) (objects : Dict HubMatch) (id : String) (old m : HubMatch)
    → lookup id objects ≡ some old
    → m.id ≡ old.id
    → m.solo ≡ old.solo
    → m.a ≡ old.a
    → m.b ≡ old.b
    → IsPaired index objects
    → IsPaired index (insert id m objects)
put-IsPaired index objects id old m there same_name same_mode same_a same_b h = record {
  named = λ j. put-has_name objects id j old m there same_name (h.named id) (h.named j);
  seated = λ k j sits.
      put-is_seated index objects id k j old m there same_mode same_a same_b (h.seated k j sits);
}

-- Both entries of a match go together.
lookup-drop_both :
    (a b id k : String) (index : Dict String)
    → lookup k (drop_entry b id (drop_entry a id index))
      ≡ (if (a == k || b == k) && same_id (lookup k index) id then none else lookup k index)
unfolding same_id
lookup-drop_both a b id k index = ground (
  arith,
  eq_iff a k,
  eq_iff b k,
  eq_iff a b,
  lookup-drop_entry b id k (drop_entry a id index),
  lookup-drop_entry a id k index,
  lookup-drop_entry a id b index,
)

pub same_id-other :
    (o : Option String) (id j : String)
    → id == j ≡ false
    → same_id o id ≡ true
    → same_id o j ≡ false
unfolding same_id
same_id-other none id j other h = refl
same_id-other (some cur) id j other h =
    ground (arith, h, other, eq_iff cur id, eq_iff cur j, eq_iff id j)

-- The entries of the other matches stay.
pub same_id-drop_both :
    (a b id k j : String) (index : Dict String)
    → id == j ≡ false
    → same_id (lookup k (drop_entry b id (drop_entry a id index))) j ≡ same_id (lookup k index) j
unfolding same_id
same_id-drop_both a b id k j index other =
    ground
      (arith, other, same_id-other (lookup k index) id j other, lookup-drop_both a b id k index)

is_seated-drop_both :
    (a b id k j : String) (index : Dict String) (o : Option HubMatch)
    → id == j ≡ false
    → is_seated index o k j ≡ true
    → is_seated (drop_entry b id (drop_entry a id index)) o k j ≡ true
unfolding is_seated
is_seated-drop_both a b id k j index none other h = h
is_seated-drop_both a b id k j index (some m) other h =
    rw (same_id-drop_both a b id m.a j index other, same_id-drop_both a b id m.b j index other) h

-- A Trainer of the match has no entry for it any more.
same_id-drop_own :
    (index : Dict String) (id k : String) (m : HubMatch)
    → is_seated index (some m) k id ≡ true
    → same_id (lookup k (drop_entry m.b id (drop_entry m.a id index))) id ≡ false
unfolding is_seated same_id
same_id-drop_own index id k m h = ground (
  arith,
  eq_iff m.a k,
  eq_iff m.b k,
  eq_iff k m.a,
  eq_iff k m.b,
  h,
  lookup-drop_both m.a m.b id k index,
)

same_id-drop_both-old :
    (a b id k j : String) (index : Dict String)
    → same_id (lookup k (drop_entry b id (drop_entry a id index))) j ≡ true
    → same_id (lookup k index) j ≡ true
unfolding same_id
same_id-drop_both-old a b id k j index h = ground (arith, h, lookup-drop_both a b id k index)

pub drop-IsPaired :
    (index : Dict String) (objects : Dict HubMatch) (id : String) (m : HubMatch)
    → lookup id objects ≡ some m
    → IsPaired index objects
    → IsPaired (drop_entry m.b id (drop_entry m.a id index)) objects
drop-IsPaired index objects id m there h = record {
  named = h.named;
  seated = λ k j sits.
      let sat = h.seated k j (same_id-drop_both-old m.a m.b id k j index sits) in
      elim (Bool-cases (id == j)) [
        | inr other ↦ is_seated-drop_both m.a m.b id k j index (lookup j objects) other sat
        | inl here ↦ own k j (ground (arith, here, eq_iff id j)) sat sits
      ];
}
  where
    own :
        (k j : String)
        → j ≡ id
        → is_seated index (lookup j objects) k j ≡ true
        → same_id (lookup k (drop_entry m.b id (drop_entry m.a id index))) j ≡ true
        → is_seated (drop_entry m.b id (drop_entry m.a id index)) (lookup j objects) k j ≡ true
    own k j e sat sits =
        let dropped = drop_entry m.b id (drop_entry m.a id index) in
        let at_id = subst (λ x. is_seated index (lookup x objects) k x ≡ true) e sat in
        let mine = subst (λ o. is_seated index o k id ≡ true) there at_id in
        let stays = subst (λ x. same_id (lookup k dropped) x ≡ true) e sits in
        let gone = same_id-drop_own index id k m mine in absurd (ground (arith, gone, stays))
