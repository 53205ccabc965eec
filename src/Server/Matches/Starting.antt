-- ===== src/Server/Matches/Starting.antt =====
-- The commit of startMatchFrom in internal/server/hub_match.go keeps the index paired.
use termon.Prelude.{
  Option, String, arith, false, inl, inr, none, refl, some, subst, sym, true, ◌==◌, ◌||◌, ◌≡◌,
  Bool-cases,
}
use termon.Prelude.Dict.{Dict, insert, lookup, lookup-insert, lookup-insert_self}
use termon.Server.Matches.{HubMatch, new_match, same_id}
use termon.Server.Matches.Index.{IsPaired, has_name, is_seated}
use text.Mathlib.TextEquality.{eq_iff}

-- A new match whose Trainers have none.
start-is_seated :
    (index : Dict String) (objects : Dict HubMatch) (a b id k j : String)
    → lookup a index ≡ none
    → lookup b index ≡ none
    → id == j ≡ false
    → (o : Option HubMatch) → is_seated index o k j ≡ true
    → is_seated (insert b id (insert a id index)) o k j ≡ true
unfolding is_seated same_id
start-is_seated index objects a b id k j free_a free_b other none h = h
start-is_seated index objects a b id k j free_a free_b other (some m) h = ground (
  arith,
  h,
  eq_iff a m.a,
  eq_iff b m.a,
  eq_iff a m.b,
  eq_iff b m.b,
  lookup-insert b m.a id (insert a id index),
  lookup-insert b m.b id (insert a id index),
  lookup-insert a m.a id index,
  lookup-insert a m.b id index,
)

lookup-insert_first :
    (index : Dict String) (a b id : String) → lookup a (insert b id (insert a id index)) ≡ some id
lookup-insert_first index a b id = elim (Bool-cases (b == a)) [
  | inl here ↦ rw (lookup-insert b a id (insert a id index), here) refl
  | inr there ↦ rw (lookup-insert b a id (insert a id index), there) (lookup-insert_self a id index)
]

is_either :
    (index : Dict String) (a b id k : String)
    → same_id (lookup k index) id ≡ false
    → same_id (lookup k (insert b id (insert a id index))) id ≡ true
    → (k == a || k == b) ≡ true
unfolding same_id
is_either index a b id k free h = ground (
  arith,
  h,
  free,
  eq_iff a k,
  eq_iff b k,
  eq_iff k a,
  eq_iff k b,
  lookup-insert b k id (insert a id index),
  lookup-insert a k id index,
)

new-is_seated :
    (index : Dict String) (a b id k : String)
    → same_id (lookup k index) id ≡ false
    → same_id (lookup k (insert b id (insert a id index))) id ≡ true
    → is_seated (insert b id (insert a id index)) (some (new_match id a b)) k id ≡ true
unfolding is_seated same_id
new-is_seated index a b id k free h = ground (
  arith,
  eq_iff id id,
  is_either index a b id k free h,
  lookup-insert_first index a b id,
  lookup-insert_self b id (insert a id index),
)

same_id-insert_both :
    (index : Dict String) (a b id k j : String)
    → id == j ≡ false
    → same_id (lookup k (insert b id (insert a id index))) j ≡ true
    → same_id (lookup k index) j ≡ true
unfolding same_id
same_id-insert_both index a b id k j other h =
    ground (arith, h, other, lookup-insert b k id (insert a id index), lookup-insert a k id index)

module _ (index : Dict String) (objects : Dict HubMatch) (h : IsPaired index objects) where
  -- No entry has an id that no match has.
  pub no_entry : (id k : String) → lookup id objects ≡ none → same_id (lookup k index) id ≡ false
  unfolding is_seated
  no_entry id k new = elim (Bool-cases (same_id (lookup k index) id)) [
    | inr there ↦ there
    | inl here ↦
        let sat = subst (λ o. is_seated index o k id ≡ true) new (h.seated k id here) in
        absurd (ground (arith, sat))
  ]

  pub start-IsPaired :
      (a b id : String)
      → lookup a index ≡ none
      → lookup b index ≡ none
      → lookup id objects ≡ none
      → IsPaired (insert b id (insert a id index)) (insert id (new_match id a b) objects)
  unfolding has_name
  start-IsPaired a b id free_a free_b new = record {
    named =
        λ j. ground (arith, eq_iff id j, lookup-insert id j (new_match id a b) objects, h.named j);
    seated = λ k j sits. elim (Bool-cases (id == j)) [
      | inl here ↦ own k j (ground (arith, here, eq_iff id j)) sits
      | inr other ↦
          let before = same_id-insert_both index a b id k j other sits in
          let sat = h.seated k j before in
          subst (λ o. is_seated (insert b id (insert a id index)) o k j ≡ true)
            (sym (there_still j other))
            (start-is_seated index objects a b id k j free_a free_b other (lookup j objects) sat)
    ];
  }
    where
      there_still :
          (j : String)
          → id == j ≡ false
          → lookup j (insert id (new_match id a b) objects) ≡ lookup j objects
      there_still j other = ground (arith, other, lookup-insert id j (new_match id a b) objects)

      own :
          (k j : String)
          → j ≡ id
          → same_id (lookup k (insert b id (insert a id index))) j ≡ true
          → is_seated
              (insert b id (insert a id index))
              (lookup j (insert id (new_match id a b) objects))
              k
              j
            ≡ true
      own k j e sits =
          let grown = insert b id (insert a id index) in
          let at_id = subst (λ x. same_id (lookup k grown) x ≡ true) e sits in
          let sat = new-is_seated index a b id k (no_entry id k new) at_id in
          let found = lookup-insert_self id (new_match id a b) objects in
          subst (λ x. is_seated grown (lookup x (insert id (new_match id a b) objects)) k x ≡ true)
            (sym e) (subst (λ o. is_seated grown o k id ≡ true) (sym found) sat)

-- The entries of the other matches stay where both Trainers had none.
pub same_id-insert_both_eq :
    (index : Dict String) (a b id k j : String)
    → lookup a index ≡ none
    → lookup b index ≡ none
    → id == j ≡ false
    → same_id (lookup k (insert b id (insert a id index))) j ≡ same_id (lookup k index) j
unfolding same_id
same_id-insert_both_eq index a b id k j free_a free_b other = ground (
  arith,
  other,
  free_a,
  free_b,
  eq_iff a k,
  eq_iff b k,
  lookup-insert b k id (insert a id index),
  lookup-insert a k id index,
)
