-- ===== src/Server/Matches/Solo.antt =====
-- The start and the end of a solo match in internal/server keep the index of the registry in order.
use termon.Prelude.{
  sym, ◌∙◌, Bool-cases, Option, String, arith, false, inl, inr, none, refl, some, subst, true, ◌==◌,
  ◌≡◌,
}
use termon.Server.Matches.Index.{has_name, same_id-other, IsPaired, is_seated}
use termon.Server.Matches.Starting.{no_entry}
use termon.Prelude.Dict.{
  Dict, delete, insert, lookup, lookup-insert, lookup-delete, lookup-insert_self,
}
use termon.Server.Matches.{HubMatch, new_solo, same_id}
use text.Mathlib.TextEquality.{eq_iff}

-- Deleting the entry that leads to one match leaves the entries of the other matches.
pub same_id-delete :
    (a id k j : String) (index : Dict String)
    → same_id (lookup a index) id ≡ true
    → id == j ≡ false
    → same_id (lookup k (delete a index)) j ≡ same_id (lookup k index) j
unfolding same_id
same_id-delete a id k j index own other = elim (Bool-cases (a == k)) [
  | inr apart ↦ rw (lookup-delete a k index, apart) refl
  | inl same ↦
      let at_k = subst (λ x. same_id (lookup x index) id ≡ true) ((eq_iff a k).0 same) own in
      rw (lookup-delete a k index, same, same_id-other (lookup k index) id j other at_k) refl
]

is_seated-delete :
    (a id k j : String) (index : Dict String) (o : Option HubMatch)
    → same_id (lookup a index) id ≡ true
    → id == j ≡ false
    → is_seated index o k j ≡ true
    → is_seated (delete a index) o k j ≡ true
unfolding is_seated
is_seated-delete a id k j index none own other h = h
is_seated-delete a id k j index (some m) own other h =
    rw (same_id-delete a id m.a j index own other, same_id-delete a id m.b j index own other) h

same_id-delete_old :
    (a k j : String) (index : Dict String)
    → same_id (lookup k (delete a index)) j ≡ true
    → same_id (lookup k index) j ≡ true
unfolding same_id
same_id-delete_old a k j index h = ground (arith, h, lookup-delete a k index)

-- The Trainer of a solo match has no entry any more.
same_id-delete_own :
    (index : Dict String) (id k : String) (m : HubMatch)
    → m.solo ≡ true
    → is_seated index (some m) k id ≡ true
    → same_id (lookup k (delete m.a index)) id ≡ false
unfolding is_seated same_id
same_id-delete_own index id k m solo h =
    ground (arith, solo, h, eq_iff m.a k, eq_iff k m.a, lookup-delete m.a k index)

module _ (index : Dict String) (objects : Dict HubMatch) (h : IsPaired index objects) where
  pub end-IsPaired :
      (id : String) (m : HubMatch)
      → lookup id objects ≡ some m
      → m.solo ≡ true
      → same_id (lookup m.a index) id ≡ true
      → IsPaired (delete m.a index) objects
  end-IsPaired id m there solo own = record {
    named = h.named;
    seated = λ k j sits.
        let sat = h.seated k j (same_id-delete_old m.a k j index sits) in
        elim (Bool-cases (id == j)) [
          | inr other ↦ is_seated-delete m.a id k j index (lookup j objects) own other sat
          | inl here ↦ gone k j (ground (arith, here, eq_iff id j)) sat sits
        ];
  }
    where
      gone :
          (k j : String)
          → j ≡ id
          → is_seated index (lookup j objects) k j ≡ true
          → same_id (lookup k (delete m.a index)) j ≡ true
          → is_seated (delete m.a index) (lookup j objects) k j ≡ true
      gone k j e sat sits =
          let at_id = subst (λ x. is_seated index (lookup x objects) k x ≡ true) e sat in
          let mine = subst (λ o. is_seated index o k id ≡ true) there at_id in
          let stays = subst (λ x. same_id (lookup k (delete m.a index)) x ≡ true) e sits in
          let left = same_id-delete_own index id k m solo mine in
          absurd (ground (arith, left, stays))

-- Writing a free entry leaves the entries of the other matches.
pub same_id-insert :
    (a id k j : String) (index : Dict String)
    → lookup a index ≡ none
    → id == j ≡ false
    → same_id (lookup k (insert a id index)) j ≡ same_id (lookup k index) j
unfolding same_id
same_id-insert a id k j index free other =
    ground (arith, free, other, eq_iff a k, lookup-insert a k id index)

is_seated-insert :
    (a id k j : String) (index : Dict String) (o : Option HubMatch)
    → lookup a index ≡ none
    → id == j ≡ false
    → is_seated index o k j ≡ true
    → is_seated (insert a id index) o k j ≡ true
unfolding is_seated
is_seated-insert a id k j index none free other h = h
is_seated-insert a id k j index (some m) free other h =
    rw (same_id-insert a id m.a j index free other, same_id-insert a id m.b j index free other) h

new_solo-is_seated :
    (index : Dict String) (a id k : String)
    → same_id (lookup k index) id ≡ false
    → same_id (lookup k (insert a id index)) id ≡ true
    → is_seated (insert a id index) (some (new_solo id a)) k id ≡ true
unfolding is_seated same_id
new_solo-is_seated index a id k free h = ground (
  arith,
  h,
  free,
  eq_iff id id,
  eq_iff a k,
  eq_iff k a,
  lookup-insert a k id index,
  lookup-insert_self a id index,
)

module _ (index : Dict String) (objects : Dict HubMatch) (h : IsPaired index objects) where
  pub start_solo-IsPaired :
      (a id : String)
      → lookup a index ≡ none
      → lookup id objects ≡ none
      → IsPaired (insert a id index) (insert id (new_solo id a) objects)
  unfolding has_name
  start_solo-IsPaired a id free new = record {
    named = λ j. ground (arith, eq_iff id j, lookup-insert id j (new_solo id a) objects, h.named j);
    seated = λ k j sits. elim (Bool-cases (id == j)) [
      | inl here ↦ own k j (ground (arith, here, eq_iff id j)) sits
      | inr other ↦
          let before = sym (same_id-insert a id k j index free other) ∙ sits in
          let sat = h.seated k j before in
          let still : lookup j (insert id (new_solo id a) objects) ≡ lookup j objects =
            ground (arith, other, lookup-insert id j (new_solo id a) objects) in
          subst (λ o. is_seated (insert a id index) o k j ≡ true) (sym still)
            (is_seated-insert a id k j index (lookup j objects) free other sat)
    ];
  }
    where
      own :
          (k j : String)
          → j ≡ id
          → same_id (lookup k (insert a id index)) j ≡ true
          → is_seated (insert a id index) (lookup j (insert id (new_solo id a) objects)) k j ≡ true
      own k j e sits =
          let grown = insert a id index in
          let at_id = subst (λ x. same_id (lookup k grown) x ≡ true) e sits in
          let sat = new_solo-is_seated index a id k (no_entry index objects h id k new) at_id in
          let found = lookup-insert_self id (new_solo id a) objects in
          subst (λ x. is_seated grown (lookup x (insert id (new_solo id a) objects)) k x ≡ true)
            (sym e) (subst (λ o. is_seated grown o k id ≡ true) (sym found) sat)
