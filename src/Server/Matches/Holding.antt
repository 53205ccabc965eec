-- ===== src/Server/Matches/Holding.antt =====
-- While the save of a solo match is under way, its Trainer's entry stays (internal/server/hub_match.go).
use termon.Prelude.{
  Bool, Bool-cases, List, Option, String, arith, contains, contains-without, false, inl, inr, none,
  not, refl, some, subst, sym, true, without, ◌==◌, ◌||◌, ◌∷◌, ◌≡◌,
}
use termon.Prelude.Dict.{Dict, insert, lookup, lookup-insert_self, lookup-insert}
use termon.Server.Matches.{HubMatch, same_id}
use text.Mathlib.TextEquality.{eq_iff}

unfoldable pub holds : Dict String → Option HubMatch → String → Bool
holds index none id = true
holds index (some m) id = not m.solo || same_id (lookup m.a index) id

abbrev pub IsHeld : Dict String → Dict HubMatch → List String → Type 0
IsHeld index objects flight =
    (id : String) → contains flight id ≡ true → holds index (lookup id objects) id ≡ true

pub put-IsHeld :
    (index : Dict String) (objects : Dict HubMatch) (flight : List String) (id : String)
    (old m : HubMatch)
    → lookup id objects ≡ some old
    → m.solo ≡ old.solo
    → m.a ≡ old.a
    → IsHeld index objects flight
    → IsHeld index (insert id m objects) flight
unfolding holds
put-IsHeld index objects flight id old m there same_mode same_a h j flies =
    ground (arith, eq_iff id j, lookup-insert id j m objects, h j flies)

-- A match that holds its entry takes off.
pub take_off-IsHeld :
    (index : Dict String) (objects : Dict HubMatch) (flight : List String) (id : String)
    (m : HubMatch)
    → lookup id objects ≡ some m
    → same_id (lookup m.a index) id ≡ true
    → IsHeld index objects flight
    → IsHeld index objects (id ∷ flight)
unfolding holds
take_off-IsHeld index objects flight id m there own h j flies = elim (Bool-cases (id == j)) [
  | inr other ↦ h j (ground (arith, other, flies))
  | inl here ↦
      subst (λ x. holds index (lookup x objects) x ≡ true) ((eq_iff id j).0 here)
        (subst (λ o. holds index o id ≡ true) (sym there) (ground (arith, own)))
]

pub land-IsHeld :
    (index : Dict String) (objects : Dict HubMatch) (flight : List String) (id : String)
    → IsHeld index objects flight
    → IsHeld index objects (without id flight)
land-IsHeld index objects flight id h j flies =
    h j (ground (arith, flies, contains-without id j flight))

-- The entries of every match but one are the same.
abbrev Stays : Dict String → Dict String → String → Type 0
Stays index left id =
    (k j : String) → id == j ≡ false → same_id (lookup k left) j ≡ same_id (lookup k index) j

stay-holds :
    (index left : Dict String) (id j : String) (o : Option HubMatch)
    → id == j ≡ false
    → Stays index left id
    → holds index o j ≡ true
    → holds left o j ≡ true
unfolding holds
stay-holds index left id j none other stay e = refl
stay-holds index left id j (some m) other stay e = rw (stay m.a j other) e

-- The entries of every match in flight but one stay, and that one has landed.
pub keep-IsHeld :
    (index left : Dict String) (objects : Dict HubMatch) (flight : List String) (id : String)
    → contains flight id ≡ false
    → Stays index left id
    → IsHeld index objects flight
    → IsHeld left objects flight
keep-IsHeld index left objects flight id gone stay h j flies = elim (Bool-cases (id == j)) [
  | inr other ↦ stay-holds index left id j (lookup j objects) other stay (h j flies)
  | inl here ↦
      let same = (eq_iff id j).0 here in
      let grounded = subst (λ x. contains flight x ≡ false) same gone in
      absurd (ground (arith, grounded, flies))
]

-- A new match whose Trainer's entry is its own.
pub start-IsHeld :
    (index grown : Dict String) (objects : Dict HubMatch) (flight : List String) (id : String)
    (m : HubMatch)
    → holds grown (some m) id ≡ true
    → Stays index grown id
    → IsHeld index objects flight
    → IsHeld grown (insert id m objects) flight
start-IsHeld index grown objects flight id m own stay h j flies = elim (Bool-cases (id == j)) [
  | inl here ↦
      let same = (eq_iff id j).0 here in
      subst (λ x. holds grown (lookup x (insert id m objects)) x ≡ true) same
        (subst (λ o. holds grown o id ≡ true) (sym (lookup-insert_self id m objects)) own)
  | inr other ↦
      let still : lookup j (insert id m objects) ≡ lookup j objects =
        ground (arith, other, lookup-insert id j m objects) in
      subst (λ o. holds grown o j ≡ true) (sym still)
        (stay-holds index grown id j (lookup j objects) other stay (h j flies))
]
