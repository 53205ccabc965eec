-- ===== src/Lobby/Steps.antt =====
-- The calls on the room of internal/lobby/lobby.go.
use termon.Prelude.{
  ℕ, ◌+◌, ◌≡◌, refl, sym, ap, ◌∙◌, String, Bool, true, false, ◌&&◌, ◌||◌, not, Option, none, some,
  List, [], ◌∷◌, ◌⊎◌, inl, inr, ◌==◌, eq_iff, if◌then◌else◌, arith, Bool-cases, Option-cases,
}
use termon.Prelude.Dict.{lookup, insert, lookup-insert}
use termon.Lobby.{
  Tile, Presence, Room, Dir, Error, is_blocked, occupied, seat, first_free, join, leave, place,
  set_flags, toward, stand, move, is_beside, near_master, master, taken, spots, first_spot,
  place_beside_master, LobbyCall, joins, leaves, places, flags, moves, visits, act, act_all,
}
use termon.Lobby.Layout.{new_dojo, dojo_blocked, dojo_spawns, row, column}
use termon.Lobby.Floor.{
  Tidy, all_free, write-Tidy, taken-stands_at, taken-lookup, delete-IsSpread, delete-AllFree,
  lookup-AllFree, lookup-hash,
}

first_free-some :
    (r s : Room) (ts : List Tile) (t : Tile)
    → all_free s ts ≡ true
    → first_free r ts ≡ some t
    → (is_blocked s t ≡ false) × (occupied r t ≡ false)
unfolding first_free
first_free-some r s [] t f e = absurd (ground arith)
first_free-some r s (x ∷ xs) t f e = elim (Bool-cases (occupied r x)) [
  | inl full ↦ first_free-some r s xs t (ground arith) (rw full at e)
  | inr free ↦ let here : x ≡ t = ground (arith, free, e) in rw (← here) (ground (arith, f), free)
]

free_tile : (r : Room) (k : String) (t : Tile) → occupied r t ≡ false → taken k r.by_hash t ≡ false
unfolding occupied
free_tile r k t h = taken-stands_at k r.by_hash t h

join-Tidy : (r : Room) (p : Presence) → Tidy r → Tidy (join r p).0
unfolding join seat
join-Tidy r p v = elim (Bool-cases (p.hash == "")) [
  | inl empty ↦ rw (join, empty) v
  | inr named ↦ elim (Option-cases (lookup p.hash r.by_hash)) [
    | inr (q, e) ↦ rw (join, named, e) v
    | inl e ↦ elim (Option-cases (first_free r r.spawns)) [
      | inl full ↦ rw (join, named, e, full) v
      | inr (t, g) ↦
          let (f, o) = first_free-some r r r.spawns t v.entrance g in
          rw (join, named, e, g, seat)
            (write-Tidy r p.hash (record p { at = t }) v refl f (free_tile r p.hash t o))
    ]
  ]
]

leave-Tidy : (r : Room) (k : String) → Tidy r → Tidy (leave r k)
unfolding leave is_blocked
leave-Tidy r k v = record {
  spread = delete-IsSpread k r.by_hash v.spread;
  free = delete-AllFree r k r.by_hash v.free;
  entrance = v.entrance;
}

place-Tidy : (r : Room) (p : Presence) → Tidy r → Tidy (place r p).0
unfolding place seat
place-Tidy r p v = elim (Bool-cases (is_blocked r p.at)) [
  | inl wall ↦ rw (place, wall) v
  | inr open_tile ↦ elim (Bool-cases (occupied r p.at)) [
    | inl full ↦ rw (place, open_tile, full) v
    | inr free ↦
        rw (place, open_tile, free, seat)
          (write-Tidy r p.hash p v refl open_tile (free_tile r p.hash p.at free))
  ]
]

set_flags-Tidy :
    (r : Room) (k : String) (f : Bool × Bool → Bool × Bool) → Tidy r → Tidy (set_flags r k f)
unfolding set_flags
set_flags-Tidy r k f v = elim (Option-cases (lookup k r.by_hash)) [
  | inl e ↦ rw (set_flags, e) v
  | inr (p, e) ↦
      rw (set_flags, e)
        (write-Tidy r k _ v (lookup-hash k p r.by_hash v.spread e)
          (lookup-AllFree r k p r.by_hash v.free e) (taken-lookup k r.by_hash p v.spread e))
]

move-Tidy : (r : Room) (k : String) (d : Dir) → Tidy r → Tidy (move r k d).0
unfolding move stand
move-Tidy r k d v = elim (Option-cases (lookup k r.by_hash)) [
  | inl e ↦ rw (move, e) v
  | inr (p, e) ↦ elim (Bool-cases (p.in_battle || p.in_queue)) [
    | inl busy ↦ rw (move, e, busy) v
    | inr idle ↦ elim (Bool-cases (is_blocked r (toward d p.at))) [
      | inl wall ↦ rw (move, e, idle, wall) v
      | inr open_tile ↦ elim (Bool-cases (occupied r (toward d p.at))) [
        | inl full ↦ rw (move, e, idle, open_tile, full) v
        | inr free ↦
            rw (move, e, idle, open_tile, free, stand)
              (write-Tidy r k (record p { at = toward d p.at }) v
                (lookup-hash k p r.by_hash v.spread e) open_tile
                (free_tile r k (toward d p.at) free))
      ]
    ]
  ]
]

-- A spot that is found is free for the Trainer.
first_spot-some :
    (r : Room) (k : String) (ts : List Tile) (t : Tile)
    → first_spot r k ts ≡ some t
    → (is_blocked r t ≡ false) × (taken k r.by_hash t ≡ false)
unfolding first_spot
first_spot-some r k [] t e = absurd (ground arith)
first_spot-some r k (x ∷ xs) t e = elim (Bool-cases (is_blocked r x)) [
  | inl wall ↦ first_spot-some r k xs t (rw wall at e)
  | inr open_tile ↦ elim (Bool-cases (taken k r.by_hash x)) [
    | inl full ↦ first_spot-some r k xs t (ground (arith, open_tile, full, e))
    | inr free ↦
        let here : x ≡ t = ground (arith, open_tile, free, e) in rw (← here) (open_tile, free)
  ]
]

abbrev all_beside : List Tile → Bool
all_beside [] = true
all_beside (t ∷ ts) = is_beside t master && all_beside ts

first_spot-beside :
    (r : Room) (k : String) (ts : List Tile) (t : Tile)
    → all_beside ts ≡ true
    → first_spot r k ts ≡ some t
    → is_beside t master ≡ true
unfolding first_spot
first_spot-beside r k [] t f e = absurd (ground arith)
first_spot-beside r k (x ∷ xs) t f e = elim (Bool-cases (is_blocked r x)) [
  | inl wall ↦ first_spot-beside r k xs t (ground arith) (rw wall at e)
  | inr open_tile ↦ elim (Bool-cases (taken k r.by_hash x)) [
    | inl full ↦ first_spot-beside r k xs t (ground arith) (ground (arith, open_tile, full, e))
    | inr free ↦ let here : x ≡ t = ground (arith, open_tile, free, e) in rw (← here) (ground arith)
  ]
]

spots-beside : all_beside spots ≡ true
unfolding is_beside termon.Prelude.Int.◌-ℤ◌
spots-beside = refl

place_beside_master-Tidy : (r : Room) (k : String) → Tidy r → Tidy (place_beside_master r k).0
unfolding place_beside_master stand
place_beside_master-Tidy r k v = elim (Option-cases (lookup k r.by_hash)) [
  | inl e ↦ rw (place_beside_master, e) v
  | inr (p, e) ↦ elim (Bool-cases (is_beside p.at master)) [
    | inl near ↦ rw (place_beside_master, e, near) v
    | inr far ↦ elim (Option-cases (first_spot r k spots)) [
      | inl full ↦ rw (place_beside_master, e, far, full) v
      | inr (t, g) ↦
          let (f, o) = first_spot-some r k spots t g in
          rw (place_beside_master, e, far, g, stand)
            (write-Tidy r k (record p { at = t }) v (lookup-hash k p r.by_hash v.spread e) f o)
    ]
  ]
]

act-Tidy : (r : Room) (c : LobbyCall) → Tidy r → Tidy (act r c)
unfolding act
act-Tidy r (joins p) v = join-Tidy r p v
act-Tidy r (leaves k) v = leave-Tidy r k v
act-Tidy r (places p) v = place-Tidy r p v
act-Tidy r (flags k f) v = set_flags-Tidy r k f v
act-Tidy r (moves k d) v = move-Tidy r k d v
act-Tidy r (visits k) v = place_beside_master-Tidy r k v

act_all-Tidy : (r : Room) (cs : List LobbyCall) → Tidy r → Tidy (act_all r cs)
unfolding act_all
act_all-Tidy r [] v = v
act_all-Tidy r (c ∷ cs) v = act_all-Tidy (act r c) cs (act-Tidy r c v)

new_dojo-Tidy : Tidy new_dojo
unfolding new_dojo dojo_blocked dojo_spawns row column is_blocked
new_dojo-Tidy = record { spread = tt; free = tt; entrance = refl }

-- After any history of calls on a new Dojo, every Trainer stands on a tile of his own that is not
-- blocked, under his own hash, and no entrance tile is blocked.
pub act_all-Tidy_new : (cs : List LobbyCall) → Tidy (act_all new_dojo cs)
act_all-Tidy_new cs = act_all-Tidy new_dojo cs new_dojo-Tidy

-- A Trainer in the room who asks for a place beside the Master either stands beside the Master
-- afterwards, and the call returns no error, or the room is as it was.
pub near_master-place_beside_master :
    (r : Room) (k : String) (p : Presence)
    → lookup k r.by_hash ≡ some p
    → (((place_beside_master r k).1 ≡ none) × (near_master (place_beside_master r k).0 k ≡ true))
      ⊎ (((place_beside_master r k).1 ≡ some Error.no_space_beside_master)
          × ((place_beside_master r k).0 ≡ r))
unfolding place_beside_master stand near_master
near_master-place_beside_master r k p e = elim (Bool-cases (is_beside p.at master)) [
  | inl near ↦ rw (place_beside_master, e, near) (inl (refl, rw (near_master, e, near) refl))
  | inr far ↦ elim (Option-cases (first_spot r k spots)) [
    | inl full ↦ rw (place_beside_master, e, far, full) (inr (refl, refl))
    | inr (t, g) ↦
        let there : lookup k (insert k (record p { at = t }) r.by_hash)
            ≡ some (record p { at = t }) =
          ground (arith, lookup-insert k k (record p { at = t }) r.by_hash, eq_iff k k) in
        rw (place_beside_master, e, far, g, stand)
          (inl (refl, rw (near_master, there) (first_spot-beside r k spots t spots-beside g)))
  ]
]
