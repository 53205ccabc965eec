-- ===== src/Lobby/Floor.antt =====
-- Tiles and writes in the room of internal/lobby/lobby.go: what a tidy room is, and when a write keeps it.
use termon.Prelude.{
  ◌≡◌, refl, ◌∙◌, String, Bool, true, false, ◌&&◌, not, none, some, List, [], ◌∷◌, inl, inr, All,
  ◌==◌, eq_iff, arith, Bool-cases,
}
use termon.Prelude.Dict.{Dict, lookup, insert, delete, lookup-insert, lookup-delete}
use termon.Lobby.{Tile, eqb_tile, Presence, Room, is_blocked, stands_at, taken}

-- Each key once, under the Trainer's own hash, and each on a tile of its own.
abbrev pub IsSpread : Dict Presence → Type 0
IsSpread [] = Unit
IsSpread ((hash, p) ∷ rest) =
    (p.hash ≡ hash) × (lookup hash rest ≡ none) × (stands_at rest p.at ≡ false) × IsSpread rest

abbrev pub all_free : Room → List Tile → Bool
all_free r [] = true
all_free r (t ∷ ts) = not (is_blocked r t) && all_free r ts

abbrev pub AllFree : Room → Dict Presence → Type 0
AllFree r = All (λ (e : String × Presence). is_blocked r e.1.at ≡ false)

pub record Tidy (r : Room) : Type 0 where
  pub spread : IsSpread r.by_hash
  pub free : AllFree r r.by_hash
  pub entrance : all_free r r.spawns ≡ true

stands_at-insert :
    (k : String) (p : Presence) (d : Dict Presence) (t : Tile)
    → stands_at d t ≡ false
    → eqb_tile p.at t ≡ false
    → stands_at (insert k p d) t ≡ false
unfolding stands_at insert
stands_at-insert k p [] t h e = rw e refl
stands_at-insert k p ((j, w) ∷ rest) t h e = elim (Bool-cases (j == k)) [
  | inl same ↦ rw (same, e) (ground (arith, h))
  | inr other ↦ elim (Bool-cases (eqb_tile w.at t)) [
    | inl on ↦ absurd (ground arith)
    | inr off ↦
        let off_rest : stands_at rest t ≡ false = rw off at h in
        rw (other, off) (stands_at-insert k p rest t off_rest e)
  ]
]

stands_at-delete :
    (k : String) (d : Dict Presence) (t : Tile)
    → stands_at d t ≡ false
    → stands_at (delete k d) t ≡ false
unfolding stands_at delete
stands_at-delete k [] t h = refl
stands_at-delete k ((j, w) ∷ rest) t h = elim (Bool-cases (eqb_tile w.at t)) [
  | inl on ↦ absurd (ground arith)
  | inr off ↦
      let off_rest : stands_at rest t ≡ false = rw off at h in
      elim (Bool-cases (j == k)) [
        | inl same ↦ rw same (stands_at-delete k rest t off_rest)
        | inr other ↦ rw (other, off) (stands_at-delete k rest t off_rest)
      ]
]

eqb_tile-sym : (a b : Tile) → eqb_tile a b ≡ eqb_tile b a
eqb_tile-sym a b = ground arith

stands_at-lookup :
    (d : Dict Presence) (k : String) (p : Presence) (t : Tile)
    → stands_at d t ≡ false
    → lookup k d ≡ some p
    → eqb_tile p.at t ≡ false
unfolding stands_at lookup
stands_at-lookup [] k p t h e = absurd (ground arith)
stands_at-lookup ((j, w) ∷ rest) k p t h e = elim (Bool-cases (eqb_tile w.at t)) [
  | inl on ↦ absurd (ground arith)
  | inr off ↦
      let off_rest : stands_at rest t ≡ false = rw off at h in
      elim (Bool-cases (j == k)) [
        | inl same ↦ let here : w ≡ p = ground arith in rw here at off
        | inr other ↦ stands_at-lookup rest k p t off_rest (rw other at e)
      ]
]

pub taken-stands_at :
    (k : String) (d : Dict Presence) (t : Tile) → stands_at d t ≡ false → taken k d t ≡ false
unfolding stands_at taken
taken-stands_at k [] t h = refl
taken-stands_at k ((j, w) ∷ rest) t h = elim (Bool-cases (eqb_tile w.at t)) [
  | inl on ↦ absurd (ground arith)
  | inr off ↦
      let off_rest : stands_at rest t ≡ false = rw off at h in
      rw (off, taken-stands_at k rest t off_rest) (ground arith)
]

-- Everyone on the tile but a Trainer who is not in the room.
stands_at-taken :
    (k : String) (d : Dict Presence) (t : Tile)
    → IsSpread d
    → lookup k d ≡ none
    → taken k d t ≡ false
    → stands_at d t ≡ false
unfolding stands_at taken lookup
stands_at-taken k [] t v n h = refl
stands_at-taken k ((j, w) ∷ rest) t v n h = elim (Bool-cases (j == k)) [
  | inl same ↦ absurd (ground arith)
  | inr other ↦
      let stranger : (w.hash == k) ≡ false = rw v.0 other in
      let none_rest : lookup k rest ≡ none = rw other at n in
      elim (Bool-cases (eqb_tile w.at t)) [
        | inl on ↦ absurd (ground (arith, stranger, on, h))
        | inr off ↦ rw off (stands_at-taken k rest t v.3 none_rest (ground (arith, off, h)))
      ]
]

pub taken-lookup :
    (k : String) (d : Dict Presence) (p : Presence)
    → IsSpread d
    → lookup k d ≡ some p
    → taken k d p.at ≡ false
unfolding taken lookup
taken-lookup k [] p v e = absurd (ground arith)
taken-lookup k ((j, w) ∷ rest) p v e = elim (Bool-cases (j == k)) [
  | inl same ↦
      let here : w ≡ p = ground arith in
      let mine : (w.hash == k) ≡ true = rw v.0 same in
      let others = taken-stands_at k rest w.at v.2 in rw (← here) (ground (arith, mine, others))
  | inr other ↦
      let there : lookup k rest ≡ some p = rw other at e in
      let apart : eqb_tile w.at p.at ≡ false =
        eqb_tile-sym w.at p.at ∙ stands_at-lookup rest k p w.at v.2 there in
      rw (apart, taken-lookup k rest p v.3 there) (ground arith)
]

insert-IsSpread :
    (k : String) (p : Presence) (d : Dict Presence)
    → IsSpread d
    → p.hash ≡ k
    → taken k d p.at ≡ false
    → IsSpread (insert k p d)
unfolding insert taken lookup stands_at
insert-IsSpread k p [] v e h = (e, refl, refl, tt)
insert-IsSpread k p ((j, w) ∷ rest) v e h = elim (Bool-cases (j == k)) [
  | inl same ↦
      let eq : j ≡ k = ground (arith, eq_iff j k) in
      let alone : lookup k rest ≡ none = rw eq at (v.1) in
      let mine : (w.hash == k) ≡ true = rw v.0 same in
      rw same (e, alone, stands_at-taken k rest p.at v.3 alone (ground (arith, mine, h)), v.3)
  | inr other ↦
      let stranger : (w.hash == k) ≡ false = rw v.0 other in
      elim (Bool-cases (eqb_tile w.at p.at)) [
        | inl on ↦ absurd (ground (arith, stranger, on, h))
        | inr off ↦ rw other (
          v.0,
          ground (arith, lookup-insert k j p rest, eq_iff k j, eq_iff j k, v.1),
          stands_at-insert k p rest w.at v.2 (eqb_tile-sym p.at w.at ∙ off),
          insert-IsSpread k p rest v.3 e (ground (arith, off, h)),
        )
      ]
]

pub delete-IsSpread : (k : String) (d : Dict Presence) → IsSpread d → IsSpread (delete k d)
unfolding delete
delete-IsSpread k [] v = tt
delete-IsSpread k ((j, w) ∷ rest) v = elim (Bool-cases (j == k)) [
  | inl same ↦ rw same (delete-IsSpread k rest v.3)
  | inr other ↦ rw other (
    v.0,
    ground (arith, lookup-delete k j rest, v.1),
    stands_at-delete k rest w.at v.2,
    delete-IsSpread k rest v.3,
  )
]

insert-AllFree :
    (r : Room) (k : String) (p : Presence) (d : Dict Presence)
    → is_blocked r p.at ≡ false
    → AllFree r d
    → AllFree r (insert k p d)
unfolding insert
insert-AllFree r k p [] f h = (f, tt)
insert-AllFree r k p ((j, w) ∷ rest) f h = elim (Bool-cases (j == k)) [
  | inl same ↦ rw same (f, h.1)
  | inr other ↦ rw other (h.0, insert-AllFree r k p rest f h.1)
]

pub delete-AllFree :
    (r : Room) (k : String) (d : Dict Presence) → AllFree r d → AllFree r (delete k d)
unfolding delete
delete-AllFree r k [] h = tt
delete-AllFree r k ((j, w) ∷ rest) h = elim (Bool-cases (j == k)) [
  | inl same ↦ rw same (delete-AllFree r k rest h.1)
  | inr other ↦ rw other (h.0, delete-AllFree r k rest h.1)
]

pub lookup-AllFree :
    (r : Room) (k : String) (p : Presence) (d : Dict Presence)
    → AllFree r d
    → lookup k d ≡ some p
    → is_blocked r p.at ≡ false
unfolding lookup
lookup-AllFree r k p [] h e = absurd (ground arith)
lookup-AllFree r k p ((j, w) ∷ rest) h e = elim (Bool-cases (j == k)) [
  | inl same ↦ let here : w ≡ p = ground arith in rw here at (h.0)
  | inr other ↦ lookup-AllFree r k p rest h.1 (rw other at e)
]

pub lookup-hash :
    (k : String) (p : Presence) (d : Dict Presence) → IsSpread d → lookup k d ≡ some p → p.hash ≡ k
unfolding lookup
lookup-hash k p [] v e = absurd (ground arith)
lookup-hash k p ((j, w) ∷ rest) v e = elim (Bool-cases (j == k)) [
  | inl same ↦ let here : w ≡ p = ground arith in rw (← here) (ground (arith, v.0, eq_iff j k))
  | inr other ↦ lookup-hash k p rest v.3 (rw other at e)
]

-- A write of one presence keeps the room tidy when nobody else is on its tile.
pub write-Tidy :
    (r : Room) (k : String) (p : Presence)
    → Tidy r
    → p.hash ≡ k
    → is_blocked r p.at ≡ false
    → taken k r.by_hash p.at ≡ false
    → Tidy (record r { by_hash = insert k p r.by_hash })
unfolding is_blocked
write-Tidy r k p v e f h = record {
  spread = insert-IsSpread k p r.by_hash v.spread e h;
  free = insert-AllFree r k p r.by_hash f v.free;
  entrance = v.entrance;
}
