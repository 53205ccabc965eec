-- ===== src/Lobby.antt =====
-- internal/lobby/lobby.go: who stands where in the Dojo. Labels, surfaces and the emotes of a Trainer
-- only matter to the screen and are not modelled. The callers hold the Hub's mutex.
pub mod Layout
pub mod Floor
pub mod Steps
use termon.Prelude.{
  ℕ, ◌+◌, ◌-◌, String, Bool, true, false, ◌&&◌, ◌||◌, not, Option, none, some, List, [], ◌∷◌, ◌++◌,
  eqb, leb, ◌==◌, if◌then◌else◌, filter_by, length,
}
use termon.Prelude.Int.{ℤ, pos, negsuc, pos_part, neg_part, ◌+ℤ◌, ◌-ℤ◌, ltb_ℤ}
use termon.Prelude.Dict.{Dict, lookup, insert, delete}

abbrev pub Tile : Type 0
Tile = ℤ × ℤ

abbrev pub eqb_ℤ : ℤ → ℤ → Bool
eqb_ℤ a b = eqb (pos_part a + neg_part b) (pos_part b + neg_part a)

abbrev pub eqb_tile : Tile → Tile → Bool
eqb_tile a b = eqb_ℤ a.0 b.0 && eqb_ℤ a.1 b.1

abbrev pub has_tile : List Tile → Tile → Bool
has_tile [] t = false
has_tile (x ∷ xs) t = if eqb_tile x t then true else has_tile xs t

abbrev pub width : ℕ
width = 48

abbrev pub height : ℕ
height = 14

abbrev pub capacity : ℕ
capacity = 32

abbrev pub master : Tile
master = (pos 24, pos 10)

abbrev pub notice_board : Tile
notice_board = (pos 9, pos 8)

pub record Presence : Type 0 where
  pub hash : String
  pub handle : String
  pub species : String
  pub at : Tile
  pub in_battle : Bool
  pub in_queue : Bool

-- `blocked` lists the tiles that the map holds.
pub record Room : Type 0 where
  pub blocked : List Tile
  pub spawns : List Tile
  pub by_hash : Dict Presence

pub data Dir : Type 0 where
  north south east west : Dir

pub data Error : Type 0 where
  empty_hash entrance_full cannot_place unknown_trainer cannot_move_now blocked
        no_space_beside_master :
      Error

unfoldable pub is_blocked : Room → Tile → Bool
is_blocked r t =
    if ltb_ℤ t.0 (pos 0)
      || ltb_ℤ t.1 (pos 0)
      || not (ltb_ℤ t.0 (pos width))
      || not (ltb_ℤ t.1 (pos height))
    then true
    else has_tile r.blocked t

-- The scan of `occupied` over the map.
unfoldable pub stands_at : Dict Presence → Tile → Bool
stands_at [] t = false
stands_at ((hash, p) ∷ rest) t = if eqb_tile p.at t then true else stands_at rest t

unfoldable pub occupied : Room → Tile → Bool
unfolding stands_at
occupied r t = stands_at r.by_hash t

-- The write of a Trainer's presence.
unfoldable pub seat : Room → Presence → Room
seat r p = record r { by_hash = insert p.hash p r.by_hash }

unfoldable pub first_free : Room → List Tile → Option Tile
first_free r [] = none
first_free r (t ∷ ts) = let rest = first_free r ts in if occupied r t then rest else some t

unfoldable pub join : Room → Presence → Room × Presence × Option Error
join r p = if p.hash == "" then (r, p, some empty_hash) else elim (lookup p.hash r.by_hash) [
  | some q ↦ (r, q, none)
  | none ↦ elim (first_free r r.spawns) [
    | none ↦ (r, p, some entrance_full)
    | some t ↦ let q = record p { at = t } in (seat r q, q, none)
  ]
]

unfoldable pub leave : Room → String → Room
leave r hash = record r { by_hash = delete hash r.by_hash }

unfoldable pub place : Room → Presence → Room × Option Error
place r p =
    if is_blocked r p.at || occupied r p.at then (r, some cannot_place) else (seat r p, none)

unfoldable pub get : Room → String → Option Presence
get r hash = lookup hash r.by_hash

-- `Set`; the function is one that only writes the two flags, as those of the callers do.
unfoldable pub set_flags : Room → String → (Bool × Bool → Bool × Bool) → Room
set_flags r hash f = elim (lookup hash r.by_hash) [
  | none ↦ r
  | some p ↦
      let flags = f (p.in_battle, p.in_queue) in
      record r {
        by_hash = insert hash (record p { in_battle = flags.0; in_queue = flags.1 }) r.by_hash;
      }
]

unfoldable pub toward : Dir → Tile → Tile
toward Dir.north t = (t.0, t.1 -ℤ pos 1)
toward Dir.south t = (t.0, t.1 +ℤ pos 1)
toward Dir.east t = (t.0 +ℤ pos 1, t.1)
toward Dir.west t = (t.0 -ℤ pos 1, t.1)

-- `r.byHash[hash] = p` with the Trainer on another tile.
unfoldable pub stand : Room → String → Presence → Tile → Room
stand r hash p t = record r { by_hash = insert hash (record p { at = t }) r.by_hash }

unfoldable pub move : Room → String → Dir → Room × Option Error
move r hash d = elim (lookup hash r.by_hash) [
  | none ↦ (r, some unknown_trainer)
  | some p ↦
      if p.in_battle || p.in_queue
      then (r, some cannot_move_now)
      else (let t = toward d p.at in
          if is_blocked r t || occupied r t then (r, some blocked) else (stand r hash p t, none))
]

-- `abs(a.X-b.X)+abs(a.Y-b.Y) == 1`
unfoldable pub is_beside : Tile → Tile → Bool
is_beside a b =
    let dx = a.0 -ℤ b.0 in
    let dy = a.1 -ℤ b.1 in eqb (pos_part dx + neg_part dx + (pos_part dy + neg_part dy)) 1

-- The other Trainers one step from a tile, in the order of the list that stands for the map.
unfoldable pub beside : String → Tile → Dict Presence → List Presence
beside hash t [] = []
beside hash t ((h, q) ∷ rest) =
    let others = beside hash t rest in
    if not (q.hash == hash) && is_beside q.at t then q ∷ others else others

unfoldable pub adjacent : Room → String → List Presence
adjacent r hash = elim (lookup hash r.by_hash) [ none ↦ [] | some p ↦ beside hash p.at r.by_hash ]

unfoldable pub near_master : Room → String → Bool
near_master r hash = elim (lookup hash r.by_hash) [ none ↦ false | some p ↦ is_beside p.at master ]

unfoldable pub near_notice_board : Room → String → Bool
near_notice_board r hash = elim (lookup hash r.by_hash) [
  | none ↦ false
  | some p ↦ is_beside p.at notice_board
]

-- Somebody else on the tile.
unfoldable pub taken : String → Dict Presence → Tile → Bool
taken hash [] t = false
taken hash ((h, q) ∷ rest) t =
    let others = taken hash rest t in
    if not (q.hash == hash) && eqb_tile q.at t then true else others

abbrev pub spots : List Tile
spots = (pos 24, pos 11) ∷ (pos 23, pos 10) ∷ (pos 25, pos 10) ∷ (pos 24, pos 9) ∷ []

unfoldable pub first_spot : Room → String → List Tile → Option Tile
first_spot r hash [] = none
first_spot r hash (t ∷ ts) =
    let rest = first_spot r hash ts in
    if is_blocked r t then rest else if taken hash r.by_hash t then rest else some t

unfoldable pub place_beside_master : Room → String → Room × Option Error
place_beside_master r hash = elim (lookup hash r.by_hash) [
  | none ↦ (r, some unknown_trainer)
  | some p ↦ if is_beside p.at master then (r, none) else elim (first_spot r hash spots) [
    | none ↦ (r, some no_space_beside_master)
    | some t ↦ (stand r hash p t, none)
  ]
]

-- A call that may change the room.
pub data LobbyCall : Type 0 where
  joins : Presence → LobbyCall
  leaves : String → LobbyCall
  places : Presence → LobbyCall
  flags : String → (Bool × Bool → Bool × Bool) → LobbyCall
  moves : String → Dir → LobbyCall
  visits : String → LobbyCall

unfoldable pub act : Room → LobbyCall → Room
act r (joins p) = (join r p).0
act r (leaves hash) = leave r hash
act r (places p) = (place r p).0
act r (flags hash f) = set_flags r hash f
act r (moves hash d) = (move r hash d).0
act r (visits hash) = (place_beside_master r hash).0

unfoldable pub act_all : Room → List LobbyCall → Room
act_all r [] = r
act_all r (c ∷ cs) = act_all (act r c) cs
