-- ===== src/Queue.antt =====
-- internal/queue/queue.go: the line that pairs Trainers into Battles. A time counts the nanoseconds
-- since Go's zero time; `Sub` stops at the bounds of int64.
pub mod Line
use termon.Prelude.{
  ℕ, ◌+◌, ◌-◌, ◌^◌, String, Bool, true, false, not, Option, none, some, List, [], ◌∷◌, ◌++◌, min,
  length, without, ◌==◌, if◌then◌else◌, ltb,
}
use termon.Prelude.Int.{ℤ, pos, pos_part, ◌-ℤ◌}
use termon.Prelude.Dict.{Dict, lookup, insert, delete}

pub record Queue : Type 0 where
  pub order : List String
  pub enqueued_at : Dict ℤ

-- The answer of `Join`: a rank of `none` is the error, with position 0.
pub record Place : Type 0 where
  pub rank : Option ℕ
  pub waiting : ℕ

-- The 1-based place of a hash, counted on from `i`.
unfoldable pub rank_from : ℕ → String → List String → Option ℕ
rank_from i hash [] = none
rank_from i hash (h ∷ hs) = if h == hash then some (i + 1) else rank_from (i + 1) hash hs

unfoldable pub join : Queue → String → ℤ → Queue × Place
unfolding rank_from
join q hash now =
    if hash == ""
    then (q, record { rank = none; waiting = length q.order })
    else elim (rank_from 0 hash q.order) [
      | some i ↦ (q, record { rank = some i; waiting = length q.order })
      | none ↦
          let order = q.order ++ hash ∷ [] in
          (
            record { order = order; enqueued_at = insert hash now q.enqueued_at },
            record { rank = some (length order); waiting = length order },
          )
    ]

abbrev pub is_there {ℓ} : {A : Type ℓ} → Option A → Bool
is_there none = false
is_there (some a) = true

unfoldable pub cancel : Queue → String → Queue × Bool
cancel q hash = (
  record { order = without hash q.order; enqueued_at = delete hash q.enqueued_at },
  is_there (lookup hash q.enqueued_at),
)

unfoldable pub position : Queue → String → Place
unfolding rank_from
position q hash = record { rank = rank_from 0 hash q.order; waiting = length q.order }

-- `max(0, now.Sub(q.enqueuedAt[hash]))`; a missing key reads the zero time.
unfoldable pub waited : Queue → String → ℤ → ℕ
waited q hash now =
    let since : ℤ = elim (lookup hash q.enqueued_at) [ none ↦ pos 0 | some t ↦ t ] in
    min (pos_part (now -ℤ since)) (2 ^ 63 - 1)

pub record Match : Type 0 where
  pub a : String
  pub b : String
  pub wait_a : ℕ
  pub wait_b : ℕ

-- `Pair` on the line as it stands.
unfoldable pub pair_front : Queue → List String → ℤ → Queue × Option Match
pair_front q (a ∷ b ∷ rest) now = (
  record { order = rest; enqueued_at = delete b (delete a q.enqueued_at) },
  some (record { a = a; b = b; wait_a = waited q a now; wait_b = waited q b now }),
)
pair_front q (a ∷ []) now = (q, none)
pair_front q [] now = (q, none)

unfoldable pub pair : Queue → ℤ → Queue × Option Match
pair q now = pair_front q q.order now

unfoldable pub waiting : Queue → ℕ
waiting q = length q.order
