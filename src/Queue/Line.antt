-- ===== src/Queue/Line.antt =====
-- The line of internal/queue/queue.go: who stands in it and who comes first.
use termon.Prelude.{
  ℕ, ◌+◌, ◌≡◌, refl, sym, ap, ◌∙◌, String, true, false, some, List, [], ◌∷◌, ◌++◌, length,
  length-append, without, contains, contains-append, contains-without, IsDistinct, IsDistinct-snoc,
  IsDistinct-without, ◌==◌, eq_iff, arith, Bool-cases, Option-cases, inl, inr,
}
use termon.Prelude.Int.{ℤ}
use termon.Prelude.Dict.{lookup, insert, delete, lookup-insert, lookup-delete}
use termon.Queue.{Queue, rank_from, join, is_there, cancel, position, waited, pair_front, pair}

-- What the callers keep: nobody waits twice, and exactly the waiters have an arrival time.
pub record InLine (q : Queue) : Type 0 where
  pub distinct : IsDistinct q.order
  pub timed : (h : String) → is_there (lookup h q.enqueued_at) ≡ contains q.order h

rank_from-contains :
    (i : ℕ) (h : String) (hs : List String) → is_there (rank_from i h hs) ≡ contains hs h
unfolding rank_from
rank_from-contains i h [] = refl
rank_from-contains i h (x ∷ xs) = ground (arith, rank_from-contains (i + 1) h xs)

rank_from-snoc :
    (i : ℕ) (h : String) (hs : List String)
    → contains hs h ≡ false
    → rank_from i h (hs ++ h ∷ []) ≡ some (i + length hs + 1)
unfolding rank_from
rank_from-snoc i h [] c = ground (arith, eq_iff h h)
rank_from-snoc i h (x ∷ xs) c =
    let rest = rank_from-snoc (i + 1) h xs (ground arith) in ground (arith, rest)

join-InLine : (q : Queue) (h : String) (now : ℤ) → InLine q → InLine (join q h now).0
unfolding join
join-InLine q h now v = elim (Bool-cases (h == "")) [
  | inl empty ↦ rw empty v
  | inr named ↦ elim (Option-cases (rank_from 0 h q.order)) [
    | inr (i, e) ↦ rw (named, e) v
    | inl e ↦
        let new : contains q.order h ≡ false = ground (arith, rank_from-contains 0 h q.order, e) in
        rw (named, e)
          (record {
            distinct = IsDistinct-snoc q.order h v.distinct new;
            timed = λ k. ground (
              arith,
              lookup-insert h k now q.enqueued_at,
              v.timed k,
              contains-append q.order (h ∷ []) k,
            );
          })
  ]
]

cancel-InLine : (q : Queue) (h : String) → InLine q → InLine (cancel q h).0
unfolding cancel
cancel-InLine q h v = record {
  distinct = IsDistinct-without h q.order v.distinct;
  timed =
      λ k. ground (arith, lookup-delete h k q.enqueued_at, contains-without h k q.order, v.timed k);
}

popped :
    (q : Queue) (a b : String) (rest : List String)
    → q.order ≡ a ∷ b ∷ rest
    → InLine q
    → InLine (record { order = rest; enqueued_at = delete b (delete a q.enqueued_at) })
popped q a b rest e v = record {
  distinct = (rw e at v.distinct).1.1;
  timed = λ k.
      let seen : is_there (lookup k q.enqueued_at) ≡ contains (a ∷ b ∷ rest) k =
        v.timed k ∙ ap (λ o. contains o k) e in
      let d : IsDistinct (a ∷ b ∷ rest) = rw e at v.distinct in
      let no_b : contains rest b ≡ false = d.1.0 in
      let no_a : contains (b ∷ rest) a ≡ false = d.0 in
      ground (
        arith,
        lookup-delete b k (delete a q.enqueued_at),
        lookup-delete a k q.enqueued_at,
        seen,
        eq_iff a k,
        eq_iff b k,
        eq_iff b a,
        no_a,
        no_b,
      );
}

pair_front-InLine :
    (q : Queue) (o : List String) (now : ℤ) → q.order ≡ o → InLine q → InLine (pair_front q o now).0
unfolding pair_front
pair_front-InLine q [] now e v = v
pair_front-InLine q (a ∷ []) now e v = v
pair_front-InLine q (a ∷ b ∷ rest) now e v = popped q a b rest e v

pair-InLine : (q : Queue) (now : ℤ) → InLine q → InLine (pair q now).0
unfolding pair
pair-InLine q now v = pair_front-InLine q q.order now refl v

-- `Join`, `Cancel` and `Pair` keep a line in which nobody stands twice and exactly the waiters have an
-- arrival time.
pub pair-join-cancel-InLine :
    (q : Queue) (h : String) (now : ℤ)
    → InLine q
    → InLine (join q h now).0 × InLine (cancel q h).0 × InLine (pair q now).0
pair-join-cancel-InLine q h now v =
    (join-InLine q h now v, cancel-InLine q h v, pair-InLine q now v)

abbrev joined : Queue → String → ℤ → Queue
joined q h now = record { order = q.order ++ h ∷ []; enqueued_at = insert h now q.enqueued_at }

join-new :
    (q : Queue) (h : String) (now : ℤ)
    → (h == "") ≡ false
    → contains q.order h ≡ false
    → join q h now
      ≡ (joined q h now, record { rank = some (length q.order + 1); waiting = length q.order + 1 })
unfolding join
join-new q h now named new = elim (Option-cases (rank_from 0 h q.order)) [
  | inr (i, e) ↦ absurd (ground (arith, rank_from-contains 0 h q.order, e))
  | inl e ↦ rw (join, named, e) (ground (arith, length-append q.order (h ∷ [])))
]

without-snoc :
    (h : String) (hs : List String) → contains hs h ≡ false → without h (hs ++ h ∷ []) ≡ hs
without-snoc h [] c = ground (arith, eq_iff h h)
without-snoc h (x ∷ xs) c = let rest = without-snoc h xs (ground arith) in ground (arith, rest)

-- A hash that is not empty and does not wait yet joins at the end: `Join` and then `Position` both
-- report the new length as its place, and cancelling it restores the line.
pub cancel-join :
    (q : Queue) (h : String) (now : ℤ)
    → (h == "") ≡ false
    → contains q.order h ≡ false
    → ((join q h now).1.rank ≡ some (length q.order + 1))
      × (position (join q h now).0 h ≡ (join q h now).1)
      × ((cancel (join q h now).0 h).0.order ≡ q.order)
      × ((cancel (join q h now).0 h).1 ≡ true)
unfolding position cancel
cancel-join q h now named new = rw (join-new q h now named new) (
  refl,
  ground (arith, length-append q.order (h ∷ []), rank_from-snoc 0 h q.order new),
  without-snoc h q.order new,
  ground (arith, lookup-insert h h now q.enqueued_at, eq_iff h h),
)

waited-joined :
    (q : Queue) (h a : String) (now : ℤ)
    → (h == a) ≡ false
    → waited (joined q h now) a now ≡ waited q a now
unfolding waited
waited-joined q h a now apart = rw (waited, lookup-insert h a now q.enqueued_at, apart) refl

-- First come, first paired: `Pair` takes out the two at the head of the line with their waits. With two
-- waiting, one who joins now, not waiting yet and with a hash that is not empty, does not change that
-- pair nor their waits, and stands behind all who are left.
pub pair-join :
    (q : Queue) (a b h : String) (rest : List String) (now : ℤ)
    → q.order ≡ a ∷ b ∷ rest
    → (h == "") ≡ false
    → contains q.order h ≡ false
    → ((pair q now).1
        ≡ some (record { a = a; b = b; wait_a = waited q a now; wait_b = waited q b now }))
      × ((pair (join q h now).0 now).1 ≡ (pair q now).1)
      × ((pair (join q h now).0 now).0.order ≡ (pair q now).0.order ++ h ∷ [])
unfolding pair pair_front
pair-join q a b h rest now e named new =
    let absent : contains (a ∷ b ∷ rest) h ≡ false = ap (λ o. contains o h) (sym e) ∙ new in
    let first = ap (λ o. pair_front q o now) e in
    let after = ap (λ o. pair_front (joined q h now) (o ++ h ∷ []) now) e in
    rw
      (
        join-new q h now named new,
        pair,
        first,
        after,
        waited-joined q h a now (ground (arith, eq_iff a h, eq_iff h a)),
        waited-joined q h b now (ground (arith, eq_iff b h, eq_iff h b)),
      )
      (refl, refl, refl)
