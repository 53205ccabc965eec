-- ===== src/Server/Matches/Landing.antt =====
-- The locked sections of internal/server/hub_match.go, one by one, keep the index of the registry in order.
use termon.Prelude.{
  if_both, contains-without, Option-cases, arith, contains, eq_iff, false, leb, not, refl, subst,
  true, without, ◌+◌, Bool, String, inl, inr, none, some, ◌||◌, ◌∷◌, ◌≡◌, Bool-cases,
}
use termon.Prelude.Dict.{delete, insert, lookup-insert_self, lookup}
use termon.Server.Matches.{
  end_solo, land_failed, land_saved, bot_trainer, drop_entry, new_match, new_solo, start_solo, join,
  landed, put_match, same_id, save_done, save_failed, set_presence, Hub, HubMatch, find_battle,
  finish_match, is_busy, release, set_both, start_match,
}
use termon.Server.Matches.Holding.{
  land-IsHeld, IsHeld, holds, keep-IsHeld, put-IsHeld, start-IsHeld, take_off-IsHeld,
}
use termon.Server.Matches.Solo.{end-IsPaired, same_id-delete, same_id-insert, start_solo-IsPaired}
use termon.Server.Matches.Index.{same_id-drop_both, drop-IsPaired, has_name, put-IsPaired, IsPaired}
use termon.Server.Matches.Starting.{same_id-insert_both_eq, start-IsPaired}
use termon.Prelude.Int.{ℤ}

abbrev pub HubPaired : Hub → Type 0
HubPaired h = IsPaired h.index h.objects × IsHeld h.index h.objects h.in_flight

pub find_battle-paired :
    (h : Hub) (hash : String) (ready : Bool) (now : ℤ)
    → HubPaired h
    → HubPaired (find_battle h hash ready now).0
unfolding find_battle set_presence
find_battle-paired h hash ready now k = elim (Option-cases (lookup hash h.flags)) [
  | inl e ↦ rw (find_battle, e) k
  | inr (p, e) ↦ elim (Bool-cases (not ready || p.in_battle)) [
    | inl refused ↦ rw (find_battle, e, refused) k
    | inr accepted ↦ elim (Option-cases (join h.queue hash now).1.rank) [
      | inl no_rank ↦ rw (find_battle, e, accepted, no_rank) k
      | inr (rank, ranked) ↦ rw (find_battle, e, accepted, ranked) k
    ]
  ]
]

is_free : (h : Hub) (x : String) → is_busy h x ≡ false → lookup x h.index ≡ none
unfolding is_busy
is_free h x e = ground (arith, e)

pub start_match-paired :
    (h : Hub) (a b id : String)
    → lookup id h.objects ≡ none
    → HubPaired h
    → HubPaired (start_match h a b id)
unfolding start_match set_both set_presence holds
start_match-paired h a b id new k = elim (Bool-cases (is_busy h a || is_busy h b)) [
  | inl busy ↦ rw (start_match, busy) k
  | inr free ↦
      let free_a = is_free h a (ground (arith, free)) in
      let free_b = is_free h b (ground (arith, free)) in
      rw (start_match, free)
        (
          start-IsPaired h.index h.objects k.0 a b id free_a free_b new,
          start-IsHeld h.index (insert b id (insert a id h.index)) h.objects h.in_flight id
              (new_match id a b) refl
              (λ x j other. same_id-insert_both_eq h.index a b id x j free_a free_b other) k.1,
        )
]

pub start_solo-paired :
    (h : Hub) (hash id : String)
    → lookup id h.objects ≡ none
    → HubPaired h
    → HubPaired (start_solo h hash id)
unfolding start_solo set_presence holds same_id
start_solo-paired h hash id new k = elim (Bool-cases (is_busy h hash || is_busy h bot_trainer)) [
  | inl busy ↦ rw (start_solo, busy) k
  | inr free ↦
      let free_hash = is_free h hash (ground (arith, free)) in
      let own = lookup-insert_self hash id h.index in
      rw (start_solo, free)
        (
          start_solo-IsPaired h.index h.objects k.0 hash id free_hash new,
          start-IsHeld h.index (insert hash id h.index) h.objects h.in_flight id (new_solo id hash)
              (ground (arith, own, eq_iff id id))
              (λ x j other. same_id-insert hash id x j h.index free_hash other) k.1,
        )
]

-- `id` names the match that it leads to, and its save has landed.
release-paired :
    (h : Hub) (id : String) (m : HubMatch)
    → lookup id h.objects ≡ some m
    → contains h.in_flight id ≡ false
    → HubPaired h
    → HubPaired (release h m)
unfolding release set_both set_presence has_name
release-paired h id m there down k =
    let known = subst (λ o. has_name o id ≡ true) there (k.0.named id) in
    let name : id ≡ m.id = ground (arith, known, eq_iff m.id id) in
    (
      drop-IsPaired h.index h.objects m.id m (subst (λ x. lookup x h.objects ≡ some m) name there)
          k.0,
      keep-IsHeld h.index (drop_entry m.b m.id (drop_entry m.a m.id h.index)) h.objects h.in_flight
          m.id (subst (λ x. contains h.in_flight x ≡ false) name down)
          (λ x j other. same_id-drop_both m.a m.b m.id x j h.index other) k.1,
    )

pub finish_match-paired :
    (h : Hub) (id : String) (now : ℤ) → HubPaired h → HubPaired (finish_match h id now).0
unfolding finish_match
finish_match-paired h id now k = elim (Option-cases (lookup id h.objects)) [
  | inl e ↦ rw (finish_match, e) k
  | inr (m, e) ↦ elim (Bool-cases (not (same_id (lookup m.a h.index) id) || m.committing)) [
    | inl finished ↦ rw (finish_match, e, finished) k
    | inr current ↦
        let own : same_id (lookup m.a h.index) id ≡ true = ground (arith, current) in
        rw (finish_match, e, current)
          (
            put-IsPaired h.index h.objects id m _ e refl refl refl refl k.0,
            put-IsHeld h.index h.objects (id ∷ h.in_flight) id m _ e refl refl
                (take_off-IsHeld h.index h.objects h.in_flight id m e own k.1),
          )
  ]
]

-- A match that is written back with its id, its mode and its Trainers.
put-paired :
    (h : Hub) (id : String) (old m : HubMatch)
    → lookup id h.objects ≡ some old
    → m.id ≡ old.id
    → m.solo ≡ old.solo
    → m.a ≡ old.a
    → m.b ≡ old.b
    → HubPaired h
    → HubPaired (put_match h id m)
put-paired h id old m there same_name same_mode same_a same_b k = (
  put-IsPaired h.index h.objects id old m there same_name same_mode same_a same_b k.0,
  put-IsHeld h.index h.objects h.in_flight id old m there same_mode same_a k.1,
)

put_release-paired :
    (h : Hub) (id : String) (old m : HubMatch)
    → lookup id h.objects ≡ some old
    → m.id ≡ old.id
    → m.solo ≡ old.solo
    → m.a ≡ old.a
    → m.b ≡ old.b
    → contains h.in_flight id ≡ false
    → HubPaired h
    → HubPaired (release (put_match h id m) m)
put_release-paired h id old m there same_name same_mode same_a same_b down k =
    release-paired (put_match h id m) id m (lookup-insert_self id m h.objects) down
      (put-paired h id old m there same_name same_mode same_a same_b k)

save_done-paired :
    (h : Hub) (id : String) (m : HubMatch)
    → lookup id h.objects ≡ some m
    → contains h.in_flight id ≡ false
    → HubPaired h
    → HubPaired (save_done h id m)
unfolding save_done
save_done-paired h id m there down k = put_release-paired h id m _ there refl refl refl refl down k

save_failed-paired :
    (h : Hub) (id : String) (m : HubMatch) (now : ℤ)
    → lookup id h.objects ≡ some m
    → contains h.in_flight id ≡ false
    → HubPaired h
    → HubPaired (save_failed h id m now)
unfolding save_failed release
save_failed-paired h id m now there down k = elim (Bool-cases (leb 10 (m.retry_attempts + 1))) [
  | inl last ↦ rw (save_failed, last) (put_release-paired h id m _ there refl refl refl refl down k)
  | inr again ↦ rw (save_failed, again) (put-paired h id m _ there refl refl refl refl k)
]

end_solo-paired :
    (h : Hub) (id : String) (m : HubMatch)
    → lookup id h.objects ≡ some m
    → m.solo ≡ true
    → same_id (lookup m.a h.index) id ≡ true
    → contains h.in_flight id ≡ false
    → HubPaired h
    → HubPaired (end_solo h id m)
unfolding end_solo set_presence
end_solo-paired h id m there solo own down k =
    let left = record m { pending = false; committing = false } in
    let g = put_match h id left in
    let kept = put-paired h id m left there refl refl refl refl k in
    (
      end-IsPaired g.index g.objects kept.0 id left (lookup-insert_self id left h.objects) solo own,
      keep-IsHeld g.index (delete m.a g.index) g.objects g.in_flight id down
          (λ x j other. same_id-delete m.a id x j h.index own other) kept.1,
    )

-- A call in flight lands; a solo match then still holds its entry.
pub landed-paired :
    (h : Hub) (id : String) (land : Hub → HubMatch → Hub)
    → ((g : Hub) (m : HubMatch)
        → lookup id g.objects ≡ some m
        → (m.solo ≡ true → same_id (lookup m.a g.index) id ≡ true)
        → contains g.in_flight id ≡ false
        → HubPaired g
        → HubPaired (land g m))
    → HubPaired h
    → HubPaired (landed h id land)
unfolding landed holds
landed-paired h id land lands k = elim (Bool-cases (contains h.in_flight id)) [
  | inr none_left ↦ rw (landed, none_left) k
  | inl flying ↦ elim (Option-cases (lookup id h.objects)) [
    | inl e ↦ rw (landed, flying, e) k
    | inr (m, e) ↦
        let held = subst (λ o. holds h.index o id ≡ true) e (k.1 id flying) in
        rw (landed, flying, e)
          (lands (record h { in_flight = without id h.in_flight }) m e
            (λ solo. ground (arith, solo, held))
            (ground (arith, eq_iff id id, contains-without id id h.in_flight))
            (k.0, land-IsHeld h.index h.objects h.in_flight id k.1))
  ]
]

pub land_saved-paired :
    (h : Hub) (id : String) (m : HubMatch)
    → lookup id h.objects ≡ some m
    → (m.solo ≡ true → same_id (lookup m.a h.index) id ≡ true)
    → contains h.in_flight id ≡ false
    → HubPaired h
    → HubPaired (land_saved h id m)
unfolding land_saved
land_saved-paired h id m there own down k =
    if_both HubPaired m.solo (end_solo h id m) (save_done h id m)
      (λ solo. end_solo-paired h id m there solo (own solo) down k)
      (λ pvp. save_done-paired h id m there down k)

pub land_failed-paired :
    (h : Hub) (id : String) (m : HubMatch) (now : ℤ)
    → lookup id h.objects ≡ some m
    → (m.solo ≡ true → same_id (lookup m.a h.index) id ≡ true)
    → contains h.in_flight id ≡ false
    → HubPaired h
    → HubPaired (land_failed h id m now)
unfolding land_failed
land_failed-paired h id m now there own down k =
    if_both HubPaired m.solo (end_solo h id m) (save_failed h id m now)
      (λ solo. end_solo-paired h id m there solo (own solo) down k)
      (λ pvp. save_failed-paired h id m now there down k)
