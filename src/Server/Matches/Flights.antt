-- ===== src/Server/Matches/Flights.antt =====
-- The saves of results that are under way, in internal/server/hub_match.go.
use termon.Server.Matches.{
  bot_trainer, end_solo, enter_lobby, enters, forget_seat, forgets, land_failed, land_saved,
  new_solo, start_solo, starts_solo, join, Hub, HubMatch, Section, cancel_queue, cancels, fails,
  find_battle, finds, finish_match, finishes, is_busy, landed, new_hub, new_match, release,
  run_section, run_sections, same_id, save_done, save_failed, saves, set_both, set_presence,
  start_match, starts,
}
use termon.Prelude.{
  if_both, Bool, IsDistinct, IsDistinct-without, List, Option, String, [], arith, contains,
  contains-without, false, if◌then◌else◌, inl, inr, leb, none, not, refl, some, without, ◌+◌, ◌==◌,
  ◌||◌, ◌∷◌, ◌≡◌, Bool-cases, Option-cases,
}
use termon.Prelude.Dict.{Dict, insert, lookup, lookup-insert}
use termon.Prelude.Int.{ℤ}
use termon.Server.Matches.Sections.{IsFresh, IsNew}
use text.Mathlib.TextEquality.{eq_iff}

unfoldable pub is_committing : Option HubMatch → Bool
is_committing none = false
is_committing (some m) = m.committing

-- The matches in flight are the committing ones, each once.
abbrev Tracks : List String → Dict HubMatch → Type 0
Tracks flight objects =
    IsDistinct flight × ((id : String) → contains flight id ≡ is_committing (lookup id objects))

abbrev HubTracks : Hub → Type 0
HubTracks h = Tracks h.in_flight h.objects

-- A match is written back, and the calls in flight follow its `committing`.
write-Tracks :
    (flight after : List String) (objects : Dict HubMatch) (id : String) (m : HubMatch)
    → ((j : String) → contains after j ≡ (if id == j then m.committing else contains flight j))
    → IsDistinct after
    → Tracks flight objects
    → Tracks after (insert id m objects)
unfolding is_committing
write-Tracks flight after objects id m follows single k =
    (single, λ j. ground (arith, follows j, lookup-insert id j m objects, k.1 j))

find_battle-Tracks :
    (h : Hub) (hash : String) (ready : Bool) (now : ℤ)
    → Tracks h.in_flight h.objects
    → Tracks (find_battle h hash ready now).0.in_flight (find_battle h hash ready now).0.objects
unfolding find_battle set_presence
find_battle-Tracks h hash ready now k = elim (Option-cases (lookup hash h.flags)) [
  | inl e ↦ rw (find_battle, e) k
  | inr (p, e) ↦ elim (Bool-cases (not ready || p.in_battle)) [
    | inl refused ↦ rw (find_battle, e, refused) k
    | inr accepted ↦ elim (Option-cases (join h.queue hash now).1.rank) [
      | inl no_rank ↦ rw (find_battle, e, accepted, no_rank) k
      | inr (rank, ranked) ↦ rw (find_battle, e, accepted, ranked) k
    ]
  ]
]

start_match-Tracks :
    (h : Hub) (a b id : String)
    → lookup id h.objects ≡ none
    → Tracks h.in_flight h.objects
    → Tracks (start_match h a b id).in_flight (start_match h a b id).objects
unfolding start_match set_both set_presence is_committing
start_match-Tracks h a b id new k = elim (Bool-cases (is_busy h a || is_busy h b)) [
  | inl busy ↦ rw (start_match, busy) k
  | inr free ↦
      rw (start_match, free)
        (write-Tracks h.in_flight h.in_flight h.objects id (new_match id a b)
          (λ j. ground (arith, eq_iff id j, k.1 j, new)) k.0 k)
]

finish_match-Tracks :
    (h : Hub) (id : String) (now : ℤ)
    → Tracks h.in_flight h.objects
    → Tracks (finish_match h id now).0.in_flight (finish_match h id now).0.objects
unfolding finish_match is_committing
finish_match-Tracks h id now k = elim (Option-cases (lookup id h.objects)) [
  | inl e ↦ rw (finish_match, e) k
  | inr (m, e) ↦ elim (Bool-cases (not (same_id (lookup m.a h.index) id) || m.committing)) [
    | inl over ↦ rw (finish_match, e, over) k
    | inr current ↦
        let idle : m.committing ≡ false = ground (arith, current) in
        let absent : contains h.in_flight id ≡ false = ground (arith, k.1 id, e, idle) in
        rw (finish_match, e, current)
          (write-Tracks h.in_flight (id ∷ h.in_flight) h.objects id _ (λ j. refl) (absent, k.0) k)
  ]
]

-- A call that ends, with the match written back as idle.
end-Tracks :
    (h : Hub) (id : String) (m : HubMatch)
    → m.committing ≡ false
    → Tracks h.in_flight h.objects
    → Tracks (without id h.in_flight) (insert id m h.objects)
end-Tracks h id m idle k =
    write-Tracks h.in_flight (without id h.in_flight) h.objects id m
      (λ j. rw idle (contains-without id j h.in_flight)) (IsDistinct-without id h.in_flight k.0) k

start_solo-Tracks :
    (h : Hub) (hash id : String)
    → lookup id h.objects ≡ none
    → HubTracks h
    → HubTracks (start_solo h hash id)
unfolding start_solo set_presence is_committing
start_solo-Tracks h hash id new k = elim (Bool-cases (is_busy h hash || is_busy h bot_trainer)) [
  | inl busy ↦ rw (start_solo, busy) k
  | inr free ↦
      rw (start_solo, free)
        (write-Tracks h.in_flight h.in_flight h.objects id (new_solo id hash)
          (λ j. ground (arith, eq_iff id j, k.1 j, new)) k.0 k)
]

-- What each mode does with the match, on the hub in which the call is no more in flight.
ends : Hub → String → Hub
ends h id = record h { in_flight = without id h.in_flight }

save_failed-Tracks :
    (h : Hub) (id : String) (m : HubMatch) (now : ℤ)
    → HubTracks h
    → HubTracks (save_failed (ends h id) id m now)
unfolding ends save_failed release set_both set_presence
save_failed-Tracks h id m now k = elim (Bool-cases (leb 10 (m.retry_attempts + 1))) [
  | inl last ↦ rw (save_failed, last) (end-Tracks h id _ refl k)
  | inr again ↦ rw (save_failed, again) (end-Tracks h id _ refl k)
]

save_done-Tracks :
    (h : Hub) (id : String) (m : HubMatch) → HubTracks h → HubTracks (save_done (ends h id) id m)
unfolding ends save_done release set_both set_presence
save_done-Tracks h id m k = end-Tracks h id _ refl k

end_solo-Tracks :
    (h : Hub) (id : String) (m : HubMatch) → HubTracks h → HubTracks (end_solo (ends h id) id m)
unfolding ends end_solo set_presence
end_solo-Tracks h id m k = end-Tracks h id _ refl k

landed-Tracks :
    (h : Hub) (id : String) (land : Hub → HubMatch → Hub)
    → ((m : HubMatch) → HubTracks (land (ends h id) m))
    → HubTracks h
    → HubTracks (landed h id land)
unfolding landed ends
landed-Tracks h id land lands k = elim (Bool-cases (contains h.in_flight id)) [
  | inr none_left ↦ rw (landed, none_left) k
  | inl flying ↦ elim (Option-cases (lookup id h.objects)) [
    | inl e ↦ rw (landed, flying, e) k
    | inr (m, e) ↦ rw (landed, flying, e) (lands m)
  ]
]

saves-Tracks : (h : Hub) (id : String) → HubTracks h → HubTracks (run_section h (saves id))
unfolding run_section land_saved
saves-Tracks h id k =
    landed-Tracks h id (λ g m. land_saved g id m)
      (λ m.
        if_both HubTracks m.solo (end_solo (ends h id) id m) (save_done (ends h id) id m)
          (λ solo. end_solo-Tracks h id m k) (λ pvp. save_done-Tracks h id m k))
      k

fails-Tracks :
    (h : Hub) (id : String) (now : ℤ) → HubTracks h → HubTracks (run_section h (fails id now))
unfolding run_section land_failed
fails-Tracks h id now k =
    landed-Tracks h id (λ g m. land_failed g id m now)
      (λ m.
        if_both HubTracks m.solo (end_solo (ends h id) id m) (save_failed (ends h id) id m now)
          (λ solo. end_solo-Tracks h id m k) (λ pvp. save_failed-Tracks h id m now k))
      k

run_section-Tracks :
    (h : Hub) (s : Section)
    → IsNew h s
    → Tracks h.in_flight h.objects
    → Tracks (run_section h s).in_flight (run_section h s).objects
unfolding run_section IsNew cancel_queue enter_lobby forget_seat set_presence
run_section-Tracks h (finds hash ready now) new k = find_battle-Tracks h hash ready now k
run_section-Tracks h (cancels hash) new k = k
run_section-Tracks h (starts a b id) new k = start_match-Tracks h a b id new k
run_section-Tracks h (starts_solo hash id) new k = start_solo-Tracks h hash id new k
run_section-Tracks h (enters hash) new k = k
run_section-Tracks h (forgets hash) new k = k
run_section-Tracks h (finishes id now) new k = finish_match-Tracks h id now k
run_section-Tracks h (saves id) new k = saves-Tracks h id k
run_section-Tracks h (fails id now) new k = fails-Tracks h id now k

run_sections-Tracks :
    (h : Hub) (sections : List Section)
    → IsFresh h sections
    → Tracks h.in_flight h.objects
    → Tracks (run_sections h sections).in_flight (run_sections h sections).objects
unfolding run_sections IsFresh
run_sections-Tracks h [] new k = k
run_sections-Tracks h (s ∷ rest) new k =
    run_sections-Tracks (run_section h s) rest new.1 (run_section-Tracks h s new.0 k)

-- A new hub runs any sequence of locked sections: Trainers enter and leave the Dojos, join and leave the
-- Queue, start PvP matches, daily challenges and sparring, and finish them, and saves land or fail, in any
-- order. Every match starts under an id that no match has. Then no match has two saves of its result under
-- way at once, and the matches with a save under way are those that are marked as committing.
pub run_sections-IsDistinct :
    (sections : List Section)
    → IsFresh new_hub sections
    → IsDistinct (run_sections new_hub sections).in_flight
      × ((id : String)
          → contains (run_sections new_hub sections).in_flight id
            ≡ is_committing (lookup id (run_sections new_hub sections).objects))
unfolding is_committing lookup
run_sections-IsDistinct sections new = run_sections-Tracks new_hub sections new (tt, λ id. refl)
