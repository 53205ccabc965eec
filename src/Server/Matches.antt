-- ===== src/Server/Matches.antt =====
-- The registry of server-owned matches in internal/server: FindBattle, CancelQueue, the commit of
-- startMatchFrom, finishMatch, finishPvPMatch and finishSoloWithReward of hub_match.go, the commit of a daily
-- challenge in hub_daily.go and of sparring in hub_sparring.go, EnterLobby of hub.go and forgetSeat of
-- hub_dojo.go. Each section that holds the hub's lock is one step, so an interleaving is a sequence of steps.
-- Loading a Save, building a Battle and the call of the Store stand between the sections; their outcomes are
-- arguments. Lessons and expeditions, messages and telemetry are left out.
pub mod Index
pub mod Starting
pub mod Solo
pub mod Holding
pub mod Landing
pub mod Sections
pub mod Flights
use termon.Queue.{pair, cancel, join, Queue, is_there}
use termon.Prelude.{
  Bool, List, Option, String, [], contains, false, if◌then◌else◌, leb, min, none, not, some, true,
  without, ℕ, ◌&&◌, ◌*◌, ◌+◌, ◌==◌, ◌^◌, ◌||◌, ◌∷◌,
}
use termon.Prelude.Dict.{Dict, delete, insert, lookup}
use termon.Prelude.Int.{ltb_ℤ, pos, ℤ, ◌+ℤ◌}

-- A `*match` with the fields that the registry reads; the zero time is `none`. `solo` says that its mode is
-- one of the two solo modes, a daily challenge or sparring, and not PvP.
pub record HubMatch : Type 0 where
  pub id : String
  pub solo : Bool
  pub a : String
  pub b : String
  pub pending : Bool
  pub committing : Bool
  pub exhausted : Bool
  pub completed_at : Option ℤ
  pub next_retry_at : Option ℤ
  pub retry_attempts : ℕ

pub record Flags : Type 0 where
  pub in_queue : Bool
  pub in_battle : Bool

-- `index` is `matches`, by the id of the match, and `objects` are the matches that pointers lead to.
-- `flags` has the seated Trainers of all Dojos, and `in_flight` the calls that are between the two locked
-- sections of a finish.
pub record Hub : Type 0 where
  pub index : Dict String
  pub objects : Dict HubMatch
  pub queue : Queue
  pub flags : Dict Flags
  pub drops : Dict ℤ
  pub challenges : Dict String
  pub in_flight : List String

unfoldable pub update_flags : Dict Flags → String → (Flags → Flags) → Dict Flags
update_flags flags hash update = elim (lookup hash flags) [
  | none ↦ flags
  | some p ↦ insert hash (update p) flags
]

unfoldable pub set_presence : Hub → String → (Flags → Flags) → Hub
unfolding update_flags
set_presence h hash update = record h { flags = update_flags h.flags hash update }

abbrev pub not_queued : Flags → Flags
not_queued p = record p { in_queue = false }

abbrev pub not_in_battle : Flags → Flags
not_in_battle p = record p { in_battle = false }

-- `EnterLobby` once the Trainer has a place in a Dojo.
unfoldable pub enter_lobby : Hub → String → Hub
enter_lobby h hash = record h {
  flags = insert hash (record { in_queue = false; in_battle = false }) h.flags;
}

-- The challenges from or to a Trainer go; the key is the recipient.
unfoldable pub drop_challenges : String → Dict String → Dict String
drop_challenges hash [] = []
drop_challenges hash ((to, from) ∷ rest) =
    let kept = drop_challenges hash rest in
    if from == hash || to == hash then kept else (to, from) ∷ kept

unfoldable pub forget_seat : Hub → String → Hub
unfolding drop_challenges
forget_seat h hash = record h {
  queue = (cancel h.queue hash).0;
  challenges = drop_challenges hash h.challenges;
  flags = delete hash h.flags;
}

abbrev pub fighting : Flags → Flags
fighting p = record p { in_battle = true; in_queue = false }

-- The pair, if two Trainers wait; `ready` says that the Save is loaded with a full party.
unfoldable pub find_battle : Hub → String → Bool → ℤ → Hub × Option (String × String)
unfolding set_presence
find_battle h hash ready now = elim (lookup hash h.flags) [
  | none ↦ (h, none)
  | some p ↦
      if not ready || p.in_battle
      then (h, none)
      else let (joined, place) = join h.queue hash now in
        elim place.rank [
          | none ↦ (h, none)
          | some rank ↦
              let queued = set_presence h hash (λ q. record q { in_queue = true }) in
              let (paired, found) = pair joined now in
              (
                record queued { queue = paired },
                elim found [ none ↦ none | some two ↦ some (two.a, two.b) ],
              )
        ]
]

unfoldable pub cancel_queue : Hub → String → Hub
unfolding set_presence
cancel_queue h hash = set_presence (record h { queue = (cancel h.queue hash).0 }) hash not_queued

unfoldable pub is_busy : Hub → String → Bool
is_busy h hash =
    is_there (lookup hash h.index)
    || elim (lookup hash h.flags) [ none ↦ false | some p ↦ p.in_battle ]

abbrev pub new_match : String → String → String → HubMatch
new_match id a b = record {
  id = id;
  solo = false;
  a = a;
  b = b;
  pending = false;
  committing = false;
  exhausted = false;
  completed_at = none;
  next_retry_at = none;
  retry_attempts = 0;
}

-- The flags of both Trainers; no other part of the hub changes.
unfoldable pub set_both : Hub → String → String → (Flags → Flags) → Hub
unfolding set_presence
set_both h a b update = set_presence (set_presence h a update) b update

-- The locked section of `startMatchFrom`.
unfoldable pub start_match : Hub → String → String → String → Hub
unfolding is_busy set_both
start_match h a b id =
    let started = record h {
      index = insert b id (insert a id h.index);
      objects = insert id (new_match id a b) h.objects;
      queue = (cancel (cancel h.queue a).0 b).0;
      challenges = delete b (delete a h.challenges);
    } in
    if is_busy h a || is_busy h b then set_both h a b not_queued else set_both started a b fighting

abbrev pub bot_trainer : String
bot_trainer = "dojo:opponent"

abbrev pub new_solo : String → String → HubMatch
new_solo id hash = record (new_match id hash bot_trainer) { solo = true }

abbrev pub in_battle_now : Flags → Flags
in_battle_now p = record p { in_battle = true }

-- The locked section that starts a daily challenge or sparring.
unfoldable pub start_solo : Hub → String → String → Hub
unfolding is_busy set_presence
start_solo h hash id =
    let started = record h {
      index = insert hash id h.index;
      objects = insert id (new_solo id hash) h.objects;
    } in
    if is_busy h hash || is_busy h bot_trainer then h else set_presence started hash in_battle_now

unfoldable pub same_id : Option String → String → Bool
same_id none id = false
same_id (some cur) id = cur == id

-- A match that is written back through its pointer.
abbrev pub put_match : Hub → String → HubMatch → Hub
put_match h id m = record h { objects = insert id m h.objects }

-- `finishMatch`: whether the finish goes on.
unfoldable pub finish_match : Hub → String → ℤ → Hub × Bool
unfolding same_id
finish_match h id now = elim (lookup id h.objects) [
  | none ↦ (h, false)
  | some m ↦ if not (same_id (lookup m.a h.index) id) || m.committing then (h, false) else (
    record (put_match h id (record m {
      committing = true;
      completed_at = elim m.completed_at [ none ↦ some now | some t ↦ some t ];
    })) { in_flight = id ∷ h.in_flight },
    true,
  )
]

-- `if cur := h.matches[k]; cur == m { delete(h.matches, k) }`.
unfoldable pub drop_entry : String → String → Dict String → Dict String
drop_entry k id index = if same_id (lookup k index) id then delete k index else index

-- Both Trainers leave the match.
unfoldable pub release : Hub → HubMatch → Hub
unfolding drop_entry set_both
release h m =
    set_both
      (record h {
        index = drop_entry m.b m.id (drop_entry m.a m.id h.index);
        drops = delete m.b (delete m.a h.drops);
      })
      m.a m.b not_in_battle

-- Half a second, doubled with each attempt up to the fifth.
unfoldable pub backoff : ℕ → ℤ
backoff attempts = pos (2 ^ min attempts 5 * 500000000)

-- The second locked section of `finishPvPMatch`, after the Store has returned an error or a result.
unfoldable pub save_failed : Hub → String → HubMatch → ℤ → Hub
unfolding release backoff
save_failed h id m now =
    let failed = record m {
      pending = true;
      committing = false;
      retry_attempts = m.retry_attempts + 1;
      next_retry_at = some (now +ℤ backoff (m.retry_attempts + 1));
    } in
    if leb 10 (m.retry_attempts + 1)
    then release (put_match h id (record failed { exhausted = true })) failed
    else put_match h id failed

unfoldable pub save_done : Hub → String → HubMatch → Hub
unfolding release
save_done h id m =
    let saved = record m {
      pending = false;
      committing = false;
      retry_attempts = 0;
      next_retry_at = none;
    } in
    release (put_match h id saved) saved

-- The last locked section of `finishSoloWithReward`.
unfoldable pub end_solo : Hub → String → HubMatch → Hub
unfolding set_presence
end_solo h id m =
    let left = put_match h id (record m { pending = false; committing = false }) in
    set_presence (record left { index = delete m.a h.index }) m.a not_in_battle

-- What the mode of the match does once the Store has returned; a solo match only reports an error.
unfoldable pub land_saved : Hub → String → HubMatch → Hub
unfolding save_done end_solo
land_saved h id m = if m.solo then end_solo h id m else save_done h id m

unfoldable pub land_failed : Hub → String → HubMatch → ℤ → Hub
unfolding save_failed end_solo
land_failed h id m now = if m.solo then end_solo h id m else save_failed h id m now

-- The condition of `retryPendingResults` for another finish.
unfoldable pub is_due : HubMatch → ℤ → Bool
is_due m now =
    m.pending
    && (not m.exhausted && elim m.next_retry_at [ none ↦ true | some at ↦ not (ltb_ℤ now at) ])

-- A locked section, with what it was called with.
pub data Section : Type 0 where
  finds : String → Bool → ℤ → Section
  cancels : String → Section
  starts : String → String → String → Section
  starts_solo : String → String → Section
  enters forgets : String → Section
  finishes : String → ℤ → Section
  saves : String → Section
  fails : String → ℤ → Section

-- An outcome of the Store comes for a call in flight, and ends it.
unfoldable pub landed : Hub → String → (Hub → HubMatch → Hub) → Hub
landed h id land =
    if contains h.in_flight id
    then elim (lookup id h.objects) [
      | none ↦ h
      | some m ↦ land (record h { in_flight = without id h.in_flight }) m
    ]
    else h

unfoldable pub run_section : Hub → Section → Hub
unfolding find_battle cancel_queue start_match start_solo enter_lobby forget_seat finish_match
    landed land_saved land_failed
run_section h (finds hash ready now) = (find_battle h hash ready now).0
run_section h (cancels hash) = cancel_queue h hash
run_section h (starts a b id) = start_match h a b id
run_section h (starts_solo hash id) = start_solo h hash id
run_section h (enters hash) = enter_lobby h hash
run_section h (forgets hash) = forget_seat h hash
run_section h (finishes id now) = (finish_match h id now).0
run_section h (saves id) = landed h id (λ k m. land_saved k id m)
run_section h (fails id now) = landed h id (λ k m. land_failed k id m now)

unfoldable pub run_sections : Hub → List Section → Hub
unfolding run_section
run_sections h [] = h
run_sections h (s ∷ rest) = run_sections (run_section h s) rest

abbrev pub new_hub : Hub
new_hub = record {
  index = [];
  objects = [];
  queue = record { order = []; enqueued_at = [] };
  flags = [];
  drops = [];
  challenges = [];
  in_flight = [];
}
