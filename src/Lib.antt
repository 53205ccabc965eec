-- ===== src/Lib.antt =====
-- Termon is a game server reached over SSH: Trainers meet in a Dojo, queue for Battles, train and capture
-- Monsters. This library models the rules of the game in internal/, translated from the Go source, and
-- proves what makes them correct.
--
-- Prelude holds the shared notation: native numbers, lists measured by them, text maps (Dict), integers
-- (Int) and the Option of code that may panic, where none is the panic (Partial). Machine is what the
-- engine takes from Go: float64 arithmetic, the random source and fmt; no property assumes anything of it
-- but the cap on wild damage, which names the rounding laws it uses.
--
-- Content is internal/content: the records of content.go and the lookups of load.go, with the checks that
-- load.go makes on a Species in Content.Loading. Game is internal/game: Game.Xp is xp.go, Game.Power is
-- power.go, Game.Nickname is nickname.go, and Game.QueueStats is the normalized stats of queue.go, whose
-- sum Game.Budget follows.
--
-- Battle is internal/battle. Types is battle.go, Damage is constants.go, State holds the struct Battle and
-- the private helpers of engine.go, Start is New, Turn is resolveTurn and all it calls, Calls are the
-- exported methods that change a Battle, and Views is Snapshot and FieldedHPAfter, with policyview.go in
-- Views.Policy. A method runs under the Battle's lock, so a call is one step and a history is a list of
-- calls. Battle.Invariant says what holds between calls; its children prove it function by function.
-- Safety, Replay, Hiding and Strikes state the properties. The arrays of length two are a Pair indexed by
-- a Side. The write through the pointer that activeMember returns is an update of the side's list.
--
-- Queue is internal/queue, Session is internal/session, Lobby is internal/lobby. Capture is
-- internal/capture/objective.go and gauge.go, Capture.Encounter is pve.go and Capture.Generate is
-- generate.go; Capture.Awards and Capture.Endurance are about what they give. Server.Admission is
-- internal/server/admission.go and Server.Clock the Decision Clock of hub_match.go. Server.Matches is the
-- registry of matches in hub_match.go, with the places in the Dojos from hub.go and hub_dojo.go and the
-- solo matches of hub_daily.go and hub_sparring.go: each section that holds the hub's lock is one step,
-- and the outcome of a save comes as a later step. Index, Starting, Solo, Holding, Landing, Sections and
-- Flights are about what every order of steps keeps. Two matches have different random ids; the theorems
-- on orders of steps assume so.
--
-- Store is internal/store. Store.Moves, Rewards, Mint and Pvp are the save rules of saveops.go on the
-- records of internal/game/save.go, Store.Records is store.go and Store.Transition is
-- activity_transition.go. Store.Memory is memory.go: Trainers, Battles, Activities and Saves have its
-- calls, and Requests makes them values, so that a history is a list. A call holds the store's lock, so it
-- is one step; a Trainer that two pointers share is read again at each write. Sound, Starters, Payouts and
-- History are about the Saves that it keeps, Atomic about errors, Repeats and Solo about calls that are
-- repeated, Lasting about what later calls leave in place, Miscount about rewards that fail. The server
-- records a finished Battle or activity through such a call; a PvP result is tried up to ten times. JSON,
-- SHA-256, the random source of ids, trimming and the classes of characters are parameters; encoding a
-- record of the store does not fail. A time is its instant, without a location or monotonic part.
--
-- Every loop is a recursion on a list or a number but the two of rescaleBudget, which run on fuel: one
-- more than the sum of the floors for the first, which takes one back in each round, and one more than the
-- budget for the second, which hands one out in each. Counts, HP, levels and times of the store are
-- natural numbers; experience, coordinates and the times of the clock are integers. The integers of Go do
-- not overflow at the sizes that content allows; the version of the log wraps at 2 ^ 64 as in the source.
-- A nil argument is not modelled. A map is a list of its entries; where Go leaves the order of a map open,
-- nothing that is proved depends on it.
--
-- Not modelled: the terminal screens, the server's goroutines, clients and messages, the relay of actions,
-- challenges and dropped connections in the hub, lessons and expeditions, the SQL back end, the
-- statistics, the practice policies, the party lookups and queue move sets of internal/game, and the
-- decoding of content files with their checks on evolutions.
pub mod Prelude
pub mod Machine
pub mod Content
pub mod Game
pub mod Battle
pub mod Queue
pub mod Session
pub mod Server
pub mod Capture
pub mod Lobby
pub mod Store
pub mod Tests
