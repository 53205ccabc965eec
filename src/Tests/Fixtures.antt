-- ===== src/Tests/Fixtures.antt =====
-- A small machine, content and two parties for internal/battle. A float is a number of thousandths, and
-- the random source is a linear congruence.
use termon.Prelude.{
  ◌≤◌, Bool, ℕ, ◌+◌, ◌*◌, ◌/◌, ◌%◌, max, String, false, Option, none, some, List, [], ◌∷◌, ltb, leb,
}
use termon.Prelude.Int.{pos, pos_part}
use termon.Machine.{Machine}
use termon.Content.{Species, Move, ContentSet}
use termon.Battle.Strikes.{Rounding}
use native.Mathlib.Omega.{arith}
use native.Mathlib.Nat.{mul-le-mul, div-le_of_le-mul}
use termon.Battle.Types.{Member, Side, both, Monster, PartyMember, Party, Action, ActionKind}
use termon.Battle.Start.{Result, ok, err}
use termon.Battle.State.{Battle}
use termon.Battle.Calls.{Call, selects, advances}

abbrev pub machine : Machine
machine = record {
  Float = ℕ;
  Rng = ℕ;
  of_int = λ z. pos_part z * 1000;
  to_int = λ x. pos (x / 1000);
  literal = λ n d. n * 1000 / d;
  plus = λ x y. x + y;
  times = λ x y. x * y / 1000;
  over = λ x y. x * 1000 / y;
  less = ltb;
  at_least = λ x y. leb y x;
  floor = λ x. x / 1000 * 1000;
  larger = max;
  roll = λ g. ((g * 37 + 11) % 1000, (g * 37 + 11) % 1000);
  decimal = λ n. "some";
}

abbrev pub chippunk : Species
chippunk = record {
  slug = "chippunk";
  name = "Chippunk";
  kind = "grass";
  base_stats = record { hp = 30; attack = 30; defense = 10; sp_attack = 20; speed = 20 };
  movepool = record { move = "tackle"; level = 1 } ∷ record { move = "blast"; level = 5 } ∷ [];
  evolves_to = some (record { species = "chipmonk"; level = 16 });
}

abbrev tackle : Move machine
tackle = record {
  slug = "tackle";
  name = "Tackle";
  order = 1;
  kind = "normal";
  category = "physical";
  power = 10000;
  accuracy = 100000;
}

abbrev blast : Move machine
blast = record {
  slug = "blast";
  name = "Blast";
  order = 2;
  kind = "normal";
  category = "physical";
  power = 900000;
  accuracy = 100000;
}

abbrev pub content : ContentSet machine
content = record {
  species = ("chippunk", chippunk) ∷ [];
  moves = ("tackle", tackle) ∷ ("blast", blast) ∷ [];
  types = [];
}

abbrev entrant : String → ℕ → PartyMember
entrant id level = record {
  monster = record {
    id = id;
    species = "chippunk";
    nickname = "";
    level = level;
    battle_loadout = "tackle" ∷ "blast" ∷ [];
  };
  max_hp = 0;
  stats = none;
}

-- Ann is the faster one.
abbrev pub ann : Party
ann = record {
  trainer = "ann";
  members = entrant "a1" 20 ∷ entrant "a2" 10 ∷ [];
  clamp_outgoing_damage = false;
}

abbrev pub bob : Party
bob = record {
  trainer = "bob";
  members = entrant "b1" 5 ∷ entrant "b2" 5 ∷ [];
  clamp_outgoing_damage = false;
}

abbrev pub uses_move : String → Action
uses_move slug = record { kind = ActionKind.move; move_slug = slug; switch_to = "" }

-- The Battle that the first argument holds; the second stands in for an error.
abbrev pub started : Option (Result (Battle machine)) → Battle machine → Battle machine
started none d = d
started (some (err e)) d = d
started (some (ok b)) d = b

abbrev pub returned : Option (Battle machine) → Battle machine → Battle machine
returned none d = d
returned (some b) d = b

abbrev pub blank : Battle machine
blank = record {
  content = content;
  rng = 0;
  sides = both (record { trainer = ""; members = []; active = 0; clamp_outgoing_damage = false });
  state = termon.Battle.Types.State.over;
  turn = 0;
  actions = both (uses_move "");
  locked = both false;
  lock_kind = both ActionKind.unset;
  events = [];
  events_version = 0;
  winner = "";
  reason = termon.Battle.Types.EndReason.unset;
  replace_side = none;
}

-- A knockout of Bob's first Monster, and the playback left.
abbrev pub first_turn : List Call
first_turn = selects "ann" (uses_move "blast") ∷ selects "bob" (uses_move "tackle") ∷ advances ∷ []

-- A member as it enters the Battle.
abbrev pub entered : String → ℕ → ℕ → ℕ → ℕ → ℕ → ℕ → Member
entered id level hp atk def spa spe = record {
  id = id;
  species = "chippunk";
  nickname = "";
  level = level;
  loadout = "tackle" ∷ "blast" ∷ [];
  public_movepool = "tackle" ∷ "blast" ∷ [];
  spec = chippunk;
  hp = hp;
  max_hp = hp;
  atk = atk;
  def = def;
  spa = spa;
  spe = spe;
  fainted = false;
}

abbrev pub hit_of : Option (Battle machine × Bool) → Battle machine → Battle machine
hit_of none d = d
hit_of (some r) d = r.0

-- The thousandths keep the rounding laws.
abbrev pub machine_laws : Rounding machine
machine_laws = record {
  leq = λ x y. x ≤ y;
  upper_number = λ x y h. omega arith;
  int_self = λ n. omega arith;
  int_nonneg = λ n. omega arith;
  not_less = λ x y h k e. ground arith;
  factor_low = λ g. omega arith;
  factor_high = λ g. omega arith;
  times_le = λ x f n start h low high.
      div-le_of_le-mul 1000 {m = x * f} {n = n * 1000}
        (omega (arith, mul-le-mul {n₁ = x} {m₁ = f} {n₂ = n * 1000} {m₂ = 1000} h high));
  times_nonneg = λ x f n start h low high. omega arith;
  truncate = λ x n exact start h. omega arith;
}
