-- ===== src/Battle/Invariant/Goes.antt =====
-- How one piece of the engine's code takes a Battle to the next: what it appends to the log, that
-- the sides stay sound, and that the log accounts for the HP.
use mathlib.Core.List.{append_assoc}
use termon.Prelude.{◌≡◌, refl, sym, ap, ◌∙◌, subst, Option, none, some, List, ◌++◌, Runs}
use termon.Machine.{Machine}
use termon.Battle.Types.{other, Pair, pick, Event, Member, SideState}
use termon.Battle.State.{Battle, active_member}
use termon.Battle.Views.{last_fielded}
use termon.Battle.Invariant.{Shown, Sound, IsApart, Passage, Quiet}
use termon.Battle.Invariant.Lemmas.{
  last_fielded-append, last_fielded-Quiet, Wounded-zero, damage_to-Quiet, Wounded-trans,
}

pub record Goes {M : Machine} (b b' : Battle M) : Type 0 where
  pub log : List Event
  pub events : b'.events ≡ b.events ++ log
  pub sound : Sound b'.sides b'.events
  pub passage : Passage b.sides b'.sides log

-- The fields that only the turn's frame and the calls write.
pub record Calm {M : Machine} (b b' : Battle M) : Type 0 where
  pub state : b'.state ≡ b.state
  pub actions : b'.actions ≡ b.actions
  pub locked : b'.locked ≡ b.locked
  pub replace_side : b'.replace_side ≡ b.replace_side

pub Calm-trans : {M : Machine} {a b c : Battle M} → Calm a b → Calm b c → Calm a c
Calm-trans h k = record {
  state = k.state ∙ h.state;
  actions = k.actions ∙ h.actions;
  locked = k.locked ∙ h.locked;
  replace_side = k.replace_side ∙ h.replace_side;
}

IsApart-Passage :
    (p p' : Pair SideState) (log : List Event) → Passage p p' log → IsApart p → IsApart p'
IsApart-Passage p p' log h a t = rw (h.members t, h.members (other t)) (a t)

pub Passage-trans :
    (p q r : Pair SideState) (l k : List Event)
    → Passage p q l
    → Passage q r k
    → Passage p r (l ++ k)
Passage-trans p q r l k h g = record {
  trainers = λ t. g.trainers t ∙ h.trainers t;
  members = λ t. g.members t ∙ h.members t;
  wounds = λ a t.
      Wounded-trans l k (pick p t).members (pick q t).members (pick r t).members (h.wounds a t)
        (g.wounds (IsApart-Passage p q l h a) t);
}

-- A log that fields nobody of the side's Trainer leaves what is shown.
pub Shown-append :
    (s : SideState) (events log : List Event)
    → last_fielded s.trainer log ≡ none
    → Shown events s
    → Shown (events ++ log) s
unfolding active_member
Shown-append s events log q h = shown (active_member s) h
  where
    shown :
        (o : Option Member)
        → Runs (λ m. last_fielded s.trainer events ≡ some m.id) o
        → Runs (λ m. last_fielded s.trainer (events ++ log) ≡ some m.id) o
    shown none h = h
    shown (some m) h = rw (last_fielded-append s.trainer events log, q) h

pub Sound-Quiet :
    (p : Pair SideState) (events log : List Event)
    → Quiet log
    → Sound p events
    → Sound p (events ++ log)
Sound-Quiet p events log q h = record {
  sides = h.sides;
  shown = λ t.
      Shown-append (pick p t) events log (last_fielded-Quiet (pick p t).trainer log q) (h.shown t);
  rivals = h.rivals;
}

pub Passage-Quiet : (p : Pair SideState) (log : List Event) → Quiet log → Passage p p log
Passage-Quiet p log q = record {
  trainers = λ t. refl;
  members = λ t. refl;
  wounds = λ a t. Wounded-zero log (pick p t).members (λ id. damage_to-Quiet id log q);
}

module _ {M : Machine} where
  pub Goes-trans : (a b c : Battle M) → Goes a b → Goes b c → Goes a c
  Goes-trans a b c h k = record {
    log = h.log ++ k.log;
    events = k.events ∙ ap (λ l. l ++ k.log) h.events ∙ append_assoc a.events h.log k.log;
    sound = k.sound;
    passage = Passage-trans a.sides b.sides c.sides h.log k.log h.passage k.passage;
  }

  -- A step that leaves the sides alone and logs quiet events.
  pub Goes-Quiet :
      (b b' : Battle M) (log : List Event)
      → b'.sides ≡ b.sides
      → b'.events ≡ b.events ++ log
      → Quiet log
      → Sound b.sides b.events
      → Goes b b'
  Goes-Quiet b b' log e f q h = record {
    log = log;
    events = f;
    sound = rw (e, f) (Sound-Quiet b.sides b.events log q h);
    passage = subst (λ p. Passage b.sides p log) (sym e) (Passage-Quiet b.sides log q);
  }
