-- ===== src/Battle/Invariant/Writes.antt =====
-- The two kinds of writes to a side: another Monster is fielded, or the active one is hit.
use termon.Prelude.{
  ℕ, ◌+◌, ◌≡◌, ◌≢◌, refl, sym, ◌∙◌, subst, String, true, false, none, some, List, [], ◌∷◌, ◌++◌,
  get_elem?, set, length-set, contains, All-set, All-get, ◌==◌, eq_iff, get_elem?-set_self,
  get_elem?-lt, arith,
}
use termon.Machine.{Machine}
use termon.Battle.Types.{Side, other, Pair, pick, put, Event, Member, SideState}
use termon.Battle.State.{Battle, active_member, set_active_member}
use termon.Battle.Views.{is_damage, fielding_kind, last_fielded}
use termon.Battle.Invariant.{
  ids, MemberOk, SideOk, Shown, Sound, damage_to, Wounded, IsApart, Passage,
}
use termon.Battle.Invariant.Lemmas.{
  pick-put, last_fielded-append, Wounded-set, Wounded-zero, Wounded-others, ids-set, ids-get_elem?,
}
use termon.Battle.Invariant.Goes.{Goes, Shown-append}

pub pick-put_other {ℓ κ} :
    {A : Type ℓ} (P : Side → A → Type κ) (p : Pair A) (s : Side) (a : A)
    → P (other s) (pick p (other s))
    → P s a
    → (t : Side) → P t (pick (put p s a) t)
pick-put_other P p Side.first a h k Side.first = k
pick-put_other P p Side.first a h k Side.second = h
pick-put_other P p Side.second a h k Side.first = h
pick-put_other P p Side.second a h k Side.second = k

rivals_other :
    (p : Pair SideState) (events : List Event)
    → Sound p events
    → (t : Side) → (pick p (other t)).trainer ≢ (pick p t).trainer
rivals_other p events h Side.first e = h.rivals (sym e)
rivals_other p events h Side.second e = h.rivals e

rivals-put :
    (p : Pair SideState) (t : Side) (s : SideState)
    → p.at_first.trainer ≢ p.at_second.trainer
    → s.trainer ≡ (pick p t).trainer
    → (put p t s).at_first.trainer ≢ (put p t s).at_second.trainer
rivals-put p Side.first s h e x = h (sym e ∙ x)
rivals-put p Side.second s h e x = h (x ∙ e)

-- Membership of an id of the hit side in the other party.
apart-get :
    (p : Pair SideState) (t : Side) (m : Member)
    → IsApart p
    → active_member (pick p t) ≡ some m
    → contains (ids (pick p (other t)).members) m.id ≡ false
unfolding active_member
apart-get p t m a e =
    All-get (λ id. contains (ids (pick p (other t)).members) id ≡ false) (ids (pick p t).members)
      (pick p t).active m.id (a t) (ids-get_elem? (pick p t).members (pick p t).active m e)

module _ {M : Machine} where
  -- Another Monster of a side is fielded, and the log says so.
  pub Goes-field :
      (b b' : Battle M) (t : Side) (i : ℕ) (m : Member) (e : Event)
      → Sound b.sides b.events
      → get_elem? (pick b.sides t).members i ≡ some m
      → e.actor ≡ (pick b.sides t).trainer
      → e.monster_id ≡ m.id
      → fielding_kind e.kind ≡ true
      → is_damage e.kind ≡ false
      → b'.sides ≡ put b.sides t (record (pick b.sides t) { active = i })
      → b'.events ≡ b.events ++ e ∷ []
      → Goes b b'
  unfolding last_fielded active_member
  Goes-field b b' t i m e h g actor named fielding harmless es el = record {
    log = e ∷ [];
    events = el;
    sound = rw (es, el) sound;
    passage = subst (λ p. Passage b.sides p (e ∷ [])) (sym es) passage;
  }
    where
      s : SideState
      s = pick b.sides t

      sound : Sound (put b.sides t (record s { active = i })) (b.events ++ e ∷ [])
      sound = record {
        sides =
            pick-put (λ _ x. SideOk x) b.sides t (record s { active = i }) h.sides
              (record {
                members = (h.sides t).members;
                active = get_elem?-lt s.members i m g;
                distinct = (h.sides t).distinct;
              });
        shown =
            pick-put_other (λ _ x. Shown (b.events ++ e ∷ []) x) b.sides t (record s { active = i })
              (Shown-append (pick b.sides (other t)) b.events (e ∷ [])
                (ground (
                  arith,
                  eq_iff e.actor (pick b.sides (other t)).trainer,
                  rivals_other b.sides b.events h t,
                ))
                (h.shown (other t)))
              (rw g (
                ground (
                  arith,
                  last_fielded-append s.trainer b.events (e ∷ []),
                  eq_iff e.actor s.trainer,
                )));
        rivals = rivals-put b.sides t (record s { active = i }) h.rivals refl;
      }

      passage : Passage b.sides (put b.sides t (record s { active = i })) (e ∷ [])
      passage = record {
        trainers =
            pick-put (λ u x. x.trainer ≡ (pick b.sides u).trainer) b.sides t
              (record s { active = i }) (λ u. refl) refl;
        members =
            pick-put (λ u x. ids x.members ≡ ids (pick b.sides u).members) b.sides t
              (record s { active = i }) (λ u. refl) refl;
        wounds = λ a.
            pick-put (λ u x. Wounded (e ∷ []) (pick b.sides u).members x.members) b.sides t
              (record s { active = i })
              (λ u. Wounded-zero (e ∷ []) (pick b.sides u).members (λ id. ground arith))
              (Wounded-zero (e ∷ []) s.members (λ id. ground arith));
      }

  -- The active Monster of a side is hit, and the log takes the same HP from it and from nobody else.
  pub Goes-hit :
      (b b' : Battle M) (t : Side) (m m' : Member) (log : List Event)
      → Sound b.sides b.events
      → active_member (pick b.sides t) ≡ some m
      → m'.id ≡ m.id
      → m'.max_hp ≡ m.max_hp
      → MemberOk m'
      → m.hp ≡ m'.hp + damage_to m.id log
      → ((id : String) → (m.id == id) ≡ false → damage_to id log ≡ 0)
      → ((u : Side) → last_fielded (pick b.sides u).trainer log ≡ none)
      → b'.sides ≡ put b.sides t (set_active_member (pick b.sides t) m')
      → b'.events ≡ b.events ++ log
      → Goes b b'
  unfolding active_member set_active_member
  Goes-hit b b' t m m' log h g same_id same_max fine taken others quiet es el = record {
    log = log;
    events = el;
    sound = rw (es, el) sound;
    passage = subst (λ p. Passage b.sides p log) (sym es) passage;
  }
    where
      s : SideState
      s = pick b.sides t

      s' : SideState
      s' = record s { members = set s.members s.active m' }

      same_ids : ids s'.members ≡ ids s.members
      same_ids = ids-set s.members s.active m m' g same_id

      still_shown : Shown (b.events ++ log) s → Shown (b.events ++ log) s'
      still_shown k =
          rw (get_elem?-set_self s.members s.active m' (h.sides t).active, same_id) (rw g at k)

      sound : Sound (put b.sides t s') (b.events ++ log)
      sound = record {
        sides =
            pick-put (λ _ x. SideOk x) b.sides t s' h.sides
              (record {
                members = All-set MemberOk s.members s.active m' (h.sides t).members fine;
                active = rw (length-set s.members s.active m') (h.sides t).active;
                distinct = rw same_ids (h.sides t).distinct;
              });
        shown =
            pick-put (λ _ x. Shown (b.events ++ log) x) b.sides t s'
              (λ u. Shown-append (pick b.sides u) b.events log (quiet u) (h.shown u))
              (still_shown (Shown-append s b.events log (quiet t) (h.shown t)));
        rivals = rivals-put b.sides t s' h.rivals refl;
      }

      passage : Passage b.sides (put b.sides t s') log
      passage = record {
        trainers =
            pick-put (λ u x. x.trainer ≡ (pick b.sides u).trainer) b.sides t s' (λ u. refl) refl;
        members =
            pick-put (λ u x. ids x.members ≡ ids (pick b.sides u).members) b.sides t s' (λ u. refl)
              same_ids;
        wounds = λ a.
            pick-put_other (λ u x. Wounded log (pick b.sides u).members x.members) b.sides t s'
              (Wounded-others log (pick b.sides (other t)).members m.id (apart-get b.sides t m a g)
                others)
              (Wounded-set log s.members s.active m m' g (h.sides t).distinct same_id same_max taken
                others);
      }
