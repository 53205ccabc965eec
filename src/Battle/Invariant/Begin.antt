-- ===== src/Battle/Invariant/Begin.antt =====
-- `New` and `initSide` of internal/battle/engine.go, for the start of a valid Battle.
use termon.Prelude.{
  suc, ◌≤◌, ◌<◌, ◌≡◌, ◌≢◌, refl, sym, ap, ◌∙◌, String, true, false, ◌||◌, some, List, [], ◌∷◌, ltb,
  ◌==◌, eq_iff, length, All, All-get, IsDistinct, contains, Runs, Runs-bind, arith, Bool-cases,
  ◌>>=◌, inl, inr,
}
use termon.Machine.{Machine}
use termon.Content.{ContentSet}
use termon.Battle.Types.{Side, State, PartyMember, Party, Member, SideState}
use termon.Battle.State.{active_member, append_events}
use termon.Battle.Start.{
  Result, ok, err, init_member, init_members, init_side, send_out, emit_start_send_outs, fresh, new,
}
use termon.Battle.Views.{last_fielded, fielding_kind}
use termon.Battle.Invariant.{ids, MemberOk, SideOk}
use termon.Battle.Invariant.Moves.{Alive}
use termon.Battle.Invariant.Select.{Valid}
use termon.Battle.Invariant.Lemmas.{get_elem?-some}

-- What holds of the value, when there is no error.
abbrev pub On {ℓ} : {A : Type ℓ} → (A → Type 0) → Result A → Type 0
On P (ok a) = P a
On P (err e) = Unit

-- A member as it enters the Battle.
abbrev pub Rested : Member → Type 0
Rested m = (m.hp ≡ m.max_hp) × (1 ≤ m.max_hp) × (m.fainted ≡ false)

record Lined (seen : List String) (ms : List Member) : Type 0 where
  rested : All Rested ms
  distinct : IsDistinct (ids ms)
  apart : (id : String) → contains seen id ≡ true → contains (ids ms) id ≡ false

pub record Opened (s : SideState) : Type 0 where
  pub rested : All Rested s.members
  pub distinct : IsDistinct (ids s.members)
  pub active : s.active < length s.members

Rested-Ok : (ms : List Member) → All Rested ms → All MemberOk ms
Rested-Ok [] h = tt
Rested-Ok (m ∷ ms) h = ((omega (arith, h.0.0), h.0.1, ground (arith, h.0)), Rested-Ok ms h.1)

Opened-Ok : (s : SideState) → Opened s → SideOk s
Opened-Ok s h = record {
  members = Rested-Ok s.members h.rested;
  distinct = h.distinct;
  active = h.active;
}

Opened-Alive : (s : SideState) → Opened s → Alive s
unfolding active_member
Opened-Alive s h =
    let (m, e) = get_elem?-some s.members s.active h.active in
    let r = All-get Rested s.members s.active m h.rested e in rw e (omega (arith, r.0, r.1))

module _ {M : Machine} where
  init_member-Rested :
      (set : ContentSet M) (trainer : String) (pm : PartyMember)
      → On (λ m. Rested m × (m.id ≡ pm.monster.id)) (init_member set trainer pm)
  unfolding init_member
  init_member-Rested set trainer pm = ground arith

  init_members-Lined :
      (set : ContentSet M) (trainer : String) (seen : List String) (pms : List PartyMember)
      → On (λ ms. Lined seen ms × (length ms ≡ length pms)) (init_members set trainer seen pms)
  unfolding init_members
  init_members-Lined set trainer seen [] =
      (record { rested = tt; distinct = tt; apart = λ id h. refl }, refl)
  init_members-Lined set trainer seen (pm ∷ pms) = elim (Bool-cases (pm.monster.id == "")) [
    | inl missing ↦ rw missing tt
    | inr named ↦ elim (Bool-cases (contains seen pm.monster.id)) [
      | inl twice ↦ rw (named, twice) tt
      | inr novel ↦
          rw (named, novel)
            (joined (init_member set trainer pm)
              (init_members set trainer (pm.monster.id ∷ seen) pms)
              (init_member-Rested set trainer pm)
              (init_members-Lined set trainer (pm.monster.id ∷ seen) pms) novel)
    ]
  ]
    where
      joined :
          (r : Result Member) (rest : Result (List Member))
          → On (λ m. Rested m × (m.id ≡ pm.monster.id)) r
          → On (λ ms. Lined (pm.monster.id ∷ seen) ms × (length ms ≡ length pms)) rest
          → contains seen pm.monster.id ≡ false
          → On
              (λ ms. Lined seen ms × (length ms ≡ length (pm ∷ pms)))
              (elim r [ err e ↦ err e | ok m ↦ elim rest [ err e ↦ err e | ok ms ↦ ok (m ∷ ms) ] ])
      joined (err e) rest h k novel = tt
      joined (ok m) (err e) h k novel = tt
      joined (ok m) (ok ms) h k novel = (
        record {
          rested = (h.0, k.0.rested);
          distinct = (
            rw h.1 (k.0.apart pm.monster.id (ground (arith, eq_iff pm.monster.id pm.monster.id))),
            k.0.distinct,
          );
          apart = λ id c.
              let other_id : contains (ids ms) id ≡ false = k.0.apart id (ground arith) in
              ground (arith, eq_iff m.id id, h.1);
        },
        ap suc k.1,
      )

  init_side-Opened :
      (set : ContentSet M) (p : Party)
      → On (λ s. Opened s × (s.trainer ≡ p.trainer)) (init_side set p)
  unfolding init_side
  init_side-Opened set p =
      elim (Bool-cases (ltb (length p.members) 1 || ltb 3 (length p.members))) [
        | inl size ↦ rw size tt
        | inr fits ↦ rw fits (
            opened (init_members set p.trainer [] p.members)
              (init_members-Lined set p.trainer [] p.members) fits)
      ]
    where
      opened :
          (r : Result (List Member))
          → On (λ ms. Lined [] ms × (length ms ≡ length p.members)) r
          → ltb (length p.members) 1 || ltb 3 (length p.members) ≡ false
          → On
              (λ s. Opened s × (s.trainer ≡ p.trainer))
              (elim r [
                | err e ↦ err e
                | ok ms ↦ ok (record {
                  trainer = p.trainer;
                  members = ms;
                  active = 0;
                  clamp_outgoing_damage = p.clamp_outgoing_damage;
                })
              ])
      opened (err e) h fits = tt
      opened (ok ms) h fits = (
        record { rested = h.0.rested; distinct = h.0.distinct; active = ground (arith, h.1, fits) },
        refl,
      )

  fresh-Valid :
      (set : ContentSet M) (rng : M.Rng) (sa sb : SideState)
      → Opened sa
      → Opened sb
      → sa.trainer ≢ sb.trainer
      → Runs
          (λ b. Valid b × (b.state ≡ State.awaiting_actions))
          (emit_start_send_outs (fresh set rng sa sb))
  unfolding emit_start_send_outs send_out fresh append_events active_member last_fielded
      fielding_kind
  fresh-Valid set rng sa sb h k rivals =
      let (m, e) = get_elem?-some sa.members sa.active h.active in
      let (w, g) = get_elem?-some sb.members sb.active k.active in
      rw (e, g)
        (
          record {
            sound = record {
              sides = elim [ Side.first ↦ Opened-Ok sa h | Side.second ↦ Opened-Ok sb k ];
              shown = elim [
                | Side.first ↦
                    rw e
                      (ground (arith, eq_iff sb.trainer sa.trainer, eq_iff sa.trainer sa.trainer))
                | Side.second ↦ rw g (ground (arith, eq_iff sb.trainer sb.trainer))
              ];
              rivals = rivals;
            };
            phase = (
              refl,
              elim [ Side.first ↦ Opened-Alive sa h | Side.second ↦ Opened-Alive sb k ],
              elim [
                | Side.first ↦ λ l. absurd (ground arith)
                | Side.second ↦ λ l. absurd (ground arith)
              ],
              refl,
            );
          },
          refl,
        )

  -- `new` returns, with a valid Battle or with an error.
  pub new-Valid :
      (set : ContentSet M) (a b : Party) (rng : M.Rng)
      → Runs (On (λ c. Valid c × (c.state ≡ State.awaiting_actions))) (new set a b rng)
  unfolding new
  new-Valid set a b rng =
      elim (Bool-cases (a.trainer == "" || b.trainer == "" || a.trainer == b.trainer)) [
        | inl same ↦ rw same tt
        | inr differ ↦ rw differ (
            started (init_side set a) (init_side set b) (init_side-Opened set a)
              (init_side-Opened set b) (ground (arith, eq_iff a.trainer b.trainer)))
      ]
    where
      started :
          (ra rb : Result SideState)
          → On (λ s. Opened s × (s.trainer ≡ a.trainer)) ra
          → On (λ s. Opened s × (s.trainer ≡ b.trainer)) rb
          → a.trainer ≢ b.trainer
          → Runs (On (λ c. Valid c × (c.state ≡ State.awaiting_actions))) (elim ra [
            | err e ↦ some (err e)
            | ok sa ↦ elim rb [
              | err e ↦ some (err e)
              | ok sb ↦ do b1 ← emit_start_send_outs (fresh set rng sa sb); some (ok b1)
            ]
          ])
      started (err e) rb h k r = tt
      started (ok sa) (err e) h k r = tt
      started (ok sa) (ok sb) h k r =
          Runs-bind (λ c. Valid c × (c.state ≡ State.awaiting_actions)) _
            (emit_start_send_outs (fresh set rng sa sb)) _
            (fresh-Valid set rng sa sb h.0 k.0 (λ e. r (sym h.1 ∙ e ∙ k.1))) (λ c v. v)
