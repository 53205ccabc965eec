-- ===== src/Store/Growth.antt =====
-- Rewards and the validity of a Save in internal/store/saveops.go.
use termon.Prelude.{
  ℕ, zero, suc, ◌+◌, ◌*◌, ◌/◌, ◌≡◌, refl, sym, ap, ◌∙◌, subst, String, Bool, true, false, ◌||◌, not,
  Option, none, some, List, [], ◌∷◌, ◌++◌, inl, inr, ltb, eqb, eqb_iff, length, get_elem?, set,
  contains, contains-append, ◌==◌, if◌then◌else◌, arith, Bool-cases, Option-cases,
}
use termon.Prelude.Int.{ℤ, pos, negsuc, ltb_ℤ, ◌+ℤ◌}
use termon.Machine.{Machine}
use termon.Content.{ContentSet}
use termon.Game.Xp.{xp_for_level, level_for_xp, clamp_xp}
use termon.Store.{Monster, Save}
use termon.Store.Moves.{is_loadout, validate_loadout}
use termon.Store.Rewards.{
  StoreError, find_monster, collection_error, monster_ids, party_error, ActivityRecord, activity_xp,
  IdSource, write_monster, validate_save, grown, pending_mark, unlock_moves, apply_xp,
  reward_monster, reward_each, apply_activity_rewards,
}

-- The checks on one Monster but its id.
abbrev pub Fine : Monster → Type 0
Fine m =
    (ltb_ℤ m.xp (pos 0) || ltb_ℤ (pos (xp_for_level 50)) m.xp ≡ false)
    × (eqb m.level (level_for_xp m.xp) ≡ true)
    × (validate_loadout m.move_library m.battle_loadout ≡ true)

is_loadout-append :
    (library more seen loadout : List String)
    → is_loadout library seen loadout ≡ true
    → is_loadout (library ++ more) seen loadout ≡ true
unfolding is_loadout
is_loadout-append library more seen [] h = refl
is_loadout-append library more seen (x ∷ xs) h =
    let rest = is_loadout-append library more (x ∷ seen) xs (ground arith) in
    ground (arith, rest, contains-append library more x)

validate_loadout-append :
    (library more loadout : List String)
    → validate_loadout library loadout ≡ true
    → validate_loadout (library ++ more) loadout ≡ true
unfolding validate_loadout
validate_loadout-append library more loadout h =
    elim (Bool-cases (ltb (length loadout) 1 || ltb 4 (length loadout))) [
      | inl size ↦ absurd (ground arith)
      | inr fits ↦ rw fits (is_loadout-append library more [] loadout (ground (arith, fits)))
    ]

clamp_xp_range :
    (x : ℤ) → ltb_ℤ (clamp_xp x) (pos 0) || ltb_ℤ (pos (xp_for_level 50)) (clamp_xp x) ≡ false
unfolding clamp_xp
clamp_xp_range (pos n) = ground arith
clamp_xp_range (negsuc n) = ground arith

grown-Fine : (m : Monster) (add : ℤ) → Fine m → Fine (grown m add)
grown-Fine m add h = (
  clamp_xp_range (m.xp +ℤ add),
  ground (
    arith,
    eqb_iff (level_for_xp (clamp_xp (m.xp +ℤ add))) (level_for_xp (clamp_xp (m.xp +ℤ add))),
  ),
  h.2,
)

-- The tests of one round of the loop, by their results.
refusals :
    (a b c d e : Bool) (w x y z v : StoreError) (rest : Option StoreError)
    → (if a
        then some w
        else if b
        then some x
        else if c
        then some y
        else if not d
        then some z
        else if not e
        then some v
        else rest)
      ≡ none
    → (a ≡ false) × (b ≡ false) × ((c ≡ false) × (d ≡ true) × (e ≡ true)) × (rest ≡ none)
refusals true b c d e w x y z v rest h = absurd (ground arith)
refusals false true c d e w x y z v rest h = absurd (ground arith)
refusals false false true d e w x y z v rest h = absurd (ground arith)
refusals false false false false e w x y z v rest h = absurd (ground arith)
refusals false false false true false w x y z v rest h = absurd (ground arith)
refusals false false false true true w x y z v rest h = (refl, refl, (refl, refl, refl), h)

pub collection_error-inv :
    (seen : List String) (x : Monster) (xs : List Monster)
    → collection_error seen (x ∷ xs) ≡ none
    → ((x.id == "") ≡ false)
      × (contains seen x.id ≡ false)
      × Fine x
      × (collection_error (x.id ∷ seen) xs ≡ none)
unfolding collection_error
collection_error-inv seen x xs h = refusals _ _ _ _ _ _ _ _ _ _ _ h

pub collection_error-cons :
    (seen : List String) (x : Monster) (xs : List Monster)
    → (x.id == "") ≡ false
    → contains seen x.id ≡ false
    → Fine x
    → collection_error (x.id ∷ seen) xs ≡ none
    → collection_error seen (x ∷ xs) ≡ none
unfolding collection_error
collection_error-cons seen x xs a b f h = rw (collection_error, a, b, f.0, f.1, f.2, h) refl

collection_error-get :
    (seen : List String) (ms : List Monster) (i : ℕ) (m : Monster)
    → collection_error seen ms ≡ none
    → get_elem? ms i ≡ some m
    → Fine m
collection_error-get seen [] i m h g = absurd (ground arith)
collection_error-get seen (x ∷ xs) zero m h g =
    let here : x ≡ m = ground arith in subst Fine here (collection_error-inv seen x xs h).2
collection_error-get seen (x ∷ xs) (suc i) m h g =
    collection_error-get (x.id ∷ seen) xs i m (collection_error-inv seen x xs h).3 g

collection_error-set :
    (seen : List String) (ms : List Monster) (i : ℕ) (m m' : Monster)
    → collection_error seen ms ≡ none
    → get_elem? ms i ≡ some m
    → m'.id ≡ m.id
    → Fine m'
    → collection_error seen (set ms i m') ≡ none
collection_error-set seen [] i m m' h g e f = absurd (ground arith)
collection_error-set seen (x ∷ xs) zero m m' h g e f =
    let (a, b, _, rest) = collection_error-inv seen x xs h in
    let same : m'.id ≡ x.id = ground arith in
    collection_error-cons seen m' xs (rw same a) (rw same b) f (rw same rest)
collection_error-set seen (x ∷ xs) (suc i) m m' h g e f =
    let (a, b, fine, rest) = collection_error-inv seen x xs h in
    collection_error-cons seen x (set xs i m') a b fine
      (collection_error-set (x.id ∷ seen) xs i m m' rest g e f)

monster_ids-set :
    (ms : List Monster) (i : ℕ) (m m' : Monster)
    → get_elem? ms i ≡ some m
    → m'.id ≡ m.id
    → monster_ids (set ms i m') ≡ monster_ids ms
monster_ids-set [] i m m' g e = refl
monster_ids-set (x ∷ xs) zero m m' g e = ground arith
monster_ids-set (x ∷ xs) (suc i) m m' g e = ap (◌∷◌ x.id) (monster_ids-set xs i m m' g e)

-- The checks of `validateSave` pass.
abbrev pub IsSound : Save → Type 0
IsSound save =
    (collection_error [] save.collection ≡ none)
    × (party_error (monster_ids save.collection) [] save.party ≡ none)

write-IsSound :
    (save : Save) (i : ℕ) (m m' : Monster)
    → IsSound save
    → get_elem? save.collection i ≡ some m
    → m'.id ≡ m.id
    → Fine m'
    → IsSound (write_monster save i m')
write-IsSound save i m m' h g e f = (
  collection_error-set [] save.collection i m m' h.0 g e f,
  subst (λ ids. party_error ids [] save.party ≡ none)
      (sym (monster_ids-set save.collection i m m' g e)) h.1,
)

module _ {M : Machine} where
  pub IsSound-of :
      (content : ContentSet M) (save : Save) → (validate_save content save).1 ≡ none → IsSound save
  unfolding validate_save
  IsSound-of content save h = elim (Option-cases (collection_error [] save.collection)) [
    | inr (e, bad) ↦ absurd (ground arith)
    | inl good ↦ elim (Option-cases (party_error (monster_ids save.collection) [] save.party)) [
      | inr (e, bad) ↦ absurd (ground arith)
      | inl fine ↦ (good, fine)
    ]
  ]

  pub passes :
      (content : ContentSet M) (save : Save) → IsSound save → (validate_save content save).1 ≡ none
  unfolding validate_save
  passes content save h = rw (validate_save, h.0, h.1) refl

module _ (S : IdSource) where
  unlock_moves-IsSound :
      (save : Save) (i : ℕ) (m g : Monster) (added : List String) (key : String) (supply : S.Supply)
      (after : Monster → Monster)
      → IsSound save
      → get_elem? save.collection i ≡ some m
      → g.id ≡ m.id
      → Fine g
      → ((n : Monster) → (after n).id ≡ n.id)
      → ((n : Monster) → Fine n → Fine (after n))
      → IsSound (unlock_moves {S = S} save i g added key supply after).save
  unfolding unlock_moves
  unlock_moves-IsSound save i m g added key supply after h at e f keeps_id keeps =
      let learned_fine : Fine (record g { move_library = g.move_library ++ added }) =
        (f.0, f.1, validate_loadout-append g.move_library added g.battle_loadout f.2) in
      elim (Bool-cases (eqb (length added) 0)) [
        | inl empty ↦
            rw (unlock_moves, empty)
              (write-IsSound save i m (after g) h at (keeps_id g ∙ e) (keeps g f))
        | inr more ↦ elim (Option-cases (S.new_id supply).0) [
          | inl failed ↦
              rw (unlock_moves, more, failed)
                (write-IsSound save i m (record g { move_library = g.move_library ++ added }) h at e
                  learned_fine)
          | inr (id, got) ↦
              rw (unlock_moves, more, got)
                (write-IsSound save i m
                  (after (record g { move_library = g.move_library ++ added })) h at
                  (keeps_id _ ∙ e) (keeps _ learned_fine))
        ]
      ]

module _ {M : Machine} (S : IdSource) where
  apply_xp-IsSound :
      (content : ContentSet M) (save : Save) (i : ℕ) (m : Monster) (add : ℤ) (key : String)
      (supply : S.Supply)
      → IsSound save
      → get_elem? save.collection i ≡ some m
      → IsSound (apply_xp {S = S} content save i m add key supply).save
  unfolding apply_xp
  apply_xp-IsSound content save i m add key supply h at =
      let fine = grown-Fine m add (collection_error-get [] save.collection i m h.0 at) in
      elim (Bool-cases (ltb_ℤ (pos 0) add)) [
        | inr nothing ↦ rw (apply_xp, nothing) h
        | inl something ↦ elim (Bool-cases (eqb (grown m add).level m.level)) [
          | inl same ↦
              rw (apply_xp, something, same)
                (write-IsSound save i m (pending_mark content (grown m add)) h at refl fine)
          | inr risen ↦
              rw (apply_xp, something, risen)
                (unlock_moves-IsSound S save i m (grown m add) _ key supply (pending_mark content) h
                  at refl fine (λ n. refl) (λ n f. f))
        ]
      ]

  reward_monster-IsSound :
      (content : ContentSet M) (save : Save) (id : String) (xp : ℤ) (key : String)
      (supply : S.Supply)
      → IsSound save
      → IsSound (reward_monster {S = S} content save id xp key supply).save
  unfolding reward_monster
  reward_monster-IsSound content save id xp key supply h =
      elim (Option-cases (find_monster save id)) [
        | inl e ↦ rw (reward_monster, e) h
        | inr (i, e) ↦ elim (Option-cases (get_elem? save.collection i)) [
          | inl g ↦ rw (reward_monster, e, g) h
          | inr (m, g) ↦
              rw (reward_monster, e, g) (apply_xp-IsSound content save i m xp key supply h g)
        ]
      ]

  reward_each-IsSound :
      (content : ContentSet M) (skip ids : List String) (xp : ℤ) (key : String) (save : Save)
      (supply : S.Supply)
      → IsSound save
      → IsSound (reward_each {S = S} content skip ids xp key save supply).save
  unfolding reward_each
  reward_each-IsSound content skip [] xp key save supply h = h
  reward_each-IsSound content skip (id ∷ ids) xp key save supply h =
      elim (Bool-cases (contains skip id)) [
        | inl passed ↦ rw passed (reward_each-IsSound content skip ids xp key save supply h)
        | inr paid ↦
            let r = reward_monster {S = S} content save id xp key supply in
            let k = reward_monster-IsSound content save id xp key supply h in
            elim (Option-cases r.error) [
              | inl fine ↦
                  rw (paid, fine) (reward_each-IsSound content skip ids xp key r.save r.supply k)
              | inr (e, failed) ↦ rw (paid, failed) k
            ]
      ]

  apply_activity_rewards-IsSound :
      (content : ContentSet M) (save : Save) (rec : ActivityRecord) (key : String)
      (supply : S.Supply)
      → IsSound save
      → IsSound (apply_activity_rewards {S = S} content save rec key supply).save
  unfolding apply_activity_rewards
  apply_activity_rewards-IsSound content save rec key supply h =
      let xp = activity_xp rec in
      let r = reward_each {S = S} content [] rec.active_ids (pos (xp.0 + xp.1)) key save supply in
      let k = reward_each-IsSound content [] rec.active_ids (pos (xp.0 + xp.1)) key save supply h in
      elim (Option-cases r.error) [
        | inr (e, failed) ↦ rw (apply_activity_rewards, failed) k
        | inl fine ↦
            rw (apply_activity_rewards, fine)
              (reward_each-IsSound content rec.active_ids rec.reserve_ids (pos (xp.0 * 40 / 100))
                key r.save r.supply k)
      ]

  -- A Save that passes `validateSave` passes it after the rewards of an activity, whatever the activity
  -- and its participants are, and even when a reward fails half way: every level fits its experience,
  -- which stays in its range, and every loadout is still drawn from its library.
  pub validate_save-apply_activity_rewards :
      (content : ContentSet M) (save : Save) (rec : ActivityRecord) (key : String)
      (supply : S.Supply)
      → (validate_save content save).1 ≡ none
      → (validate_save content (apply_activity_rewards {S = S} content save rec key supply).save).1
        ≡ none
  validate_save-apply_activity_rewards content save rec key supply h =
      passes content _
        (apply_activity_rewards-IsSound content save rec key supply (IsSound-of content save h))
