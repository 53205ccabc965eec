-- ===== src/Store/PayOnce.antt =====
-- Who is paid by `applyPvPRewards` of internal/store/saveops.go.
use termon.Prelude.{
  ap, sym, ◌∙◌, Bool, Bool-cases, IsDistinct, List, Option-cases, String, [], arith, contains,
  eq_iff, if◌then◌else◌, inl, inr, none, not, refl, some, ℕ, ◌&&◌, ◌*◌, ◌+◌, ◌/◌, ◌||◌, ◌∷◌, ◌≡◌,
}
use termon.Store.Rewards.{Rewarded, IdSource, reward_each, reward_monster}
use termon.Content.{ContentSet}
use termon.Machine.{Machine}
use termon.Prelude.Int.{pos, ℤ}
use termon.Store.{Save}
use termon.Store.Pvp.{apply_pvp_rewards, reward_once}

-- The ids that are not in `seen`, each once, in first-seen order.
abbrev pub first_seen : List String → List String → List String
first_seen seen [] = []
first_seen seen (id ∷ ids) =
    let skip = first_seen seen ids in
    let rest = first_seen (id ∷ seen) ids in if contains seen id then skip else id ∷ rest

-- The set of the ids seen after a loop.
abbrev seen_after : List String → List String → List String
seen_after seen [] = seen
seen_after seen (id ∷ ids) =
    let skip = seen_after seen ids in
    let rest = seen_after (id ∷ seen) ids in if contains seen id then skip else rest

contains-seen_after :
    (seen ids : List String) (k : String)
    → contains (seen_after seen ids) k ≡ contains seen k || contains ids k
contains-seen_after seen [] k = ground arith
contains-seen_after seen (id ∷ ids) k =
    let skip = contains-seen_after seen ids k in
    let rest = contains-seen_after (id ∷ seen) ids k in
    elim (Bool-cases (contains seen id)) [
      | inl old ↦ rw old (ground (arith, skip, old, eq_iff id k))
      | inr new ↦ rw new (ground (arith, rest, new, eq_iff id k))
    ]

-- `first_seen` reads `seen` as a set.
first_seen_congr :
    (a b ids : List String)
    → ((k : String) → contains a k ≡ contains b k)
    → first_seen a ids ≡ first_seen b ids
first_seen_congr a b [] same = refl
first_seen_congr a b (id ∷ ids) same =
    let skip = first_seen_congr a b ids same in
    let rest = first_seen_congr (id ∷ a) (id ∷ b) ids (λ k. ground (arith, same k)) in
    ground (arith, skip, rest, same id)

first_seen-contains :
    (seen ids : List String) (k : String)
    → contains (first_seen seen ids) k ≡ contains ids k && not (contains seen k)
first_seen-contains seen [] k = ground arith
first_seen-contains seen (id ∷ ids) k =
    let skip = first_seen-contains seen ids k in
    let rest = first_seen-contains (id ∷ seen) ids k in
    elim (Bool-cases (contains seen id)) [
      | inl old ↦ rw old (ground (arith, skip, old, eq_iff id k))
      | inr new ↦ rw new (ground (arith, rest, new, eq_iff id k))
    ]

first_seen-IsDistinct : (seen ids : List String) → IsDistinct (first_seen seen ids)
first_seen-IsDistinct seen [] = tt
first_seen-IsDistinct seen (id ∷ ids) = elim (Bool-cases (contains seen id)) [
  | inl old ↦ rw old (first_seen-IsDistinct seen ids)
  | inr new ↦ rw new (
    ground (arith, first_seen-contains (id ∷ seen) ids id, eq_iff id id),
    first_seen-IsDistinct (id ∷ seen) ids,
  )
]

module _ {M : Machine} (S : IdSource) (content : ContentSet M) where
  reward_once-reward_each :
      (seen ids : List String) (xp : ℤ) (key : String) (save : Save) (supply : S.Supply)
      → (reward_once {S = S} content seen ids xp key save supply).0
        ≡ reward_each content [] (first_seen seen ids) xp key save supply
  unfolding reward_once reward_each
  reward_once-reward_each seen [] xp key save supply = refl
  reward_once-reward_each seen (id ∷ ids) xp key save supply =
      let r = reward_monster {S = S} content save id xp key supply in
      elim (Bool-cases (contains seen id)) [
        | inl old ↦ rw old (reward_once-reward_each seen ids xp key save supply)
        | inr new ↦ elim (Option-cases r.error) [
          | inr (e, bad) ↦ rw (new, bad) refl
          | inl paid ↦
              rw (new, paid) (reward_once-reward_each (id ∷ seen) ids xp key r.save r.supply)
        ]
      ]

  reward_once_seen :
      (seen ids : List String) (xp : ℤ) (key : String) (save : Save) (supply : S.Supply)
      → (reward_once {S = S} content seen ids xp key save supply).0.error ≡ none
      → (reward_once {S = S} content seen ids xp key save supply).1 ≡ seen_after seen ids
  unfolding reward_once
  reward_once_seen seen [] xp key save supply h = refl
  reward_once_seen seen (id ∷ ids) xp key save supply h =
      let r = reward_monster {S = S} content save id xp key supply in
      elim (Bool-cases (contains seen id)) [
        | inl old ↦ rw old (reward_once_seen seen ids xp key save supply (rw old at h))
        | inr new ↦ elim (Option-cases r.error) [
          | inr (e, bad) ↦ absurd (ground (arith, new, bad, h))
          | inl paid ↦
              rw (new, paid)
                (reward_once_seen (id ∷ seen) ids xp key r.save r.supply
                  (ground (arith, new, paid, h)))
        ]
      ]

  -- The second loop after the first, which `first` and `r` describe in two ways.
  then_reserve :
      (active reserve : List String) (xp : ℤ) (key : String) (first : Rewarded S × List String)
      (r : Rewarded S)
      → first.0 ≡ r
      → (first.0.error ≡ none → (k : String) → contains first.1 k ≡ contains active k)
      → ◌≡◌ {A = Rewarded S}
          (elim first.0.error [
            | some e ↦ first.0
            | none ↦ (reward_once content first.1 reserve xp key first.0.save first.0.supply).0
          ])
          (elim r.error [
            | some e ↦ r
            | none ↦ reward_each content [] (first_seen active reserve) xp key r.save r.supply
          ])
  then_reserve active reserve xp key first r same seen = elim (Option-cases first.0.error) [
    | inr (e, bad) ↦
        let bad_r : r.error ≡ some e = ap (λ (x : Rewarded S). x.error) (sym same) ∙ bad in
        ground (arith, bad, bad_r, same)
    | inl fine ↦
        let fine_r : r.error ≡ none = ap (λ (x : Rewarded S). x.error) (sym same) ∙ fine in
        let paid =
          reward_once-reward_each first.1 reserve xp key first.0.save first.0.supply
          ∙ ap (λ ids. reward_each {S = S} content [] ids xp key first.0.save first.0.supply)
              (first_seen_congr first.1 active reserve (seen fine))
          ∙ ap
              (λ (x : Rewarded S).
                reward_each {S = S} content [] (first_seen active reserve) xp key x.save x.supply)
              same in
        ground (arith, fine, fine_r, paid)
  ]

  -- The rewards of a Battle are those of two plain loops: one pays the active share to the active ids,
  -- each once, and, unless it ends by an error, the other pays the reserve share to the reserve ids that
  -- are not among the active ones, each once.
  pub apply_pvp_rewards_lem :
      (save : Save) (active reserve : List String) (is_winner : Bool) (decay : ℕ) (key : String)
      (supply : S.Supply)
      → (let base : ℕ = 130 * decay / 100 in
          let bonus : ℕ = if is_winner then 25 * decay / 100 else 0 in
          let r =
            reward_each {S = S} content []
              (first_seen [] active)
              (pos (base + bonus))
              key
              save
              supply in
          (apply_pvp_rewards {S = S} content save active reserve is_winner decay key supply
            ≡ elim r.error [
              | some e ↦ r
              | none ↦
                  reward_each content []
                    (first_seen active reserve)
                    (pos (base * 40 / 100))
                    key
                    r.save
                    r.supply
            ])
          × IsDistinct (first_seen [] active)
          × IsDistinct (first_seen active reserve))
  unfolding apply_pvp_rewards
  apply_pvp_rewards_lem save active reserve is_winner decay key supply =
      let base : ℕ = 130 * decay / 100 in
      let bonus : ℕ = if is_winner then 25 * decay / 100 else 0 in
      let first = reward_once {S = S} content [] active (pos (base + bonus)) key save supply in
      (
        then_reserve active reserve (pos (base * 40 / 100)) key first _
            (reward_once-reward_each [] active (pos (base + bonus)) key save supply)
            (λ fine k.
              ap (λ seen. contains seen k)
                (reward_once_seen [] active (pos (base + bonus)) key save supply fine)
              ∙ contains-seen_after [] active k),
        first_seen-IsDistinct [] active,
        first_seen-IsDistinct active reserve,
      )
