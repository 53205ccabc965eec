-- ===== src/Store/Loadouts.antt =====
-- The members of the move lists of internal/store/saveops.go.
use termon.Prelude.{
  ℕ, ◌≤◌, ◌≡◌, refl, ap, String, true, false, ◌&&◌, ◌||◌, not, List, [], ◌∷◌, ◌++◌, ◌⊎◌, inl, inr,
  map, leb, eqb, length, length-append, filter_by, contains, contains-append, IsDistinct,
  IsDistinct-snoc, eq_iff, arith, Bool-cases, Option-cases,
}
use termon.Prelude.Dict.{lookup}
use termon.Machine.{Machine}
use termon.Content.{ContentSet, MovepoolEntry, level_legal_movepool}
use termon.Store.Moves.{unlocks, unlocks_for_level, keep, keep_known_moves, fill, fill_loadout}

-- The moves of a movepool at a level, as `LevelLegalMovepool` lists them.
abbrev learnable : ℕ → List MovepoolEntry → List String
learnable level pool =
    map (λ (e : MovepoolEntry). e.move) (filter_by (λ (e : MovepoolEntry). leb e.level level) pool)

unlocks-contains :
    (level : ℕ) (known : List String) (pool : List MovepoolEntry) (slug : String)
    → contains (unlocks level known pool) slug
      ≡ contains (learnable level pool) slug && not (contains known slug)
unfolding unlocks
unlocks-contains level known [] slug = ground arith
unlocks-contains level known (e ∷ es) slug =
    let skipped = unlocks-contains level known es slug in
    let taken = unlocks-contains level (e.move ∷ known) es slug in
    elim (Bool-cases (leb e.level level)) [
      | inr high ↦ rw high skipped
      | inl low ↦ elim (Bool-cases (contains known e.move)) [
        | inl old ↦ rw (low, old) (ground (arith, skipped, old, eq_iff e.move slug))
        | inr novel ↦ rw (low, novel) (ground (arith, taken, novel, eq_iff e.move slug))
      ]
    ]

unlocks-IsDistinct :
    (level : ℕ) (known : List String) (pool : List MovepoolEntry)
    → IsDistinct (unlocks level known pool)
unfolding unlocks
unlocks-IsDistinct level known [] = tt
unlocks-IsDistinct level known (e ∷ es) =
    elim (Bool-cases (leb e.level level && not (contains known e.move))) [
      | inl new ↦ rw new (
        ground (arith, unlocks-contains level (e.move ∷ known) es e.move, eq_iff e.move e.move),
        unlocks-IsDistinct level (e.move ∷ known) es,
      )
      | inr old ↦ rw old (unlocks-IsDistinct level known es)
    ]

-- A library that the unlocked moves of a level have joined holds what it held and every move that is
-- legal at that level, and nothing else. The joined moves are new to it, each once.
pub unlocks_for_level-level_legal_movepool :
    {M : Machine} (set : ContentSet M) (species slug : String) (level : ℕ) (library : List String)
    → (contains (library ++ unlocks_for_level set species level library) slug
        ≡ contains library slug || contains (level_legal_movepool set species level) slug)
      × (contains (unlocks_for_level set species level library) slug && contains library slug
          ≡ false)
      × IsDistinct (unlocks_for_level set species level library)
unfolding unlocks_for_level level_legal_movepool
unlocks_for_level-level_legal_movepool set species slug level library =
    elim (Option-cases (lookup species set.species)) [
      | inl e ↦
          rw (unlocks_for_level, level_legal_movepool, e)
            (ground (arith, contains-append library [] slug), ground arith, tt)
      | inr (sp, e) ↦
          rw (unlocks_for_level, level_legal_movepool, e)
            (
              ground (
                arith,
                contains-append library (unlocks level library sp.movepool) slug,
                unlocks-contains level library sp.movepool slug,
              ),
              ground (arith, unlocks-contains level library sp.movepool slug),
              unlocks-IsDistinct level library sp.movepool,
            )
    ]

keep-contains :
    (legal seen slugs : List String) (slug : String)
    → contains (keep legal seen slugs).0 slug
      ≡ contains slugs slug && contains legal slug && not (contains seen slug)
unfolding keep
keep-contains legal seen [] slug = ground arith
keep-contains legal seen (x ∷ xs) slug =
    let kept = keep-contains legal (x ∷ seen) xs slug in
    let rest = keep-contains legal seen xs slug in
    elim (Bool-cases (contains legal x)) [
      | inr gone ↦ rw gone (ground (arith, rest, gone, eq_iff x slug))
      | inl known ↦ elim (Bool-cases (contains seen x)) [
        | inl twice ↦ rw (known, twice) (ground (arith, rest, known, twice, eq_iff x slug))
        | inr new ↦ rw (known, new) (ground (arith, kept, known, new, eq_iff x slug))
      ]
    ]

keep-IsDistinct : (legal seen slugs : List String) → IsDistinct (keep legal seen slugs).0
unfolding keep
keep-IsDistinct legal seen [] = tt
keep-IsDistinct legal seen (x ∷ xs) =
    elim (Bool-cases (contains legal x && not (contains seen x))) [
      | inl kept ↦ rw kept (
        ground (arith, keep-contains legal (x ∷ seen) xs x, eq_iff x x),
        keep-IsDistinct legal (x ∷ seen) xs,
      )
      | inr dropped ↦ rw dropped (keep-IsDistinct legal seen xs)
    ]

keep_flag :
    (legal seen slugs : List String)
    → ((keep legal seen slugs).1 ≡ true) ⊎ ((keep legal seen slugs).0 ≡ slugs)
unfolding keep
keep_flag legal seen [] = inr refl
keep_flag legal seen (x ∷ xs) = elim (Bool-cases (contains legal x && not (contains seen x))) [
  | inl kept ↦
      rw kept (elim (keep_flag legal (x ∷ seen) xs) [ inl f ↦ inl f | inr e ↦ inr (ap (◌∷◌ x) e) ])
  | inr dropped ↦ rw dropped (inl refl)
]

-- The moves that content still knows are exactly those of the list that are legal, each once, and the
-- list comes back as it was unless a move is reported as dropped.
pub keep_known_moves_lem :
    (slugs legal : List String) (slug : String)
    → (contains (keep_known_moves slugs legal).0 slug ≡ contains slugs slug && contains legal slug)
      × IsDistinct (keep_known_moves slugs legal).0
      × (((keep_known_moves slugs legal).1 ≡ true) ⊎ ((keep_known_moves slugs legal).0 ≡ slugs))
unfolding keep_known_moves
keep_known_moves_lem slugs legal slug = (
  ground (arith, keep-contains legal [] slugs slug),
  keep-IsDistinct legal [] slugs,
  keep_flag legal [] slugs,
)

fill-bounds :
    (out library : List String)
    → length out ≤ 4
    → IsDistinct out
    → (length (fill out library) ≤ 4) × IsDistinct (fill out library)
unfolding fill
fill-bounds out [] h d = (h, d)
fill-bounds out (x ∷ xs) h d = elim (Bool-cases (eqb (length out) 4)) [
  | inl full ↦ rw full (fill-bounds out xs h d)
  | inr room ↦ elim (Bool-cases (contains out x)) [
    | inl twice ↦ rw (room, twice) (fill-bounds out xs h d)
    | inr new ↦
        rw (room, new)
          (fill-bounds (out ++ x ∷ []) xs (ground (arith, length-append out (x ∷ [])))
            (IsDistinct-snoc out x d new))
  ]
]

fill-contains :
    (out library : List String) (slug : String)
    → contains (fill out library) slug ≡ true
    → contains out slug || contains library slug ≡ true
unfolding fill
fill-contains out [] slug h = ground (arith, h)
fill-contains out (x ∷ xs) slug h = elim (Bool-cases (eqb (length out) 4)) [
  | inl full ↦ let rest = fill-contains out xs slug (rw full at h) in ground (arith, rest)
  | inr room ↦ elim (Bool-cases (contains out x)) [
    | inl twice ↦
        let rest = fill-contains out xs slug (ground (arith, room, twice, h)) in
        ground (arith, rest)
    | inr new ↦
        let rest = fill-contains (out ++ x ∷ []) xs slug (ground (arith, room, new, h)) in
        ground (arith, rest, contains-append out (x ∷ []) slug)
  ]
]

-- Filling a loadout of at most four distinct moves gives at most four distinct moves, each of them
-- from the loadout or from the library.
pub fill_loadout_lem :
    (load library : List String) (slug : String)
    → length load ≤ 4
    → IsDistinct load
    → (length (fill_loadout load library) ≤ 4)
      × IsDistinct (fill_loadout load library)
      × (not (contains (fill_loadout load library) slug)
            || contains load slug
            || contains library slug
          ≡ true)
unfolding fill_loadout
fill_loadout_lem load library slug h d =
    let b = fill-bounds load library h d in
    (
      b.0,
      b.1,
      elim (Bool-cases (contains (fill load library) slug)) [
        | inl c ↦ let r = fill-contains load library slug c in ground (arith, r)
        | inr c ↦ rw c (ground arith)
      ],
    )
