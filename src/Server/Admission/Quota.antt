-- ===== src/Server/Admission/Quota.antt =====
-- The table of the limiter of internal/server/admission.go.
use termon.Prelude.{
  ℕ, ◌+◌, ◌≤◌, ◌≡◌, refl, String, true, false, not, some, List, [], ◌∷◌, length, All, ltb, leb,
  if◌then◌else◌, arith, Bool-cases, Option-cases, inl, inr, ◌==◌, eq_iff,
}
use termon.Prelude.Int.{ℤ, pos, negsuc}
use termon.Prelude.Dict.{Dict, lookup, insert, lookup-insert, length-insert}
use termon.Server.Admission.{
  Admission, max_tracked_sources, limit, SourceQuota, RegistrationLimiter, new_registration_limiter,
  prune, admit, allow, allow_all,
}

-- The quotas of a table stay within the limit.
abbrev pub Within : ℕ → Dict SourceQuota → Type 0
Within n = All (λ (e : String × SourceQuota). (1 ≤ e.1.count) × (e.1.count ≤ n))

length-prune : (now : ℕ) (sources : Dict SourceQuota) → length (prune now sources) ≤ length sources
unfolding prune
length-prune now [] = omega arith
length-prune now (e ∷ rest) = ground (arith, length-prune now rest)

prune-Within :
    (n now : ℕ) (sources : Dict SourceQuota) → Within n sources → Within n (prune now sources)
unfolding prune
prune-Within n now [] h = tt
prune-Within n now ((source, quota) ∷ rest) h = elim (Bool-cases (not (ltb now quota.reset_at))) [
  | inl old ↦ rw old (prune-Within n now rest h.1)
  | inr fresh ↦ rw fresh (h.0, prune-Within n now rest h.1)
]

insert-Within :
    (n : ℕ) (source : String) (q : SourceQuota) (sources : Dict SourceQuota)
    → (1 ≤ q.count) × (q.count ≤ n)
    → Within n sources
    → Within n (insert source q sources)
unfolding insert
insert-Within n source q [] k h = (k, tt)
insert-Within n source q ((j, w) ∷ rest) k h = elim (Bool-cases (j == source)) [
  | inl same ↦ rw same (k, h.1)
  | inr other ↦ rw other (h.0, insert-Within n source q rest k h.1)
]

-- A limit that is not negative is positive and bounds the counts.
abbrev pub WithinLimit : ℤ → Dict SourceQuota → Type 0
WithinLimit (pos n) sources = (1 ≤ n) × Within n sources
WithinLimit (negsuc n) sources = Unit

-- What `allow` keeps of its table.
pub record Bounded (r : RegistrationLimiter) : Type 0 where
  pub memory : length r.sources ≤ max_tracked_sources
  pub within : WithinLimit r.limit r.sources

admit-bounded :
    (n w : ℕ) (source : String) (now : ℕ) (sources : Dict SourceQuota)
    → 1 ≤ n
    → length sources ≤ max_tracked_sources
    → Within n sources
    → (length (admit n w source now sources).0 ≤ max_tracked_sources)
      × Within n (admit n w source now sources).0
unfolding admit
admit-bounded n w source now sources positive size h = elim (Option-cases (lookup source sources)) [
  | inl e ↦ elim (Bool-cases (leb max_tracked_sources (length sources))) [
    | inl full ↦ rw (e, full) (size, h)
    | inr room ↦
        rw (e, room)
          (
            ground
                (arith, length-insert source (record { count = 1; reset_at = now + w }) sources, e),
            insert-Within n source _ sources (omega arith, positive) h,
          )
  ]
  | inr (q, e) ↦ elim (Bool-cases (not (ltb now q.reset_at))) [
    | inl stale ↦
        rw (e, stale)
          (
            ground
                (arith, length-insert source (record { count = 1; reset_at = now + w }) sources, e),
            insert-Within n source _ sources (omega arith, positive) h,
          )
    | inr warm ↦ elim (Bool-cases (leb n q.count)) [
      | inl spent ↦ rw (e, warm, spent) (size, h)
      | inr left ↦
          rw (e, warm, left)
            (
              ground (
                arith,
                length-insert source (record { count = q.count + 1; reset_at = q.reset_at })
                    sources,
                e,
              ),
              insert-Within n source _ sources (omega arith, ground arith) h,
            )
    ]
  ]
]

allow_at :
    (l : ℤ) (w : ℕ) (sources : Dict SourceQuota) (source : String) (now : ℕ)
    → Bounded (record { limit = l; window = w; sources = sources })
    → Bounded (allow (record { limit = l; window = w; sources = sources }) source now).0
unfolding allow
allow_at (negsuc n) w sources source now h = h
allow_at (pos n) w sources source now h =
    let pruned : Dict SourceQuota =
      if leb max_tracked_sources (length sources) then prune now sources else sources in
    let small : (length pruned ≤ max_tracked_sources) × Within n pruned =
      elim (Bool-cases (leb max_tracked_sources (length sources))) [
        | inl full ↦ rw full (
          omega (arith, length-prune now sources, h.memory),
          prune-Within n now sources h.within.1,
        )
        | inr room ↦ rw room (h.memory, h.within.1)
      ] in
    let b = admit-bounded n w source now pruned h.within.0 small.0 small.1 in
    record { memory = b.0; within = (h.within.0, b.1) }

allow_all-Bounded_from :
    (r : RegistrationLimiter) (calls : List (String × ℕ)) → Bounded r → Bounded (allow_all r calls)
unfolding allow_all
allow_all-Bounded_from r [] h = h
allow_all-Bounded_from r ((source, now) ∷ calls) h =
    allow_all-Bounded_from (allow r source now).0 calls
      (allow_at r.limit r.window r.sources source now h)

new-WithinLimit : (a : Admission) → WithinLimit (limit a) []
unfolding limit
new-WithinLimit a = at a.registrations_per_ip
  where
    at :
        (l : ℤ)
        → WithinLimit
            (elim l as (λ x. ℤ) [ pos n ↦ if ltb 0 n then pos n else pos 10 | negsuc n ↦ negsuc n ])
            []
    at (pos k) = elim (Bool-cases (ltb 0 k)) [
      | inl some_limit ↦ rw some_limit (ground arith, tt)
      | inr none_set ↦ rw none_set (omega arith, tt)
    ]
    at (negsuc k) = tt

-- However a limiter is configured and called, it tracks at most 4096 sources, and when its limit is
-- not negative, that limit is positive and no tracked source counts more registrations in its window.
pub allow_all-Bounded :
    (a : Admission) (calls : List (String × ℕ))
    → Bounded (allow_all (new_registration_limiter a) calls)
unfolding new_registration_limiter
allow_all-Bounded a calls =
    allow_all-Bounded_from (new_registration_limiter a) calls
      (record { memory = omega arith; within = new-WithinLimit a })

-- With a limit that is not negative, a tracked source whose window is still open is admitted exactly
-- when its count is below the limit; its count then goes up by one and its window stays, and a refusal
-- changes nothing for it. A tracked source whose window has passed is admitted with a new window.
pub admit_lem :
    (n w : ℕ) (source : String) (now : ℕ) (sources : Dict SourceQuota) (q : SourceQuota)
    → lookup source sources ≡ some q
    → ((admit n w source now sources).1 ≡ (if ltb now q.reset_at then ltb q.count n else true))
      × (lookup source (admit n w source now sources).0
          ≡ some (
              if ltb now q.reset_at
              then (if ltb q.count n
                  then record { count = q.count + 1; reset_at = q.reset_at }
                  else q)
              else record { count = 1; reset_at = now + w }))
unfolding admit
admit_lem n w source now sources q e = elim (Bool-cases (ltb now q.reset_at)) [
  | inr stale ↦
      rw (e, stale)
        (
          refl,
          ground (
            arith,
            lookup-insert source source (record { count = 1; reset_at = now + w }) sources,
            eq_iff source source,
          ),
        )
  | inl open_window ↦ elim (Bool-cases (leb n q.count)) [
    | inl spent ↦
        let full : ltb q.count n ≡ false = ground arith in
        rw (e, open_window, spent, full) (refl, e)
    | inr left ↦
        let room : ltb q.count n ≡ true = ground arith in
        rw (e, open_window, left, room)
          (
            refl,
            ground (
              arith,
              lookup-insert source source (record { count = q.count + 1; reset_at = q.reset_at })
                  sources,
              eq_iff source source,
            ),
          )
  ]
]
