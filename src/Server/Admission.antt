-- ===== src/Server/Admission.antt =====
-- internal/server/admission.go: the fixed-window counter of new Trainers by source address. Times and
-- windows are numbers of nanoseconds; the mutex makes `allow` one step.
pub mod Quota
use termon.Prelude.{
  ℕ, ◌+◌, String, Bool, true, false, ◌&&◌, not, Option, none, some, List, [], ◌∷◌, length, ltb, leb,
  if◌then◌else◌,
}
use termon.Prelude.Int.{ℤ, pos, negsuc}
use termon.Prelude.Dict.{Dict, lookup, insert}

pub record Admission : Type 0 where
  pub open_access : Bool
  pub registrations_per_ip : ℤ
  pub registration_window : ℤ

abbrev pub max_tracked_sources : ℕ
max_tracked_sources = 4096

-- `defaultRegistrationWindow`, an hour.
abbrev default_registration_window : ℕ
default_registration_window = 3600000000000

unfoldable pub limit : Admission → ℤ
limit a = elim a.registrations_per_ip [
  | pos n ↦ if ltb 0 n then pos n else pos 10
  | negsuc n ↦ negsuc n
]

unfoldable pub window : Admission → ℕ
window a = elim a.registration_window [
  | pos n ↦ if ltb 0 n then n else default_registration_window
  | negsuc n ↦ default_registration_window
]

pub record SourceQuota : Type 0 where
  pub count : ℕ
  pub reset_at : ℕ

pub record RegistrationLimiter : Type 0 where
  pub limit : ℤ
  pub window : ℕ
  pub sources : Dict SourceQuota

unfoldable pub new_registration_limiter : Admission → RegistrationLimiter
new_registration_limiter a = record { limit = limit a; window = window a; sources = [] }

unfoldable pub prune : ℕ → Dict SourceQuota → Dict SourceQuota
prune now [] = []
prune now ((source, quota) ∷ rest) =
    let kept = prune now rest in
    if not (ltb now quota.reset_at) then kept else (source, quota) ∷ kept

-- `!ok || !now.Before(quota.resetAt)`
abbrev pub is_stale : ℕ → Option SourceQuota → Bool
is_stale now none = true
is_stale now (some quota) = not (ltb now quota.reset_at)

abbrev pub is_new : Option SourceQuota → Bool
is_new none = true
is_new (some quota) = false

abbrev pub count_of : Option SourceQuota → SourceQuota
count_of none = record { count = 0; reset_at = 0 }
count_of (some quota) = quota

-- `allow` past the pruning, for a limit that is not negative.
unfoldable pub admit : ℕ → ℕ → String → ℕ → Dict SourceQuota → Dict SourceQuota × Bool
admit limit window source now sources =
    let quota = lookup source sources in
    if is_stale now quota
    then (if is_new quota && leb max_tracked_sources (length sources)
        then (sources, false)
        else (insert source (record { count = 1; reset_at = now + window }) sources, true))
    else if leb limit (count_of quota).count
    then (sources, false)
    else (
      insert source
          (record { count = (count_of quota).count + 1; reset_at = (count_of quota).reset_at })
          sources,
      true,
    )

unfoldable pub allow : RegistrationLimiter → String → ℕ → RegistrationLimiter × Bool
allow r source now = elim r.limit [
  | negsuc n ↦ (r, true)
  | pos n ↦
      let sources =
        if leb max_tracked_sources (length r.sources) then prune now r.sources else r.sources in
      let (after, allowed) = admit n r.window source now sources in
      (record r { sources = after }, allowed)
]

-- A history of calls.
unfoldable pub allow_all : RegistrationLimiter → List (String × ℕ) → RegistrationLimiter
allow_all r [] = r
allow_all r ((source, now) ∷ calls) = allow_all (allow r source now).0 calls
