-- ===== src/Game/Xp.antt =====
-- internal/game/xp.go. A level or stat below 0 behaves as 0 does in this code, so both are ℕ;
-- experience is an int64 that the callers keep far from its bounds.
use termon.Prelude.{
  ℕ, zero, suc, ◌+◌, ◌-◌, ◌*◌, ◌/◌, ◌≤◌, ◌<◌, ◌≡◌, ◌↔◌, ltb, leb, max, dec_lt, if◌then◌else◌, arith,
}
use termon.Prelude.Int.{ℤ, pos, negsuc}

unfoldable pub xp_for_level : ℕ → ℕ
xp_for_level level =
    if leb level 1
    then 0
    else if leb level 24
    then 90 * (level - 1)
    else if leb level 40
    then 2070 + 240 * (level - 24)
    else 5910 + 390 * (level - 40)

-- The loop of `LevelForXP`, from `level` down.
unfoldable pub level_from : ℕ → ℕ → ℕ
level_from zero xp = 1
level_from (suc l) xp = if leb (xp_for_level (suc l)) xp then suc l else level_from l xp

unfoldable pub level_for_xp : ℤ → ℕ
level_for_xp (negsuc n) = 1
level_for_xp (pos xp) = if leb (xp_for_level 50) xp then 50 else level_from 50 xp

unfoldable pub clamp_xp : ℤ → ℤ
clamp_xp (negsuc n) = pos 0
clamp_xp (pos xp) = if ltb (xp_for_level 50) xp then pos (xp_for_level 50) else pos xp

unfoldable pub natural_stat : ℕ → ℕ → ℕ
natural_stat base level =
    let l = if ltb level 1 then 1 else level in
    let v = base * (100 + 2 * (l - 1)) / 100 in if ltb v 1 then 1 else v

-- Thresholds rise with the level.
pub xp_for_level_mono : (a b : ℕ) → 1 ≤ a → a < b → xp_for_level a < xp_for_level b
unfolding xp_for_level
xp_for_level_mono a b h k = ground arith

xp_for_level-le : (a b : ℕ) → 1 ≤ a → a ≤ b → xp_for_level a ≤ xp_for_level b
unfolding xp_for_level
xp_for_level-le a b h k = ground arith

level_from-le : (n xp : ℕ) → 1 ≤ level_from n xp × (level_from n xp ≤ max 1 n)
unfolding level_from
level_from-le zero xp = omega arith
level_from-le (suc n) xp = ground (arith, level_from-le n xp)

xp_for_level_one : (n xp : ℕ) → n ≡ 0 → xp_for_level (suc n) ≤ xp
unfolding xp_for_level
xp_for_level_one n xp e = rw e (omega arith)

level_from_lem : (n l xp : ℕ) → 1 ≤ l → l ≤ n → (xp_for_level l ≤ xp) ↔ (l ≤ level_from n xp)
unfolding level_from
level_from_lem zero l xp h k = absurd (omega arith)
level_from_lem (suc n) l xp h k = elim (dec_lt n l) [
  | yes top ↦
      let e : l ≡ suc n = omega arith in
      rw e (ground (arith, level_from-le n xp, xp_for_level_one n xp))
  | no below ↦ ground (arith, xp_for_level-le l (suc n), level_from_lem n l xp)
]

-- For a level from 1 to 50, experience that is not negative has reached its threshold exactly when the
-- level of that experience is at least it.
pub level_for_xp_iff :
    (xp l : ℕ) → 1 ≤ l → l ≤ 50 → (xp_for_level l ≤ xp) ↔ (l ≤ level_for_xp (pos xp))
unfolding level_for_xp
level_for_xp_iff xp l h k = ground (arith, xp_for_level-le l 50, level_from_lem 50 l xp)

-- The level lies between 1 and 50 whatever the experience is.
pub level_for_xp_range : (xp : ℤ) → (1 ≤ level_for_xp xp) × (level_for_xp xp ≤ 50)
unfolding level_for_xp
level_for_xp_range (negsuc n) = omega arith
level_for_xp_range (pos xp) = ground (arith, level_from-le 50 xp)

-- Round trip: for a level from 1 to 50, the level of its threshold is that level.
pub level_for_xp-xp_for_level : (l : ℕ) → 1 ≤ l → l ≤ 50 → level_for_xp (pos (xp_for_level l)) ≡ l
level_for_xp-xp_for_level l h k = ground (
  arith,
  level_for_xp_iff (xp_for_level l) l,
  level_for_xp_iff (xp_for_level l) (l + 1),
  xp_for_level_mono l (l + 1),
  level_for_xp_range (pos (xp_for_level l)),
)

pub natural_stat_pos : (base level : ℕ) → 1 ≤ natural_stat base level
unfolding natural_stat
natural_stat_pos base level = ground arith
