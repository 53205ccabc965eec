-- ===== src/Game/Nickname.antt =====
-- internal/game/nickname.go. Trimming and the classes of characters come from the libraries strings
-- and unicode: `Letters` is their part. A rune is a number.
use termon.Prelude.{
  Bool, List, Option, String, [], eqb, false, if◌then◌else◌, length, ltb, none, some, true, ℕ, ◌==◌,
  ◌||◌, ◌∷◌,
}

pub record Letters : Type 0 where
  pub trim_space : String → String
  pub runes : String → List ℕ
  pub is_letter_digit_or_mark : ℕ → Bool

unfoldable pub allowed : Letters → List ℕ → Bool
allowed letters [] = true
allowed letters (r ∷ rs) =
    let rest = allowed letters rs in
    if eqb r 45 || (eqb r 32 || letters.is_letter_digit_or_mark r) then rest else false

-- `none` is ErrInvalidNickname.
unfoldable pub validate_nickname : Letters → String → Option String
unfolding allowed
validate_nickname letters nickname =
    let trimmed : String = letters.trim_space nickname in
    if trimmed == ""
    then some ""
    else if ltb 16 (length (letters.runes trimmed))
    then none
    else if allowed letters (letters.runes trimmed)
    then some trimmed
    else none
