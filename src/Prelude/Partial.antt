-- ===== src/Prelude/Partial.antt =====
-- Code that may panic (an index out of range): `none` is the panic.
use mathlib.Core.Path.{◌≡◌, refl}
use mathlib.Core.Option.{Option, none, some}

infixl 5 ◌>>=◌
abbrev pub ◌>>=◌ {ℓ κ} : {A : Type ℓ} {B : Type κ} → Option A → (A → Option B) → Option B
none >>= f = none
some a >>= f = f a

-- The code does not panic, and what it returns satisfies `P`.
abbrev pub Runs {ℓ} : {A : Type ℓ} → (A → Type 0) → Option A → Type 0
Runs P none = ⊥
Runs P (some a) = P a

pub Runs-bind {ℓ κ} :
    {A : Type ℓ} {B : Type κ} (P : A → Type 0) (Q : B → Type 0) (m : Option A) (f : A → Option B)
    → Runs P m
    → ((a : A) → P a → Runs Q (f a))
    → Runs Q (m >>= f)
Runs-bind P Q none f h k = absurd h
Runs-bind P Q (some a) f h k = k a h

pub Runs-mono {ℓ} :
    {A : Type ℓ} (P Q : A → Type 0) (m : Option A) → Runs P m → ((a : A) → P a → Q a) → Runs Q m
Runs-mono P Q none h k = absurd h
Runs-mono P Q (some a) h k = k a h

pub Runs-some {ℓ} :
    {A : Type ℓ} (P : A → Type 0) (m : Option A) → Runs P m → (a : A) × (m ≡ some a) × P a
Runs-some P none h = absurd h
Runs-some P (some a) h = (a, refl, h)
