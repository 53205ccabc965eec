-- ===== src/Prelude/Dict.antt =====
-- Go maps with text keys, as association lists without repeated keys.
use termon.Prelude.Tests.{if◌then◌else◌, Bool-cases}
use termon.Prelude.Lists.{length, All}
use Prim.Native.Nat.{suc, ◌≤◌}
use Prim.Native.String.{String}
use mathlib.Core.Path.{◌≡◌, refl, subst}
use mathlib.Core.Logic.{inl, inr}
use mathlib.Core.List.{List, [], ◌∷◌}
use mathlib.Core.Option.{Option, none, some}
use native.Mathlib.Omega.{arith}
use text.Mathlib.Text.{◌==◌}
use text.Mathlib.TextEquality.{eq_iff}

abbrev pub Dict {ℓ} : Type ℓ → Type ℓ
Dict V = List (String × V)

module _ {ℓ} {V : Type ℓ} where
  unfoldable pub lookup : String → Dict V → Option V
  lookup k [] = none
  lookup k ((j, v) ∷ entries) = if j == k then some v else lookup k entries

  -- `entries[k] = v`: an existing entry is written in place.
  unfoldable pub insert : String → V → Dict V → Dict V
  insert k v [] = (k, v) ∷ []
  insert k v ((j, old) ∷ entries) =
      if j == k then (k, v) ∷ entries else (j, old) ∷ insert k v entries

  -- `delete(entries, k)`.
  unfoldable pub delete : String → Dict V → Dict V
  delete k [] = []
  delete k ((j, old) ∷ entries) =
      let rest = delete k entries in if j == k then rest else (j, old) ∷ rest

  pub lookup-insert :
      (k j : String) (v : V) (entries : Dict V)
      → lookup j (insert k v entries) ≡ (if k == j then some v else lookup j entries)
  unfolding lookup insert
  lookup-insert k j v [] = refl
  lookup-insert k j v ((i, old) ∷ entries) =
      ground (arith, eq_iff i j, eq_iff i k, eq_iff k j, lookup-insert k j v entries)

  pub lookup-insert_self :
      (k : String) (v : V) (entries : Dict V) → lookup k (insert k v entries) ≡ some v
  lookup-insert_self k v entries = ground (arith, lookup-insert k k v entries, eq_iff k k)

  pub lookup-delete :
      (k j : String) (entries : Dict V)
      → lookup j (delete k entries) ≡ (if k == j then none else lookup j entries)
  unfolding lookup delete
  lookup-delete k j [] = ground arith
  lookup-delete k j ((i, old) ∷ entries) =
      ground (arith, eq_iff k j, eq_iff i k, eq_iff i j, lookup-delete k j entries)

  pub length-delete-le :
      (k : String) (entries : Dict V) → length (delete k entries) ≤ length entries
  unfolding delete
  length-delete-le k [] = omega arith
  length-delete-le k ((i, old) ∷ entries) = ground (arith, length-delete-le k entries)

  -- Writing a key that is there keeps the size; a new key adds one.
  pub length-insert :
      (k : String) (v : V) (entries : Dict V)
      → length (insert k v entries)
        ≡ elim (lookup k entries) [ none ↦ suc (length entries) | some _ ↦ length entries ]
  unfolding lookup insert
  length-insert k v [] = refl
  length-insert k v ((i, old) ∷ entries) = ground (arith, eq_iff i k, length-insert k v entries)

-- Every value has the property.
abbrev pub Each {ℓ κ} : {V : Type ℓ} → (V → Type κ) → Dict V → Type κ
Each P entries = All (λ e. P e.1) entries

module _ {ℓ κ} {V : Type ℓ} (P : V → Type κ) where
  pub Each-lookup :
      (k : String) (v : V) (entries : Dict V) → Each P entries → lookup k entries ≡ some v → P v
  unfolding lookup
  Each-lookup k v [] h e = absurd (ground arith)
  Each-lookup k v ((j, w) ∷ entries) h e = elim (Bool-cases (j == k)) [
    | inl here ↦ let found : w ≡ v = ground (arith, here) in subst P found h.0
    | inr there ↦ Each-lookup k v entries h.1 (ground (arith, there))
  ]

  pub Each-insert :
      (k : String) (v : V) (entries : Dict V) → Each P entries → P v → Each P (insert k v entries)
  unfolding insert
  Each-insert k v [] h p = (p, tt)
  Each-insert k v ((j, w) ∷ entries) h p = elim (Bool-cases (j == k)) [
    | inl here ↦ rw here (p, h.1)
    | inr there ↦ rw there (h.0, Each-insert k v entries h.1 p)
  ]

pub ruleset dict_laws = (lookup-insert, lookup-delete)
