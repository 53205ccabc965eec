-- ===== src/Session.antt =====
-- internal/session/session.go: the one live connection of a fingerprint. A connection is a number,
-- the identity of the object behind the interface; `none` is nil. The mutex makes each call one step.
use termon.Prelude.{
  ℕ, ◌≡◌, ◌≢◌, String, Bool, false, Option, none, some, eqb, ◌==◌, eq_iff, if◌then◌else◌, arith,
}
use termon.Prelude.Dict.{Dict, lookup, insert, delete, lookup-insert, lookup-delete}

abbrev pub same : Option ℕ → ℕ → Bool
same none c = false
same (some d) c = eqb d c

-- The registry after `Claim`, and the displaced connection.
unfoldable pub claim : Dict ℕ → String → ℕ → Dict ℕ × Option ℕ
claim live hash c =
    let old = lookup hash live in (insert hash c live, if same old c then none else old)

unfoldable pub drop_conn : Dict ℕ → String → ℕ → Dict ℕ
drop_conn live hash c = if same (lookup hash live) c then delete hash live else live

-- After a claim the claimant is live and everyone else is as before; the displaced connection is not
-- the claimant; and the late drop of any other connection, such as the displaced one, leaves the
-- claimant live, while its own drop leaves nobody.
pub drop_conn-claim :
    (live : Dict ℕ) (hash k : String) (c d : ℕ)
    → (lookup k (claim live hash c).0 ≡ (if hash == k then some c else lookup k live))
      × ((claim live hash c).1 ≢ some c)
      × (lookup hash (drop_conn (claim live hash c).0 hash d) ≡ (if eqb c d then none else some c))
unfolding claim drop_conn
drop_conn-claim live hash k c d =
    let there : lookup hash (insert hash c live) ≡ some c =
      ground (arith, lookup-insert hash hash c live, eq_iff hash hash) in
    (
      lookup-insert hash k c live,
      (λ e. ground arith),
      ground (arith, there, lookup-delete hash hash (insert hash c live), eq_iff hash hash),
    )
