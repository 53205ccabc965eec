-- ===== src/Battle/Invariant/Lemmas.antt =====
-- Lemmas on sides and logs alone.
use termon.Prelude.{
  get_elem?-lt, get_elem?-set_self, ℕ, zero, suc, ◌+◌, ◌<◌, ◌≡◌, refl, ap, ◌∙◌, String, false, none,
  some, List, [], ◌∷◌, ◌++◌, ◌==◌, eq_iff, length, get_elem?, set, All-get, IsDistinct, contains,
  arith,
}
use termon.Battle.Types.{other, Side, Pair, pick, put, Event, Member, SideState}
use termon.Battle.State.{set_active_member, active_member}
use termon.Battle.Views.{is_damage, last_fielded}
use termon.Battle.Invariant.{ids, MemberOk, SideOk, damage_to, Wounded, Quiet}

-- A predicate on both entries survives a write that satisfies it.
pub pick-put {ℓ κ} :
    {A : Type ℓ} (P : Side → A → Type κ) (p : Pair A) (s : Side) (a : A)
    → ((t : Side) → P t (pick p t))
    → P s a
    → (t : Side) → P t (pick (put p s a) t)
pick-put P p Side.first a h k Side.first = k
pick-put P p Side.first a h k Side.second = h Side.second
pick-put P p Side.second a h k Side.first = h Side.first
pick-put P p Side.second a h k Side.second = k

pub damage_to-append :
    (id : String) (es fs : List Event) → damage_to id (es ++ fs) ≡ damage_to id es + damage_to id fs
unfolding is_damage
damage_to-append id [] fs = omega arith
damage_to-append id (e ∷ es) fs = ground (arith, damage_to-append id es fs)

pub damage_to-Quiet : (id : String) (log : List Event) → Quiet log → damage_to id log ≡ 0
damage_to-Quiet id [] q = refl
damage_to-Quiet id (e ∷ es) q = ground (arith, damage_to-Quiet id es q.1)

pub last_fielded-append :
    (trainer : String) (es fs : List Event)
    → last_fielded trainer (es ++ fs)
      ≡ elim (last_fielded trainer fs) [ some id ↦ some id | none ↦ last_fielded trainer es ]
unfolding last_fielded
last_fielded-append trainer [] fs = ground arith
last_fielded-append trainer (e ∷ es) fs = ground (arith, last_fielded-append trainer es fs)

pub last_fielded-Quiet :
    (trainer : String) (log : List Event) → Quiet log → last_fielded trainer log ≡ none
unfolding last_fielded
last_fielded-Quiet trainer [] q = refl
last_fielded-Quiet trainer (e ∷ es) q = ground (arith, last_fielded-Quiet trainer es q.1)

-- A log that takes nothing from anybody.
pub Wounded-zero :
    (log : List Event) (ms : List Member)
    → ((id : String) → damage_to id log ≡ 0)
    → Wounded log ms ms
Wounded-zero log [] z = tt
Wounded-zero log (m ∷ ms) z = (refl, refl, omega (arith, z m.id), Wounded-zero log ms z)

pub Wounded-trans :
    (l k : List Event) (xs ys zs : List Member)
    → Wounded l xs ys
    → Wounded k ys zs
    → Wounded (l ++ k) xs zs
Wounded-trans l k [] [] [] h g = tt
Wounded-trans l k [] [] (z ∷ zs) h g = absurd g
Wounded-trans l k [] (y ∷ ys) zs h g = absurd h
Wounded-trans l k (x ∷ xs) [] zs h g = absurd h
Wounded-trans l k (x ∷ xs) (y ∷ ys) [] h g = absurd g
Wounded-trans l k (x ∷ xs) (y ∷ ys) (z ∷ zs) h g =
    (g.0 ∙ h.0, g.1 ∙ h.1, total, Wounded-trans l k xs ys zs h.3 g.3)
  where
    total : x.hp ≡ z.hp + damage_to x.id (l ++ k)
    total =
        let moved : damage_to y.id k ≡ damage_to x.id k = ap (λ i. damage_to i k) h.0 in
        omega (arith, damage_to-append x.id l k, h.2, g.2, moved)

-- An index in range has an entry.
pub get_elem?-some {ℓ} :
    {A : Type ℓ} (xs : List A) (i : ℕ) → i < length xs → (x : A) × (get_elem? xs i ≡ some x)
get_elem?-some [] i h = elim h [ ]
get_elem?-some (x ∷ xs) zero h = (x, refl)
get_elem?-some (x ∷ xs) (suc i) h = get_elem?-some xs i (omega arith)

pub active-some :
    (s : SideState) → SideOk s → (m : Member) × (active_member s ≡ some m) × MemberOk m
unfolding active_member
active-some s v =
    let (m, e) = get_elem?-some s.members s.active v.active in
    (m, e, All-get MemberOk s.members s.active m v.members e)

pub ids-get_elem? :
    (ms : List Member) (i : ℕ) (m : Member)
    → get_elem? ms i ≡ some m
    → get_elem? (ids ms) i ≡ some m.id
ids-get_elem? [] i m h = ground arith
ids-get_elem? (x ∷ xs) zero m h = ground arith
ids-get_elem? (x ∷ xs) (suc i) m h = ids-get_elem? xs i m h

pub ids-set :
    (ms : List Member) (i : ℕ) (m m' : Member)
    → get_elem? ms i ≡ some m
    → m'.id ≡ m.id
    → ids (set ms i m') ≡ ids ms
ids-set [] i m m' h e = refl
ids-set (x ∷ xs) zero m m' h e = ground arith
ids-set (x ∷ xs) (suc i) m m' h e = ap (◌∷◌ x.id) (ids-set xs i m m' h e)

-- An id that the list lacks is not that of any entry.
contains-get_elem? :
    (ms : List Member) (i : ℕ) (m : Member) (id : String)
    → get_elem? ms i ≡ some m
    → contains (ids ms) id ≡ false
    → (m.id == id) ≡ false
contains-get_elem? [] i m id h c = absurd (ground arith)
contains-get_elem? (x ∷ xs) zero m id h c = ground arith
contains-get_elem? (x ∷ xs) (suc i) m id h c = contains-get_elem? xs i m id h (ground arith)

pub Wounded-others :
    (log : List Event) (ms : List Member) (hit : String)
    → contains (ids ms) hit ≡ false
    → ((id : String) → (hit == id) ≡ false → damage_to id log ≡ 0)
    → Wounded log ms ms
Wounded-others log [] hit c z = tt
Wounded-others log (x ∷ xs) hit c z = (
  refl,
  refl,
  omega (arith, z x.id (ground (arith, eq_iff x.id hit, eq_iff hit x.id))),
  Wounded-others log xs hit (ground arith) z,
)

-- A hit on one member of a list of distinct ids, with the log that records it.
pub Wounded-set :
    (log : List Event) (ms : List Member) (i : ℕ) (m m' : Member)
    → get_elem? ms i ≡ some m
    → IsDistinct (ids ms)
    → m'.id ≡ m.id
    → m'.max_hp ≡ m.max_hp
    → m.hp ≡ m'.hp + damage_to m.id log
    → ((id : String) → (m.id == id) ≡ false → damage_to id log ≡ 0)
    → Wounded log ms (set ms i m')
Wounded-set log [] i m m' h d e f g z = tt
Wounded-set log (x ∷ xs) zero m m' h d e f g z =
    let same : x ≡ m = ground arith in
    rw same (e, f, g, Wounded-others log xs m.id (rw (← same) d.0) z)
Wounded-set log (x ∷ xs) (suc i) m m' h d e f g z = (
  refl,
  refl,
  omega (arith, z x.id (contains-get_elem? xs i m x.id h d.0)),
  Wounded-set log xs i m m' h d.1 e f g z,
)

pub set-set : (ms : List Member) (i : ℕ) (m m' : Member) → set (set ms i m) i m' ≡ set ms i m'
set-set [] i m m' = refl
set-set (x ∷ xs) zero m m' = refl
set-set (x ∷ xs) (suc i) m m' = ap (◌∷◌ x) (set-set xs i m m')

pub write_twice :
    (p : Pair SideState) (t : Side) (m m' : Member)
    → put
        (put p t (set_active_member (pick p t) m))
        t
        (set_active_member (pick (put p t (set_active_member (pick p t) m)) t) m')
      ≡ put p t (set_active_member (pick p t) m')
unfolding set_active_member
write_twice p Side.first m m' = rw (set-set p.at_first.members p.at_first.active m m')
write_twice p Side.second m m' = rw (set-set p.at_second.members p.at_second.active m m')

pub active-set_active_member :
    (s : SideState) (m m' : Member)
    → active_member s ≡ some m
    → active_member (set_active_member s m') ≡ some m'
unfolding active_member set_active_member
active-set_active_member s m m' e =
    get_elem?-set_self s.members s.active m' (get_elem?-lt s.members s.active m e)

pub pick-put_self : (p : Pair SideState) (t : Side) (s : SideState) → pick (put p t s) t ≡ s
pick-put_self p Side.first s = refl
pick-put_self p Side.second s = refl

pub pick-other-put :
    (p : Pair SideState) (a : Side) (s : SideState) → pick (put p (other a) s) a ≡ pick p a
pick-other-put p Side.first s = refl
pick-other-put p Side.second s = refl

pub pick-put_ne :
    (p : Pair SideState) (t : Side) (s : SideState) → pick (put p t s) (other t) ≡ pick p (other t)
pick-put_ne p Side.first s = refl
pick-put_ne p Side.second s = refl
