-- ===== src/Actions.antt =====
-- Operations of the services: a call may raise, and what it wrote before it raised stays written.
-- A database transaction is rolled back when it raises (infrastructure/sqlite.py, `connect`).
use owlmatic.Prelude.{◌≡◌, Bool, true, false, if◌then◌else◌, arith, inl, inr}
use owlmatic.Errors.{Error, Result, ok, err, Result-cases}

abbrev pub Action {ℓ} : Type ℓ → Type ℓ → Type ℓ
Action S A = S → Result A × S

abbrev pub after_result {ℓ} : {S A B : Type ℓ} → Result A → (A → Action S B) → Action S B
after_result (ok a) f s = f a s
after_result (err e) f s = (err e, s)

infixl 5 ◌>>=◌ ◌>>◌
abbrev pub ◌>>=◌ {ℓ} : {S A B : Type ℓ} → Action S A → (A → Action S B) → Action S B
◌>>=◌ m f s = let (r, s') = m s in after_result r f s'

abbrev pub ◌>>◌ {ℓ} : {S A B : Type ℓ} → Action S A → Action S B → Action S B
m >> k = m >>= λ _. k

abbrev pub pure {ℓ} : {S A : Type ℓ} → A → Action S A
pure a s = (ok a, s)

abbrev pub raise {ℓ} : {S A : Type ℓ} → Error → Action S A
raise e s = (err e, s)

abbrev pub lift {ℓ} : {S A : Type ℓ} → Result A → Action S A
lift r s = (r, s)

abbrev pub committed {ℓ} : {S A : Type ℓ} → Result (A × S) → S → Result A × S
committed (ok (a, s')) s = (ok a, s')
committed (err e) s = (err e, s)

-- `with self.db.connect() as db: ...`
abbrev pub transact {ℓ} : {S A : Type ℓ} → (S → Result (A × S)) → Action S A
transact t s = committed (t s) s

-- An action that keeps a property of the state, whether it raises or not.
abbrev pub Keeps {ℓ} : {S A : Type ℓ} → (S → Type 0) → Action S A → Type ℓ
Keeps P m = (s : _) → P s → P (m s).1

after_result-Keeps {ℓ} :
    {S A B : Type ℓ} (P : S → Type 0) (r : Result A) (f : A → Action S B)
    → ((a : A) → Keeps P (f a))
    → (s : S) → P s
    → P (after_result r f s).1
after_result-Keeps P (ok a) f k s p = k a s p
after_result-Keeps P (err e) f k s p = p

pub bind-Keeps {ℓ} :
    {S A B : Type ℓ} (P : S → Type 0) (m : Action S A) (f : A → Action S B)
    → Keeps P m
    → ((a : A) → Keeps P (f a))
    → Keeps P (m >>= f)
bind-Keeps P m f km kf s p = after_result-Keeps P (m s).0 f kf (m s).1 (km s p)

pub if-Keeps {ℓ} :
    {S A : Type ℓ} (P : S → Type 0) (b : Bool) (m n : Action S A)
    → Keeps P m
    → Keeps P n
    → Keeps P (if b then m else n)
if-Keeps P true m n km kn = km
if-Keeps P false m n km kn = kn

-- A call in a chain that returns has returned, and so has the rest.
pub bind-ok {ℓ} :
    {S A B : Type ℓ} (m : Action S A) (f : A → Action S B) (s s' : S) (b : B)
    → (m >>= f) s ≡ (ok b, s')
    → (a : A) × ((m s).0 ≡ ok a) × (f a (m s).1 ≡ (ok b, s'))
bind-ok m f s s' b h = elim (Result-cases (m s).0) [
  | inl (a, e) ↦ (a, e, ground arith)
  | inr (x, e) ↦ absurd (ground arith)
]
