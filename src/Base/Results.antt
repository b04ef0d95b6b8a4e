-- ===== src/Base/Results.antt =====
-- Results of fallible code, with `do` notation and guards.
use mathlib.Core.Path.{◌≡◌, refl}
use mathlib.Core.Logic.{◌⊎◌, inl, inr}
use mathlib.Core.Bool.{Bool, true, false}

-- A value, or the error that the call returns.
pub data Result {ℓ κ} (E : Type ℓ) (A : Type κ) : Type (ℓ ⊔ κ) where
  err : E → Result E A
  ok : A → Result E A

-- `x, e := m; if e != nil { return e }; …`
infixl 5 ◌>>=◌ ◌>>◌
abbrev pub ◌>>=◌ {ℓ κ μ} :
    {E : Type ℓ} {A : Type κ} {B : Type μ} → Result E A → (A → Result E B) → Result E B
err why >>= rest = err why
ok x >>= rest = rest x

abbrev pub ◌>>◌ {ℓ κ} : {E : Type ℓ} {B : Type κ} → Result E (Unit {0}) → Result E B → Result E B
check >> rest = check >>= λ done. rest

-- `if b { return e }`
abbrev pub fail_if {ℓ} : {E : Type ℓ} → Bool → E → Result E (Unit {0})
fail_if true why = err why
fail_if false why = ok tt

-- A call that succeeds: what its first part returned, and that the rest succeeded on it.
pub bind_elim {ℓ κ μ ν} :
    {E : Type ℓ} {A : Type κ} {B : Type μ} {P : Type ν} {b : B} (m : Result E A)
    (f : A → Result E B)
    → ((a : A) → m ≡ ok a → f a ≡ ok b → P)
    → (m >>= f) ≡ ok b
    → P
bind_elim (err why) f use_it h = cc
bind_elim (ok x) f use_it h = use_it x refl h

same_err {ℓ κ μ} :
    {E : Type ℓ} {B : Type κ} {A : Type μ} {why e : E}
    → ◌≡◌ {A = Result E B} (err why) (err e)
    → ◌≡◌ {A = Result E A} (err why) (err e)
same_err h = cc

-- A call that fails: its first part did, or the rest on what that returned.
pub bind_err_elim {ℓ κ μ ν} :
    {E : Type ℓ} {A : Type κ} {B : Type μ} {P : Type ν} {e : E} (m : Result E A)
    (f : A → Result E B)
    → (m ≡ err e → P)
    → ((a : A) → m ≡ ok a → f a ≡ err e → P)
    → (m >>= f) ≡ err e
    → P
bind_err_elim {E = E} {A = A} {B = B} {e = e} (err why) f first later h = first (same_err {B = B} h)
bind_err_elim (ok x) f first later h = later x refl h

pub fail_if_err {ℓ} :
    {E : Type ℓ} (b : Bool) (why e : E) → fail_if b why ≡ err e → (b ≡ true) × (why ≡ e)
fail_if_err true why e h = (refl, cc)
fail_if_err false why e h = absurd (cc)

pub Result-cases {ℓ κ} :
    {E : Type ℓ} {A : Type κ} (r : Result E A) → ((a : A) × (r ≡ ok a)) ⊎ ((e : E) × (r ≡ err e))
Result-cases (err e) = inr (e, refl)
Result-cases (ok a) = inl (a, refl)
