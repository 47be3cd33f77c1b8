-- ===== src/Prelude/Results.antt =====
-- Rust's `Result` with its `?` operator as a monad.
use mathlib.Core.Path.{◌≡◌, refl, ap}
use mathlib.Core.Logic.{◌⊎◌, inl, inr}
use mathlib.Core.Bool.{Bool, true, false}

pub data Result {ℓ} (E : Type 0) (A : Type ℓ) : Type ℓ where
  ok : A → Result E A
  err : E → Result E A

-- `result?`, with what follows on the value.
infixl 5 ◌>>=◌
abbrev pub ◌>>=◌ {ℓ κ} :
    {A : Type ℓ} {E : Type 0} {B : Type κ} (result : Result E A) (next : A → Result E B)
    → Result E B
err failure >>= next = err failure
ok value >>= next = next value

-- `result?;`
infixl 5 ◌>>◌
abbrev pub ◌>>◌ {ℓ} :
    {B : Type ℓ} {E : Type 0} (checked : Result E (Unit {0})) (rest : Result E B) → Result E B
checked >> rest = checked >>= (λ done. rest)

-- `if b { return Err(e) }`
abbrev pub fail_if : {E : Type 0} → Bool → E → Result E (Unit {0})
fail_if true e = err e
fail_if false e = ok tt

-- `r.map_err(|_| e)`
abbrev pub map_err {ℓ} : {E F : Type 0} {A : Type ℓ} → (E → F) → Result E A → Result F A
map_err f (ok a) = ok a
map_err f (err e) = err (f e)

-- `r.map(f)`
abbrev pub map_ok {ℓ κ} : {E : Type 0} {A : Type ℓ} {B : Type κ} → (A → B) → Result E A → Result E B
map_ok f (ok a) = ok (f a)
map_ok f (err e) = err e

pub Result-cases {ℓ} :
    {E : Type 0} {A : Type ℓ} (r : Result E A) → ((a : A) × (r ≡ ok a)) ⊎ ((e : E) × (r ≡ err e))
Result-cases (ok a) = inl (a, refl)
Result-cases (err e) = inr (e, refl)

-- If a chain succeeds, so does its first step, and the rest succeeds on that value.
pub >>=-eq-ok {ℓ κ} :
    {A : Type ℓ} {E : Type 0} {B : Type κ} (result : Result E A) (next : A → Result E B) {b : B}
    → (result >>= next) ≡ ok b
    → (value : A) × (result ≡ ok value) × (next value ≡ ok b)
>>=-eq-ok (err failure) next h = cc
>>=-eq-ok (ok value) next h = (value, refl, h)

pub ok-injective {ℓ} :
    {E : Type 0} {A : Type ℓ} {a b : A} → ◌≡◌ {A = Result E A} (ok a) (ok b) → a ≡ b
ok-injective {E} {A} {a} h = ap (λ r. get r a) h
  where
    get : Result E A → A → A
    get (ok x) d = x
    get (err e) d = d

-- `map_err` keeps a value.
pub map_err-eq-ok {ℓ} :
    {E F : Type 0} {A : Type ℓ} (f : E → F) (r : Result E A) {a : A} → map_err f r ≡ ok a → r ≡ ok a
map_err-eq-ok f (ok x) h = ap ok (ok-injective h)
map_err-eq-ok f (err e) h = cc

pub err-injective {ℓ} :
    {E : Type 0} {A : Type ℓ} {a b : E} → ◌≡◌ {A = Result E A} (err a) (err b) → a ≡ b
err-injective {E} {A} {a} h = ap (λ r. get r a) h
  where
    get : Result E A → E → E
    get (err x) d = x
    get (ok e) d = d
