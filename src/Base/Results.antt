-- ===== src/Base/Results.antt =====
-- The result of code that returns an error, panics, or takes more rounds than the fuel it is given.
use mathlib.Core.Path.{◌≡◌, refl}
use mathlib.Core.Bool.{Bool, true, false}

pub data Result {ℓ} (E : Type 0) (A : Type ℓ) : Type ℓ where
  ok : A → Result E A
  err : E → Result E A
  -- a Go run-time panic: an index out of range, a method of a nil interface
  panic : Result E A
  -- the fuel of a loop ran out
  timeout : Result E A

infixl 5 ◌>>=◌ ◌>>◌
abbrev pub ◌>>=◌ {ℓ κ} :
    {E : Type 0} {A : Type ℓ} {B : Type κ} → Result E A → (A → Result E B) → Result E B
ok a >>= f = f a
err e >>= f = err e
panic >>= f = panic
timeout >>= f = timeout

abbrev pub ◌>>◌ {ℓ} : {E : Type 0} {B : Type ℓ} → Result E (Unit {0}) → Result E B → Result E B
m >> k = m >>= λ _. k

-- `if cond { return err }`
abbrev pub fail_if : {E : Type 0} → Bool → E → Result E (Unit {0})
fail_if true e = err e
fail_if false e = ok tt

-- Inversion of a successful bind.
pub >>=-eq-ok {ℓ κ} :
    {E : Type 0} {A : Type ℓ} {B : Type κ} (first : Result E A) (next : A → Result E B) {final : B}
    → (first >>= next) ≡ ok final
    → (value : A) × (first ≡ ok value) × (next value ≡ ok final)
>>=-eq-ok timeout next e = cc
>>=-eq-ok panic next e = cc
>>=-eq-ok (err problem) next e = cc
>>=-eq-ok (ok value) next e = (value, refl, e)

pub >>-eq-ok {ℓ} :
    {E : Type 0} {A : Type ℓ} (m : Result E (Unit {0})) (rest : Result E A) {a : A}
    → (m >> rest) ≡ ok a
    → (m ≡ ok tt) × (rest ≡ ok a)
>>-eq-ok (ok tt) rest h = (refl, h)
>>-eq-ok (err e) rest h = cc
>>-eq-ok panic rest h = cc
>>-eq-ok timeout rest h = cc

-- A successful check lets the rest run.
pub fail_if-eq-ok {ℓ} :
    {E : Type 0} {A : Type ℓ} (b : Bool) (e : E) (rest : Result E A) {a : A}
    → (fail_if b e >> rest) ≡ ok a
    → (b ≡ false) × (rest ≡ ok a)
fail_if-eq-ok true e rest h = cc
fail_if-eq-ok false e rest h = (refl, h)

-- The code comes back, with a value or an error: it neither panics nor loops.
abbrev pub Returns {ℓ} : {E : Type 0} {A : Type ℓ} → Result E A → Type 0
Returns (ok a) = Unit
Returns (err e) = Unit
Returns panic = ⊥
Returns timeout = ⊥

pub Returns->>= {ℓ κ} :
    {E : Type 0} {A : Type ℓ} {B : Type κ} (m : Result E A) (f : A → Result E B)
    → Returns m
    → ((a : A) → m ≡ ok a → Returns (f a))
    → Returns (m >>= f)
Returns->>= (ok a) f h k = k a refl
Returns->>= (err e) f h k = tt
Returns->>= panic f h k = h
Returns->>= timeout f h k = h

pub Returns->> {ℓ} :
    {E : Type 0} {A : Type ℓ} (m : Result E (Unit {0})) (rest : Result E A)
    → Returns m
    → Returns rest
    → Returns (m >> rest)
Returns->> m rest h k = Returns->>= m (λ _. rest) h (λ _ _. k)

pub fail_if-Returns : {E : Type 0} (b : Bool) (e : E) → Returns (fail_if b e)
fail_if-Returns true e = tt
fail_if-Returns false e = tt
