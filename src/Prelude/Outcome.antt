-- ===== src/Prelude/Outcome.antt =====
-- Rust's `Result` with its `?`, as a monad in the error type `E`.
use mathlib.Core.Path.{◌≡◌, refl, ap}
use mathlib.Core.Bool.{Bool, true, false}
use mathlib.Core.Option.{Option, none, some}

pub data Result {ℓ} (E : Type 0) (A : Type ℓ) : Type ℓ where
  ok : A → Result E A
  err : E → Result E A

infixl 5 ◌>>=◌ ◌>>◌
abbrev pub ◌>>=◌ {ℓ κ} :
    {E : Type 0} {A : Type ℓ} {B : Type κ} → Result E A → (A → Result E B) → Result E B
ok a >>= f = f a
err e >>= f = err e

abbrev pub ◌>>◌ {κ} : {E : Type 0} {B : Type κ} → Result E (Unit {0}) → Result E B → Result E B
m >> k = m >>= λ _. k

-- `if bad { return Err(e) }`
abbrev pub fail_if : {E : Type 0} → Bool → E → Result E (Unit {0})
fail_if true e = err e
fail_if false e = ok tt

-- `Option::ok_or_else`
abbrev pub ok_or {ℓ} : {E : Type 0} {A : Type ℓ} → Option A → E → Result E A
ok_or none e = err e
ok_or (some a) e = ok a

-- `Result::map_err`
abbrev pub map_err {ℓ} : {E F : Type 0} {A : Type ℓ} → (E → F) → Result E A → Result F A
map_err f (ok a) = ok a
map_err f (err e) = err (f e)

pub ok_injective {ℓ} :
    {E : Type 0} {A : Type ℓ} {a b : A} → ◌≡◌ {A = Result E A} (ok a) (ok b) → a ≡ b
ok_injective h = cc

pub ok_or-ok {ℓ} :
    {E : Type 0} {A : Type ℓ} (o : Option A) (e : E) {a : A} → ok_or o e ≡ ok a → o ≡ some a
ok_or-ok none e h = cc
ok_or-ok (some a) e h = ap (λ x. some x) (ok_injective h)

pub fail_if-ok : {E : Type 0} (b : Bool) (e : E) → fail_if b e ≡ ok tt → b ≡ false
fail_if-ok true e h = cc
fail_if-ok false e h = refl

-- Inversion of a successful `?`.
pub >>=-eq-ok {ℓ κ} :
    {E : Type 0} {A : Type ℓ} {B : Type κ} (first : Result E A) (rest : A → Result E B) {done : B}
    → (first >>= rest) ≡ ok done
    → (got : A) × (first ≡ ok got) × (rest got ≡ ok done)
>>=-eq-ok (err failure) rest success = cc
>>=-eq-ok (ok got) rest success = (got, refl, success)

pub fail_if-eq-ok {κ} :
    {E : Type 0} {B : Type κ} (b : Bool) (e : E) (k : Result E B) {r : B}
    → (fail_if b e >> k) ≡ ok r
    → (b ≡ false) × (k ≡ ok r)
fail_if-eq-ok true e k h = cc
fail_if-eq-ok false e k h = (refl, h)

pub ok_or-eq-ok {ℓ κ} :
    {E : Type 0} {A : Type ℓ} {B : Type κ} (o : Option A) (e : E) (f : A → Result E B) {r : B}
    → (ok_or o e >>= f) ≡ ok r
    → (a : A) × (o ≡ some a) × (f a ≡ ok r)
ok_or-eq-ok none e f h = cc
ok_or-eq-ok (some a) e f h = (a, refl, h)
