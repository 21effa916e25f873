-- ===== src/Prelude/Result.antt =====
-- Exceptions as values: the C++ exception types that the modelled code throws
-- (cpp/include/rapidsmpf/error.hpp, cpp/include/rapidsmpf/utils/misc.hpp).
use mathlib.Core.Path.{◌≡◌, refl, subst}
use mathlib.Core.Logic.{◌⊎◌, inl, inr}
use mathlib.Core.Bool.{Bool, true, false}
use rapidsmpf.Prelude.Tests.{if◌then◌else◌}

-- `undefined` stands for signed overflow, which C++ leaves undefined.
pub data Error : Type 0 where
  logic_error invalid_argument runtime_error out_of_range : Error
  overflow_error reservation_error undefined : Error

-- What a call returns, or the exception that it throws.
pub data Result {ℓ} (R : Type ℓ) : Type ℓ where
  err : Error → Result R
  ok : R → Result R

-- RAPIDSMPF_EXPECTS(condition, message, exception)
abbrev pub expects : Bool → Error → Result (Unit {0})
expects true e = ok tt
expects false e = err e

-- The rest of a function after a call that may throw.
abbrev pub ◌>>=◌ {ℓ₁ ℓ₂} : {R : Type ℓ₁} {S : Type ℓ₂} → Result R → (R → Result S) → Result S
err e >>= rest = err e
ok r >>= rest = rest r

-- The rest of a function after a check.
abbrev pub ◌>>◌ {ℓ} : {S : Type ℓ} → Result (Unit {0}) → Result S → Result S
err e >> rest = err e
ok _ >> rest = rest

infixl 5 ◌>>=◌ ◌>>◌
-- Inversion of a step that succeeded.
pub >>=-eq-ok {ℓ₁ ℓ₂} :
    {R : Type ℓ₁} {S : Type ℓ₂} (call : Result R) (rest : R → Result S) {s : S}
    → (call >>= rest) ≡ ok s
    → (r : R) × (call ≡ ok r) × (rest r ≡ ok s)
>>=-eq-ok (err thrown) rest same = cc
>>=-eq-ok (ok r) rest same = (r, refl, same)

pub expects-eq-ok {ℓ} :
    {B : Type ℓ} (c : Bool) (e : Error) (k : Result B) {b : B}
    → (expects c e >> k) ≡ ok b
    → (c ≡ true) × (k ≡ ok b)
expects-eq-ok true e k h = (refl, h)
expects-eq-ok false e k h = cc

pub ok-injective {ℓ} : {A : Type ℓ} {a b : A} → ok a ≡ ok b → a ≡ b
ok-injective h = cc

-- To split on a computed result and keep the equation.
pub Result-cases {ℓ} :
    {A : Type ℓ} (r : Result A) → ((a : A) × (r ≡ ok a)) ⊎ ((e : Error) × (r ≡ err e))
Result-cases (ok a) = inl (a, refl)
Result-cases (err e) = inr (e, refl)

-- What holds of the value that a call returns.
abbrev pub Holds {ℓ κ} : {R : Type ℓ} → (R → Type κ) → Result R → Type κ
Holds P (err thrown) = Unit
Holds P (ok r) = P r

pub >>=-Holds {ℓ₁ ℓ₂ κ₁ κ₂} :
    {R : Type ℓ₁} {S : Type ℓ₂} (P : R → Type κ₁) (Q : S → Type κ₂) (call : Result R)
    (rest : R → Result S)
    → Holds P call
    → ((r : R) → P r → Holds Q (rest r))
    → Holds Q (call >>= rest)
>>=-Holds P Q (err thrown) rest h k = tt
>>=-Holds P Q (ok r) rest h k = k r h

-- Nothing is needed of the call.
pub then-Holds {ℓ₁ ℓ₂ κ} :
    {R : Type ℓ₁} {S : Type ℓ₂} (Q : S → Type κ) (call : Result R) (rest : R → Result S)
    → ((r : R) → Holds Q (rest r))
    → Holds Q (call >>= rest)
then-Holds Q (err thrown) rest k = tt
then-Holds Q (ok r) rest k = k r

pub >>-Holds {ℓ κ} :
    {S : Type ℓ} (Q : S → Type κ) (check : Result (Unit {0})) (rest : Result S)
    → Holds Q rest
    → Holds Q (check >> rest)
>>-Holds Q (err thrown) rest h = tt
>>-Holds Q (ok _) rest h = h

pub ok-Holds {ℓ κ} :
    {R : Type ℓ} (P : R → Type κ) (call : Result R) (r : R) → Holds P call → call ≡ ok r → P r
ok-Holds P (err thrown) r h e = absurd (let w = e in cc)
ok-Holds P (ok s) r h e = subst P (ok-injective e) h

pub weaken-Holds {ℓ κ₁ κ₂} :
    {R : Type ℓ} (P : R → Type κ₁) (Q : R → Type κ₂) (call : Result R)
    → ((r : R) → P r → Q r)
    → Holds P call
    → Holds Q call
weaken-Holds P Q (err thrown) k h = tt
weaken-Holds P Q (ok r) k h = k r h

pub if-Holds {ℓ κ} :
    {R : Type ℓ} (P : R → Type κ) (c : Bool) (a b : Result R)
    → (c ≡ true → Holds P a)
    → (c ≡ false → Holds P b)
    → Holds P (if c then a else b)
if-Holds P true a b h k = h refl
if-Holds P false a b h k = k refl
