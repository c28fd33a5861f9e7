-- ===== src/Prelude/Fallible.antt =====
-- Fallible code: `Result`, its bind for `do` blocks, and inversion of a successful bind.
use mathlib.Core.Path.{◌≡◌, refl}
use mathlib.Core.Bool.{Bool, true, false}
use mathlib.Core.Option.{Option, none, some}
use mathlib.Core.Logic.{◌⊎◌, inl, inr}

pub data Result {ℓ} (E : Type 0) (A : Type ℓ) : Type ℓ where
  ok : A → Result E A
  err : E → Result E A

infixl 5 ◌>>=◌ ◌>>◌
abbrev pub ◌>>=◌ {ℓ κ} :
    {Fault : Type 0} {X : Type ℓ} {Y : Type κ}
    → Result Fault X
    → (X → Result Fault Y)
    → Result Fault Y
err fault >>= next = err fault
ok x >>= next = next x

abbrev pub ◌>>◌ {κ} :
    {Fault : Type 0} {Y : Type κ} → Result Fault (Unit {0}) → Result Fault Y → Result Fault Y
first >> next = first >>= λ done. next

abbrev pub guard : {Fault : Type 0} → Bool → Fault → Result Fault (Unit {0})
guard false fault = err fault
guard true fault = ok tt

abbrev pub or_err {ℓ} : {E : Type 0} {A : Type ℓ} → Option A → E → Result E A
or_err none e = err e
or_err (some a) e = ok a

pub Result-cases {ℓ} :
    {E : Type 0} {A : Type ℓ} (r : Result E A) → ((a : A) × (r ≡ ok a)) ⊎ ((e : E) × (r ≡ err e))
Result-cases (ok a) = inl (a, refl)
Result-cases (err e) = inr (e, refl)

pub >>=-eq-ok {ℓ κ} :
    {Fault : Type 0} {X : Type ℓ} {Y : Type κ} (first : Result Fault X) (next : X → Result Fault Y)
    {y : Y}
    → (first >>= next) ≡ ok y
    → (x : X) × (first ≡ ok x) × (next x ≡ ok y)
>>=-eq-ok (err fault) next done = cc
>>=-eq-ok (ok x) next done = (x, refl, done)

pub >>-eq-ok {κ} :
    {Fault : Type 0} {Y : Type κ} (test : Bool) (fault : Fault) (next : Result Fault Y) {y : Y}
    → (guard test fault >> next) ≡ ok y
    → (test ≡ true) × (next ≡ ok y)
>>-eq-ok false fault next done = cc
>>-eq-ok true fault next done = (refl, done)

pub ok-injective {ℓ} :
    {E : Type 0} {A : Type ℓ} (x y : A) → ◌≡◌ {A = Result E A} (ok x) (ok y) → x ≡ y
ok-injective x y e = cc
