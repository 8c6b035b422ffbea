-- ===== src/Base/Results.antt =====
-- A value or an error, as a Go function returns them, with the chain that stops at an error.
use mathlib.Core.Bool.{Bool, true, false}
use mathlib.Core.Path.{◌≡◌, refl}
use mathlib.Core.Logic.{◌⊎◌, inl, inr}

pub data Result {ℓ} (E A : Type ℓ) : Type ℓ where
  ok : A → Result E A
  err : E → Result E A

infixl 5 ◌>>=◌ ◌>>◌
abbrev pub ◌>>=◌ {ℓ} : {E A B : Type ℓ} → Result E A → (A → Result E B) → Result E B
err failure >>= continue = err failure
ok value >>= continue = continue value

abbrev pub ◌>>◌ {ℓ} : {E B : Type ℓ} → Result E (Unit {ℓ}) → Result E B → Result E B
checked >> rest = checked >>= λ _. rest

-- `if b { return err }`
abbrev pub refuse_if {ℓ} : {E : Type ℓ} → Bool → E → Result E (Unit {ℓ})
refuse_if true e = err e
refuse_if false e = ok tt

pub ok_inj {ℓ} : {E A : Type ℓ} {x y : A} → ◌≡◌ {A = Result E A} (ok x) (ok y) → x ≡ y
ok_inj e = cc

-- Inversion of a chain that succeeds.
pub >>=-eq-ok {ℓ} :
    {E A B : Type ℓ} (first : Result E A) (continue : A → Result E B) {end : B}
    → (first >>= continue) ≡ ok end
    → (value : A) × (first ≡ ok value) × (continue value ≡ ok end)
>>=-eq-ok (err failure) continue run = cc
>>=-eq-ok (ok value) continue run = (value, refl, run)

pub refuse_if-eq-ok {ℓ} :
    {E : Type ℓ} (b : Bool) (e : E) {u : Unit {ℓ}} → refuse_if b e ≡ ok u → b ≡ false
refuse_if-eq-ok true e h = cc
refuse_if-eq-ok false e h = refl

pub Result-cases {ℓ} :
    {E A : Type ℓ} (r : Result E A) → ((a : A) × (r ≡ ok a)) ⊎ ((e : E) × (r ≡ err e))
Result-cases (ok a) = inl (a, refl)
Result-cases (err e) = inr (e, refl)

-- A check that is passed is left out of a chain.
pub then-eq-ok {ℓ} :
    {E B : Type ℓ} (first : Result E (Unit {ℓ})) (rest : Result E B) {end : B}
    → (first >> rest) ≡ ok end
    → (first ≡ ok tt) × (rest ≡ ok end)
then-eq-ok (err e) rest h = cc
then-eq-ok (ok tt) rest h = (refl, h)
