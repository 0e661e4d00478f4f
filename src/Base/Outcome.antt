-- ===== src/Base/Outcome.antt =====
-- Results of code that can panic, and of loops that run on fuel.
use mathlib.Core.Path.{◌≡◌, refl, ap, ◌∙◌}
use mathlib.Core.Logic.{◌⊎◌, inl, inr}
use kruspix.Base.Tests.{if◌then◌else◌}
use mathlib.Core.Bool.{Bool, true, false}

pub data Outcome {ℓ} (A : Type ℓ) : Type ℓ where
  ok : A → Outcome A
  panic : Outcome A
  out_of_fuel : Outcome A

-- What runs next sees the value; a panic, or fuel that runs out, ends the whole.
infixl 5 ◌>>=◌ ◌>>◌
abbrev pub ◌>>=◌ {ℓ κ} : {X : Type ℓ} {Y : Type κ} → Outcome X → (X → Outcome Y) → Outcome Y
panic >>= next = panic
out_of_fuel >>= next = out_of_fuel
ok value >>= next = next value

-- `assert!`
abbrev pub assert : Bool → Outcome (Unit {0})
assert false = panic
assert true = ok tt

abbrev pub ◌>>◌ {ℓ} : {Y : Type ℓ} → Outcome (Unit {0}) → Outcome Y → Outcome Y
first >> second = first >>= λ done. second

pub ok-injective {ℓ} : {A : Type ℓ} {a b : A} → ok a ≡ ok b → a ≡ b
ok-injective h = cc

-- What returned came from a first part that returned.
pub >>=-eq-ok {ℓ κ} :
    {X : Type ℓ} {Y : Type κ} (run : Outcome X) (next : X → Outcome Y) {y : Y}
    → (run >>= next) ≡ ok y
    → (x : X) × (run ≡ ok x) × (next x ≡ ok y)
>>=-eq-ok panic next h = cc
>>=-eq-ok out_of_fuel next h = cc
>>=-eq-ok (ok x) next h = (x, refl, h)

pub bind-ok {ℓ κ} :
    {X : Type ℓ} {Y : Type κ} (run : Outcome X) (next : X → Outcome Y) {x : X} {r : Outcome Y}
    → run ≡ ok x
    → next x ≡ r
    → (run >>= next) ≡ r
bind-ok run next p q = ap (λ m. m >>= next) p ∙ q

-- A loop that stops with a value or goes on.
pub if-eq-ok {ℓ} :
    {A : Type ℓ} {b : A} (test : Bool) (a : A) (again : Outcome A)
    → (if test then ok a else again) ≡ ok b
    → (a ≡ b) ⊎ (again ≡ ok b)
if-eq-ok true a again h = inl (ok-injective h)
if-eq-ok false a again h = inr h

pub assert-ok {ℓ} :
    {A : Type ℓ} {a : A} (test : Bool) (rest : Outcome A)
    → (assert test >> rest) ≡ ok a
    → (test ≡ true) × (rest ≡ ok a)
assert-ok true rest h = (refl, h)
assert-ok false rest h = cc

-- what came out, or `d`
abbrev pub is_ok : {A : Type 0} → Outcome A → Bool
is_ok (ok a) = true
is_ok panic = false
is_ok out_of_fuel = false

abbrev pub result : {A : Type 0} → A → Outcome A → A
result d (ok a) = a
result d panic = d
result d out_of_fuel = d

pub result-ok : {A : Type 0} (d : A) (o : Outcome A) → is_ok o ≡ true → o ≡ ok (result d o)
result-ok d (ok a) e = refl
result-ok d panic e = cc
result-ok d out_of_fuel e = cc
