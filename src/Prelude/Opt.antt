-- ===== src/Prelude/Opt.antt =====
-- Sequencing of partial steps; `none` is a call that was not completed.
use mathlib.Core.Path.{◌≡◌, refl}
use mathlib.Core.Option.{Option, none, some, some-injective}
use mathlib.Core.Bool.{Bool, true, false}
use mathlib.Core.Logic.{◌⊎◌, inl, inr}
use beaverbot.Prelude.Tests.{if◌then◌else◌}

infixl 5 ◌>>=◌
abbrev pub ◌>>=◌ {ℓ κ} : {A : Type ℓ} {B : Type κ} → Option A → (A → Option B) → Option B
none >>= f = none
some a >>= f = f a

pub >>=-eq-some {ℓ κ} :
    {A : Type ℓ} {B : Type κ} (m : Option A) (f : A → Option B) {b : B}
    → (m >>= f) ≡ some b
    → (a : A) × (m ≡ some a) × (f a ≡ some b)
>>=-eq-some none f h = cc
>>=-eq-some (some a) f h = (a, refl, h)

pub >>=-some {ℓ κ} :
    {A : Type ℓ} {B : Type κ} {m : Option A} {a : A} (f : A → Option B)
    → m ≡ some a
    → (m >>= f) ≡ f a
>>=-some f e = rw e

-- Which branch of a test gave the result.
pub if_inv {ℓ} :
    {A : Type ℓ} (b : Bool) {x h : A} {r : Option A}
    → (if b then some x else r) ≡ some h
    → ((b ≡ true) × (x ≡ h)) ⊎ ((b ≡ false) × (r ≡ some h))
if_inv true e = inl (refl, some-injective _ _ e)
if_inv false e = inr (refl, e)
