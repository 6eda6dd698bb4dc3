-- ===== src/Base/Throws.antt =====
-- What a call that may throw returns: a value, or the text of a std::exception.
use mathlib.Core.Path.{◌≡◌, refl, subst}
use mathlib.Core.Logic.{◌⊎◌, inl, inr}
use phm.Base.Texts.{Text}

pub data Throws {ℓ} (A : Type ℓ) : Type ℓ where
  returned : A → Throws A
  thrown : Text → Throws A

infixl 5 ◌>>=◌ ◌>>◌
abbrev pub ◌>>=◌ {ℓ κ} : {A : Type ℓ} {B : Type κ} → Throws A → (A → Throws B) → Throws B
returned a >>= f = f a
thrown e >>= f = thrown e

abbrev pub ◌>>◌ {ℓ} : {B : Type ℓ} → Throws (Unit {0}) → Throws B → Throws B
m >> k = m >>= λ _. k

pub Throws-cases {ℓ} :
    {A : Type ℓ} (r : Throws A) → ((e : Text) × (r ≡ thrown e)) ⊎ ((a : A) × (r ≡ returned a))
Throws-cases (returned a) = inr (a, refl)
Throws-cases (thrown e) = inl (e, refl)

-- Inversion of a bind that returns.
pub >>=-eq-returned {ℓ κ} :
    {A : Type ℓ} {B : Type κ} (m : Throws A) (f : A → Throws B) {b : B}
    → (m >>= f) ≡ returned b
    → (a : A) × (m ≡ returned a) × (f a ≡ returned b)
>>=-eq-returned (returned a) f h = (a, refl, h)
>>=-eq-returned (thrown e) f h = cc

-- What a call that returns makes true.
abbrev pub Returns {ℓ κ} : {A : Type ℓ} → (A → Type κ) → Throws A → Type κ
Returns P (returned a) = P a
Returns P (thrown e) = Unit

pub returned-injective {ℓ} : {A : Type ℓ} {a b : A} → returned a ≡ returned b → a ≡ b
returned-injective q = cc

pub Returns-returned {ℓ κ} :
    {A : Type ℓ} (P : A → Type κ) (m : Throws A) (a : A) → Returns P m → m ≡ returned a → P a
Returns-returned P (returned b) a h e = subst P (returned-injective e) h
Returns-returned P (thrown f) a h e = cc
