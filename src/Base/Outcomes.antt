-- ===== src/Base/Outcomes.antt =====
-- What a call does when it does not return: a null pointer is used, pop_front is called on an
-- empty deque, or a thread locks the std::mutex that it holds.
use mathlib.Core.Path.{◌≡◌, refl, subst}
use mathlib.Core.Logic.{◌⊎◌, inl, inr}

pub data Failure : Type 0 where
  null_dereference pop_of_empty self_deadlock : Failure

pub data Outcome {ℓ} (A : Type ℓ) : Type ℓ where
  done : A → Outcome A
  failed : Failure → Outcome A

infixl 5 ◌>>=◌ ◌>>◌
abbrev pub ◌>>=◌ {ℓ κ} : {A : Type ℓ} {B : Type κ} → Outcome A → (A → Outcome B) → Outcome B
done a >>= f = f a
failed e >>= f = failed e

abbrev pub ◌>>◌ {ℓ} : {B : Type ℓ} → Outcome (Unit {0}) → Outcome B → Outcome B
m >> k = m >>= λ _. k

-- Inversion of a bind that returns.
pub >>=-eq-done {ℓ κ} :
    {A : Type ℓ} {B : Type κ} (m : Outcome A) (f : A → Outcome B) {b : B}
    → (m >>= f) ≡ done b
    → (a : A) × (m ≡ done a) × (f a ≡ done b)
>>=-eq-done (done a) f h = (a, refl, h)
>>=-eq-done (failed e) f h = cc

pub Outcome-cases {ℓ} :
    {A : Type ℓ} (o : Outcome A) → ((e : Failure) × (o ≡ failed e)) ⊎ ((a : A) × (o ≡ done a))
Outcome-cases (done a) = inr (a, refl)
Outcome-cases (failed e) = inl (e, refl)

-- What a call that returns makes true.
abbrev pub Ensures {ℓ κ} : {A : Type ℓ} → (A → Type κ) → Outcome A → Type κ
Ensures P (done a) = P a
Ensures P (failed e) = Unit

pub done-injective {ℓ} : {A : Type ℓ} {a b : A} → done a ≡ done b → a ≡ b
done-injective q = cc

pub Ensures-done {ℓ κ} :
    {A : Type ℓ} (P : A → Type κ) (o : Outcome A) (a : A) → Ensures P o → o ≡ done a → P a
Ensures-done P (done b) a h e = subst P (done-injective e) h
Ensures-done P (failed f) a h e = cc

-- The call returns, and what it returns satisfies P.
abbrev pub Finishes {ℓ} : {A : Type ℓ} → (A → Type 0) → Outcome A → Type 0
Finishes P (done a) = P a
Finishes P (failed e) = ⊥

pub Finishes-done {ℓ} :
    {A : Type ℓ} (P : A → Type 0) (o : Outcome A) → Finishes P o → (a : A) × (o ≡ done a) × P a
Finishes-done P (done a) h = (a, refl, h)
Finishes-done P (failed e) h = absurd h

pub Finishes-bind {ℓ κ} :
    {A : Type ℓ} {B : Type κ} (P : A → Type 0) (Q : B → Type 0) (o : Outcome A) (f : A → Outcome B)
    → Finishes P o
    → ((a : A) → P a → Finishes Q (f a))
    → Finishes Q (o >>= f)
Finishes-bind P Q (done a) f h k = k a h
Finishes-bind P Q (failed e) f h k = absurd h
