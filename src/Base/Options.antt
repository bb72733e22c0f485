-- ===== src/Base/Options.antt =====
-- Chains of steps that may fail.
use mathlib.Core.Path.{◌≡◌, refl, subst}
use mathlib.Core.Bool.{Bool, true, false}
use mathlib.Core.Option.{Option, none, some}

infixl 5 ◌>>=◌
abbrev pub ◌>>=◌ {ℓ κ} : {A : Type ℓ} {B : Type κ} → Option A → (A → Option B) → Option B
none >>= f = none
some a >>= f = f a

-- What a chain of steps that succeeds has gone through.
pub >>=-eq-some {ℓ κ} :
    {A : Type ℓ} {B : Type κ} (o : Option A) (f : A → Option B) {b : B}
    → (o >>= f) ≡ some b
    → (a : A) × (o ≡ some a) × (f a ≡ some b)
>>=-eq-some none f e = cc
>>=-eq-some (some a) f e = (a, refl, e)

pub >>=-some {ℓ κ} :
    {A : Type ℓ} {B : Type κ} (o : Option A) (f : A → Option B) {a : A} {b : B}
    → o ≡ some a
    → f a ≡ some b
    → (o >>= f) ≡ some b
>>=-some o f e h = rw e h

abbrev pub is_some {ℓ} : {A : Type ℓ} → Option A → Bool
is_some none = false
is_some (some a) = true

option_inj : {A : Type 0} {a b : A} → some a ≡ some b → a ≡ b
option_inj e = cc

-- What a computation returns, if it returns.
pub record Returns {A : Type 0} (P : A → Type 0) (o : Option A) : Type 0 where
  pub result : (a : A) → o ≡ some a → P a

pub Returns-some : {A : Type 0} {P : A → Type 0} {a : A} → P a → Returns P (some a)
Returns-some {P = P} p = record { result = λ b e. subst P (option_inj e) p }

pub Returns-then :
    {A B : Type 0} {Q : A → Type 0} {P : B → Type 0} (o : Option A) {f : A → Option B}
    → Returns Q o
    → ((a : A) → Q a → Returns P (f a))
    → Returns P (o >>= f)
Returns-then none h each = record { result = λ b e. cc }
Returns-then (some a) h each = each a (h.result a refl)

pub Returns->>= :
    {A B : Type 0} {P : B → Type 0} (o : Option A) {f : A → Option B}
    → ((a : A) → Returns P (f a))
    → Returns P (o >>= f)
Returns->>= none each = record { result = λ b e. cc }
Returns->>= (some a) each = each a
