-- ===== src/Common/Maybe.antt =====
-- Chains of results that may be missing, for do blocks.
use mathlib.Core.Path.{◌≡◌, refl, subst}
use imposter_go.Common.{if◌then◌else◌, Bool, true, false}
use mathlib.Core.Option.{Option, none, some}

infixl 5 ◌>>=◌
abbrev pub ◌>>=◌ {ℓ κ} : {A : Type ℓ} {B : Type κ} → Option A → (A → Option B) → Option B
none >>= f = none
some a >>= f = f a

-- A chain that gives a result, taken apart.
pub >>=-eq-some {ℓ κ} :
    {A : Type ℓ} {B : Type κ} (m : Option A) (f : A → Option B) {b : B}
    → (m >>= f) ≡ some b
    → (a : A) × (m ≡ some a) × (f a ≡ some b)
>>=-eq-some none f h = cc
>>=-eq-some (some a) f h = (a, refl, h)

-- What an optional result has, if there is one.
abbrev pub Returns {ℓ κ} : {A : Type ℓ} → (A → Type κ) → Option A → Type κ
Returns P none = Unit
Returns P (some a) = P a

pub Returns->>= {ℓ κ} :
    {A B : Type ℓ} (P : A → Type κ) (Q : B → Type κ) (m : Option A) (f : A → Option B)
    → Returns P m
    → ((a : A) → P a → Returns Q (f a))
    → Returns Q (m >>= f)
Returns->>= P Q none f p k = tt
Returns->>= P Q (some a) f p k = k a p

pub Returns-some {ℓ κ} :
    {A : Type ℓ} (P : A → Type κ) {o : Option A} {a : A} → Returns P o → o ≡ some a → P a
Returns-some P p e = subst (Returns P) e p

-- The equation that a result has come by.
pub Returns-self {ℓ} : {A : Type ℓ} (o : Option A) → Returns (λ a. o ≡ some a) o
Returns-self none = tt
Returns-self (some a) = refl

pub Returns-of {ℓ κ} :
    {A : Type ℓ} (P : A → Type κ) (o : Option A) → ((a : A) → o ≡ some a → P a) → Returns P o
Returns-of P none f = tt
Returns-of P (some a) f = f a refl

pub Returns-ite :
    {A : Type 0} (P : A → Type 0) (b : Bool) (o o' : Option A)
    → Returns P o
    → Returns P o'
    → Returns P (if b then o else o')
Returns-ite P true o o' p q = p
Returns-ite P false o o' p q = q

pub Returns-map :
    {A : Type 0} (P Q : A → Type 0) (o : Option A)
    → Returns P o
    → ((a : A) → P a → Q a)
    → Returns Q o
Returns-map P Q none p f = tt
Returns-map P Q (some a) p f = f a p

pub Returns-if :
    {A : Type 0} (P : A → Type 0) (b : Bool) (o o' : Option A)
    → (b ≡ true → Returns P o)
    → (b ≡ false → Returns P o')
    → Returns P (if b then o else o')
Returns-if P true o o' p q = p refl
Returns-if P false o o' p q = q refl
