-- ===== src/Common/Panic.antt =====
-- Go code that may panic, as a value in `Option`: `none` is the panic.
use mathlib.Core.Path.{◌≡◌, refl}
use mathlib.Core.Option.{Option, none, some}

infixl 5 ◌>>=◌
abbrev pub ◌>>=◌ {ℓ κ} : {A : Type ℓ} {B : Type κ} → Option A → (A → Option B) → Option B
none >>= f = none
some a >>= f = f a

-- `m` does not panic, and what it returns satisfies `P`.
abbrev pub Returns {ℓ} : {A : Type ℓ} → Option A → (A → Type 0) → Type 0
Returns none P = ⊥
Returns (some a) P = P a

pub Returns-bind {ℓ κ} :
    {A : Type ℓ} {B : Type κ} (P : A → Type 0) (Q : B → Type 0) (m : Option A) (f : A → Option B)
    → Returns m P
    → ((a : A) → P a → Returns (f a) Q)
    → Returns (m >>= f) Q
Returns-bind P Q none f h k = absurd h
Returns-bind P Q (some a) f h k = k a h

pub Returns-imp {ℓ} :
    {A : Type ℓ} (P Q : A → Type 0) (m : Option A)
    → Returns m P
    → ((a : A) → P a → Q a)
    → Returns m Q
Returns-imp P Q none h k = absurd h
Returns-imp P Q (some a) h k = k a h

pub Returns-value {ℓ} :
    {A : Type ℓ} (P : A → Type 0) (m : Option A) → Returns m P → (a : A) × (m ≡ some a) × P a
Returns-value P none h = absurd h
Returns-value P (some a) h = (a, refl, h)

-- If `m` does not panic, what it returns satisfies `P`.
abbrev pub Provided {ℓ} : {A : Type ℓ} → Option A → (A → Type 0) → Type 0
Provided none P = Unit
Provided (some a) P = P a

pub Provided-intro {ℓ} :
    {A : Type ℓ} (P : A → Type 0) (m : Option A) → ((a : A) → m ≡ some a → P a) → Provided m P
Provided-intro P none h = tt
Provided-intro P (some a) h = h a refl

pub Provided-bind {ℓ κ} :
    {A : Type ℓ} {B : Type κ} (P : A → Type 0) (Q : B → Type 0) (m : Option A) (f : A → Option B)
    → Provided m P
    → ((a : A) → P a → Provided (f a) Q)
    → Provided (m >>= f) Q
Provided-bind P Q none f h k = tt
Provided-bind P Q (some a) f h k = k a h

pub Returns-and {ℓ} :
    {A : Type ℓ} (P Q R : A → Type 0) (m : Option A)
    → Returns m P
    → Provided m Q
    → ((a : A) → P a → Q a → R a)
    → Returns m R
Returns-and P Q R none h k f = absurd h
Returns-and P Q R (some a) h k f = f a h k

pub Provided-imp {ℓ} :
    {A : Type ℓ} (P Q : A → Type 0) (m : Option A)
    → Provided m P
    → ((a : A) → P a → Q a)
    → Provided m Q
Provided-imp P Q none h k = tt
Provided-imp P Q (some a) h k = k a h
