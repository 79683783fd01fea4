-- ===== src/Prelude/Outcome.antt =====
-- What a piece of C code comes to: a value, undefined behaviour, or more loop rounds than the fuel.
use mathlib.Core.Bool.{Bool, true, false}
use mathlib.Core.Option.{Option, none, some}
use mathlib.Core.Path.{◌≡◌, refl}
use lw_nbd.Prelude.Tests.{if◌then◌else◌}

pub data Run {ℓ} (A : Type ℓ) : Type ℓ where
  done : A → Run A
  -- a call through a null pointer, a division by zero, an access outside an array
  fault : Run A
  out_of_fuel : Run A

infixl 5 ◌>>=◌
abbrev pub ◌>>=◌ {ℓ κ} : {A : Type ℓ} {B : Type κ} → Run A → (A → Run B) → Run B
done a >>= f = f a
fault >>= f = fault
out_of_fuel >>= f = out_of_fuel

-- A function pointer that may be NULL.
abbrev pub deref {ℓ} : {A : Type ℓ} → Option A → Run A
deref none = fault
deref (some f) = done f

-- Total correctness: the code returns, and what it returns satisfies `P`.
abbrev pub Returns {ℓ} : {A : Type ℓ} → Run A → (A → Type 0) → Type 0
Returns (done a) P = P a
Returns fault P = ⊥
Returns out_of_fuel P = ⊥

pub Returns-weaken {ℓ} :
    {A : Type ℓ} (m : Run A) {P Q : A → Type 0} → ((a : A) → P a → Q a) → Returns m P → Returns m Q
Returns-weaken (done a) h p = h a p
Returns-weaken fault h p = p
Returns-weaken out_of_fuel h p = p

pub Returns->>= {ℓ κ} :
    {A : Type ℓ} {B : Type κ} (m : Run A) (g : A → Run B) (P : A → Type 0) (Q : B → Type 0)
    → Returns m P
    → ((a : A) → P a → Returns (g a) Q)
    → Returns (m >>= g) Q
Returns->>= (done a) g P Q p h = h a p
Returns->>= fault g P Q p h = p
Returns->>= out_of_fuel g P Q p h = p

pub Returns-both {ℓ} :
    {A : Type ℓ} (m : Run A) (P Q : A → Type 0)
    → Returns m P
    → Returns m Q
    → Returns m (λ a. P a × Q a)
Returns-both (done a) P Q p q = (p, q)
Returns-both fault P Q p q = p
Returns-both out_of_fuel P Q p q = p

-- The code comes to an end within its fuel, whatever it comes to; a value it returns satisfies `P`.
abbrev pub Ends {ℓ} : {A : Type ℓ} → Run A → (A → Type 0) → Type 0
Ends (done a) P = P a
Ends fault P = Unit
Ends out_of_fuel P = ⊥

pub Ends-weaken {ℓ} :
    {A : Type ℓ} (m : Run A) {P Q : A → Type 0} → ((a : A) → P a → Q a) → Ends m P → Ends m Q
Ends-weaken (done a) h p = h a p
Ends-weaken fault h p = p
Ends-weaken out_of_fuel h p = p

-- What a run that ends with a result ends with.
pub Ends-result :
    {A : Type 0} (m : Run A) (P : A → Type 0) → Ends m P → Ends m (λ a. P a × (m ≡ done a))
Ends-result (done a) P p = (p, refl)
Ends-result fault P p = p
Ends-result out_of_fuel P p = p

pub Ends->>= {ℓ κ} :
    {A : Type ℓ} {B : Type κ} (m : Run A) (g : A → Run B) (P : A → Type 0) (Q : B → Type 0)
    → Ends m P
    → ((a : A) → P a → Ends (g a) Q)
    → Ends (m >>= g) Q
Ends->>= (done a) g P Q p h = h a p
Ends->>= fault g P Q p h = p
Ends->>= out_of_fuel g P Q p h = p

-- A function pointer that may be NULL, and what is done with it.
pub Ends-deref_then {ℓ κ} :
    {A : Type ℓ} {B : Type κ} (o : Option A) (g : A → Run B) (Q : B → Type 0)
    → ((a : A) → Ends (g a) Q)
    → Ends (deref o >>= g) Q
Ends-deref_then none g Q h = tt
Ends-deref_then (some a) g Q h = h a

pub Ends-if {ℓ} :
    {A : Type ℓ} (b : Bool) (m n : Run A) (P : A → Type 0)
    → Ends m P
    → Ends n P
    → Ends (if b then m else n) P
Ends-if true m n P h k = h
Ends-if false m n P h k = k
