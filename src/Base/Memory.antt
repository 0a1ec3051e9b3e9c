-- ===== src/Base/Memory.antt =====
-- The outcome of C++ code: a value; a fault, which is a read outside a buffer, a division by zero, a
-- failed assertion or an exception that nobody catches; or, for a loop on fuel, the fuel used up.
use mathlib.Core.Path.{◌≡◌, refl}
use mathlib.Core.Bool.{Bool, true, false}
use mathlib.Core.Option.{Option, none, some}
use mathlib.Core.List.{List, [], ◌∷◌}
use dns_plus_plus.Base.Tests.{if◌then◌else◌}

pub data Access {ℓ} (A : Type ℓ) : Type ℓ where
  done : A → Access A
  fault : Access A
  stuck : Access A

infixl 5 ◌>>=◌
abbrev pub ◌>>=◌ {ℓ κ} : {A : Type ℓ} {B : Type κ} → Access A → (A → Access B) → Access B
done a >>= f = f a
fault >>= f = fault
stuck >>= f = stuck

-- Inversion of a chain that returns.
pub >>=-eq-done {ℓ κ} :
    {A : Type ℓ} {B : Type κ} (m : Access A) (f : A → Access B) {b : B}
    → (m >>= f) ≡ done b
    → (a : A) × (m ≡ done a) × (f a ≡ done b)
>>=-eq-done (done a) f h = (a, refl, h)
>>=-eq-done fault f h = cc
>>=-eq-done stuck f h = cc

pub done-inj {ℓ} : {A : Type ℓ} {a b : A} → done a ≡ done b → a ≡ b
done-inj e = cc

-- The code returns, and what it returns satisfies `P`.
abbrev pub Returns {ℓ κ} : {A : Type ℓ} → Access A → (A → Type κ) → Type (ℓ ⊔ κ)
Returns {A} r P = (a : A) × (r ≡ done a) × P a

pub Returns-bind {ℓ κ μ ν} :
    {A : Type ℓ} {B : Type κ} {P : A → Type μ} {Q : B → Type ν} (m : Access A) (f : A → Access B)
    → Returns m P
    → ((a : A) → P a → Returns (f a) Q)
    → Returns (m >>= f) Q
Returns-bind m f (a, e, p) k = let (b, e', q) = k a p in (b, rw e e', q)

pub Returns-done {ℓ κ} : {A : Type ℓ} {P : A → Type κ} (a : A) → P a → Returns (done a) P
Returns-done a p = (a, refl, p)

-- A branch returns where each side does, given how its test came out.
pub Returns-if {ℓ κ} :
    {A : Type ℓ} {P : A → Type κ} (b : Bool) {x y : Access A}
    → (b ≡ true → Returns x P)
    → (b ≡ false → Returns y P)
    → Returns (if b then x else y) P
Returns-if true t e = t refl
Returns-if false t e = e refl

pub Returns-option {ℓ κ μ} :
    {A : Type ℓ} {B : Type κ} {P : B → Type μ} (o : Option A) {x : Access B} {g : A → Access B}
    → Returns x P
    → ((a : A) → o ≡ some a → Returns (g a) P)
    → Returns (elim o [ none ↦ x | some a ↦ g a ]) P
Returns-option none n s = n
Returns-option (some a) n s = s a refl

pub Returns-list {ℓ κ μ} :
    {A : Type ℓ} {B : Type κ} {P : B → Type μ} (l : List A) {x : Access B}
    {g : A → List A → Access B}
    → Returns x P
    → ((a : A) (as' : List A) → Returns (g a as') P)
    → Returns (elim l [ [] ↦ x | a ∷ as' ↦ g a as' ]) P
Returns-list [] n c = n
Returns-list (a ∷ as') n c = c a as'

-- The two sides of a conditional that gives a state and a flag.
pub fst-if {ℓ κ μ} :
    {A : Type ℓ} {B : Type κ} (P : A → Type μ) (b : Bool) (x y : A × B)
    → P x.0
    → P y.0
    → P (if b then x else y).0
fst-if P true x y p q = p
fst-if P false x y p q = q

pub snd-if {ℓ κ μ} :
    {A : Type ℓ} {B : Type κ} (P : B → Type μ) (b : Bool) (x y : A × B)
    → P x.1
    → P y.1
    → P (if b then x else y).1
snd-if P true x y p q = p
snd-if P false x y p q = q

pub if-cases {ℓ κ} :
    {A : Type ℓ} (P : A → Type κ) (b : Bool) {x y : A} → P x → P y → P (if b then x else y)
if-cases P true p q = p
if-cases P false p q = q
