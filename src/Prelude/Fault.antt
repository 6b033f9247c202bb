-- ===== src/Prelude/Fault.antt =====
-- Runs of C code. `fault` is undefined behaviour or a failed `assert`: the program has no result.
use mathlib.Core.Bool.{Bool, true, false}
use mathlib.Core.Option.{Option, none, some}
use mathlib.Core.Path.{◌≡◌, refl}
use chowder.Prelude.Tests.{if◌then◌else◌}

pub data Fault : Type 0 where
  out_of_bounds use_after_free null_pointer division_by_zero assertion uninitialized no_fuel : Fault

pub data Run {ℓ} (A : Type ℓ) : Type ℓ where
  ok : A → Run A
  fault : Fault → Run A

infixl 5 ◌>>=◌ ◌>>◌
-- What follows a fault is never run.
abbrev pub ◌>>=◌ {ℓ κ} : {S : Type ℓ} {T : Type κ} → Run S → (S → Run T) → Run T
fault why >>= next = fault why
ok s >>= next = next s

abbrev pub ◌>>◌ {κ} : {T : Type κ} → Run (Unit {0}) → Run T → Run T
first >> second = first >>= λ _. second

-- `assert(b)`
abbrev pub assert : Bool → Run (Unit {0})
assert true = ok tt
assert false = fault assertion

-- A value that must be there.
abbrev pub need {ℓ} : {A : Type ℓ} → Fault → Option A → Run A
need e none = fault e
need e (some a) = ok a

-- A run that ends without a fault, and in what `P` says.
pub data Holds {ℓ} {A : Type ℓ} (P : A → Type ℓ) : Run A → Type ℓ where
  holds : (a : A) → P a → Holds P (ok a)

pub Holds-bind {ℓ} :
    {A B : Type ℓ} {P : A → Type ℓ} {Q : B → Type ℓ} {m : Run A} {k : A → Run B}
    → Holds P m
    → ((a : A) → P a → Holds Q (k a))
    → Holds Q (m >>= k)
Holds-bind (holds a h) f = f a h

pub Holds-map {ℓ} :
    {A : Type ℓ} {P Q : A → Type ℓ} {m : Run A} → ((a : A) → P a → Q a) → Holds P m → Holds Q m
Holds-map f (holds a h) = holds a (f a h)

pub Holds-if {ℓ} :
    {A : Type ℓ} {P : A → Type ℓ} (b : Bool) {x y : Run A}
    → (b ≡ true → Holds P x)
    → (b ≡ false → Holds P y)
    → Holds P (if b then x else y)
Holds-if true f g = f refl
Holds-if false f g = g refl

pub Holds-ok_if {ℓ} :
    {A : Type ℓ} {P : A → Type ℓ} (b : Bool) (x y : A)
    → (b ≡ true → P x)
    → (b ≡ false → P y)
    → Holds P (ok (if b then x else y))
Holds-ok_if true x y f g = holds x (f refl)
Holds-ok_if false x y f g = holds y (g refl)

pub Holds-ok {ℓ} : {A : Type ℓ} {P : A → Type ℓ} {a : A} → Holds P (ok a) → P a
Holds-ok (holds a h) = h

pub ok_injective {ℓ} : {A : Type ℓ} (a b : A) → ◌≡◌ {A = Run A} (ok a) (ok b) → a ≡ b
ok_injective a b e = cc

-- What a run that holds ends in.
pub held {ℓ} : {A : Type ℓ} {P : A → Type ℓ} {m : Run A} → Holds P m → (a : A) × (m ≡ ok a) × P a
held (holds a h) = (a, refl, h)

pub bind_ok {ℓ κ} :
    {A : Type ℓ} {B : Type κ} (m : Run A) (f : A → Run B) {b : B}
    → (m >>= f) ≡ ok b
    → (a : A) × (m ≡ ok a) × (f a ≡ ok b)
bind_ok (ok a) f h = (a, refl, h)
bind_ok (fault e) f h = cc
