-- ===== src/Prelude/Text.antt =====
-- C strings as lists of characters.
use Prim.Native.Char.{code}
use Prim.Native.String.{String}
use chowder.Prelude.{
  ℕ, zero, suc, Bool, true, false, not, ◌&&◌, List, [], ◌∷◌, ◌++◌, some, ◌==◌, ◌≡◌, refl, ap, arith,
  if◌then◌else◌, get_elem?, Run, ok, fault, out_of_bounds, ◌>>=◌,
}
use mathlib.Core.Option.{some-injective}
use mathlib.Core.Path.{ap₂, transport}

-- `strcmp(a, b) == 0`
unfoldable pub same_text : List ℕ → List ℕ → Bool
same_text [] [] = true
same_text [] (d ∷ ds) = false
same_text (c ∷ cs) [] = false
same_text (c ∷ cs) (d ∷ ds) = (c == d) && same_text cs ds

pub same_text_self : (cs : List ℕ) → same_text cs cs ≡ true
unfolding same_text
same_text_self [] = refl
same_text_self (c ∷ cs) = ground (arith, same_text_self cs)

pub same_text_eq : (cs ds : List ℕ) → same_text cs ds ≡ true → cs ≡ ds
unfolding same_text
same_text_eq [] [] e = refl
same_text_eq [] (d ∷ ds) e = cc
same_text_eq (c ∷ cs) [] e = cc
same_text_eq (c ∷ cs) (d ∷ ds) e =
    let heads : c ≡ d = ground (arith, e) in
    let tails : same_text cs ds ≡ true = ground (arith, e) in
    ap₂ (λ x xs. x ∷ xs) heads (same_text_eq cs ds tails)

pub same_text_comm : (cs ds : List ℕ) → same_text cs ds ≡ same_text ds cs
unfolding same_text
same_text_comm [] [] = refl
same_text_comm [] (d ∷ ds) = refl
same_text_comm (c ∷ cs) [] = refl
same_text_comm (c ∷ cs) (d ∷ ds) = ground (arith, same_text_comm cs ds)

-- The bytes of a literal.
abbrev pub codes : String → List ℕ
codes String.[] = []
codes (String.◌∷◌ c s) = code c ∷ codes s

-- The characters before the terminating zero.
unfoldable pub array_text : List ℕ → Run (List ℕ)
array_text [] = fault out_of_bounds
array_text (c ∷ cs) =
    let more = (do rest ← array_text cs; ok (c ∷ rest)) in if c == 0 then ok [] else more

-- A test of all items.
unfoldable pub all {ℓ} : {A : Type ℓ} → (A → Bool) → List A → Bool
all test [] = true
all test (x ∷ xs) = test x && all test xs

pub all_weaken :
    (p q : ℕ → Bool) (xs : List ℕ)
    → ((c : ℕ) → p c ≡ true → q c ≡ true)
    → all p xs ≡ true
    → all q xs ≡ true
unfolding all
all_weaken p q [] f h = refl
all_weaken p q (x ∷ xs) f h =
    let first : q x ≡ true = f x (ground (arith, h)) in
    let rest : all q xs ≡ true = all_weaken p q xs f (ground (arith, h)) in
    ground (arith, first, rest)

pub all_append :
    (p : ℕ → Bool) (xs ys : List ℕ) → all p xs ≡ true → all p ys ≡ true → all p (xs ++ ys) ≡ true
unfolding all
all_append p [] ys h k = k
all_append p (x ∷ xs) ys h k =
    let rest : all p (xs ++ ys) ≡ true = all_append p xs ys (ground (arith, h)) k in
    ground (arith, h, rest)

pub all_cons :
    (p : ℕ → Bool) (x : ℕ) (xs : List ℕ) → p x ≡ true → all p xs ≡ true → all p (x ∷ xs) ≡ true
unfolding all
all_cons p x xs h k = ground (arith, h, k)

pub all-get_elem? {ℓ} :
    {A : Type ℓ} (test : A → Bool) (xs : List A) (i : ℕ) (x : A)
    → all test xs ≡ true
    → get_elem? xs i ≡ some x
    → test x ≡ true
unfolding all
all-get_elem? test [] i x h e = cc
all-get_elem? test (y ∷ xs) zero x h e =
    transport (ap (λ t. test t ≡ true) (some-injective _ _ e)) (ground (arith, h))
all-get_elem? test (y ∷ xs) (suc i) x h e = all-get_elem? test xs i x (ground (arith, h)) e

pub array_text-append :
    (xs rest : List ℕ) → all (λ c. not (c == 0)) xs ≡ true → array_text (xs ++ 0 ∷ rest) ≡ ok xs
unfolding array_text all
array_text-append [] rest h = refl
array_text-append (x ∷ xs) rest h =
    let go : (x == 0) ≡ false = ground (arith, h) in
    rw (go, array_text-append xs rest (ground (arith, h)), ◌>>=◌) refl
