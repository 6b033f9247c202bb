-- ===== src/Hashmap/Keys.antt =====
-- libs/hashmap/hashmap.c: tables in which no key comes twice.
use chowder.Prelude.{
  ℕ, zero, suc, ◌≡◌, refl, ap, ◌∙◌, sym, ◌⊎◌, inl, inr, Bool, true, false, Bool-cases, List, [],
  ◌∷◌, ◌++◌, Option, none, some, if◌then◌else◌, arith, take, drop, take-append-drop, set, All,
  All-append,
}
use mathlib.Core.Path.{transport}
use chowder.Prelude.Text.{same_text, same_text_eq, same_text_comm}
use chowder.Hashmap.Slots.{Slot, rotate, scan, IsNot, NoGap}

-- The value of a key, wherever it stands.
unfoldable pub lookup : List ℕ → List Slot → Option (Option ℕ)
lookup k [] = none
lookup k (none ∷ ss) = lookup k ss
lookup k (some (l, v) ∷ ss) = let rest = lookup k ss in if same_text l k then some v else rest

unfoldable pub Distinct : List Slot → Type 0
Distinct [] = Unit
Distinct (none ∷ ss) = Distinct ss
Distinct (some (k, v) ∷ ss) = All (IsNot k) ss × Distinct ss

pub lookup-absent : (k : List ℕ) (ss : List Slot) → All (IsNot k) ss → lookup k ss ≡ none
unfolding lookup
lookup-absent k [] h = refl
lookup-absent k (none ∷ ss) h = lookup-absent k ss h.1
lookup-absent k (some e ∷ ss) h = rw (h.0) (lookup-absent k ss h.1)

pub scan-lookup : (k : List ℕ) (ss : List Slot) → NoGap k ss → scan k ss ≡ lookup k ss
unfolding scan lookup NoGap
scan-lookup k [] h = refl
scan-lookup k (none ∷ ss) h = sym (lookup-absent k ss h)
scan-lookup k (some e ∷ ss) h =
    ap (λ (r : Option (Option ℕ)). if same_text e.0 k then some e.1 else r) (scan-lookup k ss h)

unless : Option (Option ℕ) → Option (Option ℕ) → Option (Option ℕ)
unless none later = later
unless (some v) later = some v

lookup-append :
    (k : List ℕ) (xs ys : List Slot) → lookup k (xs ++ ys) ≡ unless (lookup k xs) (lookup k ys)
unfolding lookup unless
lookup-append k [] ys = refl
lookup-append k (none ∷ xs) ys = lookup-append k xs ys
lookup-append k (some e ∷ xs) ys = ground (arith, lookup-append k xs ys)

All-right : (k : List ℕ) (xs ys : List Slot) → All (IsNot k) (xs ++ ys) → All (IsNot k) ys
All-right k [] ys h = h
All-right k (x ∷ xs) ys h = All-right k xs ys h.1

All-left : (k : List ℕ) (xs ys : List Slot) → All (IsNot k) (xs ++ ys) → All (IsNot k) xs
All-left k [] ys h = tt
All-left k (x ∷ xs) ys h = (h.0, All-left k xs ys h.1)

-- Only one part has a key.
one_part :
    (k : List ℕ) (xs ys : List Slot)
    → Distinct (xs ++ ys)
    → (lookup k xs ≡ none) ⊎ (lookup k ys ≡ none)
unfolding lookup Distinct
one_part k [] ys h = inl refl
one_part k (none ∷ xs) ys h = one_part k xs ys h
one_part k (some e ∷ xs) ys h = elim (Bool-cases (same_text e.0 k)) [
  | inl same ↦ inr (
      ap (λ t. lookup t ys) (sym (same_text_eq e.0 k same))
      ∙ lookup-absent e.0 ys (All-right e.0 xs ys h.0))
  | inr other ↦ elim (one_part k xs ys h.1) [
    | inl left ↦ inl (rw (other) left)
    | inr right ↦ inr right
  ]
]

unless_comm : (p q : Option (Option ℕ)) → ((p ≡ none) ⊎ (q ≡ none)) → unless p q ≡ unless q p
unfolding unless
unless_comm none none h = refl
unless_comm none (some q) h = refl
unless_comm (some p) none h = refl
unless_comm (some p) (some q) (inl e) = cc
unless_comm (some p) (some q) (inr e) = cc

pub lookup-rotate :
    (k : List ℕ) (i : ℕ) (ss : List Slot) → Distinct ss → lookup k (rotate i ss) ≡ lookup k ss
lookup-rotate k i ss h =
    let parts : take i ss ++ drop i ss ≡ ss = take-append-drop i ss in
    lookup-append k (drop i ss) (take i ss)
    ∙ sym (
        unless_comm (lookup k (take i ss)) (lookup k (drop i ss))
          (one_part k (take i ss) (drop i ss) (transport (ap Distinct (sym parts)) h)))
    ∙ sym (lookup-append k (take i ss) (drop i ss))
    ∙ ap (lookup k) parts

not_both :
    (b : Bool) (r : Option (Option ℕ)) (v : Option ℕ)
    → b ≡ true
    → (if b then some v else r) ≡ none
    → ⊥
not_both true r v e f = cc
not_both false r v e f = cc

later :
    (b : Bool) {r : Option (Option ℕ)} (v : Option ℕ)
    → b ≡ false
    → (if b then some v else r) ≡ none
    → r ≡ none
later true v e f = cc
later false v e f = f

absent_everywhere : (k : List ℕ) (ss : List Slot) → NoGap k ss → scan k ss ≡ none → All (IsNot k) ss
unfolding scan NoGap
absent_everywhere k [] h e = tt
absent_everywhere k (none ∷ ss) h e = (tt, h)
absent_everywhere k (some d ∷ ss) h e = elim (Bool-cases (same_text d.0 k)) [
  | inl same ↦ absurd (not_both (same_text d.0 k) (scan k ss) d.1 same e)
  | inr other ↦ (other, absent_everywhere k ss h (later (same_text d.0 k) d.1 other e))
]

pub rotated-absent :
    (k : List ℕ) (i : ℕ) (ss : List Slot)
    → NoGap k (rotate i ss)
    → scan k (rotate i ss) ≡ none
    → All (IsNot k) ss
rotated-absent k i ss h e =
    let all = absent_everywhere k (rotate i ss) h e in
    transport (ap (All (IsNot k)) (take-append-drop i ss)) (
      All-append (IsNot k) (take i ss) (drop i ss) (All-right k (drop i ss) (take i ss) all)
        (All-left k (drop i ss) (take i ss) all))

pub IsNot_comm : (k l : List ℕ) → same_text l k ≡ false → same_text k l ≡ false
IsNot_comm k l e = same_text_comm k l ∙ e

absent-set_key :
    (k l : List ℕ) (v : Option ℕ) (j : ℕ) (ss : List Slot)
    → same_text k l ≡ false
    → All (IsNot l) ss
    → All (IsNot l) (set ss j (some (k, v)))
absent-set_key k l v j [] e h = tt
absent-set_key k l v zero (s ∷ ss) e h = (e, h.1)
absent-set_key k l v (suc j) (s ∷ ss) e h = (h.0, absent-set_key k l v j ss e h.1)

pub Distinct-set :
    (k : List ℕ) (v : Option ℕ) (j : ℕ) (ss : List Slot)
    → All (IsNot k) ss
    → Distinct ss
    → Distinct (set ss j (some (k, v)))
unfolding Distinct
Distinct-set k v j [] a h = tt
Distinct-set k v zero (none ∷ ss) a h = (a.1, h)
Distinct-set k v zero (some e ∷ ss) a h = (a.1, h.1)
Distinct-set k v (suc j) (none ∷ ss) a h = Distinct-set k v j ss a.1 h
Distinct-set k v (suc j) (some e ∷ ss) a h =
    (absent-set_key k e.0 v j ss (IsNot_comm k e.0 a.0) h.0, Distinct-set k v j ss a.1 h.1)
