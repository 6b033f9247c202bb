-- ===== src/Hashmap/Slots.antt =====
-- libs/hashmap/hashmap.c: tables from which nothing was removed, as lists of slots that are free or
-- hold a key and a value, and what a search sees of them.
use chowder.Prelude.{
  ℕ, zero, suc, ◌+◌, ◌≤◌, ◌<◌, ◌≡◌, ◌≢◌, refl, ap, ◌∙◌, sym, Bool, true, false, List, [], ◌∷◌, ◌++◌,
  map, Option, none, some, if◌then◌else◌, length, take, drop, set, get_elem?, All, arith,
  Bool-cases, ltb, ◌-◌, ◌⊎◌, inl, inr, drop-set, length-drop, get_elem?-drop,
}
use chowder.Prelude.Slices.{
  set-append_right, set-append_left, take-set_inside, take-set_past, drop-set_inside,
  get_elem?-append_left, get_elem?-append_right, get_elem?-take_inside,
}
use chowder.Prelude.Text.{same_text, same_text_self}
use chowder.Hashmap.{text, HashmapEntry, free_entry, Hashmap}

-- A key and its value, or nothing.
abbrev pub Slot : Type 0
Slot = Option (List ℕ × Option ℕ)

abbrev pub entry : Slot → HashmapEntry
entry none = free_entry
entry (some (k, v)) = record { removed = false; key = text k; value = v }

abbrev pub count : List Slot → ℕ
count [] = 0
count (none ∷ ss) = count ss
count (some e ∷ ss) = suc (count ss)

-- The map with these slots.
abbrev pub table : List Slot → Hashmap
table ss = record { occupied = count ss; entries = map entry ss }

-- The slots from `i` on, and then the first ones.
abbrev pub rotate : ℕ → List Slot → List Slot
rotate i ss = drop i ss ++ take i ss

-- What a search finds that starts with the first slot and ends at a free one.
unfoldable pub scan : List ℕ → List Slot → Option (Option ℕ)
scan k [] = none
scan k (none ∷ ss) = none
scan k (some (l, v) ∷ ss) = let rest = scan k ss in if same_text l k then some v else rest

abbrev pub IsNot : List ℕ → Slot → Type 0
IsNot k none = Unit
IsNot k (some (l, v)) = same_text l k ≡ false

-- The key `k` does not stand behind a free slot.
unfoldable pub NoGap : List ℕ → List Slot → Type 0
NoGap k [] = Unit
NoGap k (none ∷ ss) = All (IsNot k) ss
NoGap k (some e ∷ ss) = NoGap k ss

scan-absent : (k : List ℕ) (ss : List Slot) → All (IsNot k) ss → scan k ss ≡ none
unfolding scan
scan-absent k [] h = refl
scan-absent k (none ∷ ss) h = refl
scan-absent k (some e ∷ ss) h = rw (h.0) (scan-absent k ss h.1)

pub NoGap-absent : (k : List ℕ) (ss : List Slot) → All (IsNot k) ss → NoGap k ss
unfolding NoGap
NoGap-absent k [] h = tt
NoGap-absent k (none ∷ ss) h = h.1
NoGap-absent k (some e ∷ ss) h = NoGap-absent k ss h.1

absent-set :
    (k l : List ℕ) (v : Option ℕ) (m : ℕ) (ss : List Slot)
    → same_text l k ≡ false
    → All (IsNot k) ss
    → All (IsNot k) (set ss m (some (l, v)))
absent-set k l v m [] other h = tt
absent-set k l v zero (s ∷ ss) other h = (other, h.1)
absent-set k l v (suc m) (s ∷ ss) other h = (h.0, absent-set k l v m ss other h.1)

-- No key of the part before the free slot is lost by filling it.
pub scan-set :
    (k l : List ℕ) (v : Option ℕ) (m : ℕ) (ss : List Slot)
    → same_text l k ≡ false
    → get_elem? ss m ≡ some none
    → NoGap k ss
    → scan k (set ss m (some (l, v))) ≡ scan k ss
unfolding scan NoGap
scan-set k l v m [] other free h = refl
scan-set k l v zero (none ∷ ss) other free h = rw (other) (scan-absent k ss h)
scan-set k l v zero (some e ∷ ss) other free h = cc
scan-set k l v (suc m) (none ∷ ss) other free h = refl
scan-set k l v (suc m) (some e ∷ ss) other free h =
    ap (λ (r : Option (Option ℕ)). if same_text e.0 k then some e.1 else r)
      (scan-set k l v m ss other free h)

pub NoGap-set :
    (k l : List ℕ) (v : Option ℕ) (m : ℕ) (ss : List Slot)
    → same_text l k ≡ false
    → NoGap k ss
    → NoGap k (set ss m (some (l, v)))
unfolding NoGap
NoGap-set k l v m [] other h = tt
NoGap-set k l v zero (none ∷ ss) other h = NoGap-absent k ss h
NoGap-set k l v zero (some e ∷ ss) other h = h
NoGap-set k l v (suc m) (none ∷ ss) other h = absent-set k l v m ss other h
NoGap-set k l v (suc m) (some e ∷ ss) other h = NoGap-set k l v m ss other h

abbrev pub IsTaken : Slot → Type 0
IsTaken none = ⊥
IsTaken (some e) = Unit

kept :
    (b : Bool) {p q : Option (Option ℕ)} (first later : Option (Option ℕ))
    → first ≢ none
    → (p ≡ none → q ≡ later)
    → (if b then first else p) ≡ none
    → (if b then first else q) ≡ later
kept true first later some_first h e = absurd (some_first e)
kept false first later some_first h e = h e

-- The free slot at which the key was not found is where it is found afterwards.
pub scan-filled :
    (k : List ℕ) (v : Option ℕ) (pre post : List Slot)
    → All IsTaken pre
    → scan k (pre ++ (none ∷ post)) ≡ none
    → scan k (pre ++ (some (k, v) ∷ post)) ≡ some v
unfolding scan
scan-filled k v [] post h e = rw (same_text_self k) refl
scan-filled k v (none ∷ pre) post h e = absurd h.0
scan-filled k v (some (l, w) ∷ pre) post h e =
    kept (same_text l k) (some w) (some v) (λ f. cc) (scan-filled k v pre post h.1) e

pub NoGap-filled :
    (k : List ℕ) (v : Option ℕ) (pre post : List Slot)
    → All IsTaken pre
    → NoGap k (pre ++ (none ∷ post))
    → NoGap k (pre ++ (some (k, v) ∷ post))
unfolding NoGap
NoGap-filled k v [] post h g = NoGap-absent k post g
NoGap-filled k v (none ∷ pre) post h g = absurd h.0
NoGap-filled k v (some e ∷ pre) post h g = NoGap-filled k v pre post h.1 g

lt_or_le : (a b : ℕ) → (a < b) ⊎ (b ≤ a)
lt_or_le a b = elim (Bool-cases (ltb a b)) [
  | inl e ↦ inl (ground arith)
  | inr e ↦ inr (ground arith)
]

-- Filling a slot fills one of the rotated slots.
pub rotate-set :
    (i j : ℕ) (ss : List Slot) (s : Slot)
    → i ≤ length ss
    → j < length ss
    → (m : ℕ) × (rotate i (set ss j s) ≡ set (rotate i ss) m s)
      × (get_elem? (rotate i ss) m ≡ get_elem? ss j)
rotate-set i j ss s hi hj = elim (lt_or_le j i) [
  | inl before ↦ (
    length (drop i ss) + j,
    rw (drop-set i ss j s before, take-set_inside i j ss s before)
        (sym (set-append_right (drop i ss) (take i ss) j s)),
    get_elem?-append_right (drop i ss) (take i ss) j ∙ get_elem?-take_inside i j ss before,
  )
  | inr after ↦
      let n = j - i in
      let e : j ≡ i + n = omega (arith, after) in
      let inside : n < length (drop i ss) = omega (arith, length-drop i ss, after, hj) in
      (
        n,
        rw
            (
              take-set_past i j ss s after,
              ap (λ (t : ℕ). drop i (set ss t s)) e,
              drop-set_inside i n ss s,
            )
            (sym (set-append_left (drop i ss) (take i ss) n s inside)),
        get_elem?-append_left (drop i ss) (take i ss) n inside
            ∙ get_elem?-drop i n ss
            ∙ ap (get_elem? ss) (sym e),
      )
]
