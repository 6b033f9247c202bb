-- ===== src/Hashmap/Search.antt =====
-- libs/hashmap/hashmap.c: what a search returns.
use chowder.Prelude.{
  ℕ, ◌%◌, ◌<◌, ◌≡◌, refl, ap, ◌∙◌, ◌⊎◌, inl, inr, Bool, true, false, not, List, [], ◌∷◌, ◌++◌, map,
  Option, none, some, if◌then◌else◌, length, length-map, get_elem?, All, ok, need, ◌>>=◌, arith,
}
use native.Mathlib.Nat.{mod-lt}
use chowder.Prelude.Text.{same_text}
use chowder.Prelude.Slices.{get_elem?-map}
use chowder.Hashmap.{fnv1a, has_key, is_other, probe, hashmap_index, hashmap_get_index, hashmap_get}
use chowder.Hashmap.Slots.{Slot, entry, table, rotate, scan}
use chowder.Hashmap.Probe.{probe-cases}

-- The slot at which the search for a key starts.
abbrev pub home : List Slot → List ℕ → ℕ
home ss k = fnv1a k % length ss

pub home-lt : (ss : List Slot) (k : List ℕ) → 0 < length ss → home ss k < length ss
home-lt ss k h = mod-lt (fnv1a k) h

pub hashmap_index-home :
    (ss : List Slot) (k : List ℕ) → 0 < length ss → hashmap_index (table ss) k ≡ ok (home ss k)
unfolding hashmap_index
hashmap_index-home ss k h = rw (length-map ss entry) (ground (arith, h))

abbrev goes_on : List ℕ → Slot → Bool
goes_on k none = false
goes_on k (some (l, v)) = not (same_text l k)

is_other-goes_on : (k : List ℕ) (s : Slot) → is_other k (entry s) ≡ ok (goes_on k s)
is_other-goes_on k none = refl
is_other-goes_on k (some e) = refl

skip_other :
    (b : Bool) {p q : Option (Option ℕ)} (v : Option ℕ)
    → not b ≡ true
    → p ≡ q
    → (if b then some v else p) ≡ q
skip_other true v n h = cc
skip_other false v n h = h

free_stops : {p q : Option (Option ℕ)} → ◌≡◌ {A = Bool} false true → p ≡ q
free_stops e = cc

scan_past :
    (k : List ℕ) (pre ss : List Slot)
    → All (λ s. goes_on k s ≡ true) pre
    → scan k (pre ++ ss) ≡ scan k ss
unfolding scan
scan_past k [] ss h = refl
scan_past k (none ∷ pre) ss h = free_stops h.0
scan_past k (some e ∷ pre) ss h = skip_other (same_text e.0 k) e.1 h.0 (scan_past k pre ss h.1)

scan-All : (k : List ℕ) (ss : List Slot) → All (λ s. goes_on k s ≡ true) ss → scan k ss ≡ none
unfolding scan
scan-All k [] h = refl
scan-All k (none ∷ ss) h = refl
scan-All k (some e ∷ ss) h = skip_other (same_text e.0 k) e.1 h.0 (scan-All k ss h.1)

module _ (ss : List Slot) (k : List ℕ) (some_slots : 0 < length ss) where
  index_none :
      probe (is_other k) (home ss k) (map entry ss) ≡ ok none
      → hashmap_get_index (table ss) k ≡ ok none
  unfolding hashmap_get_index
  index_none e = rw (hashmap_index-home ss k some_slots, ◌>>=◌, e, ◌>>=◌) refl

  index_here :
      (j : ℕ) (s : Slot)
      → probe (is_other k) (home ss k) (map entry ss) ≡ ok (some j)
      → get_elem? ss j ≡ some s
      → hashmap_get_index (table ss) k ≡ ok (if has_key (entry s).key then some j else none)
  unfolding hashmap_get_index
  index_here j s e at =
      rw
        (
          hashmap_index-home ss k some_slots,
          ◌>>=◌,
          e,
          ◌>>=◌,
          get_elem?-map entry ss j s at,
          need,
          ◌>>=◌,
        )
        refl

  get_none : hashmap_get_index (table ss) k ≡ ok none → hashmap_get (table ss) k ≡ ok none
  unfolding hashmap_get
  get_none e = rw (e, ◌>>=◌) refl

  get_here :
      (j : ℕ) (s : Slot)
      → hashmap_get_index (table ss) k ≡ ok (some j)
      → get_elem? ss j ≡ some s
      → hashmap_get (table ss) k ≡ ok (entry s).value
  unfolding hashmap_get
  get_here j s e at = rw (e, ◌>>=◌, get_elem?-map entry ss j s at, need, ◌>>=◌) refl

  abbrev pub Absent : Type 0
  Absent =
      (hashmap_get_index (table ss) k ≡ ok none)
      × (hashmap_get (table ss) k ≡ ok none)
      × (scan k (rotate (home ss k) ss) ≡ none)

  abbrev pub Present : Type 0
  Present =
      (j : ℕ) × (v : Option ℕ) × (hashmap_get_index (table ss) k ≡ ok (some j))
      × (hashmap_get (table ss) k ≡ ok v)
      × (scan k (rotate (home ss k) ss) ≡ some v)

  stopped_here :
      (j : ℕ) (s : Slot) (post : List Slot)
      → probe (is_other k) (home ss k) (map entry ss) ≡ ok (some j)
      → get_elem? ss j ≡ some s
      → goes_on k s ≡ false
      → scan k (rotate (home ss k) ss) ≡ scan k (s ∷ post)
      → Absent ⊎ Present
  unfolding scan
  stopped_here j none post e at stop seen =
      let absent = index_here j none e at in inl (absent, get_none absent, seen)
  stopped_here j (some (l, v)) post e at stop seen =
      let present = index_here j (some (l, v)) e at in
      let same : same_text l k ≡ true = not_false (same_text l k) stop in
      inr (j, v, present, get_here j (some (l, v)) present at, seen ∙ rw (same) refl)
    where
      not_false : (b : Bool) → not b ≡ false → b ≡ true
      not_false true e = refl
      not_false false e = cc

  -- The two ways in which a search ends.
  pub found_or_absent : Absent ⊎ Present
  found_or_absent =
      elim (probe-cases (is_other k) (goes_on k) (is_other-goes_on k) (home ss k) ss
        (omega (arith, home-lt ss k some_slots))) [
          | inl (all, ended) ↦
              let absent = index_none ended in
              inl (absent, get_none absent, scan-All k (rotate (home ss k) ss) all)
          | inr hit ↦
              stopped_here hit.slot hit.here hit.post hit.probed hit.at_slot hit.stopped
                (ap (scan k) hit.parts ∙ scan_past k hit.pre (hit.here ∷ hit.post) hit.passed)
        ]

  pub hashmap_get-scan :
      hashmap_get (table ss) k
      ≡ ok (elim (scan k (rotate (home ss k) ss)) [ none ↦ none | some v ↦ v ])
  hashmap_get-scan = elim found_or_absent [
    | inl (absent, get, seen) ↦ get ∙ rw (seen) refl
    | inr (j, v, present, get, seen) ↦ get ∙ rw (seen) refl
  ]

  pub absent-scan : hashmap_get_index (table ss) k ≡ ok none → scan k (rotate (home ss k) ss) ≡ none
  absent-scan none_there = elim found_or_absent [
    | inl (absent, get, seen) ↦ seen
    | inr (j, v, present, get, seen) ↦ cc
  ]
