-- ===== src/Hashmap/Fill.antt =====
-- libs/hashmap/hashmap.c: `insert` puts a key at the free slot where its search ends.
use chowder.Prelude.{
  ℕ, zero, suc, ◌+◌, ◌%◌, ◌<◌, ◌≡◌, refl, ap, ◌∙◌, sym, inl, inr, Bool, true, false, Bool-cases,
  List, [], ◌∷◌, ◌++◌, map, Option, none, some, length, length-append, length-set, take, drop,
  take-append-drop, set, get_elem?, All, Run, ok, need, ◌>>=◌, arith,
}
use mathlib.Core.Path.{transport}
use chowder.Prelude.Text.{same_text, same_text_eq}
use chowder.Prelude.Slices.{get_elem?-map, map-set}
use chowder.Hashmap.{text, fnv1a, has_key, probe, insert}
use chowder.Hashmap.Slots.{
  Slot, entry, count, table, rotate, scan, NoGap, IsTaken, scan-set, NoGap-set, scan-filled,
  NoGap-filled, rotate-set,
}
use chowder.Hashmap.Probe.{probe-cases}
use chowder.Hashmap.Search.{home, home-lt, hashmap_index-home}

abbrev pub takes : Slot → Bool
takes none = false
takes (some e) = true

pub has_key-takes : (s : Slot) → ◌≡◌ {A = Run Bool} (ok (has_key (entry s).key)) (ok (takes s))
has_key-takes none = refl
has_key-takes (some e) = refl

pub count-All : (ss : List Slot) → All (λ s. takes s ≡ true) ss → count ss ≡ length ss
count-All [] h = refl
count-All (none ∷ ss) h = absurd (true≢false h.0)
  where
    true≢false : ◌≡◌ {A = Bool} false true → ⊥
    true≢false e = cc
count-All (some e ∷ ss) h = ap suc (count-All ss h.1)

count-append : (xs ys : List Slot) → count (xs ++ ys) ≡ count xs + count ys
count-append [] ys = omega arith
count-append (none ∷ xs) ys = count-append xs ys
count-append (some e ∷ xs) ys = omega (arith, count-append xs ys)

pub count-rotate : (i : ℕ) (ss : List Slot) → count (rotate i ss) ≡ count ss
count-rotate i ss = omega (
  arith,
  count-append (drop i ss) (take i ss),
  count-append (take i ss) (drop i ss),
  ap count (take-append-drop i ss),
)

pub count-set :
    (ss : List Slot) (j : ℕ) (e : List ℕ × Option ℕ)
    → get_elem? ss j ≡ some none
    → count (set ss j (some e)) ≡ count ss + 1
count-set [] j e h = cc
count-set (none ∷ ss) zero e h = omega arith
count-set (some d ∷ ss) zero e h = cc
count-set (none ∷ ss) (suc j) e h = count-set ss j e h
count-set (some d ∷ ss) (suc j) e h = omega (arith, count-set ss j e h)

-- No search for a key ends before the slot that holds it.
abbrev pub NoGaps : List Slot → Type 0
NoGaps ss = (k : List ℕ) → NoGap k (rotate (home ss k) ss)

insert-hit :
    (ss : List Slot) (k : List ℕ) (v : Option ℕ) (j : ℕ)
    → 0 < length ss
    → probe (λ e. ok (has_key e.key)) (home ss k) (map entry ss) ≡ ok (some j)
    → get_elem? ss j ≡ some none
    → insert (table ss) (text k) v ≡ ok (table (set ss j (some (k, v))))
unfolding insert
insert-hit ss k v j h e at =
    rw
      (
        hashmap_index-home ss k h,
        ◌>>=◌,
        e,
        ◌>>=◌,
        need,
        ◌>>=◌,
        get_elem?-map entry ss j none at,
        ◌>>=◌,
        map-set entry ss j (some (k, v)),
        sym (count-set ss j (k, v) at),
      )
      refl

free_slot : (s : Slot) → takes s ≡ false → s ≡ none
free_slot none h = refl
free_slot (some e) h = cc

module _ (ss : List Slot) (k : List ℕ) (v : Option ℕ) (some_slots : 0 < length ss)
    (gaps : NoGaps ss) where
  -- A slot that is filled where the search for its key ends.
  pub record Filled : Type 0 where
    pub slot : ℕ
    inside : slot < length ss
    pub at_slot : get_elem? ss slot ≡ some none
    pre : List Slot
    post : List Slot
    taken : All IsTaken pre
    parts : rotate (home ss k) ss ≡ pre ++ (none ∷ post)
    replaced : (t : Slot) → rotate (home ss k) (set ss slot t) ≡ pre ++ (t ∷ post)
    pub inserted : insert (table ss) (text k) v ≡ ok (table (set ss slot (some (k, v))))

  All-IsTaken : (pre : List Slot) → All (λ s. takes s ≡ true) pre → All IsTaken pre
  All-IsTaken [] h = tt
  All-IsTaken (none ∷ pre) h = absurd (true≢false h.0)
    where
      true≢false : ◌≡◌ {A = Bool} false true → ⊥
      true≢false e = cc
  All-IsTaken (some e ∷ pre) h = (tt, All-IsTaken pre h.1)

  pub filled : count ss < length ss → Filled
  filled room =
      elim (probe-cases (λ e. ok (has_key e.key)) takes has_key-takes (home ss k) ss
        (omega (arith, home-lt ss k some_slots))) [
          | inl (all, ended) ↦ absurd (
              omega (
                arith,
                room,
                count-All (rotate (home ss k) ss) all,
                count-rotate (home ss k) ss,
                length-append (drop (home ss k) ss) (take (home ss k) ss),
                length-append (take (home ss k) ss) (drop (home ss k) ss),
                ap length (take-append-drop (home ss k) ss),
              ))
          | inr hit ↦
              let free = free_slot hit.here hit.stopped in
              let at : get_elem? ss hit.slot ≡ some none =
                hit.at_slot ∙ ap (λ (s : Slot). some s) free in
              record {
                slot = hit.slot;
                inside = hit.inside;
                at_slot = at;
                pre = hit.pre;
                post = hit.post;
                taken = All-IsTaken hit.pre hit.passed;
                parts = hit.parts ∙ ap (λ (s : Slot). hit.pre ++ (s ∷ hit.post)) free;
                replaced = hit.replaced;
                inserted = insert-hit ss k v hit.slot some_slots hit.probed at;
              }
        ]

  -- Another key's search.
  pub other_scan :
      (f : Filled) (l : List ℕ)
      → same_text k l ≡ false
      → (scan l (rotate (home ss l) (set ss f.slot (some (k, v)))) ≡ scan l (rotate (home ss l) ss))
        × NoGap l (rotate (home ss l) (set ss f.slot (some (k, v))))
  other_scan f l other =
      let (m, moved, at) =
        rotate-set (home ss l) f.slot ss (some (k, v)) (omega (arith, home-lt ss l some_slots))
          f.inside in
      (
        ap (scan l) moved
            ∙ scan-set l k v m (rotate (home ss l) ss) other (at ∙ f.at_slot) (gaps l),
        transport (ap (NoGap l) (sym moved))
            (NoGap-set l k v m (rotate (home ss l) ss) other (gaps l)),
      )

  pub own_scan :
      (f : Filled)
      → scan k (rotate (home ss k) ss) ≡ none
      → scan k (rotate (home ss k) (set ss f.slot (some (k, v)))) ≡ some v
  own_scan f absent =
      ap (scan k) (f.replaced (some (k, v)))
      ∙ scan-filled k v f.pre f.post f.taken (ap (scan k) (sym f.parts) ∙ absent)

  own_gap : (f : Filled) → NoGap k (rotate (home ss k) (set ss f.slot (some (k, v))))
  own_gap f =
      transport (ap (NoGap k) (sym (f.replaced (some (k, v)))))
        (NoGap-filled k v f.pre f.post f.taken (transport (ap (NoGap k) f.parts) (gaps k)))

  pub filled-NoGaps : (f : Filled) → NoGaps (set ss f.slot (some (k, v)))
  filled-NoGaps f l =
      let home_kept : home ss l ≡ home (set ss f.slot (some (k, v))) l =
        ap (λ (n : ℕ). fnv1a l % n) (sym (length-set ss f.slot (some (k, v)))) in
      transport (ap (λ (i : ℕ). NoGap l (rotate i (set ss f.slot (some (k, v))))) home_kept)
        (elim (Bool-cases (same_text k l)) [
          | inl same ↦
              transport
                (ap (λ t. NoGap t (rotate (home ss t) (set ss f.slot (some (k, v)))))
                  (same_text_eq k l same))
                (own_gap f)
          | inr other ↦ (other_scan f l other).1
        ])
