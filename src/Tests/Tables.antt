-- ===== src/Tests/Tables.antt =====
-- libs/hashmap/hashmap.c: a small table.
use chowder.Prelude.{map, ◌>>=◌, ◌≡◌, refl, false, List, [], ◌∷◌, none, some, replicate, ok, arith}
use chowder.Prelude.Text.{same_text}
use chowder.Hashmap.{text, Hashmap, hashmap_new, hashmap_add, hashmap_get, hashmap_get_index}
use chowder.Hashmap.Slots.{Slot, entry, table}
use chowder.Hashmap.Laws.{IsMap, replicate-IsMap}
use chowder.Hashmap.Resize.{hashmap_get-hashmap_add}

abbrev six_slots : List Slot
six_slots = replicate 6 none

new_table : ◌≡◌ {A = Hashmap} (hashmap_new 5) (table six_slots)
new_table = refl

six_slots_absent : hashmap_get_index (table six_slots) (97 ∷ 98 ∷ []) ≡ ok none
unfolding hashmap_get_index chowder.Hashmap.fnv1a_from
six_slots_absent = refl

other_key : same_text (97 ∷ 98 ∷ []) (97 ∷ 99 ∷ []) ≡ false
unfolding same_text
other_key = refl

hashmap_get-hashmap_add_example :
    (ts : List Slot) × (hashmap_add 10 (table six_slots) (text (97 ∷ 98 ∷ [])) (some 7)
      ≡ ok (table ts))
    × IsMap ts
    × (hashmap_get (table ts) (97 ∷ 98 ∷ []) ≡ ok (some 7))
    × (hashmap_get (table ts) (97 ∷ 99 ∷ []) ≡ hashmap_get (table six_slots) (97 ∷ 99 ∷ []))
hashmap_get-hashmap_add_example =
    hashmap_get-hashmap_add 10 six_slots (97 ∷ 98 ∷ []) (97 ∷ 99 ∷ []) (some 7) (omega arith)
      (replicate-IsMap 6 (omega arith)) six_slots_absent other_key

-- The second key does not fit into a table with one slot, which is doubled.
doubled :
    (hashmap_add 6
        (record { occupied = 1; entries = map entry (some (97 ∷ [], some 1) ∷ []) })
        (text (98 ∷ []))
        (some 2)
      >>= λ hm. hashmap_get hm (97 ∷ []))
    ≡ ok (some 1)
unfolding hashmap_add hashmap_get chowder.Hashmap.fnv1a_from chowder.Hashmap.insert
doubled = refl
