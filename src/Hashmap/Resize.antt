-- ===== src/Hashmap/Resize.antt =====
-- libs/hashmap/hashmap.c: `hashmap_resize`, and `hashmap_add` whether the table is full or not.
use chowder.Prelude.{
  ℕ, zero, suc, ◌+◌, ◌*◌, ◌≤◌, ◌<◌, ◌≡◌, refl, ap, ◌∙◌, sym, inl, inr, true, false, Bool-cases,
  List, [], ◌∷◌, map, Option, none, some, if◌then◌else◌, leb, length, length-map, length-replicate,
  replicate, All, Run, ok, ◌>>=◌, arith,
}
use chowder.Prelude.Text.{same_text, same_text_eq}
use chowder.Hashmap.{
  Key, text, free_entry, Hashmap, hashmap_get_index, hashmap_get, insert, hashmap_add,
  hashmap_resize, add_all,
}
use chowder.Hashmap.Slots.{Slot, entry, count, table, rotate, scan, IsNot}
use chowder.Hashmap.Search.{home, hashmap_get-scan, absent-scan}
use chowder.Hashmap.Keys.{Distinct, lookup, lookup-absent, lookup-rotate, scan-lookup, IsNot_comm}
use chowder.Hashmap.Laws.{IsMap, Inserted, insert_lem, hashmap_add-insert, replicate-IsMap}

-- What a search for a key finds in the table.
abbrev pub value_of : List ℕ → List Slot → Option (Option ℕ)
value_of k ss = scan k (rotate (home ss k) ss)

value_of-lookup : (k : List ℕ) (ss : List Slot) → IsMap ss → value_of k ss ≡ lookup k ss
value_of-lookup k ss m =
    scan-lookup k (rotate (home ss k) ss) (m.no_gaps k) ∙ lookup-rotate k (home ss k) ss m.distinct

-- None of the keys in these slots is in the table.
AllAbsent : List Slot → List Slot → Type 0
AllAbsent [] old = Unit
AllAbsent (none ∷ ss) old = AllAbsent ss old
AllAbsent (some (k, v) ∷ ss) old = (value_of k old ≡ none) × AllAbsent ss old

later_value : Option (Option ℕ) → Option (Option ℕ) → Option (Option ℕ)
later_value none before = before
later_value (some v) before = some v

AllAbsent-insert :
    (ss old : List Slot) (k : List ℕ) (v : Option ℕ) (i : Inserted old k v)
    → All (IsNot k) ss
    → AllAbsent ss old
    → AllAbsent ss i.slots
unfolding AllAbsent
AllAbsent-insert [] old k v i h a = tt
AllAbsent-insert (none ∷ ss) old k v i h a = AllAbsent-insert ss old k v i h.1 a
AllAbsent-insert (some (l, w) ∷ ss) old k v i h a =
    (i.others l (IsNot_comm k l h.0) ∙ a.0, AllAbsent-insert ss old k v i h.1 a.1)

record Moved (ss old : List Slot) (f : ℕ) : Type 0 where
  slots : List Slot
  result : add_all f (table old) (map entry ss) ≡ ok (table slots)
  is_map : IsMap slots
  same_length : length slots ≡ length old
  counted : count slots ≡ count old + count ss
  values : (l : List ℕ) → value_of l slots ≡ later_value (lookup l ss) (value_of l old)

-- The values after one entry and then the others.
moved_values :
    (ss old : List Slot) (k : List ℕ) (v : Option ℕ) (i : Inserted old k v) (l : List ℕ)
    → All (IsNot k) ss
    → later_value (lookup l ss) (value_of l i.slots)
      ≡ later_value (if same_text k l then some v else lookup l ss) (value_of l old)
unfolding later_value
moved_values ss old k v i l h = elim (Bool-cases (same_text k l)) [
  | inl same ↦
      ap (λ t. later_value (lookup t ss) (value_of t i.slots)) (sym (same_text_eq k l same))
      ∙ rw (lookup-absent k ss h, i.own) (rw (same) refl)
  | inr other ↦ rw (other, i.others l other) refl
]

moved :
    (f : ℕ) (ss old : List Slot)
    → length ss + 1 < f
    → IsMap old
    → (count old + count ss) * 5 ≤ length old * 4
    → Distinct ss
    → AllAbsent ss old
    → Moved ss old f
unfolding add_all Distinct AllAbsent lookup later_value
moved zero ss old enough m room d a = absurd (omega (arith, enough))
moved (suc f) [] old enough m room d a = record {
  slots = old;
  result = refl;
  is_map = m;
  same_length = refl;
  counted = omega arith;
  values = λ l. refl;
}
moved (suc f) (none ∷ ss) old enough m room d a =
    let r = moved f ss old (omega (arith, enough)) m room d a in
    record {
      slots = r.slots;
      result = r.result;
      is_map = r.is_map;
      same_length = r.same_length;
      counted = r.counted;
      values = r.values;
    }
moved (suc zero) (some (k, v) ∷ ss) old enough m room d a = absurd (omega (arith, enough))
moved (suc (suc f)) (some (k, v) ∷ ss) old enough m room d a =
    let i = insert_lem old k v m (omega (arith, room)) a.0 in
    let r =
      moved (suc f) ss i.slots (omega (arith, enough)) i.is_map
        (omega (arith, room, i.counted, i.same_length)) d.1
        (AllAbsent-insert ss old k v i d.0 a.1) in
    record {
      slots = r.slots;
      result =
          rw (hashmap_add-insert f old (text k) v (omega (arith, room)), i.result, ◌>>=◌) r.result;
      is_map = r.is_map;
      same_length = r.same_length ∙ i.same_length;
      counted = omega (arith, r.counted, i.counted);
      values = λ l. r.values l ∙ moved_values ss old k v i l d.0;
    }

lookup-replicate : (k : List ℕ) (n : ℕ) → lookup k (replicate n none) ≡ none
unfolding lookup
lookup-replicate k zero = refl
lookup-replicate k (suc n) = lookup-replicate k n

value_of-replicate : (k : List ℕ) (n : ℕ) → 0 < n → value_of k (replicate n none) ≡ none
value_of-replicate k n h =
    value_of-lookup k (replicate n none) (replicate-IsMap n h) ∙ lookup-replicate k n

AllAbsent-replicate : (ss : List Slot) (n : ℕ) → 0 < n → AllAbsent ss (replicate n none)
unfolding AllAbsent
AllAbsent-replicate [] n h = tt
AllAbsent-replicate (none ∷ ss) n h = AllAbsent-replicate ss n h
AllAbsent-replicate (some (k, v) ∷ ss) n h = (value_of-replicate k n h, AllAbsent-replicate ss n h)

count-replicate : (n : ℕ) → count (replicate n none) ≡ 0
count-replicate zero = refl
count-replicate (suc n) = count-replicate n

map-replicate : (n : ℕ) → map entry (replicate n none) ≡ replicate n free_entry
map-replicate zero = refl
map-replicate (suc n) = ap (λ t. free_entry ∷ t) (map-replicate n)

count-length : (ss : List Slot) → count ss ≤ length ss
count-length [] = omega arith
count-length (none ∷ ss) = omega (arith, count-length ss)
count-length (some e ∷ ss) = omega (arith, count-length ss)

nothing_before : (p : Option (Option ℕ)) → later_value p none ≡ p
unfolding later_value
nothing_before none = refl
nothing_before (some v) = refl

-- The table that `hashmap_resize` makes has the same values.
record Grown (ss : List Slot) (f : ℕ) : Type 0 where
  slots : List Slot
  result : hashmap_resize (suc f) (table ss) ≡ ok (table slots)
  is_map : IsMap slots
  room : count slots < length slots
  values : (l : List ℕ) → value_of l slots ≡ value_of l ss

grown : (f : ℕ) (ss : List Slot) → length ss + 1 < f → IsMap ss → Grown ss f
unfolding hashmap_resize
grown f ss enough m =
    let n = length ss * 2 in
    let free : Slot = none in
    let new = replicate n free in
    let some_new : 0 < n = omega (arith, m.some_slots) in
    let r =
      moved f ss new enough (replicate-IsMap n some_new)
        (omega (arith, count-replicate n, count-length ss, length-replicate n free)) m.distinct
        (AllAbsent-replicate ss n some_new) in
    record {
      slots = r.slots;
      result = rw (length-map ss entry, sym (map-replicate n), sym (count-replicate n)) r.result;
      is_map = r.is_map;
      room = omega (
        arith,
        r.counted,
        count-replicate n,
        count-length ss,
        r.same_length,
        length-replicate n free,
        m.some_slots,
      );
      values = λ l.
          r.values l
          ∙ ap (later_value (lookup l ss)) (value_of-replicate l n some_new)
          ∙ nothing_before (lookup l ss)
          ∙ sym (value_of-lookup l ss m);
    }

hashmap_add-grown :
    (f : ℕ) (ss ts : List Slot) (key : Key) (v : Option ℕ)
    → leb (length ss * 4) (count ss * 5) ≡ true
    → hashmap_resize (suc f) (table ss) ≡ ok (table ts)
    → hashmap_add (suc (suc f)) (table ss) key v ≡ insert (table ts) key v
unfolding hashmap_add
hashmap_add-grown f ss ts key v full e =
    ap
      (λ (m : Run Hashmap).
        (if leb (length (map entry ss) * 4) (count ss * 5) then m else ok (table ss)) >>= λ room.
        insert room key v)
      e
    ∙ rw (length-map ss entry, full, ◌>>=◌) refl

abbrev Added : ℕ → List Slot → List ℕ → List ℕ → Option ℕ → Type 0
Added f ss k l v =
    (ts : List Slot) × (hashmap_add f (table ss) (text k) v ≡ ok (table ts))
    × IsMap ts
    × (hashmap_get (table ts) k ≡ ok v)
    × (hashmap_get (table ts) l ≡ hashmap_get (table ss) l)

-- The insertion into a table with the same values.
added :
    (f : ℕ) (ss bs : List Slot) (k l : List ℕ) (v : Option ℕ)
    → IsMap ss
    → IsMap bs
    → count bs < length bs
    → ((t : List ℕ) → value_of t bs ≡ value_of t ss)
    → hashmap_add f (table ss) (text k) v ≡ insert (table bs) (text k) v
    → value_of k ss ≡ none
    → same_text k l ≡ false
    → Added f ss k l v
added f ss bs k l v m n room values step absent other =
    let i = insert_lem bs k v n room (values k ∙ absent) in
    (
      i.slots,
      step ∙ i.result,
      i.is_map,
      hashmap_get-scan i.slots k i.is_map.some_slots ∙ rw (i.own) refl,
      hashmap_get-scan i.slots l i.is_map.some_slots
          ∙ ap (λ (o : Option (Option ℕ)). ok (elim o [ none ↦ none | some w ↦ w ]))
              (i.others l other ∙ values l)
          ∙ sym (hashmap_get-scan ss l m.some_slots),
    )

-- In a table with slots from which nothing was removed, in which no key comes twice and none stands
-- behind a free slot of its own search, and which does not have the key, with fuel of four more
-- than it has slots: `hashmap_add` succeeds, whether it moves all entries to a table of twice the
-- size or not, the new table is such a table too, `hashmap_get` returns the value for the key, and
-- for another key what it returned before.
pub hashmap_get-hashmap_add :
    (f : ℕ) (ss : List Slot) (k l : List ℕ) (v : Option ℕ)
    → length ss + 4 ≤ f
    → IsMap ss
    → hashmap_get_index (table ss) k ≡ ok none
    → same_text k l ≡ false
    → (ts : List Slot) × (hashmap_add f (table ss) (text k) v ≡ ok (table ts))
      × IsMap ts
      × (hashmap_get (table ts) k ≡ ok v)
      × (hashmap_get (table ts) l ≡ hashmap_get (table ss) l)
hashmap_get-hashmap_add zero ss k l v enough m absent other = absurd (omega (arith, enough))
hashmap_get-hashmap_add (suc zero) ss k l v enough m absent other = absurd (omega (arith, enough))
hashmap_get-hashmap_add (suc (suc f)) ss k l v enough m absent other =
    let none_there = absent-scan ss k m.some_slots absent in
    elim (Bool-cases (leb (length ss * 4) (count ss * 5))) [
      | inl full ↦
          let g = grown f ss (omega (arith, enough)) m in
          added (suc (suc f)) ss g.slots k l v m g.is_map g.room g.values
            (hashmap_add-grown f ss g.slots (text k) v full g.result) none_there other
      | inr roomy ↦
          let room : count ss * 5 < length ss * 4 = ground (arith, roomy) in
          added (suc (suc f)) ss ss k l v m m (omega (arith, room)) (λ t. refl)
            (hashmap_add-insert (suc f) ss (text k) v room) none_there other
    ]
