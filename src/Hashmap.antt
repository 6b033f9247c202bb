-- ===== src/Hashmap.antt =====
-- libs/hashmap/hashmap.c: a table with open addressing. A slot's number is its place in the list. A
-- value is a pointer that is only handed on; `none` is NULL.
pub mod Slots
pub mod Probe
pub mod Search
pub mod Fill
pub mod Keys
pub mod Resize
pub mod Laws
use chowder.Prelude.{
  ℕ, zero, suc, ◌+◌, ◌-◌, ◌*◌, ◌/◌, ◌%◌, ◌^◌, Bool, true, false, not, ◌&&◌, List, [], ◌∷◌, Option,
  none, some, if◌then◌else◌, ltb, leb, ◌==◌, length, take, drop, set, get_elem?, replicate, Run, ok,
  fault, need, assert, assertion, out_of_bounds, use_after_free, division_by_zero, null_pointer,
  no_fuel, ◌>>=◌, ◌>>◌,
}
use Prim.Native.Nat.{bit_xor}
use chowder.Prelude.Text.{same_text}

-- A `char *`: NULL, a string, or one that was freed.
pub data Key : Type 0 where
  null_key freed_key : Key
  text : List ℕ → Key

pub record HashmapEntry : Type 0 where
  pub removed : Bool
  pub key : Key
  pub value : Option ℕ

pub record Hashmap : Type 0 where
  pub occupied : ℕ
  pub entries : List HashmapEntry

-- What `calloc` leaves.
abbrev pub free_entry : HashmapEntry
free_entry = record { removed = false; key = null_key; value = none }

-- The length is `elems + elems * (1 - 0.8)`, a `double` that is cut off.
abbrev pub hashmap_new : ℕ → Hashmap
hashmap_new elems = record { occupied = 0; entries = replicate (elems * 6 / 5) free_entry }

-- A `char` is signed: from 128 on it is extended by ones.
abbrev pub fnv1a_step : ℕ → ℕ → ℕ
fnv1a_step hash c =
    bit_xor hash (if ltb c 128 then c else c + 2 ^ 64 - 2 ^ 8) * 0x100000001b3 % 2 ^ 64

unfoldable pub fnv1a_from : ℕ → List ℕ → ℕ
fnv1a_from hash [] = hash
fnv1a_from hash (c ∷ cs) = fnv1a_from (fnv1a_step hash c) cs

abbrev pub fnv1a : List ℕ → ℕ
fnv1a key = fnv1a_from 0xcbf29ce484222325 key

abbrev pub key_text : Key → Run (List ℕ)
key_text null_key = fault null_pointer
key_text freed_key = fault use_after_free
key_text (text cs) = ok cs

unfoldable pub hashmap_index : Hashmap → List ℕ → Run ℕ
hashmap_index hm key =
    if length hm.entries == 0 then fault division_by_zero else ok (fnv1a key % length hm.entries)

-- `while (j < ... && test(entries[j])) ++j`, over the entries from `j` on.
unfoldable pub skip_while : (HashmapEntry → Run Bool) → ℕ → List HashmapEntry → Run ℕ
skip_while test j [] = ok j
skip_while test j (e ∷ es) =
    let more = skip_while test (suc j) es in do b ← test e; if b then more else ok j

-- Both loops of a search from `i` on: the slot it ends at, or `none` where it is back at `i`.
unfoldable pub probe : (HashmapEntry → Run Bool) → ℕ → List HashmapEntry → Run (Option ℕ)
unfolding skip_while
probe test i es =
    let again = do j ← skip_while test 0 (take i es); ok (if j == i then none else some j)
    in do j ← skip_while test i (drop i es); if j == length es then again else ok (some j)

abbrev pub has_key : Key → Bool
has_key null_key = false
has_key freed_key = true
has_key (text cs) = true

-- The part of `hashmap_add` behind the test of the load.
unfoldable pub insert : Hashmap → Key → Option ℕ → Run Hashmap
unfolding probe hashmap_index
insert hm key value = do
  cs ← key_text key
  i ← hashmap_index hm cs
  slot ← probe (λ e. ok (has_key e.key)) i hm.entries
  j ← need assertion slot
  e ← need out_of_bounds (get_elem? hm.entries j)
  assert (not (has_key e.key))
  assert (elim e.value [ none ↦ true | some v ↦ false ])
  ok (record {
    occupied = hm.occupied + 1;
    entries = set hm.entries j (record { removed = false; key = key; value = value });
  })

-- `hashmap_resize` calls `hashmap_add` and is called by it: the fuel bounds how deep.
unfoldable mutual
  pub hashmap_add : ℕ → Hashmap → Key → Option ℕ → Run Hashmap
  hashmap_add zero hm key value = fault no_fuel
  hashmap_add (suc f) hm key value =
      let grown = hashmap_resize f hm in
      do
        room ← if leb (length hm.entries * 4) (hm.occupied * 5) then grown else ok hm
        insert room key value

  pub hashmap_resize : ℕ → Hashmap → Run Hashmap
  hashmap_resize zero hm = fault no_fuel
  hashmap_resize (suc f) hm =
      add_all f (record { occupied = 0; entries = replicate (length hm.entries * 2) free_entry })
        hm.entries

  -- The loop of `hashmap_resize`.
  pub add_all : ℕ → Hashmap → List HashmapEntry → Run Hashmap
  add_all zero hm es = fault no_fuel
  add_all (suc f) hm [] = ok hm
  add_all (suc f) hm (e ∷ es) =
      let added = hashmap_add f hm e.key e.value in
      do next ← if has_key e.key then added else ok hm; add_all f next es

-- `key != NULL && strcmp(key, searched)`
abbrev pub key_differs : List ℕ → Key → Run Bool
key_differs searched null_key = ok false
key_differs searched freed_key = fault use_after_free
key_differs searched (text cs) = ok (not (same_text cs searched))

abbrev pub is_other : List ℕ → HashmapEntry → Run Bool
is_other searched e = if e.removed then ok true else key_differs searched e.key

-- `none` is `entries_len`.
unfoldable pub hashmap_get_index : Hashmap → List ℕ → Run (Option ℕ)
unfolding probe hashmap_index same_text
hashmap_get_index hm key =
    let check = λ (j : ℕ). do
      e ← need out_of_bounds (get_elem? hm.entries j)
      ok (if has_key e.key then some j else none)
    in do
      i ← hashmap_index hm key
      slot ← probe (is_other key) i hm.entries
      elim slot [ none ↦ ok none | some j ↦ check j ]

unfoldable pub hashmap_get : Hashmap → List ℕ → Run (Option ℕ)
unfolding hashmap_get_index
hashmap_get hm key =
    let found = λ (j : ℕ). do e ← need out_of_bounds (get_elem? hm.entries j); ok e.value
    in do slot ← hashmap_get_index hm key; elim slot [ none ↦ ok none | some j ↦ found j ]

-- The value that was removed, and the map.
unfoldable pub hashmap_remove : Hashmap → List ℕ → Run (Option ℕ × Hashmap)
unfolding hashmap_get_index
hashmap_remove hm key =
    let found = λ (j : ℕ). do
      e ← need out_of_bounds (get_elem? hm.entries j)
      ok (
        e.value,
        record {
          occupied = (hm.occupied + 2 ^ 64 - 1) % 2 ^ 64;
          entries = set hm.entries j (record { removed = true; key = freed_key; value = none });
        },
      )
    in do slot ← hashmap_get_index hm key; elim slot [ none ↦ ok (none, hm) | some j ↦ found j ]

-- `free` of a key.
abbrev pub free_key : Key → Run (Unit {0})
free_key freed_key = fault use_after_free
free_key _ = ok tt

-- The values that `free_item` is called with.
unfoldable pub free_entries : Bool → List HashmapEntry → Run (List (Option ℕ))
free_entries free_keys [] = ok []
free_entries free_keys (e ∷ es) =
    let rest = free_entries free_keys es in
    let freed = do
      (if free_keys then free_key e.key else ok tt)
      values ← rest
      ok (e.value ∷ values)
    in if has_key e.key then freed else rest

unfoldable pub hashmap_free : Hashmap → Bool → Run (List (Option ℕ))
unfolding free_entries
hashmap_free hm free_keys = free_entries free_keys hm.entries

abbrev pub hashmap_occupied : Hashmap → ℕ
hashmap_occupied hm = hm.occupied

-- The keys and values that `do_func` is called with.
unfoldable pub hashmap_apply : List HashmapEntry → List (Key × Option ℕ)
hashmap_apply [] = []
hashmap_apply (e ∷ es) =
    let rest = hashmap_apply es in if has_key e.key then (e.key, e.value) ∷ rest else rest
