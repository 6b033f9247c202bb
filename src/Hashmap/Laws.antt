-- ===== src/Hashmap/Laws.antt =====
-- libs/hashmap/hashmap.c: `hashmap_add`, then `hashmap_get`.
use chowder.Prelude.{
  ℕ, zero, suc, ◌+◌, ◌*◌, ◌%◌, ◌<◌, ◌≡◌, refl, ap, ◌∙◌, false, List, [], ◌∷◌, Option, none, some,
  leb, length, length-map, length-set, take, drop, set, All, All-append, length-replicate,
  replicate, ok, ◌>>=◌, arith,
}
use chowder.Prelude.Text.{same_text}
use chowder.Hashmap.{Key, text, fnv1a, insert, hashmap_add}
use chowder.Hashmap.Slots.{Slot, entry, count, table, rotate, scan, IsNot, NoGap}
use chowder.Hashmap.Search.{home}
use chowder.Hashmap.Keys.{Distinct, Distinct-set, rotated-absent}
use chowder.Hashmap.Fill.{count-set, NoGaps, filled, other_scan, own_scan, filled-NoGaps}

-- A table with slots, in which no key comes twice and each is found from its own slot on.
pub record IsMap (ss : List Slot) : Type 0 where
  pub some_slots : 0 < length ss
  pub no_gaps : NoGaps ss
  pub distinct : Distinct ss

-- A key is inserted where there is room.
pub record Inserted (ss : List Slot) (k : List ℕ) (v : Option ℕ) : Type 0 where
  pub slots : List Slot
  pub result : insert (table ss) (text k) v ≡ ok (table slots)
  pub is_map : IsMap slots
  pub same_length : length slots ≡ length ss
  pub counted : count slots ≡ count ss + 1
  pub own : scan k (rotate (home slots k) slots) ≡ some v
  pub others :
      (l : List ℕ)
      → same_text k l ≡ false
      → scan l (rotate (home slots l) slots) ≡ scan l (rotate (home ss l) ss)

pub insert_lem :
    (ss : List Slot) (k : List ℕ) (v : Option ℕ)
    → IsMap ss
    → count ss < length ss
    → scan k (rotate (home ss k) ss) ≡ none
    → Inserted ss k v
insert_lem ss k v m room absent =
    let f = filled ss k v m.some_slots m.no_gaps room in
    let ts : List Slot = set ss f.slot (some (k, v)) in
    let len : length ts ≡ length ss = length-set ss f.slot (some (k, v)) in
    let kept : (l : List ℕ) → home ts l ≡ home ss l = λ l. ap (λ (n : ℕ). fnv1a l % n) len in
    record {
      slots = ts;
      result = f.inserted;
      is_map = record {
        some_slots = omega (arith, len, m.some_slots);
        no_gaps = filled-NoGaps ss k v m.some_slots m.no_gaps f;
        distinct =
            Distinct-set k v f.slot ss (rotated-absent k (home ss k) ss (m.no_gaps k) absent)
              m.distinct;
      };
      same_length = len;
      counted = count-set ss f.slot (k, v) f.at_slot;
      own =
          ap (λ (i : ℕ). scan k (rotate i ts)) (kept k)
          ∙ own_scan ss k v m.some_slots m.no_gaps f absent;
      others = λ l other.
          ap (λ (i : ℕ). scan l (rotate i ts)) (kept l)
          ∙ (other_scan ss k v m.some_slots m.no_gaps f l other).0;
    }

-- With room, nothing is moved to a larger table.
pub hashmap_add-insert :
    (f : ℕ) (ss : List Slot) (key : Key) (v : Option ℕ)
    → count ss * 5 < length ss * 4
    → hashmap_add (suc f) (table ss) key v ≡ insert (table ss) key v
unfolding hashmap_add
hashmap_add-insert f ss key v room =
    let roomy : leb (length ss * 4) (count ss * 5) ≡ false = ground (arith, room) in
    rw (length-map ss entry, roomy, ◌>>=◌) refl

none_only : (k : List ℕ) (ss : List Slot) → All (λ s. s ≡ none) ss → NoGap k ss
unfolding NoGap
none_only k [] h = tt
none_only k (none ∷ ss) h = NotAmong ss h.1
  where
    NotAmong : (ss : List Slot) → All (λ s. s ≡ none) ss → All (IsNot k) ss
    NotAmong [] h = tt
    NotAmong (none ∷ ss) h = (tt, NotAmong ss h.1)
    NotAmong (some e ∷ ss) h = absurd (some≢none h.0)
      where
        some≢none : some e ≡ none → ⊥
        some≢none e = cc
none_only k (some e ∷ ss) h = none_only k ss h.1

All-drop : (n : ℕ) (ss : List Slot) → All (λ s. s ≡ none) ss → All (λ s. s ≡ none) (drop n ss)
All-drop zero ss h = h
All-drop (suc n) [] h = h
All-drop (suc n) (s ∷ ss) h = All-drop n ss h.1

All-take : (n : ℕ) (ss : List Slot) → All (λ s. s ≡ none) ss → All (λ s. s ≡ none) (take n ss)
All-take zero ss h = tt
All-take (suc n) [] h = tt
All-take (suc n) (s ∷ ss) h = (h.0, All-take n ss h.1)

All-replicate : (n : ℕ) → All (λ (s : Slot). s ≡ none) (replicate n none)
All-replicate zero = tt
All-replicate (suc n) = (refl, All-replicate n)

-- A new table.
pub replicate-NoGaps : (n : ℕ) → NoGaps (replicate n none)
replicate-NoGaps n k =
    let i = home (replicate n none) k in
    none_only k (rotate i (replicate n none)) (
      All-append (λ s. s ≡ none) (drop i (replicate n none)) (take i (replicate n none))
        (All-drop i (replicate n none) (All-replicate n))
        (All-take i (replicate n none) (All-replicate n)))

Distinct-replicate : (n : ℕ) → Distinct (replicate n none)
unfolding Distinct
Distinct-replicate zero = tt
Distinct-replicate (suc n) = Distinct-replicate n

-- A new table.
pub replicate-IsMap : (n : ℕ) → 0 < n → IsMap (replicate n none)
replicate-IsMap n h =
    let free : Slot = none in
    record {
      some_slots = omega (arith, length-replicate n free, h);
      no_gaps = replicate-NoGaps n;
      distinct = Distinct-replicate n;
    }
