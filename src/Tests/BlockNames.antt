-- ===== src/Tests/BlockNames.antt =====
-- libs/anvil/anvil.c: the name of a block whose properties are not in the order of their names.
use chowder.Prelude.Text.{all, codes}
use chowder.Prelude.{
  ℕ, ◌≡◌, refl, Bool, true, false, List, [], ◌∷◌, ◌++◌, some, none, if◌then◌else◌, leb, ok, Holds,
  holds, Bool-cases, inl, inr, arith, Run,
}
use chowder.Prelude.Int.{ℤ, pos}
use mathlib.Core.List.{Perm, IsChain}
use mathlib.Core.List.Perm
use chowder.Nbt.{null, chars, string, compound, empty, child, Nbt}
use chowder.Nbt.Wire
use chowder.Hashmap.{Hashmap, text}
use chowder.Anvil.{node_list, Libc, BlockTable, block_id, palette_entry_to_block_id}
use chowder.Anvil.Buffer.{properties_text, all_fine}
use chowder.Anvil.Names.{IsInOrder, ComparesNames, IsSorting, palette_entry_to_block_id_lem}

-- Texts are compared by their first characters.
abbrev first : List ℕ → ℕ
first [] = 0
first (c ∷ cs) = c

abbrev by_first : List ℕ → List ℕ → ℤ
by_first a b = if leb (first a) (first b) then pos 0 else pos 1

abbrev in_front : Nbt → Nbt → Bool
in_front p q = leb (first (Wire.text p.name)) (first (Wire.text q.name))

unfoldable insert : Nbt → List Nbt → List Nbt
insert p [] = p ∷ []
insert p (q ∷ qs) = let rest = insert p qs in if in_front p q then p ∷ q ∷ qs else q ∷ rest

unfoldable insertion_sort : List Nbt → List Nbt
insertion_sort [] = []
insertion_sort (p ∷ ps) = insert p (insertion_sort ps)

abbrev libc : Libc
libc = record { qsort = λ cmp ps. ok (insertion_sort ps); strcoll = by_first; stale = 170 }

insert-perm : (p : Nbt) (qs : List Nbt) → Perm (p ∷ qs) (insert p qs)
unfolding insert
insert-perm p [] = Perm.refl (p ∷ [])
insert-perm p (q ∷ qs) = elim (Bool-cases (in_front p q)) [
  | inl before ↦ rw before (Perm.refl (p ∷ q ∷ qs))
  | inr behind ↦ rw behind (Perm.trans (Perm.swap q p qs) (Perm.cons q (insert-perm p qs)))
]

in_front-IsInOrder : (p q : Nbt) → in_front p q ≡ true → IsInOrder libc p q
in_front-IsInOrder p q h = rw h refl

behind-IsInOrder : (p q : Nbt) → in_front p q ≡ false → IsInOrder libc q p
behind-IsInOrder p q h = in_front-IsInOrder q p (ground (arith, h))

insert_behind-IsChain :
    (p q : Nbt) (qs : List Nbt)
    → IsInOrder libc q p
    → IsChain (IsInOrder libc) (q ∷ qs)
    → IsChain (IsInOrder libc) (q ∷ insert p qs)
unfolding insert
insert_behind-IsChain p q [] h c = IsChain.cons-cons h (IsChain.singleton p)
insert_behind-IsChain p q (r ∷ qs) h (IsChain.cons-cons first c) =
    elim (Bool-cases (in_front p r)) [
      | inl before ↦
          rw before (IsChain.cons-cons h (IsChain.cons-cons (in_front-IsInOrder p r before) c))
      | inr behind ↦
          rw behind
            (IsChain.cons-cons first (insert_behind-IsChain p r qs (behind-IsInOrder p r behind) c))
    ]

insert-IsChain :
    (p : Nbt) (qs : List Nbt) → IsChain (IsInOrder libc) qs → IsChain (IsInOrder libc) (insert p qs)
unfolding insert
insert-IsChain p [] c = IsChain.singleton p
insert-IsChain p (q ∷ qs) c = elim (Bool-cases (in_front p q)) [
  | inl before ↦ rw before (IsChain.cons-cons (in_front-IsInOrder p q before) c)
  | inr behind ↦ rw behind (insert_behind-IsChain p q qs (behind-IsInOrder p q behind) c)
]

insertion_sort-IsSorting : (ps : List Nbt) → IsSorting libc ps (insertion_sort ps)
unfolding insertion_sort
insertion_sort-IsSorting [] = (Perm.refl [], IsChain.nil)
insertion_sort-IsSorting (p ∷ ps) =
    let (perm, chain) = insertion_sort-IsSorting ps in
    (
      Perm.trans (Perm.cons p perm) (insert-perm p (insertion_sort ps)),
      insert-IsChain p (insertion_sort ps) chain,
    )

qsort_sorts :
    (cmp : Nbt → Nbt → Run ℤ) (ps : List Nbt)
    → ComparesNames libc cmp
    → all_fine ps ≡ true
    → Holds (IsSorting libc ps) (libc.qsort cmp ps)
qsort_sorts cmp ps _ _ = holds (insertion_sort ps) (insertion_sort-IsSorting ps)

abbrev lit : Nbt
lit = record { name = chars (codes "lit"); value = string (chars (codes "no")) }

abbrev age : Nbt
age = record { name = chars (codes "age"); value = string (chars (codes "1")) }

abbrev table : BlockTable
table = record {
  table = record {
    occupied = 1;
    entries =
        record { removed = false; key = text (codes "air;age=1;lit=no"); value = some 7 } ∷ [];
  };
  ids = λ p. p;
}

abbrev properties : Nbt
properties = record {
  name = chars (codes "Properties");
  value = compound (child lit.name lit.value (child age.name age.value empty));
}

abbrev block : Nbt
block = record {
  name = null;
  value = compound (
      child (chars (codes "Name")) (string (chars (codes "air")))
        (child properties.name properties.value empty));
}

palette_entry_to_block_id_lem_example :
    (qs : List Nbt) × IsSorting libc (lit ∷ age ∷ []) qs
    × (palette_entry_to_block_id libc table block
        ≡ block_id table (codes "air" ++ properties_text qs))
unfolding chowder.Nbt.Search.nbt_get chowder.Nbt.Search.is_named chowder.Prelude.Text.same_text
    chowder.Nbt.Unpack.until_zero all node_list
palette_entry_to_block_id_lem_example =
    palette_entry_to_block_id_lem libc qsort_sorts table block
      (record { name = chars (codes "Name"); value = string (chars (codes "air")) })
      (some properties) (lit ∷ age ∷ []) refl refl refl refl refl

-- The table has the name with the properties in their order.
found_sorted :
    block_id table (codes "air" ++ properties_text (insertion_sort (lit ∷ age ∷ []))) ≡ ok 7
unfolding insertion_sort insert properties_text block_id chowder.Hashmap.hashmap_get
    chowder.Hashmap.fnv1a_from
found_sorted = refl
