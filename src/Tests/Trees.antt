-- ===== src/Tests/Trees.antt =====
-- libs/nbt/nbt.c: a tree of tags, and inputs that announce more than they hold.
use chowder.Prelude.{
  Holds, ℕ, ◌<◌, ◌≡◌, ◌≢◌, refl, List, [], ◌∷◌, ◌++◌, length, true, false, some, none, ok, fault,
  out_of_bounds, arith,
}
use chowder.Prelude.Int.{pos}
use chowder.Prelude.Bytes.{be_bytes}
use chowder.Nbt.{
  null, Name, chars, elements, t_byte, t_int, list, compound, int_array, Children, empty, child,
  Nbt, tag_compound,
}
use chowder.Nbt.Read.{nbt_read_items, nbt_read_array}
use chowder.Nbt.Unpack.{nbt_unpack, nbt_free}
use chowder.Nbt.Pack.{nbt_pack}
use chowder.Nbt.Search.{nbt_get, nbt_find}
use chowder.Nbt.Wire.{IsText, Fits, ItemsFit, ChildrenFit, wire_name, wire_children, children_nodes}
use chowder.Nbt.Written.{root_bytes, nbt_pack-root_bytes}
use chowder.Nbt.Whole.{nbt_unpack-nbt_pack}
use chowder.Nbt.Found.{nodes_of, first, nbt_get-nbt_find-first}
use chowder.Nbt.Freed.{blocks_of, nbt_free_lem}
use mathlib.Core.List.{Perm}
use chowder.Nbt.Hostile.{nbt_read_array_over_read, nbt_read_items_forever}

abbrev letter : ℕ → Name
letter c = chars (c ∷ [])

letter-IsText : (c : ℕ) → 0 < c → c < 256 → IsText (c ∷ [])
letter-IsText c h k = record {
  nonzero = ((h, k), tt);
  some_chars = omega arith;
  short = omega arith;
}

-- A byte `a`, and a compound `b` that holds a list of two compounds and an array.
abbrev inner : Children
inner = child (letter 97) (t_int 7) empty

abbrev level : Children
level = child (letter 97) (t_byte 5) (
    child (letter 98)
      (compound (
        child (letter 99)
          (list tag_compound (child null (compound inner) (child null (compound empty) empty)))
          (child (letter 100) (int_array (elements (1 ∷ 2 ∷ []))) empty)))
      empty)

abbrev root : Nbt
root = record { name = letter 120; value = compound level }

level-ChildrenFit : ChildrenFit level
unfolding Fits chowder.Nbt.Pack.list_len
level-ChildrenFit =
    let a = letter-IsText 97 (omega arith) (omega arith) in
    let fit : ChildrenFit inner = (a, omega arith, tt) in
    let items : ItemsFit tag_compound
        (child null (compound inner) (child null (compound empty) empty)) =
      (refl, refl, fit, (refl, refl, tt, tt)) in
    let c = letter-IsText 99 (omega arith) (omega arith) in
    let d = letter-IsText 100 (omega arith) (omega arith) in
    let numbers : Fits (int_array (elements (1 ∷ 2 ∷ []))) =
      ((omega arith, (omega arith, tt)), omega arith, omega arith) in
    let held : Fits
        (list tag_compound (child null (compound inner) (child null (compound empty) empty))) =
      (omega arith, items, omega arith) in
    (
      a,
      omega arith,
      (letter-IsText 98 (omega arith) (omega arith), (c, held, (d, numbers, tt)), tt),
    )

root_name-IsText : IsText (120 ∷ [])
root_name-IsText = letter-IsText 120 (omega arith) (omega arith)

nbt_pack-root_bytes_example : nbt_pack root ≡ ok (root_bytes (letter 120) level)
nbt_pack-root_bytes_example =
    nbt_pack-root_bytes (letter 120) level root_name-IsText level-ChildrenFit

packed_length : length (root_bytes (letter 120) level) ≡ 50
unfolding wire_name wire_children be_bytes chowder.Nbt.Wire.wire_elements
    chowder.Nbt.Pack.write_elements chowder.Nbt.Pack.list_len
packed_length = refl

level_nodes : children_nodes level ≡ 20
unfolding children_nodes
level_nodes = refl

nbt_unpack-nbt_pack_example :
    (bytes : List ℕ) × (nbt_pack root ≡ ok bytes)
    × (nbt_unpack 20 60 (bytes ++ (9 ∷ [])) ≡ ok (some (length bytes, root)))
nbt_unpack-nbt_pack_example =
    nbt_unpack-nbt_pack (letter 120) level 20 60 (9 ∷ []) root_name-IsText level-ChildrenFit
      (omega (arith, level_nodes)) (omega (arith, packed_length)) (omega arith)

nbt_get-nbt_find-first_example :
    (nbt_get 3 (97 ∷ []) root ≡ ok (first 3 (97 ∷ []) (nodes_of false level)))
    × (nbt_find 3 (97 ∷ []) root ≡ ok (first 3 (97 ∷ []) (nodes_of true level)))
nbt_get-nbt_find-first_example =
    nbt_get-nbt_find-first 3 (97 ∷ []) (letter 120) level level-ChildrenFit

-- The number in the list of compounds is found below, and is no child of the root.
found_below : nbt_find 3 (97 ∷ []) root ≡ ok (some (record { name = letter 97; value = t_int 7 }))
unfolding nbt_find chowder.Nbt.Search.is_named
found_below = refl

no_child : nbt_get 3 (97 ∷ []) root ≡ ok none
unfolding nbt_get chowder.Nbt.Search.is_named
no_child = refl

nbt_free_lem_example : Holds (Perm (blocks_of root)) (nbt_free root)
nbt_free_lem_example = nbt_free_lem (letter 120) level root_name-IsText level-ChildrenFit

-- A length of 100 bytes, and three bytes behind it.
nbt_read_array_over_read_example :
    nbt_read_array 1 7 (be_bytes 4 100 ++ (1 ∷ 2 ∷ 3 ∷ [])) ≡ fault out_of_bounds
nbt_read_array_over_read_example =
    nbt_read_array_over_read 1 100 (1 ∷ 2 ∷ 3 ∷ []) (omega arith) (omega arith) (omega arith)
      (omega arith)

nbt_read_items_forever_example :
    nbt_read_items 1000 1 (pos 0) (pos 40000) 5 8 (1 ∷ 0 ∷ 0 ∷ 156 ∷ 64 ∷ 1 ∷ 2 ∷ 3 ∷ [])
    ≢ ok (empty, 8)
nbt_read_items_forever_example =
    nbt_read_items_forever 1000 1 40000 5 8 (pos 0) (1 ∷ 0 ∷ 0 ∷ 156 ∷ 64 ∷ 1 ∷ 2 ∷ 3 ∷ [])
      (empty, 8) (omega arith) (omega arith)
