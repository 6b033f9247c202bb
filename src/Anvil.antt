-- ===== src/Anvil.antt =====
-- libs/anvil/anvil.c: the name of a block in a palette, as the table of block ids has it.
pub mod Buffer
pub mod Names
pub mod Parse
pub mod Chunks
pub mod ReadChunk
pub mod Inflate
pub mod File
use chowder.Prelude.Text.{array_text, codes}
use chowder.Prelude.{
  ℕ, ◌+◌, List, [], ◌∷◌, ◌++◌, none, some, if◌then◌else◌, leb, ltb, ◌==◌, length, drop, set,
  replicate, Run, ok, fault, need, assertion, out_of_bounds, use_after_free, uninitialized, ◌>>=◌,
}
use chowder.Prelude.Int.{ℤ}
use chowder.Nbt.{NbtData, string, compound, Children, empty, child, Nbt, tag_compound}
use chowder.Nbt.Unpack.{c_string}
use chowder.Nbt.Search.{nbt_get}
use chowder.Hashmap.{Hashmap, hashmap_get}

-- `qsort` of an array of pointers, `strcoll`, and the bytes of a fresh block.
pub record Libc : Type 0 where
  pub qsort : (Nbt → Nbt → Run ℤ) → List Nbt → Run (List Nbt)
  pub strcoll : List ℕ → List ℕ → ℤ
  pub stale : ℕ

-- The values of the table are pointers to ids.
pub record BlockTable : Type 0 where
  pub table : Hashmap
  pub ids : ℕ → ℕ

abbrev pub tag_string : ℕ
tag_string = 8

-- `->data.string` and `->data.children`
abbrev pub string_of : NbtData → Run (List ℕ)
string_of (string s) = c_string s
string_of _ = fault uninitialized

unfoldable pub node_list : Children → List Nbt
node_list empty = []
node_list (child name value cs) = record { name = name; value = value } ∷ node_list cs

abbrev pub children_of : NbtData → Run (List Nbt)
children_of (compound cs) = ok (node_list cs)
children_of _ = fault uninitialized

-- The loop over the properties.
unfoldable pub add_properties_length : ℕ → List Nbt → Run ℕ
add_properties_length name_len [] = ok name_len
add_properties_length name_len (p ∷ ps) = do
  key ← c_string p.name
  value ← string_of p.value
  add_properties_length (name_len + length key + length value + 2) ps

unfoldable pub block_name_and_properties_length : Nbt → Run ℕ
block_name_and_properties_length block = do
  found ← nbt_get tag_string (codes "Name") block
  name ← need assertion found
  cs ← string_of name.value
  properties ← nbt_get tag_compound (codes "Properties") block
  elim properties [
    | none ↦ ok (length cs)
    | some p ↦ do ps ← children_of p.value; add_properties_length (length cs) ps
  ]

unfoldable pub block_property_cmp : Libc → Nbt → Nbt → Run ℤ
block_property_cmp libc prop1 prop2 = do
  name1 ← c_string prop1.name
  name2 ← c_string prop2.name
  ok (libc.strcoll name1 name2)

unfoldable pub sorted_properties : Libc → Nbt → Run (List Nbt)
sorted_properties libc properties_nbt = do
  properties ← children_of properties_nbt.value
  if ltb 1 (length properties)
      then libc.qsort (block_property_cmp libc) properties
      else ok properties

-- Bytes written from the start of a block on.
abbrev pub overwrite : List ℕ → List ℕ → Run (List ℕ)
overwrite block bytes =
    if leb (length bytes) (length block)
    then ok (bytes ++ drop (length bytes) block)
    else fault out_of_bounds

-- `strcat`, from the first zero of the block on.
unfoldable pub strcat : List ℕ → List ℕ → Run (List ℕ)
strcat [] src = fault out_of_bounds
strcat (c ∷ block) src =
    let more = (do rest ← strcat block src; ok (c ∷ rest)) in
    if c == 0 then overwrite (c ∷ block) (src ++ 0 ∷ []) else more

unfoldable pub append_properties : List ℕ → List Nbt → Run (List ℕ)
append_properties name [] = ok name
append_properties name (p ∷ ps) = do
  name ← strcat name (codes ";")
  key ← c_string p.name
  name ← strcat name key
  name ← strcat name (codes "=")
  value ← string_of p.value
  name ← strcat name value
  append_properties name ps

-- What follows the name. The message for a block that is not in the table is printed behind
-- `free(name)`, with the name.
unfoldable pub block_id : BlockTable → List ℕ → Run ℕ
block_id t name = do
  id ← hashmap_get t.table name
  elim id [ none ↦ fault use_after_free | some p ↦ ok (t.ids p) ]

unfoldable pub palette_entry_to_block_id : Libc → BlockTable → Nbt → Run ℕ
palette_entry_to_block_id libc t block = do
  name_len ← block_name_and_properties_length block
  properties_nbt ← nbt_get tag_compound (codes "Properties") block
  properties ← elim properties_nbt [ none ↦ ok [] | some p ↦ sorted_properties libc p ]
  found ← nbt_get tag_string (codes "Name") block
  block_name ← need assertion found
  cs ← string_of block_name.value
  name ← strcat (set (replicate (name_len + 1) libc.stale) 0 0) cs
  name ← append_properties name properties
  key ← array_text name
  block_id t key
