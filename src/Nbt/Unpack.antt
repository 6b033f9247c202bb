-- ===== src/Nbt/Unpack.antt =====
-- libs/nbt/nbt.c: `nbt_new`, `nbt_free` and `nbt_unpack`. What is freed is a list of blocks.
use chowder.Prelude.{
  ℕ, ◌+◌, Bool, ◌&&◌, List, [], ◌∷◌, Option, none, some, if◌then◌else◌, leb, ◌==◌, drop, get_elem?,
  Run, ok, fault, need, out_of_bounds, uninitialized, null_pointer, ◌>>=◌, ◌++◌,
}
use chowder.Nbt.{
  Name, dangling, null, chars, garbage, Elements, unread, elements, NbtData, unset, t_byte, t_short,
  t_int, t_long, t_float, t_double, byte_array, int_array, long_array, string, list, compound,
  Children, empty, child, Nbt, tag, tag_compound,
}
use chowder.Nbt.Read.{sub_size, nbt_read_string, nbt_unpack_node}

-- The characters before the first zero byte; another zero stands behind the block.
unfoldable pub until_zero : List ℕ → List ℕ
until_zero [] = []
until_zero (c ∷ cs) = if c == 0 then [] else c ∷ until_zero cs

-- What `strlen`, `strcmp` and `strdup` read.
unfoldable pub c_string : Name → Run (List ℕ)
unfolding until_zero
c_string dangling = fault uninitialized
c_string null = fault null_pointer
c_string garbage = fault uninitialized
c_string (chars cs) = ok (until_zero cs)

-- `if (name != NULL) root->name = strdup(name);` on a node of zeros
unfoldable pub copy_name : Name → Run Name
unfolding c_string
copy_name null = ok null
copy_name name = do cs ← c_string name; ok (chars cs)

-- A tag that is not a compound is put into one.
unfoldable pub nbt_new : ℕ → Name → Run Nbt
unfolding copy_name
nbt_new t name = do
  name' ← copy_name name
  ok (
      if t == tag_compound
      then record { name = name'; value = unset t }
      else record { name = null; value = compound (child name' (unset t) empty) })

-- A block of memory that belongs to a tree: a string, the elements of an array and the
-- `struct nbt_array`, a `struct nbt`, a `struct nbt_list` and a `struct list`.
pub data Block : Type 0 where
  string_block elements_block array_block : List ℕ → Block
  node_block list_block : ℕ → Block
  cell_block garbage_block : Block

-- `free(name)`, which does nothing for NULL
unfoldable pub free_name : Name → Run (List Block)
free_name dangling = fault uninitialized
free_name null = ok []
free_name garbage = ok (garbage_block ∷ [])
free_name (chars cs) = ok (string_block cs ∷ [])

unfoldable pub free_elements : Elements → Run (List Block)
free_elements unread = fault uninitialized
free_elements (elements es) = ok (elements_block es ∷ array_block es ∷ [])

-- The tags 7 to 12 have a pointer as their member.
abbrev pub has_pointer : ℕ → Bool
has_pointer t = leb 7 t && leb t 12

-- The blocks that are freed, in this order.
unfoldable mutual
  -- `nbt_free_node_data`, with `nbt_free_node` for a compound.
  pub nbt_free_node_data : Name → NbtData → Run (List Block)
  nbt_free_node_data name (string s) = free_name s
  nbt_free_node_data name (byte_array a) = free_elements a
  nbt_free_node_data name (int_array a) = free_elements a
  nbt_free_node_data name (long_array a) = free_elements a
  nbt_free_node_data name (list t items) = do
    freed ← nbt_free_list items
    ok (freed ++ list_block t ∷ [])
  nbt_free_node_data name (compound cs) = do
    of_name ← free_name name
    of_children ← nbt_free_children cs
    ok (of_name ++ of_children)
  nbt_free_node_data name (unset t) = if has_pointer t then fault uninitialized else ok []
  nbt_free_node_data name (t_byte b) = ok []
  nbt_free_node_data name (t_short s) = ok []
  nbt_free_node_data name (t_int i) = ok []
  nbt_free_node_data name (t_long l) = ok []
  nbt_free_node_data name (t_float x) = ok []
  nbt_free_node_data name (t_double d) = ok []

  -- `list_remove` frees a cell of the list, and `list_free` the one that is left.
  pub nbt_free_list : Children → Run (List Block)
  nbt_free_list empty = ok (cell_block ∷ [])
  nbt_free_list (child name value items) = do
    of_data ← nbt_free_node_data name value
    rest ← nbt_free_list items
    ok (cell_block ∷ (of_data ++ (node_block (tag value) ∷ rest)))

  -- The loop of `nbt_free_node`, with `nbt_free_child` for each child, and its `list_free`.
  pub nbt_free_children : Children → Run (List Block)
  nbt_free_children empty = ok (cell_block ∷ [])
  nbt_free_children (child name value cs) = do
    of_data ← nbt_free_node_data name value
    of_name ← (if tag value == tag_compound then ok [] else free_name name)
    rest ← nbt_free_children cs
    ok (cell_block ∷ (of_data ++ (of_name ++ (node_block (tag value) ∷ rest))))

unfoldable pub nbt_free : Nbt → Run (List Block)
nbt_free root = do
  of_data ← nbt_free_node_data root.name root.value
  of_name ← (if tag root.value == tag_compound then ok [] else free_name root.name)
  ok (of_data ++ (of_name ++ node_block (tag root.value) ∷ []))

-- The length that `nbt_unpack` returns and the tree, `none` for 0. The first byte need not be that
-- of a compound; then there is no name.
unfoldable pub nbt_unpack : ℕ → ℕ → List ℕ → Run (Option (ℕ × Nbt))
unfolding nbt_new
nbt_unpack f len bytes = do
  first ← need out_of_bounds (get_elem? bytes 0)
  (root_name, i) ←
      (if first == tag_compound
        then (do (name, k) ← nbt_read_string null (sub_size len 1) (drop 1 bytes); ok (name, 1 + k))
        else ok (null, 0))
  root ← nbt_new tag_compound root_name
  (cs, end) ← nbt_unpack_node f i len bytes
  let whole : Nbt = record root { value = compound cs }
  elim end [
    | none ↦ (do freed ← nbt_free whole; ok none)
    | some nbt_len ↦ ok (some (nbt_len, whole))
  ]
