-- ===== src/Nbt/Pack.antt =====
-- libs/nbt/nbt.c: `nbt_pack` and the functions below it. A writer returns the bytes that it puts
-- where `data` points, one behind the other; what it returns in C is their number. An array has
-- fewer than 2 ^ 31 bytes, so its size is computed with no overflow.
use chowder.Prelude.{
  ◌%◌, ◌^◌, ℕ, ◌+◌, ◌*◌, ◌&&◌, List, [], ◌∷◌, ◌++◌, if◌then◌else◌, ltb, leb, ◌==◌, ◌||◌, length,
  Run, ok, fault, assert, out_of_bounds, uninitialized, ◌>>=◌, ◌>>◌,
}
use chowder.Prelude.Bytes.{be_bytes}
use chowder.Nbt.{
  Name, null, Elements, unread, elements, NbtData, unset, t_byte, t_short, t_int, t_long, t_float,
  t_double, byte_array, int_array, long_array, string, list, compound, Children, empty, child, Nbt,
  tag, tag_end, tag_compound,
}
use chowder.Nbt.Unpack.{c_string, has_pointer}

unfoldable pub strlen : Name → Run ℕ
unfolding c_string
strlen s = do cs ← c_string s; ok (length cs)

-- `4 + array->len * size`
unfoldable pub array_len : ℕ → Elements → Run ℕ
array_len size unread = fault uninitialized
array_len size (elements es) = ok (4 + length es * size)

-- A number's length does not depend on whether its member was set.
unfoldable pub unset_len : ℕ → Run ℕ
unset_len t =
    if t == 1
    then ok 1
    else if t == 2
    then ok 2
    else if t == 3 || t == 5
    then ok 4
    else if t == 4 || t == 6
    then ok 8
    else if has_pointer t
    then fault uninitialized
    else ok 0

unfoldable mutual
  pub nbt_data_len : NbtData → Run ℕ
  nbt_data_len (unset t) = unset_len t
  nbt_data_len (t_byte b) = ok 1
  nbt_data_len (t_short s) = ok 2
  nbt_data_len (t_int i) = ok 4
  nbt_data_len (t_long l) = ok 8
  nbt_data_len (t_float x) = ok 4
  nbt_data_len (t_double d) = ok 8
  nbt_data_len (byte_array a) = array_len 1 a
  nbt_data_len (string s) = do n ← strlen s; ok (2 + n)
  nbt_data_len (list t items) = do n ← nbt_items_len items; ok (5 + n)
  nbt_data_len (compound cs) = nbt_node_len cs
  nbt_data_len (int_array a) = array_len 4 a
  nbt_data_len (long_array a) = array_len 8 a

  -- The loop of `nbt_list_len`.
  pub nbt_items_len : Children → Run ℕ
  nbt_items_len empty = ok 0
  nbt_items_len (child name value items) = do
    n ← nbt_data_len value
    rest ← nbt_items_len items
    ok (n + rest)

  pub nbt_node_len : Children → Run ℕ
  nbt_node_len empty = ok 1
  nbt_node_len (child name value cs) = do
    name_len ← strlen name
    n ← nbt_data_len value
    rest ← nbt_node_len cs
    ok (3 + name_len + n + rest)

unfoldable pub nbt_len : Nbt → Run ℕ
unfolding nbt_data_len strlen
nbt_len root = do
  name_len ← elim root.name [ null ↦ ok 0 | _ ↦ strlen root.name ]
  n ← nbt_data_len root.value
  ok (3 + name_len + n)

abbrev pub nbt_write_short : ℕ → List ℕ
nbt_write_short = be_bytes 2

abbrev pub nbt_write_int : ℕ → List ℕ
nbt_write_int = be_bytes 4

abbrev pub nbt_write_long : ℕ → List ℕ
nbt_write_long = be_bytes 8

-- A length of more than 16 bits is cut off.
unfoldable pub nbt_write_string : Name → Run (List ℕ)
nbt_write_string null = ok (nbt_write_short 0)
nbt_write_string s = do cs ← c_string s; ok (nbt_write_short (length cs) ++ cs)

-- The elements with `size` bytes each.
unfoldable pub write_elements : ℕ → List ℕ → List ℕ
write_elements size [] = []
write_elements size (e ∷ es) = be_bytes size e ++ write_elements size es

unfoldable pub nbt_write_array : ℕ → Elements → Run (List ℕ)
unfolding write_elements
nbt_write_array size unread = fault uninitialized
nbt_write_array size (elements es) = ok (nbt_write_int (length es) ++ write_elements size es)

unfoldable pub list_len : Children → ℕ
list_len empty = 0
list_len (child name value items) = 1 + list_len items

unfoldable mutual
  pub nbt_pack_node_data : NbtData → Run (List ℕ)
  nbt_pack_node_data (unset t) = if leb 1 t && leb t 12 then fault uninitialized else ok []
  nbt_pack_node_data (t_byte b) = ok (b ∷ [])
  nbt_pack_node_data (t_short s) = ok (nbt_write_short s)
  nbt_pack_node_data (t_int i) = ok (nbt_write_int i)
  nbt_pack_node_data (t_long l) = ok (nbt_write_long l)
  nbt_pack_node_data (t_float x) = ok (nbt_write_int x)
  nbt_pack_node_data (t_double d) = ok (nbt_write_long d)
  nbt_pack_node_data (byte_array a) = nbt_write_array 1 a
  nbt_pack_node_data (string s) = nbt_write_string s
  nbt_pack_node_data (list t items) = do
    bytes ← nbt_pack_items items
    ok (t % 2 ^ 8 ∷ (nbt_write_int (list_len items) ++ bytes))
  nbt_pack_node_data (compound cs) = nbt_pack_node cs
  nbt_pack_node_data (int_array a) = nbt_write_array 4 a
  nbt_pack_node_data (long_array a) = nbt_write_array 8 a

  -- The loop of `nbt_write_list`.
  pub nbt_pack_items : Children → Run (List ℕ)
  nbt_pack_items empty = ok []
  nbt_pack_items (child name value items) = do
    bytes ← nbt_pack_node_data value
    rest ← nbt_pack_items items
    ok (bytes ++ rest)

  pub nbt_pack_node : Children → Run (List ℕ)
  nbt_pack_node empty = ok (tag_end ∷ [])
  nbt_pack_node (child name value cs) = do
    name_bytes ← nbt_write_string name
    bytes ← nbt_pack_node_data value
    rest ← nbt_pack_node cs
    ok (tag value ∷ (name_bytes ++ (bytes ++ rest)))

-- The bytes are written to a block of `buf_len` bytes.
unfoldable pub written_to : ℕ → List ℕ → Run (List ℕ)
written_to buf_len bytes =
    if ltb buf_len (length bytes)
    then fault out_of_bounds
    else (do assert (length bytes == buf_len); ok bytes)

-- The bytes of `*data`; the function returns their number.
unfoldable pub nbt_pack : Nbt → Run (List ℕ)
unfolding nbt_pack_node_data nbt_write_string nbt_len written_to
nbt_pack root =
    if tag root.value == tag_compound
    then (do
      buf_len ← nbt_len root
      name_bytes ← nbt_write_string root.name
      bytes ← nbt_pack_node_data root.value
      written_to buf_len (tag_compound ∷ (name_bytes ++ bytes)))
    else (do
      name_len ← strlen root.name
      n ← nbt_data_len root.value
      name_bytes ← nbt_write_string root.name
      bytes ← nbt_pack_node_data root.value
      written_to (4 + (3 + name_len) + n) (
          tag_compound
          ∷ (nbt_write_short 0 ++ (tag root.value ∷ (name_bytes ++ (bytes ++ (tag_end ∷ [])))))))
