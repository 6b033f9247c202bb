-- ===== src/Nbt/Wire.antt =====
-- The binary NBT format, as a description of what libs/nbt/nbt.c reads and writes: the bytes of a
-- value, and the values that have such bytes.
use chowder.Prelude.{ℕ, ◌+◌, ◌*◌, ◌^◌, ◌<◌, ◌≡◌, List, [], ◌∷◌, ◌++◌, length, All}
use chowder.Prelude.Bytes.{be_bytes}
use chowder.Nbt.{
  Name, null, chars, Elements, unread, elements, NbtData, unset, t_byte, t_short, t_int, t_long,
  t_float, t_double, byte_array, int_array, long_array, string, list, compound, Children, empty,
  child, tag, tag_end,
}
use chowder.Nbt.Pack.{list_len, write_elements}

abbrev pub text : Name → List ℕ
text (chars cs) = cs
text _ = []

-- The length in 16 bits, and the characters.
unfoldable pub wire_name : Name → List ℕ
wire_name name = be_bytes 2 (length (text name)) ++ text name

unfoldable pub wire_elements : ℕ → Elements → List ℕ
wire_elements size unread = []
wire_elements size (elements es) = be_bytes 4 (length es) ++ write_elements size es

unfoldable mutual
  pub wire : NbtData → List ℕ
  wire (unset t) = []
  wire (t_byte b) = b ∷ []
  wire (t_short s) = be_bytes 2 s
  wire (t_int i) = be_bytes 4 i
  wire (t_long l) = be_bytes 8 l
  wire (t_float x) = be_bytes 4 x
  wire (t_double d) = be_bytes 8 d
  wire (byte_array a) = wire_elements 1 a
  wire (string s) = wire_name s
  wire (list t items) = t ∷ (be_bytes 4 (list_len items) ++ wire_items items)
  wire (compound cs) = wire_children cs
  wire (int_array a) = wire_elements 4 a
  wire (long_array a) = wire_elements 8 a

  pub wire_items : Children → List ℕ
  wire_items empty = []
  wire_items (child name value items) = wire value ++ wire_items items

  pub wire_children : Children → List ℕ
  wire_children empty = tag_end ∷ []
  wire_children (child name value cs) =
      tag value ∷ (wire_name name ++ (wire value ++ wire_children cs))

-- One to 65535 characters, none of them zero.
pub record IsText (cs : List ℕ) : Type 0 where
  pub nonzero : All (λ c. (0 < c) × (c < 256)) cs
  pub some_chars : 0 < length cs
  pub short : length cs < 2 ^ 16

abbrev pub IsName : Name → Type 0
IsName (chars cs) = IsText cs
IsName _ = ⊥

abbrev pub IsRootName : Name → Type 0
IsRootName null = Unit
IsRootName (chars cs) = IsText cs
IsRootName _ = ⊥

-- Elements of `size` bytes each, with fewer than 2 ^ 31 bytes.
abbrev pub IsArray : ℕ → Elements → Type 0
IsArray size unread = ⊥
IsArray size (elements es) =
    All (λ e. e < 256 ^ size) es × (length es * size < 2 ^ 31) × (length es < 2 ^ 31)

-- Numbers are in range, the tag of a list is a byte, children have names, and items have the tag of
-- their list and no names.
unfoldable mutual
  pub Fits : NbtData → Type 0
  Fits (unset t) = ⊥
  Fits (t_byte b) = b < 2 ^ 8
  Fits (t_short s) = s < 2 ^ 16
  Fits (t_int i) = i < 2 ^ 32
  Fits (t_long l) = l < 2 ^ 64
  Fits (t_float x) = x < 2 ^ 32
  Fits (t_double d) = d < 2 ^ 64
  Fits (byte_array a) = IsArray 1 a
  Fits (string s) = IsName s
  Fits (list t items) = (list_len items < 2 ^ 15) × ItemsFit t items × (t < 2 ^ 8)
  Fits (compound cs) = ChildrenFit cs
  Fits (int_array a) = IsArray 4 a
  Fits (long_array a) = IsArray 8 a

  pub ItemsFit : ℕ → Children → Type 0
  ItemsFit t empty = Unit
  ItemsFit t (child name value items) =
      (name ≡ null) × (tag value ≡ t) × Fits value × ItemsFit t items

  pub ChildrenFit : Children → Type 0
  ChildrenFit empty = Unit
  ChildrenFit (child name value cs) = IsName name × Fits value × ChildrenFit cs

-- How deep the calls of the reader go, at most.
unfoldable mutual
  pub nodes : NbtData → ℕ
  nodes (unset t) = 1
  nodes (t_byte b) = 1
  nodes (t_short s) = 1
  nodes (t_int i) = 1
  nodes (t_long l) = 1
  nodes (t_float x) = 1
  nodes (t_double d) = 1
  nodes (byte_array a) = 1
  nodes (string s) = 1
  nodes (list t items) = 2 + children_nodes items
  nodes (compound cs) = 1 + children_nodes cs
  nodes (int_array a) = 1
  nodes (long_array a) = 1

  pub children_nodes : Children → ℕ
  children_nodes empty = 1
  children_nodes (child name value cs) = 1 + nodes value + children_nodes cs
