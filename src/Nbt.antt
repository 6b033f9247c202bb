-- ===== src/Nbt.antt =====
-- libs/nbt/include/nbt.h: a tree of named tags. The tag and the union of the C struct are one data
-- type, so a tag has the member that belongs to it; the linked list of children is a list.
pub mod Read
pub mod Unpack
pub mod Pack
pub mod Search
pub mod Found
pub mod Freed
pub mod Hostile
pub mod Wire
pub mod Written
pub mod Parsed
pub mod Leaves
pub mod Steps
pub mod RoundTrip
pub mod Whole
use chowder.Prelude.{ℕ, List}

-- A `char *`: not yet written to, NULL, a block with these characters and a zero behind them, or a
-- block of which nothing was written.
pub data Name : Type 0 where
  dangling null garbage : Name
  chars : List ℕ → Name

-- The elements of an array: its `len` is their number. `unread` has a pointer that was not set.
pub data Elements : Type 0 where
  unread : Elements
  elements : List ℕ → Elements

-- Numbers are bit patterns, also those of floats. `unset` is a tag of which no member was written,
-- or an unknown one. `list` holds the tag of its items, whose names are NULL.
mutual
  pub data NbtData : Type 0 where
    unset : ℕ → NbtData
    t_byte t_short t_int t_long t_float t_double : ℕ → NbtData
    byte_array int_array long_array : Elements → NbtData
    string : Name → NbtData
    list : ℕ → Children → NbtData
    compound : Children → NbtData

  pub data Children : Type 0 where
    empty : Children
    child : Name → NbtData → Children → Children

pub record Nbt : Type 0 where
  pub name : Name
  pub value : NbtData

-- `enum tag`
abbrev pub tag_end : ℕ
tag_end = 0

abbrev pub tag_compound : ℕ
tag_compound = 10

abbrev pub tag : NbtData → ℕ
tag (unset t) = t
tag (t_byte b) = 1
tag (t_short s) = 2
tag (t_int i) = 3
tag (t_long l) = 4
tag (t_float f) = 5
tag (t_double d) = 6
tag (byte_array a) = 7
tag (string s) = 8
tag (list t items) = 9
tag (compound cs) = tag_compound
tag (int_array a) = 11
tag (long_array a) = 12
