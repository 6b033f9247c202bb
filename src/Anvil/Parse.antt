-- ===== src/Anvil/Parse.antt =====
-- libs/anvil/anvil.c, libs/anvil/include/chunk.h: a chunk from its NBT tree. An array that is taken
-- out of the tree is set to NULL there, so freeing the tree leaves it alone.
use chowder.Prelude.Text.{codes}
use chowder.Prelude.{
  ℕ, zero, suc, ◌+◌, ◌^◌, Bool, false, List, [], ◌∷◌, Option, none, some, if◌then◌else◌, leb, ltb,
  ◌==◌, length, Run, ok, fault, need, assert, assertion, out_of_bounds, uninitialized, ◌>>=◌, ◌>>◌,
}
use chowder.Prelude.Int.{ℤ, pos, negsuc}
use chowder.Nbt.{
  Elements, unread, elements, NbtData, t_byte, t_int, byte_array, int_array, long_array, list, Nbt,
  tag_compound,
}
use chowder.Nbt.Unpack.{nbt_free, nbt_unpack}
use chowder.Nbt.Search.{nbt_get}
use chowder.Anvil.{Libc, BlockTable, node_list, palette_entry_to_block_id}

pub data AnvilErr : Type 0 where
  anvil_ok anvil_chunk_missing anvil_read_error anvil_zlib_error anvil_bad_nbt : AnvilErr
  anvil_bad_chunk anvil_bad_data_version anvil_bad_range anvil_no_memory anvil_errno : AnvilErr

abbrev pub anvil_data_version : ℕ
anvil_data_version = 2230

abbrev pub biomes_len : ℕ
biomes_len = 1024

abbrev pub chunk_sections_len : ℕ
chunk_sections_len = 18

abbrev pub global_bits_per_block : ℕ
global_bits_per_block = 14

-- `struct section`: `none` is NULL.
pub record ChunkSection : Type 0 where
  pub y : ℕ
  pub palette_len : ℤ
  pub palette : Option (List ℕ)
  pub bits_per_block : ℤ
  pub blockstates : Option (List ℕ)
  pub sky_light : Option (List ℕ)
  pub block_light : Option (List ℕ)

-- `sections_len` is the number of sections.
pub record AnvilChunk : Type 0 where
  pub sections : List ChunkSection
  pub biomes : Option (List ℕ)
  pub player_count : ℕ

-- The members of the union behind a tag.
abbrev pub values : Elements → Run (List ℕ)
values unread = fault uninitialized
values (elements es) = ok es

abbrev pub byte_of : NbtData → Run ℕ
byte_of (t_byte b) = ok b
byte_of _ = fault uninitialized

abbrev pub int_of : NbtData → Run ℕ
int_of (t_int i) = ok i
int_of _ = fault uninitialized

abbrev pub bytes_of : NbtData → Run (List ℕ)
bytes_of (byte_array a) = values a
bytes_of _ = fault uninitialized

abbrev pub ints_of : NbtData → Run (List ℕ)
ints_of (int_array a) = values a
ints_of _ = fault uninitialized

abbrev pub longs_of : NbtData → Run (List ℕ)
longs_of (long_array a) = values a
longs_of _ = fault uninitialized

unfoldable pub items_of : NbtData → Run (List Nbt)
items_of (list type items) = ok (node_list items)
items_of _ = fault uninitialized

-- `if (node != NULL) member = ...`
abbrev pub read_member {ℓ} : {A : Type ℓ} → (NbtData → Run A) → Option Nbt → Run (Option A)
read_member read none = ok none
read_member read (some n) = do a ← read n.value; ok (some a)

-- `ceil(log2(n))`, for `k` on: an `int` is below 2 ^ 31.
unfoldable pub ceil_log2 : ℕ → ℕ → ℕ → ℕ
ceil_log2 zero k n = k
ceil_log2 (suc f) k n = let more = ceil_log2 f (k + 1) n in if leb n (2 ^ k) then k else more

-- `log2(0)` is no number that an `int` could have.
unfoldable pub palette_bits : ℕ → Run ℕ
palette_bits palette_len =
    let bits = ceil_log2 31 0 palette_len in
    if palette_len == 0
    then fault out_of_bounds
    else ok (if ltb bits 4 then 4 else if ltb 8 bits then global_bits_per_block else bits)

-- A loop over a list that makes a value of each item.
unfoldable pub each {ℓ κ} : {A : Type ℓ} {B : Type κ} → (A → Run B) → List A → Run (List B)
each f [] = ok []
each f (x ∷ xs) = do y ← f x; ys ← each f xs; ok (y ∷ ys)

-- `palette_len`, `bits_per_block` and `palette`.
unfoldable pub build_palette : Libc → BlockTable → List Nbt → Run (ℕ × ℕ × List ℕ)
build_palette libc block_table palette = do
  bits ← palette_bits (length palette)
  ids ← each (palette_entry_to_block_id libc block_table) palette
  ok (length palette, bits, ids)

abbrev pub palette_fields : Option (ℕ × ℕ × List ℕ) → ℤ × ℤ × Option (List ℕ)
palette_fields none = (negsuc 0, negsuc 0, none)
palette_fields (some (palette_len, bits, ids)) = (pos palette_len, pos bits, some ids)

-- A round of the loop over the sections.
unfoldable pub parse_section : Libc → BlockTable → Nbt → Run ChunkSection
parse_section libc block_table s_nbt = do
  y_index ← nbt_get 1 (codes "Y") s_nbt
  y ← read_member byte_of y_index
  palette ← nbt_get 9 (codes "Palette") s_nbt
  built ← read_member (λ v. do items ← items_of v; build_palette libc block_table items) palette
  let (palette_len, bits, ids) = palette_fields built
  blockstates ← nbt_get 12 (codes "BlockStates") s_nbt
  longs ← read_member longs_of blockstates
  sky_light ← nbt_get 7 (codes "SkyLight") s_nbt
  sky ← read_member bytes_of sky_light
  block_light ← nbt_get 7 (codes "BlockLight") s_nbt
  light ← read_member bytes_of block_light
  ok (record {
    y = elim y [ none ↦ 0 | some b ↦ b ];
    palette_len = palette_len;
    palette = ids;
    bits_per_block = bits;
    blockstates = longs;
    sky_light = sky;
    block_light = light;
  })

-- The loop; `n` sections stand in the array of the chunk.
unfoldable pub parse_sections : Libc → BlockTable → ℕ → List Nbt → Run (List ChunkSection)
parse_sections libc block_table n [] = ok []
parse_sections libc block_table n (s_nbt ∷ l) = do
  s ← parse_section libc block_table s_nbt
  (if ltb n chunk_sections_len then ok tt else fault out_of_bounds)
  rest ← parse_sections libc block_table (n + 1) l
  ok (s ∷ rest)

-- `assert(biomes->data.array->len == BIOMES_LEN)`
unfoldable pub parse_biomes : NbtData → Run (List ℕ)
parse_biomes v = do ints ← ints_of v; assert (length ints == biomes_len); ok ints

abbrev pub Parsed : Type 0
Parsed = AnvilErr × Option AnvilChunk

-- Behind the test of the version.
unfoldable pub parse_level : Libc → BlockTable → Nbt → Run Parsed
parse_level libc block_table n = do
  found ← nbt_get tag_compound (codes "Level") n
  level ← need assertion found
  sections ← nbt_get 9 (codes "Sections") level
  elim sections [
    | none ↦ ok (anvil_bad_chunk, none)
    | some s ↦ do
      l ← items_of s.value
      ss ← parse_sections libc block_table 0 l
      biomes ← nbt_get 11 (codes "Biomes") level
      ints ← read_member parse_biomes biomes
      freed ← nbt_free n
      ok (anvil_ok, some (record { sections = ss; biomes = ints; player_count = 0 }))
  ]

unfoldable pub has_version : Option Nbt → Run Bool
has_version none = ok false
has_version (some data_version) = do v ← int_of data_version.value; ok (v == anvil_data_version)

-- The fuel is that of `nbt_unpack`.
unfoldable pub anvil_parse_chunk : Libc → BlockTable → ℕ → ℕ → List ℕ → Run Parsed
anvil_parse_chunk libc block_table f chunk_data_len chunk_data = do
  unpacked ← nbt_unpack f chunk_data_len chunk_data
  elim unpacked [
    | none ↦ ok (anvil_bad_nbt, none)
    | some (n_len, n) ↦ do
      data_version ← nbt_get 3 (codes "DataVersion") n
      right ← has_version data_version
      if right
          then parse_level libc block_table n
          else (do freed ← nbt_free n; ok (anvil_bad_data_version, none))
  ]
