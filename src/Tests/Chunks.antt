-- ===== src/Tests/Chunks.antt =====
-- libs/anvil/anvil.c: a chunk with one section in a file, and a block that has no id.
use chowder.Prelude.Text.{all, array_text, codes}
use chowder.Prelude.{
  ℕ, ◌+◌, ◌^◌, ◌<◌, ◌≡◌, refl, Bool, true, false, ◌&&◌, List, [], ◌∷◌, ◌++◌, some, none,
  if◌then◌else◌, leb, ltb, length, take, drop, replicate, ok, fault, use_after_free, All, holds,
  Bool-cases, inl, inr, arith,
}
use chowder.Prelude.Int.{pos}
use chowder.Prelude.Bytes.{be_bytes}
use chowder.Nbt.{
  null, chars, t_byte, t_int, string, list, compound, Children, empty, child, Nbt, tag_compound,
}
use chowder.Nbt.Pack.{nbt_pack}
use chowder.Nbt.Wire.{IsText, Fits, ChildrenFit, children_nodes, wire_name, wire_children}
use chowder.Nbt.Written.{root_bytes, nbt_pack-root_bytes}
use chowder.Hashmap.{Hashmap, text}
use chowder.Anvil.{node_list, Libc, BlockTable, block_id, palette_entry_to_block_id}
use chowder.Anvil.Parse.{ChunkSection, anvil_parse_chunk}
use chowder.Anvil.Chunks.{IsChunk, chunk_of, anvil_parse_chunk-nbt_pack}
use chowder.Anvil.ReadChunk.{Zlib, z_ok, z_stream_end, anvil_get_chunk}
use chowder.Anvil.Inflate.{Delivery, ends, fills}
use chowder.Anvil.File.{IsStored, anvil_get_chunk_lem}

-- A `qsort` that is given what is in order.
abbrev libc : Libc
libc = record { qsort = λ cmp ps. ok ps; strcoll = λ a b. pos 0; stale = 170 }

abbrev table : BlockTable
table = record {
  table = record {
    occupied = 1;
    entries = record { removed = false; key = text (codes "air;lit=no"); value = some 7 } ∷ [];
  };
  ids = λ p. p;
}

abbrev property : Nbt
property = record { name = chars (codes "lit"); value = string (chars (codes "no")) }

abbrev block_children : Children
block_children =
    child (chars (codes "Name")) (string (chars (codes "air"))) (
      child (chars (codes "Properties")) (compound (child property.name property.value empty))
        empty)

abbrev block : Nbt
block = record { name = null; value = compound block_children }

-- The id is found, and a name that the table does not have is printed when it has been freed.
found_id : block_id table (codes "air;lit=no") ≡ ok 7
unfolding block_id chowder.Hashmap.hashmap_get chowder.Hashmap.fnv1a_from
found_id = refl

unknown_block : block_id table (codes "dirt") ≡ fault use_after_free
unfolding block_id chowder.Hashmap.hashmap_get chowder.Hashmap.fnv1a_from
unknown_block = refl

abbrev is_char : ℕ → Bool
is_char c = ltb 0 c && ltb c 256

nonzero : (cs : List ℕ) → all is_char cs ≡ true → All (λ c. (0 < c) × (c < 256)) cs
unfolding all
nonzero [] h = tt
nonzero (c ∷ cs) h = ((ground (arith, h), ground (arith, h)), nonzero cs (ground (arith, h)))

IsText-all : (cs : List ℕ) → all is_char cs ≡ true → 0 < length cs → length cs < 2 ^ 16 → IsText cs
IsText-all cs h some_chars short = record {
  nonzero = nonzero cs h;
  some_chars = some_chars;
  short = short;
}

abbrev section_children : Children
section_children = child (chars (codes "Y")) (t_byte 3) (
    child (chars (codes "Palette")) (list tag_compound (child null (compound block_children) empty))
      empty)

abbrev chunk_children : Children
chunk_children = child (chars (codes "DataVersion")) (t_int 2230) (
    child (chars (codes "Level"))
      (compound (
        child (chars (codes "Sections"))
          (list tag_compound (child null (compound section_children) empty)) empty))
      empty)

abbrev section : ChunkSection
section = record {
  y = 3;
  palette_len = pos 1;
  palette = some (7 ∷ []);
  bits_per_block = pos 4;
  blockstates = none;
  sky_light = none;
  block_light = none;
}

chunk_children-IsChunk :
    IsChunk libc table (record { name = null; value = compound chunk_children }) (section ∷ []) none
unfolding chowder.Nbt.Search.nbt_get chowder.Nbt.Search.is_named chowder.Prelude.Text.same_text
    chowder.Nbt.Unpack.until_zero node_list chowder.Anvil.Parse.items_of chowder.Anvil.Parse.each
    chowder.Anvil.Parse.parse_section chowder.Anvil.Parse.build_palette
    chowder.Anvil.Parse.palette_bits chowder.Anvil.Parse.ceil_log2 palette_entry_to_block_id
    chowder.Anvil.block_name_and_properties_length chowder.Anvil.add_properties_length
    chowder.Anvil.sorted_properties chowder.Anvil.strcat chowder.Anvil.append_properties block_id
    chowder.Prelude.Text.array_text chowder.Hashmap.hashmap_get chowder.Hashmap.fnv1a_from
    chowder.Nbt.Unpack.c_string
chunk_children-IsChunk = record {
  version = (_, refl, refl);
  level = record {
    name = chars (codes "Level");
    value = compound (
        child (chars (codes "Sections"))
          (list tag_compound (child null (compound section_children) empty)) empty);
  };
  has_level = refl;
  items = record { name = null; value = compound section_children } ∷ [];
  has_sections = (_, refl, refl);
  has_biomes = (none, refl, refl);
  parsed = refl;
}

chunk_children-ChildrenFit : ChildrenFit chunk_children
unfolding Fits all chowder.Nbt.Pack.list_len
chunk_children-ChildrenFit =
    let named =
      λ (cs : List ℕ) (h : all is_char cs ≡ true) (k : 0 < length cs) (l : length cs < 2 ^ 16).
        IsText-all cs h k l in
    let properties : ChildrenFit (child property.name property.value empty) = (
      named (codes "lit") refl (omega arith) (omega arith),
      named (codes "no") refl (omega arith) (omega arith),
      tt,
    ) in
    let block_fit : ChildrenFit block_children = (
      named (codes "Name") refl (omega arith) (omega arith),
      named (codes "air") refl (omega arith) (omega arith),
      (named (codes "Properties") refl (omega arith) (omega arith), properties, tt),
    ) in
    let section_fit : ChildrenFit section_children = (
      named (codes "Y") refl (omega arith) (omega arith),
      omega arith,
      (
        named (codes "Palette") refl (omega arith) (omega arith),
        (omega arith, (refl, refl, block_fit, tt), omega arith),
        tt,
      ),
    ) in
    (
      named (codes "DataVersion") refl (omega arith) (omega arith),
      omega arith,
      (
        named (codes "Level") refl (omega arith) (omega arith),
        (
          named (codes "Sections") refl (omega arith) (omega arith),
          (omega arith, (refl, refl, section_fit, tt), omega arith),
          tt,
        ),
        tt,
      ),
    )

chunk_nodes : children_nodes chunk_children < 40
unfolding children_nodes
chunk_nodes = omega arith

abbrev chunk_bytes : List ℕ
chunk_bytes = root_bytes null chunk_children

chunk_length : length chunk_bytes < 200
unfolding wire_name wire_children be_bytes chowder.Nbt.Pack.list_len
chunk_length = omega arith

anvil_parse_chunk-nbt_pack_example :
    (bytes : List ℕ) × (nbt_pack (record { name = null; value = compound chunk_children })
      ≡ ok bytes)
    × (anvil_parse_chunk libc table 40 200 (bytes ++ (9 ∷ []))
        ≡ ok (chunk_of libc table (section ∷ []) none))
anvil_parse_chunk-nbt_pack_example =
    anvil_parse_chunk-nbt_pack libc table null chunk_children (section ∷ []) none 40 200 (9 ∷ []) tt
      chunk_children-ChildrenFit (omega (arith, chunk_nodes)) (omega (arith, chunk_length))
      (omega arith) chunk_children-IsChunk

-- Streams that hold what they have not delivered, as it is.
abbrev stored : Zlib (List ℕ)
stored = record {
  inflate_init = λ cs. some cs;
  inflate = λ left avail.
      if leb (length left) avail
      then (z_stream_end, left, [])
      else (z_ok, take avail left, drop avail left);
}

stored-delivers :
    (stream left : List ℕ) (avail_out : ℕ)
    → 0 < avail_out
    → stream ≡ left
    → Delivery stored (λ a b. a ≡ b) stream left avail_out
stored-delivers stream left avail_out room h = elim (Bool-cases (leb (length left) avail_out)) [
  | inl e ↦ ends [] (ground (arith, e)) (rw (h, e) refl)
  | inr e ↦ fills (drop avail_out left) (ground (arith, e)) (rw (h, e) refl) refl
]

-- The header says that the chunk is the second sector of 4096 bytes.
abbrev file : List ℕ
file =
    be_bytes 3 1
    ++ 1 ∷ (replicate 4092 0 ++ (be_bytes 4 (length chunk_bytes + 1) ++ 2 ∷ (chunk_bytes ++ [])))

file-IsStored : IsStored file (pos 0) (pos 0) chunk_bytes
unfolding be_bytes chowder.Anvil.ReadChunk.low_bits
file-IsStored = record {
  offset = 1;
  sectors = 1;
  after_header =
      replicate 4092 0 ++ (be_bytes 4 (length chunk_bytes + 1) ++ 2 ∷ (chunk_bytes ++ []));
  after_chunk = [];
  header = refl;
  chunk = refl;
  some_sectors = omega arith;
  one_byte = omega arith;
  near = omega arith;
  some_bytes = omega arith;
  short = omega (arith, chunk_length);
}

anvil_get_chunk_lem_example :
    anvil_get_chunk stored libc table 200 40 file (pos 0) (pos 0)
    ≡ ok (chunk_of libc table (section ∷ []) none)
anvil_get_chunk_lem_example =
    anvil_get_chunk_lem stored libc (λ a b. a ≡ b) stored-delivers table 200 40 file (pos 0) (pos 0)
      chunk_bytes chunk_bytes chunk_bytes null chunk_children (section ∷ []) none file-IsStored refl
      refl (nbt_pack-root_bytes null chunk_children tt chunk_children-ChildrenFit) tt
      chunk_children-ChildrenFit chunk_children-IsChunk (omega arith) (omega (arith, chunk_length))
      (omega (arith, chunk_length)) (omega (arith, chunk_nodes))
