-- ===== src/Anvil/Chunks.antt =====
-- libs/anvil/anvil.c: the chunk that is parsed from the bytes of its tree, and the sections that the
-- array of the chunk has no room for.
use chowder.Prelude.Text.{codes}
use chowder.Prelude.{
  held, bind_ok, ℕ, suc, ◌+◌, ◌^◌, ◌≤◌, ◌<◌, ◌≡◌, refl, sym, ◌∙◌, ap, true, false, List, [], ◌∷◌,
  ◌++◌, Option, some, if◌then◌else◌, leb, ltb, length, Run, ok, fault, out_of_bounds, ◌>>=◌, ◌>>◌,
  arith, Bool-cases, inl, inr,
}
use chowder.Nbt.{Name, t_int, compound, Children, Nbt, tag_compound}
use chowder.Nbt.Wire.{IsRootName, ChildrenFit, children_nodes}
use chowder.Nbt.Unpack.{nbt_free, Block}
use chowder.Nbt.Search.{nbt_get}
use chowder.Nbt.Pack.{nbt_pack}
use chowder.Nbt.Whole.{nbt_unpack-nbt_pack}
use chowder.Nbt.Freed.{nbt_free_lem}
use chowder.Nbt.Written.{root_bytes}
use chowder.Anvil.{Libc, BlockTable}
use chowder.Anvil.Parse.{
  ChunkSection, anvil_ok, chunk_sections_len, items_of, read_member, each, parse_section,
  parse_sections, parse_biomes, Parsed, parse_level, has_version, anvil_parse_chunk,
}

-- The array has room for 18 sections.
abbrev pub within_array : ℕ → List ChunkSection → Run (List ChunkSection)
within_array n ss = if leb (n + length ss) chunk_sections_len then ok ss else fault out_of_bounds

within_array-cons :
    (n : ℕ) (s : ChunkSection) (ss : List ChunkSection)
    → (within_array (n + 1) ss >>= λ rest. ok (s ∷ rest)) ≡ within_array n (s ∷ ss)
within_array-cons n s ss = elim (Bool-cases (leb (n + 1 + length ss) chunk_sections_len)) [
  | inl e ↦
      let f : leb (n + suc (length ss)) chunk_sections_len ≡ true = ground (arith, e) in
      rw (e, f) refl
  | inr e ↦
      let f : leb (n + suc (length ss)) chunk_sections_len ≡ false = ground (arith, e) in
      rw (e, f) refl
]

within_array-map :
    (ss : List ChunkSection) (f : List ChunkSection → Parsed)
    → (within_array 0 ss >>= λ sections. ok (f sections))
      ≡ (if leb (length ss) chunk_sections_len then ok (f ss) else fault out_of_bounds)
within_array-map ss f = elim (Bool-cases (leb (length ss) chunk_sections_len)) [
  | inl e ↦
      let g : leb (0 + length ss) chunk_sections_len ≡ true = ground (arith, e) in rw (e, g) refl
  | inr e ↦
      let g : leb (0 + length ss) chunk_sections_len ≡ false = ground (arith, e) in rw (e, g) refl
]

module _ (libc : Libc) (t : BlockTable) where
  parse_sections-each :
      (n : ℕ) (items : List Nbt) (ss : List ChunkSection)
      → n ≤ chunk_sections_len
      → each (parse_section libc t) items ≡ ok ss
      → parse_sections libc t n items ≡ within_array n ss
  unfolding each parse_sections
  parse_sections-each n [] [] h e = ground (arith, h)
  parse_sections-each n [] (s ∷ ss) h e = cc
  parse_sections-each n (x ∷ items) ss h e =
      let (s, first, more) = bind_ok (parse_section libc t x) _ e in
      let (ss', rest, whole) = bind_ok (each (parse_section libc t) items) _ more in
      let is : s ∷ ss' ≡ ss = cc in
      rw (first, ◌>>=◌)
        (elim (Bool-cases (ltb n chunk_sections_len)) [
          | inl room ↦
              rw
                (
                  room,
                  ◌>>◌,
                  ◌>>=◌,
                  parse_sections-each (n + 1) items ss' (ground (arith, room)) rest,
                )
                (within_array-cons n s ss' ∙ ap (within_array n) is)
          | inr full ↦
              let none_left : leb (n + suc (length ss')) chunk_sections_len ≡ false =
                ground (arith, full) in
              rw (full, ◌>>◌, ◌>>=◌)
                (ap (λ b. if b then ok (s ∷ ss') else fault out_of_bounds) (sym none_left)
                  ∙ ap (within_array n) is)
        ])

  -- What the tree of a chunk has: the items of its sections parse to `ss`, and its biomes to `biomes`.
  pub record IsChunk (n : Nbt) (ss : List ChunkSection) (biomes : Option (List ℕ)) : Type 0 where
    pub version :
        (v : Nbt) × (nbt_get 3 (codes "DataVersion") n ≡ ok (some v)) × (v.value ≡ t_int 2230)
    pub level : Nbt
    pub has_level : nbt_get tag_compound (codes "Level") n ≡ ok (some level)
    pub items : List Nbt
    pub has_sections :
        (s : Nbt) × (nbt_get 9 (codes "Sections") level ≡ ok (some s))
        × (items_of s.value ≡ ok items)
    pub has_biomes :
        (b : Option Nbt) × (nbt_get 11 (codes "Biomes") level ≡ ok b)
        × (read_member parse_biomes b ≡ ok biomes)
    pub parsed : each (parse_section libc t) items ≡ ok ss

  abbrev pub chunk_of : List ChunkSection → Option (List ℕ) → Parsed
  chunk_of ss biomes =
      (anvil_ok, some (record { sections = ss; biomes = biomes; player_count = 0 }))

  parse_level-IsChunk :
      (n : Nbt) (ss : List ChunkSection) (biomes : Option (List ℕ)) (blocks : List Block)
      → IsChunk n ss biomes
      → nbt_free n ≡ ok blocks
      → parse_level libc t n ≡ (within_array 0 ss >>= λ sections. ok (chunk_of sections biomes))
  unfolding parse_level
  parse_level-IsChunk n ss biomes blocks c freed =
      let (s, has_s, items) = c.has_sections in
      let (b, has_b, ints) = c.has_biomes in
      rw
        (
          c.has_level,
          ◌>>=◌,
          has_s,
          ◌>>=◌,
          items,
          ◌>>=◌,
          parse_sections-each 0 c.items ss (omega arith) c.parsed,
          has_b,
          ◌>>=◌,
          ints,
          ◌>>=◌,
          freed,
          ◌>>=◌,
        )
        refl

  -- For a compound root whose tree fits the format and is that of a chunk (the data version is
  -- right, it has a level, its biomes are 1024 or not there, and each of its sections is parsed
  -- without a fault), with enough fuel and a length that covers the packed bytes:
  -- `anvil_parse_chunk` of what `nbt_pack` makes of it returns `ANVIL_OK` and the chunk with the
  -- sections in their order where there are at most 18, and writes behind the end of the array of
  -- sections where there are more.
  pub anvil_parse_chunk-nbt_pack :
      (name : Name) (cs : Children) (ss : List ChunkSection) (biomes : Option (List ℕ)) (f len : ℕ)
      (rest : List ℕ)
      → IsRootName name
      → ChildrenFit cs
      → children_nodes cs ≤ f
      → length (root_bytes name cs) ≤ len
      → len < 2 ^ 31
      → IsChunk (record { name = name; value = compound cs }) ss biomes
      → (bytes : List ℕ) × (nbt_pack (record { name = name; value = compound cs }) ≡ ok bytes)
        × (anvil_parse_chunk libc t f len (bytes ++ rest) ≡ (
            if leb (length ss) chunk_sections_len
            then ok (chunk_of ss biomes)
            else fault out_of_bounds))
  unfolding anvil_parse_chunk has_version
  anvil_parse_chunk-nbt_pack name cs ss biomes f len rest n fit enough fits small c =
      let (bytes, packed, unpacked) =
        nbt_unpack-nbt_pack name cs f len rest n fit enough fits small in
      let (v, has_v, is_v) = c.version in
      let (blocks, freed, _) = held (nbt_free_lem name cs n fit) in
      (
        bytes,
        packed,
        rw (unpacked, ◌>>=◌, has_v, ◌>>=◌, is_v, parse_level-IsChunk _ ss biomes blocks c freed)
            (within_array-map ss (λ sections. chunk_of sections biomes)),
      )
