-- ===== src/Anvil/File.antt =====
-- libs/anvil/anvil.c: a chunk that was stored in a file is loaded.
use chowder.Prelude.{
  ok_injective, ℕ, ◌+◌, ◌-◌, ◌*◌, ◌%◌, ◌^◌, ◌≤◌, ◌<◌, ◌≡◌, refl, sym, ap, ◌∙◌, true, false, List,
  [], ◌∷◌, ◌++◌, Option, some, leb, ltb, ◌==◌, length, take, drop, replicate, ok, ◌>>=◌, ◌>>◌,
  arith, take-append-drop, take-append,
}
use mathlib.Core.List.{append-nil}
use chowder.Prelude.Int.{ℤ}
use chowder.Prelude.Bytes.{be_bytes}
use chowder.Anvil.{Libc, BlockTable}
use chowder.Anvil.ReadChunk.{
  Zlib, low_bits, grown, inflate_chunk, read_compressed, anvil_read_chunk, get_chunk,
  anvil_get_chunk,
}
use chowder.Nbt.{Name, compound, Children}
use chowder.Nbt.Wire.{IsRootName, ChildrenFit, children_nodes}
use chowder.Nbt.Pack.{nbt_pack}
use chowder.Nbt.Written.{root_bytes, nbt_pack-root_bytes}
use chowder.Anvil.Parse.{anvil_ok, ChunkSection, chunk_sections_len, anvil_parse_chunk}
use chowder.Anvil.Chunks.{IsChunk, chunk_of, anvil_parse_chunk-nbt_pack}
use chowder.Anvil.Inflate.{
  Delivery, read_shifted-3, read_shifted-4, length-grown, inflate_loop-Left,
}

-- Where the file has the chunk at `x` and `z`: the place and the sectors in the header, and at the
-- place the length, the type of compression and the bytes.
pub record IsStored (file : List ℕ) (x z : ℤ) (compressed : List ℕ) : Type 0 where
  pub offset : ℕ
  pub sectors : ℕ
  pub after_header : List ℕ
  pub after_chunk : List ℕ
  pub header :
      drop (4 * (low_bits x + low_bits z * 32)) file ≡ be_bytes 3 offset ++ sectors ∷ after_header
  pub chunk :
      drop (offset * 4096) file
      ≡ be_bytes 4 (length compressed + 1) ++ 2 ∷ (compressed ++ after_chunk)
  pub some_sectors : 0 < sectors
  pub one_byte : sectors < 256
  pub near : offset * 4096 < 2 ^ 31
  pub some_bytes : 0 < length compressed
  pub short : length compressed + 1 < 2 ^ 31

take_stored :
    (len : ℕ) (compressed rest : List ℕ)
    → len ≡ length compressed
    → take len (compressed ++ rest) ≡ compressed
take_stored len compressed rest h =
    ap (λ (k : ℕ). take k (compressed ++ rest)) h ∙ take-append compressed rest

module _ {Z : Type 0} (zlib : Zlib Z) (libc : Libc) where
  read_compressed-stored :
      (compressed rest : List ℕ)
      → 0 < length compressed
      → length compressed + 1 < 2 ^ 31
      → read_compressed zlib libc (be_bytes 4 (length compressed + 1) ++ 2 ∷ (compressed ++ rest))
        ≡ ok (some compressed)
  unfolding read_compressed
  read_compressed-stored compressed rest h k =
      let len : (length compressed + 1 + 2 ^ 64 - 1) % 2 ^ 64 ≡ length compressed =
        omega (arith, k) in
      let any : (length compressed == 0) ≡ false = ground (arith, h) in
      rw
        (
          read_shifted-4 (length compressed + 1) (2 ∷ (compressed ++ rest)) k,
          ◌>>=◌,
          take_stored _ compressed rest len,
          any,
        )
        (ap (λ (k : ℕ). ok (some (compressed ++ replicate k libc.stale))) {y = 0} (omega (arith, k))
          ∙ ap (λ t. ok (some t)) (append-nil compressed))

  module _ (Left : Z → List ℕ → Type 0)
      (delivers : (stream : Z) (left : List ℕ) (avail_out : ℕ)
        → 0 < avail_out
        → Left stream left
        → Delivery zlib Left stream left avail_out) where
    -- The buffer grows from nothing to the sectors, and from there on by the loop.
    inflate_chunk-Left :
        (f sectors : ℕ) (compressed left : List ℕ) (stream : Z)
        → 0 < sectors
        → sectors < 256
        → zlib.inflate_init compressed ≡ some stream
        → Left stream left
        → length left < f
        → (buf : List ℕ) × (inflate_chunk zlib libc f compressed sectors []
            ≡ ok (anvil_ok, buf, length left))
          × (take (length left) buf ≡ left)
    unfolding inflate_chunk
    inflate_chunk-Left f sectors compressed left stream any few init h enough =
        let size : ℕ = sectors * 4096 % 2 ^ 64 in
        let is_size : size ≡ sectors * 4096 = omega (arith, few) in
        let room = grown libc.stale [] size in
        let wide : length room ≡ size =
          length-grown zlib libc Left delivers [] size (omega arith) in
        let (buf, run, text) =
          inflate_loop-Left zlib libc Left delivers f 0 (length room) stream left [] room
            (omega (arith, wide, is_size, any)) (omega arith) refl enough h in
        let grows : ltb 0 size ≡ true = ground (arith, is_size, any) in
        (
          buf,
          rw (inflate_chunk, init, grows, run)
              (ap (λ (k : ℕ). ok (anvil_ok, buf, k)) {x = 0 + length left} (omega arith)),
          ap (λ (k : ℕ). take k buf) {x = length left} {y = 0 + length left} (omega arith) ∙ text,
        )

    anvil_read_chunk-IsStored :
        (f : ℕ) (file : List ℕ) (x z : ℤ) (compressed left : List ℕ) (stream : Z)
        → IsStored file x z compressed
        → zlib.inflate_init compressed ≡ some stream
        → Left stream left
        → length left < f
        → (buf : List ℕ) × (anvil_read_chunk zlib libc f file x z []
            ≡ ok (anvil_ok, buf, length left))
          × (take (length left) buf ≡ left)
    unfolding anvil_read_chunk
    anvil_read_chunk-IsStored f file x z compressed left stream s init h enough =
        let (buf, run, text) =
          inflate_chunk-Left f s.sectors compressed left stream s.some_sectors s.one_byte init h
            enough in
        let near : ltb (s.offset * 4096) (2 ^ 31) ≡ true = ground (arith, s.near) in
        let present : (s.sectors == 0) ≡ false = ground (arith, s.some_sectors) in
        (
          buf,
          rw
              (
                s.header,
                read_shifted-3 s.offset (s.sectors ∷ s.after_header) (omega (arith, s.near)),
                ◌>>=◌,
                near,
                ◌>>◌,
                present,
                s.chunk,
                read_compressed-stored compressed s.after_chunk s.some_bytes s.short,
                ◌>>=◌,
                run,
              )
              refl,
          text,
        )

    -- Where each call of `inflate` with room for output delivers what is left of the data and ends,
    -- or fills the room and keeps the rest: when a file has at the place of a chunk its sector and
    -- a number of sectors, and there the length, the type and compressed bytes whose stream
    -- delivers what `nbt_pack` makes of a tree that fits the format and is that of a chunk with at
    -- most 18 sections, `anvil_get_chunk`, with a round for each byte and one more and as much fuel
    -- as the tree has nodes, ends and returns `ANVIL_OK` and that chunk.
    pub anvil_get_chunk_lem :
        (t : BlockTable) (f g : ℕ) (file : List ℕ) (x z : ℤ) (compressed bytes : List ℕ)
        (stream : Z) (name : Name) (cs : Children) (ss : List ChunkSection)
        (biomes : Option (List ℕ))
        → IsStored file x z compressed
        → zlib.inflate_init compressed ≡ some stream
        → Left stream bytes
        → nbt_pack (record { name = name; value = compound cs }) ≡ ok bytes
        → IsRootName name
        → ChildrenFit cs
        → IsChunk libc t (record { name = name; value = compound cs }) ss biomes
        → length ss ≤ chunk_sections_len
        → length bytes < f
        → length bytes < 2 ^ 31
        → children_nodes cs ≤ g
        → anvil_get_chunk zlib libc t f g file x z ≡ ok (chunk_of libc t ss biomes)
    unfolding anvil_get_chunk get_chunk
    anvil_get_chunk_lem t f g file x z compressed bytes stream name cs ss biomes s init h packed n
          fit c few enough small deep =
        let (buf, run, front) =
          anvil_read_chunk-IsStored f file x z compressed bytes stream s init h enough in
        let same : bytes ≡ root_bytes name cs =
          ok_injective _ _ (sym packed ∙ nbt_pack-root_bytes name cs n fit) in
        let len = ap length same in
        let (bytes', packed', parsed) =
          anvil_parse_chunk-nbt_pack libc t name cs ss biomes g (length bytes)
            (drop (length bytes) buf) n fit deep (omega (arith, len)) small c in
        let whole : bytes' ++ drop (length bytes) buf ≡ buf =
          ap (λ t. t ++ drop (length bytes) buf)
            (ok_injective _ _ (sym packed' ∙ packed) ∙ sym front)
          ∙ take-append-drop (length bytes) buf in
        let within : leb (length ss) chunk_sections_len ≡ true = ground (arith, few) in
        let result : anvil_parse_chunk libc t g (length bytes) buf
            ≡ ok (chunk_of libc t ss biomes) =
          ap (anvil_parse_chunk libc t g (length bytes)) (sym whole) ∙ parsed ∙ rw within refl in
        rw (run, ◌>>=◌, result, ◌>>=◌) refl
