-- ===== src/Anvil/ReadChunk.antt =====
-- libs/anvil/anvil.c: a chunk out of the file of a region. The file is a list of bytes; a shift that
-- an `int` has no room for, as one of the -1 at the end of the file, is a fault.
use chowder.Prelude.{
  ℕ, zero, suc, ◌+◌, ◌-◌, ◌*◌, ◌%◌, ◌^◌, Bool, true, false, ◌&&◌, List, [], ◌∷◌, ◌++◌, Option, none,
  some, if◌then◌else◌, leb, ltb, ◌==◌, length, take, drop, splice, get_elem?, replicate, Run, ok,
  fault, need, assert, assertion, out_of_bounds, no_fuel, ◌>>=◌, ◌>>◌,
}
use chowder.Prelude.Int.{ℤ, pos, negsuc}
use chowder.Anvil.{Libc, BlockTable}
use chowder.Anvil.Parse.{
  AnvilErr, anvil_ok, anvil_chunk_missing, anvil_read_error, anvil_zlib_error, Parsed,
  anvil_parse_chunk,
}

-- What `inflate` returns.
pub data ZErr : Type 0 where
  z_ok z_stream_end z_buf_error z_other : ZErr

-- zlib: a stream over a block of input, and a call with this much room for output, which gives the
-- bytes that it writes and the stream as it then is.
pub record Zlib (Z : Type 0) : Type 0 where
  pub inflate_init : List ℕ → Option Z
  pub inflate : Z → ℕ → ZErr × List ℕ × Z

-- `x & 31`
unfoldable pub low_bits : ℤ → ℕ
low_bits (pos n) = n % 32
low_bits (negsuc n) = 31 - n % 32

-- `for (int i = ...; i >= 0; --i) sum += fgetc(f) << (8 * i)`, with the file from there on.
unfoldable pub read_shifted : ℕ → ℕ → List ℕ → Run (ℕ × List ℕ)
read_shifted zero sum file = ok (sum, file)
read_shifted (suc i) sum [] = fault out_of_bounds
read_shifted (suc i) sum (b ∷ file) =
    let more = read_shifted i (sum + b * 2 ^ (8 * i)) file in
    if ltb (b * 2 ^ (8 * i)) (2 ^ 31) then more else fault out_of_bounds

-- `sectors = fgetc(f)`, with -1 at the end of the file.
abbrev pub sectors_of : List ℕ → ℕ
sectors_of [] = 2 ^ 64 - 1
sectors_of (b ∷ file) = b

-- `reallocarray` to `len` bytes, which are more than there were.
abbrev pub grown : ℕ → List ℕ → ℕ → List ℕ
grown stale buf len = buf ++ replicate (len - length buf) stale

abbrev pub needs_room : ZErr → ℕ → Bool
needs_room z_buf_error avail_out = true
needs_room z_ok avail_out = avail_out == 0
needs_room _ avail_out = false

abbrev pub Inflated : Type 0
Inflated = ZErr × List ℕ × ℕ

module _ {Z : Type 0} (zlib : Zlib Z) (libc : Libc) where
  -- The loop: the last result, the buffer and `total_out`. `inflate` writes at `next_out`.
  unfoldable pub inflate_loop : ℕ → Z → List ℕ → ℕ → ℕ → ℕ → Run Inflated
  inflate_loop zero stream chunk next_out avail_out total_out = fault no_fuel
  inflate_loop (suc f) stream chunk next_out avail_out total_out =
      let (z_err, out, stream') = zlib.inflate stream avail_out in
      let chunk' = splice chunk next_out out in
      let total = total_out + length out in
      let more =
        inflate_loop f stream' (grown libc.stale chunk' (length chunk + 4096)) total 4096 total in
      if leb (next_out + length out) (length chunk)
      then (if needs_room z_err (avail_out - length out) then more else ok (z_err, chunk', total))
      else fault out_of_bounds

  abbrev pub ReadChunk : Type 0
  ReadChunk = AnvilErr × List ℕ × ℕ

  abbrev pub inflate_result : Inflated → ReadChunk
  inflate_result (z_stream_end, chunk, total) = (anvil_ok, chunk, total)
  inflate_result (_, chunk, total) = (anvil_zlib_error, chunk, 0)

  -- From `inflateInit` on.
  unfoldable pub inflate_chunk : ℕ → List ℕ → ℕ → List ℕ → Run ReadChunk
  inflate_chunk f compressed sectors chunk =
      let size = sectors * 4096 % 2 ^ 64 in
      let room = if ltb (length chunk) size then grown libc.stale chunk size else chunk in
      elim (zlib.inflate_init compressed) [
        | none ↦ ok (anvil_zlib_error, chunk, 0)
        | some stream ↦ do r ← inflate_loop f stream room 0 (length room) 0; ok (inflate_result r)
      ]

  -- The file from the chunk on: its length, the type of compression, and its bytes. What was not in
  -- the file is whatever the block held.
  unfoldable pub read_compressed : List ℕ → Run (Option (List ℕ))
  read_compressed file = do
    (len, file) ← read_shifted 4 0 file
    let compressed_len = (len + 2 ^ 64 - 1) % 2 ^ 64
    type ← need assertion (get_elem? file 0)
    assert (type == 2)
    let bytes = take compressed_len (drop 1 file)
    ok (if length bytes == 0 then none else some (grown libc.stale bytes compressed_len))

  -- The error, the buffer and the number of bytes in it.
  unfoldable pub anvil_read_chunk : ℕ → List ℕ → ℤ → ℤ → List ℕ → Run ReadChunk
  anvil_read_chunk f file x z chunk = do
    (offset, rest) ← read_shifted 3 0 (drop (4 * (low_bits x + low_bits z * 32)) file)
    (if ltb (offset * 4096) (2 ^ 31) then ok tt else fault out_of_bounds)
    let sectors = sectors_of rest
    let found = do
      compressed ← read_compressed (drop (offset * 4096) file)
      elim compressed [
        | none ↦ ok (anvil_read_error, chunk, 0)
        | some bytes ↦ inflate_chunk f bytes sectors chunk
      ]
    if sectors == 0 && offset * 4096 == 0 then ok (anvil_chunk_missing, chunk, 0) else found

  -- The fuels are those of the loop over `inflate` and of `nbt_unpack`.
  unfoldable pub get_chunk : BlockTable → ℕ → ℕ → List ℕ → ℤ → ℤ → List ℕ → Run (Parsed × List ℕ)
  get_chunk block_table f g file x z chunk_buf = do
    (err, chunk_buf, chunk_data_len) ← anvil_read_chunk f file x z chunk_buf
    let parsed = anvil_parse_chunk libc block_table g chunk_data_len chunk_buf
    let read = (do out ← parsed; ok (out, chunk_buf))
    elim err [ anvil_ok ↦ read | other ↦ ok ((other, none), chunk_buf) ]

  unfoldable pub anvil_get_chunk : BlockTable → ℕ → ℕ → List ℕ → ℤ → ℤ → Run Parsed
  anvil_get_chunk block_table f g file x z = do
    (out, chunk_buf) ← get_chunk block_table f g file x z []
    ok out
