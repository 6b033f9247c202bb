-- ===== src/Nbt/Read.antt =====
-- libs/nbt/nbt.c: `nbt_unpack` and the functions below it. A pointer into the input is the list of
-- the bytes from there on, which may be longer than the `len` that the caller announces. The input
-- is shorter than 2 ^ 31 bytes, so a `size_t` offset that is returned as an `int` keeps its value.
use chowder.Prelude.{
  ℕ, zero, suc, ◌+◌, ◌-◌, ◌*◌, ◌%◌, ◌^◌, Bool, false, ◌&&◌, List, [], ◌∷◌, Option, none, some,
  if◌then◌else◌, ltb, leb, ◌==◌, length, take, drop, get_elem?, Run, ok, fault, need, out_of_bounds,
  no_fuel, uninitialized, ◌>>=◌,
}
use mathlib.Core.Option
use chowder.Prelude.Int.{ℤ, pos, negsuc, ltb_ℤ}
use chowder.Prelude.Bytes.{be_value}
use chowder.Nbt.{
  Name, dangling, null, chars, garbage, Elements, unread, elements, NbtData, unset, t_byte, t_short,
  t_int, t_long, t_float, t_double, byte_array, int_array, long_array, string, list, compound,
  Children, empty, child, tag_end, tag_compound,
}

-- `a - b` on `size_t`
abbrev pub sub_size : ℕ → ℕ → ℕ
sub_size a b = (a + 2 ^ 64 - b) % 2 ^ 64

-- `memcpy(dest, bytes + i, n)`: what `dest` then holds.
abbrev pub copy_out : ℕ → ℕ → List ℕ → Run (List ℕ)
copy_out n i bytes =
    if leb (i + n) (length bytes) then ok (take n (drop i bytes)) else fault out_of_bounds

-- `none` is -1.
unfoldable pub nbt_read_bytes : ℕ → ℕ → ℕ → List ℕ → Run (Option (List ℕ))
nbt_read_bytes n i len bytes =
    let copy = do copied ← copy_out n i bytes; ok (some copied)
    in if ltb n len && ltb i (len - n) then copy else ok none

-- `nbt_read_short`, `nbt_read_int` and `nbt_read_long`: `n` bytes, highest first.
unfoldable pub nbt_read_number : ℕ → ℕ → ℕ → List ℕ → Run (Option ℕ)
unfolding nbt_read_bytes
nbt_read_number n i len bytes = do
  copied ← nbt_read_bytes n i len bytes
  ok (Option.map be_value copied)

abbrev pub nbt_read_short : ℕ → ℕ → List ℕ → Run (Option ℕ)
nbt_read_short = nbt_read_number 2

abbrev pub nbt_read_int : ℕ → ℕ → List ℕ → Run (Option ℕ)
nbt_read_int = nbt_read_number 4

abbrev pub nbt_read_long : ℕ → ℕ → List ℕ → Run (Option ℕ)
nbt_read_long = nbt_read_number 8

-- The string and the bytes it took. With no length to read, `*name` is what it was; with too few
-- characters it is a block of which nothing is written.
unfoldable pub nbt_read_string : Name → ℕ → List ℕ → Run (Name × ℕ)
nbt_read_string name len bytes = do
  name_len ← nbt_read_short 0 len bytes
  elim name_len [
    | none ↦ ok (name, 0)
    | some k ↦
        let body = do
          copied ← nbt_read_bytes k 2 len bytes
          elim copied [ none ↦ ok (garbage, 2) | some cs ↦ ok (chars cs, 2 + k) ]
        in if k == 0 then ok (null, 2) else body
  ]

-- `a->len * elem_bytes` for the pattern of an `int32_t`, on `size_t`.
abbrev pub array_size : ℕ → ℕ → ℕ
array_size count elem_bytes =
    (if ltb count (2 ^ 31) then count else count + 2 ^ 64 - 2 ^ 32) * elem_bytes % 2 ^ 64

-- The bytes of the array and the result; a length that was read is handed on with `none`. The
-- source of the `memcpy` ends where the input ends.
unfoldable pub nbt_read_array : ℕ → ℕ → List ℕ → Run (Option ℕ × Option (List ℕ))
nbt_read_array elem_bytes len bytes = do
  count ← nbt_read_int 0 len bytes
  elim count [
    | none ↦ ok (none, none)
    | some k ↦
        let copy = do copied ← copy_out (array_size k elem_bytes) 4 bytes; ok (some k, some copied)
        in if ltb 4 (sub_size len (array_size k elem_bytes)) then copy else ok (some k, none)
  ]

-- `n` numbers of `size` bytes, highest byte first: the loops with `ntohl` and `be64toh`.
unfoldable pub swap_elements : ℕ → ℕ → List ℕ → List ℕ
swap_elements size zero bytes = []
swap_elements size (suc n) bytes =
    be_value (take size bytes) ∷ swap_elements size n (drop size bytes)

unfoldable pub nbt_read_byte_array : ℕ → List ℕ → Run (NbtData × ℤ)
unfolding nbt_read_array
nbt_read_byte_array len bytes = do
  (count, content) ← nbt_read_array 1 len bytes
  ok (elim content [
    | none ↦ (byte_array unread, negsuc 0)
    | some bs ↦ (byte_array (elements bs), pos (4 + length bs))
  ])

-- `nbt_read_int_array` and `nbt_read_long_array`. The loop runs even where nothing was read: then
-- its bound or its pointer was not set, unless the length that was read is not positive.
unfoldable pub nbt_read_number_array : (Elements → NbtData) → ℕ → ℕ → List ℕ → Run (NbtData × ℤ)
unfolding nbt_read_array swap_elements
nbt_read_number_array make size len bytes = do
  (count, content) ← nbt_read_array size len bytes
  k ← need uninitialized count
  elim content [
    | none ↦ if ltb 0 k && ltb k (2 ^ 31) then fault uninitialized else ok (make unread, negsuc 0)
    | some bs ↦ ok (make (elements (swap_elements size k bs)), pos (4 + length bs))
  ]

-- A number, or the tag with its member not set.
abbrev pub number_or_unset : ℕ → ℕ → (ℕ → NbtData) → Run (Option ℕ) → Run (NbtData × ℤ)
number_or_unset t n make read = do
  v ← read
  ok (elim v [ none ↦ (unset t, negsuc 0) | some w ↦ (make w, pos n) ])

-- The cases of `nbt_unpack_node_data` for the tags that hold no other tags.
unfoldable pub nbt_unpack_leaf : ℕ → ℕ → ℕ → List ℕ → Run (NbtData × ℤ)
unfolding nbt_read_number nbt_read_byte_array nbt_read_number_array nbt_read_string
nbt_unpack_leaf t i len bytes =
    if t == 1
    then (if ltb i len
        then (do b ← need out_of_bounds (get_elem? bytes i); ok (t_byte b, pos 1))
        else ok (unset t, negsuc 0))
    else if t == 2
    then number_or_unset t 2 t_short (nbt_read_short i len bytes)
    else if t == 3
    then number_or_unset t 4 t_int (nbt_read_int i len bytes)
    else if t == 4
    then number_or_unset t 8 t_long (nbt_read_long i len bytes)
    else if t == 5
    then number_or_unset t 4 t_float (nbt_read_int i len bytes)
    else if t == 6
    then number_or_unset t 8 t_double (nbt_read_long i len bytes)
    else if t == 7
    then nbt_read_byte_array (sub_size len i) (drop i bytes)
    else if t == 8
    then (do
      (s, n) ← nbt_read_string dangling (sub_size len i) (drop i bytes)
      ok (string s, pos n))
    else if t == 11
    then nbt_read_number_array int_array 4 (sub_size len i) (drop i bytes)
    else if t == 12
    then nbt_read_number_array long_array 8 (sub_size len i) (drop i bytes)
    else ok (unset t, negsuc 1)

-- `++elem` on an `int16_t`
abbrev pub next_elem : ℤ → ℤ
next_elem (pos e) = if e == 32767 then negsuc 32767 else pos (e + 1)
next_elem (negsuc zero) = pos 0
next_elem (negsuc (suc e)) = negsuc e

abbrev pub is_success : ℤ → Bool
is_success (pos n) = ltb 0 n
is_success (negsuc n) = false

-- `i += n` where `n` is positive
abbrev pub advance : ℕ → ℤ → ℕ
advance i (pos n) = i + n
advance i (negsuc n) = i

-- The pattern of an `int32_t` as an integer.
abbrev pub int32 : ℕ → ℤ
int32 w = if ltb w (2 ^ 31) then pos w else negsuc (2 ^ 32 - w - 1)

-- The fuel bounds the depth of the calls and the rounds of the loops. `none` is the -1 that
-- `nbt_unpack_node` returns.
unfoldable mutual
  pub nbt_unpack_node_data : ℕ → ℕ → ℕ → ℕ → List ℕ → Run (NbtData × ℤ)
  nbt_unpack_node_data zero t i len bytes = fault no_fuel
  nbt_unpack_node_data (suc f) t i len bytes =
      let items = nbt_read_list f (sub_size len i) (drop i bytes) in
      let children = do
        (cs, end) ← nbt_unpack_node f i len bytes
        ok (compound cs, elim end [ none ↦ negsuc i | some j ↦ pos (j - i) ])
      in if t == 9
        then items
        else if t == tag_compound
        then (if ltb i len then children else ok (unset t, negsuc 0))
        else nbt_unpack_leaf t i len bytes

  pub nbt_read_list : ℕ → ℕ → List ℕ → Run (NbtData × ℤ)
  nbt_read_list zero len bytes = fault no_fuel
  nbt_read_list (suc f) len bytes = do
    t ← need out_of_bounds (get_elem? bytes 0)
    list_len ← nbt_read_int 1 len bytes
    elim list_len [
      | none ↦ ok (list t empty, negsuc 0)
      | some n ↦ do
        (items, i) ← nbt_read_items f t (pos 0) (int32 n) 5 len bytes
        ok (list t items, pos i)
    ]

  -- The loop of `nbt_read_list`. The `int n` inside it hides the one that its test reads, so a
  -- failure does not end it.
  pub nbt_read_items : ℕ → ℕ → ℤ → ℤ → ℕ → ℕ → List ℕ → Run (Children × ℕ)
  nbt_read_items zero t elem list_len i len bytes = fault no_fuel
  nbt_read_items (suc f) t elem list_len i len bytes =
      let round = do
        (item, n) ← nbt_unpack_node_data f t i len bytes
        (items, j) ←
            nbt_read_items f t (next_elem elem) list_len (if is_success n then advance i n else i)
              len bytes
        ok (child null item items, j)
      in if ltb_ℤ elem list_len then round else ok (empty, i)

  pub nbt_unpack_node : ℕ → ℕ → ℕ → List ℕ → Run (Children × Option ℕ)
  nbt_unpack_node zero i len bytes = fault no_fuel
  nbt_unpack_node (suc f) i len bytes =
      let round = λ (t : ℕ). do
        (name, k) ← nbt_read_string dangling (sub_size len (i + 1)) (drop (i + 1) bytes)
        (value, n) ← nbt_unpack_node_data f t (i + 1 + k) len bytes
        let more = do
          (cs, end) ← nbt_unpack_node f (advance (i + 1 + k) n) len bytes
          ok (child name value cs, end)
        if is_success n then more else ok (child name value empty, none)
      in let step = do
        t ← need out_of_bounds (get_elem? bytes i)
        if t == tag_end then ok (empty, some (i + 1)) else round t
        in if ltb i len then step else ok (empty, some (i + 1))
