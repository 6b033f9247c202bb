-- ===== src/Nbt/Parsed.antt =====
-- libs/nbt/nbt.c: the readers on bytes in the NBT format.
use chowder.Prelude.{
  ℕ, ◌+◌, ◌-◌, ◌*◌, ◌^◌, ◌<◌, ◌≤◌, ◌≡◌, refl, sym, ap, ◌∙◌, List, [], ◌∷◌, ◌++◌, length,
  length-append, All, arith, ok, ◌>>=◌, take, drop, some, length-drop, drop-drop, drop-append,
  take-append,
}
use mathlib.Core.Path.{ap₂}
use mathlib.Core.List.{append_assoc}
use native.Mathlib.Nat.{mod-eq_of_lt}
use chowder.Prelude.Bytes.{be_bytes, be_value, length-be_bytes, be_value-be_bytes}
use chowder.Nbt.{Name, null, chars, elements}
use chowder.Nbt.Pack.{write_elements}
use chowder.Nbt.Read.{
  sub_size, copy_out, nbt_read_bytes, nbt_read_number, nbt_read_string, array_size, nbt_read_array,
  swap_elements,
}
use chowder.Nbt.Written.{length-write_elements}
use chowder.Nbt.Wire.{wire_name, wire_elements, IsText, IsArray}

-- Where the bytes from `i` on start with `bytes`, they can be copied out.
pub copy_out-append :
    (n i : ℕ) (from bytes rest : List ℕ)
    → drop i from ≡ bytes ++ rest
    → i ≤ length from
    → length bytes ≡ n
    → copy_out n i from ≡ ok bytes
copy_out-append n i from bytes rest e inside size =
    rw (e, ← size) (ground (arith, take-append bytes rest, room))
  where
    room : i + length bytes ≤ length from
    room = omega (arith, ap length e, length-drop i from, length-append bytes rest)

pub nbt_read_bytes-append :
    (n i len : ℕ) (from bytes rest : List ℕ)
    → drop i from ≡ bytes ++ rest
    → i ≤ length from
    → length bytes ≡ n
    → i + n < len
    → nbt_read_bytes n i len from ≡ ok (some bytes)
unfolding nbt_read_bytes
nbt_read_bytes-append n i len from bytes rest e inside size fits =
    rw (copy_out-append n i from bytes rest e inside size, ◌>>=◌) (ground arith)

pub nbt_read_number-be_bytes :
    (n v i len : ℕ) (from rest : List ℕ)
    → drop i from ≡ be_bytes n v ++ rest
    → i ≤ length from
    → v < 256 ^ n
    → i + n < len
    → nbt_read_number n i len from ≡ ok (some v)
unfolding nbt_read_number
nbt_read_number-be_bytes n v i len from rest e inside small fits =
    rw
      (
        nbt_read_bytes-append n i len from (be_bytes n v) rest e inside (length-be_bytes n v) fits,
        ◌>>=◌,
        be_value-be_bytes n v small,
      )
      refl

-- What follows the bytes at `i`.
pub drop_past :
    (i : ℕ) (from xs ys : List ℕ) → drop i from ≡ xs ++ ys → drop (i + length xs) from ≡ ys
drop_past i from xs ys e =
    sym (drop-drop (length xs) i from) ∙ ap (drop (length xs)) e ∙ drop-append xs ys

pub drop_past_le :
    (i : ℕ) (from xs ys : List ℕ)
    → drop i from ≡ xs ++ ys
    → i ≤ length from
    → i + length xs ≤ length from
drop_past_le i from xs ys e inside =
    omega (arith, ap length e, length-drop i from, length-append xs ys)

pub sub_size-le : (a b : ℕ) → b ≤ a → a < 2 ^ 64 → sub_size a b ≡ a - b
sub_size-le a b h k = omega arith

pub nbt_read_string-wire_name :
    (old : Name) (cs rest : List ℕ) (len : ℕ) (from : List ℕ)
    → from ≡ wire_name (chars cs) ++ rest
    → IsText cs
    → 2 + length cs < len
    → nbt_read_string old len from ≡ ok (chars cs, 2 + length cs)
unfolding nbt_read_string wire_name
nbt_read_string-wire_name old cs rest len from e t fits =
    let e' = e ∙ append_assoc (be_bytes 2 (length cs)) cs rest in
    let after =
      ap (λ (k : ℕ). drop k from) {x = 2} {y = 0 + length (be_bytes 2 (length cs))}
        (omega (arith, length-be_bytes 2 (length cs)))
      ∙ drop_past 0 from (be_bytes 2 (length cs)) (cs ++ rest) e' in
    let inside = drop_past_le 0 from (be_bytes 2 (length cs)) (cs ++ rest) e' (omega arith) in
    rw
      (
        nbt_read_number-be_bytes 2 (length cs) 0 len from (cs ++ rest) e' (omega arith)
            (omega (arith, t.short)) (omega (arith, t.some_chars)),
        ◌>>=◌,
        nbt_read_bytes-append (length cs) 2 len from cs rest after
            (omega (arith, inside, length-be_bytes 2 (length cs))) refl fits,
        ◌>>=◌,
      )
      (ground (arith, t.some_chars))

pub swap-write_elements :
    (size : ℕ) (es : List ℕ)
    → All (λ e. e < 256 ^ size) es
    → swap_elements size (length es) (write_elements size es) ≡ es
unfolding swap_elements write_elements
swap-write_elements size [] h = refl
swap-write_elements size (e ∷ es) h =
    ap₂ (λ (v : ℕ) (vs : List ℕ). v ∷ vs)
      (ap be_value (
          ap (λ (n : ℕ). take n (be_bytes size e ++ write_elements size es))
            (sym (length-be_bytes size e))
          ∙ take-append (be_bytes size e) (write_elements size es))
        ∙ be_value-be_bytes size e h.0)
      (ap (swap_elements size (length es)) (
          ap (λ (n : ℕ). drop n (be_bytes size e ++ write_elements size es))
            (sym (length-be_bytes size e))
          ∙ drop-append (be_bytes size e) (write_elements size es))
        ∙ swap-write_elements size es h.1)

pub array_size-eq : (k size : ℕ) → k < 2 ^ 31 → k * size < 2 ^ 64 → array_size k size ≡ k * size
array_size-eq k size h fits = ground (arith, mod-eq_of_lt {n = k * size} {m = 2 ^ 64})

pub nbt_read_array-wire :
    (size : ℕ) (es rest : List ℕ) (len : ℕ) (from : List ℕ)
    → from ≡ wire_elements size (elements es) ++ rest
    → IsArray size (elements es)
    → 4 + length es * size < len
    → len < 2 ^ 31
    → nbt_read_array size len from ≡ ok (some (length es), some (write_elements size es))
unfolding nbt_read_array wire_elements
nbt_read_array-wire size es rest len from e a fits small =
    let e' = e ∙ append_assoc (be_bytes 4 (length es)) (write_elements size es) rest in
    let after =
      ap (λ (k : ℕ). drop k from) {x = 4} {y = 0 + length (be_bytes 4 (length es))}
        (omega (arith, length-be_bytes 4 (length es)))
      ∙ drop_past 0 from (be_bytes 4 (length es)) (write_elements size es ++ rest) e' in
    let inside =
      drop_past_le 0 from (be_bytes 4 (length es)) (write_elements size es ++ rest) e'
        (omega arith) in
    rw
      (
        nbt_read_number-be_bytes 4 (length es) 0 len from (write_elements size es ++ rest) e'
            (omega arith) (omega (arith, a.2)) (omega arith),
        ◌>>=◌,
        size_eq,
        copy_out-append (length es * size) 4 from (write_elements size es) rest after
            (omega (arith, inside, length-be_bytes 4 (length es))) (length-write_elements size es),
        ◌>>=◌,
      )
      (ground arith)
  where
    size_eq : array_size (length es) size ≡ length es * size
    size_eq = array_size-eq (length es) size a.2 (omega arith)

-- A length of zero is read as NULL.
pub nbt_read_string-empty :
    (old : Name) (rest : List ℕ) (len : ℕ) (from : List ℕ)
    → from ≡ be_bytes 2 0 ++ rest
    → 2 < len
    → nbt_read_string old len from ≡ ok (null, 2)
unfolding nbt_read_string
nbt_read_string-empty old rest len from e fits =
    rw (nbt_read_number-be_bytes 2 0 0 len from rest e (omega arith) (omega arith) fits, ◌>>=◌) refl
