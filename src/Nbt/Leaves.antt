-- ===== src/Nbt/Leaves.antt =====
-- libs/nbt/nbt.c: `nbt_unpack_node_data` on the bytes of a value that holds no other tags.
use chowder.Prelude.{
  ℕ, ◌+◌, ◌*◌, ◌^◌, ◌<◌, ◌≤◌, ◌≡◌, refl, ap, List, [], ◌∷◌, ◌++◌, length, length-append, All, arith,
  ok, ◌>>=◌, drop, get_elem?-cons-drop,
}
use mathlib.Core.Path.{ap₂}
use chowder.Prelude.Int.{pos}
use chowder.Prelude.Bytes.{be_bytes, length-be_bytes}
use chowder.Nbt.{Elements, elements, NbtData, t_byte, byte_array}
use chowder.Nbt.Pack.{write_elements}
use chowder.Nbt.Read.{
  nbt_read_number, nbt_read_byte_array, nbt_read_number_array, nbt_unpack_leaf, number_or_unset,
}
use chowder.Nbt.Written.{length-write_elements}
use chowder.Nbt.Parsed.{nbt_read_number-be_bytes, nbt_read_array-wire, swap-write_elements}
use chowder.Nbt.Wire.{wire_elements, IsArray}

pub leaf_byte :
    (b i len : ℕ) (bytes rest : List ℕ)
    → drop i bytes ≡ b ∷ rest
    → i < len
    → nbt_unpack_leaf 1 i len bytes ≡ ok (t_byte b, pos 1)
unfolding nbt_unpack_leaf
leaf_byte b i len bytes rest e fits = ground (arith, get_elem?-cons-drop i bytes e)

-- A number of `n` bytes, whatever its tag.
pub number-be_bytes :
    (t n v i len : ℕ) (make : ℕ → NbtData) (bytes rest : List ℕ)
    → drop i bytes ≡ be_bytes n v ++ rest
    → i ≤ length bytes
    → v < 256 ^ n
    → i + length (be_bytes n v) < len
    → number_or_unset t n make (nbt_read_number n i len bytes)
      ≡ ok (make v, pos (length (be_bytes n v)))
number-be_bytes t n v i len make bytes rest e inside small fits =
    rw
      (
        nbt_read_number-be_bytes n v i len bytes rest e inside small
            (omega (arith, length-be_bytes n v)),
        ◌>>=◌,
        length-be_bytes n v,
      )
      refl

length_elements :
    (size : ℕ) (es : List ℕ) → length (wire_elements size (elements es)) ≡ 4 + length es * size
unfolding wire_elements
length_elements size es = omega (
  arith,
  length-append (be_bytes 4 (length es)) (write_elements size es),
  length-be_bytes 4 (length es),
  length-write_elements size es,
)

single : (es : List ℕ) → All (λ e. e < 256) es → write_elements 1 es ≡ es
unfolding write_elements be_bytes
single [] h = refl
single (e ∷ es) h = ap₂ (λ (x : ℕ) (xs : List ℕ). x ∷ xs) (omega (arith, h.0)) (single es h.1)

pub byte_array-wire :
    (es rest : List ℕ) (len : ℕ) (from : List ℕ)
    → from ≡ wire_elements 1 (elements es) ++ rest
    → IsArray 1 (elements es)
    → length (wire_elements 1 (elements es)) < len
    → len < 2 ^ 31
    → nbt_read_byte_array len from
      ≡ ok (byte_array (elements es), pos (length (wire_elements 1 (elements es))))
unfolding nbt_read_byte_array
byte_array-wire es rest len from e a fits small =
    rw
      (
        nbt_read_array-wire 1 es rest len from e a (omega (arith, length_elements 1 es)) small,
        ◌>>=◌,
        single es a.0,
        length_elements 1 es,
      )
      (ap (λ (n : ℕ). ok (byte_array (elements es), pos (4 + n))) {x = length es}
        {y = length es * 1} (omega arith))

pub number_array-wire :
    (make : Elements → NbtData) (size : ℕ) (es rest : List ℕ) (len : ℕ) (from : List ℕ)
    → from ≡ wire_elements size (elements es) ++ rest
    → IsArray size (elements es)
    → length (wire_elements size (elements es)) < len
    → len < 2 ^ 31
    → nbt_read_number_array make size len from
      ≡ ok (make (elements es), pos (length (wire_elements size (elements es))))
unfolding nbt_read_number_array
number_array-wire make size es rest len from e a fits small =
    rw
      (
        nbt_read_array-wire size es rest len from e a (omega (arith, length_elements size es))
            small,
        ◌>>=◌,
        swap-write_elements size es a.0,
        length-write_elements size es,
        length_elements size es,
      )
      refl
