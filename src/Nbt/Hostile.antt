-- ===== src/Nbt/Hostile.antt =====
-- libs/nbt/nbt.c: inputs that announce more than they hold.
use chowder.Prelude.{
  ℕ, zero, suc, ◌+◌, ◌*◌, ◌^◌, ◌<◌, ◌≤◌, ◌≡◌, ◌≢◌, refl, List, ◌++◌, length, length-append, arith,
  Run, ok, fault, out_of_bounds, ◌>>=◌, if◌then◌else◌, true,
}
use native.Mathlib.Nat.{mul-le-mul_left}
use chowder.Prelude.Int.{ℤ, pos, negsuc, ltb_ℤ}
use chowder.Prelude.Bytes.{be_bytes, length-be_bytes}
use chowder.Nbt.{Children}
use chowder.Nbt.Read.{
  copy_out, nbt_read_array, next_elem, nbt_unpack_node_data, nbt_read_items, is_success, advance,
}
use chowder.Nbt.Parsed.{nbt_read_number-be_bytes, array_size-eq}

copy_past :
    (n i : ℕ) (bytes : List ℕ) → length bytes < i + n → copy_out n i bytes ≡ fault out_of_bounds
copy_past n i bytes h = ground arith

-- When an array of elements of at most 8 bytes announces `count` elements, less than 2 ^ 31, whose
-- bytes are more than the input has together with the announced length, and at least one byte
-- follows the length: `nbt_read_array` copies from behind the end of the input.
pub nbt_read_array_over_read :
    (size count : ℕ) (rest : List ℕ)
    → count < 2 ^ 31
    → size ≤ 8
    → 0 < length rest
    → 4 + length rest < count * size
    → nbt_read_array size (4 + length rest) (be_bytes 4 count ++ rest) ≡ fault out_of_bounds
unfolding nbt_read_array
nbt_read_array_over_read size count rest h h8 some_rest past =
    rw
      (
        nbt_read_number-be_bytes 4 count 0 (4 + length rest) (be_bytes 4 count ++ rest) rest refl
            (omega arith) (omega arith) (omega arith),
        ◌>>=◌,
        array_size-eq count size h (omega (arith, mul-le-mul_left count h8)),
        copy_past (count * size) 4 (be_bytes 4 count ++ rest)
            (omega (arith, length-append (be_bytes 4 count) rest, length-be_bytes 4 count)),
        ◌>>=◌,
      )
      (ground (arith, mul-le-mul_left count h8))

-- Within the range of an `int16_t`.
abbrev IsInt16 : ℤ → Type 0
IsInt16 (pos e) = e < 2 ^ 15
IsInt16 (negsuc e) = e < 2 ^ 15

next_elem-IsInt16 : (e : ℤ) → IsInt16 e → IsInt16 (next_elem e)
next_elem-IsInt16 (pos e) h = ground arith
next_elem-IsInt16 (negsuc zero) h = omega arith
next_elem-IsInt16 (negsuc (suc e)) h = omega arith

int16-lt : (e : ℤ) (n : ℕ) → IsInt16 e → 2 ^ 15 ≤ n → ltb_ℤ e (pos n) ≡ true
int16-lt (pos e) n h k = ground arith
int16-lt (negsuc e) n h k = ground arith

-- A round that ends in a fault, whatever the part before it did.
bind_fault {ℓ κ} :
    {A : Type ℓ} {B : Type κ} (m : Run A) (g : A → Run B) (r : B)
    → ((a : A) → g a ≢ ok r)
    → (m >>= g) ≢ ok r
bind_fault (ok a) g r h e = h a e
bind_fault (fault why) g r h e = cc

-- The part before never succeeds.
bind_no_ok {ℓ κ} :
    {A : Type ℓ} {B : Type κ} (m : Run A) (g : A → Run B) (r : B)
    → ((a : A) → m ≢ ok a)
    → (m >>= g) ≢ ok r
bind_no_ok (ok a) g r h e = h a refl
bind_no_ok (fault why) g r h e = cc

-- When a list announces 2 ^ 15 items or more, the loop of `nbt_read_list` returns no result from
-- any `int16_t` counter, whatever the fuel, the tag of the items and the input.
pub nbt_read_items_forever :
    (f t n i len : ℕ) (e : ℤ) (from : List ℕ) (r : Children × ℕ)
    → IsInt16 e
    → 2 ^ 15 ≤ n
    → nbt_read_items f t e (pos n) i len from ≢ ok r
unfolding nbt_read_items
nbt_read_items_forever zero t n i len e from r h big = λ eq. cc
nbt_read_items_forever (suc f) t n i len e from r h big = rw (int16-lt e n h big) (
    bind_fault (nbt_unpack_node_data f t i len from) _ r λ v.
      bind_no_ok
        (nbt_read_items f t (next_elem e) (pos n) (if is_success v.1 then advance i v.1 else i) len
          from)
        _ r
        (λ q.
          nbt_read_items_forever f t n (if is_success v.1 then advance i v.1 else i) len
            (next_elem e) from q (next_elem-IsInt16 e h) big))
