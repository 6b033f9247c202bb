-- ===== src/Prelude/Bytes.antt =====
-- Big-endian byte strings: what `htons`, `htonl` and `htobe64` lay out, and their inverses read.
use chowder.Prelude.{
  ℕ, zero, suc, ◌+◌, ◌*◌, ◌/◌, ◌%◌, ◌^◌, ◌<◌, ◌≡◌, refl, sym, ap, ◌∙◌, arith, List, [], ◌∷◌, length,
  All,
}
use native.Mathlib.Nat.{pow-suc, div-add-mod, mod-lt, div-div-eq-div-mul, mod-eq_of_lt}

abbrev pub IsByte : ℕ → Type 0
IsByte b = b < 256

abbrev pub IsBytes : List ℕ → Type 0
IsBytes = All IsByte

-- The `n` lowest bytes of `v`, highest first.
unfoldable pub be_bytes : ℕ → ℕ → List ℕ
be_bytes zero v = []
be_bytes (suc n) v = (v / 256 ^ n % 256) ∷ be_bytes n v

unfoldable pub be_from : ℕ → List ℕ → ℕ
be_from acc [] = acc
be_from acc (b ∷ bs) = be_from (acc * 256 + b) bs

unfoldable pub be_value : List ℕ → ℕ
unfolding be_from
be_value bs = be_from 0 bs

pub length-be_bytes : (n v : ℕ) → length (be_bytes n v) ≡ n
unfolding be_bytes
length-be_bytes zero v = refl
length-be_bytes (suc n) v = ap suc (length-be_bytes n v)

pub be_bytes-IsBytes : (n v : ℕ) → IsBytes (be_bytes n v)
unfolding be_bytes
be_bytes-IsBytes zero v = tt
be_bytes-IsBytes (suc n) v = (mod-lt _ (omega arith), be_bytes-IsBytes n v)

-- One byte more of a truncation.
pub mod_byte : (n v : ℕ) → v % 256 ^ suc n ≡ v / 256 ^ n % 256 * 256 ^ n + v % 256 ^ n
mod_byte n v =
    let m : ℕ = 256 ^ n in
    let top : v / m / 256 ≡ v / 256 ^ suc n =
      div-div-eq-div-mul v m 256 ∙ ap (λ (t : ℕ). v / t) (sym (pow-suc 256 n)) in
    omega (
      arith,
      div-add-mod v m,
      div-add-mod v (256 ^ suc n),
      ap (λ (t : ℕ). m * t) (div-add-mod (v / m) 256),
      ap (λ (t : ℕ). m * t) top,
      ap (λ (t : ℕ). t * (v / 256 ^ suc n)) (pow-suc 256 n),
    )

-- The value is read back, above whatever was accumulated.
pub be_from-be_bytes : (n acc v : ℕ) → be_from acc (be_bytes n v) ≡ acc * 256 ^ n + v % 256 ^ n
unfolding be_from be_bytes
be_from-be_bytes zero acc v = omega arith
be_from-be_bytes (suc n) acc v =
    be_from-be_bytes n (acc * 256 + v / 256 ^ n % 256) v
    ∙ omega (arith, mod_byte n v, ap (λ (t : ℕ). acc * t) (pow-suc 256 n))

pub be_value-be_bytes : (n v : ℕ) → v < 256 ^ n → be_value (be_bytes n v) ≡ v
unfolding be_value
be_value-be_bytes n v h = omega (arith, be_from-be_bytes n 0 v, mod-eq_of_lt h)
