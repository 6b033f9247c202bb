-- ===== src/Prelude/Bits.antt =====
-- `|` and `&` on machine words as arithmetic: one binary digit at a time, then at every shift.
mod Digits
use Digits.{bit_or_digit, bit_and_digit}
use Prim.Native.Nat.{
  ℕ, zero, suc, ◌+◌, ◌-◌, ◌*◌, ◌/◌, ◌%◌, ◌^◌, ◌≤◌, ◌<◌, min, max, bit_and, bit_or, bit_or-bitwise,
}
use mathlib.Core.Path.{◌≡◌, refl, ap, ◌∙◌, sym}
use native.Mathlib.Nat.{
  pow-suc, one-le-pow, div-div-eq-div-mul, div-add-mod, div-eq_of_lt, div-lt_iff_lt-mul,
  mul-div_cancel, mul-mod_left, mod-eq_of_lt, div_self, mod_self,
}
use native.Mathlib.Omega.{arith}

-- `x >> k` and `x << k` before any wrap.
infixl 75 ◌>>>◌ ◌<<<◌
abbrev pub ◌>>>◌ : ℕ → ℕ → ℕ
x >>> k = x / 2 ^ k

abbrev pub ◌<<<◌ : ℕ → ℕ → ℕ
x <<< k = x * 2 ^ k

pub two_pow_pos : (k : ℕ) → 0 < 2 ^ k
two_pow_pos k = one-le-pow k 2 (omega arith)

-- One more digit of a shift to the right.
shift_digit : (a k : ℕ) → a / 2 / 2 ^ k ≡ a / 2 ^ suc k
shift_digit a k = div-div-eq-div-mul a 2 (2 ^ k) ∙ ap (λ (t : ℕ). a / t) (omega arith)

bit_or_half : (a b : ℕ) → bit_or a b / 2 ≡ bit_or (a / 2) (b / 2)
bit_or_half a b = omega (arith, bit_or_digit a b)

bit_and_half : (a b : ℕ) → bit_and a b / 2 ≡ bit_and (a / 2) (b / 2)
bit_and_half a b = omega (arith, bit_and_digit a b)

-- A shift to the right goes through `|`.
pub bit_or-shift : (k a b : ℕ) → bit_or a b / 2 ^ k ≡ bit_or (a / 2 ^ k) (b / 2 ^ k)
bit_or-shift zero a b = rw (div_one, div_one, div_one)
  where
    div_one : {n : ℕ} → n / 2 ^ zero ≡ n
    div_one {n} = omega arith
bit_or-shift (suc k) a b =
    rw (← shift_digit, ← shift_digit, ← shift_digit, bit_or_half) (bit_or-shift k (a / 2) (b / 2))

pub bit_and-shift : (k a b : ℕ) → bit_and a b / 2 ^ k ≡ bit_and (a / 2 ^ k) (b / 2 ^ k)
bit_and-shift zero a b = simp pow_zero_div
  where
    pow_zero_div : (n : ℕ) → n / 2 ^ zero ≡ n
    pow_zero_div n = omega arith
bit_and-shift (suc k) a b = simp (← shift_digit, bit_and_half) (bit_and-shift k (a / 2) (b / 2))

-- One more digit of a truncation.
mod_digit : (a k : ℕ) → a % 2 ^ suc k ≡ a / 2 % 2 ^ k * 2 + a % 2
mod_digit a k = omega (
  arith,
  div-add-mod a (2 ^ suc k),
  div-add-mod (a / 2) (2 ^ k),
  ap (λ (t : ℕ). 2 ^ suc k * t) (shift_digit a k),
  ap (λ (t : ℕ). t * (a / 2 / 2 ^ k)) (pow-suc 2 k),
)

mod_half : (a k : ℕ) → a % 2 ^ suc k / 2 ≡ a / 2 % 2 ^ k
mod_half a k = omega (arith, mod_digit a k)

mod_parity : (a k : ℕ) → a % 2 ^ suc k % 2 ≡ a % 2
mod_parity a k = omega (arith, mod_digit a k)

mod_one : (n : ℕ) → n % 2 ^ zero ≡ 0
mod_one n = omega arith

-- A truncation goes through `|`.
pub bit_or-mod : (k a b : ℕ) → bit_or a b % 2 ^ k ≡ bit_or (a % 2 ^ k) (b % 2 ^ k)
bit_or-mod zero a b = simp mod_one
bit_or-mod (suc k) a b =
    rw (bit_or_digit (a % 2 ^ suc k) (b % 2 ^ suc k), mod_half, mod_half, mod_parity, mod_parity)
      (rw (mod_digit, bit_or_half, bit_or-mod k (a / 2) (b / 2)) (omega (arith, bit_or_digit a b)))

bit_and-zero_upto : (n a : ℕ) → a ≤ n → bit_and a 0 ≡ 0
bit_and-zero_upto n zero h = refl
bit_and-zero_upto zero (suc a) h = absurd (omega arith)
bit_and-zero_upto (suc n) (suc a) h =
    omega (arith, bit_and_digit (suc a) 0, bit_and-zero_upto n (suc a / 2) (omega arith))

pub bit_and-zero : (a : ℕ) → bit_and a 0 ≡ 0
bit_and-zero a = bit_and-zero_upto a a (omega arith)

-- A mask of `k` ones truncates.
pub bit_and_mask : (k a : ℕ) → bit_and a (2 ^ k - 1) ≡ a % 2 ^ k
bit_and_mask zero a = rw mod_one (bit_and-zero a)
bit_and_mask (suc k) a = omega (
  arith,
  bit_and_digit a (2 ^ suc k - 1),
  ap (bit_and (a / 2)) halved,
  bit_and_mask k (a / 2),
  mod_digit a k,
  two_pow_pos k,
)
  where
    halved : (2 ^ suc k - 1) / 2 ≡ 2 ^ k - 1
    halved = omega (arith, two_pow_pos k)

bit_or-zero_upto : (n a : ℕ) → a ≤ n → bit_or a 0 ≡ a
bit_or-zero_upto n zero h = refl
bit_or-zero_upto zero (suc a) h = absurd (omega arith)
bit_or-zero_upto (suc n) (suc a) h =
    omega (arith, bit_or_digit (suc a) 0, bit_or-zero_upto n (suc a / 2) (omega arith))

pub bit_or-zero : (a : ℕ) → bit_or a 0 ≡ a
bit_or-zero a = bit_or-zero_upto a a (omega arith)

pub zero-bit_or : (b : ℕ) → bit_or 0 b ≡ b
zero-bit_or b = simp bit_or-bitwise

-- `|` of fields that do not overlap is a sum.
pub bit_or_disjoint : (k q r : ℕ) → r < 2 ^ k → bit_or (q * 2 ^ k) r ≡ q * 2 ^ k + r
bit_or_disjoint k q r h =
    omega
      (arith, div-add-mod (bit_or (q * 2 ^ k) r) (2 ^ k), high, low, ap (λ (t : ℕ). 2 ^ k * t) high)
  where
    high : bit_or (q * 2 ^ k) r / 2 ^ k ≡ q
    high = rw (bit_or-shift, mul-div_cancel q (two_pow_pos k), div-eq_of_lt h) (bit_or-zero q)

    low : bit_or (q * 2 ^ k) r % 2 ^ k ≡ r
    low = rw (bit_or-mod, mul-mod_left q (2 ^ k), mod-eq_of_lt h) (zero-bit_or r)

-- `|` of numbers of `k` bits has `k` bits.
pub bit_or-lt : (k a b : ℕ) → a < 2 ^ k → b < 2 ^ k → bit_or a b < 2 ^ k
bit_or-lt k a b ha hb = omega (arith, (div-lt_iff_lt-mul {y = 1} (two_pow_pos k)).0 small)
  where
    small : bit_or a b / 2 ^ k < 1
    small = rw (bit_or-shift, div-eq_of_lt ha, div-eq_of_lt hb) (omega (arith, zero-bit_or 0))

bit_or_comm_upto : (n a b : ℕ) → a ≤ n → bit_or a b ≡ bit_or b a
bit_or_comm_upto n zero b h = rw (zero-bit_or, bit_or-zero)
bit_or_comm_upto zero (suc a) b h = absurd (omega arith)
bit_or_comm_upto (suc n) (suc a) b h = omega (
  arith,
  bit_or_digit (suc a) b,
  bit_or_digit b (suc a),
  bit_or_comm_upto n (suc a / 2) (b / 2) (omega arith),
)

pub bit_or_comm : (a b : ℕ) → bit_or a b ≡ bit_or b a
bit_or_comm a b = bit_or_comm_upto a a b (omega arith)

bit_or_assoc_upto : (n a b c : ℕ) → a ≤ n → bit_or (bit_or a b) c ≡ bit_or a (bit_or b c)
bit_or_assoc_upto n zero b c h = rw (zero-bit_or, zero-bit_or)
bit_or_assoc_upto zero (suc a) b c h = absurd (omega arith)
bit_or_assoc_upto (suc n) (suc a) b c h =
    rw
      (
        bit_or_digit (bit_or (suc a) b) c,
        bit_or_digit (suc a) (bit_or b c),
        bit_or_half,
        bit_or_half,
      )
      (omega (
        arith,
        bit_or_digit (suc a) b,
        bit_or_digit b c,
        bit_or_assoc_upto n (suc a / 2) (b / 2) (c / 2) (omega arith),
      ))

pub bit_or_assoc : (a b c : ℕ) → bit_or (bit_or a b) c ≡ bit_or a (bit_or b c)
bit_or_assoc a b c = bit_or_assoc_upto a a b c (omega arith)

bit_and-mod : (k a b : ℕ) → bit_and a b % 2 ^ k ≡ bit_and (a % 2 ^ k) (b % 2 ^ k)
bit_and-mod zero a b = simp mod_one
bit_and-mod (suc k) a b =
    rw (bit_and_digit (a % 2 ^ suc k) (b % 2 ^ suc k), mod_half, mod_half, mod_parity, mod_parity)
      (rw (mod_digit, bit_and_half, bit_and-mod k (a / 2) (b / 2))
        (omega (arith, bit_and_digit a b)))

-- A mask of one bit.
pub bit_and_single : (k a : ℕ) → bit_and a (2 ^ k) ≡ a / 2 ^ k % 2 * 2 ^ k
bit_and_single k a =
    omega (arith, div-add-mod (bit_and a (2 ^ k)) (2 ^ k), low, ap (λ (t : ℕ). 2 ^ k * t) high)
  where
    high : bit_and a (2 ^ k) / 2 ^ k ≡ a / 2 ^ k % 2
    high = rw (bit_and-shift, div_self (two_pow_pos k)) (bit_and_mask 1 (a / 2 ^ k))

    low : bit_and a (2 ^ k) % 2 ^ k ≡ 0
    low = rw (bit_and-mod, mod_self) (bit_and-zero (a % 2 ^ k))
