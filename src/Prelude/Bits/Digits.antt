-- ===== src/Prelude/Bits/Digits.antt =====
-- The lowest binary digit of `|` and `&`. The native operations mean a recursion on binary digits
-- whose fuel is the first number; the value is the same at any fuel from there on.
use Prim.Native.Nat.{
  ℕ, zero, suc, ◌+◌, ◌*◌, ◌/◌, ◌%◌, ◌≤◌, min, max, bit_and, bit_or, digits, bit_and-bitwise,
  bit_or-bitwise,
}
use mathlib.Core.Path.{◌≡◌, refl}
use native.Mathlib.Omega.{arith}

module _ (rest : ℕ → ℕ) (join : ℕ → ℕ → ℕ) where
  digits_of_zero : (n b : ℕ) → digits rest join n zero b ≡ rest b
  digits_of_zero zero b = refl
  digits_of_zero (suc n) b = refl

  -- Fuel `n` and fuel `m` agree where both reach the last digit of `a`.
  digits-agree : (n m a b : ℕ) → a ≤ n → a ≤ m → digits rest join n a b ≡ digits rest join m a b
  digits-agree n m zero b hn hm = rw (digits_of_zero, digits_of_zero)
  digits-agree zero m (suc a) b hn hm = absurd (omega arith)
  digits-agree (suc n) zero (suc a) b hn hm = absurd (omega arith)
  digits-agree (suc n) (suc m) (suc a) b hn hm =
      rw (digits-agree n m (suc a / 2) (b / 2) (omega arith) (omega arith))

  digits_step :
      (a b : ℕ)
      → digits rest join (suc a) (suc a) b
        ≡ digits rest join (suc a / 2) (suc a / 2) (b / 2) * 2 + join (suc a % 2) (b % 2)
  digits_step a b = rw (digits-agree a (suc a / 2) (suc a / 2) (b / 2) (omega arith) (omega arith))

pub bit_or_digit : (a b : ℕ) → bit_or a b ≡ bit_or (a / 2) (b / 2) * 2 + max (a % 2) (b % 2)
bit_or_digit zero b = simp bit_or-bitwise (omega arith)
bit_or_digit (suc a) b = simp bit_or-bitwise (digits_step (λ r. r) max a b)

pub bit_and_digit : (a b : ℕ) → bit_and a b ≡ bit_and (a / 2) (b / 2) * 2 + min (a % 2) (b % 2)
bit_and_digit zero b = simp bit_and-bitwise (omega arith)
bit_and_digit (suc a) b = simp bit_and-bitwise (digits_step (λ r. 0) min a b)
