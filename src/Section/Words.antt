-- ===== src/Section/Words.antt =====
-- libs/anvil/section.c: the array of 64-bit words as one number, lowest word first.
use chowder.Prelude.{
  ℕ, zero, suc, ◌+◌, ◌-◌, ◌*◌, ◌/◌, ◌%◌, ◌^◌, ◌≤◌, ◌<◌, ◌≡◌, ap, ◌∙◌, List, [], ◌∷◌, drop, arith,
  All,
}
use native.Mathlib.Nat.{
  add-mul-div_right, add-mul-mod_self_right, div-div-eq-div-mul, pow-suc, mul_assoc, zero-div,
}
use chowder.Prelude.Bits.{two_pow_pos}

abbrev pub word : ℕ
word = 2 ^ 64

unfoldable pub packed : List ℕ → ℕ
packed [] = 0
packed (w ∷ ws) = w + packed ws * 2 ^ 64

abbrev pub IsWords : List ℕ → Type 0
IsWords ws = All (λ w. w < 2 ^ 64) ws

pub two_pow_add : (a b : ℕ) → 2 ^ (a + b) ≡ 2 ^ a * 2 ^ b
two_pow_add a zero = ap (λ (e : ℕ). 2 ^ e) {x = a + 0} {y = a} (omega arith) ∙ omega arith
two_pow_add a (suc b) =
    ap (λ (e : ℕ). 2 ^ e) {x = a + suc b} {y = suc (a + b)} (omega arith)
    ∙ pow-suc 2 (a + b)
    ∙ omega
        (arith, ap (λ (t : ℕ). t * 2) (two_pow_add a b), ap (λ (t : ℕ). 2 ^ a * t) (pow-suc 2 b))

-- A power of two as a product at a smaller exponent.
pub two_pow_split : (a c : ℕ) → a ≤ c → 2 ^ c ≡ 2 ^ (c - a) * 2 ^ a
two_pow_split a c h =
    ap (λ (e : ℕ). 2 ^ e) {x = c} {y = c - a + a} (omega arith) ∙ two_pow_add (c - a) a

-- What stands at bit 2 ^ c and above moves down by a shift of `a`.
pub shift_above : (a c l q : ℕ) → a ≤ c → (l + q * 2 ^ c) / 2 ^ a ≡ l / 2 ^ a + q * 2 ^ (c - a)
shift_above a c l q h =
    rw (two_pow_split a c h, ← mul_assoc q (2 ^ (c - a)) (2 ^ a))
      (add-mul-div_right l (q * 2 ^ (c - a)) (two_pow_pos a))

-- What stands at bit 2 ^ c and above is cut off below it.
pub cut_above : (b c l q : ℕ) → b ≤ c → (l + q * 2 ^ c) % 2 ^ b ≡ l % 2 ^ b
cut_above b c l q h =
    rw (two_pow_split b c h, ← mul_assoc q (2 ^ (c - b)) (2 ^ b))
      (add-mul-mod_self_right l (q * 2 ^ (c - b)) (2 ^ b))

pub packed-drop : (k : ℕ) (ws : List ℕ) → IsWords ws → packed ws / 2 ^ (k * 64) ≡ packed (drop k ws)
unfolding packed
packed-drop zero ws h = omega arith
packed-drop (suc k) [] h = zero-div (2 ^ (suc k * 64))
packed-drop (suc k) (w ∷ ws) h =
    rw
      (
        next k,
        two_pow_add 64 (k * 64),
        ← div-div-eq-div-mul (w + packed ws * 2 ^ 64) (2 ^ 64) (2 ^ (k * 64)),
      )
      (ap (λ (t : ℕ). t / 2 ^ (k * 64)) {x = (w + packed ws * 2 ^ 64) / 2 ^ 64} {y = packed ws}
          (omega (arith, h.0))
        ∙ packed-drop k ws h.1)
  where
    next : (k : ℕ) → suc k * 64 ≡ 64 + k * 64
    next k = omega arith

-- The `b` bits from bit `o` of word `k` on, where they lie in that word.
pub packed_inside :
    (k o b w : ℕ) (ws rest : List ℕ)
    → IsWords ws
    → drop k ws ≡ w ∷ rest
    → o + b ≤ 64
    → packed ws / 2 ^ (k * 64 + o) % 2 ^ b ≡ w / 2 ^ o % 2 ^ b
unfolding packed
packed_inside k o b w ws rest h e fits =
    rw
      (
        two_pow_add (k * 64) o,
        ← div-div-eq-div-mul (packed ws) (2 ^ (k * 64)) (2 ^ o),
        packed-drop k ws h,
        e,
      )
      (ap (λ (t : ℕ). t % 2 ^ b) (shift_above o 64 w (packed rest) (omega arith))
        ∙ cut_above b (64 - o) (w / 2 ^ o) (packed rest) (omega arith))

-- The `b` bits from bit `o` of word `k` on, where they reach into the next word.
pub packed_crossing :
    (k o b w w' : ℕ) (ws rest : List ℕ)
    → IsWords ws
    → drop k ws ≡ w ∷ w' ∷ rest
    → o ≤ 64
    → b ≤ 64
    → packed ws / 2 ^ (k * 64 + o) % 2 ^ b ≡ (w / 2 ^ o + w' * 2 ^ (64 - o)) % 2 ^ b
unfolding packed
packed_crossing k o b w w' ws rest h e ho hb =
    rw
      (
        two_pow_add (k * 64) o,
        ← div-div-eq-div-mul (packed ws) (2 ^ (k * 64)) (2 ^ o),
        packed-drop k ws h,
        e,
      )
      (ap (λ (t : ℕ). t % 2 ^ b)
          (shift_above o 64 w (w' + packed rest * 2 ^ 64) ho
            ∙ regroup (w / 2 ^ o) w' (packed rest) (2 ^ (64 - o)))
        ∙ cut_above b 64 (w / 2 ^ o + w' * 2 ^ (64 - o)) (packed rest * 2 ^ (64 - o)) hb)
  where
    regroup : (l m r t : ℕ) → l + (m + r * 2 ^ 64) * t ≡ l + m * t + r * t * 2 ^ 64
    regroup l m r t = omega arith
