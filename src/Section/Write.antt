-- ===== src/Section/Write.antt =====
-- libs/anvil/section.c: what `write_blockstate_at` does to the number that the words stand for.
use chowder.Prelude.{
  ℕ, zero, suc, ◌+◌, ◌-◌, ◌*◌, ◌/◌, ◌%◌, ◌^◌, ◌≤◌, ◌<◌, ◌≡◌, refl, sym, ap, ◌∙◌, List, [], ◌∷◌,
  get_elem?, set, some, arith, bit_or,
}
use mathlib.Core.Path.{ap₂}
use mathlib.Core.Option.{some-injective}
use native.Mathlib.Nat.{div-add-mod, mul-div-mul_right, mul-div_left, mul-mod_left, mul_assoc}
use chowder.Prelude.Bits.{
  two_pow_pos, bit_or_disjoint, bit_or-mod, bit_or_comm, bit_or_assoc, bit_or-shift, bit_or-zero,
  bit_or-lt,
}
use chowder.Section.Words.{packed, IsWords, two_pow_add, two_pow_split}

-- `|` of two shifted numbers.
pub bit_or-mul : (k a b : ℕ) → bit_or (a * 2 ^ k) (b * 2 ^ k) ≡ bit_or a b * 2 ^ k
bit_or-mul k a b =
    sym (div-add-mod (bit_or (a * 2 ^ k) (b * 2 ^ k)) (2 ^ k))
    ∙ ap₂ (λ (q r : ℕ). 2 ^ k * q + r) high low
    ∙ omega arith
  where
    high : bit_or (a * 2 ^ k) (b * 2 ^ k) / 2 ^ k ≡ bit_or a b
    high =
        bit_or-shift k (a * 2 ^ k) (b * 2 ^ k)
        ∙ ap₂ bit_or (mul-div_left a (two_pow_pos k)) (mul-div_left b (two_pow_pos k))

    low : bit_or (a * 2 ^ k) (b * 2 ^ k) % 2 ^ k ≡ 0
    low =
        bit_or-mod k (a * 2 ^ k) (b * 2 ^ k)
        ∙ ap₂ bit_or (mul-mod_left a (2 ^ k)) (mul-mod_left b (2 ^ k))
        ∙ bit_or-zero 0

-- A number below 2 ^ k changes the low part only.
pub bit_or_low :
    (k l q u : ℕ) → l < 2 ^ k → u < 2 ^ k → bit_or (l + q * 2 ^ k) u ≡ bit_or l u + q * 2 ^ k
bit_or_low k l q u hl hu =
    ap (λ (t : ℕ). bit_or t u) {x = l + q * 2 ^ k} (omega arith ∙ sym (bit_or_disjoint k q l hl))
    ∙ bit_or_assoc (q * 2 ^ k) l u
    ∙ bit_or_disjoint k q (bit_or l u) (bit_or-lt k l u hl hu)
    ∙ omega arith

-- A multiple of 2 ^ k changes the high part only.
pub bit_or_high :
    (k l q u : ℕ) → l < 2 ^ k → bit_or (l + q * 2 ^ k) (u * 2 ^ k) ≡ l + bit_or q u * 2 ^ k
bit_or_high k l q u hl =
    ap (λ (t : ℕ). bit_or t (u * 2 ^ k)) {x = l + q * 2 ^ k}
      (omega arith ∙ sym (bit_or_disjoint k q l hl))
    ∙ ap (λ (t : ℕ). bit_or t (u * 2 ^ k)) (bit_or_comm (q * 2 ^ k) l)
    ∙ bit_or_assoc l (q * 2 ^ k) (u * 2 ^ k)
    ∙ ap (bit_or l) (bit_or-mul k q u)
    ∙ bit_or_comm l (bit_or q u * 2 ^ k)
    ∙ bit_or_disjoint k (bit_or q u) l hl
    ∙ omega arith

-- `|=` on word `k`.
pub packed-set :
    (k w u : ℕ) (ws : List ℕ)
    → IsWords ws
    → u < 2 ^ 64
    → get_elem? ws k ≡ some w
    → packed (set ws k (bit_or w u)) ≡ bit_or (packed ws) (u * 2 ^ (k * 64))
unfolding packed
packed-set k w u [] h hu e = cc
packed-set zero w u (v ∷ ws) h hu e =
    ap (λ (t : ℕ). bit_or t u + packed ws * 2 ^ 64) (sym (some-injective _ _ e))
    ∙ sym (bit_or_low 64 v (packed ws) u h.0 hu)
    ∙ ap (bit_or (v + packed ws * 2 ^ 64)) {x = u} {y = u * 1} (omega arith)
packed-set (suc k) w u (v ∷ ws) h hu e =
    ap (λ (t : ℕ). v + t * 2 ^ 64) (packed-set k w u ws h.1 hu e)
    ∙ sym (bit_or_high 64 v (packed ws) (u * 2 ^ (k * 64)) h.0)
    ∙ ap (bit_or (v + packed ws * 2 ^ 64)) (next k)
  where
    next : (k : ℕ) → u * 2 ^ (k * 64) * 2 ^ 64 ≡ u * 2 ^ (suc k * 64)
    next k =
        mul_assoc u (2 ^ (k * 64)) (2 ^ 64)
        ∙ ap (λ (t : ℕ). u * t)
            (sym (two_pow_add (k * 64) 64)
              ∙ ap (λ (t : ℕ). 2 ^ t) {x = k * 64 + 64} {y = suc k * 64} (omega arith))

-- Words stay words.
pub set-IsWords : (k v : ℕ) (ws : List ℕ) → IsWords ws → v < 2 ^ 64 → IsWords (set ws k v)
set-IsWords k v [] h hv = tt
set-IsWords zero v (w ∷ ws) h hv = (hv, h.1)
set-IsWords (suc k) v (w ∷ ws) h hv = (h.0, set-IsWords k v ws h.1 hv)

pub get_elem?-set_next :
    (k v : ℕ) (ws : List ℕ) → get_elem? (set ws k v) (k + 1) ≡ get_elem? ws (k + 1)
get_elem?-set_next k v [] = refl
get_elem?-set_next zero v (w ∷ ws) = refl
get_elem?-set_next (suc k) v (w ∷ ws) =
    ap (get_elem? (w ∷ set ws k v)) {x = suc k + 1} {y = suc (k + 1)} (omega arith)
    ∙ get_elem?-set_next k v ws
    ∙ ap (get_elem? (w ∷ ws)) {x = suc (k + 1)} {y = suc k + 1} (omega arith)

-- The part of a shifted number above 2 ^ 64.
carried : (o v : ℕ) → o ≤ 64 → v * 2 ^ o / 2 ^ 64 ≡ v / 2 ^ (64 - o)
carried o v h =
    ap (λ (t : ℕ). v * 2 ^ o / t) (two_pow_split o 64 h)
    ∙ mul-div-mul_right v (2 ^ (64 - o)) (two_pow_pos o)

-- Both parts of a shifted number are put in place.
pub both_parts :
    (k o v p : ℕ)
    → o ≤ 64
    → bit_or (bit_or p (v * 2 ^ o % 2 ^ 64 * 2 ^ (k * 64))) (v / 2 ^ (64 - o) * 2 ^ ((k + 1) * 64))
      ≡ bit_or p (v * 2 ^ (k * 64 + o))
both_parts k o v p h =
    bit_or_assoc p (v * 2 ^ o % 2 ^ 64 * 2 ^ (k * 64)) (v / 2 ^ (64 - o) * 2 ^ ((k + 1) * 64))
    ∙ ap (bit_or p) (
        ap (bit_or (v * 2 ^ o % 2 ^ 64 * 2 ^ (k * 64))) (next k)
        ∙ bit_or-mul (k * 64) (v * 2 ^ o % 2 ^ 64) (v / 2 ^ (64 - o) * 2 ^ 64)
        ∙ ap (λ (t : ℕ). t * 2 ^ (k * 64)) whole
        ∙ mul_assoc v (2 ^ o) (2 ^ (k * 64))
        ∙ ap (λ (t : ℕ). v * t)
            (sym (two_pow_add o (k * 64))
              ∙ ap (λ (t : ℕ). 2 ^ t) {x = o + k * 64} {y = k * 64 + o} (omega arith)))
  where
    next :
        (k : ℕ) → v / 2 ^ (64 - o) * 2 ^ ((k + 1) * 64) ≡ v / 2 ^ (64 - o) * 2 ^ 64 * 2 ^ (k * 64)
    next k =
        ap (λ (t : ℕ). v / 2 ^ (64 - o) * t)
          (ap (λ (t : ℕ). 2 ^ t) {x = (k + 1) * 64} {y = 64 + k * 64} (omega arith)
            ∙ two_pow_add 64 (k * 64))
        ∙ sym (mul_assoc (v / 2 ^ (64 - o)) (2 ^ 64) (2 ^ (k * 64)))

    whole : bit_or (v * 2 ^ o % 2 ^ 64) (v / 2 ^ (64 - o) * 2 ^ 64) ≡ v * 2 ^ o
    whole =
        bit_or_comm (v * 2 ^ o % 2 ^ 64) (v / 2 ^ (64 - o) * 2 ^ 64)
        ∙ bit_or_disjoint 64 (v / 2 ^ (64 - o)) (v * 2 ^ o % 2 ^ 64) (omega arith)
        ∙ omega (arith, carried o v h)
