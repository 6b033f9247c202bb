-- ===== src/Json/Numbers.antt =====
-- libs/json/json.c: how far a number and a word are read.
use chowder.Prelude.{
  ℕ, zero, suc, ◌+◌, ◌-◌, ◌≤◌, ◌<◌, ◌≡◌, refl, ap, ◌∙◌, Bool, true, false, not, ◌&&◌, ◌||◌, List,
  [], ◌∷◌, none, some, if◌then◌else◌, ◌==◌, length, drop, All, get_elem?, Run, ok, ◌>>=◌, arith,
  Bool-cases, inl, inr, get_elem?-drop, Holds, holds, Holds-bind, Holds-map, Holds-if, Holds-ok_if,
}
use mathlib.Core.Option.{some-injective}
use chowder.Json.{
  JsonValue, json_true, json_false, json_null, error_at, json_invalid_number, integer, fraction,
  failed, parsed, char_at, Double,
}
use chowder.Json.Scan.{
  skip_while, skip_digits, is_digit, NumberEnd, whole_part, fraction_part, exponent_digits,
  exponent_part, next_part, is_valid_number, starts_with, parse_truthy, truthy, truthy_word,
  is_truthy_follow,
}
use chowder.Json.Parse.{parse_number}
use chowder.Json.Bounds.{
  Terminated, Good, Fine, fine_failed, fine_parsed, Good-failed, char_at-Holds, skip-Holds,
  skip_digits-Holds,
}

abbrev InText : ℕ → ℕ → NumberEnd → Type 0
InText lo n none = Unit
InText lo n (some (j, is_fraction)) = (lo ≤ j) × (j ≤ n)

drop-char_at : (s : List ℕ) (i c : ℕ) → char_at s i ≡ ok c → drop i s ≡ c ∷ drop (suc i) s
unfolding char_at
drop-char_at [] i c h = cc
drop-char_at (x ∷ s) zero c h = ground (arith, h)
drop-char_at (x ∷ s) (suc i) c h = drop-char_at s i c h

InText-weaken : (lo lo' n : ℕ) → lo ≤ lo' → (o : NumberEnd) → InText lo' n o → InText lo n o
InText-weaken lo lo' n h none b = tt
InText-weaken lo lo' n h (some (j, f)) b = (omega (arith, b.0), b.1)

joined :
    (lo i n : ℕ) (is_fraction : Bool) (end : NumberEnd)
    → lo ≤ i
    → InText i n end
    → Holds (InText lo n) (ok (elim end [ none ↦ none | some (j, b) ↦ some (j, is_fraction || b) ]))
joined lo i n is_fraction none h b = holds none tt
joined lo i n is_fraction (some (j, f)) h b = holds _ (omega (arith, h, b.0), b.1)

-- At a digit the loop makes at least one round.
skip_digits-progress :
    (n i c : ℕ) (s : List ℕ)
    → Terminated n s
    → i < n
    → char_at s i ≡ ok c
    → is_digit c ≡ true
    → Holds (λ (j : ℕ). (i + 1 ≤ j) × (j ≤ n)) (skip_digits s i)
unfolding skip_digits skip_while
skip_digits-progress n i c s t h at digit =
    let go : not (c == 0) && is_digit c ≡ true = ground (arith, digit) in
    rw (drop-char_at s i c at, go)
      (Holds-map (λ j b. (omega (arith, b.0), b.1))
        (skip-Holds is_digit n (suc i) s t (omega arith)))

fraction_part-Holds :
    (n i : ℕ) (s : List ℕ) → Terminated n s → i ≤ n → Holds (InText i n) (fraction_part s i)
unfolding fraction_part
fraction_part-Holds n i s t h = Holds-bind (char_at-Holds n i s t h) (λ c at.
    Holds-if (c == b'.')
      (λ point.
        let before : i < n = ground (arith, at, point) in
        Holds-bind (char_at-Holds n (i + 1) s t (omega arith)) (λ d _.
          Holds-if (d == 0) (λ _. holds none tt)
            (λ _.
              Holds-bind (skip_digits-Holds n (i + 1) s t (omega arith))
                (λ j b. holds (some (j, true)) (omega (arith, b.0), b.1)))))
      (λ _. holds (some (i, false)) (omega arith, h)))

exponent_digits-Holds :
    (n i : ℕ) (negative : Bool) (s : List ℕ)
    → Terminated n s
    → i ≤ n
    → Holds (InText i n) (exponent_digits s i negative)
unfolding exponent_digits
exponent_digits-Holds n i negative s t h = Holds-bind (char_at-Holds n i s t h) (λ c _.
    Holds-if (c == 0) (λ _. holds none tt)
      (λ _. Holds-bind (skip_digits-Holds n i s t h) (λ j b.
        Holds-bind (char_at-Holds n j s t b.1)
          (λ d _. Holds-if (d == b'.') (λ _. holds none tt) (λ _. holds (some (j, negative)) b)))))

exponent_part-Holds :
    (n i : ℕ) (s : List ℕ) → Terminated n s → i ≤ n → Holds (InText i n) (exponent_part s i)
unfolding exponent_part
exponent_part-Holds n i s t h = Holds-bind (char_at-Holds n i s t h) (λ c at.
    Holds-if (c == b'e' || c == b'E')
      (λ marked.
        let before : i < n = ground (arith, at, marked) in
        Holds-bind (char_at-Holds n (i + 1) s t (omega arith)) (λ d at'.
          Holds-if (d == b'-')
            (λ minus.
              Holds-map (InText-weaken i (i + 2) n (omega arith))
                (exponent_digits-Holds n (i + 2) true s t (ground (arith, at', minus))))
            (λ _.
              let next : ℕ = if d == b'+' then i + 2 else i + 1 in
              Holds-map (InText-weaken i next n (ground arith))
                (exponent_digits-Holds n next false s t (ground (arith, at'))))))
      (λ _. holds (some (i, false)) (omega arith, h)))

-- A number that starts with a digit or a sign has at least this character.
whole_part-Holds :
    (n i c : ℕ) (s : List ℕ)
    → Terminated n s
    → i < n
    → char_at s i ≡ ok c
    → is_digit c || c == b'+' || c == b'-' ≡ true
    → Holds (InText (i + 1) n) (whole_part s i)
unfolding whole_part
whole_part-Holds n i c s t h at first =
    rw (at, ◌>>=◌)
      (elim (Bool-cases (c == b'-' || c == b'+')) [
        | inl sign ↦ rw sign (
            Holds-bind (char_at-Holds n (i + 1) s t (omega arith)) (λ d _.
              Holds-if (d == 0) (λ _. holds none tt)
                (λ _.
                  Holds-bind (skip_digits-Holds n (i + 1) s t (omega arith))
                    (λ j b. holds (some (j, false)) b))))
        | inr no_sign ↦ rw no_sign (
            Holds-bind (char_at-Holds n i s t (omega arith)) (λ d _.
              Holds-if (d == 0) (λ _. holds none tt)
                (λ _.
                  Holds-bind (skip_digits-progress n i c s t h at (ground (arith, first, no_sign)))
                    (λ j b. holds (some (j, false)) b))))
      ])

next_part-Holds :
    (lo n : ℕ) (o : NumberEnd) (part : ℕ → Run NumberEnd)
    → InText lo n o
    → ((i : ℕ) → i ≤ n → Holds (InText i n) (part i))
    → Holds (InText lo n) (next_part o part)
unfolding next_part
next_part-Holds lo n none part h f = holds none tt
next_part-Holds lo n (some (i, is_fraction)) part h f =
    Holds-bind (f i h.1) (λ end b. joined lo i n is_fraction end h.0 b)

is_valid_number-Holds :
    (n i c : ℕ) (s : List ℕ)
    → Terminated n s
    → i < n
    → char_at s i ≡ ok c
    → is_digit c || c == b'+' || c == b'-' ≡ true
    → Holds (InText (i + 1) n) (is_valid_number s i)
unfolding is_valid_number
is_valid_number-Holds n i c s t h at first =
    Holds-bind (whole_part-Holds n i c s t h at first) (λ whole b.
      Holds-bind
        (next_part-Holds (i + 1) n whole (fraction_part s) b
          (λ j le. fraction_part-Holds n j s t le))
        (λ fraction b'.
          next_part-Holds (i + 1) n fraction (exponent_part s) b'
            (λ j le. exponent_part-Holds n j s t le)))

number_value :
    {F : Type 0} (lo n i : ℕ) (s : List ℕ) (end : NumberEnd) (x : F) (double : Double F)
    → Terminated n s
    → i ≤ n
    → InText lo n end
    → Holds (Fine {A = JsonValue F} lo n) (
        ok (elim end [
          | none ↦ failed (error_at json_invalid_number i)
          | some (num_end, is_fraction) ↦
              parsed s num_end (if is_fraction then fraction x else integer (double.to_int64 x))
        ]))
number_value lo n i s none x double t h b = holds _ (fine_failed _ h)
number_value lo n i s (some (j, f)) x double t h b = holds _ (fine_parsed s j _ b.0 b.1 t)

pub parse_number-Good :
    {F : Type 0} (double : Double F) (n i c : ℕ) (s : List ℕ)
    → Terminated n s
    → i < n
    → char_at s i ≡ ok c
    → is_digit c || c == b'+' || c == b'-' ≡ true
    → Good (i + 1) n (parse_number double s i)
unfolding parse_number
parse_number-Good double n i c s t h at first =
    Holds-bind (is_valid_number-Holds n i c s t h at first)
      (λ end b. number_value (i + 1) n i s end (double.atof (drop i s)) double t (omega arith) b)

-- The zero of the text differs from every character of the word.
starts_with-Holds :
    (n : ℕ) (cs ws : List ℕ)
    → get_elem? cs n ≡ some 0
    → All (λ (w : ℕ). (w == 0) ≡ false) ws
    → Holds (λ (same : Bool). same ≡ true → length ws ≤ n) (starts_with cs ws)
unfolding starts_with
starts_with-Holds n cs [] h k = holds true (λ _. omega arith)
starts_with-Holds n [] (w ∷ ws) h k = cc
starts_with-Holds zero (c ∷ cs) (w ∷ ws) h k =
    let e : c ≡ 0 = some-injective _ _ h in
    Holds-if (c == w) (λ same. ground (arith, e, same, k.0)) (λ _. holds false (λ bad. cc))
starts_with-Holds (suc n) (c ∷ cs) (w ∷ ws) h k =
    Holds-if (c == w)
      (λ _. Holds-map (λ same f e. omega (arith, f e)) (starts_with-Holds n cs ws h k.1))
      (λ _. holds false (λ e. cc))

truthy_word-Good :
    {F : Type 0} (n i : ℕ) (s word : List ℕ) (v : JsonValue F)
    → Terminated n s
    → i ≤ n
    → 0 < length word
    → All (λ (w : ℕ). (w == 0) ≡ false) word
    → Good (i + 1) n (truthy_word s i (word, v))
unfolding truthy_word
truthy_word-Good n i s word v t h some_word k =
    let e : i + (n - i) ≡ n = omega arith in
    let at_end : get_elem? (drop i s) (n - i) ≡ some 0 =
      get_elem?-drop i (n - i) s ∙ ap (get_elem? s) e ∙ t.zero_at in
    Holds-bind (starts_with-Holds (n - i) (drop i s) word at_end k) (λ same f.
      Holds-if same
        (λ yes.
          let fits : i + length word ≤ n = omega (arith, f yes) in
          Holds-bind (char_at-Holds n (i + length word) s t fits) (λ d _.
            Holds-ok_if (is_truthy_follow d) _ _ (λ _. fine_parsed s _ v (omega arith) fits t)
              (λ _. fine_failed _ h)))
        (λ _. Good-failed _ h))

truthy-Good :
    {F : Type 0} (n i c : ℕ) (s : List ℕ)
    → Terminated n s
    → i ≤ n
    → Good {A = JsonValue F} (i + 1) n (truthy_word s i (truthy c))
unfolding truthy
truthy-Good n i c s t h = elim (Bool-cases (c == b't')) [
  | inl e ↦
      rw e (truthy_word-Good n i s _ json_true t h (omega arith) (refl, (refl, (refl, (refl, tt)))))
  | inr e ↦ elim (Bool-cases (c == b'f')) [
    | inl e' ↦
        rw (e, e')
          (truthy_word-Good n i s _ json_false t h (omega arith)
            (refl, (refl, (refl, (refl, (refl, tt))))))
    | inr e' ↦
        rw (e, e')
          (truthy_word-Good n i s _ json_null t h (omega arith) (refl, (refl, (refl, (refl, tt)))))
  ]
]

pub parse_truthy-Good :
    {F : Type 0} (n i : ℕ) (s : List ℕ)
    → Terminated n s
    → i ≤ n
    → Good {A = JsonValue F} (i + 1) n (parse_truthy s i)
unfolding parse_truthy
parse_truthy-Good n i s t h = Holds-bind (char_at-Holds n i s t h) (λ c _. truthy-Good n i c s t h)
