-- ===== src/Json/Tokens.antt =====
-- libs/json/json.c: numbers, words and separators where they are written as in a document.
use chowder.Prelude.{
  ℕ, suc, ◌+◌, ◌<◌, ◌≡◌, refl, sym, ap, ◌∙◌, Bool, true, false, not, ◌&&◌, ◌||◌, List, [], ◌∷◌,
  ◌++◌, ◌==◌, length, take, drop, some, All, drop-drop, drop-append, Run, ok, ◌>>=◌, arith, Holds,
  holds,
}
use chowder.Json.{JsonValue, integer, Double, Outcome, parsed, ◌>>?◌, char_at}
use chowder.Json.Scan.{
  is_whitespace, is_digit, skip_while, skip_whitespace, skip_digits, skip_to_next_value,
  starts_with, truthy, truthy_word, parse_truthy, whole_part, fraction_part, exponent_part,
  next_part, is_valid_number,
}
use chowder.Json.Parse.{parse_number}
use chowder.Json.Strings.{IsRead, is_read, char_at-drop}

-- What may follow a value where there is no white space.
abbrev pub is_follow : ℕ → Bool
is_follow c = c == b',' || c == b']' || c == b'}' || c == 0

pub drop_behind : (i : ℕ) (s xs ys : List ℕ) → drop i s ≡ xs ++ ys → drop (i + length xs) s ≡ ys
drop_behind i s xs ys h =
    sym (drop-drop (length xs) i s) ∙ ap (drop (length xs)) h ∙ drop-append xs ys

pub IsRead-step :
    {A B : Type 0} {i len : ℕ} {s rest : List ℕ} {P : List ℕ → A → Type 0} {Q : Outcome B → Type 0}
    {m : Run (Outcome A)} {k : List ℕ → ℕ → A → Run (Outcome B)}
    → Holds (IsRead i s rest len P) m
    → ((s' : List ℕ) (j : ℕ) (a : A)
        → j ≡ i + len
        → take i s' ≡ take i s
        → drop j s' ≡ rest
        → P s' a
        → Holds Q (k s' j a))
    → Holds Q (m >>? k)
IsRead-step (holds _ (is_read s' j a e front left p)) f = f s' j a e front left p

pub skip_whitespace_none :
    (i c : ℕ) (s rest : List ℕ)
    → drop i s ≡ c ∷ rest
    → is_whitespace c ≡ false
    → skip_whitespace s i ≡ ok i
unfolding skip_whitespace skip_while
skip_whitespace_none i c s rest h dark = rw (h, dark) (ground arith)

pub skip_to_next_value_end :
    (i terminator : ℕ) (s rest : List ℕ)
    → drop i s ≡ terminator ∷ rest
    → (terminator == 0) || (terminator == b',') || is_whitespace terminator ≡ false
    → skip_to_next_value s i terminator ≡ ok (parsed s i tt)
unfolding skip_to_next_value
skip_to_next_value_end i terminator s rest h other =
    rw
      (
        skip_whitespace_none i terminator s rest h (ground (arith, other)),
        ◌>>=◌,
        (char_at-drop i terminator s rest h).0,
        ◌>>=◌,
      )
      (ground (arith, other))

pub skip_to_next_value_comma :
    (i terminator c : ℕ) (s rest : List ℕ)
    → drop i s ≡ b',' ∷ c ∷ rest
    → is_whitespace c || (c == terminator) ≡ false
    → skip_to_next_value s i terminator ≡ ok (parsed s (i + 1) tt)
unfolding skip_to_next_value
skip_to_next_value_comma i terminator c s rest h other =
    let (comma, left) = char_at-drop i _ s _ h in
    rw
      (
        skip_whitespace_none i b',' s _ h refl,
        ◌>>=◌,
        comma,
        ◌>>=◌,
        skip_whitespace_none (i + 1) c s rest left (ground (arith, other)),
        (char_at-drop (i + 1) c s rest left).0,
      )
      (ground (arith, other))

starts_with_self : (ws rest : List ℕ) → starts_with (ws ++ rest) ws ≡ ok true
unfolding starts_with
starts_with_self [] rest = refl
starts_with_self (w ∷ ws) rest = ground (arith, starts_with_self ws rest)

-- A word and what follows it.
truthy_word_here :
    {F : Type 0} (i d : ℕ) (s word rest : List ℕ) (v : JsonValue F)
    → drop i s ≡ word ++ d ∷ rest
    → is_follow d ≡ true
    → truthy_word s i (word, v) ≡ ok (parsed s (i + length word) v)
unfolding truthy_word
truthy_word_here i d s word rest v h follow =
    rw
      (
        h,
        starts_with_self word (d ∷ rest),
        ◌>>=◌,
        (char_at-drop (i + length word) d s rest (drop_behind i s word (d ∷ rest) h)).0,
      )
      (ground (arith, follow))

-- The digits of a number.
skip_digits_here :
    (ds : List ℕ) (i d : ℕ) (rest : List ℕ)
    → All (λ (c : ℕ). is_digit c ≡ true) ds
    → is_follow d ≡ true
    → skip_while is_digit i (ds ++ d ∷ rest) ≡ ok (i + length ds)
unfolding skip_while
skip_digits_here [] i d rest k follow =
    let stop : not (d == 0) && is_digit d ≡ false = ground (arith, follow) in
    rw stop (ap ok {x = i} {y = i + 0} (omega arith))
skip_digits_here (c ∷ ds) i d rest k follow =
    let go : not (c == 0) && is_digit c ≡ true = ground (arith, k.0) in
    rw (go, skip_digits_here ds (suc i) d rest k.1 follow)
      (ap ok {x = suc i + length ds} {y = i + suc (length ds)} (omega arith))

whole_part_here :
    (ds : List ℕ) (i d : ℕ) (s rest : List ℕ)
    → 0 < length ds
    → All (λ (c : ℕ). is_digit c ≡ true) ds
    → is_follow d ≡ true
    → drop i s ≡ ds ++ d ∷ rest
    → whole_part s i ≡ ok (some (i + length ds, false))
unfolding whole_part skip_digits
whole_part_here [] i d s rest pos k follow h = absurd (omega arith)
whole_part_here (c ∷ ds) i d s rest pos k follow h =
    let no_sign : (c == b'-') || (c == b'+') ≡ false = ground (arith, k.0) in
    let not_end : (c == 0) ≡ false = ground (arith, k.0) in
    rw
      (
        (char_at-drop i c s _ h).0,
        ◌>>=◌,
        no_sign,
        (char_at-drop i c s _ h).0,
        ◌>>=◌,
        not_end,
        h,
        skip_digits_here (c ∷ ds) i d rest k follow,
        ◌>>=◌,
      )
      refl

pub parse_number-digits :
    {F : Type 0} (double : Double F) (ds : List ℕ) (i d : ℕ) (s rest : List ℕ)
    → 0 < length ds
    → All (λ (c : ℕ). is_digit c ≡ true) ds
    → is_follow d ≡ true
    → drop i s ≡ ds ++ d ∷ rest
    → parse_number double s i
      ≡ ok (parsed s (i + length ds) (integer (double.to_int64 (double.atof (ds ++ d ∷ rest)))))
unfolding parse_number is_valid_number next_part fraction_part exponent_part
parse_number-digits double ds i d s rest pos k follow h =
    let behind : char_at s (i + length ds) ≡ ok d =
      (char_at-drop (i + length ds) d s rest (drop_behind i s ds (d ∷ rest) h)).0 in
    let no_point : (d == b'.') ≡ false = ground (arith, follow) in
    let no_exponent : (d == b'e') || (d == b'E') ≡ false = ground (arith, follow) in
    rw
      (
        whole_part_here ds i d s rest pos k follow h,
        ◌>>=◌,
        behind,
        ◌>>=◌,
        no_point,
        ◌>>=◌,
        behind,
        ◌>>=◌,
        no_exponent,
        ◌>>=◌,
        h,
      )
      refl

pub parse_truthy-word :
    {F : Type 0} (c i d : ℕ) (s word cs rest : List ℕ) (v : JsonValue F)
    → word ≡ c ∷ cs
    → truthy {F = F} c ≡ (word, v)
    → is_follow d ≡ true
    → drop i s ≡ word ++ d ∷ rest
    → parse_truthy s i ≡ ok (parsed s (i + length word) v)
unfolding parse_truthy
parse_truthy-word c i d s word cs rest v first which follow h =
    let here : drop i s ≡ c ∷ (cs ++ d ∷ rest) = h ∙ ap (λ t. t ++ d ∷ rest) first in
    rw ((char_at-drop i c s _ here).0, ◌>>=◌, which) (truthy_word_here i d s word rest v h follow)
