-- ===== src/Json/Scan.antt =====
-- libs/json/json.c: the functions that look at characters and call no other part of the parser.
use chowder.Prelude.{
  ℕ, zero, suc, ◌+◌, Bool, true, false, not, ◌&&◌, ◌||◌, List, [], ◌∷◌, Option, none, some,
  if◌then◌else◌, leb, ltb, ◌==◌, length, drop, Run, ok, fault, out_of_bounds, no_fuel, ◌>>=◌,
}
use chowder.Json.{
  error_at, json_invalid_string, json_missing_closing, json_trailing_comma, json_unexpected_char,
  json_unexpected_eof, json_expected_truthy, JsonValue, json_true, json_false, json_null, Outcome,
  failed, parsed, char_at, put_char,
}

abbrev pub is_whitespace : ℕ → Bool
is_whitespace c = c == b' ' || c == b'\n' || c == b'\r' || c == b'\t'

abbrev pub is_digit : ℕ → Bool
is_digit c = leb b'0' c && leb c b'9'

-- `iscntrl` of the C locale
abbrev pub is_control : ℕ → Bool
is_control c = ltb c 32 || c == 127

-- `while (s[i] != '\0' && test(s[i])) ++i`, over the characters from `i` on.
unfoldable pub skip_while : (ℕ → Bool) → ℕ → List ℕ → Run ℕ
skip_while test i [] = fault out_of_bounds
skip_while test i (c ∷ cs) =
    let more = skip_while test (suc i) cs in if not (c == 0) && test c then more else ok i

unfoldable pub skip_whitespace : List ℕ → ℕ → Run ℕ
skip_whitespace s start = skip_while is_whitespace start (drop start s)

-- `while (isdigit(s[i]) && s[i] != '\0') ++i`
unfoldable pub skip_digits : List ℕ → ℕ → Run ℕ
skip_digits s i = skip_while is_digit i (drop i s)

abbrev pub is_valid_escape : ℕ → Bool
is_valid_escape c =
    c == b'"'
    || c == b'\\'
    || c == b'/'
    || c == b'b'
    || c == b'f'
    || c == b'n'
    || c == b'r'
    || c == b't'

-- The table has zeros elsewhere.
abbrev pub escape : ℕ → ℕ
escape c =
    if c == b'"' || c == b'\\' || c == b'/'
    then c
    else if c == b'b'
    then 8
    else if c == b'f'
    then 12
    else if c == b'n'
    then 10
    else if c == b'r'
    then 13
    else if c == b't'
    then 9
    else 0

-- The variables of `parse_string`.
pub record StringState : Type 0 where
  pub text : List ℕ
  pub i : ℕ
  pub string_idx : ℕ
  pub valid_string : Bool

-- A round of its loop that sees `c`. Behind a backslash the next character is looked at.
unfoldable pub string_step : StringState → ℕ → Run StringState
string_step st c =
    let escaped = do
      d ← char_at st.text (st.i + 1)
      text ← if is_valid_escape d then put_char st.text st.string_idx (escape d) else ok st.text
      ok (record {
        text = text;
        i = st.i + 2;
        string_idx = st.string_idx + 1;
        valid_string = is_valid_escape d;
      })
    in let plain = do
      text ← put_char st.text st.string_idx c
      ok (record {
        text = text;
        i = st.i + 1;
        string_idx = st.string_idx + 1;
        valid_string = not (is_control c);
      })
      in if c == b'\\' then escaped else plain

-- The loop, on fuel for its rounds.
unfoldable pub string_loop : ℕ → StringState → Run StringState
string_loop zero st = fault no_fuel
string_loop (suc f) st =
    let round = λ (c : ℕ). do st ← string_step st c; string_loop f st
    in do
      c ← char_at st.text st.i
      if not (c == 0) && not (c == b'"') && st.valid_string then round c else ok st

-- What `parse_string` does behind its loop. The value is the place of the string.
unfoldable pub string_end : ℕ → StringState → Run (Outcome ℕ)
string_end open_quote st =
    let zero_written : Run (Outcome ℕ) = (do
      text ← put_char st.text st.string_idx 0
      ok (parsed text (st.i + 1) (open_quote + 1))) in
    let closed = do
      c ← char_at st.text st.i
      if c == 0 then ok (failed (error_at json_missing_closing open_quote)) else zero_written
    in if not st.valid_string then ok (failed (error_at json_invalid_string open_quote)) else closed

unfoldable pub parse_string : List ℕ → ℕ → Run (Outcome ℕ)
parse_string s open_quote = do
  st ←
      string_loop (suc (length s))
        (record { text = s; i = open_quote + 1; string_idx = open_quote + 1; valid_string = true })
  string_end open_quote st

-- Behind a value: the index of the next one, or of what ends the list of values.
unfoldable pub skip_to_next_value : List ℕ → ℕ → ℕ → Run (Outcome (Unit {0}))
skip_to_next_value s value_end value_list_terminator =
    let behind_comma = λ (comma_idx : ℕ). do
      i ← skip_whitespace s (comma_idx + 1)
      c ← char_at s i
      ok (
          if c == value_list_terminator
          then failed (error_at json_trailing_comma comma_idx)
          else parsed s i tt)
    in do
      i ← skip_whitespace s value_end
      c ← char_at s i
      if c == b','
          then behind_comma i
          else if c == 0
          then ok (failed (error_at json_unexpected_eof i))
          else if not (c == value_list_terminator)
          then ok (failed (record { type = json_unexpected_char; index = i; expected = b',' }))
          else ok (parsed s i tt)

-- `if (s[i] == '-' || s[i] == '+') ++i`
abbrev pub skip_sign : List ℕ → ℕ → Run ℕ
skip_sign s i = do c ← char_at s i; ok (if c == b'-' || c == b'+' then i + 1 else i)

-- The index behind a part of a number and whether the type is JSON_FRACTION; `none` is the jump to
-- `invalid_number`.
abbrev pub NumberEnd : Type 0
NumberEnd = Option (ℕ × Bool)

-- `*type = JSON_INTEGER`, a sign and the digits before a point or an exponent.
unfoldable pub whole_part : List ℕ → ℕ → Run NumberEnd
whole_part s start = do
  i ← skip_sign s start
  c ← char_at s i
  let digits : Run NumberEnd = (do j ← skip_digits s i; ok (some (j, false))) in
      if c == 0 then ok none else digits

-- The point and what follows it.
unfoldable pub fraction_part : List ℕ → ℕ → Run NumberEnd
fraction_part s i =
    let digits : Run NumberEnd = do
      c ← char_at s (i + 1)
      let more : Run NumberEnd = (do j ← skip_digits s (i + 1); ok (some (j, true))) in
          if c == 0 then ok none else more
    in do c ← char_at s i; if c == b'.' then digits else ok (some (i, false))

-- The digits of an exponent, behind its sign.
unfoldable pub exponent_digits : List ℕ → ℕ → Bool → Run NumberEnd
exponent_digits s i negative =
    let digits : Run NumberEnd = do
      j ← skip_digits s i
      c ← char_at s j
      if c == b'.' then ok none else ok (some (j, negative))
    in do c ← char_at s i; if c == 0 then ok none else digits

-- The exponent.
unfoldable pub exponent_part : List ℕ → ℕ → Run NumberEnd
exponent_part s i =
    let signed : Run NumberEnd = do
      c ← char_at s (i + 1)
      if c == b'-'
          then exponent_digits s (i + 2) true
          else exponent_digits s (if c == b'+' then i + 2 else i + 1) false
    in do c ← char_at s i; if c == b'e' || c == b'E' then signed else ok (some (i, false))

-- The part behind another one.
unfoldable pub next_part : NumberEnd → (ℕ → Run NumberEnd) → Run NumberEnd
next_part none part = ok none
next_part (some (i, is_fraction)) part = do
  end ← part i
  ok (elim end [ none ↦ none | some (j, b) ↦ some (j, is_fraction || b) ])

unfoldable pub is_valid_number : List ℕ → ℕ → Run NumberEnd
is_valid_number s start = do
  whole ← whole_part s start
  fraction ← next_part whole (fraction_part s)
  next_part fraction (exponent_part s)

abbrev pub is_truthy_follow : ℕ → Bool
is_truthy_follow c = is_whitespace c || c == b',' || c == b']' || c == b'}' || c == 0

-- `!strncmp(s + i, word, strlen(word))`, over the characters from `i` on.
unfoldable pub starts_with : List ℕ → List ℕ → Run Bool
starts_with cs [] = ok true
starts_with [] (w ∷ ws) = fault out_of_bounds
starts_with (c ∷ cs) (w ∷ ws) = let more = starts_with cs ws in if c == w then more else ok false

-- The words and the values for `t`, `f` and `n`, the only characters with which it is called.
unfoldable pub truthy : {F : Type 0} → ℕ → List ℕ × JsonValue F
truthy c =
    if c == b't'
    then (b't' ∷ b'r' ∷ b'u' ∷ b'e' ∷ [], json_true)
    else if c == b'f'
    then (b'f' ∷ b'a' ∷ b'l' ∷ b's' ∷ b'e' ∷ [], json_false)
    else (b'n' ∷ b'u' ∷ b'l' ∷ b'l' ∷ [], json_null)

-- The comparison with `truthy_str`.
unfoldable pub truthy_word :
    {F : Type 0} → List ℕ → ℕ → List ℕ × JsonValue F → Run (Outcome (JsonValue F))
truthy_word s i (truthy_str, value) =
    let follow = do
      d ← char_at s (i + length truthy_str)
      ok (
          if is_truthy_follow d
          then parsed s (i + length truthy_str) value
          else failed (error_at json_expected_truthy i))
    in do
      same ← starts_with (drop i s) truthy_str
      if same then follow else ok (failed (error_at json_expected_truthy i))

unfoldable pub parse_truthy : {F : Type 0} → List ℕ → ℕ → Run (Outcome (JsonValue F))
parse_truthy s i = do c ← char_at s i; truthy_word s i (truthy c)
