-- ===== src/Tests/Texts.antt =====
-- libs/json/json.c: runs of the parser. A number is a row of digits.
use chowder.Prelude.{
  true, false, All, Holds, length, ◌≤◌, ℕ, ◌+◌, ◌-◌, ◌*◌, ◌≡◌, refl, List, [], ◌∷◌, ◌++◌,
  if◌then◌else◌, ok, fault, out_of_bounds, arith,
}
use chowder.Prelude.Int.{pos}
use chowder.Json.{
  put_char, object, array, integer, json_true, no_members, member, no_items, item, Double, failed,
  parsed, error_at, json_expected_value, char_at,
}
use chowder.Json.Scan.{
  is_digit, skip_while, skip_whitespace, skip_digits, string_step, string_loop, string_end,
  parse_string, skip_to_next_value, whole_part, fraction_part, exponent_digits, exponent_part,
  next_part, is_valid_number, starts_with, truthy, truthy_word, parse_truthy,
}
use chowder.Json.Parse.{parse_number, parse_name, parse_value, json_parse}
use chowder.Json.Bounds.{Terminated, Good}
use chowder.Json.Safe.{json_parse_lem}
use chowder.Json.Document.{
  Document, doc_number, doc_string, doc_array, doc_object, doc_nil, doc_cons, field_nil, field_cons,
  quoted, print, Fits, StandsFor,
}
use chowder.Json.Strings.{IsRead}
use chowder.Json.Tokens.{is_follow}
use chowder.Json.RoundTrip.{json_parse-print}

digits_value : ℕ → List ℕ → ℕ
digits_value n [] = n
digits_value n (c ∷ cs) =
    let more = digits_value (n * 10 + (c - b'0')) cs in if is_digit c then more else n

abbrev digits : Double ℕ
digits = record { atof = digits_value 0; to_int64 = pos }

-- `{"a": [1, true]}`
abbrev small_text : List ℕ
small_text =
    b'{' ∷ b'"' ∷ b'a' ∷ b'"' ∷ b':' ∷ b' ' ∷ b'[' ∷ b'1' ∷ b',' ∷ b' ' ∷ b't' ∷ b'r' ∷ b'u' ∷ b'e'
    ∷ b']' ∷ b'}' ∷ []

parsed_text :
    json_parse digits 60 (small_text ++ 0 ∷ [])
    ≡ ok (
        parsed
          (b'{' ∷ b'"' ∷ b'a' ∷ 0 ∷ b':' ∷ b' ' ∷ b'[' ∷ b'1' ∷ b',' ∷ b' ' ∷ b't' ∷ b'r' ∷ b'u'
            ∷ b'e' ∷ b']' ∷ b'}' ∷ 0 ∷ [])
          16
          (object (member 2 (array (item (integer (pos 1)) (item json_true no_items))) no_members)))
unfolding json_parse parse_value parse_number parse_name parse_string string_loop string_step
    string_end skip_whitespace skip_while skip_digits skip_to_next_value whole_part fraction_part
    exponent_digits exponent_part next_part is_valid_number starts_with truthy truthy_word
    parse_truthy char_at put_char digits_value
parsed_text = refl

-- A backslash before the terminating zero: the byte behind the zero is read.
over_read : json_parse digits 10 (b'"' ∷ b'\\' ∷ 0 ∷ []) ≡ fault out_of_bounds
unfolding json_parse parse_value parse_string string_loop string_step string_end char_at
over_read = refl

-- White space between the braces.
spaced_braces :
    json_parse digits 20 (b'{' ∷ b' ' ∷ b'}' ∷ 0 ∷ [])
    ≡ ok (failed (error_at json_expected_value 2))
unfolding json_parse parse_value parse_name skip_whitespace skip_while char_at
spaced_braces = refl

small_text-Terminated : Terminated 16 (small_text ++ 0 ∷ 0 ∷ [])
small_text-Terminated = record { zero_at = refl; spare = omega arith }

json_parse_lem_example : Good 1 16 (json_parse digits 49 (small_text ++ 0 ∷ 0 ∷ []))
json_parse_lem_example =
    json_parse_lem digits 49 16 (small_text ++ 0 ∷ 0 ∷ []) small_text-Terminated (omega arith)

digits-stop :
    (n d : ℕ) (ds rest : List ℕ)
    → All (λ (c : ℕ). is_digit c ≡ true) ds
    → is_follow d ≡ true
    → digits_value n (ds ++ d ∷ rest) ≡ digits_value n (ds ++ 0 ∷ [])
unfolding digits_value
digits-stop n d [] rest k follow =
    let stop : is_digit d ≡ false = ground (arith, follow) in rw stop refl
digits-stop n d (c ∷ ds) rest k follow =
    rw (k.0) (digits-stop (n * 10 + (c - b'0')) d ds rest k.1 follow)

-- `{"a":["\n",12]}`
abbrev small_document : Document
small_document = doc_object (
    field_cons (b'a' ∷ [])
      (doc_array
        (doc_cons (doc_string (10 ∷ [])) (doc_cons (doc_number (b'1' ∷ b'2' ∷ [])) doc_nil)))
      field_nil)

small_document-Fits : Fits small_document
unfolding Fits
small_document-Fits = ground arith

small_document_fuel : 3 * length (print small_document) + 1 ≤ 46
unfolding print quoted
small_document_fuel = omega arith

json_parse-print_example :
    Holds
      (IsRead 0
        (print small_document ++ 0 ∷ [])
        (0 ∷ [])
        (length (print small_document))
        (λ s x. StandsFor digits s (length (print small_document)) x small_document))
      (json_parse digits 46 (print small_document ++ 0 ∷ []))
json_parse-print_example =
    json_parse-print digits (digits-stop 0) small_document 46 [] small_document-Fits
      small_document_fuel
