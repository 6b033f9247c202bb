-- ===== src/Json/Parse.antt =====
-- libs/json/json.c: `json_parse` and the functions that call each other below it.
use chowder.Prelude.{
  ℕ, zero, suc, ◌+◌, ◌||◌, not, List, [], ◌∷◌, ◌++◌, none, some, if◌then◌else◌, ◌==◌, length, drop,
  Run, ok, fault, no_fuel, ◌>>=◌,
}
use chowder.Json.{
  error_at, json_invalid_number, json_unexpected_char, json_unexpected_eof, json_expected_value,
  json_fread, JsonValue, object, array, string, integer, fraction, Members, no_members, member,
  Items, no_items, item, Double, Outcome, failed, parsed, ◌>>?◌, char_at,
}
use chowder.Json.Scan.{
  is_digit, skip_whitespace, parse_string, skip_to_next_value, is_valid_number, parse_truthy,
}

unfoldable pub parse_number : {F : Type 0} → Double F → List ℕ → ℕ → Run (Outcome (JsonValue F))
parse_number double s num_start = do
  number ← is_valid_number s num_start
  ok (elim number [
    | none ↦ failed (error_at json_invalid_number num_start)
    | some (num_end, is_fraction) ↦
        let x = double.atof (drop num_start s) in
        parsed s num_end (if is_fraction then fraction x else integer (double.to_int64 x))
  ])

-- The name of a member, and the index at which its value starts.
unfoldable pub parse_name : List ℕ → ℕ → Run (Outcome ℕ)
parse_name s open_quote =
    let named = parse_string s open_quote >>? λ s name_end name. do
      colon_idx ← skip_whitespace s name_end
      c ← char_at s colon_idx
      let value = (do
        value_start ← skip_whitespace s (colon_idx + 1)
        ok (
            if value_start == 0
            then failed (error_at json_unexpected_eof value_start)
            else parsed s value_start name)) in
          if not (c == b':')
          then ok
              (failed (record { type = json_unexpected_char; index = colon_idx; expected = b':' }))
          else value
    in do
      c ← char_at s open_quote
      if not (c == b'"') then ok (failed (error_at json_expected_value open_quote)) else named

-- The fuel bounds the depth of the calls and the rounds of the two loops.
unfoldable mutual
  pub parse_value : {F : Type 0} → Double F → ℕ → List ℕ → ℕ → Run (Outcome (JsonValue F))
  parse_value double zero s i = fault no_fuel
  parse_value double (suc f) s i =
      let an_object = parse_object double f s i in
      let an_array = parse_array double f s i in
      do
        c ← char_at s i
        if is_digit c || c == b'+' || c == b'-'
            then parse_number double s i
            else if c == b'{'
            then an_object
            else if c == b'['
            then an_array
            else if c == b'"'
            then (parse_string s i >>? λ s i place. ok (parsed s i (string place)))
            else if c == b't' || c == b'f' || c == b'n'
            then parse_truthy s i
            else ok (failed (error_at json_expected_value i))

  pub parse_object : {F : Type 0} → Double F → ℕ → List ℕ → ℕ → Run (Outcome (JsonValue F))
  parse_object double zero s open_brace = fault no_fuel
  parse_object double (suc f) s open_brace =
      parse_members double f s (open_brace + 1) >>? λ s i ms. ok (parsed s i (object ms))

  -- The loop of `parse_object` and what follows it: it ends at a zero or at `}`.
  pub parse_members : {F : Type 0} → Double F → ℕ → List ℕ → ℕ → Run (Outcome (Members F))
  parse_members double zero s i = fault no_fuel
  parse_members double (suc f) s i =
      let round = do
        open_quote ← skip_whitespace s i
        parse_member double f s open_quote >>? λ s value_end m.
            skip_to_next_value s value_end b'}' >>? λ s i u.
            parse_members double f s i >>? λ s i ms. ok (parsed s i (member (m.0) (m.1) ms))
      in do
        c ← char_at s i
        if c == 0
            then ok (failed (error_at json_unexpected_eof i))
            else if c == b'}'
            then ok (parsed s (i + 1) no_members)
            else round

  pub parse_member : {F : Type 0} → Double F → ℕ → List ℕ → ℕ → Run (Outcome (ℕ × JsonValue F))
  parse_member double zero s open_quote = fault no_fuel
  parse_member double (suc f) s open_quote = parse_name s open_quote >>? λ s value_start name.
      parse_value double f s value_start >>? λ s value_end v. ok (parsed s value_end (name, v))

  pub parse_array : {F : Type 0} → Double F → ℕ → List ℕ → ℕ → Run (Outcome (JsonValue F))
  parse_array double zero s open_bracket = fault no_fuel
  parse_array double (suc f) s open_bracket = do
    i ← skip_whitespace s (open_bracket + 1)
    parse_items double f s i >>? λ s i vs. ok (parsed s i (array vs))

  -- The loop of `parse_array` and what follows it.
  pub parse_items : {F : Type 0} → Double F → ℕ → List ℕ → ℕ → Run (Outcome (Items F))
  parse_items double zero s i = fault no_fuel
  parse_items double (suc f) s i =
      let round = parse_value double f s i >>? λ s value_end v.
      skip_to_next_value s value_end b']' >>? λ s i u.
      parse_items double f s i >>? λ s i vs. ok (parsed s i (item v vs)) in
      do
        c ← char_at s i
        if c == 0
            then ok (failed (error_at json_unexpected_eof i))
            else if c == b']'
            then ok (parsed s (i + 1) no_items)
            else round

-- The text as it then is, and the value.
unfoldable pub json_parse : {F : Type 0} → Double F → ℕ → List ℕ → Run (Outcome (JsonValue F))
json_parse double fuel s = parse_value double fuel s 0 >>? λ s json_end v. do
  c ← char_at s json_end
  ok (
      if not (c == 0)
      then failed (record { type = json_unexpected_char; index = json_end; expected = 0 })
      else parsed s json_end v)

-- `json_string_len` and what `fread` gave. The block has a zero behind the text.
unfoldable pub json_parse_file :
    {F : Type 0} → Double F → ℕ → ℕ → List ℕ → Run (Outcome (JsonValue F))
unfolding json_parse
json_parse_file double fuel json_string_len content =
    if not (length content == json_string_len)
    then ok (failed (error_at json_fread (length content)))
    else json_parse double fuel (content ++ 0 ∷ [])
