-- ===== src/Config/Read.antt =====
-- src/config.c: reading the server properties.
use chowder.Prelude.{
  ℕ, zero, suc, ◌+◌, ◌-◌, ◌*◌, ◌/◌, ◌%◌, ◌^◌, Bool, true, false, not, ◌&&◌, ◌||◌, List, [], ◌∷◌,
  ◌++◌, Option, none, some, if◌then◌else◌, leb, ltb, ◌==◌, length, drop, set, splice, get_elem?,
  need, Run, ok, fault, out_of_bounds, no_fuel, ◌>>=◌,
}
use chowder.Prelude.Text.{same_text, array_text, codes}
use chowder.Prelude.Int.{ℤ, pos, negsuc, ltb_ℤ}
use chowder.Config.{
  EstrMapping, CvData, cv_num, cv_bool, cv_str, cv_estr, ConfigValue, Field, num, bool, str,
  config_mappings,
}

-- `while (line[i] != '\0' && line[i] != '=') ++i`, over the characters from `i` on.
unfoldable pub find_equals : ℕ → List ℕ → Run ℕ
find_equals i [] = fault out_of_bounds
find_equals i (c ∷ cs) =
    let more = find_equals (suc i) cs in if c == 0 || c == b'=' then ok i else more

-- `while (line[i] != '\n') ++i`
unfoldable pub find_newline : ℕ → List ℕ → Run ℕ
find_newline i [] = fault out_of_bounds
find_newline i (c ∷ cs) = let more = find_newline (suc i) cs in if c == b'\n' then ok i else more

unfoldable pub has_name : List ℕ → List EstrMapping → Bool
has_name value_str [] = false
has_name value_str (m ∷ ms) = same_text m.name value_str || has_name value_str ms

-- What is written is the value of the first entry.
unfoldable pub process_estr : List ℕ → List EstrMapping → Option ℕ
process_estr value_str [] = none
process_estr value_str (m ∷ ms) = if has_name value_str (m ∷ ms) then some m.value else none

-- The place of the property in the table.
unfoldable pub find_property : List ℕ → List ConfigValue → Option (ℕ × ConfigValue)
find_property line [] = none
find_property line (v ∷ vs) =
    let rest : Option (ℕ × ConfigValue) = elim (find_property line vs) [
      | none ↦ none
      | some (i, w) ↦ some (suc i, w)
    ] in
    if same_text line v.prop_name then some (0, v) else rest

abbrev pub is_decimal : ℕ → Bool
is_decimal c = leb b'0' c && leb c b'9'

unfoldable pub decimal : ℕ → List ℕ → ℕ
decimal n [] = n
decimal n (c ∷ cs) = let more = decimal (n * 10 + (c - b'0')) cs in if is_decimal c then more else n

-- `sscanf(value_str, "%u")`, as glibc does it: white space, a sign, and the digits of an
-- `unsigned long` that is cut off to 32 bits.
abbrev pub is_space : ℕ → Bool
is_space c = c == b' ' || leb 9 c && leb c 13

unfoldable pub skip_spaces : List ℕ → List ℕ
skip_spaces [] = []
skip_spaces (c ∷ cs) = let more = skip_spaces cs in if is_space c then more else c ∷ cs

abbrev pub to_ulong : ℕ → ℕ
to_ulong n = if ltb n (2 ^ 64) then n else 2 ^ 64 - 1

abbrev pub negated : ℕ → ℕ
negated n = if ltb n (2 ^ 64) then (2 ^ 64 - n) % 2 ^ 64 else 2 ^ 64 - 1

abbrev pub scan_digits : (ℕ → ℕ) → List ℕ → Option ℕ
scan_digits convert [] = none
scan_digits convert (c ∷ cs) =
    if is_decimal c then some (convert (decimal 0 (c ∷ cs)) % 2 ^ 32) else none

abbrev pub scan_signed : List ℕ → Option ℕ
scan_signed [] = none
scan_signed (c ∷ cs) =
    if c == b'-'
    then scan_digits negated cs
    else if c == b'+'
    then scan_digits to_ulong cs
    else scan_digits to_ulong (c ∷ cs)

unfoldable pub scan_unsigned : List ℕ → Option ℕ
unfolding skip_spaces decimal
scan_unsigned cs = scan_signed (skip_spaces cs)

abbrev pub ProcessResult : Type 0
ProcessResult = ℤ × List Field

-- The switch over the type.
unfoldable pub process_data : CvData → ℕ → List ℕ → List Field → ProcessResult
process_data (cv_num default) i value_str fields = elim (scan_unsigned value_str) [
  | none ↦ (pos 1, fields)
  | some n ↦ (pos 0, set fields i (num n))
]
process_data (cv_bool default) i value_str fields =
    if not (same_text value_str (codes "false"))
    then (pos 0, set fields i (bool false))
    else if not (same_text value_str (codes "true"))
    then (pos 0, set fields i (bool true))
    else (pos 1, fields)
process_data (cv_str default) i [] fields = (pos 0, fields)
process_data (cv_str default) i (c ∷ cs) fields = (pos 0, set fields i (str (c ∷ cs)))
process_data (cv_estr mapping) i value_str fields = elim (process_estr value_str mapping) [
  | none ↦ (negsuc 0, fields)
  | some n ↦ (pos 0, set fields i (num n))
]

-- The array `line` as it then is, and the result with the fields.
abbrev pub LineResult : Type 0
LineResult = List ℕ × ℤ × List Field

abbrev pub with_line : List ℕ → ProcessResult → LineResult
with_line line (status, fields) = (line, status, fields)

-- Behind the search for the `=`, which is cut off.
unfoldable pub process_named : ℕ → List ℕ → List Field → Run LineResult
process_named eq_idx line fields = do
  name ← array_text line
  elim (find_property name config_mappings) [
    | none ↦ ok (line, pos 0, fields)
    | some (i, value) ↦ do
      value_str ← array_text (drop (eq_idx + 1) line)
      ok (with_line line (process_data value.default i value_str fields))
  ]

unfoldable pub process_value : List ℕ → List Field → Run LineResult
process_value line fields = do
  eq_idx ← find_equals 0 line
  c ← need out_of_bounds (get_elem? line eq_idx)
  if eq_idx == 0 && c == b'='
      then ok (line, negsuc 0, fields)
      else process_named eq_idx (set line eq_idx 0) fields

-- `fgets(line, LINE_LEN, file)`: at most `n` characters, up to a newline.
unfoldable pub fgets : ℕ → List ℕ → List ℕ × List ℕ
fgets zero file = ([], file)
fgets (suc n) [] = ([], [])
fgets (suc n) (c ∷ file) =
    let (line, rest) = fgets n file in if c == b'\n' then (c ∷ [], file) else (c ∷ line, rest)

pub data ConfigErr : Type 0 where
  config_ok config_read config_invalid : ConfigErr

-- The part of a round behind `fgets`: a line that is not empty and no comment.
unfoldable pub process_line : List ℕ → List Field → Run LineResult
process_line line fields = do
  c ← need out_of_bounds (get_elem? line 0)
  let property : Run LineResult = (do
    i ← find_newline 0 line
    process_value (set line i 0) fields) in
      if not (c == b'#') && not (c == b'\n') then property else ok (line, pos 0, fields)

-- The loop, with a round for each line. `line` is the array, which keeps what earlier lines left
-- behind the zero of a shorter one.
unfoldable pub read_lines : ℕ → List ℕ → List ℕ → List Field → Run (ConfigErr × List Field)
read_lines zero line file fields = fault no_fuel
read_lines (suc f) line file fields =
    let (text, rest) = fgets 1023 file in
    let round : Run (ConfigErr × List Field) = do
      (line, status, fields) ← process_line (splice line 0 (text ++ 0 ∷ [])) fields
      let more = read_lines f line rest fields in
          if ltb_ℤ status (pos 0) then ok (config_invalid, fields) else more
    in if length text == 0 then ok (config_ok, fields) else round

-- The file is `none` where it cannot be opened; `line` is what the array holds at first.
unfoldable pub read_server_properties :
    List ℕ → Option (List ℕ) → List Field → Run (ConfigErr × List Field)
unfolding read_lines
read_server_properties line none fields = ok (config_read, fields)
read_server_properties line (some file) fields = read_lines (suc (length file)) line file fields

-- `%u`: the digits of a number, in front of others.
unfoldable pub put_digits : ℕ → ℕ → List ℕ → List ℕ
put_digits zero n cs = cs
put_digits (suc f) n cs =
    let more = put_digits f (n / 10) ((b'0' + n % 10) ∷ cs) in
    if ltb n 10 then (b'0' + n % 10) ∷ cs else more

-- What `set_default_server_properties` writes for a default, and to the field.
abbrev pub default_text : CvData → List ℕ
default_text (cv_num n) = put_digits 10 n []
default_text (cv_bool b) = if b then codes "true" else codes "false"
default_text (cv_str none) = []
default_text (cv_str (some s)) = s
default_text (cv_estr []) = []
default_text (cv_estr (m ∷ ms)) = m.name

abbrev pub default_field : CvData → Field → Field
default_field (cv_num n) old = num n
default_field (cv_bool b) old = bool b
default_field (cv_str none) old = old
default_field (cv_str (some s)) old = str s
default_field (cv_estr []) old = old
default_field (cv_estr (m ∷ ms)) old = num m.value

unfoldable pub default_lines : List ConfigValue → List ℕ
default_lines [] = []
default_lines (v ∷ vs) = v.prop_name ++ b'=' ∷ (default_text v.default ++ b'\n' ∷ default_lines vs)

unfoldable pub default_fields : List ConfigValue → List Field → List Field
default_fields [] fields = fields
default_fields (v ∷ vs) [] = []
default_fields (v ∷ vs) (x ∷ fields) = default_field v.default x ∷ default_fields vs fields

-- The file and the fields; `time_text` is what `ctime` gives.
unfoldable pub set_default_server_properties : List ℕ → List Field → List ℕ × List Field
unfolding default_lines default_fields
set_default_server_properties time_text fields = (
  codes "# Minecraft server properties\n# " ++ (time_text ++ default_lines config_mappings),
  default_fields config_mappings fields,
)
