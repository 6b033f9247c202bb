-- ===== src/Config/Whole.antt =====
-- src/config.c: the whole file that set_default_server_properties writes, read line by line.
use chowder.Prelude.Text.{all, all-get_elem?, codes}
use chowder.Prelude.{
  ℕ, zero, suc, ◌+◌, ◌<◌, ◌≤◌, ◌≡◌, refl, sym, ap, ◌∙◌, Bool, true, false, ◌&&◌, List, [], ◌∷◌,
  ◌++◌, some, ◌==◌, ltb, length, drop, splice, get_elem?, ok, ◌>>=◌, arith, length-append,
}
use mathlib.Core.List.{append_assoc}
use chowder.Prelude.Int.{pos}
use chowder.Config.{ConfigValue, Field, config_mappings}
use chowder.Config.Read.{
  fgets, process_line, read_lines, read_server_properties, put_digits, default_text, default_lines,
  set_default_server_properties, config_ok,
}
use chowder.Config.Laws.{in_value}
use chowder.Config.ReadBack.{read_field, process_line-default_text}

-- A line within the limit is read with its newline.
fgets_line :
    (n : ℕ) (text rest : List ℕ)
    → length text < n
    → all in_value text ≡ true
    → fgets n (text ++ b'\n' ∷ rest) ≡ (text ++ b'\n' ∷ [], rest)
unfolding fgets all
fgets_line zero text rest h k = ground (arith, h)
fgets_line (suc n) [] rest h k = refl
fgets_line (suc n) (c ∷ text) rest h k =
    let go : (c == b'\n') ≡ false = ground (arith, k) in
    rw (go, fgets_line n text rest (omega arith) (ground (arith, k))) refl

-- The line that is written for an entry, without its newline.
abbrev entry_text : ConfigValue → List ℕ
entry_text v = v.prop_name ++ b'=' ∷ default_text v.default

-- Each one is short.
abbrev fine_text : ConfigValue → Bool
fine_text v = all in_value (entry_text v) && ltb (length (entry_text v)) 1000

config_mappings-fine_text : all fine_text config_mappings ≡ true
unfolding all config_mappings put_digits
config_mappings-fine_text = refl

-- The fields when the entries from the `i`-th on have been read.
unfoldable pub read_fields : ℕ → List ConfigValue → List Field → List Field
read_fields i [] fields = fields
read_fields i (v ∷ vs) fields = read_fields (suc i) vs (read_field v.default i fields)

default_lines_cons :
    (v : ConfigValue) (vs : List ConfigValue)
    → default_lines (v ∷ vs) ≡ entry_text v ++ b'\n' ∷ default_lines vs
unfolding default_lines
default_lines_cons v vs = sym (append_assoc v.prop_name (b'=' ∷ default_text v.default) _)

-- A round over a line within the limit that is processed without an error.
read_lines_round :
    (f : ℕ) (line text rest : List ℕ) (fields fields' : List Field) (line' : List ℕ)
    → length text < 1000
    → all in_value text ≡ true
    → process_line (splice line 0 ((text ++ b'\n' ∷ []) ++ 0 ∷ [])) fields
      ≡ ok (line', pos 0, fields')
    → read_lines (suc f) line (text ++ b'\n' ∷ rest) fields ≡ read_lines f line' rest fields'
unfolding read_lines
read_lines_round f line text rest fields fields' line' h k e =
    let some_text : (length (text ++ b'\n' ∷ []) == 0) ≡ false =
      ground (arith, length-append text (b'\n' ∷ [])) in
    rw (fgets_line 1023 text rest (omega arith) k, some_text, e, ◌>>=◌) refl

read_lines_end :
    (f : ℕ) (line : List ℕ) (fields : List Field)
    → read_lines (suc f) line [] fields ≡ ok (config_ok, fields)
unfolding read_lines fgets
read_lines_end f line fields = refl

-- A comment changes no field.
read_lines_comment :
    (f : ℕ) (line text rest : List ℕ) (fields : List Field)
    → length text < 999
    → all in_value text ≡ true
    → (line' : List ℕ) × (read_lines (suc f) line (b'#' ∷ (text ++ b'\n' ∷ rest)) fields
        ≡ read_lines f line' rest fields)
unfolding process_line all
read_lines_comment f line text rest fields h k =
    (_, read_lines_round f line (b'#' ∷ text) rest fields fields _ (omega arith) k refl)

line_shape :
    (name value line : List ℕ)
    → splice line 0 (((name ++ b'=' ∷ value) ++ b'\n' ∷ []) ++ 0 ∷ [])
      ≡ name
        ++ b'='
          ∷ (value
              ++ b'\n'
                ∷ 0
                ∷ drop (0 + length (((name ++ b'=' ∷ value) ++ b'\n' ∷ []) ++ 0 ∷ [])) line)
line_shape name value line =
    append_assoc ((name ++ b'=' ∷ value) ++ b'\n' ∷ []) (0 ∷ []) _
    ∙ append_assoc (name ++ b'=' ∷ value) (b'\n' ∷ []) _
    ∙ append_assoc name (b'=' ∷ value) _

read_lines-default_lines :
    (f i : ℕ) (vs : List ConfigValue) (line : List ℕ) (fields : List Field)
    → ((k : ℕ) (v : ConfigValue)
        → get_elem? vs k ≡ some v
        → get_elem? config_mappings (i + k) ≡ some v)
    → length vs < f
    → read_lines f line (default_lines vs) fields ≡ ok (config_ok, read_fields i vs fields)
unfolding read_lines default_lines read_fields
read_lines-default_lines zero i vs line fields listed h = ground (arith, h)
read_lines-default_lines (suc f) i [] line fields listed h = read_lines_end f line fields
read_lines-default_lines (suc f) i (v ∷ vs) line fields listed h =
    let here : get_elem? config_mappings i ≡ some v =
      ap (λ (k : ℕ). get_elem? config_mappings k) {y = i + 0} (omega arith) ∙ listed 0 v refl in
    let fine : all in_value (entry_text v) && ltb (length (entry_text v)) 1000 ≡ true =
      all-get_elem? fine_text config_mappings i v config_mappings-fine_text here in
    ap (λ t. read_lines (suc f) line t fields) (default_lines_cons v vs)
    ∙ read_lines_round f line (entry_text v) (default_lines vs) fields
        (read_field v.default i fields) _ (ground (arith, fine)) (ground (arith, fine))
        (ap (λ t. process_line t fields) (line_shape v.prop_name (default_text v.default) line)
          ∙ process_line-default_text i v _ fields here)
    ∙ read_lines-default_lines f (suc i) vs _ (read_field v.default i fields)
        (λ k w e.
          ap (λ (j : ℕ). get_elem? config_mappings j) {x = suc i + k} {y = i + suc k} (omega arith)
          ∙ listed (suc k) w e)
        (omega arith)

length-default_lines : (vs : List ConfigValue) → length vs ≤ length (default_lines vs)
unfolding default_lines
length-default_lines [] = omega arith
length-default_lines (v ∷ vs) =
    rw (length-append, length-append) (omega (arith, length-default_lines vs))

abbrev first_comment : List ℕ
first_comment = codes " Minecraft server properties"

-- Two comments and the table, with a round for each line.
read_lines_file :
    (f : ℕ) (date line : List ℕ) (fields : List Field)
    → length date < 998
    → all in_value date ≡ true
    → length config_mappings < f
    → read_lines
        (suc (suc f))
        line
        (b'#'
          ∷ (first_comment
              ++ b'\n' ∷ b'#' ∷ ((b' ' ∷ date) ++ b'\n' ∷ default_lines config_mappings)))
        fields
      ≡ ok (config_ok, read_fields 0 config_mappings fields)
unfolding all
read_lines_file f date line fields h k enough =
    let text = (b' ' ∷ date) ++ b'\n' ∷ default_lines config_mappings in
    let (line1, first) =
      read_lines_comment (suc f) line first_comment (b'#' ∷ text) fields (omega arith) refl in
    let (line2, second) =
      read_lines_comment f line1 (b' ' ∷ date) (default_lines config_mappings) fields
        (omega (arith, h)) k in
    first
    ∙ second
    ∙ read_lines-default_lines f 0 config_mappings line2 fields
        (λ i v e. ap (λ (j : ℕ). get_elem? config_mappings j) {x = 0 + i} {y = i} (omega arith) ∙ e)
        enough

-- For a date of one line of fewer than 998 characters, without a zero: reading the file that
-- `set_default_server_properties` writes ends with `CONFIG_OK`, whatever the array held at first,
-- and each entry of the table in its order has set its field: a number, a string and the first
-- entry of a mapping as they were written, nothing where there is no default string, and a Boolean
-- to the other one.
pub read_server_properties-set_default_server_properties :
    (date line : List ℕ) (old fields : List Field)
    → length date < 998
    → all in_value date ≡ true
    → read_server_properties line
        (some ((set_default_server_properties (date ++ b'\n' ∷ []) old).0))
        fields
      ≡ ok (config_ok, read_fields 0 config_mappings fields)
unfolding read_server_properties set_default_server_properties
read_server_properties-set_default_server_properties date line old fields h k =
    let text = date ++ b'\n' ∷ default_lines config_mappings in
    let enough : length config_mappings
        < length (codes " Minecraft server properties\n# " ++ text) =
      ground (
        arith,
        length-append date (b'\n' ∷ default_lines config_mappings),
        length-default_lines config_mappings,
      ) in
    ap
      (λ t.
        read_server_properties line (some (codes "# Minecraft server properties\n# " ++ t)) fields)
      (append_assoc date (b'\n' ∷ []) (default_lines config_mappings))
    ∙ read_lines_file (length (codes " Minecraft server properties\n# " ++ text)) date line fields h
        k enough
