-- ===== src/Json/Document.antt =====
-- Documents, an independent description of JSON: how one is written with no white space, and what it
-- means that a value which libs/json/json.c built stands for one.
use chowder.Prelude.{
  ℕ, ◌+◌, ◌≤◌, ◌<◌, ◌≡◌, true, not, ◌||◌, List, [], ◌∷◌, ◌++◌, if◌then◌else◌, ◌==◌, length, take,
  drop, All,
}
use chowder.Json.{
  JsonValue, object, array, string, integer, json_true, json_false, json_null, Members, no_members,
  member, Items, no_items, item, Double,
}
use chowder.Json.Scan.{is_digit, is_control}

mutual
  -- A number is a row of digits.
  pub data Document : Type 0 where
    doc_null doc_true doc_false : Document
    doc_number doc_string : List ℕ → Document
    doc_array : Documents → Document
    doc_object : Fields → Document

  pub data Documents : Type 0 where
    doc_nil : Documents
    doc_cons : Document → Documents → Documents

  pub data Fields : Type 0 where
    field_nil : Fields
    field_cons : List ℕ → Document → Fields → Fields

-- The letter behind the backslash; 0 for a character that needs none.
abbrev pub letter : ℕ → ℕ
letter c =
    if c == b'"' || c == b'\\'
    then c
    else if c == 8
    then b'b'
    else if c == 12
    then b'f'
    else if c == 10
    then b'n'
    else if c == 13
    then b'r'
    else if c == 9
    then b't'
    else 0

abbrev pub quoted_char : ℕ → List ℕ → List ℕ
quoted_char c cs = if letter c == 0 then c ∷ cs else b'\\' ∷ letter c ∷ cs

unfoldable pub quoted : List ℕ → List ℕ
quoted [] = []
quoted (c ∷ cs) = quoted_char c (quoted cs)

abbrev pub comma : Documents → List ℕ
comma doc_nil = []
comma (doc_cons v vs) = b',' ∷ []

abbrev pub field_comma : Fields → List ℕ
field_comma field_nil = []
field_comma (field_cons name v fs) = b',' ∷ []

unfoldable mutual
  unfolding quoted

  pub print : Document → List ℕ
  print doc_null = b'n' ∷ b'u' ∷ b'l' ∷ b'l' ∷ []
  print doc_true = b't' ∷ b'r' ∷ b'u' ∷ b'e' ∷ []
  print doc_false = b'f' ∷ b'a' ∷ b'l' ∷ b's' ∷ b'e' ∷ []
  print (doc_number ds) = ds
  print (doc_string cs) = b'"' ∷ (quoted cs ++ b'"' ∷ [])
  print (doc_array vs) = b'[' ∷ print_items vs
  print (doc_object fs) = b'{' ∷ print_fields fs

  -- What follows an opening bracket, or the comma behind an item.
  pub print_items : Documents → List ℕ
  print_items doc_nil = b']' ∷ []
  print_items (doc_cons v vs) = print v ++ (comma vs ++ print_items vs)

  pub print_fields : Fields → List ℕ
  print_fields field_nil = b'}' ∷ []
  print_fields (field_cons name v fs) =
      b'"' ∷ (quoted name ++ b'"' ∷ b':' ∷ (print v ++ (field_comma fs ++ print_fields fs)))

-- A control character is in a string only where there is a letter for it.
abbrev pub CanQuote : ℕ → Type 0
CanQuote c = not (is_control c) || not (letter c == 0) ≡ true

unfoldable mutual
  pub Fits : Document → Type 0
  Fits doc_null = Unit
  Fits doc_true = Unit
  Fits doc_false = Unit
  Fits (doc_number ds) = (0 < length ds) × All (λ c. is_digit c ≡ true) ds
  Fits (doc_string cs) = All CanQuote cs
  Fits (doc_array vs) = ItemsFit vs
  Fits (doc_object fs) = FieldsFit fs

  pub ItemsFit : Documents → Type 0
  ItemsFit doc_nil = Unit
  ItemsFit (doc_cons v vs) = Fits v × ItemsFit vs

  pub FieldsFit : Fields → Type 0
  FieldsFit field_nil = Unit
  FieldsFit (field_cons name v fs) = All CanQuote name × Fits v × FieldsFit fs

-- The C string at `place` is `cs`, and ends before `k`.
abbrev pub HasString : List ℕ → ℕ → ℕ → List ℕ → Type 0
HasString text k place cs =
    (place + length cs + 1 ≤ k) × (take (length cs + 1) (drop place text) ≡ cs ++ 0 ∷ [])

-- A value stands for a document when its strings are read in this text. They end before `k`.
mutual
  pub data StandsFor {F : Type 0} (double : Double F) (text : List ℕ) (k : ℕ)
      : JsonValue F → Document → Type 0 where
    for_null : StandsFor double text k json_null doc_null
    for_true : StandsFor double text k json_true doc_true
    for_false : StandsFor double text k json_false doc_false
    for_number :
        (ds : List ℕ)
        → StandsFor double text k
            (integer (double.to_int64 (double.atof (ds ++ 0 ∷ []))))
            (doc_number ds)
    for_string :
        (place : ℕ) (cs : List ℕ)
        → HasString text k place cs
        → StandsFor double text k (string place) (doc_string cs)
    for_array :
        (vs : Items F) (ds : Documents)
        → ItemsStandFor double text k vs ds
        → StandsFor double text k (array vs) (doc_array ds)
    for_object :
        (ms : Members F) (fs : Fields)
        → MembersStandFor double text k ms fs
        → StandsFor double text k (object ms) (doc_object fs)

  pub data ItemsStandFor {F : Type 0} (double : Double F) (text : List ℕ) (k : ℕ)
      : Items F → Documents → Type 0 where
    for_nil : ItemsStandFor double text k no_items doc_nil
    for_cons :
        (v : JsonValue F) (vs : Items F) (d : Document) (ds : Documents)
        → StandsFor double text k v d
        → ItemsStandFor double text k vs ds
        → ItemsStandFor double text k (item v vs) (doc_cons d ds)

  pub data MembersStandFor {F : Type 0} (double : Double F) (text : List ℕ) (k : ℕ)
      : Members F → Fields → Type 0 where
    for_no_members : MembersStandFor double text k no_members field_nil
    for_member :
        (place : ℕ) (name : List ℕ) (v : JsonValue F) (ms : Members F) (d : Document) (fs : Fields)
        → HasString text k place name
        → StandsFor double text k v d
        → MembersStandFor double text k ms fs
        → MembersStandFor double text k (member place v ms) (field_cons name d fs)
