-- ===== src/Json.antt =====
-- libs/json/include/json.h: values, errors, and what a function of the parser hands back.
pub mod Document
pub mod Kept
pub mod Layout
pub mod Strings
pub mod RoundTrip
pub mod Tokens
pub mod Safe
pub mod Scan
pub mod Bounds
pub mod Numbers
pub mod Parse
use chowder.Prelude.{
  ℕ, suc, Bool, true, false, List, Run, ok, fault, need, out_of_bounds, get_elem?, if◌then◌else◌,
  ltb, length, set,
}
use chowder.Prelude.Int.{ℤ}

-- `enum json_err`
pub data JsonErr : Type 0 where
  json_ok json_invalid_string json_invalid_number json_missing_closing : JsonErr
  json_trailing_comma json_unexpected_char json_unexpected_eof : JsonErr
  json_expected_truthy json_expected_value json_fread : JsonErr

pub record JsonErrCtx : Type 0 where
  pub type : JsonErr
  pub index : ℕ
  pub expected : ℕ

-- An error that leaves `expected` as it was, which is 0.
abbrev pub error_at : JsonErr → ℕ → JsonErrCtx
error_at type i = record { type = type; index = i; expected = 0 }

-- `struct json_value`: the tag and the union are one data type. A string is a place in the text that
-- was parsed. The table of an object is the list of what was added to it.
mutual
  pub data JsonValue (F : Type 0) : Type 0 where
    object : Members F → JsonValue F
    array : Items F → JsonValue F
    string : ℕ → JsonValue F
    integer : ℤ → JsonValue F
    fraction : F → JsonValue F
    json_true json_false json_null : JsonValue F

  pub data Members (F : Type 0) : Type 0 where
    no_members : Members F
    member : ℕ → JsonValue F → Members F → Members F

  pub data Items (F : Type 0) : Type 0 where
    no_items : Items F
    item : JsonValue F → Items F → Items F

-- What the code does with a `double`: read one from a string, and cut it off to an `int64_t`.
pub record Double (F : Type 0) : Type 0 where
  pub atof : List ℕ → F
  pub to_int64 : F → ℤ

-- `failed` is the result 0, with the error that was set: what was built is given up then. `parsed`
-- has the text, as it then is, and the index behind what was read.
pub data Outcome (A : Type 0) : Type 0 where
  failed : JsonErrCtx → Outcome A
  parsed : List ℕ → ℕ → A → Outcome A

infixl 5 ◌>>?◌
-- What follows a result that is not 0.
abbrev pub ◌>>?◌ :
    {A B : Type 0} → Run (Outcome A) → (List ℕ → ℕ → A → Run (Outcome B)) → Run (Outcome B)
fault why >>? next = fault why
ok (failed e) >>? next = ok (failed e)
ok (parsed s i a) >>? next = next s i a

-- `s[i]`
unfoldable pub char_at : List ℕ → ℕ → Run ℕ
char_at s i = need out_of_bounds (get_elem? s i)

-- `s[i] = c`
unfoldable pub put_char : List ℕ → ℕ → ℕ → Run (List ℕ)
put_char s i c = if ltb i (length s) then ok (set s i c) else fault out_of_bounds
