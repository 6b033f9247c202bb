-- ===== src/Json/Layout.antt =====
-- libs/json/json.c: what stands between the values of a document, as the parser reads it.
use chowder.Prelude.{
  ℕ, ◌+◌, ◌<◌, ◌≡◌, refl, ap, ◌∙◌, true, false, List, [], ◌∷◌, ◌++◌, ◌==◌, length, drop, All,
  length-append, ok, ◌>>=◌, arith, Holds, holds,
}
use chowder.Json.{parsed}
use chowder.Json.Scan.{is_whitespace, skip_to_next_value}
use chowder.Json.Parse.{parse_name}
use chowder.Json.Document.{
  Document, Documents, doc_nil, doc_cons, Fields, field_nil, field_cons, quoted, comma, field_comma,
  print, print_items, print_fields, CanQuote, ItemsFit, HasString,
}
use chowder.Json.Strings.{IsRead, is_read, char_at-drop, parse_string-quoted}
use chowder.Json.Tokens.{
  is_follow, drop_behind, IsRead-step, skip_whitespace_none, skip_to_next_value_end,
  skip_to_next_value_comma,
}
use chowder.Json.Kept.{print_start}

-- Behind an item: the next one, or the bracket.
pub next_item :
    (vs : Documents) (i : ℕ) (s rest : List ℕ)
    → ItemsFit vs
    → drop i s ≡ comma vs ++ (print_items vs ++ rest)
    → (skip_to_next_value s i b']' ≡ ok (parsed s (i + length (comma vs)) tt))
      × (drop (i + length (comma vs)) s ≡ print_items vs ++ rest)
unfolding print ItemsFit
next_item doc_nil i s rest fit h =
    let e : i + 0 ≡ i = omega arith in rw e (skip_to_next_value_end i b']' s rest h refl, h)
next_item (doc_cons v vs) i s rest fit h =
    let (c, cs, first, start) = print_start v fit.0 in
    let here = h ∙ ap (λ t. b',' ∷ ((t ++ (comma vs ++ print_items vs)) ++ rest)) first in
    (
      skip_to_next_value_comma i b']' c s _ here (ground (arith, start)),
      drop_behind i s (b',' ∷ []) _ h,
    )

pub next_field :
    (fs : Fields) (i : ℕ) (s rest : List ℕ)
    → drop i s ≡ field_comma fs ++ (print_fields fs ++ rest)
    → (skip_to_next_value s i b'}' ≡ ok (parsed s (i + length (field_comma fs)) tt))
      × (drop (i + length (field_comma fs)) s ≡ print_fields fs ++ rest)
unfolding print
next_field field_nil i s rest h =
    let e : i + 0 ≡ i = omega arith in rw e (skip_to_next_value_end i b'}' s rest h refl, h)
next_field (field_cons name v fs) i s rest h =
    (skip_to_next_value_comma i b'}' b'"' s _ h refl, drop_behind i s (b',' ∷ []) _ h)

pub follow_item :
    (vs : Documents) (rest : List ℕ)
    → (d : ℕ) × (more : List ℕ) × (comma vs ++ (print_items vs ++ rest) ≡ d ∷ more)
      × (is_follow d ≡ true)
unfolding print
follow_item doc_nil rest = (_, _, refl, refl)
follow_item (doc_cons v vs) rest = (_, _, refl, refl)

pub follow_field :
    (fs : Fields) (rest : List ℕ)
    → (d : ℕ) × (more : List ℕ) × (field_comma fs ++ (print_fields fs ++ rest) ≡ d ∷ more)
      × (is_follow d ≡ true)
unfolding print
follow_field field_nil rest = (_, _, refl, refl)
follow_field (field_cons name v fs) rest = (_, _, refl, refl)

pub items_start :
    (vs : Documents) (rest : List ℕ)
    → ItemsFit vs
    → (c : ℕ) × (cs : List ℕ) × (print_items vs ++ rest ≡ c ∷ cs) × (is_whitespace c ≡ false)
unfolding print ItemsFit
items_start doc_nil rest fit = (_, _, refl, refl)
items_start (doc_cons v vs) rest fit =
    let (c, cs, first, start) = print_start v fit.0 in
    (c, _, ap (λ t. (t ++ (comma vs ++ print_items vs)) ++ rest) first, ground (arith, start))

pub length_items :
    (v : Document) (vs : Documents)
    → length (print_items (doc_cons v vs))
      ≡ length (print v) + (length (comma vs) + length (print_items vs))
unfolding print
length_items v vs = omega (
  arith,
  length-append (print v) (comma vs ++ print_items vs),
  length-append (comma vs) (print_items vs),
)

pub items_pos : (vs : Documents) → 0 < length (print_items vs)
unfolding print
items_pos doc_nil = omega arith
items_pos (doc_cons v vs) = omega (arith, length_items v vs, items_pos vs)

pub length_fields :
    (name : List ℕ) (v : Document) (fs : Fields)
    → length (print_fields (field_cons name v fs))
      ≡ length (quoted name)
        + 3
        + length (print v)
        + length (field_comma fs)
        + length (print_fields fs)
unfolding print
length_fields name v fs = omega (
  arith,
  length-append (quoted name) (b'"' ∷ b':' ∷ (print v ++ (field_comma fs ++ print_fields fs))),
  length-append (print v) (field_comma fs ++ print_fields fs),
  length-append (field_comma fs) (print_fields fs),
)

-- The name of a member, up to its value.
pub parse_name-quoted :
    (name : List ℕ) (i c : ℕ) (s rest : List ℕ)
    → All CanQuote name
    → is_whitespace c ≡ false
    → drop i s ≡ b'"' ∷ (quoted name ++ b'"' ∷ b':' ∷ c ∷ rest)
    → Holds
        (IsRead i s
          (c ∷ rest)
          (length (quoted name) + 3)
          (λ s' place. HasString s' (i + (length (quoted name) + 2)) place name))
        (parse_name s i)
unfolding parse_name
parse_name-quoted name i c s rest fit dark h =
    rw ((char_at-drop i _ s _ h).0, ◌>>=◌)
      (IsRead-step (parse_string-quoted name i s _ fit h) (λ s' j place e front left p.
        let (colon, behind) = char_at-drop j _ s' _ left in
        let later : (j + 1 == 0) ≡ false = ground arith in
        rw
          (
            skip_whitespace_none j b':' s' _ left refl,
            ◌>>=◌,
            colon,
            ◌>>=◌,
            skip_whitespace_none (j + 1) c s' rest behind dark,
            ◌>>=◌,
            later,
          )
          (holds _ (is_read s' (j + 1) place (omega (arith, e)) front behind p))))
