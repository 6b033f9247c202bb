-- ===== src/Config/Laws.antt =====
-- src/config.c: a line that sets a property.
use chowder.Prelude.{
  ℕ, zero, suc, ◌+◌, ◌≡◌, refl, sym, ap, ◌∙◌, Bool, true, false, not, ◌&&◌, ◌||◌, List, [], ◌∷◌,
  ◌++◌, some, ◌==◌, length, drop, set, get_elem?, ok, ◌>>=◌, arith,
}
use mathlib.Core.Option.{some-injective}
use mathlib.Core.List.{append_assoc}
use chowder.Prelude.Text.{
  same_text, same_text_self, all, all_weaken, all_append, all_cons, all-get_elem?,
  array_text-append,
}
use chowder.Config.{ConfigValue, Field, config_mappings}
use chowder.Config.Read.{
  find_equals, find_newline, find_property, process_data, with_line, process_named, process_value,
  process_line,
}

-- A character of a name, and one of a value.
abbrev pub in_name : ℕ → Bool
in_name c = not (c == 0) && not (c == b'=') && not (c == b'\n') && not (c == b'#')

abbrev pub in_value : ℕ → Bool
in_value c = not (c == 0) && not (c == b'\n')

find_newline_here :
    (xs rest : List ℕ) (i : ℕ)
    → all in_value xs ≡ true
    → find_newline i (xs ++ b'\n' ∷ rest) ≡ ok (i + length xs)
unfolding find_newline all
find_newline_here [] rest i h = ap ok {x = i} {y = i + 0} (omega arith)
find_newline_here (x ∷ xs) rest i h =
    let go : (x == b'\n') ≡ false = ground (arith, h) in
    rw (go, find_newline_here xs rest (suc i) (ground (arith, h)))
      (ap ok {x = suc i + length xs} {y = i + suc (length xs)} (omega arith))

find_equals_here :
    (xs rest : List ℕ) (i : ℕ)
    → all in_name xs ≡ true
    → find_equals i (xs ++ b'=' ∷ rest) ≡ ok (i + length xs)
unfolding find_equals all
find_equals_here [] rest i h = ap ok {x = i} {y = i + 0} (omega arith)
find_equals_here (x ∷ xs) rest i h =
    let go : (x == 0) || (x == b'=') ≡ false = ground (arith, h) in
    rw (go, find_equals_here xs rest (suc i) (ground (arith, h)))
      (ap ok {x = suc i + length xs} {y = i + suc (length xs)} (omega arith))

set_here : (xs rest : List ℕ) (c d : ℕ) → set (xs ++ c ∷ rest) (length xs) d ≡ xs ++ d ∷ rest
set_here [] rest c d = refl
set_here (x ∷ xs) rest c d = ap (λ t. x ∷ t) (set_here xs rest c d)

get_here : (xs rest : List ℕ) (c : ℕ) → get_elem? (xs ++ c ∷ rest) (length xs) ≡ some c
get_here [] rest c = refl
get_here (x ∷ xs) rest c = get_here xs rest c

drop_here : (xs rest : List ℕ) (c : ℕ) → drop (suc (length xs)) (xs ++ c ∷ rest) ≡ rest
drop_here [] rest c = refl
drop_here (x ∷ xs) rest c = drop_here xs rest c

first_char :
    (xs : List ℕ)
    → all in_name xs && not (length xs == 0) ≡ true
    → (c : ℕ) × (cs : List ℕ) × (xs ≡ c ∷ cs) × (not (c == b'#') && not (c == b'\n') ≡ true)
unfolding all
first_char [] h = ground (arith, h)
first_char (x ∷ xs) h = (x, xs, refl, ground (arith, h))

-- No two entries have one name, and a name has no character that ends it.
unfoldable distinct : List ConfigValue → Bool
unfolding all
distinct [] = true
distinct (v ∷ vs) = all (λ w. not (same_text w.prop_name v.prop_name)) vs && distinct vs

abbrev fine_name : ConfigValue → Bool
fine_name v = all in_name v.prop_name && not (length v.prop_name == 0)

config_mappings-distinct : distinct config_mappings && all fine_name config_mappings ≡ true
unfolding distinct all config_mappings same_text
config_mappings-distinct = refl

find_property-get_elem? :
    (vs : List ConfigValue) (i : ℕ) (v : ConfigValue)
    → distinct vs ≡ true
    → get_elem? vs i ≡ some v
    → find_property v.prop_name vs ≡ some (i, v)
unfolding find_property distinct
find_property-get_elem? [] i v h e = cc
find_property-get_elem? (w ∷ vs) zero v h e =
    let same : w ≡ v = some-injective _ _ e in
    let here : same_text v.prop_name w.prop_name ≡ true =
      ap (λ (t : ConfigValue). same_text v.prop_name t.prop_name) same
      ∙ same_text_self v.prop_name in
    rw here (ap (λ t. some (0, t)) same)
find_property-get_elem? (w ∷ vs) (suc i) v h e =
    let other : not (same_text v.prop_name w.prop_name) ≡ true =
      all-get_elem? (λ (t : ConfigValue). not (same_text t.prop_name w.prop_name)) vs i v
        (ground (arith, h)) e in
    let skip : same_text v.prop_name w.prop_name ≡ false = ground (arith, other) in
    rw (skip, find_property-get_elem? vs i v (ground (arith, h)) e) refl

module _ (i : ℕ) (v : ConfigValue) (value stale : List ℕ) (fields : List Field)
    (listed : get_elem? config_mappings i ≡ some v) (fine_value : all in_value value ≡ true) where
  named : all in_name v.prop_name && not (length v.prop_name == 0) ≡ true
  named =
      all-get_elem? fine_name config_mappings i v (ground (arith, config_mappings-distinct)) listed

  process_named-setting :
      process_named (length v.prop_name) (v.prop_name ++ 0 ∷ (value ++ 0 ∷ stale)) fields
      ≡ ok (
          with_line
            (v.prop_name ++ 0 ∷ (value ++ 0 ∷ stale))
            (process_data v.default i value fields))
  unfolding process_named
  process_named-setting =
      let no_zero : all (λ c. not (c == 0)) v.prop_name ≡ true =
        all_weaken in_name _ v.prop_name (λ c h. ground (arith, h)) (ground (arith, named)) in
      let value_ends : all (λ c. not (c == 0)) value ≡ true =
        all_weaken in_value _ value (λ c h. ground (arith, h)) fine_value in
      let found =
        find_property-get_elem? config_mappings i v (ground (arith, config_mappings-distinct))
          listed in
      let at : drop (length v.prop_name + 1) (v.prop_name ++ 0 ∷ (value ++ 0 ∷ stale))
          ≡ value ++ 0 ∷ stale =
        ap (λ (k : ℕ). drop k (v.prop_name ++ 0 ∷ (value ++ 0 ∷ stale)))
          {y = suc (length v.prop_name)} (omega arith)
        ∙ drop_here v.prop_name _ 0 in
      rw
        (
          array_text-append v.prop_name (value ++ 0 ∷ stale) no_zero,
          ◌>>=◌,
          found,
          at,
          array_text-append value stale value_ends,
          ◌>>=◌,
        )
        refl

  process_value-setting :
      process_value (v.prop_name ++ b'=' ∷ (value ++ 0 ∷ stale)) fields
      ≡ ok (
          with_line
            (v.prop_name ++ 0 ∷ (value ++ 0 ∷ stale))
            (process_data v.default i value fields))
  unfolding process_value
  process_value-setting =
      let some_name : (length v.prop_name == 0) ≡ false = ground (arith, named) in
      let at : find_equals 0 (v.prop_name ++ b'=' ∷ (value ++ 0 ∷ stale))
          ≡ ok (length v.prop_name) =
        find_equals_here v.prop_name (value ++ 0 ∷ stale) 0 (ground (arith, named))
        ∙ ap ok {x = 0 + length v.prop_name} (omega arith) in
      rw
        (
          at,
          ◌>>=◌,
          get_here v.prop_name (value ++ 0 ∷ stale) b'=',
          ◌>>=◌,
          some_name,
          set_here v.prop_name (value ++ 0 ∷ stale) b'=' 0,
        )
        process_named-setting

  -- A line with the name of an entry of the table, `=`, a value without a zero or a newline, and a
  -- newline, in front of whatever the array holds behind it: the value is processed as the type of
  -- that entry asks, for the field of that entry, and the `=` and the newline are cut off.
  pub process_line-setting :
      process_line (v.prop_name ++ b'=' ∷ (value ++ b'\n' ∷ stale)) fields
      ≡ ok (
          with_line
            (v.prop_name ++ 0 ∷ (value ++ 0 ∷ stale))
            (process_data v.default i value fields))
  unfolding process_line
  process_line-setting =
      let text : List ℕ = v.prop_name ++ b'=' ∷ value in
      let split : v.prop_name ++ b'=' ∷ (value ++ b'\n' ∷ stale) ≡ text ++ b'\n' ∷ stale =
        sym (append_assoc v.prop_name (b'=' ∷ value) (b'\n' ∷ stale)) in
      let name_in : all in_value v.prop_name ≡ true =
        all_weaken in_name in_value v.prop_name (λ c h. ground (arith, h))
          (ground (arith, named)) in
      let text_in : all in_value text ≡ true =
        all_append in_value v.prop_name (b'=' ∷ value) name_in
          (all_cons in_value b'=' value refl fine_value) in
      let (c, cs, first, plain) = first_char v.prop_name (ground (arith, named)) in
      let at : find_newline 0 (v.prop_name ++ b'=' ∷ (value ++ b'\n' ∷ stale)) ≡ ok (length text) =
        ap (find_newline 0) split
        ∙ find_newline_here text stale 0 text_in
        ∙ ap ok {x = 0 + length text} (omega arith) in
      let cut : set (v.prop_name ++ b'=' ∷ (value ++ b'\n' ∷ stale)) (length text) 0
          ≡ v.prop_name ++ b'=' ∷ (value ++ 0 ∷ stale) =
        ap (λ t. set t (length text) 0) split
        ∙ set_here text stale b'\n' 0
        ∙ append_assoc v.prop_name (b'=' ∷ value) (0 ∷ stale) in
      let head : get_elem? (v.prop_name ++ b'=' ∷ (value ++ b'\n' ∷ stale)) 0 ≡ some c =
        ap (λ t. get_elem? (t ++ b'=' ∷ (value ++ b'\n' ∷ stale)) 0) first in
      rw (head, ◌>>=◌, plain, at, ◌>>=◌, cut) process_value-setting
