-- ===== src/Config/ReadBack.antt =====
-- src/config.c: what is read where a value was written as set_default_server_properties writes it.
use chowder.Prelude.{
  ℕ, zero, suc, ◌+◌, ◌*◌, ◌/◌, ◌%◌, ◌^◌, ◌<◌, ◌≡◌, refl, sym, ap, ◌∙◌, Bool, true, false, not, ◌&&◌,
  List, [], ◌∷◌, none, some, ◌==◌, ltb, length, set, arith, Bool-cases, inl, inr, ◌++◌, get_elem?,
  ok,
}
use chowder.Prelude.Text.{same_text, same_text_self, all, all-get_elem?}
use chowder.Prelude.Int.{pos}
use chowder.Config.{
  ConfigValue, config_mappings, CvData, cv_num, cv_bool, cv_str, cv_estr, Field, num, bool, str,
}
use chowder.Config.Laws.{in_value, process_line-setting}
use chowder.Config.Read.{
  with_line, process_line, has_name, process_estr, is_decimal, decimal, is_space, skip_spaces,
  scan_unsigned, process_data, put_digits, default_text,
}

-- 10 ^ f
unfoldable pub bound : ℕ → ℕ
bound zero = 1
bound (suc f) = 10 * bound f

digit-is_decimal : (n : ℕ) → is_decimal (b'0' + n % 10) ≡ true
digit-is_decimal n = ground arith

decimal-digit :
    (m n : ℕ) (cs : List ℕ) → decimal m ((b'0' + n % 10) ∷ cs) ≡ decimal (m * 10 + n % 10) cs
unfolding decimal
decimal-digit m n cs =
    rw (digit-is_decimal n) (ap (λ (k : ℕ). decimal k cs) {y = m * 10 + n % 10} (omega arith))

decimal-put_digits :
    (f n : ℕ) (cs : List ℕ) → n < bound (suc f) → decimal 0 (put_digits (suc f) n cs) ≡ decimal n cs
unfolding put_digits bound
decimal-put_digits zero n cs h =
    let small : ltb n 10 ≡ true = ground (arith, h) in
    rw small
      (decimal-digit 0 n cs ∙ ap (λ (k : ℕ). decimal k cs) {x = 0 * 10 + n % 10} (omega arith))
decimal-put_digits (suc f) n cs h = elim (Bool-cases (ltb n 10)) [
  | inl small ↦ rw small (
      decimal-digit 0 n cs
      ∙ ap (λ (k : ℕ). decimal k cs) {x = 0 * 10 + n % 10} (ground (arith, small)))
  | inr large ↦ rw large (
      decimal-put_digits f (n / 10) ((b'0' + n % 10) ∷ cs) (omega arith)
      ∙ decimal-digit (n / 10) n cs
      ∙ ap (λ (k : ℕ). decimal k cs) {x = n / 10 * 10 + n % 10} (omega arith))
]

-- The first character is a digit.
digit_first :
    (f n : ℕ) (cs : List ℕ)
    → (c : ℕ) × (rest : List ℕ) × (put_digits (suc f) n cs ≡ c ∷ rest) × (is_decimal c ≡ true)
unfolding put_digits
digit_first zero n cs = elim (Bool-cases (ltb n 10)) [
  | inl small ↦ rw small (_, _, refl, digit-is_decimal n)
  | inr large ↦ rw large (_, _, refl, digit-is_decimal n)
]
digit_first (suc f) n cs = elim (Bool-cases (ltb n 10)) [
  | inl small ↦ rw small (_, _, refl, digit-is_decimal n)
  | inr large ↦ rw large (digit_first f (n / 10) ((b'0' + n % 10) ∷ cs))
]

scan_unsigned-digits :
    (c : ℕ) (cs : List ℕ) (n : ℕ)
    → is_decimal c ≡ true
    → n < 2 ^ 32
    → decimal 0 (c ∷ cs) ≡ n
    → scan_unsigned (c ∷ cs) ≡ some n
unfolding scan_unsigned skip_spaces
scan_unsigned-digits c cs n digit h e =
    let dark : is_space c ≡ false = ground (arith, digit) in
    let no_minus : (c == b'-') ≡ false = ground (arith, digit) in
    let no_plus : (c == b'+') ≡ false = ground (arith, digit) in
    let fits : ltb n (2 ^ 64) ≡ true = ground (arith, h) in
    rw (dark, no_minus, no_plus, e, digit, fits) (ap some {y = n} (omega arith))

scan_unsigned-put_digits : (n : ℕ) → n < 2 ^ 32 → scan_unsigned (put_digits 10 n []) ≡ some n
unfolding decimal bound
scan_unsigned-put_digits n h =
    let (c, cs, e, digit) = digit_first 9 n [] in
    ap scan_unsigned e
    ∙ scan_unsigned-digits c cs n digit h
        (ap (decimal 0) (sym e) ∙ decimal-put_digits 9 n [] (omega arith))

-- What can be written: a number of 32 bits, a string that is not empty, a mapping with an entry.
abbrev pub can_write : CvData → Bool
can_write (cv_num n) = ltb n (2 ^ 32)
can_write (cv_bool b) = true
can_write (cv_str none) = true
can_write (cv_str (some s)) = not (length s == 0)
can_write (cv_estr mapping) = not (length mapping == 0)

-- The field behind it: a Boolean is read as the other one.
abbrev pub read_field : CvData → ℕ → List Field → List Field
read_field (cv_num n) i fields = set fields i (num n)
read_field (cv_bool b) i fields = set fields i (bool (not b))
read_field (cv_str none) i fields = fields
read_field (cv_str (some s)) i fields = set fields i (str s)
read_field (cv_estr []) i fields = fields
read_field (cv_estr (m ∷ ms)) i fields = set fields i (num m.value)

pub process_data-default_text :
    (d : CvData) (i : ℕ) (fields : List Field)
    → can_write d ≡ true
    → process_data d i (default_text d) fields ≡ (pos 0, read_field d i fields)
unfolding process_data process_estr has_name same_text
process_data-default_text (cv_num n) i fields h =
    rw (process_data, scan_unsigned-put_digits n (ground (arith, h))) refl
process_data-default_text (cv_bool true) i fields h = refl
process_data-default_text (cv_bool false) i fields h = refl
process_data-default_text (cv_str none) i fields h = refl
process_data-default_text (cv_str (some [])) i fields h = ground (arith, h)
process_data-default_text (cv_str (some (c ∷ cs))) i fields h = refl
process_data-default_text (cv_estr []) i fields h = ground (arith, h)
process_data-default_text (cv_estr (m ∷ ms)) i fields h =
    rw (process_data, same_text_self m.name) refl

-- Each default can be written, and stands on its line.
abbrev fine_default : ConfigValue → Bool
fine_default v = can_write v.default && all in_value (default_text v.default)

config_mappings-fine_default : all fine_default config_mappings ≡ true
unfolding all config_mappings put_digits
config_mappings-fine_default = refl

-- The line that is written for an entry is read back.
pub process_line-default_text :
    (i : ℕ) (v : ConfigValue) (stale : List ℕ) (fields : List Field)
    → get_elem? config_mappings i ≡ some v
    → process_line (v.prop_name ++ b'=' ∷ (default_text v.default ++ b'\n' ∷ stale)) fields
      ≡ ok (
          with_line
            (v.prop_name ++ 0 ∷ (default_text v.default ++ 0 ∷ stale))
            (pos 0, read_field v.default i fields))
process_line-default_text i v stale fields listed =
    let fine : can_write v.default && all in_value (default_text v.default) ≡ true =
      all-get_elem? fine_default config_mappings i v config_mappings-fine_default listed in
    process_line-setting i v (default_text v.default) stale fields listed (ground (arith, fine))
    ∙ ap (λ r. ok (with_line (v.prop_name ++ 0 ∷ (default_text v.default ++ 0 ∷ stale)) r))
        (process_data-default_text v.default i fields (ground (arith, fine)))
