-- ===== src/Json/Strings.antt =====
-- libs/json/json.c: `parse_string` on a quoted string.
use chowder.Prelude.{
  ℕ, zero, suc, ◌+◌, ◌-◌, ◌≤◌, ◌<◌, ◌≡◌, refl, sym, ap, ◌∙◌, Bool, true, false, not, ◌&&◌, List, [],
  ◌∷◌, ◌++◌, if◌then◌else◌, ◌==◌, length, take, drop, set, All, length-append, length-take_le,
  drop-set, take-set, take-take, take_prefix, length-drop, take-drop, drop-take_append,
  get_elem?-cons-drop, ok, ◌>>=◌, arith, Bool-cases, inl, inr, Holds, holds, Holds-bind, Holds-map,
  Holds-if,
}
use mathlib.Core.List.{append_assoc, append-nil}
use chowder.Json.{Outcome, parsed, char_at}
use chowder.Json.Scan.{
  StringState, string_step, string_loop, string_end, parse_string, is_valid_escape, escape,
  is_control,
}
use chowder.Json.Bounds.{put_char-in_bounds}
use chowder.Json.Document.{letter, quoted, CanQuote, HasString}

-- From `i` on, `len` characters of `s` were read and `rest` follows. What is before `i` is as it was.
pub data IsRead {A : Type 0} (i : ℕ) (s rest : List ℕ) (len : ℕ) (P : List ℕ → A → Type 0)
    : Outcome A → Type 0 where
  is_read :
      (s' : List ℕ) (j : ℕ) (a : A)
      → j ≡ i + len
      → take i s' ≡ take i s
      → drop j s' ≡ rest
      → P s' a
      → IsRead i s rest len P (parsed s' j a)

pub char_at-drop :
    (i c : ℕ) (s rest : List ℕ)
    → drop i s ≡ c ∷ rest
    → (char_at s i ≡ ok c) × (drop (i + 1) s ≡ rest)
unfolding char_at
char_at-drop i c s rest h = let (e, r) = get_elem?-cons-drop i s h in (rw e refl, r)

-- After `read` more characters that stand for `cs`: these are behind what was there, and `rest` is
-- left.
record Unquoted (st : StringState) (read : ℕ) (cs rest : List ℕ) (st' : StringState) : Type 0 where
  index : st'.i ≡ st.i + read
  written : st'.string_idx ≡ st.string_idx + length cs
  valid : st'.valid_string ≡ true
  left : drop st'.i st'.text ≡ rest
  content : take st'.string_idx st'.text ≡ take st.string_idx st.text ++ cs

drop-lt : (i : ℕ) (s : List ℕ) (c : ℕ) (rest : List ℕ) → drop i s ≡ c ∷ rest → i < length s
drop-lt zero [] c rest h = cc
drop-lt (suc i) [] c rest h = cc
drop-lt zero (x ∷ s) c rest h = omega arith
drop-lt (suc i) (x ∷ s) c rest h = omega (arith, drop-lt i s c rest h)

letter-escape :
    (c : ℕ)
    → (letter c == 0) ≡ false
    → (is_valid_escape (letter c) ≡ true) × (escape (letter c) ≡ c)
letter-escape c h = ground arith

-- What a write at `j` leaves of the characters before `i` and behind.
written-Unquoted :
    (st : StringState) (read : ℕ) (c : ℕ) (rest : List ℕ)
    → 0 < read
    → st.string_idx ≤ st.i
    → st.string_idx < length st.text
    → drop (st.i + read) st.text ≡ rest
    → Unquoted st read (c ∷ []) rest (record {
      text = set st.text st.string_idx c;
      i = st.i + read;
      string_idx = st.string_idx + 1;
      valid_string = true;
    })
written-Unquoted st read c rest pos le lt h = record {
  index = refl;
  written = refl;
  valid = refl;
  left = drop-set (st.i + read) st.text st.string_idx c (omega arith) ∙ h;
  content =
      ap (λ (k : ℕ). take k (set st.text st.string_idx c)) {y = suc st.string_idx} (omega arith)
      ∙ take-set st.text st.string_idx c lt;
}

plain_step :
    (c : ℕ) (st : StringState) (rest : List ℕ)
    → (letter c == 0) ≡ true
    → CanQuote c
    → st.string_idx ≤ st.i
    → drop st.i st.text ≡ c ∷ rest
    → Holds (Unquoted st 1 (c ∷ []) rest) (string_step st c)
unfolding string_step
plain_step c st rest plain can le h =
    let no_slash : (c == b'\\') ≡ false = ground (arith, plain) in
    let fine : is_control c ≡ false = ground (arith, plain, can) in
    let lt : st.i < length st.text = drop-lt st.i st.text c rest h in
    let (e, left) = char_at-drop st.i c st.text rest h in
    rw (no_slash, put_char-in_bounds st.text st.string_idx c (omega arith), ◌>>=◌, fine)
      (holds _ (written-Unquoted st 1 c rest (omega arith) le (omega arith) left))

escaped_step :
    (c : ℕ) (st : StringState) (rest : List ℕ)
    → (letter c == 0) ≡ false
    → st.string_idx ≤ st.i
    → drop st.i st.text ≡ b'\\' ∷ letter c ∷ rest
    → Holds (Unquoted st 2 (c ∷ []) rest) (string_step st b'\\')
unfolding string_step
escaped_step c st rest special le h =
    let (valid, back) = letter-escape c special in
    let lt : st.i < length st.text = drop-lt st.i st.text _ _ h in
    let (e, left) = char_at-drop st.i _ st.text _ h in
    let (e', left') = char_at-drop (st.i + 1) _ st.text _ left in
    let here : drop (st.i + 2) st.text ≡ rest =
      ap (λ (k : ℕ). drop k st.text) {x = st.i + 2} {y = st.i + 1 + 1} (omega arith) ∙ left' in
    rw (e', ◌>>=◌, valid, back, put_char-in_bounds st.text st.string_idx c (omega arith), ◌>>=◌)
      (holds _ (written-Unquoted st 2 c rest (omega arith) le (omega arith) here))

Unquoted-append :
    (st st1 st2 : StringState) (m n r c : ℕ) (cs mid rest : List ℕ)
    → m + n ≡ r
    → Unquoted st m (c ∷ []) mid st1
    → Unquoted st1 n cs rest st2
    → Unquoted st r (c ∷ cs) rest st2
Unquoted-append st st1 st2 m n r c cs mid rest e a b = record {
  index = omega (arith, e, a.index, b.index);
  written = omega (arith, a.written, b.written);
  valid = b.valid;
  left = b.left;
  content =
      b.content
      ∙ ap (λ t. t ++ cs) a.content
      ∙ append_assoc (take st.string_idx st.text) (c ∷ []) cs;
}

-- The loop has a round for each character, and one that sees the quote.
string_loop-quoted :
    (cs : List ℕ) (f : ℕ) (st : StringState) (rest : List ℕ)
    → All CanQuote cs
    → length cs + 1 ≤ f
    → st.valid_string ≡ true
    → st.string_idx ≤ st.i
    → drop st.i st.text ≡ quoted cs ++ b'"' ∷ rest
    → Holds (Unquoted st (length (quoted cs)) cs (b'"' ∷ rest)) (string_loop f st)
unfolding string_loop quoted
string_loop-quoted cs zero st rest k enough valid le h = absurd (omega arith)
string_loop-quoted [] (suc f) st rest k enough valid le h =
    rw ((char_at-drop st.i _ st.text _ h).0, ◌>>=◌)
      (holds st (record {
        index = omega arith;
        written = omega arith;
        valid = valid;
        left = h;
        content = sym (append-nil (take st.string_idx st.text));
      }))
string_loop-quoted (c ∷ cs) (suc f) st rest k enough valid le h =
    elim (Bool-cases (letter c == 0)) [
      | inl plain ↦
          let here : drop st.i st.text ≡ c ∷ (quoted cs ++ b'"' ∷ rest) =
            h
            ∙ ap
                (λ (b : Bool).
                  (if b then c ∷ quoted cs else b'\\' ∷ letter c ∷ quoted cs) ++ b'"' ∷ rest)
                plain in
          let read : 1 + length (quoted cs) ≡ length (quoted (c ∷ cs)) = rw plain (omega arith) in
          rw ((char_at-drop st.i c st.text _ here).0, ◌>>=◌)
            (Holds-if (not (c == 0) && not (c == b'"') && st.valid_string)
              (λ _. Holds-bind (plain_step c st _ plain k.0 le here) (λ st1 u.
                Holds-map (λ st2 u'. Unquoted-append st st1 st2 1 _ _ c cs _ _ read u u')
                  (string_loop-quoted cs f st1 rest k.1 (omega arith) u.valid
                    (omega (arith, u.index, u.written)) u.left)))
              (λ stop. ground (arith, plain, k.0, valid, stop)))
      | inr special ↦
          let here : drop st.i st.text ≡ b'\\' ∷ letter c ∷ (quoted cs ++ b'"' ∷ rest) =
            h
            ∙ ap
                (λ (b : Bool).
                  (if b then c ∷ quoted cs else b'\\' ∷ letter c ∷ quoted cs) ++ b'"' ∷ rest)
                special in
          let read : 2 + length (quoted cs) ≡ length (quoted (c ∷ cs)) = rw special (omega arith) in
          rw ((char_at-drop st.i _ st.text _ here).0, ◌>>=◌)
            (Holds-if st.valid_string
              (λ _. Holds-bind (escaped_step c st _ special le here) (λ st1 u.
                Holds-map (λ st2 u'. Unquoted-append st st1 st2 2 _ _ c cs _ _ read u u')
                  (string_loop-quoted cs f st1 rest k.1 (omega arith) u.valid
                    (omega (arith, u.index, u.written)) u.left)))
              (λ stop. ground (arith, valid, stop)))
    ]

length-quoted : (cs : List ℕ) → length cs ≤ length (quoted cs)
unfolding quoted
length-quoted [] = omega arith
length-quoted (c ∷ cs) = elim (Bool-cases (letter c == 0)) [
  | inl plain ↦ rw plain (omega (arith, length-quoted cs))
  | inr special ↦ rw special (omega (arith, length-quoted cs))
]

-- What is known of a text whose first part is known.
front_kept :
    (i p n : ℕ) (s s' cs : List ℕ)
    → i ≤ p
    → p ≤ length s
    → take (p + n) s' ≡ take p s ++ cs
    → take i s' ≡ take i s
front_kept i p n s s' cs le in_s h =
    sym (take-take i (p + n) s' (omega arith))
    ∙ ap (take i) h
    ∙ take_prefix i (take p s) cs (omega (arith, length-take_le p s in_s))
    ∙ take-take i p s le

front_string :
    (p n : ℕ) (s s' cs : List ℕ)
    → p ≤ length s
    → take (p + n) s' ≡ take p s ++ cs
    → take n (drop p s') ≡ cs
front_string p n s s' cs in_s h = take-drop n p s' ∙ ap (drop p) h ∙ drop-take_append p s cs in_s

-- A string that is quoted in the text.
pub parse_string-quoted :
    (cs : List ℕ) (i : ℕ) (s rest : List ℕ)
    → All CanQuote cs
    → drop i s ≡ b'"' ∷ (quoted cs ++ b'"' ∷ rest)
    → Holds
        (IsRead i s rest
          (length (quoted cs) + 2)
          (λ s' place. HasString s' (i + (length (quoted cs) + 2)) place cs))
        (parse_string s i)
unfolding parse_string string_end
parse_string-quoted cs i s rest k h =
    let (first, behind) = char_at-drop i _ s _ h in
    let lt : i < length s = drop-lt i s _ _ h in
    let len : length s - i ≡ 1 + (length (quoted cs) + (1 + length rest)) =
      sym (length-drop i s)
      ∙ ap length h
      ∙ omega (arith, length-append (quoted cs) (b'"' ∷ rest)) in
    let start : StringState = record {
      text = s;
      i = i + 1;
      string_idx = i + 1;
      valid_string = true;
    } in
    Holds-bind
      (string_loop-quoted cs (suc (length s)) start rest k (omega (arith, len, length-quoted cs))
        refl (omega arith) behind)
      (λ st u.
        Holds-if (not st.valid_string) (λ e. ground (arith, e, u.valid))
          (λ _.
            let (quote, left) = char_at-drop st.i _ st.text _ u.left in
            let idx : st.string_idx ≡ i + 1 + length cs = u.written in
            let lt' : st.string_idx < length st.text =
              omega (arith, drop-lt st.i st.text _ _ u.left, u.index, idx, length-quoted cs) in
            let front : take (i + 1 + (length cs + 1)) (set st.text st.string_idx 0)
                ≡ take (i + 1) s ++ (cs ++ 0 ∷ []) =
              ap (λ (m : ℕ). take m (set st.text st.string_idx 0)) {y = suc st.string_idx}
                (omega (arith, idx))
              ∙ take-set st.text st.string_idx 0 lt'
              ∙ ap (λ t. t ++ 0 ∷ []) u.content
              ∙ append_assoc (take (i + 1) s) cs (0 ∷ []) in
            rw (quote, ◌>>=◌, put_char-in_bounds st.text st.string_idx 0 lt', ◌>>=◌)
              (holds _ (
                is_read _ (st.i + 1) (i + 1) (omega (arith, u.index))
                  (front_kept i (i + 1) (length cs + 1) s _ _ (omega arith) (omega arith) front)
                  (drop-set (st.i + 1) st.text st.string_idx 0
                      (omega (arith, u.index, idx, length-quoted cs))
                    ∙ left)
                  (
                    omega (arith, length-quoted cs),
                    front_string (i + 1) (length cs + 1) s _ _ (omega arith) front,
                  )))))
