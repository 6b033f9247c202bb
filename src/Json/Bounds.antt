-- ===== src/Json/Bounds.antt =====
-- libs/json/json.c: how far the functions that look at characters read.
use chowder.Prelude.{
  ℕ, zero, suc, ◌+◌, ◌-◌, ◌≤◌, ◌<◌, ◌≡◌, refl, sym, ap, ◌∙◌, Bool, true, not, ◌&&◌, List, [], ◌∷◌,
  some, ◌==◌, length, drop, set, get_elem?, Run, ok, ltb, arith, Bool-cases, ◌⊎◌, inl, inr,
  length-set, get_elem?-set_ne, get_elem?-drop, get_elem?-some, Holds, holds, Holds-bind, Holds-map,
  Holds-if, Holds-ok_if,
}
use mathlib.Core.Option.{some-injective}
use chowder.Json.{JsonErrCtx, Outcome, failed, parsed, ◌>>?◌, char_at, put_char}
use chowder.Json.Scan.{
  skip_while, skip_whitespace, skip_digits, is_whitespace, is_digit, StringState, string_step,
  string_loop, string_end, parse_string, is_valid_escape, escape, skip_to_next_value,
}

-- The text has a zero at `n` and one more byte behind it.
pub record Terminated (n : ℕ) (s : List ℕ) : Type 0 where
  pub zero_at : get_elem? s n ≡ some 0
  pub spare : n + 1 < length s

-- An error lies in the text, and what was parsed ends at `lo` or behind it, but not behind the zero,
-- which is still there.
pub data Fine {A : Type 0} (lo n : ℕ) : Outcome A → Type 0 where
  fine_failed : (e : JsonErrCtx) → e.index ≤ n → Fine lo n (failed e)
  fine_parsed :
      (s : List ℕ) (i : ℕ) (a : A) → lo ≤ i → i ≤ n → Terminated n s → Fine lo n (parsed s i a)

-- No fault either.
abbrev pub Good : {A : Type 0} → ℕ → ℕ → Run (Outcome A) → Type 0
Good lo n = Holds (Fine lo n)

pub Good-failed :
    {A : Type 0} {lo n : ℕ} (e : JsonErrCtx)
    → e.index ≤ n
    → Holds (Fine {A = A} lo n) (ok (failed e))
Good-failed e h = holds (failed e) (fine_failed e h)

pub Good-parsed :
    {A : Type 0} {lo n : ℕ} (s : List ℕ) (i : ℕ) (a : A)
    → lo ≤ i
    → i ≤ n
    → Terminated n s
    → Holds (Fine lo n) (ok (parsed s i a))
Good-parsed s i a h k t = holds (parsed s i a) (fine_parsed s i a h k t)

pub Good-step :
    {A B : Type 0} {lo lo' n : ℕ} {m : Run (Outcome A)} {k : List ℕ → ℕ → A → Run (Outcome B)}
    → Holds (Fine lo n) m
    → ((s : List ℕ) (i : ℕ) (a : A)
        → lo ≤ i
        → i ≤ n
        → Terminated n s
        → Holds (Fine lo' n) (k s i a))
    → Holds (Fine lo' n) (m >>? k)
Good-step (holds _ (fine_failed e h)) f = Good-failed e h
Good-step (holds _ (fine_parsed s i a ge le t)) f = f s i a ge le t

pub Good-weaken :
    {A : Type 0} {lo lo' n : ℕ} {m : Run (Outcome A)}
    → lo' ≤ lo
    → Holds (Fine lo n) m
    → Holds (Fine lo' n) m
Good-weaken h (holds _ (fine_failed e x)) = Good-failed e x
Good-weaken h (holds _ (fine_parsed s i a ge le t)) = Good-parsed s i a (omega arith) le t

zero_or_before :
    (n i c : ℕ) (s : List ℕ) → Terminated n s → i ≤ n → get_elem? s i ≡ some c → (c ≡ 0) ⊎ (i < n)
zero_or_before n i c s t h e = elim (Bool-cases (i == n)) [
  | inl same ↦
      let at : i ≡ n = ground (arith, same) in
      inl (some-injective _ _ (sym e ∙ ap (get_elem? s) at ∙ t.zero_at))
  | inr other ↦ ground (arith, other)
]

-- A character that is not zero stands before the end.
pub char_at-Holds :
    (n i : ℕ) (s : List ℕ)
    → Terminated n s
    → i ≤ n
    → Holds (λ (c : ℕ). (c ≡ 0) ⊎ (i < n)) (char_at s i)
unfolding char_at
char_at-Holds n i s t h =
    let (c, e) = get_elem?-some s i (omega (arith, t.spare)) in
    rw e (holds c (zero_or_before n i c s t h e))

pub char_at-Holds_eq :
    (n i : ℕ) (s : List ℕ)
    → Terminated n s
    → i ≤ n
    → Holds (λ (c : ℕ). (char_at s i ≡ ok c) × ((c ≡ 0) ⊎ (i < n))) (char_at s i)
unfolding char_at
char_at-Holds_eq n i s t h =
    let (c, e) = get_elem?-some s i (omega (arith, t.spare)) in
    rw e (holds c (refl, zero_or_before n i c s t h e))

pub char_at_spare :
    (n i : ℕ) (s : List ℕ) → Terminated n s → i ≤ n + 1 → Holds (λ (c : ℕ). Unit) (char_at s i)
unfolding char_at
char_at_spare n i s t h =
    let (c, e) = get_elem?-some s i (omega (arith, t.spare)) in rw e (holds c tt)

-- A loop over characters ends at the zero, if not before it.
skip_while-Holds :
    (test : ℕ → Bool) (n i : ℕ) (cs : List ℕ)
    → get_elem? cs n ≡ some 0
    → Holds (λ (j : ℕ). (i ≤ j) × (j ≤ i + n)) (skip_while test i cs)
unfolding skip_while
skip_while-Holds test n i [] h = cc
skip_while-Holds test zero i (c ∷ cs) h =
    let e : c ≡ 0 = some-injective _ _ h in rw e (holds i (omega arith, omega arith))
skip_while-Holds test (suc n) i (c ∷ cs) h =
    Holds-if (not (c == 0) && test c)
      (λ go.
        Holds-map (λ j b. (omega (arith, b.0), omega (arith, b.1)))
          (skip_while-Holds test n (suc i) cs h))
      (λ stop. holds i (omega arith, omega arith))

pub skip-Holds :
    (test : ℕ → Bool) (n i : ℕ) (s : List ℕ)
    → Terminated n s
    → i ≤ n
    → Holds (λ (j : ℕ). (i ≤ j) × (j ≤ n)) (skip_while test i (drop i s))
skip-Holds test n i s t h =
    let e : i + (n - i) ≡ n = omega arith in
    let at_end : get_elem? (drop i s) (n - i) ≡ some 0 =
      get_elem?-drop i (n - i) s ∙ ap (get_elem? s) e ∙ t.zero_at in
    Holds-map (λ j b. (b.0, omega (arith, b.1))) (skip_while-Holds test (n - i) i (drop i s) at_end)

pub skip_whitespace-Holds :
    (n i : ℕ) (s : List ℕ)
    → Terminated n s
    → i ≤ n
    → Holds (λ (j : ℕ). (i ≤ j) × (j ≤ n)) (skip_whitespace s i)
unfolding skip_whitespace
skip_whitespace-Holds = skip-Holds is_whitespace

pub skip_digits-Holds :
    (n i : ℕ) (s : List ℕ)
    → Terminated n s
    → i ≤ n
    → Holds (λ (j : ℕ). (i ≤ j) × (j ≤ n)) (skip_digits s i)
unfolding skip_digits
skip_digits-Holds = skip-Holds is_digit

-- Behind a value.
pub skip_to_next_value-Good :
    (n i terminator : ℕ) (s : List ℕ)
    → Terminated n s
    → i ≤ n
    → Good i n (skip_to_next_value s i terminator)
unfolding skip_to_next_value
skip_to_next_value-Good n i terminator s t h = Holds-bind (skip_whitespace-Holds n i s t h) (λ j b.
    Holds-bind (char_at-Holds n j s t b.1) (λ c at.
      Holds-if (c == b',')
        (λ is_comma.
          Holds-bind (skip_whitespace-Holds n (j + 1) s t (ground (arith, at, is_comma))) (λ k b'.
            Holds-bind (char_at-Holds n k s t b'.1) (λ d _.
              Holds-ok_if (d == terminator) _ _ (λ _. fine_failed _ (ground (arith, at, is_comma)))
                (λ _. fine_parsed s k tt (omega (arith, b.0, b'.0)) b'.1 t))))
        (λ _.
          Holds-if (c == 0) (λ _. Good-failed _ b.1)
            (λ _.
              Holds-if (not (c == terminator)) (λ _. Good-failed _ b.1)
                (λ _. Good-parsed s j tt b.0 b.1 t)))))

-- The variables of the loop over a string: what was written lies before what is read, and only
-- behind a character that is refused the index is behind the zero.
record InString (lo n : ℕ) (st : StringState) : Type 0 where
  terminated : Terminated n st.text
  behind : lo ≤ st.i
  written : st.string_idx ≤ st.i
  in_text : st.i ≤ n + 1
  at_end : st.valid_string ≡ true → st.i ≤ n

Terminated-set : (n i c : ℕ) (s : List ℕ) → Terminated n s → i < n → Terminated n (set s i c)
Terminated-set n i c s t h = record {
  zero_at = get_elem?-set_ne s c (λ (e : i ≡ n). omega (arith, e)) ∙ t.zero_at;
  spare = omega (arith, t.spare, length-set s i c);
}

pub put_char-in_bounds : (s : List ℕ) (i c : ℕ) → i < length s → put_char s i c ≡ ok (set s i c)
unfolding put_char
put_char-in_bounds s i c h = let fits : ltb i (length s) ≡ true = ground (arith, h) in rw fits refl

-- A write before the zero is in bounds and leaves it.
put_char-Terminated :
    (n i c : ℕ) (s : List ℕ) → Terminated n s → i < n → Holds (Terminated n) (put_char s i c)
put_char-Terminated n i c s t h =
    rw (put_char-in_bounds s i c (omega (arith, t.spare))) (holds _ (Terminated-set n i c s t h))

escape_before : (n i d : ℕ) → (d ≡ 0) ⊎ (i + 1 < n) → is_valid_escape d ≡ true → i + 2 ≤ n
escape_before n i d (inl e) h =
    let bad : is_valid_escape 0 ≡ true = ap is_valid_escape (sym e) ∙ h in cc
escape_before n i d (inr e) h = omega arith

string_step-Holds :
    (lo n c : ℕ) (st : StringState)
    → InString lo n st
    → st.i < n
    → Holds (λ (st' : StringState). InString lo n st' × (st.i < st'.i)) (string_step st c)
unfolding string_step
string_step-Holds lo n c st h lt =
    Holds-if (c == b'\\')
      (λ _. Holds-bind (char_at-Holds n (st.i + 1) st.text h.terminated (omega arith)) (λ d at.
        Holds-bind
          (Holds-if (is_valid_escape d)
            (λ _. put_char-Terminated n st.string_idx (escape d) st.text h.terminated (omega arith))
            (λ _. holds st.text h.terminated))
          (λ text t. holds _ (
            record {
              terminated = t;
              behind = omega arith;
              written = omega arith;
              in_text = omega arith;
              at_end = λ valid. escape_before n st.i d at valid;
            },
            omega arith,
          ))))
      (λ _.
        Holds-bind (put_char-Terminated n st.string_idx c st.text h.terminated (omega arith))
          (λ text t. holds _ (
            record {
              terminated = t;
              behind = omega arith;
              written = omega arith;
              in_text = omega arith;
              at_end = λ _. omega arith;
            },
            omega arith,
          )))

-- The loop has a round for each character that is left, and one that sees the end.
string_loop-Holds :
    (f lo n : ℕ) (st : StringState)
    → InString lo n st
    → n + 2 ≤ f + st.i
    → Holds (InString lo n) (string_loop f st)
unfolding string_loop
string_loop-Holds zero lo n st h enough = absurd (omega (arith, h.in_text))
string_loop-Holds (suc f) lo n st h enough = elim (Bool-cases st.valid_string) [
  | inl valid ↦ Holds-bind (char_at-Holds n st.i st.text h.terminated (h.at_end valid)) (λ c at.
      Holds-if (not (c == 0) && not (c == b'"') && st.valid_string)
        (λ go.
          Holds-bind (string_step-Holds lo n c st h (ground (arith, at, go)))
            (λ st' h'. string_loop-Holds f lo n st' h'.0 (omega (arith, h'.1))))
        (λ _. holds st h))
  | inr invalid ↦ Holds-bind (char_at_spare n st.i st.text h.terminated h.in_text) (λ c _.
      Holds-if (not (c == 0) && not (c == b'"') && st.valid_string)
        (λ go. ground (arith, go, invalid)) (λ _. holds st h))
]

pub parse_string-Good :
    (n i : ℕ) (s : List ℕ) → Terminated n s → i < n → Good (i + 2) n (parse_string s i)
unfolding parse_string string_end
parse_string-Good n i s t h =
    Holds-bind
      (string_loop-Holds (suc (length s)) (i + 1) n
        (record { text = s; i = i + 1; string_idx = i + 1; valid_string = true })
        (record {
          terminated = t;
          behind = omega arith;
          written = omega arith;
          in_text = omega arith;
          at_end = λ _. omega arith;
        })
        (omega (arith, t.spare)))
      (λ st h'. elim (Bool-cases st.valid_string) [
        | inl valid ↦
            Holds-if (not st.valid_string) (λ e. ground (arith, e, valid))
              (λ _.
                Holds-bind (char_at-Holds n st.i st.text h'.terminated (h'.at_end valid)) (λ c at.
                  Holds-if (c == 0) (λ _. Good-failed _ (omega arith))
                    (λ more.
                      let before : st.i < n = ground (arith, at, more) in
                      Holds-bind
                        (put_char-Terminated n st.string_idx 0 st.text h'.terminated (omega arith))
                        (λ text t'.
                          Good-parsed text (st.i + 1) (i + 1) (omega arith) (omega arith) t'))))
        | inr invalid ↦
            Holds-if (not st.valid_string) (λ _. Good-failed _ (omega arith))
              (λ e. ground (arith, e, invalid))
      ])
