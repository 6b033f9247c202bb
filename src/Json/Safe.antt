-- ===== src/Json/Safe.antt =====
-- libs/json/json.c: the parser ends, without a fault, on every text that ends in a zero.
use chowder.Prelude.{
  ℕ, zero, suc, ◌+◌, ◌-◌, ◌*◌, ◌≤◌, ◌<◌, not, ◌||◌, List, ◌==◌, arith, Holds-bind, Holds-if,
  Holds-ok_if,
}
use chowder.Json.{Double}
use chowder.Json.Scan.{is_digit}
use chowder.Json.Parse.{
  parse_name, parse_value, parse_object, parse_members, parse_member, parse_array, parse_items,
  json_parse,
}
use chowder.Json.Bounds.{
  Terminated, fine_failed, fine_parsed, Good, Good-failed, Good-parsed, Good-step, char_at-Holds,
  char_at-Holds_eq, skip_whitespace-Holds, skip_to_next_value-Good, parse_string-Good,
}
use chowder.Json.Numbers.{parse_number-Good, parse_truthy-Good}

parse_name-Good : (n i : ℕ) (s : List ℕ) → Terminated n s → i ≤ n → Good (i + 1) n (parse_name s i)
unfolding parse_name
parse_name-Good n i s t h = Holds-bind (char_at-Holds n i s t h) (λ c at.
    Holds-if (not (c == b'"')) (λ _. Good-failed _ h)
      (λ quote.
        Good-step (parse_string-Good n i s t (ground (arith, at, quote))) (λ s' j name ge le t'.
          Holds-bind (skip_whitespace-Holds n j s' t' le) (λ k b.
            Holds-bind (char_at-Holds n k s' t' b.1) (λ d at'.
              Holds-if (not (d == b':')) (λ _. Good-failed _ b.1)
                (λ colon.
                  Holds-bind (skip_whitespace-Holds n (k + 1) s' t' (ground (arith, at', colon)))
                    (λ l b'.
                      Holds-ok_if (l == 0) _ _ (λ _. fine_failed _ b'.1)
                        (λ _. fine_parsed s' l name (omega (arith, b.0, b'.0)) b'.1 t'))))))))

-- The number of calls is bounded by what is left of the text.
abbrev Enough : ℕ → ℕ → ℕ → ℕ → Type 0
Enough f extra n i = 3 * (n - i) + extra ≤ f

mutual
  unfolding parse_value parse_object parse_members parse_member parse_array parse_items

  parse_value-Good :
      {F : Type 0} (double : Double F) (f n i : ℕ) (s : List ℕ)
      → Terminated n s
      → i ≤ n
      → Enough f 1 n i
      → Good (i + 1) n (parse_value double f s i)
  parse_value-Good double zero n i s t h enough = absurd (omega arith)
  parse_value-Good double (suc f) n i s t h enough =
      Holds-bind (char_at-Holds_eq n i s t h) (λ c at.
        Holds-if (is_digit c || c == b'+' || c == b'-')
          (λ number. parse_number-Good double n i c s t (ground (arith, at.1, number)) at.0 number)
          (λ _.
            Holds-if (c == b'{')
              (λ brace.
                parse_object-Good double f n i s t (ground (arith, at.1, brace)) (omega arith))
              (λ _.
                Holds-if (c == b'[')
                  (λ bracket.
                    parse_array-Good double f n i s t (ground (arith, at.1, bracket)) (omega arith))
                  (λ _.
                    Holds-if (c == b'"')
                      (λ quote.
                        Good-step (parse_string-Good n i s t (ground (arith, at.1, quote)))
                          (λ s' j place ge le t'. Good-parsed s' j _ (omega arith) le t'))
                      (λ _.
                        Holds-if (c == b't' || c == b'f' || c == b'n')
                          (λ _. parse_truthy-Good n i s t h) (λ _. Good-failed _ h))))))

  parse_object-Good :
      {F : Type 0} (double : Double F) (f n i : ℕ) (s : List ℕ)
      → Terminated n s
      → i < n
      → Enough f 0 n i
      → Good (i + 1) n (parse_object double f s i)
  parse_object-Good double zero n i s t h enough = absurd (omega arith)
  parse_object-Good double (suc f) n i s t h enough =
      Good-step (parse_members-Good double f n (i + 1) s t (omega arith) (omega arith))
        (λ s' j ms ge le t'. Good-parsed s' j _ (omega arith) le t')

  parse_members-Good :
      {F : Type 0} (double : Double F) (f n i : ℕ) (s : List ℕ)
      → Terminated n s
      → i ≤ n
      → Enough f 2 n i
      → Good (i + 1) n (parse_members double f s i)
  parse_members-Good double zero n i s t h enough = absurd (omega arith)
  parse_members-Good double (suc f) n i s t h enough = Holds-bind (char_at-Holds n i s t h) (λ c at.
      Holds-if (c == 0) (λ _. Good-failed _ h)
        (λ more.
          let before : i < n = ground (arith, at, more) in
          Holds-if (c == b'}') (λ _. Good-parsed s (i + 1) _ (omega arith) (omega arith) t)
            (λ _. Holds-bind (skip_whitespace-Holds n i s t h) (λ j b.
              Good-step (parse_member-Good double f n j s t b.1 (omega (arith, b.0)))
                (λ s1 k m ge1 le1 t1.
                  Good-step (skip_to_next_value-Good n k b'}' s1 t1 le1) (λ s2 l u ge2 le2 t2.
                    Good-step (parse_members-Good double f n l s2 t2 le2 (omega (arith, b.0)))
                      (λ s3 o ms ge3 le3 t3. Good-parsed s3 o _ (omega (arith, b.0)) le3 t3)))))))

  parse_member-Good :
      {F : Type 0} (double : Double F) (f n i : ℕ) (s : List ℕ)
      → Terminated n s
      → i ≤ n
      → Enough f 1 n i
      → Good (i + 1) n (parse_member double f s i)
  parse_member-Good double zero n i s t h enough = absurd (omega arith)
  parse_member-Good double (suc f) n i s t h enough =
      Good-step (parse_name-Good n i s t h) (λ s1 j name ge1 le1 t1.
        Good-step (parse_value-Good double f n j s1 t1 le1 (omega arith))
          (λ s2 k v ge2 le2 t2. Good-parsed s2 k _ (omega arith) le2 t2))

  parse_array-Good :
      {F : Type 0} (double : Double F) (f n i : ℕ) (s : List ℕ)
      → Terminated n s
      → i < n
      → Enough f 0 n i
      → Good (i + 1) n (parse_array double f s i)
  parse_array-Good double zero n i s t h enough = absurd (omega arith)
  parse_array-Good double (suc f) n i s t h enough =
      Holds-bind (skip_whitespace-Holds n (i + 1) s t (omega arith)) (λ j b.
        Good-step (parse_items-Good double f n j s t b.1 (omega (arith, b.0)))
          (λ s' k vs ge le t'. Good-parsed s' k _ (omega (arith, b.0)) le t'))

  parse_items-Good :
      {F : Type 0} (double : Double F) (f n i : ℕ) (s : List ℕ)
      → Terminated n s
      → i ≤ n
      → Enough f 2 n i
      → Good (i + 1) n (parse_items double f s i)
  parse_items-Good double zero n i s t h enough = absurd (omega arith)
  parse_items-Good double (suc f) n i s t h enough = Holds-bind (char_at-Holds n i s t h) (λ c at.
      Holds-if (c == 0) (λ _. Good-failed _ h)
        (λ more.
          let before : i < n = ground (arith, at, more) in
          Holds-if (c == b']') (λ _. Good-parsed s (i + 1) _ (omega arith) (omega arith) t)
            (λ _.
              Good-step (parse_value-Good double f n i s t h (omega arith)) (λ s1 k v ge1 le1 t1.
                Good-step (skip_to_next_value-Good n k b']' s1 t1 le1) (λ s2 l u ge2 le2 t2.
                  Good-step (parse_items-Good double f n l s2 t2 le2 (omega arith))
                    (λ s3 o ms ge3 le3 t3. Good-parsed s3 o _ (omega arith) le3 t3))))))

-- On a text with a zero at `n` and at least one more byte behind it, with fuel of at least 3 * n +
-- 1: `json_parse` ends without a fault, so it reads and writes in bounds; an error has an index of
-- at most `n`; and a value ends behind its first character and at most at `n`, where the zero of
-- the text still is.
pub json_parse_lem :
    {F : Type 0} (double : Double F) (fuel n : ℕ) (s : List ℕ)
    → Terminated n s
    → 3 * n + 1 ≤ fuel
    → Good 1 n (json_parse double fuel s)
unfolding json_parse
json_parse_lem double fuel n s t h =
    Good-step (parse_value-Good double fuel n 0 s t (omega arith) (omega arith)) (λ s' j v ge le t'.
      Holds-bind (char_at-Holds n j s' t' le) (λ c _.
        Holds-ok_if (not (c == 0)) _ _ (λ _. fine_failed _ le) (λ _. fine_parsed s' j v ge le t')))
