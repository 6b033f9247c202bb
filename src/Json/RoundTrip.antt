-- ===== src/Json/RoundTrip.antt =====
-- libs/json/json.c: the parser on a document that is written with no white space.
use chowder.Prelude.{
  ℕ, zero, suc, ◌+◌, ◌*◌, ◌≤◌, ◌≡◌, refl, sym, ap, ◌∙◌, true, ◌||◌, List, [], ◌∷◌, ◌++◌, ◌==◌,
  length, drop, All, length-append, Run, ok, ◌>>=◌, arith, Holds, holds, Holds-if,
}
use mathlib.Core.List.{append_assoc}
use chowder.Json.{
  JsonValue, object, array, string, json_true, json_false, json_null, no_members, member, no_items,
  item, Double, Outcome, parsed, char_at,
}
use chowder.Json.Scan.{is_digit, truthy}
use chowder.Json.Parse.{
  parse_value, parse_object, parse_members, parse_member, parse_array, parse_items, json_parse,
}
use chowder.Json.Document.{
  Document, doc_null, doc_true, doc_false, doc_number, doc_string, doc_array, doc_object, Documents,
  doc_nil, doc_cons, Fields, field_nil, field_cons, quoted, comma, field_comma, print, print_items,
  print_fields, CanQuote, Fits, ItemsFit, FieldsFit, HasString, StandsFor, for_null, for_true,
  for_false, for_number, for_string, for_array, for_object, ItemsStandFor, for_nil, for_cons,
  MembersStandFor, for_no_members, for_member,
}
use chowder.Json.Strings.{IsRead, is_read, char_at-drop, parse_string-quoted}
use chowder.Json.Tokens.{
  is_follow, drop_behind, IsRead-step, skip_whitespace_none, parse_number-digits, parse_truthy-word,
}
use chowder.Json.Kept.{
  print_start, kept_le, HasString-kept, StandsFor-kept, Items-kept, Members-kept,
}
use chowder.Json.Layout.{
  next_item, next_field, follow_item, follow_field, items_start, length_items, items_pos,
  length_fields, parse_name-quoted,
}

module _ {F : Type 0} (double : Double F)
    -- `atof` stops behind the digits.
    (stops : (d : ℕ) (ds rest : List ℕ)
      → All (λ (c : ℕ). is_digit c ≡ true) ds
      → is_follow d ≡ true
      → double.atof (ds ++ d ∷ rest) ≡ double.atof (ds ++ 0 ∷ [])) where
  abbrev Reads : Document → ℕ → ℕ → List ℕ → List ℕ → Run (Outcome (JsonValue F)) → Type 0
  Reads v i d s rest = Holds (
      IsRead i s (d ∷ rest) (length (print v))
        (λ s' x. StandsFor double s' (i + length (print v)) x v))

  -- A value for which no string is looked up.
  plain_value :
      (v : Document) (i d : ℕ) (s rest : List ℕ) (x : JsonValue F) (m : Run (Outcome (JsonValue F)))
      → ((k : ℕ) → StandsFor double s k x v)
      → drop i s ≡ print v ++ d ∷ rest
      → m ≡ ok (parsed s (i + length (print v)) x)
      → Reads v i d s rest m
  plain_value v i d s rest x m for h e =
      rw e (holds _ (is_read s _ x refl refl (drop_behind i s (print v) (d ∷ rest) h) (for _)))

  -- A name, and a value that is parsed as it is written.
  member-print :
      (name : List ℕ) (v : Document) (f i d : ℕ) (s more : List ℕ)
      → All CanQuote name
      → drop i s ≡ b'"' ∷ (quoted name ++ b'"' ∷ b':' ∷ (print v ++ d ∷ more))
      → Fits v
      → ((j : ℕ) (s1 : List ℕ)
          → drop j s1 ≡ print v ++ d ∷ more
          → Reads v j d s1 more (parse_value double f s1 j))
      → Holds
          (IsRead i s (d ∷ more) (length (quoted name) + 3 + length (print v)) (λ s' m.
            HasString s' (i + (length (quoted name) + 3)) (m.0) name
            × StandsFor double s' (i + (length (quoted name) + 3) + length (print v)) (m.1) v))
          (parse_member double (suc f) s i)
  unfolding parse_member
  member-print name v f i d s more fit h fit_v value =
      let (c, cs, e, start) = print_start v fit_v in
      let as_start : print v ++ d ∷ more ≡ c ∷ (cs ++ d ∷ more) = ap (λ t. t ++ d ∷ more) e in
      IsRead-step
        (parse_name-quoted name i c s _ fit (ground (arith, start))
          (h ∙ ap (λ t. b'"' ∷ (quoted name ++ b'"' ∷ b':' ∷ t)) as_start))
        (λ s1 j place at front left p.
          IsRead-step (value j s1 (left ∙ sym as_start)) (λ s2 k x at2 front2 left2 q. holds _ (
            is_read s2 k (place, x) (omega (arith, at, at2))
              (kept_le i j s1 s2 (omega (arith, at)) front2 ∙ front) left2
              (
                HasString-kept (i + (length (quoted name) + 2)) _ place s1 s2 name (omega arith)
                    (kept_le _ j s1 s2 (omega (arith, at)) front2) p,
                StandsFor-kept double (j + length (print v)) _ s2 s2 (omega (arith, at)) refl x v q,
              ))))

  mutual
    unfolding truthy parse_value parse_array parse_object parse_items parse_members parse_member
        print Fits ItemsFit FieldsFit

    value-print :
        (v : Document) (f i d : ℕ) (s rest : List ℕ)
        → Fits v
        → 3 * length (print v) + 1 ≤ f
        → is_follow d ≡ true
        → drop i s ≡ print v ++ d ∷ rest
        → Reads v i d s rest (parse_value double f s i)
    value-print v zero i d s rest fit enough follow h = absurd (omega arith)
    value-print doc_null (suc f) i d s rest fit enough follow h =
        plain_value doc_null i d s rest json_null _ (λ k. for_null) h
          (rw ((char_at-drop i _ s _ h).0, ◌>>=◌)
            (parse_truthy-word b'n' i d s _ _ rest json_null refl refl follow h))
    value-print doc_true (suc f) i d s rest fit enough follow h =
        plain_value doc_true i d s rest json_true _ (λ k. for_true) h
          (rw ((char_at-drop i _ s _ h).0, ◌>>=◌)
            (parse_truthy-word b't' i d s _ _ rest json_true refl refl follow h))
    value-print doc_false (suc f) i d s rest fit enough follow h =
        plain_value doc_false i d s rest json_false _ (λ k. for_false) h
          (rw ((char_at-drop i _ s _ h).0, ◌>>=◌)
            (parse_truthy-word b'f' i d s _ _ rest json_false refl refl follow h))
    value-print (doc_number []) (suc f) i d s rest fit enough follow h =
        absurd (omega (arith, fit.0))
    value-print (doc_number (c ∷ ds)) (suc f) i d s rest fit enough follow h =
        let digit : is_digit c || c == b'+' || c == b'-' ≡ true = ground (arith, fit.1.0) in
        plain_value (doc_number (c ∷ ds)) i d s rest _ _ (λ k. for_number (c ∷ ds)) h
          (rw
            (
              (char_at-drop i _ s _ h).0,
              ◌>>=◌,
              digit,
              parse_number-digits double (c ∷ ds) i d s rest fit.0 fit.1 follow h,
              stops d (c ∷ ds) rest fit.1 follow,
            )
            refl)
    value-print (doc_string cs) (suc f) i d s rest fit enough follow h =
        let here : drop i s ≡ b'"' ∷ (quoted cs ++ b'"' ∷ d ∷ rest) =
          h ∙ ap (λ t. b'"' ∷ t) (append_assoc (quoted cs) (b'"' ∷ []) (d ∷ rest)) in
        let len : length (quoted cs) + 2 ≡ length (print (doc_string cs)) =
          omega (arith, length-append (quoted cs) (b'"' ∷ [])) in
        rw ((char_at-drop i _ s _ here).0, ◌>>=◌)
          (IsRead-step (parse_string-quoted cs i s _ fit here) (λ s' j place e front left p.
            holds _ (
              is_read s' j (string place) (omega (arith, e, len)) front left
                (for_string place cs (omega (arith, p.0, len), p.1)))))
    value-print (doc_array vs) (suc zero) i d s rest fit enough follow h = absurd (omega arith)
    value-print (doc_array vs) (suc (suc f)) i d s rest fit enough follow h =
        let (first, behind) = char_at-drop i _ s _ h in
        let (c, cs, start, dark) = items_start vs (d ∷ rest) fit in
        rw (first, ◌>>=◌, skip_whitespace_none (i + 1) c s cs (behind ∙ start) dark, ◌>>=◌)
          (IsRead-step (items-print vs f (i + 1) s (d ∷ rest) fit (omega arith) behind)
            (λ s' j xs e front left p. holds _ (
              is_read s' j (array xs) (omega (arith, e))
                (kept_le i (i + 1) s s' (omega arith) front) left
                (for_array xs vs (
                  Items-kept double (i + 1 + length (print_items vs)) _ s' s' (omega arith) refl xs
                    vs p)))))
    value-print (doc_object fs) (suc zero) i d s rest fit enough follow h = absurd (omega arith)
    value-print (doc_object fs) (suc (suc f)) i d s rest fit enough follow h =
        let (first, behind) = char_at-drop i _ s _ h in
        rw (first, ◌>>=◌)
          (IsRead-step (fields-print fs f (i + 1) s (d ∷ rest) fit (omega arith) behind)
            (λ s' j ms e front left p. holds _ (
              is_read s' j (object ms) (omega (arith, e))
                (kept_le i (i + 1) s s' (omega arith) front) left
                (for_object ms fs (
                  Members-kept double (i + 1 + length (print_fields fs)) _ s' s' (omega arith) refl
                    ms fs p)))))

    items-print :
        (vs : Documents) (f i : ℕ) (s rest : List ℕ)
        → ItemsFit vs
        → 3 * length (print_items vs) ≤ f
        → drop i s ≡ print_items vs ++ rest
        → Holds
            (IsRead i s rest
              (length (print_items vs))
              (λ s' xs. ItemsStandFor double s' (i + length (print_items vs)) xs vs))
            (parse_items double f s i)
    items-print doc_nil zero i s rest fit enough h = absurd (omega arith)
    items-print (doc_cons v vs) zero i s rest fit enough h =
        absurd (omega (arith, items_pos (doc_cons v vs)))
    items-print doc_nil (suc f) i s rest fit enough h =
        let (first, behind) = char_at-drop i _ s _ h in
        rw (first, ◌>>=◌) (holds _ (is_read s (i + 1) no_items refl refl behind for_nil))
    items-print (doc_cons v vs) (suc f) i s rest fit enough h =
        let (c, cs, e, start) = print_start v fit.0 in
        let (d, more, sep, follow) = follow_item vs rest in
        let len = length_items v vs in
        let some_v : length (print v) ≡ suc (length cs) = ap length e in
        let here : drop i s ≡ print v ++ (comma vs ++ (print_items vs ++ rest)) =
          h
          ∙ append_assoc (print v) (comma vs ++ print_items vs) rest
          ∙ ap (λ t. print v ++ t) (append_assoc (comma vs) (print_items vs) rest) in
        let first : char_at s i ≡ ok c =
          (char_at-drop i c s _
            (here ∙ ap (λ t. t ++ (comma vs ++ (print_items vs ++ rest))) e)).0 in
        rw (first, ◌>>=◌)
          (Holds-if (c == 0) (λ bad. ground (arith, start, bad))
            (λ _.
              Holds-if (c == b']') (λ bad. ground (arith, start, bad))
                (λ _.
                  IsRead-step
                    (value-print v f i d s more fit.0 (omega (arith, len, some_v, items_pos vs))
                      follow (here ∙ ap (λ t. print v ++ t) sep))
                    (λ s1 j x at front left p.
                      let (next, behind) = next_item vs j s1 rest fit.1 (left ∙ sym sep) in
                      rw next (
                        IsRead-step
                          (items-print vs f (j + length (comma vs)) s1 rest fit.1
                            (omega (arith, len, some_v)) behind)
                          (λ s2 l xs at2 front2 left2 q. holds _ (
                            is_read s2 l (item x xs) (omega (arith, len, at, at2))
                              (kept_le i (j + length (comma vs)) s1 s2 (omega (arith, at)) front2
                                ∙ front)
                              left2
                              (for_cons x xs v vs
                                (StandsFor-kept double (i + length (print v)) _ s1 s2
                                  (omega (arith, len))
                                  (kept_le _ (j + length (comma vs)) s1 s2 (omega (arith, at))
                                    front2)
                                  x v p)
                                (Items-kept double (j + length (comma vs) + length (print_items vs))
                                  _ s2 s2 (omega (arith, len, at)) refl xs vs q)))))))))

    fields-print :
        (fs : Fields) (f i : ℕ) (s rest : List ℕ)
        → FieldsFit fs
        → 3 * length (print_fields fs) ≤ f
        → drop i s ≡ print_fields fs ++ rest
        → Holds
            (IsRead i s rest
              (length (print_fields fs))
              (λ s' ms. MembersStandFor double s' (i + length (print_fields fs)) ms fs))
            (parse_members double f s i)
    fields-print field_nil zero i s rest fit enough h = absurd (omega arith)
    fields-print (field_cons name v fs) zero i s rest fit enough h =
        absurd (omega (arith, length_fields name v fs))
    fields-print field_nil (suc f) i s rest fit enough h =
        let (first, behind) = char_at-drop i _ s _ h in
        rw (first, ◌>>=◌) (holds _ (is_read s (i + 1) no_members refl refl behind for_no_members))
    fields-print (field_cons name v fs) (suc zero) i s rest fit enough h =
        absurd (omega (arith, length_fields name v fs))
    fields-print (field_cons name v fs) (suc (suc f)) i s rest fit enough h =
        let (d, more, sep, follow) = follow_field fs rest in
        let len = length_fields name v fs in
        let after : List ℕ = field_comma fs ++ (print_fields fs ++ rest) in
        let here : drop i s ≡ b'"' ∷ (quoted name ++ b'"' ∷ b':' ∷ (print v ++ after)) =
          h
          ∙ ap (λ t. b'"' ∷ t)
              (append_assoc (quoted name)
                  (b'"' ∷ b':' ∷ (print v ++ (field_comma fs ++ print_fields fs))) rest
                ∙ ap (λ t. quoted name ++ b'"' ∷ b':' ∷ t)
                    (append_assoc (print v) (field_comma fs ++ print_fields fs) rest
                      ∙ ap (λ t. print v ++ t)
                          (append_assoc (field_comma fs) (print_fields fs) rest))) in
        let n : ℕ = length (quoted name) + 3 in
        let one =
          member-print name v f i d s more fit.0
            (here ∙ ap (λ t. b'"' ∷ (quoted name ++ b'"' ∷ b':' ∷ (print v ++ t))) sep) fit.1
            (λ j s1 left. value-print v f j d s1 more fit.1 (omega (arith, len)) follow left) in
        rw ((char_at-drop i _ s _ here).0, ◌>>=◌, skip_whitespace_none i b'"' s _ here refl, ◌>>=◌)
          (IsRead-step one (λ s1 j m at front left p.
            let (next, behind) = next_field fs j s1 rest (left ∙ sym sep) in
            let to : ℕ = j + length (field_comma fs) in
            rw next (
              IsRead-step (fields-print fs (suc f) to s1 rest fit.2 (omega (arith, len)) behind)
                (λ s2 l ms at2 front2 left2 q. holds _ (
                  is_read s2 l (member (m.0) (m.1) ms) (omega (arith, len, at, at2))
                    (kept_le i to s1 s2 (omega (arith, at)) front2 ∙ front) left2
                    (for_member (m.0) name (m.1) ms v fs
                      (HasString-kept (i + n) _ (m.0) s1 s2 name (omega (arith, len))
                        (kept_le _ to s1 s2 (omega (arith, at)) front2) p.0)
                      (StandsFor-kept double (i + n + length (print v)) _ s1 s2 (omega (arith, len))
                        (kept_le _ to s1 s2 (omega (arith, at)) front2) (m.1) v p.1)
                      (Members-kept double (to + length (print_fields fs)) _ s2 s2
                        (omega (arith, len, at)) refl ms fs q)))))))

  -- Where `atof` stops behind a row of digits: for a document whose strings have only characters
  -- that JSON can quote and whose numbers are not empty rows of digits, written with no white space
  -- and followed by a zero, `json_parse` with fuel of at least 3 * length + 1 reads exactly the
  -- written text and gives a value that stands for the document, with the same items and members in
  -- their order and with each string, unquoted, in the changed text.
  pub json_parse-print :
      (v : Document) (fuel : ℕ) (more : List ℕ)
      → Fits v
      → 3 * length (print v) + 1 ≤ fuel
      → Holds
          (IsRead 0
            (print v ++ 0 ∷ more)
            (0 ∷ more)
            (length (print v))
            (λ s x. StandsFor double s (length (print v)) x v))
          (json_parse double fuel (print v ++ 0 ∷ more))
  unfolding json_parse
  json_parse-print v fuel more fit enough =
      IsRead-step (value-print v fuel 0 0 (print v ++ 0 ∷ more) more fit enough refl refl)
        (λ s j x at front left p.
          rw ((char_at-drop j 0 s more left).0, ◌>>=◌)
            (holds _ (
              is_read s j x at front left
                (StandsFor-kept double (0 + length (print v)) _ s s (omega arith) refl x v p))))
