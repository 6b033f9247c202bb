-- ===== src/Hashmap/Probe.antt =====
-- libs/hashmap/hashmap.c: where the loops of `hashmap_add` and `hashmap_get_index` end.
use chowder.Prelude.{
  ℕ, suc, ◌+◌, ◌≤◌, ◌<◌, ◌≡◌, refl, ap, ◌∙◌, sym, ◌⊎◌, inl, inr, Bool, true, false, Bool-cases,
  List, [], ◌∷◌, ◌++◌, map, Option, none, some, if◌then◌else◌, ◌==◌, length, length-append,
  length-map, length-drop, length-take_le, take, drop, set, get_elem?, All, All-append, Run, ok,
  ◌>>=◌, arith, drop-set, get_elem?-drop,
}
use mathlib.Core.List.{append_assoc}
use chowder.Prelude.Slices.{
  take-set_inside, take-set_past, drop-set_inside, get_elem?-take_inside, map-take, map-drop,
}
use chowder.Hashmap.{HashmapEntry, skip_while, probe}
use chowder.Hashmap.Slots.{Slot, entry, rotate}

set-append_here :
    (pre post : List Slot) (s t : Slot) → set (pre ++ (s ∷ post)) (length pre) t ≡ pre ++ (t ∷ post)
set-append_here [] post s t = refl
set-append_here (x ∷ pre) post s t = ap (λ u. x ∷ u) (set-append_here pre post s t)

get_elem?-append_here :
    (pre post : List Slot) (s : Slot) → get_elem? (pre ++ (s ∷ post)) (length pre) ≡ some s
get_elem?-append_here [] post s = refl
get_elem?-append_here (x ∷ pre) post s = get_elem?-append_here pre post s

module _ (test : HashmapEntry → Run Bool) (passes : Slot → Bool)
    (agrees : (s : Slot) → test (entry s) ≡ ok (passes s)) where
  abbrev pub Passes : Slot → Type 0
  Passes s = passes s ≡ true

  -- The slots before the one at which the loop ends, that one, and the others.
  record Stop (j : ℕ) (ss : List Slot) : Type 0 where
    pre : List Slot
    here : Slot
    post : List Slot
    parts : ss ≡ pre ++ (here ∷ post)
    passed : All Passes pre
    stopped : passes here ≡ false
    skipped : skip_while test j (map entry ss) ≡ ok (j + length pre)

  loop_ends :
      (j : ℕ) (ss : List Slot)
      → (All Passes ss × (skip_while test j (map entry ss) ≡ ok (j + length ss))) ⊎ Stop j ss
  unfolding skip_while
  loop_ends j [] = inl (tt, ap (λ (n : ℕ). ok n) (omega arith))
  loop_ends j (s ∷ ss) = elim (Bool-cases (passes s)) [
    | inl e ↦ elim (loop_ends (suc j) ss) [
      | inl (all, skipped) ↦
          inl ((e, all), rw (agrees s, ◌>>=◌, e) (skipped ∙ ap (λ (n : ℕ). ok n) (omega arith)))
      | inr st ↦ inr (record {
        pre = s ∷ st.pre;
        here = st.here;
        post = st.post;
        parts = ap (λ t. s ∷ t) st.parts;
        passed = (e, st.passed);
        stopped = st.stopped;
        skipped = rw (agrees s, ◌>>=◌, e) (st.skipped ∙ ap (λ (n : ℕ). ok n) (omega arith));
      })
    ]
    | inr e ↦ inr (record {
      pre = [];
      here = s;
      post = ss;
      parts = refl;
      passed = tt;
      stopped = e;
      skipped = rw (agrees s, ◌>>=◌, e) (ap (λ (n : ℕ). ok n) (omega arith));
    })
  ]

  again : ℕ → List Slot → Run (Option ℕ)
  again i ss = do
    j ← skip_while test 0 (map entry (take i ss))
    ok (if j == i then none else some j)

  after_first :
      (i j : ℕ) (ss : List Slot)
      → skip_while test i (map entry (drop i ss)) ≡ ok j
      → probe test i (map entry ss) ≡ (if j == length ss then again i ss else ok (some j))
  unfolding probe again
  after_first i j ss e =
      rw (map-drop entry i ss, e, ◌>>=◌, length-map ss entry, map-take entry i ss) refl

  after_second :
      (i j : ℕ) (ss : List Slot)
      → skip_while test 0 (map entry (take i ss)) ≡ ok (0 + j)
      → again i ss ≡ ok (if j == i then none else some j)
  unfolding again
  after_second i j ss e =
      rw (e, ◌>>=◌) (ap (λ (n : ℕ). ok (if n == i then none else some n)) (omega arith))

  -- The slot at which the search ends, and the rotated slots before and behind it.
  pub record Hit (i : ℕ) (ss : List Slot) : Type 0 where
    pub slot : ℕ
    pub here : Slot
    pub pre : List Slot
    pub post : List Slot
    pub probed : probe test i (map entry ss) ≡ ok (some slot)
    pub inside : slot < length ss
    pub at_slot : get_elem? ss slot ≡ some here
    pub stopped : passes here ≡ false
    pub passed : All Passes pre
    pub parts : rotate i ss ≡ pre ++ (here ∷ post)
    pub replaced : (t : Slot) → rotate i (set ss slot t) ≡ pre ++ (t ∷ post)

  ends_behind : (i : ℕ) (ss : List Slot) → i ≤ length ss → Stop i (drop i ss) → Hit i ss
  unfolding probe
  ends_behind i ss h st =
      let n = length st.pre in
      let rest : length (drop i ss) ≡ n + suc (length st.post) =
        ap length st.parts ∙ length-append st.pre (st.here ∷ st.post) in
      let inside : i + n < length ss = omega (arith, rest, length-drop i ss, h) in
      record {
        slot = i + n;
        here = st.here;
        pre = st.pre;
        post = st.post ++ take i ss;
        probed = after_first i (i + n) ss st.skipped ∙ ground (arith, inside);
        inside = inside;
        at_slot =
            sym (get_elem?-drop i n ss)
            ∙ ap (λ t. get_elem? t n) st.parts
            ∙ get_elem?-append_here st.pre st.post st.here;
        stopped = st.stopped;
        passed = st.passed;
        parts =
            ap (λ t. t ++ take i ss) st.parts ∙ append_assoc st.pre (st.here ∷ st.post) (take i ss);
        replaced = λ t.
            rw
              (
                take-set_past i (i + n) ss t (omega arith),
                drop-set_inside i n ss t,
                st.parts,
                set-append_here st.pre st.post st.here t,
              )
              (append_assoc st.pre (t ∷ st.post) (take i ss));
      }

  ends_in_front :
      (i : ℕ) (ss : List Slot)
      → i ≤ length ss
      → All Passes (drop i ss)
      → skip_while test i (map entry (drop i ss)) ≡ ok (i + length (drop i ss))
      → Stop 0 (take i ss)
      → Hit i ss
  unfolding probe
  ends_in_front i ss h all skipped st =
      let n = length st.pre in
      let rest : length (take i ss) ≡ n + suc (length st.post) =
        ap length st.parts ∙ length-append st.pre (st.here ∷ st.post) in
      let before : n < i = omega (arith, rest, length-take_le i ss h) in
      record {
        slot = n;
        here = st.here;
        pre = drop i ss ++ st.pre;
        post = st.post;
        probed =
            after_first i (i + length (drop i ss)) ss skipped
            ∙ ground (arith, length-drop i ss, h, before, after_second i n ss st.skipped);
        inside = omega (arith, before, h);
        at_slot =
            sym (get_elem?-take_inside i n ss before)
            ∙ ap (λ t. get_elem? t n) st.parts
            ∙ get_elem?-append_here st.pre st.post st.here;
        stopped = st.stopped;
        passed = All-append Passes (drop i ss) st.pre all st.passed;
        parts =
            ap (λ t. drop i ss ++ t) st.parts
            ∙ sym (append_assoc (drop i ss) st.pre (st.here ∷ st.post));
        replaced = λ t.
            rw
              (
                drop-set i ss n t before,
                take-set_inside i n ss t before,
                st.parts,
                set-append_here st.pre st.post st.here t,
              )
              (sym (append_assoc (drop i ss) st.pre (t ∷ st.post)));
      }

  pub probe-cases :
      (i : ℕ) (ss : List Slot)
      → i ≤ length ss
      → (All Passes (rotate i ss) × (probe test i (map entry ss) ≡ ok none)) ⊎ Hit i ss
  unfolding probe
  probe-cases i ss h = elim (loop_ends i (drop i ss)) [
    | inr st ↦ inr (ends_behind i ss h st)
    | inl (all, skipped) ↦ elim (loop_ends 0 (take i ss)) [
      | inr st ↦ inr (ends_in_front i ss h all skipped st)
      | inl (more, again_skipped) ↦ inl (
        All-append Passes (drop i ss) (take i ss) all more,
        after_first i (i + length (drop i ss)) ss skipped
            ∙ ground (
              arith,
              length-drop i ss,
              h,
              length-take_le i ss h,
              after_second i (length (take i ss)) ss again_skipped,
            ),
      )
    ]
  ]
