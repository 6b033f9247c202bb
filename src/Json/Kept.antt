-- ===== src/Json/Kept.antt =====
-- Documents: how they start, and that a value stands for one when the text changes behind it.
use chowder.Prelude.{
  ℕ, ◌+◌, ◌≤◌, ◌≡◌, refl, sym, ap, ◌∙◌, Bool, true, not, ◌&&◌, List, [], ◌∷◌, ◌==◌, length, take,
  drop, take-take, take-drop, arith,
}
use chowder.Json.{JsonValue, Members, Items, Double}
use chowder.Json.Scan.{is_whitespace}
use chowder.Json.Document.{
  Document, doc_null, doc_true, doc_false, doc_number, doc_string, doc_array, doc_object, Documents,
  Fields, print, Fits, HasString, StandsFor, for_null, for_true, for_false, for_number, for_string,
  for_array, for_object, ItemsStandFor, for_nil, for_cons, MembersStandFor, for_no_members,
  for_member,
}

-- A value is written from a character that is no white space and ends nothing.
abbrev pub is_start : ℕ → Bool
is_start c =
    not (is_whitespace c) && not (c == 0) && not (c == b',') && not (c == b']') && not (c == b'}')

pub print_start :
    (v : Document) → Fits v → (c : ℕ) × (cs : List ℕ) × (print v ≡ c ∷ cs) × (is_start c ≡ true)
unfolding print Fits
print_start doc_null h = (_, _, refl, refl)
print_start doc_true h = (_, _, refl, refl)
print_start doc_false h = (_, _, refl, refl)
print_start (doc_number []) h = absurd (omega (arith, h.0))
print_start (doc_number (d ∷ ds)) h = (d, ds, refl, ground (arith, h.1.0))
print_start (doc_string cs) h = (_, _, refl, refl)
print_start (doc_array vs) h = (_, _, refl, refl)
print_start (doc_object fs) h = (_, _, refl, refl)

pub kept_le : (i j : ℕ) (s s' : List ℕ) → i ≤ j → take j s' ≡ take j s → take i s' ≡ take i s
kept_le i j s s' le h = sym (take-take i j s' le) ∙ ap (take i) h ∙ take-take i j s le

-- Strings stay where they are when the text changes behind them.
pub HasString-kept :
    (k k' place : ℕ) (s s' cs : List ℕ)
    → k ≤ k'
    → take k s' ≡ take k s
    → HasString s k place cs
    → HasString s' k' place cs
HasString-kept k k' place s s' cs le same h =
    let n : ℕ = place + (length cs + 1) in
    let short : n ≤ k = omega (arith, h.0) in
    let front : take n s' ≡ take n s = kept_le n k s s' short same in
    (
      omega (arith, h.0),
      take-drop (length cs + 1) place s'
          ∙ ap (drop place) front
          ∙ sym (take-drop (length cs + 1) place s)
          ∙ h.1,
    )

module _ {F : Type 0} (double : Double F) (k k' : ℕ) (s s' : List ℕ) (le : k ≤ k')
    (same : take k s' ≡ take k s) where
  mutual
    pub StandsFor-kept :
        (v : JsonValue F) (d : Document) → StandsFor double s k v d → StandsFor double s' k' v d
    StandsFor-kept _ _ for_null = for_null
    StandsFor-kept _ _ for_true = for_true
    StandsFor-kept _ _ for_false = for_false
    StandsFor-kept _ _ (for_number ds) = for_number ds
    StandsFor-kept _ _ (for_string place cs h) =
        for_string place cs (HasString-kept k k' place s s' cs le same h)
    StandsFor-kept _ _ (for_array vs ds h) = for_array vs ds (Items-kept vs ds h)
    StandsFor-kept _ _ (for_object ms fs h) = for_object ms fs (Members-kept ms fs h)

    pub Items-kept :
        (vs : Items F) (ds : Documents)
        → ItemsStandFor double s k vs ds
        → ItemsStandFor double s' k' vs ds
    Items-kept _ _ for_nil = for_nil
    Items-kept _ _ (for_cons v vs d ds h hs) =
        for_cons v vs d ds (StandsFor-kept v d h) (Items-kept vs ds hs)

    pub Members-kept :
        (ms : Members F) (fs : Fields)
        → MembersStandFor double s k ms fs
        → MembersStandFor double s' k' ms fs
    Members-kept _ _ for_no_members = for_no_members
    Members-kept _ _ (for_member place name v ms d fs h hv hs) =
        for_member place name v ms d fs (HasString-kept k k' place s s' name le same h)
          (StandsFor-kept v d hv) (Members-kept ms fs hs)
