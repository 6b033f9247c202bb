-- ===== src/Anvil/Buffer.antt =====
-- libs/anvil/anvil.c: the strings of a block, and what strcat makes of a buffer with room for them.
use chowder.Prelude.Text.{all, all_append, all_cons, codes}
use chowder.Prelude.{
  ℕ, suc, ◌+◌, ◌-◌, ◌≤◌, ◌≡◌, refl, sym, ap, ◌∙◌, Bool, true, false, not, ◌&&◌, List, [], ◌∷◌, ◌++◌,
  leb, ◌==◌, length, drop, ok, ◌>>=◌, arith, length-append, length-drop,
}
use mathlib.Core.List.{append_assoc, foldr, append-nil}
use chowder.Nbt.{Name, chars, NbtData, string, Nbt}
use chowder.Nbt.Wire.{text}
use chowder.Nbt.Unpack.{until_zero, c_string}
use chowder.Anvil.{string_of, add_properties_length, overwrite, strcat, append_properties}

abbrev pub is_nonzero : ℕ → Bool
is_nonzero c = not (c == 0)

-- A pointer to a string.
abbrev pub has_chars : Name → Bool
has_chars (chars cs) = all is_nonzero cs
has_chars _ = false

abbrev pub is_string : NbtData → Bool
is_string (string s) = has_chars s
is_string _ = false

abbrev pub string_text : NbtData → List ℕ
string_text (string s) = text s
string_text _ = []

-- A named string.
abbrev pub fine_property : Nbt → Bool
fine_property p = has_chars p.name && is_string p.value

-- `;key=value`
abbrev pub property_text : Nbt → List ℕ
property_text p = b';' ∷ (text p.name ++ b'=' ∷ string_text p.value)

unfoldable pub properties_text : List Nbt → List ℕ
properties_text [] = []
properties_text (p ∷ ps) = property_text p ++ properties_text ps

abbrev pub total_length : List Nbt → ℕ
total_length = foldr (λ p n. length (property_text p) + n) 0

abbrev pub all_fine : List Nbt → Bool
all_fine = foldr (λ p b. fine_property p && b) true

pub until_zero-all : (cs : List ℕ) → all is_nonzero cs ≡ true → until_zero cs ≡ cs
unfolding until_zero all
until_zero-all [] h = refl
until_zero-all (c ∷ cs) h =
    let go : (c == 0) ≡ false = ground (arith, h) in
    rw (go, until_zero-all cs (ground (arith, h))) refl

pub c_string-text : (n : Name) → has_chars n ≡ true → c_string n ≡ ok (text n)
unfolding c_string
c_string-text (chars cs) h = ap ok (until_zero-all cs h)
c_string-text _ h = cc

pub string_of-text : (v : NbtData) → is_string v ≡ true → string_of v ≡ ok (string_text v)
string_of-text (string s) h = c_string-text s h
string_of-text _ h = cc

pub has_chars-all : (n : Name) → has_chars n ≡ true → all is_nonzero (text n) ≡ true
has_chars-all (chars cs) h = h
has_chars-all _ h = cc

pub is_string-all : (v : NbtData) → is_string v ≡ true → all is_nonzero (string_text v) ≡ true
is_string-all (string s) h = has_chars-all s h
is_string-all _ h = cc

-- A text with its zero, and the room behind it.
abbrev pub buffer : List ℕ → List ℕ → List ℕ
buffer cs room = cs ++ 0 ∷ room

pub strcat-overwrite :
    (src room : List ℕ)
    → length src ≤ length room
    → overwrite (0 ∷ room) (src ++ 0 ∷ []) ≡ ok (buffer src (drop (length src) room))
strcat-overwrite src room h =
    let len : length (src ++ 0 ∷ []) ≡ suc (length src) =
      omega (arith, length-append src (0 ∷ [])) in
    let fits : leb (suc (length src)) (suc (length room)) ≡ true = ground (arith, h) in
    rw (len, fits) (ap ok (append_assoc src (0 ∷ []) _))

pub strcat-buffer :
    (cs src room : List ℕ)
    → all is_nonzero cs ≡ true
    → length src ≤ length room
    → strcat (buffer cs room) src ≡ ok (buffer (cs ++ src) (drop (length src) room))
unfolding strcat all
strcat-buffer [] src room h fits = strcat-overwrite src room fits
strcat-buffer (c ∷ cs) src room h fits =
    let go : (c == 0) ≡ false = ground (arith, h) in
    rw (go, strcat-buffer cs src room (ground (arith, h)) fits, ◌>>=◌) refl

pub add_properties_length-total :
    (n : ℕ) (ps : List Nbt)
    → all_fine ps ≡ true
    → add_properties_length n ps ≡ ok (n + total_length ps)
unfolding add_properties_length
add_properties_length-total n [] h = ap ok {x = n} {y = n + 0} (omega arith)
add_properties_length-total n (p ∷ ps) h =
    rw
      (
        c_string-text p.name (ground (arith, h)),
        ◌>>=◌,
        string_of-text p.value (ground (arith, h)),
        ◌>>=◌,
        add_properties_length-total (n + length (text p.name) + length (string_text p.value) + 2) ps
            (ground (arith, h)),
      )
      (ap ok {x = n + length (text p.name) + length (string_text p.value) + 2 + total_length ps}
        {y = n + total_length (p ∷ ps)}
        (omega (arith, length-append (text p.name) (b'=' ∷ string_text p.value))))

pub append_property :
    (cs key value : List ℕ)
    → (((cs ++ codes ";") ++ key) ++ codes "=") ++ value ≡ cs ++ (b';' ∷ (key ++ b'=' ∷ value))
append_property cs key value =
    append_assoc ((cs ++ codes ";") ++ key) (codes "=") value
    ∙ append_assoc (cs ++ codes ";") key _
    ∙ append_assoc cs (codes ";") _

-- A round of the loop.
append_properties-cons :
    (cs room : List ℕ) (p : Nbt) (ps : List Nbt)
    → all is_nonzero cs ≡ true
    → fine_property p ≡ true
    → length (property_text p) ≤ length room
    → (room' : List ℕ) × (length room' + length (property_text p) ≡ length room)
      × (append_properties (buffer cs room) (p ∷ ps)
          ≡ append_properties (buffer (cs ++ property_text p) room') ps)
unfolding append_properties all
append_properties-cons cs room p ps h fine fits =
    let key = text p.name in
    let value = string_text p.value in
    let len = length-append key (b'=' ∷ value) in
    let room1 = drop 1 room in
    let room2 = drop (length key) room1 in
    let room3 = drop 1 room2 in
    let left1 : length room1 ≡ length room - 1 = length-drop 1 room in
    let left2 : length room2 ≡ length room1 - length key = length-drop (length key) room1 in
    let left3 : length room3 ≡ length room2 - 1 = length-drop 1 room2 in
    let left4 = length-drop (length value) room3 in
    let h1 = all_append is_nonzero cs (codes ";") h refl in
    let h2 =
      all_append is_nonzero (cs ++ codes ";") key h1
        (has_chars-all p.name (ground (arith, fine))) in
    let h3 = all_append is_nonzero ((cs ++ codes ";") ++ key) (codes "=") h2 refl in
    (
      drop (length value) room3,
      omega (arith, fits, len, left4),
      rw
          (
            strcat-buffer cs (codes ";") room h (omega (arith, fits)),
            ◌>>=◌,
            c_string-text p.name (ground (arith, fine)),
            ◌>>=◌,
            strcat-buffer (cs ++ codes ";") key room1 h1 (omega (arith, fits, len)),
            ◌>>=◌,
            strcat-buffer ((cs ++ codes ";") ++ key) (codes "=") room2 h2
                (omega (arith, fits, len)),
            ◌>>=◌,
            string_of-text p.value (ground (arith, fine)),
            ◌>>=◌,
            strcat-buffer (((cs ++ codes ";") ++ key) ++ codes "=") value room3 h3
                (omega (arith, fits, len)),
            ◌>>=◌,
          )
          (ap (λ t. append_properties (buffer t (drop (length value) room3)) ps)
            (append_property cs key value)),
    )

property_text-all : (p : Nbt) → fine_property p ≡ true → all is_nonzero (property_text p) ≡ true
unfolding all
property_text-all p h = all_cons is_nonzero b';' (text p.name ++ b'=' ∷ string_text p.value) refl (
    all_append is_nonzero (text p.name) (b'=' ∷ string_text p.value)
      (has_chars-all p.name (ground (arith, h)))
      (all_cons is_nonzero b'=' (string_text p.value) refl
        (is_string-all p.value (ground (arith, h)))))

pub append_properties-buffer :
    (cs room : List ℕ) (ps : List Nbt)
    → all is_nonzero cs ≡ true
    → all_fine ps ≡ true
    → total_length ps ≤ length room
    → (room' : List ℕ) × (append_properties (buffer cs room) ps
        ≡ ok (buffer (cs ++ properties_text ps) room'))
unfolding append_properties properties_text
append_properties-buffer cs room [] h fine fits =
    (room, ap (λ t. ok (buffer t room)) (sym (append-nil cs)))
append_properties-buffer cs room (p ∷ ps) h fine fits =
    let fine_here : fine_property p ≡ true = ground (arith, fine) in
    let (room1, left, here) =
      append_properties-cons cs room p ps h fine_here (omega (arith, fits)) in
    let text_all = all_append is_nonzero cs (property_text p) h (property_text-all p fine_here) in
    let (room2, rest) =
      append_properties-buffer (cs ++ property_text p) room1 ps text_all (ground (arith, fine))
        (omega (arith, fits, left)) in
    (
      room2,
      here
          ∙ rest
          ∙ ap (λ t. ok (buffer t room2)) (append_assoc cs (property_text p) (properties_text ps)),
    )

pub properties_text-all :
    (ps : List Nbt) → all_fine ps ≡ true → all is_nonzero (properties_text ps) ≡ true
unfolding properties_text all
properties_text-all [] h = refl
properties_text-all (p ∷ ps) h =
    all_append is_nonzero (property_text p) (properties_text ps)
      (property_text-all p (ground (arith, h))) (properties_text-all ps (ground (arith, h)))
