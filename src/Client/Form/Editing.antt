-- ===== src/Client/Form/Editing.antt =====
-- What the keys do to a line, seen as the text before and behind its caret; what a form reads back;
-- and the part of a line that fits into a width.
use secd.Base.{
  ℕ, zero, suc, ◌+◌, ◌-◌, ◌≤◌, ◌<◌, Bool, true, false, ◌≡◌, refl, ap, ◌∙◌, subst, inl, some, List,
  [], ◌∷◌, ◌++◌, map, append_assoc, length, take, drop, replicate, All, All-take, length-append,
  length-take, length-drop, take-append, drop-append, arith, ltb, ◌==◌,
}
use secd.Base.Text.{Str}
use secd.Base.Utf8.{IsScalar, chars, decode, collect}
use secd.Base.Utf8.RoundTrip.{chars-collect, collect-chars}
use secd.Core.Provider.{Field, value_of}
use secd.Client.Form.{Schema, name_field, schema, schema_field, name_text, value_pairs, pair_of}
use secd.Client.Form.Line
use secd.Client.Form.Line.{Input, start_of, end_of, bullet}
use secd.Client.Form.Lines.{IsLine, All-drop, All-replicate, length-replicate}

abbrev pub before : Input → List ℕ
before input = take input.caret input.chars

abbrev pub behind : Input → List ℕ
behind input = drop input.caret input.chars

-- A line with texts before and behind its caret.
abbrev pub line_of : List ℕ → List ℕ → Input
line_of l r = record { chars = l ++ r; caret = length l }

take-drop : (n : ℕ) (cs : List ℕ) → take n cs ++ drop n cs ≡ cs
take-drop zero cs = refl
take-drop (suc n) [] = refl
take-drop (suc n) (c ∷ cs) = ap (λ l. c ∷ l) (take-drop n cs)

pub line_of-parts : (i : Input) → IsLine i → line_of (before i) (behind i) ≡ i
line_of-parts i v =
    let w = v.within in ground (arith, take-drop i.caret i.chars, length-take i.caret i.chars)

insert-line_of : (c : ℕ) (l r : List ℕ) → Line.insert c (line_of l r) ≡ line_of (l ++ c ∷ []) r
unfolding Line.insert
insert-line_of c l r = ground (
  arith,
  take-append (length l) l r refl,
  drop-append (length l) l r refl,
  append_assoc l (c ∷ []) r,
  length-append l (c ∷ []),
)

-- `c` is the character before the caret.
backspace-line_of : (c : ℕ) (l r : List ℕ) → Line.backspace (line_of (l ++ c ∷ []) r) ≡ line_of l r
unfolding Line.backspace
backspace-line_of c l r =
    let size = length-append l (c ∷ []) in
    let more : (length (l ++ c ∷ []) == 0) ≡ false = ground (arith, size) in
    let back : length (l ++ c ∷ []) - 1 ≡ length l = omega (arith, size) in
    let whole : length (l ++ c ∷ []) ≡ length l + 1 = omega (arith, size) in
    let same : (l ++ c ∷ []) ++ r ≡ l ++ (c ∷ r) = append_assoc l (c ∷ []) r in
    let kept : take (length l) (l ++ (c ∷ r)) ≡ l = take-append (length l) l (c ∷ r) refl in
    let gone : drop (length l + 1) ((l ++ c ∷ []) ++ r) ≡ r =
      drop-append (length l + 1) (l ++ c ∷ []) r whole in
    rw (more, back) (ground (arith, same, kept, gone))

delete-line_of : (c : ℕ) (l r : List ℕ) → Line.delete (line_of l (c ∷ r)) ≡ line_of l r
unfolding Line.delete
delete-line_of c l r =
    let more : ltb (length l) (length (l ++ c ∷ r)) ≡ true =
      ground (arith, length-append l (c ∷ r)) in
    let kept : take (length l) (l ++ (c ∷ r)) ≡ l = take-append (length l) l (c ∷ r) refl in
    let same : (l ++ c ∷ []) ++ r ≡ l ++ (c ∷ r) = append_assoc l (c ∷ []) r in
    let gone : drop (length l + 1) ((l ++ c ∷ []) ++ r) ≡ r =
      drop-append (length l + 1) (l ++ c ∷ []) r (omega (arith, length-append l (c ∷ []))) in
    rw more (ground (arith, same, kept, gone))

left-line_of : (c : ℕ) (l r : List ℕ) → Line.left (line_of (l ++ c ∷ []) r) ≡ line_of l (c ∷ r)
unfolding Line.left
left-line_of c l r = ground (arith, append_assoc l (c ∷ []) r, length-append l (c ∷ []))

text-insert : (c : ℕ) (i : Input) → Line.text (Line.insert c i) ≡ collect (before i ++ c ∷ behind i)
unfolding Line.text Line.insert
text-insert c i = refl

-- A character that is typed and taken back, by Backspace or from its left by Delete, leaves the line
-- and its caret as they were; and typing it puts it between the text before the caret and the text
-- behind.
pub insert_undone :
    (c : ℕ) (i : Input)
    → IsLine i
    → (Line.backspace (Line.insert c i) ≡ i)
      × (Line.delete (Line.left (Line.insert c i)) ≡ i)
      × (Line.text (Line.insert c i) ≡ collect (before i ++ c ∷ behind i))
insert_undone c i v =
    let l : List ℕ = before i in
    let r : List ℕ = behind i in
    let whole = line_of-parts i v in
    (
      subst (λ j. Line.backspace (Line.insert c j) ≡ j) whole
          (ap Line.backspace (insert-line_of c l r) ∙ backspace-line_of c l r),
      subst (λ j. Line.delete (Line.left (Line.insert c j)) ≡ j) whole
          (ap (λ j. Line.delete (Line.left j)) (insert-line_of c l r)
            ∙ ap Line.delete (left-line_of c l r)
            ∙ delete-line_of c l r),
      text-insert c i,
    )

-- Bytes that read as characters.
abbrev pub IsUtf8 : Str → Type 0
IsUtf8 s = (cs : List ℕ) × (decode s ≡ some cs)

text-from_text : (s : Str) → IsUtf8 s → Line.text (Line.from_text s) ≡ s
unfolding Line.text Line.from_text
text-from_text s (cs, e) = collect-chars s cs e

-- A field of a schema with the value that the form was opened with for it.
abbrev pub opened_with : List (Str × Str) → Field → Str × Str
opened_with values f = (f.key, value_of f.key values)

schema_pairs :
    (values : List (Str × Str)) (fs : List Field)
    → All (λ (f : Field). IsUtf8 (value_of f.key values)) fs
    → map pair_of (map (schema_field values) fs) ≡ map (opened_with values) fs
unfolding schema_field
schema_pairs values [] h = refl
schema_pairs values (f ∷ fs) (u, h) = rw (text-from_text _ u, schema_pairs values fs h) refl

-- A provider form reads back its name and, for each field of the schema in order, the value that it
-- was opened with.
pub schema_texts :
    (s : Schema) (name : Str) (values : List (Str × Str))
    → IsUtf8 name
    → All (λ (f : Field). IsUtf8 (value_of f.key values)) s.fields
    → (name_text (schema s name values) ≡ name)
      × (value_pairs (schema s name values) ≡ map (opened_with values) s.fields)
unfolding name_text value_pairs schema name_field
schema_texts s name values n h = (text-from_text name n, schema_pairs values s.fields h)

window_text :
    (k : ℕ) (shown : Bool) (i : Input)
    → IsLine i
    → length (chars (Line.window (suc k) shown i).0) ≡ end_of (suc k) i - start_of (suc k) i
unfolding Line.window
window_text k true i v =
    let w = v.within in
    let s = start_of (suc k) i in
    let n = end_of (suc k) i - s in
    let some_width : (suc k == 0) ≡ false = ground arith in
    rw some_width (
      ap length (
        chars-collect (take n (drop s i.chars))
          (All-take IsScalar n (drop s i.chars) (All-drop s i.chars v.scalars)))
      ∙ ground (arith, length-take n (drop s i.chars), length-drop s i.chars))
window_text k false i v =
    let n = end_of (suc k) i - start_of (suc k) i in
    let some_width : (suc k == 0) ≡ false = ground arith in
    rw some_width (
      ap length (chars-collect (replicate n bullet) (All-replicate n bullet (inl (omega arith))))
      ∙ length-replicate n bullet)

-- The part of a line that `window` shows: its slice is within the line, the column of the caret is
-- within the width and within the shown text or behind its last character, and no more characters are
-- shown than fit.
pub window_bounds :
    (width : ℕ) (shown : Bool) (i : Input)
    → IsLine i
    → 0 < width
    → (start_of width i ≤ end_of width i)
      × (end_of width i ≤ length i.chars)
      × ((Line.window width shown i).1 < width)
      × ((Line.window width shown i).1 ≤ length (chars (Line.window width shown i).0))
      × (length (chars (Line.window width shown i).0) ≤ width)
unfolding Line.window
window_bounds zero shown i v w = absurd (omega arith)
window_bounds (suc k) shown i v w =
    let within = v.within in
    let size = window_text k shown i v in
    (ground arith, ground arith, ground arith, rw size (ground arith), rw size (ground arith))
