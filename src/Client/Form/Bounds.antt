-- ===== src/Client/Form/Bounds.antt =====
-- The focus of a form stands on a row and each caret in its text, whatever is typed: no index of
-- form.rs is past its end.
use secd.Base.{
  ℕ, zero, suc, ◌-◌, ◌<◌, ◌≡◌, refl, ap, inl, inr, none, List, [], ◌∷◌, map, length, All, arith,
  ltb, Bool-cases,
}
use secd.Base.Text.{Str, is_empty}
use secd.Base.Utf8.{IsScalar}
use secd.Core.Provider.{Field}
use secd.Client.Form.{
  FormField, Form, Schema, single, schema, schema_field, modify, on_field, on_input, flip_shown,
  focus_next, focus_prev, focus_at, focus_first, focus_last, toggle_shown_at, toggle_shown, insert,
  backspace, delete, caret_left, caret_right, caret_home, caret_end,
}
use secd.Client.Form.Line
use secd.Client.Form.Line.{Input}
use secd.Client.Form.Lines.{
  IsLine, insert-IsLine, backspace-IsLine, delete-IsLine, left-IsLine, right-IsLine, home-IsLine,
  end-IsLine, from_text-IsLine,
}

pub record IsForm (form : Form) : Type 0 where
  pub focused : form.focus < length form.fields
  pub lines : All (λ (f : FormField). IsLine f.input) form.fields

-- A keystroke or a click that a form handles; a character that the terminal reads is a scalar value.
pub data Edit : Type 0 where
  typed : (c : ℕ) → IsScalar c → Edit
  backspaced deleted went_left went_right went_home went_end : Edit
  tabbed back_tabbed paged_up paged_down revealed : Edit
  clicked eye_clicked : ℕ → Edit

abbrev pub edit : Edit → Form → Form
edit (typed c _) form = insert c form
edit backspaced form = backspace form
edit deleted form = delete form
edit went_left form = caret_left form
edit went_right form = caret_right form
edit went_home form = caret_home form
edit went_end form = caret_end form
edit tabbed form = focus_next form
edit back_tabbed form = focus_prev form
edit paged_up form = focus_first form
edit paged_down form = focus_last form
edit revealed form = toggle_shown form
edit (clicked i) form = focus_at i form
edit (eye_clicked i) form = toggle_shown_at i form

abbrev pub edits : List Edit → Form → Form
edits [] form = form
edits (e ∷ es) form = edits es (edit e form)

length-modify :
    (f : FormField → FormField) (i : ℕ) (fs : List FormField) → length (modify f i fs) ≡ length fs
unfolding modify
length-modify f i [] = refl
length-modify f zero (x ∷ xs) = refl
length-modify f (suc i) (x ∷ xs) = ap suc (length-modify f i xs)

abbrev Lines : List FormField → Type 0
Lines = All (λ (f : FormField). IsLine f.input)

modify-Lines :
    (f : FormField → FormField)
    → ((x : FormField) → IsLine x.input → IsLine (f x).input)
    → (i : ℕ) (fs : List FormField) → Lines fs
    → Lines (modify f i fs)
unfolding modify
modify-Lines f k i [] h = tt
modify-Lines f k zero (x ∷ xs) (v, h) = (k x v, h)
modify-Lines f k (suc i) (x ∷ xs) (v, h) = (v, modify-Lines f k i xs h)

module _ {form : Form} (v : IsForm form) where
  on_input-IsForm :
      (f : Input → Input) → ((i : Input) → IsLine i → IsLine (f i)) → IsForm (on_input f form)
  unfolding on_input
  on_input-IsForm f k = record {
    focused = let w = v.focused in omega (arith, length-modify (on_field f) form.focus form.fields);
    lines = modify-Lines (on_field f) (λ x. k x.input) form.focus form.fields v.lines;
  }

  toggle-IsForm : (i : ℕ) → IsForm (toggle_shown_at i form)
  unfolding toggle_shown_at
  toggle-IsForm i = record {
    focused = let w = v.focused in omega (arith, length-modify flip_shown i form.fields);
    lines = modify-Lines flip_shown (λ x h. flipped x h) i form.fields v.lines;
  }
    where
      flipped : (x : FormField) → IsLine x.input → IsLine (flip_shown x).input
      flipped x h = elim (Bool-cases x.secret) [ inl e ↦ rw e h | inr e ↦ rw e h ]

  -- A focus that the operation computes on some row of the form.
  focus-IsForm : (i : ℕ) → i < length form.fields → IsForm (record form { focus = i })
  focus-IsForm i h = record { focused = h; lines = v.lines }

  error-IsForm : IsForm (record form { error = none })
  error-IsForm = record { focused = v.focused; lines = v.lines }

  rows : 0 < length form.fields
  rows = let w = v.focused in omega arith

pub edit-IsForm : (e : Edit) (form : Form) → IsForm form → IsForm (edit e form)
unfolding insert backspace delete caret_left caret_right caret_home caret_end toggle_shown
    focus_first focus_last focus_at focus_next focus_prev
edit-IsForm (typed c s) form v =
    on_input-IsForm (error-IsForm v) (Line.insert c) (λ i h. insert-IsLine h c s)
edit-IsForm backspaced form v =
    on_input-IsForm (error-IsForm v) Line.backspace (λ i h. backspace-IsLine h)
edit-IsForm deleted form v = on_input-IsForm (error-IsForm v) Line.delete (λ i h. delete-IsLine h)
edit-IsForm went_left form v = on_input-IsForm v Line.left (λ i h. left-IsLine h)
edit-IsForm went_right form v = on_input-IsForm v Line.right (λ i h. right-IsLine h)
edit-IsForm went_home form v = on_input-IsForm v Line.home (λ i h. home-IsLine h)
edit-IsForm went_end form v = on_input-IsForm v Line.end (λ i h. end-IsLine h)
edit-IsForm tabbed form v = elim (Bool-cases (is_empty form.fields)) [
  | inl e ↦ rw e v
  | inr e ↦ rw e (focus-IsForm v _ (let w = rows v in grind arith))
]
edit-IsForm back_tabbed form v = elim (Bool-cases (is_empty form.fields)) [
  | inl e ↦ rw e v
  | inr e ↦ rw e (focus-IsForm v _ (let w = rows v in grind arith))
]
edit-IsForm paged_up form v = focus-IsForm v 0 (rows v)
edit-IsForm paged_down form v =
    focus-IsForm v (length form.fields - 1) (let w = rows v in omega arith)
edit-IsForm revealed form v = toggle-IsForm v form.focus
edit-IsForm (clicked i) form v = elim (Bool-cases (ltb i (length form.fields))) [
  | inl e ↦ rw e (focus-IsForm v i (ground arith))
  | inr e ↦ rw e v
]
edit-IsForm (eye_clicked i) form v = toggle-IsForm v i

pub edits-IsForm : (es : List Edit) (form : Form) → IsForm form → IsForm (edits es form)
edits-IsForm [] form v = v
edits-IsForm (e ∷ es) form v = edits-IsForm es (edit e form) (edit-IsForm e form v)

pub single-IsForm : (name value : Str) → IsForm (single name value)
unfolding single
single-IsForm name value = record {
  focused = omega arith;
  lines = (from_text-IsLine name, (from_text-IsLine value, tt));
}

schema-Lines : (values : List (Str × Str)) (fs : List Field) → Lines (map (schema_field values) fs)
unfolding schema_field
schema-Lines values [] = tt
schema-Lines values (f ∷ fs) = (from_text-IsLine _, schema-Lines values fs)

pub schema-IsForm :
    (s : Schema) (name : Str) (values : List (Str × Str)) → IsForm (schema s name values)
unfolding schema
schema-IsForm s name values = record {
  focused = omega arith;
  lines = (from_text-IsLine name, schema-Lines values s.fields);
}
