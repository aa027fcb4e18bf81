-- ===== src/Client/Form.antt =====
-- src/tui/form.rs: a line of typed text, and the forms that the screens show. A `char` is its number.
-- Wiping a dropped `Input` has no result.
pub mod Line
pub mod Lines
pub mod Bounds
pub mod Editing
mod Tests
use secd.Base.{
  ℕ, zero, suc, ◌+◌, ◌-◌, ◌%◌, Bool, true, false, not, Option, none, some, List, [], ◌∷◌, ◌++◌, map,
  length, get_elem?, drop, ltb, if◌then◌else◌,
}
use secd.Base.Text.{Str, codes, str_eq, is_empty}
use secd.Base.Utf8.{chars}
use secd.Core.Provider.{Field, value_of}
use secd.Client.Form.Line
use secd.Client.Form.Line.{Input}

pub data FieldTag : Type 0 where
  required optional plain : FieldTag

pub record FormField : Type 0 where
  pub key : Str
  pub hint : Str
  pub tag : FieldTag
  pub env : Str
  pub secret : Bool
  pub input : Input
  pub shown : Bool

pub record Form : Type 0 where
  pub provider : Option Str
  pub title : Str
  pub fields : List FormField
  pub focus : ℕ
  pub error : Option Str
  pub editing : Option Str

-- `Schema` of src/policy.rs, which the forms are made from.
pub record Schema : Type 0 where
  pub name : Str
  pub title : Str
  pub builtin : Bool
  pub fields : List Field

unfoldable pub name_field : Str → Str → FormField
name_field name hint = record {
  key = codes "name";
  hint = hint;
  tag = plain;
  env = [];
  secret = false;
  input = Line.from_text name;
  shown = true;
}

unfoldable pub single : Str → Str → Form
unfolding name_field
single name value = record {
  provider = none;
  title = codes "add";
  fields =
      name_field name (codes "path/name")
      ∷ record {
        key = codes "value";
        hint = [];
        tag = plain;
        env = [];
        secret = true;
        input = Line.from_text value;
        shown = false;
      }
      ∷ [];
  focus = 0;
  error = none;
  editing = none;
}

-- The row of one field of a schema.
unfoldable pub schema_field : List (Str × Str) → Field → FormField
schema_field values f = record {
  key = f.key;
  hint = [];
  tag = if f.optional then optional else required;
  env = f.env;
  secret = f.secret;
  input = Line.from_text (value_of f.key values);
  shown = false;
}

unfoldable pub schema : Schema → Str → List (Str × Str) → Form
unfolding name_field schema_field
schema s name values = record {
  provider = some s.name;
  title = s.title;
  fields = name_field name (codes "prod/" ++ s.name) ∷ map (schema_field values) s.fields;
  focus = 0;
  error = none;
  editing = none;
}

abbrev first_text : List FormField → Str
first_text [] = []
first_text (f ∷ _) = Line.text f.input

unfoldable pub name_text : Form → Str
name_text form = first_text form.fields

abbrev pair_of : FormField → Str × Str
pair_of f = (f.key, Line.text f.input)

unfoldable pub value_pairs : Form → List (Str × Str)
value_pairs form = map pair_of (drop 1 form.fields)

unfoldable pub focus_next : Form → Form
focus_next form =
    if is_empty form.fields
    then form
    else record form { focus = (form.focus + 1) % length form.fields }

unfoldable pub focus_prev : Form → Form
focus_prev form =
    if is_empty form.fields
    then form
    else record form { focus = (form.focus + length form.fields - 1) % length form.fields }

unfoldable pub focus_at : ℕ → Form → Form
focus_at i form = if ltb i (length form.fields) then record form { focus = i } else form

unfoldable pub focus_first : Form → Form
focus_first form = record form { focus = 0 }

unfoldable pub focus_last : Form → Form
focus_last form = record form { focus = length form.fields - 1 }

-- `if let Some(f) = fields.get_mut(i)`: an index past the end changes nothing.
unfoldable pub modify {ℓ} : {A : Type ℓ} → (A → A) → ℕ → List A → List A
modify f i [] = []
modify f zero (x ∷ xs) = f x ∷ xs
modify f (suc i) (x ∷ xs) = x ∷ modify f i xs

abbrev flip_shown : FormField → FormField
flip_shown f = if f.secret then record f { shown = not f.shown } else f

unfoldable pub toggle_shown_at : ℕ → Form → Form
unfolding modify
toggle_shown_at i form = record form { fields = modify flip_shown i form.fields }

unfoldable pub toggle_shown : Form → Form
unfolding toggle_shown_at
toggle_shown form = toggle_shown_at form.focus form

abbrev pub on_field : (Input → Input) → FormField → FormField
on_field f field = record field { input = f field.input }

-- Acts on the input in focus.
unfoldable pub on_input : (Input → Input) → Form → Form
unfolding modify
on_input f form = record form { fields = modify (on_field f) form.focus form.fields }

unfoldable pub insert : ℕ → Form → Form
unfolding on_input
insert c form = on_input (Line.insert c) (record form { error = none })

unfoldable pub backspace : Form → Form
unfolding on_input
backspace form = on_input Line.backspace (record form { error = none })

unfoldable pub delete : Form → Form
unfolding on_input
delete form = on_input Line.delete (record form { error = none })

unfoldable pub caret_left : Form → Form
unfolding on_input
caret_left form = on_input Line.left form

unfoldable pub caret_right : Form → Form
unfolding on_input
caret_right form = on_input Line.right form

unfoldable pub caret_home : Form → Form
unfolding on_input
caret_home form = on_input Line.home form

unfoldable pub caret_end : Form → Form
unfolding on_input
caret_end form = on_input Line.end form

-- `iter().map(..).max().unwrap_or(0)`
abbrev max_of : List ℕ → ℕ
max_of [] = 0
max_of (n ∷ ns) = let m = max_of ns in if ltb n m then m else n

-- `u16::try_from(n).unwrap_or(u16::MAX)`
abbrev to_u16 : ℕ → ℕ
to_u16 n = if ltb n 65536 then n else 65535

unfoldable pub widths : Form → ℕ × ℕ
widths form = (
  to_u16 (max_of (map (λ (f : FormField). length (chars f.key)) form.fields)),
  to_u16 (max_of (map (λ (f : FormField). length (chars f.env)) form.fields)),
)
