-- ===== src/Client/Register/Begin.antt =====
-- src/tui/model.rs: what the keys begin without the world: filters, modals and forms.
use secd.Base.{
  ℕ, suc, ◌-◌, Bool, true, false, ◌||◌, Option, none, some, List, [], ◌∷◌, length, get_elem?, leb,
  ◌==◌, if◌then◌else◌,
}
use secd.Base.Text.{Str, codes, is_empty, lower_byte}
use secd.Base.Utf8.{chars}
use secd.Client.Form
use secd.Client.Form.{Form, Schema}
use secd.Client.Tree.{Row, sole}
use secd.Client.Register.{
  Model, Mode, idle, modal, add, pick, provider, delete, clip_ttl, note, selected_row,
}
use secd.Client.Register.Detail.{plaintext, schema_named, leaf}
use secd.Client.Register.Writes.{refuse_if_blocked}

abbrev pub is_idle : Mode → Bool
is_idle idle = true
is_idle (modal _) = false

abbrev pub on_form_of : (Form → Form) → Mode → Mode
on_form_of f (modal (add form)) = modal (add (f form))
on_form_of f (modal (provider form)) = modal (provider (f form))
on_form_of f md = md

unfoldable pub on_form : (Form → Form) → Model → Model
on_form f m = record m { mode = on_form_of f m.mode }

unfoldable pub begin_filter : Model → Model
begin_filter m = record m { filtering = true; helping = false }

abbrev pub only_name : Option Row → Option Str
only_name none = none
only_name (some r) = sole r

unfoldable pub selected_name : Model → Option Str
unfolding selected_row
selected_name m = only_name (selected_row m)

-- The smaller of two, for a list that may be empty.
abbrev pub last_of {ℓ} : {A : Type ℓ} → List A → ℕ
last_of xs = length xs - 1

-- How the arrows, Home, End and the page keys act where no row is meant: on the picker by its selected
-- schema, on a form by its focus or caret.
abbrev pub on_modal : (ℕ → ℕ) → (Form → Form) → Mode → Mode
on_modal move f idle = idle
on_modal move f (modal (pick i)) = modal (pick (move i))
on_modal move f (modal (add form)) = modal (add (f form))
on_modal move f (modal (provider form)) = modal (provider (f form))
on_modal move f (modal (delete label names)) = modal (delete label names)

-- `name.chars().next()` in lower case
abbrev first_is : ℕ → List ℕ → Bool
first_is want [] = false
first_is want (c ∷ _) = lower_byte c == want

abbrev one_more : Option ℕ → Option ℕ
one_more none = none
one_more (some n) = some (suc n)

unfoldable pub type_ahead : ℕ → List Schema → Option ℕ
type_ahead want [] = none
type_ahead want (s ∷ ss) =
    let rest = one_more (type_ahead want ss) in
    if first_is want (chars s.name) then some 0 else rest

abbrev pub pick_at : Option ℕ → Mode → Mode
pick_at (some i) (modal (pick _)) = modal (pick i)
pick_at _ md = md

unfoldable pub pick_type_ahead : ℕ → Model → Model
unfolding type_ahead
pick_type_ahead c m = record m { mode = pick_at (type_ahead (lower_byte c) m.schemas) m.mode }

abbrev pub opened_form : Model → Option Schema → Model
opened_form m none = m
opened_form m (some s) = record m { mode = modal (provider (Form.schema s [] [])) }

unfoldable pub open_schema_form : ℕ → Model → Model
open_schema_form i m = opened_form m (get_elem? m.schemas i)

abbrev pub unless_blocked : Bool × Model → (Model → Model) → Model
unless_blocked (true, m) f = m
unless_blocked (false, m) f = f m

unfoldable pub begin_add : Model → Model
unfolding refuse_if_blocked
begin_add m =
    unless_blocked (refuse_if_blocked m) λ m1. record m1 { mode = modal (add (Form.single [] [])) }

unfoldable pub begin_pick : Model → Model
unfolding refuse_if_blocked
begin_pick m = unless_blocked (refuse_if_blocked m) λ m1.
    if is_empty m1.schemas
    then note (codes "no provider schemas") m1
    else record m1 { mode = modal (pick 0) }

abbrev pub delete_row : Model → Option Row → Model
delete_row m none = note (codes "nothing selected") m
delete_row m (some r) = record m { mode = modal (delete r.label r.members) }

unfoldable pub begin_delete : Model → Model
unfolding refuse_if_blocked selected_row
begin_delete m = unless_blocked (refuse_if_blocked m) λ m1. delete_row m1 (selected_row m1)

abbrev pub edited : Str → Form → Form
edited name form = record form { title = codes "edit"; editing = some name }

abbrev pub no_text : Str
no_text = codes "binary value: edit is unavailable"

-- The fields of the members, unless one of them is no text.
unfoldable pub member_texts : Model → List Str → Option (List (Str × Str))
unfolding plaintext leaf
member_texts m [] = some []
member_texts m (n ∷ ns) =
    let rest = member_texts m ns in
    elim (plaintext n m) [
      | none ↦ none
      | some text ↦ elim rest [ none ↦ none | some pairs ↦ some ((leaf n, text) ∷ pairs) ]
    ]

abbrev pub edit_pairs : Row → Model → Schema → Option (List (Str × Str)) → Model
edit_pairs r m s none = note no_text m
edit_pairs r m s (some pairs) = record m {
  mode = modal (provider (edited r.label (Form.schema s r.label pairs)));
}

abbrev pub edit_fused_with : Row → Model → Option Schema → Model
edit_fused_with r m none = note (codes "no schema for this bundle: edit a field on its own") m
edit_fused_with r m (some s) = edit_pairs r m s (member_texts m r.members)

unfoldable pub edit_fused : Row → Model → Model
unfolding member_texts
edit_fused r m = edit_fused_with r m (schema_named r.provider m.schemas)

abbrev pub form_mode : Form → Mode
form_mode form = elim form.provider [ none ↦ modal (add form) | some _ ↦ modal (provider form) ]

abbrev pub form_for : Str → Str → Option (Schema × List (Str × Str)) → Form
form_for name text none = Form.single name text
form_for name text (some (s, pairs)) = Form.schema s name pairs

-- What a letter asks for; the letters of both cases but for `j` and `k`.
pub data Command : Type 0 where
  adding picking editing revealing copying deleting quitting : Command
  going_down going_up searching asking nothing : Command

abbrev is_key : ℕ → ℕ → ℕ → Bool
is_key a b c = c == a || c == b

unfoldable pub command_of : ℕ → Command
command_of c =
    if is_key b'a' b'A' c
    then adding
    else if is_key b'p' b'P' c
    then picking
    else if is_key b'e' b'E' c
    then editing
    else if is_key b'r' b'R' c
    then revealing
    else if is_key b'c' b'C' c
    then copying
    else if is_key b'd' b'D' c
    then deleting
    else if is_key b'q' b'Q' c
    then quitting
    else if c == b'j'
    then going_down
    else if c == b'k'
    then going_up
    else if c == b'/'
    then searching
    else if c == b'?'
    then asking
    else nothing

abbrev pub clock_of : Option ℕ → ℕ → Bool
clock_of none now = false
clock_of (some at) now = leb clip_ttl (now - at)
