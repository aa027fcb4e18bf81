-- ===== src/Client/Form/Tests.antt =====
-- The theorems of src/tui/form.rs at a form that adds the entry `DB` with the value `pw`.
use secd.Base.{◌≤◌, ◌<◌, inl, true, List, [], ◌∷◌, length, arith}
use secd.Base.Text.{codes}
use secd.Base.Utf8.{chars}
use secd.Client.Form.{Form, single}
use secd.Client.Form.Line
use secd.Client.Form.Line.{Input, start_of, end_of}
use secd.Client.Form.Lines.{from_text-IsLine}
use secd.Client.Form.Bounds.{
  IsForm, Edit, edits, edits-IsForm, single-IsForm, typed, tabbed, backspaced, clicked,
}
use secd.Client.Form.Editing.{window_bounds}

abbrev form : Form
form = single (codes "DB") (codes "pw")

abbrev keys : List Edit
keys = clicked 1 ∷ typed b'x' (inl (omega arith)) ∷ tabbed ∷ backspaced ∷ []

edits-IsForm_example : IsForm (edits keys form)
edits-IsForm_example = edits-IsForm keys form (single-IsForm (codes "DB") (codes "pw"))

abbrev line : Input
line = Line.from_text (codes "pw")

window_bounds_example :
    (start_of 2 line ≤ end_of 2 line)
    × (end_of 2 line ≤ length line.chars)
    × ((Line.window 2 true line).1 < 2)
    × ((Line.window 2 true line).1 ≤ length (chars (Line.window 2 true line).0))
    × (length (chars (Line.window 2 true line).0) ≤ 2)
window_bounds_example = window_bounds 2 true line (from_text-IsLine (codes "pw")) (omega arith)
