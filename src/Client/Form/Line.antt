-- ===== src/Client/Form/Line.antt =====
-- `Input` of src/tui/form.rs: the characters of a line and a caret between them.
use secd.Base.{
  ℕ, ◌+◌, ◌-◌, Bool, List, [], ◌∷◌, ◌++◌, length, take, drop, replicate, ltb, ◌==◌, if◌then◌else◌,
}
use secd.Base.Text.{Str}
use secd.Base.Utf8.{collect, chars}

pub record Input : Type 0 where
  pub chars : List ℕ
  pub caret : ℕ

unfoldable pub from_text : Str → Input
from_text s = record { chars = chars s; caret = length (chars s) }

unfoldable pub text : Input → Str
text input = collect input.chars

-- `Vec::insert` and `Vec::remove`; they panic past the end, where these append and change nothing.
abbrev pub insert_at : ℕ → ℕ → List ℕ → List ℕ
insert_at i c cs = take i cs ++ c ∷ drop i cs

abbrev pub remove_at : ℕ → List ℕ → List ℕ
remove_at i cs = take i cs ++ drop (i + 1) cs

unfoldable pub insert : ℕ → Input → Input
insert c input = record { chars = insert_at input.caret c input.chars; caret = input.caret + 1 }

unfoldable pub backspace : Input → Input
backspace input =
    let caret = input.caret - 1 in
    if input.caret == 0
    then input
    else record { chars = remove_at caret input.chars; caret = caret }

unfoldable pub delete : Input → Input
delete input =
    if ltb input.caret (length input.chars)
    then record input { chars = remove_at input.caret input.chars }
    else input

unfoldable pub left : Input → Input
left input = record input { caret = input.caret - 1 }

-- `usize::MAX` is out of reach of a caret in a list.
unfoldable pub right : Input → Input
right input =
    let past = input.caret + 1 in
    record input { caret = if ltb (length input.chars) past then length input.chars else past }

unfoldable pub home : Input → Input
home input = record input { caret = 0 }

unfoldable pub end : Input → Input
end input = record input { caret = length input.chars }

-- U+2022
abbrev pub bullet : ℕ
bullet = 0x2022

-- The bounds of the slice that `window` shows, for a width that is not 0. The slice panics unless
-- `start <= end` and `end <= len`.
abbrev pub start_of : ℕ → Input → ℕ
start_of width input = input.caret + 1 - width

abbrev pub end_of : ℕ → Input → ℕ
end_of width input =
    let stop = start_of width input + width in
    if ltb (length input.chars) stop then length input.chars else stop

unfoldable pub window : ℕ → Bool → Input → Str × ℕ
window width shown input =
    let start = start_of width input in
    let stop = end_of width input in
    let text =
      if shown
      then collect (take (stop - start) (drop start input.chars))
      else collect (replicate (stop - start) bullet) in
    if width == 0 then ([], 0) else (text, input.caret - start)
