-- ===== src/Client/Register/Writes.antt =====
-- src/tui/model.rs: the rows and names of a save, and what refuses it.
use secd.Base.{
  ℕ, Bool, true, false, not, ◌&&◌, ◌||◌, Option, none, some, List, [], ◌∷◌, ◌++◌, any, ◌==◌,
  if◌then◌else◌,
}
use secd.Base.Text.{Str, codes, str_eq, starts_with}
use secd.Base.Map.{Map, lookup, insert, remove}
use secd.Base.Ordered.{has}
use secd.Base.Json.{Value}
use secd.Core.Aead.{Secret}
use secd.Client.Form.{Form}
use secd.Client.Bundles.{Row}
use secd.Client.Tree.{owner_of}
use secd.Client.Register.{Model, Modal, modal, add, provider, note}
use secd.Client.Register.Load.{cons_row, held_row}
use secd.Client.Register.Load.{held_row, cons_row}

unfoldable pub find_write : Str → List Row → Option Row
find_write n [] = none
find_write n (w ∷ ws) = let rest = find_write n ws in if str_eq w.name n then some w else rest

abbrev pub write_or : Option Row → Option Row → Option Row
write_or none held = held
write_or (some w) held = some w

-- The rows of a save: what is written, or what the register holds.
unfoldable pub save_list : Model → List Row → List Str → List Row
unfolding find_write
save_list m writes [] = []
save_list m writes (n ∷ ns) =
    cons_row (write_or (find_write n writes) (held_row m n (lookup n m.values)))
      (save_list m writes ns)

-- `names.iter().filter(|n| !gone.contains(n))`
unfoldable pub without : List Str → List Str → List Str
without gone [] = []
without gone (n ∷ ns) = let rest = without gone ns in if has n gone then rest else n ∷ rest

unfoldable pub with_writes : List Row → List Str → List Str
with_writes [] names = names
with_writes (w ∷ ws) names =
    with_writes ws (if has w.name names then names else names ++ w.name ∷ [])

unfoldable pub remove_all {ℓ} : {A : Type ℓ} → List Str → Map A → Map A
remove_all [] m = m
remove_all (n ∷ ns) m = remove_all ns (remove n m)

unfoldable pub insert_values : List Row → Map Secret → Map Secret
insert_values [] m = m
insert_values (w ∷ ws) m = insert_values ws (insert w.name w.value m)

unfoldable pub insert_metas : List Row → Map Value → Map Value
insert_metas [] m = m
insert_metas (w ∷ ws) m = insert_metas ws (insert w.name w.meta m)

unfoldable pub entry_word : ℕ → Str
entry_word n = if n == 1 then codes "entry" else codes "entries"

abbrev pub refused : Str → Str
refused why = codes "save refused: " ++ why

abbrev pub refuse_note : Option Str → Model → Bool × Model
refuse_note none m = (false, m)
refuse_note (some why) m = (true, note (refused why) m)

unfoldable pub refuse_if_blocked : Model → Bool × Model
refuse_if_blocked m = refuse_note m.save_blocked m

unfoldable pub members_of : Str → Model → List Str → List Str
members_of prefix m [] = []
members_of prefix m (n ∷ ns) =
    let rest = members_of prefix m ns in
    elim (owner_of n m.index) [ none ↦ rest | some p ↦ if str_eq p prefix then n ∷ rest else rest ]

abbrev pub takes : Str → List Str → Str → Bool
takes name mine n = str_eq n name || (starts_with (name ++ b'/' ∷ []) n && not (has n mine))

unfoldable pub rename_collision : Form → Str → Model → Option Str
unfolding members_of
rename_collision form name m = elim form.editing [
  | none ↦ none
  | some old ↦
      if str_eq old name
      then none
      else if any (takes name (members_of old m m.names)) m.names
      then some (name ++ codes " already exists")
      else none
]

abbrev pub with_error : Str → Modal → Modal
with_error why (add form) = add (record form { error = some why })
with_error why (provider form) = provider (record form { error = some why })
with_error why other = other

unfoldable pub form_refuse : Modal → Str → Model → Model
form_refuse md why m = record (note why m) { mode = modal (with_error why md) }
