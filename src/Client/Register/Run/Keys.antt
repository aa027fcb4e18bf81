-- ===== src/Client/Register/Run/Keys.antt =====
-- src/tui/model.rs: the keys that need no save are runs.
use secd.Base.{
  ℕ, ◌≤◌, Bool, true, false, not, ◌&&◌, ◌||◌, ◌≡◌, inl, inr, Option, none, some, List, [], arith,
  if◌then◌else◌, Bool-cases,
}
use secd.Base.Text.{Str, is_empty}
use secd.Base.Utf8.{pop_char}
use secd.Client.Form
use secd.Client.Form.{Form, Schema}
use secd.Client.Form.Bounds.{Edit}
use secd.Client.Tree.{Row, descends}
use secd.Client.Remote.{Host}
use secd.Client.Register.{
  Model, Mode, idle, modal, add, pick, provider, delete, selected_row, smaller,
}
use secd.Client.Register.Writes
use secd.Client.Register.Begin
use secd.Client.Register.Begin.{
  Command, adding, picking, editing, revealing, copying, deleting, quitting, going_down, going_up,
  searching, asking, nothing,
}
use secd.Client.Register.Events
use secd.Client.Register.Detail.{copied_text}
use secd.Client.Register.Run.{
  FormLaws, InForm, InPlace, AtStart, Run, noted, flagged, revealed, shown, selected, listed,
  closed, copied,
}

pub smaller_le : (a b : ℕ) → smaller a b ≤ b
smaller_le a b = ground arith

module _ (Ok : Form → Type 0) where
  pub pick_at-InForm : (o : Option ℕ) (md : Mode) → InForm Ok md → InForm Ok (Begin.pick_at o md)
  pick_at-InForm none idle v = v
  pick_at-InForm none (modal md) v = v
  pick_at-InForm (some i) idle v = v
  pick_at-InForm (some i) (modal (add form)) v = v
  pick_at-InForm (some i) (modal (pick j)) v = tt
  pick_at-InForm (some i) (modal (provider form)) v = v
  pick_at-InForm (some i) (modal (delete l ns)) v = v

  pub on_form_of-InForm :
      (f : Form → Form)
      → ((form : Form) → Ok form → Ok (f form))
      → (md : Mode) → InForm Ok md
      → InForm Ok (Begin.on_form_of f md)
  on_form_of-InForm f k idle v = v
  on_form_of-InForm f k (modal (add form)) v = k form v
  on_form_of-InForm f k (modal (pick i)) v = v
  on_form_of-InForm f k (modal (provider form)) v = k form v
  on_form_of-InForm f k (modal (delete l ns)) v = v

  pub on_modal-InForm :
      (move : ℕ → ℕ) (f : Form → Form)
      → ((form : Form) → Ok form → Ok (f form))
      → (md : Mode) → InForm Ok md
      → InForm Ok (Begin.on_modal move f md)
  on_modal-InForm move f k idle v = v
  on_modal-InForm move f k (modal (add form)) v = k form v
  on_modal-InForm move f k (modal (pick i)) v = v
  on_modal-InForm move f k (modal (provider form)) v = k form v
  on_modal-InForm move f k (modal (delete l ns)) v = v

  form_mode-InForm : (form : Form) → Ok form → InForm Ok (Begin.form_mode form)
  form_mode-InForm form v = by_provider form.provider
    where
      by_provider :
          (o : Option Str)
          → InForm Ok (elim o [ none ↦ modal (add form) | some _ ↦ modal (provider form) ])
      by_provider none = v
      by_provider (some x) = v

module _ (h : Host) (Ok : Form → Type 0) (Char : ℕ → Type 0) (laws : FormLaws Ok Char) (m0 : Model)
    (w0 : h.World) where
  open h use {World}

  abbrev pub From : Model → World → Type 0
  From = Run h Ok m0 w0

  pub either :
      {w : World} (b : Bool) (x y : Model) → From x w → From y w → From (if b then x else y) w
  either true x y p q = p
  either false x y p q = q

  pub opened_form-From :
      {w : World} (m : Model) (o : Option Schema) → From m w → From (Begin.opened_form m o) w
  opened_form-From m none r = r
  opened_form-From m (some s) r = shown r _ (laws.of_schema s [] [])

  pub on_form-From :
      {w : World} (f : Form → Form)
      → ((form : Form) → Ok form → Ok (f form))
      → (m : Model) → InForm Ok m.mode
      → From m w
      → From (Begin.on_form f m) w
  unfolding Begin.on_form
  on_form-From f k m v r = shown r _ (on_form_of-InForm Ok f k m.mode v)

  pub on_modal-From :
      {w : World} (move : ℕ → ℕ) (f : Form → Form)
      → ((form : Form) → Ok form → Ok (f form))
      → (m : Model) → InForm Ok m.mode
      → From m w
      → From (record m { mode = Begin.on_modal move f m.mode }) w
  on_modal-From move f k m v r = shown r _ (on_modal-InForm Ok move f k m.mode v)

  pub refilter-From : {w : World} (s : Str) (m : Model) → From m w → From (Events.refilter h s m) w
  unfolding Events.refilter
  refilter-From s m r = listed r _ m.inside s m.filtering

  pub on_backspace-From :
      {w : World} (m : Model) → InForm Ok m.mode → From m w → From (Events.on_backspace h m) w
  unfolding Events.on_backspace
  on_backspace-From m v r =
      either (Begin.is_idle m.mode && m.filtering) _ _ (refilter-From (pop_char m.filter) m r)
        (on_form-From Form.backspace (laws.of_edit Edit.backspaced) m v r)

  pub select_next-From : {w : World} (m : Model) → From m w → From (Events.select_next h m) w
  unfolding Events.select_next
  select_next-From m r = either (is_empty m.rows) _ _ r (selected r _ (inl (smaller_le _ _)))

  pub select_prev-From : {w : World} (m : Model) → From m w → From (Events.select_prev h m) w
  unfolding Events.select_prev
  select_prev-From m r = selected r _ (inr (omega arith))

  pub esc_idle-From : {w : World} (m : Model) → From m w → From (Events.esc_idle h m) w
  unfolding Events.clear_filter
  esc_idle-From m r = either m.helping _ _ (flagged r m.quit false m.filtering) (
      either (m.filtering || not (is_empty m.filter)) _ _
        (listed r (Begin.selected_name m) m.inside [] false)
        (either (not (is_empty m.inside)) _ _ (closed r) (flagged r true m.helping m.filtering)))

  pub open_row-From :
      {w : World} (m : Model) (o : Option Row)
      → InPlace m0 m
      → From m w
      → From (Events.open_row h m o) w
  open_row-From m none p r = r
  open_row-From m (some row) p r =
      either (not (descends row)) _ _ (revealed r p) (listed r none row.label [] false)

  refused-From :
      {w : World} (o : Option Str) (m : Model) (f : Model → Model)
      → From m w
      → From (f m) w
      → From (Begin.unless_blocked (Writes.refuse_note o m) f) w
  refused-From none m f r s = s
  refused-From (some why) m f r s = noted r _

  edit_pairs-From :
      {w : World} (row : Row) (m : Model) (s : Schema) (o : Option (List (Str × Str)))
      → From m w
      → From (Begin.edit_pairs row m s o) w
  edit_pairs-From row m s none r = noted r _
  edit_pairs-From row m s (some pairs) r =
      shown r _ (laws.of_edited row.label _ (laws.of_schema s row.label pairs))

  edit_fused_with-From :
      {w : World} (row : Row) (m : Model) (o : Option Schema)
      → From m w
      → From (Begin.edit_fused_with row m o) w
  edit_fused_with-From row m none r = noted r _
  edit_fused_with-From row m (some s) r = edit_pairs-From row m s _ r

  form_for-Ok :
      (name text : Str) (o : Option (Schema × List (Str × Str))) → Ok (Begin.form_for name text o)
  form_for-Ok name text none = laws.of_single name text
  form_for-Ok name text (some (s, pairs)) = laws.of_schema s name pairs

  edit_text-From :
      {w : World} (m : Model) (name : Str) (o : Option Str)
      → From m w
      → From (Events.edit_text h m name o) w
  edit_text-From m name none r = noted r _
  edit_text-From m name (some text) r =
      shown r _ (form_mode-InForm Ok _ (laws.of_edited name _ (form_for-Ok name text _)))

  edit_name-From :
      {w : World} (m : Model) (o : Option Str) → From m w → From (Events.edit_name h m o) w
  edit_name-From m none r = r
  edit_name-From m (some name) r = edit_text-From m name _ r

  edit_row-From :
      {w : World} (m : Model) (o : Option Row) → From m w → From (Events.edit_row h m o) w
  unfolding Begin.edit_fused
  edit_row-From m none r = noted r _
  edit_row-From m (some row) r =
      either (descends row) _ _ (edit_fused_with-From row m _ r) (edit_name-From m _ r)

  delete_row-From :
      {w : World} (m : Model) (o : Option Row) → From m w → From (Begin.delete_row m o) w
  delete_row-From m none r = noted r _
  delete_row-From m (some row) r = shown r (modal (delete row.label row.members)) tt

  pub copy_selected-From :
      (m : Model) (w : World)
      → w ≡ w0
      → From m w
      → From (Events.copy_selected h m w).0 (Events.copy_selected h m w).1
  unfolding Events.copy_selected
  copy_selected-From m w e0 r = elim (Bool-cases (is_empty m.detail)) [
    | inl e ↦ rw e (noted r _)
    | inr e ↦ rw e (noted (copied r e0 (copied_text m.detail) _) _)
  ]

  pub command-From :
      (c : Command) (m : Model) (w : World)
      → AtStart m0 w0 m w
      → From m w
      → From (Events.command h c m w).0 (Events.command h c m w).1
  unfolding Events.command Begin.begin_add Begin.begin_pick Events.begin_edit Begin.begin_delete
      Begin.begin_filter Writes.refuse_if_blocked
  command-From adding m w p r = refused-From m.save_blocked m _ r (shown r _ (laws.of_single [] []))
  command-From picking m w p r =
      refused-From m.save_blocked m _ r
        (either (is_empty m.schemas) _ _ (noted r _) (shown r (modal (pick 0)) tt))
  command-From editing m w p r =
      refused-From m.save_blocked m _ r (edit_row-From m (selected_row m) r)
  command-From revealing m w p r = revealed r p.0
  command-From copying m w p r = copy_selected-From m w p.1 r
  command-From deleting m w p r =
      refused-From m.save_blocked m _ r (delete_row-From m (selected_row m) r)
  command-From quitting m w p r = flagged r true m.helping m.filtering
  command-From going_down m w p r = select_next-From m r
  command-From going_up m w p r = select_prev-From m r
  command-From searching m w p r = flagged r m.quit false true
  command-From asking m w p r = flagged r m.quit (not m.helping) m.filtering
  command-From nothing m w p r = r
