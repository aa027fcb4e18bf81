-- ===== src/Client/Register/Events.antt =====
-- src/tui/model.rs: what each event does to the register.
pub mod Keys
unfoldable pub use Keys.{
  sync, refilter, on_backspace, select_next, select_prev, clear_filter, selected_at, close_bundle,
  open_row, open_selected, esc_idle, on_esc, on_up, on_down, on_home, on_end, on_page, on_reveal,
  edit_text, edit_name, edit_row, begin_edit, copy_selected, expire_clipboard,
}
use secd.Base.{
  ℕ, ◌+◌, ◌-◌, Bool, true, false, not, ◌&&◌, ◌||◌, Option, none, some, [], ◌++◌, length, ltb,
  if◌then◌else◌,
}
use secd.Base.Text.{Str, codes, is_empty}
use secd.Base.Utf8.{push_char, pop_char}
use secd.Client.Form
use secd.Client.Form.{Form, Schema}
use secd.Client.Tree.{Row, descends}
use secd.Client.View.{Spot, spot_at, hit_key, row, field, choice, save, cancel}
use secd.Client.Remote.{Host}
use secd.Client.Register.{
  Model, Mode, Event, idle, modal, add, pick, provider, delete, page, note, selected_row, rebuild,
  position, smaller,
}
use secd.Client.Register.Detail.{plaintext, bundle_of, sync_detail, is_one_value, copied_text}
use secd.Client.Register.Commit.{commit_single, commit_provider, commit_delete}
use secd.Client.Register.Writes.{refuse_if_blocked}
use secd.Client.Register.Begin.{
  Command, begin_add, begin_delete, begin_filter, begin_pick, clock_of, command_of, edit_fused,
  edited, form_for, form_mode, is_idle, last_of, no_text, on_form, on_modal, open_schema_form,
  pick_at, pick_type_ahead, selected_name, unless_blocked, adding, picking, editing, revealing,
  copying, deleting, quitting, going_down, going_up, searching, asking, nothing,
}

module _ (h : Host) where
  open h use {World}

  -- A letter where no modal is open and no filter is typed.
  unfoldable pub command : Command → Model → World → Model × World
  unfolding begin_add begin_pick begin_edit copy_selected begin_delete select_next select_prev
      begin_filter
  command adding m w = (begin_add m, w)
  command picking m w = (begin_pick m, w)
  command editing m w = (begin_edit h m, w)
  command revealing m w = (record m { reveal_all = not m.reveal_all }, w)
  command copying m w = copy_selected h m w
  command deleting m w = (begin_delete m, w)
  command quitting m w = (record m { quit = true }, w)
  command going_down m w = (select_next h m, w)
  command going_up m w = (select_prev h m, w)
  command searching m w = (begin_filter m, w)
  command asking m w = (record m { helping = not m.helping }, w)
  command nothing m w = (m, w)

  abbrev pub char_in : Mode → ℕ → Model → World → Model × World
  char_in idle c m w = command (command_of c) m w
  char_in (modal (pick _)) c m w = (pick_type_ahead c m, w)
  char_in (modal (add form)) c m w = (record m { mode = modal (add (Form.insert c form)) }, w)
  char_in (modal (provider form)) c m w =
      (record m { mode = modal (provider (Form.insert c form)) }, w)
  char_in (modal (delete _ _)) c m w = (m, w)

  unfoldable pub on_char : ℕ → Model → World → Model × World
  unfolding command command_of pick_type_ahead refilter
  on_char c m w =
      if is_idle m.mode && m.filtering
      then (refilter h (push_char m.filter c) m, w)
      else char_in m.mode c m w

  abbrev pub enter_in : Mode → Model → World → Model × World
  enter_in idle m w = (open_selected h m, w)
  enter_in (modal (add form)) m w = commit_single h form m w
  enter_in (modal (provider form)) m w = commit_provider h form m w
  enter_in (modal (pick i)) m w = (open_schema_form i m, w)
  enter_in (modal (delete _ names)) m w = commit_delete h names m w

  unfoldable pub on_enter : Model → World → Model × World
  unfolding open_selected open_schema_form commit_single commit_provider commit_delete
  on_enter m w =
      if m.filtering
      then (record m { filtering = false }, w)
      else enter_in m.mode (record m { mode = idle }) w

  unfoldable pub on_spot : Spot → Model → World → Model × World
  unfolding on_form on_enter open_schema_form
  on_spot (row i) m w =
      if is_idle m.mode && ltb i (length m.rows)
      then (sync h (record m { selected = i }), w)
      else (m, w)
  on_spot (field i) m w = (on_form (Form.focus_at i) m, w)
  on_spot (Spot.reveal i) m w =
      (on_form (λ form. Form.toggle_shown_at i (Form.focus_at i form)) m, w)
  on_spot (choice i) m w = (open_schema_form i (record m { mode = pick_at (some i) m.mode }), w)
  on_spot save m w = on_enter m w
  on_spot cancel m w = (record m { mode = idle }, w)

  abbrev pub on_hit : Option ℕ → Model → World → Model × World
  on_hit none m w = (m, w)
  on_hit (some k) m w = on_char k m w

  abbrev pub clicked_at : Option Spot → Option ℕ → Model → World → Model × World
  clicked_at (some spot) hit m w = on_spot spot m w
  clicked_at none hit m w = if is_idle m.mode then on_hit hit m w else (m, w)

  unfoldable pub on_click : ℕ → ℕ → Model → World → Model × World
  unfolding spot_at hit_key on_spot on_char
  on_click column line m w =
      clicked_at (spot_at m.spots column line) (hit_key m.hits column line) m w

  unfoldable pub handle : Event → Model → World → Model × World
  unfolding on_click on_esc on_enter on_up on_down on_form on_home on_end on_backspace on_page
      on_reveal on_char expire_clipboard
  handle (Event.click column line) m w = on_click column line m w
  handle Event.quit m w = (record m { quit = true }, w)
  handle Event.esc m w = (on_esc h m, w)
  handle Event.enter m w = on_enter m w
  handle Event.up m w = (on_up h m, w)
  handle Event.down m w = (on_down h m, w)
  handle Event.left m w = (on_form Form.caret_left m, w)
  handle Event.right m w = (on_form Form.caret_right m, w)
  handle Event.home m w = (on_home h m, w)
  handle Event.end m w = (on_end h m, w)
  handle Event.backspace m w = (on_backspace h m, w)
  handle Event.delete m w = (on_form Form.delete m, w)
  handle Event.tab m w = (on_form Form.focus_next m, w)
  handle Event.back_tab m w = (on_form Form.focus_prev m, w)
  handle Event.page_up m w = (on_page h false m, w)
  handle Event.page_down m w = (on_page h true m, w)
  handle Event.reveal m w = (on_reveal h m, w)
  handle (Event.key c) m w = on_char c m w
  handle Event.tick m w = expire_clipboard h m w
  handle Event.resize m w = expire_clipboard h m w
