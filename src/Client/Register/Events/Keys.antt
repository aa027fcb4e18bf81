-- ===== src/Client/Register/Events/Keys.antt =====
-- src/tui/model.rs: what the keys do to the register that need no save.
use secd.Base.{
  ℕ, ◌+◌, ◌-◌, Bool, true, false, not, ◌&&◌, ◌||◌, Option, none, some, [], ◌++◌, length,
  if◌then◌else◌,
}
use secd.Base.Text.{Str, codes, is_empty}
use secd.Base.Utf8.{pop_char}
use secd.Client.Form
use secd.Client.Form.{Form, Schema}
use secd.Client.Tree.{Row, descends}
use secd.Client.Remote.{Host}
use secd.Client.Register.{Model, idle, page, note, selected_row, rebuild, position, smaller}
use secd.Client.Register.Detail.{plaintext, bundle_of, sync_detail, is_one_value, copied_text}
use secd.Client.Register.Writes.{refuse_if_blocked}
use secd.Client.Register.Begin.{
  clock_of, edit_fused, edited, form_for, form_mode, is_idle, last_of, no_text, on_form, on_modal,
  selected_name, unless_blocked,
}

module _ (h : Host) where
  open h use {World}

  abbrev pub sync : Model → Model
  sync = sync_detail h.from_str

  -- A change of the filter: the rows again, with the selection kept where it was.
  unfoldable pub refilter : Str → Model → Model
  unfolding selected_name
  refilter text m = let m1 = record m { filter = text } in sync (rebuild (selected_name m1) m1)

  unfoldable pub on_backspace : Model → Model
  unfolding refilter on_form
  on_backspace m =
      if is_idle m.mode && m.filtering
      then refilter (pop_char m.filter) m
      else on_form Form.backspace m

  unfoldable pub select_next : Model → Model
  select_next m =
      if is_empty m.rows
      then m
      else sync (record m { selected = smaller (m.selected + 1) (length m.rows - 1) })

  unfoldable pub select_prev : Model → Model
  select_prev m = sync (record m { selected = m.selected - 1 })

  unfoldable pub clear_filter : Model → Model
  unfolding selected_name
  clear_filter m =
      let keep = selected_name m in
      sync (rebuild keep (record m { filtering = false; filter = [] }))

  abbrev pub selected_at : Option ℕ → Model → Model
  selected_at none m = m
  selected_at (some i) m = record m { selected = i }

  unfoldable pub close_bundle : Model → Model
  close_bundle m =
      let m1 = rebuild none (record m { inside = [] }) in
      sync (selected_at (position m.inside m1.rows) m1)

  abbrev pub open_row : Model → Option Row → Model
  open_row m none = m
  open_row m (some r) =
      if not (descends r)
      then record m { reveal_all = not m.reveal_all }
      else sync (rebuild none (record m { inside = r.label; filtering = false; filter = [] }))

  unfoldable pub open_selected : Model → Model
  unfolding selected_row
  open_selected m = open_row m (selected_row m)

  abbrev pub esc_idle : Model → Model
  esc_idle m =
      if m.helping
      then record m { helping = false }
      else if m.filtering || not (is_empty m.filter)
      then clear_filter m
      else if not (is_empty m.inside)
      then close_bundle m
      else record m { quit = true }

  unfoldable pub on_esc : Model → Model
  unfolding clear_filter close_bundle
  on_esc m = if is_idle m.mode then esc_idle m else record m { mode = idle }

  unfoldable pub on_up : Model → Model
  unfolding select_prev
  on_up m =
      if is_idle m.mode
      then select_prev m
      else record m { mode = on_modal (λ i. i - 1) Form.focus_prev m.mode }

  unfoldable pub on_down : Model → Model
  unfolding select_next
  on_down m =
      let last = last_of m.schemas in
      if is_idle m.mode
      then select_next m
      else record m { mode = on_modal (λ i. smaller (i + 1) last) Form.focus_next m.mode }

  unfoldable pub on_home : Model → Model
  on_home m =
      if is_idle m.mode
      then sync (record m { selected = 0 })
      else record m { mode = on_modal (λ _. 0) Form.caret_home m.mode }

  unfoldable pub on_end : Model → Model
  on_end m =
      let last = last_of m.schemas in
      if is_idle m.mode
      then sync (record m { selected = last_of m.rows })
      else record m { mode = on_modal (λ _. last) Form.caret_end m.mode }

  unfoldable pub on_page : Bool → Model → Model
  on_page down m =
      let last = last_of m.schemas in
      if is_idle m.mode
      then sync (record m {
        selected = if down then smaller (m.selected + page) (last_of m.rows) else m.selected - page;
      })
      else record m {
        mode =
            on_modal (λ i. if down then smaller (i + page) last else i - page)
              (λ form. if down then Form.focus_last form else Form.focus_first form) m.mode;
      }

  unfoldable pub on_reveal : Model → Model
  unfolding on_form
  on_reveal m =
      if is_idle m.mode
      then record m { reveal_all = not m.reveal_all }
      else on_form Form.toggle_shown m

  abbrev pub edit_text : Model → Str → Option Str → Model
  edit_text m name none = note no_text m
  edit_text m name (some text) = record m {
    mode = form_mode (edited name (form_for name text (bundle_of h.from_str name text m)));
  }

  abbrev pub edit_name : Model → Option Str → Model
  edit_name m none = m
  edit_name m (some name) = edit_text m name (plaintext name m)

  abbrev pub edit_row : Model → Option Row → Model
  edit_row m none = note (codes "nothing selected") m
  edit_row m (some r) = if descends r then edit_fused r m else edit_name m (selected_name m)

  unfoldable pub begin_edit : Model → Model
  unfolding refuse_if_blocked selected_row selected_name edit_fused plaintext bundle_of
  begin_edit m = unless_blocked (refuse_if_blocked m) λ m1. edit_row m1 (selected_row m1)

  unfoldable pub copy_selected : Model → World → Model × World
  unfolding is_one_value copied_text
  copy_selected m w =
      if is_empty m.detail
      then (note (codes "nothing to copy") m, w)
      else let what = if is_one_value m.detail then codes "value" else codes "env block" in
        let w1 = h.clipboard_set (copied_text m.detail) w in
        (
          note (codes "copied " ++ (what ++ codes "; clipboard cleared in 30s"))
              (record m { copied_at = some (h.now w1) }),
          w1,
        )

  unfoldable pub expire_clipboard : Model → World → Model × World
  expire_clipboard m w =
      if clock_of m.copied_at (h.now w)
      then (note (codes "clipboard cleared") (record m { copied_at = none }), h.clipboard_clear w)
      else (m, w)
