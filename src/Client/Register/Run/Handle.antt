-- ===== src/Client/Register/Run/Handle.antt =====
-- src/tui/model.rs: every event is a run.
use secd.Base.{
  ℕ, ◌+◌, ◌-◌, ◌≤◌, Bool, true, false, ◌≡◌, refl, ◌⊎◌, inl, inr, length, arith, if◌then◌else◌,
}
use secd.Base.Text.{codes}
use secd.Client.Form
use secd.Client.Form.{Form, name_text}
use secd.Client.Form.Bounds.{Edit, edit}
use secd.Client.View.{spot_at, hit_key}
use secd.Client.Remote.{Host}
use secd.Client.Register.{
  Model, Mode, Event, idle, modal, add, pick, provider, delete, page, smaller,
}
use secd.Client.Register.Events
use secd.Client.Register.Begin
use secd.Client.Register.Run.{
  FormLaws, InForm, AtStart, Run, here, noted, flagged, revealed, shown, selected, expired,
}
use secd.Client.Register.Run.Keys
use secd.Client.Register.Run.Keys.{smaller_le, pick_at-InForm}
use secd.Client.Register.Run.Clicks

-- The characters of an event have the property `Char`.
abbrev pub Typed : (Char : ℕ → Type 0) → Event → Type 0
Typed Char (Event.key c) = Char c
Typed Char _ = Unit {0}

module _ (h : Host) (Ok : Form → Type 0) (Char : ℕ → Type 0) (laws : FormLaws Ok Char) (m0 : Model)
    (w0 : h.World) where
  open h use {World}

  abbrev From : Model → World → Type 0
  From = Run h Ok m0 w0

  edited_by :
      {w : World} (e : Edit) (m : Model)
      → InForm Ok m.mode
      → From m w
      → From (Begin.on_form (edit e) m) w
  edited_by e m v r = Keys.on_form-From h Ok Char laws m0 w0 (edit e) (laws.of_edit e) m v r

  focus_end-Ok :
      (down : Bool) (form : Form)
      → Ok form
      → Ok (if down then Form.focus_last form else Form.focus_first form)
  focus_end-Ok true form v = laws.of_edit Edit.paged_down form v
  focus_end-Ok false form v = laws.of_edit Edit.paged_up form v

  page-Kept :
      (down : Bool) (m : Model)
      → let i =
          if down then smaller (m.selected + page) (length m.rows - 1) else m.selected - page in
        (i ≤ length m.rows - 1) ⊎ (i ≤ m.selected)
  page-Kept true m = inl (smaller_le _ _)
  page-Kept false m = inr (omega arith)

  by_mode :
      {w : World} (m x y : Model)
      → From x w
      → From y w
      → From (if Begin.is_idle m.mode then x else y) w
  by_mode m x y p q = Keys.either h Ok Char laws m0 w0 (Begin.is_idle m.mode) x y p q

  on_page-From :
      {w : World} (down : Bool) (m : Model)
      → InForm Ok m.mode
      → From m w
      → From (Events.on_page h down m) w
  unfolding Events.on_page
  on_page-From down m v r =
      by_mode m _ _ (selected r _ (page-Kept down m))
        (Keys.on_modal-From h Ok Char laws m0 w0 _ _ (focus_end-Ok down) m v r)

  expire-From :
      (m : Model) (w : World)
      → w ≡ w0
      → From m w
      → From (Events.expire_clipboard h m w).0 (Events.expire_clipboard h m w).1
  unfolding Events.expire_clipboard
  expire-From m w e r =
      Clicks.either_world h Ok Char laws m0 w0 (Begin.clock_of m.copied_at (h.now w))
        (_, h.clipboard_clear w) (m, w) (noted (expired r e) (codes "clipboard cleared")) r

  handle-From :
      (ev : Event) (m : Model) (w : World)
      → Typed Char ev
      → InForm Ok m.mode
      → AtStart m0 w0 m w
      → From m w
      → From (Events.handle h ev m w).0 (Events.handle h ev m w).1
  unfolding Events.handle Events.on_click Events.on_esc Events.on_up Events.on_down Events.on_home
      Events.on_end Events.on_reveal
  handle-From (Event.click column line) m w s v p r =
      Clicks.clicked-From h Ok Char laws m0 w0 (spot_at m.spots column line)
        (hit_key m.hits column line) m w v p r
  handle-From Event.quit m w s v p r = flagged r true m.helping m.filtering
  handle-From Event.esc m w s v p r =
      by_mode m _ _ (Keys.esc_idle-From h Ok Char laws m0 w0 m r) (shown r idle tt)
  handle-From Event.enter m w s v p r = Clicks.on_enter-From h Ok Char laws m0 w0 m w v p r
  handle-From Event.up m w s v p r =
      by_mode m _ _ (Keys.select_prev-From h Ok Char laws m0 w0 m r) (
        Keys.on_modal-From h Ok Char laws m0 w0 _ Form.focus_prev (laws.of_edit Edit.back_tabbed) m
          v r)
  handle-From Event.down m w s v p r =
      by_mode m _ _ (Keys.select_next-From h Ok Char laws m0 w0 m r)
        (Keys.on_modal-From h Ok Char laws m0 w0 _ Form.focus_next (laws.of_edit Edit.tabbed) m v r)
  handle-From Event.left m w s v p r = edited_by Edit.went_left m v r
  handle-From Event.right m w s v p r = edited_by Edit.went_right m v r
  handle-From Event.home m w s v p r = by_mode m _ _ (selected r 0 (inr (omega arith))) (
      Keys.on_modal-From h Ok Char laws m0 w0 _ Form.caret_home (laws.of_edit Edit.went_home) m v r)
  handle-From Event.end m w s v p r =
      by_mode m _ _ (selected r _ (inl (omega arith))) (
        Keys.on_modal-From h Ok Char laws m0 w0 _ Form.caret_end (laws.of_edit Edit.went_end) m v r)
  handle-From Event.backspace m w s v p r = Keys.on_backspace-From h Ok Char laws m0 w0 m v r
  handle-From Event.delete m w s v p r = edited_by Edit.deleted m v r
  handle-From Event.tab m w s v p r = edited_by Edit.tabbed m v r
  handle-From Event.back_tab m w s v p r = edited_by Edit.back_tabbed m v r
  handle-From Event.page_up m w s v p r = on_page-From false m v r
  handle-From Event.page_down m w s v p r = on_page-From true m v r
  handle-From Event.reveal m w s v p r =
      by_mode m _ _ (revealed r p.0) (edited_by Edit.revealed m v r)
  handle-From (Event.key c) m w s v p r =
      Clicks.on_char-From h Ok Char laws m0 w0 c m w (inr s) v p r
  handle-From Event.tick m w s v p r = expire-From m w p.1 r
  handle-From Event.resize m w s v p r = expire-From m w p.1 r

-- Every event is a run from the register it finds.
pub handle-Run :
    (h : Host) (Ok : Form → Type 0) (Char : ℕ → Type 0)
    → FormLaws Ok Char
    → (ev : Event) (m : Model) (w : h.World) → Typed Char ev
    → InForm Ok m.mode
    → Run h Ok m w (Events.handle h ev m w).0 (Events.handle h ev m w).1
handle-Run h Ok Char laws ev m w s v =
    handle-From h Ok Char laws m w ev m w s v ((refl, refl, refl), refl) here

any_laws : FormLaws (λ _. Unit {0}) (λ _. Unit {0})
any_laws = record {
  of_single = λ _ _. tt;
  of_schema = λ _ _ _. tt;
  of_edited = λ _ _ _. tt;
  of_refused = λ _ _ _. tt;
  of_typed = λ _ _ _ _. tt;
  of_edit = λ _ _ _. tt;
}

any-Typed : (ev : Event) → Typed (λ _. Unit {0}) ev
any-Typed (Event.key c) = tt
any-Typed (Event.click x y) = tt
any-Typed Event.quit = tt
any-Typed Event.esc = tt
any-Typed Event.enter = tt
any-Typed Event.up = tt
any-Typed Event.down = tt
any-Typed Event.left = tt
any-Typed Event.right = tt
any-Typed Event.home = tt
any-Typed Event.end = tt
any-Typed Event.backspace = tt
any-Typed Event.delete = tt
any-Typed Event.tab = tt
any-Typed Event.back_tab = tt
any-Typed Event.page_up = tt
any-Typed Event.page_down = tt
any-Typed Event.reveal = tt
any-Typed Event.tick = tt
any-Typed Event.resize = tt

any-InForm : (md : Mode) → InForm (λ _. Unit {0}) md
any-InForm idle = tt
any-InForm (modal (add form)) = tt
any-InForm (modal (pick i)) = tt
any-InForm (modal (provider form)) = tt
any-InForm (modal (delete l ns)) = tt

pub handle-Run_any :
    (h : Host) (ev : Event) (m : Model) (w : h.World)
    → Run h (λ _. Unit {0}) m w (Events.handle h ev m w).0 (Events.handle h ev m w).1
handle-Run_any h ev m w =
    handle-Run h (λ _. Unit {0}) (λ _. Unit {0}) any_laws ev m w (any-Typed ev) (any-InForm m.mode)
