-- ===== src/Client/Register/Run/Clicks.antt =====
-- src/tui/model.rs: Enter, the letters and the clicks are runs.
use secd.Base.{
  ℕ, Bool, true, false, ◌&&◌, ◌≡◌, ◌⊎◌, inl, inr, Option, none, some, length, arith, ltb,
  if◌then◌else◌, Bool-cases,
}
use secd.Base.Text.{lower_byte}
use secd.Base.Trim.{trim}
use secd.Base.Utf8.{push_char}
use secd.Core.Name.{check_name}
use secd.Client.Form
use secd.Client.Form.{Form, name_text}
use secd.Client.Form.Bounds.{Edit}
use secd.Client.View.{Spot, row, field, reveal, choice, save, cancel}
use secd.Client.Remote.{Host}
use secd.Client.Register.{Model, Mode, idle, modal, add, pick, provider, delete, selected_row}
use secd.Client.Register.Events
use secd.Client.Register.Begin
use secd.Client.Register.Commit
use secd.Client.Register.Run.{FormLaws, InForm, AtStart, Run, flagged, shown, selected}
use secd.Client.Register.Run.Keys
use secd.Client.Register.Run.Keys.{smaller_le, pick_at-InForm}
use secd.Client.Register.Run.Saves

module _ (h : Host) (Ok : Form → Type 0) (Char : ℕ → Type 0) (laws : FormLaws Ok Char) (m0 : Model)
    (w0 : h.World) where
  open h use {World}

  abbrev From : Model → World → Type 0
  From = Run h Ok m0 w0

  pub either_world :
      (b : Bool) (x y : Model × World)
      → From x.0 x.1
      → From y.0 y.1
      → From (if b then x else y).0 (if b then x else y).1
  either_world true x y p q = p
  either_world false x y p q = q

  -- The open modal is closed before its Enter is carried out.
  enter_in-From :
      (md : Mode) (m : Model) (w : World)
      → InForm Ok md
      → AtStart m0 w0 m w
      → From m w
      → From (Events.enter_in h md m w).0 (Events.enter_in h md m w).1
  unfolding Events.open_selected Begin.open_schema_form Commit.commit_single Commit.commit_provider
  enter_in-From idle m w v p r = Keys.open_row-From h Ok Char laws m0 w0 m (selected_row m) p.0 r
  enter_in-From (modal (add form)) m w v p r =
      Saves.checked_single-From h Ok Char laws m0 w0 form (trim (name_text form))
        (check_name (trim (name_text form))) m w v r
  enter_in-From (modal (provider form)) m w v p r =
      Saves.checked_provider-From h Ok Char laws m0 w0 form (trim (name_text form))
        (check_name (trim (name_text form))) m w v r
  enter_in-From (modal (pick i)) m w v p r = Keys.opened_form-From h Ok Char laws m0 w0 m _ r
  enter_in-From (modal (delete l names)) m w v p r =
      Saves.commit_delete-From h Ok Char laws m0 w0 names m w r

  pub on_enter-From :
      (m : Model) (w : World)
      → InForm Ok m.mode
      → AtStart m0 w0 m w
      → From m w
      → From (Events.on_enter h m w).0 (Events.on_enter h m w).1
  unfolding Events.on_enter
  on_enter-From m w v p r =
      either_world m.filtering _ (Events.enter_in h m.mode (record m { mode = idle }) w)
        (flagged r m.quit m.helping false)
        (enter_in-From m.mode (record m { mode = idle }) w v p (shown r idle tt))

  char_in-From :
      (md : Mode) (c : ℕ) (m : Model) (w : World)
      → (Begin.is_idle md ≡ true) ⊎ Char c
      → InForm Ok md
      → InForm Ok m.mode
      → AtStart m0 w0 m w
      → From m w
      → From (Events.char_in h md c m w).0 (Events.char_in h md c m w).1
  unfolding Begin.pick_type_ahead
  char_in-From idle c m w s v u p r =
      Keys.command-From h Ok Char laws m0 w0 (Begin.command_of c) m w p r
  char_in-From (modal (pick i)) c m w s v u p r =
      shown r _ (pick_at-InForm Ok (Begin.type_ahead (lower_byte c) m.schemas) m.mode u)
  char_in-From (modal (add form)) c m w (inl e) v u p r = ground arith
  char_in-From (modal (add form)) c m w (inr s) v u p r =
      shown r (modal (add _)) (laws.of_typed c s form v)
  char_in-From (modal (provider form)) c m w (inl e) v u p r = ground arith
  char_in-From (modal (provider form)) c m w (inr s) v u p r =
      shown r (modal (provider _)) (laws.of_typed c s form v)
  char_in-From (modal (delete l ns)) c m w s v u p r = r

  pub on_char-From :
      (c : ℕ) (m : Model) (w : World)
      → (Begin.is_idle m.mode ≡ true) ⊎ Char c
      → InForm Ok m.mode
      → AtStart m0 w0 m w
      → From m w
      → From (Events.on_char h c m w).0 (Events.on_char h c m w).1
  unfolding Events.on_char
  on_char-From c m w s v p r =
      either_world (Begin.is_idle m.mode && m.filtering) _ (Events.char_in h m.mode c m w)
        (Keys.refilter-From h Ok Char laws m0 w0 (push_char m.filter c) m r)
        (char_in-From m.mode c m w s v v p r)

  on_hit-From :
      (o : Option ℕ) (m : Model) (w : World)
      → Begin.is_idle m.mode ≡ true
      → InForm Ok m.mode
      → AtStart m0 w0 m w
      → From m w
      → From (Events.on_hit h o m w).0 (Events.on_hit h o m w).1
  on_hit-From none m w e v p r = r
  on_hit-From (some k) m w e v p r = on_char-From k m w (inl e) v p r

  on_spot-From :
      (s : Spot) (m : Model) (w : World)
      → InForm Ok m.mode
      → AtStart m0 w0 m w
      → From m w
      → From (Events.on_spot h s m w).0 (Events.on_spot h s m w).1
  unfolding Events.on_spot Begin.open_schema_form
  on_spot-From (row i) m w v p r =
      elim (Bool-cases (Begin.is_idle m.mode && ltb i (length m.rows))) [
        | inl e ↦ rw e (selected r i (inl (ground arith)))
        | inr e ↦ rw e r
      ]
  on_spot-From (field i) m w v p r =
      Keys.on_form-From h Ok Char laws m0 w0 (Form.focus_at i) (laws.of_edit (Edit.clicked i)) m v r
  on_spot-From (reveal i) m w v p r =
      Keys.on_form-From h Ok Char laws m0 w0 (λ form. Form.toggle_shown_at i (Form.focus_at i form))
        (λ form ok. laws.of_edit (Edit.eye_clicked i) _ (laws.of_edit (Edit.clicked i) form ok)) m v
        r
  on_spot-From (choice i) m w v p r =
      Keys.opened_form-From h Ok Char laws m0 w0 _ _
        (shown r _ (pick_at-InForm Ok (some i) m.mode v))
  on_spot-From save m w v p r = on_enter-From m w v p r
  on_spot-From cancel m w v p r = shown r idle tt

  pub clicked-From :
      (o : Option Spot) (hit : Option ℕ) (m : Model) (w : World)
      → InForm Ok m.mode
      → AtStart m0 w0 m w
      → From m w
      → From (Events.clicked_at h o hit m w).0 (Events.clicked_at h o hit m w).1
  clicked-From (some s) hit m w v p r = on_spot-From s m w v p r
  clicked-From none hit m w v p r = elim (Bool-cases (Begin.is_idle m.mode)) [
    | inl e ↦ rw e (on_hit-From hit m w e v p r)
    | inr e ↦ rw e r
  ]
