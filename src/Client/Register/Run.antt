-- ===== src/Client/Register/Run.antt =====
-- src/tui/model.rs: the changes of the register, as a relation. A run is a sequence of them, and each
-- event is a run.
pub mod Keys
pub mod Saves
pub mod Clicks
pub mod Handle
use secd.Base.{ℕ, ◌-◌, ◌≤◌, Bool, true, false, not, ◌≡◌, ◌⊎◌, Option, none, some, List, length}
use secd.Base.Text.{Str}
use secd.Base.Map.{Map}
use secd.Base.Result.{Result, ok, err}
use secd.Client.Form
use secd.Client.Form.{Form, Schema}
use secd.Client.Form.Bounds.{Edit, edit}
use secd.Client.Bundles
use secd.Client.Remote.{Host}
use secd.Client.Register.{Model, Mode, idle, modal, add, pick, provider, delete, note, rebuild}
use secd.Client.Register.Load.{reshape, reload_from_vault}
use secd.Client.Register.Commit.{save_rows, committed}
use secd.Client.Register.Begin.{edited}
use secd.Client.Register.Events.{sync, close_bundle}

-- A property of forms that their operations keep, for characters with the property `Char`.
pub record FormLaws (Ok : Form → Type 0) (Char : ℕ → Type 0) : Type 0 where
  pub of_single : (name value : Str) → Ok (Form.single name value)
  pub of_schema :
      (s : Schema) (name : Str) (values : List (Str × Str)) → Ok (Form.schema s name values)
  pub of_edited : (name : Str) (form : Form) → Ok form → Ok (edited name form)
  pub of_refused : (why : Str) (form : Form) → Ok form → Ok (record form { error = some why })
  pub of_typed : (c : ℕ) → Char c → (form : Form) → Ok form → Ok (Form.insert c form)
  pub of_edit : (e : Edit) (form : Form) → Ok form → Ok (edit e form)

-- The form of an open modal, where it has one.
abbrev pub InForm : (Form → Type 0) → Mode → Type 0
InForm Ok idle = Unit {0}
InForm Ok (modal (add form)) = Ok form
InForm Ok (modal (pick _)) = Unit {0}
InForm Ok (modal (provider form)) = Ok form
InForm Ok (modal (delete _ _)) = Unit {0}

-- The rows, the selection and the pane are those from before.
abbrev pub InPlace : Model → Model → Type 0
InPlace m m' = (m'.rows ≡ m.rows) × (m'.selected ≡ m.selected) × (m'.detail ≡ m.detail)

-- So is the world.
abbrev pub AtStart : {W : Type 0} → Model → W → Model → W → Type 0
AtStart m w m' w' = InPlace m m' × (w' ≡ w)

module _ (h : Host) (Ok : Form → Type 0) where
  -- A run from `m` in the world `w`. Values are revealed where the pane is that of the start,
  -- and the clipboard is written once. A save
  -- and a reload behind one that failed start from a register that is not refused, and carry what the
  -- save returned.
  pub data Run (m : Model) (w : h.World) : Model → h.World → Type 0 where
    here : Run m w m w
    noted : {m' : Model} {w' : h.World} → Run m w m' w' → (s : Str) → Run m w (note s m') w'
    flagged :
        {m' : Model} {w' : h.World}
        → Run m w m' w'
        → (quit helping filtering : Bool)
        → Run m w (record m' { quit = quit; helping = helping; filtering = filtering }) w'
    revealed :
        {m' : Model} {w' : h.World}
        → Run m w m' w'
        → InPlace m m'
        → Run m w (record m' { reveal_all = not m'.reveal_all }) w'
    shown :
        {m' : Model} {w' : h.World}
        → Run m w m' w'
        → (mode : Mode) → InForm Ok mode
        → Run m w (record m' { mode = mode }) w'
    selected :
        {m' : Model} {w' : h.World}
        → Run m w m' w'
        → (i : ℕ) → (i ≤ length m'.rows - 1) ⊎ (i ≤ m'.selected)
        → Run m w (sync h (record m' { selected = i })) w'
    listed :
        {m' : Model} {w' : h.World}
        → Run m w m' w'
        → (keep : Option Str) (inside filter : Str) (filtering : Bool)
        → Run m w
            (sync h (
              rebuild keep (record m' { inside = inside; filter = filter; filtering = filtering })))
            w'
    closed : {m' : Model} {w' : h.World} → Run m w m' w' → Run m w (close_bundle h m') w'
    copied :
        {m' : Model} {w' : h.World}
        → Run m w m' w'
        → w' ≡ w
        → (text : Str) (at : ℕ)
        → Run m w (record m' { copied_at = some at }) (h.clipboard_set text w')
    expired :
        {m' : Model} {w' : h.World}
        → Run m w m' w'
        → w' ≡ w
        → Run m w (record m' { copied_at = none }) (h.clipboard_clear w')
    saved :
        {m' : Model} {w' : h.World}
        → Run m w m' w'
        → m'.save_blocked ≡ none
        → (rows writes : List Bundles.Row) (gone names : List Str) (keep : Option Str)
          (written : Map Str) (v : h.World)
        → save_rows h rows m' w' ≡ some (ok written, v)
        → Run m w (sync h (rebuild keep (reshape h (committed h writes gone names written m')))) v
    reloaded :
        {m' : Model} {w' : h.World}
        → Run m w m' w'
        → m'.save_blocked ≡ none
        → (rows : List Bundles.Row) (e : Str) (v : h.World)
        → save_rows h rows m' w' ≡ some (err e, v)
        → Run m w (reload_from_vault h m' v).0 (reload_from_vault h m' v).1
