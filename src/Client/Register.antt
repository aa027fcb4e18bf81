-- ===== src/Client/Register.antt =====
-- src/tui/model.rs: the state of the register, which the terminal draws.
pub mod Detail
pub mod Load
pub mod Writes
pub mod Commit
pub mod Begin
pub mod Events
pub mod Laws
pub mod Run
pub mod Reveal
pub mod Blocked
pub mod Placed
pub mod Saved
pub mod Sound
mod Tests
use secd.Base.{
  ℕ, zero, suc, ◌+◌, ◌-◌, Bool, true, false, not, ◌&&◌, Option, none, some, List, [], ◌∷◌, ◌++◌,
  map, length, get_elem?, drop, ltb, if◌then◌else◌,
}
use secd.Base.Text.{Str, codes, str_eq, is_empty}
use secd.Base.Map.{Map}
use secd.Base.Json.{Value}
use secd.Core.Aead.{Secret}
use secd.Core.Provider.{Provider}
use secd.Core.Provider.Builtins.{builtins}
use secd.Client.Form.{Form, Schema}
use secd.Client.Bundles.{BundleShape}
use secd.Client.Tree
use secd.Client.Tree.{Row, Index, owner_of, is_bundle}
use secd.Client.View.{Action, ActionHit, Spot, SpotHit}

abbrev pub idle_actions : List Action
idle_actions =
    record { key = b'a'; label = codes "add" }
    ∷ record { key = b'p'; label = codes "provider" }
    ∷ record { key = b'e'; label = codes "edit" }
    ∷ record { key = b'r'; label = codes "reveal" }
    ∷ record { key = b'c'; label = codes "copy" }
    ∷ record { key = b'd'; label = codes "delete" }
    ∷ record { key = b'q'; label = codes "quit" }
    ∷ []

abbrev pub page : ℕ
page = 10

-- 30 seconds in milliseconds
abbrev pub clip_ttl : ℕ
clip_ttl = 30000

pub data Modal : Type 0 where
  add : Form → Modal
  -- The picker's selected schema.
  pick : ℕ → Modal
  provider : Form → Modal
  delete : Str → List Str → Modal

pub data Mode : Type 0 where
  idle : Mode
  modal : Modal → Mode

pub data Event : Type 0 where
  key : ℕ → Event
  esc enter up down left right home end backspace delete tab back_tab page_up page_down : Event
  reveal quit tick resize : Event
  click : ℕ → ℕ → Event

pub record DetailRow : Type 0 where
  pub key : Str
  pub env : Str
  pub secret : Bool
  pub value : Str

-- The field `open` is `inside` here, and `meta` a map like `values`.
pub record Model : Type 0 where
  pub mode : Mode
  pub quit : Bool
  pub names : List Str
  pub rows : List Row
  pub index : Index
  pub inside : Str
  pub filter : Str
  pub filtering : Bool
  pub helping : Bool
  pub list_window : ℕ
  pub modal_window : ℕ
  pub copied_at : Option ℕ
  pub selected : ℕ
  pub values : Map Secret
  pub meta : Map Value
  pub detail : List DetailRow
  pub detail_title : Str
  pub reveal_all : Bool
  pub activity : List Str
  pub hits : List ActionHit
  pub spots : List SpotHit
  pub schemas : List Schema
  pub shapes : List BundleShape
  pub token : Option Str
  pub dek : Option Secret
  pub before : Map Str
  pub save_blocked : Option Str

abbrev schema_of : Provider → Schema
schema_of p = record { name = p.name; title = p.title; builtin = true; fields = p.fields }

unfoldable pub builtin_schemas : List Schema
builtin_schemas = map schema_of builtins

unfoldable pub new : Model
new = record {
  mode = idle;
  quit = false;
  names = [];
  rows = [];
  index = Tree.build [] [];
  inside = [];
  filter = [];
  filtering = false;
  helping = false;
  list_window = 0;
  modal_window = 0;
  copied_at = none;
  selected = 0;
  values = [];
  meta = [];
  detail = [];
  detail_title = [];
  reveal_all = false;
  activity = [];
  hits = [];
  spots = [];
  schemas = builtin_schemas;
  shapes = [];
  token = none;
  dek = none;
  before = [];
  save_blocked = none;
}

-- The last 32 lines are kept.
abbrev trimmed : List Str → List Str
trimmed lines = drop (length lines - 32) lines

unfoldable pub note : Str → Model → Model
note msg m = record m { activity = trimmed (m.activity ++ msg ∷ []) }

-- `loading…`; U+2026 is three bytes.
unfoldable pub from_unlocked : Str → Secret → Model
unfolding note new
from_unlocked token dek =
    note (codes "loading" ++ 0xe2 ∷ 0x80 ∷ 0xa6 ∷ [])
      (record new { token = some token; dek = some dek })

unfoldable pub selected_row : Model → Option Row
selected_row m = get_elem? m.rows m.selected

abbrev pub label_of : Option Row → Option Str
label_of none = none
label_of (some r) = some r.label

abbrev pub or_else : Option Str → Option Str → Option Str
or_else none later = later
or_else (some s) later = some s

abbrev one_more : Option ℕ → Option ℕ
one_more none = none
one_more (some n) = some (suc n)

-- `rows.iter().position(|r| r.label == w)`
unfoldable pub position : Str → List Row → Option ℕ
position w [] = none
position w (r ∷ rs) =
    let rest = one_more (position w rs) in if str_eq r.label w then some 0 else rest

abbrev pub place : Option Str → List Row → ℕ
place none rs = 0
place (some w) rs = elim (position w rs) [ none ↦ 0 | some i ↦ i ]

abbrev pub smaller : ℕ → ℕ → ℕ
smaller a b = if ltb b a then b else a

abbrev owned : Option Str → Index → Option Str
owned none ix = none
owned (some n) ix = owner_of n ix

unfoldable pub rebuild : Option Str → Model → Model
unfolding selected_row
rebuild keep m =
    let want = or_else (owned keep m.index) (label_of (selected_row m)) in
    let index = Tree.build m.names m.shapes in
    let inside =
      if not (is_empty m.inside) && not (is_bundle m.inside index) then [] else m.inside in
    let rows = Tree.rows inside m.filter index in
    record m {
      index = index;
      inside = inside;
      rows = rows;
      selected = smaller (place want rows) (length rows - 1);
    }

unfoldable pub title : Model → Str
title m = elim (label_of (selected_row m)) [ none ↦ codes "register" | some l ↦ l ]

abbrev pub actions_of : Mode → List Action
actions_of idle = idle_actions
actions_of (modal _) = []

unfoldable pub actions : Model → List Action
actions m = actions_of m.mode

-- What a paint decided.
unfoldable pub set_painted : ℕ → ℕ → List SpotHit → Model → Model
set_painted list_at modal_at spots m = record m {
  list_window = list_at;
  modal_window = modal_at;
  spots = spots;
}

unfoldable pub set_hits : List ActionHit → Model → Model
set_hits hits m = record m { hits = hits }
