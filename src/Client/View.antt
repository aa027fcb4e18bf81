-- ===== src/Client/View.antt =====
-- src/tui/view.rs: the layout of the screen in cells, and what a click lands on. The numbers are u16:
-- a sum saturates at 65535 and a difference at 0.
pub mod Scroll
pub mod Columns
mod Tests
use secd.Base.{
  ℕ, ◌+◌, ◌-◌, ◌*◌, ◌/◌, Bool, ◌&&◌, ◌||◌, Option, none, some, List, [], ◌∷◌, ◌++◌, map, length,
  ltb, leb, if◌then◌else◌,
}
use secd.Base.Text.{Str, codes}
use secd.Base.Utf8.{encode_char, chars}

abbrev pub u16_max : ℕ
u16_max = 65535

abbrev pub least : ℕ → ℕ → ℕ
least a b = if ltb b a then b else a

abbrev pub saturating_add : ℕ → ℕ → ℕ
saturating_add a b = least (a + b) u16_max

abbrev pub saturating_mul : ℕ → ℕ → ℕ
saturating_mul a b = least (a * b) u16_max

pub record Rect : Type 0 where
  pub x : ℕ
  pub y : ℕ
  pub width : ℕ
  pub height : ℕ

abbrev pub rect : ℕ → ℕ → ℕ → ℕ → Rect
rect x y width height = record { x = x; y = y; width = width; height = height }

unfoldable pub within : Rect → ℕ → ℕ → Bool
within r column row =
    leb r.x column
    && leb r.y row
    && ltb column (saturating_add r.x r.width)
    && ltb row (saturating_add r.y r.height)

abbrev pub right : Rect → ℕ
right r = saturating_add r.x r.width

pub record Regions : Type 0 where
  pub header : Rect
  pub list : Rect
  pub detail : Rect
  pub activity : Rect

unfoldable pub regions : Rect → Regions
regions area =
    let header_h = least area.height 1 in
    let rest = area.height - header_h in
    let activity_h = least rest 8 in
    let mid_h = rest - activity_h in
    let list_w = saturating_mul area.width 42 / 100 in
    let detail_w = area.width - list_w in
    let mid_y = saturating_add area.y header_h in
    record {
      header = rect area.x area.y area.width header_h;
      list = rect area.x mid_y list_w mid_h;
      detail = rect (saturating_add area.x list_w) mid_y detail_w mid_h;
      activity = rect area.x (saturating_add mid_y mid_h) area.width activity_h;
    }

pub record Action : Type 0 where
  pub key : ℕ
  pub label : Str

pub record ActionHit : Type 0 where
  pub key : ℕ
  pub rect : Rect

unfoldable pub button_text : Action → Str
button_text a = codes "[" ++ (encode_char a.key ++ (codes "] " ++ a.label))

unfoldable pub button_width : Action → ℕ
unfolding button_text
button_width a = least (length (chars (button_text a))) u16_max

-- The loop of `layout_actions` from the column `x`; before the first button there is no gap. It ends at
-- the first button that does not fit.
unfoldable pub layout_from : Rect → ℕ → ℕ → List Action → List (Action × Rect)
unfolding button_width
layout_from area x gap [] = []
layout_from area x gap (a ∷ actions) =
    let w = button_width a in
    let next = saturating_add x gap in
    let rest = layout_from area (saturating_add next w) 2 actions in
    if ltb (right area) (saturating_add next w) || ltb area.width w
    then []
    else (a, rect next area.y w (least area.height 1)) ∷ rest

unfoldable pub layout_actions : Rect → List Action → List (Action × Rect)
unfolding layout_from
layout_actions area actions = layout_from area area.x 0 actions

abbrev pub hit_of : Action × Rect → ActionHit
hit_of (a, r) = record { key = a.key; rect = r }

unfoldable pub action_bar : Rect → List Action → List ActionHit
unfolding layout_actions
action_bar area actions = map hit_of (layout_actions area actions)

unfoldable pub hit_key : List ActionHit → ℕ → ℕ → Option ℕ
unfolding within
hit_key [] column row = none
hit_key (h ∷ hits) column row =
    let rest = hit_key hits column row in if within h.rect column row then some h.key else rest

pub data Spot : Type 0 where
  row field reveal choice : ℕ → Spot
  save cancel : Spot

pub record SpotHit : Type 0 where
  pub spot : Spot
  pub rect : Rect

unfoldable pub spot_at : List SpotHit → ℕ → ℕ → Option Spot
unfolding within
spot_at [] column line = none
spot_at (h ∷ hits) column line =
    let rest = spot_at hits column line in if within h.rect column line then some h.spot else rest
