-- ===== src/Client/View/Scroll.antt =====
-- src/tui/view.rs: the rows of a list that are drawn.
use secd.Base.{
  ℕ, zero, suc, ◌+◌, ◌-◌, ◌/◌, ◌≤◌, ◌<◌, ◌||◌, ◌≡◌, List, [], ◌∷◌, arith, ltb, leb, ◌==◌,
  if◌then◌else◌,
}
use secd.Client.View.{Rect, Spot, SpotHit, rect, least, saturating_add, u16_max}

abbrev pub scrolloff : ℕ
scrolloff = 2

abbrev pub pad_of : ℕ → ℕ
pad_of h = least scrolloff ((h - 1) / 2)

-- The window before the last line, where the selection leaves it above and then where it does below.
abbrev pub moved_up : ℕ → ℕ → ℕ → ℕ
moved_up start sel pad = if ltb sel (start + pad) then sel - pad else start

abbrev pub moved_down : ℕ → ℕ → ℕ → ℕ → ℕ
moved_down start sel pad h = if leb (start + h) (sel + pad) then sel + pad + 1 - h else start

unfoldable pub window_start : ℕ → ℕ → ℕ → ℕ → ℕ
window_start prev sel len h =
    let last = len - h in
    let pad = pad_of h in
    let start = moved_down (moved_up (least prev last) sel pad) sel pad h in
    if h == 0 || leb len h then 0 else least start last

-- The row `i` of those that are drawn, and the rows behind it.
unfoldable pub rows_from : Rect → ℕ → (ℕ → Spot) → ℕ → ℕ → List SpotHit
rows_from body start spot i zero = []
rows_from body start spot i (suc n) =
    record {
      spot = spot (start + i);
      rect = rect body.x (saturating_add body.y (least i u16_max)) body.width 1;
    }
    ∷ rows_from body start spot (suc i) n

unfoldable pub rows_at : Rect → ℕ → ℕ → (ℕ → Spot) → List SpotHit
unfolding rows_from
rows_at body start count spot = rows_from body start spot 0 (least (count - start) body.height)

pad_le : (h : ℕ) → 0 < h → pad_of h + pad_of h < h
pad_le h p = ground arith

-- For a list of `len` rows with a selection, drawn on `h` lines: the window is within the list, the
-- selection is within the window, it keeps `pad_of h` rows on each side where the list has them, and a
-- window that had the selection so far inside does not move.
pub window_start_lem :
    (prev sel len h : ℕ)
    → sel < len
    → 0 < h
    → h < len
    → (window_start prev sel len h + h ≤ len)
      × (window_start prev sel len h ≤ sel)
      × (sel < window_start prev sel len h + h)
      × (pad_of h ≤ sel → window_start prev sel len h + pad_of h ≤ sel)
      × (sel + pad_of h < len → sel + pad_of h < window_start prev sel len h + h)
      × (prev + h ≤ len
          → prev + pad_of h ≤ sel
          → sel + pad_of h < prev + h
          → window_start prev sel len h ≡ prev)
unfolding window_start
window_start_lem prev sel len h s p l =
    let q = pad_le h p in
    (
      ground arith,
      ground arith,
      ground arith,
      (λ a. ground arith),
      (λ a. ground arith),
      λ a b c. ground arith,
    )
