-- ===== src/Client/View/Tests.antt =====
-- The theorems of src/tui/view.rs at a list of 40 rows on 10 lines and a pane of 40 cells.
use secd.Base.{◌+◌, ◌-◌, ◌≤◌, ◌<◌, ◌≡◌, ◌⊎◌, some, arith}
use secd.Client.View.Scroll.{window_start, pad_of, window_start_lem}
use secd.Client.View.Columns.{DetailCols, detail_cols, need, good_value, min_key, detail_cols_lem}

window_start_lem_example :
    (window_start 5 30 40 10 + 10 ≤ 40)
    × (window_start 5 30 40 10 ≤ 30)
    × (30 < window_start 5 30 40 10 + 10)
    × (pad_of 10 ≤ 30 → window_start 5 30 40 10 + pad_of 10 ≤ 30)
    × (30 + pad_of 10 < 40 → 30 + pad_of 10 < window_start 5 30 40 10 + 10)
    × (5 + 10 ≤ 40 → 5 + pad_of 10 ≤ 30 → 30 + pad_of 10 < 5 + 10 → window_start 5 30 40 10 ≡ 5)
window_start_lem_example = window_start_lem 5 30 40 10 (omega arith) (omega arith) (omega arith)

detail_cols_lem_example :
    (c : DetailCols) × (detail_cols 40 21 24 ≡ some c)
    × (c.value ≡ 40 - need c.key c.env)
    × (c.key ≤ 21)
    × ((c.env ≡ 24) ⊎ (c.env ≡ 0))
    × ((good_value ≤ c.value) ⊎ ((c.env ≡ 0) × (c.key ≤ min_key)))
detail_cols_lem_example = detail_cols_lem 40 21 24 (omega arith)
