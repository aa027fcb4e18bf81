-- ===== src/Client/View/Columns.antt =====
-- src/tui/view.rs: the columns of the detail pane and of a form.
use secd.Base.{
  ℕ, zero, suc, ◌+◌, ◌-◌, ◌%◌, ◌≤◌, ◌<◌, ◌≡◌, refl, ◌⊎◌, inl, inr, Option, none, some, arith, ltb,
  ◌==◌, true, false, Bool-cases, if◌then◌else◌,
}
use secd.Client.View.{least, saturating_add}

pub record DetailCols : Type 0 where
  pub key : ℕ
  pub value : ℕ
  pub env : ℕ

abbrev pub good_value : ℕ
good_value = 16

abbrev pub min_key : ℕ
min_key = 6

-- A gap before each column that is there; `e + 1` is not saturating.
abbrev pub need : ℕ → ℕ → ℕ
need k e = saturating_add (saturating_add k 1) (if ltb 0 e then (e + 1) % 65536 else 0)

abbrev pub next_key : ℕ → ℕ → ℕ
next_key key env = if ltb 0 env then key else key - 1

-- The loop: the columns it ends with, or `none` where it needs more rounds than `fuel`.
unfoldable pub shrink : ℕ → ℕ → ℕ → ℕ → Option (ℕ × ℕ)
shrink zero width key env = none
shrink (suc fuel) width key env =
    let rest = shrink fuel width (next_key key env) 0 in
    if ltb (width - need key env) good_value
    then if ltb 0 env then rest else if ltb min_key key then rest else some (key, env)
    else some (key, env)

abbrev cols_of : ℕ → Option (ℕ × ℕ) → Option DetailCols
cols_of width none = none
cols_of width (some (key, env)) =
    some (record { key = key; value = width - need key env; env = env })

unfoldable pub detail_cols : ℕ → ℕ → ℕ → Option DetailCols
unfolding shrink
detail_cols width key_w env_w =
    if key_w == 0
    then some (record { key = 0; value = width; env = 0 })
    else cols_of width (shrink (key_w + 2) width key_w env_w)

-- What the loop ends with, from the columns `key_w` and `env_w`.
abbrev Fitted : ℕ → ℕ → ℕ → ℕ → ℕ → Type 0
Fitted width key_w env_w key env =
    (key ≤ key_w)
    × ((env ≡ env_w) ⊎ (env ≡ 0))
    × ((good_value ≤ width - need key env) ⊎ ((env ≡ 0) × (key ≤ min_key)))

abbrev rounds : ℕ → ℕ → ℕ
rounds key env = if ltb 0 env then key + 1 else key

rounds_dropped : (key env fuel : ℕ) → ltb 0 env ≡ true → rounds key env < suc fuel → key < fuel
rounds_dropped key env fuel b p = ground arith

rounds_cut :
    (key env fuel : ℕ) → ltb min_key key ≡ true → rounds key env < suc fuel → key - 1 < fuel
rounds_cut key env fuel c p = ground arith

shrink-Fitted :
    (fuel width key env : ℕ)
    → rounds key env < fuel
    → (k : ℕ) × (e : ℕ) × (shrink fuel width key env ≡ some (k, e)) × Fitted width key env k e
unfolding shrink
shrink-Fitted zero width key env p = absurd (omega arith)
shrink-Fitted (suc fuel) width key env p =
    elim (Bool-cases (ltb (width - need key env) good_value)) [
      | inr a ↦ rw a (key, env, refl, (ground arith, inl refl, inl (ground arith)))
      | inl a ↦ elim (Bool-cases (ltb 0 env)) [
        | inl b ↦
            let (k, e, same, (le, zeroed, fits)) =
              shrink-Fitted fuel width key 0 (rounds_dropped key env fuel b p) in
            rw (a, b) (k, e, same, (le, inr (elim zeroed [ inl z ↦ z | inr z ↦ z ]), fits))
        | inr b ↦ elim (Bool-cases (ltb min_key key)) [
          | inl c ↦
              let (k, e, same, (le, zeroed, fits)) =
                shrink-Fitted fuel width (key - 1) 0 (rounds_cut key env fuel c p) in
              rw (a, b, c)
                (k, e, same, (omega arith, inr (elim zeroed [ inl z ↦ z | inr z ↦ z ]), fits))
          | inr c ↦
              rw (a, b, c)
                (key, env, refl, (ground arith, inl refl, inr (ground arith, ground arith)))
        ]
      ]
    ]

-- The loop of `detail_cols` ends, whatever the widths: the value gets what the other columns leave, the
-- key column is no wider than asked, the env column is as asked or gone, and a value below 16 cells is
-- left only where the env column is gone and the key has at most 6.
pub detail_cols_lem :
    (width key_w env_w : ℕ)
    → 0 < key_w
    → (c : DetailCols) × (detail_cols width key_w env_w ≡ some c)
      × (c.value ≡ width - need c.key c.env)
      × (c.key ≤ key_w)
      × ((c.env ≡ env_w) ⊎ (c.env ≡ 0))
      × ((good_value ≤ c.value) ⊎ ((c.env ≡ 0) × (c.key ≤ min_key)))
unfolding detail_cols
detail_cols_lem width key_w env_w p =
    let (k, e, ends, (le, kept, fits)) =
      shrink-Fitted (key_w + 2) width key_w env_w (ground arith) in
    let asked : (key_w == 0) ≡ false = ground arith in
    rw (asked, ends)
      (record { key = k; value = width - need k e; env = e }, refl, refl, le, kept, fits)

pub record FormCols : Type 0 where
  pub label : ℕ
  pub input : ℕ
  pub tag : ℕ
  pub env : ℕ

abbrev pub tag_w : ℕ
tag_w = 8

abbrev pub min_input : ℕ
min_input = 8

abbrev pub good_input : ℕ
good_input = 24

abbrev gap : ℕ → ℕ
gap w = if ltb 0 w then 1 + w else 0

-- The sums are of columns of at most 24 cells and do not reach 65536.
unfoldable pub form_cols : ℕ → ℕ → ℕ → FormCols
form_cols width label_w env_w =
    let label = least (least label_w 18) width in
    let rest = width - label - 1 in
    let wide = least env_w 24 in
    let env = if ltb rest (good_input + 1 + tag_w + 1 + wide) then 0 else wide in
    let tag = if ltb rest (min_input + 1 + tag_w) then 0 else tag_w in
    record { label = label; input = rest - (gap tag + gap env); tag = tag; env = env }
