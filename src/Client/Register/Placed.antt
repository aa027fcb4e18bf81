-- ===== src/Client/Register/Placed.antt =====
-- src/tui/model.rs: the rows of the register are those of its index, with the selection among them.
use secd.Base.{
  ℕ, ◌-◌, ◌≤◌, ◌<◌, ◌≡◌, refl, sym, subst, inl, inr, Option, none, some, List, [], ◌∷◌, length,
  arith, Bool-cases, Option-cases,
}
use secd.Base.Text.{Str, str_eq}
use secd.Client.Form.Bounds.{IsForm}
use secd.Client.Tree
use secd.Client.Tree.{Row, descends}
use secd.Client.Remote.{Host}
use secd.Client.Register.{Model, note, rebuild, position}
use secd.Client.Register.Run.{InForm}
use secd.Client.Register.Run.Keys.{smaller_le}
use secd.Client.Register.Events
use secd.Client.Register.Laws.{sync_detail_lem, length-note}

abbrev pub Tidy : Model → Type 0
Tidy m = (length m.activity ≤ 32) × InForm IsForm m.mode

abbrev pub Placed : Model → Type 0
Placed m =
    (m.index ≡ Tree.build m.names m.shapes)
    × (m.rows ≡ Tree.rows m.inside m.filter m.index)
    × (m.selected ≤ length m.rows - 1)

-- The index is that of the names and shapes, the rows are those of the index inside the open bundle and
-- under the filter, the selection is one of them where there is one, the activity has at most 32 lines,
-- and an open form is well formed.
abbrev pub IsRegister : Model → Type 0
IsRegister m = Placed m × Tidy m

pub rebuild-IsRegister : (o : Option Str) (m : Model) → Tidy m → IsRegister (rebuild o m)
unfolding rebuild
rebuild-IsRegister o m t = ((refl, refl, smaller_le _ _), t)

pub note-IsRegister : (s : Str) (m : Model) → IsRegister m → IsRegister (note s m)
unfolding note
note-IsRegister s m (p, (_, f)) = (p, (length-note s m, f))

position_lt : (w : Str) (rs : List Row) (i : ℕ) → position w rs ≡ some i → i < length rs
unfolding position
position_lt w [] i e = ground arith
position_lt w (r ∷ rs) i e = elim (Bool-cases (str_eq r.label w)) [
  | inl f ↦ let e1 = rw f at e in ground arith
  | inr f ↦ elim (Option-cases (position w rs)) [
    | inl g ↦ let e2 = rw (f, g) at e in ground arith
    | inr (j, g) ↦ let le = position_lt w rs j g in let e2 = rw (f, g) at e in ground arith
  ]
]

pub at_row :
    (i : ℕ) (m : Model)
    → i ≤ length m.rows - 1
    → IsRegister m
    → IsRegister (record m { selected = i })
at_row i m le ((a, b, _), t) = ((a, b, le), t)

module _ (h : Host) where
  pub sync-IsRegister : (m : Model) → IsRegister m → IsRegister (Events.sync h m)
  sync-IsRegister m p = subst IsRegister (sym (sync_detail_lem h.from_str m)) p

  placed_at :
      (w : Str) (o : Option ℕ) (m : Model)
      → position w m.rows ≡ o
      → IsRegister m
      → IsRegister (Events.selected_at h o m)
  placed_at w none m e p = p
  placed_at w (some i) m e p = at_row i m (let lt = position_lt w m.rows i e in omega arith) p

  pub close_bundle-IsRegister : (m : Model) → IsRegister m → IsRegister (Events.close_bundle h m)
  unfolding Events.close_bundle
  close_bundle-IsRegister m (_, t) =
      sync-IsRegister _
        (placed_at m.inside _ _ refl (rebuild-IsRegister none (record m { inside = [] }) t))
