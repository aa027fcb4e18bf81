-- ===== src/Client/Register/Laws.antt =====
-- Which fields of the register the operations leave alone.
use secd.Base.{
  ◌-◌, ◌≤◌, ◌≡◌, refl, inl, inr, Option, none, some, List, [], ◌∷◌, ◌++◌, length, length-drop,
  arith, Bool-cases, Option-cases,
}
use secd.Base.Text.{Str}
use secd.Base.Map.{contains_key}
use secd.Base.Json.{Value}
use secd.Client.Form.{Schema}
use secd.Client.Tree.{Row, sole}
use secd.Client.Register.{Model, DetailRow, note, selected_row}
use secd.Client.Register.Detail.{
  sync_detail, detail_of_entry, detail_of_fused, plaintext, bundle_of, push_bundle, cleared,
  schema_named, fused_with, detail_of_row, detail_for,
}

-- The register with another detail pane.
abbrev pub with_detail : List DetailRow → Str → Model → Model
with_detail rows title m = record m { detail = rows; detail_title = title }

abbrev IsPainted : Model → Model → Type 0
IsPainted m m' = m' ≡ with_detail m'.detail m'.detail_title m

detail_of_entry-IsPainted :
    (f : Str → Option Value) (name : Str) (m : Model) → IsPainted m (detail_of_entry f name m)
unfolding detail_of_entry
detail_of_entry-IsPainted f name m = elim (Bool-cases (contains_key name m.values)) [
  | inr e ↦ rw e refl
  | inl e ↦ elim (Option-cases (plaintext name m)) [
    | inl p ↦ rw (e, p) refl
    | inr (text, p) ↦ elim (Option-cases (bundle_of f name text m)) [
      | inl b ↦ rw (e, p, b) refl
      | inr (found, b) ↦ rw (e, p, b) refl
    ]
  ]
]

fused_with-IsPainted :
    (o : Option Schema) (pairs : List (Str × Str)) (m : Model) → IsPainted m (fused_with o pairs m)
unfolding push_bundle
fused_with-IsPainted none pairs m = refl
fused_with-IsPainted (some s) pairs m = refl

detail_of_row-IsPainted :
    (f : Str → Option Value) (r : Row) (o : Option Str) (m : Model)
    → IsPainted m (detail_of_row f r o m)
unfolding detail_of_fused
detail_of_row-IsPainted f r none m = fused_with-IsPainted (schema_named r.provider m.schemas) _ m
detail_of_row-IsPainted f r (some name) m = detail_of_entry-IsPainted f name m

detail_for-IsPainted :
    (f : Str → Option Value) (o : Option Row) (m : Model) → IsPainted m (detail_for f o m)
detail_for-IsPainted f none m = refl
detail_for-IsPainted f (some r) m = detail_of_row-IsPainted f r (sole r) m

-- The pane follows the selection: nothing else changes but that a revealed value is hidden.
pub sync_detail_lem :
    (f : Str → Option Value) (m : Model)
    → sync_detail f m
      ≡ with_detail (sync_detail f m).detail (sync_detail f m).detail_title (cleared m)
unfolding sync_detail
sync_detail_lem f m = detail_for-IsPainted f (selected_row m) (cleared m)

pub length-note : (s : Str) (m : Model) → length (note s m).activity ≤ 32
unfolding note
length-note s m =
    omega (arith, length-drop {0} (length (m.activity ++ s ∷ []) - 32) (m.activity ++ s ∷ []))
