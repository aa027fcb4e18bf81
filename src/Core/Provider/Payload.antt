-- ===== src/Core/Provider/Payload.antt =====
-- What a payload holds.
use secd.Base.{
  Bool, not, ◌&&◌, ◌≡◌, refl, inl, inr, none, some, List, [], ◌∷◌, any, if◌then◌else◌, Bool-cases,
}
use secd.Base.Text.{Str, is_empty}
use secd.Base.Trim.{trim}
use secd.Core.Provider.{Field, value_of, build_payload}

-- A field whose trimmed value is not empty.
abbrev pub is_filled : List (Str × Str) → Field → Bool
is_filled values f = not (is_empty (trim (value_of f.key values)))

-- The filled fields in the order of the schema, with their trimmed values.
unfoldable pub filled : List (Str × Str) → List Field → List (Str × Str)
filled values [] = []
filled values (f ∷ fs) =
    let rest = filled values fs in
    if is_filled values f then (f.key, trim (value_of f.key values)) ∷ rest else rest

-- Some required field is not filled.
abbrev pub lacks : List (Str × Str) → List Field → Bool
lacks values = any (λ f. not f.optional && not (is_filled values f))

-- A payload is refused exactly where a required field is empty after trimming; otherwise it holds the
-- filled fields of the schema, in the order of the schema, with their trimmed values.
pub build_payload_lem :
    (fields : List Field) (values : List (Str × Str))
    → build_payload fields values
      ≡ (if lacks values fields then none else some (filled values fields))
unfolding build_payload filled
build_payload_lem [] values = refl
build_payload_lem (f ∷ fs) values =
    let more = build_payload_lem fs values in
    elim (Bool-cases (is_empty (trim (value_of f.key values)))) [
      | inl e ↦ elim (Bool-cases f.optional) [
        | inl o ↦ rw (e, o, more) refl
        | inr o ↦ rw (e, o) refl
      ]
      | inr e ↦ elim (Bool-cases f.optional) [
        | inl o ↦ elim (Bool-cases (lacks values fs)) [
          | inl l ↦ rw (e, o, more, l) refl
          | inr l ↦ rw (e, o, more, l) refl
        ]
        | inr o ↦ elim (Bool-cases (lacks values fs)) [
          | inl l ↦ rw (e, o, more, l) refl
          | inr l ↦ rw (e, o, more, l) refl
        ]
      ]
    ]
