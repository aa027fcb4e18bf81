-- ===== src/Core/Redact/Tests.antt =====
-- Redactions, and the theorems of crates/secd-core/src/redact.rs at two values.
use secd.Base.{◌≡◌, refl, inl, inr, [], ◌∷◌, List}
use secd.Base.Text.{Str, codes, contains, starts_with, str_eq}
use secd.Core.Redact.{redact, replace_all, replace_from}
use secd.Core.Redact.Leaves.{redact_leaves}

abbrev values : List Str
values = codes "abc" ∷ codes "" ∷ codes "abcd" ∷ codes "abcd" ∷ []

-- The longest value goes first, whole occurrences only.
whole_values : redact (codes "x abcd abc ab") values ≡ codes "x [redacted] [redacted] ab"
unfolding redact replace_all replace_from starts_with str_eq
whole_values = refl

-- A value that is part of the replacement stays behind one.
part_of_replacement :
    redact (codes "s3cret") (codes "s3cret" ∷ codes "act" ∷ []) ≡ codes "[red[redacted]ed]"
unfolding redact replace_all replace_from starts_with str_eq
part_of_replacement = refl

redact_leaves_example : redact (codes "ab cd") values ≡ codes "ab cd"
unfolding contains starts_with
redact_leaves_example =
    redact_leaves (codes "ab cd") values (inr refl, (inl refl, (inr refl, (inr refl, tt))))
