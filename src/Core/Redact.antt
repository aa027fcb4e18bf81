-- ===== src/Core/Redact.antt =====
-- crates/secd-core/src/redact.rs: the values of the vault are taken out of what a command prints.
pub mod Hides
pub mod Leaves
mod Tests
use secd.Base.{
  ℕ, zero, suc, ◌-◌, Bool, true, false, List, [], ◌∷◌, ◌++◌, length, ltb, if◌then◌else◌,
}
use secd.Base.Text.{Str, codes, str_eq, starts_with, is_empty}

abbrev pub replacement : Str
replacement = codes "[redacted]"

-- `s.replace(v, w)` for a text `v` that is not empty, behind `n` more bytes of the last occurrence.
unfoldable pub replace_from : ℕ → Str → Str → Str → Str
unfolding starts_with
replace_from n v w [] = []
replace_from (suc n) v w (_ ∷ s) = replace_from n v w s
replace_from zero v w (b ∷ s) = elim (starts_with v (b ∷ s)) [
  | true ↦ w ++ replace_from (length v - 1) v w s
  | false ↦ b ∷ replace_from zero v w s
]

abbrev pub non_empty : List Str → List Str
non_empty [] = []
non_empty (v ∷ vs) = let rest = non_empty vs in if is_empty v then rest else v ∷ rest

abbrev pub insert_by_length : Str → List Str → List Str
insert_by_length v [] = v ∷ []
insert_by_length v (x ∷ xs) =
    let rest = insert_by_length v xs in if ltb (length v) (length x) then x ∷ rest else v ∷ x ∷ xs

-- `vals.sort_by_key(|v| Reverse(v.len()))`, which is stable
abbrev pub longest_first : List Str → List Str
longest_first [] = []
longest_first (v ∷ vs) = insert_by_length v (longest_first vs)

abbrev pub dedup_after : Str → List Str → List Str
dedup_after v [] = []
dedup_after v (x ∷ xs) = elim (str_eq x v) [
  | true ↦ dedup_after v xs
  | false ↦ x ∷ dedup_after x xs
]

-- `vals.dedup()`
abbrev pub dedup : List Str → List Str
dedup [] = []
dedup (v ∷ vs) = v ∷ dedup_after v vs

unfoldable pub replace_all : List Str → Str → Str
unfolding replace_from
replace_all [] out = out
replace_all (v ∷ vs) out = replace_all vs (replace_from zero v replacement out)

unfoldable pub redact : Str → List Str → Str
unfolding replace_all str_eq
redact output values = replace_all (dedup (longest_first (non_empty values))) output
