-- ===== src/Core/Redact/Leaves.antt =====
-- What crates/secd-core/src/redact.rs leaves as it is.
use secd.Base.{
  zero, true, false, ◌≡◌, refl, ap, ◌∙◌, ◌⊎◌, inl, inr, List, [], ◌∷◌, length, All, ltb, arith,
  Bool-cases, subst, sym,
}
use secd.Base.Text.{Str, str_eq, contains, is_empty}
use secd.Core.Redact.{
  replacement, replace_from, non_empty, insert_by_length, longest_first, dedup_after, dedup,
  replace_all, redact,
}
use secd.Core.Redact.Hides.{replace_from_miss, dedup_after_hit, dedup_after_miss}

module _ (out : Str) where
  abbrev Absent : Str → Type 0
  Absent v = contains v out ≡ false

  All-non_empty :
      (vs : List Str) → All (λ v. (is_empty v ≡ true) ⊎ Absent v) vs → All Absent (non_empty vs)
  All-non_empty [] a = a
  All-non_empty ([] ∷ vs) (h, a) = All-non_empty vs a
  All-non_empty ((b ∷ v) ∷ vs) (inl h, a) = absurd (cc)
  All-non_empty ((b ∷ v) ∷ vs) (inr h, a) = (h, All-non_empty vs a)

  All-insert_by_length :
      (v : Str) (xs : List Str) → Absent v → All Absent xs → All Absent (insert_by_length v xs)
  All-insert_by_length v [] h a = (h, a)
  All-insert_by_length v (x ∷ xs) h (g, a) = elim (Bool-cases (ltb (length v) (length x))) [
    | inl e ↦ rw e (g, All-insert_by_length v xs h a)
    | inr e ↦ rw e (h, (g, a))
  ]

  All-longest_first : (vs : List Str) → All Absent vs → All Absent (longest_first vs)
  All-longest_first [] a = a
  All-longest_first (v ∷ vs) (h, a) =
      All-insert_by_length v (longest_first vs) h (All-longest_first vs a)

  All-dedup_after : (v : Str) (xs : List Str) → All Absent xs → All Absent (dedup_after v xs)
  All-dedup_after v [] a = a
  All-dedup_after v (x ∷ xs) (h, a) = elim (Bool-cases (str_eq x v)) [
    | inl e ↦ subst (All Absent) (sym (dedup_after_hit v x xs e)) (All-dedup_after v xs a)
    | inr e ↦ subst (All Absent) (sym (dedup_after_miss v x xs e)) (h, All-dedup_after x xs a)
  ]

  All-dedup : (vs : List Str) → All Absent vs → All Absent (dedup vs)
  All-dedup [] a = a
  All-dedup (v ∷ vs) (h, a) = (h, All-dedup_after v vs a)

replace_from_absent : (v s : Str) → contains v s ≡ false → replace_from zero v replacement s ≡ s
unfolding contains
replace_from_absent v [] h = unfold replace_from in refl
replace_from_absent v (b ∷ s) h =
    replace_from_miss v replacement s b (ground arith)
    ∙ ap (λ t. b ∷ t) (replace_from_absent v s (ground arith))

replace_all-Absent : (vs : List Str) (out : Str) → All (Absent out) vs → replace_all vs out ≡ out
unfolding replace_all
replace_all-Absent [] out a = refl
replace_all-Absent (v ∷ vs) out (h, a) =
    ap (replace_all vs) (replace_from_absent v out h) ∙ replace_all-Absent vs out a

-- A text in which no value of the list stands but the empty ones is returned as it is.
pub redact_leaves :
    (output : Str) (values : List Str)
    → All (λ v. (is_empty v ≡ true) ⊎ (contains v output ≡ false)) values
    → redact output values ≡ output
unfolding redact
redact_leaves output values a =
    replace_all-Absent (dedup (longest_first (non_empty values))) output
      (All-dedup output _ (All-longest_first output _ (All-non_empty output values a)))
