-- ===== src/Base/Contains.antt =====
-- What the text tests `starts_with`, `strip_prefix` and `contains` say of the bytes.
use secd.Base.Bools.{◌==◌, ==_iff, and_true, Bool-cases}
use secd.Base.Text.{Str, starts_with, contains}
use mathlib.Core.Path.{◌≡◌, refl, ap}
use mathlib.Core.Logic.{inl, inr}
use mathlib.Core.Bool.{true}
use mathlib.Core.List.{[], ◌∷◌, ◌++◌}
use native.Mathlib.Omega.{arith}

pub starts_with-append : (p s : Str) → starts_with p (p ++ s) ≡ true
unfolding starts_with
starts_with-append [] s = refl
starts_with-append (a ∷ p) s = ground (arith, starts_with-append p s)

pub rest_of_starts_with : (p s : Str) → starts_with p s ≡ true → (r : Str) × (s ≡ p ++ r)
unfolding starts_with
rest_of_starts_with [] s h = (s, refl)
rest_of_starts_with (a ∷ p) [] h = absurd (cc)
rest_of_starts_with (a ∷ p) (b ∷ s) h =
    let (first, later) = (and_true (a == b) (starts_with p s)).0 h in
    let (r, e) = rest_of_starts_with p s later in (r, cc ((==_iff a b).0 first))

pub contains-append : (p l r : Str) → contains p (l ++ (p ++ r)) ≡ true
unfolding contains
contains-append [] [] [] = refl
contains-append [] [] (_ ∷ _) = refl
contains-append (a ∷ p) [] r = ground (arith, starts_with-append (a ∷ p) r)
contains-append p (b ∷ l) r = ground (arith, contains-append p l r)

pub place_of_contains :
    (p s : Str) → contains p s ≡ true → (l : Str) × (r : Str) × (s ≡ l ++ (p ++ r))
unfolding contains
place_of_contains p [] h = let (r, e) = rest_of_starts_with p [] h in ([], r, e)
place_of_contains p (b ∷ s) h = elim (Bool-cases (starts_with p (b ∷ s))) [
  | inl e ↦ let (r, q) = rest_of_starts_with p (b ∷ s) e in ([], r, q)
  | inr e ↦ let (l, r, q) = place_of_contains p s (ground arith) in (b ∷ l, r, ap (λ t. b ∷ t) q)
]
