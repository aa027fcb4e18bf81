-- ===== src/Base/Ordered/Laws.antt =====
-- The order is strict and linear, sorting keeps what it sorts, and a map answers what was put last.
use mathlib.Core.Path.{◌≡◌, refl, sym, subst}
use mathlib.Core.Logic.{◌↔◌, ◌≢◌, inl, inr}
use mathlib.Core.Bool.{true, false}
use mathlib.Core.Option.{none, some}
use mathlib.Core.List.{[], ◌∷◌}
use native.Mathlib.Omega.{arith}
use secd.Base.Bools.{if◌then◌else◌, Bool-cases}
use secd.Base.Lists.{All}
use secd.Base.Text.{Str, str_eq, str_eq_iff, str_eq_refl}
use secd.Base.Map.{Map, lookup}
use secd.Base.Ordered.{str_lt, put, same_map}

pub str_lt_irrefl : (s : Str) → str_lt s s ≡ false
unfolding str_lt
str_lt_irrefl [] = refl
str_lt_irrefl (a ∷ s) = ground (arith, str_lt_irrefl s)

pub str_lt_trans : (s t u : Str) → str_lt s t ≡ true → str_lt t u ≡ true → str_lt s u ≡ true
unfolding str_lt
str_lt_trans s [] u h k = absurd (cc)
str_lt_trans [] (b ∷ t) [] h k = absurd (cc)
str_lt_trans [] (b ∷ t) (c ∷ u) h k = refl
str_lt_trans (a ∷ s) (b ∷ t) [] h k = absurd (cc)
str_lt_trans (a ∷ s) (b ∷ t) (c ∷ u) h k = ground (arith, str_lt_trans s t u)

-- Of two different texts one is smaller.
pub str_lt_total : (s t : Str) → str_eq s t ≡ false → str_lt s t ≡ false → str_lt t s ≡ true
unfolding str_lt str_eq
str_lt_total [] [] h k = absurd (cc)
str_lt_total [] (b ∷ t) h k = absurd (cc)
str_lt_total (a ∷ s) [] h k = refl
str_lt_total (a ∷ s) (b ∷ t) h k = ground (arith, str_lt_total s t)

module _ {ℓ} {V : Type ℓ} where
  pub lookup-put :
      (key other : Str) (new : V) (m : Map V)
      → lookup other (put key new m) ≡ (if str_eq key other then some new else lookup other m)
  unfolding lookup put
  lookup-put key other new [] = refl
  lookup-put key other new ((name, value) ∷ rest) = ground (
    arith,
    str_eq_iff name key,
    str_eq_iff name other,
    str_eq_iff key other,
    lookup-put key other new rest,
  )

  -- The keys of a map stand in strictly increasing order.
  abbrev pub Below : Str → Map V → Type 0
  Below k [] = Unit
  Below k ((j, v) ∷ m) = (str_lt k j ≡ true) × Below k m

  abbrev pub IsOrdered : Map V → Type 0
  IsOrdered [] = Unit
  IsOrdered ((k, v) ∷ m) = Below k m × IsOrdered m

  Below-trans : (k j : Str) (m : Map V) → str_lt k j ≡ true → Below j m → Below k m
  Below-trans k j [] h b = tt
  Below-trans k j ((i, v) ∷ m) h (c, b) = (str_lt_trans k j i h c, Below-trans k j m h b)

  Below-put :
      (k key : Str) (new : V) (m : Map V)
      → str_lt k key ≡ true
      → Below k m
      → Below k (put key new m)
  unfolding put
  Below-put k key new [] h b = (h, tt)
  Below-put k key new ((j, v) ∷ m) h (c, b) = elim (Bool-cases (str_eq j key)) [
    | inl e ↦ rw e (h, b)
    | inr e ↦ elim (Bool-cases (str_lt key j)) [
      | inl f ↦ rw (e, f) (h, (c, b))
      | inr f ↦ rw (e, f) (c, Below-put k key new m h b)
    ]
  ]

  pub put-IsOrdered : (key : Str) (new : V) (m : Map V) → IsOrdered m → IsOrdered (put key new m)
  unfolding put
  put-IsOrdered key new [] h = (tt, tt)
  put-IsOrdered key new ((j, v) ∷ m) (b, h) = elim (Bool-cases (str_eq j key)) [
    | inl e ↦ let same = (str_eq_iff j key).0 e in rw (e, ← same) (b, h)
    | inr e ↦ elim (Bool-cases (str_lt key j)) [
      | inl f ↦ rw (e, f) ((f, Below-trans key j m f b), (b, h))
      | inr f ↦
          rw (e, f)
            (Below-put j key new m (str_lt_total key j (other e) f) b, put-IsOrdered key new m h)
    ]
  ]
    where
      other : str_eq j key ≡ false → str_eq key j ≡ false
      other e = ground (arith, str_eq_iff j key, str_eq_iff key j)

pub same_map_iff : (m n : Map Str) → (same_map m n ≡ true) ↔ (m ≡ n)
unfolding same_map
same_map_iff [] [] = ((λ _. refl), λ _. refl)
same_map_iff [] ((k, w) ∷ n) = ((λ h. cc), λ h. cc)
same_map_iff ((j, v) ∷ m) [] = ((λ h. cc), λ h. cc)
same_map_iff ((j, v) ∷ m) ((k, w) ∷ n) =
    ground (arith, same_map_iff m n, str_eq_iff j k, str_eq_iff v w)

module _ {ℓ} {V : Type ℓ} where
  Below-lookup : (k j : Str) (m : Map V) → Below k m → lookup j m ≢ none → str_lt k j ≡ true
  unfolding lookup
  Below-lookup k j [] b h = absurd (h refl)
  Below-lookup k j ((i, v) ∷ m) (c, b) h = elim (Bool-cases (str_eq i j)) [
    | inl e ↦ rw (← (str_eq_iff i j).0 e) c
    | inr e ↦ Below-lookup k j m b (λ q. h (rw e q))
  ]

  -- In an ordered map the lookups say what every entry satisfies.
  pub All-lookup {κ} :
      (P : Str → V → Type κ) (m : Map V)
      → IsOrdered m
      → ((k : Str) (v : V) → lookup k m ≡ some v → P k v)
      → All (λ (e : Str × V). P e.0 e.1) m
  unfolding lookup
  All-lookup P [] o f = tt
  All-lookup P ((k, v) ∷ m) (b, o) f = (
    f k v (rw (str_eq_refl k) refl),
    All-lookup P m o λ j w q.
        f j w
          (elim (Bool-cases (str_eq k j)) [ inr e ↦ rw e q | inl e ↦ absurd (later k j m b q e) ]),
  )
    where
      later :
          (k j : Str) (m : Map V) {w : V} → Below k m → lookup j m ≡ some w → str_eq k j ≡ true → ⊥
      later k j m b q e =
          let same = (str_eq_iff k j).0 e in
          let less = Below-lookup k j m b (λ n. cc) in
          let self = subst (λ x. str_lt k x ≡ true) (sym same) less in
          let strict = str_lt_irrefl k in cc
