-- ===== src/Base/Map.antt =====
-- A `HashMap` with text keys as an association list with at most one entry for each key.
use mathlib.Core.Path.{◌≡◌, refl, subst}
use mathlib.Core.Logic.{inl, inr}
use mathlib.Core.Bool.{Bool, true, false, ◌&&◌}
use mathlib.Core.Option.{Option, none, some}
use mathlib.Core.List.{List, [], ◌∷◌}
use native.Mathlib.Omega.{arith}
use secd.Base.Bools.{if◌then◌else◌, Bool-cases}
use secd.Base.Text.{Str, str_eq, str_eq_iff, str_eq_refl}

abbrev pub Map {ℓ} : Type ℓ → Type ℓ
Map V = List (Str × V)

module _ {ℓ} {V : Type ℓ} where
  unfoldable pub lookup : Str → Map V → Option V
  lookup key [] = none
  lookup key ((name, value) ∷ rest) = if str_eq name key then some value else lookup key rest

  -- A present key keeps its place.
  unfoldable pub insert : Str → V → Map V → Map V
  insert key new [] = (key, new) ∷ []
  insert key new ((name, value) ∷ rest) =
      let inserted = insert key new rest in
      if str_eq name key then (key, new) ∷ rest else (name, value) ∷ inserted

  unfoldable pub remove : Str → Map V → Map V
  remove key [] = []
  remove key ((name, value) ∷ rest) =
      let removed = remove key rest in if str_eq name key then removed else (name, value) ∷ removed

  -- `retain` by a test on the value
  unfoldable pub retain : (V → Bool) → Map V → Map V
  retain keep [] = []
  retain keep ((name, value) ∷ rest) =
      let kept = retain keep rest in if keep value then (name, value) ∷ kept else kept

  abbrev pub contains_key : Str → Map V → Bool
  contains_key key m = elim (lookup key m) [ none ↦ false | some _ ↦ true ]

  pub lookup-insert :
      (key other : Str) (new : V) (m : Map V)
      → lookup other (insert key new m) ≡ (if str_eq key other then some new else lookup other m)
  unfolding lookup insert
  lookup-insert key other new [] = refl
  lookup-insert key other new ((name, value) ∷ rest) = ground (
    arith,
    str_eq_iff name key,
    str_eq_iff name other,
    str_eq_iff key other,
    lookup-insert key other new rest,
  )

  pub lookup-remove :
      (k j : Str) (m : Map V) → lookup j (remove k m) ≡ (if str_eq k j then none else lookup j m)
  unfolding lookup remove
  lookup-remove k j [] = ground arith
  lookup-remove k j ((i, w) ∷ m) =
      ground (arith, str_eq_iff k j, str_eq_iff i k, str_eq_iff i j, lookup-remove k j m)

-- A map invariant that `retain` uses: no key stands twice.
module _ {ℓ} {V : Type ℓ} where
  abbrev pub HasNodupKeys : Map V → Type ℓ
  HasNodupKeys [] = Unit
  HasNodupKeys ((k, v) ∷ m) = (lookup k m ≡ none) × HasNodupKeys m

  abbrev pub filtered : (V → Bool) → Option V → Option V
  filtered p none = none
  filtered p (some v) = if p v then some v else none

  pub lookup-retain :
      (p : V → Bool) (k : Str) (m : Map V)
      → HasNodupKeys m
      → lookup k (retain p m) ≡ filtered p (lookup k m)
  unfolding lookup retain
  lookup-retain p k [] h = refl
  lookup-retain p k ((j, v) ∷ m) h = ground (arith, str_eq_iff j k, lookup-retain p k m)

  pub lookup-retain_absent :
      (p : V → Bool) (k : Str) (m : Map V) → lookup k m ≡ none → lookup k (retain p m) ≡ none
  unfolding lookup retain
  lookup-retain_absent p k [] h = refl
  lookup-retain_absent p k ((j, v) ∷ m) h = ground (arith, lookup-retain_absent p k m)

  pub retain-HasNodupKeys : (p : V → Bool) (m : Map V) → HasNodupKeys m → HasNodupKeys (retain p m)
  unfolding retain
  retain-HasNodupKeys p [] h = tt
  retain-HasNodupKeys p ((j, v) ∷ m) (fresh, h) = elim (Bool-cases (p v)) [
    | inl e ↦ rw e (lookup-retain_absent p j m fresh, retain-HasNodupKeys p m h)
    | inr e ↦ rw e (retain-HasNodupKeys p m h)
  ]

  pub remove-HasNodupKeys : (k : Str) (m : Map V) → HasNodupKeys m → HasNodupKeys (remove k m)
  unfolding remove
  remove-HasNodupKeys k [] h = tt
  remove-HasNodupKeys k ((j, v) ∷ m) (fresh, h) = elim (Bool-cases (str_eq j k)) [
    | inl e ↦ rw e (remove-HasNodupKeys k m h)
    | inr e ↦ rw e (
      ground (arith, lookup-remove k j m, str_eq_iff k j, str_eq_iff j k),
      remove-HasNodupKeys k m h,
    )
  ]

  pub insert-HasNodupKeys :
      (k : Str) (v : V) (m : Map V) → HasNodupKeys m → HasNodupKeys (insert k v m)
  unfolding insert lookup
  insert-HasNodupKeys k v [] h = (refl, tt)
  insert-HasNodupKeys k v ((j, w) ∷ m) (fresh, h) = elim (Bool-cases (str_eq j k)) [
    | inl e ↦ rw e (subst (λ i. lookup i m ≡ none) ((str_eq_iff j k).0 e) fresh, h)
    | inr e ↦ rw e (
      ground (arith, lookup-insert k j v m, str_eq_iff k j, str_eq_iff j k),
      insert-HasNodupKeys k v m h,
    )
  ]

-- A test that holds of every value.
module _ {ℓ} {V : Type ℓ} (p : V → Bool) where
  abbrev pub all_values : Map V → Bool
  all_values [] = true
  all_values ((k, v) ∷ m) = p v && all_values m

  pub all_values-retain :
      (q : V → Bool) (m : Map V) → all_values m ≡ true → all_values (retain q m) ≡ true
  unfolding retain
  all_values-retain q [] h = refl
  all_values-retain q ((k, v) ∷ m) h = ground (arith, all_values-retain q m)

  pub all_values-remove :
      (k : Str) (m : Map V) → all_values m ≡ true → all_values (remove k m) ≡ true
  unfolding remove
  all_values-remove k [] h = refl
  all_values-remove k ((j, v) ∷ m) h = ground (arith, all_values-remove k m)

  pub all_values-insert :
      (k : Str) (v : V) (m : Map V)
      → p v ≡ true
      → all_values m ≡ true
      → all_values (insert k v m) ≡ true
  unfolding insert
  all_values-insert k v [] h a = rw h
  all_values-insert k v ((j, w) ∷ m) h a = ground (arith, all_values-insert k v m)

  pub all_values-lookup :
      (k : Str) (v : V) (m : Map V) → all_values m ≡ true → lookup k m ≡ some v → p v ≡ true
  unfolding lookup
  all_values-lookup k v [] a h = absurd (cc)
  all_values-lookup k v ((j, w) ∷ m) a h = ground (arith, all_values-lookup k v m)

module _ {ℓ} {V : Type ℓ} where
  pub lookup-retain_sound :
      (p : V → Bool) (k : Str) (v : V) (m : Map V) → lookup k (retain p m) ≡ some v → p v ≡ true
  unfolding lookup retain
  lookup-retain_sound p k v [] h = absurd (cc)
  lookup-retain_sound p k v ((j, w) ∷ m) h = ground (arith, lookup-retain_sound p k v m)

  -- Behind a `retain` that spares its value, a key names what it named.
  pub lookup-retain_keep :
      (p : V → Bool) (k : Str) (v : V) (m : Map V)
      → HasNodupKeys m
      → lookup k m ≡ some v
      → p v ≡ true
      → lookup k (retain p m) ≡ some v
  lookup-retain_keep p k v m h e t = rw (lookup-retain p k m h, e, t)

  pub lookup-retain_drop :
      (p : V → Bool) (k : Str) (v : V) (m : Map V)
      → HasNodupKeys m
      → lookup k m ≡ some v
      → p v ≡ false
      → lookup k (retain p m) ≡ none
  lookup-retain_drop p k v m h e t = rw (lookup-retain p k m h, e, t)

  pub lookup-insert_same : (k : Str) (v : V) (m : Map V) → lookup k (insert k v m) ≡ some v
  lookup-insert_same k v m = rw (lookup-insert k k v m, str_eq_refl k)

  pub lookup-insert_other :
      (k j : Str) (v : V) (m : Map V) → str_eq k j ≡ false → lookup j (insert k v m) ≡ lookup j m
  lookup-insert_other k j v m h = rw (lookup-insert k j v m, h)
