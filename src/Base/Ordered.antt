-- ===== src/Base/Ordered.antt =====
-- The order of texts, `sort`, and `BTreeMap` with text keys as the list of its entries in order.
pub mod Laws
use mathlib.Core.Bool.{Bool, true, false, ◌&&◌, ◌||◌}
use mathlib.Core.List.{List, [], ◌∷◌}
use secd.Base.Bools.{ltb, ◌==◌, if◌then◌else◌}
use secd.Base.Text.{Str, str_eq}
use secd.Base.Map.{Map}

-- `s < t`: byte by byte
unfoldable pub str_lt : Str → Str → Bool
str_lt s [] = false
str_lt [] (_ ∷ _) = true
str_lt (a ∷ s) (b ∷ t) = ltb a b || (a == b && str_lt s t)

unfoldable pub insert_name : Str → List Str → List Str
unfolding str_lt
insert_name n [] = n ∷ []
insert_name n (m ∷ ms) = let rest = insert_name n ms in if str_lt m n then m ∷ rest else n ∷ m ∷ ms

-- `names.sort()`
unfoldable pub sort : List Str → List Str
unfolding insert_name
sort [] = []
sort (n ∷ ns) = insert_name n (sort ns)

-- `names.iter().any(|n| n == name)`
unfoldable pub has : Str → List Str → Bool
has n [] = false
has n (m ∷ ms) = str_eq m n || has n ms

module _ {ℓ} {V : Type ℓ} where
  -- `map.insert(key, new)`
  unfoldable pub put : Str → V → Map V → Map V
  unfolding str_lt
  put key new [] = (key, new) ∷ []
  put key new ((name, value) ∷ rest) =
      let later = put key new rest in
      if str_eq name key
      then (key, new) ∷ rest
      else if str_lt key name
      then (key, new) ∷ (name, value) ∷ rest
      else (name, value) ∷ later

-- `==` of two maps of texts
unfoldable pub same_map : Map Str → Map Str → Bool
same_map [] [] = true
same_map [] (_ ∷ _) = false
same_map (_ ∷ _) [] = false
same_map ((j, v) ∷ m) ((k, w) ∷ n) = (str_eq j k && str_eq v w) && same_map m n
