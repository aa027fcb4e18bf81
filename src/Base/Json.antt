-- ===== src/Base/Json.antt =====
-- `serde_json::Value`. An object is its members in order; the keys of an object that serde_json parsed
-- are distinct.
use Prim.Native.Nat.{ℕ}
use mathlib.Core.Bool.{Bool}
use mathlib.Core.Option.{Option, none, some}
use mathlib.Core.List.{List, [], ◌∷◌}
use secd.Base.Bools.{if◌then◌else◌}
use secd.Base.Text.{Str, str_eq}

-- `serde_json::Number`: a natural number, `-1 - n`, or a float, which no code of the program reads.
pub data Number : Type 0 where
  pos_int : ℕ → Number
  neg_int : ℕ → Number
  float : Str → Number

mutual
  pub data Value : Type 0 where
    null : Value
    bool : Bool → Value
    number : Number → Value
    string : Str → Value
    array : Items → Value
    object : Members → Value

  pub data Items : Type 0 where
    nil : Items
    cons : Value → Items → Items

  pub data Members : Type 0 where
    end : Members
    member : Str → Value → Members → Members

abbrev pub items : Items → List Value
items nil = []
items (cons v vs) = v ∷ items vs

abbrev pub members : Members → List (Str × Value)
members end = []
members (member k v ms) = (k, v) ∷ members ms

-- `obj.get(key)`
abbrev pub get : Str → Members → Option Value
get k end = none
get k (member j v ms) = if str_eq j k then some v else get k ms

abbrev pub as_str : Option Value → Option Str
as_str (some (string s)) = some s
as_str _ = none

abbrev pub natural : ℕ → Value
natural n = number (pos_int n)

-- The members of `json!({...})`.
abbrev pub object_of : List (Str × Value) → Members
object_of [] = end
object_of ((k, v) ∷ ms) = member k v (object_of ms)

abbrev pub array_of : List Value → Items
array_of [] = nil
array_of (v ∷ vs) = cons v (array_of vs)

abbrev pub json_object : List (Str × Value) → Value
json_object ms = object (object_of ms)

abbrev pub keys : Members → List Str
keys end = []
keys (member k v ms) = k ∷ keys ms

abbrev pub as_bool : Option Value → Option Bool
as_bool (some (bool b)) = some b
as_bool _ = none

abbrev pub as_array : Option Value → Option Items
as_array (some (array vs)) = some vs
as_array _ = none

abbrev pub as_object : Value → Option Members
as_object (object ms) = some ms
as_object _ = none

-- `v.get(key)`: `None` where `v` is no object.
abbrev pub value_get : Str → Value → Option Value
value_get k (object ms) = get k ms
value_get k _ = none

abbrev pub unwrap_or {ℓ} : {A : Type ℓ} → A → Option A → A
unwrap_or d none = d
unwrap_or d (some a) = a
