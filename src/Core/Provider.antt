-- ===== src/Core/Provider.antt =====
-- crates/secd-core/src/provider.rs: provider schemas, the search for a provider by field keys, and the
-- payload of a credential.
pub mod Builtins
pub mod Infer
pub mod Payload
mod Tests
use secd.Base.{
  ℕ, Bool, true, false, not, ◌&&◌, Option, none, some, List, [], ◌∷◌, map, any, all, if◌then◌else◌,
}
use secd.Base.Text.{Str, codes, str_eq, is_empty}
use secd.Base.Trim.{trim}

pub record Field : Type 0 where
  pub key : Str
  pub secret : Bool
  pub optional : Bool
  pub env : Str

pub record Provider : Type 0 where
  pub name : Str
  pub title : Str
  pub fields : List Field

abbrev pub has_key : Str → Field → Bool
has_key k f = str_eq f.key k

-- A schema that has all of the keys.
abbrev pub covers : List Str → Provider → Bool
covers keys p = all (λ k. any (has_key k) p.fields) keys

unfoldable pub filter_names : List Str → List Provider → List Str
filter_names keys [] = []
filter_names keys (p ∷ ps) =
    let rest = filter_names keys ps in if covers keys p then p.name ∷ rest else rest

-- `candidates` and `infer` over the list of providers, which the source fixes to the built-in ones.
unfoldable pub candidates : List Provider → List Str → List Str
candidates ps keys = if is_empty keys then [] else filter_names keys ps

abbrev pub only : List Str → Option Str
only (n ∷ []) = some n
only _ = none

unfoldable pub infer : List Provider → List Str → Option Str
infer ps keys = only (candidates ps keys)

-- The first value of a key, or the empty text.
unfoldable pub value_of : Str → List (Str × Str) → Str
value_of k [] = []
value_of k ((j, v) ∷ vs) = let rest = value_of k vs in if str_eq j k then v else rest

abbrev pub put_first : Str × Str → Option (List (Str × Str)) → Option (List (Str × Str))
put_first e none = none
put_first e (some out) = some (e ∷ out)

unfoldable pub build_payload : List Field → List (Str × Str) → Option (List (Str × Str))
build_payload [] values = some []
build_payload (f ∷ fs) values =
    let rest = build_payload fs values in
    let v = trim (value_of f.key values) in
    if is_empty v then (if f.optional then rest else none) else put_first (f.key, v) rest
