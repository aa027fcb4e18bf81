-- ===== src/Client/Bundles.antt =====
-- src/policy.rs: which entries of the vault stand for one credential. The parser of serde_json is a
-- parameter: `from_slice` gives the value of a JSON text.
use secd.Base.{
  Bool, true, false, not, ◌&&◌, ◌||◌, Option, none, some, List, [], ◌∷◌, ◌++◌, map, length, any,
  ltb, if◌then◌else◌,
}
use secd.Base.Text.{Str, codes, str_eq, is_empty, strip_prefix, rsplit_once, lower_byte}
use secd.Base.Utf8.{from_utf8}
use secd.Base.Map.{Map, lookup, contains_key}
use secd.Base.Ordered.{put, has}
use secd.Base.Json.{Value, string, members, value_get, as_str, as_object}
use secd.Core.Aead.{Secret}
use secd.Core.Provider.{Provider, infer, candidates}
use secd.Core.Provider.Builtins.{builtins}

-- One entry of a save.
pub record Row : Type 0 where
  pub name : Str
  pub value : Secret
  pub meta : Value

pub record Bundle : Type 0 where
  pub name : Str
  pub provider : Str
  pub fields : Map Str

pub record BundleShape : Type 0 where
  pub name : Str
  pub provider : Option Str
  pub members : List Str

abbrev pub lower : Str → Str
lower = map lower_byte

abbrev pub is_some {ℓ} : {A : Type ℓ} → Option A → Bool
is_some none = false
is_some (some _) = true

abbrev or_else {ℓ} : {A : Type ℓ} → Option A → Option A → Option A
or_else (some a) later = some a
or_else none later = later

abbrev unwrap_or : Option Str → Str → Str
unwrap_or none d = d
unwrap_or (some s) d = s

unfoldable pub looks_gitea : Map Str → Bool
looks_gitea fields =
    (contains_key (codes "token") fields || contains_key (codes "GITEA_TOKEN") fields)
    && (contains_key (codes "url") fields || contains_key (codes "GITEA_URL") fields)

abbrev named : Str → Provider → Bool
named p x = str_eq x.name p

-- The first step: a provider of the meta that is built in.
abbrev of_meta : Option Str → Option Str
of_meta none = none
of_meta (some p) = if any (named p) builtins then some p else none

abbrev without_gitea : Str → Str
without_gitea k = unwrap_or (strip_prefix (codes "GITEA_") k) k

unfoldable pub resolve_provider : List Str → Option Str → Map Str → Option Str
unfolding looks_gitea
resolve_provider keys meta fields = or_else (of_meta meta) (
    or_else (infer builtins keys) (
      or_else (infer builtins (map (λ k. lower (without_gitea k)) keys))
        (if looks_gitea fields then some (codes "gitea") else none)))

abbrev provider_of : Value → Option Str
provider_of meta = as_str (value_get (codes "provider") meta)

-- `fields` and `keys` of an object: its members that are texts.
abbrev text_member : Str → Value → Map Str × List Str → Map Str × List Str
text_member k (string s) (fields, keys) = (put k s fields, keys ++ k ∷ [])
text_member k _ found = found

unfoldable pub text_members : List (Str × Value) → Map Str × List Str → Map Str × List Str
text_members [] found = found
text_members ((k, v) ∷ ms) found = text_members ms (text_member k v found)

abbrev bundle_as : Str → Map Str → Option Str → Option Bundle
bundle_as name fields none = none
bundle_as name fields (some p) = some (record { name = name; provider = p; fields = fields })

module _ (from_slice : Str → Option Value) where
  abbrev object_in : Secret → Option (List (Str × Value))
  object_in value = elim (from_slice value.as_bytes) [
    | none ↦ none
    | some v ↦ elim (as_object v) [ none ↦ none | some ms ↦ some (members ms) ]
  ]

  unfoldable pub json_bundle : Row → Option Bundle
  unfolding text_members resolve_provider
  json_bundle row = elim (object_in row.value) [
    | none ↦ none
    | some ms ↦
        let (fields, keys) = text_members ms ([], []) in
        if is_empty ms || is_empty fields
        then none
        else bundle_as row.name fields (resolve_provider keys (provider_of row.meta) fields)
  ]

-- One sibling below a parent: the last segment of its name, its value and its meta.
pub record Sibling : Type 0 where
  pub field : Str
  pub value : Secret
  pub meta : Value

-- One round of the loop of `agreed_provider`: the text that agrees so far, or the return of `None`.
unfoldable pub agree : Option Str → List Sibling → Option Str
agree agreed [] = agreed
agree agreed (s ∷ ss) = elim (provider_of s.meta) [
  | none ↦ agree agreed ss
  | some p ↦ elim agreed [
    | none ↦ agree (some p) ss
    | some a ↦ elim (str_eq a p) [ true ↦ agree (some a) ss | false ↦ none ]
  ]
]

unfoldable pub agreed_provider : List Sibling → Option Str
unfolding agree
agreed_provider siblings = agree none siblings

abbrev or_default : Option (List Sibling) → List Sibling
or_default none = []
or_default (some ss) = ss

-- `by_parent.entry(parent).or_default().push(..)`
abbrev push_sibling : Str → Sibling → Map (List Sibling) → Map (List Sibling)
push_sibling parent s m = put parent (or_default (lookup parent m) ++ s ∷ []) m

abbrev file_row : Row → Option (Str × Str) → Map (List Sibling) → Map (List Sibling)
file_row row none m = m
file_row row (some (parent, field)) m =
    push_sibling parent (record { field = field; value = row.value; meta = row.meta }) m

-- The rows that are no bundle of their own, by their parents.
unfoldable pub by_parent : List Str → List Row → Map (List Sibling) → Map (List Sibling)
by_parent used [] m = m
by_parent used (row ∷ rows) m =
    by_parent used rows
      (if has row.name used then m else file_row row (rsplit_once b'/' row.name) m)

abbrev read_sibling : Sibling → Option Str → Map Str × List Str → Map Str × List Str
read_sibling s none found = found
read_sibling s (some text) (fields, keys) = (put s.field text fields, keys ++ s.field ∷ [])

-- `map` and `keys` of one parent: the siblings that are UTF-8.
unfoldable pub read_siblings : List Sibling → Map Str × List Str → Map Str × List Str
read_siblings [] found = found
read_siblings (s ∷ ss) found = read_siblings ss (read_sibling s (from_utf8 s.value.as_bytes) found)

unfoldable pub sibling_bundles : Map (List Sibling) → List Bundle
unfolding read_siblings resolve_provider agreed_provider
sibling_bundles [] = []
sibling_bundles ((parent, ss) ∷ m) =
    let later = sibling_bundles m in
    let (fields, keys) = read_siblings ss ([], []) in
    elim (bundle_as parent fields (resolve_provider keys (agreed_provider ss) fields)) [
      | none ↦ later
      | some b ↦ b ∷ later
    ]

abbrev member_name : Str → Str → Str
member_name parent k = parent ++ b'/' ∷ k

unfoldable pub sibling_shapes : Map (List Sibling) → List BundleShape
unfolding read_siblings resolve_provider agreed_provider
sibling_shapes [] = []
sibling_shapes ((parent, ss) ∷ m) =
    let later = sibling_shapes m in
    let (fields, keys) = read_siblings ss ([], []) in
    let provider = resolve_provider keys (agreed_provider ss) fields in
    if ltb (length keys) 2
    then later
    else if not (is_some provider) && is_empty (candidates builtins keys)
    then later
    else record { name = parent; provider = provider; members = map (member_name parent) keys }
      ∷ later

module _ (from_slice : Str → Option Value) where
  -- The first loop: the bundles among the rows, and the names of their rows.
  unfoldable pub json_bundles : List Row → List Bundle × List Str
  unfolding json_bundle
  json_bundles [] = ([], [])
  json_bundles (row ∷ rows) =
      let (bundles, used) = json_bundles rows in
      elim (json_bundle from_slice row) [
        | none ↦ (bundles, used)
        | some b ↦ (b ∷ bundles, row.name ∷ used)
      ]

  unfoldable pub bundles_of : List Row → List Bundle
  unfolding json_bundles by_parent sibling_bundles
  bundles_of rows =
      let (bundles, used) = json_bundles rows in bundles ++ sibling_bundles (by_parent used rows [])

  abbrev shape_of : Bundle → BundleShape
  shape_of b = record { name = b.name; provider = some b.provider; members = b.name ∷ [] }

  unfoldable pub shapes_of : List Row → List BundleShape
  unfolding json_bundles by_parent sibling_shapes
  shapes_of rows =
      let (bundles, used) = json_bundles rows in
      map shape_of bundles ++ sibling_shapes (by_parent used rows [])
