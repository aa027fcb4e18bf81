-- ===== src/Client/Register/Detail.antt =====
-- src/tui/model.rs: the detail pane, and what the clipboard gets from it.
use secd.Base.{
  ℕ, ◌-◌, Bool, true, false, not, Option, none, some, List, [], ◌∷◌, ◌++◌, map, length, any, ◌==◌,
  between, if◌then◌else◌,
}
use secd.Base.Text.{Str, codes, str_eq, is_empty, rsplit_once}
use secd.Base.Utf8.{from_utf8}
use secd.Base.Decimal.{decimal}
use secd.Base.Map.{lookup, contains_key}
use secd.Base.Json.{Value, string, members, value_get, as_str, as_object}
use secd.Core.Aead.{Secret}
use secd.Core.Provider.{Field, infer}
use secd.Core.Provider.Builtins.{builtins}
use secd.Client.Form.{Schema}
use secd.Client.Tree.{Row, sole}
use secd.Client.Register.{Model, DetailRow, selected_row, or_else}

abbrev text_in : Option Secret → Option Str
text_in none = none
text_in (some s) = from_utf8 s.as_bytes

-- The plaintext of an entry, where it is text.
unfoldable pub plaintext : Str → Model → Option Str
plaintext name m = text_in (lookup name m.values)

abbrev pair_with : Str → Value → Option (List (Str × Str)) → Option (List (Str × Str))
pair_with k (string s) (some out) = some ((k, s) ∷ out)
pair_with k _ _ = none

unfoldable pub all_texts : List (Str × Value) → Option (List (Str × Str))
all_texts [] = some []
all_texts ((k, v) ∷ ms) = pair_with k v (all_texts ms)

abbrev pairs_of : Option Value → Option (List (Str × Str))
pairs_of none = none
pairs_of (some v) = elim (as_object v) [
  | none ↦ none
  | some obj ↦ if is_empty (members obj) then none else all_texts (members obj)
]

-- An object whose values are all texts; `from_str` is the parser of serde_json.
unfoldable pub bundle_pairs : (Str → Option Value) → Str → Option (List (Str × Str))
unfolding all_texts
bundle_pairs from_str text = pairs_of (from_str text)

-- `schemas.iter().find(|s| s.name == want)`
unfoldable pub find_schema : Str → List Schema → Option Schema
find_schema want [] = none
find_schema want (s ∷ ss) =
    let rest = find_schema want ss in if str_eq s.name want then some s else rest

abbrev pub schema_named : Option Str → List Schema → Option Schema
schema_named none ss = none
schema_named (some p) ss = find_schema p ss

abbrev meta_provider : Option Value → Option Str
meta_provider none = none
meta_provider (some v) = as_str (value_get (codes "provider") v)

abbrev key_of : Str × Str → Str
key_of (k, v) = k

unfoldable pub bundle_of :
    (Str → Option Value) → Str → Str → Model → Option (Schema × List (Str × Str))
unfolding bundle_pairs find_schema
bundle_of from_str name text m = elim (bundle_pairs from_str text) [
  | none ↦ none
  | some pairs ↦
      let want = or_else (meta_provider (lookup name m.meta)) (infer builtins (map key_of pairs)) in
      elim (schema_named want m.schemas) [ none ↦ none | some s ↦ some (s, pairs) ]
]

abbrev leaf_or : Str → Option (Str × Str) → Str
leaf_or whole none = whole
leaf_or whole (some (_, k)) = k

-- The last segment of a name.
unfoldable pub leaf : Str → Str
leaf name = leaf_or name (rsplit_once b'/' name)

abbrev pub plain_row : Bool → Str → DetailRow
plain_row secret value = record { key = []; env = []; secret = secret; value = value }

unfoldable pub pair_value : Str → List (Str × Str) → Option Str
pair_value k [] = none
pair_value k ((j, v) ∷ ps) = let rest = pair_value k ps in if str_eq j k then some v else rest

-- The rows of the fields that the schema names, in its order.
unfoldable pub known_rows : List Field → List (Str × Str) → List DetailRow
unfolding pair_value
known_rows [] pairs = []
known_rows (f ∷ fs) pairs =
    let rest = known_rows fs pairs in
    elim (pair_value f.key pairs) [
      | none ↦ rest
      | some v ↦ record { key = f.key; env = f.env; secret = f.secret; value = v } ∷ rest
    ]

abbrev names_key : Str → Field → Bool
names_key k f = str_eq f.key k

abbrev masked_row : Str → Str → DetailRow
masked_row k v = record { key = k; env = []; secret = true; value = v }

-- The rows of the keys that it does not name.
unfoldable pub other_rows : List Field → List (Str × Str) → List DetailRow
other_rows fs [] = []
other_rows fs ((k, v) ∷ ps) =
    let rest = other_rows fs ps in if any (names_key k) fs then rest else masked_row k v ∷ rest

-- The title has the middle dot U+00B7 between two spaces.
unfoldable pub push_bundle : Schema → List (Str × Str) → Model → Model
unfolding known_rows other_rows
push_bundle s pairs m =
    let n = length pairs in
    let unit = if n == 1 then codes "field" else codes "fields" in
    record m {
      detail_title =
          s.title
          ++ (codes " " ++ (0xc2 ∷ 0xb7 ∷ (codes " " ++ (decimal n ++ (codes " " ++ unit)))));
      detail = m.detail ++ (known_rows s.fields pairs ++ other_rows s.fields pairs);
    }

abbrev push_row : DetailRow → Model → Model
push_row r m = record m { detail = m.detail ++ r ∷ [] }

abbrev shown_entry : Option (Schema × List (Str × Str)) → Str → Model → Model
shown_entry none text m = push_row (plain_row true text) m
shown_entry (some (s, pairs)) text m = push_bundle s pairs m

unfoldable pub detail_of_entry : (Str → Option Value) → Str → Model → Model
unfolding plaintext bundle_of push_bundle
detail_of_entry from_str name m =
    if not (contains_key name m.values) then m else elim (plaintext name m) [
      | none ↦ push_row (plain_row false (codes "(binary)")) m
      | some text ↦ shown_entry (bundle_of from_str name text m) text m
    ]

abbrev text_or_binary : Option Str → Str
text_or_binary none = codes "(binary)"
text_or_binary (some s) = s

unfoldable pub member_pairs : Model → List Str → List (Str × Str)
unfolding plaintext leaf
member_pairs m [] = []
member_pairs m (n ∷ ns) = (leaf n, text_or_binary (plaintext n m)) ∷ member_pairs m ns

abbrev masked_pair : Str × Str → DetailRow
masked_pair (k, v) = masked_row k v

abbrev pub fused_with : Option Schema → List (Str × Str) → Model → Model
fused_with (some s) pairs m = push_bundle s pairs m
fused_with none pairs m = record m { detail = m.detail ++ map masked_pair pairs }

unfoldable pub detail_of_fused : Row → Model → Model
unfolding member_pairs push_bundle find_schema
detail_of_fused row m =
    fused_with (schema_named row.provider m.schemas) (member_pairs m row.members) m

abbrev pub cleared : Model → Model
cleared m = record m { detail = []; detail_title = []; reveal_all = false }

abbrev pub detail_of_row : (Str → Option Value) → Row → Option Str → Model → Model
detail_of_row from_str row (some name) m = detail_of_entry from_str name m
detail_of_row from_str row none m = detail_of_fused row m

abbrev pub detail_for : (Str → Option Value) → Option Row → Model → Model
detail_for from_str none m = m
detail_for from_str (some row) m = detail_of_row from_str row (sole row) m

unfoldable pub sync_detail : (Str → Option Value) → Model → Model
unfolding detail_of_entry detail_of_fused
sync_detail from_str m = detail_for from_str (selected_row m) (cleared m)

abbrev upper_byte : ℕ → ℕ
upper_byte b = if between b'a' b'z' b then b - 32 else b

abbrev env_line : DetailRow → Str
env_line r =
    let name = if is_empty r.env then map upper_byte r.key else r.env in
    name ++ (b'=' ∷ (r.value ++ 10 ∷ []))

unfoldable pub env_block : List DetailRow → Str
env_block [] = []
env_block (r ∷ rs) = env_line r ++ env_block rs

-- Whether the pane shows one plain value.
unfoldable pub is_one_value : List DetailRow → Bool
is_one_value (r ∷ []) = is_empty r.key
is_one_value _ = false

unfoldable pub copied_text : List DetailRow → Str
unfolding env_block is_one_value
copied_text [] = []
copied_text (r ∷ rs) = if is_one_value (r ∷ rs) then r.value else env_block (r ∷ rs)
