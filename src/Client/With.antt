-- ===== src/Client/With.antt =====
-- src/policy.rs and src/run.rs: the variables that `secd run --with P=B` gives to a program, and the
-- values that are taken out of what it prints. `from_str` is the parser of serde_json; the output of a
-- program is the text that `from_utf8_lossy` makes of its bytes.
pub mod Claimed
pub mod Wanted
pub mod Printed
mod Tests
use secd.Base.{
  Bool, true, false, not, ◌&&◌, ◌||◌, Option, none, some, List, [], ◌∷◌, ◌++◌, if◌then◌else◌,
}
use secd.Base.Text.{Str, codes, str_eq, is_empty, split_once}
use secd.Base.Utf8.{from_utf8}
use secd.Base.Map.{Map, contains_key}
use secd.Base.Ordered.{put}
use secd.Base.Result.{Result, ok, err, ◌>>=◌, ◌>>◌, ok_or}
use secd.Base.Json.{Value, Members, as_str, members, as_object}
use secd.Core.Provider.{Provider, Field}
use secd.Core.Provider.Builtins.{builtins}
use secd.Core.Redact.{redact}
use secd.Client.Bundles.{Bundle, Row}
use secd.Client.Forge.{field_get}

pub record WithSpec : Type 0 where
  pub provider : Str
  pub bundle : Str

abbrev no_with : Result Str WithSpec
no_with = err (codes "expected --with P=B")

unfoldable pub parse_with : Str → Result Str WithSpec
parse_with raw = elim (split_once b'=' raw) [
  | none ↦ no_with
  | some (p, b) ↦
      if is_empty p || is_empty b then no_with else ok (record { provider = p; bundle = b })
]

-- `iter().find(|p| p.name == name)`
unfoldable pub find_provider : Str → List Provider → Option Provider
find_provider name [] = none
find_provider name (p ∷ ps) =
    let rest = find_provider name ps in if str_eq p.name name then some p else rest

unfoldable pub find_bundle : Str → List Bundle → Option Bundle
find_bundle name [] = none
find_bundle name (b ∷ bs) =
    let rest = find_bundle name bs in if str_eq b.name name then some b else rest

abbrev pub provider_of : Str → Result Str Provider
provider_of name = ok_or (find_provider name builtins) (codes "unknown provider " ++ name)

abbrev pub bundle_of : Str → List Bundle → Result Str Bundle
bundle_of name bundles = ok_or (find_bundle name bundles) (codes "unknown bundle " ++ name)

-- The fields of one schema, with the variables that are claimed so far.
unfoldable pub claim_fields : Str → List Field → Map Str → Result Str (Map Str)
claim_fields provider [] claimed = ok claimed
claim_fields provider (f ∷ fs) claimed =
    let rest = claim_fields provider fs (put f.env provider claimed) in
    if contains_key f.env claimed then err (codes "secd: env collision: " ++ f.env) else rest

unfoldable pub claim_all : List WithSpec → Map Str → Result Str (Map Str)
unfolding claim_fields find_provider
claim_all [] claimed = ok claimed
claim_all (s ∷ ss) claimed = do
  schema ← provider_of s.provider
  more ← claim_fields s.provider schema.fields claimed
  claim_all ss more

unfoldable pub check_with_collision : List WithSpec → Result Str (Unit {0})
unfolding claim_all
check_with_collision specs = claim_all specs [] >>= λ _. ok tt

-- `env.insert(field.env, value)`, where the bundle has a value.
abbrev pub set_env : Str → Option Str → Map Str → Map Str
set_env name none env = env
set_env name (some value) env = put name value env

unfoldable pub apply_fields : Bundle → List Field → Map Str → Map Str
unfolding field_get
apply_fields bundle [] env = env
apply_fields bundle (f ∷ fs) env =
    apply_fields bundle fs (set_env f.env (field_get bundle f.key f.env) env)

unfoldable pub apply_all : List WithSpec → List Bundle → Map Str → Result Str (Map Str)
unfolding apply_fields find_provider find_bundle
apply_all [] bundles env = ok env
apply_all (s ∷ ss) bundles env = do
  bundle ← bundle_of s.bundle bundles
  schema ← provider_of s.provider
  apply_all ss bundles (apply_fields bundle schema.fields env)

unfoldable pub apply_with : List WithSpec → List Bundle → Result Str (Map Str)
unfolding check_with_collision apply_all
apply_with specs bundles = check_with_collision specs >> apply_all specs bundles []

abbrev pub push_text : Option Str → List Str → List Str
push_text none out = out
push_text (some t) out = if is_empty t then out else t ∷ out

-- The members of an object that are texts and not empty.
unfoldable pub text_values : List (Str × Value) → List Str
text_values [] = []
text_values ((_, v) ∷ ms) = push_text (as_str (some v)) (text_values ms)

unfoldable pub env_values : Map Str → List Str
env_values [] = []
env_values ((_, v) ∷ env) = push_text (some v) (env_values env)

-- An object gives its members, any other text itself.
abbrev pub or_members : Str → Option Members → List Str
or_members s none = push_text (some s) []
or_members s (some ms) = text_values (members ms)

module _ (from_str : Str → Option Value) where
  abbrev object_in : Option Value → Option Members
  object_in none = none
  object_in (some v) = as_object v

  abbrev pub values_in : Option Str → List Str
  values_in none = []
  values_in (some s) = or_members s (object_in (from_str s))

  -- The values of the entries that are texts.
  unfoldable pub redact_values : List Row → List Str
  unfolding text_values from_utf8
  redact_values [] = []
  redact_values (e ∷ es) = values_in (from_utf8 e.value.as_bytes) ++ redact_values es

  -- What `run` prints of the output of a program, standard error likewise.
  unfoldable pub printed : List Row → Map Str → Str → Str
  unfolding redact redact_values env_values
  printed entries env output = redact output (redact_values entries ++ env_values env)
