-- ===== src/Client/Forge.antt =====
-- src/policy.rs: which bundle serves git on a host, and what its fields are.
pub mod Picked
pub mod Helper
mod Tests
use secd.Base.{
  ℕ, Bool, true, false, ◌&&◌, Option, none, some, List, [], ◌∷◌, ◌++◌, map, ◌==◌, if◌then◌else◌,
}
use secd.Base.Text.{Str, codes, str_eq, is_empty, strip_prefix}
use secd.Base.Trim.{trim}
use secd.Base.Map.{Map, lookup}
use secd.Client.Bundles.{Bundle, lower, is_some}
use secd.Client.Http.{split_text}

abbrev or_else : Option Str → Option Str → Option Str
or_else none later = later
or_else (some s) later = some s

abbrev replaced : ℕ → ℕ → Str → Str
replaced from into = map (λ b. if b == from then into else b)

unfoldable pub field_get : Bundle → Str → Str → Option Str
field_get bundle key env = or_else (lookup key bundle.fields) (
    or_else (lookup env bundle.fields) (
      or_else (lookup (replaced b'_' b'-' key) bundle.fields)
        (lookup (replaced b'-' b'_' key) bundle.fields)))

pub record Forge : Type 0 where
  pub provider : Str
  pub token : Str × Str
  pub url : Str × Str
  pub user : Str × Str
  pub host : Option Str

abbrev pub forges : List Forge
forges =
    record {
      provider = codes "gitea";
      token = (codes "token", codes "GITEA_TOKEN");
      url = (codes "url", codes "GITEA_URL");
      user = (codes "user", codes "GITEA_USER");
      host = none;
    }
    ∷ record {
      provider = codes "github";
      token = (codes "token", codes "GITHUB_TOKEN");
      url = (codes "url", codes "GITHUB_URL");
      user = (codes "user", codes "GITHUB_USER");
      host = some (codes "github.com");
    }
    ∷ record {
      provider = codes "gitlab";
      token = (codes "token", codes "GITLAB_TOKEN");
      url = (codes "url", codes "GITLAB_URL");
      user = (codes "user", codes "GITLAB_USER");
      host = some (codes "gitlab.com");
    }
    ∷ []

unfoldable pub forge_in : Str → List Forge → Option Forge
forge_in provider [] = none
forge_in provider (f ∷ fs) =
    let rest = forge_in provider fs in if str_eq f.provider provider then some f else rest

abbrev pub forge : Str → Option Forge
forge provider = forge_in provider forges

abbrev cons_front : ℕ → Option Str → Option Str
cons_front b none = none
cons_front b (some s) = some (b ∷ s)

unfoldable pub strip_suffix : Str → Str → Option Str
strip_suffix p [] = if is_empty p then some [] else none
strip_suffix p (b ∷ s) =
    let rest = cons_front b (strip_suffix p s) in if str_eq (b ∷ s) p then some [] else rest

abbrev text_or : Str → Option Str → Str
text_or s none = s
text_or s (some t) = t

unfoldable pub strip_default_port : Str → Str
unfolding strip_suffix
strip_default_port host =
    text_or host (or_else (strip_suffix (codes ":443") host) (strip_suffix (codes ":80") host))

-- `trim_end_matches('/')`
unfoldable pub trim_slashes : Str → Str
trim_slashes [] = []
trim_slashes (b ∷ s) =
    let rest = trim_slashes s in if b == b'/' && is_empty rest then [] else b ∷ rest

-- `s.split('/').next()`
unfoldable pub before_slash : Str → Str
before_slash [] = []
before_slash (b ∷ s) = let rest = before_slash s in if b == b'/' then [] else b ∷ rest

abbrev scheme_end : Str
scheme_end = codes "://"

abbrev origin_of : Str → Option Str → Option Str → Str
origin_of raw (some rest) http = codes "https://" ++ before_slash rest
origin_of raw none (some rest) = codes "http://" ++ before_slash rest
origin_of raw none none = codes "https://" ++ raw

unfoldable pub origin_url : Str → Str
unfolding trim_slashes before_slash
origin_url raw =
    let raw = trim_slashes (trim raw) in
    origin_of raw (strip_prefix (codes "https://") raw) (strip_prefix (codes "http://") raw)

abbrev before_next : Str → Option (Str × Str) → Str
before_next s none = s
before_next s (some (l, r)) = l

-- `split("://").nth(1)`
abbrev second_part : Option (Str × Str) → Option Str
second_part none = none
second_part (some (l, r)) = some (before_next r (split_text scheme_end r))

abbrev host_part : Option Str → Option Str
host_part none = none
host_part (some s) = some (strip_default_port (before_slash s))

unfoldable pub host_of_url : Str → Option Str
unfolding origin_url before_slash strip_default_port
host_of_url raw = host_part (second_part (split_text scheme_end (origin_url raw)))

-- `eq_ignore_ascii_case`
abbrev pub same_host : Str → Option Str → Bool
same_host want none = false
same_host want (some h) = str_eq (lower h) (lower want)

unfoldable pub hosts_match : Str → Str → Bool
unfolding host_of_url strip_default_port
hosts_match bundle_url requested =
    same_host (strip_default_port (trim requested)) (host_of_url bundle_url)

abbrev host_by : Option Forge → Bundle → Option Str
host_by none b = none
host_by (some f) b = elim (field_get b f.url.0 f.url.1) [
  | some url ↦ host_of_url url
  | none ↦ f.host
]

unfoldable pub forge_host : Bundle → Option Str
unfolding forge_in field_get host_of_url
forge_host b = host_by (forge b.provider) b

abbrev https_of : Option Str → Option Str
https_of none = none
https_of (some h) = some (codes "https://" ++ h)

abbrev origin_by : Option Forge → Bundle → Option Str
origin_by none b = none
origin_by (some f) b = elim (field_get b f.url.0 f.url.1) [
  | some url ↦ some (origin_url url)
  | none ↦ https_of f.host
]

unfoldable pub forge_origin : Bundle → Option Str
unfolding forge_in field_get origin_url
forge_origin b = origin_by (forge b.provider) b

abbrev token_by : Option Forge → Bundle → Option Str
token_by none b = none
token_by (some f) b = field_get b f.token.0 f.token.1

unfoldable pub forge_token : Bundle → Option Str
unfolding forge_in field_get
forge_token b = token_by (forge b.provider) b

abbrev user_by : Option Forge → Bundle → Option Str
user_by none b = none
user_by (some f) b = field_get b f.user.0 f.user.1

unfoldable pub forge_user : Bundle → Str
unfolding forge_in field_get
forge_user b = text_or (codes "git") (user_by (forge b.provider) b)

abbrev pub serves : Str → Bundle → Bool
serves host b = is_some (forge_token b) && same_host host (forge_host b)

unfoldable pub ready : Str → List Bundle → List Bundle
unfolding forge_token forge_host
ready host [] = []
ready host (b ∷ bs) = let rest = ready host bs in if serves host b then b ∷ rest else rest

unfoldable pub named : Str → List Bundle → Option Bundle
named name [] = none
named name (b ∷ bs) = let rest = named name bs in if str_eq b.name name then some b else rest

abbrev pub only_one : List Bundle → Option Bundle
only_one (b ∷ []) = some b
only_one _ = none

abbrev pub picked : Option Str → List Bundle → Option Bundle
picked (some name) bs = named name bs
picked none bs = only_one bs

unfoldable pub pick_forge : List Bundle → Option Str → Str → Option Bundle
unfolding ready named strip_default_port
pick_forge bundles want host = picked want (ready (strip_default_port (trim host)) bundles)
