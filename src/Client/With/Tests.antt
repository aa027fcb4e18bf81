-- ===== src/Client/With/Tests.antt =====
-- `secd run` with a bundle of GitHub, and what it prints.
use secd.Base.{◌≤◌, true, false, ◌≡◌, refl, inl, inr, Option, none, some, List, [], ◌∷◌}
use secd.Base.Text.{Str, codes, str_eq, split_once, contains, starts_with}
use secd.Base.Map.{Map, lookup}
use secd.Base.Ordered.{put, str_lt}
use secd.Base.Result.{ok, err}
use secd.Base.Utf8.{from_utf8, decode, read, lead}
use secd.Base.Json.{object, end}
use secd.Core.Provider.Builtins.{builtins}
use secd.Client.Bundles.{Bundle, Row}
use secd.Client.Forge.{field_get}
use secd.Client.With.{
  WithSpec, parse_with, find_provider, find_bundle, claim_fields, claim_all, check_with_collision,
  apply_fields, apply_all, apply_with, printed,
}
use secd.Client.With.Claimed.{declared}
use secd.Client.With.Wanted.{wanted, apply_with_lem}
use secd.Client.With.Printed.{not_json, printed_hides}

abbrev spec : WithSpec
spec = record { provider = codes "github"; bundle = codes "gh" }

abbrev bundle : Bundle
bundle = record {
  name = codes "gh";
  provider = codes "github";
  fields = (codes "token", codes "t0k") ∷ (codes "GITHUB_USER", codes "me") ∷ [];
}

abbrev variables : Map Str
variables = (codes "GITHUB_TOKEN", codes "t0k") ∷ (codes "GITHUB_USER", codes "me") ∷ []

parses : parse_with (codes "github=gh") ≡ ok spec
unfolding parse_with split_once
parses = refl

-- Two schemas with one variable are refused.
collides :
    apply_with
      (record { provider = codes "aws"; bundle = codes "a" }
        ∷ record { provider = codes "s3"; bundle = codes "b" }
        ∷ [])
      []
    ≡ err (codes "secd: env collision: AWS_ACCESS_KEY_ID")
unfolding apply_with check_with_collision claim_all claim_fields find_provider builtins lookup put
    str_eq str_lt
collides = refl

applied : apply_with (spec ∷ []) (bundle ∷ []) ≡ ok variables
unfolding apply_with check_with_collision claim_all claim_fields find_provider builtins lookup put
    str_eq str_lt apply_all apply_fields find_bundle field_get
applied = refl

apply_with_lem_example :
    (declared (spec ∷ []) (codes "GITHUB_USER") ≤ 1)
    × (lookup (codes "GITHUB_USER") variables
        ≡ wanted (spec ∷ []) (bundle ∷ []) (codes "GITHUB_USER"))
apply_with_lem_example =
    apply_with_lem (spec ∷ []) (bundle ∷ []) variables (codes "GITHUB_USER") applied

abbrev entry : Row
entry = record {
  name = codes "db/password";
  value = record { as_bytes = codes "hunter2" };
  meta = object end;
}

abbrev no_json : Str → Option secd.Base.Json.Value
no_json s = none

printed_hides_example :
    contains (codes "hunter2") (printed no_json (entry ∷ []) variables (codes "pw=hunter2")) ≡ false
unfolding contains starts_with from_utf8 decode read lead
printed_hides_example =
    printed_hides no_json (entry ∷ []) variables (codes "pw=hunter2") (codes "hunter2")
      (inl (entry, inl refl, not_json refl refl))
      (record { filled = refl; opens = refl; closes = refl; inner = refl })
