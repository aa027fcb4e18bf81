-- ===== src/Core/Provider/Tests.antt =====
-- Searches among the built-in providers and payloads of their schemas, and the theorems at them.
use secd.Base.{true, false, ◌≡◌, refl, none, some, List, [], ◌∷◌}
use secd.Base.Text.{Str, codes, str_eq}
use secd.Base.Trim.{trim}
use secd.Core.Provider.{Field, candidates, filter_names, infer, build_payload, value_of}
use secd.Core.Provider.Builtins.{builtins}

abbrev token_and_user : List Str
token_and_user = codes "token" ∷ codes "user" ∷ []

shared_keys : infer builtins token_and_user ≡ none
unfolding infer candidates filter_names builtins str_eq
shared_keys = refl

abbrev token_and_url : List Str
token_and_url = codes "bot_token" ∷ []

own_key : infer builtins token_and_url ≡ some (codes "slack")
unfolding infer candidates filter_names builtins str_eq
own_key = refl

abbrev fields : List Field
fields =
    record { key = codes "token"; secret = true; optional = false; env = codes "T" }
    ∷ record { key = codes "user"; secret = false; optional = true; env = codes "U" }
    ∷ []

abbrev values : List (Str × Str)
values = (codes "user", codes " ") ∷ (codes "token", codes " abc ") ∷ []

payload : build_payload fields values ≡ some ((codes "token", codes "abc") ∷ [])
unfolding build_payload value_of trim str_eq
payload = refl
