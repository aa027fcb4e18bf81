-- ===== src/Client/Forge/Tests.antt =====
-- The credential helper at a register with a gitea of its own host.
use secd.Base.{◌≡◌, refl, none, some, List, [], ◌∷◌, ◌++◌}
use secd.Base.Text.{Str, codes, str_eq, split, rsplit_once, strip_prefix, starts_with}
use secd.Base.Trim.{trim}
use secd.Base.Map.{lookup}
use secd.Base.Ordered.{put, has}
use secd.Base.Utf8.{from_utf8}
use secd.Base.Result.{ok}
use secd.Base.Json.{object, end}
use secd.Core.Provider.{infer, candidates, filter_names}
use secd.Core.Provider.Builtins.{builtins}
use secd.Client.Http.{split_text}
use secd.Client.Bundles.{Row}
use secd.Client.Forge.Helper.{Answers, response, parse_args, fill, fill_sound}

abbrev entry : Str → Str → Row
entry name value = record { name = name; value = record { as_bytes = value }; meta = object end }

abbrev entries : List Row
entries =
    entry (codes "g/token") (codes "t2")
    ∷ entry (codes "g/url") (codes "https://Git.Example:443/x")
    ∷ entry (codes "other") (codes "x")
    ∷ []

abbrev request : Str
request = codes "protocol=https" ++ (10 ∷ (codes "host=git.example" ++ 10 ∷ []))

abbrev out : Str
out = response (codes "https") (codes "git.example") (codes "git") (codes "t2")

fills : fill (λ s. none) request none (ok entries) ≡ ok (some out)
unfolding fill split strip_prefix trim str_eq lookup rsplit_once put has from_utf8 infer candidates
    filter_names builtins split_text
fills = refl

-- The value of `--bundle` is no action.
arguments :
    parse_args (codes "--bundle" ∷ codes "g" ∷ codes "get" ∷ [])
    ≡ (some (codes "g"), some (codes "get"))
unfolding parse_args str_eq strip_prefix starts_with
arguments = refl

fill_sound_example : Answers (λ s. none) request none entries out
fill_sound_example = fill_sound (λ s. none) request none entries out fills
