-- ===== src/Client/Forge/Helper.antt =====
-- src/git_credential.rs: the arguments, the fields and the answer of the credential helper. That the
-- parent is git is tested before, outside of the model.
use secd.Base.{
  Bool, true, false, not, ◌&&◌, ◌≡◌, refl, Option, none, some, List, [], ◌∷◌, ◌++◌, In,
  if◌then◌else◌,
}
use secd.Base.Text.{Str, codes, str_eq, is_empty, strip_prefix, starts_with, split}
use secd.Base.Trim.{trim}
use secd.Base.Result.{Result, ok, err}
use secd.Base.Json.{Value}
use secd.Client.Bundles.{Row, Bundle, bundles_of}
use secd.Client.Forge.{forge_token, forge_user, strip_default_port, pick_forge}
use secd.Client.Forge.Picked.{Serves, pick_forge_sound}

abbrev filled : Str → Option Str → Option Str
filled v later = if is_empty (trim v) then later else some (trim v)

abbrev value_in : Option Str → Option Str → Option Str
value_in none later = later
value_in (some v) later = filled v later

unfoldable pub field_in : Str → List Str → Option Str
field_in prefix [] = none
field_in prefix (line ∷ lines) =
    let rest = field_in prefix lines in value_in (strip_prefix prefix line) rest

-- The carriage return that `lines` drops is white space, which `trim` drops too.
unfoldable pub protocol_field : Str → Str → Option Str
unfolding field_in
protocol_field req key = field_in (key ++ codes "=") (split 10 req)

abbrev is_some : Option Str → Bool
is_some none = false
is_some (some _) = true

abbrev args_of : Str → Option Str → Option Str → Option Str → Option Str × Option Str
args_of a (some v) want action = (some v, action)
args_of a none want action =
    if not (starts_with (codes "-") a) && not (is_some action)
    then (want, some a)
    else (want, action)

-- The loop of `parse_args`: the `--bundle` and the action so far.
unfoldable pub parse_from : Option Str → Option Str → List Str → Option Str × Option Str
parse_from want action [] = (want, action)
parse_from want action (a ∷ []) =
    if str_eq a (codes "--bundle")
    then (none, action)
    else args_of a (strip_prefix (codes "--bundle=") a) want action
parse_from want action (a ∷ b ∷ args) =
    let taken = parse_from (some b) action args in
    let (want', action') = args_of a (strip_prefix (codes "--bundle=") a) want action in
    let next = parse_from want' action' (b ∷ args) in
    if str_eq a (codes "--bundle") then taken else next

unfoldable pub parse_args : List Str → Option Str × Option Str
unfolding parse_from
parse_args args = parse_from none none args

abbrev line_end : Str
line_end = 10 ∷ []

abbrev pub response : Str → Str → Str → Str → Str
response protocol host user token =
    codes "protocol="
    ++ (protocol
        ++ (line_end
            ++ (codes "host="
                ++ (host
                    ++ (line_end
                        ++ (codes "username="
                            ++ (user
                                ++ (line_end ++ (codes "password=" ++ (token ++ line_end))))))))))

abbrev https_or : Option Str → Str
https_or none = codes "https"
https_or (some p) = p

abbrev answer : Str → Str → Bundle → Option Str → Option Str
answer protocol host b none = none
answer protocol host b (some t) = some (response protocol host (forge_user b) t)

abbrev answer_of : Str → Str → Option Bundle → Option Str
answer_of protocol host none = none
answer_of protocol host (some b) = answer protocol host b (forge_token b)

module _ (from_slice : Str → Option Value) where
  abbrev answer_from : Str → Str → Option Str → Result Str (List Row) → Result Str (Option Str)
  answer_from protocol host want (err e) = err e
  answer_from protocol host want (ok entries) =
      ok (answer_of protocol host (pick_forge (bundles_of from_slice entries) want host))

  abbrev asked : Str → Option Str → Option Str → Result Str (List Row) → Result Str (Option Str)
  asked protocol none want loaded = ok none
  asked protocol (some host) want loaded = answer_from protocol host want loaded

  -- The entries, or why there are none, are an argument; they are read behind the test of the host.
  unfoldable pub fill : Str → Option Str → Result Str (List Row) → Result Str (Option Str)
  unfolding protocol_field pick_forge bundles_of forge_token forge_user
  fill request want loaded =
      asked (https_or (protocol_field request (codes "protocol")))
        (protocol_field request (codes "host")) want loaded

  -- What an answer holds.
  abbrev pub Answers : Str → Option Str → List Row → Str → Type 0
  Answers request want entries out =
      (host : Str) × (b : Bundle) × (t : Str) × (protocol_field request (codes "host") ≡ some host)
      × In b (bundles_of from_slice entries)
      × Serves (strip_default_port (trim host)) b
      × (forge_token b ≡ some t)
      × (out
          ≡ response (https_or (protocol_field request (codes "protocol"))) host (forge_user b) t)

  answer_sound :
      (protocol host : Str) (b : Bundle) (o : Option Str) (out : Str)
      → answer protocol host b o ≡ some out
      → (t : Str) × (o ≡ some t) × (out ≡ response protocol host (forge_user b) t)
  answer_sound protocol host b none out e = absurd (cc)
  answer_sound protocol host b (some t) out e = (t, refl, cc e)

  answer_of_sound :
      (protocol host : Str) (o : Option Bundle) (out : Str)
      → answer_of protocol host o ≡ some out
      → (b : Bundle) × (t : Str) × (o ≡ some b)
        × (forge_token b ≡ some t)
        × (out ≡ response protocol host (forge_user b) t)
  answer_of_sound protocol host none out e = absurd (cc)
  answer_of_sound protocol host (some b) out e =
      let (t, p, q) = answer_sound protocol host b (forge_token b) out e in (b, t, refl, p, q)

  asked_sound :
      (protocol : Str) (o : Option Str) (want : Option Str) (entries : List Row) (out : Str)
      → asked protocol o want (ok entries) ≡ ok (some out)
      → (host : Str) × (o ≡ some host)
        × (answer_of protocol host (pick_forge (bundles_of from_slice entries) want host)
            ≡ some out)
  asked_sound protocol none want entries out e = absurd (cc)
  asked_sound protocol (some host) want entries out e = (host, refl, cc e)

  -- An answer with a password is for the host that git asked about: its token is that of a bundle of the
  -- register which has that host.
  pub fill_sound :
      (request : Str) (want : Option Str) (entries : List Row) (out : Str)
      → fill request want (ok entries) ≡ ok (some out)
      → Answers request want entries out
  unfolding fill
  fill_sound request want entries out e =
      let (host, asks, given) = asked_sound _ _ want entries out e in
      let (b, t, picks, token, whole) = answer_of_sound _ host _ out given in
      let (i, serves, n, one) = pick_forge_sound _ want host b picks in
      (host, b, t, asks, i, serves, token, whole)
