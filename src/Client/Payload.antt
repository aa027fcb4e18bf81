-- ===== src/Client/Payload.antt =====
-- src/policy.rs: the JSON text of a bundle, written by hand to keep the order of its fields, and its
-- meta. Only bytes below 128 are escaped, so the characters of `chars` are bytes here.
use secd.Base.{ℕ, ◌+◌, ◌-◌, ◌/◌, ◌%◌, List, [], ◌∷◌, ◌++◌, map, ltb, ◌==◌, if◌then◌else◌}
use secd.Base.Text.{Str, codes}
use secd.Base.Json.{Value, string, array, array_of, json_object}

abbrev hex_digit : ℕ → ℕ
hex_digit n = if ltb n 10 then b'0' + n else b'a' + n - 10

-- `\u{:04x}` of a number below 32
abbrev unicode_escape : ℕ → Str
unicode_escape c = codes "\\u00" ++ hex_digit (c / 16) ∷ hex_digit (c % 16) ∷ []

unfoldable pub escape : ℕ → Str
escape c =
    if c == b'"'
    then 92 ∷ 34 ∷ []
    else if c == 92
    then 92 ∷ 92 ∷ []
    else if c == 10
    then 92 ∷ b'n' ∷ []
    else if c == 13
    then 92 ∷ b'r' ∷ []
    else if c == 9
    then 92 ∷ b't' ∷ []
    else if ltb c 32
    then unicode_escape c
    else c ∷ []

unfoldable pub escaped : Str → Str
unfolding escape
escaped [] = []
escaped (c ∷ s) = escape c ++ escaped s

unfoldable pub push_json_str : Str → Str → Str
unfolding escaped
push_json_str out s = out ++ (34 ∷ (escaped s ++ 34 ∷ []))

-- The loop of `payload_json`: a comma stands before every pair but the first.
unfoldable pub push_pairs : Str → Str → List (Str × Str) → Str
unfolding push_json_str
push_pairs out comma [] = out
push_pairs out comma ((k, v) ∷ pairs) =
    push_pairs (push_json_str (push_json_str (out ++ comma) k ++ b':' ∷ []) v) (b',' ∷ []) pairs

unfoldable pub payload_json : List (Str × Str) → Str
unfolding push_pairs
payload_json pairs = push_pairs (b'{' ∷ []) [] pairs ++ b'}' ∷ []

unfoldable pub provider_meta : Str → List Str → Value
provider_meta p keys =
    json_object
      ((codes "provider", string p) ∷ (codes "fields", array (array_of (map string keys))) ∷ [])
