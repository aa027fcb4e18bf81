-- ===== src/Client/Http.antt =====
-- The request that src/policy.rs writes and the response that it reads, as bytes. The parser and the
-- printer of serde_json are parameters.
use secd.Base.{ℕ, Bool, not, ◌||◌, Option, none, some, [], ◌∷◌, ◌++◌, length, ◌==◌, if◌then◌else◌}
use secd.Base.Text.{Str, codes, str_eq, is_empty, strip_prefix, split_once}
use secd.Base.Trim.{trim, trim_start}
use secd.Base.Utf8.{from_utf8}
use secd.Base.Decimal.{decimal, parse_u16}
use secd.Base.Result.{Result, ok, ◌>>=◌, ok_or}
use secd.Base.Json.{Value, null}

abbrev pub host : Str
host = codes "secd.imabee.com"

abbrev pub newline : Str
newline = 13 ∷ 10 ∷ []

unfoldable pub is_upload : Str → Bool
is_upload method = str_eq method (codes "POST") || str_eq method (codes "PUT")

abbrev pub bearer_line : Option Str → Str
bearer_line none = []
bearer_line (some t) = codes "Authorization: Bearer " ++ (t ++ newline)

-- The head of the request, then its body.
unfoldable pub request_bytes : Str → Str → Str → Option Str → Str
unfolding is_upload
request_bytes method path payload bearer =
    let upload =
      if is_upload method
      then codes "Content-Type: application/json"
        ++ (newline ++ (codes "Content-Length: " ++ (decimal (length payload) ++ newline)))
      else [] in
    method
    ++ (codes " "
        ++ (path
            ++ (codes " HTTP/1.1"
                ++ (newline
                    ++ (codes "Host: "
                        ++ (host
                            ++ (newline
                                ++ (codes "Accept: application/json"
                                    ++ (newline
                                        ++ (codes "Connection: close"
                                            ++ (newline
                                                ++ (bearer_line bearer
                                                    ++ (upload ++ (newline ++ payload))))))))))))))

abbrev before_text : ℕ → Option (Str × Str) → Option (Str × Str)
before_text b none = none
before_text b (some (l, r)) = some (b ∷ l, r)

-- `s.split_once(pattern)` for a pattern of bytes
unfoldable pub split_text : Str → Str → Option (Str × Str)
unfolding strip_prefix
split_text p [] = none
split_text p (b ∷ s) =
    let later = before_text b (split_text p s) in
    elim (strip_prefix p (b ∷ s)) [ some r ↦ some ([], r) | none ↦ later ]

abbrev or_else : Option (Str × Str) → Option (Str × Str) → Option (Str × Str)
or_else none later = later
or_else (some x) later = some x

abbrev without_return : Str → Str
without_return [] = []
without_return (c ∷ []) = if c == 13 then [] else c ∷ []
without_return (c ∷ d ∷ s) = c ∷ without_return (d ∷ s)

abbrev line_before : Str → Option (Str × Str) → Str
line_before s none = s
line_before s (some (l, _)) = without_return l

-- `s.lines().next().unwrap_or("")`
unfoldable pub first_line : Str → Str
first_line s = line_before s (split_once 10 s)

-- Whether a character of white space stands in front.
abbrev pub spaced : Str → Bool
spaced s = not (str_eq (trim_start s) s)

unfoldable pub take_word : Str → Str
take_word [] = []
take_word (b ∷ s) = let rest = take_word s in if spaced (b ∷ s) then [] else b ∷ rest

unfoldable pub drop_word : Str → Str
drop_word [] = []
drop_word (b ∷ s) = let rest = drop_word s in if spaced (b ∷ s) then b ∷ s else rest

-- `s.split_whitespace().nth(1)`
unfoldable pub second_word : Str → Option Str
unfolding take_word drop_word
second_word s =
    let rest = trim_start (drop_word (trim_start s)) in
    if is_empty rest then none else some (take_word rest)

abbrev or_null : Option Value → Value
or_null none = null
or_null (some v) = v

unfoldable pub parse_http : (Str → Option Value) → Str → Result Str (ℕ × Value)
unfolding split_text first_line second_word
parse_http from_str raw = do
  s ← ok_or (from_utf8 raw) (codes "response utf8")
  parts ←
      ok_or (or_else (split_text (newline ++ newline) s) (split_text (10 ∷ 10 ∷ []) s))
        (codes "bad http")
  word ← ok_or (second_word (first_line parts.0)) (codes "status")
  status ← ok_or (parse_u16 word) (codes "status parse")
  ok (status, if is_empty (trim parts.1) then null else or_null (from_str parts.1))
