-- ===== src/Server/Headers.antt =====
-- The request headers that the stores read, and the replies of crates/secd-web/src/headers.rs.
use secd.Base.{ℕ, true, Option}
use secd.Base.Text.{Str, codes}
use secd.Base.Json.{Value, bool, string, object, end, member}

-- The first value of each header that is read, where it holds visible ASCII only (`to_str`).
pub record HeaderMap : Type 0 where
  pub cookie : Option Str
  pub authorization : Option Str
  pub secd_name : Option Str

-- A status and a JSON body.
pub record Reply : Type 0 where
  pub status : ℕ
  pub body : Value

abbrev pub json_value : ℕ → Value → Reply
json_value status value = record { status = status; body = value }

abbrev pub json_status : ℕ → Str → Reply
json_status status error = json_value status (object (member (codes "error") (string error) end))

abbrev pub fail_auth : Reply
fail_auth = json_status 401 (codes "That email and credential do not match.")

abbrev pub ok_true : Reply
ok_true = json_value 200 (object (member (codes "ok") (bool true) end))
