-- ===== src/Server/Sessions/Handlers.antt =====
-- The handlers of crates/secd-web/src/sessions.rs. The format of times is a parameter.
use secd.Base.{ℕ, Option, none, some, List, [], ◌∷◌, ◌++◌, map}
use secd.Base.Text.{Str, codes, str_eq}
use secd.Base.Json.{Value, bool, string, array, json_object, array_of}
use secd.Server.Db.{Conn}
use secd.Server.Headers.{HeaderMap, Reply, json_value, json_status, fail_auth, ok_true}
use secd.Server.Audit.{Encoders, AuditEvent}
use secd.Server.Sessions.{Session, as_str, cookie_name, console_from_headers}
use secd.Server.Sessions.Ensure.{list_for}
use secd.Server.Sessions.Revoke.{Revoke, unknown, console, other, revoke_id}

abbrev pub set_cookie : Str → Str
set_cookie token =
    cookie_name
    ++ (codes "=" ++ (token ++ codes "; Path=/; HttpOnly; Secure; SameSite=Lax; Max-Age=43200"))

abbrev pub clear_cookie : Str
clear_cookie =
    codes
      "__Host-secd=; Path=/; HttpOnly; Secure; SameSite=Lax; Max-Age=0; Expires=Thu, 01 Jan 1970 00:00:00 GMT"

module _ (enc : Encoders) (rfc3339 : ℕ → Str) where
  abbrev session_row : Session → Session → Value
  session_row current s = json_object (
      (codes "id", string s.id)
      ∷ (codes "kind", string (as_str s.kind))
      ∷ (codes "label", string s.label)
      ∷ (codes "created", string (rfc3339 s.created))
      ∷ (codes "last_seen", string (rfc3339 s.last_seen))
      ∷ (codes "current", bool (str_eq s.id current.id))
      ∷ [])

  abbrev listed : Session → Option (List Session) × Conn → Reply × Conn
  listed current (none, c) = (json_status 500 (codes "store"), c)
  listed current (some ss, c) = (
    json_value 200
        (json_object ((codes "sessions", array (array_of (map (session_row current) ss))) ∷ [])),
    c,
  )

  abbrev list_as : ℕ → Option Session × Conn → Reply × Conn
  list_as now (none, c) = (fail_auth, c)
  list_as now (some current, c) = listed current (list_for now current.email c)

  -- The unix time is read for the session that authenticates, and once more for the list.
  unfoldable pub list_sessions : ℕ → ℕ → HeaderMap → Conn → Reply × Conn
  list_sessions auth now headers c = list_as now (console_from_headers enc auth headers c)

-- A reply, and the cookie that it sets.
abbrev revoked_reply : Option (Revoke × Option AuditEvent) × Conn → (Reply × Option Str) × Conn
revoked_reply (none, c) = ((json_status 500 (codes "store"), none), c)
revoked_reply (some (unknown, _), c) = ((json_status 404 (codes "not found"), none), c)
revoked_reply (some (console, _), c) = ((ok_true, some clear_cookie), c)
revoked_reply (some (other, _), c) = ((ok_true, none), c)

module _ (enc : Encoders) where
  abbrev revoke_as : Str → Option Session × Conn → (Reply × Option Str) × Conn
  revoke_as id (none, c) = ((fail_auth, none), c)
  revoke_as id (some current, c) = revoked_reply (revoke_id enc current.email id c)

  unfoldable pub revoke_session : ℕ → Str → HeaderMap → Conn → (Reply × Option Str) × Conn
  revoke_session auth id headers c = revoke_as id (console_from_headers enc auth headers c)
