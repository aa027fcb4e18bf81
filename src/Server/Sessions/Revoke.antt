-- ===== src/Server/Sessions/Revoke.antt =====
-- The revocations of crates/secd-web/src/sessions.rs.
use secd.Base.{Bool, not, Option, none, some, [], any, if◌then◌else◌}
use secd.Base.Text.{Str, codes, str_eq}
use secd.Server.Db.{SessionRow, M, ◌>>=◌, ◌>>◌, pure, statement, select, exec, immediate}
use secd.Server.Audit.{Encoders, AuditEvent, append_on}
use secd.Server.Sessions.{
  parse, is_console, find_row, delete_where, has_hash, has_id, on_sessions, token_hash,
}

-- What `revoke_id` answers, `Revoke` of the source.
pub data Revoke : Type 0 where
  unknown console other : Revoke

abbrev pub revoked_kind : Str → Revoke
revoked_kind kind = if is_console (parse kind) then console else other

module _ (enc : Encoders) where
  unfoldable pub revoke_found : Str → Str → Option SessionRow → M (Revoke × Option AuditEvent)
  revoke_found email id none = pure (unknown, none)
  revoke_found email id (some r) = if not (str_eq r.email email) then pure (unknown, none) else do
    exec (on_sessions (delete_where (has_id id)))
    event ← append_on enc (codes "session.revoke") (some id) []
    pure (revoked_kind r.kind, some event)

  -- Up to the journal file.
  unfoldable pub revoke_id : Str → Str → M (Revoke × Option AuditEvent)
  revoke_id email id =
      immediate
        (do found ← select (λ t. find_row (has_id id) t.sessions); revoke_found email id found)

  -- DELETE, and whether it changed a row.
  unfoldable pub revoke_token : Str → M Bool
  revoke_token token = statement (λ t. some (
    any (has_hash (token_hash enc token)) t.sessions,
    on_sessions (delete_where (has_hash (token_hash enc token))) t,
  ))

  unfoldable pub revoke_token_with_audit : Str → Str → M AuditEvent
  revoke_token_with_audit token session_id = immediate (do
    exec (on_sessions (delete_where (has_hash (token_hash enc token))))
    append_on enc (codes "session.revoke") (some session_id) [])
