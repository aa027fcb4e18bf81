-- ===== src/Server/Audit.antt =====
-- crates/secd-web/src/audit.rs: the hash chain of audit rows. The JSON text of a list of names
-- (serde_json) and hexadecimal encoding (the crate hex) are parameters.
pub mod Chain
pub mod Tamper
mod Tests
use secd.Base.{
  ℕ, Bool, true, false, not, Option, none, some, List, [], ◌∷◌, ◌++◌, replicate, if◌then◌else◌,
}
use secd.Base.Text.{Str, str_eq}
use secd.Server.Db.{AuditRow, Tables, M, ◌>>=◌, ◌>>◌, pure, select, exec, immediate}
use secd.Server.Sha256.{sha256}

-- `hex::encode` and `serde_json::to_string` of a list of strings.
pub record Encoders : Type 0 where
  pub hex_encode : List ℕ → Str
  pub names_json : List Str → Str

pub record AuditEvent : Type 0 where
  pub action : Str
  pub session_id : Option Str
  pub names : List Str
  pub prev : Str
  pub hash : Str

abbrev pub zero_hash : Str
zero_hash = replicate 64 b'0'

abbrev pub or_empty : Option Str → Str
or_empty none = []
or_empty (some s) = s

-- The bytes that are hashed, with the separator 0x1f.
unfoldable pub event_bytes : Str → Str → Option Str → Str → List ℕ
event_bytes prev action session_id names_json =
    prev ++ (0x1f ∷ action ++ (0x1f ∷ or_empty session_id ++ (0x1f ∷ names_json)))

-- The hash of the newest row, or the zero hash of an empty table.
unfoldable pub head_hash : Str → List AuditRow → Str
head_hash found [] = found
head_hash found (row ∷ rows) = head_hash row.hash rows

module _ (enc : Encoders) where
  unfoldable pub event_hash : Str → Str → Option Str → Str → Str
  event_hash prev action session_id names_json =
      enc.hex_encode (sha256 (event_bytes prev action session_id names_json))

  unfoldable pub next_row : List AuditRow → Str → Option Str → List Str → AuditRow
  next_row rows action session_id names =
      let prev = head_hash zero_hash rows in
      let names_text = enc.names_json names in
      record {
        action = action;
        session_id = session_id;
        names = names_text;
        prev_hash = prev;
        hash = event_hash prev action session_id names_text;
      }

  abbrev insert_on : AuditRow → M (Unit {0})
  insert_on row = exec (λ t. record t { audit = t.audit ++ row ∷ [] })

  -- The head is read and the row inserted on one connection.
  unfoldable pub append_on : Str → Option Str → List Str → M AuditEvent
  append_on action session_id names = do
    rows ← select (λ t. t.audit)
    let row = next_row rows action session_id names
    insert_on row
    pure (record {
      action = action;
      session_id = session_id;
      names = names;
      prev = row.prev_hash;
      hash = row.hash;
    })

  -- `record_names`, up to the journal file, whose failures are ignored.
  unfoldable pub record_names : Str → Option Str → List Str → M AuditEvent
  record_names action session_id names = immediate (append_on action session_id names)

  -- The loop of `verify_rows`.
  unfoldable pub verify_from : Str → List AuditRow → Bool
  verify_from prev [] = true
  verify_from prev (row ∷ rows) =
      let rest = verify_from row.hash rows in
      if not (str_eq row.prev_hash prev)
      then false
      else if not (str_eq (event_hash prev row.action row.session_id row.names) row.hash)
      then false
      else rest

  unfoldable pub verify_rows : List AuditRow → Bool
  unfolding verify_from
  verify_rows = verify_from zero_hash
