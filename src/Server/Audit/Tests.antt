-- ===== src/Server/Audit/Tests.antt =====
-- Runs of the audit chain, and the theorems at them.
use secd.Base.{true, false, ◌≡◌, refl, ◌⊎◌, Option, none, some, List, [], ◌∷◌, ◌++◌}
use secd.Base.Text.{Str, codes, str_eq}
use secd.Core.Hex.{to_hex, hex_digit}
use secd.Server.Db.{
  AuditRow, Tables, Conn, M, ◌>>=◌, exec, fail, immediate, statement, exec_begin, exec_commit,
  exec_rollback,
}
use secd.Server.Db.Atomic.{Gives}
use secd.Server.Db.Undone.{IsWithin, statement-IsWithin, bind-IsWithin, Outcome, immediate_atomic}
use secd.Server.Sha256.{sha256}
use secd.Server.Sample.{sample_encoders, sample_encoders-IsHex, no_tables, conn_of, run-Gives}
use secd.Server.Audit.{
  AuditEvent, zero_hash, event_bytes, head_hash, event_hash, next_row, append_on, verify_from,
  verify_rows,
}
use secd.Server.Audit.Chain.{append_on-verify_rows}
use secd.Server.Audit.Tamper.{SameRows, Clash, verify_rows_tamper_evident}

abbrev names : List Str
names = codes "ops/db" ∷ codes "ops/ci" ∷ []

abbrev one_row : List AuditRow
one_row = next_row sample_encoders [] (codes "vault.put") (some (codes "s1")) names ∷ []

abbrev one_row_tables : Tables
one_row_tables = record no_tables { audit = one_row }

one_row_verifies : verify_rows sample_encoders one_row ≡ true
unfolding verify_rows next_row event_hash event_bytes head_hash sha256 to_hex hex_digit str_eq
one_row_verifies = refl

abbrev append_run : Option AuditEvent × Conn
append_run = append_on sample_encoders (codes "session.revoke") none [] (conn_of one_row_tables)

abbrev appended : AuditEvent
appended = record {
  action = codes "session.revoke";
  session_id = none;
  names = [];
  prev = (next_row sample_encoders one_row (codes "session.revoke") none []).prev_hash;
  hash = (next_row sample_encoders one_row (codes "session.revoke") none []).hash;
}

append_run-Gives :
    Gives
      (append_on sample_encoders (codes "session.revoke") none [])
      one_row_tables
      appended
      append_run.1.tables
unfolding append_on statement
append_run-Gives = run-Gives _ one_row_tables appended refl

append_on-verify_rows_example :
    (verify_rows sample_encoders append_run.1.tables.audit ≡ true)
    × (append_run.1.tables ≡ record one_row_tables {
      audit = one_row ++ next_row sample_encoders one_row (codes "session.revoke") none [] ∷ [];
    })
append_on-verify_rows_example =
    append_on-verify_rows sample_encoders (codes "session.revoke") none [] one_row_tables
      append_run.1.tables appended one_row_verifies append_run-Gives

-- The same row with a missing and with an empty session id.
abbrev missing_session : List AuditRow
missing_session = next_row sample_encoders [] (codes "vault.get") none names ∷ []

abbrev empty_session : List AuditRow
empty_session = next_row sample_encoders [] (codes "vault.get") (some []) names ∷ []

verify_rows_tamper_evident_example :
    SameRows missing_session empty_session
    ⊎ Clash sample_encoders zero_hash zero_hash missing_session empty_session
unfolding verify_rows verify_from next_row event_hash event_bytes head_hash sha256 to_hex hex_digit
    str_eq
verify_rows_tamper_evident_example =
    verify_rows_tamper_evident sample_encoders sample_encoders-IsHex missing_session empty_session
      refl refl refl refl refl refl

-- A closure that deletes the audit rows and then fails.
abbrev wipe_and_fail : M (Unit {0})
wipe_and_fail = exec (λ t. record t { audit = [] }) >>= λ _. fail

wipe_and_fail-IsWithin : IsWithin wipe_and_fail
wipe_and_fail-IsWithin = bind-IsWithin _ _ (statement-IsWithin _) (λ _. record { kept = λ c. refl })

immediate_atomic_example :
    Outcome wipe_and_fail
      (conn_of one_row_tables)
      (immediate wipe_and_fail (conn_of one_row_tables))
immediate_atomic_example =
    immediate_atomic wipe_and_fail (conn_of one_row_tables) wipe_and_fail-IsWithin

-- The rows are back where ROLLBACK is taken; where it is refused, the transaction stays open.
wiped_undone : (immediate wipe_and_fail (conn_of one_row_tables)).1.tables ≡ one_row_tables
unfolding immediate exec_begin exec_commit exec_rollback statement
wiped_undone = refl

abbrev refusing : Conn
refusing = record { tables = one_row_tables; open_from = none; faults = false ∷ false ∷ true ∷ [] }

wiped_left_open : (immediate wipe_and_fail refusing).1.open_from ≡ some one_row_tables
unfolding immediate exec_begin exec_commit exec_rollback statement
wiped_left_open = refl
