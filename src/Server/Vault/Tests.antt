-- ===== src/Server/Vault/Tests.antt =====
-- Runs of the vault store, and the theorems at them.
use secd.Base.{Bool, true, ◌≡◌, refl, Option, none, some, List, [], ◌∷◌, ◌++◌, map, if◌then◌else◌}
use secd.Base.Text.{Str, codes, str_eq}
use secd.Base.Map.{lookup, insert}
use secd.Base.Json.{Value, string, array, object, end, json_object, array_of}
use secd.Server.Db.{Tables, Conn, immediate, statement, exec_begin, exec_commit, exec_rollback}
use secd.Server.Db.Atomic.{Gives}
use secd.Server.Sample.{sample_encoders, no_tables, conn_of, run-Gives}
use secd.Server.Audit.{AuditEvent, append_on, next_row}
use secd.Server.Vault.{
  Json, VaultEntry, history, max_seq, read_before, entry_row, insert_entries, store_entries,
  replace_entries, sync_wraps, replace_wraps, insert_wraps, collect_wraps, user_rows, passkey_rows,
  wrap_row, find_version, other_entries, restore, rollback,
}
use secd.Server.Vault.History.{IsNumbered}
use secd.Server.Vault.Replace.{Replaced, replace_entries_lem, store_entries-IsNumbered}
use secd.Server.Vault.Rollback.{RolledBack, rollback_lem}

-- The texts of strings and of empty objects.
abbrev pub text_of : Value → Str
text_of (string s) = b'"' ∷ s ++ b'"' ∷ []
text_of _ = codes "{}"

-- A user with a password and a passkey, whose wrap has no blob.
abbrev users_value : Value
users_value = json_object (
    (
      codes "users",
      array (
          array_of (
            json_object (
              (
                codes "password",
                json_object (
                    (codes "factor", string (codes "password"))
                    ∷ (codes "salt", string (codes "5a"))
                    ∷ (codes "blob", string (codes "b0"))
                    ∷ []),
              )
              ∷ (
                codes "passkeys",
                array (
                    array_of (
                      json_object (
                        (
                          codes "wrap",
                          json_object ((codes "factor", string (codes "passkey")) ∷ []),
                        )
                        ∷ [])
                      ∷ [])),
              )
              ∷ [])
            ∷ [])),
    )
    ∷ [])

abbrev pub users : Option Str
users = some (codes "users")

abbrev pub json : Json
json = record {
  to_string = text_of;
  from_str = λ s. if str_eq s (codes "users") then some users_value else some (string s);
}

abbrev entry : Str → Str → VaultEntry
entry name ct = record {
  name = name;
  ciphertext = string ct;
  meta = object end;
  version = 0;
  updated = none;
}

abbrev first_put : List VaultEntry
first_put = entry (codes "ops/db") (codes "aa") ∷ entry (codes "ops/ci") (codes "bb") ∷ []

-- The second write changes one name.
abbrev second_put : List VaultEntry
second_put = entry (codes "ops/db") (codes "a2") ∷ entry (codes "ops/ci") (codes "bb") ∷ []

abbrev names : List Str
names = codes "ops/db" ∷ codes "ops/ci" ∷ []

-- What the first write leaves, without its audit row.
abbrev seeded : Tables
seeded = record no_tables {
  entries = map (entry_row json) first_put;
  versions =
      record {
        name = codes "ops/db";
        seq = 1;
        ciphertext = text_of (string (codes "aa"));
        meta = codes "{}";
        created = codes "t1";
      }
      ∷ record {
        name = codes "ops/ci";
        seq = 1;
        ciphertext = text_of (string (codes "bb"));
        meta = codes "{}";
        created = codes "t1";
      }
      ∷ [];
}

abbrev after_second : Option AuditEvent × Conn
after_second =
    replace_entries json sample_encoders users (codes "t2") second_put none names (conn_of seeded)

abbrev put_event : Tables → AuditEvent
put_event t = record {
  action = codes "vault.put";
  session_id = none;
  names = names;
  prev = (next_row sample_encoders t.audit (codes "vault.put") none names).prev_hash;
  hash = (next_row sample_encoders t.audit (codes "vault.put") none names).hash;
}

stored_wraps :
    after_second.1.tables.wraps
    ≡ record {
      factor = codes "password";
      cred_id = none;
      salt = some (codes "5a");
      blob = codes "b0";
    }
      ∷ []
unfolding replace_entries store_entries sync_wraps replace_wraps insert_wraps collect_wraps
    user_rows passkey_rows wrap_row read_before insert_entries insert lookup max_seq append_on
    immediate exec_begin exec_commit exec_rollback statement str_eq
stored_wraps = refl

second_runs : after_second.0 ≡ some (put_event seeded)
unfolding replace_entries store_entries sync_wraps replace_wraps insert_wraps collect_wraps
    user_rows passkey_rows wrap_row read_before insert_entries insert lookup max_seq append_on
    immediate exec_begin exec_commit exec_rollback statement str_eq
second_runs = refl

replace_entries_lem_example :
    Replaced json sample_encoders users
      (codes "t2")
      second_put
      none
      names
      (conn_of seeded)
      after_second.1
replace_entries_lem_example =
    replace_entries_lem json sample_encoders users (codes "t2") second_put none names
      (conn_of seeded) after_second.1 (put_event seeded) (λ i. (second_runs i, after_second.1))

first-Gives :
    Gives
      (store_entries json sample_encoders (codes "t1") first_put none names)
      no_tables
      (put_event no_tables)
      (store_entries json sample_encoders
        (codes "t1")
        first_put
        none
        names
        (conn_of no_tables)).1.tables
unfolding store_entries read_before insert_entries insert lookup max_seq append_on immediate
    exec_begin exec_commit exec_rollback statement str_eq
first-Gives = run-Gives _ no_tables (put_event no_tables) refl

no_versions-IsNumbered : IsNumbered []
unfolding history
no_versions-IsNumbered = record { numbered = λ n. tt }

first-IsNumbered :
    IsNumbered
      (store_entries json sample_encoders
        (codes "t1")
        first_put
        none
        names
        (conn_of no_tables)).1.tables.versions
first-IsNumbered =
    store_entries-IsNumbered json sample_encoders (codes "t1") first_put none names no_tables _
      (put_event no_tables) no_versions-IsNumbered first-Gives

abbrev rolled : Option (Bool × Option AuditEvent) × Conn
rolled = rollback sample_encoders (codes "t3") (codes "ops/db") 1 none (conn_of seeded)

abbrev rollback_event : AuditEvent
rollback_event = record {
  action = codes "vault.rollback";
  session_id = none;
  names = codes "ops/db" ∷ [];
  prev =
      (next_row sample_encoders seeded.audit (codes "vault.rollback") none
        (codes "ops/db" ∷ [])).prev_hash;
  hash =
      (next_row sample_encoders seeded.audit (codes "vault.rollback") none
        (codes "ops/db" ∷ [])).hash;
}

rolled-Gives :
    Gives
      (rollback sample_encoders (codes "t3") (codes "ops/db") 1 none)
      seeded
      (true, some rollback_event)
      rolled.1.tables
unfolding rollback restore find_version other_entries max_seq append_on immediate exec_begin
    exec_commit exec_rollback statement str_eq
rolled-Gives = run-Gives _ seeded (true, some rollback_event) refl

rollback_lem_example :
    RolledBack sample_encoders
      (codes "t3")
      (codes "ops/db")
      1
      none
      (codes "ops/ci")
      true
      seeded
      rolled.1.tables
rollback_lem_example =
    rollback_lem sample_encoders (codes "t3") (codes "ops/db") 1 none (codes "ops/ci") seeded
      rolled.1.tables (true, some rollback_event) rolled-Gives
