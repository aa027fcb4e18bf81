-- ===== src/Server/Vault/HandlerTests.antt =====
-- Runs of the handlers that write the vault, and the theorems at them.
use secd.Base.{◌≡◌, ◌≢◌, refl, ◌⊎◌, none, some, [], ◌∷◌, arith}
use secd.Base.Text.{Str, codes, str_eq, strip_prefix, split, contains, starts_with}
use secd.Base.Trim.{trim}
use secd.Base.Map.{lookup}
use secd.Base.Json.{Value, string, array, json_object, array_of}
use secd.Core.Hex.{to_hex, hex_digit}
use secd.Core.Name.{check_name, check_segments, is_name_byte}
use secd.Server.Db.{Conn, immediate, exec_begin, exec_commit, exec_rollback, statement, stored}
use secd.Server.Sha256.{sha256}
use secd.Server.Sample.{sample_encoders, no_tables, conn_of}
use secd.Server.Headers.{HeaderMap}
use secd.Server.Audit.{append_on}
use secd.Server.Sessions
use secd.Server.Sessions.{
  Session, console, device, create_device, create, parse, find_row, delete_where, cookie_token,
  bearer_token, or_else, non_empty, token_hash, touch_kind, touch, flatten, by_token, by_bearer,
  or_bearer, vault_from_headers,
}
use secd.Server.Sessions.Guards.{Opens, BearerOpens, vault_from_headers_sound}
use secd.Server.Sessions.Keeps.{other_tables}
use secd.Server.Vault.{
  max_seq, read_before, insert_entries, store_entries, sync_wraps, replace_entries, replace_wraps,
  insert_wraps, collect_wraps, user_rows, passkey_rows, wrap_row,
}
use secd.Server.Vault.Requests.{has_forbidden, parse_entry, parse_entries, parse_vault}
use secd.Server.Vault.Handlers.{put_vault}
use secd.Server.Vault.Put.{Stored, put_vault_sound, put_vault_refused}
use secd.Server.Vault.Tests.{json, users}

-- A device that writes the vault.
abbrev device_conn : Conn
device_conn =
    (create_device sample_encoders 1000 (codes "id-2") (codes "t-2") (codes "ada@example.org")
      (codes "laptop") (conn_of no_tables)).1

abbrev cli : HeaderMap
cli = record { cookie = none; authorization = some (codes "Bearer t-2"); secd_name = none }

abbrev body : Value
body = json_object (
    (
      codes "entries",
      array (
          array_of (
            json_object (
              (codes "name", string (codes "ops/db"))
              ∷ (codes "ciphertext", string (codes "aa"))
              ∷ [])
            ∷ [])),
    )
    ∷ [])

abbrev secret_body : Value
secret_body = json_object ((codes "entries", array (array_of [])) ∷ (codes "dek", string []) ∷ [])

put_vault_sound_example :
    (session : Session) × ((vault_from_headers sample_encoders 1100 cli device_conn).0
      ≡ some session)
    × Stored json sample_encoders users
        (codes "t1")
        body
        session
        (vault_from_headers sample_encoders 1100 cli device_conn).1
        (put_vault json sample_encoders 1100 users (codes "t1") cli body device_conn).1
unfolding put_vault parse_vault parse_entries parse_entry has_forbidden check_name check_segments
    is_name_byte contains starts_with split replace_entries store_entries sync_wraps replace_wraps
    insert_wraps collect_wraps user_rows passkey_rows wrap_row read_before insert_entries lookup
    max_seq append_on immediate exec_begin exec_commit exec_rollback create_device create
    vault_from_headers by_bearer by_token flatten secd.Server.Sessions.lookup touch touch_kind
    cookie_token bearer_token or_else non_empty strip_prefix trim parse token_hash find_row
    delete_where statement sha256 to_hex hex_digit str_eq
put_vault_sound_example =
    put_vault_sound json sample_encoders 1100 users (codes "t1") cli body device_conn refl

abbrev session_seen : Session
session_seen = record {
  id = codes "id-2";
  email = codes "ada@example.org";
  kind = device;
  label = codes "laptop";
  created = 1000;
  last_seen = 1100;
}

vault_from_headers_sound_example :
    ((token : Str) × (cookie_token cli ≡ some token)
      × Opens sample_encoders 1100 token device_conn.tables session_seen)
    ⊎ (((cookie_token cli ≡ none)
          × BearerOpens sample_encoders 1100 cli device_conn.tables session_seen)
        ⊎ ((cookie : Str) × (cookie_token cli ≡ some cookie)
            × ((by_token sample_encoders 1100 cookie device_conn).0 ≡ none)
            × BearerOpens sample_encoders 1100 cli
                (by_token sample_encoders 1100 cookie device_conn).1.tables
                session_seen))
unfolding create_device create vault_from_headers by_bearer by_token flatten
    secd.Server.Sessions.lookup touch touch_kind cookie_token bearer_token or_else non_empty
    strip_prefix trim parse token_hash find_row delete_where statement sha256 to_hex hex_digit
    str_eq
vault_from_headers_sound_example =
    vault_from_headers_sound sample_encoders 1100 cli device_conn session_seen refl

bad_status :
    (put_vault json sample_encoders 1100 users (codes "t1") cli secret_body device_conn).0.status
    ≢ 200
unfolding put_vault parse_vault has_forbidden create_device create vault_from_headers by_bearer
    by_token flatten secd.Server.Sessions.lookup touch touch_kind cookie_token bearer_token or_else
    non_empty strip_prefix trim parse token_hash find_row delete_where statement sha256 to_hex
    hex_digit str_eq
bad_status h = absurd (omega arith)

put_vault_refused_example :
    other_tables (
      stored (put_vault json sample_encoders 1100 users (codes "t1") cli secret_body device_conn).1)
    ≡ other_tables (stored device_conn)
put_vault_refused_example =
    put_vault_refused json sample_encoders 1100 users (codes "t1") cli secret_body device_conn
      bad_status
