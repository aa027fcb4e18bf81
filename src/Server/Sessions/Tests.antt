-- ===== src/Server/Sessions/Tests.antt =====
-- Runs of the session store, and the theorems at them.
use secd.Base.{◌<◌, Bool, true, ◌≡◌, ◌≢◌, refl, Option, none, some, [], In, ltb, if◌then◌else◌}
use secd.Base.Text.{Str, codes, str_eq}
use secd.Core.Hex.{to_hex, hex_digit}
use secd.Server.Db.{SessionRow, Conn, immediate, statement}
use secd.Server.Db.Atomic.{Gives}
use secd.Server.Sha256.{sha256}
use secd.Server.Sample.{sample_encoders, no_tables, conn_of, run-Gives}
use secd.Server.Headers.{HeaderMap}
use secd.Server.Audit.{
  AuditEvent, zero_hash, append_on, next_row, event_hash, event_bytes, head_hash,
}
use secd.Server.Sessions.{
  console, device, Session, parse, ttl, saturating_add, find_row, delete_where, cookie_token,
  token_hash, create, session_of, touch_kind, touch, lookup,
}
use secd.Server.Sessions.Ensure.{fresh_console, ensure_console}
use secd.Server.Sessions.Revoke.{Revoke, other, revoke_found, revoke_id, revoke_token}
use secd.Server.Sessions.Lookup.{lookup_sound, lookup-create}
use secd.Server.Sessions.Revoked.{Revocation, revoke_id_lem}
use secd.Server.Sessions.Single.{IsSignedIn, ensure_console-IsSignedIn}

abbrev ada : Str
ada = codes "ada@example.org"

abbrev made : Option (Str × Str) × Conn
made =
    create sample_encoders 1000 (codes "id-1") (codes "t-1") ada device (codes "laptop")
      (conn_of no_tables)

made-Gives :
    Gives
      (create sample_encoders 1000 (codes "id-1") (codes "t-1") ada device (codes "laptop"))
      no_tables
      (codes "id-1", codes "t-1")
      made.1.tables
unfolding create statement
made-Gives = run-Gives _ no_tables (codes "id-1", codes "t-1") refl

abbrev the_session : Session
the_session = record {
  id = codes "id-1";
  email = ada;
  kind = device;
  label = codes "laptop";
  created = 1000;
  last_seen = 1500;
}

abbrev found : Option (Option Session) × Conn
found = lookup sample_encoders 1500 (codes "t-1") (conn_of made.1.tables)

found-Gives :
    Gives
      (lookup sample_encoders 1500 (codes "t-1"))
      made.1.tables
      (some the_session)
      found.1.tables
unfolding lookup touch touch_kind create parse token_hash find_row delete_where statement sha256
    to_hex hex_digit str_eq
found-Gives = run-Gives _ made.1.tables (some the_session) refl

lookup_sound_example :
    (r : SessionRow) × In r made.1.tables.sessions
    × (r.token_hash ≡ token_hash sample_encoders (codes "t-1"))
    × (1500 < r.expires)
    × (parse r.kind ≡ some device)
    × (the_session ≡ session_of sample_encoders 1500 r device)
lookup_sound_example =
    lookup_sound sample_encoders 1500 (codes "t-1") made.1.tables found.1.tables the_session
      found-Gives

lookup-create_example :
    some the_session
    ≡ (if ltb 1500 (saturating_add 1000 (ttl device)) then some the_session else none)
lookup-create_example =
    lookup-create sample_encoders 1000 1500 (codes "id-1") (codes "t-1") ada (codes "laptop") device
      no_tables made.1.tables found.1.tables (codes "id-1", codes "t-1") (some the_session)
      made-Gives found-Gives

abbrev revoked : Option Bool × Conn
revoked = revoke_token sample_encoders (codes "t-1") (conn_of made.1.tables)

revoked-Gives :
    Gives (revoke_token sample_encoders (codes "t-1")) made.1.tables true revoked.1.tables
unfolding revoke_token create token_hash statement sha256 to_hex hex_digit str_eq
revoked-Gives = run-Gives _ made.1.tables true refl

abbrev refused : Option (Option Session) × Conn
refused = lookup sample_encoders 1500 (codes "t-1") (conn_of revoked.1.tables)

refused-Gives :
    Gives (lookup sample_encoders 1500 (codes "t-1")) revoked.1.tables none refused.1.tables
unfolding lookup touch touch_kind create revoke_token parse token_hash find_row delete_where
    statement sha256 to_hex hex_digit str_eq
refused-Gives = run-Gives _ revoked.1.tables none refl

other_hash : codes "00" ≢ token_hash sample_encoders (codes "t-1")
unfolding token_hash sha256 to_hex hex_digit
other_hash e = absurd (cc)

abbrev no_session : Option Session
no_session = none

-- The audit row of a revocation, and the answer.
abbrev revoked_by_id : Option (Revoke × Option AuditEvent) × Conn
revoked_by_id = revoke_id sample_encoders ada (codes "id-1") (conn_of made.1.tables)

abbrev revocation_event : AuditEvent
revocation_event = record {
  action = codes "session.revoke";
  session_id = some (codes "id-1");
  names = [];
  prev = zero_hash;
  hash =
      event_hash sample_encoders zero_hash (codes "session.revoke") (some (codes "id-1"))
        (codes "[]");
}

revoked_by_id-Gives :
    Gives
      (revoke_id sample_encoders ada (codes "id-1"))
      made.1.tables
      (other, some revocation_event)
      revoked_by_id.1.tables
unfolding revoke_id revoke_found append_on next_row event_hash event_bytes head_hash immediate
    create parse token_hash find_row delete_where statement sha256 to_hex hex_digit str_eq
revoked_by_id-Gives = run-Gives _ made.1.tables (other, some revocation_event) refl

revoke_id_lem_example :
    Revocation sample_encoders ada (codes "id-1") other made.1.tables revoked_by_id.1.tables
revoke_id_lem_example =
    revoke_id_lem sample_encoders ada (codes "id-1") made.1.tables revoked_by_id.1.tables
      (other, some revocation_event) revoked_by_id-Gives

abbrev no_headers : HeaderMap
no_headers = record { cookie = none; authorization = none; secd_name = none }

-- A console session that the cookie opens, and a bearer token.
abbrev signed_in : Option (Str × Str) × Conn
signed_in =
    ensure_console sample_encoders 2000 (codes "id-2") (codes "t-2") ada no_headers
      (conn_of made.1.tables)

signed_in-Gives :
    Gives
      (ensure_console sample_encoders 2000 (codes "id-2") (codes "t-2") ada no_headers)
      made.1.tables
      (codes "id-2", codes "t-2")
      signed_in.1.tables
unfolding ensure_console fresh_console cookie_token immediate create token_hash delete_where
    statement sha256 to_hex hex_digit str_eq
signed_in-Gives = run-Gives _ made.1.tables (codes "id-2", codes "t-2") refl

ensure_console-IsSignedIn_example :
    IsSignedIn sample_encoders 2000 ada (codes "id-2", codes "t-2") signed_in.1.tables
ensure_console-IsSignedIn_example =
    ensure_console-IsSignedIn sample_encoders 2000 (codes "id-2") (codes "t-2") ada no_headers
      made.1.tables signed_in.1.tables (codes "id-2", codes "t-2") signed_in-Gives

abbrev browser : HeaderMap
browser = record no_headers { cookie = some (codes "theme=dark; __Host-secd=t-2") }

abbrev cli : HeaderMap
cli = record no_headers { authorization = some (codes "Bearer t-1") }

abbrev console_session : Session
console_session = record {
  id = codes "id-2";
  email = ada;
  kind = console;
  label = codes "This browser";
  created = 2000;
  last_seen = 2100;
}
