-- ===== src/Server/Device/Tests.antt =====
-- Runs of start, poll and approve, and the theorems at them.
use secd.Base.{
  ◌+◌, ◌*◌, ◌≡◌, ◌≢◌, refl, Option, none, some, [], ◌∷◌, ltb, if◌then◌else◌, arith, replicate,
}
use secd.Base.Text.{Str, codes, str_eq, split, split_once}
use secd.Base.Trim.{trim}
use secd.Base.Map.{lookup, retain, filtered}
use secd.Core.Hex.{to_hex, hex_digit}
use secd.Server.Db.{Conn, statement}
use secd.Server.Db.Atomic.{Gives}
use secd.Server.Sha256.{sha256}
use secd.Server.Sample.{sample_encoders}
use secd.Server.Headers.{Reply}
use secd.Server.Decode.{decode_bytes}
use secd.Server.Sessions
use secd.Server.Sessions.{
  SessionKind, console, device, Session, parse, ttl, saturating_add, find_row, delete_where,
  cookie_token, cookie_in, token_hash, create, create_console, create_device, touch_kind, touch,
  flatten, by_token, of_kind, console_from_headers,
}
use secd.Server.Sessions.Guards.{Opens}
use secd.Server.Device.{Shared, second, within_ttl, sweep, user_code, sealed_ok}
use secd.Server.Device.Handlers.{
  status, start, start_checks, start_reply, poll, approved_reply, approve, approve_device,
}
use secd.Server.Device.Pairing.{Approval, approve_sound}
use secd.Server.Device.Polls.{answer_of, remaining, poll_never_expired, after_polls, approve-poll}
use secd.Server.Device.Token.{approval-lookup}
use secd.Server.Device.Start.{start_lem}
use secd.Server.Device.Sample.{
  ada, signed_in, empty_server, browser, decoders, at, start_body, origin, draws, code,
  waiting_device, one_waits, sealed, approve_body,
}

start_lem_example :
    (c : Str) × (t : Shared) × (start sample_encoders decoders origin
        (at 10)
        draws
        start_body
        empty_server
      ≡ some (start_reply origin c, t))
    × (lookup c (sweep (10 * second + 5) []) ≡ none)
    × (lookup c t.devices ≡ some waiting_device)
    × (lookup code t.devices
        ≡ (if str_eq c code then some waiting_device else lookup code (sweep (10 * second + 5) [])))
unfolding start_checks decode_bytes trim sweep retain lookup user_code
start_lem_example =
    start_lem sample_encoders decoders origin (at 10) draws start_body empty_server (codes "laptop")
      (sample_encoders.hex_encode (replicate 32 7)) code refl refl

poll_never_expired_example :
    ((poll (at 700) code one_waits).0
      ≡ answer_of (filtered (within_ttl (at 700).swept) (lookup code one_waits.devices)))
    × (lookup code (poll (at 700) code one_waits).1.devices
        ≡ remaining (filtered (within_ttl (at 700).swept) (lookup code one_waits.devices)))
    × ((poll (at 700) code one_waits).0 ≢ status (codes "expired"))
unfolding lookup
poll_never_expired_example = poll_never_expired (at 700) code one_waits (omega arith) (refl, tt)

abbrev approve_run : Reply × Shared
approve_run =
    approve sample_encoders (at 20) (codes "id-2") (codes "t-2") browser approve_body one_waits

abbrev console_session : Session
console_session = record {
  id = codes "id-1";
  email = ada;
  kind = console;
  label = codes "This browser";
  created = 1000;
  last_seen = 1020;
}

approve_sound_example :
    (session : Session) × (cookie : Str) × (c : Conn) × (console_from_headers sample_encoders 1020
        browser signed_in
      ≡ (some session, c))
    × (cookie_token browser ≡ some cookie)
    × Opens sample_encoders 1020 cookie signed_in.tables session
    × (session.kind ≡ console)
    × Approval sample_encoders
        (at 20)
        (codes "id-2")
        (codes "t-2")
        approve_body
        session
        (record { devices = sweep (20 * second + 5) one_waits.devices; conn = c })
        approve_run.1
unfolding approve approve_device create_device create_console create sweep retain lookup sealed_ok
    console_from_headers by_token flatten of_kind secd.Server.Sessions.lookup touch touch_kind
    cookie_token cookie_in parse token_hash find_row delete_where statement sha256 to_hex hex_digit
    str_eq split split_once trim
approve_sound_example =
    approve_sound sample_encoders (at 20) (codes "id-2") (codes "t-2") browser approve_body
      one_waits refl

abbrev approved_server : Shared
approved_server =
    (approve_device sample_encoders (at 20) (codes "id-2") (codes "t-2") approve_body
      console_session one_waits (some waiting_device)).1

abbrev creation : Option (Str × Str) × Conn
creation =
    create_device sample_encoders 1020 (codes "id-2") (codes "t-2") ada (codes "laptop") signed_in

the_approval :
    Approval sample_encoders
      (at 20)
      (codes "id-2")
      (codes "t-2")
      approve_body
      console_session
      one_waits
      approved_server
unfolding approve_device create_device create_console create lookup sealed_ok token_hash statement
    sha256 to_hex hex_digit str_eq
the_approval = record {
  device = waiting_device;
  found = refl;
  live = refl;
  waits = refl;
  undenied = refl;
  sealed = refl;
  made = ((codes "id-2", codes "t-2"), creation.1);
  creates = refl;
  ends = refl;
}

approve-poll_example :
    (poll (at 40) code (after_polls ((at 30, code) ∷ (at 35, codes "else") ∷ []) approved_server)).0
    ≡ approved_reply (record { token = codes "t-2"; sealed_dek = sealed })
unfolding lookup the_approval
approve-poll_example =
    approve-poll sample_encoders (at 20) (codes "id-2") (codes "t-2") approve_body console_session
      one_waits approved_server ((at 30, code) ∷ (at 35, codes "else") ∷ []) (at 40) (refl, tt)
      ((omega arith, omega arith), ((omega arith, omega arith), tt)) (omega arith) the_approval

abbrev token_run : Option (Option Session) × Conn
token_run = secd.Server.Sessions.lookup sample_encoders 2000 (codes "t-2") approved_server.conn

abbrev device_session : Session
device_session = record {
  id = codes "id-2";
  email = ada;
  kind = device;
  label = codes "laptop";
  created = 1020;
  last_seen = 2000;
}

token_run-Gives :
    Gives
      (secd.Server.Sessions.lookup sample_encoders 2000 (codes "t-2"))
      approved_server.conn.tables
      (some device_session)
      token_run.1.tables
unfolding approve_device create_device create_console create sealed_ok secd.Server.Sessions.lookup
    touch touch_kind parse token_hash find_row delete_where statement sha256 to_hex hex_digit str_eq
token_run-Gives = record {
  before = approved_server.conn;
  after = token_run.1;
  starts = refl;
  runs = refl;
  ends = refl;
}

approval-lookup_example :
    some device_session
    ≡ (if ltb 2000 (saturating_add 1020 (ttl device)) then some device_session else none)
unfolding the_approval
approval-lookup_example =
    approval-lookup sample_encoders (at 20) (codes "id-2") (codes "t-2") approve_body
      console_session one_waits approved_server 2000 token_run.1.tables (some device_session)
      the_approval token_run-Gives
