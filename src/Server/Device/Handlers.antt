-- ===== src/Server/Device/Handlers.antt =====
-- The handlers of crates/secd-web/src/device.rs. The times that a handler reads, its random draws
-- and the formatting of times are inputs.
pub mod Pending
use secd.Base.{
  ℕ, ◌-◌, ◌/◌, Bool, true, false, not, ◌&&◌, ◌||◌, Option, none, some, List, [], ◌∷◌, ◌++◌, map,
  length, take, ltb, leb, if◌then◌else◌,
}
use secd.Base.Text.{Str, codes, is_empty}
use secd.Base.Map.{Map, lookup, insert, remove}
use secd.Base.Result.{Result, ok, err, ◌>>=◌, ◌>>◌, ok_or}
use secd.Base.Json.{Value, string, array, natural, json_object, array_of, unwrap_or}
use secd.Server.Db.{Conn}
use secd.Server.Headers.{HeaderMap, Reply, json_value, json_status, fail_auth, ok_true}
use secd.Server.Audit.{Encoders, AuditEvent}
use secd.Server.Sessions.{
  Session, console_from_headers, device_from_headers, bearer_token, create_device,
}
use secd.Server.Sessions.Revoke.{revoke_token_with_audit}
use secd.Server.Decode.{Decoders, decode_bytes}
use secd.Server.Device.{
  Device, Approved, Shared, second, device_ttl, interval, within_ttl, sweep, insert_device,
  sealed_ok, is_some,
}

pub record StartBody : Type 0 where
  pub eph_pub : Option Str
  pub device_id : Option Str
  pub hostname : Option Str

pub record ApproveBody : Type 0 where
  pub user_code : Str
  pub sealed_dek : Value

-- The clocks in the order in which a handler reads them: the unix time for the session that
-- authenticates, the instant `now`, the later instant of the sweep, and the unix time of a session
-- that is created.
pub record Clock : Type 0 where
  pub auth : ℕ
  pub now : ℕ
  pub swept : ℕ
  pub unix : ℕ

abbrev pub status : Str → Reply
status s = json_value 200 (json_object ((codes "status", string s) ∷ []))

abbrev pub refuse_if : Bool → Reply → Result Reply (Unit {0})
refuse_if true r = err r
refuse_if false r = ok tt

-- The guards of `start`: the host name and the key in hexadecimal.
unfoldable pub start_checks : Encoders → Decoders → StartBody → Result Reply (Str × Str)
start_checks enc dec body = do
  raw ← ok_or body.eph_pub (json_status 400 (codes "eph_pub"))
  eph ← ok_or (decode_bytes dec raw) (json_status 400 (codes "eph_pub"))
  refuse_if (ltb (length eph) 32) (json_status 400 (codes "eph_pub"))
  let device_id = unwrap_or [] body.device_id
  let hostname = unwrap_or [] body.hostname
  refuse_if (is_empty device_id || is_empty hostname) (json_status 400 (codes "device"))
  ok (hostname, enc.hex_encode (take 32 eph))

abbrev pub pending_device : Str → Str → ℕ → ℕ → Device
pending_device hostname eph_pub now created_at = record {
  hostname = hostname;
  eph_pub = eph_pub;
  created = now;
  created_at = created_at;
  approved = none;
  denied = false;
}

abbrev pub start_reply : Str → Str → Reply
start_reply origin code = json_value 200 (
    json_object (
      (codes "user_code", string code)
      ∷ (codes "interval", natural interval)
      ∷ (codes "verification_uri", string (origin ++ codes "/device"))
      ∷ []))

abbrev pub start_inserted : Str → Shared → Option (Str × Map Device) → Option (Reply × Shared)
start_inserted origin s none = none
start_inserted origin s (some (code, m)) = some (start_reply origin code, record s { devices = m })

abbrev pub start_checked :
    Str → Clock → List (List ℕ) → Shared → Result Reply (Str × Str) → Option (Reply × Shared)
start_checked origin clock draws s (err r) = some (r, s)
start_checked origin clock draws s (ok (hostname, eph_pub)) = start_inserted origin s (
    insert_device clock.swept draws (pending_device hostname eph_pub clock.now clock.unix)
      s.devices)

-- `none` where every drawn code is in use: the loop goes on drawing.
unfoldable pub start :
    Encoders → Decoders → Str → Clock → List (List ℕ) → StartBody → Shared → Option (Reply × Shared)
start enc dec origin clock draws body s =
    start_checked origin clock draws s (start_checks enc dec body)

abbrev pub approved_reply : Approved → Reply
approved_reply a = json_value 200 (
    json_object (
      (codes "status", string (codes "ok"))
      ∷ (codes "token", string a.token)
      ∷ (codes "sealed_dek", a.sealed_dek)
      ∷ []))

abbrev pub poll_approved : Option Approved → Reply
poll_approved none = status (codes "pending")
poll_approved (some a) = approved_reply a

unfoldable pub poll_device : ℕ → Str → Shared → Option Device → Reply × Shared
poll_device now code s none = (json_status 404 (codes "not found"), s)
poll_device now code s (some d) =
    if not (within_ttl now d)
    then (status (codes "expired"), record s { devices = remove code s.devices })
    else if d.denied
    then (status (codes "denied"), record s { devices = remove code s.devices })
    else (poll_approved d.approved, s)

unfoldable pub poll : Clock → Str → Shared → Reply × Shared
poll clock code s =
    let swept = record s { devices = sweep clock.swept s.devices } in
    poll_device clock.now code swept (lookup code swept.devices)

module _ (enc : Encoders) where
  -- The answer of the session store to `create_device`.
  abbrev pub approve_created :
      ApproveBody → Device → Shared → Option (Str × Str) × Conn → Reply × Shared
  approve_created body d s (none, c) = (json_status 500 (codes "store"), record s { conn = c })
  approve_created body d s (some (id, token), c) = (
    ok_true,
    record {
      devices =
          insert body.user_code
            (record d { approved = some (record { token = token; sealed_dek = body.sealed_dek }) })
            s.devices;
      conn = c;
    },
  )

  unfoldable pub approve_device :
      Clock → Str → Str → ApproveBody → Session → Shared → Option Device → Reply × Shared
  approve_device clock id token body session s none = (fail_auth, s)
  approve_device clock id token body session s (some d) =
      if not (within_ttl clock.now d)
      then (fail_auth, s)
      else if d.denied
      then (json_status 400 (codes "denied"), s)
      else if is_some d.approved
      then (json_status 400 (codes "already approved"), s)
      else if not (sealed_ok body.sealed_dek)
      then (json_status 400 (codes "sealed_dek"), s)
      else approve_created body d s
          (create_device enc clock.unix id token session.email d.hostname s.conn)

  abbrev pub approve_as :
      Clock → Str → Str → ApproveBody → Map Device → Option Session × Conn → Reply × Shared
  approve_as clock id token body devices (none, c) =
      (fail_auth, record { devices = devices; conn = c })
  approve_as clock id token body devices (some session, c) =
      let swept = sweep clock.swept devices in
      approve_device clock id token body session (record { devices = swept; conn = c })
        (lookup body.user_code swept)

  -- `id` and `token` are what `create_device` draws.
  unfoldable pub approve : Clock → Str → Str → HeaderMap → ApproveBody → Shared → Reply × Shared
  approve clock id token headers body s =
      approve_as clock id token body s.devices (console_from_headers enc clock.auth headers s.conn)

  unfoldable pub deny_device : ℕ → Str → Shared → Option Device → Reply × Shared
  deny_device now code s none = (json_status 404 (codes "not found"), s)
  deny_device now code s (some d) =
      if not (within_ttl now d)
      then (json_status 404 (codes "not found"), s)
      else if is_some d.approved
      then (json_status 400 (codes "already approved"), s)
      else (ok_true, record s { devices = insert code (record d { denied = true }) s.devices })

  abbrev pub deny_as : Clock → Str → Map Device → Option Session × Conn → Reply × Shared
  deny_as clock code devices (none, c) = (fail_auth, record { devices = devices; conn = c })
  deny_as clock code devices (some _, c) =
      let swept = sweep clock.swept devices in
      deny_device clock.now code (record { devices = swept; conn = c }) (lookup code swept)

  unfoldable pub deny : Clock → HeaderMap → Str → Shared → Reply × Shared
  deny clock headers code s =
      deny_as clock code s.devices (console_from_headers enc clock.auth headers s.conn)

  abbrev pub revoke_reply : Option AuditEvent × Conn → Reply × Conn
  revoke_reply (none, c) = (json_status 500 (codes "store"), c)
  revoke_reply (some _, c) = (ok_true, c)

  abbrev pub revoke_bearer : Session → Conn → Option Str → Reply × Conn
  revoke_bearer session c none = (fail_auth, c)
  revoke_bearer session c (some token) =
      revoke_reply (revoke_token_with_audit enc token session.id c)

  abbrev pub revoke_as : HeaderMap → Option Session × Conn → Reply × Conn
  revoke_as headers (none, c) = (fail_auth, c)
  revoke_as headers (some session, c) = revoke_bearer session c (bearer_token headers)

  unfoldable pub revoke : Clock → HeaderMap → Shared → Reply × Shared
  revoke clock headers s =
      let (reply, c) = revoke_as headers (device_from_headers enc clock.auth headers s.conn) in
      (reply, record s { conn = c })
