-- ===== src/Server/Device/StateTests.antt =====
-- A denial, and a state that is reached through an approval, with the theorems at them.
use secd.Base.{ℕ, ◌≡◌, refl, some}
use secd.Base.Text.{Str, codes, str_eq, split, split_once}
use secd.Base.Trim.{trim}
use secd.Base.Map.{lookup, insert, retain}
use secd.Core.Hex.{to_hex, hex_digit}
use secd.Server.Db.{statement}
use secd.Server.Sha256.{sha256}
use secd.Server.Sample.{sample_encoders}
use secd.Server.Headers.{Reply}
use secd.Server.Decode.{decode_bytes}
use secd.Server.Sessions
use secd.Server.Sessions.{
  SessionKind, console, device, Session, parse, ttl, saturating_add, find_row, delete_where,
  cookie_token, cookie_in, token_hash, create, create_console, create_device, touch_kind, touch,
  flatten, by_token, of_kind, console_from_headers,
}
use secd.Server.Device.{Device, Shared, sweep, user_code, unused_code, insert_device, sealed_ok}
use secd.Server.Device.Handlers.{start, start_checks, start_reply, poll, approve, approve_device}
use secd.Server.Device.Reach.{
  started, polled, approval, Reach, empty, later, latest, Step-Change, IsValid, Reach-IsValid,
}
use secd.Server.Device.Change.{Change}
use secd.Server.Device.Settled.{Remains}
use secd.Server.Device.Steps.{Reach-Remains}
use secd.Server.Device.Sample.{
  signed_in, browser, decoders, at, start_body, origin, draws, code, waiting_device, one_waits,
  sealed, approve_body,
}

-- The state after the approval, reached from the empty server.
abbrev reached : Reply × Shared
reached =
    approve sample_encoders (at 20) (codes "id-2") (codes "t-2") browser approve_body one_waits

abbrev rfc3339 : ℕ → Str
rfc3339 t = codes "1970-01-01T00:00:00Z"

reached-Reach : Reach sample_encoders decoders origin rfc3339 reached.1
unfolding start start_checks decode_bytes insert_device unused_code trim sweep retain lookup insert
    user_code str_eq
reached-Reach =
    later
      (later (empty signed_in)
        (started (at 10) draws start_body {r = start_reply origin code} refl))
      (approval (at 20) (codes "id-2") (codes "t-2") browser approve_body)

Reach-IsValid_example : IsValid reached.1.devices
Reach-IsValid_example =
    Reach-IsValid sample_encoders decoders origin rfc3339 reached.1 reached-Reach

abbrev approved_device : Device
approved_device = record waiting_device {
  approved = some (record { token = codes "t-2"; sealed_dek = sealed });
}

reached_names : lookup code reached.1.devices ≡ some approved_device
unfolding approve approve_device create_device create_console create sweep retain lookup insert
    sealed_ok console_from_headers by_token flatten of_kind secd.Server.Sessions.lookup touch
    touch_kind cookie_token cookie_in parse token_hash find_row delete_where statement sha256 to_hex
    hex_digit str_eq split split_once trim
reached_names = refl

Reach-Remains_example :
    Remains code approved_device
      (latest sample_encoders decoders origin rfc3339 {s = reached.1} (polled (at 30) code))
      (poll (at 30) code reached.1).1
Reach-Remains_example =
    Reach-Remains sample_encoders decoders origin rfc3339 reached.1 (poll (at 30) code reached.1).1
      code approved_device reached-Reach (polled (at 30) code) reached_names refl

Step-Change_example :
    Change
      (latest sample_encoders decoders origin rfc3339 {s = reached.1} (polled (at 30) code))
      reached.1.devices
      (poll (at 30) code reached.1).1.devices
Step-Change_example =
    Step-Change sample_encoders decoders origin rfc3339 reached.1 (poll (at 30) code reached.1).1
      (polled (at 30) code)
