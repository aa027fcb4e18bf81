-- ===== src/Server/Device/Handlers/Pending.antt =====
-- `pending` of crates/secd-web/src/device.rs: the requests that wait, oldest first. Requests of one
-- instant keep the map's order, which the source leaves open.
use secd.Base.{ℕ, ◌-◌, ◌/◌, Bool, not, ◌&&◌, Option, none, some, [], ◌∷◌, map, leb, if◌then◌else◌}
use secd.Base.Text.{Str, codes}
use secd.Base.Map.{Map}
use secd.Base.Json.{Value, string, array, natural, json_object, array_of}
use secd.Server.Db.{Conn}
use secd.Server.Headers.{HeaderMap, Reply, json_value, fail_auth}
use secd.Server.Audit.{Encoders}
use secd.Server.Sessions.{Session, console_from_headers}
use secd.Server.Device.{Device, Shared, second, device_ttl, sweep, is_some}
use secd.Server.Device.Handlers.{Clock}

abbrev is_waiting : Device → Bool
is_waiting d = not (is_some d.approved) && not d.denied

unfoldable pub waiting : Map Device → Map Device
waiting [] = []
waiting ((code, d) ∷ m) = let rest = waiting m in if is_waiting d then (code, d) ∷ rest else rest

-- `sort_by_key`, which is stable.
unfoldable pub insert_by_created : Str × Device → Map Device → Map Device
insert_by_created e [] = e ∷ []
insert_by_created e (x ∷ m) =
    let rest = insert_by_created e m in if leb e.1.created x.1.created then e ∷ x ∷ m else x ∷ rest

unfoldable pub sort_by_created : Map Device → Map Device
unfolding insert_by_created
sort_by_created [] = []
sort_by_created (e ∷ m) = insert_by_created e (sort_by_created m)

module _ (enc : Encoders) (rfc3339 : ℕ → Str) where
  abbrev pub pending_row : ℕ → Str × Device → Value
  pending_row now (code, d) = json_object (
      (codes "user_code", string code)
      ∷ (codes "hostname", string d.hostname)
      ∷ (codes "eph_pub", string d.eph_pub)
      ∷ (codes "created", string (rfc3339 d.created_at))
      ∷ (codes "expires_in", natural ((device_ttl - (now - d.created)) / second))
      ∷ [])

  abbrev pub pending_reply : ℕ → Map Device → Reply
  pending_reply now m = json_value 200 (
      json_object (
        (codes "pending", array (array_of (map (pending_row now) (sort_by_created (waiting m)))))
        ∷ []))

  abbrev pub pending_as : Clock → Map Device → Option Session × Conn → Reply × Shared
  pending_as clock devices (none, c) = (fail_auth, record { devices = devices; conn = c })
  pending_as clock devices (some _, c) =
      let swept = sweep clock.swept devices in
      (pending_reply clock.now swept, record { devices = swept; conn = c })

  unfoldable pub pending : Clock → HeaderMap → Shared → Reply × Shared
  pending clock headers s =
      pending_as clock s.devices (console_from_headers enc clock.auth headers s.conn)
