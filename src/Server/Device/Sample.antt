-- ===== src/Server/Device/Sample.antt =====
-- A server with one console session and one request that waits.
use secd.Base.{ℕ, ◌+◌, ◌*◌, none, some, List, [], ◌∷◌, replicate}
use secd.Base.Text.{Str, codes}
use secd.Base.Json.{Value, string, json_object}
use secd.Server.Db.{Conn}
use secd.Server.Sample.{sample_encoders, no_tables, conn_of}
use secd.Server.Headers.{HeaderMap}
use secd.Server.Decode.{Decoders}
use secd.Server.Sessions.{create_console}
use secd.Server.Device.{Device, Shared, second}
use secd.Server.Device.Handlers.{StartBody, ApproveBody, Clock, pending_device}

-- A server whose one console session belongs to Ada.
abbrev pub ada : Str
ada = codes "ada@example.org"

abbrev pub signed_in : Conn
signed_in =
    (create_console sample_encoders 1000 (codes "id-1") (codes "t-1") ada (conn_of no_tables)).1

abbrev pub empty_server : Shared
empty_server = record { devices = []; conn = signed_in }

abbrev pub browser : HeaderMap
browser = record { cookie = some (codes "__Host-secd=t-1"); authorization = none; secd_name = none }

-- Decoders that read no base64.
abbrev pub decoders : Decoders
decoders = record {
  hex_decode = λ s. some (replicate 32 7);
  url_safe_no_pad = λ s. none;
  url_safe = λ s. none;
  standard = λ s. none;
}

abbrev pub at : ℕ → Clock
at n = record { auth = 1000 + n; now = n * second; swept = n * second + 5; unix = 1000 + n }

abbrev pub start_body : StartBody
start_body = record {
  eph_pub = some (codes "07");
  device_id = some (codes "d-1");
  hostname = some (codes "laptop");
}

abbrev pub origin : Str
origin = codes "https://secd.example.org"

abbrev pub draws : List (List ℕ)
draws = (0 ∷ 1 ∷ 2 ∷ 3 ∷ 4 ∷ 5 ∷ 6 ∷ 7 ∷ []) ∷ []

abbrev pub code : Str
code = codes "ABCD-EFGH"

abbrev pub waiting_device : Device
waiting_device =
    pending_device (codes "laptop") (sample_encoders.hex_encode (replicate 32 7)) (10 * second) 1010

abbrev pub one_waits : Shared
one_waits = record { devices = (code, waiting_device) ∷ []; conn = signed_in }

abbrev pub sealed : Value
sealed = json_object (
    (codes "eph_pub", string (replicate 64 b'a')) ∷ (codes "blob", string (replicate 80 b'0')) ∷ [])

abbrev pub approve_body : ApproveBody
approve_body = record { user_code = code; sealed_dek = sealed }
