-- ===== src/Server/Device/Steps.antt =====
-- An approved request under the steps of crates/secd-web/src/device.rs, and a denied one under polls.
use secd.Base.{ℕ, true, ◌≡◌, some}
use secd.Base.Text.{Str}
use secd.Base.Map.{lookup}
use secd.Server.Audit.{Encoders}
use secd.Server.Decode.{Decoders}
use secd.Server.Device.{Device, Shared, is_some}
use secd.Server.Device.Reach.{Step, Reach, latest, Step-Change, Reach-IsValid}
use secd.Server.Device.Settled.{Remains, Change-Remains}

module _ (enc : Encoders) (dec : Decoders) (origin : Str) (rfc3339 : ℕ → Str) where
  -- Once approved, a request of a reachable state never changes: no step approves it again with
  -- another key, denies it, hands its code to another request or takes it out, until an instant that
  -- the step reads is past the request's time to live.
  pub Reach-Remains :
      (s t : Shared) (code : Str) (d : Device)
      → Reach enc dec origin rfc3339 s
      → (step : Step enc dec origin rfc3339 s t) → lookup code s.devices ≡ some d
      → is_some d.approved ≡ true
      → Remains code d (latest enc dec origin rfc3339 step) t
  Reach-Remains s t code d r step l a =
      Change-Remains code d a (latest enc dec origin rfc3339 step) s.devices t.devices
        (Step-Change enc dec origin rfc3339 s t step) (Reach-IsValid enc dec origin rfc3339 s r) l
