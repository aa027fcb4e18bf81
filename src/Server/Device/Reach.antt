-- ===== src/Server/Device/Reach.antt =====
-- The pairing requests as a state machine: its steps are the handlers of
-- crates/secd-web/src/device.rs, between any other uses of the database.
use Prim.Native.Nat.{max}
use secd.Base.{ℕ, Bool, true, false, not, ◌&&◌, ◌≡◌, refl, Option, none, some, List, [], arith}
use secd.Base.Text.{Str}
use secd.Base.Map.{
  Map, insert, remove, HasNodupKeys, retain-HasNodupKeys, remove-HasNodupKeys, insert-HasNodupKeys,
  all_values, all_values-retain, all_values-remove, all_values-insert,
}
use secd.Server.Db.{Conn}
use secd.Server.Headers.{HeaderMap, Reply}
use secd.Server.Audit.{Encoders}
use secd.Server.Decode.{Decoders}
use secd.Server.Device.{Device, Approved, Shared, sweep, within_ttl, sealed_ok, is_some}
use secd.Server.Device.Handlers.{
  StartBody, ApproveBody, Clock, start_checks, start, poll, approve, deny, revoke,
}
use secd.Server.Device.Handlers.Pending.{pending}
use secd.Server.Device.Change.{
  Change, unchanged, swept, opened, closed, granted, refused, start_checked-Change, poll-Change,
  approve_as-Change, deny_as-Change, pending_as-Change,
}

module _ (enc : Encoders) (dec : Decoders) (origin : Str) (rfc3339 : ℕ → Str) where
  pub data Step (s : Shared) : Shared → Type 0 where
    started :
        (clock : Clock) (draws : List (List ℕ)) (body : StartBody) {r : Reply} {t : Shared}
        → start enc dec origin clock draws body s ≡ some (r, t)
        → Step s t
    polled : (clock : Clock) (code : Str) → Step s (poll clock code s).1
    approval :
        (clock : Clock) (id token : Str) (headers : HeaderMap) (body : ApproveBody)
        → Step s (approve enc clock id token headers body s).1
    denial :
        (clock : Clock) (headers : HeaderMap) (code : Str)
        → Step s (deny enc clock headers code s).1
    listed : (clock : Clock) (headers : HeaderMap) → Step s (pending enc rfc3339 clock headers s).1
    revocation : (clock : Clock) (headers : HeaderMap) → Step s (revoke enc clock headers s).1
    elsewhere : (c : Conn) → Step s (record s { conn = c })

  pub data Reach : Shared → Type 0 where
    empty : (c : Conn) → Reach (record { devices = []; conn = c })
    later : {s t : Shared} → Reach s → Step s t → Reach t

-- A request is never both approved and denied, and what it hands out has the shape of a sealed key.
abbrev pub approval_ok : Option Approved → Bool → Bool
approval_ok none denied = true
approval_ok (some a) denied = not denied && sealed_ok a.sealed_dek

abbrev pub device_ok : Device → Bool
device_ok d = approval_ok d.approved d.denied

pub record IsValid (m : Map Device) : Type 0 where
  pub nodup : HasNodupKeys m
  pub values : all_values device_ok m ≡ true

sweep-IsValid : (now : ℕ) (m : Map Device) → IsValid m → IsValid (sweep now m)
unfolding sweep
sweep-IsValid now m v = record {
  nodup = retain-HasNodupKeys (within_ttl now) m v.nodup;
  values = all_values-retain device_ok (within_ttl now) m v.values;
}

remove-IsValid : (code : Str) (m : Map Device) → IsValid m → IsValid (remove code m)
remove-IsValid code m v = record {
  nodup = remove-HasNodupKeys code m v.nodup;
  values = all_values-remove device_ok code m v.values;
}

insert-IsValid :
    (code : Str) (d : Device) (m : Map Device)
    → device_ok d ≡ true
    → IsValid m
    → IsValid (insert code d m)
insert-IsValid code d m good v = record {
  nodup = insert-HasNodupKeys code d m v.nodup;
  values = all_values-insert device_ok code d m good v.values;
}

denied_ok : (a : Option Approved) → is_some a ≡ false → approval_ok a true ≡ true
denied_ok none h = refl
denied_ok (some a) h = cc

Change-IsValid : (at : ℕ) (m n : Map Device) → Change at m n → IsValid m → IsValid n
Change-IsValid at m _ unchanged v = v
Change-IsValid at m _ (swept now le) v = sweep-IsValid now m v
Change-IsValid at m _ (opened now le code hostname eph_pub created created_at free) v =
    insert-IsValid code _ (sweep now m) refl (sweep-IsValid now m v)
Change-IsValid at m _ (closed now le code d l off) v =
    remove-IsValid code (sweep now m) (sweep-IsValid now m v)
Change-IsValid at m _ (granted now le code d a l waits undenied sealed) v =
    insert-IsValid code _ (sweep now m) (rw (undenied, sealed) refl) (sweep-IsValid now m v)
Change-IsValid at m _ (refused now le code d l waits) v =
    insert-IsValid code _ (sweep now m) (denied_ok d.approved waits) (sweep-IsValid now m v)

module _ (enc : Encoders) (dec : Decoders) (origin : Str) (rfc3339 : ℕ → Str) where
  -- The latest instant that a step compares with.
  pub latest : {s t : Shared} → Step enc dec origin rfc3339 s t → ℕ
  latest (started clock draws body h) = clock.swept
  latest (polled clock code) = max clock.now clock.swept
  latest (approval clock id token headers body) = clock.swept
  latest (denial clock headers code) = clock.swept
  latest (listed clock headers) = clock.swept
  latest (revocation clock headers) = 0
  latest (elsewhere c) = 0

  -- Every step changes the pairing requests, up to the latest instant that it reads, as the relation
  -- `Change` has it: a new code was free, a request that goes was denied or is out of time, and one
  -- that is approved or denied was waiting.
  pub Step-Change :
      (s t : Shared) (step : Step enc dec origin rfc3339 s t)
      → Change (latest step) s.devices t.devices
  unfolding latest start approve deny pending revoke
  Step-Change s t (started clock draws body h) =
      start_checked-Change origin clock draws s (start_checks enc dec body) h
  Step-Change s t (polled clock code) =
      poll-Change (max clock.now clock.swept) clock code s (ground arith) (ground arith)
  Step-Change s t (approval clock id token headers body) =
      approve_as-Change enc clock id token body s.devices _
  Step-Change s t (denial clock headers code) = deny_as-Change enc clock code s.devices _
  Step-Change s t (listed clock headers) = pending_as-Change enc rfc3339 clock s.devices _
  Step-Change s t (revocation clock headers) = unchanged
  Step-Change s t (elsewhere c) = unchanged

  -- In every state that the handlers reach from a server without requests: each code names one
  -- request, no request is both approved and denied, and the sealed key of an approved request has
  -- the shape that `sealed_ok` demands.
  pub Reach-IsValid : (s : Shared) → Reach enc dec origin rfc3339 s → IsValid s.devices
  Reach-IsValid s (empty c) = record { nodup = tt; values = refl }
  Reach-IsValid s (later {s = r} prior step) =
      Change-IsValid (latest step) r.devices s.devices (Step-Change r s step)
        (Reach-IsValid r prior)
