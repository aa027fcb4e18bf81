-- ===== src/Server/Device/Change.antt =====
-- What the handlers of crates/secd-web/src/device.rs may do to the pairing requests, as a relation.
use secd.Base.{
  ℕ, ◌≤◌, true, false, not, ◌≡◌, refl, ◌⊎◌, inl, inr, Option, none, some, List, [], ◌∷◌, arith,
  if_intro, Bool-cases, subst,
}
use secd.Base.Text.{Str}
use secd.Base.Map.{Map, lookup, insert, remove, contains_key}
use secd.Base.Result.{Result, ok, err}
use secd.Server.Db.{Conn}
use secd.Server.Headers.{Reply}
use secd.Server.Audit.{Encoders}
use secd.Server.Sessions.{Session}
use secd.Server.Device.{
  Device, Approved, Shared, sweep, within_ttl, insert_device, insert_at, sealed_ok, is_some,
  unused_code, user_code,
}
use secd.Server.Device.Handlers.{
  ApproveBody, Clock, start_checked, start_inserted, pending_device, poll, poll_device, approve_as,
  approve_device, approve_created, deny_as, deny_device,
}
use secd.Server.Device.Handlers.Pending.{pending_as}

-- The changes up to the instant `at`. All but the first come behind a sweep: a request that waits under
-- a new code, one that goes since it is denied or out of time, and one that is approved or denied.
pub data Change (at : ℕ) (m : Map Device) : Map Device → Type 0 where
  unchanged : Change at m m
  swept : (now : ℕ) → now ≤ at → Change at m (sweep now m)
  opened :
      (now : ℕ)
      → now ≤ at
      → (code hostname eph_pub : Str) (created created_at : ℕ)
      → contains_key code (sweep now m) ≡ false
      → Change at m (insert code (pending_device hostname eph_pub created created_at) (sweep now m))
  closed :
      (now : ℕ)
      → now ≤ at
      → (code : Str) (d : Device) → lookup code (sweep now m) ≡ some d
      → (within_ttl at d ≡ false) ⊎ (d.denied ≡ true)
      → Change at m (remove code (sweep now m))
  granted :
      (now : ℕ)
      → now ≤ at
      → (code : Str) (d : Device) (a : Approved) → lookup code (sweep now m) ≡ some d
      → is_some d.approved ≡ false
      → d.denied ≡ false
      → sealed_ok a.sealed_dek ≡ true
      → Change at m (insert code (record d { approved = some a }) (sweep now m))
  refused :
      (now : ℕ)
      → now ≤ at
      → (code : Str) (d : Device) → lookup code (sweep now m) ≡ some d
      → is_some d.approved ≡ false
      → Change at m (insert code (record d { denied = true }) (sweep now m))

-- A handler leaves the requests changed so.
record Changed (at : ℕ) (m : Map Device) (r : Reply × Shared) : Type 0 where
  change : Change at m r.1.devices

unused_code_sound :
    (m : Map Device) (draws : List (List ℕ)) (code : Str)
    → unused_code m draws ≡ some code
    → contains_key code m ≡ false
unfolding unused_code
unused_code_sound m [] code h = absurd (cc)
unused_code_sound m (raw ∷ draws) code h = elim (Bool-cases (contains_key (user_code raw) m)) [
  | inl used ↦ unused_code_sound m draws code (rw used at h)
  | inr free ↦
      let e : some (user_code raw) ≡ some code = rw free at h in
      let same : user_code raw ≡ code = cc e in subst (λ c. contains_key c m ≡ false) same free
]

-- An instant that is past the time to live is followed by such instants alone.
pub within_ttl-later :
    (now later : ℕ) (d : Device)
    → now ≤ later
    → within_ttl now d ≡ false
    → within_ttl later d ≡ false
within_ttl-later now later d le h = ground arith

module _ (at now : ℕ) (le : now ≤ at) (m : Map Device) where
  start_inserted-Change :
      (origin hostname eph_pub : Str) (created created_at : ℕ) (s : Shared) (o : Option Str)
      {r : Reply} {t : Shared}
      → ((c : Str) → o ≡ some c → contains_key c (sweep now m) ≡ false)
      → start_inserted origin s
          (insert_at (pending_device hostname eph_pub created created_at) (sweep now m) o)
        ≡ some (r, t)
      → Change at m t.devices
  start_inserted-Change origin hostname eph_pub created created_at s none free h = absurd (cc)
  start_inserted-Change origin hostname eph_pub created created_at s (some c) free h =
      subst (Change at m) (ground arith)
        (opened now le c hostname eph_pub created created_at (free c refl))

  poll_device-Change :
      (n : ℕ) (code : Str) (s : Shared) (o : Option Device)
      → n ≤ at
      → s.devices ≡ sweep now m
      → lookup code (sweep now m) ≡ o
      → Changed at m (poll_device n code s o)
  unfolding poll_device
  poll_device-Change n code s none k e l = record { change = rw e (swept now le) }
  poll_device-Change n code s (some d) k e l = rw e (
      if_intro (Changed at m) (not (within_ttl n d))
        (λ off. record {
          change = closed now le code d l (inl (within_ttl-later n at d k (ground arith)));
        })
        (λ _.
          if_intro (Changed at m) d.denied
            (λ gone. record { change = closed now le code d l (inr gone) })
            (λ _. record { change = swept now le })))

  module _ (enc : Encoders) where
    approve_created-Change :
        (body : ApproveBody) (d : Device) (c0 : Conn) (r : Option (Str × Str) × Conn)
        → lookup body.user_code (sweep now m) ≡ some d
        → is_some d.approved ≡ false
        → d.denied ≡ false
        → sealed_ok body.sealed_dek ≡ true
        → Changed at m (approve_created enc body d (record { devices = sweep now m; conn = c0 }) r)
    approve_created-Change body d c0 (none, c) l waits undenied sealed = record {
      change = swept now le;
    }
    approve_created-Change body d c0 (some (id, token), c) l waits undenied sealed = record {
      change = granted now le body.user_code d _ l waits undenied sealed;
    }

    approve_device-Change :
        (clock : Clock) (id token : Str) (body : ApproveBody) (session : Session) (c : Conn)
        (o : Option Device)
        → lookup body.user_code (sweep now m) ≡ o
        → Changed at m (
            approve_device enc clock id token body session
              (record { devices = sweep now m; conn = c })
              o)
    unfolding approve_device
    approve_device-Change clock id token body session c none l = record { change = swept now le }
    approve_device-Change clock id token body session c (some d) l =
        if_intro (Changed at m) (not (within_ttl clock.now d))
          (λ _. record { change = swept now le })
          (λ _.
            if_intro (Changed at m) d.denied (λ _. record { change = swept now le })
              (λ undenied.
                if_intro (Changed at m) (is_some d.approved) (λ _. record { change = swept now le })
                  (λ waits.
                    if_intro (Changed at m) (not (sealed_ok body.sealed_dek))
                      (λ _. record { change = swept now le })
                      (λ sealed.
                        approve_created-Change body d c _ l waits undenied (ground arith)))))

    deny_device-Change :
        (n : ℕ) (code : Str) (c : Conn) (o : Option Device)
        → lookup code (sweep now m) ≡ o
        → Changed at m (deny_device enc n code (record { devices = sweep now m; conn = c }) o)
    unfolding deny_device
    deny_device-Change n code c none l = record { change = swept now le }
    deny_device-Change n code c (some d) l =
        if_intro (Changed at m) (not (within_ttl n d)) (λ _. record { change = swept now le })
          (λ _.
            if_intro (Changed at m) (is_some d.approved) (λ _. record { change = swept now le })
              (λ waits. record { change = refused now le code d l waits }))

-- Each handler, behind the guards that read the session.
pub start_checked-Change :
    (origin : Str) (clock : Clock) (draws : List (List ℕ)) (s : Shared)
    (checked : Result Reply (Str × Str)) {r : Reply} {t : Shared}
    → start_checked origin clock draws s checked ≡ some (r, t)
    → Change clock.swept s.devices t.devices
unfolding insert_device
start_checked-Change origin clock draws s (err e) h =
    subst (Change clock.swept s.devices) (ground arith) unchanged
start_checked-Change origin clock draws s (ok (hostname, eph_pub)) h =
    start_inserted-Change clock.swept clock.swept (omega arith) s.devices origin hostname eph_pub
      clock.now clock.unix s _ (unused_code_sound (sweep clock.swept s.devices) draws) h

pub poll-Change :
    (at : ℕ) (clock : Clock) (code : Str) (s : Shared)
    → clock.now ≤ at
    → clock.swept ≤ at
    → Change at s.devices (poll clock code s).1.devices
unfolding poll
poll-Change at clock code s k l =
    (poll_device-Change at clock.swept l s.devices clock.now code _ _ k refl refl).change

module _ (enc : Encoders) where
  pub approve_as-Change :
      (clock : Clock) (id token : Str) (body : ApproveBody) (m : Map Device)
      (r : Option Session × Conn)
      → Change clock.swept m (approve_as enc clock id token body m r).1.devices
  approve_as-Change clock id token body m (none, c) = unchanged
  approve_as-Change clock id token body m (some session, c) =
      (approve_device-Change clock.swept clock.swept (omega arith) m enc clock id token body session
        c _ refl).change

  pub deny_as-Change :
      (clock : Clock) (code : Str) (m : Map Device) (r : Option Session × Conn)
      → Change clock.swept m (deny_as enc clock code m r).1.devices
  deny_as-Change clock code m (none, c) = unchanged
  deny_as-Change clock code m (some _, c) =
      (deny_device-Change clock.swept clock.swept (omega arith) m enc clock.now code c _
        refl).change

  pub pending_as-Change :
      (rfc3339 : ℕ → Str) (clock : Clock) (m : Map Device) (r : Option Session × Conn)
      → Change clock.swept m (pending_as enc rfc3339 clock m r).1.devices
  pending_as-Change rfc3339 clock m (none, c) = unchanged
  pending_as-Change rfc3339 clock m (some _, c) = swept clock.swept (omega arith)
