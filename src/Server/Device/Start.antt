-- ===== src/Server/Device/Start.antt =====
-- What `start` of crates/secd-web/src/device.rs does with a request that passes its guards.
use secd.Base.{
  ℕ, true, false, not, ◌≡◌, refl, inl, inr, if◌then◌else◌, Option, none, some, List, [], ◌∷◌, any,
  Bool-cases,
}
use secd.Base.Text.{Str, str_eq}
use secd.Base.Map.{Map, lookup, insert, contains_key, lookup-insert_same, lookup-insert}
use secd.Base.Result.{ok}
use secd.Server.Audit.{Encoders}
use secd.Server.Decode.{Decoders}
use secd.Server.Device.{Device, Shared, sweep, insert_device, unused_code, user_code}
use secd.Server.Device.Handlers.{StartBody, Clock, start, start_checks, start_reply, pending_device}

unused_code_total :
    (m : Map Device) (draws : List (List ℕ))
    → any (λ raw. not (contains_key (user_code raw) m)) draws ≡ true
    → (code : Str) × (unused_code m draws ≡ some code) × (contains_key code m ≡ false)
unfolding unused_code
unused_code_total m [] h = absurd (cc)
unused_code_total m (raw ∷ draws) h = elim (Bool-cases (contains_key (user_code raw) m)) [
  | inr free ↦ (user_code raw, rw free refl, free)
  | inl used ↦
      let more : any (λ r. not (contains_key (user_code r) m)) draws ≡ true = rw used at h in
      let (code, e, free) = unused_code_total m draws more in (code, rw used e, free)
]

lookup_of_contains_key :
    (code : Str) (m : Map Device) → contains_key code m ≡ false → lookup code m ≡ none
lookup_of_contains_key code m h = absent (lookup code m) refl
  where
    absent : (o : Option Device) → lookup code m ≡ o → lookup code m ≡ none
    absent none e = e
    absent (some d) e = absurd (let k : contains_key code m ≡ true = rw (contains_key, e) in cc)

-- A request that passes the guards is taken as soon as the random draws hold a code that no live
-- request has: the reply names that code, which was free, and the code now names a waiting request
-- with the key and the host name of the body; every other code names what it named after the sweep.
pub start_lem :
    (enc : Encoders) (dec : Decoders) (origin : Str) (clock : Clock) (draws : List (List ℕ))
    (body : StartBody) (s : Shared) (hostname eph_pub other : Str)
    → start_checks enc dec body ≡ ok (hostname, eph_pub)
    → any (λ raw. not (contains_key (user_code raw) (sweep clock.swept s.devices))) draws ≡ true
    → (code : Str) × (t : Shared) × (start enc dec origin clock draws body s
        ≡ some (start_reply origin code, t))
      × (lookup code (sweep clock.swept s.devices) ≡ none)
      × (lookup code t.devices ≡ some (pending_device hostname eph_pub clock.now clock.unix))
      × (lookup other t.devices ≡ (
          if str_eq code other
          then some (pending_device hostname eph_pub clock.now clock.unix)
          else lookup other (sweep clock.swept s.devices)))
unfolding start insert_device
start_lem enc dec origin clock draws body s hostname eph_pub other checked free =
    let m = sweep clock.swept s.devices in
    let d = pending_device hostname eph_pub clock.now clock.unix in
    let (code, e, new) = unused_code_total m draws free in
    (
      code,
      record s { devices = insert code d m },
      rw (checked, e) refl,
      lookup_of_contains_key code m new,
      lookup-insert_same code d m,
      lookup-insert code other d m,
    )
