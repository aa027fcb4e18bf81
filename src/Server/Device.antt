-- ===== src/Server/Device.antt =====
-- crates/secd-web/src/device.rs: the pairing requests of devices. A `tokio` instant is a number of
-- nanoseconds, and subtraction on it stops at 0 as `saturating_duration_since` does.
pub mod Handlers
pub mod Change
pub mod Reach
pub mod Pairing
pub mod Polls
pub mod Settled
pub mod Steps
pub mod Token
pub mod Start
mod Sample
mod Tests
mod StateTests
use secd.Base.{
  ℕ, zero, suc, ◌+◌, ◌-◌, ◌*◌, ◌%◌, ◌^◌, Bool, true, false, not, ◌&&◌, ◌||◌, Option, none, some,
  List, [], ◌∷◌, ◌++◌, map, length, all, get_or, leb, ltb, ◌==◌, if◌then◌else◌,
}
use secd.Base.Text.{Str, codes, is_empty, is_lower_hex}
use secd.Base.Map.{Map, lookup, insert, retain, contains_key}
use secd.Base.Json.{Value, Members, object, get, as_str, unwrap_or}
use secd.Server.Db.{Conn}

abbrev pub second : ℕ
second = 10 ^ 9

abbrev pub device_ttl : ℕ
device_ttl = 10 * 60 * second

abbrev pub interval : ℕ
interval = 5

pub record Approved : Type 0 where
  pub token : Str
  pub sealed_dek : Value

pub record Device : Type 0 where
  pub hostname : Str
  pub eph_pub : Str
  pub created : ℕ
  pub created_at : ℕ
  pub approved : Option Approved
  pub denied : Bool

-- What the handlers share: the pairing requests, and the database of the session store.
pub record Shared : Type 0 where
  pub devices : Map Device
  pub conn : Conn

abbrev pub within_ttl : ℕ → Device → Bool
within_ttl now d = leb (now - d.created) device_ttl

unfoldable pub sweep : ℕ → Map Device → Map Device
sweep now = retain (within_ttl now)

abbrev alphabet : Str
alphabet = codes "ABCDEFGHJKLMNPQRSTUVWXYZ23456789"

abbrev letter : ℕ → ℕ
letter b = get_or alphabet (b % length alphabet) 0

-- The loop of `user_code`, from index `i` on.
abbrev letters_from : ℕ → List ℕ → Str
letters_from i [] = []
letters_from i (b ∷ raw) =
    let rest = letters_from (suc i) raw in
    if i == 4 then b'-' ∷ letter b ∷ rest else letter b ∷ rest

-- `user_code`, from the random bytes that it draws.
unfoldable pub user_code : List ℕ → Str
user_code raw = letters_from 0 raw

-- The loop `while g.contains_key(&code)`, over the draws of the random generator; `none` asks for
-- more of them.
unfoldable pub unused_code : Map Device → List (List ℕ) → Option Str
unused_code m [] = none
unused_code m (raw ∷ draws) =
    let rest = unused_code m draws in
    if contains_key (user_code raw) m then rest else some (user_code raw)

abbrev pub insert_at : Device → Map Device → Option Str → Option (Str × Map Device)
insert_at d m none = none
insert_at d m (some code) = some (code, insert code d m)

unfoldable pub insert_device : ℕ → List (List ℕ) → Device → Map Device → Option (Str × Map Device)
insert_device now draws d m = let swept = sweep now m in insert_at d swept (unused_code swept draws)

abbrev hex_ok : Str → Bool
hex_ok s = not (is_empty s) && all is_lower_hex s

abbrev sealed_members : Members → Bool
sealed_members m =
    let eph = unwrap_or [] (as_str (get (codes "eph_pub") m)) in
    let blob = unwrap_or [] (as_str (get (codes "blob") m)) in
    length eph == 64
    && (hex_ok eph && (leb ((24 + 16) * 2) (length blob) && (length blob % 2 == 0 && hex_ok blob)))

unfoldable pub sealed_ok : Value → Bool
sealed_ok (object m) = sealed_members m
sealed_ok _ = false

abbrev pub is_some {ℓ} : {A : Type ℓ} → Option A → Bool
is_some none = false
is_some (some _) = true
