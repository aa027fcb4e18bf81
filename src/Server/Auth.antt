-- ===== src/Server/Auth.antt =====
-- crates/secd-web/src/auth.rs: addresses and passwords, the wraps that a browser sends, the rate of
-- sign-in requests, and the handles of unfinished ceremonies.
pub mod Rate
pub mod Wraps
mod Tests
use secd.Base.{
  ℕ, ◌+◌, ◌-◌, ◌*◌, ◌%◌, ◌^◌, Bool, true, false, not, ◌&&◌, ◌||◌, Option, none, some, List, [], ◌∷◌,
  ◌++◌, length, all, leb, ltb, ◌==◌, if◌then◌else◌,
}
use secd.Base.Text.{Str, codes, str_eq, is_empty, is_lower_hex, contains, split_once}
use secd.Base.Trim.{trim}
use secd.Base.Map.{Map, lookup, insert, remove, retain}
use secd.Base.Result.{Result, ok, err}
use secd.Base.Json.{
  Value, null, bool, number, string, array, object, Members, get, as_str, unwrap_or,
}

-- `normalize_email`; lower-casing by Unicode is the language's, and a parameter here.
abbrev whole : Str → Option (Str × Str) → Option Str
whole s none = none
whole s (some (local, domain)) =
    if is_empty local || is_empty domain
    then none
    else if contains (codes "@") domain
    then none
    else if not (contains (codes ".") domain)
    then none
    else some s

unfoldable pub normalize_email : (Str → Str) → Str → Option Str
normalize_email to_lowercase raw =
    let s = to_lowercase (trim raw) in
    if is_empty s || ltb 254 (length s) then none else whole s (split_once b'@' s)

-- A minute in nanoseconds.
abbrev pub minute : ℕ
minute = 60 * 10 ^ 9

-- The hits of a bucket that are not a minute old.
unfoldable pub recent : ℕ → List ℕ → List ℕ
recent now [] = []
recent now (t ∷ ts) = let rest = recent now ts in if ltb (now - t) minute then t ∷ rest else rest

-- The bucket of an address; `entry(ip).or_default()`.
abbrev pub bucket : Str → Map (List ℕ) → List ℕ
bucket ip m = unwrap_or [] (lookup ip m)

unfoldable pub allow_rate : Str → ℕ → Map (List ℕ) → Bool × Map (List ℕ)
allow_rate ip now m =
    let w = recent now (bucket ip m) in
    if leb 10 (length w) then (false, insert ip w m) else (true, insert ip (w ++ now ∷ []) m)

pub record StoredWrap : Type 0 where
  pub factor : Str
  pub cred_id : Option Str
  pub salt : Option Str
  pub blob : Str

pub data WrapErr : Type 0 where
  missing bad : WrapErr

abbrev pub lower_hex : Str → Bool
lower_hex s = not (is_empty s) && all is_lower_hex s

abbrev pub has_some {ℓ} : {A : Type ℓ} → Option A → Bool
has_some none = false
has_some (some _) = true

-- The arms of `match expect`.
abbrev pub password_wrap : Str → Option Str → Option Str → Result WrapErr StoredWrap
password_wrap blob none cred_id = err bad
password_wrap blob (some salt) cred_id =
    if not (length salt == 32) || (not (lower_hex salt) || has_some cred_id)
    then err bad
    else ok (record { factor = codes "password"; cred_id = none; salt = some salt; blob = blob })

abbrev pub passkey_wrap : Str → Option Str → Option Str → Result WrapErr StoredWrap
passkey_wrap blob salt none = err bad
passkey_wrap blob salt (some cred_id) =
    if is_empty cred_id
      || (not (length cred_id % 2 == 0) || (not (lower_hex cred_id) || has_some salt))
    then err bad
    else ok (record { factor = codes "passkey"; cred_id = some cred_id; salt = none; blob = blob })

abbrev pub wrap_of : Members → Str → Result WrapErr StoredWrap
wrap_of obj expect =
    let factor = unwrap_or [] (as_str (get (codes "factor") obj)) in
    let blob = unwrap_or [] (as_str (get (codes "blob") obj)) in
    let salt = as_str (get (codes "salt") obj) in
    let cred_id = as_str (get (codes "cred_id") obj) in
    if not (str_eq factor expect)
    then err bad
    else if not (length blob == (24 + 32 + 16) * 2) || not (lower_hex blob)
    then err bad
    else if str_eq expect (codes "password")
    then password_wrap blob salt cred_id
    else if str_eq expect (codes "passkey")
    then passkey_wrap blob salt cred_id
    else err bad

unfoldable pub parse_client_wrap : Option Value → Str → Result WrapErr StoredWrap
parse_client_wrap none expect = err missing
parse_client_wrap (some null) expect = err missing
parse_client_wrap (some (object obj)) expect = wrap_of obj expect
parse_client_wrap (some (bool _)) expect = err bad
parse_client_wrap (some (number _)) expect = err bad
parse_client_wrap (some (string _)) expect = err bad
parse_client_wrap (some (array _)) expect = err bad

-- The handles of ceremonies; the webauthn state of an entry is of the type `S`.
pub record PendingEntry (S : Type 0) : Type 0 where
  pub email : Option Str
  pub state : S
  pub created : ℕ

pub data PendingErr : Type 0 where
  missing expired : PendingErr

abbrev pub handle_ttl : ℕ
handle_ttl = 5 * minute

module _ {S : Type 0} where
  abbrev pub is_expired : ℕ → PendingEntry S → Bool
  is_expired now e = ltb handle_ttl (now - e.created)

  unfoldable pub sweep : ℕ → Map (PendingEntry S) → Map (PendingEntry S)
  sweep now = retain (λ e. not (is_expired now e))

  -- `insert`, with the handle that it draws.
  unfoldable pub insert_pending :
      ℕ → Str → PendingEntry S → Map (PendingEntry S) → Map (PendingEntry S)
  insert_pending now handle e m = insert handle e (sweep now m)

  abbrev pub taken : ℕ → Option (PendingEntry S) → Result PendingErr (PendingEntry S)
  taken now none = err PendingErr.missing
  taken now (some e) = if is_expired now e then err expired else ok e

  -- `take`; the clock is read for the sweep and once more for the entry.
  unfoldable pub take_pending :
      ℕ → ℕ → Str → Map (PendingEntry S) → Result PendingErr (PendingEntry S) × Map (PendingEntry S)
  take_pending swept now handle m =
      let left = sweep swept m in (taken now (lookup handle left), remove handle left)
