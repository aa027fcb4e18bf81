-- ===== src/Server/Sessions.antt =====
-- crates/secd-web/src/sessions.rs: sessions as rows of the database. The clock, the random bytes of
-- ids and tokens, and hexadecimal encoding are inputs.
pub mod Ensure
pub mod Revoke
pub mod Rows
pub mod Lookup
pub mod Revoked
pub mod Single
pub mod Guards
pub mod Handlers
pub mod Keeps
mod Tests
use Prim.Native.Nat.{min}
use secd.Base.{
  ℕ, ◌+◌, ◌-◌, ◌*◌, ◌^◌, Bool, true, false, not, ◌&&◌, ◌||◌, Option, none, some, List, [], ◌∷◌,
  ◌++◌, map, any, leb, ltb, ◌==◌, if◌then◌else◌,
}
use secd.Base.Text.{Str, codes, str_eq, is_empty, split, split_once, strip_prefix}
use secd.Base.Trim.{trim}
use secd.Server.Db.{
  SessionRow, Tables, Conn, M, ◌>>=◌, ◌>>◌, pure, fail, statement, select, exec, immediate,
}
use secd.Server.Headers.{HeaderMap}
use secd.Server.Audit.{Encoders, AuditEvent, append_on}
use secd.Server.Sha256.{sha256}

pub data SessionKind : Type 0 where
  console device : SessionKind

abbrev pub as_str : SessionKind → Str
as_str console = codes "console"
as_str device = codes "device"

unfoldable pub parse : Str → Option SessionKind
parse s =
    if str_eq s (codes "console")
    then some console
    else if str_eq s (codes "device")
    then some device
    else none

abbrev pub ttl : SessionKind → ℕ
ttl console = 12 * 60 * 60
ttl device = 30 * 24 * 60 * 60

abbrev pub i64_max : ℕ
i64_max = 2 ^ 63 - 1

-- `now.saturating_add(ttl)` for a time that is not negative
abbrev pub saturating_add : ℕ → ℕ → ℕ
saturating_add a b = min (a + b) i64_max

pub record Session : Type 0 where
  pub id : Str
  pub email : Str
  pub kind : SessionKind
  pub label : Str
  pub created : ℕ
  pub last_seen : ℕ

abbrev pub is_console : Option SessionKind → Bool
is_console (some console) = true
is_console _ = false

-- DELETE, UPDATE and SELECT on the rows.
unfoldable pub delete_where : (SessionRow → Bool) → List SessionRow → List SessionRow
delete_where p [] = []
delete_where p (r ∷ rs) = let rest = delete_where p rs in if p r then rest else r ∷ rest

unfoldable pub find_row : (SessionRow → Bool) → List SessionRow → Option SessionRow
find_row p [] = none
find_row p (r ∷ rs) = let rest = find_row p rs in if p r then some r else rest

abbrev pub update_where :
    (SessionRow → Bool) → (SessionRow → SessionRow) → List SessionRow → List SessionRow
update_where p f rs = map (λ r. if p r then f r else r) rs

abbrev pub has_hash : Str → SessionRow → Bool
has_hash h r = str_eq r.token_hash h

abbrev pub has_id : Str → SessionRow → Bool
has_id i r = str_eq r.id i

abbrev pub on_sessions : (List SessionRow → List SessionRow) → Tables → Tables
on_sessions f t = record t { sessions = f t.sessions }

-- INSERT; the primary key `token_hash` and the unique `id` refuse a second row.
abbrev pub insert_row : SessionRow → Tables → Option (Unit {0} × Tables)
insert_row r t =
    if any (λ s. has_hash r.token_hash s || has_id r.id s) t.sessions
    then none
    else some (tt, record t { sessions = t.sessions ++ r ∷ [] })

-- The rows that `sweep` deletes: `expires <= now`.
abbrev pub is_expired : ℕ → SessionRow → Bool
is_expired now r = leb r.expires now

abbrev pub sweep : ℕ → M (Unit {0})
sweep now = exec (on_sessions (delete_where (is_expired now)))

abbrev pub other_console : Str → Str → SessionRow → Bool
other_console email keep_id r =
    str_eq r.email email && (str_eq r.kind (codes "console") && not (str_eq r.id keep_id))

abbrev pub drop_other_console_on : Str → Str → M (Unit {0})
drop_other_console_on email keep_id =
    exec (on_sessions (delete_where (other_console email keep_id)))

abbrev pub cookie_name : Str
cookie_name = codes "__Host-secd"

-- The loop over `raw.split(';')`: the first part named `__Host-secd` decides.
unfoldable pub cookie_in : List Str → Option Str
cookie_in [] = none
cookie_in (part ∷ parts) =
    let rest = cookie_in parts in
    elim (split_once b'=' (trim part)) [
      | none ↦ rest
      | some (name, value) ↦
          if str_eq name cookie_name then (if is_empty value then none else some value) else rest
    ]

unfoldable pub cookie_token : HeaderMap → Option Str
unfolding cookie_in
cookie_token headers = elim headers.cookie [ none ↦ none | some raw ↦ cookie_in (split b';' raw) ]

unfoldable pub or_else : {A : Type 0} → Option A → Option A → Option A
or_else none b = b
or_else (some a) b = some a

unfoldable pub non_empty : Str → Option Str
non_empty s = if is_empty s then none else some s

unfoldable pub bearer_token : HeaderMap → Option Str
unfolding or_else non_empty
bearer_token headers = elim headers.authorization [
  | none ↦ none
  | some raw ↦
      elim (or_else (strip_prefix (codes "Bearer ") raw) (strip_prefix (codes "bearer ") raw)) [
        | none ↦ none
        | some rest ↦ non_empty (trim rest)
      ]
]

module _ (enc : Encoders) where
  unfoldable pub token_hash : Str → Str
  token_hash token = enc.hex_encode (sha256 token)

  abbrev pub new_row : ℕ → Str → Str → Str → SessionKind → Str → SessionRow
  new_row now id token email kind label = record {
    token_hash = token_hash token;
    id = id;
    email = email;
    kind = as_str kind;
    label = label;
    created = now;
    last_seen = now;
    expires = saturating_add now (ttl kind);
  }

  -- `create`; the id is a fresh UUID and the token 32 random bytes in hexadecimal.
  unfoldable pub create : ℕ → Str → Str → Str → SessionKind → Str → M (Str × Str)
  create now id token email kind label = do
    statement (insert_row (new_row now id token email kind label))
    pure (id, token)

  unfoldable pub create_console : ℕ → Str → Str → Str → M (Str × Str)
  create_console now id token email = create now id token email console (codes "This browser")

  unfoldable pub create_device : ℕ → Str → Str → Str → Str → M (Str × Str)
  create_device now id token email hostname =
      create now id token email device (if is_empty hostname then codes "device" else hostname)

  -- What `lookup` does with the row that it selected.
  abbrev pub session_of : ℕ → SessionRow → SessionKind → Session
  session_of now r kind = record {
    id = r.id;
    email = r.email;
    kind = kind;
    label = r.label;
    created = r.created;
    last_seen = now;
  }

  unfoldable pub touch_kind : ℕ → Str → SessionRow → Option SessionKind → M (Option Session)
  touch_kind now hash r none = pure none
  touch_kind now hash r (some kind) = do
    exec (on_sessions (update_where (has_hash hash) (λ s. record s { last_seen = now })))
    pure (some (session_of now r kind))

  unfoldable pub touch : ℕ → Str → Option SessionRow → M (Option Session)
  unfolding touch_kind
  touch now hash none = pure none
  touch now hash (some r) = touch_kind now hash r (parse r.kind)

  unfoldable pub lookup : ℕ → Str → M (Option Session)
  unfolding touch
  lookup now token = do
    sweep now
    found ← select (λ t. find_row (has_hash (token_hash token)) t.sessions)
    touch now (token_hash token) found

  unfoldable pub flatten : {A : Type 0} → Option (Option A) → Option A
  flatten none = none
  flatten (some o) = o

  -- A store that cannot answer denies.
  unfoldable pub by_token : ℕ → Str → Conn → Option Session × Conn
  unfolding flatten
  by_token now token c = let (r, d) = lookup now token c in (flatten r, d)

  unfoldable pub of_kind : SessionKind → Option Session → Option Session
  of_kind kind none = none
  of_kind console (some s) = if is_console (some s.kind) then some s else none
  of_kind device (some s) = if is_console (some s.kind) then none else some s

  unfoldable pub console_from_headers : ℕ → HeaderMap → Conn → Option Session × Conn
  unfolding of_kind
  console_from_headers now headers c = elim (cookie_token headers) [
    | none ↦ (none, c)
    | some token ↦ let (r, d) = by_token now token c in (of_kind console r, d)
  ]

  unfoldable pub device_from_headers : ℕ → HeaderMap → Conn → Option Session × Conn
  unfolding of_kind
  device_from_headers now headers c = elim (bearer_token headers) [
    | none ↦ (none, c)
    | some token ↦ let (r, d) = by_token now token c in (of_kind device r, d)
  ]

  unfoldable pub by_bearer : ℕ → HeaderMap → Conn → Option Session × Conn
  by_bearer now headers c = elim (bearer_token headers) [
    | none ↦ (none, c)
    | some token ↦ by_token now token c
  ]

  unfoldable pub or_bearer : ℕ → HeaderMap → Option Session × Conn → Option Session × Conn
  or_bearer now headers (some s, c) = (some s, c)
  or_bearer now headers (none, c) = by_bearer now headers c

  -- A live cookie first, the bearer token otherwise.
  unfoldable pub vault_from_headers : ℕ → HeaderMap → Conn → Option Session × Conn
  unfolding by_bearer or_bearer
  vault_from_headers now headers c = elim (cookie_token headers) [
    | none ↦ by_bearer now headers c
    | some token ↦ or_bearer now headers (by_token now token c)
  ]
