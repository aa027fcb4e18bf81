-- ===== src/Server/Vault.antt =====
-- The vault store of crates/secd-web/src/vault.rs. The JSON texts of values (serde_json) are a
-- parameter, and the time of a write is an input.
pub mod Providers
pub mod History
pub mod Insert
pub mod Wraps
pub mod Replace
pub mod Rollback
pub mod Requests
pub mod Handlers
mod Tests
mod HandlerTests
pub mod Refuses
pub mod Put
use Prim.Native.Nat.{max}
use secd.Base.{
  ℕ, zero, suc, ◌+◌, Bool, true, false, not, ◌&&◌, ◌||◌, Option, none, some, List, [], ◌∷◌, ◌++◌,
  map, any, ltb, ◌==◌, if◌then◌else◌,
}
use secd.Base.Text.{Str, codes, str_eq}
use secd.Base.Map.{Map, lookup, insert}
use secd.Base.Json.{
  Value, Items, nil, cons, null, object, end, unwrap_or, as_str, as_array, value_get,
}
use mathlib.Core.Option
use secd.Server.Db.{
  EntryRow, VersionRow, WrapRow, Tables, M, ◌>>=◌, ◌>>◌, pure, statement, select, exec, immediate,
}
use secd.Server.Audit.{Encoders, AuditEvent, append_on}

-- `to_string` of a value, and `serde_json::from_str`.
pub record Json : Type 0 where
  pub to_string : Value → Str
  pub from_str : Str → Option Value

pub record VaultEntry : Type 0 where
  pub name : Str
  pub ciphertext : Value
  pub meta : Value
  pub version : ℕ
  pub updated : Option Str

abbrev pub has_name : Str → EntryRow → Bool
has_name n r = str_eq r.name n

abbrev pub of_name : Str → VersionRow → Bool
of_name n v = str_eq v.name n

-- The versions of a name, oldest first: the rows of a name are only ever appended.
unfoldable pub history : Str → List VersionRow → List VersionRow
history n [] = []
history n (v ∷ vs) = let rest = history n vs in if of_name n v then v ∷ rest else rest

-- `COALESCE(MAX(seq), 0)` of the versions of a name
unfoldable pub max_seq : Str → List VersionRow → ℕ
max_seq n [] = 0
max_seq n (v ∷ vs) = let rest = max_seq n vs in if of_name n v then max v.seq rest else rest

-- INSERT INTO entries, whose primary key is the name.
abbrev pub insert_entry : EntryRow → Tables → Option (Unit {0} × Tables)
insert_entry r t =
    if any (has_name r.name) t.entries
    then none
    else some (tt, record t { entries = t.entries ++ r ∷ [] })

abbrev pub next_version : Str → Str → Str → Str → List VersionRow → VersionRow
next_version name ciphertext meta created vs = record {
  name = name;
  seq = max_seq name vs + 1;
  ciphertext = ciphertext;
  meta = meta;
  created = created;
}

-- INSERT INTO versions; its key of name and number is new, since the number is above all others.
abbrev pub insert_version : Str → Str → Str → Str → Tables → Tables
insert_version name ciphertext meta created t = record t {
  versions = t.versions ++ next_version name ciphertext meta created t.versions ∷ [];
}

-- The loop that reads the entries before they are replaced.
unfoldable pub read_before : List EntryRow → Map Str → Map Str
read_before [] m = m
read_before (r ∷ rs) m = read_before rs (insert r.name r.ciphertext m)

abbrev is_text : Str → Option Str → Bool
is_text s none = false
is_text s (some t) = str_eq t s

module _ (json : Json) where
  abbrev pub entry_row : VaultEntry → EntryRow
  entry_row e = record {
    name = e.name;
    ciphertext = json.to_string e.ciphertext;
    meta = json.to_string e.meta;
  }

  -- A name whose ciphertext changes or appears.
  abbrev pub is_changed : Map Str → VaultEntry → Bool
  is_changed before e = not (is_text (json.to_string e.ciphertext) (lookup e.name before))

  abbrev pub add_version : Str → Map Str → VaultEntry → M (Unit {0})
  add_version created before e =
      if is_changed before e
      then exec
          (insert_version e.name (json.to_string e.ciphertext) (json.to_string e.meta) created)
      else pure tt

  -- The loop `for e in entries`.
  unfoldable pub insert_entries : Str → Map Str → List VaultEntry → M (Unit {0})
  insert_entries created before [] = pure tt
  insert_entries created before (e ∷ es) =
      statement (insert_entry (entry_row e))
      >> (add_version created before e >> insert_entries created before es)

  -- The transaction of `replace_entries`.
  abbrev pub put_all : Encoders → Str → List VaultEntry → Option Str → List Str → M AuditEvent
  put_all enc created entries session_id names = do
    rows ← select (λ t. t.entries)
    exec (λ t. record t { entries = [] })
    insert_entries created (read_before rows []) entries
    append_on enc (codes "vault.put") session_id names

  unfoldable pub store_entries :
      Encoders → Str → List VaultEntry → Option Str → List Str → M AuditEvent
  store_entries enc created entries session_id names =
      immediate (put_all enc created entries session_id names)

-- DELETE and the INSERTs of `replace_wraps`.
unfoldable pub insert_wraps : List WrapRow → M (Unit {0})
insert_wraps [] = pure tt
insert_wraps (w ∷ ws) = exec (λ t. record t { wraps = t.wraps ++ w ∷ [] }) >> insert_wraps ws

unfoldable pub replace_wraps : List WrapRow → M (Unit {0})
replace_wraps rows = immediate (exec (λ t. record t { wraps = [] }) >> insert_wraps rows)

-- The row of a wrap: its factor and its blob have to be texts.
abbrev row_of : Value → Option Str → Option Str → Option WrapRow
row_of v (some factor) (some blob) = some (record {
  factor = factor;
  cred_id = as_str (value_get (codes "cred_id") v);
  salt = as_str (value_get (codes "salt") v);
  blob = blob;
})
row_of v _ _ = none

unfoldable pub wrap_row : Value → Option WrapRow
wrap_row v = row_of v (as_str (value_get (codes "factor") v)) (as_str (value_get (codes "blob") v))

-- `get(key).and_then(wrap_row)`, pushed where there is one.
abbrev pushed : Option WrapRow → List WrapRow
pushed none = []
pushed (some w) = w ∷ []

abbrev wrap_in : Option Value → List WrapRow
wrap_in none = []
wrap_in (some v) = pushed (wrap_row v)

unfoldable pub passkey_rows : Items → List WrapRow
passkey_rows nil = []
passkey_rows (cons pk pks) = wrap_in (value_get (codes "wrap") pk) ++ passkey_rows pks

abbrev rows_in : Option Items → List WrapRow
rows_in none = []
rows_in (some pks) = passkey_rows pks

unfoldable pub user_rows : Items → List WrapRow
user_rows nil = []
user_rows (cons u us) =
    wrap_in (value_get (codes "password") u)
    ++ rows_in (as_array (value_get (codes "passkeys") u))
    ++ user_rows us

abbrev of_users : Option Items → List WrapRow
of_users none = []
of_users (some us) = user_rows us

unfoldable pub collect_wraps : Value → List WrapRow
collect_wraps v = of_users (as_array (value_get (codes "users") v))

-- The error of `replace_wraps` is ignored.
abbrev pub replace_or_keep : Option (List WrapRow) → M (Unit {0})
replace_or_keep none c = (some tt, c)
replace_or_keep (some rows) c = (some tt, (replace_wraps rows c).1)

module _ (json : Json) where
  -- The rows that `users.json` holds, read as `users`; none where it is absent or no JSON.
  abbrev pub rows_of : Option Str → Option (List WrapRow)
  rows_of none = none
  rows_of (some raw) = Option.map collect_wraps (json.from_str raw)

  unfoldable pub sync_wraps : Option Str → M (Unit {0})
  sync_wraps users = replace_or_keep (rows_of users)

  -- `users` is the text of `users.json`, which the program reads behind the transaction.
  unfoldable pub replace_entries :
      Encoders → Option Str → Str → List VaultEntry → Option Str → List Str → M AuditEvent
  replace_entries enc users created entries session_id names =
      store_entries json enc created entries session_id names >>= λ event.
      sync_wraps users >> pure event

-- SELECT one version of a name.
unfoldable pub find_version : Str → ℕ → List VersionRow → Option VersionRow
find_version name seq [] = none
find_version name seq (v ∷ vs) =
    let rest = find_version name seq vs in if of_name name v && (v.seq == seq) then some v else rest

-- INSERT OR REPLACE INTO entries; a replaced row stands at the end.
unfoldable pub other_entries : Str → List EntryRow → List EntryRow
other_entries n [] = []
other_entries n (r ∷ rs) = let rest = other_entries n rs in if has_name n r then rest else r ∷ rest

abbrev pub upsert_entry : EntryRow → Tables → Tables
upsert_entry r t = record t { entries = other_entries r.name t.entries ++ r ∷ [] }

module _ (enc : Encoders) where
  unfoldable pub restore : Str → Str → Option Str → Option VersionRow → M (Bool × Option AuditEvent)
  restore created name session_id none = pure (false, none)
  restore created name session_id (some v) = do
    exec (upsert_entry (record { name = name; ciphertext = v.ciphertext; meta = v.meta }))
    exec (insert_version name v.ciphertext v.meta created)
    event ← append_on enc (codes "vault.rollback") session_id (name ∷ [])
    pure (true, some event)

  unfoldable pub rollback : Str → Str → ℕ → Option Str → M (Bool × Option AuditEvent)
  rollback created name seq session_id = immediate (do
    found ← select (λ t. find_version name seq t.versions)
    restore created name session_id found)

-- `versions_of`, as the rows that it turns into `VersionRow` values.
unfoldable pub versions_of : Str → M (List VersionRow)
versions_of name = select (λ t. history name t.versions)
