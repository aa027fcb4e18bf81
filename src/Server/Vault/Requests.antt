-- ===== src/Server/Vault/Requests.antt =====
-- The bodies that the handlers of crates/secd-web/src/vault.rs take.
use secd.Base.{
  ℕ, Bool, true, false, not, ◌&&◌, ◌||◌, Option, none, some, List, [], ◌∷◌, any, ltb, leb,
  if◌then◌else◌,
}
use secd.Base.Text.{Str, codes, str_eq}
use secd.Base.Result.{Result, ok, err, ◌>>=◌, ◌>>◌, ok_or}
use secd.Base.Json.{
  Value, null, number, array, object, Items, nil, cons, Members, end, member, pos_int, get, as_str,
  as_array, as_object, keys,
}
use secd.Core.Name.{check_name}
use secd.Core.NameError.{NameError}
use secd.Server.Headers.{Reply, json_status}
use secd.Server.Vault.{VaultEntry}

abbrev pub forbidden_key : Str → Bool
forbidden_key k =
    str_eq k (codes "value") || (str_eq k (codes "plaintext") || str_eq k (codes "dek"))

unfoldable mutual
  pub has_forbidden : Value → Bool
  has_forbidden (object ms) = any forbidden_key (keys ms) || members_forbidden ms
  has_forbidden (array vs) = items_forbidden vs
  has_forbidden _ = false

  pub members_forbidden : Members → Bool
  members_forbidden end = false
  members_forbidden (member k v ms) = has_forbidden v || members_forbidden ms

  pub items_forbidden : Items → Bool
  items_forbidden nil = false
  items_forbidden (cons v vs) = has_forbidden v || items_forbidden vs

abbrev pub bad_request : Str → Reply
bad_request = json_status 400

abbrev pub refuse_if : Bool → Reply → Result Reply (Unit {0})
refuse_if true r = err r
refuse_if false r = ok tt

abbrev pub named : Result NameError (Unit {0}) → Result Reply (Unit {0})
named (ok u) = ok tt
named (err e) = err (bad_request (codes "name"))

abbrev pub is_null : Value → Bool
is_null null = true
is_null _ = false

abbrev pub meta_of : Option Value → Result Reply Value
meta_of none = ok (object end)
meta_of (some (object ms)) = ok (object ms)
meta_of (some _) = err (bad_request (codes "meta"))

abbrev pub entry_key : Str → Bool
entry_key k = str_eq k (codes "name") || (str_eq k (codes "ciphertext") || str_eq k (codes "meta"))

-- The body of the loop of `put_vault`.
unfoldable pub parse_entry : Value → Result Reply VaultEntry
parse_entry item = do
  refuse_if (has_forbidden item) (bad_request (codes "plaintext"))
  o ← ok_or (as_object item) (bad_request (codes "entries"))
  refuse_if (any (λ k. not (entry_key k)) (keys o)) (bad_request (codes "plaintext"))
  name ← ok_or (as_str (get (codes "name") o)) (bad_request (codes "name"))
  named (check_name name)
  ciphertext ← ok_or (get (codes "ciphertext") o) (bad_request (codes "ciphertext"))
  refuse_if (is_null ciphertext) (bad_request (codes "ciphertext"))
  meta ← meta_of (get (codes "meta") o)
  ok (record { name = name; ciphertext = ciphertext; meta = meta; version = 0; updated = none })

unfoldable pub parse_entries : Items → Result Reply (List VaultEntry)
parse_entries nil = ok []
parse_entries (cons v vs) = do e ← parse_entry v; es ← parse_entries vs; ok (e ∷ es)

-- The guards of `put_vault` behind the session, and its loop.
unfoldable pub parse_vault : Value → Result Reply (List VaultEntry)
parse_vault body = do
  refuse_if (has_forbidden body) (bad_request (codes "plaintext"))
  obj ← ok_or (as_object body) (bad_request (codes "body"))
  refuse_if (any (λ k. not (str_eq k (codes "entries"))) (keys obj))
      (bad_request (codes "plaintext"))
  arr ← ok_or (as_array (get (codes "entries") obj)) (bad_request (codes "entries"))
  parse_entries arr

-- `as_i64`, for the numbers that are at least 1; the others are refused like those that are no
-- integer.
abbrev pub positive_i64 : Option Value → Option ℕ
positive_i64 (some (number (pos_int n))) =
    if leb 1 n && ltb n 9223372036854775808 then some n else none
positive_i64 _ = none

-- The guards of `post_rollback` behind the session: the name and the version.
unfoldable pub parse_rollback : Value → Result Reply (Str × ℕ)
parse_rollback body = do
  obj ← ok_or (as_object body) (bad_request (codes "body"))
  refuse_if (any (λ k. not (str_eq k (codes "name") || str_eq k (codes "version"))) (keys obj))
      (bad_request (codes "body"))
  name ← ok_or (as_str (get (codes "name") obj)) (bad_request (codes "name"))
  named (check_name name)
  version ← ok_or (positive_i64 (get (codes "version") obj)) (bad_request (codes "version"))
  ok (name, version)
