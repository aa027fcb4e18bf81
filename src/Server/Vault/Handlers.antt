-- ===== src/Server/Vault/Handlers.antt =====
-- The handlers of crates/secd-web/src/vault.rs. The times that they read are inputs; `auth` is the
-- unix time for the session that authenticates.
use secd.Base.{ℕ, Bool, true, false, Option, none, some, List, [], ◌∷◌, map}
use secd.Base.Text.{Str, codes}
use secd.Base.Result.{Result, ok, err}
use secd.Base.Json.{Value, string, array, object, end, natural, json_object, array_of, unwrap_or}
use secd.Core.Name.{check_name}
use secd.Core.NameError.{NameError}
use secd.Server.Db.{VersionRow, Conn}
use secd.Server.Headers.{HeaderMap, Reply, json_value, json_status, fail_auth, ok_true}
use secd.Server.Audit.{Encoders, AuditEvent}
use secd.Server.Sessions.{Session, vault_from_headers}
use secd.Server.Vault.{Json, VaultEntry, replace_entries, rollback, versions_of}
use secd.Server.Vault.Requests.{parse_vault, parse_rollback}

module _ (json : Json) (enc : Encoders) where
  abbrev pub put_reply : Option AuditEvent × Conn → Reply × Conn
  put_reply (none, c) = (json_status 500 (codes "store"), c)
  put_reply (some _, c) = (ok_true, c)

  abbrev pub put_parsed :
      Option Str → Str → Session → Conn → Result Reply (List VaultEntry) → Reply × Conn
  put_parsed users created session c (err r) = (r, c)
  put_parsed users created session c (ok entries) = put_reply (
      replace_entries json enc users created entries (some session.id) (map (λ e. e.name) entries)
        c)

  abbrev pub put_as : Option Str → Str → Value → Option Session × Conn → Reply × Conn
  put_as users created body (none, c) = (fail_auth, c)
  put_as users created body (some session, c) =
      put_parsed users created session c (parse_vault body)

  -- `users` is the text of `users.json`, where there is one, when the wraps are read from it.
  unfoldable pub put_vault : ℕ → Option Str → Str → HeaderMap → Value → Conn → Reply × Conn
  put_vault auth users created headers body c =
      put_as users created body (vault_from_headers enc auth headers c)

  abbrev pub rollback_reply : Option (Bool × Option AuditEvent) × Conn → Reply × Conn
  rollback_reply (none, c) = (json_status 500 (codes "store"), c)
  rollback_reply (some (true, _), c) = (ok_true, c)
  rollback_reply (some (false, _), c) = (json_status 404 (codes "version"), c)

  abbrev pub rollback_parsed : Str → Session → Conn → Result Reply (Str × ℕ) → Reply × Conn
  rollback_parsed created session c (err r) = (r, c)
  rollback_parsed created session c (ok (name, version)) =
      rollback_reply (rollback enc created name version (some session.id) c)

  abbrev pub rollback_as : Str → Value → Option Session × Conn → Reply × Conn
  rollback_as created body (none, c) = (fail_auth, c)
  rollback_as created body (some session, c) =
      rollback_parsed created session c (parse_rollback body)

  unfoldable pub post_rollback : ℕ → Str → HeaderMap → Value → Conn → Reply × Conn
  post_rollback auth created headers body c =
      rollback_as created body (vault_from_headers enc auth headers c)

  version_value : VersionRow → Value
  version_value v = json_object (
      (codes "version", natural v.seq)
      ∷ (codes "created", string v.created)
      ∷ (codes "meta", unwrap_or (object end) (json.from_str v.meta))
      ∷ [])

  versions_reply : Option (List VersionRow) × Conn → Reply × Conn
  unfolding version_value
  versions_reply (none, c) = (json_status 500 (codes "store"), c)
  versions_reply (some rows, c) = (
    json_value 200
        (json_object ((codes "versions", array (array_of (map version_value rows))) ∷ [])),
    c,
  )

  versions_named : Str → Conn → Result NameError (Unit {0}) → Reply × Conn
  unfolding versions_reply
  versions_named name c (err e) = (json_status 400 (codes "name"), c)
  versions_named name c (ok _) = versions_reply (versions_of name c)

  versions_as : Str → Option Session × Conn → Reply × Conn
  unfolding versions_named
  versions_as name (none, c) = (fail_auth, c)
  versions_as name (some _, c) = versions_named name c (check_name name)

  -- The name comes in the header `x-secd-name`.
  unfoldable pub get_versions : ℕ → HeaderMap → Conn → Reply × Conn
  unfolding versions_as
  get_versions auth headers c =
      versions_as (unwrap_or [] headers.secd_name) (vault_from_headers enc auth headers c)
