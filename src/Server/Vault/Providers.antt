-- ===== src/Server/Vault/Providers.antt =====
-- The custom providers of crates/secd-web/src/vault.rs.
use secd.Base.{Bool, true, false, Option, none, some, List, [], ◌∷◌, any, if◌then◌else◌}
use secd.Base.Text.{Str, codes, str_eq}
use secd.Server.Db.{ProviderRow, M, ◌>>=◌, ◌>>◌, pure, statement, exec, immediate}
use secd.Server.Audit.{Encoders, AuditEvent, append_on}

abbrev pub provides : Str → ProviderRow → Bool
provides n r = str_eq r.name n

-- INSERT ... ON CONFLICT(name) DO UPDATE: a row of that name keeps its place.
unfoldable pub upsert_provider : ProviderRow → List ProviderRow → List ProviderRow
upsert_provider p [] = p ∷ []
upsert_provider p (r ∷ rs) =
    let rest = upsert_provider p rs in if provides p.name r then p ∷ rs else r ∷ rest

unfoldable pub without_provider : Str → List ProviderRow → List ProviderRow
without_provider n [] = []
without_provider n (r ∷ rs) =
    let rest = without_provider n rs in if provides n r then rest else r ∷ rest

module _ (enc : Encoders) where
  unfoldable pub put_custom_provider : ProviderRow → M AuditEvent
  put_custom_provider p = immediate (do
    exec (λ t. record t { custom_providers = upsert_provider p t.custom_providers })
    append_on enc (codes "provider.put") none (p.name ∷ []))

  abbrev audit_deletion : Str → Bool → M (Option AuditEvent)
  audit_deletion name false = pure none
  audit_deletion name true = do
    event ← append_on enc (codes "provider.delete") none (name ∷ [])
    pure (some event)

  -- The DELETE, and whether it changed a row.
  unfoldable pub delete_custom_provider : Str → M (Option AuditEvent)
  delete_custom_provider name = immediate (do
    changed ← statement (λ t. some (
      any (provides name) t.custom_providers,
      record t { custom_providers = without_provider name t.custom_providers },
    ))
    audit_deletion name changed)
