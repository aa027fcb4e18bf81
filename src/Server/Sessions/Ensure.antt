-- ===== src/Server/Sessions/Ensure.antt =====
-- `ensure_console` and `list_for` of crates/secd-web/src/sessions.rs.
use secd.Base.{ℕ, Bool, ◌&&◌, Option, none, some, List, [], ◌∷◌, any, leb, if◌then◌else◌}
use secd.Base.Text.{Str, codes, str_eq}
use secd.Server.Db.{SessionRow, Tables, M, ◌>>=◌, ◌>>◌, pure, statement, select, immediate}
use secd.Server.Headers.{HeaderMap}
use secd.Server.Audit.{Encoders}
use secd.Server.Sessions.{
  console, Session, parse, ttl, saturating_add, is_console, find_row, update_where, has_hash,
  on_sessions, insert_row, sweep, drop_other_console_on, cookie_token, token_hash, new_row,
}

-- UPDATE, and whether it changed a row.
abbrev pub renew : ℕ → ℕ → Str → Tables → Option (Bool × Tables)
renew now expires hash t = some (
  any (has_hash hash) t.sessions,
  on_sessions (update_where (has_hash hash) (λ r. record r { last_seen = now; expires = expires }))
      t,
)

abbrev pub reusable : Str → SessionRow → Bool
reusable email r = str_eq r.email email && is_console (parse r.kind)

module _ (enc : Encoders) where
  unfoldable pub fresh_console : ℕ → Str → Str → Str → M (Str × Str)
  fresh_console now id token email = do
    statement (insert_row (new_row enc now id token email console (codes "This browser")))
    drop_other_console_on email id
    pure (id, token)

  -- The row that the cookie's hash found, if any.
  unfoldable pub reuse_or : M (Str × Str) → ℕ → Str → Str → Option SessionRow → M (Str × Str)
  reuse_or fresh now token email none = fresh
  reuse_or fresh now token email (some r) =
      if reusable email r
      then (do
        changed ← statement (renew now (saturating_add now (ttl console)) (token_hash enc token))
        if changed then (do drop_other_console_on email r.id; pure (r.id, token)) else fresh)
      else fresh

  unfoldable pub ensure_console : ℕ → Str → Str → Str → HeaderMap → M (Str × Str)
  ensure_console now id token email headers = immediate (elim (cookie_token headers) [
    | none ↦ fresh_console now id token email
    | some old ↦ do
      found ← select (λ t. find_row (has_hash (token_hash enc old)) t.sessions)
      reuse_or (fresh_console now id token email) now old email found
  ])

-- The loop of `list_for`: rows of another email are not selected, those of an unknown kind are
-- skipped.
rows_for : Str → List SessionRow → List Session
rows_for email [] = []
rows_for email (r ∷ rs) =
    let rest = rows_for email rs in
    if str_eq r.email email
    then elim (parse r.kind) [
      | none ↦ rest
      | some kind ↦
          record {
            id = r.id;
            email = email;
            kind = kind;
            label = r.label;
            created = r.created;
            last_seen = r.last_seen;
          }
          ∷ rest
    ]
    else rest

-- ORDER BY created: insertion behind the rows that are not younger.
insert_by_created : Session → List Session → List Session
insert_by_created s [] = s ∷ []
insert_by_created s (x ∷ xs) =
    let rest = insert_by_created s xs in if leb s.created x.created then s ∷ x ∷ xs else x ∷ rest

sort_by_created : List Session → List Session
sort_by_created [] = []
sort_by_created (s ∷ ss) = insert_by_created s (sort_by_created ss)

unfoldable pub list_for : ℕ → Str → M (List Session)
unfolding rows_for insert_by_created sort_by_created
list_for now email = do sweep now; select (λ t. sort_by_created (rows_for email t.sessions))
