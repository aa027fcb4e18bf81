-- ===== src/Server/Sessions/Revoked.antt =====
-- A revoked session stays revoked, and a revocation and its audit row stand or fall together.
use secd.Base.{
  ℕ, Bool, true, false, ◌≡◌, ◌≢◌, refl, ap, sym, ◌∙◌, ◌⊎◌, inl, inr, Option, none, some, [], ◌∷◌,
  ◌++◌, arith, Bool-cases,
}
use secd.Base.Text.{Str, codes, str_eq, str_eq_iff}
use secd.Server.Db.{SessionRow, Tables, ◌>>=◌, ◌>>◌, pure, exec}
use secd.Server.Db.Atomic.{
  Gives, Gives-statement, Gives-select, Gives-exec_then, Gives-bind, Gives-pure, Gives-immediate,
}
use secd.Server.Audit.{Encoders, AuditEvent, append_on, next_row}
use secd.Server.Audit.Chain.{append_on_lem}
use secd.Server.Sessions.{
  Session, find_row, delete_where, has_hash, has_id, on_sessions, is_expired, lookup, token_hash,
}
use secd.Server.Sessions.Rows.{find_row-delete_self, find_row-delete_none, find_row-delete_other}
use secd.Server.Sessions.Lookup.{answer, live_row, lookup_eq}
use secd.Server.Sessions.Revoke.{
  Revoke, unknown, revoked_kind, revoke_found, revoke_id, revoke_token,
}

hash_apart : (h k : Str) → k ≢ h → (r : SessionRow) → has_hash k r ≡ true → has_hash h r ≡ false
hash_apart h k ne r e = elim (Bool-cases (has_hash h r)) [
  | inl d ↦ absurd (ne (sym ((str_eq_iff r.token_hash k).0 e) ∙ (str_eq_iff r.token_hash h).0 d))
  | inr d ↦ d
]

module _ (enc : Encoders) where
  -- After a token is revoked no lookup of it succeeds, at any time; the search by any other hash finds
  -- what it found before.
  pub lookup-revoke_token :
      (now : ℕ) (token h : Str) (t t' t'' : Tables) (hit : Bool) (s : Option Session)
      → h ≢ token_hash enc token
      → Gives (revoke_token enc token) t hit t'
      → Gives (lookup enc now token) t' s t''
      → (s ≡ none) × (find_row (has_hash h) t'.sessions ≡ find_row (has_hash h) t.sessions)
  unfolding revoke_token
  lookup-revoke_token now token h t t' t'' hit s apart revoked found =
      let done = Gives-statement _ revoked in
      let e : t'.sessions ≡ delete_where (has_hash (token_hash enc token)) t.sessions = cc done in
      let gone = find_row-delete_self (has_hash (token_hash enc token)) t.sessions in
      let miss = find_row-delete_none (has_hash (token_hash enc token)) (is_expired now) _ gone in
      let told : s ≡ answer enc now (live_row enc now token t') = lookup_eq enc now token found in
      (
        rw (told, e, miss),
        rw e (
            find_row-delete_other (has_hash h) (has_hash (token_hash enc token))
              (hash_apart (token_hash enc token) h apart) t.sessions),
      )

  -- The tables after a revocation by id that found a session of the account.
  abbrev pub revoked_tables : Str → Tables → Tables
  revoked_tables id t = record t {
    sessions = delete_where (has_id id) t.sessions;
    audit = t.audit ++ next_row enc t.audit (codes "session.revoke") (some id) [] ∷ [];
  }

  abbrev pub owner : Option SessionRow → Option Str
  owner none = none
  owner (some r) = some r.email

  -- The two outcomes of `revoke_id`: not a session of this account, and nothing done; or the session
  -- deleted and one audit row written.
  abbrev pub Revocation : Str → Str → Revoke → Tables → Tables → Type 0
  Revocation email id res t t' =
      ((res ≡ unknown) × (t' ≡ t) × (owner (find_row (has_id id) t.sessions) ≢ some email))
      ⊎ ((r : SessionRow) × (find_row (has_id id) t.sessions ≡ some r)
          × (r.email ≡ email)
          × (res ≡ revoked_kind r.kind)
          × (t' ≡ revoked_tables id t))

  revoke_found_cases :
      (email id : Str) (o : Option SessionRow) (t t' : Tables) (p : Revoke × Option AuditEvent)
      → find_row (has_id id) t.sessions ≡ o
      → Gives (revoke_found enc email id o) t p t'
      → Revocation email id p.0 t t'
  unfolding revoke_found
  revoke_found_cases email id none t t' p e g =
      let (same, kept) = Gives-pure g in
      inl (
        ap (λ (q : Revoke × Option AuditEvent). q.0) same,
        kept,
        λ q. absurd (let n : owner none ≡ some email = rw e at q in cc),
      )
  revoke_found_cases email id (some r) t t' p e g = elim (Bool-cases (str_eq r.email email)) [
    | inl own ↦
        let deletes : Gives
            (exec (on_sessions (delete_where (has_id id)))
              >> (append_on enc (codes "session.revoke") (some id) [] >>= λ event.
                  pure (revoked_kind r.kind, some event)))
            t p t' =
          rw own at g in
        let (ev, s, wrote, last) =
          Gives-bind (append_on enc (codes "session.revoke") (some id) []) _
            (Gives-exec_then _ _ deletes) in
        let (same, kept) = Gives-pure last in
        inr (
          r,
          e,
          (str_eq_iff r.email email).0 own,
          ap (λ (q : Revoke × Option AuditEvent). q.0) same,
          kept ∙ append_on_lem enc (codes "session.revoke") (some id) [] _ s ev wrote,
        )
    | inr other ↦
        let nothing : Gives (pure (unknown, none)) t p t' = rw other at g in
        let (same, kept) = Gives-pure nothing in
        inl (
          ap (λ (q : Revoke × Option AuditEvent). q.0) same,
          kept,
          λ q. absurd (
              let m : owner (some r) ≡ some email = rw e at q in
              ground (arith, str_eq_iff r.email email)),
        )
  ]

  -- What a `revoke_id` that returns has done: either the id names no session of the account and no
  -- table has changed, or the session of the account is deleted and one audit row for it is appended;
  -- the answer tells which.
  pub revoke_id_lem :
      (email id : Str) (t t' : Tables) (p : Revoke × Option AuditEvent)
      → Gives (revoke_id enc email id) t p t'
      → Revocation email id p.0 t t'
  unfolding revoke_id
  revoke_id_lem email id t t' p g =
      revoke_found_cases email id _ t t' p refl (Gives-select _ _ (Gives-immediate _ g))
