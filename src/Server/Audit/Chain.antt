-- ===== src/Server/Audit/Chain.antt =====
-- The chain verifies after every append.
use secd.Base.{true, ◌≡◌, refl, sym, ◌∙◌, ap, Option, List, [], ◌∷◌, ◌++◌, arith}
use secd.Base.Text.{Str, str_eq_iff}
use secd.Server.Db.{AuditRow, Tables}
use secd.Server.Db.Atomic.{Gives, Gives-select, Gives-exec_then, Gives-pure}
use secd.Server.Audit.{
  Encoders, AuditEvent, zero_hash, head_hash, event_hash, next_row, append_on, verify_from,
  verify_rows,
}

module _ (enc : Encoders) where
  verify_from-append :
      (prev : Str) (rows : List AuditRow) (row : AuditRow)
      → verify_from enc prev rows ≡ true
      → row.prev_hash ≡ head_hash prev rows
      → row.hash ≡ event_hash enc row.prev_hash row.action row.session_id row.names
      → verify_from enc prev (rows ++ row ∷ []) ≡ true
  unfolding verify_from head_hash
  verify_from-append prev [] row h p q = rw ((str_eq_iff row.prev_hash prev).1 p) (
      rw (
        (str_eq_iff _ row.hash).1
          (ap (λ s. event_hash enc s row.action row.session_id row.names) (sym p) ∙ sym q)))
  verify_from-append prev (r ∷ rows) row h p q = ground (arith, verify_from-append r.hash rows row)

  -- What an append that returns has done: one row at the end, linked to the head it found, and
  -- no other table touched.
  pub append_on_lem :
      (action : Str) (session_id : Option Str) (names : List Str) (t t' : Tables) (ev : AuditEvent)
      → Gives (append_on enc action session_id names) t ev t'
      → t' ≡ record t { audit = t.audit ++ next_row enc t.audit action session_id names ∷ [] }
  unfolding append_on
  append_on_lem action session_id names t t' ev g =
      let g₁ = Gives-select (λ u. u.audit) _ g in
      let g₂ = Gives-exec_then _ _ g₁ in (Gives-pure g₂).1

  -- A table of audit rows that verified still verifies after an append that returned, whichever
  -- statements sqlite refused before; the new head is the hash of the event.
  pub append_on-verify_rows :
      (action : Str) (session_id : Option Str) (names : List Str) (t t' : Tables) (ev : AuditEvent)
      → verify_rows enc t.audit ≡ true
      → Gives (append_on enc action session_id names) t ev t'
      → (verify_rows enc t'.audit ≡ true)
        × (t' ≡ record t { audit = t.audit ++ next_row enc t.audit action session_id names ∷ [] })
  unfolding verify_rows next_row
  append_on-verify_rows action session_id names t t' ev ok g =
      let e = append_on_lem action session_id names t t' ev g in
      (
        rw e (
            verify_from-append zero_hash t.audit (next_row enc t.audit action session_id names) ok
              refl refl),
        e,
      )
