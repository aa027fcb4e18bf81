-- ===== src/Server/Vault/Replace.antt =====
-- What a replacement of the vault does to the entries, to the history of each name, to the chain and
-- to the wraps.
use secd.Base.{
  ◌≡◌, refl, ap, sym, ◌∙◌, Option, none, some, List, [], ◌∷◌, ◌++◌, map, subst, if_intro,
}
use secd.Base.Text.{Str, codes}
use secd.Base.Map.{Map}
use secd.Server.Db.{AuditRow, Tables, Conn, stored, pure}
use secd.Server.Db.Atomic.{
  Gives, Gives-bind, Gives-select, Gives-exec_then, Gives-immediate, bind-eq-some,
}
use secd.Server.Db.Undone.{
  IsWithin, pure-IsWithin, statement-IsWithin, bind-IsWithin, Outcome-shut, immediate_atomic,
}
use secd.Server.Audit.{Encoders, AuditEvent, next_row, append_on}
use secd.Server.Audit.Chain.{append_on_lem}
use secd.Server.Vault.{
  Json, VaultEntry, history, read_before, entry_row, is_changed, insert_entries, put_all,
  store_entries, replace_entries, rows_of, sync_wraps,
}
use secd.Server.Vault.History.{IsNumbered}
use secd.Server.Vault.Insert.{added, insert_entries-Inserted, insert_entries-IsNumbered}
use secd.Server.Vault.Wraps.{Wraps, sync_wraps-Synced}

module _ (json : Json) (enc : Encoders) where
  -- The transaction alone.
  store_entries_lem :
      (created n : Str) (es : List VaultEntry) (session_id : Option Str) (names : List Str)
      (t t' : Tables) (ev : AuditEvent)
      → Gives (store_entries json enc created es session_id names) t ev t'
      → (t'.entries ≡ map (entry_row json) es)
        × (history n t'.versions
            ≡ history n t.versions ++ added json created (read_before t.entries []) n t.versions es)
        × (t'.audit ≡ t.audit ++ next_row enc t.audit (codes "vault.put") session_id names ∷ [])
        × (t'.sessions ≡ t.sessions)
        × (t'.wraps ≡ t.wraps)
        × (t'.custom_providers ≡ t.custom_providers)
  unfolding store_entries
  store_entries_lem created n es session_id names t t' ev g =
      let before = read_before t.entries [] in
      let cleared = Gives-exec_then _ _ (Gives-select _ _ (Gives-immediate _ g)) in
      let (_, s, loop, logged) = Gives-bind (insert_entries json created before es) _ cleared in
      let done = insert_entries-Inserted json created before es _ s loop in
      let wrote = append_on_lem enc (codes "vault.put") session_id names s t' ev logged in
      (
        rw (wrote, done.entries) refl,
        rw (wrote, done.histories n) refl,
        ap (λ (x : Tables). x.audit) wrote
            ∙ ap
                (λ (l : List AuditRow).
                  l ++ next_row enc l (codes "vault.put") session_id names ∷ [])
                (ap (λ (x : Tables). x.audit) done.rest),
        ap (λ (x : Tables). x.sessions) (wrote ∙ ap (log s) done.rest),
        ap (λ (x : Tables). x.wraps) (wrote ∙ ap (log s) done.rest),
        ap (λ (x : Tables). x.custom_providers) (wrote ∙ ap (log s) done.rest),
      )
    where
      log : Tables → Tables → Tables
      log s x = record x {
        audit = s.audit ++ next_row enc s.audit (codes "vault.put") session_id names ∷ [];
      }

  insert_entries-IsWithin :
      (created : Str) (before : Map Str) (es : List VaultEntry)
      → IsWithin (insert_entries json created before es)
  unfolding insert_entries
  insert_entries-IsWithin created before [] = pure-IsWithin tt
  insert_entries-IsWithin created before (e ∷ es) = bind-IsWithin _ _ (statement-IsWithin _) (λ _.
      bind-IsWithin _ _
        (if_intro IsWithin (is_changed json before e) (λ _. statement-IsWithin _)
          (λ _. pure-IsWithin tt))
        (λ _. insert_entries-IsWithin created before es))

  append_on-IsWithin :
      (action : Str) (session_id : Option Str) (names : List Str)
      → IsWithin (append_on enc action session_id names)
  unfolding append_on
  append_on-IsWithin action session_id names =
      bind-IsWithin _ _ (statement-IsWithin _)
        (λ _. bind-IsWithin _ _ (statement-IsWithin _) (λ _. pure-IsWithin _))

  pub put_all-IsWithin :
      (created : Str) (es : List VaultEntry) (session_id : Option Str) (names : List Str)
      → IsWithin (put_all json enc created es session_id names)
  put_all-IsWithin created es session_id names = bind-IsWithin _ _ (statement-IsWithin _) (λ rows.
      bind-IsWithin _ _ (statement-IsWithin _) (λ _.
        bind-IsWithin _ _ (insert_entries-IsWithin created (read_before rows []) es)
          (λ _. append_on-IsWithin (codes "vault.put") session_id names)))

  -- What a replacement that returned has done: `c.tables` is what the database held before, since no
  -- transaction was open, and `stored d` what it holds after.
  pub record Replaced (users : Option Str) (created : Str) (es : List VaultEntry)
      (session_id : Option Str) (names : List Str) (c d : Conn) : Type 0 where
    pub shut : c.open_from ≡ none
    pub entries : (stored d).entries ≡ map (entry_row json) es
    pub histories :
        (n : Str)
        → history n (stored d).versions
          ≡ history n c.tables.versions
            ++ added json created (read_before c.tables.entries []) n c.tables.versions es
    pub audit :
        (stored d).audit
        ≡ c.tables.audit ++ next_row enc c.tables.audit (codes "vault.put") session_id names ∷ []
    pub sessions : (stored d).sessions ≡ c.tables.sessions
    pub custom_providers : (stored d).custom_providers ≡ c.tables.custom_providers
    pub wraps :
        Wraps
          (rows_of json users)
          (store_entries json enc created es session_id names c).1
          c.tables.wraps
          (stored d).wraps

  store_entries_shut :
      (created : Str) (es : List VaultEntry) (session_id : Option Str) (names : List Str) (c : Conn)
      (ev : AuditEvent)
      → (store_entries json enc created es session_id names c).0 ≡ some ev
      → (c.open_from ≡ none)
        × ((store_entries json enc created es session_id names c).1.open_from ≡ none)
  unfolding store_entries
  store_entries_shut created es session_id names c ev h =
      Outcome-shut _ c _ (immediate_atomic _ c (put_all-IsWithin created es session_id names)) h

  -- A replacement of the vault that returned: the entries are exactly the ones given, in their order;
  -- the history of each name is what it was, with one version at its end, numbered one above its
  -- highest, where the snapshot changes the ciphertext of the name or introduces it; one audit row
  -- with the names is appended; the wraps are the rows of `users.json`, or what they were where there
  -- is no such file, it is no JSON or sqlite refuses their transaction; and no other table has changed.
  pub replace_entries_lem :
      (users : Option Str) (created : Str) (es : List VaultEntry) (session_id : Option Str)
      (names : List Str) (c d : Conn) (ev : AuditEvent)
      → replace_entries json enc users created es session_id names c ≡ (some ev, d)
      → Replaced users created es session_id names c d
  unfolding replace_entries
  replace_entries_lem users created es session_id names c d ev h =
      let (v, ran, tail) =
        bind-eq-some (store_entries json enc created es session_id names) _ c d h in
      let e = (store_entries json enc created es session_id names c).1 in
      let (shut, closed) = store_entries_shut created es session_id names c v ran in
      let g : Gives (store_entries json enc created es session_id names) c.tables v e.tables =
        record { before = c; after = e; starts = refl; runs = λ i. (ran i, e); ends = refl } in
      let s = sync_wraps-Synced json users e closed in
      let ends : (sync_wraps json users e).1 ≡ d =
        ap (λ (r : Option AuditEvent × Conn). r.1)
          (bind-eq-some (sync_wraps json users) (λ _. pure v) e d tail).2 in
      let is : stored d ≡ record e.tables { wraps = s.rows } = ap stored (sym ends) ∙ s.others in
      let done =
        λ (n : Str). store_entries_lem created n es session_id names c.tables e.tables v g in
      record {
        shut = shut;
        entries = ap (λ (t : Tables). t.entries) is ∙ (done []).0;
        histories = λ n. ap (λ (t : Tables). history n t.versions) is ∙ (done n).1;
        audit = ap (λ (t : Tables). t.audit) is ∙ (done []).2;
        sessions = ap (λ (t : Tables). t.sessions) is ∙ (done []).3;
        custom_providers = ap (λ (t : Tables). t.custom_providers) is ∙ (done []).5;
        wraps =
            subst (λ l. Wraps (rows_of json users) e l (stored d).wraps) (done []).4
              (subst (λ l. Wraps (rows_of json users) e e.tables.wraps l)
                (sym (ap (λ (t : Tables). t.wraps) is)) s.wraps);
      }

  -- The transaction that returned leaves the history of every name numbered from 1 on without a gap,
  -- where it was so before.
  pub store_entries-IsNumbered :
      (created : Str) (es : List VaultEntry) (session_id : Option Str) (names : List Str)
      (t t' : Tables) (ev : AuditEvent)
      → IsNumbered t.versions
      → Gives (store_entries json enc created es session_id names) t ev t'
      → IsNumbered t'.versions
  unfolding store_entries
  store_entries-IsNumbered created es session_id names t t' ev h g =
      let before = read_before t.entries [] in
      let cleared = Gives-exec_then _ _ (Gives-select _ _ (Gives-immediate _ g)) in
      let (_, s, loop, logged) = Gives-bind (insert_entries json created before es) _ cleared in
      let wrote = append_on_lem enc (codes "vault.put") session_id names s t' ev logged in
      subst IsNumbered (ap (λ (x : Tables). x.versions) (sym wrote))
        (insert_entries-IsNumbered json created before es _ s h loop)
