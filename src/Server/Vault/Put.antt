-- ===== src/Server/Vault/Put.antt =====
-- What the handlers that write the vault do, on every outcome.
use secd.Base.{
  ℕ, Bool, true, false, not, ◌≡◌, ◌≢◌, refl, ap, sym, ◌∙◌, Option, none, some, List, map, any, All,
  arith, subst,
}
use secd.Base.Text.{Str, codes, str_eq}
use secd.Base.Result.{Result, ok, err, ok_or, ok-bind, ok-injective}
use secd.Base.Json.{Value, Items, nil, cons, get, as_str, as_array, as_object, keys}
use secd.Core.Name.{check_name}
use secd.Core.NameError.{NameError}
use secd.Server.Db.{WrapRow, Conn, ◌>>◌, pure, continue, stored}
use secd.Server.Db.Undone.{Outcome-stored, immediate_atomic}
use secd.Server.Headers.{HeaderMap, Reply}
use secd.Server.Audit.{Encoders, AuditEvent}
use secd.Server.Sessions.{Session, vault_from_headers}
use secd.Server.Sessions.Keeps.{other_tables, vault_from_headers_keeps}
use secd.Server.Vault.{
  Json, VaultEntry, store_entries, rows_of, replace_or_keep, sync_wraps, replace_entries,
}
use secd.Server.Vault.Replace.{Replaced, replace_entries_lem, put_all-IsWithin}
use secd.Server.Vault.Requests.{
  has_forbidden, entry_key, refuse_if, named, is_null, meta_of, parse_entry, parse_entries,
  parse_vault,
}
use secd.Server.Vault.Refuses.{parse_vault-Refuses}
use secd.Server.Vault.Handlers.{put_reply, put_parsed, put_as, put_vault}

-- An entry that may be stored: its name is a name of the register, and no key for plaintext stands
-- anywhere in the item that it was read from.
pub record IsStorable (e : VaultEntry) : Type 0 where
  pub name : check_name e.name ≡ ok tt
  pub ciphertext : is_null e.ciphertext ≡ false

named_ok : (r : Result NameError (Unit {0})) {u : Unit {0}} → named r ≡ ok u → r ≡ ok tt
named_ok (ok tt) h = refl
named_ok (err e) h = absurd (cc)

refused_not : (b : Bool) (r : Reply) {u : Unit {0}} → refuse_if b r ≡ ok u → b ≡ false
refused_not true r h = absurd (cc)
refused_not false r h = refl

parse_entry-IsStorable :
    (v : Value) (e : VaultEntry) → parse_entry v ≡ ok e → IsStorable e × (has_forbidden v ≡ false)
unfolding parse_entry
parse_entry-IsStorable v e h =
    let (_, clean, h₁) = ok-bind (refuse_if (has_forbidden v) _) _ h in
    let (o, _, h₂) = ok-bind (ok_or (as_object v) _) _ h₁ in
    let (_, _, h₃) = ok-bind (refuse_if (any (λ k. not (entry_key k)) (keys o)) _) _ h₂ in
    let (name, _, h₄) = ok-bind (ok_or (as_str (get (codes "name") o)) _) _ h₃ in
    let (_, good, h₅) = ok-bind (named (check_name name)) _ h₄ in
    let (ct, _, h₆) = ok-bind (ok_or (get (codes "ciphertext") o) _) _ h₅ in
    let (_, full, h₇) = ok-bind (refuse_if (is_null ct) _) _ h₆ in
    let (meta, _, h₈) = ok-bind (meta_of (get (codes "meta") o)) _ h₇ in
    let same = ok-injective h₈ in
    (
      record {
        name =
            subst (λ (x : VaultEntry). check_name x.name ≡ ok tt) (sym same)
              (named_ok (check_name name) good);
        ciphertext =
            subst (λ (x : VaultEntry). is_null x.ciphertext ≡ false) (sym same)
              (refused_not (is_null ct) _ full);
      },
      refused_not (has_forbidden v) _ clean,
    )

parse_entries-IsStorable :
    (vs : Items) (es : List VaultEntry) → parse_entries vs ≡ ok es → All IsStorable es
unfolding parse_entries
parse_entries-IsStorable nil es h = subst (All IsStorable) (sym (ok-injective h)) tt
parse_entries-IsStorable (cons v vs) es h =
    let (e, first, h₁) = ok-bind (parse_entry v) _ h in
    let (rest, more, h₂) = ok-bind (parse_entries vs) _ h₁ in
    subst (All IsStorable) (sym (ok-injective h₂))
      ((parse_entry-IsStorable v e first).0, parse_entries-IsStorable vs rest more)

parse_vault-IsStorable :
    (body : Value) (es : List VaultEntry)
    → parse_vault body ≡ ok es
    → All IsStorable es × (has_forbidden body ≡ false)
unfolding parse_vault
parse_vault-IsStorable body es h =
    let (_, clean, h₁) = ok-bind (refuse_if (has_forbidden body) _) _ h in
    let (obj, _, h₂) = ok-bind (ok_or (as_object body) _) _ h₁ in
    let (_, _, h₃) =
      ok-bind (refuse_if (any (λ k. not (str_eq k (codes "entries"))) (keys obj)) _) _ h₂ in
    let (arr, _, h₄) = ok-bind (ok_or (as_array (get (codes "entries") obj)) _) _ h₃ in
    (parse_entries-IsStorable arr es h₄, refused_not (has_forbidden body) _ clean)

module _ (json : Json) (enc : Encoders) where
  -- A write that was stored.
  pub record Stored (users : Option Str) (created : Str) (body : Value) (session : Session)
      (c d : Conn) : Type 0 where
    pub entries : List VaultEntry
    pub parsed : parse_vault body ≡ ok entries
    pub storable : All IsStorable entries
    pub clean : has_forbidden body ≡ false
    pub replaced :
        Replaced json enc users created entries (some session.id) (map (λ e. e.name) entries) c d

  put_reply_sound :
      (r : Option AuditEvent × Conn)
      → (put_reply json enc r).0.status ≡ 200
      → (ev : AuditEvent) × (r ≡ (some ev, (put_reply json enc r).1))
  put_reply_sound (none, c) h = absurd (omega arith)
  put_reply_sound (some ev, c) h = (ev, refl)

  put_parsed_sound :
      (users : Option Str) (created : Str) (body : Value) (session : Session) (c : Conn)
      (r : Result Reply (List VaultEntry))
      → parse_vault body ≡ r
      → ((e : Reply) → r ≡ err e → e.status ≢ 200)
      → (put_parsed json enc users created session c r).0.status ≡ 200
      → Stored users created body session c (put_parsed json enc users created session c r).1
  put_parsed_sound users created body session c (err e) p n h = absurd (n e refl h)
  put_parsed_sound users created body session c (ok es) p n h =
      let (ev, ran) =
        put_reply_sound
          (replace_entries json enc users created es (some session.id) (map (λ e. e.name) es) c)
          h in
      let (good, clean) = parse_vault-IsStorable body es p in
      record {
        entries = es;
        parsed = p;
        storable = good;
        clean = clean;
        replaced = replace_entries_lem json enc users created es _ _ c _ ev ran;
      }

  -- A PUT of the vault that is answered with 200: the request has a session; the body has no key for
  -- plaintext at any depth; every entry has a name of the register and a ciphertext that is not null;
  -- and on the connection that the session's lookup left, the database then holds exactly the entries
  -- of the body, a version more of each name whose ciphertext is new, and one audit row more, with the
  -- session and the names; the wraps are those of `users.json`, or what they were where there is no
  -- such file, it is no JSON or their transaction is refused.
  pub put_vault_sound :
      (auth : ℕ) (users : Option Str) (created : Str) (headers : HeaderMap) (body : Value)
      (c : Conn)
      → (put_vault json enc auth users created headers body c).0.status ≡ 200
      → (session : Session) × ((vault_from_headers enc auth headers c).0 ≡ some session)
        × Stored users created body session
            (vault_from_headers enc auth headers c).1
            (put_vault json enc auth users created headers body c).1
  unfolding put_vault
  put_vault_sound auth users created headers body c h =
      by_session (vault_from_headers enc auth headers c) h
    where
      by_session :
          (r : Option Session × Conn)
          → (put_as json enc users created body r).0.status ≡ 200
          → (session : Session) × (r.0 ≡ some session)
            × Stored users created body session r.1 (put_as json enc users created body r).1
      by_session (none, d) k = absurd (omega arith)
      by_session (some session, d) k = (
        session,
        refl,
        put_parsed_sound users created body session d (parse_vault body) refl
            (λ e q s. let n = (parse_vault-Refuses body).status e q in omega arith) k,
      )

  store_entries_failed :
      (es : List VaultEntry) (created : Str) (id : Option Str) (names : List Str) (c : Conn)
      → (store_entries json enc created es id names c).0 ≡ none
      → stored (store_entries json enc created es id names c).1 ≡ stored c
  unfolding store_entries
  store_entries_failed es created id names c h =
      Outcome-stored _ c _ (immediate_atomic _ c (put_all-IsWithin json enc created es id names)) h

  -- A write of the store that failed: it failed in the transaction.
  behind_failed :
      (users : Option Str) (c : Conn) (r : Option AuditEvent × Conn)
      → (r.0 ≡ none → stored r.1 ≡ stored c)
      → (continue r.0 (λ ev. sync_wraps json users >> pure ev) r.1).0 ≡ none
      → stored (continue r.0 (λ ev. sync_wraps json users >> pure ev) r.1).1 ≡ stored c
  unfolding sync_wraps
  behind_failed users c (none, d) k h = k refl
  behind_failed users c (some ev, d) k h = absurd (never (rows_of json users) h)
    where
      never : (file : Option (List WrapRow)) → ((replace_or_keep file >> pure ev) d).0 ≡ none → ⊥
      never none q = absurd (cc)
      never (some ws) q = absurd (cc)

  put_reply_kept :
      (users : Option Str) (es : List VaultEntry) (created : Str) (session : Session) (c : Conn)
      → (put_reply json enc (
          replace_entries json enc users created es
            (some session.id)
            (map (λ e. e.name) es)
            c)).0.status
        ≢ 200
      → stored
          (put_reply json enc (
            replace_entries json enc users created es (some session.id) (map (λ e. e.name) es) c)).1
        ≡ stored c
  unfolding replace_entries
  put_reply_kept users es created session c h =
      failed (replace_entries json enc users created es (some session.id) (map (λ e. e.name) es) c)
        (λ e. behind_failed users c _ (store_entries_failed es created _ _ c) e) h
    where
      failed :
          (r : Option AuditEvent × Conn)
          → (r.0 ≡ none → stored r.1 ≡ stored c)
          → (put_reply json enc r).0.status ≢ 200
          → stored (put_reply json enc r).1 ≡ stored c
      failed (none, d) atomic n = atomic refl
      failed (some ev, d) atomic n = absurd (n refl)

  put_parsed_kept :
      (users : Option Str) (created : Str) (session : Session) (c : Conn)
      (r : Result Reply (List VaultEntry))
      → (put_parsed json enc users created session c r).0.status ≢ 200
      → stored (put_parsed json enc users created session c r).1 ≡ stored c
  put_parsed_kept users created session c (err e) h = refl
  put_parsed_kept users created session c (ok es) h = put_reply_kept users es created session c h

  -- A PUT of the vault that is not answered with 200 leaves every table of the database but the
  -- sessions as it was: without a session, with a refused body and with a store that fails at any
  -- statement alike. Where sqlite refuses the ROLLBACK too, the transaction stays open, and what the
  -- database holds is what it held.
  pub put_vault_refused :
      (auth : ℕ) (users : Option Str) (created : Str) (headers : HeaderMap) (body : Value)
      (c : Conn)
      → (put_vault json enc auth users created headers body c).0.status ≢ 200
      → other_tables (stored (put_vault json enc auth users created headers body c).1)
        ≡ other_tables (stored c)
  unfolding put_vault
  put_vault_refused auth users created headers body c h =
      ap other_tables (by_session (vault_from_headers enc auth headers c) h)
      ∙ vault_from_headers_keeps enc auth headers c
    where
      by_session :
          (r : Option Session × Conn)
          → (put_as json enc users created body r).0.status ≢ 200
          → stored (put_as json enc users created body r).1 ≡ stored r.1
      by_session (none, d) k = refl
      by_session (some session, d) k = put_parsed_kept users created session d (parse_vault body) k
