-- ===== src/Server/Sessions/Single.antt =====
-- After a console sign-in the account has one console session, and the cookie's token opens it.
use secd.Base.{
  ℕ, true, not, ◌≡◌, refl, ap, ◌∙◌, inl, inr, Option, none, some, List, [], ◌∷◌, ◌++◌, all,
  if◌then◌else◌, arith, Bool-cases, Option-cases, and_true,
}
use secd.Base.Text.{Str, codes, str_eq, str_eq_iff, str_eq_refl}
use secd.Server.Db.{SessionRow, Tables, M, ◌>>=◌, ◌>>◌, pure, statement, exec}
use secd.Server.Db.Atomic.{
  Gives, Gives-step, Gives-select, Gives-exec_then, Gives-pure, Gives-immediate,
}
use secd.Server.Headers.{HeaderMap}
use secd.Server.Audit.{Encoders}
use secd.Server.Sessions.{
  SessionKind, console, device, parse, ttl, saturating_add, is_console, find_row, delete_where,
  update_where, has_hash, on_sessions, other_console, insert_row, cookie_token, token_hash, new_row,
}
use secd.Server.Sessions.Rows.{
  find_row-append, find_row-delete_keep, insert_row-eq-some, all-delete_where, find_row-update,
}
use secd.Server.Sessions.Lookup.{parse-as_str}
use secd.Server.Sessions.Ensure.{fresh_console, reuse_or, reusable, renew, ensure_console}

console_of_is_console : (o : Option SessionKind) → is_console o ≡ true → o ≡ some console
console_of_is_console none h = absurd (cc)
console_of_is_console (some console) h = refl
console_of_is_console (some device) h = absurd (cc)

module _ (enc : Encoders) where
  -- What holds of the tables when a console sign-in returned an id and a token: the token's row is the
  -- console session of that id, good for twelve hours from now, and no other console session of the
  -- account is left.
  pub record IsSignedIn (now : ℕ) (email : Str) (p : Str × Str) (t : Tables) : Type 0 where
    pub row : SessionRow
    pub found : find_row (has_hash (token_hash enc p.1)) t.sessions ≡ some row
    pub id : row.id ≡ p.0
    pub owner : row.email ≡ email
    pub kind : parse row.kind ≡ some console
    pub deadline : row.expires ≡ saturating_add now (ttl console)
    pub single : all (λ r. not (other_console email p.0 r)) t.sessions ≡ true

  IsSignedIn-drop_others :
      (now : ℕ) (email token : Str) (r : SessionRow) (rs : List SessionRow) (t : Tables)
      → find_row (has_hash (token_hash enc token)) rs ≡ some r
      → r.email ≡ email
      → parse r.kind ≡ some console
      → r.expires ≡ saturating_add now (ttl console)
      → IsSignedIn now email
          (r.id, token)
          (record t { sessions = delete_where (other_console email r.id) rs })
  IsSignedIn-drop_others now email token r rs t f o k d = record {
    row = r;
    found =
        find_row-delete_keep (has_hash (token_hash enc token)) (other_console email r.id) rs r f
          (ground (arith, str_eq_refl r.id));
    id = refl;
    owner = o;
    kind = k;
    deadline = d;
    single = all-delete_where (other_console email r.id) rs;
  }

  IsSignedIn-eq :
      {now : ℕ} {email : Str} {p q : Str × Str} {t s : Tables}
      → IsSignedIn now email p t
      → q ≡ p
      → s ≡ t
      → IsSignedIn now email q s
  IsSignedIn-eq {now} {email} h e f = rw (e, f) h

  fresh_console-IsSignedIn :
      (now : ℕ) (id token email : Str) (t t' : Tables) (p : Str × Str)
      → Gives (fresh_console enc now id token email) t p t'
      → IsSignedIn now email p t'
  unfolding fresh_console
  fresh_console-IsSignedIn now id token email t t' p g =
      let row = new_row enc now id token email console (codes "This browser") in
      let (u, e, rest) = Gives-step (insert_row row) _ g in
      let (same, new) = insert_row-eq-some row t u.1 e in
      let (q, kept) = Gives-pure (Gives-exec_then _ _ rest) in
      let hit =
        find_row-append (has_hash (token_hash enc token)) t.sessions row new
          (str_eq_refl (token_hash enc token)) in
      IsSignedIn-eq
        (IsSignedIn-drop_others now email token row (t.sessions ++ row ∷ []) t hit refl
          (parse-as_str console) refl)
        q
        (kept
          ∙ ap
              (λ (x : Tables). record x {
                sessions = delete_where (other_console email id) x.sessions;
              })
              same)

  renewed-IsSignedIn :
      (fresh : M (Str × Str)) (now : ℕ) (old email : Str) (r : SessionRow) (t t' : Tables)
      (p : Str × Str)
      → ((s s' : Tables) → Gives fresh s p s' → IsSignedIn now email p s')
      → find_row (has_hash (token_hash enc old)) t.sessions ≡ some r
      → reusable email r ≡ true
      → Gives
          (statement (renew now (saturating_add now (ttl console)) (token_hash enc old))
            >>= λ changed.
                (if changed
                  then (exec (on_sessions (delete_where (other_console email r.id)))
                      >> pure (r.id, old))
                  else fresh))
          t
          p
          t'
      → IsSignedIn now email p t'
  renewed-IsSignedIn fresh now old email r t t' p otherwise e own g =
      let hash = token_hash enc old in
      let later = λ (x : SessionRow). record x {
        last_seen = now;
        expires = saturating_add now (ttl console);
      } in
      let (u, did, rest) = Gives-step (renew now (saturating_add now (ttl console)) hash) _ g in
      elim (Bool-cases u.0) [
        | inr none_changed ↦ otherwise u.1 t' (rw none_changed at rest)
        | inl changed ↦
            let (q, kept) = Gives-pure (Gives-exec_then _ _ (rw changed at rest)) in
            let written : u.1 ≡ on_sessions (update_where (has_hash hash) later) t = cc did in
            let (mine, known) =
              (and_true (str_eq r.email email) (is_console (parse r.kind))).0 own in
            IsSignedIn-eq
              (IsSignedIn-drop_others now email old (later r)
                (update_where (has_hash hash) later t.sessions) t
                (find_row-update (has_hash hash) later t.sessions r (λ x. refl) e)
                ((str_eq_iff r.email email).0 mine) (console_of_is_console (parse r.kind) known)
                refl)
              q (kept ∙ ap (on_sessions (delete_where (other_console email r.id))) written)
      ]

  reuse_or-IsSignedIn :
      (fresh : M (Str × Str)) (now : ℕ) (old email : Str) (o : Option SessionRow) (t t' : Tables)
      (p : Str × Str)
      → ((s s' : Tables) → Gives fresh s p s' → IsSignedIn now email p s')
      → find_row (has_hash (token_hash enc old)) t.sessions ≡ o
      → Gives (reuse_or enc fresh now old email o) t p t'
      → IsSignedIn now email p t'
  unfolding reuse_or
  reuse_or-IsSignedIn fresh now old email none t t' p otherwise e g = otherwise t t' g
  reuse_or-IsSignedIn fresh now old email (some r) t t' p otherwise e g =
      elim (Bool-cases (reusable email r)) [
        | inr foreign ↦ otherwise t t' (rw foreign at g)
        | inl own ↦ renewed-IsSignedIn fresh now old email r t t' p otherwise e own (rw own at g)
      ]

  -- The console session of the email that this request's cookie opens is used again, and otherwise
  -- a new one is made. Either way, when `ensure_console` returned an id and a token, whichever
  -- statements sqlite refused before: the token finds the console session of that id and email, with
  -- a deadline of twelve hours from now, and no other console session of the email is left.
  pub ensure_console-IsSignedIn :
      (now : ℕ) (id token email : Str) (headers : HeaderMap) (t t' : Tables) (p : Str × Str)
      → Gives (ensure_console enc now id token email headers) t p t'
      → IsSignedIn now email p t'
  unfolding ensure_console
  ensure_console-IsSignedIn now id token email headers t t' p g =
      elim (Option-cases (cookie_token headers)) [
        | inl e ↦ fresh_console-IsSignedIn now id token email t t' p (rw e at (Gives-immediate _ g))
        | inr (old, e) ↦
            reuse_or-IsSignedIn (fresh_console enc now id token email) now old email _ t t' p
              (λ s s' f. fresh_console-IsSignedIn now id token email s s' p f) refl
              (Gives-select _ _ (rw e at (Gives-immediate _ g)))
      ]
