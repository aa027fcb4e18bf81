-- ===== src/Server/Sessions/Lookup.antt =====
-- What a token buys: `lookup` against `create`, and against the stored rows.
use secd.Base.{
  ℕ, ◌<◌, true, false, ◌≡◌, refl, ap, sym, ◌∙◌, inl, inr, Option, none, some, [], ◌∷◌, ◌++◌, any,
  In, if◌then◌else◌, ltb, arith, Bool-cases, Option-cases,
}
use secd.Base.Text.{Str, str_eq, str_eq_iff, str_eq_refl}
use secd.Server.Db.{SessionRow, Tables}
use secd.Server.Db.Atomic.{Gives, Gives-step, Gives-select, Gives-exec_then, Gives-pure}
use secd.Server.Audit.{Encoders}
use secd.Server.Sessions.{
  SessionKind, console, device, Session, parse, as_str, ttl, saturating_add, find_row, delete_where,
  has_hash, insert_row, is_expired, session_of, touch_kind, touch, lookup, create, token_hash,
  new_row,
}
use secd.Server.Sessions.Rows.{
  find_row-append, find_row-delete_keep, find_row-delete_sound, insert_row-eq-some,
  find_row-delete_last,
}

pub parse-as_str : (kind : SessionKind) → parse (as_str kind) ≡ some kind
unfolding parse str_eq
parse-as_str console = refl
parse-as_str device = refl

module _ (enc : Encoders) where
  -- The search that a lookup makes, after the sweep.
  abbrev pub live_row : ℕ → Str → Tables → Option SessionRow
  live_row now token t =
      find_row (has_hash (token_hash enc token)) (delete_where (is_expired now) t.sessions)

  abbrev answer_kind : ℕ → SessionRow → Option SessionKind → Option Session
  answer_kind now r none = none
  answer_kind now r (some kind) = some (session_of enc now r kind)

  abbrev pub answer : ℕ → Option SessionRow → Option Session
  answer now none = none
  answer now (some r) = answer_kind now r (parse r.kind)

  touch_kind_sound :
      (now : ℕ) (hash : Str) (r : SessionRow) (o : Option SessionKind) {t t' : Tables}
      {s : Option Session}
      → Gives (touch_kind enc now hash r o) t s t'
      → s ≡ answer_kind now r o
  unfolding touch_kind
  touch_kind_sound now hash r none g = (Gives-pure g).0
  touch_kind_sound now hash r (some k) g = (Gives-pure (Gives-exec_then _ _ g)).0

  touch_sound :
      (now : ℕ) (hash : Str) (o : Option SessionRow) {t t' : Tables} {s : Option Session}
      → Gives (touch enc now hash o) t s t'
      → s ≡ answer now o
  unfolding touch
  touch_sound now hash none g = (Gives-pure g).0
  touch_sound now hash (some r) g = touch_kind_sound now hash r (parse r.kind) g

  -- The answer of a lookup that sqlite did not refuse is decided by the rows at its start.
  pub lookup_eq :
      (now : ℕ) (token : Str) {t t' : Tables} {s : Option Session}
      → Gives (lookup enc now token) t s t'
      → s ≡ answer now (live_row now token t)
  unfolding lookup
  lookup_eq now token g =
      touch_sound now (token_hash enc token) _ (Gives-select _ _ (Gives-exec_then _ _ g))

  answer_sound :
      (now : ℕ) (o : Option SessionRow) (s : Session)
      → answer now o ≡ some s
      → (r : SessionRow) × (o ≡ some r)
        × (parse r.kind ≡ some s.kind)
        × (s ≡ session_of enc now r s.kind)
  answer_sound now none s h = absurd (cc)
  answer_sound now (some r) s h = elim (Option-cases (parse r.kind)) [
    | inl e ↦ absurd (let k : answer_kind now r none ≡ some s = rw e at h in cc)
    | inr (k, e) ↦
        let q : answer_kind now r (some k) ≡ some s = rw e at h in
        let same : session_of enc now r k ≡ s = cc q in
        (
          r,
          refl,
          e ∙ ap (λ (x : Session). some x.kind) same,
          sym same ∙ ap (λ (x : Session). session_of enc now r x.kind) same,
        )
  ]

  -- A token that is accepted has a row of its own: the row was in the table when the lookup began, it
  -- has the token's hash, its deadline is not reached, its kind is one of the two known, and the
  -- session is that row's.
  pub lookup_sound :
      (now : ℕ) (token : Str) (t t' : Tables) (s : Session)
      → Gives (lookup enc now token) t (some s) t'
      → (r : SessionRow) × In r t.sessions
        × (r.token_hash ≡ token_hash enc token)
        × (now < r.expires)
        × (parse r.kind ≡ some s.kind)
        × (s ≡ session_of enc now r s.kind)
  lookup_sound now token t t' s g =
      let (r, found, kind, same) =
        answer_sound now (live_row now token t) s (sym (lookup_eq now token g)) in
      let (there, hash, alive) =
        find_row-delete_sound (has_hash (token_hash enc token)) (is_expired now) t.sessions r
          found in
      (r, there, (str_eq_iff _ _).0 hash, ground arith, kind, same)

  pub create_row :
      (now : ℕ) (id token email label : Str) (kind : SessionKind) {t t' : Tables} {p : Str × Str}
      → Gives (create enc now id token email kind label) t p t'
      → (p ≡ (id, token))
        × (t'
            ≡ record t { sessions = t.sessions ++ new_row enc now id token email kind label ∷ [] })
        × (any (has_hash (token_hash enc token)) t.sessions ≡ false)
  unfolding create
  create_row now id token email label kind {t} g =
      let (u, e, rest) = Gives-step (insert_row (new_row enc now id token email kind label)) _ g in
      let (same, new) = insert_row-eq-some (new_row enc now id token email kind label) t u.1 e in
      let (a, b) = Gives-pure rest in (a, b ∙ same, new)

  -- A session that was created is found under its token exactly until its deadline: at a later time
  -- the lookup answers with the session's account, kind and label while the time to live has not
  -- passed since the creation, and with none from then on.
  pub lookup-create :
      (now later : ℕ) (id token email label : Str) (kind : SessionKind) (t t' t'' : Tables)
      (p : Str × Str) (s : Option Session)
      → Gives (create enc now id token email kind label) t p t'
      → Gives (lookup enc later token) t' s t''
      → s ≡ (
          if ltb later (saturating_add now (ttl kind))
          then some (record {
            id = id;
            email = email;
            kind = kind;
            label = label;
            created = now;
            last_seen = later;
          })
          else none)
  lookup-create now later id token email label kind t t' t'' p s made found =
      let row = new_row enc now id token email kind label in
      let (_, e, new) = create_row now id token email label kind made in
      let told : s ≡ answer later (live_row later token t') = lookup_eq later token found in
      let hash : has_hash (token_hash enc token) row ≡ true = str_eq_refl (token_hash enc token) in
      elim (Bool-cases (is_expired later row)) [
        | inl gone ↦
            let off : ltb later (saturating_add now (ttl kind)) ≡ false = ground arith in
            let miss =
              find_row-delete_last (has_hash (token_hash enc token)) (is_expired later) t.sessions
                row new gone in
            rw (told, e, miss, off)
        | inr live ↦
            let on : ltb later (saturating_add now (ttl kind)) ≡ true = ground arith in
            let hit =
              find_row-delete_keep (has_hash (token_hash enc token)) (is_expired later)
                (t.sessions ++ row ∷ []) row
                (find_row-append (has_hash (token_hash enc token)) t.sessions row new hash) live in
            rw (told, e, hit, parse-as_str kind, on)
      ]
