-- ===== src/Server/Sessions/Guards.antt =====
-- Which session a request's headers open.
use secd.Base.{
  ℕ, ◌<◌, ◌⊎◌, true, false, ◌≡◌, refl, ap, sym, ◌∙◌, inl, inr, Option, none, some, In, arith,
  Bool-cases, Option-cases,
}
use secd.Base.Text.{Str}
use secd.Server.Db.{SessionRow, Tables, Conn}
use secd.Server.Headers.{HeaderMap}
use secd.Server.Audit.{Encoders}
use secd.Server.Sessions.{
  SessionKind, console, device, Session, parse, is_console, cookie_token, bearer_token, token_hash,
  session_of, lookup, flatten, by_token, of_kind, by_bearer, or_bearer, vault_from_headers,
  console_from_headers, device_from_headers,
}
use secd.Server.Sessions.Lookup.{lookup_sound}

module _ (enc : Encoders) where
  -- A row of the table that opens a session for a token.
  abbrev pub Opens : ℕ → Str → Tables → Session → Type 0
  Opens now token t s =
      (r : SessionRow) × In r t.sessions
      × (r.token_hash ≡ token_hash enc token)
      × (now < r.expires)
      × (parse r.kind ≡ some s.kind)
      × (s ≡ session_of enc now r s.kind)

  flatten-eq-some :
      {A : Type 0} (o : Option (Option A)) (a : A) → flatten enc o ≡ some a → o ≡ some (some a)
  unfolding flatten
  flatten-eq-some none a h = absurd (cc)
  flatten-eq-some (some o) a h = ap some h

  pub by_token-Opens :
      (now : ℕ) (token : Str) (c : Conn) (s : Session)
      → (by_token enc now token c).0 ≡ some s
      → Opens now token c.tables s
  unfolding by_token
  by_token-Opens now token c s h =
      let e : (lookup enc now token c).0 ≡ some (some s) =
        flatten-eq-some (lookup enc now token c).0 s (unfold flatten in h) in
      lookup_sound enc now token c.tables (lookup enc now token c).1.tables s (record {
        before = c;
        after = (lookup enc now token c).1;
        starts = refl;
        runs = λ i. (e i, (lookup enc now token c).1);
        ends = refl;
      })

  console_only : (k : SessionKind) → is_console (some k) ≡ true → k ≡ console
  console_only console h = refl
  console_only device h = absurd (cc)

  device_only : (k : SessionKind) → is_console (some k) ≡ false → k ≡ device
  device_only console h = absurd (cc)
  device_only device h = refl

  of_console-eq-some :
      (o : Option Session) (s : Session)
      → of_kind enc console o ≡ some s
      → (o ≡ some s) × (s.kind ≡ console)
  unfolding of_kind
  of_console-eq-some none s h = absurd (cc)
  of_console-eq-some (some x) s h = elim (Bool-cases (is_console (some x.kind))) [
    | inl e ↦
        let same : x ≡ s = ground arith in
        (ap some same, ap (λ (y : Session). y.kind) (sym same) ∙ console_only x.kind e)
    | inr e ↦ absurd (ground arith)
  ]

  of_device-eq-some :
      (o : Option Session) (s : Session)
      → of_kind enc device o ≡ some s
      → (o ≡ some s) × (s.kind ≡ device)
  unfolding of_kind
  of_device-eq-some none s h = absurd (cc)
  of_device-eq-some (some x) s h = elim (Bool-cases (is_console (some x.kind))) [
    | inl e ↦ absurd (ground arith)
    | inr e ↦
        let same : x ≡ s = ground arith in
        (ap some same, ap (λ (y : Session). y.kind) (sym same) ∙ device_only x.kind e)
  ]

  -- A request is taken as a console only with a cookie whose token has a live row of that kind, and the
  -- session is that row's; no bearer token and no device row makes a console.
  pub console_from_headers_sound :
      (now : ℕ) (headers : HeaderMap) (c : Conn) (s : Session)
      → (console_from_headers enc now headers c).0 ≡ some s
      → (token : Str) × (cookie_token headers ≡ some token)
        × Opens now token c.tables s
        × (s.kind ≡ console)
  unfolding console_from_headers
  console_from_headers_sound now headers c s h = elim (Option-cases (cookie_token headers)) [
    | inl e ↦ absurd (ground arith)
    | inr (token, e) ↦
        let (found, kind) = of_console-eq-some (by_token enc now token c).0 s (ground arith) in
        (token, e, by_token-Opens now token c s found, kind)
  ]

  -- A request is taken as a device only with a bearer token that has a live row of that kind, and the
  -- session is that row's; no cookie and no console row makes a device.
  pub device_from_headers_sound :
      (now : ℕ) (headers : HeaderMap) (c : Conn) (s : Session)
      → (device_from_headers enc now headers c).0 ≡ some s
      → (token : Str) × (bearer_token headers ≡ some token)
        × Opens now token c.tables s
        × (s.kind ≡ device)
  unfolding device_from_headers
  device_from_headers_sound now headers c s h = elim (Option-cases (bearer_token headers)) [
    | inl e ↦ absurd (ground arith)
    | inr (token, e) ↦
        let (found, kind) = of_device-eq-some (by_token enc now token c).0 s (ground arith) in
        (token, e, by_token-Opens now token c s found, kind)
  ]

  by_bearer_sound :
      (now : ℕ) (headers : HeaderMap) (c : Conn) (s : Session)
      → (by_bearer enc now headers c).0 ≡ some s
      → (token : Str) × (bearer_token headers ≡ some token) × Opens now token c.tables s
  unfolding by_bearer
  by_bearer_sound now headers c s h = elim (Option-cases (bearer_token headers)) [
    | inl e ↦ absurd (ground arith)
    | inr (token, e) ↦ (token, e, by_token-Opens now token c s (ground arith))
  ]

  or_bearer_sound :
      (now : ℕ) (headers : HeaderMap) (r : Option Session × Conn) (s : Session)
      → (or_bearer enc now headers r).0 ≡ some s
      → (r.0 ≡ some s)
        ⊎ ((r.0 ≡ none)
            × ((token : Str) × (bearer_token headers ≡ some token) × Opens now token r.1.tables s))
  unfolding or_bearer
  or_bearer_sound now headers (some x, c) s h = inl h
  or_bearer_sound now headers (none, c) s h = inr (refl, by_bearer_sound now headers c s h)

  -- The bearer token of the headers opens the session.
  abbrev pub BearerOpens : ℕ → HeaderMap → Tables → Session → Type 0
  BearerOpens now headers t s =
      (token : Str) × (bearer_token headers ≡ some token) × Opens now token t s

  -- A request to the vault is taken only with a live row for the token of its cookie, or, where it has
  -- no cookie or the cookie's token opens nothing, for its bearer token among the rows that the
  -- cookie's lookup left; the session is that row's.
  pub vault_from_headers_sound :
      (now : ℕ) (headers : HeaderMap) (c : Conn) (s : Session)
      → (vault_from_headers enc now headers c).0 ≡ some s
      → ((token : Str) × (cookie_token headers ≡ some token) × Opens now token c.tables s)
        ⊎ (((cookie_token headers ≡ none) × BearerOpens now headers c.tables s)
            ⊎ ((cookie : Str) × (cookie_token headers ≡ some cookie)
                × ((by_token enc now cookie c).0 ≡ none)
                × BearerOpens now headers (by_token enc now cookie c).1.tables s))
  unfolding vault_from_headers
  vault_from_headers_sound now headers c s h = elim (Option-cases (cookie_token headers)) [
    | inl e ↦ inr (inl (e, by_bearer_sound now headers c s (ground arith)))
    | inr (cookie, e) ↦
        elim (or_bearer_sound now headers (by_token enc now cookie c) s (ground arith)) [
          | inl found ↦ inl (cookie, e, by_token-Opens now cookie c s found)
          | inr (miss, opens) ↦ inr (inr (cookie, e, miss, opens))
        ]
  ]
