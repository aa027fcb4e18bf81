-- ===== src/Server/Sessions/Keeps.antt =====
-- What a lookup leaves alone: every table of the database but the sessions, whichever statements
-- sqlite refuses.
use secd.Base.{
  ℕ, Bool, true, false, ◌≡◌, refl, ◌∙◌, Option, none, some, List, [], ◌∷◌, inl, inr, Option-cases,
}
use secd.Base.Text.{Str}
use secd.Server.Db.{
  SessionRow, Tables, Conn, M, ◌>>=◌, pure, statement, select, exec, continue, run_on, stored,
}
use secd.Server.Headers.{HeaderMap}
use secd.Server.Audit.{Encoders}
use secd.Server.Sessions.{
  Session, SessionKind, parse, on_sessions, touch_kind, touch, lookup, by_token, cookie_token,
  bearer_token, by_bearer, or_bearer, vault_from_headers,
}

-- The tables without the sessions.
abbrev pub other_tables : Tables → Tables
other_tables t = record t { sessions = [] }

run_on_keeps :
    {A : Type 0} (fs : List Bool) (o : Option Tables) (a : Tables → A)
    (f : List SessionRow → List SessionRow) (t : Tables)
    → let c : Conn = record { tables = t; open_from = o; faults = fs } in
      other_tables (stored (run_on fs (λ t. some (a t, on_sessions f t)) c).1)
      ≡ other_tables (stored c)
run_on_keeps [] none a f t = refl
run_on_keeps [] (some _) a f t = refl
run_on_keeps (true ∷ fs) o a f t = refl
run_on_keeps (false ∷ fs) none a f t = refl
run_on_keeps (false ∷ fs) (some _) a f t = refl

-- A computation that leaves the other tables alone, whatever it returns.
record Keeps {A : Type 0} (m : M A) : Type 0 where
  same : (c : Conn) → other_tables (stored (m c).1) ≡ other_tables (stored c)

exec-Keeps : (f : List SessionRow → List SessionRow) → Keeps (exec (on_sessions f))
unfolding statement
exec-Keeps f = record { same = λ c. run_on_keeps c.faults c.open_from (λ _. tt) f c.tables }

select-Keeps : {A : Type 0} (f : Tables → A) → Keeps (select f)
unfolding statement
select-Keeps f = record { same = λ c. run_on_keeps c.faults c.open_from f (λ rs. rs) c.tables }

pure-Keeps : {A : Type 0} (a : A) → Keeps (pure a)
pure-Keeps a = record { same = λ c. refl }

continue-Keeps :
    {A B : Type 0} (o : Option A) (f : A → M B) (c : Conn)
    → ((a : A) → Keeps (f a))
    → other_tables (stored (continue o f c).1) ≡ other_tables (stored c)
continue-Keeps none f c k = refl
continue-Keeps (some a) f c k = (k a).same c

bind-Keeps :
    {A B : Type 0} (m : M A) (f : A → M B) → Keeps m → ((a : A) → Keeps (f a)) → Keeps (m >>= f)
bind-Keeps m f km kf = record { same = λ c. continue-Keeps (m c).0 f (m c).1 kf ∙ km.same c }

module _ (enc : Encoders) where
  touch_kind-Keeps :
      (now : ℕ) (hash : Str) (r : SessionRow) (o : Option SessionKind)
      → Keeps (touch_kind enc now hash r o)
  unfolding touch_kind
  touch_kind-Keeps now hash r none = pure-Keeps none
  touch_kind-Keeps now hash r (some k) = bind-Keeps _ _ (exec-Keeps _) (λ _. pure-Keeps _)

  touch-Keeps : (now : ℕ) (hash : Str) (o : Option SessionRow) → Keeps (touch enc now hash o)
  unfolding touch
  touch-Keeps now hash none = pure-Keeps none
  touch-Keeps now hash (some r) = touch_kind-Keeps now hash r (parse r.kind)

  lookup-Keeps : (now : ℕ) (token : Str) → Keeps (lookup enc now token)
  unfolding lookup
  lookup-Keeps now token =
      bind-Keeps _ _ (exec-Keeps _)
        (λ _. bind-Keeps _ _ (select-Keeps _) (λ o. touch-Keeps now _ o))

  by_token_keeps :
      (now : ℕ) (token : Str) (c : Conn)
      → other_tables (stored (by_token enc now token c).1) ≡ other_tables (stored c)
  unfolding by_token
  by_token_keeps now token c = (lookup-Keeps now token).same c

  by_bearer_keeps :
      (now : ℕ) (headers : HeaderMap) (c : Conn)
      → other_tables (stored (by_bearer enc now headers c).1) ≡ other_tables (stored c)
  unfolding by_bearer
  by_bearer_keeps now headers c = elim (Option-cases (bearer_token headers)) [
    | inl e ↦ rw (by_bearer, e) refl
    | inr (token, e) ↦ rw (by_bearer, e) (by_token_keeps now token c)
  ]

  or_bearer_keeps :
      (now : ℕ) (headers : HeaderMap) (r : Option Session × Conn)
      → other_tables (stored (or_bearer enc now headers r).1) ≡ other_tables (stored r.1)
  unfolding or_bearer
  or_bearer_keeps now headers (some s, c) = refl
  or_bearer_keeps now headers (none, c) = by_bearer_keeps now headers c

  pub vault_from_headers_keeps :
      (now : ℕ) (headers : HeaderMap) (c : Conn)
      → other_tables (stored (vault_from_headers enc now headers c).1) ≡ other_tables (stored c)
  unfolding vault_from_headers
  vault_from_headers_keeps now headers c = elim (Option-cases (cookie_token headers)) [
    | inl e ↦ rw (vault_from_headers, e) (by_bearer_keeps now headers c)
    | inr (token, e) ↦
        rw (vault_from_headers, e)
          (or_bearer_keeps now headers (by_token enc now token c) ∙ by_token_keeps now token c)
  ]
