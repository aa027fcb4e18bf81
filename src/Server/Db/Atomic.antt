-- ===== src/Server/Db/Atomic.antt =====
-- What the tables are after a computation on the connection that returned a value.
use secd.Base.{
  ◌≡◌, refl, Bool, true, false, Option, none, some, List, [], ◌∷◌, ap, sym, ◌∙◌, subst, arith,
}
use secd.Server.Db.{
  Conn, Tables, M, statement, select, exec, immediate, exec_begin, exec_commit, after_commit,
  finished, ◌>>=◌, ◌>>◌, pure, continue, run_on, commit_to,
}

module _ {A : Type 0} where
  commit_to-eq-some :
      (o : Option (A × Tables)) (c d : Conn) {a : A}
      → commit_to o c ≡ (some a, d)
      → o ≡ some (a, d.tables)
  commit_to-eq-some none c d h = absurd (cc)
  commit_to-eq-some (some (b, t)) c d h = ground arith

  run_on-eq-some :
      (fs : List Bool) (f : Tables → Option (A × Tables)) (c d : Conn) {a : A}
      → run_on fs f c ≡ (some a, d)
      → f c.tables ≡ some (a, d.tables)
  run_on-eq-some [] f c d h = commit_to-eq-some (f c.tables) c d h
  run_on-eq-some (true ∷ fs) f c d h = absurd (cc)
  run_on-eq-some (false ∷ fs) f c d h =
      commit_to-eq-some (f c.tables) (record c { faults = fs }) d h

  -- A statement that returned a value made its change and no other.
  pub statement-eq-some :
      (f : Tables → Option (A × Tables)) (c d : Conn) {a : A}
      → statement f c ≡ (some a, d)
      → f c.tables ≡ some (a, d.tables)
  unfolding statement
  statement-eq-some f c d h = run_on-eq-some c.faults f c d h

module _ {A B : Type 0} where
  continue-eq-some :
      (o : Option A) (f : A → M B) (c e : Conn) {b : B}
      → continue o f c ≡ (some b, e)
      → (a : A) × (o ≡ some a) × (f a c ≡ (some b, e))
  continue-eq-some none f c e h = absurd (cc)
  continue-eq-some (some a) f c e h = (a, refl, h)

  -- A sequence that returned a value: both parts did.
  pub bind-eq-some :
      (m : M A) (f : A → M B) (c e : Conn) {b : B}
      → (m >>= f) c ≡ (some b, e)
      → (a : A) × ((m c).0 ≡ some a) × (f a (m c).1 ≡ (some b, e))
  bind-eq-some m f c e h = continue-eq-some (m c).0 f (m c).1 e h

-- `m` returned `a` and took the tables `t` to `t'`, for some pattern of refused statements.
pub record Gives {A : Type 0} (m : M A) (t : Tables) (a : A) (t' : Tables) : Type 0 where
  pub before : Conn
  pub after : Conn
  pub starts : before.tables ≡ t
  pub runs : m before ≡ (some a, after)
  pub ends : after.tables ≡ t'

module _ {A B : Type 0} where
  pub Gives-bind :
      (m : M A) (f : A → M B) {t t' : Tables} {b : B}
      → Gives (m >>= f) t b t'
      → (a : A) × (s : Tables) × Gives m t a s × Gives (f a) s b t'
  Gives-bind m f g =
      let (a, e, r) = bind-eq-some m f g.before g.after g.runs in
      (
        a,
        (m g.before).1.tables,
        record {
          before = g.before;
          after = (m g.before).1;
          starts = g.starts;
          runs = λ i. (e i, (m g.before).1);
          ends = refl;
        },
        record { before = (m g.before).1; after = g.after; starts = refl; runs = r; ends = g.ends },
      )

module _ {A : Type 0} where
  pub Gives-statement :
      (f : Tables → Option (A × Tables)) {t t' : Tables} {a : A}
      → Gives (statement f) t a t'
      → f t ≡ some (a, t')
  Gives-statement f g =
      rw (← g.starts) (rw (← g.ends) (statement-eq-some f g.before g.after g.runs))

  pub Gives-pure : {x a : A} {t t' : Tables} → Gives (pure x) t a t' → (a ≡ x) × (t' ≡ t)
  Gives-pure g = (cc g.runs, cc (g.runs, g.starts, g.ends))

-- The same run under equal names.
pub Gives-eq :
    {A : Type 0} (m : M A) {t s t' s' : Tables} {a b : A}
    → Gives m s b s'
    → s ≡ t
    → b ≡ a
    → s' ≡ t'
    → Gives m t a t'
Gives-eq m g p q r = record {
  before = g.before;
  after = g.after;
  starts = g.starts ∙ p;
  runs = g.runs ∙ (λ i. (some (q i), g.after));
  ends = g.ends ∙ r;
}

pub Gives-exec :
    (f : Tables → Tables) {t t' : Tables} {u : Unit {0}} → Gives (exec f) t u t' → t' ≡ f t
Gives-exec f g = cc (Gives-statement _ g)

begin_from :
    (t : Tables) (o : Option Tables) (fs : List Bool)
    → (exec_begin (record { tables = t; open_from = o; faults = fs })).1.tables ≡ t
unfolding exec_begin
begin_from t none [] = refl
begin_from t (some _) [] = refl
begin_from t o (true ∷ fs) = refl
begin_from t none (false ∷ fs) = refl
begin_from t (some _) (false ∷ fs) = refl

pub begin_tables : (c : Conn) → (exec_begin c).1.tables ≡ c.tables
begin_tables c = begin_from c.tables c.open_from c.faults

commit_from :
    (t : Tables) (o : Option Tables) (fs : List Bool)
    → (exec_commit (record { tables = t; open_from = o; faults = fs })).1.tables ≡ t
unfolding exec_commit
commit_from t none [] = refl
commit_from t (some _) [] = refl
commit_from t o (true ∷ fs) = refl
commit_from t none (false ∷ fs) = refl
commit_from t (some _) (false ∷ fs) = refl

module _ {A : Type 0} where
  after_commit-eq-some :
      (v : A) (q : Option (Unit {0}) × Conn) {a : A} {d : Conn}
      → after_commit v q ≡ (some a, d)
      → (v ≡ a) × (q.1 ≡ d)
  after_commit-eq-some v (none, c) h = absurd (cc)
  after_commit-eq-some v (some _, c) h = (cc, cc)

  finished-eq-some :
      (r : Option A × Conn) {a : A} {d : Conn}
      → finished r ≡ (some a, d)
      → (r ≡ (some a, r.1)) × (d.tables ≡ r.1.tables)
  finished-eq-some (none, c) h = absurd (cc)
  finished-eq-some (some v, c) h =
      let (same, ended) = after_commit-eq-some v (exec_commit c) h in
      (
        λ i. (some (same i), c),
        ap (λ (d : Conn). d.tables) (sym ended) ∙ commit_from c.tables c.open_from c.faults,
      )

  -- A transaction that returned a value: its closure did, and the tables are the closure's.
  pub Gives-immediate :
      (m : M A) {t t' : Tables} {a : A} → Gives (immediate m) t a t' → Gives m t a t'
  unfolding immediate
  Gives-immediate m g =
      let (_, _, ended) =
        bind-eq-some exec_begin (λ _. λ c. finished (m c)) g.before g.after g.runs in
      let (ran, same) = finished-eq-some (m (exec_begin g.before).1) ended in
      record {
        before = (exec_begin g.before).1;
        after = (m (exec_begin g.before).1).1;
        starts = begin_tables g.before ∙ g.starts;
        runs = ran;
        ends = sym same ∙ g.ends;
      }

eq_of_some : {A : Type 0} {a b : A} → some a ≡ some b → a ≡ b
eq_of_some h = cc

-- How a run goes on behind one statement.
module _ {A B : Type 0} where
  pub Gives-step :
      (f : Tables → Option (A × Tables)) (k : A → M B) {t t' : Tables} {b : B}
      → Gives (statement f >>= k) t b t'
      → (r : A × Tables) × (f t ≡ some r) × Gives (k r.0) r.1 b t'
  Gives-step f k g =
      let (a, s, did, rest) = Gives-bind (statement f) k g in ((a, s), Gives-statement f did, rest)

  pub Gives-select :
      (f : Tables → A) (k : A → M B) {t t' : Tables} {b : B}
      → Gives (select f >>= k) t b t'
      → Gives (k (f t)) t b t'
  Gives-select f k {t} {t'} {b} g =
      let (r, e, rest) = Gives-step (λ u. some (f u, u)) k g in
      subst (λ (r : A × Tables). Gives (k r.0) r.1 b t') (sym (eq_of_some e)) rest

pub Gives-exec_then :
    {B : Type 0} (f : Tables → Tables) (k : M B) {t t' : Tables} {b : B}
    → Gives (exec f >> k) t b t'
    → Gives k (f t) b t'
Gives-exec_then f k {t} {t'} {b} g =
    let (r, e, rest) = Gives-step (λ u. some (tt, f u)) (λ _. k) g in
    subst (λ (s : Tables). Gives k s b t')
      (ap (λ (q : Unit {0} × Tables). q.1) (sym (eq_of_some e))) rest
