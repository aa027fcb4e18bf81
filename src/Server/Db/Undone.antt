-- ===== src/Server/Db/Undone.antt =====
-- What a transaction leaves on the connection, whichever statements sqlite refuses.
use secd.Base.{
  ◌≡◌, refl, Bool, true, false, Option, none, some, List, [], ◌∷◌, ◌⊎◌, inl, inr, ap, sym, ◌∙◌,
}
use secd.Server.Db.Atomic.{begin_tables}
use secd.Server.Db.{
  Conn, Tables, M, ◌>>=◌, pure, continue, statement, run_on, commit_to, exec_begin, exec_commit,
  exec_rollback, after_commit, finished, immediate, stored, stored_in,
}

-- The closure runs no BEGIN, COMMIT or ROLLBACK.
pub record IsWithin {A : Type 0} (m : M A) : Type 0 where
  pub kept : (c : Conn) → (m c).1.open_from ≡ c.open_from

-- How a transaction that began on `b` came to its ROLLBACK on `e`: the closure failed, or COMMIT did.
pub data Aborted {A : Type 0} (m : M A) (b e : Conn) : Type 0 where
  failed : (m b).0 ≡ none → e ≡ (m b).1 → Aborted m b e
  uncommitted :
      (v : A)
      → (m b).0 ≡ some v
      → (exec_commit (m b).1).0 ≡ none
      → e ≡ (exec_commit (m b).1).1
      → Aborted m b e

-- The outcomes of a transaction: `r` is its result and the connection that it leaves.
pub data Outcome {A : Type 0} (m : M A) (c : Conn) (r : Option A × Conn) : Type 0 where
  not_begun :
      r.0 ≡ none
      → (exec_begin c).0 ≡ none
      → r.1.tables ≡ c.tables
      → r.1.open_from ≡ c.open_from
      → Outcome m c r
  committed :
      (v : A)
      → r.0 ≡ some v
      → c.open_from ≡ none
      → (exec_begin c).1.tables ≡ c.tables
      → (m (exec_begin c).1).0 ≡ some v
      → r.1.tables ≡ (m (exec_begin c).1).1.tables
      → r.1.open_from ≡ none
      → Outcome m c r
  undone :
      (e : Conn)
      → r.0 ≡ none
      → c.open_from ≡ none
      → Aborted m (exec_begin c).1 e
      → r.1.tables ≡ c.tables
      → r.1.open_from ≡ none
      → Outcome m c r
  left_open :
      (e : Conn)
      → r.0 ≡ none
      → c.open_from ≡ none
      → Aborted m (exec_begin c).1 e
      → (exec_rollback e).0 ≡ none
      → r.1.open_from ≡ some c.tables
      → Outcome m c r

begin_cases_from :
    (t : Tables) (o : Option Tables) (fs : List Bool)
    → let c : Conn = record { tables = t; open_from = o; faults = fs } in
      (((exec_begin c).0 ≡ none) × ((exec_begin c).1.open_from ≡ o))
      ⊎ (((exec_begin c).0 ≡ some tt) × (o ≡ none) × ((exec_begin c).1.open_from ≡ some t))
unfolding exec_begin
begin_cases_from t none [] = inr (refl, refl, refl)
begin_cases_from t (some _) [] = inl (refl, refl)
begin_cases_from t o (true ∷ fs) = inl (refl, refl)
begin_cases_from t none (false ∷ fs) = inr (refl, refl, refl)
begin_cases_from t (some _) (false ∷ fs) = inl (refl, refl)

commit_cases_from :
    (t u : Tables) (o : Option Tables) (fs : List Bool)
    → o ≡ some t
    → let e : Conn = record { tables = u; open_from = o; faults = fs } in
      (((exec_commit e).0 ≡ some tt)
        × ((exec_commit e).1.tables ≡ u)
        × ((exec_commit e).1.open_from ≡ none))
      ⊎ (((exec_commit e).0 ≡ none) × ((exec_commit e).1.open_from ≡ some t))
unfolding exec_commit
commit_cases_from t u none fs h = absurd (cc)
commit_cases_from t u (some _) [] h = inl (refl, refl, refl)
commit_cases_from t u (some _) (true ∷ fs) h = inr (refl, h)
commit_cases_from t u (some _) (false ∷ fs) h = inl (refl, refl, refl)

rollback_cases_from :
    (t u : Tables) (o : Option Tables) (fs : List Bool)
    → o ≡ some t
    → let e : Conn = record { tables = u; open_from = o; faults = fs } in
      (((exec_rollback e).1.tables ≡ t) × ((exec_rollback e).1.open_from ≡ none))
      ⊎ (((exec_rollback e).0 ≡ none) × ((exec_rollback e).1.open_from ≡ some t))
unfolding exec_rollback
rollback_cases_from t u none fs h = absurd (cc)
rollback_cases_from t u (some _) [] h = inl (cc, refl)
rollback_cases_from t u (some _) (true ∷ fs) h = inr (refl, h)
rollback_cases_from t u (some _) (false ∷ fs) h = inl (cc, refl)

module _ {A : Type 0} (m : M A) (c : Conn) where
  -- ROLLBACK on `e`, whose error is ignored.
  aborted_lem :
      (e : Conn)
      → c.open_from ≡ none
      → Aborted m (exec_begin c).1 e
      → e.open_from ≡ some c.tables
      → (r : Option A × Conn) → r ≡ (none, (exec_rollback e).1)
      → Outcome m c r
  aborted_lem e shut why o r is =
      elim (rollback_cases_from c.tables e.tables e.open_from e.faults o) [
        | inl (back, ended) ↦
            undone e (ap (λ (r : Option A × Conn). r.0) is) shut why
              (ap (λ (r : Option A × Conn). r.1.tables) is ∙ back)
              (ap (λ (r : Option A × Conn). r.1.open_from) is ∙ ended)
        | inr (refused, still) ↦
            left_open e (ap (λ (r : Option A × Conn). r.0) is) shut why refused
              (ap (λ (r : Option A × Conn). r.1.open_from) is ∙ still)
      ]

  after_commit_lem :
      (v : A) (e : Conn) (q : Option (Unit {0}) × Conn)
      → m (exec_begin c).1 ≡ (some v, e)
      → exec_commit e ≡ q
      → c.open_from ≡ none
      → (exec_begin c).1.tables ≡ c.tables
      → ((q.0 ≡ some tt) × (q.1.tables ≡ e.tables) × (q.1.open_from ≡ none))
        ⊎ ((q.0 ≡ none) × (q.1.open_from ≡ some c.tables))
      → Outcome m c (after_commit v q)
  after_commit_lem v e (some _, d) ran took shut same (inl k) =
      committed v refl shut same (ap (λ (r : Option A × Conn). r.0) ran)
        (k.1 ∙ ap (λ (r : Option A × Conn). r.1.tables) (sym ran)) k.2
  after_commit_lem v e (none, d) ran took shut same (inr k) =
      let at : (m (exec_begin c).1).1 ≡ e = ap (λ (r : Option A × Conn). r.1) ran in
      aborted_lem d shut
        (uncommitted v (ap (λ (r : Option A × Conn). r.0) ran)
          (ap (λ (e : Conn). (exec_commit e).0) at
            ∙ ap (λ (q : Option (Unit {0}) × Conn). q.0) took)
          (sym (
            ap (λ (e : Conn). (exec_commit e).1) at
            ∙ ap (λ (q : Option (Unit {0}) × Conn). q.1) took)))
        k.1 _ refl
  after_commit_lem v e (some _, d) ran took shut same (inr k) = absurd (let no = k.0 in cc)
  after_commit_lem v e (none, d) ran took shut same (inl k) = absurd (let no = k.0 in cc)

  finished_lem :
      (r : Option A × Conn)
      → m (exec_begin c).1 ≡ r
      → r.1.open_from ≡ some c.tables
      → c.open_from ≡ none
      → (exec_begin c).1.tables ≡ c.tables
      → Outcome m c (finished r)
  finished_lem (none, e) ran o shut same =
      aborted_lem e shut
        (failed (ap (λ (r : Option A × Conn). r.0) ran)
          (ap (λ (r : Option A × Conn). r.1) (sym ran)))
        o _ refl
  finished_lem (some v, e) ran o shut same =
      after_commit_lem v e (exec_commit e) ran refl shut same
        (commit_cases_from c.tables e.tables e.open_from e.faults o)

  begun_lem :
      (b : Option (Unit {0}) × Conn)
      → exec_begin c ≡ b
      → IsWithin m
      → (exec_begin c).1.tables ≡ c.tables
      → ((b.0 ≡ none) × (b.1.open_from ≡ c.open_from))
        ⊎ ((b.0 ≡ some tt) × (c.open_from ≡ none) × (b.1.open_from ≡ some c.tables))
      → Outcome m c (continue b.0 (λ _. λ d. finished (m d)) b.1)
  begun_lem (none, d) ran w same (inl k) =
      not_begun refl (ap (λ (b : Option (Unit {0}) × Conn). b.0) ran)
        (ap (λ (b : Option (Unit {0}) × Conn). b.1.tables) (sym ran) ∙ same) k.1
  begun_lem (some _, d) ran w same (inr k) =
      let at : (exec_begin c).1 ≡ d = ap (λ (b : Option (Unit {0}) × Conn). b.1) ran in
      finished_lem (m d) (ap m at) (w.kept d ∙ k.2) k.1 same
  begun_lem (none, d) ran w same (inr k) = absurd (let no = k.0 in cc)
  begun_lem (some _, d) ran w same (inl k) = absurd (let no = k.0 in cc)

  -- A transaction whose closure runs no statement that opens or ends one has one of four outcomes,
  -- whatever the closure does and whichever statements sqlite refuses. BEGIN was refused, and nothing
  -- has changed. The closure returned a value and COMMIT was taken: the value and the tables are the
  -- closure's. The closure failed, or COMMIT did, and ROLLBACK was taken: every table is what it was,
  -- and no transaction is open. Or that ROLLBACK was refused: the transaction stays open, and it is the
  -- tables from before it that the database holds.
  pub immediate_atomic : IsWithin m → Outcome m c (immediate m c)
  unfolding immediate
  immediate_atomic w =
      begun_lem (exec_begin c) refl w (begin_tables c)
        (begin_cases_from c.tables c.open_from c.faults)

-- What the database holds after a transaction that returned an error is what it held before.
pub Outcome-stored :
    {A : Type 0} (m : M A) (c : Conn) (r : Option A × Conn)
    → Outcome m c r
    → r.0 ≡ none
    → stored r.1 ≡ stored c
Outcome-stored m c r (not_begun _ _ t o) h =
    ap (λ x. stored_in x r.1.tables) o ∙ ap (stored_in c.open_from) t
Outcome-stored m c r (committed v some_v _ _ _ _ _) h = absurd (let e = sym h ∙ some_v in cc)
Outcome-stored m c r (undone e _ shut _ t o) h =
    ap (λ x. stored_in x r.1.tables) o ∙ t ∙ sym (ap (λ x. stored_in x c.tables) shut)
Outcome-stored m c r (left_open e _ shut _ _ o) h =
    ap (λ x. stored_in x r.1.tables) o ∙ sym (ap (λ x. stored_in x c.tables) shut)

-- A transaction that returned a value began with none open, and left none open.
pub Outcome-shut :
    {A : Type 0} (m : M A) (c : Conn) (r : Option A × Conn) {a : A}
    → Outcome m c r
    → r.0 ≡ some a
    → (c.open_from ≡ none) × (r.1.open_from ≡ none)
Outcome-shut m c r (committed _ _ shut _ _ _ o) h = (shut, o)
Outcome-shut m c r (not_begun error _ _ _) h = absurd (let e = sym h ∙ error in cc)
Outcome-shut m c r (undone _ error _ _ _ _) h = absurd (let e = sym h ∙ error in cc)
Outcome-shut m c r (left_open _ error _ _ _ _) h = absurd (let e = sym h ∙ error in cc)

-- The closures that the program runs are built from statements.
pub pure-IsWithin : {A : Type 0} (a : A) → IsWithin (pure a)
pure-IsWithin a = record { kept = λ c. refl }

module _ {A : Type 0} (f : Tables → Option (A × Tables)) where
  commit_to-open_from :
      (o : Option (A × Tables)) (c : Conn) → (commit_to o c).1.open_from ≡ c.open_from
  commit_to-open_from none c = refl
  commit_to-open_from (some _) c = refl

  run_on-open_from : (fs : List Bool) (c : Conn) → (run_on fs f c).1.open_from ≡ c.open_from
  run_on-open_from [] c = commit_to-open_from (f c.tables) c
  run_on-open_from (true ∷ fs) c = refl
  run_on-open_from (false ∷ fs) c = commit_to-open_from (f c.tables) (record c { faults = fs })

  pub statement-IsWithin : IsWithin (statement f)
  unfolding statement
  statement-IsWithin = record { kept = λ c. run_on-open_from c.faults c }

module _ {A B : Type 0} where
  continue-open_from :
      (o : Option A) (f : A → M B) (c : Conn)
      → ((a : A) → IsWithin (f a))
      → (continue o f c).1.open_from ≡ c.open_from
  continue-open_from none f c k = refl
  continue-open_from (some a) f c k = (k a).kept c

  pub bind-IsWithin :
      (m : M A) (f : A → M B) → IsWithin m → ((a : A) → IsWithin (f a)) → IsWithin (m >>= f)
  bind-IsWithin m f km kf = record {
    kept = λ c. continue-open_from (m c).0 f (m c).1 kf ∙ km.kept c;
  }
