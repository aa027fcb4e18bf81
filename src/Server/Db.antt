-- ===== src/Server/Db.antt =====
-- crates/secd-web/src/db.rs: the tables of the one sqlite database and its transactions. Sqlite runs
-- a statement whole or refuses it; which statements it refuses, BEGIN, COMMIT and ROLLBACK among them, is
-- an input, the list `faults`.
pub mod Atomic
pub mod Undone
use secd.Base.{ℕ, ◌+◌, Bool, true, false, ◌&&◌, ◌||◌, Option, none, some, List, [], ◌∷◌}
use secd.Base.Text.{Str}

pub record SessionRow : Type 0 where
  pub token_hash : Str
  pub id : Str
  pub email : Str
  pub kind : Str
  pub label : Str
  pub created : ℕ
  pub last_seen : ℕ
  pub expires : ℕ

-- `seq` of the table is the place in the list: rows of this table are only ever appended.
pub record AuditRow : Type 0 where
  pub action : Str
  pub session_id : Option Str
  pub names : Str
  pub prev_hash : Str
  pub hash : Str

pub record EntryRow : Type 0 where
  pub name : Str
  pub ciphertext : Str
  pub meta : Str

pub record VersionRow : Type 0 where
  pub name : Str
  pub seq : ℕ
  pub ciphertext : Str
  pub meta : Str
  pub created : Str

pub record WrapRow : Type 0 where
  pub factor : Str
  pub cred_id : Option Str
  pub salt : Option Str
  pub blob : Str

pub record ProviderRow : Type 0 where
  pub name : Str
  pub title : Str
  pub fields : Str

pub record Tables : Type 0 where
  pub entries : List EntryRow
  pub versions : List VersionRow
  pub wraps : List WrapRow
  pub custom_providers : List ProviderRow
  pub audit : List AuditRow
  pub sessions : List SessionRow

-- `RawConn`: the tables that it sees; while a transaction is open, the tables from before its BEGIN;
-- and for each coming statement whether sqlite refuses it, where no entry is no refusal.
pub record Conn : Type 0 where
  pub tables : Tables
  pub open_from : Option Tables
  pub faults : List Bool

-- A computation on the connection; `none` is `Err`.
abbrev pub M : Type 0 → Type 0
M A = Conn → Option A × Conn

abbrev pub continue : {A B : Type 0} → Option A → (A → M B) → M B
continue none f c = (none, c)
continue (some a) f c = f a c

infixl 5 ◌>>=◌ ◌>>◌
abbrev pub ◌>>=◌ : {A B : Type 0} → M A → (A → M B) → M B
◌>>=◌ m f c = let (r, d) = m c in continue r f d

abbrev pub ◌>>◌ : {A B : Type 0} → M A → M B → M B
m >> k = m >>= λ _. k

abbrev pub pure : {A : Type 0} → A → M A
pure a c = (some a, c)

abbrev pub fail : {A : Type 0} → M A
fail c = (none, c)

-- A statement's effect and result, or `none` where it violates a constraint.
abbrev pub commit_to : {A : Type 0} → Option (A × Tables) → Conn → Option A × Conn
commit_to none c = (none, c)
commit_to (some (a, t)) c = (some a, record c { tables = t })

abbrev pub run_on :
    {A : Type 0} → List Bool → (Tables → Option (A × Tables)) → Conn → Option A × Conn
run_on [] f c = commit_to (f c.tables) c
run_on (true ∷ rest) f c = (none, record c { faults = rest })
run_on (false ∷ rest) f c = commit_to (f c.tables) (record c { faults = rest })

-- `prepare`, the binds and `step` of one statement.
unfoldable pub statement : {A : Type 0} → (Tables → Option (A × Tables)) → M A
statement f c = run_on c.faults f c

abbrev pub select : {A : Type 0} → (Tables → A) → M A
select f = statement (λ t. some (f t, t))

abbrev pub exec : (Tables → Tables) → M (Unit {0})
exec f = statement (λ t. some (tt, f t))

-- What the database holds: the changes of an open transaction are not in it.
abbrev pub stored_in : Option Tables → Tables → Tables
stored_in none t = t
stored_in (some before) t = before

abbrev pub stored : Conn → Tables
stored c = stored_in c.open_from c.tables

-- A statement that opens or ends a transaction.
abbrev pub took : Option Conn → Conn → Option (Unit {0}) × Conn
took none c = (none, c)
took (some d) c = (some tt, d)

abbrev pub control_on : List Bool → (Conn → Option Conn) → M (Unit {0})
control_on [] f c = took (f c) c
control_on (true ∷ rest) f c = (none, record c { faults = rest })
control_on (false ∷ rest) f c = let d = record c { faults = rest } in took (f d) d

-- There is one transaction at a time on a connection.
abbrev pub open_with : Option Tables → Conn → Option Conn
open_with none c = some (record c { open_from = some c.tables })
open_with (some _) c = none

abbrev pub keep_with : Option Tables → Conn → Option Conn
keep_with none c = none
keep_with (some _) c = some (record c { open_from = none })

abbrev pub restore_with : Option Tables → Conn → Option Conn
restore_with none c = none
restore_with (some before) c = some (record c { tables = before; open_from = none })

-- `exec("BEGIN IMMEDIATE")`, `exec("COMMIT")` and `exec("ROLLBACK")`
unfoldable pub exec_begin : M (Unit {0})
exec_begin c = control_on c.faults (λ d. open_with d.open_from d) c

unfoldable pub exec_commit : M (Unit {0})
exec_commit c = control_on c.faults (λ d. keep_with d.open_from d) c

unfoldable pub exec_rollback : M (Unit {0})
exec_rollback c = control_on c.faults (λ d. restore_with d.open_from d) c

-- The drop of the guard where the closure failed: the error of ROLLBACK is ignored.
abbrev pub guard_dropped : {A : Type 0} → Conn → Option A × Conn
guard_dropped c = (none, (exec_rollback c).1)

-- `match self.exec("COMMIT")`: where it fails, ROLLBACK, whose error is ignored.
abbrev pub after_commit : {A : Type 0} → A → Option (Unit {0}) × Conn → Option A × Conn
after_commit v (some _, c) = (some v, c)
after_commit v (none, c) = (none, (exec_rollback c).1)

abbrev pub finished : {A : Type 0} → Option A × Conn → Option A × Conn
finished (none, c) = guard_dropped c
finished (some v, c) = after_commit v (exec_commit c)

-- `RawConn::immediate`; a panic of the closure is left out.
unfoldable pub immediate : {A : Type 0} → M A → M A
unfolding exec_begin exec_commit exec_rollback
immediate m = exec_begin >> (λ c. finished (m c))
