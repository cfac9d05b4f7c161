-- ===== src/Caseflow/Exec.antt =====
-- Operations on a state that may fail, and the database sessions of internal/caseflow: each SQL
-- statement may fail, and a transaction that fails leaves the tables as they were.
pub mod Robust
use nsw_srilanka.Common.{Bool, true, false, List, [], ◌∷◌}
use nsw_srilanka.Caseflow.Rows.{Db, Err, database}

pub data Result (A : Type 0) : Type 0 where
  ok : A → Result A
  err : Err → Result A

abbrev pub Exec : Type 0 → Type 0 → Type 0
Exec S A = S → Result A × S

abbrev pub pure : {S A : Type 0} → A → Exec S A
pure a s = (ok a, s)

abbrev pub raise : {S A : Type 0} → Err → Exec S A
raise e s = (err e, s)

abbrev pub and_then : {S A B : Type 0} → Result A → (A → Exec S B) → Exec S B
and_then (ok a) f s = f a s
and_then (err e) f s = (err e, s)

infixl 5 ◌>>=◌ ◌>>◌
abbrev pub ◌>>=◌ : {S A B : Type 0} → Exec S A → (A → Exec S B) → Exec S B
◌>>=◌ m f s = and_then (m s).0 f (m s).1

abbrev pub ◌>>◌ : {S A B : Type 0} → Exec S A → Exec S B → Exec S B
m >> k = m >>= λ _. k

-- A connection: the tables, and which of the statements to come fail.
pub record Session : Type 0 where
  pub db : Db
  pub faults : List Bool

abbrev pub Tx : Type 0 → Type 0
Tx A = Exec Session A

attempt : {A : Type 0} → (Db → A × Db) → Db → List Bool → Result A × Session
attempt f db [] = (ok (f db).0, record { db = (f db).1; faults = [] })
attempt f db (true ∷ rest) = (err database, record { db = db; faults = rest })
attempt f db (false ∷ rest) = (ok (f db).0, record { db = (f db).1; faults = rest })

-- One SQL statement.
unfoldable pub stmt : {A : Type 0} → (Db → A × Db) → Tx A
unfolding attempt
stmt f s = attempt f s.db s.faults

settle : {A : Type 0} → Db → Result A × Session → Result A × Session
settle before (ok a, s) = (ok a, s)
settle before (err e, s) = (err e, record s { db = before })

abbrev no_op : Db → Unit {0} × Db
no_op db = (tt, db)

-- withTx: BeginTx, fn, Commit, and the deferred Rollback. A commit that reports an error is
-- taken as not applied.
unfoldable pub with_tx : {A : Type 0} → Tx A → Tx A
unfolding settle stmt
with_tx fn s = settle s.db ((do stmt no_op; a ← fn; stmt no_op; pure a) s)

-- The connection on which nothing fails.
abbrev pub calm : Db → Session
calm db = record { db = db; faults = [] }
