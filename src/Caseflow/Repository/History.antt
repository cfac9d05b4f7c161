-- ===== src/Caseflow/Repository/History.antt =====
-- Every history of calls to internal/caseflow/repository.go.
use nsw_srilanka.Common.{String, Option, none, Bool, List, [], ◌∷◌, refl}
use nsw_srilanka.Caseflow.Rows.{Flow, Db, Owner, CaseInfo}
use nsw_srilanka.Caseflow.Exec.{Session}
use nsw_srilanka.Caseflow.Repository.{ensure_case, record_flow, mark_started, mark_completed}
use nsw_srilanka.Caseflow.Repository.Invariant.{IsConsistent}
use nsw_srilanka.Caseflow.Repository.Recording.Laws.{record_flow-IsConsistent}
use nsw_srilanka.Caseflow.Repository.Completion.{mark_completed-IsConsistent}
use nsw_srilanka.Caseflow.Repository.Starting.{mark_started-IsConsistent, ensure_case-IsConsistent}

abbrev pub no_rows : Db
no_rows = record { cases = λ c. none; flows = []; parties = λ c r. none }

-- The calls that write.
pub data Call : Type 0 where
  ensures : String → Call
  records : Flow → Option Owner → Option CaseInfo → Call
  starts : String → Call
  completes : String → Call

abbrev pub perform : Call → Session → Session
perform (ensures c) s = (ensure_case c s).1
perform (records f o i) s = (record_flow f o i s).1
perform (starts w) s = (mark_started w s).1
perform (completes w) s = (mark_completed w s).1

-- The calls in turn, each whatever the outcome of those before it.
abbrev pub perform_all : List Call → Session → Session
perform_all [] s = s
perform_all (c ∷ cs) s = perform_all cs (perform c s)

perform-IsConsistent : (c : Call) (s : Session) → IsConsistent s.db → IsConsistent (perform c s).db
perform-IsConsistent (ensures c) s h = ensure_case-IsConsistent c s h
perform-IsConsistent (records f o i) s h = record_flow-IsConsistent f o i s h
perform-IsConsistent (starts w) s h = mark_started-IsConsistent w s h
perform-IsConsistent (completes w) s h = mark_completed-IsConsistent w s h

perform_all-IsConsistent :
    (cs : List Call) (s : Session) → IsConsistent s.db → IsConsistent (perform_all cs s).db
perform_all-IsConsistent [] s h = h
perform_all-IsConsistent (c ∷ cs) s h =
    perform_all-IsConsistent cs (perform c s) (perform-IsConsistent c s h)

no_rows-IsConsistent : IsConsistent no_rows
no_rows-IsConsistent = record { referenced = λ c e. refl; exact = λ c r e. cc }

-- After any calls, with any statements failing, a flow's case exists and a case is FINISHED
-- exactly when it has flows and all of them have completed.
pub history-IsConsistent :
    (cs : List Call) (faults : List Bool)
    → IsConsistent (perform_all cs (record { db = no_rows; faults = faults })).db
history-IsConsistent cs faults = perform_all-IsConsistent cs _ no_rows-IsConsistent
