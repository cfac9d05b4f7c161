-- ===== src/Caseflow/Examples.antt =====
-- Tests of internal/caseflow/repository.go, and instances of its theorems on one small case.
mod Starting
mod Access
use nsw_srilanka.Caseflow.Repository.Attributes.{
  shared_attributes, shared_attributes_lem, entry, attributes_in,
}
use mathlib.Core.Option
use nsw_srilanka.Common.{
  contains, ℕ, String, ◌==◌, if◌then◌else◌, is_some, is_blank, lookup, In, here, ◌⊎◌, ◌↔◌, Option,
  none, some, List, [], ◌∷◌, Bool, true, false, ◌≡◌, refl, inl, inr, Dict,
}
use nsw_srilanka.Common.Value.{Value, str, Fields, end, field}
use nsw_srilanka.Principal.{Principal, user, client}
use nsw_srilanka.Caseflow.Rows.{
  starting, started, completed, in_progress, finished, Flow, CaseRow, Db, Owner, CaseInfo, Err,
  database, invalid_request, unknown_template,
}
use nsw_srilanka.Caseflow.Exec.{Result, ok, err, Session, calm, with_tx, stmt}
use nsw_srilanka.Caseflow.Repository.{
  find_flow, has_pending, record_flow, mark_started, mark_completed, list_by_case, to_started,
}
use nsw_srilanka.Caseflow.Repository.Invariant.{IsConsistent}
use nsw_srilanka.Caseflow.Repository.Recording.Effect.{WasRecorded}
use nsw_srilanka.Caseflow.Repository.Recording.Laws.{record_first, record_atomic, record_repeat}
use nsw_srilanka.Caseflow.Repository.Completion.{
  mark_completed_atomic, mark_completed_found, mark_completed_lem, mark_completed_again,
}
use nsw_srilanka.Caseflow.Repository.Starting.{mark_started_keeps, mark_started_lem, reported}
use nsw_srilanka.Caseflow.Repository.Flows.{case_state}
use nsw_srilanka.Caseflow.Repository.History.{
  no_rows, Call, records, starts, completes, perform_all, history-IsConsistent,
}

abbrev pub permit : Flow
permit = record {
  workflow_id = "w1";
  case_id = "c1";
  template_id = "permit";
  manifest_version = 3;
  status = starting;
  payload = none;
}

abbrev pub agency : Owner
agency = record { role = "importer"; ou_handle = "acme" }

abbrev details : CaseInfo
details = record { attributes = field "ref" (str "A-1") end; name = "first" }

abbrev calls : List Call
calls = records permit (some agency) (some details) ∷ starts "w1" ∷ completes "w1" ∷ []

-- the second statement of the history fails
abbrev one_fault : List Bool
one_fault = false ∷ false ∷ true ∷ []

test_first : (record_flow permit (some agency) (some details) (calm no_rows)).0 ≡ ok tt
unfolding record_flow with_tx
test_first = refl

history-IsConsistent_example :
    IsConsistent (perform_all calls (record { db = no_rows; faults = one_fault })).db
history-IsConsistent_example = history-IsConsistent calls one_fault

record_first_example :
    WasRecorded permit
      (some agency)
      (some details)
      no_rows
      (record_flow permit (some agency) (some details) (calm no_rows)).1.db
unfolding record_flow find_flow with_tx
record_first_example = record_first permit (some agency) (some details) (calm no_rows) refl refl

-- the tables with the flow recorded
abbrev recorded_once : Db
unfolding record_flow with_tx
recorded_once = (record_flow permit (some agency) (some details) (calm no_rows)).1.db

record_repeat_example :
    (record_flow (record permit { case_id = "c2" }) none none (calm recorded_once)).1.db
    ≡ recorded_once
unfolding record_flow find_flow with_tx
record_repeat_example =
    record_repeat (record permit { case_id = "c2" }) none none (calm recorded_once) permit refl

-- the tables with the flow completed
abbrev completed_once : Db
unfolding mark_completed with_tx
completed_once = (mark_completed "w1" (calm recorded_once)).1.db

recorded_once-IsConsistent : IsConsistent recorded_once
unfolding recorded_once record_flow
recorded_once-IsConsistent =
    history-IsConsistent (records permit (some agency) (some details) ∷ []) []

test_finished : has_pending "c1" completed_once.flows ≡ false
unfolding has_pending record_flow mark_completed with_tx
test_finished = refl

mark_completed_lem_example :
    let new = (mark_completed "w1" (calm recorded_once)).1.db in
    (find_flow "w1" new.flows ≡ some (record permit { status = completed }))
    × ((v : String) → ("w1" == v) ≡ false → find_flow v new.flows ≡ find_flow v recorded_once.flows)
    × ((r : CaseRow)
        → new.cases "c1" ≡ some r
        → r.state ≡ (if has_pending "c1" new.flows then in_progress else finished))
unfolding record_flow mark_completed find_flow with_tx
mark_completed_lem_example =
    mark_completed_lem "w1" (calm recorded_once) permit recorded_once-IsConsistent refl refl

-- the connection of a completion whose third statement fails
abbrev failing : Session
failing = record { db = recorded_once; faults = one_fault }
