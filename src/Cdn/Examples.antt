-- ===== src/Cdn/Examples.antt =====
-- Tests and instances for the callbacks about a dispatch note.
use nsw_srilanka.Common.{String, Bool, true, Option, none, some, List, [], ◌∷◌, ◌≡◌, refl, In, here}
use nsw_srilanka.Common.Value.{Fields}
use nsw_srilanka.Cdn.{
  Reference, submitted, integrated, cancelled, DispatchNote, done, IntegrationResult, World,
}
use nsw_srilanka.Cdn.Parked.{TaskRecord}
use nsw_srilanka.Cdn.Callbacks.{
  Wiring, process_integration_result, process_cancellation, process_acknowledgment,
}
use nsw_srilanka.Cdn.Callbacks.Moves.Histories.{
  result, acknowledgment, cancellation, handle_all, IsLater, handle_all-IsLater,
}
use nsw_srilanka.Cdn.Callbacks.Release.{Wired}
use nsw_srilanka.Cdn.Callbacks.Answered.{Applied, integration-Released}
use nsw_srilanka.Common.Tables.{first_row}

-- An engine that holds its parked tasks: a completed step leaves none.
abbrev Tasks : Type 0
Tasks = List TaskRecord

abbrev load : Tasks → String → Option Tasks
load ts c = some ts

abbrev complete : String → String → Fields → Tasks → Bool × Tasks
complete t step payload ts = (true, [])

abbrev wiring : Wiring Tasks
wiring = record {
  tasks = some load;
  complete = some complete;
  flows = none;
  describe_errors = λ e. e;
  digest = λ t. "d";
}

abbrev waiting : TaskRecord
waiting = record {
  task_id = "t1";
  state = "QUEUED_EXTERNALLY";
  active_step_id = "s1";
  parent_workflow_id = "w1";
  active_task_template_id = "customs-cdn--integration-wait";
}

abbrev note : DispatchNote
note = record {
  id = "n1";
  edge_id = "e1";
  status = submitted;
  ref = record { year = ""; office = ""; serial = ""; number = 0 };
  errors = "";
  case_id = "c1";
  workflow_id = "w1";
}

abbrev ref : Reference
ref = record { year = "2025"; office = "CBEX1"; serial = "E"; number = 7 }

abbrev answer : IntegrationResult
answer = record { edge_id = "e1"; integrated = true; cdn_ref = ref; errors = "" }

abbrev world : List DispatchNote → Tasks → World Tasks
world ns ts = record { notes = ns; faults = []; engine = ts }

abbrev registered : DispatchNote
registered = record note { status = integrated; ref = ref }

test_result :
    process_integration_result wiring answer (world (note ∷ []) (waiting ∷ []))
    ≡ (done, world (registered ∷ []) [])
unfolding process_integration_result
test_result = refl

-- an acknowledgment after the cancellation leaves the note cancelled
test_cancelled :
    (handle_all wiring
      (cancellation ref ∷ acknowledgment ref ∷ [])
      (record (world (registered ∷ []) []) {
        engine = record waiting { active_task_template_id = "customs-wait-cdn-ack" } ∷ [];
      })).notes
    ≡ record registered { status = cancelled } ∷ []
unfolding process_cancellation process_acknowledgment
test_cancelled = refl

handle_all-IsLater_example :
    (m : DispatchNote) × In m
      (handle_all wiring
        (result answer ∷ cancellation ref ∷ [])
        (world (note ∷ []) (waiting ∷ []))).notes
    × IsLater note m
handle_all-IsLater_example =
    handle_all-IsLater wiring (result answer ∷ cancellation ref ∷ [])
      (world (note ∷ []) (waiting ∷ [])) note (λ m. elim m [ ], tt) here

abbrev wired : Wired wiring
wired = record { tasks = load; complete = complete; with_tasks = refl; with_complete = refl }

integration-Released_example :
    Applied wired answer note
      (world (note ∷ []) (waiting ∷ []))
      (process_integration_result wiring answer (world (note ∷ []) (waiting ∷ []))).1
unfolding process_integration_result first_row
integration-Released_example =
    integration-Released wired answer (world (note ∷ []) (waiting ∷ [])) note (λ m. elim m [ ], tt)
      refl refl
