-- ===== src/Cusdec/Examples.antt =====
-- Tests and instances for the callbacks about a declaration.
use nsw_srilanka.Common.{
  String, true, false, none, some, List, [], ◌∷◌, ◌≡◌, refl, In, subst, ◌==◌, ◌<◌,
}
use nsw_srilanka.Common.Tables.{first_row}
use nsw_srilanka.Common.Value.{nil, Fields}
use nsw_srilanka.Document.{Reference}
use nsw_srilanka.Cdn.{same_reference, fails}
use nsw_srilanka.Cdn.Parked.{TaskRecord, Task}
use nsw_srilanka.Cusdec.{
  CusdecStatus, submitted, integrated, paid, released, Declaration, id_of, fresh_row,
  task_not_parked, duplicate_event, invalid_callback, done, failure, World, row, used,
  get_registered_by_case, record_submitted,
}
use nsw_srilanka.Cusdec.Requests.{IntegrationResult, EventRequest}
use nsw_srilanka.Cusdec.Callbacks.{
  Wiring, payment_step, event_step, process_integration_result, process_event,
}
use nsw_srilanka.Cusdec.Notices.{result, serve}
use nsw_srilanka.Cusdec.Histories.{
  Event, dispatched, called_back, handle_all, IsLater, IsGood, handle_all-IsGood,
}
use nsw_srilanka.Cusdec.Release.Steps.{Completed}
use nsw_srilanka.Cusdec.Release.{event_once}
use nsw_srilanka.Cdn.Parked.Waiting.{IsParkedIn}
use nsw_srilanka.Cusdec.Told.{place, Answered, Reports}
use nsw_srilanka.Cusdec.Applied.{Steps, Tells, integration_applied, event_applied}
use nsw_srilanka.Common.Tables.Replacing.{Replaced}

-- An engine that holds its parked tasks: a completed step leaves none.
abbrev Tasks : Type 0
Tasks = List TaskRecord

abbrev wiring : Wiring Tasks
wiring = record {
  tasks = λ ts c. some ts;
  complete = λ t step payload ts. (true, []);
  flows = some (λ c template id vars ts. (true, ts));
  describe_errors = λ e. e;
  digest = λ t. "d";
}

abbrev waiting_on : String → TaskRecord
waiting_on template = record {
  task_id = "t1";
  state = "QUEUED_EXTERNALLY";
  active_step_id = "s1";
  parent_workflow_id = "w1";
  active_task_template_id = template;
}

abbrev ref : Reference
ref = record { year = "2026"; office = "CBEX1"; serial = "E"; number = 1207 }

abbrev sent : Declaration
sent = fresh_row "d1" "e1" "c1" "w1" 5

abbrev accepted : IntegrationResult
accepted = record {
  edge_id = "e1";
  integrated = true;
  event = "CUSDEC_INTEGRATED";
  process_at = 7;
  ref = ref;
  total_assessed = some "500";
  amount_paid = none;
  amount_payable = some "500";
  duties = record { global_duties = nil; item_duties = nil };
  errors = "";
}

abbrev payment : EventRequest
payment = record {
  event = "PAYMENT_CONFIRMED";
  process_at = 9;
  ref = ref;
  amount_paid = "500";
  currency = "LKR";
  bank_reference = "B1";
  release_order_no = "";
  vessel_name = "";
  voyage_no = "";
  port_of_loading = "";
}

abbrev before : World Tasks
before = record {
  declarations = sent ∷ [];
  faults = [];
  engine = waiting_on "customs-cusdec--external-review" ∷ [];
}

abbrev registered : Declaration
registered = record sent { status = integrated; ref = ref }

abbrev owing : World Tasks
owing = record {
  declarations = registered ∷ [];
  faults = [];
  engine = waiting_on "customs-wait-payment" ∷ [];
}

recorded :
    process_integration_result wiring accepted before
    ≡ (done, record { declarations = registered ∷ []; faults = []; engine = [] })
unfolding process_integration_result first_row
recorded = refl

unparked :
    (process_integration_result wiring accepted (record before { engine = [] })).0
    ≡ failure task_not_parked
unfolding process_integration_result first_row
unparked = refl

-- A result for integration without its assessment is refused.
unassessed :
    serve wiring (result (record accepted { amount_payable = none })) before
    ≡ (failure invalid_callback, before)
unfolding serve
unassessed = refl

settled : process_event wiring payment owing ≡ (
  done,
  record { declarations = record registered { status = paid } ∷ []; faults = []; engine = [] },
)
unfolding process_event first_row
settled = refl

-- A payment that is told after the release does not take the declaration back.
told_late :
    process_event wiring payment
      (record owing { declarations = record registered { status = released } ∷ [] })
    ≡ (
      failure duplicate_event,
      record owing { declarations = record registered { status = released } ∷ [] },
    )
unfolding process_event first_row
told_late = refl

empty_table : IsGood []
empty_table = record { ids = tt; sound = λ d m. elim m [ ] }

abbrev nothing_yet : World Tasks
nothing_yet = record { declarations = []; faults = []; engine = [] }

abbrev one_dispatch : List Event
one_dispatch = dispatched "d1" "e1" "c1" "w1" 5 ∷ []

abbrev sent_world : World Tasks
sent_world = record { declarations = sent ∷ []; faults = []; engine = [] }

sent_table : IsGood (sent ∷ [])
sent_table =
    subst (λ (w : World Tasks). IsGood w.declarations) dispatch
      (handle_all-IsGood wiring one_dispatch nothing_yet empty_table).0
  where
    dispatch : handle_all wiring one_dispatch nothing_yet ≡ sent_world
    dispatch = unfold record_submitted in refl

registered_table : IsGood (registered ∷ [])
registered_table =
    subst (λ (w : World Tasks). IsGood w.declarations) answered
      (handle_all-IsGood wiring (called_back (result accepted) ∷ []) before sent_table).0
  where
    answered :
        handle_all wiring (called_back (result accepted) ∷ []) before
        ≡ record { declarations = registered ∷ []; faults = []; engine = [] }
    answered = unfold serve process_integration_result first_row in refl

handle_all-IsGood_example :
    IsGood (handle_all wiring (called_back (result accepted) ∷ []) before).declarations
    × ((d : Declaration)
        → In d (sent ∷ [])
        → (e : Declaration) × In e
            (handle_all wiring (called_back (result accepted) ∷ []) before).declarations
          × IsLater d e)
handle_all-IsGood_example =
    handle_all-IsGood wiring (called_back (result accepted) ∷ []) before sent_table

found_by_edge : first_row (λ (x : Declaration). x.edge_id == "e1") (sent ∷ []) ≡ some sent
unfolding first_row
found_by_edge = refl

found_by_ref :
    first_row (λ (x : Declaration). same_reference x.ref ref) (registered ∷ []) ≡ some registered
unfolding first_row
found_by_ref = refl

applied : (process_integration_result wiring accepted before).0 ≡ done
unfolding process_integration_result first_row
applied = refl

payment_event : event_step payment ≡ some (payment_step payment)
unfolding event_step
payment_event = refl

paid_now : (process_event wiring payment owing).0 ≡ done
unfolding process_event first_row
paid_now = refl

calm_result : fails (process_integration_result wiring accepted before).1.faults ≡ false
unfolding process_integration_result first_row
calm_result = refl

calm_event : fails (process_event wiring payment owing).1.faults ≡ false
unfolding process_event first_row
calm_event = refl

found_by_case : (get_registered_by_case "c1" owing).0 ≡ row registered
unfolding get_registered_by_case
found_by_case = refl

integration_applied_example :
    (sent.status ≡ submitted)
    × ((t : Task) × (payload : Fields) × IsParkedIn
          (wiring.tasks before.engine)
          "c1"
          "w1"
          "customs-cusdec--external-review"
          t
        × Tells wiring accepted payload
        × Completed wiring t payload before.engine
            (process_integration_result wiring accepted before).1.engine)
    × ((new : Declaration) × Answered accepted sent new
        × Replaced id_of sent new
            (sent ∷ [])
            (process_integration_result wiring accepted before).1.declarations)
integration_applied_example =
    integration_applied wiring accepted before sent sent_table.ids found_by_edge applied

event_applied_example :
    (template : String) × (target : CusdecStatus) × (payload : Fields) × Reports payment template
      target payload
    × (place registered.status < place target)
    × Steps wiring registered template payload owing (process_event wiring payment owing).1
    × Replaced id_of registered
        (record registered { status = target })
        (registered ∷ [])
        (process_event wiring payment owing).1.declarations
event_applied_example =
    event_applied wiring payment owing registered registered_table.ids found_by_ref paid_now

event_once_example :
    process_event wiring
      (record payment { amount_paid = "1" })
      (process_event wiring payment owing).1
    ≡ (failure duplicate_event, used (process_event wiring payment owing).1)
event_once_example =
    event_once wiring payment (record payment { amount_paid = "1" }) owing registered
      (payment_step payment) registered_table.ids found_by_ref payment_event refl paid_now refl refl
      calm_event
