-- ===== src/Cusdec/Callbacks.antt =====
-- The callbacks about a declaration: cusdec/service.go, cancellation.go and amendment.go.
use nsw_srilanka.Common.{
  String, ◌==◌, Bool, true, false, not, Option, none, some, List, eqb, if◌then◌else◌,
}
use nsw_srilanka.Common.Value.{num, str, obj, Fields, end, field, set_field}
use nsw_srilanka.Document.{format_reference}
use nsw_srilanka.Cdn.Parked.{TaskRecord, Task, Search, parked, nothing, find, find_in_case}
use nsw_srilanka.Cdn.Parked
use nsw_srilanka.Cusdec.{
  CusdecStatus, submitted, integrated, failed, paid, warranted, released, event_status_order,
  has_reached, Declaration, Failure, workflow_not_found, not_recorded, task_not_parked,
  not_found_by_ref, duplicate_result, duplicate_event, database, tasks_unread, step_failed,
  unsupported_event, Outcome, done, failure, World, Found, unread, missing, row, get_by_edge_id,
  get_by_cusdec_ref, update,
}
use nsw_srilanka.Cusdec.Requests.{
  Amount, IntegrationResult, EventRequest, duties_for_task, amount_to_pay,
}

abbrev pub review_template_id : String
review_template_id = "customs-cusdec--external-review"

-- CaseFlows: a flow started on a case, and whether it was.
abbrev pub Flows : Type 0 → Type 0
Flows Engine = String → String → String → Fields → Engine → Bool × Engine

-- The workflow side: loading the tasks of a case, completing a step, and starting a flow, which a
-- deployment may lack.
pub record Wiring (Engine : Type 0) : Type 0 where
  pub tasks : Engine → String → Option (List TaskRecord)
  pub complete : String → String → Fields → Engine → Bool × Engine
  pub flows : Option (Flows Engine)
  -- describeErrors
  pub describe_errors : String → String
  -- the first 16 hexadecimal digits of a SHA-256 sum
  pub digest : String → String

abbrev pub with_amount : String → Option Amount → Fields → Fields
with_amount key none fs = fs
with_amount key (some a) fs = set_field key (num a) fs

abbrev pub with_object : String → Option Fields → Fields → Fields
with_object key none fs = fs
with_object key (some o) fs = set_field key (obj o) fs

-- The row as an integration result leaves it.
unfoldable pub with_result : Declaration → IntegrationResult → Declaration
with_result d req =
    if req.integrated
    then record d { status = integrated; ref = req.ref; errors = "" }
    else record d { status = failed; errors = req.errors }

abbrev pub is_submitted : CusdecStatus → Bool
is_submitted submitted = true
is_submitted _ = false

-- decl.Status == targetStatus; the order is one-to-one.
abbrev pub same_status : CusdecStatus → CusdecStatus → Bool
same_status a b = eqb (event_status_order a) (event_status_order b)

-- What an event does: the step it completes, the status it sets and the payload of the step.
pub record EventStep : Type 0 where
  pub template : String
  pub target : CusdecStatus
  pub payload : Fields

abbrev pub payment_step : EventRequest → EventStep
payment_step r = record {
  template = "customs-wait-payment";
  target = paid;
  payload = field "__command" (str "submit") (
      field "payment_status" (str "PAID") (
        field "amount_paid" (num r.amount_paid)
          (field "currency" (str r.currency) (field "bank_reference" (str r.bank_reference) end))));
}

abbrev pub warranting_step : EventRequest → EventStep
warranting_step r = record {
  template = "customs-wait-warranting";
  target = warranted;
  payload = field "__command" (str "submit") (
      field "warranting_status" (str "WARRANTED")
        (field "release_order_no" (str r.release_order_no) end));
}

abbrev pub release_step : EventRequest → EventStep
release_step r = record {
  template = "customs-wait-export-release";
  target = released;
  payload = field "__command" (str "submit") (
      field "release_status" (str "RELEASED") (
        field "vessel_name" (str r.vessel_name) (
          field "voyage_no" (str r.voyage_no)
            (field "port_of_loading" (str r.port_of_loading) end))));
}

-- The switch of ProcessEvent.
unfoldable pub event_step : EventRequest → Option EventStep
event_step r =
    if r.event == "PAYMENT_CONFIRMED"
    then some (payment_step r)
    else if r.event == "WARRANTING_COMPLETED"
    then some (warranting_step r)
    else if r.event == "EXPORT_RELEASED"
    then some (release_step r)
    else none

-- The answer of findReviewTask.
pub data Review : Type 0 where
  no_review : Failure → Review
  review : Task → Review

abbrev pub as_review : Search → Review
as_review Parked.unread = no_review tasks_unread
as_review nothing = no_review task_not_parked
as_review (parked t) = review t

module _ {Engine : Type 0} where
  -- What follows only where what precedes it succeeds.
  abbrev pub next :
      Outcome × World Engine → (World Engine → Outcome × World Engine) → Outcome × World Engine
  next (done, w) k = k w
  next (failure e, w) k = (failure e, w)

module _ {Engine : Type 0} (s : Wiring Engine) where
  -- CompleteTaskStep, with its error wrapped
  unfoldable pub complete_step : Task → Fields → World Engine → Outcome × World Engine
  complete_step t payload w =
      let r = s.complete t.task_id t.step_id payload w.engine in
      (if r.0 then done else failure step_failed, record w { engine = r.1 })

  -- findReviewTask
  unfoldable pub find_review_task : Declaration → Engine → Review
  unfolding find
  find_review_task d e =
      if d.workflow_id == ""
      then no_review workflow_not_found
      else as_review (find (s.tasks e) d.case_id d.workflow_id review_template_id)

  -- reviewPayload
  unfoldable pub review_payload : IntegrationResult → Fields
  unfolding format_reference amount_to_pay duties_for_task set_field
  review_payload req =
      if req.integrated
      then with_object "duties" (duties_for_task req.duties) (
          with_amount "amount_paid" req.amount_paid (
            with_amount "total_assessed_amount" req.total_assessed (
              field "__command" (str "submit") (
                field "review_outcome" (str "approve") (
                  field "cusdec_number" (str (format_reference req.ref))
                    (field "amount_to_pay" (amount_to_pay req.amount_payable) end))))))
      else field "__command" (str "submit") (
          field "review_outcome" (str "needs_more_info")
            (field "rejection_reason" (str (s.describe_errors req.errors)) end))

  unfoldable pub reviewed :
      Declaration → IntegrationResult → Review → World Engine → Outcome × World Engine
  unfolding complete_step review_payload with_result update
  reviewed d req (no_review e) w = (failure e, w)
  reviewed d req (review t) w =
      next (complete_step t (review_payload req) w) (update (with_result d req))

  unfoldable pub integrate : IntegrationResult → Found → World Engine → Outcome × World Engine
  unfolding reviewed find_review_task
  integrate req unread w = (failure database, w)
  integrate req missing w = (failure not_recorded, w)
  integrate req (row d) w =
      if not (is_submitted d.status)
      then (failure duplicate_result, w)
      else reviewed d req (find_review_task d w.engine) w

  -- ProcessIntegrationResult
  unfoldable pub process_integration_result :
      IntegrationResult → World Engine → Outcome × World Engine
  unfolding integrate get_by_edge_id
  process_integration_result req w = let r = get_by_edge_id req.edge_id w in integrate req r.0 r.1

  -- completeEventTaskAndMetadata
  unfoldable pub complete_event :
      Declaration → EventStep → Search → World Engine → Outcome × World Engine
  unfolding complete_step update
  complete_event d st Parked.unread w = (failure tasks_unread, w)
  complete_event d st nothing w =
      if same_status d.status st.target
      then (done, w)
      else update (record d { status = st.target }) w
  complete_event d st (parked t) w =
      next (complete_step t st.payload w) (update (record d { status = st.target }))

  unfoldable pub apply_step : Declaration → Option EventStep → World Engine → Outcome × World Engine
  unfolding complete_event find_in_case
  apply_step d none w = (failure unsupported_event, w)
  apply_step d (some st) w =
      if has_reached d.status st.target
      then (failure duplicate_event, w)
      else complete_event d st (find_in_case (s.tasks w.engine) d.case_id st.template) w

  unfoldable pub apply_event : EventRequest → Found → World Engine → Outcome × World Engine
  unfolding apply_step event_step
  apply_event req unread w = (failure database, w)
  apply_event req missing w = (failure not_found_by_ref, w)
  apply_event req (row d) w = apply_step d (event_step req) w

  -- ProcessEvent
  unfoldable pub process_event : EventRequest → World Engine → Outcome × World Engine
  unfolding apply_event get_by_cusdec_ref
  process_event req w = let r = get_by_cusdec_ref req.ref w in apply_event req r.0 r.1
