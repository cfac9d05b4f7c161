-- ===== src/Cusdec/Notices.antt =====
-- The flows that Customs' notices open on a declaration's case: cusdec/amendment.go and
-- cancellation.go; and the decoded callbacks as they reach the service.
use Prim.Native.String.{◌++◌}
use nsw_srilanka.Common.{String, ◌==◌, Bool, Option, none, some, trim_space, if◌then◌else◌}
use nsw_srilanka.Common.Value.{str, obj, Fields, end, field}
use nsw_srilanka.Document.{Reference, format_reference}
use nsw_srilanka.Cusdec.{
  Declaration, not_found_by_ref, case_not_recorded, database, no_case_flows, bad_declaration,
  flow_failed, invalid_callback, Outcome, done, failure, World, Found, unread, missing, row,
  get_by_cusdec_ref,
}
use nsw_srilanka.Cusdec.Requests.{
  IntegrationResult, valid_result, EventRequest, valid_event, Amendment, valid_amendment,
  Cancellation, valid_cancellation, duties_for_task,
}
use nsw_srilanka.Cusdec.Callbacks.{
  Wiring, Flows, with_object, process_integration_result, process_event,
}

abbrev pub amended_flow_template_id : String
amended_flow_template_id = "customs-cusdec-amended"

abbrev pub cancelled_flow_template_id : String
cancelled_flow_template_id = "customs-cusdec-cancelled"

-- A flow that a notice opens: its template, its workflow ID and its variables.
pub record Notice : Type 0 where
  pub template : String
  pub workflow_id : String
  pub vars : Fields

module _ {Engine : Type 0} where
  -- StartFlow, with its error wrapped
  unfoldable pub open_notice :
      String → Notice → Option (Flows Engine) → World Engine → Outcome × World Engine
  open_notice case_id n none w = (failure no_case_flows, w)
  open_notice case_id n (some run) w =
      let r = run case_id n.template n.workflow_id n.vars w.engine in
      (if r.0 then done else failure flow_failed, record w { engine = r.1 })

module _ {Engine : Type 0} (s : Wiring Engine) where
  -- cancellationWorkflowID
  unfoldable pub cancellation_workflow_id : String → Reference → String
  unfolding format_reference
  cancellation_workflow_id case_id ref =
      case_id ++ (":" ++ (cancelled_flow_template_id ++ (":" ++ s.digest (format_reference ref))))

  unfoldable pub cancellation_notice : Declaration → Cancellation → Notice
  unfolding cancellation_workflow_id
  cancellation_notice d req = record {
    template = cancelled_flow_template_id;
    workflow_id = cancellation_workflow_id d.case_id req.ref;
    vars = field "consignmentId" (str d.case_id) (
        field "cusdec_number" (str (format_reference req.ref))
          (field "cancelled_at" (str req.cancelled_at) end));
  }

  unfoldable pub cancel : Cancellation → Found → World Engine → Outcome × World Engine
  unfolding open_notice cancellation_notice
  cancel req unread w = (failure database, w)
  cancel req missing w = (failure not_found_by_ref, w)
  cancel req (row d) w =
      if d.case_id == ""
      then (failure case_not_recorded, w)
      else open_notice d.case_id (cancellation_notice d req) s.flows w

  -- ProcessCancellation
  unfoldable pub process_cancellation : Cancellation → World Engine → Outcome × World Engine
  unfolding cancel get_by_cusdec_ref
  process_cancellation req w = let r = get_by_cusdec_ref req.ref w in cancel req r.0 r.1

  -- amendmentWorkflowID
  unfoldable pub amendment_workflow_id : String → Reference → String → String
  unfolding format_reference
  amendment_workflow_id case_id ref time =
      case_id
      ++ (":"
          ++ (amended_flow_template_id
              ++ (":" ++ s.digest (format_reference ref ++ ("\0" ++ time)))))

  unfoldable pub amendment_notice : Declaration → Amendment → Fields → Notice
  unfolding amendment_workflow_id duties_for_task
  amendment_notice d req amended =
      let time = trim_space req.operation_time in
      record {
        template = amended_flow_template_id;
        workflow_id = amendment_workflow_id d.case_id req.ref time;
        vars = with_object "duties" (duties_for_task req.duties) (
            field "consignmentId" (str d.case_id) (
              field "cusdec_number" (str (format_reference req.ref))
                (field "amended_at" (str time) (field "cusdec" (obj amended) end))));
      }

  -- Without flows nothing is decoded.
  unfoldable pub open_amendment :
      Declaration
      → Amendment
      → Option (Flows Engine)
      → Option Fields
      → World Engine
      → Outcome × World Engine
  unfolding open_notice amendment_notice
  open_amendment d req none amended w = (failure no_case_flows, w)
  open_amendment d req (some run) none w = (failure bad_declaration, w)
  open_amendment d req (some run) (some amended) w =
      open_notice d.case_id (amendment_notice d req amended) (some run) w

  unfoldable pub amend : Amendment → Found → World Engine → Outcome × World Engine
  unfolding open_amendment
  amend req unread w = (failure database, w)
  amend req missing w = (failure not_found_by_ref, w)
  amend req (row d) w =
      if d.case_id == ""
      then (failure case_not_recorded, w)
      else open_amendment d req s.flows req.cusdec w

  -- ProcessAmendment
  unfoldable pub process_amendment : Amendment → World Engine → Outcome × World Engine
  unfolding amend get_by_cusdec_ref
  process_amendment req w = let r = get_by_cusdec_ref req.ref w in amend req r.0 r.1

-- A decoded callback, an event with the type that its route has.
pub data Callback : Type 0 where
  result : IntegrationResult → Callback
  event : String → EventRequest → Callback
  amendment : Amendment → Callback
  cancellation : Cancellation → Callback

abbrev pub routed : String → EventRequest → EventRequest
routed kind req = record req { event = kind }

abbrev pub valid : Callback → Bool
valid (result req) = valid_result req
valid (event kind req) = valid_event (routed kind req)
valid (amendment req) = valid_amendment req
valid (cancellation req) = valid_cancellation req

module _ {Engine : Type 0} (s : Wiring Engine) where
  unfoldable pub process : Callback → World Engine → Outcome × World Engine
  unfolding process_integration_result process_event process_amendment process_cancellation
  process (result req) w = process_integration_result s req w
  process (event kind req) w = process_event s (routed kind req) w
  process (amendment req) w = process_amendment s req w
  process (cancellation req) w = process_cancellation s req w

  -- A callback that does not validate is refused and changes nothing.
  unfoldable pub serve : Callback → World Engine → Outcome × World Engine
  unfolding process
  serve c w = if valid c then process c w else (failure invalid_callback, w)
