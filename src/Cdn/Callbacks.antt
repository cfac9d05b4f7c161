-- ===== src/Cdn/Callbacks.antt =====
-- The callbacks about a dispatch note: cdn/service.go, resume.go, cancellation.go and amendment.go.
mod Resume
pub mod Moves
pub mod Release
pub mod Answered
unfoldable pub use Resume.*
use Prim.Native.String.{◌++◌}
use nsw_srilanka.Common.{
  ℕ, String, ◌==◌, Bool, true, false, ◌&&◌, ◌||◌, not, Option, none, some, List, [], ◌∷◌,
  trim_space, if◌then◌else◌,
}
use nsw_srilanka.Common.Value.{Value, bool, str, obj, Fields, end, field}
use nsw_srilanka.Cdn.{
  Reference, DispatchNoteStatus, submitted, integrated, failed, acknowledged, cancelled,
  DispatchNote, Failure, not_found_by_edge_id, not_recorded, not_found_by_ref, task_not_parked,
  case_not_recorded, database, tasks_unread, step_failed, bad_transition, no_case_flows, bad_note,
  flow_failed, Outcome, done, failure, IntegrationResult, World, Found, unread, missing, row,
  get_by_edge_id, get_by_cdn_ref, update,
}
use nsw_srilanka.Cdn.Parked.{TaskRecord, Task, Search, parked, nothing, find}
use nsw_srilanka.Cdn.Parked

abbrev pub amended_flow_template_id : String
amended_flow_template_id = "customs-cdn-amended"

-- CDNAmendedRequest's payload; the note is `none` where it does not decode.
pub record Amendment : Type 0 where
  pub cdn_ref : Reference
  pub cdn : Option Fields
  pub operation_time : String

-- A note whose integration has been answered by Customs.
abbrev pub is_recorded : DispatchNoteStatus → Bool
is_recorded integrated = true
is_recorded acknowledged = true
is_recorded cancelled = true
is_recorded _ = false

abbrev pub is_failed : DispatchNoteStatus → Bool
is_failed failed = true
is_failed _ = false

-- storedResult
unfoldable pub stored_result : IntegrationResult → DispatchNote → IntegrationResult
stored_result req note = record req { integrated = is_recorded note.status; cdn_ref = note.ref }

-- The note as an integration result leaves it.
unfoldable pub with_result : DispatchNote → IntegrationResult → DispatchNote
with_result note req =
    if req.integrated
    then record note { status = integrated; ref = req.cdn_ref }
    else record note { status = failed; errors = req.errors }

module _ {Engine : Type 0} where
  -- `then`: what follows only where what precedes it succeeds.
  abbrev pub next :
      Outcome × World Engine → (World Engine → Outcome × World Engine) → Outcome × World Engine
  next (done, w) k = k w
  next (failure e, w) k = (failure e, w)

module _ {Engine : Type 0} (s : Wiring Engine) where
  pub integrate : IntegrationResult → Found → World Engine → Outcome × World Engine
  unfolding resume_integration_wait stored_result with_result update
  integrate req unread w = (failure database, w)
  integrate req missing w = (failure not_recorded, w)
  integrate req (row note) w =
      if is_recorded note.status
      then resume_integration_wait s note (stored_result req note) true w
      else if not req.integrated && is_failed note.status
      then resume_integration_wait s note req true w
      else next (resume_integration_wait s note req false w) (update (with_result note req))

  -- ProcessIntegrationResult
  unfoldable pub process_integration_result :
      IntegrationResult → World Engine → Outcome × World Engine
  unfolding integrate get_by_edge_id
  process_integration_result req w = let r = get_by_edge_id req.edge_id w in integrate req r.0 r.1

  acknowledge_in : DispatchNote → DispatchNoteStatus → World Engine → Outcome × World Engine
  unfolding resume_acknowledgment_wait update
  acknowledge_in note acknowledged w = resume_acknowledgment_wait s note true w
  acknowledge_in note cancelled w = (done, w)
  acknowledge_in note integrated w =
      next (resume_acknowledgment_wait s note false w)
        (update (record note { status = acknowledged }))
  acknowledge_in note submitted w = (failure bad_transition, w)
  acknowledge_in note failed w = (failure bad_transition, w)

  pub acknowledge : Found → World Engine → Outcome × World Engine
  unfolding acknowledge_in
  acknowledge unread w = (failure database, w)
  acknowledge missing w = (failure not_found_by_ref, w)
  acknowledge (row note) w = acknowledge_in note note.status w

  -- ProcessAcknowledgment
  unfoldable pub process_acknowledgment : Reference → World Engine → Outcome × World Engine
  unfolding acknowledge get_by_cdn_ref
  process_acknowledgment ref w = let r = get_by_cdn_ref ref w in acknowledge r.0 r.1

  cancel_in : DispatchNote → DispatchNoteStatus → World Engine → Outcome × World Engine
  unfolding resume_cancelled_wait update
  cancel_in note cancelled w = resume_cancelled_wait s note true w
  cancel_in note acknowledged w = update (record note { status = cancelled }) w
  cancel_in note integrated w =
      next (resume_cancelled_wait s note false w) (update (record note { status = cancelled }))
  cancel_in note submitted w = (failure bad_transition, w)
  cancel_in note failed w = (failure bad_transition, w)

  pub cancel : Found → World Engine → Outcome × World Engine
  unfolding cancel_in
  cancel unread w = (failure database, w)
  cancel missing w = (failure not_found_by_ref, w)
  cancel (row note) w = cancel_in note note.status w

  -- ProcessCancellation
  unfoldable pub process_cancellation : Reference → World Engine → Outcome × World Engine
  unfolding cancel get_by_cdn_ref
  process_cancellation ref w = let r = get_by_cdn_ref ref w in cancel r.0 r.1

  -- amendmentWorkflowID
  unfoldable pub amendment_workflow_id : String → Reference → String → String
  unfolding format_cdn_ref
  amendment_workflow_id case_id ref time =
      case_id
      ++ (":"
          ++ (amended_flow_template_id ++ (":" ++ s.digest (format_cdn_ref ref ++ ("\0" ++ time)))))

  amendment_vars : DispatchNote → Amendment → Fields → Fields
  unfolding format_cdn_ref
  amendment_vars note req amended = field "consignmentId" (str note.case_id) (
      field "cdn_number" (str (format_cdn_ref req.cdn_ref))
        (field "amended_at" (str (trim_space req.operation_time)) (field "cdn" (obj amended) end)))

  open_flow :
      DispatchNote
      → Amendment
      → Option (String → String → String → Fields → Engine → Bool × Engine)
      → Option Fields
      → World Engine
      → Outcome × World Engine
  unfolding amendment_vars amendment_workflow_id
  open_flow note req none amended w = (failure no_case_flows, w)
  open_flow note req (some run) none w = (failure bad_note, w)
  open_flow note req (some run) (some amended) w =
      let id = amendment_workflow_id note.case_id req.cdn_ref (trim_space req.operation_time) in
      let r =
        run note.case_id amended_flow_template_id id (amendment_vars note req amended) w.engine in
      (if r.0 then done else failure flow_failed, record w { engine = r.1 })

  pub amend : Amendment → Found → World Engine → Outcome × World Engine
  unfolding open_flow
  amend req unread w = (failure database, w)
  amend req missing w = (failure not_found_by_ref, w)
  amend req (row note) w =
      if note.case_id == ""
      then (failure case_not_recorded, w)
      else open_flow note req s.flows req.cdn w

  -- ProcessAmendment
  unfoldable pub process_amendment : Amendment → World Engine → Outcome × World Engine
  unfolding amend get_by_cdn_ref
  process_amendment req w = let r = get_by_cdn_ref req.cdn_ref w in amend req r.0 r.1
