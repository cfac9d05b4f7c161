-- ===== src/Cdn/Callbacks/Resume.antt =====
-- The workflow side of the callbacks: cdn/resume.go, with formatCDNRef of cdn/amendment.go.
use Prim.Native.String.{◌++◌}
use nsw_srilanka.Common.{String, ◌==◌, Bool, Option, none, some, List, if◌then◌else◌}
use nsw_srilanka.Common.Decimal.{decimal}
use nsw_srilanka.Common.Value.{bool, str, Fields, end, field}
use nsw_srilanka.Cdn.{
  Reference, DispatchNote, not_found_by_edge_id, task_not_parked, tasks_unread, step_failed,
  Outcome, done, failure, IntegrationResult, World,
}
use nsw_srilanka.Cdn.Parked.{TaskRecord, Task, Search, parked, nothing, find}
use nsw_srilanka.Cdn.Parked

abbrev pub integration_wait_template_id : String
integration_wait_template_id = "customs-cdn--integration-wait"

abbrev pub acknowledgment_wait_template_id : String
acknowledgment_wait_template_id = "customs-wait-cdn-ack"

-- The workflow side, each part absent in a deployment without it: loading the tasks of a case,
-- completing a step, and starting a flow. The last two say whether they succeeded.
pub record Wiring (Engine : Type 0) : Type 0 where
  pub tasks : Option (Engine → String → Option (List TaskRecord))
  pub complete : Option (String → String → Fields → Engine → Bool × Engine)
  pub flows : Option (String → String → String → Fields → Engine → Bool × Engine)
  -- describeErrors
  pub describe_errors : String → String
  -- the first 16 hexadecimal digits of a SHA-256 sum
  pub digest : String → String

module _ {Engine : Type 0} where
  unfoldable pub complete_step :
      (String → String → Fields → Engine → Bool × Engine)
      → Task
      → Fields
      → World Engine
      → Outcome × World Engine
  complete_step complete t payload w =
      let r = complete t.task_id t.step_id payload w.engine in
      (if r.0 then done else failure step_failed, record w { engine = r.1 })

  unfoldable pub resume_found :
      (String → String → Fields → Engine → Bool × Engine)
      → Fields
      → Bool
      → Search
      → World Engine
      → Outcome × World Engine
  unfolding complete_step
  resume_found complete payload already Parked.unread w = (failure tasks_unread, w)
  resume_found complete payload already nothing w =
      (if already then done else failure task_not_parked, w)
  resume_found complete payload already (parked t) w = complete_step complete t payload w

  unfoldable pub resume_wired :
      Option (Engine → String → Option (List TaskRecord))
      → Option (String → String → Fields → Engine → Bool × Engine)
      → DispatchNote
      → String
      → Fields
      → Bool
      → World Engine
      → Outcome × World Engine
  unfolding resume_found find
  resume_wired none complete note template payload already w = (done, w)
  resume_wired (some tasks) none note template payload already w = (done, w)
  resume_wired (some tasks) (some complete) note template payload already w =
      if note.workflow_id == ""
      then (if already then done else failure not_found_by_edge_id, w)
      else resume_found complete payload already
          (find (tasks w.engine) note.case_id note.workflow_id template) w

-- formatCDNRef
unfoldable pub format_cdn_ref : Reference → String
unfolding decimal
format_cdn_ref r = r.office ++ ("/" ++ (r.year ++ ("/" ++ (r.serial ++ ("/" ++ decimal r.number)))))

module _ {Engine : Type 0} (s : Wiring Engine) where
  -- resumeWait
  unfoldable pub resume_wait :
      DispatchNote → String → Fields → Bool → World Engine → Outcome × World Engine
  unfolding resume_wired
  resume_wait note template payload already w =
      resume_wired s.tasks s.complete note template payload already w

  unfoldable pub integration_payload : IntegrationResult → Fields
  unfolding format_cdn_ref
  integration_payload req = field "__command" (str "submit") (
      field "integrated" (bool req.integrated) (
        if req.integrated
        then field "cdn_number" (str (format_cdn_ref req.cdn_ref)) end
        else field "error" (str (s.describe_errors req.errors)) end))

  -- resumeIntegrationWait
  unfoldable pub resume_integration_wait :
      DispatchNote → IntegrationResult → Bool → World Engine → Outcome × World Engine
  unfolding resume_wait integration_payload
  resume_integration_wait note req already w =
      resume_wait note integration_wait_template_id (integration_payload req) already w

  unfoldable pub ack_payload : String → Fields
  ack_payload status = field "__command" (str "submit") (field "ack_status" (str status) end)

  -- resumeAcknowledgmentWait
  unfoldable pub resume_acknowledgment_wait :
      DispatchNote → Bool → World Engine → Outcome × World Engine
  unfolding resume_wait ack_payload
  resume_acknowledgment_wait note already w =
      resume_wait note acknowledgment_wait_template_id (ack_payload "ACKNOWLEDGED") already w

  -- resumeCancelledWait
  unfoldable pub resume_cancelled_wait : DispatchNote → Bool → World Engine → Outcome × World Engine
  unfolding resume_wait ack_payload
  resume_cancelled_wait note already w =
      resume_wait note acknowledgment_wait_template_id (ack_payload "CANCELLED") already w
