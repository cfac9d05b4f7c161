-- ===== src/Webhook/Handler.antt =====
-- The handlers of asycuda/handler.go.
use nsw_srilanka.Common.{String, Bool, ◌&&◌, Option, none, some, List, trim_space, if◌then◌else◌}
use nsw_srilanka.Cdn
use nsw_srilanka.Cdn.{DispatchNote}
use nsw_srilanka.Cdn.Callbacks as NoteCallbacks
use nsw_srilanka.Cusdec
use nsw_srilanka.Cusdec.{Declaration}
use nsw_srilanka.Cusdec.Callbacks
use nsw_srilanka.Cusdec.Notices.{result, event, amendment, cancellation, process}
use nsw_srilanka.Retry.{CallbackError, invalid_callback, is_early, schedule}
use nsw_srilanka.Retry
use nsw_srilanka.Webhook.{
  Answer, ok, accepted, bad_request, not_found, unavailable, internal_error, Route, name_of,
  route_of, to_upper, Decoders, Request, of_cusdec, cdn_result, cdn_acknowledgment, cdn_amendment,
  cdn_cancellation, decode, valid_request, ServiceError, cusdec_error, cdn_error, error_of,
}

-- What the process and its database hold: the two tables, which database calls to come fail, the
-- engine, and the keys of the callbacks held for retry.
pub record Site (Engine : Type 0) : Type 0 where
  pub declarations : List Declaration
  pub notes : List DispatchNote
  pub faults : List Bool
  pub engine : Engine
  pub pending : List String

-- Handler: the services, whether early callbacks are held, and the first 24 hexadecimal digits of a
-- SHA-256 sum.
pub record Services (Engine : Type 0) : Type 0 where
  pub decoders : Decoders
  pub cusdec : Callbacks.Wiring Engine
  pub cdn : NoteCallbacks.Wiring Engine
  pub holds : Bool
  pub digest : String → String

module _ {Engine : Type 0} where
  abbrev pub cusdec_world : Site Engine → Cusdec.World Engine
  cusdec_world s = record { declarations = s.declarations; faults = s.faults; engine = s.engine }

  abbrev pub cdn_world : Site Engine → Cdn.World Engine
  cdn_world s = record { notes = s.notes; faults = s.faults; engine = s.engine }

  abbrev pub cusdec_reply :
      Cusdec.Outcome × Cusdec.World Engine → Site Engine → Option ServiceError × Site Engine
  cusdec_reply (Cusdec.done, w) s =
      (none, record s { declarations = w.declarations; faults = w.faults; engine = w.engine })
  cusdec_reply (Cusdec.failure e, w) s = (
    some (cusdec_error e),
    record s { declarations = w.declarations; faults = w.faults; engine = w.engine },
  )

  abbrev pub cdn_reply :
      Cdn.Outcome × Cdn.World Engine → Site Engine → Option ServiceError × Site Engine
  cdn_reply (Cdn.done, w) s =
      (none, record s { notes = w.notes; faults = w.faults; engine = w.engine })
  cdn_reply (Cdn.failure e, w) s =
      (some (cdn_error e), record s { notes = w.notes; faults = w.faults; engine = w.engine })

module _ {Engine : Type 0} (svc : Services Engine) where
  -- The call of the service that a request is for.
  unfoldable pub run : Request → Site Engine → Option ServiceError × Site Engine
  unfolding process
  run (of_cusdec c) s = cusdec_reply (process svc.cusdec c (cusdec_world s)) s
  run (cdn_result e req) s =
      cdn_reply (NoteCallbacks.process_integration_result svc.cdn req (cdn_world s)) s
  run (cdn_acknowledgment e ref) s =
      cdn_reply (NoteCallbacks.process_acknowledgment svc.cdn ref (cdn_world s)) s
  run (cdn_amendment a) s =
      cdn_reply (NoteCallbacks.process_amendment svc.cdn a.amendment (cdn_world s)) s
  run (cdn_cancellation t at ref) s =
      cdn_reply (NoteCallbacks.process_cancellation svc.cdn ref (cdn_world s)) s

-- The answers of handleCusdecIntegrationResult.
abbrev pub answer_result : Cusdec.Failure → Answer
answer_result Cusdec.duplicate_result = accepted
answer_result Cusdec.not_recorded = unavailable
answer_result Cusdec.task_not_parked = unavailable
answer_result Cusdec.workflow_not_found = not_found
answer_result e = internal_error

-- of handleCusdecEvent
abbrev pub answer_event : Cusdec.Failure → Answer
answer_event Cusdec.duplicate_event = ok
answer_event Cusdec.not_found_by_ref = unavailable
answer_event Cusdec.workflow_not_found = not_found
answer_event e = internal_error

-- of handleCusdecAmendment
abbrev pub answer_amendment : Cusdec.Failure → Answer
answer_amendment Cusdec.not_found_by_ref = unavailable
answer_amendment Cusdec.case_not_recorded = not_found
answer_amendment e = internal_error

-- of handleCusdecCancellation
abbrev pub answer_cancellation : Cusdec.Failure → Answer
answer_cancellation Cusdec.not_found_by_ref = unavailable
answer_cancellation Cusdec.case_not_recorded = not_found
answer_cancellation e = internal_error

-- of handleCDNIntegrationResult
abbrev pub answer_note_result : Cdn.Failure → Answer
answer_note_result Cdn.not_recorded = unavailable
answer_note_result Cdn.task_not_parked = unavailable
answer_note_result Cdn.not_found_by_edge_id = not_found
answer_note_result e = internal_error

-- of handleCDNAcknowledgment
abbrev pub answer_acknowledgment : Cdn.Failure → Answer
answer_acknowledgment Cdn.not_found_by_ref = unavailable
answer_acknowledgment Cdn.task_not_parked = unavailable
answer_acknowledgment e = internal_error

-- of handleCDNCancellation
abbrev pub answer_note_cancellation : Cdn.Failure → Answer
answer_note_cancellation Cdn.not_found_by_ref = unavailable
answer_note_cancellation Cdn.task_not_parked = unavailable
answer_note_cancellation e = internal_error

-- of handleCDNAmendment
abbrev pub answer_note_amendment : Cdn.Failure → Answer
answer_note_amendment Cdn.not_found_by_ref = unavailable
answer_note_amendment Cdn.case_not_recorded = not_found
answer_note_amendment e = internal_error

-- The answer of a request's handler; no service gives the other's errors.
abbrev pub answer : Request → ServiceError → Answer
answer (of_cusdec (result req)) (cusdec_error e) = answer_result e
answer (of_cusdec (event kind req)) (cusdec_error e) = answer_event e
answer (of_cusdec (amendment a)) (cusdec_error e) = answer_amendment e
answer (of_cusdec (cancellation c)) (cusdec_error e) = answer_cancellation e
answer (cdn_result x req) (cdn_error e) = answer_note_result e
answer (cdn_acknowledgment x ref) (cdn_error e) = answer_acknowledgment e
answer (cdn_amendment a) (cdn_error e) = answer_note_amendment e
answer (cdn_cancellation t at ref) (cdn_error e) = answer_note_cancellation e
answer q e = internal_error

module _ {Engine : Type 0} (svc : Services Engine) where
  -- holdIfEarly, and the answer where it does not hold.
  unfoldable pub respond :
      Retry.Callback → Request → Option ServiceError × Site Engine → Answer × Site Engine
  unfolding schedule
  respond cb q (none, s) = (ok, s)
  respond cb q (some e, s) =
      if svc.holds && is_early (error_of e)
      then (accepted, record s { pending = (schedule svc.digest cb s.pending).0 })
      else (answer q e, s)

  -- handleCusdecIntegrationResult and the other handlers, after decoding
  unfoldable pub handle_decoded :
      Retry.Callback → Option Request → Site Engine → Answer × Site Engine
  unfolding respond run
  handle_decoded cb none s = (bad_request, s)
  handle_decoded cb (some q) s =
      if valid_request q then respond cb q (run svc q s) else (bad_request, s)

  unfoldable pub handle_route : Option Route → String → Site Engine → Answer × Site Engine
  unfolding handle_decoded decode
  handle_route none body s = (bad_request, s)
  handle_route (some r) body s =
      handle_decoded (record { event_type = name_of r; body = body }) (decode svc.decoders r body) s

  unfoldable pub handle_envelope : Option String → String → Site Engine → Answer × Site Engine
  unfolding handle_route route_of to_upper trim_space
  handle_envelope none body s = (bad_request, s)
  handle_envelope (some t) body s = handle_route (route_of (to_upper (trim_space t))) body s

  -- HandleWebhook; no body where it cannot be read, or is too long.
  unfoldable pub handle_webhook : Option String → Site Engine → Answer × Site Engine
  unfolding handle_envelope
  handle_webhook none s = (bad_request, s)
  handle_webhook (some body) s = handle_envelope (svc.decoders.envelope body) body s
