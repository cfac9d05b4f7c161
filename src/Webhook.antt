-- ===== src/Webhook.antt =====
-- external-integration/customs/asycuda: the route that receives the callbacks of SLC Edge
-- (handler.go), and the application of a held one (retry.go).
pub mod Handler
pub mod Applier
pub mod Delivery
mod Examples
use Prim.Native.Char.{Char, code}
use Prim.Native.String.{char_at}
use nsw_srilanka.Common.{
  ℕ, ◌-◌, String, ◌==◌, Bool, true, false, ◌&&◌, not, Option, none, some, List, [], ◌∷◌, leb, eqb,
  is_blank, trim_space, if◌then◌else◌,
}
use nsw_srilanka.Document.{Reference, is_valid}
use nsw_srilanka.Cdn
use nsw_srilanka.Cdn.{
  Envelope, DispatchNote, valid_result, valid_acknowledgment, valid_cancellation,
}
use nsw_srilanka.Cdn.Callbacks as NoteCallbacks
use nsw_srilanka.Cusdec
use nsw_srilanka.Cusdec.Requests.{
  ResultPayload, EventPayload, Amendment, Cancellation, read_result, read_event,
}
use nsw_srilanka.Cusdec.Notices.{Callback, result, event, amendment, cancellation, valid, process}
use nsw_srilanka.Retry.{
  CallbackError, invalid_callback, cusdec_workflow_not_found, cusdec_case_not_recorded,
  cusdec_not_recorded, cusdec_task_not_parked, cusdec_not_found_by_ref, cdn_not_found_by_edge_id,
  cdn_case_not_recorded, cdn_not_recorded, cdn_task_not_parked, cdn_not_found_by_ref, other,
  is_early, schedule,
}
use nsw_srilanka.Retry

-- The HTTP status of a response.
pub data Answer : Type 0 where
  ok accepted bad_request not_found unavailable internal_error : Answer

-- The event types that have a route.
pub data Route : Type 0 where
  cusdec_integrated payment_confirmed warranting_completed export_released : Route
  cusdec_amended cusdec_cancelled : Route
  cdn_integrated cdn_acknowledged cdn_amended cdn_cancelled : Route

abbrev pub name_of : Route → String
name_of cusdec_integrated = "CUSDEC_INTEGRATED"
name_of payment_confirmed = "PAYMENT_CONFIRMED"
name_of warranting_completed = "WARRANTING_COMPLETED"
name_of export_released = "EXPORT_RELEASED"
name_of cusdec_amended = "CUSDEC_AMENDED"
name_of cusdec_cancelled = "CUSDEC_CANCELLED"
name_of cdn_integrated = "CDN_INTEGRATED"
name_of cdn_acknowledged = "CDN_ACKNOWLEDGED"
name_of cdn_amended = "CDN_AMENDED"
name_of cdn_cancelled = "CDN_CANCELLED"

unfoldable pub first_named : String → List Route → Option Route
first_named t [] = none
first_named t (r ∷ rs) = if name_of r == t then some r else first_named t rs

-- The switch of HandleWebhook.
unfoldable pub route_of : String → Option Route
unfolding first_named
route_of t = first_named t (
    cusdec_integrated ∷ payment_confirmed ∷ warranting_completed ∷ export_released ∷ cusdec_amended
    ∷ cusdec_cancelled ∷ cdn_integrated ∷ cdn_acknowledged ∷ cdn_amended ∷ cdn_cancelled ∷ [])

upper_char : Char → Char
upper_char c =
    if leb 97 (code c) && leb (code c) 122
    then char_at "ABCDEFGHIJKLMNOPQRSTUVWXYZ" (code c - 97)
    else if eqb (code c) 0x131
    then "I"
    else if eqb (code c) 0x17f
    then "S"
    else c

-- strings.ToUpper, as far as a route's name can tell: what else it changes stays outside ASCII.
unfoldable pub to_upper : String → String
unfolding upper_char
to_upper String.[] = String.[]
to_upper (String.◌∷◌ c s) = String.◌∷◌ (upper_char c) (to_upper s)

-- A dispatch note's amendment as decoded: its event type, and whether the note begins as an object.
pub record NoteAmendment : Type 0 where
  pub event_type : String
  pub is_object : Bool
  pub amendment : NoteCallbacks.Amendment

-- json.Unmarshal of a body into each request; `none` where it fails.
pub record Decoders : Type 0 where
  pub envelope : String → Option String
  pub cusdec_result : String → Option (Envelope × ResultPayload)
  pub cusdec_event : String → Option (Envelope × EventPayload)
  pub cusdec_amendment : String → Option Amendment
  pub cusdec_cancellation : String → Option Cancellation
  pub cdn_result : String → Option (Envelope × Cdn.IntegrationResult)
  pub cdn_acknowledgment : String → Option (Envelope × Reference)
  pub cdn_amendment : String → Option NoteAmendment
  pub cdn_cancellation : String → Option (String × ℕ × Reference)

-- A decoded request.
pub data Request : Type 0 where
  of_cusdec : Callback → Request
  cdn_result : Envelope → Cdn.IntegrationResult → Request
  cdn_acknowledgment : Envelope → Reference → Request
  cdn_amendment : NoteAmendment → Request
  cdn_cancellation : String → ℕ → Reference → Request

abbrev pub mapped {ℓ} : {A : Type ℓ} → (A → Request) → Option A → Option Request
mapped f none = none
mapped f (some a) = some (f a)

-- The decoding of each handler; an event takes its type from the route.
unfoldable pub decode : Decoders → Route → String → Option Request
decode d cusdec_integrated body =
    mapped (λ p. of_cusdec (result (read_result p.0 p.1))) (d.cusdec_result body)
decode d payment_confirmed body =
    mapped (λ p. of_cusdec (event "PAYMENT_CONFIRMED" (read_event p.0 p.1))) (d.cusdec_event body)
decode d warranting_completed body =
    mapped (λ p. of_cusdec (event "WARRANTING_COMPLETED" (read_event p.0 p.1)))
      (d.cusdec_event body)
decode d export_released body =
    mapped (λ p. of_cusdec (event "EXPORT_RELEASED" (read_event p.0 p.1))) (d.cusdec_event body)
decode d cusdec_amended body = mapped (λ a. of_cusdec (amendment a)) (d.cusdec_amendment body)
decode d cusdec_cancelled body =
    mapped (λ c. of_cusdec (cancellation c)) (d.cusdec_cancellation body)
decode d cdn_integrated body = mapped (λ p. cdn_result p.0 p.1) (d.cdn_result body)
decode d cdn_acknowledged body =
    mapped (λ p. cdn_acknowledgment p.0 p.1) (d.cdn_acknowledgment body)
decode d cdn_amended body = mapped cdn_amendment (d.cdn_amendment body)
decode d cdn_cancelled body = mapped (λ p. cdn_cancellation p.0 p.1 p.2) (d.cdn_cancellation body)

-- CDNAmendedRequest.Validate
abbrev pub valid_note_amendment : NoteAmendment → Bool
valid_note_amendment a =
    (a.event_type == "CDN_AMENDED")
    && is_valid a.amendment.cdn_ref
    && a.is_object
    && not (is_blank a.amendment.operation_time)

-- Validate of each request
abbrev pub valid_request : Request → Bool
valid_request (of_cusdec c) = valid c
valid_request (cdn_result e r) = valid_result e r
valid_request (cdn_acknowledgment e ref) = valid_acknowledgment e ref
valid_request (cdn_amendment a) = valid_note_amendment a
valid_request (cdn_cancellation t at ref) = valid_cancellation t at ref

-- The error of either service.
pub data ServiceError : Type 0 where
  cusdec_error : Cusdec.Failure → ServiceError
  cdn_error : Cdn.Failure → ServiceError

-- The error as retry.go knows it.
abbrev pub error_of : ServiceError → CallbackError
error_of (cusdec_error Cusdec.workflow_not_found) = cusdec_workflow_not_found
error_of (cusdec_error Cusdec.case_not_recorded) = cusdec_case_not_recorded
error_of (cusdec_error Cusdec.not_recorded) = cusdec_not_recorded
error_of (cusdec_error Cusdec.task_not_parked) = cusdec_task_not_parked
error_of (cusdec_error Cusdec.not_found_by_ref) = cusdec_not_found_by_ref
error_of (cusdec_error Cusdec.invalid_callback) = invalid_callback
error_of (cusdec_error e) = other
error_of (cdn_error Cdn.not_found_by_edge_id) = cdn_not_found_by_edge_id
error_of (cdn_error Cdn.case_not_recorded) = cdn_case_not_recorded
error_of (cdn_error Cdn.not_recorded) = cdn_not_recorded
error_of (cdn_error Cdn.task_not_parked) = cdn_task_not_parked
error_of (cdn_error Cdn.not_found_by_ref) = cdn_not_found_by_ref
error_of (cdn_error e) = other
