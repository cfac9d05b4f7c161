-- ===== src/Webhook/Applier.antt =====
-- applyCallback of asycuda/retry.go: the appliers of held callbacks, a table of its own beside the
-- handlers.
pub mod Decoded
use nsw_srilanka.Common.{
  String, Bool, true, false, Option, none, some, List, [], ◌∷◌, Dict, lookup, if◌then◌else◌,
}
use nsw_srilanka.Document.{Reference}
use nsw_srilanka.Cdn
use nsw_srilanka.Cdn.{Envelope, valid_result, valid_acknowledgment, valid_cancellation}
use nsw_srilanka.Cdn.Callbacks as NoteCallbacks
use nsw_srilanka.Cusdec
use nsw_srilanka.Cusdec.Requests as Requests
use nsw_srilanka.Cusdec.Requests.{
  EventRequest, EventPayload, ResultPayload, Amendment, Cancellation, read_result, read_event,
}
use nsw_srilanka.Cusdec.Callbacks
use nsw_srilanka.Cusdec.Notices as Notices
use nsw_srilanka.Retry.{CallbackError, invalid_callback}
use nsw_srilanka.Retry
use nsw_srilanka.Webhook.{NoteAmendment, valid_note_amendment, ServiceError, cusdec_error, error_of}
use nsw_srilanka.Webhook.Handler.{Site, Services, cusdec_world, cdn_world, cusdec_reply, cdn_reply}

-- errors.Is of the two errors that an applier takes for success, and of nil.
abbrev pub is_duplicate_result : ServiceError → Bool
is_duplicate_result (cusdec_error Cusdec.duplicate_result) = true
is_duplicate_result e = false

abbrev pub is_duplicate_event : ServiceError → Bool
is_duplicate_event (cusdec_error Cusdec.duplicate_event) = true
is_duplicate_event e = false

abbrev pub is_nothing : ServiceError → Bool
is_nothing e = false

module _ {Engine : Type 0} where
  -- ignore
  abbrev pub ignore :
      (ServiceError → Bool) → Option ServiceError × Site Engine → Option CallbackError × Site Engine
  ignore done (none, s) = (none, s)
  ignore done (some e, s) = (if done e then none else some (error_of e), s)

  -- applyAs, with the body decoded; decodeCallback validates what it decodes.
  abbrev pub process_decoded :
      {A : Type 0}
      → (A → Bool)
      → (A → Site Engine → Option ServiceError × Site Engine)
      → (ServiceError → Bool)
      → Option A
      → Site Engine
      → Option CallbackError × Site Engine
  process_decoded valid process done none s = (some invalid_callback, s)
  process_decoded valid process done (some req) s =
      if valid req then ignore done (process req s) else (some invalid_callback, s)

  -- applyAs
  abbrev pub apply_as :
      {A : Type 0}
      → (String → Option A)
      → (A → Bool)
      → (A → Site Engine → Option ServiceError × Site Engine)
      → (ServiceError → Bool)
      → String
      → Site Engine
      → Option CallbackError × Site Engine
  apply_as decode valid process done body s = process_decoded valid process done (decode body) s

  -- A call of cusdecService, and one of cdnService.
  abbrev pub on_declarations :
      (Cusdec.World Engine → Cusdec.Outcome × Cusdec.World Engine)
      → Site Engine
      → Option ServiceError × Site Engine
  on_declarations f s = cusdec_reply (f (cusdec_world s)) s

  abbrev pub on_notes :
      (Cdn.World Engine → Cdn.Outcome × Cdn.World Engine)
      → Site Engine
      → Option ServiceError × Site Engine
  on_notes f s = cdn_reply (f (cdn_world s)) s

  abbrev pub apply_found :
      Option (String → Site Engine → Option CallbackError × Site Engine)
      → String
      → Site Engine
      → Option CallbackError × Site Engine
  apply_found none body s = (some invalid_callback, s)
  apply_found (some apply) body s = apply body s

-- The request of an event applier, with the type of its entry in place of the body's.
abbrev pub typed_event : String → Envelope × EventPayload → EventRequest
typed_event kind p = record (read_event p.0 p.1) { event = kind }

module _ {Engine : Type 0} (svc : Services Engine) where
  -- cusdecEventApplier
  unfoldable pub event_applier : String → String → Site Engine → Option CallbackError × Site Engine
  unfolding Callbacks.process_event
  event_applier kind body s =
      apply_as svc.decoders.cusdec_event (λ p. Requests.valid_event (typed_event kind p))
        (λ p. on_declarations (Callbacks.process_event svc.cusdec (typed_event kind p)))
        is_duplicate_event body s

  -- appliers of applyCallback
  unfoldable pub appliers : Dict (String → Site Engine → Option CallbackError × Site Engine)
  unfolding event_applier Callbacks.process_integration_result Notices.process_amendment
      Notices.process_cancellation NoteCallbacks.process_integration_result
      NoteCallbacks.process_acknowledgment NoteCallbacks.process_amendment
      NoteCallbacks.process_cancellation
  appliers =
      (
        "CUSDEC_INTEGRATED",
        apply_as svc.decoders.cusdec_result (λ p. Requests.valid_result (read_result p.0 p.1))
            (λ p.
              on_declarations
                (Callbacks.process_integration_result svc.cusdec (read_result p.0 p.1)))
            is_duplicate_result,
      )
      ∷ ("PAYMENT_CONFIRMED", event_applier "PAYMENT_CONFIRMED")
      ∷ ("WARRANTING_COMPLETED", event_applier "WARRANTING_COMPLETED")
      ∷ ("EXPORT_RELEASED", event_applier "EXPORT_RELEASED")
      ∷ (
        "CUSDEC_AMENDED",
        apply_as svc.decoders.cusdec_amendment Requests.valid_amendment
            (λ a. on_declarations (Notices.process_amendment svc.cusdec a)) is_nothing,
      )
      ∷ (
        "CUSDEC_CANCELLED",
        apply_as svc.decoders.cusdec_cancellation Requests.valid_cancellation
            (λ c. on_declarations (Notices.process_cancellation svc.cusdec c)) is_nothing,
      )
      ∷ (
        "CDN_INTEGRATED",
        apply_as svc.decoders.cdn_result (λ p. valid_result p.0 p.1)
            (λ p. on_notes (NoteCallbacks.process_integration_result svc.cdn p.1)) is_nothing,
      )
      ∷ (
        "CDN_ACKNOWLEDGED",
        apply_as svc.decoders.cdn_acknowledgment (λ p. valid_acknowledgment p.0 p.1)
            (λ p. on_notes (NoteCallbacks.process_acknowledgment svc.cdn p.1)) is_nothing,
      )
      ∷ (
        "CDN_AMENDED",
        apply_as svc.decoders.cdn_amendment valid_note_amendment
            (λ a. on_notes (NoteCallbacks.process_amendment svc.cdn a.amendment)) is_nothing,
      )
      ∷ (
        "CDN_CANCELLED",
        apply_as svc.decoders.cdn_cancellation (λ p. valid_cancellation p.0 p.1 p.2)
            (λ p. on_notes (NoteCallbacks.process_cancellation svc.cdn p.2)) is_nothing,
      )
      ∷ []

  -- applyCallback
  unfoldable pub apply_callback : Retry.Callback → Site Engine → Option CallbackError × Site Engine
  unfolding appliers lookup
  apply_callback cb s = apply_found (lookup cb.event_type appliers) cb.body s
