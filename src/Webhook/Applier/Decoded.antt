-- ===== src/Webhook/Applier/Decoded.antt =====
-- The appliers of asycuda/retry.go against the requests that asycuda/handler.go decodes.
use nsw_srilanka.Common.{
  String, Bool, true, false, Option, none, some, ◌≡◌, refl, Bool-cases, inl, inr, lookup, arith,
  if◌then◌else◌,
}
use nsw_srilanka.Cusdec
use nsw_srilanka.Cusdec.Requests.{IntegrationResult, EventRequest, read_result, read_event}
use nsw_srilanka.Cusdec.Notices.{result, event, process}
use nsw_srilanka.Retry.{CallbackError, invalid_callback}
use nsw_srilanka.Webhook.{
  Route, cusdec_integrated, payment_confirmed, warranting_completed, export_released,
  cusdec_amended, cusdec_cancelled, cdn_integrated, cdn_acknowledged, cdn_amended, cdn_cancelled,
  name_of, Request, of_cusdec, mapped, decode, valid_request, ServiceError, cusdec_error, cdn_error,
  error_of,
}
use nsw_srilanka.Webhook.Handler.{Site, Services, run}
use nsw_srilanka.Webhook.Applier.{
  ignore, is_duplicate_result, is_duplicate_event, process_decoded, event_applier, appliers,
  apply_callback,
}

-- A request that was done before, for which its error says so.
abbrev pub is_applied : Request → ServiceError → Bool
is_applied (of_cusdec (result req)) (cusdec_error Cusdec.duplicate_result) = true
is_applied (of_cusdec (event kind req)) (cusdec_error Cusdec.duplicate_event) = true
is_applied q e = false

abbrev pub ignored : Request → Option ServiceError → Option CallbackError
ignored q none = none
ignored q (some e) = if is_applied q e then none else some (error_of e)

module _ {Engine : Type 0} (svc : Services Engine) where
  -- A request of the handlers, applied.
  unfoldable pub apply_decoded : Option Request → Site Engine → Option CallbackError × Site Engine
  unfolding run
  apply_decoded none s = (some invalid_callback, s)
  apply_decoded (some q) s =
      if valid_request q
      then (ignored q (run svc q s).0, (run svc q s).1)
      else (some invalid_callback, s)

  decoded :
      {A : Type 0} (valid : A → Bool) (run_on : A → Site Engine → Option ServiceError × Site Engine)
      (done : ServiceError → Bool) (f : A → Request) (o : Option A) (s : Site Engine)
      → ((a : A) → valid a ≡ valid_request (f a))
      → ((a : A) → run_on a s ≡ run svc (f a) s)
      → ((a : A) (e : ServiceError) → done e ≡ is_applied (f a) e)
      → process_decoded valid run_on done o s ≡ apply_decoded (mapped f o) s
  unfolding apply_decoded
  decoded valid run_on done f none s v p d = refl
  decoded valid run_on done f (some a) s v p d = elim (Bool-cases (valid_request (f a))) [
    | inr n ↦ rw (v a, n) refl
    | inl y ↦ rw (v a, y, p a) (go (run svc (f a) s))
  ]
    where
      go : (r : Option ServiceError × Site Engine) → ignore done r ≡ (ignored (f a) r.0, r.1)
      go (none, v) = refl
      go (some e, v) = rw (d a e) refl

  result_done :
      (c : IntegrationResult) (e : ServiceError)
      → is_duplicate_result e ≡ is_applied (of_cusdec (result c)) e
  result_done c (cusdec_error e) = ground arith
  result_done c (cdn_error e) = refl

  event_done :
      (kind : String) (c : EventRequest) (e : ServiceError)
      → is_duplicate_event e ≡ is_applied (of_cusdec (event kind c)) e
  event_done kind c (cusdec_error e) = ground arith
  event_done kind c (cdn_error e) = refl

  event_applier-decode :
      (kind body : String) (s : Site Engine)
      → event_applier svc kind body s
        ≡ apply_decoded
            (mapped
              (λ p. of_cusdec (event kind (read_event p.0 p.1)))
              (svc.decoders.cusdec_event body))
            s
  unfolding event_applier run process
  event_applier-decode kind body s =
      decoded _ _ _ (λ p. of_cusdec (event kind (read_event p.0 p.1)))
        (svc.decoders.cusdec_event body) s (λ a. refl) (λ a. refl)
        (λ a e. event_done kind (read_event a.0 a.1) e)

  -- An applier does with a body what the handler of its route would make the service do.
  pub apply_callback-decode :
      (r : Route) (body : String) (s : Site Engine)
      → apply_callback svc (record { event_type = name_of r; body = body }) s
        ≡ apply_decoded (decode svc.decoders r body) s
  unfolding apply_callback appliers lookup decode run process
  apply_callback-decode cusdec_integrated body s =
      decoded _ _ _ _ (svc.decoders.cusdec_result body) s (λ a. refl) (λ a. refl)
        (λ a e. result_done (read_result a.0 a.1) e)
  apply_callback-decode payment_confirmed body s = event_applier-decode "PAYMENT_CONFIRMED" body s
  apply_callback-decode warranting_completed body s =
      event_applier-decode "WARRANTING_COMPLETED" body s
  apply_callback-decode export_released body s = event_applier-decode "EXPORT_RELEASED" body s
  apply_callback-decode cusdec_amended body s =
      decoded _ _ _ _ (svc.decoders.cusdec_amendment body) s (λ a. refl) (λ a. refl) (λ a e. refl)
  apply_callback-decode cusdec_cancelled body s =
      decoded _ _ _ _ (svc.decoders.cusdec_cancellation body) s (λ a. refl) (λ a. refl)
        (λ a e. refl)
  apply_callback-decode cdn_integrated body s =
      decoded _ _ _ _ (svc.decoders.cdn_result body) s (λ a. refl) (λ a. refl) (λ a e. refl)
  apply_callback-decode cdn_acknowledged body s =
      decoded _ _ _ _ (svc.decoders.cdn_acknowledgment body) s (λ a. refl) (λ a. refl) (λ a e. refl)
  apply_callback-decode cdn_amended body s =
      decoded _ _ _ _ (svc.decoders.cdn_amendment body) s (λ a. refl) (λ a. refl) (λ a e. refl)
  apply_callback-decode cdn_cancelled body s =
      decoded _ _ _ _ (svc.decoders.cdn_cancellation body) s (λ a. refl) (λ a. refl) (λ a e. refl)
