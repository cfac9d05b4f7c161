-- ===== src/Webhook/Delivery/Held.antt =====
-- What asycuda/handler.go holds where it retries: what it would have answered 503.
use nsw_srilanka.Common.{
  String, Bool, true, false, Option, none, some, ◌≡◌, refl, inl, inr, In, Bool-cases, arith,
}
use nsw_srilanka.Cusdec.Notices.{result, event, amendment, cancellation}
use nsw_srilanka.Retry.{CallbackError, is_early, schedule, key_of}
use nsw_srilanka.Retry
use nsw_srilanka.Webhook.{
  Answer, accepted, unavailable, Route, Request, of_cusdec, cdn_result, cdn_acknowledgment,
  cdn_amendment, cdn_cancellation, decode, valid_request, ServiceError, cusdec_error, cdn_error,
  error_of,
}
use nsw_srilanka.Webhook.Handler.{
  Site, Services, run, answer, respond, handle_decoded, handle_route,
}
use nsw_srilanka.Webhook.Delivery.{unheld, callback_of, pending_key}

abbrev pub is_unavailable : Answer → Bool
is_unavailable unavailable = true
is_unavailable _ = false

unavailable-is_early :
    (q : Request) (e : ServiceError)
    → is_unavailable (answer q e) ≡ true
    → is_early (error_of e) ≡ true
unavailable-is_early (of_cusdec (result req)) (cusdec_error e) h = ground arith
unavailable-is_early (of_cusdec (event kind req)) (cusdec_error e) h = ground arith
unavailable-is_early (of_cusdec (amendment a)) (cusdec_error e) h = ground arith
unavailable-is_early (of_cusdec (cancellation c)) (cusdec_error e) h = ground arith
unavailable-is_early (of_cusdec (result req)) (cdn_error e) h = absurd (cc)
unavailable-is_early (of_cusdec (event kind req)) (cdn_error e) h = absurd (cc)
unavailable-is_early (of_cusdec (amendment a)) (cdn_error e) h = absurd (cc)
unavailable-is_early (of_cusdec (cancellation c)) (cdn_error e) h = absurd (cc)
unavailable-is_early (cdn_result x req) (cdn_error e) h = ground arith
unavailable-is_early (cdn_acknowledgment x ref) (cdn_error e) h = ground arith
unavailable-is_early (cdn_amendment a) (cdn_error e) h = ground arith
unavailable-is_early (cdn_cancellation t at ref) (cdn_error e) h = ground arith
unavailable-is_early (cdn_result x req) (cusdec_error e) h = absurd (cc)
unavailable-is_early (cdn_acknowledgment x ref) (cusdec_error e) h = absurd (cc)
unavailable-is_early (cdn_amendment a) (cusdec_error e) h = absurd (cc)
unavailable-is_early (cdn_cancellation t at ref) (cusdec_error e) h = absurd (cc)

module _ {Engine : Type 0} (svc : Services Engine) (holding : svc.holds ≡ true) where
  respond_held :
      (cb : Retry.Callback) (q : Request) (r : Option ServiceError × Site Engine)
      → is_unavailable (respond (unheld svc) cb q r).0 ≡ true
      → ((respond svc cb q r).0 ≡ accepted)
        × In (key_of svc.digest cb) (respond svc cb q r).1.pending
  unfolding respond
  respond_held cb q (none, s) h = absurd (cc)
  respond_held cb q (some e, s) h =
      let k = unavailable-is_early q e h in
      rw (holding, k) (refl, pending_key svc.digest cb s.pending)

  decoded_held :
      (cb : Retry.Callback) (o : Option Request) (s : Site Engine)
      → is_unavailable (handle_decoded (unheld svc) cb o s).0 ≡ true
      → ((handle_decoded svc cb o s).0 ≡ accepted)
        × In (key_of svc.digest cb) (handle_decoded svc cb o s).1.pending
  unfolding handle_decoded run
  decoded_held cb none s h = absurd (cc)
  decoded_held cb (some q) s h = elim (Bool-cases (valid_request q)) [
    | inl y ↦ rw y (respond_held cb q (run svc q s) (rw y at h))
    | inr n ↦ absurd (let k = rw n at h in cc)
  ]

  -- A deployment that retries accepts and holds every callback that one without retries tells SLC
  -- Edge to deliver again later.
  pub held_lem :
      (r : Route) (body : String) (s : Site Engine)
      → is_unavailable (handle_route (unheld svc) (some r) body s).0 ≡ true
      → ((handle_route svc (some r) body s).0 ≡ accepted)
        × In (key_of svc.digest (callback_of r body)) (handle_route svc (some r) body s).1.pending
  unfolding handle_route
  held_lem r body s h = decoded_held (callback_of r body) (decode svc.decoders r body) s h
