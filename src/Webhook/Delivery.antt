-- ===== src/Webhook/Delivery.antt =====
-- What becomes of a delivered callback: asycuda/handler.go with asycuda/retry.go.
pub mod Outcomes
pub mod Held
use text.Mathlib.TextPositions.{eq_refl}
use nsw_srilanka.Common.{
  String, ◌==◌, eq_iff, Bool, true, false, ◌&&◌, ◌||◌, not, Option, none, some, List, [], ◌∷◌, ◌≡◌,
  refl, sym, ap, ◌∙◌, subst, inl, inr, ◌⊎◌, ◌↔◌, In, here, any-In, contains, Bool-cases,
  Option-cases, arith, if◌then◌else◌,
}
use nsw_srilanka.Cdn
use nsw_srilanka.Cdn.Callbacks as NoteCallbacks
use nsw_srilanka.Cdn.Callbacks.Moves as NoteMoves
use nsw_srilanka.Cdn.Callbacks.Moves.Callback.{
  process_integration-Effect, process_acknowledgment-Effect, process_cancellation-Effect,
  process_amendment-Effect,
}
use nsw_srilanka.Cusdec
use nsw_srilanka.Cusdec.Notices.{Callback, result, event, amendment, cancellation, process}
use nsw_srilanka.Cusdec.Histories.{IsGood}
use nsw_srilanka.Cusdec.Histories.Rules.{Effect}
use nsw_srilanka.Cusdec.Histories.Effects.{process-Effect}
use nsw_srilanka.Retry.{CallbackError, is_early, schedule, key_of}
use nsw_srilanka.Retry
use nsw_srilanka.Webhook.{
  Answer, ok, accepted, bad_request, not_found, unavailable, internal_error, Route,
  cusdec_integrated, payment_confirmed, warranting_completed, export_released, cusdec_amended,
  cusdec_cancelled, cdn_integrated, cdn_acknowledged, cdn_amended, cdn_cancelled, name_of, route_of,
  Request, of_cusdec, cdn_result, cdn_acknowledgment, cdn_amendment, cdn_cancellation, decode,
  valid_request, ServiceError, cusdec_error, cdn_error, error_of,
}
use nsw_srilanka.Webhook.Handler.{
  Site, Services, cusdec_world, cdn_world, cusdec_reply, cdn_reply, run, answer, respond,
  handle_decoded, handle_route,
}
use nsw_srilanka.Webhook.Applier.{apply_callback}
use nsw_srilanka.Webhook.Applier.Decoded.{is_applied, ignored, apply_decoded, apply_callback-decode}

-- The answers after which SLC Edge does not deliver a callback again.
abbrev pub acknowledges : Answer → Bool
acknowledges ok = true
acknowledges accepted = true
acknowledges _ = false

-- The deployment without retries of its own.
abbrev pub unheld : {Engine : Type 0} → Services Engine → Services Engine
unheld svc = record svc { holds = false }

-- The callback of a route.
abbrev pub callback_of : Route → String → Retry.Callback
callback_of r body = record { event_type = name_of r; body = body }

-- An error is answered as done exactly where a retry takes it for success.
pub answer-is_applied :
    (q : Request) (e : ServiceError) → acknowledges (answer q e) ≡ is_applied q e
answer-is_applied (of_cusdec (result req)) (cusdec_error e) = ground arith
answer-is_applied (of_cusdec (event kind req)) (cusdec_error e) = ground arith
answer-is_applied (of_cusdec (amendment a)) (cusdec_error e) = ground arith
answer-is_applied (of_cusdec (cancellation c)) (cusdec_error e) = ground arith
answer-is_applied (of_cusdec (result req)) (cdn_error e) = refl
answer-is_applied (of_cusdec (event kind req)) (cdn_error e) = refl
answer-is_applied (of_cusdec (amendment a)) (cdn_error e) = refl
answer-is_applied (of_cusdec (cancellation c)) (cdn_error e) = refl
answer-is_applied (cdn_result x req) (cdn_error e) = ground arith
answer-is_applied (cdn_acknowledgment x ref) (cdn_error e) = ground arith
answer-is_applied (cdn_amendment a) (cdn_error e) = ground arith
answer-is_applied (cdn_cancellation t at ref) (cdn_error e) = ground arith
answer-is_applied (cdn_result x req) (cusdec_error e) = refl
answer-is_applied (cdn_acknowledgment x ref) (cusdec_error e) = refl
answer-is_applied (cdn_amendment a) (cusdec_error e) = refl
answer-is_applied (cdn_cancellation t at ref) (cusdec_error e) = refl

-- What a retry reports of an outcome, and what the handler answers without retries, agree.
abbrev Agrees :
    {Engine : Type 0} → Option CallbackError × Site Engine → Answer × Site Engine → Type 0
Agrees a h = (a.1 ≡ h.1) × ((a.0 ≡ none) ↔ (acknowledges h.0 ≡ true))

module _ {Engine : Type 0} (svc : Services Engine) where
  respond-Agrees :
      (cb : Retry.Callback) (q : Request) (r : Option ServiceError × Site Engine)
      → Agrees (ignored q r.0, r.1) (respond (unheld svc) cb q r)
  unfolding respond
  respond-Agrees cb q (none, s) = (refl, (λ h. refl, λ h. refl))
  respond-Agrees cb q (some e, s) =
      let k = answer-is_applied q e in
      elim (Bool-cases (is_applied q e)) [
        | inl y ↦ (refl, (λ h. k ∙ y, λ h. rw y))
        | inr n ↦ (
          refl,
          (λ h. absurd (let j = rw n at h in cc), λ h. absurd (let j = sym h ∙ k ∙ n in cc)),
        )
      ]

  decoded-Agrees :
      (cb : Retry.Callback) (o : Option Request) (s : Site Engine)
      → Agrees (apply_decoded svc o s) (handle_decoded (unheld svc) cb o s)
  unfolding apply_decoded handle_decoded run
  decoded-Agrees cb none s = (refl, (λ h. absurd (cc), λ h. absurd (cc)))
  decoded-Agrees cb (some q) s = elim (Bool-cases (valid_request q)) [
    | inl y ↦ rw y (respond-Agrees cb q (run svc q s))
    | inr n ↦ rw n (refl, (λ h. absurd (cc), λ h. absurd (cc)))
  ]

  -- A held callback is applied as it would have been handled on delivery: the tables and the engine
  -- end the same, and a retry takes it for applied exactly where a deployment without retries
  -- answers SLC Edge that it need not deliver it again.
  pub apply-handle :
      (r : Route) (body : String) (s : Site Engine)
      → ((apply_callback svc (callback_of r body) s).1
          ≡ (handle_route (unheld svc) (some r) body s).1)
        × (((apply_callback svc (callback_of r body) s).0 ≡ none)
            ↔ (acknowledges (handle_route (unheld svc) (some r) body s).0 ≡ true))
  unfolding handle_route
  apply-handle r body s =
      rw (apply_callback-decode svc r body s)
        (decoded-Agrees (callback_of r body) (decode svc.decoders r body) s)

pub pending_key :
    (digest : String → String) (cb : Retry.Callback) (keys : List String)
    → In (key_of digest cb) (schedule digest cb keys).0
unfolding schedule
pending_key digest cb keys = elim (Bool-cases (contains keys (key_of digest cb))) [
  | inr n ↦ rw n here
  | inl y ↦
      let (k, m, e) = any-In (λ x. x == key_of digest cb) keys y in
      rw y (subst (λ z. In z keys) ((eq_iff k (key_of digest cb)).0 e) m)
]
