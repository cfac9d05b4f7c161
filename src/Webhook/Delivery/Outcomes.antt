-- ===== src/Webhook/Delivery/Outcomes.antt =====
-- The two outcomes of a delivery to asycuda/handler.go: acknowledged, or left to deliver again.
use nsw_srilanka.Common.{
  String, true, false, ◌&&◌, Option, none, some, ◌≡◌, refl, sym, ◌∙◌, inl, inr, ◌⊎◌, In, Bool-cases,
}
use nsw_srilanka.Cdn
use nsw_srilanka.Cdn.Callbacks as NoteCallbacks
use nsw_srilanka.Cdn.Callbacks.Moves as NoteMoves
use nsw_srilanka.Cdn.Callbacks.Moves.Callback.{
  process_integration-Effect, process_acknowledgment-Effect, process_cancellation-Effect,
  process_amendment-Effect,
}
use nsw_srilanka.Cusdec
use nsw_srilanka.Cusdec.Notices.{process}
use nsw_srilanka.Cusdec.Histories.{IsGood}
use nsw_srilanka.Cusdec.Histories.Rules.{Effect}
use nsw_srilanka.Cusdec.Histories.Effects.{process-Effect}
use nsw_srilanka.Retry.{CallbackError, is_early, schedule, key_of}
use nsw_srilanka.Retry
use nsw_srilanka.Webhook.{
  Route, Request, of_cusdec, cdn_result, cdn_acknowledgment, cdn_amendment, cdn_cancellation,
  decode, valid_request, ServiceError, error_of,
}
use nsw_srilanka.Webhook.Handler.{
  Site, Services, cusdec_world, cdn_world, cusdec_reply, cdn_reply, run, respond, handle_decoded,
  handle_route,
}
use nsw_srilanka.Webhook.Applier.{apply_callback}
use nsw_srilanka.Webhook.Applier.Decoded.{ignored, apply_decoded, apply_callback-decode}
use nsw_srilanka.Webhook.Delivery.{acknowledges, callback_of, answer-is_applied, pending_key}

-- The tables of declarations and of notes are the same.
abbrev pub SameTables : {Engine : Type 0} → Site Engine → Site Engine → Type 0
SameTables s v = (v.declarations ≡ s.declarations) × (v.notes ≡ s.notes)

module _ {Engine : Type 0} where
  cusdec_failed :
      (r : Cusdec.Outcome × Cusdec.World Engine) (s : Site Engine)
      → Effect (cusdec_world s) r
      → (e : ServiceError) → (cusdec_reply r s).0 ≡ some e
      → SameTables s (cusdec_reply r s).1
  cusdec_failed (Cusdec.done, w) s x e h = absurd (cc)
  cusdec_failed (Cusdec.failure f, w) s (inl same) e h = (same, refl)
  cusdec_failed (Cusdec.failure f, w) s (inr (q, p)) e h = absurd (cc)

  cdn_failed :
      (r : Cdn.Outcome × Cdn.World Engine) (s : Site Engine)
      → NoteMoves.Effect (cdn_world s) r
      → (e : ServiceError) → (cdn_reply r s).0 ≡ some e
      → SameTables s (cdn_reply r s).1
  cdn_failed (Cdn.done, w) s x e h = absurd (cc)
  cdn_failed (Cdn.failure f, w) s (inl same) e h = (refl, same)
  cdn_failed (Cdn.failure f, w) s (inr (q, p)) e h = absurd (cc)

  cusdec_pending :
      (r : Cusdec.Outcome × Cusdec.World Engine) (s : Site Engine)
      → (cusdec_reply r s).1.pending ≡ s.pending
  cusdec_pending (Cusdec.done, w) s = refl
  cusdec_pending (Cusdec.failure f, w) s = refl

  cdn_pending :
      (r : Cdn.Outcome × Cdn.World Engine) (s : Site Engine) → (cdn_reply r s).1.pending ≡ s.pending
  cdn_pending (Cdn.done, w) s = refl
  cdn_pending (Cdn.failure f, w) s = refl

module _ {Engine : Type 0} (svc : Services Engine) where
  run_failed :
      (q : Request) (s : Site Engine) (e : ServiceError)
      → IsGood s.declarations
      → valid_request q ≡ true
      → (run svc q s).0 ≡ some e
      → SameTables s (run svc q s).1
  unfolding run
  run_failed (of_cusdec c) s e g v h =
      cusdec_failed (process svc.cusdec c (cusdec_world s)) s
        (process-Effect svc.cusdec c (cusdec_world s) g.sound v) e h
  run_failed (cdn_result x req) s e g v h =
      cdn_failed (NoteCallbacks.process_integration_result svc.cdn req (cdn_world s)) s
        (process_integration-Effect svc.cdn req (cdn_world s)) e h
  run_failed (cdn_acknowledgment x ref) s e g v h =
      cdn_failed (NoteCallbacks.process_acknowledgment svc.cdn ref (cdn_world s)) s
        (process_acknowledgment-Effect svc.cdn ref (cdn_world s)) e h
  run_failed (cdn_amendment a) s e g v h =
      cdn_failed (NoteCallbacks.process_amendment svc.cdn a.amendment (cdn_world s)) s
        (process_amendment-Effect svc.cdn a.amendment (cdn_world s)) e h
  run_failed (cdn_cancellation t at ref) s e g v h =
      cdn_failed (NoteCallbacks.process_cancellation svc.cdn ref (cdn_world s)) s
        (process_cancellation-Effect svc.cdn ref (cdn_world s)) e h

  run_pending : (q : Request) (s : Site Engine) → (run svc q s).1.pending ≡ s.pending
  unfolding run
  run_pending (of_cusdec c) s = cusdec_pending (process svc.cusdec c (cusdec_world s)) s
  run_pending (cdn_result x req) s =
      cdn_pending (NoteCallbacks.process_integration_result svc.cdn req (cdn_world s)) s
  run_pending (cdn_acknowledgment x ref) s =
      cdn_pending (NoteCallbacks.process_acknowledgment svc.cdn ref (cdn_world s)) s
  run_pending (cdn_amendment a) s =
      cdn_pending (NoteCallbacks.process_amendment svc.cdn a.amendment (cdn_world s)) s
  run_pending (cdn_cancellation t at ref) s =
      cdn_pending (NoteCallbacks.process_cancellation svc.cdn ref (cdn_world s)) s

  -- A response that is no success leaves the tables as the failed call did.
  respond_cases :
      (cb : Retry.Callback) (q : Request) (r : Option ServiceError × Site Engine) (s : Site Engine)
      → r.1.pending ≡ s.pending
      → ((e : ServiceError) → r.0 ≡ some e → SameTables s r.1)
      → (acknowledges (respond svc cb q r).0 ≡ true
          → ((ignored q r.0 ≡ none) × ((respond svc cb q r).1 ≡ r.1))
            ⊎ (SameTables s (respond svc cb q r).1
                × In (key_of svc.digest cb) (respond svc cb q r).1.pending))
        × (acknowledges (respond svc cb q r).0 ≡ false
            → SameTables s (respond svc cb q r).1 × ((respond svc cb q r).1.pending ≡ s.pending))
  unfolding respond
  respond_cases cb q (none, v) s p f = (λ h. inl (refl, refl), λ h. absurd (cc))
  respond_cases cb q (some e, v) s p f = elim (Bool-cases (svc.holds && is_early (error_of e))) [
    | inl y ↦ rw y (λ h. inr (f e refl, pending_key svc.digest cb v.pending), λ h. absurd (cc))
    | inr n ↦
        rw n (λ h. inl (let k = sym (answer-is_applied q e) ∙ h in rw k, refl), λ h. (f e refl, p))
  ]

  decoded_cases :
      (cb : Retry.Callback) (o : Option Request) (s : Site Engine)
      → IsGood s.declarations
      → (acknowledges (handle_decoded svc cb o s).0 ≡ true
          → (((apply_decoded svc o s).0 ≡ none)
              × ((handle_decoded svc cb o s).1 ≡ (apply_decoded svc o s).1))
            ⊎ (SameTables s (handle_decoded svc cb o s).1
                × In (key_of svc.digest cb) (handle_decoded svc cb o s).1.pending))
        × (acknowledges (handle_decoded svc cb o s).0 ≡ false
            → SameTables s (handle_decoded svc cb o s).1
              × ((handle_decoded svc cb o s).1.pending ≡ s.pending))
  unfolding handle_decoded apply_decoded
  decoded_cases cb none s g = (λ h. absurd (cc), λ h. ((refl, refl), refl))
  decoded_cases cb (some q) s g = elim (Bool-cases (valid_request q)) [
    | inl y ↦
        rw y (respond_cases cb q (run svc q s) s (run_pending q s) (λ e h. run_failed q s e g y h))
    | inr n ↦ rw n (λ h. absurd (cc), λ h. ((refl, refl), refl))
  ]

  -- A delivery that SLC Edge is told not to repeat either has left the tables, the engine and the
  -- pending keys as the callback's applier would leave them, which reports no error; or it has changed
  -- neither table and its key is among the pending.
  pub acknowledged_lem :
      (r : Route) (body : String) (s : Site Engine)
      → IsGood s.declarations
      → acknowledges (handle_route svc (some r) body s).0 ≡ true
      → (((apply_callback svc (callback_of r body) s).0 ≡ none)
          × ((handle_route svc (some r) body s).1 ≡ (apply_callback svc (callback_of r body) s).1))
        ⊎ (SameTables s (handle_route svc (some r) body s).1
            × In
                (key_of svc.digest (callback_of r body))
                (handle_route svc (some r) body s).1.pending)
  unfolding handle_route
  acknowledged_lem r body s g h =
      rw (apply_callback-decode svc r body s)
        ((decoded_cases (callback_of r body) (decode svc.decoders r body) s g).0 h)

  -- A callback that SLC Edge is left to deliver again has changed neither table and is not held.
  pub refused_lem :
      (r : Route) (body : String) (s : Site Engine)
      → IsGood s.declarations
      → acknowledges (handle_route svc (some r) body s).0 ≡ false
      → SameTables s (handle_route svc (some r) body s).1
        × ((handle_route svc (some r) body s).1.pending ≡ s.pending)
  unfolding handle_route
  refused_lem r body s g h =
      (decoded_cases (callback_of r body) (decode svc.decoders r body) s g).1 h
