-- ===== src/Webhook/Examples.antt =====
-- Tests and instances for the route of SLC Edge's callbacks.
use nsw_srilanka.Common.{true, false, none, some, List, [], ◌∷◌, ◌≡◌, refl, In, ◌⊎◌, ◌↔◌}
use nsw_srilanka.Common.Tables.{first_row}
use nsw_srilanka.Common.Value.{nil}
use nsw_srilanka.Document.{Reference}
use nsw_srilanka.Cdn.{Envelope}
use nsw_srilanka.Cdn.Callbacks as NoteCallbacks
use nsw_srilanka.Cdn.Parked.{TaskRecord}
use nsw_srilanka.Cusdec.Callbacks
use nsw_srilanka.Cusdec.Requests.{ResultPayload}
use nsw_srilanka.Cusdec.Histories.{IsGood}
use nsw_srilanka.Retry.{cusdec_not_recorded, key_of}
use nsw_srilanka.Webhook.{
  accepted, unavailable, cusdec_integrated, export_released, to_upper, Decoders,
}
use nsw_srilanka.Webhook.Handler.{Site, Services, handle_route, handle_webhook}
use nsw_srilanka.Webhook.Applier.{apply_callback}
use nsw_srilanka.Webhook.Delivery.{acknowledges, unheld, callback_of, apply-handle}
use nsw_srilanka.Webhook.Delivery.Outcomes.{SameTables, acknowledged_lem}
use nsw_srilanka.Webhook.Delivery.Held.{is_unavailable, held_lem}

abbrev no_ref : Reference
no_ref = record { year = ""; office = ""; serial = ""; number = 0 }

abbrev envelope : Envelope
envelope = record { event = ""; event_type = "CUSDEC_INTEGRATED"; process_at = 0; processed_at = 7 }

abbrev refusal : ResultPayload
refusal = record {
  ref = no_ref;
  alt_ref = no_ref;
  edge_id = "e1";
  integrated = some false;
  total_assessed = none;
  amount_paid = none;
  amount_payable = none;
  duties = record { global_duties = nil; item_duties = nil };
  errors = "{}";
}

-- Every body is a refusal of the same submission.
abbrev decoders : Decoders
decoders = record {
  envelope = λ b. some " cusdec_integrated";
  cusdec_result = λ b. some (envelope, refusal);
  cusdec_event = λ b. none;
  cusdec_amendment = λ b. none;
  cusdec_cancellation = λ b. none;
  cdn_result = λ b. none;
  cdn_acknowledgment = λ b. none;
  cdn_amendment = λ b. none;
  cdn_cancellation = λ b. none;
}

abbrev Tasks : Type 0
Tasks = List TaskRecord

abbrev cusdec : Callbacks.Wiring Tasks
cusdec = record {
  tasks = λ ts c. some ts;
  complete = λ t step payload ts. (true, []);
  flows = none;
  describe_errors = λ e. e;
  digest = λ t. "d";
}

abbrev cdn : NoteCallbacks.Wiring Tasks
cdn = record {
  tasks = none;
  complete = none;
  flows = none;
  describe_errors = λ e. e;
  digest = λ t. "d";
}

abbrev services : Services Tasks
services = record {
  decoders = decoders;
  cusdec = cusdec;
  cdn = cdn;
  holds = true;
  digest = λ b. "h";
}

abbrev empty_site : Site Tasks
empty_site = record { declarations = []; notes = []; faults = []; engine = []; pending = [] }

empty_table : IsGood empty_site.declarations
empty_table = record { ids = tt; sound = λ d m. elim m [ ] }

upper_case : to_upper "Cdn_ıſ" ≡ "CDN_IS"
unfolding to_upper
upper_case = refl

-- A result that arrives before its submission is recorded is held.
early :
    handle_webhook services (some "{}") empty_site
    ≡ (accepted, record empty_site { pending = "CUSDEC_INTEGRATED h" ∷ [] })
unfolding handle_webhook first_row
early = refl

early_unheld : handle_webhook (unheld services) (some "{}") empty_site ≡ (unavailable, empty_site)
unfolding handle_webhook first_row
early_unheld = refl

still_early :
    apply_callback services (callback_of cusdec_integrated "{}") empty_site
    ≡ (some cusdec_not_recorded, empty_site)
unfolding apply_callback first_row
still_early = refl

told_later :
    is_unavailable (handle_route (unheld services) (some cusdec_integrated) "{}" empty_site).0
    ≡ true
unfolding handle_route first_row
told_later = refl

told_no_more :
    acknowledges (handle_route services (some cusdec_integrated) "{}" empty_site).0 ≡ true
unfolding handle_route first_row
told_no_more = refl

undecoded : acknowledges (handle_route services (some export_released) "{}" empty_site).0 ≡ false
unfolding handle_route
undecoded = refl

apply-handle_example :
    ((apply_callback services (callback_of cusdec_integrated "{}") empty_site).1
      ≡ (handle_route (unheld services) (some cusdec_integrated) "{}" empty_site).1)
    × (((apply_callback services (callback_of cusdec_integrated "{}") empty_site).0 ≡ none) ↔ (
        acknowledges (handle_route (unheld services) (some cusdec_integrated) "{}" empty_site).0
        ≡ true))
apply-handle_example = apply-handle services cusdec_integrated "{}" empty_site

acknowledged_lem_example :
    (((apply_callback services (callback_of cusdec_integrated "{}") empty_site).0 ≡ none)
      × ((handle_route services (some cusdec_integrated) "{}" empty_site).1
          ≡ (apply_callback services (callback_of cusdec_integrated "{}") empty_site).1))
    ⊎ (SameTables empty_site (handle_route services (some cusdec_integrated) "{}" empty_site).1
        × In
            (key_of services.digest (callback_of cusdec_integrated "{}"))
            (handle_route services (some cusdec_integrated) "{}" empty_site).1.pending)
acknowledged_lem_example =
    acknowledged_lem services cusdec_integrated "{}" empty_site empty_table told_no_more

held_lem_example :
    ((handle_route services (some cusdec_integrated) "{}" empty_site).0 ≡ accepted)
    × In
        (key_of services.digest (callback_of cusdec_integrated "{}"))
        (handle_route services (some cusdec_integrated) "{}" empty_site).1.pending
held_lem_example = held_lem services refl cusdec_integrated "{}" empty_site told_later
