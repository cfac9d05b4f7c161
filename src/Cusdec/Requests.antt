-- ===== src/Cusdec/Requests.antt =====
-- The callbacks of SLC Edge as they are read and validated: cusdec/models.go, integration_result.go,
-- and the requests of amendment.go and cancellation.go.
use nsw_srilanka.Common.{
  ℕ, String, ◌==◌, Bool, true, false, ◌&&◌, ◌||◌, not, Option, none, some, is_some, is_blank, eqb,
  if◌then◌else◌,
}
use nsw_srilanka.Common.Value.{Value, num, arr, Items, nil, cons, Fields, end, field}
use nsw_srilanka.Document.{Reference, is_valid}
use nsw_srilanka.Cdn.{Envelope, event_of, time_of}

-- verifyDuties; the charges in the JSON form that they are stored in.
pub record Duties : Type 0 where
  pub global_duties : Items
  pub item_duties : Items

abbrev pub is_nil : Items → Bool
is_nil nil = true
is_nil (cons v vs) = false

-- An amount is the text that encoding/json writes for it.
abbrev pub Amount : Type 0
Amount = String

-- cusdecResultPayload, with the reference in the two spellings that are read.
pub record ResultPayload : Type 0 where
  pub ref : Reference
  pub alt_ref : Reference
  pub edge_id : String
  pub integrated : Option Bool
  pub total_assessed : Option Amount
  pub amount_paid : Option Amount
  pub amount_payable : Option Amount
  pub duties : Duties
  pub errors : String

-- UnmarshalJSON of both payloads: the second spelling, where only it is valid.
abbrev pub read_ref : Reference → Reference → Reference
read_ref ref alt = if not (is_valid ref) && is_valid alt then alt else ref

-- CusdecIntegrationResultRequest
pub record IntegrationResult : Type 0 where
  pub edge_id : String
  pub integrated : Bool
  pub event : String
  pub process_at : ℕ
  pub ref : Reference
  pub total_assessed : Option Amount
  pub amount_paid : Option Amount
  pub amount_payable : Option Amount
  pub duties : Duties
  pub errors : String

abbrev pub flag : Option Bool → Bool
flag none = false
flag (some b) = b

-- UnmarshalJSON
abbrev pub read_result : Envelope → ResultPayload → IntegrationResult
read_result e p = record {
  edge_id = p.edge_id;
  integrated = flag p.integrated;
  event = event_of e;
  process_at = time_of e;
  ref = read_ref p.ref p.alt_ref;
  total_assessed = p.total_assessed;
  amount_paid = p.amount_paid;
  amount_payable = p.amount_payable;
  duties = p.duties;
  errors = p.errors;
}

-- Validate
abbrev pub valid_result : IntegrationResult → Bool
valid_result r =
    not (r.edge_id == "")
    && not (r.event == "")
    && not (eqb r.process_at 0)
    && (not r.integrated || is_valid r.ref)
    && (not r.integrated || is_some r.amount_payable)
    && (not r.integrated || is_some r.total_assessed)

-- cusdecEventPayload, the reference in two spellings.
pub record EventPayload : Type 0 where
  pub ref : Reference
  pub alt_ref : Reference
  pub amount_paid : Amount
  pub currency : String
  pub bank_reference : String
  pub release_order_no : String
  pub vessel_name : String
  pub voyage_no : String
  pub port_of_loading : String

-- CusdecEventRequest
pub record EventRequest : Type 0 where
  pub event : String
  pub process_at : ℕ
  pub ref : Reference
  pub amount_paid : Amount
  pub currency : String
  pub bank_reference : String
  pub release_order_no : String
  pub vessel_name : String
  pub voyage_no : String
  pub port_of_loading : String

-- UnmarshalJSON
abbrev pub read_event : Envelope → EventPayload → EventRequest
read_event e p = record {
  event = event_of e;
  process_at = time_of e;
  ref = read_ref p.ref p.alt_ref;
  amount_paid = p.amount_paid;
  currency = p.currency;
  bank_reference = p.bank_reference;
  release_order_no = p.release_order_no;
  vessel_name = p.vessel_name;
  voyage_no = p.voyage_no;
  port_of_loading = p.port_of_loading;
}

-- Validate
abbrev pub valid_event : EventRequest → Bool
valid_event r = not (r.event == "") && not (eqb r.process_at 0) && is_valid r.ref

-- CusdecAmendedRequest. The amended declaration is JSON as sent: whether it begins as an object, and
-- its fields, `none` where it does not decode.
pub record Amendment : Type 0 where
  pub event_type : String
  pub ref : Reference
  pub is_object : Bool
  pub cusdec : Option Fields
  pub duties : Duties
  pub operation_time : String

abbrev pub event_cusdec_amended : String
event_cusdec_amended = "CUSDEC_AMENDED"

-- Validate
abbrev pub valid_amendment : Amendment → Bool
valid_amendment r =
    (r.event_type == event_cusdec_amended)
    && is_valid r.ref
    && r.is_object
    && not (is_blank r.operation_time)

-- CusdecCancelledRequest; `cancelled_at` is the time in RFC 3339, in UTC.
pub record Cancellation : Type 0 where
  pub event_type : String
  pub processed_at : ℕ
  pub cancelled_at : String
  pub ref : Reference

abbrev pub event_cusdec_cancelled : String
event_cusdec_cancelled = "CUSDEC_CANCELLED"

-- Validate
abbrev pub valid_cancellation : Cancellation → Bool
valid_cancellation r =
    (r.event_type == event_cusdec_cancelled) && not (eqb r.processed_at 0) && is_valid r.ref

-- dutiesForTask
unfoldable pub duties_for_task : Duties → Option Fields
duties_for_task d =
    if is_nil d.global_duties && is_nil d.item_duties
    then none
    else some (
        field "globalDuties" (arr d.global_duties) (field "itemDutiesList" (arr d.item_duties) end))

-- amountToPay
unfoldable pub amount_to_pay : Option Amount → Value
amount_to_pay none = num "0"
amount_to_pay (some a) = num a
