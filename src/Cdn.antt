-- ===== src/Cdn.antt =====
-- external-integration/customs/asycuda/cdn: dispatch notes, the callbacks about them, and the table
-- that records them.
pub mod Parked
pub mod Callbacks
mod Examples
pub use nsw_srilanka.Document.{Reference, is_valid}
use Prim.Native.String.{◌++◌}
use nsw_srilanka.Common.{
  ℕ, String, ◌==◌, Bool, true, false, ◌&&◌, ◌||◌, not, Option, none, some, List, [], ◌∷◌, ltb, eqb,
  str_leb, is_blank, any, if◌then◌else◌,
}
use nsw_srilanka.Common.Tables.{first_row, set_row, insert_row}

abbrev pub same_reference : Reference → Reference → Bool
same_reference a b =
    (a.year == b.year) && (a.office == b.office) && (a.serial == b.serial) && eqb a.number b.number

-- DispatchNoteStatus
pub data DispatchNoteStatus : Type 0 where
  submitted integrated failed acknowledged cancelled : DispatchNoteStatus

-- A row of the dispatch notes; `errors` is the JSON text that Customs sent.
pub record DispatchNote : Type 0 where
  pub id : String
  pub edge_id : String
  pub status : DispatchNoteStatus
  pub ref : Reference
  pub errors : String
  pub case_id : String
  pub workflow_id : String

-- The errors of the callbacks, the sentinels first.
pub data Failure : Type 0 where
  not_found_by_edge_id not_recorded not_found_by_ref task_not_parked case_not_recorded : Failure
  database tasks_unread step_failed bad_transition no_case_flows bad_note flow_failed : Failure

-- The error a callback returns.
pub data Outcome : Type 0 where
  done : Outcome
  failure : Failure → Outcome

-- The envelope of an event, in the two spellings that are read; a time that is missing is 0.
pub record Envelope : Type 0 where
  pub event : String
  pub event_type : String
  pub process_at : ℕ
  pub processed_at : ℕ

-- UnmarshalJSON: the first spelling, or else the second.
abbrev pub event_of : Envelope → String
event_of e = if e.event == "" then e.event_type else e.event

abbrev pub time_of : Envelope → ℕ
time_of e = if eqb e.process_at 0 then e.processed_at else e.process_at

-- integrationResultPayload
pub record IntegrationResult : Type 0 where
  pub edge_id : String
  pub integrated : Bool
  pub cdn_ref : Reference
  pub errors : String

-- CDNIntegrationResultRequest.Validate
unfoldable pub valid_result : Envelope → IntegrationResult → Bool
valid_result e r =
    not (r.edge_id == "")
    && not (event_of e == "")
    && not (eqb (time_of e) 0)
    && (not r.integrated || is_valid r.cdn_ref)

-- CDNAcknowledgmentRequest.Validate
unfoldable pub valid_acknowledgment : Envelope → Reference → Bool
valid_acknowledgment e ref = not (event_of e == "") && not (eqb (time_of e) 0) && is_valid ref

-- CDNCancelledRequest.Validate; the notification has one spelling.
unfoldable pub valid_cancellation : String → ℕ → Reference → Bool
valid_cancellation event at ref = (event == "CDN_CANCELLED") && not (eqb at 0) && is_valid ref

-- The tables and the core library of a deployment: rows in the order of their primary key, which of
-- the database calls to come fail, and the task store with the engine behind it.
pub record World (Engine : Type 0) : Type 0 where
  pub notes : List DispatchNote
  pub faults : List Bool
  pub engine : Engine

-- The primary key, and the columns that Update selects.
abbrev pub id_of : DispatchNote → String
id_of n = n.id

abbrev pub patched : DispatchNote → DispatchNote → DispatchNote
patched new n = record n { status = new.status; ref = new.ref; errors = new.errors }

abbrev pub fails : List Bool → Bool
fails [] = false
fails (b ∷ bs) = b

abbrev pub later_faults : List Bool → List Bool
later_faults [] = []
later_faults (b ∷ bs) = bs

abbrev pub used : {Engine : Type 0} → World Engine → World Engine
used w = record w { faults = later_faults w.faults }

-- What a read finds; `unread` where the query fails.
pub data Found : Type 0 where
  unread missing : Found
  row : DispatchNote → Found

abbrev pub as_found : Option DispatchNote → Found
as_found none = missing
as_found (some n) = row n

module _ {Engine : Type 0} where
  -- GetByEdgeID
  unfoldable pub get_by_edge_id : String → World Engine → Found × World Engine
  unfolding first_row
  get_by_edge_id edge_id w = (
    if fails w.faults then unread else as_found (first_row (λ n. n.edge_id == edge_id) w.notes),
    used w,
  )

  -- GetByCDNRef
  unfoldable pub get_by_cdn_ref : Reference → World Engine → Found × World Engine
  unfolding first_row
  get_by_cdn_ref ref w = (
    if fails w.faults then unread else as_found (first_row (λ n. same_reference n.ref ref) w.notes),
    used w,
  )

  -- Update
  unfoldable pub update : DispatchNote → World Engine → Outcome × World Engine
  unfolding set_row
  update note w =
      if fails w.faults
      then (failure database, used w)
      else (done, record (used w) { notes = set_row id_of patched note w.notes })

  -- RecordSubmitted; `fresh` is the uuid, which the primary key refuses when it is taken.
  unfoldable pub record_submitted :
      String → String → String → String → World Engine → Outcome × World Engine
  unfolding insert_row
  record_submitted fresh edge_id case_id workflow_id w =
      if fails w.faults
      then (failure database, used w)
      else if any (λ n. n.edge_id == edge_id) w.notes
      then (done, used w)
      else if any (λ n. n.id == fresh) w.notes
      then (failure database, used w)
      else (
        done,
        record (used w) {
          notes =
              insert_row id_of
                (record {
                  id = fresh;
                  edge_id = edge_id;
                  status = submitted;
                  ref = record { year = ""; office = ""; serial = ""; number = 0 };
                  errors = "";
                  case_id = case_id;
                  workflow_id = workflow_id;
                })
                w.notes;
        },
      )
