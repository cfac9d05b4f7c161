-- ===== src/Cusdec.antt =====
-- external-integration/customs/asycuda/cusdec: customs declarations, and the table that records them
-- (models.go, errors.go and repository.go).
pub mod Requests
pub mod Callbacks
pub mod Notices
pub mod Histories
pub mod Release
pub mod Told
pub mod Applied
pub mod Registered
mod Examples
use nsw_srilanka.Common.{
  ℕ, String, ◌==◌, Bool, true, false, ◌&&◌, Option, none, some, List, [], ◌∷◌, ltb, leb, str_leb,
  any, if◌then◌else◌,
}
use nsw_srilanka.Common.Tables.{first_row, set_row, insert_row}
use nsw_srilanka.Document.{Reference}
use nsw_srilanka.Cdn.{same_reference, fails, later_faults}

-- CusdecStatus
pub data CusdecStatus : Type 0 where
  submitted integrated failed paid warranted released : CusdecStatus

-- eventStatusOrder
abbrev pub event_status_order : CusdecStatus → ℕ
event_status_order submitted = 1
event_status_order integrated = 2
event_status_order failed = 0
event_status_order paid = 3
event_status_order warranted = 4
event_status_order released = 5

-- hasReached
abbrev pub has_reached : CusdecStatus → CusdecStatus → Bool
has_reached s target = leb (event_status_order target) (event_status_order s)

-- CusdecDeclaration; `errors` is the JSON text that Customs sent, empty where there is none.
pub record Declaration : Type 0 where
  pub id : String
  pub edge_id : String
  pub status : CusdecStatus
  pub ref : Reference
  pub errors : String
  pub case_id : String
  pub workflow_id : String
  pub created_at : ℕ

-- The errors of the callbacks, the sentinels first.
pub data Failure : Type 0 where
  workflow_not_found not_recorded task_not_parked not_found_by_ref case_not_recorded : Failure
  duplicate_result duplicate_event : Failure
  database tasks_unread step_failed unsupported_event no_case_flows bad_declaration : Failure
  flow_failed invalid_callback : Failure

pub data Outcome : Type 0 where
  done : Outcome
  failure : Failure → Outcome

-- The table and the core library of a deployment: rows in the order of their primary key, which of
-- the database calls to come fail, and the task store with the engine behind it.
pub record World (Engine : Type 0) : Type 0 where
  pub declarations : List Declaration
  pub faults : List Bool
  pub engine : Engine

abbrev pub used : {Engine : Type 0} → World Engine → World Engine
used w = record w { faults = later_faults w.faults }

abbrev pub newer : Declaration → Option Declaration → Option Declaration
newer d none = some d
newer d (some e) = if ltb d.created_at e.created_at then some e else some d

-- SELECT … ORDER BY created_at DESC, id LIMIT 1
unfoldable pub latest : (Declaration → Bool) → List Declaration → Option Declaration
latest p [] = none
latest p (d ∷ ds) = let rest = latest p ds in if p d then newer d rest else rest

-- The columns that Update selects.
abbrev pub patched : Declaration → Declaration → Declaration
patched new d = record d { status = new.status; ref = new.ref; errors = new.errors }

abbrev pub id_of : Declaration → String
id_of d = d.id

-- What a read finds; `unread` where the query fails.
pub data Found : Type 0 where
  unread missing : Found
  row : Declaration → Found

abbrev pub as_found : Option Declaration → Found
as_found none = missing
as_found (some d) = row d

-- A row as RecordSubmitted writes it.
abbrev pub fresh_row : String → String → String → String → ℕ → Declaration
fresh_row id edge_id case_id workflow_id now = record {
  id = id;
  edge_id = edge_id;
  status = submitted;
  ref = record { year = ""; office = ""; serial = ""; number = 0 };
  errors = "";
  case_id = case_id;
  workflow_id = workflow_id;
  created_at = now;
}

module _ {Engine : Type 0} where
  -- GetByEdgeID
  unfoldable pub get_by_edge_id : String → World Engine → Found × World Engine
  unfolding first_row
  get_by_edge_id edge_id w = (
    if fails w.faults
        then unread
        else as_found (first_row (λ d. d.edge_id == edge_id) w.declarations),
    used w,
  )

  -- GetByCusdecRef
  unfoldable pub get_by_cusdec_ref : Reference → World Engine → Found × World Engine
  unfolding first_row
  get_by_cusdec_ref ref w = (
    if fails w.faults
        then unread
        else as_found (first_row (λ d. same_reference d.ref ref) w.declarations),
    used w,
  )

  -- GetRegisteredByCase
  unfoldable pub get_registered_by_case : String → World Engine → Found × World Engine
  unfolding latest
  get_registered_by_case case_id w = (
    if fails w.faults
        then unread
        else as_found (latest (λ d. (d.case_id == case_id) && ltb 0 d.ref.number) w.declarations),
    used w,
  )

  -- Update
  unfoldable pub update : Declaration → World Engine → Outcome × World Engine
  unfolding set_row
  update decl w =
      if fails w.faults
      then (failure database, used w)
      else (done, record (used w) { declarations = set_row id_of patched decl w.declarations })

  -- RecordSubmitted; `fresh` is the uuid, which the primary key refuses when it is taken, and `now`
  -- the time of the insert.
  unfoldable pub record_submitted :
      String → String → String → String → ℕ → World Engine → Outcome × World Engine
  unfolding insert_row
  record_submitted fresh edge_id case_id workflow_id now w =
      if fails w.faults
      then (failure database, used w)
      else if any (λ d. d.edge_id == edge_id) w.declarations
      then (done, used w)
      else if any (λ d. d.id == fresh) w.declarations
      then (failure database, used w)
      else (
        done,
        record (used w) {
          declarations =
              insert_row id_of (fresh_row fresh edge_id case_id workflow_id now) w.declarations;
        },
      )
