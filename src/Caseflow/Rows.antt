-- ===== src/Caseflow/Rows.antt =====
-- The rows and errors of internal/caseflow (repository.go, service.go), and the tables as one
-- database value. Timestamps are left out.
use nsw_srilanka.Common.{ℕ, String, Option, List}
use nsw_srilanka.Common.Value.{Value, Fields}

-- StatusStarting, StatusStarted, StatusCompleted
pub data Status : Type 0 where
  starting started completed : Status

-- CaseInProgress, CaseFinished
pub data CaseState : Type 0 where
  in_progress finished : CaseState

-- A row of case_flows; `payload` is NULL or a jsonb value.
pub record Flow : Type 0 where
  pub workflow_id : String
  pub case_id : String
  pub template_id : String
  pub manifest_version : ℕ
  pub status : Status
  pub payload : Option Value

-- A row of cases, but for its id.
pub record CaseRow : Type 0 where
  pub state : CaseState
  pub name : Option String
  pub attributes : Fields

-- A row of case_parties, but for its key.
pub record Party : Type 0 where
  pub party_type : String
  pub party_id : String
  pub assigned_by : Option String

-- The tables, those that are only read by their primary key as functions of it.
pub record Db : Type 0 where
  pub cases : String → Option CaseRow
  pub flows : List Flow
  pub parties : String → String → Option Party

pub record Owner : Type 0 where
  pub role : String
  pub ou_handle : String

pub record CaseInfo : Type 0 where
  pub attributes : Fields
  pub name : String

-- The sentinel errors, and the failures of what the package calls. Wrapping keeps the sentinel.
pub data Err : Type 0 where
  invalid_request unknown_template conflict flow_not_found : Err
  database not_recorded payload_not_object no_manager : Err
  registry load engine : Err
  invalid_party : Err
