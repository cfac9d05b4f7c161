-- ===== src/Caseflow/Client.antt =====
-- internal/caseflow/client_handler.go: the route on which another system starts a flow.
pub mod Access
use nsw_srilanka.Common.{
  ℕ, String, ◌==◌, Bool, true, false, ◌&&◌, ◌||◌, not, Option, none, some, List, [], ◌∷◌, leb, Dict,
  lookup, insert, trim_space, rune_count, if◌then◌else◌,
}
use nsw_srilanka.Common.Value.{Value, null, str, obj, Fields, end, field, set_field}
use nsw_srilanka.Principal.{Principal, Kind, user, client}
use nsw_srilanka.Caseflow.Rows.{Flow, Owner, CaseInfo, Err, invalid_request, conflict}
use nsw_srilanka.Caseflow.Exec.{Result, ok, err}
use nsw_srilanka.Caseflow.Config.{ClientFlow, ClientFlows, case_column_name, find_client_flow}
use nsw_srilanka.Caseflow.Service.{StartRequest, Deps, World, start_flow}

-- A raw JSON member: absent, not JSON, or a value.
pub data Raw : Type 0 where
  absent malformed : Raw
  decoded : Value → Raw

pub record ClientStartRequest : Type 0 where
  pub workflow_id : String
  pub flow_id : String
  pub input : Raw
  pub callback_token : String
  pub attributes : Fields

-- The answers of the route.
pub data Response : Type 0 where
  bad_request : Response
  not_found : Response
  conflicting : Response
  internal_error : Response
  started_flow : Flow → Response

-- NewClientHandler's inversion of the catalog's Clients: client id to name, the last entry of an id
-- kept.
unfoldable pub by_id : Dict String → Dict String
by_id [] = []
by_id ((name, id) ∷ rest) =
    let m = by_id rest in elim (lookup id m) [ some n ↦ m | none ↦ insert id name m ]

allowed_client : ClientFlows → String → Option String → Option ClientFlow
allowed_client list workflow none = none
allowed_client list workflow (some name) = find_client_flow list workflow name

allowed_kind : ClientFlows → Dict String → String → Principal → Kind → Option ClientFlow
unfolding allowed_client
allowed_kind list clients workflow p user = none
allowed_kind list clients workflow p client =
    allowed_client list workflow (lookup p.client_id clients)

-- allowed
unfoldable pub allowed : ClientFlows → Dict String → String → Option Principal → Option ClientFlow
unfolding allowed_kind
allowed list clients workflow none = none
allowed list clients workflow (some p) = allowed_kind list clients workflow p p.kind

abbrev pub max_case_name_length : ℕ
max_case_name_length = 255

-- `at` is jsonpointer.Get, of the core library.
module _ (at : Fields → String → Option Value) where
  name_in : Option Value → String
  name_in (some (str s)) =
      let name = trim_space s in if leb (rune_count name) max_case_name_length then name else ""
  name_in _ = ""

  name_of : Fields → Option String → String
  unfolding name_in
  name_of attrs none = ""
  name_of attrs (some pointer) = name_in (at attrs pointer)

  -- caseInfo
  unfoldable pub case_info : Fields → Dict String → Option CaseInfo
  unfolding name_of
  case_info end columns = none
  case_info (field k v fs) columns = some (record {
    attributes = field k v fs;
    name = name_of (field k v fs) (lookup case_column_name columns);
  })

input_value : Raw → Option Value
input_value absent = some null
input_value malformed = none
input_value (decoded v) = some v

vars_with : String → ClientStartRequest → Value → Fields
vars_with case_id req input =
    let vars = field "taskId" (str req.flow_id) (
      field "taskCode" (str req.workflow_id)
        (field "consignmentId" (str case_id) (field "notification" input end))) in
    if req.callback_token == ""
    then vars
    else set_field "callbackToken" (str req.callback_token) vars

-- clientVars
unfoldable pub client_vars : String → ClientStartRequest → Option Fields
unfolding input_value vars_with
client_vars case_id req = elim (input_value req.input) [
  | none ↦ none
  | some v ↦ some (vars_with case_id req v)
]

respond : Result Flow → Response
respond (ok f) = started_flow f
respond (err invalid_request) = bad_request
respond (err conflict) = conflicting
respond (err _) = internal_error

module _ {Def Engine : Type 0} (deps : Deps Def Engine) (at : Fields → String → Option Value)
    (list : ClientFlows) (clients : Dict String) where
  start_request : String → ClientStartRequest → ClientFlow → Fields → StartRequest
  unfolding case_info
  start_request case_id req flow vars = record {
    case_id = case_id;
    template_id = flow.id;
    workflow_id = req.flow_id;
    vars = some vars;
    owner = some (record { role = flow.owner; ou_handle = list.ou_handle });
    info = case_info at req.attributes list.case_columns;
  }

  start_allowed :
      String
      → ClientStartRequest
      → ClientFlow
      → Option Fields
      → World Engine
      → Response × World Engine
  unfolding start_request respond
  start_allowed case_id req flow none w = (bad_request, w)
  start_allowed case_id req flow (some vars) w =
      let r = start_flow deps (start_request case_id req flow vars) "" w in (respond r.0, r.1)

  after_access :
      String → ClientStartRequest → Option ClientFlow → World Engine → Response × World Engine
  unfolding start_allowed client_vars
  after_access case_id req none w = (not_found, w)
  after_access case_id req (some flow) w =
      start_allowed case_id req flow (client_vars case_id req) w

  -- HandleStart; the body is `none` where it does not decode. A flow ID is given, so no uuid is used.
  unfoldable pub handle_start :
      String → Option Principal → Option ClientStartRequest → World Engine → Response × World Engine
  unfolding after_access
  handle_start case_id p none w = (bad_request, w)
  handle_start case_id p (some req) w =
      if (req.workflow_id == "") || (req.flow_id == "")
      then (bad_request, w)
      else after_access case_id req (allowed list clients req.workflow_id p) w
