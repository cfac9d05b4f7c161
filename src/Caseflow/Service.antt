-- ===== src/Caseflow/Service.antt =====
-- internal/caseflow/service.go: StartFlow, resume, start, CompletionHandler. The artifact
-- registry and the workflow engine are the core library's: parameters.
pub mod Start
pub mod Success
use Prim.Native.String.{◌++◌}
use nsw_srilanka.Common.{
  ℕ, String, ◌==◌, Bool, true, false, ◌&&◌, ◌||◌, not, Option, none, some, List, [], ◌∷◌, eqb,
  has_char, if◌then◌else◌,
}
use nsw_srilanka.Common.Value.{Value, null, num, str, obj, Fields, end, encodable_fields, set_field}
use nsw_srilanka.Caseflow.Rows.{
  starting, started, completed, Status, Flow, Db, Owner, CaseInfo, Err, invalid_request,
  unknown_template, conflict, flow_not_found, not_recorded, payload_not_object, no_manager,
  registry, load, engine,
}
use nsw_srilanka.Caseflow.Exec.{Result, ok, err, Exec, Tx, Session, pure, raise, ◌>>=◌, ◌>>◌}
use nsw_srilanka.Caseflow.Repository.{
  get, record_flow, mark_started, mark_completed, ensure_case, list_by_case,
}

pub record StartRequest : Type 0 where
  pub case_id : String
  pub template_id : String
  pub workflow_id : String
  pub vars : Option Fields
  pub owner : Option Owner
  pub info : Option CaseInfo

-- What workflowdef.Load answers.
pub data Loaded (Def : Type 0) : Type 0 where
  found : Def → Loaded Def
  not_found failed : Loaded Def

-- The core library as the service uses it. `load_def` is `none` for a version whose registry
-- cannot be read; `start_workflow`, absent until a manager is registered, returns whether the
-- engine accepted the workflow; `num_text` writes a version as encoding/json does.
pub record Deps (Def Engine : Type 0) : Type 0 where
  pub current : ℕ
  pub load_def : ℕ → String → Option (Loaded Def)
  pub start_workflow : Option (String → Def → Fields → Engine → Bool × Engine)
  pub num_text : ℕ → String
  pub var_case_id : String
  pub var_manifest_version : String

-- RegisterWorkflowManager; a missing manager is refused.
unfoldable pub register_workflow_manager :
    {Def Engine : Type 0}
    → Option (String → Def → Fields → Engine → Bool × Engine)
    → Deps Def Engine
    → Option (Deps Def Engine)
register_workflow_manager none deps = none
register_workflow_manager (some run) deps = some (record deps { start_workflow = some run })

-- `others` is what other requests commit before each of this request's repository calls.
pub record World (Engine : Type 0) : Type 0 where
  pub session : Session
  pub engine : Engine
  pub others : List (Db → Db)

abbrev pub workflow_id_sep : String
workflow_id_sep = ":"

-- FlowWorkflowID
unfoldable pub flow_workflow_id : String → String → String → String
flow_workflow_id c t suffix = c ++ (workflow_id_sep ++ (t ++ (workflow_id_sep ++ suffix)))

unfoldable pub payload_of : Option Fields → Result (Option Value)
payload_of none = ok none
payload_of (some vs) = if encodable_fields vs then ok (some (obj vs)) else err invalid_request

row_of : StartRequest → String → Result (Option Value) → Result Flow
row_of req w (err e) = err e
row_of req w (ok p) = ok (record {
  workflow_id = w;
  case_id = req.case_id;
  template_id = req.template_id;
  manifest_version = 0;
  status = starting;
  payload = p;
})

abbrev pub workflow_id_of : StartRequest → String → String
workflow_id_of req fresh =
    if req.workflow_id == ""
    then flow_workflow_id req.case_id req.template_id fresh
    else req.workflow_id

-- newFlowRow; `fresh` is the uuid. The status is set by Record.
unfoldable pub new_flow_row : StartRequest → String → Result Flow
unfolding row_of payload_of
new_flow_row req fresh =
    let w = workflow_id_of req fresh in
    if (req.case_id == "") || (req.template_id == "")
    then err invalid_request
    else if has_char w b'/'
    then err invalid_request
    else row_of req w (payload_of req.vars)

abbrev pub Action : Type 0 → Type 0 → Type 0
Action Engine A = Exec (World Engine) A

abbrev pub lift : {Engine A : Type 0} → Result A → Action Engine A
lift r w = (r, w)

abbrev pub interfere : List (Db → Db) → Session → Session
interfere [] s = s
interfere (g ∷ gs) s = record s { db = g s.db }

abbrev pub rest_of : List (Db → Db) → List (Db → Db)
rest_of [] = []
rest_of (g ∷ gs) = gs

-- A repository call, after what others have committed meanwhile.
unfoldable pub in_db : {Engine A : Type 0} → Tx A → Action Engine A
in_db m w =
    let r = m (interfere w.others w.session) in
    (r.0, record w { session = r.1; others = rest_of w.others })

-- The recorded payload as variables; an absent or null one is empty.
unfoldable pub recorded_vars : Option Value → Result Fields
recorded_vars none = ok end
recorded_vars (some null) = ok end
recorded_vars (some (obj fs)) = ok fs
recorded_vars (some _) = err payload_not_object

abbrev pub is_starting : Status → Bool
is_starting starting = true
is_starting _ = false

module _ {Def : Type 0} where
  unfoldable pub definition_of : Option (Loaded Def) → Result Def
  definition_of none = err registry
  definition_of (some (found d)) = ok d
  definition_of (some not_found) = err unknown_template
  definition_of (some failed) = err load

module _ {Def Engine : Type 0} (deps : Deps Def Engine) where
  -- definition
  unfoldable pub definition : ℕ → String → Result Def
  unfolding definition_of
  definition version template = definition_of (deps.load_def version template)

  -- The variables that every flow is started with.
  unfoldable pub seeded : Flow → Fields → Fields
  seeded f vs =
      set_field deps.var_manifest_version (num (deps.num_text f.manifest_version))
        (set_field deps.var_case_id (str f.case_id) vs)

  submit :
      (String → Def → Fields → Engine → Bool × Engine)
      → Flow
      → Def
      → Fields
      → Action Engine (Unit {0})
  unfolding seeded
  submit run f d vs w =
      let r = run f.workflow_id d (seeded f vs) w.engine in
      ((if r.0 then ok tt else err engine), record w { engine = r.1 })

  call_engine :
      Option (String → Def → Fields → Engine → Bool × Engine)
      → Flow
      → Def
      → Action Engine (Unit {0})
  unfolding recorded_vars submit
  call_engine none f d = raise no_manager
  call_engine (some run) f d = do vs ← lift (recorded_vars f.payload); submit run f d vs

  -- start
  unfoldable pub start : Flow → Def → Action Engine (Unit {0})
  unfolding call_engine
  start f d = call_engine deps.start_workflow f d

  def_or_load : Flow → Option Def → Result Def
  unfolding definition
  def_or_load f none = definition f.manifest_version f.template_id
  def_or_load f (some d) = ok d

  -- The part of resume that starts the flow.
  pub launch : Flow → Option Def → Action Engine Flow
  unfolding def_or_load start in_db
  launch f def = do
    d ← lift (def_or_load f def)
    start f d
    in_db (mark_started f.workflow_id)
    pure (record f { status = started })

  -- resume
  unfoldable pub resume : StartRequest → Flow → Option Def → Action Engine Flow
  unfolding launch
  resume req f def =
      if not (f.case_id == req.case_id) || not (f.template_id == req.template_id)
      then raise conflict
      else if not (is_starting f.status)
      then pure f
      else launch f def

  pub start_new : StartRequest → Flow → Action Engine Flow
  unfolding definition resume in_db
  start_new req row = do
    def ← lift (definition deps.current req.template_id)
    in_db (record_flow (record row { manifest_version = deps.current }) req.owner req.info)
    f ← in_db (get row.workflow_id)
    if eqb f.manifest_version deps.current then resume req f (some def) else resume req f none

  -- The first read, of a request that names its workflow.
  pub after_read : StartRequest → Flow → Result Flow → Action Engine Flow
  unfolding start_new
  after_read req row (ok f) = resume req f none
  after_read req row (err flow_not_found) = start_new req row
  after_read req row (err e) = raise e

  known_or_new : StartRequest → Flow → Action Engine Flow
  unfolding after_read
  known_or_new req row = if req.workflow_id == "" then start_new req row else λ w.
      let r = in_db (get row.workflow_id) w in after_read req row r.0 r.1

  -- StartFlow
  unfoldable pub start_flow : StartRequest → String → Action Engine Flow
  unfolding known_or_new new_flow_row
  start_flow req fresh = do row ← lift (new_flow_row req fresh); known_or_new req row

-- CompletionHandler
unfoldable pub completion_handler : {Engine : Type 0} → String → Action Engine (Unit {0})
unfolding in_db
completion_handler w = do
  was_found ← in_db (mark_completed w)
  if was_found then pure tt else raise not_recorded

-- EnsureCase and Flows pass on to the repository.
unfoldable pub service_ensure_case : {Engine : Type 0} → String → Action Engine (Unit {0})
unfolding in_db
service_ensure_case c = in_db (ensure_case c)

unfoldable pub flows_of : {Engine : Type 0} → String → Action Engine (List Flow)
unfolding in_db
flows_of c = in_db (list_by_case c)
