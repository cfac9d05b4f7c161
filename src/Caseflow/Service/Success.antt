-- ===== src/Caseflow/Service/Success.antt =====
-- What a launch of a flow that succeeds has asked of the engine (internal/caseflow/service.go).
pub mod Settling
use nsw_srilanka.Common.{
  String, ◌==◌, eq_iff, Bool, true, Option, none, some, eqb, ◌≡◌, ◌≢◌, ◌⊎◌, Bool-cases,
  if◌then◌else◌,
}
use nsw_srilanka.Common.Value.{Value, null, num, str, obj, Fields, end, field_at}
use nsw_srilanka.Caseflow.Rows.{starting, Flow, conflict, flow_not_found}
use nsw_srilanka.Caseflow.Exec.{Exec}
use nsw_srilanka.Caseflow.Repository.{get, record_flow}
use nsw_srilanka.Caseflow.Service.{
  StartRequest, Deps, found, new_flow_row, is_starting, resume, start_new, after_read, known_or_new,
  start_flow,
}

-- The recorded payload holds the variables: it is an object of them, or there is none of it.
abbrev pub Holds : Option Value → Fields → Type 0
Holds p vars = (p ≡ some (obj vars)) ⊎ (((p ≡ none) ⊎ (p ≡ some null)) × (vars ≡ end))

-- What a flow is started with: its manifest version and its case ID, each under its own name, and else
-- the variables recorded for it.
abbrev pub started_with :
    {Def Engine : Type 0} → Deps Def Engine → Flow → Fields → String → Option Value
started_with deps f vars k =
    if deps.var_manifest_version == k
    then some (num (deps.num_text f.manifest_version))
    else if deps.var_case_id == k
    then some (str f.case_id)
    else field_at k vars

-- The engine, at `e`, was asked once to run the flow `f`: with the definition of the version and
-- template recorded for it and with its recorded variables, its version and its case. It accepted, and is at `e'`.
pub record Submitted {Def Engine : Type 0} (deps : Deps Def Engine) (f : Flow) (e e' : Engine)
    : Type 0 where
  pub run : String → Def → Fields → Engine → Bool × Engine
  pub def : Def
  pub vars : Fields
  pub sent : Fields
  pub registered : deps.start_workflow ≡ some run
  pub defined : deps.load_def f.manifest_version f.template_id ≡ some (found def)
  pub recorded : Holds f.payload vars
  pub told : (k : String) → field_at k sent ≡ started_with deps f vars k
  pub accepted : run f.workflow_id def sent e ≡ (true, e')
