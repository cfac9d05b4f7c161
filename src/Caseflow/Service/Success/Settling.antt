-- ===== src/Caseflow/Service/Success/Settling.antt =====
-- What a StartFlow that succeeds has done (internal/caseflow/service.go).
use nsw_srilanka.Common.{◌≡◌, ◌≢◌, ◌⊎◌}
use nsw_srilanka.Caseflow.Rows.{starting, Flow}
use nsw_srilanka.Caseflow.Service.{StartRequest, Deps}
use nsw_srilanka.Caseflow.Service.Success.{Submitted}

-- A flow that a request is answered with: it is the request's, it does not read STARTING, and the
-- engine was left alone or asked once to run it.
pub record Settled {Def Engine : Type 0} (deps : Deps Def Engine) (req : StartRequest)
    (e e' : Engine) (g : Flow) : Type 0 where
  pub its_case : g.case_id ≡ req.case_id
  pub its_template : g.template_id ≡ req.template_id
  pub under_way : g.status ≢ starting
  pub engine_asked : (e' ≡ e) ⊎ Submitted deps g e e'
