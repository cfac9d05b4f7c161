-- ===== src/Caseflow/Examples/Starting.antt =====
-- Tests and instances for StartFlow of internal/caseflow/service.go.
use nsw_srilanka.Common.{
  String, ◌==◌, eq_iff, if◌then◌else◌, ◌⊎◌, inl, none, some, List, [], ◌∷◌, true, false, ◌≡◌, refl,
}
use nsw_srilanka.Common.Value.{str, obj, encodable_fields, end, field}
use nsw_srilanka.Caseflow.Rows.{started, Db, database, conflict}
use nsw_srilanka.Caseflow.Exec.{ok, err, calm, with_tx}
use nsw_srilanka.Caseflow.Repository.{find_flow, get, record_flow, mark_started}
use nsw_srilanka.Caseflow.Repository.History.{no_rows}
use nsw_srilanka.Caseflow.Service.{
  StartRequest, Deps, found, not_found, World, start_flow, new_flow_row,
}
use nsw_srilanka.Caseflow.Service.Start.{
  Names, redeployed, start_flow_again, start_flow_conflict, start_flow_retry,
}
use nsw_srilanka.Caseflow.Examples.{permit, recorded_once}

-- A library with one template, and an engine that lists what it started.
abbrev pub deps : Deps String (List String)
deps = record {
  current = 3;
  load_def =
      λ version template. if template == "permit" then some (found "its steps") else some not_found;
  start_workflow = some (λ w d vs e. (true, w ∷ e));
  num_text = λ n. "3";
  var_case_id = "caseId";
  var_manifest_version = "manifestVersion";
}

abbrev request : StartRequest
request = record {
  case_id = "c1";
  template_id = "permit";
  workflow_id = "w1";
  vars = none;
  owner = none;
  info = none;
}

abbrev pub world : Db → World (List String)
world db = record { session = calm db; engine = []; others = [] }

permit_named : Names request "" (record permit { manifest_version = 0 })
unfolding new_flow_row
permit_named = record { valid = refl; named = refl }

-- the tables with the flow started
abbrev started_once : Db
unfolding start_flow with_tx get record_flow mark_started
started_once = (start_flow deps request "" (world no_rows)).1.session.db

test_started : (start_flow deps request "" (world no_rows)).1.engine ≡ "w1" ∷ []
unfolding start_flow with_tx get record_flow mark_started
test_started = refl

start_flow_again_example :
    let r = start_flow deps request "" (world started_once) in
    (r.1.engine ≡ [])
    × (r.1.session.db ≡ started_once)
    × ((r.0 ≡ err database) ⊎ (r.0 ≡ ok (record permit { status = started })))
unfolding start_flow find_flow with_tx get record_flow mark_started
start_flow_again_example =
    start_flow_again deps request "" _ (world started_once) (record permit { status = started })
      permit_named refl refl refl (λ e. cc)

abbrev elsewhere : StartRequest
elsewhere = record request { case_id = "c2" }

elsewhere_named : Names elsewhere "" (record permit { case_id = "c2"; manifest_version = 0 })
unfolding new_flow_row
elsewhere_named = record { valid = refl; named = refl }

start_flow_conflict_example :
    let r = start_flow deps elsewhere "" (world recorded_once) in
    (r.1.engine ≡ [])
    × (r.1.session.db ≡ recorded_once)
    × ((r.0 ≡ err database) ⊎ (r.0 ≡ err conflict))
unfolding record_flow find_flow with_tx
start_flow_conflict_example =
    start_flow_conflict deps elsewhere "" _ (world recorded_once) permit elsewhere_named refl
      (inl (λ e. let k : false ≡ true = (eq_iff "c1" "c2").1 e in cc))

abbrev missing : StartRequest
missing = record request { template_id = "licence" }

missing_named : Names missing "" (record permit { template_id = "licence"; manifest_version = 0 })
unfolding new_flow_row
missing_named = record { valid = refl; named = refl }

abbrev with_vars : StartRequest
with_vars = record request { vars = some (field "ref" (str "A-1") end) }

with_vars_named :
    Names with_vars "f"
      (record permit { manifest_version = 0; payload = some (obj (field "ref" (str "A-1") end)) })
unfolding new_flow_row encodable_fields
with_vars_named = record { valid = refl; named = refl }

start_flow_retry_example :
    start_flow deps request "" (world recorded_once)
    ≡ start_flow (redeployed deps 4) with_vars "f" (world recorded_once)
unfolding record_flow find_flow with_tx
start_flow_retry_example =
    start_flow_retry deps 4 request with_vars "" "f" _ _ (world recorded_once) permit permit_named
      with_vars_named refl refl refl refl
