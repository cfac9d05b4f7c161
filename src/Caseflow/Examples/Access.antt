-- ===== src/Caseflow/Examples/Access.antt =====
-- Tests and instances for internal/caseflow/config.go and client_handler.go.
use nsw_srilanka.Common.{
  String, ◌⊎◌, ◌↔◌, none, some, [], ◌∷◌, true, ◌≡◌, refl, is_blank, lookup, Dict,
}
use nsw_srilanka.Common.Value.{end}
use nsw_srilanka.Principal.{Principal, client}
use nsw_srilanka.Caseflow.Config.{
  UserFlow, ClientFlow, Config, Catalog, passed, validate, find_user_flow,
}
use nsw_srilanka.Caseflow.Config.Lookups.{MayStart}
use nsw_srilanka.Caseflow.Config.Validity.Exact.{IsValid, validate_exact}
use nsw_srilanka.Caseflow.Config.Selection.{find_user_flow_exact}
use nsw_srilanka.Caseflow.Client.{ClientStartRequest, absent, handle_start, bad_request, not_found}
use nsw_srilanka.Caseflow.Client.Access.{IsListed, handle_start_gated}
use nsw_srilanka.Caseflow.Examples.{recorded_once}
use nsw_srilanka.Caseflow.Examples.Starting.{deps, world}

abbrev importing : UserFlow
importing = record { id = "import"; label = "Import"; roles = "trader" ∷ [] }

abbrev arriving : ClientFlow
arriving = record { id = "arrival"; clients = "port" ∷ []; owner = "trader" }

abbrev config : Config
config = record {
  users = record { enabled = true; workflows = importing ∷ [] };
  clients = record {
    enabled = true;
    ou_handle = "acme";
    case_columns = ("name", "/vessel") ∷ [];
    workflows = arriving ∷ [];
  };
}

abbrev catalogue : Catalog
catalogue = record { roles = ("trader", "TRADER") ∷ []; clients = ("port", "client-7") ∷ [] }

validate_exact_example :
    (validate (λ p. true) config catalogue ≡ passed tt) ↔ IsValid (λ p. true) config catalogue
validate_exact_example = validate_exact (λ p. true) config catalogue

find_user_flow_exact_example :
    (find_user_flow config.users "import" ("trader" ∷ []) ≡ some importing)
    ↔ (MayStart config.users ("trader" ∷ []) importing × (importing.id ≡ "import"))
unfolding validate is_blank lookup
find_user_flow_exact_example =
    find_user_flow_exact (λ p. true) config catalogue "import" ("trader" ∷ []) importing refl

abbrev clients : Dict String
clients = ("client-7", "port") ∷ []

abbrev port : Principal
port = record { kind = client; roles = []; client_id = "client-7"; user_id = ""; ou_handle = "" }

abbrev asked : ClientStartRequest
asked = record {
  workflow_id = "arrival";
  flow_id = "w1";
  input = absent;
  callback_token = "";
  attributes = end;
}

handle_start_gated_example :
    let r =
      handle_start deps
        (λ fs p. none)
        config.clients
        clients
        "c1"
        (some port)
        (some asked)
        (world recorded_once) in
    ((r.1 ≡ world recorded_once) × ((r.0 ≡ bad_request) ⊎ (r.0 ≡ not_found)))
    ⊎ ((flow : ClientFlow) × IsListed config.clients clients "arrival" (some port) flow)
handle_start_gated_example =
    handle_start_gated deps (λ fs p. none) config.clients clients "c1" (some port) asked
      (world recorded_once)
