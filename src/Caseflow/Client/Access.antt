-- ===== src/Caseflow/Client/Access.antt =====
-- Who can have a flow started over the route of internal/caseflow/client_handler.go.
use nsw_srilanka.Common.{
  String, ◌==◌, true, ◌||◌, Option, none, some, ◌≡◌, refl, Dict, lookup, Bool-cases, Option-cases,
  inl, inr, ◌⊎◌, In,
}
use nsw_srilanka.Common.Value.{Value, Fields}
use nsw_srilanka.Principal.{Principal, Kind, user, client}
use nsw_srilanka.Caseflow.Config.{ClientFlow, ClientFlows}
use nsw_srilanka.Caseflow.Config.Lookups.{find_client_flow_sound}
use nsw_srilanka.Caseflow.Service.{Deps, World}
use nsw_srilanka.Caseflow.Client.{
  ClientStartRequest, bad_request, not_found, allowed, allowed_kind, handle_start,
}

-- The caller is a catalog client that the list, which is on, names for the workflow.
pub record IsListed (list : ClientFlows) (clients : Dict String) (workflow : String)
    (p : Option Principal) (flow : ClientFlow) : Type 0 where
  pub who : Principal
  pub present : p ≡ some who
  pub is_client : who.kind ≡ client
  pub name : String
  pub catalogued : lookup who.client_id clients ≡ some name
  pub on : list.enabled ≡ true
  pub listed : In flow list.workflows
  pub same_id : flow.id ≡ workflow
  pub named : In name flow.clients

allowed_sound :
    (list : ClientFlows) (clients : Dict String) (workflow : String) (p : Option Principal)
    (flow : ClientFlow)
    → allowed list clients workflow p ≡ some flow
    → IsListed list clients workflow p flow
unfolding allowed
allowed_sound list clients workflow none flow h = cc
allowed_sound list clients workflow (some p) flow h = kinds p.kind refl h
  where
    kinds :
        (k : Kind)
        → p.kind ≡ k
        → allowed_kind list clients workflow p k ≡ some flow
        → IsListed list clients workflow (some p) flow
    kinds user e h = cc
    kinds client e h = elim (Option-cases (lookup p.client_id clients)) [
      | inl n ↦ absurd (let k : none ≡ some flow = rw n at h in cc)
      | inr (name, q) ↦
          let (on, m, i, c) = find_client_flow_sound list workflow name flow (rw q at h) in
          record {
            who = p;
            present = refl;
            is_client = e;
            name = name;
            catalogued = q;
            on = on;
            listed = m;
            same_id = i;
            named = c;
          }
    ]

-- A request leaves the tables, the engine and what others commit alone, and is answered as a bad
-- request or as not found, unless the caller is a catalog client that the list names for its workflow.
pub handle_start_gated :
    {Def Engine : Type 0} (deps : Deps Def Engine) (at : Fields → String → Option Value)
    (list : ClientFlows) (clients : Dict String) (case_id : String) (p : Option Principal)
    (req : ClientStartRequest) (w : World Engine)
    → let r = handle_start deps at list clients case_id p (some req) w in
      ((r.1 ≡ w) × ((r.0 ≡ bad_request) ⊎ (r.0 ≡ not_found)))
      ⊎ ((flow : ClientFlow) × IsListed list clients req.workflow_id p flow)
unfolding handle_start
handle_start_gated deps at list clients case_id p req w =
    elim (Option-cases (allowed list clients req.workflow_id p)) [
      | inr (flow, h) ↦ inr (flow, allowed_sound list clients req.workflow_id p flow h)
      | inl h ↦ elim (Bool-cases ((req.workflow_id == "") || (req.flow_id == ""))) [
        | inl y ↦ rw y (inl (refl, inl refl))
        | inr n ↦ rw n (rw h (inl (refl, inr refl)))
      ]
    ]
