-- ===== src/Taskauthz/Examples.antt =====
-- Tests of task authorization, and instances of its theorems on one small catalog.
use nsw_srilanka.Common.{
  String, eq_iff, Bool, true, false, none, some, [], ◌∷◌, ◌≡◌, ◌≢◌, refl, inl, inr, ◌↔◌, In, here,
  In-cons, Dict, lookup,
}
use nsw_srilanka.Principal.{Principal, user}
use nsw_srilanka.Caseflow.Rows.{Flow, Owner, Party, starting}
use nsw_srilanka.Caseflow.Exec.{calm, with_tx}
use nsw_srilanka.Caseflow.Repository.{find_flow, record_flow}
use nsw_srilanka.Caseflow.Repository.History.{no_rows}
use nsw_srilanka.Taskauthz.{kind_user, Input, Catalog, ok, with_system, sort_strings}
use nsw_srilanka.Taskauthz.Write.{
  TaskRecord, Rules, parsed, allowed_for, command_of, execute, may_act, register, Extension,
}
use nsw_srilanka.Taskauthz.Write.Acting.{Permits, execute_exact}
use nsw_srilanka.Taskauthz.Write.Steps.{asks, may_act_exact}
use nsw_srilanka.Taskauthz.Gate.{resolve_input}
use nsw_srilanka.Taskauthz.Gate.Requests.{on, Owns, user_request_exact}
use nsw_srilanka.Taskauthz.Gate.Reserved.{system_rule_unreachable}
use nsw_srilanka.Taskauthz.Gate.Parties.{recorded_owner_acts}
use nsw_srilanka.Taskauthz.Read.{resolve}
use nsw_srilanka.Taskauthz.Read.Claims.{ActsFirst, OnlyClaim, resolve_first}

abbrev catalog : Catalog
catalog = record {
  roles = ("trader", "TRADER") ∷ ("cha", "CHA") ∷ [];
  clients = ("port", "client-7") ∷ [];
}

abbrev rules : Rules
rules = ("OPEN", ("submit", "trader" ∷ "port" ∷ []) ∷ ("settle", "system" ∷ []) ∷ []) ∷ []

abbrev task : TaskRecord
task = record { task_id = "t1"; case_id = "c1"; state = "OPEN" }

-- a user whose company holds both roles on every case
abbrev broker : Input
broker = record {
  kind = kind_user;
  roles = "CHA" ∷ "TRADER" ∷ [];
  client_id = "";
  owned_roles = some (λ c. some (λ r. true));
  user_id = "u1";
}

test_submit : execute catalog task (asks "submit") (parsed rules) (some broker) ≡ ok tt
unfolding execute
test_submit = refl

test_settle : execute catalog task (asks "settle") (parsed rules) (some with_system) ≡ ok tt
unfolding execute
test_settle = refl

test_sorted : sort_strings ("trader" ∷ "cha" ∷ "agency" ∷ []) ≡ "agency" ∷ "cha" ∷ "trader" ∷ []
unfolding sort_strings
test_sorted = refl

execute_exact_example :
    (execute catalog task (asks "submit") (parsed rules) (some broker) ≡ ok tt)
    ↔ Permits catalog task (command_of (asks "submit")) (parsed rules) (some broker)
execute_exact_example = execute_exact catalog task (asks "submit") (parsed rules) (some broker)

may_act_exact_example : (may_act catalog task broker (parsed rules) ≡ ok true) ↔ (
    (command : String) × (execute catalog task (asks command) (parsed rules) (some broker) ≡ ok tt))
unfolding lookup
may_act_exact_example = may_act_exact catalog task broker rules (
  (λ m. elim (In-cons m) [
    | inl e ↦ absurd (let k : false ≡ true = (eq_iff "submit" "settle").1 e in cc)
    | inr n ↦ elim n [ ]
  ]),
  (λ m. elim m [ ], tt),
)

abbrev guard : Extension
guard = record { id = "authz"; phase = "PRE_RESUME"; properties = parsed rules }

abbrev clerk : Principal
clerk = record {
  kind = user;
  roles = "TRADER" ∷ [];
  client_id = "";
  user_id = "u2";
  ou_handle = "acme";
}

user_request_exact_example :
    (execute catalog task (asks "submit") (parsed rules) (resolve_input (on no_rows) (some clerk))
      ≡ ok tt)
    ↔ ((name : String) × In name (allowed_for rules "OPEN" (command_of (asks "submit")))
        × Owns catalog clerk no_rows "c1" name)
user_request_exact_example =
    user_request_exact catalog task (asks "submit") rules no_rows clerk refl

system_rule_unreachable_example :
    execute catalog task (asks "settle") (parsed rules) (resolve_input (on no_rows) (some clerk))
    ≢ ok tt
unfolding register allowed_for command_of
system_rule_unreachable_example =
    system_rule_unreachable catalog task (asks "settle") rules (on no_rows) (some clerk) refl
      (λ n m. elim (In-cons m) [ inl e ↦ e | inr k ↦ elim k [ ] ])

abbrev acme : Party
acme = record { party_type = "ou"; party_id = "acme"; assigned_by = none }

abbrev permit : Flow
permit = record {
  workflow_id = "w1";
  case_id = "c1";
  template_id = "permit";
  manifest_version = 3;
  status = starting;
  payload = none;
}

abbrev owner : Owner
owner = record { role = "trader"; ou_handle = "acme" }

recorded_owner_acts_example :
    execute catalog task
      (asks "submit")
      (parsed rules)
      (resolve_input (on (record_flow permit (some owner) none (calm no_rows)).1.db) (some clerk))
    ≡ ok tt
unfolding record_flow find_flow with_tx lookup allowed_for command_of
recorded_owner_acts_example =
    recorded_owner_acts catalog task (asks "submit") rules clerk permit owner none (calm no_rows)
      "TRADER" refl refl refl refl refl refl refl refl here here

-- the claims of the broker on a task that declares its readers
abbrev claims : Dict Bool
claims = ("role:trader", false) ∷ ("role:cha", true) ∷ []

resolve_first_example :
    (n : String) × ActsFirst catalog broker "c1" n ("cha" ∷ "trader" ∷ [])
    × OnlyClaim catalog n claims
unfolding resolve
resolve_first_example = resolve_first catalog broker "cha" ("trader" ∷ []) "c1" claims refl

-- a user with the role, of a company that owns nothing
abbrev outsider : Input
outsider = record broker { owned_roles = some (λ c. some (λ r. false)) }

abbrev both : Dict Bool
both = ("role:trader", true) ∷ ("role:cha", true) ∷ []
