-- ===== src/Taskauthz/Gate.antt =====
-- internal/tasks/authzgate/middleware.go and internal/caseparty: the input that a request's caller
-- is given, and the parties of a case.
pub mod Requests
pub mod Reserved
pub mod Parties
use nsw_srilanka.Common.{
  String, ◌==◌, Bool, true, false, ◌&&◌, ◌||◌, Option, none, some, List, [], ◌∷◌, any,
  if◌then◌else◌,
}
use nsw_srilanka.Principal.{Principal, Kind, user, client}
use nsw_srilanka.Caseflow.Rows.{Party, Db, invalid_party}
use nsw_srilanka.Caseflow.Exec.{Tx, stmt, raise}
use nsw_srilanka.Caseflow.Repository.{type_ou}
use nsw_srilanka.Taskauthz.{kind_user, kind_client, OwnedRolesFunc, Input}

-- Ref
pub record Ref : Type 0 where
  pub party_type : String
  pub party_id : String

-- OU
abbrev pub ou : String → Ref
ou handle = record { party_type = type_ou; party_id = handle }

abbrev pub names_party : Option Party → Ref → Bool
names_party none q = false
names_party (some p) q = (p.party_type == q.party_type) && (p.party_id == q.party_id)

-- RolesOf, where the query succeeds: the roles that any of the parties holds on the case.
unfoldable pub roles_of : Db → String → List Ref → String → Bool
roles_of db c parties role =
    if c == "" then false else any (names_party (db.parties c role)) parties

unfoldable pub set_party : String → String → Party → Db → Unit {0} × Db
set_party c r p db =
    (tt, record db { parties = λ k s. if (c == k) && (r == s) then some p else db.parties k s })

-- Assign
unfoldable pub assign : String → String → Party → Tx (Unit {0})
unfolding set_party
assign c r p =
    if (c == "") || (r == "") || (p.party_type == "") || (p.party_id == "")
    then raise invalid_party
    else stmt (set_party c r p)

-- ownedRolesFor. `query` is RolesOf on the database of the request: `none` where it fails.
unfoldable pub owned_roles_for :
    (String → List Ref → Option (String → Bool)) → String → OwnedRolesFunc
owned_roles_for query handle c =
    if (c == "") || (handle == "") then some (λ r. false) else query c (ou handle ∷ [])

input_of : (String → List Ref → Option (String → Bool)) → Principal → Kind → Input
unfolding owned_roles_for
input_of query p client = record {
  kind = kind_client;
  roles = [];
  client_id = p.client_id;
  owned_roles = none;
  user_id = "";
}
input_of query p user = record {
  kind = kind_user;
  roles = p.roles;
  client_id = "";
  owned_roles = some (owned_roles_for query p.ou_handle);
  user_id = p.user_id;
}

-- resolve
unfoldable pub resolve_input :
    (String → List Ref → Option (String → Bool)) → Option Principal → Option Input
unfolding input_of
resolve_input query none = none
resolve_input query (some p) = some (input_of query p p.kind)
