-- ===== src/Taskauthz.antt =====
-- internal/tasks/taskauthz: who the caller of a task is, and in which logical roles it may act.
pub mod Eligible
pub mod Write
pub mod Read
pub mod Gate
mod Examples
use nsw_srilanka.Common.{
  String, Bool, true, false, ◌&&◌, not, Option, none, some, List, [], ◌∷◌, any, contains, Dict,
  lookup, keys, str_leb, if◌then◌else◌,
}

-- KindUser, KindClient, KindSystem
pub data PrincipalKind : Type 0 where
  kind_user kind_client kind_system : PrincipalKind

abbrev pub system_principal : String
system_principal = "system"

-- OwnedRolesFunc: the owner roles of a case, as a map that is only read by key; `none` where the
-- lookup fails. A request sees one state of the parties.
abbrev pub OwnedRolesFunc : Type 0
OwnedRolesFunc = String → Option (String → Bool)

pub record Input : Type 0 where
  pub kind : PrincipalKind
  pub roles : List String
  pub client_id : String
  pub owned_roles : Option OwnedRolesFunc
  pub user_id : String

-- The input of WithSystem.
abbrev pub with_system : Input
with_system = record {
  kind = kind_system;
  roles = [];
  client_id = "";
  owned_roles = none;
  user_id = "";
}

-- Catalog: logical names to token roles, and to client ids.
pub record Catalog : Type 0 where
  pub roles : Dict String
  pub clients : Dict String

-- The sentinel errors of the two evaluators, and the failures they pass on.
pub data Failure : Type 0 where
  unauthenticated forbidden denied lookup_failed bad_properties : Failure

pub data Answer (A : Type 0) : Type 0 where
  ok : A → Answer A
  err : Failure → Answer A

pub record Eligibility : Type 0 where
  pub held : String → Bool
  pub owned : String → Bool

abbrev nothing_held : Eligibility
nothing_held = record { held = λ n. false; owned = λ n. false }

-- HoldsAny
abbrev pub holds_any : Eligibility → List String → Bool
holds_any e names = any e.held names

-- Allows
abbrev pub allows : Eligibility → String → Bool
allows e name = e.held name && e.owned name

-- Any
abbrev pub any_of : Eligibility → List String → Bool
any_of e names = any (allows e) names

holds_role : Option String → List String → Bool
holds_role none token_roles = false
holds_role (some role) token_roles = contains token_roles role

-- The `held` entry of a name: absent, so false, unless the name is under consideration.
unfoldable pub holds : Catalog → Input → List String → String → Bool
unfolding holds_role lookup
holds cat caller names name = contains names name && holds_role (lookup name cat.roles) caller.roles

owned_by : Eligibility → Option (String → Bool) → Answer Eligibility
owned_by e none = err lookup_failed
owned_by e (some owned) = ok (record e { owned = owned })

ask : Eligibility → String → Option OwnedRolesFunc → Answer Eligibility
unfolding owned_by
ask e c none = ok e
ask e c (some f) = owned_by e (f c)

eligible_kind : Catalog → Input → String → List String → PrincipalKind → Answer Eligibility
unfolding ask holds
eligible_kind cat caller c names kind_client = ok nothing_held
eligible_kind cat caller c names kind_system = ok nothing_held
eligible_kind cat caller c names kind_user =
    let e : Eligibility = record { held = holds cat caller names; owned = λ n. false } in
    if not (holds_any e names) then ok e else ask e c caller.owned_roles

-- Eligible
unfoldable pub eligible : Catalog → Input → String → List String → Answer Eligibility
unfolding eligible_kind
eligible cat caller c names = eligible_kind cat caller c names caller.kind

place : String → List String → List String
place n [] = n ∷ []
place n (m ∷ ms) = let rest = place n ms in if str_leb n m then n ∷ m ∷ ms else m ∷ rest

-- sort.Strings
unfoldable pub sort_strings : List String → List String
unfolding place
sort_strings [] = []
sort_strings (n ∷ ns) = place n (sort_strings ns)

-- RoleNames
unfoldable pub role_names : Catalog → List String
unfolding sort_strings
role_names cat = sort_strings (keys cat.roles)
