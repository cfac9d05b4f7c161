-- ===== src/Caseflow/Config.antt =====
-- internal/caseflow/config.go: the flows section of config.yaml, its validation and its lookups.
pub mod Lookups
pub mod Validity
pub mod Selection
use nsw_srilanka.Common.{
  ℕ, suc, String, ◌==◌, Bool, true, false, ◌&&◌, ◌||◌, not, Option, none, some, List, [], ◌∷◌,
  contains, is_blank, is_some, any, keep, Dict, lookup, if◌then◌else◌,
}

pub record UserFlow : Type 0 where
  pub id : String
  pub label : String
  pub roles : List String

pub record UserFlows : Type 0 where
  pub enabled : Bool
  pub workflows : List UserFlow

pub record ClientFlow : Type 0 where
  pub id : String
  pub clients : List String
  pub owner : String

pub record ClientFlows : Type 0 where
  pub enabled : Bool
  pub ou_handle : String
  pub case_columns : Dict String
  pub workflows : List ClientFlow

pub record Config : Type 0 where
  pub users : UserFlows
  pub clients : ClientFlows

-- internal/catalog: logical names to token roles and to client ids.
pub record Catalog : Type 0 where
  pub roles : Dict String
  pub clients : Dict String

-- The refusals of Validate, with what their messages name.
pub data Invalid : Type 0 where
  id_required label_required owner_required names_required ou_handle_required : Invalid
  listed_twice unknown_name unknown_owner unknown_column bad_pointer unknown_workflow :
      String → Invalid

pub data Checked (A : Type 0) : Type 0 where
  passed : A → Checked A
  refused : Invalid → Checked A

infixl 5 ◌>>=◌ ◌>>◌
abbrev pub ◌>>=◌ : {A B : Type 0} → Checked A → (A → Checked B) → Checked B
passed a >>= f = f a
refused e >>= f = refused e

abbrev pub ◌>>◌ : {A B : Type 0} → Checked A → Checked B → Checked B
m >> k = m >>= λ _. k

abbrev pub require : Bool → Invalid → Checked (Unit {0})
require true e = passed tt
require false e = refused e

-- checkID; it answers with the identifiers seen so far.
unfoldable pub check_id : String → List String → Checked (List String)
check_id id seen =
    if is_blank id
    then refused id_required
    else if contains seen id
    then refused (listed_twice id)
    else passed (id ∷ seen)

each_name : List String → Dict String → Checked (Unit {0})
unfolding lookup
each_name [] defined = passed tt
each_name (n ∷ ns) defined = do
  require (is_some (lookup n defined)) (unknown_name n)
  each_name ns defined

-- checkNames
unfoldable pub check_names : List String → Dict String → Checked (Unit {0})
unfolding each_name
check_names [] defined = refused names_required
check_names (n ∷ ns) defined = each_name (n ∷ ns) defined

check_users : List UserFlow → List String → Catalog → Checked (Unit {0})
unfolding check_id check_names
check_users [] seen cat = passed tt
check_users (f ∷ fs) seen cat = do
  seen' ← check_id f.id seen
  require (not (is_blank f.label)) label_required
  check_names f.roles cat.roles
  check_users fs seen' cat

check_clients : List ClientFlow → List String → Catalog → Checked (Unit {0})
unfolding check_id check_names lookup
check_clients [] seen cat = passed tt
check_clients (f ∷ fs) seen cat = do
  seen' ← check_id f.id seen
  check_names f.clients cat.clients
  require (not (is_blank f.owner)) owner_required
  require (is_some (lookup f.owner cat.roles)) (unknown_owner f.owner)
  check_clients fs seen' cat

abbrev pub case_column_name : String
case_column_name = "name"

abbrev pub is_empty : {A : Type 0} → List A → Bool
is_empty [] = true
is_empty (x ∷ xs) = false

-- `valid_pointer` is jsonpointer.Valid, of the core library.
module _ (valid_pointer : String → Bool) where
  check_columns : Dict String → Checked (Unit {0})
  check_columns [] = passed tt
  check_columns ((column, pointer) ∷ rest) = do
    require (column == case_column_name) (unknown_column column)
    require (valid_pointer pointer) (bad_pointer pointer)
    check_columns rest

  -- Validate
  unfoldable pub validate : Config → Catalog → Checked (Unit {0})
  unfolding check_users check_clients check_columns
  validate c cat = do
    check_users c.users.workflows [] cat
    require (is_empty c.clients.workflows || not (is_blank c.clients.ou_handle)) ou_handle_required
    check_columns c.clients.case_columns
    check_clients c.clients.workflows [] cat

abbrev pub user_ids : List UserFlow → List String
user_ids [] = []
user_ids (f ∷ fs) = f.id ∷ user_ids fs

abbrev pub client_ids : List ClientFlow → List String
client_ids [] = []
client_ids (f ∷ fs) = f.id ∷ client_ids fs

-- CheckWorkflows, over the workflow identifiers that the current manifest holds.
module _ (held : String → Bool) where
  each_held : List String → Checked (Unit {0})
  each_held [] = passed tt
  each_held (id ∷ ids) = do require (held id) (unknown_workflow id); each_held ids

  unfoldable pub check_workflows : Config → Checked (Unit {0})
  unfolding each_held
  check_workflows c = do
    each_held (user_ids c.users.workflows)
    each_held (client_ids c.clients.workflows)

-- UserFlow.startableBy
unfoldable pub startable_by : UserFlow → List String → Bool
startable_by f roles = any (λ role. contains roles role) f.roles

-- UserFlows.Startable
unfoldable pub startable : UserFlows → List String → List UserFlow
unfolding startable_by
startable u roles = if not u.enabled then [] else keep (λ f. startable_by f roles) u.workflows

first_user : String → List UserFlow → Option UserFlow
first_user id [] = none
first_user id (f ∷ fs) = if f.id == id then some f else first_user id fs

-- UserFlows.Find
unfoldable pub find_user_flow : UserFlows → String → List String → Option UserFlow
unfolding first_user startable
find_user_flow u id roles = first_user id (startable u roles)

first_client : String → String → List ClientFlow → Option ClientFlow
first_client id client [] = none
first_client id client (f ∷ fs) =
    if (f.id == id) && contains f.clients client then some f else first_client id client fs

-- ClientFlows.Find
unfoldable pub find_client_flow : ClientFlows → String → String → Option ClientFlow
unfolding first_client
find_client_flow c id client = if not c.enabled then none else first_client id client c.workflows
