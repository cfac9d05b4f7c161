-- ===== src/Taskauthz/Write.antt =====
-- internal/tasks/extensions/authz: the policy gate in front of a command on a task.
pub mod Acting
pub mod Names
pub mod Steps
pub mod Guards
use nsw_srilanka.Common.{
  String, ◌==◌, Bool, true, false, ◌&&◌, not, Option, none, some, List, [], ◌∷◌, ◌++◌, any,
  contains, Dict, lookup, is_some, if◌then◌else◌,
}
use nsw_srilanka.Common.Value.{Value, str, Fields, field_at}
use nsw_srilanka.Taskauthz.{
  PrincipalKind, kind_user, kind_client, kind_system, OwnedRolesFunc, Input, Catalog,
  system_principal, unauthenticated, forbidden, denied, lookup_failed, bad_properties, Answer, ok,
  err, Eligibility, holds_any, any_of, eligible,
}

-- What the extension reads of a core task record.
pub record TaskRecord : Type 0 where
  pub task_id : String
  pub case_id : String
  pub state : String

-- rules: state to command to logical principal names
abbrev pub Rules : Type 0
Rules = Dict (Dict (List String))

-- The extension's properties: none, not of the form of the rules, or the rules.
pub data Properties : Type 0 where
  no_properties malformed : Properties
  parsed : Rules → Properties

abbrev pub commands_of : Option (Dict (List String)) → Dict (List String)
commands_of none = []
commands_of (some m) = m

abbrev pub names_of : Option (List String) → List String
names_of none = []
names_of (some ns) = ns

-- r[state][command]
unfoldable pub allowed_for : Rules → String → String → List String
unfolding lookup
allowed_for r state command = names_of (lookup command (commands_of (lookup state r)))

text_of : Option Value → String
text_of (some (str s)) = s
text_of _ = ""

-- payload["__command"], empty where it is no text
unfoldable pub command_of : Fields → String
unfolding text_of field_at
command_of payload = text_of (field_at "__command" payload)

-- authorizeSystem
authorize_system : List String → Answer (Unit {0})
authorize_system allowed = if contains allowed system_principal then ok tt else err forbidden

is_client : Option String → String → Bool
is_client none id = false
is_client (some want) id = not (want == "") && (want == id)

-- authorizeClient
authorize_client : Catalog → Input → List String → Answer (Unit {0})
unfolding is_client lookup
authorize_client cat caller allowed =
    if any (λ name. is_client (lookup name cat.clients) caller.client_id) allowed
    then ok tt
    else err forbidden

owner_allowed : Eligibility → List String → Option OwnedRolesFunc → Answer (Unit {0})
owner_allowed e allowed none = err forbidden
owner_allowed e allowed (some f) = if any_of e allowed then ok tt else err forbidden

user_allowed : Answer Eligibility → List String → Option OwnedRolesFunc → Answer (Unit {0})
unfolding owner_allowed
user_allowed (err x) allowed f = err x
user_allowed (ok e) allowed f =
    if not (holds_any e allowed) then err forbidden else owner_allowed e allowed f

-- authorizeUser
authorize_user : Catalog → Input → String → List String → Answer (Unit {0})
unfolding user_allowed eligible
authorize_user cat caller c allowed =
    user_allowed (eligible cat caller c allowed) allowed caller.owned_roles

authorize_kind : Catalog → Input → String → List String → PrincipalKind → Answer (Unit {0})
unfolding authorize_user authorize_client authorize_system
authorize_kind cat caller c allowed kind_user = authorize_user cat caller c allowed
authorize_kind cat caller c allowed kind_client = authorize_client cat caller allowed
authorize_kind cat caller c allowed kind_system = authorize_system allowed

-- authorize
unfoldable pub authorize : Catalog → Input → String → List String → Answer (Unit {0})
unfolding authorize_kind
authorize cat caller c allowed = authorize_kind cat caller c allowed caller.kind

authorize_caller : Catalog → TaskRecord → List String → Option Input → Answer (Unit {0})
unfolding authorize
authorize_caller cat task allowed none = err unauthenticated
authorize_caller cat task allowed (some caller) = authorize cat caller task.case_id allowed

check_allowed : Catalog → TaskRecord → List String → Option Input → Answer (Unit {0})
unfolding authorize_caller
check_allowed cat task [] caller = err forbidden
check_allowed cat task (n ∷ ns) caller = authorize_caller cat task (n ∷ ns) caller

-- Execute; the caller is `none` where the context carries no input.
unfoldable pub execute :
    Catalog → TaskRecord → Fields → Properties → Option Input → Answer (Unit {0})
unfolding check_allowed allowed_for command_of
execute cat task payload no_properties caller = err forbidden
execute cat task payload malformed caller = err bad_properties
execute cat task payload (parsed r) caller =
    check_allowed cat task (allowed_for r task.state (command_of payload)) caller

-- The names of every command.
unfoldable pub all_names : Dict (List String) → List String
all_names [] = []
all_names ((command, names) ∷ rest) = names ++ all_names rest

-- The denials are an answer, and other failures are passed on.
as_answer : Answer (Unit {0}) → Answer Bool
as_answer (ok tt) = ok true
as_answer (err forbidden) = ok false
as_answer (err unauthenticated) = ok false
as_answer (err x) = err x

may_any : Catalog → TaskRecord → Input → List String → Answer Bool
unfolding as_answer authorize
may_any cat task caller [] = ok false
may_any cat task caller (n ∷ ns) = as_answer (authorize cat caller task.case_id (n ∷ ns))

-- MayAct
unfoldable pub may_act : Catalog → TaskRecord → Input → Properties → Answer Bool
unfolding may_any all_names lookup
may_act cat task caller no_properties = ok false
may_act cat task caller malformed = err bad_properties
may_act cat task caller (parsed r) =
    may_any cat task caller (all_names (commands_of (lookup task.state r)))

-- An extension of a step template, of the core library.
pub record Extension : Type 0 where
  pub id : String
  pub phase : String
  pub properties : Properties

abbrev pub ext_authz : String
ext_authz = "authz"

-- types.PhasePreResume, of the core library, is a parameter.
abbrev pub guards : String → Extension → Bool
guards pre_resume x = (x.id == ext_authz) && (x.phase == pre_resume)

and_rest : Answer Bool → Answer Bool → Answer Bool
and_rest (ok true) rest = rest
and_rest (ok false) rest = ok false
and_rest (err x) rest = err x

step_from : String → Catalog → TaskRecord → Input → Bool → List Extension → Answer Bool
unfolding and_rest may_act
step_from pre cat task caller declared [] = ok declared
step_from pre cat task caller declared (x ∷ xs) =
    let skipped = step_from pre cat task caller declared xs in
    let checked = step_from pre cat task caller true xs in
    if not (guards pre x) then skipped else and_rest (may_act cat task caller x.properties) checked

-- MayActOnStep
unfoldable pub may_act_on_step :
    String → Catalog → TaskRecord → Input → List Extension → Answer Bool
unfolding step_from
may_act_on_step pre cat task caller extensions = step_from pre cat task caller false extensions

-- What Register does with the catalog: refuse it, or install the extension.
pub data Registration : Type 0 where
  no_names reserved_role reserved_client registered : Registration

abbrev pub no_entries : Dict String → Bool
no_entries [] = true
no_entries (x ∷ xs) = false

-- Register, but for the registry that it writes to.
unfoldable pub register : Catalog → Registration
unfolding lookup
register cat =
    if no_entries cat.roles && no_entries cat.clients
    then no_names
    else if is_some (lookup system_principal cat.roles)
    then reserved_role
    else if is_some (lookup system_principal cat.clients)
    then reserved_client
    else registered
