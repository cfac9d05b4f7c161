-- ===== src/Trade/Cha.antt =====
-- internal/trade/plugin_cha_persist.go: the CHA company that a consignment's trader chose becomes the
-- "cha" party of its case, and its details an output of the task.
pub mod Seed
pub mod Persisted
pub mod Steps
pub mod Runs
pub mod Execution
pub mod Assigned
pub mod Handed
pub mod Recorded
pub mod Facts
use nsw_srilanka.Common.{
  ℕ, String, ◌==◌, Bool, true, false, not, Option, none, some, List, [], ◌∷◌, any, ltb, is_blank,
  rune_count, if◌then◌else◌,
}
use nsw_srilanka.Common.Value.{Value, str, obj, Fields, end, field, field_at, set_field}
use nsw_srilanka.Caseflow.Rows.{Db, Err}
use nsw_srilanka.Caseflow.Exec.{Session, Tx, stmt}
use nsw_srilanka.Caseflow.Exec
use nsw_srilanka.Caseflow.Repository.{type_ou, update_case}
use nsw_srilanka.Taskauthz.Gate.{assign}
use nsw_srilanka.Trade.{Task, data_of}

-- company.Record, with its data as it is stored
pub record Company : Type 0 where
  pub id : String
  pub name : String
  pub ou_handle : String
  pub has_cha : Bool
  pub document : String

-- A row of consignments, by its id.
pub record Consignment : Type 0 where
  pub cha_company_id : Option String

-- The tables that the plugin reads and writes; which statements to come fail is in the session.
pub record Desk : Type 0 where
  pub companies : String → Option Company
  pub consignments : String → Option Consignment
  pub session : Session

pub data ChaError : Type 0 where
  bad_config blank_field no_company_id company_query company_not_found company_id_empty : ChaError
  not_enabled unreadable no_record no_case name_too_long : ChaError
  transaction consignment_query consignment_not_found naming : ChaError
  party : Err → ChaError

-- A value, or an error: a permanent one (plugins.Permanent, of type input) is not tried again.
pub data Reply (A : Type 0) : Type 0 where
  ok : A → Reply A
  permanent retryable : ChaError → Reply A

abbrev pub Step : Type 0 → Type 0
Step A = Desk → Reply A × Desk

abbrev pub pure : {A : Type 0} → A → Step A
pure a d = (ok a, d)

abbrev pub reject : {A : Type 0} → ChaError → Step A
reject e d = (permanent e, d)

abbrev pub fail : {A : Type 0} → ChaError → Step A
fail e d = (retryable e, d)

abbrev pub and_then : {A B : Type 0} → Reply A → (A → Step B) → Step B
and_then (ok a) k d = k a d
and_then (permanent e) k d = (permanent e, d)
and_then (retryable e) k d = (retryable e, d)

infixl 5 ◌>>=◌ ◌>>◌
abbrev pub ◌>>=◌ : {A B : Type 0} → Step A → (A → Step B) → Step B
◌>>=◌ m k d = and_then (m d).0 k (m d).1

abbrev pub ◌>>◌ : {A B : Type 0} → Step A → Step B → Step B
m >> k = m >>= λ _. k

abbrev pub told : {A : Type 0} → (Err → ChaError) → Exec.Result A → Reply A
told wrap (Exec.ok a) = ok a
told wrap (Exec.err e) = retryable (wrap e)

-- Statements on the tables of cases.
abbrev pub run : {A : Type 0} → (Err → ChaError) → Tx A → Step A
run wrap m d = (told wrap (m d.session).0, record d { session = (m d.session).1 })

-- A statement on the other tables, which may fail too.
abbrev pub no_op : Db → Unit {0} × Db
no_op db = (tt, db)

unfoldable pub call : ChaError → Step (Unit {0})
unfolding stmt
call e = run (λ x. e) (stmt no_op)

-- GetCompanyByID, and what the plugin makes of its errors.
abbrev pub found_company : Option Company → Step Company
found_company none = reject company_not_found
found_company (some r) = pure r

unfoldable pub get_company : String → Step Company
unfolding call
get_company id =
    if id == ""
    then reject company_id_empty
    else call company_query >> λ d. found_company (d.companies id) d

-- UPDATE consignments SET cha_company_id = company WHERE id = c
abbrev pub update_consignment : String → String → Step (Unit {0})
update_consignment c company d = elim (d.consignments c) [
  | none ↦ (permanent consignment_not_found, d)
  | some r ↦ (
    ok tt,
    record d {
      consignments =
          λ k. if c == k then some (record { cha_company_id = some company }) else d.consignments k;
    },
  )
]

-- UPDATE cases SET name = … WHERE id = c
unfoldable pub name_case : String → String → Db → Unit {0} × Db
unfolding update_case
name_case c name db = (tt, update_case c (λ r. record r { name = some name }) db)

-- A transaction that fails leaves the tables as they were.
abbrev pub settle : {A : Type 0} → Desk → Reply A × Desk → Reply A × Desk
settle before (ok a, d) = (ok a, d)
settle before (permanent e, d) = (
  permanent e,
  record d {
    consignments = before.consignments;
    session = record d.session { db = before.session.db };
  },
)
settle before (retryable e, d) = (
  retryable e,
  record d {
    consignments = before.consignments;
    session = record d.session { db = before.session.db };
  },
)

-- What assignCHA does in its transaction.
unfoldable pub assign_body : String → String → String → String → Step (Unit {0})
unfolding call assign stmt name_case
assign_body c company handle name = do
  call consignment_query
  update_consignment c company
  run party
      (assign c "cha" (record { party_type = type_ou; party_id = handle; assigned_by = none }))
  if name == "" then pure tt else run (λ e. naming) (stmt (name_case c name))

-- assignCHA
unfoldable pub assign_cha : String → String → String → String → Step (Unit {0})
unfolding assign_body call
assign_cha c company handle name d =
    settle d ((do call transaction; assign_body c company handle name; call transaction) d)

unfoldable pub checked_fields : Option (List String) → Step (List String)
unfolding is_blank
checked_fields none = fail bad_config
checked_fields (some names) = if any is_blank names then fail blank_field else pure names

-- parseCHAPersistConfig, with json.Unmarshal into the list of fields
unfoldable pub parse_config : (String → Option (List String)) → String → Step (List String)
unfolding is_blank
parse_config decode config = if config == "" then pure [] else checked_fields (decode config)

-- One data field of chaSeed.
unfoldable pub add_seed : String → Option Value → Fields → Fields
unfolding is_blank set_field
add_seed name (some (str v)) data_so_far =
    if is_blank v then data_so_far else set_field name (str v) data_so_far
add_seed name v data_so_far = data_so_far

unfoldable pub add_seeds : List String → Fields → Fields → Fields
unfolding add_seed field_at
add_seeds [] all data_so_far = data_so_far
add_seeds (name ∷ names) all data_so_far =
    add_seeds names all (add_seed name (field_at name all) data_so_far)

abbrev pub seed : Company → Fields → Value
seed r chosen =
    obj (field "id" (str r.id) (field "name" (str r.name) (field "data" (obj chosen) end)))

-- chaSeed where the company has data.
unfoldable pub seed_from : Company → List String → Option (Option Fields) → Step Value
unfolding add_seeds
seed_from r names none = fail unreadable
seed_from r names (some none) = fail unreadable
seed_from r names (some (some all)) = pure (seed r (add_seeds names all end))

-- chaSeed; `decode` is json.Unmarshal into a map: an error, a nil map, or a map.
unfoldable pub cha_seed : (String → Option (Option Fields)) → Company → List String → Step Value
unfolding add_seeds seed_from
cha_seed decode r names =
    if r.document == ""
    then pure (seed r (add_seeds names end end))
    else seed_from r names (decode r.document)

-- A text input, "" for one that is missing or no text.
abbrev pub text_of : Option Value → String
text_of (some (str s)) = s
text_of v = ""

unfoldable pub consignment_name : Fields → String
unfolding is_blank field_at
consignment_name inputs =
    let name = text_of (field_at "consignment_name" inputs) in if is_blank name then "" else name

abbrev pub case_of : Option Task → Step Task
case_of none = reject no_record
case_of (some t) = if t.case_id == "" then reject no_case else pure t

abbrev pub checked_name : String → Step (Unit {0})
checked_name name = if ltb 255 (rune_count name) then reject name_too_long else pure tt

unfoldable pub with_cha : Value → Task → Task
unfolding set_field
with_cha cha t = record t { fields = some (set_field "cha" cha (data_of t)) }

abbrev pub require_cha : Company → Step (Unit {0})
require_cha r = if r.has_cha then pure tt else reject not_enabled

-- Execute
module _ (decode_config : String → Option (List String))
    (decode : String → Option (Option Fields)) where
  unfoldable pub execute : String → Fields → Option Task → Step Task
  unfolding parse_config field_at get_company cha_seed consignment_name assign_cha with_cha
  execute config inputs task = do
    names ← parse_config decode_config config
    let id = text_of (field_at "cha_company_id" inputs)
    if id == "" then reject no_company_id else pure tt
    r ← get_company id
    require_cha r
    cha ← cha_seed decode r names
    t ← case_of task
    let name = consignment_name inputs
    checked_name name
    assign_cha t.case_id id r.ou_handle name
    pure (with_cha cha t)
