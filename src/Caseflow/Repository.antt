-- ===== src/Caseflow/Repository.antt =====
-- internal/caseflow/repository.go. Each SQL statement is a function on the tables, under the
-- name of what it does; a method is the sequence of its statements.
pub mod Flows
pub mod Invariant
pub mod Sessions
pub mod Recording
pub mod Completion
pub mod Starting
pub mod History
pub mod Attributes
use nsw_srilanka.Common.{
  ℕ, String, ◌==◌, Bool, true, false, not, ◌&&◌, Option, none, some, List, [], ◌∷◌, ◌++◌, is_some,
  any, keep, eqb, if◌then◌else◌,
}
use nsw_srilanka.Common.Value.{Fields, end, obj, encodable, merge}
use nsw_srilanka.Caseflow.Rows.{
  Status, starting, started, completed, in_progress, finished, Flow, CaseRow, Db, Owner, CaseInfo,
  invalid_request, flow_not_found,
}
use nsw_srilanka.Caseflow.Exec.{Tx, stmt, with_tx, pure, raise, ◌>>=◌, ◌>>◌}

-- The row of a primary key.
unfoldable pub find_flow : String → List Flow → Option Flow
find_flow w [] = none
find_flow w (f ∷ fs) = if f.workflow_id == w then some f else find_flow w fs

-- UPDATE case_flows … WHERE workflow_id = w: the one row of the key.
unfoldable pub update_flow : String → (Flow → Flow) → List Flow → List Flow
update_flow w g [] = []
update_flow w g (f ∷ fs) = if f.workflow_id == w then g f ∷ fs else f ∷ update_flow w g fs

-- UPDATE cases … WHERE id = c
unfoldable pub set_case : String → Option CaseRow → Db → Db
set_case c r db = record db { cases = λ k. if c == k then r else db.cases k }

unfoldable pub update_case : String → (CaseRow → CaseRow) → Db → Db
unfolding set_case
update_case c g db = elim (db.cases c) [ none ↦ db | some r ↦ set_case c (some (g r)) db ]

-- insertCase: the rows inserted, 0 when the case is there.
unfoldable pub insert_case : String → Db → ℕ × Db
unfolding set_case
insert_case c db = elim (db.cases c) [
  | some r ↦ (0, db)
  | none ↦ (1, set_case c (some (record { state = in_progress; name = none; attributes = end })) db)
]

-- The insertFlow statement, ON CONFLICT DO NOTHING.
unfoldable pub insert_flow : Flow → Db → ℕ × Db
unfolding find_flow
insert_flow f db = elim (find_flow f.workflow_id db.flows) [
  | some g ↦ (0, db)
  | none ↦ (1, record db { flows = db.flows ++ record f { status = starting } ∷ [] })
]

-- DELETE FROM cases WHERE id = c
unfoldable pub delete_case : String → Db → Unit {0} × Db
unfolding set_case
delete_case c db = (tt, set_case c none db)

-- UPDATE cases SET state = IN_PROGRESS …
unfoldable pub reopen_case : String → Db → Unit {0} × Db
unfolding update_case
reopen_case c db = (tt, update_case c (λ r. record r { state = in_progress }) db)

-- COALESCE(NULLIF(name, ''), old)
abbrev pub or_old : String → Option String → Option String
or_old name old = if name == "" then old else some name

-- mergeCaseInfo
unfoldable pub merge_case_info : Fields → String → String → Db → Unit {0} × Db
unfolding update_case merge
merge_case_info attrs name c db = (
  tt,
  update_case c (λ r. record r { attributes = merge r.attributes attrs; name = or_old name r.name })
      db,
)

abbrev pub type_ou : String
type_ou = "ou"

-- upsertOwner
unfoldable pub upsert_owner : String → Owner → Db → Unit {0} × Db
upsert_owner c o db = (
  tt,
  record db {
    parties = λ k r.
        if (c == k) && (o.role == r)
        then some (record { party_type = type_ou; party_id = o.ou_handle; assigned_by = none })
        else db.parties k r;
  },
)

unfoldable pub ensure_case : String → Tx (Unit {0})
unfolding insert_case
ensure_case c = do stmt (insert_case c); pure tt

-- caseAttributesJSON
unfoldable pub case_attributes_json : Fields → Tx Fields
unfolding encodable
case_attributes_json end = pure end
case_attributes_json attrs = if encodable (obj attrs) then pure attrs else raise invalid_request

pub attributes_of : Option CaseInfo → Tx Fields
unfolding case_attributes_json
attributes_of none = pure end
attributes_of (some info) = case_attributes_json info.attributes

-- The branch for a workflow ID that is recorded already.
undo_case : ℕ → String → Tx (Unit {0})
unfolding delete_case
undo_case case_inserted c = if eqb case_inserted 0 then pure tt else stmt (delete_case c)

write_info : Option CaseInfo → Fields → String → Tx (Unit {0})
unfolding merge_case_info
write_info none attrs c = pure tt
write_info (some info) attrs c = stmt (merge_case_info attrs info.name c)

write_owner : Option Owner → String → Tx (Unit {0})
unfolding upsert_owner
write_owner none c = pure tt
write_owner (some o) c = stmt (upsert_owner c o)

pub record_body : Flow → Option Owner → Option CaseInfo → Fields → Tx (Unit {0})
unfolding undo_case write_info write_owner insert_case insert_flow reopen_case
record_body f owner info attrs = do
  case_inserted ← stmt (insert_case f.case_id)
  inserted ← stmt (insert_flow f)
  if eqb inserted 0 then undo_case case_inserted f.case_id else do
    stmt (reopen_case f.case_id)
    write_info info attrs f.case_id
    write_owner owner f.case_id

-- Record
unfoldable pub record_flow : Flow → Option Owner → Option CaseInfo → Tx (Unit {0})
unfolding attributes_of record_body
record_flow f owner info = do attrs ← attributes_of info; with_tx (record_body f owner info attrs)

abbrev pub to_started : Status → Status
to_started starting = started
to_started started = started
to_started completed = completed

pub mark_started_stmt : String → Db → Bool × Db
unfolding find_flow update_flow
mark_started_stmt w db = (
  is_some (find_flow w db.flows),
  record db { flows = update_flow w (λ f. record f { status = to_started f.status }) db.flows },
)

unfoldable pub mark_started : String → Tx (Unit {0})
unfolding mark_started_stmt
mark_started w = do
  updated ← stmt (mark_started_stmt w)
  if updated then pure tt else raise flow_not_found

-- Get
unfoldable pub get : String → Tx Flow
unfolding find_flow
get w = do
  row ← stmt (λ db. (find_flow w db.flows, db))
  elim row [ none ↦ raise flow_not_found | some f ↦ pure f ]

-- ListByCase, in the order in which the flows were recorded
unfoldable pub list_by_case : String → Tx (List Flow)
list_by_case c = stmt (λ db. (keep (λ f. f.case_id == c) db.flows, db))

abbrev pub is_completed : Status → Bool
is_completed completed = true
is_completed _ = false

-- SELECT 1 FROM case_flows WHERE case_id = c AND status <> COMPLETED
unfoldable pub has_pending : String → List Flow → Bool
has_pending c = any (λ f. (f.case_id == c) && not (is_completed f.status))

pub complete_flow : String → Db → Unit {0} × Db
unfolding update_flow
complete_flow w db =
    (tt, record db { flows = update_flow w (λ f. record f { status = completed }) db.flows })

pub finish_case : String → Db → Unit {0} × Db
unfolding has_pending update_case
finish_case c db = (
  tt,
  if has_pending c db.flows then db else update_case c (λ r. record r { state = finished }) db,
)

pub complete_body : String → Option Flow → Tx Bool
unfolding complete_flow finish_case
complete_body w none = pure false
complete_body w (some f) = do
  stmt (λ db. (db.cases f.case_id, db))
  stmt (complete_flow w)
  stmt (finish_case f.case_id)
  pure true

-- MarkCompleted. The lock that FOR UPDATE takes orders it against other transactions; one
-- session has no others.
unfoldable pub mark_completed : String → Tx Bool
unfolding complete_body find_flow
mark_completed w = with_tx do row ← stmt (λ db. (find_flow w db.flows, db)); complete_body w row
