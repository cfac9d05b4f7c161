-- ===== src/Caseflow/Repository/Sessions.antt =====
-- The methods of internal/caseflow/repository.go on a connection where any statement may fail.
use nsw_srilanka.Common.{ℕ, String, Option, none, some}
use nsw_srilanka.Common.Value.{Fields, end, field}
use nsw_srilanka.Caseflow.Rows.{Flow, Owner, CaseInfo}
use nsw_srilanka.Caseflow.Exec.Robust.{
  IsRobust, IsRobust-pure, IsRobust-raise, IsRobust-stmt, IsRobust-if, IsRobust-bind,
  IsRobust-with_tx,
}
use nsw_srilanka.Caseflow.Repository.{
  record_body, undo_case, write_info, write_owner, mark_started, mark_completed, complete_body,
  attributes_of, case_attributes_json, record_flow, ensure_case,
}

ruleset robust_rules =
    (IsRobust-pure, IsRobust-raise, IsRobust-stmt, IsRobust-if, IsRobust-bind, IsRobust-with_tx)

undo_case-IsRobust : (n : ℕ) (c : String) → IsRobust (undo_case n c)
unfolding undo_case
undo_case-IsRobust n c = search robust_rules

write_info-IsRobust : (i : Option CaseInfo) (a : Fields) (c : String) → IsRobust (write_info i a c)
unfolding write_info
write_info-IsRobust none a c = search robust_rules
write_info-IsRobust (some i) a c = search robust_rules

write_owner-IsRobust : (o : Option Owner) (c : String) → IsRobust (write_owner o c)
unfolding write_owner
write_owner-IsRobust none c = search robust_rules
write_owner-IsRobust (some i) c = search robust_rules

ruleset write_rules = (robust_rules, undo_case-IsRobust, write_info-IsRobust, write_owner-IsRobust)

pub record_body-IsRobust :
    (f : Flow) (o : Option Owner) (i : Option CaseInfo) (a : Fields)
    → IsRobust (record_body f o i a)
unfolding record_body
record_body-IsRobust f o i a = search write_rules depth 12

pub complete_body-IsRobust : (w : String) (f : Option Flow) → IsRobust (complete_body w f)
unfolding complete_body
complete_body-IsRobust w none = search robust_rules
complete_body-IsRobust w (some f) = search robust_rules depth 10

pub mark_completed-IsRobust : (w : String) → IsRobust (mark_completed w)
unfolding mark_completed
mark_completed-IsRobust w = search (robust_rules, complete_body-IsRobust)

pub mark_started-IsRobust : (w : String) → IsRobust (mark_started w)
unfolding mark_started
mark_started-IsRobust w = search robust_rules

pub ensure_case-IsRobust : (c : String) → IsRobust (ensure_case c)
unfolding ensure_case
ensure_case-IsRobust c = search robust_rules

case_attributes_json-IsRobust : (a : Fields) → IsRobust (case_attributes_json a)
unfolding case_attributes_json
case_attributes_json-IsRobust end = search robust_rules
case_attributes_json-IsRobust (field k v a) = search robust_rules

attributes_of-IsRobust : (i : Option CaseInfo) → IsRobust (attributes_of i)
unfolding attributes_of
attributes_of-IsRobust none = search robust_rules
attributes_of-IsRobust (some i) = case_attributes_json-IsRobust i.attributes

pub record_flow-IsRobust :
    (f : Flow) (o : Option Owner) (i : Option CaseInfo) → IsRobust (record_flow f o i)
unfolding record_flow
record_flow-IsRobust f o i = search (robust_rules, attributes_of-IsRobust, record_body-IsRobust)
