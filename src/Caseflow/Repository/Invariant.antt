-- ===== src/Caseflow/Repository/Invariant.antt =====
-- What holds of the tables between two operations of internal/caseflow/repository.go.
use nsw_srilanka.Common.{
  String, ◌==◌, eq_iff, false, none, some, [], ◌∷◌, ◌≡◌, refl, inl, inr, arith, any-append,
  Bool-cases, Option-cases,
}
use nsw_srilanka.Caseflow.Rows.{starting, completed, Flow, CaseRow, Db}
use nsw_srilanka.Caseflow.Repository.{
  find_flow, update_flow, is_completed, update_case, insert_case, insert_flow, reopen_case,
  complete_flow, finish_case, mark_started_stmt, to_started,
}
use nsw_srilanka.Caseflow.Repository.Flows.{
  has_flow, case_state, has_pending-append, find_flow-has_flow, has_flow-update_flow,
  has_pending-update_ne, has_pending-update_eq, has_pending-update_le,
}

-- A flow's case exists, and a case is FINISHED exactly when it has flows and all have completed.
pub record IsConsistent (db : Db) : Type 0 where
  pub referenced : (c : String) → db.cases c ≡ none → has_flow c db.flows ≡ false
  pub exact : (c : String) (r : CaseRow) → db.cases c ≡ some r → r.state ≡ case_state c db.flows

pub insert_case-IsConsistent :
    (k : String) (db : Db) → IsConsistent db → IsConsistent (insert_case k db).1
unfolding insert_case
insert_case-IsConsistent k db h = record {
  referenced = λ c e. ground (arith, eq_iff k c, h.referenced c);
  exact = λ c r e. ground (arith, eq_iff k c, h.referenced c, h.exact c r);
}

-- The case of a row, and a row's change that keeps the state.
pub update_case-IsConsistent :
    (k : String) (g : CaseRow → CaseRow)
    → ((r : CaseRow) → (g r).state ≡ r.state)
    → (db : Db) → IsConsistent db
    → IsConsistent (update_case k g db)
unfolding update_case
update_case-IsConsistent k g same db h = record {
  referenced = λ c e. ground (arith, eq_iff k c, h.referenced c);
  exact = λ c r e. elim (Option-cases (db.cases k)) [
    | inl n ↦ ground (arith, h.exact c r)
    | inr (q, p) ↦ ground (arith, eq_iff k c, same q, h.exact c r, h.exact k q)
  ];
}

-- The statements for a flow that is new: its case, its row, and the case reopened.
unfoldable pub opened : Flow → Db → Db
opened f db = (reopen_case f.case_id (insert_flow f (insert_case f.case_id db).1).1).1

pub opened-IsConsistent :
    (f : Flow) (db : Db)
    → find_flow f.workflow_id db.flows ≡ none
    → IsConsistent db
    → IsConsistent (opened f db)
unfolding opened reopen_case insert_flow insert_case find_flow
opened-IsConsistent f db new h = record {
  referenced = λ c e. ground (
    arith,
    eq_iff f.case_id c,
    h.referenced c,
    any-append {0} (λ g. g.case_id == c) db.flows (record f { status = starting } ∷ []),
  );
  exact = λ c r e. ground (
    arith,
    eq_iff f.case_id c,
    h.exact c r,
    any-append {0} (λ g. g.case_id == c) db.flows (record f { status = starting } ∷ []),
    has_pending-append c db.flows (record f { status = starting }),
  );
}

pub completed-IsConsistent :
    (w : String) (f : Flow) (db : Db)
    → find_flow w db.flows ≡ some f
    → IsConsistent db
    → IsConsistent (finish_case f.case_id (complete_flow w db).1).1
unfolding complete_flow finish_case update_case
completed-IsConsistent w f db found h =
    let g : Flow → Flow = λ x. record x { status = completed } in
    let flows = update_flow w g db.flows in
    let same : (c : String) → has_flow c flows ≡ has_flow c db.flows =
      λ c. has_flow-update_flow w g (λ x. refl) c db.flows in
    record {
      referenced = λ c e. ground (arith, eq_iff f.case_id c, same c, h.referenced c);
      exact = λ c r e. elim (Bool-cases (f.case_id == c)) [
        | inl p ↦ ground (
          arith,
          eq_iff f.case_id c,
          same c,
          h.exact c r,
          h.exact f.case_id r,
          find_flow-has_flow w db.flows f found,
          has_pending-update_le w g (λ x. refl) (λ x. refl) c db.flows,
        )
        | inr n ↦ ground (
          arith,
          eq_iff f.case_id c,
          same c,
          h.exact c r,
          has_pending-update_ne w g (λ x. refl) c db.flows f found n,
        )
      ];
    }

pub mark_started_stmt-IsConsistent :
    (w : String) (db : Db) → IsConsistent db → IsConsistent (mark_started_stmt w db).1
unfolding mark_started_stmt
mark_started_stmt-IsConsistent w db h =
    let g : Flow → Flow = λ x. record x { status = to_started x.status } in
    let kept : (x : Flow) → is_completed (to_started x.status) ≡ is_completed x.status =
      λ x. ground arith in
    record {
      referenced =
          λ c e. ground (arith, has_flow-update_flow w g (λ x. refl) c db.flows, h.referenced c);
      exact = λ c r e. ground (
        arith,
        has_flow-update_flow w g (λ x. refl) c db.flows,
        has_pending-update_eq w g (λ x. refl) kept c db.flows,
        h.exact c r,
      );
    }
