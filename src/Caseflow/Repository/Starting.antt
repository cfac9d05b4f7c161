-- ===== src/Caseflow/Repository/Starting.antt =====
-- The laws of MarkStarted, EnsureCase and Get of internal/caseflow/repository.go.
use mathlib.Core.Option
use text.Mathlib.TextPositions.{eq_refl}
use nsw_srilanka.Common.{
  String, ◌==◌, false, Option, none, some, ◌≡◌, refl, ◌∙◌, ◌⊎◌, inl, inr, arith, Option-cases,
}
use nsw_srilanka.Caseflow.Rows.{completed, Flow, database, flow_not_found}
use nsw_srilanka.Caseflow.Exec.{Result, ok, err, Session}
use nsw_srilanka.Caseflow.Exec.Robust.{stmt-cases}
use nsw_srilanka.Caseflow.Repository.{
  find_flow, mark_started, mark_started_stmt, to_started, get, ensure_case, insert_case,
}
use nsw_srilanka.Caseflow.Repository.Flows.{find_flow-update}
use nsw_srilanka.Caseflow.Repository.Invariant.{
  IsConsistent, mark_started_stmt-IsConsistent, insert_case-IsConsistent,
}

abbrev pub reported : Option Flow → Result (Unit {0})
reported none = err flow_not_found
reported (some f) = ok tt

started_cases :
    (w : String) (s : Session)
    → (((mark_started w s).0 ≡ err database) × ((mark_started w s).1.db ≡ s.db))
      ⊎ (((mark_started w s).0 ≡ reported (find_flow w s.db.flows))
          × ((mark_started w s).1.db ≡ (mark_started_stmt w s.db).1))
unfolding mark_started
started_cases w s = elim (stmt-cases (mark_started_stmt w) s) [
  | inl (p, q) ↦ inl (rw p, rw p q)
  | inr (p, q) ↦ elim (Option-cases (find_flow w s.db.flows)) [
    | inl n ↦ inr (rw p (rw n), rw p (rw n q))
    | inr (f, e) ↦ inr (rw p (rw e), rw p (rw e q))
  ]
]

-- Confirming a start never takes a flow back: whatever its outcome, a flow that was COMPLETED is
-- the same flow afterwards, and so is every flow but the one confirmed.
pub mark_started_keeps :
    (w v : String) (s : Session) (f : Flow)
    → find_flow v s.db.flows ≡ some f
    → ((w == v) ≡ false) ⊎ (f.status ≡ completed)
    → find_flow v (mark_started w s).1.db.flows ≡ some f
unfolding mark_started_stmt
mark_started_keeps w v s f found safe = elim (started_cases w s) [
  | inl (p, q) ↦ rw q found
  | inr (p, q) ↦
      let e =
        find_flow-update w (λ x. record x { status = to_started x.status }) (λ x. refl) v
          s.db.flows in
      rw q (e ∙ ground arith)
]

-- A confirmed start leaves the flow STARTED, or COMPLETED if it had completed by then; one of a flow
-- that is not recorded reports it.
pub mark_started_lem :
    (w : String) (s : Session)
    → ((mark_started w s).0 ≡ err database)
      ⊎ (((mark_started w s).0 ≡ reported (find_flow w s.db.flows))
          × (find_flow w (mark_started w s).1.db.flows
              ≡ Option.map {A = Flow}
                  (λ f. record f { status = to_started f.status })
                  (find_flow w s.db.flows)))
unfolding mark_started_stmt
mark_started_lem w s = elim (started_cases w s) [
  | inl (p, q) ↦ inl p
  | inr (p, q) ↦
      let e =
        find_flow-update w (λ x. record x { status = to_started x.status }) (λ x. refl) w
          s.db.flows in
      inr (p, rw q (e ∙ rw (eq_refl w)))
]

pub mark_started-IsConsistent :
    (w : String) (s : Session) → IsConsistent s.db → IsConsistent (mark_started w s).1.db
mark_started-IsConsistent w s h = elim (started_cases w s) [
  | inl (p, q) ↦ rw q h
  | inr (p, q) ↦ rw q (mark_started_stmt-IsConsistent w s.db h)
]

pub ensure_case-IsConsistent :
    (c : String) (s : Session) → IsConsistent s.db → IsConsistent (ensure_case c s).1.db
unfolding ensure_case
ensure_case-IsConsistent c s h = elim (stmt-cases (insert_case c) s) [
  | inl (p, q) ↦ rw p (rw q h)
  | inr (p, q) ↦ rw p (rw q (insert_case-IsConsistent c s.db h))
]

-- Get reads the row and changes nothing.
pub get_lem :
    (w : String) (s : Session)
    → ((get w s).1.db ≡ s.db)
      × (((get w s).0 ≡ err database)
          ⊎ ((get w s).0
              ≡ elim (find_flow w s.db.flows) [ none ↦ err flow_not_found | some f ↦ ok f ]))
unfolding get
get_lem w s = elim (stmt-cases (λ db. (find_flow w db.flows, db)) s) [
  | inl (p, q) ↦ rw p (q, inl refl)
  | inr (p, q) ↦ elim (Option-cases (find_flow w s.db.flows)) [
    | inl n ↦ rw p (rw n (q, inr refl))
    | inr (f, e) ↦ rw p (rw e (q, inr refl))
  ]
]
