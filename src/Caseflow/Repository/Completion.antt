-- ===== src/Caseflow/Repository/Completion.antt =====
-- The laws of MarkCompleted and MarkStarted of internal/caseflow/repository.go.
use text.Mathlib.TextPositions.{eq_refl}
use nsw_srilanka.Common.{
  String, ◌==◌, Bool, true, false, Option, none, some, ◌≡◌, refl, ap, sym, fun_ext, ◌∙◌, inl, inr,
  arith, Bool-cases, Option-cases, if◌then◌else◌, is_some,
}
use nsw_srilanka.Caseflow.Rows.{completed, in_progress, finished, Flow, CaseRow, Db, Err}
use nsw_srilanka.Caseflow.Exec.{Result, ok, err, Session, Tx, stmt, calm, ◌>>=◌}
use nsw_srilanka.Caseflow.Exec.Robust.{IsRobust, IsRobust-bind, IsRobust-stmt, rollback, commit}
use nsw_srilanka.Caseflow.Repository.{
  find_flow, update_flow, set_case, update_case, complete_flow, finish_case, complete_body,
  mark_completed, has_pending,
}
use nsw_srilanka.Caseflow.Repository.Flows.{
  has_flow, has_flow-update_flow, find_flow-has_flow, find_flow-update, update_flow-twice,
}
use nsw_srilanka.Caseflow.Repository.Invariant.{IsConsistent, completed-IsConsistent}
use nsw_srilanka.Caseflow.Repository.Sessions.{complete_body-IsRobust}

-- The tables once the flow `f`, of workflow ID `w`, is completed.
completed_tables : String → Flow → Db → Db
completed_tables w f db = (finish_case f.case_id (complete_flow w db).1).1

look_up : String → Tx (Option Flow)
look_up w = stmt (λ db. (find_flow w db.flows, db))

body : String → Tx Bool
unfolding look_up
body w = look_up w >>= complete_body w

body-IsRobust : (w : String) → IsRobust (body w)
unfolding body
body-IsRobust w =
    IsRobust-bind (complete_body w) (complete_body-IsRobust w) (look_up w) (IsRobust-stmt _)

body-calm :
    (w : String) (db : Db) (o : Option Flow)
    → find_flow w db.flows ≡ o
    → body w (calm db)
      ≡ elim o [ none ↦ (ok false, calm db) | some f ↦ (ok true, calm (completed_tables w f db)) ]
unfolding body complete_body stmt completed_tables
body-calm w db none h = rw h
body-calm w db (some f) h = rw h

set_completed : Flow → Flow
set_completed f = record f { status = completed }

flows-completed :
    (w : String) (f : Flow) (db : Db)
    → (completed_tables w f db).flows ≡ update_flow w set_completed db.flows
unfolding completed_tables finish_case complete_flow update_case set_completed
flows-completed w f db = ground arith

-- A completion that succeeds is the statements' effect when none fails.
completed_run :
    (w : String) (s : Session) (b : Bool)
    → (mark_completed w s).0 ≡ ok b
    → ((body w (calm s.db)).0 ≡ ok b) × ((mark_completed w s).1.db ≡ (body w (calm s.db)).1.db)
unfolding mark_completed body look_up
completed_run w s b h = commit _ (body-IsRobust w) s b h

-- A completion that reports an error has changed no table.
pub mark_completed_atomic :
    (w : String) (s : Session) (e : Err)
    → (mark_completed w s).0 ≡ err e
    → (mark_completed w s).1.db ≡ s.db
unfolding mark_completed
mark_completed_atomic w s e h = rollback _ s e h

completed_some :
    (w : String) (s : Session) (b : Bool) (f : Flow)
    → find_flow w s.db.flows ≡ some f
    → (mark_completed w s).0 ≡ ok b
    → (b ≡ true) × ((mark_completed w s).1.db ≡ completed_tables w f s.db)
completed_some w s b f found h =
    let (r, d) = completed_run w s b h in
    let e = body-calm w s.db (some f) found in
    (cc, d ∙ ap (λ (t : Result Bool × Session). t.1.db) e)

completed_none :
    (w : String) (s : Session) (b : Bool)
    → find_flow w s.db.flows ≡ none
    → (mark_completed w s).0 ≡ ok b
    → (b ≡ false) × ((mark_completed w s).1.db ≡ s.db)
completed_none w s b missing h =
    let (r, d) = completed_run w s b h in
    let e = body-calm w s.db none missing in (cc, d ∙ ap (λ (t : Result Bool × Session). t.1.db) e)

-- A completion finds its flow exactly when the flow is recorded; one that is not recorded
-- changes no table.
pub mark_completed_found :
    (w : String) (s : Session) (b : Bool)
    → (mark_completed w s).0 ≡ ok b
    → (b ≡ is_some (find_flow w s.db.flows)) × (b ≡ false → (mark_completed w s).1.db ≡ s.db)
mark_completed_found w s b h = elim (Option-cases (find_flow w s.db.flows)) [
  | inl n ↦ let (p, q) = completed_none w s b n h in (rw n p, λ e. q)
  | inr (f, p) ↦ let (q, r) = completed_some w s b f p h in (rw p q, λ e. cc)
]

-- A completion of a recorded flow that succeeds leaves, over consistent tables, that flow
-- COMPLETED, every other flow as it was, and its case FINISHED exactly when none of the case's
-- flows is pending.
pub mark_completed_lem :
    (w : String) (s : Session) (f : Flow)
    → IsConsistent s.db
    → find_flow w s.db.flows ≡ some f
    → (mark_completed w s).0 ≡ ok true
    → let new = (mark_completed w s).1.db in
      (find_flow w new.flows ≡ some (record f { status = completed }))
      × ((v : String) → (w == v) ≡ false → find_flow v new.flows ≡ find_flow v s.db.flows)
      × ((r : CaseRow)
          → new.cases f.case_id ≡ some r
          → r.state ≡ (if has_pending f.case_id new.flows then in_progress else finished))
unfolding set_completed completed_tables
mark_completed_lem w s f h found done =
    let e = (completed_some w s true f found done).1 in
    let fl = flows-completed w f s.db in
    let keep = completed-IsConsistent w f s.db found h in
    let has : has_flow f.case_id (update_flow w set_completed s.db.flows) ≡ true =
      has_flow-update_flow w set_completed (λ x. refl) f.case_id s.db.flows
      ∙ find_flow-has_flow w s.db.flows f found in
    rw e (
      rw fl (find_flow-update w set_completed (λ x. refl) w s.db.flows ∙ rw (eq_refl w, found)),
      λ v n. rw fl (find_flow-update w set_completed (λ x. refl) v s.db.flows ∙ rw n),
      λ r c. ground (arith, keep.exact f.case_id r c, has, fl),
    )

complete-fixed :
    (w : String) (db e : Db)
    → e.flows ≡ update_flow w set_completed db.flows
    → (complete_flow w e).1 ≡ e
unfolding complete_flow set_completed
complete-fixed w db e h =
    let p : update_flow w set_completed e.flows ≡ e.flows =
      rw h (update_flow-twice w set_completed (λ x. refl) (λ x. refl) db.flows) in
    λ i. record e { flows = p i }

set_case-twice :
    (c : String) (q r : Option CaseRow) (db : Db) → set_case c r (set_case c q db) ≡ set_case c r db
unfolding set_case
set_case-twice c q r db =
    let p : (k : String) → (set_case c r (set_case c q db)).cases k ≡ (set_case c r db).cases k =
      λ k. ground arith in
    λ i. record db { cases = fun_ext p i }

finish : CaseRow → CaseRow
finish r = record r { state = finished }

update_case-some :
    (c : String) (db : Db) (r : CaseRow)
    → db.cases c ≡ some r
    → update_case c finish db ≡ set_case c (some (finish r)) db
unfolding update_case
update_case-some c db r h = rw (h, update_case)

update_case-twice :
    (c : String) (db : Db)
    → update_case c finish (update_case c finish db) ≡ update_case c finish db
unfolding set_case finish
update_case-twice c db = elim (Option-cases (db.cases c)) [
  | inl n ↦
      let e : update_case c finish db ≡ db = unfold update_case in ground arith in
      ap (update_case c finish) e
  | inr (r, p) ↦
      let e = update_case-some c db r p in
      let at : (set_case c (some (finish r)) db).cases c ≡ some (finish r) =
        unfold set_case in rw (eq_refl c) in
      rw e (update_case-some c _ (finish r) at ∙ set_case-twice c _ _ db)
]

finish-twice :
    (c : String) (db : Db) → (finish_case c (finish_case c db).1).1 ≡ (finish_case c db).1
unfolding finish_case finish
finish-twice c db = elim (Bool-cases (has_pending c db.flows)) [
  | inl y ↦ rw y (rw y)
  | inr n ↦
      let same : (update_case c finish db).flows ≡ db.flows = unfold update_case in ground arith in
      rw n (rw (same, n) (update_case-twice c db))
]

completed-twice :
    (w : String) (f g : Flow) (db : Db)
    → g.case_id ≡ f.case_id
    → completed_tables w g (completed_tables w f db) ≡ completed_tables w f db
unfolding completed_tables
completed-twice w f g db h =
    let d = completed_tables w f db in
    let fixed : (complete_flow w d).1 ≡ d = complete-fixed w db d (flows-completed w f db) in
    ap (λ (t : Db). (finish_case g.case_id t).1) fixed
    ∙ ap (λ (c : String). (finish_case c d).1) h
    ∙ finish-twice f.case_id (complete_flow w db).1

-- A completion that is delivered again, over the tables that the first one left, changes nothing,
-- whether it succeeds or fails.
pub mark_completed_again :
    (w : String) (s t : Session) (f : Flow)
    → find_flow w s.db.flows ≡ some f
    → (mark_completed w s).0 ≡ ok true
    → t.db ≡ (mark_completed w s).1.db
    → (mark_completed w t).1.db ≡ t.db
unfolding set_completed
mark_completed_again w s t f found done same = go (mark_completed w t).0 refl
  where
    e : t.db ≡ completed_tables w f s.db
    e = same ∙ (completed_some w s true f found done).1

    found' : find_flow w t.db.flows ≡ some (set_completed f)
    found' =
        ap (λ (d : Db). find_flow w d.flows) e
        ∙ ap (find_flow w) (flows-completed w f s.db)
        ∙ find_flow-update w set_completed (λ x. refl) w s.db.flows
        ∙ rw (eq_refl w, found)

    go : (r : Result Bool) → (mark_completed w t).0 ≡ r → (mark_completed w t).1.db ≡ t.db
    go (err x) h = mark_completed_atomic w t x h
    go (ok b) h =
        (completed_some w t b (set_completed f) found' h).1
        ∙ ap (completed_tables w (set_completed f)) e
        ∙ completed-twice w f (set_completed f) s.db refl
        ∙ sym e

pub mark_completed-IsConsistent :
    (w : String) (s : Session) → IsConsistent s.db → IsConsistent (mark_completed w s).1.db
unfolding completed_tables
mark_completed-IsConsistent w s h = go (mark_completed w s).0 refl
  where
    go : (r : Result Bool) → (mark_completed w s).0 ≡ r → IsConsistent (mark_completed w s).1.db
    go (err x) e = rw (mark_completed_atomic w s x e) h
    go (ok b) e = elim (Option-cases (find_flow w s.db.flows)) [
      | inl n ↦ rw (completed_none w s b n e).1 h
      | inr (f, p) ↦ rw (completed_some w s b f p e).1 (completed-IsConsistent w f s.db p h)
    ]
