-- ===== src/Caseflow/Repository/Recording/Laws.antt =====
-- The laws of Record of internal/caseflow/repository.go, on a connection where any statement may
-- fail.
use nsw_srilanka.Common.{
  Option, none, some, ◌≡◌, refl, inl, inr, Bool-cases, Option-cases, if◌then◌else◌,
}
use nsw_srilanka.Caseflow.Rows.{Flow, Owner, CaseInfo, Err, invalid_request}
use nsw_srilanka.Caseflow.Exec.{Result, ok, err, Session, with_tx, calm}
use nsw_srilanka.Caseflow.Exec.Robust.{rollback, commit}
use nsw_srilanka.Caseflow.Repository.{find_flow, record_body, record_flow}
use nsw_srilanka.Caseflow.Repository.Invariant.{IsConsistent}
use nsw_srilanka.Caseflow.Repository.Sessions.{record_body-IsRobust}
use nsw_srilanka.Caseflow.Repository.Recording.{
  sent, sendable, attributes_of_lem, body-new, body-known,
}
use nsw_srilanka.Caseflow.Repository.Recording.Effect.{
  WasRecorded, recorded_lem, recorded-IsConsistent,
}

record_flow_lem :
    (f : Flow) (o : Option Owner) (i : Option CaseInfo) (s : Session)
    → record_flow f o i s
      ≡ (if sendable i then with_tx (record_body f o i (sent i)) s else (err invalid_request, s))
unfolding record_flow
record_flow_lem f o i s =
    rw (attributes_of_lem i s) (elim (Bool-cases (sendable i)) [ inl e ↦ rw e | inr e ↦ rw e ])

-- What is committed is what the statements do when none fails.
record_committed :
    (f : Flow) (o : Option Owner) (i : Option CaseInfo) (s : Session)
    → (record_flow f o i s).0 ≡ ok tt
    → (record_flow f o i s).1.db ≡ (record_body f o i (sent i) (calm s.db)).1.db
record_committed f o i s h =
    let e = record_flow_lem f o i s in
    elim (Bool-cases (sendable i)) [
      | inl y ↦
          let t : record_flow f o i s ≡ with_tx (record_body f o i (sent i)) s = rw y at e in
          rw t (commit _ (record_body-IsRobust f o i (sent i)) s tt (rw t at h)).1
      | inr n ↦ absurd (let t : record_flow f o i s ≡ (err invalid_request, s) = rw n at e in cc)
    ]

-- A record of a flow that is new, when it succeeds, records the flow as STARTING, opens its
-- case, merges the attributes sent into the case's, gives the case the name sent, or leaves its name
-- where none is sent, records the owner where one is sent, and changes nothing else.
pub record_first :
    (f : Flow) (o : Option Owner) (i : Option CaseInfo) (s : Session)
    → find_flow f.workflow_id s.db.flows ≡ none
    → (record_flow f o i s).0 ≡ ok tt
    → WasRecorded f o i s.db (record_flow f o i s).1.db
record_first f o i s new done =
    rw (record_committed f o i s done, body-new f (sent i) s.db o i new)
      (recorded_lem f o i s.db new)

-- A record that reports an error has changed no table.
pub record_atomic :
    (f : Flow) (o : Option Owner) (i : Option CaseInfo) (s : Session) (e : Err)
    → (record_flow f o i s).0 ≡ err e
    → (record_flow f o i s).1.db ≡ s.db
record_atomic f o i s e h =
    let q = record_flow_lem f o i s in
    elim (Bool-cases (sendable i)) [
      | inl y ↦
          let t : record_flow f o i s ≡ with_tx (record_body f o i (sent i)) s = rw y at q in
          rw t (rollback (record_body f o i (sent i)) s e (rw t at h))
      | inr n ↦ let t : record_flow f o i s ≡ (err invalid_request, s) = rw n at q in rw t
    ]

-- A record of a workflow ID that is recorded already, under any case, succeeds without a
-- change to the tables or fails without one.
pub record_repeat :
    (f : Flow) (o : Option Owner) (i : Option CaseInfo) (s : Session) (g : Flow)
    → find_flow f.workflow_id s.db.flows ≡ some g
    → (record_flow f o i s).1.db ≡ s.db
record_repeat f o i s g h = go (record_flow f o i s).0 refl
  where
    go : (r : Result (Unit {0})) → (record_flow f o i s).0 ≡ r → (record_flow f o i s).1.db ≡ s.db
    go (ok tt) e = rw (record_committed f o i s e, body-known f (sent i) s.db o i g h)
    go (err x) e = record_atomic f o i s x e

pub record_flow-IsConsistent :
    (f : Flow) (o : Option Owner) (i : Option CaseInfo) (s : Session)
    → IsConsistent s.db
    → IsConsistent (record_flow f o i s).1.db
record_flow-IsConsistent f o i s h = go (record_flow f o i s).0 refl
  where
    go :
        (r : Result (Unit {0}))
        → (record_flow f o i s).0 ≡ r
        → IsConsistent (record_flow f o i s).1.db
    go (err x) e = rw (record_atomic f o i s x e) h
    go (ok tt) e =
        rw (record_committed f o i s e) (elim (Option-cases (find_flow f.workflow_id s.db.flows)) [
          | inl n ↦ rw (body-new f (sent i) s.db o i n) (recorded-IsConsistent f o i s.db n h)
          | inr (g, k) ↦ rw (body-known f (sent i) s.db o i g k) h
        ])
