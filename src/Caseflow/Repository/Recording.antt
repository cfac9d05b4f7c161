-- ===== src/Caseflow/Repository/Recording.antt =====
-- What Record of internal/caseflow/repository.go does to the tables, on each of its branches.
pub mod Effect
pub mod Laws
use text.Mathlib.TextPositions.{eq_refl}
use nsw_srilanka.Common.{
  ℕ, String, ◌==◌, eq_iff, Bool, true, false, ◌&&◌, Option, none, some, List, [], ◌∷◌, ◌++◌, ◌≡◌,
  refl, ap, fun_ext, ◌∙◌, ◌⊎◌, inl, inr, arith, Bool-cases, Option-cases, if◌then◌else◌,
}
use nsw_srilanka.Common.Value.{
  Value, Fields, end, field, field_at, merge, field_at-merge, encodable_fields,
}
use nsw_srilanka.Caseflow.Rows.{
  starting, in_progress, Flow, CaseRow, Party, Db, Owner, CaseInfo, Err, invalid_request, database,
}
use nsw_srilanka.Caseflow.Exec.{Result, ok, err, Session, Tx, stmt, with_tx, calm}
use nsw_srilanka.Caseflow.Exec.Robust.{IsRobust, rollback, commit, with_tx_keeps}
use nsw_srilanka.Caseflow.Repository.{
  find_flow, set_case, update_case, insert_case, insert_flow, delete_case, reopen_case,
  merge_case_info, upsert_owner, record_body, undo_case, write_info, write_owner, attributes_of,
  case_attributes_json, record_flow, or_old, type_ou,
}
use nsw_srilanka.Caseflow.Repository.Invariant.{
  IsConsistent, opened, opened-IsConsistent, update_case-IsConsistent,
}
use nsw_srilanka.Caseflow.Repository.Sessions.{record_body-IsRobust}

pub with_info : Option CaseInfo → Fields → String → Db → Db
with_info none attrs c db = db
with_info (some i) attrs c db = (merge_case_info attrs i.name c db).1

pub with_owner : Option Owner → String → Db → Db
with_owner none c db = db
with_owner (some o) c db = (upsert_owner c o db).1

pub recorded : Flow → Option Owner → Option CaseInfo → Fields → Db → Db
recorded f o i attrs db = with_owner o f.case_id (with_info i attrs f.case_id (opened f db))

-- The case that a repeat under another case ID has created is taken away again.
undo : (c : String) (db : Db) → db.cases c ≡ none → (delete_case c (insert_case c db).1).1 ≡ db
unfolding delete_case insert_case
undo c db h =
    let same : (k : String) → (delete_case c (insert_case c db).1).1.cases k ≡ db.cases k =
      λ k. ground (arith, eq_iff c k) in
    let rest : (delete_case c (insert_case c db).1).1
        ≡ record db { cases = (delete_case c (insert_case c db).1).1.cases } =
      ground arith in
    rest ∙ (λ i. record db { cases = fun_ext same i })

flows-insert_case : (c : String) (db : Db) → (insert_case c db).1.flows ≡ db.flows
unfolding insert_case
flows-insert_case c db = ground arith

insert_case-new : (c : String) (db : Db) → db.cases c ≡ none → (insert_case c db).0 ≡ 1
unfolding insert_case
insert_case-new c db h = ground arith

insert_case-known :
    (c : String) (db : Db) (r : CaseRow) → db.cases c ≡ some r → insert_case c db ≡ (0, db)
unfolding insert_case
insert_case-known c db r h = ground arith

insert_flow-known :
    (f : Flow) (db : Db) (g : Flow)
    → find_flow f.workflow_id db.flows ≡ some g
    → insert_flow f db ≡ (0, db)
unfolding insert_flow
insert_flow-known f db g h = ground arith

insert_flow-new :
    (f : Flow) (db : Db) → find_flow f.workflow_id db.flows ≡ none → (insert_flow f db).0 ≡ 1
unfolding insert_flow
insert_flow-new f db h = ground arith

module _ (f : Flow) (attrs : Fields) (db : Db) where
  -- The statements for a new flow, in one step each.
  pub body-new :
      (o : Option Owner) (i : Option CaseInfo)
      → find_flow f.workflow_id db.flows ≡ none
      → record_body f o i attrs (calm db) ≡ (ok tt, calm (recorded f o i attrs db))
  unfolding record_body stmt recorded opened with_info with_owner
  body-new none none h =
      rw (insert_flow-new f (insert_case f.case_id db).1 (rw flows-insert_case h))
  body-new none (some i) h =
      rw (insert_flow-new f (insert_case f.case_id db).1 (rw flows-insert_case h))
  body-new (some o) none h =
      rw (insert_flow-new f (insert_case f.case_id db).1 (rw flows-insert_case h))
  body-new (some o) (some i) h =
      rw (insert_flow-new f (insert_case f.case_id db).1 (rw flows-insert_case h))

  pub body-known :
      (o : Option Owner) (i : Option CaseInfo) (g : Flow)
      → find_flow f.workflow_id db.flows ≡ some g
      → record_body f o i attrs (calm db) ≡ (ok tt, calm db)
  unfolding record_body stmt
  body-known o i g h =
      rw (insert_flow-known f (insert_case f.case_id db).1 g (rw flows-insert_case h))
        (elim (Option-cases (db.cases f.case_id)) [
          | inl n ↦ rw (insert_case-new f.case_id db n) (rw (undo f.case_id db n))
          | inr (r, p) ↦ rw (insert_case-known f.case_id db r p)
        ])

abbrev pub sent : Option CaseInfo → Fields
sent none = end
sent (some i) = i.attributes

abbrev pub sendable : Option CaseInfo → Bool
sendable none = true
sendable (some i) = elim i.attributes [
  | end ↦ true
  | field k v fs ↦ encodable_fields (field k v fs)
]

pub attributes_of_lem :
    (i : Option CaseInfo) (s : Session)
    → attributes_of i s ≡ ((if sendable i then ok (sent i) else err invalid_request), s)
unfolding attributes_of case_attributes_json
attributes_of_lem none s = refl
attributes_of_lem (some i) s = go i.attributes s
  where
    go :
        (fs : Fields) (s : Session)
        → case_attributes_json fs s ≡ (
          (if (elim fs [ end ↦ true | field k v r ↦ encodable_fields (field k v r) ])
              then ok fs
              else err invalid_request),
          s,
        )
    go end s = refl
    go (field k v r) s = ground arith
