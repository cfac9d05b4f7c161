-- ===== src/Caseflow/Repository/Recording/Effect.antt =====
-- What a Record of a new flow leaves in the tables (internal/caseflow/repository.go).
use text.Mathlib.TextPositions.{eq_refl}
use nsw_srilanka.Common.{
  String, ◌==◌, eq_iff, false, ◌&&◌, Option, none, some, [], ◌∷◌, ◌++◌, ◌≡◌, refl, ap, ◌∙◌, arith,
  if◌then◌else◌,
}
use nsw_srilanka.Common.Value.{Value, end, field_at, merge, field_at-merge}
use nsw_srilanka.Caseflow.Rows.{starting, in_progress, Flow, CaseRow, Party, Db, Owner, CaseInfo}
use nsw_srilanka.Caseflow.Repository.{
  find_flow, insert_case, insert_flow, reopen_case, merge_case_info, upsert_owner, or_old, type_ou,
}
use nsw_srilanka.Caseflow.Repository.Invariant.{
  IsConsistent, opened, opened-IsConsistent, update_case-IsConsistent,
}
use nsw_srilanka.Caseflow.Repository.Recording.{with_info, with_owner, recorded, sent}

abbrev pub owner_after : Option Owner → String → String → String → Option Party → Option Party
owner_after none k c r old = old
owner_after (some o) k c r old =
    if (k == c) && (o.role == r)
    then some (record { party_type = type_ou; party_id = o.ou_handle; assigned_by = none })
    else old

abbrev pub attribute_before : String → Option CaseRow → Option Value
attribute_before k none = none
attribute_before k (some r) = field_at k r.attributes

abbrev pub name_before : Option CaseRow → Option String
name_before none = none
name_before (some r) = r.name

-- The case's name: the one sent, or the one it had where none is sent.
abbrev pub name_after : Option CaseInfo → Option String → Option String
name_after none old = old
name_after (some i) old = if i.name == "" then old else some i.name

-- `new` is `old` with the flow recorded as STARTING, its case there and IN_PROGRESS, its
-- name the one sent or else kept, the attributes merged by key, the owner's role held by the owner, and nothing else changed.
pub record WasRecorded (f : Flow) (o : Option Owner) (i : Option CaseInfo) (old new : Db)
    : Type 0 where
  pub appended : new.flows ≡ old.flows ++ record f { status = starting } ∷ []
  pub reopened :
      (r : CaseRow) × (new.cases f.case_id ≡ some r)
      × (r.state ≡ in_progress)
      × (r.name ≡ name_after i (name_before (old.cases f.case_id)))
      × ((k : String)
          → field_at k r.attributes ≡ elim (field_at k (sent i)) [
            | some v ↦ some v
            | none ↦ attribute_before k (old.cases f.case_id)
          ])
  pub others : (c : String) → (f.case_id == c) ≡ false → new.cases c ≡ old.cases c
  pub owned : (c r : String) → new.parties c r ≡ owner_after o f.case_id c r (old.parties c r)

abbrev reopened_row : Option CaseRow → CaseRow
reopened_row none = record { state = in_progress; name = none; attributes = end }
reopened_row (some r) = record r { state = in_progress }

abbrev informed_row : Option CaseInfo → CaseRow → CaseRow
informed_row none r = r
informed_row (some i) r = record r {
  attributes = merge r.attributes i.attributes;
  name = or_old i.name r.name;
}

opened-eq :
    (f : Flow) (db : Db) (c : String)
    → find_flow f.workflow_id db.flows ≡ none
    → ((opened f db).cases c
        ≡ (if f.case_id == c then some (reopened_row (db.cases f.case_id)) else db.cases c))
      × ((opened f db).flows ≡ db.flows ++ record f { status = starting } ∷ [])
      × ((opened f db).parties ≡ db.parties)
unfolding opened reopen_case insert_flow insert_case
opened-eq f db c new = ground (arith, eq_iff f.case_id c, eq_iff f.case_id f.case_id)

with_info-eq :
    (i : Option CaseInfo) (k c : String) (r : CaseRow) (db : Db)
    → db.cases k ≡ some r
    → ((with_info i (sent i) k db).cases c
        ≡ (if k == c then some (informed_row i r) else db.cases c))
      × ((with_info i (sent i) k db).flows ≡ db.flows)
      × ((with_info i (sent i) k db).parties ≡ db.parties)
unfolding with_info merge_case_info
with_info-eq none k c r db h = ground (arith, eq_iff k c)
with_info-eq (some i) k c r db h = ground (arith, eq_iff k c)

informed-attributes :
    (i : Option CaseInfo) (old : Option CaseRow) (k : String)
    → field_at k (informed_row i (reopened_row old)).attributes
      ≡ elim (field_at k (sent i)) [ some v ↦ some v | none ↦ attribute_before k old ]
unfolding field_at
informed-attributes none none k = refl
informed-attributes none (some r) k = refl
informed-attributes (some i) none k = ground (arith, field_at-merge k end i.attributes)
informed-attributes (some i) (some r) k = ground (arith, field_at-merge k r.attributes i.attributes)

with_owner-eq :
    (o : Option Owner) (k : String) (db : Db)
    → ((with_owner o k db).cases ≡ db.cases)
      × ((with_owner o k db).flows ≡ db.flows)
      × ((c r : String) → (with_owner o k db).parties c r ≡ owner_after o k c r (db.parties c r))
unfolding with_owner upsert_owner
with_owner-eq none k db = (refl, refl, λ c r. refl)
with_owner-eq (some o) k db = (refl, refl, λ c r. refl)

informed-state :
    (i : Option CaseInfo) (old : Option CaseRow)
    → (informed_row i (reopened_row old)).state ≡ in_progress
informed-state none none = refl
informed-state none (some r) = refl
informed-state (some i) none = refl
informed-state (some i) (some r) = refl

informed-name :
    (i : Option CaseInfo) (old : Option CaseRow)
    → (informed_row i (reopened_row old)).name ≡ name_after i (name_before old)
informed-name none none = refl
informed-name none (some r) = refl
informed-name (some i) none = refl
informed-name (some i) (some r) = refl

module _ (f : Flow) (o : Option Owner) (i : Option CaseInfo) (db : Db)
    (new : find_flow f.workflow_id db.flows ≡ none) where
  abbrev final_row : CaseRow
  final_row = informed_row i (reopened_row (db.cases f.case_id))

  opened-at : (opened f db).cases f.case_id ≡ some (reopened_row (db.cases f.case_id))
  opened-at = (opened-eq f db f.case_id new).0 ∙ rw (eq_refl f.case_id)

  cases-recorded :
      (c : String)
      → (recorded f o i (sent i) db).cases c
        ≡ (if f.case_id == c then some final_row else db.cases c)
  unfolding recorded
  cases-recorded c =
      let info =
        with_info-eq i f.case_id c (reopened_row (db.cases f.case_id)) (opened f db) opened-at in
      rw (with_owner-eq o f.case_id (with_info i (sent i) f.case_id (opened f db))).0
        (rw info.0 (ground (arith, opened-eq f db c new)))

  pub recorded_lem : WasRecorded f o i db (recorded f o i (sent i) db)
  unfolding recorded
  recorded_lem =
      let info =
        with_info-eq i f.case_id f.case_id (reopened_row (db.cases f.case_id)) (opened f db)
          opened-at in
      let owner = with_owner-eq o f.case_id (with_info i (sent i) f.case_id (opened f db)) in
      let open_eq = opened-eq f db f.case_id new in
      record {
        appended = owner.1 ∙ info.1 ∙ open_eq.1;
        reopened = (
          final_row,
          cases-recorded f.case_id ∙ rw (eq_refl f.case_id),
          informed-state i (db.cases f.case_id),
          informed-name i (db.cases f.case_id),
          informed-attributes i (db.cases f.case_id),
        );
        others = λ c n. cases-recorded c ∙ rw n;
        owned = λ c r.
            owner.2 c r
            ∙ ap (λ (t : String → String → Option Party). owner_after o f.case_id c r (t c r))
                (info.2 ∙ open_eq.2);
      }

  pub recorded-IsConsistent : IsConsistent db → IsConsistent (recorded f o i (sent i) db)
  unfolding recorded with_info with_owner merge_case_info upsert_owner
  recorded-IsConsistent h = owner_keeps o (info_keeps i (opened-IsConsistent f db new h))
    where
      info_keeps :
          (i : Option CaseInfo) {d : Db}
          → IsConsistent d
          → IsConsistent (with_info i (sent i) f.case_id d)
      info_keeps none h = h
      info_keeps (some i) h = update_case-IsConsistent f.case_id _ (λ r. refl) _ h

      owner_keeps :
          (o : Option Owner) {d : Db} → IsConsistent d → IsConsistent (with_owner o f.case_id d)
      owner_keeps none h = h
      owner_keeps (some o) h = record { referenced = h.referenced; exact = h.exact }
