-- ===== src/Caseflow/Repository/Attributes.antt =====
-- CaseAttributes and SharedAttributes of internal/caseflow/repository.go: the attributes of a case that
-- may be sent to another system.
use nsw_srilanka.Common.{
  String, ◌==◌, eq_iff, ◌&&◌, Option, none, some, List, [], ◌∷◌, ◌≡◌, refl, ap, ◌∙◌, inl, inr, ◌⊎◌,
  contains, is_some, arith, Bool-cases, if◌then◌else◌,
}
use nsw_srilanka.Common.Value.{Value, Fields, end, field_at, set_field, field_at-set_field}
use nsw_srilanka.Caseflow.Rows.{CaseRow, database}
use nsw_srilanka.Caseflow.Exec.{ok, err, Session, Tx, stmt, pure, ◌>>=◌}
use nsw_srilanka.Caseflow.Exec.Robust.{stmt-cases}

abbrev pub attributes_in : Option CaseRow → Option Fields
attributes_in none = none
attributes_in (some r) = some r.attributes

-- CaseAttributes of the repository; `none` for a case that does not exist.
unfoldable pub case_attributes : String → Tx (Option Fields)
case_attributes c = stmt (λ db. (attributes_in (db.cases c), db))

-- m[key] of a map that may be nil
abbrev pub entry : String → Option Fields → Option Value
entry k none = none
entry k (some fs) = field_at k fs

abbrev or_empty : Option Fields → Fields
or_empty none = end
or_empty (some fs) = fs

with_entry : String → Option Value → Option Fields → Option Fields
unfolding set_field
with_entry k none shared = shared
with_entry k (some v) shared = some (set_field k v (or_empty shared))

-- The loop over the listed keys, from what is shared so far.
collect : List String → Option Fields → Option Fields → Option Fields
unfolding with_entry field_at
collect [] attrs shared = shared
collect (k ∷ ks) attrs shared = collect ks attrs (with_entry k (entry k attrs) shared)

-- CaseAttributes of SharedAttributes
unfoldable pub shared_attributes : List String → String → Tx (Option Fields)
unfolding case_attributes collect
shared_attributes keys c = do attrs ← case_attributes c; pure (collect keys attrs none)

entry-with_entry :
    (j k : String) (v : Option Value) (shared : Option Fields)
    → entry j (with_entry k v shared) ≡ (if (k == j) && is_some v then v else entry j shared)
unfolding with_entry field_at
entry-with_entry j k none shared = ground arith
entry-with_entry j k (some v) none = ground (arith, field_at-set_field k j v end)
entry-with_entry j k (some v) (some fs) = ground (arith, field_at-set_field k j v fs)

entry-collect :
    (j : String) (ks : List String) (attrs shared : Option Fields)
    → entry j (collect ks attrs shared)
      ≡ (if contains ks j && is_some (entry j attrs) then entry j attrs else entry j shared)
unfolding collect
entry-collect j [] attrs shared = refl
entry-collect j (k ∷ ks) attrs shared =
    entry-collect j ks attrs (with_entry k (entry k attrs) shared) ∙ elim (Bool-cases (k == j)) [
      | inl y ↦
          let same : entry k attrs ≡ entry j attrs = ap (λ x. entry x attrs) ((eq_iff k j).0 y) in
          let e = entry-with_entry j k (entry k attrs) shared in ground arith
      | inr n ↦ let e = entry-with_entry j k (entry k attrs) shared in ground arith
    ]

-- What is shared of a case has, under each listed key, the case's own attribute if it has one, and
-- nothing under any other key; no table is written, and the only failure is the database's.
pub shared_attributes_lem :
    (keys : List String) (c : String) (s : Session)
    → ((shared_attributes keys c s).1.db ≡ s.db)
      × (((shared_attributes keys c s).0 ≡ err database)
          ⊎ ((shared : Option Fields) × ((shared_attributes keys c s).0 ≡ ok shared)
              × ((k : String)
                  → entry k shared
                    ≡ (if contains keys k then entry k (attributes_in (s.db.cases c)) else none))))
unfolding shared_attributes
shared_attributes_lem keys c s = elim (stmt-cases (λ db. (attributes_in (db.cases c), db)) s) [
  | inl (p, q) ↦ (rw p q, inl (rw p))
  | inr (p, q) ↦ (
    rw p q,
    inr (
      collect keys (attributes_in (s.db.cases c)) none,
      rw p,
      λ k. let e = entry-collect k keys (attributes_in (s.db.cases c)) none in ground arith,
    ),
  )
]
