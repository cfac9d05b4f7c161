-- ===== src/Cusdec/Histories/Rules.antt =====
-- The moves that a declaration may make, and what a callback of cusdec/service.go may do to the table.
use nsw_srilanka.Common.{
  Bool, true, false, List, ◌≡◌, subst, inl, inr, ◌⊎◌, In, ltb, Option-cases, arith, if◌then◌else◌,
}
use nsw_srilanka.Common.Tables.{first_row, first_row-In, set_row}
use nsw_srilanka.Document.{is_valid}
use nsw_srilanka.Cusdec.{
  CusdecStatus, submitted, integrated, failed, event_status_order, Declaration, patched, id_of,
  Outcome, done, World, unread, row, as_found,
}

-- A declaration that ASYCUDA has not registered.
abbrev pub is_unregistered : CusdecStatus → Bool
is_unregistered submitted = true
is_unregistered failed = true
is_unregistered _ = false

-- A row has a reference exactly where its declaration was registered.
pub record IsSound (d : Declaration) : Type 0 where
  pub unregistered : is_unregistered d.status ≡ true → d.ref.number ≡ 0
  pub registered : is_unregistered d.status ≡ false → is_valid d.ref ≡ true

abbrev pub is_answer : CusdecStatus → Bool
is_answer integrated = true
is_answer failed = true
is_answer _ = false

-- The steps of a declaration's life: Customs' answer to a submission, and then only forward.
abbrev pub goes : CusdecStatus → CusdecStatus → Bool
goes submitted t = is_answer t
goes failed t = false
goes s t = ltb (event_status_order s) (event_status_order t)

-- `new` is the row `old` after one step of its life.
pub record Moves (old new : Declaration) : Type 0 where
  pub same_id : new.id ≡ old.id
  pub same_edge : new.edge_id ≡ old.edge_id
  pub same_case : new.case_id ≡ old.case_id
  pub same_workflow : new.workflow_id ≡ old.workflow_id
  pub same_time : new.created_at ≡ old.created_at
  pub step : goes old.status new.status ≡ true
  pub reference : is_unregistered old.status ≡ false → new.ref ≡ old.ref
  pub sound : IsSound new

-- A callback leaves the table, or succeeds and moves one of its rows.
abbrev pub Effect : {Engine : Type 0} → World Engine → Outcome × World Engine → Type 0
Effect w r =
    (r.1.declarations ≡ w.declarations)
    ⊎ ((r.0 ≡ done)
        × ((old : Declaration) × (new : Declaration) × In old w.declarations
            × Moves old new
            × (r.1.declarations ≡ set_row id_of patched new w.declarations)))

pub read-In :
    (b : Bool) (p : Declaration → Bool) (ds : List Declaration) (d : Declaration)
    → (if b then unread else as_found (first_row p ds)) ≡ row d
    → In d ds × (p d ≡ true)
read-In b p ds d h = elim (Option-cases (first_row p ds)) [
  | inl e ↦ absurd (ground arith)
  | inr (x, e) ↦
      let same : x ≡ d = ground arith in
      let (m, q) = first_row-In p ds x e in
      (subst (λ z. In z ds) same m, subst (λ z. p z ≡ true) same q)
]
