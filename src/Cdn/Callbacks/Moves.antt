-- ===== src/Cdn/Callbacks/Moves.antt =====
-- What a callback of cdn/service.go, cancellation.go and amendment.go may do to the table of notes.
pub mod Callback
pub mod Histories
use text.Mathlib.TextPositions.{eq_refl}
use nsw_srilanka.Common.{
  ℕ, String, ◌==◌, eq_iff, Bool, true, false, ◌&&◌, ◌||◌, not, Option, none, some, List, [], ◌∷◌,
  ◌≡◌, ◌≢◌, refl, sym, ap, ◌∙◌, subst, inl, inr, ◌⊎◌, In, here, there, In-cons, ltb, Distinct, any,
  Bool-cases, Option-cases, arith, if◌then◌else◌, ◌≤◌,
}
use nsw_srilanka.Common.Value.{Fields}
use nsw_srilanka.Cdn.{
  Reference, DispatchNoteStatus, submitted, integrated, failed, acknowledged, cancelled,
  DispatchNote, Failure, database, Outcome, done, failure, IntegrationResult, World, Found, unread,
  missing, row, as_found, fails, used, get_by_edge_id, get_by_cdn_ref, update, same_reference,
}
use nsw_srilanka.Cdn.Parked.{TaskRecord, Task, Search, parked, nothing}
use nsw_srilanka.Cdn.Parked
use nsw_srilanka.Cdn.Callbacks.{
  Wiring, Amendment, is_recorded, is_failed, with_result, next, complete_step, resume_found,
  resume_wired, resume_wait, resume_integration_wait, resume_acknowledgment_wait,
  resume_cancelled_wait, integrate, process_integration_result, acknowledge_in, acknowledge,
  process_acknowledgment, cancel_in, cancel, process_cancellation, open_flow, amend,
  process_amendment,
}
use nsw_srilanka.Common.Tables.{first_row, set_row, first_row-In}
use nsw_srilanka.Cdn.{id_of, patched}

-- How far a note has come.
abbrev pub rank : DispatchNoteStatus → ℕ
rank submitted = 0
rank failed = 1
rank integrated = 2
rank acknowledged = 3
rank cancelled = 4

-- `new` is the row `old` after one step of its life.
pub record Moves (old new : DispatchNote) : Type 0 where
  pub same_id : new.id ≡ old.id
  pub same_edge : new.edge_id ≡ old.edge_id
  pub same_case : new.case_id ≡ old.case_id
  pub same_workflow : new.workflow_id ≡ old.workflow_id
  pub further : ltb (rank old.status) (rank new.status) ≡ true
  pub reference : is_recorded old.status ≡ true → new.ref ≡ old.ref

-- A callback leaves the table, or succeeds and moves one of its rows.
abbrev pub Effect : {Engine : Type 0} → World Engine → Outcome × World Engine → Type 0
Effect w r =
    (r.1.notes ≡ w.notes)
    ⊎ ((r.0 ≡ done)
        × ((old : DispatchNote) × (new : DispatchNote) × In old w.notes
            × Moves old new
            × (r.1.notes ≡ set_row id_of patched new w.notes)))

module _ {Engine : Type 0} where
  found_notes :
      (complete : String → String → Fields → Engine → Bool × Engine) (payload : Fields)
      (already : Bool) (f : Search) (w : World Engine)
      → (resume_found complete payload already f w).1.notes ≡ w.notes
  unfolding resume_found complete_step
  found_notes complete payload already Parked.unread w = refl
  found_notes complete payload already nothing w = refl
  found_notes complete payload already (parked t) w = refl

  wired_notes :
      (tasks : Option (Engine → String → Option (List TaskRecord)))
      (complete : Option (String → String → Fields → Engine → Bool × Engine)) (note : DispatchNote)
      (template : String) (payload : Fields) (already : Bool) (w : World Engine)
      → (resume_wired tasks complete note template payload already w).1.notes ≡ w.notes
  unfolding resume_wired
  wired_notes none complete note template payload already w = refl
  wired_notes (some tasks) none note template payload already w = refl
  wired_notes (some tasks) (some complete) note template payload already w =
      elim (Bool-cases (note.workflow_id == "")) [
        | inl y ↦ rw y
        | inr x ↦ rw x (found_notes complete payload already _ w)
      ]

  -- Resuming a wait leaves the table, whatever comes of it.
  pub resume_notes :
      (s : Wiring Engine) (note : DispatchNote) (template : String) (payload : Fields)
      (already : Bool) (w : World Engine)
      → (resume_wait s note template payload already w).1.notes ≡ w.notes
  unfolding resume_wait
  resume_notes s note template payload already w =
      wired_notes s.tasks s.complete note template payload already w

  pub update-Effect :
      (w v : World Engine) (old new : DispatchNote)
      → v.notes ≡ w.notes
      → In old w.notes
      → Moves old new
      → Effect w (update new v)
  unfolding update
  update-Effect w v old new same m mv = elim (Bool-cases (fails v.faults)) [
    | inl y ↦ rw y (inl same)
    | inr n ↦ rw n (inr (refl, (old, new, m, mv, ap (set_row id_of patched new) same)))
  ]

  pub next-Effect :
      (w : World Engine) (r : Outcome × World Engine) (old new : DispatchNote)
      → r.1.notes ≡ w.notes
      → In old w.notes
      → Moves old new
      → Effect w (next r (update new))
  next-Effect w (done, v) old new same m mv = update-Effect w v old new same m mv
  next-Effect w (failure e, v) old new same m mv = inl same
