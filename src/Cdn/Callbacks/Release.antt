-- ===== src/Cdn/Callbacks/Release.antt =====
-- The order of a callback's two effects, and its redelivery: cdn/service.go and cdn/resume.go.
use nsw_srilanka.Common.{
  String, ◌==◌, Bool, true, false, ◌&&◌, not, Option, some, List, ◌≡◌, refl, ap, ◌∙◌, inl, inr, ◌⊎◌,
  Bool-cases, arith,
}
use nsw_srilanka.Common.Value.{Fields}
use nsw_srilanka.Cdn.{
  DispatchNote, Outcome, done, failure, IntegrationResult, World, fails, used, get_by_edge_id,
  update,
}
use nsw_srilanka.Cdn.Parked.{TaskRecord, Task, Search, parked, nothing, find}
use nsw_srilanka.Cdn.Parked
use nsw_srilanka.Cdn.Parked.Waiting.{IsParkedIn, find-IsParkedIn}
use nsw_srilanka.Cdn.Callbacks.{
  Wiring, is_recorded, is_failed, with_result, next, complete_step, resume_found, resume_wired,
  resume_wait, resume_integration_wait, integrate, process_integration_result, integration_payload,
  integration_wait_template_id,
}
use nsw_srilanka.Cdn.Callbacks.Moves.{resume_notes}
use nsw_srilanka.Common.Tables.{first_row, set_row}
use nsw_srilanka.Cdn.{id_of, patched}

-- The deployment has a task store and an engine.
pub record Wired {Engine : Type 0} (s : Wiring Engine) : Type 0 where
  pub tasks : Engine → String → Option (List TaskRecord)
  pub complete : String → String → Fields → Engine → Bool × Engine
  pub with_tasks : s.tasks ≡ some tasks
  pub with_complete : s.complete ≡ some complete

-- The step that the note's workflow has parked on the template has been completed with the payload, and
-- the engine is at `e'`.
pub record Released {Engine : Type 0} {s : Wiring Engine} (d : Wired s) (note : DispatchNote)
    (template : String) (payload : Fields) (e e' : Engine) : Type 0 where
  pub task : Task
  pub waiting : IsParkedIn (d.tasks e) note.case_id note.workflow_id template task
  pub completed : d.complete task.task_id task.step_id payload e ≡ (true, e')

module _ {Engine : Type 0} {s : Wiring Engine} (d : Wired s) where
  wired :
      (note : DispatchNote) (template : String) (payload : Fields) (already : Bool)
      (w : World Engine)
      → resume_wait s note template payload already w
        ≡ resume_wired (some d.tasks) (some d.complete) note template payload already w
  unfolding resume_wait
  wired note template payload already w = rw (d.with_tasks, d.with_complete)

  found_done :
      (payload : Fields) (f : Search) (w : World Engine)
      → (resume_found d.complete payload false f w).0 ≡ done
      → (t : Task) × (f ≡ parked t)
        × (d.complete t.task_id t.step_id payload w.engine
            ≡ (true, (resume_found d.complete payload false f w).1.engine))
  unfolding resume_found complete_step
  found_done payload Parked.unread w h = cc
  found_done payload nothing w h = cc
  found_done payload (parked t) w h =
      let b : (d.complete t.task_id t.step_id payload w.engine).0 ≡ true = ground arith in
      (t, refl, λ i. (b i, (d.complete t.task_id t.step_id payload w.engine).1))

  -- A wait that is resumed for a new callback, and no error reported, has been released.
  resume_Released :
      (note : DispatchNote) (template : String) (payload : Fields) (w : World Engine)
      → (resume_wait s note template payload false w).0 ≡ done
      → Released d note template payload w.engine
          (resume_wait s note template payload false w).1.engine
  unfolding resume_wired
  resume_Released note template payload w h =
      let e = wired note template payload false w in
      elim (Bool-cases (note.workflow_id == "")) [
        | inl y ↦ absurd (ground arith)
        | inr n ↦
            let e' : resume_wait s note template payload false w
                ≡ resume_found d.complete payload false
                    (find (d.tasks w.engine) note.case_id note.workflow_id template) w =
              e ∙ rw n in
            let (t, p, q) =
              found_done payload (find (d.tasks w.engine) note.case_id note.workflow_id template) w
                (rw e' at h) in
            record {
              task = t;
              waiting =
                  find-IsParkedIn (d.tasks w.engine) note.case_id note.workflow_id template t p;
              completed = rw e' q;
            }
      ]

  next_done :
      (r : Outcome × World Engine) (new : DispatchNote)
      → (next r (update new)).0 ≡ done
      → (r.0 ≡ done)
        × ((next r (update new)).1.notes ≡ set_row id_of patched new r.1.notes)
        × ((next r (update new)).1.engine ≡ r.1.engine)
  unfolding update
  next_done (done, v) new h = elim (Bool-cases (fails v.faults)) [
    | inl y ↦ absurd (ground arith)
    | inr n ↦ (refl, rw n, rw n)
  ]
  next_done (failure e, v) new h = cc

  -- In a deployment with an engine, when a result that is new for its recorded note is processed
  -- without an error, the task that waits for it has been found parked and its step completed
  -- with the result, and the note is recorded as the result says.
  pub integration_found :
      (req : IntegrationResult) (w : World Engine) (note : DispatchNote)
      → first_row (λ n. n.edge_id == req.edge_id) w.notes ≡ some note
      → is_recorded note.status ≡ false
      → (req.integrated ≡ true) ⊎ (is_failed note.status ≡ false)
      → (process_integration_result s req w).0 ≡ done
      → Released d note integration_wait_template_id
          (integration_payload s req)
          w.engine
          (process_integration_result s req w).1.engine
        × ((process_integration_result s req w).1.notes
            ≡ set_row id_of patched (with_result note req) w.notes)
  unfolding process_integration_result get_by_edge_id integrate resume_integration_wait
  integration_found req w note found new fresh h = elim (Bool-cases (fails w.faults)) [
    | inl y ↦ absurd (ground arith)
    | inr n ↦
        let f : (not req.integrated && is_failed note.status) ≡ false = ground arith in
        let r =
          resume_wait s note integration_wait_template_id (integration_payload s req) false
            (used w) in
        let e : process_integration_result s req w ≡ next r (update (with_result note req)) =
          rw (n, found, new, f) in
        let (a, b, c) = next_done r (with_result note req) (rw e at h) in
        rw e (
          rw c (
              resume_Released note integration_wait_template_id (integration_payload s req) (used w)
                a),
          b
              ∙ ap (set_row id_of patched (with_result note req)) (
                  resume_notes s note integration_wait_template_id (integration_payload s req) false
                    (used w)),
        )
  ]
