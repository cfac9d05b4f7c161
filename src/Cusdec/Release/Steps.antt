-- ===== src/Cusdec/Release/Steps.antt =====
-- A step that a callback of cusdec/service.go completes, and the update after it, when both succeed.
use nsw_srilanka.Common.{
  ◌==◌, Bool, true, false, ◌≡◌, refl, inl, inr, Bool-cases, arith, if◌then◌else◌,
}
use nsw_srilanka.Common.Tables.{set_row}
use nsw_srilanka.Common.Value.{Fields}
use nsw_srilanka.Cdn.{fails}
use nsw_srilanka.Cdn.Parked.{Task, Search, parked, nothing, find, find_in_case}
use nsw_srilanka.Cdn.Parked
use nsw_srilanka.Cusdec.{
  CusdecStatus, has_reached, Declaration, patched, id_of, workflow_not_found, done, World, update,
}
use nsw_srilanka.Cusdec.Requests.{IntegrationResult}
use nsw_srilanka.Cusdec.Callbacks.{
  Wiring, review_template_id, with_result, Review, no_review, review, as_review, next,
  complete_step, find_review_task, review_payload, reviewed,
}

pub has_reached_self : (a : CusdecStatus) → has_reached a a ≡ true
has_reached_self a = ground arith

-- The engine has completed the step of a task with the payload, and is at `e'`.
pub record Completed {Engine : Type 0} (s : Wiring Engine) (t : Task) (payload : Fields)
    (e e' : Engine) : Type 0 where
  pub completed : s.complete t.task_id t.step_id payload e ≡ (true, e')

module _ {Engine : Type 0} where
  pub update_done :
      (new : Declaration) (w : World Engine)
      → (update new w).0 ≡ done
      → ((update new w).1.declarations ≡ set_row id_of patched new w.declarations)
        × ((update new w).1.engine ≡ w.engine)
  unfolding update
  update_done new w h = elim (Bool-cases (fails w.faults)) [
    | inl y ↦ absurd (ground arith)
    | inr n ↦ (rw n, rw n)
  ]

module _ {Engine : Type 0} (s : Wiring Engine) where
  -- A step and an update after it, when both succeed.
  pub step_done :
      (t : Task) (payload : Fields) (new : Declaration) (w : World Engine)
      → (next (complete_step s t payload w) (update new)).0 ≡ done
      → Completed s t payload w.engine (next (complete_step s t payload w) (update new)).1.engine
        × ((next (complete_step s t payload w) (update new)).1.declarations
            ≡ set_row id_of patched new w.declarations)
  unfolding complete_step
  step_done t payload new w h =
      let r = s.complete t.task_id t.step_id payload w.engine in
      elim (Bool-cases r.0) [
        | inr n ↦ absurd (let k = rw n at h in cc)
        | inl y ↦
            let (a, b) = update_done new (record w { engine = r.1 }) (rw y at h) in
            (rw y (record { completed = rw b (λ i. (y i, r.1)) }), rw y a)
      ]

  pub reviewed_done :
      (d : Declaration) (req : IntegrationResult) (v : Review) (w : World Engine)
      → (reviewed s d req v w).0 ≡ done
      → (t : Task) × (v ≡ review t)
        × Completed s t (review_payload s req) w.engine (reviewed s d req v w).1.engine
        × ((reviewed s d req v w).1.declarations
            ≡ set_row id_of patched (with_result d req) w.declarations)
  unfolding reviewed
  reviewed_done d req (no_review e) w h = absurd (cc)
  reviewed_done d req (review t) w h =
      let (a, b) = step_done t (review_payload s req) (with_result d req) w h in (t, refl, a, b)

  pub review_found :
      (d : Declaration) (e : Engine) (t : Task)
      → find_review_task s d e ≡ review t
      → find (s.tasks e) d.case_id d.workflow_id review_template_id ≡ parked t
  unfolding find_review_task
  review_found d e t h =
      go (d.workflow_id == "") (find (s.tasks e) d.case_id d.workflow_id review_template_id) h
    where
      go :
          (b : Bool) (f : Search)
          → (if b then no_review workflow_not_found else as_review f) ≡ review t
          → f ≡ parked t
      go true f k = absurd (cc)
      go false Parked.unread k = absurd (cc)
      go false nothing k = absurd (cc)
      go false (parked u) k = cc
