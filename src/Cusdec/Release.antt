-- ===== src/Cusdec/Release.antt =====
-- The two effects of a callback of cusdec/service.go, the step it completes and the row it moves, and
-- its redelivery.
pub mod Steps
use nsw_srilanka.Common.{
  ◌==◌, Bool, true, false, some, ◌≡◌, refl, ap, inl, inr, ◌⊎◌, Bool-cases, Distinct, arith,
  if◌then◌else◌,
}
use nsw_srilanka.Common.Tables.{first_row, set_row, row_keys, first_row-set_row, first_row-In}
use nsw_srilanka.Common.Value.{Fields}
use nsw_srilanka.Cdn.{same_reference, fails}
use nsw_srilanka.Cdn.Parked.{Task, Search, parked, nothing, find, find_in_case}
use nsw_srilanka.Cdn.Parked
use nsw_srilanka.Cusdec.{
  CusdecStatus, submitted, has_reached, Declaration, patched, id_of, workflow_not_found,
  duplicate_result, duplicate_event, done, failure, World, used, get_by_edge_id, get_by_cusdec_ref,
  update,
}
use nsw_srilanka.Cusdec.Requests.{IntegrationResult, EventRequest}
use nsw_srilanka.Cusdec.Callbacks.{
  Wiring, review_template_id, with_result, is_submitted, EventStep, payment_step, warranting_step,
  release_step, event_step, Review, no_review, review, as_review, next, same_status, complete_step,
  find_review_task, review_payload, reviewed, integrate, process_integration_result, complete_event,
  apply_step, apply_event, process_event,
}
use nsw_srilanka.Cusdec.Release.Steps.{
  has_reached_self, Completed, update_done, step_done, reviewed_done, review_found,
}

module _ {Engine : Type 0} (s : Wiring Engine) where
  -- The step and the row of an integration result that ends without an error.
  pub integration_found :
      (req : IntegrationResult) (w : World Engine) (d : Declaration)
      → first_row (λ x. x.edge_id == req.edge_id) w.declarations ≡ some d
      → (process_integration_result s req w).0 ≡ done
      → (d.status ≡ submitted)
        × ((t : Task) × (find (s.tasks w.engine) d.case_id d.workflow_id review_template_id
              ≡ parked t)
            × Completed s t
                (review_payload s req)
                w.engine
                (process_integration_result s req w).1.engine)
        × ((process_integration_result s req w).1.declarations
            ≡ set_row id_of patched (with_result d req) w.declarations)
  unfolding process_integration_result get_by_edge_id integrate
  integration_found req w d found h = elim (Bool-cases (fails w.faults)) [
    | inl y ↦ absurd (let k = rw y at h in cc)
    | inr n ↦
        let k = rw (n, found) at h in
        elim (Bool-cases (is_submitted d.status)) [
          | inr x ↦ absurd (let j = rw x at k in cc)
          | inl y ↦
              let (t, e, c, a) =
                reviewed_done s d req (find_review_task s d w.engine) (used w) (rw y at k) in
              (
                ground arith,
                (t, review_found s d w.engine t e, rw (n, found, y) c),
                rw (n, found, y) a,
              )
        ]
  ]

  event_done :
      (d : Declaration) (st : EventStep) (f : Search) (w : World Engine)
      → has_reached d.status st.target ≡ false
      → (complete_event s d st f w).0 ≡ done
      → (((f ≡ nothing) × ((complete_event s d st f w).1.engine ≡ w.engine))
          ⊎ ((t : Task) × (f ≡ parked t)
              × Completed s t st.payload w.engine (complete_event s d st f w).1.engine))
        × ((complete_event s d st f w).1.declarations
            ≡ set_row id_of patched (record d { status = st.target }) w.declarations)
  unfolding complete_event
  event_done d st Parked.unread w n h = absurd (cc)
  event_done d st nothing w n h =
      let x : same_status d.status st.target ≡ false = ground arith in
      let (a, b) = update_done (record d { status = st.target }) w (rw x at h) in
      (inl (refl, rw x b), rw x a)
  event_done d st (parked t) w n h =
      let (a, b) = step_done s t st.payload (record d { status = st.target }) w h in
      (inr (t, refl, a), b)

  -- The step and the row of a new event that ends without an error.
  pub event_found :
      (req : EventRequest) (w : World Engine) (d : Declaration) (st : EventStep)
      → first_row (λ x. same_reference x.ref req.ref) w.declarations ≡ some d
      → event_step req ≡ some st
      → has_reached d.status st.target ≡ false
      → (process_event s req w).0 ≡ done
      → (((find_in_case (s.tasks w.engine) d.case_id st.template ≡ nothing)
            × ((process_event s req w).1.engine ≡ w.engine))
          ⊎ ((t : Task) × (find_in_case (s.tasks w.engine) d.case_id st.template ≡ parked t)
              × Completed s t st.payload w.engine (process_event s req w).1.engine))
        × ((process_event s req w).1.declarations
            ≡ set_row id_of patched (record d { status = st.target }) w.declarations)
  unfolding process_event get_by_cusdec_ref apply_event apply_step
  event_found req w d st found kind new h = elim (Bool-cases (fails w.faults)) [
    | inl y ↦ absurd (let k = rw y at h in cc)
    | inr n ↦
        let k = rw (n, found, kind, new) at h in
        let r =
          event_done d st (find_in_case (s.tasks w.engine) d.case_id st.template) (used w) new k in
        rw (n, found, kind, new) r
  ]

  result_recorded :
      (d : Declaration) (req : IntegrationResult) → is_submitted (with_result d req).status ≡ false
  unfolding with_result
  result_recorded d req = elim (Bool-cases req.integrated) [ inl y ↦ rw y | inr n ↦ rw n ]

  -- A declaration's result is applied once: over the table that it left, any result for the same
  -- submission, whatever it says, changes neither a declaration nor the engine and is known as a
  -- duplicate, where the database answers.
  pub integration_once :
      (req again : IntegrationResult) (w : World Engine) (d : Declaration)
      → Distinct (row_keys id_of w.declarations)
      → first_row (λ x. x.edge_id == req.edge_id) w.declarations ≡ some d
      → (process_integration_result s req w).0 ≡ done
      → again.edge_id ≡ req.edge_id
      → fails (process_integration_result s req w).1.faults ≡ false
      → process_integration_result s again (process_integration_result s req w).1
        ≡ (failure duplicate_result, used (process_integration_result s req w).1)
  integration_once req again w d ids found h same calm =
      let (sub, _, rows) = integration_found req w d found h in
      let (m, q) = first_row-In (λ x. x.edge_id == req.edge_id) w.declarations d found in
      let f =
        first_row-set_row id_of (λ x. x.edge_id == req.edge_id) patched (with_result d req) d
          w.declarations ids found (kept d) q in
      go (process_integration_result s req w).1 calm (rw (same, rows) f)
    where
      kept : (d : Declaration) → d.id ≡ (with_result d req).id
      kept d =
          unfold with_result in elim (Bool-cases req.integrated) [ inl y ↦ rw y | inr n ↦ rw n ]

      go :
          (v : World Engine)
          → fails v.faults ≡ false
          → first_row (λ x. x.edge_id == again.edge_id) v.declarations
            ≡ some (patched (with_result d req) d)
          → process_integration_result s again v ≡ (failure duplicate_result, used v)
      go v c e =
          unfold process_integration_result get_by_edge_id integrate in
          rw (c, e, result_recorded d req)

  target_of_event :
      (a b : EventRequest) (st : EventStep)
      → a.event ≡ b.event
      → event_step b ≡ some st
      → (st' : EventStep) × (event_step a ≡ some st') × (st'.target ≡ st.target)
  unfolding event_step
  target_of_event a b st e h = elim (Bool-cases (b.event == "PAYMENT_CONFIRMED")) [
    | inl y ↦ (payment_step a, rw (e, y), ap (λ (x : EventStep). x.target) (same (rw y at h)))
    | inr n ↦ elim (Bool-cases (b.event == "WARRANTING_COMPLETED")) [
      | inl y ↦ (
        warranting_step a,
        rw (e, n, y),
        ap (λ (x : EventStep). x.target) (same (rw (n, y) at h)),
      )
      | inr m ↦ elim (Bool-cases (b.event == "EXPORT_RELEASED")) [
        | inl y ↦ (
          release_step a,
          rw (e, n, m, y),
          ap (λ (x : EventStep). x.target) (same (rw (n, m, y) at h)),
        )
        | inr k ↦ absurd (let z = rw (n, m, k) at h in cc)
      ]
    ]
  ]
    where
      same : {x y : EventStep} → some x ≡ some y → x ≡ y
      same p = cc

  -- An event that is new for its declaration is applied once: over the table that it left, the
  -- same event for the same reference, whatever else it says, changes neither a declaration nor
  -- the engine and is known as a duplicate, where the database answers.
  pub event_once :
      (req again : EventRequest) (w : World Engine) (d : Declaration) (st : EventStep)
      → Distinct (row_keys id_of w.declarations)
      → first_row (λ x. same_reference x.ref req.ref) w.declarations ≡ some d
      → event_step req ≡ some st
      → has_reached d.status st.target ≡ false
      → (process_event s req w).0 ≡ done
      → again.ref ≡ req.ref
      → again.event ≡ req.event
      → fails (process_event s req w).1.faults ≡ false
      → process_event s again (process_event s req w).1
        ≡ (failure duplicate_event, used (process_event s req w).1)
  event_once req again w d st ids found kind new h same_ref same_event calm =
      let (_, rows) = event_found req w d st found kind new h in
      let (m, q) = first_row-In (λ x. same_reference x.ref req.ref) w.declarations d found in
      let f =
        first_row-set_row id_of (λ x. same_reference x.ref req.ref) patched
          (record d { status = st.target }) d w.declarations ids found refl q in
      let (st', k, t) = target_of_event again req st same_event kind in
      go st' k t (process_event s req w).1 calm (rw (same_ref, rows) f)
    where
      go :
          (st' : EventStep)
          → event_step again ≡ some st'
          → st'.target ≡ st.target
          → (v : World Engine) → fails v.faults ≡ false
          → first_row (λ x. same_reference x.ref again.ref) v.declarations
            ≡ some (patched (record d { status = st.target }) d)
          → process_event s again v ≡ (failure duplicate_event, used v)
      go st' k t v c e =
          let r : has_reached st.target st'.target ≡ true = rw t (has_reached_self st.target) in
          unfold process_event get_by_cusdec_ref apply_event apply_step in rw (c, e, k, r)
