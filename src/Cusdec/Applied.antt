-- ===== src/Cusdec/Applied.antt =====
-- What a callback of cusdec/service.go that ends without an error has done, in the words of the
-- interface: the payload of the step, and the row.
use nsw_srilanka.Common.{
  ◌<◌, ◌≢◌, String, ◌==◌, true, false, some, ◌≡◌, refl, sym, ap, subst, ◌∙◌, inl, inr, ◌⊎◌,
  Bool-cases, Option-cases, Distinct, List,
}
use nsw_srilanka.Common.Tables.{first_row, first_row-In, row_keys}
use nsw_srilanka.Common.Tables.Replacing.{Replaced, set_row-Replaced}
use nsw_srilanka.Common.Value.{Fields, field_at}
use nsw_srilanka.Cdn.{same_reference, fails}
use nsw_srilanka.Cdn.Parked.{Task}
use nsw_srilanka.Cdn.Parked.Waiting.{
  IsParked, IsParkedIn, find-IsParkedIn, find_in_case-IsParked, find_in_case-nothing,
}
use nsw_srilanka.Cusdec.{
  CusdecStatus, submitted, has_reached, Declaration, patched, id_of, done, World, get_by_cusdec_ref,
}
use nsw_srilanka.Cusdec.Requests.{IntegrationResult, EventRequest, duties_for_task}
use nsw_srilanka.Cusdec.Callbacks.{
  review_template_id, Wiring, with_result, event_step, review_payload, process_integration_result,
  process_event, apply_event, apply_step, EventStep,
}
use nsw_srilanka.Cusdec.Release.{integration_found, event_found}
use nsw_srilanka.Cusdec.Release.Steps.{Completed}
use nsw_srilanka.Cusdec.Told.{
  Answered, Approves, Rejects, place, Reports, told_duties, amount_to_pay-owed, before,
  event_step-Reports, approval, with_result-Answered, with_result-patched, with_result-id,
  TellsDuties,
}

module _ {Engine : Type 0} (s : Wiring Engine) where
  -- What the review step is told of a result.
  abbrev pub Tells : IntegrationResult → Fields → Type 0
  Tells req payload =
      ((req.integrated ≡ true) × Approves req payload)
      ⊎ ((req.integrated ≡ false) × Rejects (s.describe_errors req.errors) payload)

  review_payload-Tells : (req : IntegrationResult) → Tells req (review_payload s req)
  unfolding review_payload field_at
  review_payload-Tells req = elim (Bool-cases req.integrated) [
    | inl y ↦
        let (a, b, c, d, e, f, g) =
          approval req req.amount_paid req.total_assessed (duties_for_task req.duties) _ refl in
        inl (
          y,
          record {
            command = rw y a;
            outcome = rw y b;
            number = rw y c;
            to_pay = rw y (d ∙ ap some (amount_to_pay-owed req.amount_payable));
            was_paid = rw y e;
            assessed = rw y f;
            told_duties = rw y (
                subst (TellsDuties req.duties) (sym g)
                  (told_duties req.duties.global_duties req.duties.item_duties));
          },
        )
    | inr n ↦ inr (n, record { command = rw n; outcome = rw n; told = rw n })
  ]

  -- A result for integration that ends without an error, of a declaration found by its edge ID, found
  -- it submitted. The engine has completed its case's review step with a payload: for an integrated one
  -- it approves, with the reference and the amounts, and for a rejected one it asks for more, with
  -- Customs' reason. The row alone has changed: INTEGRATED with the reference and no errors, or FAILED
  -- with the errors.
  pub integration_applied :
      (req : IntegrationResult) (w : World Engine) (d : Declaration)
      → Distinct (row_keys id_of w.declarations)
      → first_row (λ x. x.edge_id == req.edge_id) w.declarations ≡ some d
      → (process_integration_result s req w).0 ≡ done
      → (d.status ≡ submitted)
        × ((t : Task) × (payload : Fields) × IsParkedIn
              (s.tasks w.engine)
              d.case_id
              d.workflow_id
              "customs-cusdec--external-review"
              t
            × Tells req payload
            × Completed s t payload w.engine (process_integration_result s req w).1.engine)
        × ((new : Declaration) × Answered req d new
            × Replaced id_of d new w.declarations
                (process_integration_result s req w).1.declarations)
  integration_applied req w d ids found h =
      let (sub, (t, parks, c), rows) = integration_found s req w d found h in
      let (m, _) = first_row-In (λ x. x.edge_id == req.edge_id) w.declarations d found in
      let same = with_result-patched d req in
      (
        sub,
        (
          t,
          review_payload s req,
          find-IsParkedIn (s.tasks w.engine) d.case_id d.workflow_id review_template_id t parks,
          review_payload-Tells req,
          c,
        ),
        (
          with_result d req,
          with_result-Answered d req,
          subst (λ (x : Declaration × List Declaration). Replaced id_of d x.0 w.declarations x.1)
              (pair same (sym rows))
              (set_row-Replaced id_of patched (λ n a. refl) (with_result d req) d w.declarations ids
                m (with_result-id d req)),
        ),
      )
    where
      pair :
          {a a' : Declaration} {b b' : List Declaration}
          → a ≡ a'
          → b ≡ b'
          → ◌≡◌ {A = Declaration × List Declaration} (a, b) (a', b')
      pair p q = rw (p, q) refl

  event_known :
      (req : EventRequest) (w : World Engine) (d : Declaration)
      → first_row (λ x. same_reference x.ref req.ref) w.declarations ≡ some d
      → (process_event s req w).0 ≡ done
      → (st : EventStep) × (event_step req ≡ some st) × (has_reached d.status st.target ≡ false)
  unfolding process_event get_by_cusdec_ref apply_event apply_step
  event_known req w d found h = elim (Bool-cases (fails w.faults)) [
    | inl y ↦ absurd (let k = rw y at h in cc)
    | inr n ↦
        let k = rw (n, found) at h in
        elim (Option-cases (event_step req)) [
          | inl e ↦ absurd (let j = rw e at k in cc)
          | inr (st, e) ↦ elim (Bool-cases (has_reached d.status st.target)) [
            | inl y ↦ absurd (let j = rw (e, y) at k in cc)
            | inr x ↦ (st, e, x)
          ]
        ]
  ]

  -- The event's step, where one waits: the engine has completed it with the payload. Where none does,
  -- or the case has no ID, the engine is as it was.
  abbrev pub Steps : Declaration → String → Fields → World Engine → World Engine → Type 0
  Steps d template payload w v =
      ((d.case_id ≢ "" → (t : Task) → ¬ IsParked (s.tasks w.engine) d.case_id template t)
        × (v.engine ≡ w.engine))
      ⊎ ((t : Task) × IsParked (s.tasks w.engine) d.case_id template t
          × Completed s t payload w.engine v.engine)

  -- An event that ends without an error, of a declaration found by its reference, is one of the three
  -- that Customs sends, and the declaration stood before its status. Where a task of the case is at
  -- the event's step, the engine has completed it with what the event reports; where none is, the
  -- engine is as it was. The row alone has changed, and only to the event's status.
  pub event_applied :
      (req : EventRequest) (w : World Engine) (d : Declaration)
      → Distinct (row_keys id_of w.declarations)
      → first_row (λ x. same_reference x.ref req.ref) w.declarations ≡ some d
      → (process_event s req w).0 ≡ done
      → (template : String) × (target : CusdecStatus) × (payload : Fields) × Reports req template
          target payload
        × (place d.status < place target)
        × Steps d template payload w (process_event s req w).1
        × Replaced id_of d
            (record d { status = target })
            w.declarations
            (process_event s req w).1.declarations
  event_applied req w d ids found h =
      let (st, kind, new) = event_known req w d found h in
      let (steps, rows) = event_found s req w d st found kind new h in
      let (m, _) = first_row-In (λ x. same_reference x.ref req.ref) w.declarations d found in
      (
        st.template,
        st.target,
        st.payload,
        event_step-Reports req st kind,
        before d.status st.target new,
        elim steps [
          | inl (n, same) ↦
              inl (find_in_case-nothing (s.tasks w.engine) d.case_id st.template n, same)
          | inr (t, p, c) ↦
              inr (t, find_in_case-IsParked (s.tasks w.engine) d.case_id st.template t p, c)
        ],
        subst (Replaced id_of d (record d { status = st.target }) w.declarations) (sym rows) (
            set_row-Replaced id_of patched (λ n a. refl) (record d { status = st.target }) d
              w.declarations ids m refl),
      )
