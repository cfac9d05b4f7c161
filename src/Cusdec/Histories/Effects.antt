-- ===== src/Cusdec/Histories/Effects.antt =====
-- What a callback of cusdec/service.go, amendment.go and cancellation.go may do to the table.
use nsw_srilanka.Common.{
  String, ◌==◌, true, false, Option, none, some, ◌≡◌, refl, ap, inl, inr, In, ltb, Bool-cases,
  arith,
}
use nsw_srilanka.Common.Tables.{set_row}
use nsw_srilanka.Common.Value.{Fields}
use nsw_srilanka.Cdn.{same_reference, fails}
use nsw_srilanka.Cdn.Parked.{Task, Search, parked, nothing, find_in_case}
use nsw_srilanka.Cdn.Parked
use nsw_srilanka.Cusdec.{
  CusdecStatus, submitted, has_reached, Declaration, patched, id_of, Outcome, done, failure, World,
  Found, unread, missing, row, used, get_by_edge_id, get_by_cusdec_ref, update,
}
use nsw_srilanka.Cusdec.Requests.{
  IntegrationResult, valid_result, EventRequest, Amendment, Cancellation,
}
use nsw_srilanka.Cusdec.Callbacks.{
  Wiring, Flows, with_result, is_submitted, EventStep, event_step, Review, no_review, review, next,
  same_status, reviewed, integrate, process_integration_result, complete_event, apply_step,
  apply_event, process_event, complete_step, find_review_task,
}
use nsw_srilanka.Cusdec.Notices.{
  Notice, open_notice, amendment_notice, cancel, process_cancellation, open_amendment, amend,
  process_amendment, Callback, result, event, amendment, cancellation, routed, valid, process,
  serve,
}
use nsw_srilanka.Cusdec.Histories.Rules.{is_unregistered, IsSound, Moves, Effect, read-In}

module _ {Engine : Type 0} where
  update-Effect :
      (w v : World Engine) (old new : Declaration)
      → v.declarations ≡ w.declarations
      → In old w.declarations
      → Moves old new
      → Effect w (update new v)
  unfolding update
  update-Effect w v old new same m mv = elim (Bool-cases (fails v.faults)) [
    | inl y ↦ rw y (inl same)
    | inr n ↦ rw n (inr (refl, (old, new, m, mv, ap (set_row id_of patched new) same)))
  ]

  next-Effect :
      (w : World Engine) (r : Outcome × World Engine) (old new : Declaration)
      → r.1.declarations ≡ w.declarations
      → In old w.declarations
      → Moves old new
      → Effect w (next r (update new))
  next-Effect w (done, v) old new same m mv = update-Effect w v old new same m mv
  next-Effect w (failure e, v) old new same m mv = inl same

  module _ (s : Wiring Engine) where
    result-Moves :
        (d : Declaration) (req : IntegrationResult)
        → IsSound d
        → valid_result req ≡ true
        → is_submitted d.status ≡ true
        → Moves d (with_result d req)
    unfolding with_result
    result-Moves d req sd v q =
        let e : d.status ≡ submitted = ground arith in
        let z = sd.unregistered (rw e) in
        elim (Bool-cases req.integrated) [
          | inl y ↦ record {
            same_id = rw y;
            same_edge = rw y;
            same_case = rw y;
            same_workflow = rw y;
            same_time = rw y;
            step = rw (y, e);
            reference = λ k. absurd (let j = rw e at k in cc);
            sound = rw y (record { unregistered = λ k. cc; registered = λ k. ground arith });
          }
          | inr n ↦ record {
            same_id = rw n;
            same_edge = rw n;
            same_case = rw n;
            same_workflow = rw n;
            same_time = rw n;
            step = rw (n, e);
            reference = λ k. absurd (let j = rw e at k in cc);
            sound = rw n (record { unregistered = λ k. z; registered = λ k. cc });
          }
        ]

    reviewed-Effect :
        (d : Declaration) (req : IntegrationResult) (t : Review) (w : World Engine)
        → In d w.declarations
        → Moves d (with_result d req)
        → Effect w (reviewed s d req t w)
    unfolding reviewed complete_step
    reviewed-Effect d req (no_review e) w m mv = inl refl
    reviewed-Effect d req (review t) w m mv =
        next-Effect w (complete_step s t _ w) d (with_result d req) refl m mv

    integrate-Effect :
        (req : IntegrationResult) (f : Found) (w : World Engine)
        → valid_result req ≡ true
        → ((d : Declaration) → f ≡ row d → In d w.declarations × IsSound d)
        → Effect w (integrate s req f w)
    unfolding integrate
    integrate-Effect req unread w v h = inl refl
    integrate-Effect req missing w v h = inl refl
    integrate-Effect req (row d) w v h = elim (Bool-cases (is_submitted d.status)) [
      | inl y ↦
          let (m, sd) = h d refl in
          rw y
            (reviewed-Effect d req (find_review_task s d w.engine) w m (result-Moves d req sd v y))
      | inr n ↦ rw n (inl refl)
    ]

    event-Moves :
        (d : Declaration) (t : CusdecStatus)
        → IsSound d
        → ltb 0 d.ref.number ≡ true
        → has_reached d.status t ≡ false
        → Moves d (record d { status = t })
    event-Moves d t sd n h =
        let k : is_unregistered d.status ≡ false = elim (Bool-cases (is_unregistered d.status)) [
          | inl y ↦ absurd (let z = sd.unregistered y in ground arith)
          | inr x ↦ x
        ] in
        record {
          same_id = refl;
          same_edge = refl;
          same_case = refl;
          same_workflow = refl;
          same_time = refl;
          step = ground arith;
          reference = λ _. refl;
          sound = record {
            unregistered = λ u. absurd (ground arith);
            registered = λ _. sd.registered k;
          };
        }

    complete_event-Effect :
        (d : Declaration) (st : EventStep) (f : Search) (w : World Engine)
        → In d w.declarations
        → Moves d (record d { status = st.target })
        → Effect w (complete_event s d st f w)
    unfolding complete_event complete_step
    complete_event-Effect d st Parked.unread w m mv = inl refl
    complete_event-Effect d st nothing w m mv = elim (Bool-cases (same_status d.status st.target)) [
      | inl y ↦ rw y (inl refl)
      | inr n ↦ rw n (update-Effect w w d _ refl m mv)
    ]
    complete_event-Effect d st (parked t) w m mv =
        next-Effect w (complete_step s t st.payload w) d _ refl m mv

    apply_step-Effect :
        (d : Declaration) (o : Option EventStep) (w : World Engine)
        → In d w.declarations
        → IsSound d
        → ltb 0 d.ref.number ≡ true
        → Effect w (apply_step s d o w)
    unfolding apply_step
    apply_step-Effect d none w m sd n = inl refl
    apply_step-Effect d (some st) w m sd n = elim (Bool-cases (has_reached d.status st.target)) [
      | inl y ↦ rw y (inl refl)
      | inr x ↦ rw x (
          complete_event-Effect d st (find_in_case (s.tasks w.engine) d.case_id st.template) w m
            (event-Moves d st.target sd n x))
    ]

    apply_event-Effect :
        (req : EventRequest) (f : Found) (w : World Engine)
        → ((d : Declaration)
            → f ≡ row d
            → In d w.declarations × IsSound d × (ltb 0 d.ref.number ≡ true))
        → Effect w (apply_event s req f w)
    unfolding apply_event
    apply_event-Effect req unread w h = inl refl
    apply_event-Effect req missing w h = inl refl
    apply_event-Effect req (row d) w h =
        let (m, sd, n) = h d refl in apply_step-Effect d (event_step req) w m sd n

    notice_rows :
        (id : String) (n : Notice) (o : Option (Flows Engine)) (w : World Engine)
        → (open_notice id n o w).1.declarations ≡ w.declarations
    unfolding open_notice
    notice_rows id n none w = refl
    notice_rows id n (some run) w = refl

    cancel_rows :
        (req : Cancellation) (f : Found) (w : World Engine)
        → (cancel s req f w).1.declarations ≡ w.declarations
    unfolding cancel
    cancel_rows req unread w = refl
    cancel_rows req missing w = refl
    cancel_rows req (row d) w = elim (Bool-cases (d.case_id == "")) [
      | inl y ↦ rw y
      | inr n ↦ rw n (notice_rows d.case_id _ s.flows w)
    ]

    amendment_rows :
        (d : Declaration) (req : Amendment) (o : Option (Flows Engine)) (a : Option Fields)
        (w : World Engine)
        → (open_amendment s d req o a w).1.declarations ≡ w.declarations
    unfolding open_amendment
    amendment_rows d req none a w = refl
    amendment_rows d req (some run) none w = refl
    amendment_rows d req (some run) (some a) w =
        notice_rows d.case_id (amendment_notice s d req a) (some run) w

    amend_rows :
        (req : Amendment) (f : Found) (w : World Engine)
        → (amend s req f w).1.declarations ≡ w.declarations
    unfolding amend
    amend_rows req unread w = refl
    amend_rows req missing w = refl
    amend_rows req (row d) w = elim (Bool-cases (d.case_id == "")) [
      | inl y ↦ rw y
      | inr n ↦ rw n (amendment_rows d req s.flows req.cusdec w)
    ]

    pub process-Effect :
        (c : Callback) (w : World Engine)
        → ((d : Declaration) → In d w.declarations → IsSound d)
        → valid c ≡ true
        → Effect w (process s c w)
    unfolding process process_integration_result process_event process_amendment
        process_cancellation get_by_edge_id get_by_cusdec_ref
    process-Effect (result req) w sound v =
        integrate-Effect req (get_by_edge_id req.edge_id w).0 (used w) v λ d h.
          let (m, q) =
            read-In (fails w.faults) (λ x. x.edge_id == req.edge_id) w.declarations d h in
          (m, sound d m)
    process-Effect (event kind req) w sound v =
        apply_event-Effect (routed kind req) (get_by_cusdec_ref req.ref w).0 (used w) λ d h.
          let (m, q) =
            read-In (fails w.faults) (λ x. same_reference x.ref req.ref) w.declarations d h in
          let k : ltb 0 req.ref.number ≡ true = ground arith in (m, sound d m, ground arith)
    process-Effect (amendment req) w sound v =
        inl (amend_rows req (get_by_cusdec_ref req.ref w).0 (used w))
    process-Effect (cancellation req) w sound v =
        inl (cancel_rows req (get_by_cusdec_ref req.ref w).0 (used w))

    pub serve-Effect :
        (c : Callback) (w : World Engine)
        → ((d : Declaration) → In d w.declarations → IsSound d)
        → Effect w (serve s c w)
    unfolding serve
    serve-Effect c w sound = elim (Bool-cases (valid c)) [
      | inl y ↦ rw y (process-Effect c w sound y)
      | inr n ↦ rw n (inl refl)
    ]
