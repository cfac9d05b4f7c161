-- ===== src/Cusdec/Told.antt =====
-- What cusdec/service.go tells a step and writes into a row, in the words of the interface.
use nsw_srilanka.Common.{
  arith, ℕ, ◌<◌, String, ◌==◌, eq_iff, true, false, Option, none, some, ◌≡◌, refl, subst, inl, inr,
  ◌⊎◌, Bool-cases,
}
use nsw_srilanka.Common.Value.{
  Items, nil, cons, set_field, Value, num, str, arr, obj, Fields, end, field, field_at,
}
use nsw_srilanka.Document.{format_reference}
use nsw_srilanka.Cusdec.{
  event_status_order, CusdecStatus, submitted, integrated, failed, paid, warranted, released,
  has_reached, Declaration, patched,
}
use nsw_srilanka.Cusdec.Requests.{
  IntegrationResult, EventRequest, Amount, Duties, duties_for_task, amount_to_pay,
}
use nsw_srilanka.Cusdec.Callbacks.{
  with_result, with_object, with_amount, event_step, payment_step, warranting_step, release_step,
  EventStep,
}

-- The row that a result leaves: INTEGRATED with its reference and no errors, or FAILED with its errors.
abbrev pub Answered : IntegrationResult → Declaration → Declaration → Type 0
Answered req old new =
    ((req.integrated ≡ true)
      × (new ≡ record old { status = integrated; ref = req.ref; errors = "" }))
    ⊎ ((req.integrated ≡ false) × (new ≡ record old { status = failed; errors = req.errors }))

abbrev pub amount : Option Amount → Option Value
amount none = none
amount (some a) = some (num a)

abbrev pub owed : Option Amount → Value
owed none = num "0"
owed (some a) = num a

-- The duties, where Customs sent any.
abbrev pub TellsDuties : Duties → Option Value → Type 0
TellsDuties d told =
    ((d.global_duties ≡ nil) × (d.item_duties ≡ nil) × (told ≡ none))
    ⊎ ((told
          ≡ some (
              obj (
                field "globalDuties" (arr d.global_duties)
                  (field "itemDutiesList" (arr d.item_duties) end))))
        × ¬ ((d.global_duties ≡ nil) × (d.item_duties ≡ nil)))

abbrev pub duties : Option Fields → Option Value
duties none = none
duties (some o) = some (obj o)

pub told_duties :
    (g i : Items)
    → let d : Duties = record { global_duties = g; item_duties = i } in
      TellsDuties d (duties (duties_for_task d))
unfolding duties_for_task
told_duties nil nil = inl (refl, refl, refl)
told_duties nil (cons v vs) = inr (refl, λ (a, b). cc)
told_duties (cons v vs) i = inr (refl, λ (a, b). cc)

pub amount_to_pay-owed : (a : Option Amount) → amount_to_pay a ≡ owed a
unfolding amount_to_pay
amount_to_pay-owed none = refl
amount_to_pay-owed (some a) = refl

-- The review step of a result for integration is told to approve, with the reference and the amounts.
pub record Approves (req : IntegrationResult) (payload : Fields) : Type 0 where
  pub command : field_at "__command" payload ≡ some (str "submit")
  pub outcome : field_at "review_outcome" payload ≡ some (str "approve")
  pub number : field_at "cusdec_number" payload ≡ some (str (format_reference req.ref))
  pub to_pay : field_at "amount_to_pay" payload ≡ some (owed req.amount_payable)
  pub was_paid : field_at "amount_paid" payload ≡ amount req.amount_paid
  pub assessed : field_at "total_assessed_amount" payload ≡ amount req.total_assessed
  pub told_duties : TellsDuties req.duties (field_at "duties" payload)

-- And that of a rejection, to ask for more, with Customs' reason.
pub record Rejects (reason : String) (payload : Fields) : Type 0 where
  pub command : field_at "__command" payload ≡ some (str "submit")
  pub outcome : field_at "review_outcome" payload ≡ some (str "needs_more_info")
  pub told : field_at "rejection_reason" payload ≡ some (str reason)

-- How far a declaration has come.
abbrev pub place : CusdecStatus → ℕ
place failed = 0
place submitted = 1
place integrated = 2
place paid = 3
place warranted = 4
place released = 5

place-order : (a : CusdecStatus) → place a ≡ event_status_order a
place-order failed = refl
place-order submitted = refl
place-order integrated = refl
place-order paid = refl
place-order warranted = refl
place-order released = refl

pub before : (a target : CusdecStatus) → has_reached a target ≡ false → place a < place target
before a target h = let p = place-order a in let q = place-order target in ground arith

-- The step that an event completes, the status it gives and what it reports of the event.
pub data Reports (r : EventRequest) : String → CusdecStatus → Fields → Type 0 where
  payment :
      r.event ≡ "PAYMENT_CONFIRMED"
      → Reports r "customs-wait-payment" paid (
          field "__command" (str "submit") (
            field "payment_status" (str "PAID") (
              field "amount_paid" (num r.amount_paid) (
                field "currency"
                  (str r.currency)
                  (field "bank_reference" (str r.bank_reference) end)))))
  warranting :
      r.event ≡ "WARRANTING_COMPLETED"
      → Reports r "customs-wait-warranting" warranted (
          field "__command" (str "submit") (
            field "warranting_status"
              (str "WARRANTED")
              (field "release_order_no" (str r.release_order_no) end)))
  release :
      r.event ≡ "EXPORT_RELEASED"
      → Reports r "customs-wait-export-release" released (
          field "__command" (str "submit") (
            field "release_status" (str "RELEASED") (
              field "vessel_name" (str r.vessel_name) (
                field "voyage_no"
                  (str r.voyage_no)
                  (field "port_of_loading" (str r.port_of_loading) end)))))

pub event_step-Reports :
    (r : EventRequest) (st : EventStep)
    → event_step r ≡ some st
    → Reports r st.template st.target st.payload
unfolding event_step
event_step-Reports r st h = elim (Bool-cases (r.event == "PAYMENT_CONFIRMED")) [
  | inl y ↦
      let e : payment_step r ≡ st = let k = rw y at h in cc in
      subst (λ (x : EventStep). Reports r x.template x.target x.payload) e
        (payment ((eq_iff r.event "PAYMENT_CONFIRMED").0 y))
  | inr n ↦ elim (Bool-cases (r.event == "WARRANTING_COMPLETED")) [
    | inl y ↦
        let e : warranting_step r ≡ st = let k = rw (n, y) at h in cc in
        subst (λ (x : EventStep). Reports r x.template x.target x.payload) e
          (warranting ((eq_iff r.event "WARRANTING_COMPLETED").0 y))
    | inr m ↦ elim (Bool-cases (r.event == "EXPORT_RELEASED")) [
      | inl y ↦
          let e : release_step r ≡ st = let k = rw (n, m, y) at h in cc in
          subst (λ (x : EventStep). Reports r x.template x.target x.payload) e
            (release ((eq_iff r.event "EXPORT_RELEASED").0 y))
      | inr k ↦ absurd (let z = rw (n, m, k) at h in cc)
    ]
  ]
]

-- The optional fields that stand in front of those of an approval.
pub approval :
    (req : IntegrationResult) (a b : Option Amount) (o : Option Fields) (rest : Fields)
    → rest
      ≡ field "__command" (str "submit") (
          field "review_outcome" (str "approve") (
            field "cusdec_number"
              (str (format_reference req.ref))
              (field "amount_to_pay" (amount_to_pay req.amount_payable) end)))
    → let p =
        with_object "duties" o
          (with_amount "amount_paid" a (with_amount "total_assessed_amount" b rest)) in
      (field_at "__command" p ≡ some (str "submit"))
      × (field_at "review_outcome" p ≡ some (str "approve"))
      × (field_at "cusdec_number" p ≡ some (str (format_reference req.ref)))
      × (field_at "amount_to_pay" p ≡ some (amount_to_pay req.amount_payable))
      × (field_at "amount_paid" p ≡ amount a)
      × (field_at "total_assessed_amount" p ≡ amount b)
      × (field_at "duties" p ≡ duties o)
unfolding field_at set_field
approval req none none none rest e = rw e (refl, refl, refl, refl, refl, refl, refl)
approval req none none (some o) rest e = rw e (refl, refl, refl, refl, refl, refl, refl)
approval req none (some b) none rest e = rw e (refl, refl, refl, refl, refl, refl, refl)
approval req none (some b) (some o) rest e = rw e (refl, refl, refl, refl, refl, refl, refl)
approval req (some a) none none rest e = rw e (refl, refl, refl, refl, refl, refl, refl)
approval req (some a) none (some o) rest e = rw e (refl, refl, refl, refl, refl, refl, refl)
approval req (some a) (some b) none rest e = rw e (refl, refl, refl, refl, refl, refl, refl)
approval req (some a) (some b) (some o) rest e = rw e (refl, refl, refl, refl, refl, refl, refl)

pub with_result-Answered :
    (d : Declaration) (req : IntegrationResult) → Answered req d (with_result d req)
unfolding with_result
with_result-Answered d req = elim (Bool-cases req.integrated) [
  | inl y ↦ inl (y, rw y)
  | inr n ↦ inr (n, rw n)
]

pub with_result-patched :
    (d : Declaration) (req : IntegrationResult) → patched (with_result d req) d ≡ with_result d req
unfolding with_result
with_result-patched d req = elim (Bool-cases req.integrated) [ inl y ↦ rw y | inr n ↦ rw n ]

pub with_result-id : (d : Declaration) (req : IntegrationResult) → d.id ≡ (with_result d req).id
unfolding with_result
with_result-id d req = elim (Bool-cases req.integrated) [ inl y ↦ rw y | inr n ↦ rw n ]
