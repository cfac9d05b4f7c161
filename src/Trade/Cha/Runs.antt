-- ===== src/Trade/Cha/Runs.antt =====
-- The transaction of assignCHA (trade/plugin_cha_persist.go): all is written, or nothing is.
use nsw_srilanka.Common.{String, ◌≡◌, ◌≢◌, refl, sym, ◌∙◌, ap, subst, inl, inr, ◌⊎◌}
use nsw_srilanka.Taskauthz.Gate.{set_party}
use nsw_srilanka.Trade.Cha.{
  Desk, Reply, ok, permanent, retryable, Step, ◌>>◌, call, settle, assign_body, assign_cha,
  transaction,
}
use nsw_srilanka.Trade.Cha.Steps.{SameTables, call-SameTables, then_ok, IsKept, IsKept-after}
use nsw_srilanka.Trade.Cha.Persisted.{
  IsAssigned, chosen_by, named, cha_party, body_done, assign_body-IsKept,
}

-- The statements between the start of the transaction and its end.
abbrev inside : String → String → String → String → Step (Unit {0})
unfolding assign_body call
inside c company handle name =
    call transaction >> (assign_body c company handle name >> call transaction)

inside_done :
    (c company handle name : String) (d : Desk)
    → (inside c company handle name d).0 ≡ ok tt
    → IsAssigned c company handle name d (inside c company handle name d).1
unfolding inside
inside_done c company handle name d h =
    let (u, a, h1, e1) = then_ok (call transaction) _ d tt h in
    let d1 : Desk = (call transaction d).1 in
    let first = call-SameTables transaction d in
    let (v, b, h2, e2) = then_ok (assign_body c company handle name) _ d1 tt h1 in
    let d2 : Desk = (assign_body c company handle name d1).1 in
    let w = body_done c company handle name d1 b in
    let last = call-SameTables transaction d2 in
    let q : inside c company handle name d ≡ call transaction d2 = e1 ∙ e2 in
    record {
      known = (w.known.0, sym (ap (λ f. f c) first.consignments) ∙ w.known.1);
      case_given = w.case_given;
      companies =
          ap (λ (x : Reply (Unit {0}) × Desk). x.1.companies) q
          ∙ last.companies
          ∙ w.companies
          ∙ first.companies;
      consignments =
          ap (λ (x : Reply (Unit {0}) × Desk). x.1.consignments) q
          ∙ last.consignments
          ∙ w.consignments
          ∙ ap (chosen_by c company) first.consignments;
      db =
          ap (λ (x : Reply (Unit {0}) × Desk). x.1.session.db) q
          ∙ last.db
          ∙ w.db
          ∙ ap (λ db. named c name (set_party c "cha" (cha_party handle) db).1) first.db;
    }

inside-IsKept : (c company handle name : String) → IsKept (inside c company handle name)
unfolding inside
inside-IsKept c company handle name =
    IsKept-after (call transaction) _ (λ d. (call-SameTables transaction d).companies)
      (λ u.
        IsKept-after (assign_body c company handle name) _
          (assign_body-IsKept c company handle name)
          (λ v d. (call-SameTables transaction d).companies))

settle_cases :
    (d : Desk) (m : Reply (Unit {0}) × Desk)
    → m.1.companies ≡ d.companies
    → ((m.0 ≡ ok tt) × ((settle d m).0 ≡ ok tt) × ((settle d m).1 ≡ m.1))
      ⊎ (((settle d m).0 ≢ ok tt) × SameTables (settle d m).1 d)
settle_cases d (ok a, e) k = inl (refl, refl, refl)
settle_cases d (permanent x, e) k =
    inr (λ h. cc, record { companies = k; consignments = refl; db = refl })
settle_cases d (retryable x, e) k =
    inr (λ h. cc, record { companies = k; consignments = refl; db = refl })

-- The transaction writes all that it should, or fails and changes no table.
pub assign_cha_cases :
    (c company handle name : String) (d : Desk)
    → (((assign_cha c company handle name d).0 ≡ ok tt)
        × IsAssigned c company handle name d (assign_cha c company handle name d).1)
      ⊎ (((assign_cha c company handle name d).0 ≢ ok tt)
          × SameTables (assign_cha c company handle name d).1 d)
unfolding assign_cha inside
assign_cha_cases c company handle name d =
    elim (settle_cases d (inside c company handle name d) (inside-IsKept c company handle name d)) [
      | inl (a, b, e) ↦ inl (
        b,
        subst (IsAssigned c company handle name d) (sym e) (inside_done c company handle name d a),
      )
      | inr r ↦ inr r
    ]
