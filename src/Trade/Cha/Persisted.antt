-- ===== src/Trade/Cha/Persisted.antt =====
-- What a run of Execute (trade/plugin_cha_persist.go) leaves in the tables.
use nsw_srilanka.Common.{
  String, ◌==◌, false, Option, none, some, ◌≡◌, refl, sym, ◌∙◌, ap, Bool-cases, inl, inr,
  if◌then◌else◌,
}
use nsw_srilanka.Caseflow.Rows.{Db, Err, Party}
use nsw_srilanka.Caseflow.Exec.{Session, Tx, stmt}
use nsw_srilanka.Caseflow.Exec
use nsw_srilanka.Caseflow.Exec.Robust.{stmt-cases}
use nsw_srilanka.Caseflow.Repository.{type_ou}
use nsw_srilanka.Taskauthz.Gate.{set_party, assign}
use nsw_srilanka.Taskauthz.Gate.Parties.{assign_cases}
use nsw_srilanka.Trade.Cha.{
  Consignment, Desk, ChaError, Reply, ok, permanent, retryable, Step, pure, ◌>>◌, told, run, call,
  consignment_not_found, update_consignment, name_case, assign_body, party, naming,
  consignment_query,
}
use nsw_srilanka.Trade.Cha.Steps.{then_ok, call-SameTables, IsKept, IsKept-after}

-- A case with its new name, where one is given.
unfoldable pub named : String → String → Db → Db
unfolding name_case
named c name db = if name == "" then db else (name_case c name db).1

abbrev pub cha_party : String → Party
cha_party handle = record { party_type = type_ou; party_id = handle; assigned_by = none }

abbrev pub chosen_by : String → String → (String → Option Consignment) → String → Option Consignment
chosen_by c company rows k =
    if c == k then some (record { cha_company_id = some company }) else rows k

-- What an assignment that succeeds has written.
pub record IsAssigned (c company handle name : String) (d e : Desk) : Type 0 where
  pub known : (r : Consignment) × (d.consignments c ≡ some r)
  pub case_given : (c == "") ≡ false
  pub companies : e.companies ≡ d.companies
  pub consignments : e.consignments ≡ chosen_by c company d.consignments
  pub db : e.session.db ≡ named c name (set_party c "cha" (cha_party handle) d.session.db).1

update_consignment-ok :
    (c company : String) (d : Desk)
    → (update_consignment c company d).0 ≡ ok tt
    → ((r : Consignment) × (d.consignments c ≡ some r))
      × ((update_consignment c company d).1
          ≡ record d { consignments = chosen_by c company d.consignments })
update_consignment-ok c company d h = go (d.consignments c) refl
  where
    go :
        (o : Option Consignment)
        → d.consignments c ≡ o
        → ((r : Consignment) × (d.consignments c ≡ some r))
          × ((update_consignment c company d).1
              ≡ record d { consignments = chosen_by c company d.consignments })
    go none e =
        let x : (update_consignment c company d).0 ≡ permanent consignment_not_found =
          rw (update_consignment, e) refl in
        cc
    go (some r) e = ((r, e), rw (update_consignment, e) refl)

told_ok :
    {A : Type 0} (w : Err → ChaError) (r : Exec.Result A) (a : A) → told w r ≡ ok a → r ≡ Exec.ok a
told_ok w (Exec.ok b) a h = cc
told_ok w (Exec.err e) a h = cc

assign_done :
    (c r : String) (p : Party) (s : Session)
    → (assign c r p s).0 ≡ Exec.ok tt
    → ((assign c r p s).1.db ≡ (set_party c r p s.db).1) × ((c == "") ≡ false)
assign_done c r p s h = elim (assign_cases c r p s) [
  | inl (a, (e, b)) ↦ cc
  | inr (a, b, g) ↦ (b, g)
]

-- The last statement of the transaction's body.
abbrev name_step : String → String → Step (Unit {0})
unfolding stmt name_case
name_step c name = if name == "" then pure tt else run (λ e. naming) (stmt (name_case c name))

name_done :
    (c name : String) (d : Desk)
    → (name_step c name d).0 ≡ ok tt
    → ((name_step c name d).1.companies ≡ d.companies)
      × ((name_step c name d).1.consignments ≡ d.consignments)
      × ((name_step c name d).1.session.db ≡ named c name d.session.db)
unfolding name_step named
name_done c name d h = elim (Bool-cases (name == "")) [
  | inl e ↦ rw e (refl, refl, refl)
  | inr e ↦ elim (stmt-cases (name_case c name) d.session) [
    | inl (a, b) ↦ let x : (name_step c name d).0 ≡ retryable naming = rw (e, a) refl in cc
    | inr (a, b) ↦ rw e (refl, refl, b)
  ]
]

-- The party and the name, the last two steps of the body.
abbrev last_steps : String → String → String → Step (Unit {0})
unfolding assign stmt name_case
last_steps c handle name =
    run party (assign c "cha" (cha_party handle))
    >> (if name == "" then pure tt else run (λ e. naming) (stmt (name_case c name)))

last_done :
    (c handle name : String) (d : Desk)
    → (last_steps c handle name d).0 ≡ ok tt
    → ((c == "") ≡ false)
      × ((last_steps c handle name d).1.companies ≡ d.companies)
      × ((last_steps c handle name d).1.consignments ≡ d.consignments)
      × ((last_steps c handle name d).1.session.db
          ≡ named c name (set_party c "cha" (cha_party handle) d.session.db).1)
unfolding last_steps name_step
last_done c handle name d h =
    let (u, a, h1, e1) = then_ok (run party (assign c "cha" (cha_party handle))) _ d tt h in
    let d1 : Desk = (run party (assign c "cha" (cha_party handle)) d).1 in
    let (db, given) =
      assign_done c "cha" (cha_party handle) d.session
        (told_ok party (assign c "cha" (cha_party handle) d.session).0 tt a) in
    let (x, y, z) = name_done c name d1 h1 in
    (
      given,
      ap (λ (q : Reply (Unit {0}) × Desk). q.1.companies) e1 ∙ x,
      ap (λ (q : Reply (Unit {0}) × Desk). q.1.consignments) e1 ∙ y,
      ap (λ (q : Reply (Unit {0}) × Desk). q.1.session.db) e1 ∙ z ∙ ap (named c name) db,
    )

pub body_done :
    (c company handle name : String) (d : Desk)
    → (assign_body c company handle name d).0 ≡ ok tt
    → IsAssigned c company handle name d (assign_body c company handle name d).1
unfolding assign_body last_steps
body_done c company handle name d h =
    let (u, a, h1, e1) = then_ok (call consignment_query) _ d tt h in
    let same = call-SameTables consignment_query d in
    let d1 : Desk = (call consignment_query d).1 in
    let (v, b, h2, e2) = then_ok (update_consignment c company) _ d1 tt h1 in
    let (known, e) = update_consignment-ok c company d1 b in
    let d2 : Desk = (update_consignment c company d1).1 in
    let (given, x, y, z) = last_done c handle name d2 h2 in
    let s : assign_body c company handle name d ≡ last_steps c handle name d2 = e1 ∙ e2 in
    record {
      known = (known.0, sym (ap (λ f. f c) same.consignments) ∙ known.1);
      case_given = given;
      companies =
          ap (λ (q : Reply (Unit {0}) × Desk). q.1.companies) s
          ∙ x
          ∙ ap (λ (q : Desk). q.companies) e
          ∙ same.companies;
      consignments =
          ap (λ (q : Reply (Unit {0}) × Desk). q.1.consignments) s
          ∙ y
          ∙ ap (λ (q : Desk). q.consignments) e
          ∙ ap (chosen_by c company) same.consignments;
      db =
          ap (λ (q : Reply (Unit {0}) × Desk). q.1.session.db) s
          ∙ z
          ∙ ap (λ db. named c name (set_party c "cha" (cha_party handle) db).1)
              (ap (λ (q : Desk). q.session.db) e ∙ same.db);
    }

update_consignment-IsKept : (c company : String) → IsKept (update_consignment c company)
update_consignment-IsKept c company d = go (d.consignments c) refl
  where
    go :
        (o : Option Consignment)
        → d.consignments c ≡ o
        → (update_consignment c company d).1.companies ≡ d.companies
    go none e = rw (update_consignment, e) refl
    go (some r) e = rw (update_consignment, e) refl

name_step-IsKept : (c name : String) → IsKept (name_step c name)
unfolding name_step
name_step-IsKept c name d = elim (Bool-cases (name == "")) [ inl e ↦ rw e refl | inr e ↦ rw e refl ]

pub assign_body-IsKept :
    (c company handle name : String) → IsKept (assign_body c company handle name)
unfolding assign_body name_step
assign_body-IsKept c company handle name =
    IsKept-after (call consignment_query) _ (λ d. (call-SameTables consignment_query d).companies)
      (λ u.
        IsKept-after (update_consignment c company) _ (update_consignment-IsKept c company) (λ v.
          IsKept-after (run party (assign c "cha" (cha_party handle))) _ (λ d. refl)
            (λ w. name_step-IsKept c name)))
