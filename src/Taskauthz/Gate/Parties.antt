-- ===== src/Taskauthz/Gate/Parties.antt =====
-- Assign and RolesOf of internal/caseparty, and the owner that Record of internal/caseflow writes.
use text.Mathlib.TextPositions.{eq_refl}
use nsw_srilanka.Common.{
  String, ◌==◌, eq_iff, false, ◌&&◌, ◌||◌, Option, none, some, List, ◌≡◌, ◌≢◌, refl, sym, ◌∙◌, inl,
  inr, ◌⊎◌, In, any, lookup, Bool-cases, arith, if◌then◌else◌,
}
use nsw_srilanka.Common.Value.{Fields}
use nsw_srilanka.Principal.{Principal, user}
use nsw_srilanka.Caseflow.Rows.{Flow, Owner, CaseInfo, Party, Err, database, invalid_party}
use nsw_srilanka.Caseflow.Exec.{Session, Result}
use nsw_srilanka.Caseflow.Exec
use nsw_srilanka.Caseflow.Exec.Robust.{stmt-cases}
use nsw_srilanka.Caseflow.Repository.{find_flow, record_flow, type_ou}
use nsw_srilanka.Caseflow.Repository.Recording.Laws.{record_first}
use nsw_srilanka.Taskauthz.{Catalog, ok}
use nsw_srilanka.Taskauthz.Write.{TaskRecord, Rules, parsed, allowed_for, command_of, execute}
use nsw_srilanka.Taskauthz.Gate.{Ref, names_party, roles_of, set_party, assign, resolve_input}
use nsw_srilanka.Taskauthz.Gate.Requests.{on, user_request_exact}

-- An assignment fails and changes nothing, or is made.
pub assign_cases :
    (c r : String) (p : Party) (s : Session)
    → ((assign c r p s).1.db ≡ s.db × ((e : Err) × ((assign c r p s).0 ≡ Exec.err e)))
      ⊎ (((assign c r p s).0 ≡ Exec.ok tt)
          × ((assign c r p s).1.db ≡ (set_party c r p s.db).1)
          × ((c == "") ≡ false))
unfolding assign
assign_cases c r p s =
    elim (Bool-cases ((c == "") || (r == "") || (p.party_type == "") || (p.party_id == ""))) [
      | inl y ↦ inl (rw y, (invalid_party, rw y))
      | inr n ↦ elim (stmt-cases (set_party c r p) s) [
        | inl (a, b) ↦ inl (rw (n, b), (database, rw (n, a)))
        | inr (a, b) ↦ inr (rw (n, a), rw (n, b), ground arith)
      ]
    ]

-- After an assignment that succeeds the role of that case is held by the new party alone, and every
-- other role of every case by whom held it before; one that fails changes nothing.
pub assign_lem :
    (c r : String) (p : Party) (s : Session) (k role : String) (parties : List Ref)
    → (((assign c r p s).1.db ≡ s.db) × ((assign c r p s).0 ≢ Exec.ok tt))
      ⊎ (((assign c r p s).0 ≡ Exec.ok tt)
          × (roles_of (assign c r p s).1.db k parties role ≡ (
              if (c == k) && (r == role)
              then any (names_party (some p)) parties
              else roles_of s.db k parties role)))
unfolding set_party roles_of
assign_lem c r p s k role parties = elim (assign_cases c r p s) [
  | inl (a, (e, b)) ↦ inl (a, λ h. cc)
  | inr (a, b, g) ↦ inr (a, rw b (ground (arith, g, eq_iff c k, eq_iff r role, eq_iff k "")))
]

-- Once a new flow of a case is recorded with an owner, a user of that OU whose token carries the
-- token role of the owner's role can run every command that the rules leave to the role, on the
-- tasks of the flow's case; the case's id and the OU's handle are not empty.
pub recorded_owner_acts :
    (cat : Catalog) (task : TaskRecord) (payload : Fields) (r : Rules) (p : Principal) (f : Flow)
    (o : Owner) (i : Option CaseInfo) (s : Session) (role : String)
    → find_flow f.workflow_id s.db.flows ≡ none
    → (record_flow f (some o) i s).0 ≡ Exec.ok tt
    → task.case_id ≡ f.case_id
    → (f.case_id == "") ≡ false
    → p.kind ≡ user
    → p.ou_handle ≡ o.ou_handle
    → (o.ou_handle == "") ≡ false
    → lookup o.role cat.roles ≡ some role
    → In role p.roles
    → In o.role (allowed_for r task.state (command_of payload))
    → execute cat task payload
        (parsed r)
        (resolve_input (on (record_flow f (some o) i s).1.db) (some p))
      ≡ ok tt
recorded_owner_acts cat task payload r p f o i s role new done same cg u handle hg cl held allowed =
    let w = record_first f (some o) i s new done in
    let row = w.owned f.case_id o.role in
    let party : Party = record {
      party_type = type_ou;
      party_id = o.ou_handle;
      assigned_by = none;
    } in
    let at : (record_flow f (some o) i s).1.db.parties f.case_id o.role ≡ some party =
      row ∙ rw (eq_refl f.case_id, eq_refl o.role) in
    (user_request_exact cat task payload r (record_flow f (some o) i s).1.db p u).1 (
      o.role,
      allowed,
      record {
        role = role;
        catalogued = cl;
        held = held;
        handle_given = rw (handle) hg;
        case_given = rw (same) cg;
        party = party;
        recorded = rw same at;
        is_ou = refl;
        its_ou = sym handle;
      },
    )
