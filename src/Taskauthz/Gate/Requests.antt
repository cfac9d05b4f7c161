-- ===== src/Taskauthz/Gate/Requests.antt =====
-- Which requests a command on a task goes ahead for, from the token and the parties of its case:
-- internal/tasks/authzgate, internal/tasks/extensions/authz and internal/caseparty together.
use text.Mathlib.TextPositions.{eq_refl}
use nsw_srilanka.Common.{
  String, ◌==◌, eq_iff, Bool, true, false, ◌||◌, Option, none, some, List, [], ◌∷◌, ◌≡◌, refl, ◌∙◌,
  ap, subst, ◌↔◌, inl, inr, In, lookup, Bool-cases, arith,
}
use nsw_srilanka.Common.Value.{Fields}
use nsw_srilanka.Principal.{Principal, user}
use nsw_srilanka.Caseflow.Rows.{Party, Db}
use nsw_srilanka.Caseflow.Repository.{type_ou}
use nsw_srilanka.Taskauthz.{OwnedRolesFunc, Input, Catalog, ok}
use nsw_srilanka.Taskauthz.Write.{TaskRecord, Rules, parsed, allowed_for, command_of, execute}
use nsw_srilanka.Taskauthz.Write.Acting.{
  CanAct, as_user, as_client, as_system, Permits, execute_exact,
}
use nsw_srilanka.Taskauthz.Gate.{
  Ref, ou, names_party, roles_of, owned_roles_for, input_of, resolve_input,
}

-- The database as it is, answering every query.
abbrev pub on : Db → String → List Ref → Option (String → Bool)
on db c parties = some (roles_of db c parties)

-- The user carries the token role of `name`, and its company is the party that holds `name` on the
-- case.
pub record Owns (cat : Catalog) (p : Principal) (db : Db) (c name : String) : Type 0 where
  pub role : String
  pub catalogued : lookup name cat.roles ≡ some role
  pub held : In role p.roles
  pub handle_given : (p.ou_handle == "") ≡ false
  pub case_given : (c == "") ≡ false
  pub party : Party
  pub recorded : db.parties c name ≡ some party
  pub is_ou : party.party_type ≡ type_ou
  pub its_ou : party.party_id ≡ p.ou_handle

resolved_owner :
    (db : Db) (h c name : String) (owned : String → Bool)
    → owned_roles_for (on db) h c ≡ some owned
    → owned name ≡ true
    → ((h == "") ≡ false) × ((c == "") ≡ false) × (names_party (db.parties c name) (ou h) ≡ true)
unfolding owned_roles_for roles_of
resolved_owner db h c name owned e o = elim (Bool-cases ((c == "") || (h == ""))) [
  | inl y ↦ absurd (
      let k : some (λ r. false) ≡ some owned = rw y at e in
      let q : (λ (r : String). false) ≡ owned = cc in
      let z : false ≡ owned name = ap (λ (f : String → Bool). f name) q in cc)
  | inr n ↦
      let k : some (roles_of db c (ou h ∷ [])) ≡ some owned = rw n at e in
      let q : roles_of db c (ou h ∷ []) ≡ owned = cc in
      let z : roles_of db c (ou h ∷ []) name ≡ true = ap (λ (f : String → Bool). f name) q ∙ o in
      ground arith
]

party_of :
    (o : Option Party) (h : String)
    → names_party o (ou h) ≡ true
    → (p : Party) × (o ≡ some p) × (p.party_type ≡ type_ou) × (p.party_id ≡ h)
party_of none h e = cc
party_of (some p) h e =
    let (a, b) : ((p.party_type == type_ou) ≡ true) × ((p.party_id == h) ≡ true) = ground arith in
    (p, refl, (eq_iff p.party_type type_ou).0 a, (eq_iff p.party_id h).0 b)

user_input :
    (q : String → List Ref → Option (String → Bool)) (p : Principal)
    → p.kind ≡ user
    → resolve_input q (some p) ≡ some (input_of q p user)
unfolding resolve_input
user_input q p u = rw u

-- A user's command goes ahead exactly when the rules name, for the task's state and the command, a
-- role that the user's token carries and the user's company holds on the task's case.
pub user_request_exact :
    (cat : Catalog) (task : TaskRecord) (payload : Fields) (r : Rules) (db : Db) (p : Principal)
    → p.kind ≡ user
    → (execute cat task payload (parsed r) (resolve_input (on db) (some p)) ≡ ok tt) ↔ (
        (name : String) × In name (allowed_for r task.state (command_of payload))
        × Owns cat p db task.case_id name)
unfolding input_of
user_request_exact cat task payload r db p u = (
  λ h. go ((execute_exact cat task payload (parsed r) _).0 (rw (user_input (on db) p u) at h)),
  λ h. rw (user_input (on db) p u) ((execute_exact cat task payload (parsed r) _).1 (back h)),
)
  where
    caller : Input
    caller = input_of (on db) p user

    go :
        Permits cat task (command_of payload) (parsed r) (some caller)
        → (name : String) × In name (allowed_for r task.state (command_of payload))
          × Owns cat p db task.case_id name
    go m =
        let rules_eq : m.rules ≡ r = let g = m.given in cc in
        let who_eq : m.who ≡ caller = let g = m.present in cc in
        let acts : CanAct cat caller task.case_id (allowed_for r task.state (command_of payload)) =
          subst
            (λ (y : Input).
              CanAct cat y task.case_id (allowed_for r task.state (command_of payload)))
            who_eq
            (subst
              (λ (y : Rules).
                CanAct cat m.who task.case_id (allowed_for y task.state (command_of payload)))
              rules_eq m.acts) in
        elim acts [
          | as_client n i k l g ↦ absurd (cc)
          | as_system k i ↦ absurd (cc)
          | as_user n i a ↦
              let f : owned_roles_for (on db) p.ou_handle ≡ a.find = let g = a.resolver in cc in
              let (x, y, z) =
                resolved_owner db p.ou_handle task.case_id n a.owned
                  (ap (λ (t : OwnedRolesFunc). t task.case_id) f ∙ a.resolved) a.owns in
              let (party, e, t, q) = party_of (db.parties task.case_id n) p.ou_handle z in
              (
                n,
                i,
                record {
                  role = a.role;
                  catalogued = a.catalogued;
                  held = a.held;
                  handle_given = x;
                  case_given = y;
                  party = party;
                  recorded = e;
                  is_ou = t;
                  its_ou = q;
                },
              )
        ]

    back :
        (name : String) × In name (allowed_for r task.state (command_of payload))
          × Owns cat p db task.case_id name
        → Permits cat task (command_of payload) (parsed r) (some caller)
    back (name, i, o) =
        let owns : roles_of db task.case_id (ou p.ou_handle ∷ []) name ≡ true =
          unfold roles_of in
          rw (o.case_given, o.recorded, o.is_ou, o.its_ou, eq_refl type_ou, eq_refl p.ou_handle) in
        record {
          rules = r;
          given = refl;
          who = caller;
          present = refl;
          acts = as_user name i (record {
            is_user = refl;
            role = o.role;
            catalogued = o.catalogued;
            held = o.held;
            find = owned_roles_for (on db) p.ou_handle;
            resolver = refl;
            owned = roles_of db task.case_id (ou p.ou_handle ∷ []);
            resolved = unfold owned_roles_for in rw (o.case_given, o.handle_given);
            owns = owns;
          });
        }
