-- ===== src/Taskauthz/Write/Acting.antt =====
-- Who may run a command on a task (internal/tasks/extensions/authz/authz.go).
use text.Mathlib.TextPositions.{eq_refl}
use nsw_srilanka.Common.{
  contains-In, In-contains, String, ◌==◌, eq_iff, true, false, Option, none, some, List, [], ◌∷◌,
  ◌≡◌, refl, ◌∙◌, ap, subst, ◌≢◌, ◌↔◌, inl, inr, any, In, In-any, any-In, lookup, Bool-cases,
  Option-cases, arith,
}
use nsw_srilanka.Common.Value.{Fields}
use nsw_srilanka.Taskauthz.{
  PrincipalKind, kind_user, kind_client, kind_system, Input, Catalog, system_principal, Answer, ok,
  err, Eligibility, holds_any, allows, any_of, eligible,
}
use nsw_srilanka.Taskauthz.Eligible.{ActsAs, eligible-ActsAs, ActsAs-eligible}
use nsw_srilanka.Taskauthz.Write.{
  TaskRecord, Rules, Properties, parsed, no_properties, malformed, allowed_for, command_of,
  authorize, authorize_user, authorize_client, authorize_system, authorize_kind, authorize_caller,
  check_allowed, execute, is_client, owner_allowed,
}

-- The caller is one of the allowed principals: a user who acts as a role on the task's case, the
-- client of a catalog entry, or this service.
pub data CanAct (cat : Catalog) (caller : Input) (c : String) (allowed : List String) : Type 0 where
  as_user :
      (name : String) → In name allowed → ActsAs cat caller c name → CanAct cat caller c allowed
  as_client :
      (name : String)
      → In name allowed
      → caller.kind ≡ kind_client
      → lookup name cat.clients ≡ some caller.client_id
      → (caller.client_id == "") ≡ false
      → CanAct cat caller c allowed
  as_system : caller.kind ≡ kind_system → In system_principal allowed → CanAct cat caller c allowed

module _ (cat : Catalog) (caller : Input) (c : String) (allowed : List String) where
  user_sound :
      caller.kind ≡ kind_user
      → authorize_user cat caller c allowed ≡ ok tt
      → CanAct cat caller c allowed
  unfolding authorize_user owner_allowed
  user_sound u h = go (eligible cat caller c allowed) refl
    where
      go :
          (a : Answer Eligibility) → eligible cat caller c allowed ≡ a → CanAct cat caller c allowed
      go (err x) q = absurd (let k : err x ≡ ok tt = rw q at h in cc)
      go (ok e) q = elim (Bool-cases (any_of e allowed)) [
        | inl y ↦
            let (name, m, a) = any-In (allows e) allowed y in
            as_user name m (eligible-ActsAs cat caller c allowed e name q a).1
        | inr n ↦ absurd (ground (arith))
      ]

  client_sound :
      caller.kind ≡ kind_client
      → authorize_client cat caller allowed ≡ ok tt
      → CanAct cat caller c allowed
  unfolding authorize_client is_client
  client_sound u h =
      let p : any (λ name. is_client (lookup name cat.clients) caller.client_id) allowed ≡ true =
        ground arith in
      let (name, m, a) =
        any-In (λ name. is_client (lookup name cat.clients) caller.client_id) allowed p in
      elim (Option-cases (lookup name cat.clients)) [
        | inl e ↦ absurd (ground arith)
        | inr (w, e) ↦
            let (g, s) : ((w == "") ≡ false) × ((w == caller.client_id) ≡ true) = ground arith in
            let same = (eq_iff w caller.client_id).0 s in
            as_client name m u (e ∙ ap some same) (subst (λ k. (k == "") ≡ false) same g)
      ]

  authorize_sound : authorize cat caller c allowed ≡ ok tt → CanAct cat caller c allowed
  unfolding authorize authorize_system
  authorize_sound h = go caller.kind refl h
    where
      go :
          (k : PrincipalKind)
          → caller.kind ≡ k
          → authorize_kind cat caller c allowed k ≡ ok tt
          → CanAct cat caller c allowed
      go kind_user q h = user_sound q h
      go kind_client q h = client_sound q h
      go kind_system q h = as_system q (contains-In allowed system_principal (ground arith))

  authorize_complete : CanAct cat caller c allowed → authorize cat caller c allowed ≡ ok tt
  unfolding authorize authorize_client authorize_system authorize_user owner_allowed is_client
  authorize_complete (as_user name m a) =
      let (e, q, p) = ActsAs-eligible cat caller c allowed name m a in
      let held : holds_any e allowed ≡ true = In-any e.held m (ground arith) in
      let any' : any_of e allowed ≡ true = In-any (allows e) m p in
      ap (authorize_kind cat caller c allowed) a.is_user ∙ rw (q, held, a.resolver, any')
  authorize_complete (as_client name m u l g) =
      let p : any (λ name. is_client (lookup name cat.clients) caller.client_id) allowed ≡ true =
        In-any (λ name. is_client (lookup name cat.clients) caller.client_id) m
          (rw l (rw (g, eq_refl caller.client_id))) in
      ap (authorize_kind cat caller c allowed) u ∙ rw p
  authorize_complete (as_system u m) =
      ap (authorize_kind cat caller c allowed) u ∙ rw (In-contains m)

  pub authorize_exact : (authorize cat caller c allowed ≡ ok tt) ↔ CanAct cat caller c allowed
  authorize_exact = (authorize_sound, authorize_complete)

pub CanAct-empty : {cat : Catalog} {caller : Input} {c : String} → ¬ (CanAct cat caller c [])
CanAct-empty (as_user name m a) = elim m [ ]
CanAct-empty (as_client name m u l g) = elim m [ ]
CanAct-empty (as_system u m) = elim m [ ]

check_allowed_exact :
    (cat : Catalog) (task : TaskRecord) (caller : Input) (allowed : List String)
    → (check_allowed cat task allowed (some caller) ≡ ok tt)
      ↔ CanAct cat caller task.case_id allowed
unfolding check_allowed authorize_caller
check_allowed_exact cat task caller [] = (λ h. cc, λ h. absurd (CanAct-empty h))
check_allowed_exact cat task caller (n ∷ ns) = authorize_exact cat caller task.case_id (n ∷ ns)

execute_sound :
    (cat : Catalog) (task : TaskRecord) (payload : Fields) (p : Properties) (caller : Option Input)
    → execute cat task payload p caller ≡ ok tt
    → ((r : Rules) × (p ≡ parsed r)) × ((i : Input) × (caller ≡ some i))
unfolding execute check_allowed authorize_caller
execute_sound cat task payload no_properties caller h = cc
execute_sound cat task payload malformed caller h = cc
execute_sound cat task payload (parsed r) (some i) h = ((r, refl), (i, refl))
execute_sound cat task payload (parsed r) none h =
    absurd (go (allowed_for r task.state (command_of payload)) h)
  where
    go : (ns : List String) → check_allowed cat task ns none ≢ ok tt
    go [] e = cc
    go (n ∷ ns) e = cc

-- The properties are the rules, the context carries the caller, and the caller is one of the
-- principals that the rules name for the task's state and the command.
pub record Permits (cat : Catalog) (task : TaskRecord) (command : String) (p : Properties)
    (caller : Option Input) : Type 0 where
  pub rules : Rules
  pub given : p ≡ parsed rules
  pub who : Input
  pub present : caller ≡ some who
  pub acts : CanAct cat who task.case_id (allowed_for rules task.state command)

-- A command goes ahead exactly when the caller is known, the properties hold rules, and the caller
-- is one of the principals that they name for the task's state and the command.
pub execute_exact :
    (cat : Catalog) (task : TaskRecord) (payload : Fields) (p : Properties) (caller : Option Input)
    → (execute cat task payload p caller ≡ ok tt) ↔ Permits cat task (command_of payload) p caller
unfolding execute
execute_exact cat task payload p caller = (to, from)
  where
    to : execute cat task payload p caller ≡ ok tt → Permits cat task (command_of payload) p caller
    to h =
        let ((r, e), (i, q)) = execute_sound cat task payload p caller h in
        let k : execute cat task payload (parsed r) (some i) ≡ ok tt =
          subst (λ (x : Option Input). execute cat task payload (parsed r) x ≡ ok tt) q
            (subst (λ (x : Properties). execute cat task payload x caller ≡ ok tt) e h) in
        record {
          rules = r;
          given = e;
          who = i;
          present = q;
          acts = (check_allowed_exact cat task i _).0 k;
        }

    from :
        Permits cat task (command_of payload) p caller → execute cat task payload p caller ≡ ok tt
    from m = rw (m.given, m.present) ((check_allowed_exact cat task m.who _).1 m.acts)
