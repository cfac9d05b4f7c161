-- ===== src/Taskauthz/Gate/Reserved.antt =====
-- The reserved system principal cannot be reached by a request: internal/tasks/authzgate with Register
-- of internal/tasks/extensions/authz/wiring.go.
use nsw_srilanka.Common.{
  String, Bool, Option, none, some, List, ◌≡◌, ◌≢◌, refl, subst, inl, inr, In, lookup, Option-cases,
  arith,
}
use nsw_srilanka.Common.Value.{Fields}
use nsw_srilanka.Principal.{Principal, Kind, user, client}
use nsw_srilanka.Taskauthz.{kind_system, Input, Catalog, system_principal, ok}
use nsw_srilanka.Taskauthz.Write.{
  TaskRecord, Rules, parsed, allowed_for, command_of, execute, register, registered,
}
use nsw_srilanka.Taskauthz.Write.Acting.{as_user, as_client, as_system, execute_exact}
use nsw_srilanka.Taskauthz.Gate.{Ref, resolve_input}

register_lem :
    (cat : Catalog)
    → register cat ≡ registered
    → (lookup system_principal cat.roles ≡ none) × (lookup system_principal cat.clients ≡ none)
unfolding register
register_lem cat h = elim (Option-cases (lookup system_principal cat.roles)) [
  | inr (x, e) ↦ absurd (ground arith)
  | inl e ↦ elim (Option-cases (lookup system_principal cat.clients)) [
    | inr (y, q) ↦ absurd (ground arith)
    | inl q ↦ (e, q)
  ]
]

not_system :
    (query : String → List Ref → Option (String → Bool)) (p : Option Principal) (i : Input)
    → resolve_input query p ≡ some i
    → i.kind ≢ kind_system
unfolding resolve_input
not_system query none i h e = cc
not_system query (some p) i h e = go p.kind refl
  where
    go : (k : Kind) → p.kind ≡ k → ⊥
    go user q = ground arith
    go client q = ground arith

-- With a catalog that Register accepts, no request, whatever its token and whatever the lookup of
-- parties answers, can run a command that the rules leave to this service alone.
pub system_rule_unreachable :
    (cat : Catalog) (task : TaskRecord) (payload : Fields) (r : Rules)
    (query : String → List Ref → Option (String → Bool)) (p : Option Principal)
    → register cat ≡ registered
    → ((n : String) → In n (allowed_for r task.state (command_of payload)) → n ≡ system_principal)
    → execute cat task payload (parsed r) (resolve_input query p) ≢ ok tt
system_rule_unreachable cat task payload r query p reg only h =
    let m = (execute_exact cat task payload (parsed r) (resolve_input query p)).0 h in
    let rules_eq : m.rules ≡ r = let g = m.given in cc in
    let (a, b) = register_lem cat reg in
    elim m.acts [
      | as_system k i ↦ not_system query p m.who m.present k
      | as_user n i x ↦
          let e = only n (
            subst (λ (y : Rules). In n (allowed_for y task.state (command_of payload))) rules_eq
              i) in
          let c = x.catalogued in
          let c' : lookup system_principal cat.roles ≡ some x.role =
            subst (λ k. lookup k cat.roles ≡ some x.role) e c in
          absurd (cc)
      | as_client n i k l g ↦
          let e = only n (
            subst (λ (y : Rules). In n (allowed_for y task.state (command_of payload))) rules_eq
              i) in
          let c' : lookup system_principal cat.clients ≡ some m.who.client_id =
            subst (λ k. lookup k cat.clients ≡ some m.who.client_id) e l in
          absurd (cc)
    ]
