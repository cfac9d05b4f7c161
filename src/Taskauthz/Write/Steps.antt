-- ===== src/Taskauthz/Write/Steps.antt =====
-- MayAct against Execute (internal/tasks/extensions/authz/authz.go).
use nsw_srilanka.Common.{
  String, true, some, List, [], ◌∷◌, ◌≡◌, refl, subst, ◌↔◌, In, here, Distinct, Dict, lookup, keys,
  arith,
}
use nsw_srilanka.Common.Value.{str, Fields, end, field, field_at}
use nsw_srilanka.Taskauthz.{Input, Catalog, Answer, ok, err}
use nsw_srilanka.Taskauthz.Write.{
  TaskRecord, Rules, parsed, allowed_for, command_of, authorize, execute, may_act, may_any,
  as_answer, all_names, commands_of, names_of,
}
use nsw_srilanka.Taskauthz.Write.Acting.{
  CanAct, as_user, as_client, as_system, authorize_exact, execute_exact, CanAct-empty,
}
use nsw_srilanka.Taskauthz.Write.Names.{
  In-lookup, lookup-In, In-all_names, all_names-In, names_at, In-one,
}

-- The body of a request that asks for one command.
abbrev pub asks : String → Fields
asks command = field "__command" (str command) end

module _ {cat : Catalog} {caller : Input} {c : String} where
  CanAct-more :
      {xs ys : List String}
      → ((n : String) → In n xs → In n ys)
      → CanAct cat caller c xs
      → CanAct cat caller c ys
  CanAct-more sub (as_user n m a) = as_user n (sub n m) a
  CanAct-more sub (as_client n m u l g) = as_client n (sub n m) u l g
  CanAct-more sub (as_system u m) = as_system u (sub _ m)

  -- Who can act under several names can act under one of them.
  CanAct-one :
      {xs : List String}
      → CanAct cat caller c xs
      → (n : String) × In n xs × CanAct cat caller c (n ∷ [])
  CanAct-one (as_user n m a) = (n, m, as_user n here a)
  CanAct-one (as_client n m u l g) = (n, m, as_client n here u l g)
  CanAct-one (as_system u m) = (_, m, as_system u here)

as_answer_iff : (a : Answer (Unit {0})) → (as_answer a ≡ ok true) ↔ (a ≡ ok tt)
unfolding as_answer
as_answer_iff (ok tt) = (λ h. refl, λ h. refl)
as_answer_iff (err x) = (λ h. ground arith, λ h. cc)

may_any_exact :
    (cat : Catalog) (task : TaskRecord) (caller : Input) (ns : List String)
    → (may_any cat task caller ns ≡ ok true) ↔ CanAct cat caller task.case_id ns
unfolding may_any
may_any_exact cat task caller [] = (λ h. cc, λ a. absurd (CanAct-empty a))
may_any_exact cat task caller (n ∷ ns) =
    let a = authorize cat caller task.case_id (n ∷ ns) in
    let i = authorize_exact cat caller task.case_id (n ∷ ns) in
    (λ h. i.0 ((as_answer_iff a).0 h), λ h. (as_answer_iff a).1 (i.1 h))

-- A caller may act on a task exactly when some command of the task's state would go ahead, where
-- the state's commands have distinct names.
pub may_act_exact :
    (cat : Catalog) (task : TaskRecord) (caller : Input) (r : Rules)
    → Distinct (keys (commands_of (lookup task.state r)))
    → (may_act cat task caller (parsed r) ≡ ok true)
      ↔ ((command : String) × (execute cat task (asks command) (parsed r) (some caller) ≡ ok tt))
unfolding may_act allowed_for command_of field_at
may_act_exact cat task caller r d = (to, from)
  where
    m : Dict (List String)
    m = commands_of (lookup task.state r)

    to :
        may_act cat task caller (parsed r) ≡ ok true
        → (command : String) × (execute cat task (asks command) (parsed r) (some caller) ≡ ok tt)
    to h =
        let (n, i, one) = CanAct-one ((may_any_exact cat task caller (all_names m)).0 h) in
        let (command, names, p, q) = In-all_names n m i in
        let at : In n (names_of (lookup command m)) = rw (In-lookup m d p) q in
        (
          command,
          (execute_exact cat task (asks command) (parsed r) (some caller)).1 (record {
            rules = r;
            given = refl;
            who = caller;
            present = refl;
            acts = CanAct-more (In-one at) one;
          }),
        )

    from :
        (command : String) × (execute cat task (asks command) (parsed r) (some caller) ≡ ok tt)
        → may_act cat task caller (parsed r) ≡ ok true
    from (command, h) =
        let x = (execute_exact cat task (asks command) (parsed r) (some caller)).0 h in
        let rules_eq : x.rules ≡ r = let g = x.given in cc in
        let who_eq : x.who ≡ caller = let g = x.present in cc in
        let acts : CanAct cat caller task.case_id (names_of (lookup command m)) =
          subst (λ (y : Input). CanAct cat y task.case_id (names_of (lookup command m))) who_eq
            (subst
              (λ (y : Rules).
                CanAct cat x.who task.case_id
                  (names_of (lookup command (commands_of (lookup task.state y)))))
              rules_eq x.acts) in
        (may_any_exact cat task caller (all_names m)).1 (
          CanAct-more
            (λ n i.
              let (names, e, j) = names_at command m i in
              all_names-In command names m (lookup-In command names m e) j)
            acts)
