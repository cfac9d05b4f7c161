-- ===== src/Forcepark/Nodes.antt =====
-- The nodes that internal/workflowadmin/force_park.go finds.
use nsw_srilanka.Common.{
  String, ◌==◌, ◌≡◌, refl, sym, ◌∙◌, subst, Bool, true, false, not, ◌&&◌, Option, none, some, [],
  ◌∷◌, Dict, Bool-cases, Option-cases, In, here, there, eq_iff, inl, inr, arith,
}
use nsw_srilanka.Forcepark.{
  NodeType, NodeStatus, other_node, running, other_status, Node, task_node, awaiting_admin,
  forced_node, forced, ok, failed, node_not_waiting, unsupported_node_type, by_step,
  find_node_by_step, is_forced, is_running, is_task, judge, find_force_park_node,
}

by_step-forced :
    (ns : Dict Node) (step id : String) (n : Node)
    → by_step ns step ≡ some (id, n)
    → (by_step (forced step ns) step ≡ some (id, forced_node step n))
      × ((n.activation_id == step) ≡ true)
by_step-forced [] step id n h = cc
by_step-forced ((i, k) ∷ ns) step id n h = elim (Bool-cases (k.activation_id == step)) [
  | inl e ↦
      let q : (i, k) ≡ (id, n) = ground arith in
      subst
        (λ (x : String × Node).
          (by_step (forced step ((i, k) ∷ ns)) step ≡ some (x.0, forced_node step x.1))
          × ((x.1.activation_id == step) ≡ true))
        q (rw (e, e) refl, e)
  | inr e ↦ let (a, b) = by_step-forced ns step id n (ground arith) in (rw (e, e) a, b)
]

judged :
    (i id : String) (k : Node) (a b : Bool)
    → judge (some (i, k)) a ≡ ok (id, b)
    → (i ≡ id) × (is_task k.node_type ≡ true)
judged i id k a b h = elim (Bool-cases (is_task k.node_type)) [
  | inl t ↦ elim (Bool-cases (not (is_running k.status) && not (a && is_forced k))) [
    | inl y ↦ let q : judge (some (i, k)) a ≡ failed node_not_waiting = rw (t, y) refl in cc
    | inr n ↦
        let q : judge (some (i, k)) a ≡ ok (i, a && is_forced k) = rw (t, n) refl in
        (let z : i ≡ id = cc in z, t)
  ]
  | inr t ↦ let q : judge (some (i, k)) a ≡ failed unsupported_node_type = rw t refl in cc
]

judge-forced_node :
    (i step : String) (k : Node)
    → (k.activation_id == step) ≡ true
    → is_task k.node_type ≡ true
    → judge (some (i, forced_node step k)) true ≡ ok (i, true)
judge-forced_node i step k e t = rw (e, t) refl

-- A node that may be parked, or is, shows as parked once it is.
pub judge-forced :
    (ns : Dict Node) (step id : String) (a b : Bool)
    → find_force_park_node ns step a ≡ ok (id, b)
    → find_force_park_node (forced step ns) step true ≡ ok (id, true)
unfolding find_force_park_node find_node_by_step
judge-forced ns step id a b h = elim (Bool-cases (step == "")) [
  | inl e ↦ let q : find_force_park_node ns step a ≡ failed node_not_waiting = rw e refl in cc
  | inr e ↦ rw e (
      go (by_step ns step) refl (
        let q : find_force_park_node ns step a ≡ judge (by_step ns step) a = rw e refl in
        sym q ∙ h))
]
  where
    go :
        (o : Option (String × Node))
        → by_step ns step ≡ o
        → judge o a ≡ ok (id, b)
        → judge (by_step (forced step ns) step) true ≡ ok (id, true)
    go none e j = cc
    go (some (i, k)) e j =
        let (f, act) = by_step-forced ns step i k e in
        let (same, t) = judged i id k a b j in
        rw f (
          subst (λ x. judge (some (i, forced_node step k)) true ≡ ok (x, true)) same
            (judge-forced_node i step k act t))

-- A node of the list is a task at the step, waits for an admin, and is there by force.
pub record IsForced (shown : Dict Node) (step id : String) : Type 0 where
  pub node : Node
  pub listed : In (id, node) shown
  pub at_step : node.activation_id ≡ step
  pub task : node.node_type ≡ task_node
  pub waits : node.status ≡ awaiting_admin
  pub by_force : node.admin_forced ≡ true

by_step-In :
    (ns : Dict Node) (step id : String) (n : Node)
    → by_step ns step ≡ some (id, n)
    → In (id, n) ns × (n.activation_id ≡ step)
by_step-In [] step id n h = cc
by_step-In ((i, k) ∷ ns) step id n h = elim (Bool-cases (k.activation_id == step)) [
  | inl e ↦
      let q : (i, k) ≡ (id, n) = ground arith in
      subst (λ (x : String × Node). In x ((i, k) ∷ ns) × (x.1.activation_id ≡ step)) q
        (here, (eq_iff k.activation_id step).0 e)
  | inr e ↦ let (a, b) = by_step-In ns step id n (ground arith) in (there a, b)
]

judged_forced :
    (i id : String) (k : Node)
    → judge (some (i, k)) true ≡ ok (id, true)
    → (i ≡ id) × (k.node_type ≡ task_node) × (k.status ≡ awaiting_admin) × (k.admin_forced ≡ true)
judged_forced i id k h = go k.node_type k.status k.admin_forced refl refl refl
  where
    go :
        (t : NodeType) (s : NodeStatus) (f : Bool)
        → k.node_type ≡ t
        → k.status ≡ s
        → k.admin_forced ≡ f
        → (i ≡ id)
          × (k.node_type ≡ task_node)
          × (k.status ≡ awaiting_admin)
          × (k.admin_forced ≡ true)
    go other_node s f a b c = absurd (let j = rw a at h in cc)
    go task_node running f a b c = absurd (let j = rw (a, b) at h in cc)
    go task_node other_status f a b c = absurd (let j = rw (a, b) at h in cc)
    go task_node awaiting_admin false a b c = absurd (let j = rw (a, b, c) at h in cc)
    go task_node awaiting_admin true a b c = let j = rw (a, b, c) at h in (cc, a, b, c)

pub find_force_park_node-IsForced :
    (ns : Dict Node) (step id : String)
    → find_force_park_node ns step true ≡ ok (id, true)
    → IsForced ns step id
unfolding find_force_park_node find_node_by_step
find_force_park_node-IsForced ns step id h = elim (Bool-cases (step == "")) [
  | inl e ↦ let q : find_force_park_node ns step true ≡ failed node_not_waiting = rw e refl in cc
  | inr e ↦ elim (Option-cases (by_step ns step)) [
    | inl n ↦ absurd (let j = rw (e, n) at h in cc)
    | inr ((i, k), f) ↦
        let (same, t, s, a) = judged_forced i id k (rw (e, f) at h) in
        let (m, act) = by_step-In ns step i k f in
        record {
          node = k;
          listed = subst (λ x. In (x, k) ns) same m;
          at_step = act;
          task = t;
          waits = s;
          by_force = a;
        }
  ]
]
