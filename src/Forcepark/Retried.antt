-- ===== src/Forcepark/Retried.antt =====
-- What a forced park leaves, and what repeating it does (internal/workflowadmin/force_park.go).
use nsw_srilanka.Common.{
  String, ◌≡◌, refl, ◌∙◌, ap, subst, Bool, true, false, not, ◌&&◌, Option, none, some, Dict,
  Bool-cases, inl, inr, ◌⊎◌,
}
use nsw_srilanka.Forcepark.{
  Node, Status, nodes, unknown_workflow, status_failed, Parking, was_parked, not_pending,
  park_failed, Closing, closed, not_open, close_failed, forced, Manager, Canceller, Parked, ok,
  failed, closing_failed, node_not_waiting, unsupported_node_type, no_parking, find_node_by_step,
  is_forced, is_running, is_task, judge, find_force_park_node, finished, after_park, when_parked,
  park_found, park_in, force_park_step, closing, close_task, force_park_task_node,
}
use nsw_srilanka.Forcepark.Nodes.{judge-forced, IsForced, find_force_park_node-IsForced}

-- The workflow shows the step's node as parked by force, and the code takes it as such.
pub record IsParked {Engine : Type 0} (m : Manager Engine) (w step id : String) (e : Engine)
    : Type 0 where
  pub shown : Dict Node
  pub status : m.status w e ≡ nodes shown
  pub parked : find_force_park_node shown step true ≡ ok (id, true)
  pub by_admin : IsForced shown step id

judge_failed : (o : Option (String × Node)) (a : Bool) → ¬ (judge o a ≡ failed closing_failed)
judge_failed none a h = cc
judge_failed (some (i, k)) a h = elim (Bool-cases (is_task k.node_type)) [
  | inl t ↦ elim (Bool-cases (not (is_running k.status) && not (a && is_forced k))) [
    | inl y ↦ let q : judge (some (i, k)) a ≡ failed node_not_waiting = rw (t, y) refl in cc
    | inr n ↦ let q : judge (some (i, k)) a ≡ ok (i, a && is_forced k) = rw (t, n) refl in cc
  ]
  | inr t ↦ let q : judge (some (i, k)) a ≡ failed unsupported_node_type = rw t refl in cc
]

module _ {Engine : Type 0} (m : Manager Engine) (close : Canceller Engine)
    (w step reason : String) where
  -- The call came to closing the task, which succeeded or failed.
  abbrev pub Reached : Parked String → Type 0
  Reached r = (r ≡ failed closing_failed) ⊎ ((id : String) × (r ≡ ok id))

  -- The rest of a call, once the node shows as parked.
  abbrev pub close_parked : String → Engine → Parked String × Engine
  close_parked id e = after_park (some (close_task close step reason)) id e

  abbrev Closes : Parked String × Engine → Type 0
  Closes r = (id : String) × (e : Engine) × IsParked m w step id e × (r ≡ close_parked id e)

  when_parked-Closes :
      (ns : Dict Node) (id : String) (e : Engine) (r : Parking × Engine)
      → m.status w e ≡ nodes ns
      → find_force_park_node ns step true ≡ ok (id, false)
      → m.park w step reason e ≡ r
      → Reached (when_parked r (some (close_task close step reason)) id).0
      → Closes (when_parked r (some (close_task close step reason)) id)
  when_parked-Closes ns id e (was_parked, e') s f p h = (
    id,
    e',
    record {
      shown = forced step ns;
      status = m.parks w step reason e e' ns p s;
      parked = judge-forced ns step id true false f;
      by_admin =
          find_force_park_node-IsForced (forced step ns) step id
            (judge-forced ns step id true false f);
    },
    refl,
  )
  when_parked-Closes ns id e (not_pending, e') s f p h = elim h [
    | inl a ↦ cc
    | inr a ↦ let b = a.1 in cc
  ]
  when_parked-Closes ns id e (park_failed, e') s f p h = elim h [
    | inl a ↦ cc
    | inr a ↦ let b = a.1 in cc
  ]

  park_found-Closes :
      (ns : Dict Node) (e : Engine) (r : Parked (String × Bool))
      → m.status w e ≡ nodes ns
      → find_force_park_node ns step true ≡ r
      → Reached (park_found m w step reason (some (close_task close step reason)) r e).0
      → Closes (park_found m w step reason (some (close_task close step reason)) r e)
  unfolding find_force_park_node
  park_found-Closes ns e (failed x) s f h = elim h [
    | inl a ↦ absurd (
        judge_failed (find_node_by_step ns step) true
          (f ∙ ap failed (let q : x ≡ closing_failed = cc in q)))
    | inr a ↦ let b = a.1 in cc
  ]
  park_found-Closes ns e (ok (id, true)) s f h = (
    id,
    e,
    record {
      shown = ns;
      status = s;
      parked = f;
      by_admin = find_force_park_node-IsForced ns step id f;
    },
    refl,
  )
  park_found-Closes ns e (ok (id, false)) s f h =
      when_parked-Closes ns id e (m.park w step reason e) s f refl h

  park_in-Closes :
      (e : Engine) (s : Status)
      → m.status w e ≡ s
      → Reached (park_in m w step reason (some (close_task close step reason)) s e).0
      → Closes (park_in m w step reason (some (close_task close step reason)) s e)
  unfolding park_in
  park_in-Closes e unknown_workflow s h = elim h [ inl a ↦ cc | inr a ↦ let b = a.1 in cc ]
  park_in-Closes e status_failed s h = elim h [ inl a ↦ cc | inr a ↦ let b = a.1 in cc ]
  park_in-Closes e (nodes ns) s h =
      park_found-Closes ns e (find_force_park_node ns step true) s refl h

  closed_engine : (r : Closing × Engine) (id : String) → (finished (closing r) id).1 ≡ r.1
  closed_engine (closed, e) id = refl
  closed_engine (not_open, e) id = refl
  closed_engine (close_failed, e) id = refl

  again :
      (id : String) (e : Engine)
      → m.can_park ≡ true
      → IsParked m w step id e
      → force_park_task_node (some close) (some m) w step reason e ≡ close_parked id e
  unfolding force_park_task_node force_park_step park_in
  again id e c p = rw (c, p.status, p.parked) refl

  -- When a forced park of a node comes to closing its task, whether or not the closing succeeds, the
  -- workflow's status then shows a task node at the step that waits for an admin and is there by
  -- force, and repeating the call parks nothing again: it only closes the task. Closing a task leaves
  -- the workflow's status as it is.
  pub force_park_retried :
      ((x : Engine) → m.status w (close step reason x).1 ≡ m.status w x)
      → (e : Engine) → Reached (force_park_task_node (some close) (some m) w step reason e).0
      → let after = (force_park_task_node (some close) (some m) w step reason e).1 in
        (id : String) × IsParked m w step id after
        × (force_park_task_node (some close) (some m) w step reason after ≡ close_parked id after)
        × ((force_park_task_node (some close) (some m) w step reason after).1
            ≡ (close step reason after).1)
  unfolding force_park_task_node force_park_step
  force_park_retried keeps e h = elim (Bool-cases m.can_park) [
    | inr n ↦
        let q : force_park_task_node (some close) (some m) w step reason e
            ≡ (failed no_parking, e) =
          rw n refl in
        elim h [ inl a ↦ cc | inr a ↦ let b = a.1 in cc ]
    | inl y ↦
        let q : force_park_task_node (some close) (some m) w step reason e
            ≡ park_in m w step reason (some (close_task close step reason)) (m.status w e) e =
          rw y refl in
        let (id, e0, p, r) =
          park_in-Closes e (m.status w e) refl
            (subst (λ (x : Parked String × Engine). Reached x.0) q h) in
        let s : (force_park_task_node (some close) (some m) w step reason e).1
            ≡ (close step reason e0).1 =
          ap (λ (x : Parked String × Engine). x.1) (q ∙ r)
          ∙ closed_engine (close step reason e0) id in
        let shows : IsParked m w step id
            (force_park_task_node (some close) (some m) w step reason e).1 =
          record {
            shown = p.shown;
            status = ap (m.status w) s ∙ keeps e0 ∙ p.status;
            parked = p.parked;
            by_admin = p.by_admin;
          } in
        let repeat = again id _ y shows in
        (
          id,
          shows,
          repeat,
          ap (λ (x : Parked String × Engine). x.1) repeat ∙ closed_engine (close step reason _) id,
        )
  ]
