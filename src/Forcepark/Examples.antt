-- ===== src/Forcepark/Examples.antt =====
-- Forced parks on a small engine.
use nsw_srilanka.Common.{String, ◌≡◌, refl, true, false, some, [], ◌∷◌, Dict, inl}
use nsw_srilanka.Forcepark.{
  Node, task_node, running, nodes, was_parked, close_failed, closed, forced, Manager, Canceller, ok,
  failed, closing_failed, node_not_waiting, find_force_park_node, force_park_task_node,
  force_park_task_workflow_step,
}
use nsw_srilanka.Forcepark.Retried.{IsParked, close_parked, force_park_retried}

-- An engine that holds the nodes of one workflow and parks at once.
abbrev small : Manager (Dict Node)
small = record {
  can_park = true;
  status = λ w e. nodes e;
  park = λ w step reason e. (was_parked, forced step e);
  parks = λ w step reason e e' ns p s. cc;
}

abbrev broken : Canceller (Dict Node)
broken step reason e = (close_failed, e)

abbrev working : Canceller (Dict Node)
working step reason e = (closed, e)

abbrev waiting : Dict Node
waiting =
    (
      "n1",
      record {
        activation_id = "s1";
        node_type = task_node;
        status = running;
        admin_forced = false;
      },
    )
    ∷ []

abbrev parked : Dict Node
parked = forced "s1" waiting

-- The closing fails, the node is parked; the second call closes the task.
first_call :
    force_park_task_node (some broken) (some small) "w" "s1" "r" waiting
    ≡ (failed closing_failed, parked)
unfolding force_park_task_node
first_call = refl

second_call :
    force_park_task_node (some working) (some small) "w" "s1" "r" parked ≡ (ok "n1", parked)
unfolding force_park_task_node
second_call = refl

-- A step of a task workflow that is parked already is not waiting.
parked_already :
    force_park_task_workflow_step (some small) "w" "s1" "r" parked
    ≡ (failed node_not_waiting, parked)
unfolding force_park_task_workflow_step
parked_already = refl

no_step : find_force_park_node waiting "" true ≡ failed node_not_waiting
unfolding find_force_park_node
no_step = refl

force_park_retried_example :
    let after = (force_park_task_node (some broken) (some small) "w" "s1" "r" waiting).1 in
    (id : String) × IsParked small "w" "s1" id after
    × (force_park_task_node (some broken) (some small) "w" "s1" "r" after
        ≡ close_parked small broken "w" "s1" "r" id after)
    × ((force_park_task_node (some broken) (some small) "w" "s1" "r" after).1
        ≡ (broken "s1" "r" after).1)
force_park_retried_example =
    force_park_retried small broken "w" "s1" "r" (λ x. refl) waiting
      (inl (let q = first_call in cc))
