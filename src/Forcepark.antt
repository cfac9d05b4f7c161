-- ===== src/Forcepark.antt =====
-- internal/workflowadmin/force_park.go: taking a waiting step from its task, for an admin to resolve.
pub mod Nodes
pub mod Retried
mod Examples
use nsw_srilanka.Common.{
  String, ◌==◌, ◌≡◌, Bool, true, false, not, ◌&&◌, ◌||◌, Option, none, some, List, [], ◌∷◌, Dict,
  if◌then◌else◌,
}

pub data NodeType : Type 0 where
  task_node other_node : NodeType

pub data NodeStatus : Type 0 where
  running awaiting_admin other_status : NodeStatus

-- workflow.NodeInfo, as much of it as the code reads; the flag is the category AdminForced.
pub record Node : Type 0 where
  pub activation_id : String
  pub node_type : NodeType
  pub status : NodeStatus
  pub admin_forced : Bool

pub data Status : Type 0 where
  nodes : Dict Node → Status
  unknown_workflow status_failed : Status

pub data Parking : Type 0 where
  was_parked not_pending park_failed : Parking

pub data Closing : Type 0 where
  closed not_open close_failed : Closing

abbrev pub forced_node : String → Node → Node
forced_node step n =
    if n.activation_id == step then record n { status = awaiting_admin; admin_forced = true } else n

-- The nodes once a step is parked.
abbrev pub forced : String → Dict Node → Dict Node
forced step [] = []
forced step ((id, n) ∷ ns) = (id, forced_node step n) ∷ forced step ns

-- A workflow manager of the core library, on the engine's state. A step that it parks shows as parked
-- in the workflow's status.
pub record Manager (Engine : Type 0) : Type 0 where
  pub can_park : Bool
  pub status : String → Engine → Status
  pub park : String → String → String → Engine → Parking × Engine
  pub parks :
      (w step reason : String) (e e' : Engine) (ns : Dict Node)
      → park w step reason e ≡ (was_parked, e')
      → status w e ≡ nodes ns
      → status w e' ≡ nodes (forced step ns)

-- TaskCanceller
abbrev pub Canceller : Type 0 → Type 0
Canceller Engine = String → String → Engine → Closing × Engine

pub data ParkError : Type 0 where
  no_canceller no_manager no_parking workflow_not_found read_failed : ParkError
  node_not_waiting unsupported_node_type parking_failed closing_failed : ParkError

pub data Parked (A : Type 0) : Type 0 where
  ok : A → Parked A
  failed : ParkError → Parked A

-- The node whose current run is the step; the list gives an order to a Go map.
abbrev pub by_step : Dict Node → String → Option (String × Node)
by_step [] step = none
by_step ((id, n) ∷ ns) step =
    let rest = by_step ns step in if n.activation_id == step then some (id, n) else rest

-- findNodeByStep
unfoldable pub find_node_by_step : Dict Node → String → Option (String × Node)
find_node_by_step ns step = if step == "" then none else by_step ns step

abbrev pub is_forced : Node → Bool
is_forced n = elim n.status [
  | running ↦ false
  | awaiting_admin ↦ n.admin_forced
  | other_status ↦ false
]

abbrev pub is_running : NodeStatus → Bool
is_running running = true
is_running s = false

abbrev pub is_task : NodeType → Bool
is_task task_node = true
is_task other_node = false

abbrev pub judge : Option (String × Node) → Bool → Parked (String × Bool)
judge none allowed = failed node_not_waiting
judge (some (id, n)) allowed =
    let already = allowed && is_forced n in
    if not (is_task n.node_type)
    then failed unsupported_node_type
    else if not (is_running n.status) && not already
    then failed node_not_waiting
    else ok (id, already)

-- findForceParkNode
unfoldable pub find_force_park_node : Dict Node → String → Bool → Parked (String × Bool)
unfolding find_node_by_step
find_force_park_node ns step allowed = judge (find_node_by_step ns step) allowed

module _ {Engine : Type 0} where
  abbrev pub finished : Parked (Unit {0}) × Engine → String → Parked String × Engine
  finished (ok u, e) id = (ok id, e)
  finished (failed x, e) id = (failed x, e)

  -- afterPark, where there is one
  abbrev pub after_park :
      Option (Engine → Parked (Unit {0}) × Engine) → String → Engine → Parked String × Engine
  after_park none id e = (ok id, e)
  after_park (some after) id e = finished (after e) id

  abbrev pub when_parked :
      Parking × Engine
      → Option (Engine → Parked (Unit {0}) × Engine)
      → String
      → Parked String × Engine
  when_parked (was_parked, e) after id = after_park after id e
  when_parked (not_pending, e) after id = (failed node_not_waiting, e)
  when_parked (park_failed, e) after id = (failed parking_failed, e)

  abbrev pub has_after : Option (Engine → Parked (Unit {0}) × Engine) → Bool
  has_after none = false
  has_after (some after) = true

  abbrev pub park_found :
      Manager Engine
      → String
      → String
      → String
      → Option (Engine → Parked (Unit {0}) × Engine)
      → Parked (String × Bool)
      → Engine
      → Parked String × Engine
  park_found m w step reason after (failed x) e = (failed x, e)
  park_found m w step reason after (ok (id, true)) e = after_park after id e
  park_found m w step reason after (ok (id, false)) e =
      when_parked (m.park w step reason e) after id

  unfoldable pub park_in :
      Manager Engine
      → String
      → String
      → String
      → Option (Engine → Parked (Unit {0}) × Engine)
      → Status
      → Engine
      → Parked String × Engine
  unfolding find_force_park_node
  park_in m w step reason after unknown_workflow e = (failed workflow_not_found, e)
  park_in m w step reason after status_failed e = (failed read_failed, e)
  park_in m w step reason after (nodes ns) e =
      park_found m w step reason after (find_force_park_node ns step (has_after after)) e

  -- forceParkStep
  unfoldable pub force_park_step :
      Option (Manager Engine)
      → String
      → String
      → String
      → Option (Engine → Parked (Unit {0}) × Engine)
      → Engine
      → Parked String × Engine
  unfolding park_in
  force_park_step none w step reason after e = (failed no_manager, e)
  force_park_step (some m) w step reason after e =
      if not m.can_park
      then (failed no_parking, e)
      else park_in m w step reason after (m.status w e) e

  -- What ForceParkTaskNode does once the node is parked; a task that is closed already is closed.
  abbrev pub closing : Closing × Engine → Parked (Unit {0}) × Engine
  closing (closed, e) = (ok tt, e)
  closing (not_open, e) = (ok tt, e)
  closing (close_failed, e) = (failed closing_failed, e)

  abbrev pub close_task : Canceller Engine → String → String → Engine → Parked (Unit {0}) × Engine
  close_task close step reason e = closing (close step reason e)

  -- ForceParkTaskNode, with the canceller and the manager where they are registered
  unfoldable pub force_park_task_node :
      Option (Canceller Engine)
      → Option (Manager Engine)
      → String
      → String
      → String
      → Engine
      → Parked String × Engine
  unfolding force_park_step
  force_park_task_node none m w step reason e = (failed no_canceller, e)
  force_park_task_node (some close) m w step reason e =
      force_park_step m w step reason (some (close_task close step reason)) e

  -- ForceParkTaskWorkflowStep
  unfoldable pub force_park_task_workflow_step :
      Option (Manager Engine) → String → String → String → Engine → Parked String × Engine
  unfolding force_park_step
  force_park_task_workflow_step m w step reason e = force_park_step m w step reason none e
