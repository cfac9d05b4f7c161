-- ===== src/Cdn/Parked.antt =====
-- external-integration/customs/asycuda/parkedtask: the task that a callback answers.
pub mod Waiting
use nsw_srilanka.Common.{String, ◌==◌, Bool, ◌&&◌, Option, none, some, List, [], ◌∷◌, if◌then◌else◌}

-- What is read of a core task record.
pub record TaskRecord : Type 0 where
  pub task_id : String
  pub state : String
  pub active_step_id : String
  pub parent_workflow_id : String
  pub active_task_template_id : String

abbrev pub state_queued_externally : String
state_queued_externally = "QUEUED_EXTERNALLY"

-- Task
pub record Task : Type 0 where
  pub task_id : String
  pub step_id : String

-- The answer of a search; `unread` where the tasks could not be loaded.
pub data Search : Type 0 where
  unread nothing : Search
  parked : Task → Search

-- The parked task of a list that the callback accepts.
unfoldable pub first_parked : (TaskRecord → Bool) → List TaskRecord → Search
first_parked match [] = nothing
first_parked match (r ∷ rs) =
    if (r.state == state_queued_externally) && match r
    then parked (record { task_id = r.task_id; step_id = r.active_step_id })
    else first_parked match rs

unfoldable pub in_records : (TaskRecord → Bool) → Option (List TaskRecord) → Search
unfolding first_parked
in_records match none = unread
in_records match (some rs) = first_parked match rs

-- `tasks_of_case` is the core task store: `none` where the load fails.
module _ (tasks_of_case : String → Option (List TaskRecord)) where
  -- find
  unfoldable pub find_parked : String → (TaskRecord → Bool) → Search
  unfolding in_records
  find_parked case_id match =
      if case_id == "" then nothing else in_records match (tasks_of_case case_id)

  -- Find
  unfoldable pub find : String → String → String → Search
  unfolding find_parked
  find case_id workflow_id template_id =
      if workflow_id == ""
      then nothing
      else find_parked case_id
          (λ r. (r.parent_workflow_id == workflow_id) && (r.active_task_template_id == template_id))

  -- FindInCase
  unfoldable pub find_in_case : String → String → Search
  unfolding find_parked
  find_in_case case_id template_id =
      find_parked case_id (λ r. r.active_task_template_id == template_id)
