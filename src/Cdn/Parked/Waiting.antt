-- ===== src/Cdn/Parked/Waiting.antt =====
-- The tasks that asycuda/parkedtask finds.
use nsw_srilanka.Common.{
  String, ◌==◌, eq_iff, Bool, true, ◌&&◌, Option, some, List, [], ◌∷◌, ◌≡◌, In, here, there,
  In-cons, ◌≢◌, subst, arith, Bool-cases, Option-cases, inl, inr,
}
use nsw_srilanka.Cdn.Parked.{
  TaskRecord, Task, nothing, parked, first_parked, in_records, find_parked, find, find_in_case,
}

-- The case has a task that is queued externally at this template, and these are its ID and its step.
pub record IsParked (tasks_of_case : String → Option (List TaskRecord)) (case_id template : String)
    (t : Task) : Type 0 where
  pub tasks : List TaskRecord
  pub loaded : tasks_of_case case_id ≡ some tasks
  pub task : TaskRecord
  pub listed : In task tasks
  pub queued : task.state ≡ "QUEUED_EXTERNALLY"
  pub at_template : task.active_task_template_id ≡ template
  pub same_task : t.task_id ≡ task.task_id
  pub same_step : t.step_id ≡ task.active_step_id

-- And it is of this workflow.
pub record IsParkedIn (tasks_of_case : String → Option (List TaskRecord))
    (case_id workflow_id template : String) (t : Task) : Type 0 where
  pub waiting : IsParked tasks_of_case case_id template t
  pub in_workflow : waiting.task.parent_workflow_id ≡ workflow_id

Found : (TaskRecord → Bool) → List TaskRecord → Task → Type 0
Found match rs t =
    (r : TaskRecord) × In r rs
    × (r.state ≡ "QUEUED_EXTERNALLY")
    × (match r ≡ true)
    × (t.task_id ≡ r.task_id)
    × (t.step_id ≡ r.active_step_id)

first_parked-Found :
    (match : TaskRecord → Bool) (rs : List TaskRecord) (t : Task)
    → first_parked match rs ≡ parked t
    → Found match rs t
unfolding first_parked Found
first_parked-Found match [] t h = cc
first_parked-Found match (r ∷ rs) t h =
    elim (Bool-cases ((r.state == "QUEUED_EXTERNALLY") && match r)) [
      | inl y ↦
          let q : parked (record { task_id = r.task_id; step_id = r.active_step_id }) ≡ parked t =
            rw y at h in
          (r, here, (eq_iff r.state "QUEUED_EXTERNALLY").0 (ground arith), ground arith, cc, cc)
      | inr n ↦
          let (x, m, q, a, b, c) = first_parked-Found match rs t (rw n at h) in
          (x, there m, q, a, b, c)
    ]

module _ (tasks_of_case : String → Option (List TaskRecord)) where
  find_parked-Found :
      (case_id : String) (match : TaskRecord → Bool) (t : Task)
      → find_parked tasks_of_case case_id match ≡ parked t
      → (rs : List TaskRecord) × (tasks_of_case case_id ≡ some rs) × Found match rs t
  unfolding find_parked in_records
  find_parked-Found case_id match t h = elim (Bool-cases (case_id == "")) [
    | inl y ↦ absurd (let k = rw y at h in cc)
    | inr n ↦
        let k = rw n at h in
        elim (Option-cases (tasks_of_case case_id)) [
          | inl e ↦ absurd (let j = rw e at k in cc)
          | inr (rs, e) ↦ (rs, e, first_parked-Found match rs t (rw e at k))
        ]
  ]

  pub find_in_case-IsParked :
      (case_id template : String) (t : Task)
      → find_in_case tasks_of_case case_id template ≡ parked t
      → IsParked tasks_of_case case_id template t
  unfolding find_in_case Found
  find_in_case-IsParked case_id template t h =
      let (rs, e, (r, m, q, a, b, c)) =
        find_parked-Found case_id (λ r. r.active_task_template_id == template) t h in
      record {
        tasks = rs;
        loaded = e;
        task = r;
        listed = m;
        queued = q;
        at_template = (eq_iff r.active_task_template_id template).0 a;
        same_task = b;
        same_step = c;
      }

  pub find-IsParkedIn :
      (case_id workflow_id template : String) (t : Task)
      → find tasks_of_case case_id workflow_id template ≡ parked t
      → IsParkedIn tasks_of_case case_id workflow_id template t
  unfolding find Found
  find-IsParkedIn case_id workflow_id template t h = elim (Bool-cases (workflow_id == "")) [
    | inl y ↦ absurd (let k = rw y at h in cc)
    | inr n ↦
        let (rs, e, (r, m, q, a, b, c)) =
          find_parked-Found case_id
            (λ r. (r.parent_workflow_id == workflow_id) && (r.active_task_template_id == template))
            t (rw n at h) in
        record {
          waiting = record {
            tasks = rs;
            loaded = e;
            task = r;
            listed = m;
            queued = q;
            at_template = (eq_iff r.active_task_template_id template).0 (ground arith);
            same_task = b;
            same_step = c;
          };
          in_workflow = (eq_iff r.parent_workflow_id workflow_id).0 (ground arith);
        }
  ]

none_parked :
    (match : TaskRecord → Bool) (rs : List TaskRecord)
    → first_parked match rs ≡ nothing
    → (r : TaskRecord) → In r rs
    → r.state ≡ "QUEUED_EXTERNALLY"
    → ¬ (match r ≡ true)
unfolding first_parked
none_parked match [] h r m q a = elim m [ ]
none_parked match (x ∷ xs) h r m q a =
    elim (Bool-cases ((x.state == "QUEUED_EXTERNALLY") && match x)) [
      | inl y ↦ absurd (let k = rw y at h in cc)
      | inr n ↦ elim (In-cons m) [
        | inl e ↦
            let b : (x.state == "QUEUED_EXTERNALLY") ≡ true =
              (eq_iff x.state "QUEUED_EXTERNALLY").1
                (subst (λ (z : TaskRecord). z.state ≡ "QUEUED_EXTERNALLY") e q) in
            let c : match x ≡ true = subst (λ z. match z ≡ true) e a in
            absurd (let k = rw (b, c) at n in cc)
        | inr i ↦ none_parked match xs (rw n at h) r i q a
      ]
    ]

-- Where none is found, none waits there, but for a case without an ID.
pub find_in_case-nothing :
    (tasks_of_case : String → Option (List TaskRecord)) (case_id template : String)
    → find_in_case tasks_of_case case_id template ≡ nothing
    → case_id ≢ ""
    → (t : Task) → ¬ IsParked tasks_of_case case_id template t
unfolding find_in_case find_parked in_records
find_in_case-nothing tasks_of_case case_id template h given t p =
    elim (Bool-cases (case_id == "")) [
      | inl y ↦ given ((eq_iff case_id "").0 y)
      | inr n ↦
          none_parked (λ r. r.active_task_template_id == template) p.tasks (rw (n, p.loaded) at h)
            p.task p.listed p.queued
            ((eq_iff p.task.active_task_template_id template).1 p.at_template)
    ]
