-- ===== src/TaskManager/Manager/Operations.antt =====
-- What each operation leaves, for tasks whose calls keep the manager consistent.
use libcopp.Base.{
  ℕ, ◌≡◌, refl, ◌≢◌, ◌⊎◌, inl, inr, true, false, ◌&&◌, Option, none, some, ltb, leb, Bool-cases,
  Option-cases,
}
use libcopp.Errno.{
  CoppErrorCode, success, in_reset, task_is_exiting, already_exist, not_found,
  task_already_in_another_manager,
}
use libcopp.TaskManager.Table.{find}
use libcopp.TaskManager.Manager.{
  TaskManager, TaskOps, TaskStatus, created, done, killed, status_rank, is_resetting, take,
  add_node, add_task, set_timeout, is_confirmed, drop_task, remove_task, run_task, end_task, start,
  resume, cancel, kill,
}
use libcopp.TaskManager.Manager.Invariant.{Consistent}
use libcopp.TaskManager.Manager.Freed.{take-Consistent}
use libcopp.TaskManager.Manager.Timing.{IsTimed, with_timer_new, with_timer_known}

-- The calls of a task leave a consistent manager consistent.
pub record Keeps {W : Type 0} (ops : TaskOps W) : Type 0 where
  pub start :
      (s : TaskManager × W) (k p : ℕ)
      → Consistent ops.get_id s.0
      → Consistent ops.get_id (ops.start s k p).0.0
  pub resume :
      (s : TaskManager × W) (k p : ℕ)
      → Consistent ops.get_id s.0
      → Consistent ops.get_id (ops.resume s k p).0.0
  pub cancel :
      (s : TaskManager × W) (k p : ℕ)
      → Consistent ops.get_id s.0
      → Consistent ops.get_id (ops.cancel s k p).0.0
  pub kill :
      (s : TaskManager × W) (k : ℕ) (st : TaskStatus) (p : ℕ)
      → Consistent ops.get_id s.0
      → Consistent ops.get_id (ops.kill s k st p).0.0

module _ {W : Type 0} (ops : TaskOps W) (s : TaskManager × W) (c : Consistent ops.get_id s.0) where
  -- `set_timeout` of a known task, out of a reset: its old timer is gone, and it has the new one,
  -- counted from the last tick, unless both parts are 0; no other timer or task changes. Else nothing
  -- changes.
  pub set_timeout-IsTimed :
      (id timeout_sec timeout_nsec : ℕ)
      → let (s', code) = set_timeout ops s id timeout_sec timeout_nsec in
        (is_resetting s.0 ≡ true) × (s' ≡ s) × (code ≡ in_reset)
        ⊎ (is_resetting s.0 ≡ false) × (find id s.0.tasks ≡ none) × (s' ≡ s) × (code ≡ not_found)
        ⊎ (is_resetting s.0 ≡ false)
          × (code ≡ success)
          × (s'.1 ≡ s.1)
          × IsTimed ops.get_id s.0 s'.0 id timeout_sec timeout_nsec
  unfolding set_timeout
  set_timeout-IsTimed id timeout_sec timeout_nsec = elim (Bool-cases (is_resetting s.0)) [
    | inl e ↦ inl (rw (e, set_timeout) (refl, refl, refl))
    | inr e ↦ elim (Option-cases (find id s.0.tasks)) [
      | inl f ↦ inr (inl (rw (e, f, set_timeout) (refl, refl, refl, refl)))
      | inr (n, f) ↦ inr (
          inr (
            rw (e, f, set_timeout)
              (
                refl,
                refl,
                refl,
                with_timer_known ops.get_id s.0 id n timeout_sec timeout_nsec c f,
              )))
    ]
  ]

  -- `add_task` of a task, on each branch: the new task is in the table under its id, with a timer
  -- counted from the last tick unless both parts of the timeout are 0; or the manager is as it was.
  pub add_task-IsTimed :
      (k timeout_sec timeout_nsec : ℕ)
      → let id = ops.get_id k in
        let (s', code) = add_task ops s (some k) timeout_sec timeout_nsec in
        (s'.0 ≡ s.0)
          × ((is_resetting s.0 ≡ true) × (code ≡ in_reset)
              ⊎ (ops.is_exiting s.1 k ≡ true) × (code ≡ task_is_exiting)
              ⊎ (find id s.0.tasks ≢ none) × (code ≡ already_exist)
              ⊎ ((ops.setup_task_manager s.1 k).1 ≡ false)
                × (code ≡ task_already_in_another_manager))
        ⊎ (code ≡ success)
          × (find id s.0.tasks ≡ none)
          × (s'.1 ≡ (ops.setup_task_manager s.1 k).0)
          × IsTimed ops.get_id s.0 s'.0 id timeout_sec timeout_nsec
  unfolding add_task add_node
  add_task-IsTimed k timeout_sec timeout_nsec = elim (Bool-cases (is_resetting s.0)) [
    | inl e ↦ inl (rw (e, add_task) (refl, inl (refl, refl)))
    | inr e ↦ elim (Bool-cases (ops.is_exiting s.1 k)) [
      | inl x ↦ inl (rw (e, x, add_task) (refl, inr (inl (refl, refl))))
      | inr x ↦ elim (Option-cases (find (ops.get_id k) s.0.tasks)) [
        | inr (n, f) ↦
            inl (rw (e, x, f, add_task, add_node) (refl, inr (inr (inl ((λ h. cc), refl)))))
        | inl f ↦ elim (Bool-cases (ops.setup_task_manager s.1 k).1) [
          | inr u ↦ inl (rw (e, x, f, u, add_task, add_node) (refl, inr (inr (inr (refl, refl)))))
          | inl u ↦ inr (
              rw (e, x, f, u, add_task, add_node)
                (refl, refl, refl, with_timer_new ops.get_id s.0 k timeout_sec timeout_nsec c f))
        ]
      ]
    ]
  ]

module _ {W : Type 0} (ops : TaskOps W) (keeps : Keeps ops) where
  drop_task-Consistent :
      (s : TaskManager × W) (o : Option ℕ)
      → Consistent ops.get_id s.0
      → Consistent ops.get_id (drop_task ops s o).0.0
  unfolding drop_task
  drop_task-Consistent s none c = c
  drop_task-Consistent s (some k) c =
      let s' : TaskManager × W = (s.0, ops.cleanup_task_manager s.1 k) in
      let at = status_rank (ops.get_status s'.1 k) in
      elim (Bool-cases (ltb (status_rank created) at && ltb at (status_rank done))) [
        | inl e ↦ rw (e, drop_task) (keeps.kill s' k killed 0 c)
        | inr e ↦ rw (e, drop_task) c
      ]

  remove_task-Consistent :
      (s : TaskManager × W) (id : ℕ) (o : Option ℕ)
      → Consistent ops.get_id s.0
      → Consistent ops.get_id (remove_task ops s id o).0.0
  unfolding remove_task
  remove_task-Consistent s id o c = elim (Bool-cases (is_resetting s.0)) [
    | inl e ↦ rw (e, remove_task) c
    | inr e ↦ elim (Option-cases (find id s.0.tasks)) [
      | inl f ↦ rw (e, f, remove_task) c
      | inr (n, f) ↦ elim (Bool-cases (is_confirmed o n)) [
        | inl y ↦
            rw (e, f, y, remove_task)
              (drop_task-Consistent (take s.0 id n, s.1) n.task_ptr
                (take-Consistent ops.get_id s.0 id n c f))
        | inr y ↦ rw (e, f, y, remove_task) c
      ]
    ]
  ]

  run_task-Consistent :
      (call : TaskManager × W → ℕ → ℕ → (TaskManager × W) × CoppErrorCode)
      → ((s : TaskManager × W) (k p : ℕ)
          → Consistent ops.get_id s.0
          → Consistent ops.get_id (call s k p).0.0)
      → (s : TaskManager × W) (id p : ℕ) → Consistent ops.get_id s.0
      → Consistent ops.get_id (run_task ops call s id p).0.0
  unfolding run_task
  run_task-Consistent call kept s id p c = elim (Bool-cases (is_resetting s.0)) [
    | inl e ↦ rw (e, run_task) c
    | inr e ↦ elim (Option-cases (find id s.0.tasks)) [
      | inl f ↦ rw (e, f, run_task) c
      | inr (n, f) ↦ elim (Option-cases n.task_ptr) [
        | inl t ↦ rw (e, f, t, run_task) c
        | inr (k, t) ↦
            let s' = (call s k p).0 in
            elim (Bool-cases (leb (status_rank done) (status_rank (ops.get_status s'.1 k)))) [
              | inl y ↦ rw (e, f, t, y, run_task) (remove_task-Consistent s' id none (kept s k p c))
              | inr y ↦ rw (e, f, t, y, run_task) (kept s k p c)
            ]
      ]
    ]
  ]

  end_task-Consistent :
      (call : TaskManager × W → ℕ → (TaskManager × W) × CoppErrorCode)
      → ((s : TaskManager × W) (k : ℕ)
          → Consistent ops.get_id s.0
          → Consistent ops.get_id (call s k).0.0)
      → (s : TaskManager × W) (id : ℕ) → Consistent ops.get_id s.0
      → Consistent ops.get_id (end_task ops call s id).0.0
  unfolding end_task
  end_task-Consistent call kept s id c = elim (Bool-cases (is_resetting s.0)) [
    | inl e ↦ rw (e, end_task) c
    | inr e ↦ elim (Option-cases (find id s.0.tasks)) [
      | inl f ↦ rw (e, f, end_task) c
      | inr (n, f) ↦
          let taken = take-Consistent ops.get_id s.0 id n c f in
          elim (Option-cases n.task_ptr) [
            | inl t ↦ rw (e, f, t, end_task) taken
            | inr (k, t) ↦
                rw (e, f, t, end_task)
                  (kept (take s.0 id n, ops.cleanup_task_manager s.1 k) k taken)
          ]
    ]
  ]

  -- Every operation that calls a task leaves a consistent manager consistent, on every branch.
  pub calls-Consistent :
      (s : TaskManager × W) (id p : ℕ) (o : Option ℕ) (st : TaskStatus)
      → Consistent ops.get_id s.0
      → Consistent ops.get_id (remove_task ops s id o).0.0
        × Consistent ops.get_id (start ops s id p).0.0
        × Consistent ops.get_id (resume ops s id p).0.0
        × Consistent ops.get_id (cancel ops s id p).0.0
        × Consistent ops.get_id (kill ops s id st p).0.0
  unfolding start resume cancel kill
  calls-Consistent s id p o st c = (
    remove_task-Consistent s id o c,
    run_task-Consistent ops.start keeps.start s id p c,
    run_task-Consistent ops.resume keeps.resume s id p c,
    end_task-Consistent (λ s' k. ops.cancel s' k p) (λ s' k. keeps.cancel s' k p) s id c,
    end_task-Consistent (λ s' k. ops.kill s' k st p) (λ s' k. keeps.kill s' k st p) s id c,
  )
