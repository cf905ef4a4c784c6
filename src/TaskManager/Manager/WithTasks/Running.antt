-- ===== src/TaskManager/Manager/WithTasks/Running.antt =====
-- What start and resume of the manager make of its tasks.
use libcopp.Base.{
  ℕ, ◌+◌, ◌≤◌, ◌≡◌, refl, sym, ap, ◌∙◌, subst, ◌⊎◌, inl, inr, Bool, true, false, ◌&&◌, none, some,
  [], arith, ltb, leb, ◌==◌, if◌then◌else◌, Bool-cases, update,
}
use libcopp.Errno.{CoppErrorCode, success}
use libcopp.TaskManager.Table.{find, find-erase_key}
use libcopp.TaskManager.Manager.{
  Node, TaskManager, created, waiting, done, status_rank, is_resetting, take, is_confirmed,
  drop_task, remove_task, run_task, start, resume,
}
use libcopp.TaskManager.Manager.Invariant.{Consistent}
use libcopp.TaskManager.Manager.Freed.{IsFreed, remove_timeout_timer-IsFreed}
use libcopp.Task.{Task, Turn, at_rest, Pc, outside, Answer, code, flag, Call}
use libcopp.Task
use libcopp.TaskManager.Manager.WithTasks.{
  Tasks, task_cleanup_callback, calls_back, call_task, with_tasks,
}
use libcopp.Task.Accesses.{begin, unbind_manager}
use libcopp.Task.Alone.{iterate, is_startable, start_alone, start_free, ended_as}

module _ (self : ℕ) (get_id : ℕ → ℕ) (runs_out : ℕ → ℕ → Bool) where
  -- The callback takes a task that has ended out of the manager.
  callback-ended :
      (s : TaskManager × Tasks) (k : ℕ) (n : Node)
      → is_resetting s.0 ≡ false
      → find (get_id k) s.0.tasks ≡ some n
      → n.task_ptr ≡ some k
      → 4 ≤ status_rank (s.1 k).status
      → (s.1 k).binding_manager ≡ none
      → (task_cleanup_callback self get_id runs_out) s k
        ≡ (take s.0 (get_id k) n, update s.1 k (s.1 k))
  unfolding task_cleanup_callback remove_task is_confirmed drop_task unbind_manager
  callback-ended s k n r f at e b =
      let confirmed : is_confirmed (some k) n ≡ true = ground (arith, at) in
      let unbound : (unbind_manager (s.1 k) self).0 ≡ s.1 k = simp (b, unbind_manager) refl in
      let itself : (k == k) ≡ true = ground arith in
      let over : (ltb 1 (status_rank (s.1 k).status) && ltb (status_rank (s.1 k).status) 4)
          ≡ false =
        ground (arith, e) in
      simp
        (r, f, confirmed, at, drop_task, unbound, itself, over, task_cleanup_callback, remove_task)
        refl

  -- A call that ends a task of the manager takes it out.
  call-ended :
      (is_last : Bool) (c : Call) (s : TaskManager × Tasks) (k : ℕ) (n : Node) (t : Task)
      → is_resetting s.0 ≡ false
      → find (get_id k) s.0.tasks ≡ some n
      → n.task_ptr ≡ some k
      → 4 ≤ status_rank t.status
      → t.binding_manager ≡ none
      → (calls_back self get_id runs_out) (s.1 k) t ≡ true
      → iterate is_last 9 (begin (s.1 k) c) ≡ (t, outside (code success))
      → (call_task self get_id runs_out) is_last c s k
        ≡ ((take s.0 (get_id k) n, update (update s.1 k t) k (update s.1 k t k)), success)
  unfolding call_task
  call-ended is_last c s k n t r f at e b back i =
      let itself : (k == k) ≡ true = ground arith in
      simp (i, back, call_task)
        (ap (λ x. (x, success))
          (callback-ended (s.0, update s.1 k t) k n r f at (rw itself e) (rw itself b)))

  -- One that does not end it changes only the task.
  call-waits :
      (is_last : Bool) (c : Call) (s : TaskManager × Tasks) (k : ℕ) (t : Task)
      → (calls_back self get_id runs_out) (s.1 k) t ≡ false
      → iterate is_last 9 (begin (s.1 k) c) ≡ (t, outside (code success))
      → (call_task self get_id runs_out) is_last c s k ≡ ((s.0, update s.1 k t), success)
  unfolding call_task
  call-waits is_last c s k t back i = simp (i, back, call_task) refl

  take-resetting :
      (m : TaskManager) (id : ℕ) (n : Node) → is_resetting (take m id n) ≡ is_resetting m
  unfolding is_resetting take
  take-resetting m id n = refl

  take-gone : (m : TaskManager) (id : ℕ) (n : Node) → find id (take m id n).tasks ≡ none
  unfolding take
  take-gone m id n =
      let itself : (id == id) ≡ true = ground arith in find-erase_key id id m.tasks ∙ rw itself refl

  take-IsFreed :
      (m : TaskManager) (id : ℕ) (n : Node)
      → Consistent get_id m
      → find id m.tasks ≡ some n
      → IsFreed m id (take m id n).task_timeout_timer
  unfolding take
  take-IsFreed m id n c e = remove_timeout_timer-IsFreed get_id m id n c e

  run_task-gone :
      (call : TaskManager × Tasks → ℕ → ℕ → (TaskManager × Tasks) × CoppErrorCode)
      (s : TaskManager × Tasks) (k : ℕ) (n : Node) (p : ℕ) (w : Tasks)
      → is_resetting s.0 ≡ false
      → find (get_id k) s.0.tasks ≡ some n
      → n.task_ptr ≡ some k
      → call s k p ≡ ((take s.0 (get_id k) n, w), success)
      → leb (status_rank done) (status_rank (w k).status) ≡ true
      → run_task (with_tasks self get_id runs_out) call s (get_id k) p
        ≡ ((take s.0 (get_id k) n, w), success)
  unfolding run_task remove_task
  run_task-gone call s k n p w r f at c e =
      let out = take-resetting s.0 (get_id k) n ∙ r in
      simp (r, f, at, c, e, out, take-gone s.0 (get_id k) n, run_task, remove_task) refl

  run_task-stays :
      (call : TaskManager × Tasks → ℕ → ℕ → (TaskManager × Tasks) × CoppErrorCode)
      (s : TaskManager × Tasks) (k : ℕ) (n : Node) (p : ℕ) (w : Tasks)
      → is_resetting s.0 ≡ false
      → find (get_id k) s.0.tasks ≡ some n
      → n.task_ptr ≡ some k
      → call s k p ≡ ((s.0, w), success)
      → leb (status_rank done) (status_rank (w k).status) ≡ false
      → run_task (with_tasks self get_id runs_out) call s (get_id k) p ≡ ((s.0, w), success)
  unfolding run_task
  run_task-stays call s k n p w r f at c e = simp (r, f, at, c, e, run_task) refl

  -- What is left when the manager has run task `k`: the task has ended and has left the manager with
  -- its timer; or it waits, and the manager is as it was. No other task has changed.
  pub record Ran (s : TaskManager × Tasks) (k p : ℕ) (r : (TaskManager × Tasks) × CoppErrorCode)
      : Type 0 where
    pub code : r.1 ≡ success
    pub outcome :
        ((runs_out k p ≡ true)
          × (find (get_id k) r.0.0.tasks ≡ none)
          × IsFreed s.0 (get_id k) r.0.0.task_timeout_timer
          × (r.0.1 k ≡ ended_as (s.1 k) done p))
        ⊎ ((runs_out k p ≡ false) × (r.0.0 ≡ s.0) × (r.0.1 k ≡ record (s.1 k) { status = waiting }))
    pub others : (j : ℕ) → (k == j) ≡ false → r.0.1 j ≡ s.1 j

  module _ (s : TaskManager × Tasks) (k p : ℕ) (n : Node) where
    -- From a call whose accesses are those of a free task.
    run_task-Ran :
        (call : TaskManager × Tasks → ℕ → ℕ → (TaskManager × Tasks) × CoppErrorCode) (c : Call)
        → call s k p ≡ (call_task self get_id runs_out) (runs_out k p) c s k
        → Consistent get_id s.0
        → is_resetting s.0 ≡ false
        → find (get_id k) s.0.tasks ≡ some n
        → n.task_ptr ≡ some k
        → is_startable (s.1 k).status ≡ true
        → (s.1 k).binding_manager ≡ some self
        → iterate (runs_out k p) 9 (begin (s.1 k) c) ≡ (
          if runs_out k p then ended_as (s.1 k) done p else record (s.1 k) { status = waiting },
          outside (code success),
        )
        → Ran s k p (run_task (with_tasks self get_id runs_out) call s (get_id k) p)
    run_task-Ran call c q m r f at h b i = elim (Bool-cases (runs_out k p)) [
      | inl e ↦
          let t = ended_as (s.1 k) done p in
          let itself : (k == k) ≡ true = ground arith in
          let newer : ltb (s.1 k).on_finished_calls ((s.1 k).on_finished_calls + 1) ≡ true =
            ground arith in
          let own : (self == self) ≡ true = ground arith in
          let w = update (update s.1 k t) k (update s.1 k t k) in
          let at_k : w k ≡ t = rw itself refl in
          let ended =
            call-ended (runs_out k p) c s k n t r f at (omega arith) refl (rw (newer, b, own) refl)
              (i ∙ rw e refl) in
          subst (Ran s k p)
            (sym (
              run_task-gone call s k n p w r f at (q ∙ ended)
                (ap (λ x. leb 4 (status_rank x.status)) at_k)))
            record {
              code = refl;
              outcome =
                  inl (e, take-gone s.0 (get_id k) n, take-IsFreed s.0 (get_id k) n m f, at_k);
              others = λ j d. rw d refl;
            }
      | inr e ↦
          let t : Task = record (s.1 k) { status = waiting } in
          let itself : (k == k) ≡ true = ground arith in
          let older : ltb (s.1 k).on_finished_calls (s.1 k).on_finished_calls ≡ false =
            ground arith in
          let at_k : update s.1 k t k ≡ t = rw itself refl in
          let waits = call-waits (runs_out k p) c s k t (rw older refl) (i ∙ rw e refl) in
          subst (Ran s k p)
            (sym (
              run_task-stays call s k n p (update s.1 k t) r f at (q ∙ waits)
                (ap (λ x. leb 4 (status_rank x.status)) at_k)))
            record { code = refl; outcome = inr (e, refl, at_k); others = λ j d. rw d refl }
    ]

    -- A consistent manager that is not in a reset starts or resumes a task that it has and that is bound
    -- to it, when the task has no next tasks, is new or waits, and its coroutine is at rest: the task has ended and has left the manager with its timer, if its coroutine
    -- runs to its end; else it waits, and the manager is as it was. The code is success.
    pub start-Ran :
        Consistent get_id s.0
        → is_resetting s.0 ≡ false
        → find (get_id k) s.0.tasks ≡ some n
        → n.task_ptr ≡ some k
        → (s.1 k).next_list ≡ []
        → is_startable (s.1 k).status ≡ true
        → (s.1 k).coroutine_obj ≡ some at_rest
        → (s.1 k).binding_manager ≡ some self
        → Ran s k p (start (with_tasks self get_id runs_out) s (get_id k) p)
          × Ran s k p (resume (with_tasks self get_id runs_out) s (get_id k) p)
    unfolding start resume
    start-Ran m r f at _ h co b = (
      run_task-Ran (with_tasks self get_id runs_out).start (Task.start p created) refl m r f at h b
          (start_free (runs_out k p) (s.1 k) p created refl co h),
      run_task-Ran (with_tasks self get_id runs_out).resume (Task.resume p) refl m r f at h b (
          (start_alone (runs_out k p) (s.1 k) p created (λ _ _. co)).1
          ∙ start_free (runs_out k p) (s.1 k) p waiting refl co h),
    )
