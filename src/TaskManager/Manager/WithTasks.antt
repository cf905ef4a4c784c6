-- ===== src/TaskManager/Manager/WithTasks.antt =====
-- The manager with the tasks of task.h, one call at a time that no thread disturbs, and its
-- callback (task_manager.h). The coroutines, the actions in on_finished and the next tasks of a task,
-- all of which may call the manager again, are not run: a call here is one of a task with none of these.
pub mod Running
mod Tests
use libcopp.Base.{
  ℕ, inl, inr, Bool, true, false, ◌&&◌, none, some, ltb, ◌==◌, if◌then◌else◌, Bool-cases, update,
}
use libcopp.Errno.{CoppErrorCode, success, unknown, in_reset, not_found}
use libcopp.TaskManager.Table.{find, erase_key, find-erase_key}
use libcopp.TaskManager.Manager.{
  Node, TaskManager, TaskOps, TaskStatus, created, waiting, done, killed, status_rank, is_resetting,
  take, is_confirmed, drop_task, remove_task, run_task, end_task, start, resume, cancel, kill,
}
use libcopp.TaskManager.Manager.Invariant.{Consistent}
use libcopp.TaskManager.Manager.Freed.{IsFreed, take-Consistent, remove_timeout_timer-IsFreed}
use libcopp.TaskManager.Manager.Operations.{Keeps, calls-Consistent}
use libcopp.Task.{Task, Turn, at_rest, Pc, outside, Answer, code, flag, Call}
use libcopp.Task
use libcopp.Task.Accesses.{begin, bind_manager, unbind_manager}
use libcopp.Task.Alone.{iterate, is_startable, start_alone, start_free, ended_as}

abbrev pub Tasks : Type 0
Tasks = ℕ → Task

abbrev pub answer_code : Pc → CoppErrorCode
answer_code (outside (code c)) = c
answer_code _ = unknown

abbrev pub answer_flag : Pc → Bool
answer_flag (outside (flag b)) = b
answer_flag _ = false

-- `self` is the address of the manager, and `runs_out` says of a task and private data whether the
-- coroutine runs to its end when it is started or resumed with them.
module _ (self : ℕ) (get_id : ℕ → ℕ) (runs_out : ℕ → ℕ → Bool) where
  -- Tasks that have ended, which `remove_task` does not call.
  abbrev pub ended_tasks : TaskOps Tasks
  ended_tasks = record {
    get_id = get_id;
    is_exiting = λ w k. Task.is_exiting (w k);
    get_status = λ w k. (w k).status;
    setup_task_manager =
        λ w k. let (t, pc) = bind_manager (w k) self in (update w k t, answer_flag pc);
    cleanup_task_manager = λ w k. update w k (unbind_manager (w k) self).0;
    start = λ s k p. (s, success);
    resume = λ s k p. (s, success);
    cancel = λ s k p. (s, success);
    kill = λ s k st p. (s, success);
  }

  -- A task calls it at its end, when it is bound to the manager.
  pub task_cleanup_callback : TaskManager × Tasks → ℕ → TaskManager × Tasks
  unfolding remove_task
  task_cleanup_callback s k = (remove_task ended_tasks s (get_id k) (some k)).0

  abbrev pub calls_back : Task → Task → Bool
  calls_back t t' =
      ltb t.on_finished_calls t'.on_finished_calls
      && (elim t.binding_manager [ none ↦ false | some m ↦ m == self ])

  pub call_task : Bool → Call → TaskManager × Tasks → ℕ → (TaskManager × Tasks) × CoppErrorCode
  unfolding task_cleanup_callback
  call_task is_last c s k =
      let (t, pc) = iterate is_last 9 (begin (s.1 k) c) in
      let s' : TaskManager × Tasks = (s.0, update s.1 k t) in
      (if calls_back (s.1 k) t then task_cleanup_callback s' k else s', answer_code pc)

  abbrev pub with_tasks : TaskOps Tasks
  with_tasks = record ended_tasks {
    start = λ s k p. call_task (runs_out k p) (Task.start p created) s k;
    resume = λ s k p. call_task (runs_out k p) (Task.resume p) s k;
    cancel = λ s k p. call_task true (Task.cancel p) s k;
    kill = λ s k st p. call_task true (Task.kill st p) s k;
  }

  ended_tasks-Keeps : Keeps ended_tasks
  ended_tasks-Keeps = record {
    start = λ s k p c. c;
    resume = λ s k p c. c;
    cancel = λ s k p c. c;
    kill = λ s k st p c. c;
  }

  call_task-Consistent :
      (is_last : Bool) (c : Call) (s : TaskManager × Tasks) (k : ℕ)
      → Consistent get_id s.0
      → Consistent get_id (call_task is_last c s k).0.0
  unfolding call_task task_cleanup_callback
  call_task-Consistent is_last c s k m =
      let t = (iterate is_last 9 (begin (s.1 k) c)).0 in
      elim (Bool-cases (calls_back (s.1 k) t)) [
        | inl e ↦
            rw (e, call_task)
              (calls-Consistent ended_tasks ended_tasks-Keeps (s.0, update s.1 k t) (get_id k) 0
                (some k) killed m).0
        | inr e ↦ rw (e, call_task) m
      ]

  -- So the tasks of task.h keep what the manager asks of tasks.
  pub with_tasks-Keeps : Keeps with_tasks
  with_tasks-Keeps = record {
    start = λ s k p c. call_task-Consistent (runs_out k p) (Task.start p created) s k c;
    resume = λ s k p c. call_task-Consistent (runs_out k p) (Task.resume p) s k c;
    cancel = λ s k p c. call_task-Consistent true (Task.cancel p) s k c;
    kill = λ s k st p c. call_task-Consistent true (Task.kill st p) s k c;
  }
