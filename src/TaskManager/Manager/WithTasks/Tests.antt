-- ===== src/TaskManager/Manager/WithTasks/Tests.antt =====
-- A manager with one task, bound to it and with a timer.
use libcopp.Base.{ℕ, refl, Bool, true, none, some, ◌==◌}
use libcopp.TaskManager.Table.{find, put}
use libcopp.TaskManager.Timers.{TimerNode, insert}
use libcopp.TaskManager.Manager.{
  TaskManager, new_manager, with_timer, start, resume, is_resetting, set_timeout_timer,
  remove_timeout_timer,
}
use libcopp.TaskManager.Manager.Invariant.{Consistent, new_manager-Consistent}
use libcopp.TaskManager.Manager.Timing.{with_timer_new}
use libcopp.TaskManager.Manager.WithTasks.{Tasks, with_tasks}
use libcopp.TaskManager.Manager.WithTasks.Running.{Ran, start-Ran}
use libcopp.Task.{new_task}

abbrev same_id : ℕ → ℕ
same_id k = k

abbrev ends_at : ℕ → ℕ → Bool
ends_at k p = p == 9

abbrev node_of : TaskManager × Tasks
node_of = (
  with_timer same_id new_manager 4 (record { task_ptr = some 4; timer_node = none }) 3 0,
  λ k. record (new_task true) { binding_manager = some 1 },
)

node_of-Consistent : Consistent same_id node_of.0
unfolding find
node_of-Consistent =
    (with_timer_new same_id new_manager 4 3 0 (new_manager-Consistent same_id) refl).consistent

-- Three seconds after the last tick.
abbrev timer_of : TimerNode
timer_of = record { expired_time = record { tv_sec = 3; tv_nsec = 0 }; task_id = 4 }

start-Ran_example :
    Ran 1 same_id ends_at node_of 4 9 (start (with_tasks 1 same_id ends_at) node_of 4 9)
    × Ran 1 same_id ends_at node_of 4 9 (resume (with_tasks 1 same_id ends_at) node_of 4 9)
unfolding is_resetting find put set_timeout_timer remove_timeout_timer insert
start-Ran_example =
    start-Ran 1 same_id ends_at node_of 4 9
      (record { task_ptr = some 4; timer_node = some timer_of }) node_of-Consistent refl refl refl
      refl refl refl refl
