-- ===== src/TaskManager/Manager/Futures/Tests.antt =====
-- Task 5, which runs, in a manager that has ticked at time 100. The state of the tasks is their
-- status; a task that is started ends.
use libcopp.Base.{
  ℕ, ◌≢◌, if◌then◌else◌, ◌≡◌, refl, ◌⊎◌, true, false, ◌||◌, none, some, [], ◌∷◌, leb, ◌==◌, update,
}
use libcopp.Errno.{CoppErrorCode, success, pos, code_value}
use libcopp.StdCoroutine.Promise
use libcopp.StdCoroutine.Promise.{PromiseStatus}
use libcopp.TaskManager.Table.{find, erase_key}
use libcopp.TaskManager.Manager.{
  Node, TaskManager, new_manager, is_resetting, is_confirmed, add_task, set_timeout, remove_task,
  cancel, kill, tick,
}
use libcopp.TaskManager.Manager.Futures.{
  FutureOps, drop_future, add_future, set_future_timeout, remove_future, start_future, kill_future,
  cancel_future, tick_futures,
}
use libcopp.TaskManager.Manager.Futures.Agreement.{as_tasks, as_task_status, futures-Agree}
use libcopp.TaskManager.Manager.Futures.Starting.{
  IsStatus, Removed, runs, without, start_future-Removed, remove_future_value,
}

abbrev Statuses : Type 0
Statuses = ℕ → PromiseStatus

abbrev ending : FutureOps Statuses
ending = record {
  get_id = λ k. k;
  is_exiting = λ w k. let status = Promise.status_rank (w k) in leb 3 status || (status == 0);
  get_status = λ w k. w k;
  setup_task_manager = λ w k. (w, true);
  cleanup_task_manager = λ w k. w;
  start = λ s k. ((s.0, update s.1 k Promise.done), true);
  kill = λ s k status. ((s.0, update s.1 k status), true);
}

ending-IsStatus : IsStatus ending
ending-IsStatus = record { is_exiting_lem = λ w k. refl; cleanup_status = λ w k. refl }

abbrev five : Node
five = record { task_ptr = some 5; timer_node = none }

abbrev with_five : TaskManager × Statuses
with_five = (
  record new_manager {
    tasks = (5, five) ∷ [];
    last_tick_time = record { tv_sec = 100; tv_nsec = 0 };
  },
  λ k. Promise.running,
)

futures-Agree_example :
    (add_future ending with_five (some 6) 30 0 ≡ add_task (as_tasks ending) with_five (some 6) 30 0)
    × (set_future_timeout ending with_five 5 30 0 ≡ set_timeout (as_tasks ending) with_five 5 30 0)
    × ((remove_future ending with_five 5 none).0
        ≡ (remove_task (as_tasks ending) with_five 5 none).0)
    × (kill_future ending with_five 5 Promise.timeout
        ≡ kill (as_tasks ending) with_five 5 (as_task_status Promise.timeout) 0)
    × (cancel_future ending with_five 5 ≡ cancel (as_tasks ending) with_five 5 0)
    × (tick_futures ending 2 with_five 30 0 ≡ tick (as_tasks ending) 2 with_five 30 0)
futures-Agree_example = futures-Agree ending with_five 5 6 0 2 30 0 none Promise.timeout

start_future-Removed_example :
    let s1 = (ending.start with_five 5).0 in
    let (s', code) = start_future ending with_five 5 in
    (code ≡ success)
    × ((ending.is_exiting s1.1 5 ≡ false) × (s' ≡ s1)
        ⊎ (ending.is_exiting s1.1 5 ≡ true) × Removed ending s1 5 5 s')
unfolding is_resetting find
start_future-Removed_example =
    start_future-Removed ending ending-IsStatus with_five 5 5 five refl refl refl

remove_future_value_example :
    let (s, w) = with_five in
    let unbound : TaskManager × Statuses = (without s 5 five, w) in
    let (s1, is_killed) = ending.kill unbound 5 Promise.killed in
    let (s', value) = remove_future ending with_five 5 none in
    (runs (ending.get_status w 5) ≡ true
      → (s' ≡ s1) × (value ≡ (if is_killed then pos 1 else pos 0)))
    × (runs (ending.get_status w 5) ≡ false → (s' ≡ unbound) × (value ≡ pos 0))
    × ((c : CoppErrorCode) → code_value c ≢ pos 1)
unfolding is_resetting find is_confirmed
remove_future_value_example =
    remove_future_value ending ending-IsStatus with_five 5 5 none five refl refl refl refl

-- A task that is removed while it runs gives 1.
removed_value : (remove_future ending with_five 5 none).1 ≡ pos 1
unfolding remove_future drop_future is_resetting find is_confirmed
removed_value = refl

-- The started task is done and out of the table.
started_is_out : (start_future ending with_five 5).0.0.tasks ≡ []
unfolding start_future is_resetting find erase_key
started_is_out = refl
