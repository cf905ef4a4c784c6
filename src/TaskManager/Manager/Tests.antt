-- ===== src/TaskManager/Manager/Tests.antt =====
-- Tasks whose state is a status each, known by their id, which only report what became of them.
use libcopp.Base.{
  ℕ, ◌+◌, ◌*◌, ◌<◌, ◌≡◌, refl, ◌≢◌, ◌⊎◌, true, false, none, some, arith, leb, length, update,
}
use libcopp.Errno.{
  CoppErrorCode, success, in_reset, task_is_exiting, already_exist, not_found,
  task_already_in_another_manager,
}
use libcopp.TaskManager.Timers.{TimerNode, tick_until, has, insert}
use libcopp.TaskManager.Table.{find, put}
use libcopp.TaskManager.Manager.{
  TaskManager, TaskOps, TaskStatus, created, waiting, done, canceled, killed, status_rank,
  new_manager, add_task, set_timeout, remove_task, start, resume, cancel, kill, tick, is_resetting,
  with_timer, set_timeout_timer, remove_timeout_timer,
}
use libcopp.TaskManager.Manager.Invariant.{Consistent, Consistent-same, new_manager-Consistent}
use libcopp.TaskManager.Manager.Timing.{IsTimed, with_timer_new}
use libcopp.TaskManager.Manager.Operations.{
  Keeps, set_timeout-IsTimed, add_task-IsTimed, calls-Consistent,
}
use libcopp.TaskManager.Manager.Expiry.{IsQuiet}
use libcopp.TaskManager.Manager.Deadlines.{at_time, Ticked, tick-Ticked, set_timeout_early}

abbrev States : Type 0
States = ℕ → TaskStatus

abbrev becomes : TaskManager × States → ℕ → TaskStatus → (TaskManager × States) × CoppErrorCode
becomes s k st = ((s.0, update s.1 k st), success)

abbrev plain : TaskOps States
plain = record {
  get_id = λ k. k;
  is_exiting = λ w k. leb (status_rank done) (status_rank (w k));
  get_status = λ w k. w k;
  setup_task_manager = λ w k. (w, true);
  cleanup_task_manager = λ w k. w;
  start = λ s k p. becomes s k waiting;
  resume = λ s k p. becomes s k done;
  cancel = λ s k p. becomes s k canceled;
  kill = λ s k st p. becomes s k st;
}

plain-Keeps : Keeps plain
plain-Keeps = record {
  start = λ s k p c. c;
  resume = λ s k p c. c;
  cancel = λ s k p c. c;
  kill = λ s k st p c. c;
}

plain-IsQuiet : IsQuiet plain
plain-IsQuiet = record { keeps = plain-Keeps; kill = λ s k st p. omega arith }

-- Last ticked at second 5, nanosecond 900000000.
abbrev ticked : TaskManager
ticked = record new_manager { last_tick_time = record { tv_sec = 5; tv_nsec = 900000000 } }

ticked-Consistent : Consistent (λ k. k) ticked
ticked-Consistent =
    Consistent-same (λ k. k) new_manager ticked refl refl (new_manager-Consistent (λ k. k))

abbrev one_task : TaskManager × States
one_task = (
  with_timer (λ k. k) ticked 4 (record { task_ptr = some 4; timer_node = none }) 3 0,
  λ k. created,
)

one_task-Consistent : Consistent (λ k. k) one_task.0
unfolding find
one_task-Consistent = (with_timer_new (λ k. k) ticked 4 3 0 ticked-Consistent refl).consistent

set_timeout-IsTimed_example :
    let (s', code) = set_timeout plain one_task 4 0 200000000 in
    (is_resetting one_task.0 ≡ true) × (s' ≡ one_task) × (code ≡ in_reset)
    ⊎ (is_resetting one_task.0 ≡ false)
      × (find 4 one_task.0.tasks ≡ none)
      × (s' ≡ one_task)
      × (code ≡ not_found)
    ⊎ (is_resetting one_task.0 ≡ false)
      × (code ≡ success)
      × (s'.1 ≡ one_task.1)
      × IsTimed plain.get_id one_task.0 s'.0 4 0 200000000
set_timeout-IsTimed_example = set_timeout-IsTimed plain one_task one_task-Consistent 4 0 200000000

add_task-IsTimed_example :
    let (s', code) = add_task plain one_task (some 6) 2 0 in
    (s'.0 ≡ one_task.0)
      × ((is_resetting one_task.0 ≡ true) × (code ≡ in_reset)
          ⊎ (plain.is_exiting one_task.1 6 ≡ true) × (code ≡ task_is_exiting)
          ⊎ (find 6 one_task.0.tasks ≢ none) × (code ≡ already_exist)
          ⊎ ((plain.setup_task_manager one_task.1 6).1 ≡ false)
            × (code ≡ task_already_in_another_manager))
    ⊎ (code ≡ success)
      × (find 6 one_task.0.tasks ≡ none)
      × (s'.1 ≡ (plain.setup_task_manager one_task.1 6).0)
      × IsTimed plain.get_id one_task.0 s'.0 6 2 0
add_task-IsTimed_example = add_task-IsTimed plain one_task one_task-Consistent 6 2 0

calls-Consistent_example :
    Consistent plain.get_id (remove_task plain one_task 4 none).0.0
    × Consistent plain.get_id (start plain one_task 4 9).0.0
    × Consistent plain.get_id (resume plain one_task 4 9).0.0
    × Consistent plain.get_id (cancel plain one_task 4 9).0.0
    × Consistent plain.get_id (kill plain one_task 4 killed 9).0.0
calls-Consistent_example =
    calls-Consistent plain plain-Keeps one_task 4 9 none killed one_task-Consistent

one_timer : length one_task.0.task_timeout_timer < 2
unfolding set_timeout_timer remove_timeout_timer insert
one_timer = ground arith

tick-Ticked_example :
    (s' : TaskManager × States) × (code : CoppErrorCode) × (tick plain 2 one_task 9 0
      ≡ some (s', code))
    × Consistent plain.get_id s'.0
    × Ticked one_task (at_time 9 0) s' code
tick-Ticked_example = tick-Ticked plain one_task 2 9 0 plain-IsQuiet one_task-Consistent one_timer

one_task-known : find 4 one_task.0.tasks ≢ none
unfolding set_timeout_timer remove_timeout_timer insert find put
one_task-known h = cc

one_task-free : is_resetting one_task.0 ≡ false
unfolding is_resetting
one_task-free = refl

set_timeout_early_example :
    (t : TimerNode) × (has t (set_timeout plain one_task 4 0 200000000).0.0.task_timeout_timer
      ≡ true)
    × (t.task_id ≡ 4)
    × (tick_until (at_time (5 + 1) 0) t.expired_time ≡ false)
    × ((5 + 1) * 1000000000 < 5 * 1000000000 + 900000000 + 200000000)
set_timeout_early_example =
    set_timeout_early plain one_task 4 200000000 one_task-Consistent one_task-free one_task-known
      (ground arith) (ground arith)

abbrev untimed : TaskManager
untimed = with_timer (λ k. k) new_manager 4 (record { task_ptr = some 4; timer_node = none }) 3 0

untimed-Consistent : Consistent (λ k. k) untimed
unfolding find
untimed-Consistent =
    (with_timer_new (λ k. k) new_manager 4 3 0 (new_manager-Consistent (λ k. k)) refl).consistent
