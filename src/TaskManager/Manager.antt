-- ===== src/TaskManager/Manager.antt =====
-- `task_manager<task<...>>`. One operation runs at a time under `action_lock_`, which is free while
-- a task is called: what the task does then, it may do to the manager, too. Built with
-- `LIBCOTASK_MACRO_AUTO_CLEANUP_MANAGER` and without exceptions.
pub mod Invariant
pub mod Freed
pub mod Timing
pub mod Operations
pub mod Expiry
pub mod FirstTick
pub mod Deadlines
pub mod WithTasks
pub mod Futures
mod Tests
use libcopp.Base.{
  ℕ, zero, suc, ◌+◌, Bool, true, false, not, ◌&&◌, ◌||◌, Option, none, some, List, [], ◌∷◌, ltb,
  leb, ◌==◌, if◌then◌else◌,
}
use libcopp.Errno.{
  CoppErrorCode, success, args_error, in_reset, task_is_exiting, already_exist, not_found,
  task_already_in_another_manager,
}
use libcopp.TaskManager.Timers.{
  TickSpec, tick_before, tick_until, TimerNode, insert, erase, shift, shift_all,
}
use libcopp.TaskManager.Table.{find, put, erase_key}

-- `EN_TASK_STATUS`
pub data TaskStatus : Type 0 where
  invalid created running waiting done canceled killed timeout : TaskStatus

abbrev pub status_rank : TaskStatus → ℕ
status_rank invalid = 0
status_rank created = 1
status_rank running = 2
status_rank waiting = 3
status_rank done = 4
status_rank canceled = 5
status_rank killed = 6
status_rank timeout = 7

-- A task is known by its address, null is `none`. An iterator into the set of timers is the timer
-- that it points to, and `none` at the end.
pub record Node : Type 0 where
  pub task_ptr : Option ℕ
  pub timer_node : Option TimerNode

pub record TaskManager : Type 0 where
  pub tasks : List (ℕ × Node)
  pub last_tick_time : TickSpec
  pub task_timeout_timer : List TimerNode
  pub in_tick : Bool
  pub is_in_reset : Bool

abbrev pub new_manager : TaskManager
new_manager = record {
  tasks = [];
  last_tick_time = record { tv_sec = 0; tv_nsec = 0 };
  task_timeout_timer = [];
  in_tick = false;
  is_in_reset = false;
}

-- The tests of `flags_`.
pub is_resetting : TaskManager → Bool
is_resetting m = m.is_in_reset

pub is_ticking : TaskManager → Bool
is_ticking m = m.in_tick

-- What the manager asks of tasks, whose own state is `W`. A call that runs a task, or kills it, may
-- change the manager.
pub record TaskOps (W : Type 0) : Type 0 where
  pub get_id : ℕ → ℕ
  pub is_exiting : W → ℕ → Bool
  pub get_status : W → ℕ → TaskStatus
  pub setup_task_manager : W → ℕ → W × Bool
  pub cleanup_task_manager : W → ℕ → W
  pub start : TaskManager × W → ℕ → ℕ → (TaskManager × W) × CoppErrorCode
  pub resume : TaskManager × W → ℕ → ℕ → (TaskManager × W) × CoppErrorCode
  pub cancel : TaskManager × W → ℕ → ℕ → (TaskManager × W) × CoppErrorCode
  pub kill : TaskManager × W → ℕ → TaskStatus → ℕ → (TaskManager × W) × CoppErrorCode

pub remove_timeout_timer : List TimerNode → Node → List TimerNode × Node
remove_timeout_timer timers n = elim n.timer_node [
  | none ↦ (timers, n)
  | some t ↦ (erase t timers, record n { timer_node = none })
]

-- `set_timeout_timer`; `get_id` is the id of a task.
pub set_timeout_timer : (ℕ → ℕ) → TickSpec → List TimerNode → Node → ℕ → ℕ → List TimerNode × Node
unfolding remove_timeout_timer
set_timeout_timer get_id last timers n timeout_sec timeout_nsec =
    let (rest, n') = remove_timeout_timer timers n in
    if leb timeout_sec 0 && leb timeout_nsec 0 then (rest, n') else elim n'.task_ptr [
      | none ↦ (rest, n')
      | some k ↦
          let t : TimerNode = record {
            expired_time = record {
              tv_sec = last.tv_sec + timeout_sec;
              tv_nsec = last.tv_nsec + timeout_nsec;
            };
            task_id = get_id k;
          } in
          let (timers', is_new) = insert t rest in
          (timers', if is_new then record n' { timer_node = some t } else n')
    ]

-- Both, on the node of `id` in the table.
abbrev pub with_timer : (ℕ → ℕ) → TaskManager → ℕ → Node → ℕ → ℕ → TaskManager
with_timer get_id m id n timeout_sec timeout_nsec =
    let (timers, n') =
      set_timeout_timer get_id m.last_tick_time m.task_timeout_timer n timeout_sec timeout_nsec in
    record m { tasks = put id n' m.tasks; task_timeout_timer = timers }

-- The node leaves the table and its timer the set.
pub take : TaskManager → ℕ → Node → TaskManager
unfolding remove_timeout_timer
take m id n = record m {
  tasks = erase_key id m.tasks;
  task_timeout_timer = (remove_timeout_timer m.task_timeout_timer n).0;
}

-- `confirm_ptr` is null or the address that the task must have.
pub is_confirmed : Option ℕ → Node → Bool
is_confirmed none n = true
is_confirmed (some k) n = elim n.task_ptr [ none ↦ false | some k' ↦ k' == k ]

-- The nodes of the timers in the new set.
pub renew_one : TimerNode → List (ℕ × Node) → List (ℕ × Node)
renew_one t tasks = elim (find t.task_id tasks) [
  | none ↦ tasks
  | some n ↦ put t.task_id (record n { timer_node = some t }) tasks
]

pub renew : List TimerNode → List (ℕ × Node) → List (ℕ × Node)
unfolding renew_one
renew [] tasks = tasks
renew (t ∷ l) tasks = renew l (renew_one t tasks)

pub first_tick : TaskManager → TickSpec → TaskManager
unfolding renew
first_tick m now =
    let timers = shift_all now m.task_timeout_timer in
    record m { tasks = renew timers m.tasks; task_timeout_timer = timers; last_tick_time = now }

-- `tick` looks at the clock first: it does nothing for a time that is not after the last tick, and
-- the first tick is the one after time 0.
pub is_past : TaskManager → TickSpec → Bool
is_past m now =
    let last = m.last_tick_time in
    ltb now.tv_sec last.tv_sec || ((now.tv_sec == last.tv_sec) && leb now.tv_nsec last.tv_nsec)

pub is_first : TaskManager → Bool
is_first m = (m.last_tick_time.tv_sec == 0) && (m.last_tick_time.tv_nsec == 0)

module _ {W : Type 0} (ops : TaskOps W) where
  -- The end of `add_task`, past its first three tests.
  pub add_node : TaskManager × W → ℕ → ℕ → ℕ → (TaskManager × W) × CoppErrorCode
  unfolding set_timeout_timer
  add_node s k timeout_sec timeout_nsec =
      let (m, w) = s in
      let id = ops.get_id k in
      let (w', is_set_up) = ops.setup_task_manager w k in
      elim (find id m.tasks) [
        | some n ↦ (s, already_exist)
        | none ↦ if not is_set_up then ((m, w'), task_already_in_another_manager) else (
          (
            with_timer ops.get_id m id (record { task_ptr = some k; timer_node = none }) timeout_sec
                timeout_nsec,
            w',
          ),
          success,
        )
      ]

  pub add_task : TaskManager × W → Option ℕ → ℕ → ℕ → (TaskManager × W) × CoppErrorCode
  unfolding add_node
  add_task s none timeout_sec timeout_nsec = (s, args_error)
  add_task s (some k) timeout_sec timeout_nsec =
      if is_resetting s.0
      then (s, in_reset)
      else if ops.is_exiting s.1 k
      then (s, task_is_exiting)
      else add_node s k timeout_sec timeout_nsec

  pub set_timeout : TaskManager × W → ℕ → ℕ → ℕ → (TaskManager × W) × CoppErrorCode
  unfolding set_timeout_timer
  set_timeout s id timeout_sec timeout_nsec =
      if is_resetting s.0 then (s, in_reset) else elim (find id s.0.tasks) [
        | none ↦ (s, not_found)
        | some n ↦ ((with_timer ops.get_id s.0 id n timeout_sec timeout_nsec, s.1), success)
      ]

  -- What happens to a task that is out of the table, by `remove_task`.
  pub drop_task : TaskManager × W → Option ℕ → (TaskManager × W) × CoppErrorCode
  drop_task s none = (s, success)
  drop_task s (some k) =
      let s' : TaskManager × W = (s.0, ops.cleanup_task_manager s.1 k) in
      let at = status_rank (ops.get_status s'.1 k) in
      if ltb (status_rank created) at && ltb at (status_rank done)
      then ops.kill s' k killed 0
      else (s', success)

  pub remove_task : TaskManager × W → ℕ → Option ℕ → (TaskManager × W) × CoppErrorCode
  unfolding is_confirmed drop_task take
  remove_task s id confirm_ptr =
      if is_resetting s.0 then (s, in_reset) else elim (find id s.0.tasks) [
        | none ↦ (s, not_found)
        | some n ↦
            if is_confirmed confirm_ptr n
            then drop_task (take s.0 id n, s.1) n.task_ptr
            else (s, not_found)
      ]

  pub find_task : TaskManager × W → ℕ → Option ℕ
  find_task s id =
      if is_resetting s.0
      then none
      else elim (find id s.0.tasks) [ none ↦ none | some n ↦ n.task_ptr ]

  -- `start` and `resume` differ in the call of the task.
  pub run_task :
      (TaskManager × W → ℕ → ℕ → (TaskManager × W) × CoppErrorCode)
      → TaskManager × W
      → ℕ
      → ℕ
      → (TaskManager × W) × CoppErrorCode
  unfolding remove_task
  run_task call s id priv_data =
      if is_resetting s.0 then (s, in_reset) else elim (find id s.0.tasks) [
        | none ↦ (s, not_found)
        | some n ↦ elim n.task_ptr [
          | none ↦ (s, not_found)
          | some k ↦
              let (s', ret) = call s k priv_data in
              if leb (status_rank done) (status_rank (ops.get_status s'.1 k))
              then ((remove_task s' id none).0, ret)
              else (s', ret)
        ]
      ]

  pub start : TaskManager × W → ℕ → ℕ → (TaskManager × W) × CoppErrorCode
  unfolding run_task
  start s id priv_data = run_task ops.start s id priv_data

  pub resume : TaskManager × W → ℕ → ℕ → (TaskManager × W) × CoppErrorCode
  unfolding run_task
  resume s id priv_data = run_task ops.resume s id priv_data

  -- `cancel` and `kill` take the task out of the table first.
  pub end_task :
      (TaskManager × W → ℕ → (TaskManager × W) × CoppErrorCode)
      → TaskManager × W
      → ℕ
      → (TaskManager × W) × CoppErrorCode
  unfolding take
  end_task call s id = if is_resetting s.0 then (s, in_reset) else elim (find id s.0.tasks) [
    | none ↦ (s, not_found)
    | some n ↦ elim n.task_ptr [
      | none ↦ ((take s.0 id n, s.1), not_found)
      | some k ↦ call (take s.0 id n, ops.cleanup_task_manager s.1 k) k
    ]
  ]

  pub cancel : TaskManager × W → ℕ → ℕ → (TaskManager × W) × CoppErrorCode
  unfolding end_task
  cancel s id priv_data = end_task (λ s' k. ops.cancel s' k priv_data) s id

  pub kill : TaskManager × W → ℕ → TaskStatus → ℕ → (TaskManager × W) × CoppErrorCode
  unfolding end_task
  kill s id status priv_data = end_task (λ s' k. ops.kill s' k status priv_data) s id

  -- The end of `reset`: it calls every task that it found, and stops with `none` at a null one.
  pub kill_all : TaskManager × W → List (ℕ × Node) → Option (TaskManager × W)
  kill_all s [] = some s
  kill_all s (e ∷ l) = elim e.1.task_ptr [
    | none ↦ none
    | some k ↦ kill_all (if ops.is_exiting s.1 k then s else (ops.kill s k killed 0).0) l
  ]

  -- `flags_ = 0` clears the guard's own flag before the tasks are killed.
  pub reset : TaskManager × W → Option (TaskManager × W)
  unfolding kill_all
  reset s = if is_resetting s.0 then some s else elim (kill_all (new_manager, s.1) s.0.tasks) [
    | none ↦ none
    | some s' ↦ some (record s'.0 { is_in_reset = false }, s'.1)
  ]

  -- A task whose time is over, out of the table and off the lock.
  pub time_out : TaskManager × W → Option ℕ → TaskManager × W
  time_out s none = s
  time_out s (some k) =
      if ops.is_exiting s.1 k
      then s
      else (ops.kill (s.0, ops.cleanup_task_manager s.1 k) k timeout 0).0

  -- A round of the loop in `tick`, `none` where it ends.
  pub expire_first : TickSpec → TaskManager × W → List TimerNode → Option (TaskManager × W)
  unfolding time_out take
  expire_first now s [] = none
  expire_first now s (t ∷ l) =
      if tick_until now t.expired_time then none else elim (find t.task_id s.0.tasks) [
        | none ↦ some s
        | some n ↦ some (time_out (take s.0 t.task_id n, s.1) n.task_ptr)
      ]

  pub expire_round : TickSpec → TaskManager × W → Option (TaskManager × W)
  unfolding expire_first
  expire_round now s = expire_first now s s.0.task_timeout_timer

  pub expire : ℕ → TickSpec → TaskManager × W → Option (TaskManager × W)
  unfolding expire_round
  expire zero now s = none
  expire (suc fuel) now s = elim (expire_round now s) [
    | none ↦ some s
    | some s' ↦ expire fuel now s'
  ]

  -- `none` when the loop does not end in `fuel` rounds. The guard clears its flag at the end.
  pub tick : ℕ → TaskManager × W → ℕ → ℕ → Option ((TaskManager × W) × CoppErrorCode)
  unfolding first_tick expire
  tick fuel s sec nsec =
      let (m, w) = s in
      let now : TickSpec = record { tv_sec = sec; tv_nsec = nsec } in
      if is_past m now
      then some (s, success)
      else if is_ticking m
      then some (s, success)
      else if is_resetting m
      then some (s, in_reset)
      else if is_first m
      then some ((first_tick m now, w), success)
      else elim (expire fuel now (record m { in_tick = true }, w)) [
        | none ↦ none
        | some s' ↦ some ((record s'.0 { last_tick_time = now; in_tick = false }, s'.1), success)
      ]
