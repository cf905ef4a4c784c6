-- ===== src/TaskManager/Manager/Futures.antt =====
-- `task_manager<task_future<...>>`, the manager of the tasks that are C++20 coroutines. It has the
-- fields of the manager of stackful tasks. A future is known by its context, an empty one is `none`.
pub mod Agreement
pub mod Starting
mod Tests
use libcopp.Base.{
  ℕ, zero, suc, ◌+◌, ◌-◌, ◌*◌, ◌/◌, ◌%◌, ◌^◌, ◌≤◌, ◌<◌, ◌≡◌, refl, sym, ap, ◌∙◌, subst, ◌≢◌, ◌↔◌,
  ◌⊎◌, inl, inr, Bool, true, false, not, ◌&&◌, ◌||◌, Option, none, some, List, [], ◌∷◌, ◌++◌, map,
  arith, ltb, leb, ◌==◌, if◌then◌else◌, size_mod, Bool-cases, Option-cases, length, is_empty,
  length-append, All, All-append, All-parts, All-mono, sum_by, sum_by-append, update,
}
use libcopp.Errno.{
  ℤ, pos, negsuc, code_value, CoppErrorCode, success, in_reset, task_is_exiting, already_exist,
  not_found, task_already_in_another_manager,
}
use libcopp.StdCoroutine.Promise
use libcopp.StdCoroutine.Promise.{PromiseStatus}
use libcopp.TaskManager.Timers.{TickSpec, TimerNode, tick_until}
use libcopp.TaskManager.Table.{find}
use libcopp.TaskManager.Manager.{
  Node, TaskManager, new_manager, is_resetting, is_ticking, set_timeout_timer, with_timer, take,
  is_confirmed, first_tick, is_past, is_first,
}

-- What the manager asks of a task that is not empty, by its context; the state of the tasks is `W`.
-- A call that runs a task may change the manager.
pub record FutureOps (W : Type 0) : Type 0 where
  pub get_id : ℕ → ℕ
  pub is_exiting : W → ℕ → Bool
  pub get_status : W → ℕ → PromiseStatus
  pub setup_task_manager : W → ℕ → W × Bool
  pub cleanup_task_manager : W → ℕ → W
  pub start : TaskManager × W → ℕ → (TaskManager × W) × Bool
  pub kill : TaskManager × W → ℕ → PromiseStatus → (TaskManager × W) × Bool

-- The conversion of a truth value to `int`.
abbrev pub as_int : Bool → ℤ
as_int true = pos 1
as_int false = pos 0

module _ {W : Type 0} (ops : FutureOps W) where
  -- The end of `add_task`, under the lock.
  pub insert_future : TaskManager × W → ℕ → ℕ → ℕ → (TaskManager × W) × CoppErrorCode
  unfolding set_timeout_timer
  insert_future s k timeout_sec timeout_nsec =
      let (m, w) = s in
      let id = ops.get_id k in
      elim (find id m.tasks) [
        | some n ↦ (s, already_exist)
        | none ↦
            let (w', is_set_up) = ops.setup_task_manager w k in
            let n : Node = record { task_ptr = some k; timer_node = none } in
            if is_set_up
            then ((with_timer ops.get_id m id n timeout_sec timeout_nsec, w'), success)
            else ((m, w'), task_already_in_another_manager)
      ]

  -- An empty future has the status `kInvalid`, with which it is exiting.
  pub add_future : TaskManager × W → Option ℕ → ℕ → ℕ → (TaskManager × W) × CoppErrorCode
  unfolding insert_future
  add_future s none timeout_sec timeout_nsec =
      if is_resetting s.0 then (s, in_reset) else (s, task_is_exiting)
  add_future s (some k) timeout_sec timeout_nsec =
      if is_resetting s.0
      then (s, in_reset)
      else if ops.is_exiting s.1 k
      then (s, task_is_exiting)
      else insert_future s k timeout_sec timeout_nsec

  pub set_future_timeout : TaskManager × W → ℕ → ℕ → ℕ → (TaskManager × W) × CoppErrorCode
  unfolding set_timeout_timer
  set_future_timeout s id timeout_sec timeout_nsec =
      if is_resetting s.0 then (s, in_reset) else elim (find id s.0.tasks) [
        | none ↦ (s, not_found)
        | some n ↦ ((with_timer ops.get_id s.0 id n timeout_sec timeout_nsec, s.1), success)
      ]

  -- What happens to a task that is out of the table, by `remove_task`.
  pub drop_future : TaskManager × W → Option ℕ → (TaskManager × W) × ℤ
  drop_future s none = (s, code_value success)
  drop_future s (some k) =
      let s' : TaskManager × W = (s.0, ops.cleanup_task_manager s.1 k) in
      let at = Promise.status_rank (ops.get_status s'.1 k) in
      if ltb (Promise.status_rank Promise.created) at && ltb at (Promise.status_rank Promise.done)
      then (let (s'', is_killed) = ops.kill s' k Promise.killed in (s'', as_int is_killed))
      else (s', code_value success)

  -- `remove_task`, with the context that is to be confirmed or null. It returns an `int`: a code, or
  -- the truth value that `kill` of the task returned.
  pub remove_future : TaskManager × W → ℕ → Option ℕ → (TaskManager × W) × ℤ
  unfolding is_confirmed drop_future take
  remove_future s id confirm_context =
      if is_resetting s.0 then (s, code_value in_reset) else elim (find id s.0.tasks) [
        | none ↦ (s, code_value not_found)
        | some n ↦
            if is_confirmed confirm_context n
            then drop_future (take s.0 id n, s.1) n.task_ptr
            else (s, code_value not_found)
      ]

  pub find_future : TaskManager × W → ℕ → Option (Option ℕ)
  find_future s id =
      if is_resetting s.0
      then none
      else elim (find id s.0.tasks) [ none ↦ none | some n ↦ some n.task_ptr ]

  -- `start` drops what the start of the task returns, and removes it if it is exiting.
  pub start_task : TaskManager × W → ℕ → ℕ → TaskManager × W
  unfolding remove_future
  start_task s id k =
      let (s', is_started) = ops.start s k in
      if ops.is_exiting s'.1 k then (remove_future s' id (some k)).0 else s'

  pub start_future : TaskManager × W → ℕ → (TaskManager × W) × CoppErrorCode
  unfolding start_task
  start_future s id = if is_resetting s.0 then (s, in_reset) else elim (find id s.0.tasks) [
    | none ↦ (s, not_found)
    | some n ↦ elim n.task_ptr [ none ↦ (s, not_found) | some k ↦ (start_task s id k, success) ]
  ]

  -- `kill`, and `cancel` with the target `kCancle`: the task leaves the table first.
  pub kill_future : TaskManager × W → ℕ → PromiseStatus → (TaskManager × W) × CoppErrorCode
  unfolding take
  kill_future s id target_status =
      if is_resetting s.0 then (s, in_reset) else elim (find id s.0.tasks) [
        | none ↦ (s, not_found)
        | some n ↦ elim n.task_ptr [
          | none ↦ ((take s.0 id n, s.1), not_found)
          | some k ↦ (
            (ops.kill (take s.0 id n, ops.cleanup_task_manager s.1 k) k target_status).0,
            success,
          )
        ]
      ]

  pub cancel_future : TaskManager × W → ℕ → (TaskManager × W) × CoppErrorCode
  unfolding kill_future
  cancel_future s id = kill_future s id Promise.cancle

  -- The end of `reset`: each task that is not exiting is unbound and killed.
  pub kill_one : TaskManager × W → Option ℕ → TaskManager × W
  kill_one s none = s
  kill_one s (some k) =
      if ops.is_exiting s.1 k
      then s
      else (ops.kill (s.0, ops.cleanup_task_manager s.1 k) k Promise.killed).0

  pub kill_futures : TaskManager × W → List (ℕ × Node) → TaskManager × W
  unfolding kill_one
  kill_futures s [] = s
  kill_futures s (e ∷ l) = kill_futures (kill_one s e.1.task_ptr) l

  -- `flags_ = 0` clears the guard's own flag before the tasks are killed.
  pub reset_futures : TaskManager × W → TaskManager × W
  unfolding kill_futures
  reset_futures s =
      if is_resetting s.0
      then s
      else (let s' = kill_futures (new_manager, s.1) s.0.tasks in
          (record s'.0 { is_in_reset = false }, s'.1))

  -- A task whose time is over, out of the table and off the lock.
  pub time_out_future : TaskManager × W → Option ℕ → TaskManager × W
  time_out_future s none = s
  time_out_future s (some k) =
      if ops.is_exiting s.1 k
      then s
      else (ops.kill (s.0, ops.cleanup_task_manager s.1 k) k Promise.timeout).0

  -- A round of the loop in `tick`, `none` where it ends. With no task under the timer's id the
  -- future is empty, and nothing changes.
  pub expire_future : TickSpec → TaskManager × W → List TimerNode → Option (TaskManager × W)
  unfolding time_out_future take
  expire_future now s [] = none
  expire_future now s (t ∷ l) =
      if tick_until now t.expired_time then none else elim (find t.task_id s.0.tasks) [
        | none ↦ some s
        | some n ↦ some (time_out_future (take s.0 t.task_id n, s.1) n.task_ptr)
      ]

  pub expire_futures : ℕ → TickSpec → TaskManager × W → Option (TaskManager × W)
  unfolding expire_future
  expire_futures zero now s = none
  expire_futures (suc fuel) now s = elim (expire_future now s s.0.task_timeout_timer) [
    | none ↦ some s
    | some s' ↦ expire_futures fuel now s'
  ]

  -- `none` when the loop does not end in `fuel` rounds.
  pub tick_futures : ℕ → TaskManager × W → ℕ → ℕ → Option ((TaskManager × W) × CoppErrorCode)
  unfolding first_tick expire_futures
  tick_futures fuel s sec nsec =
      let (m, w) = s in
      let now : TickSpec = record { tv_sec = sec; tv_nsec = nsec } in
      if is_past m now
      then some (s, success)
      else if is_ticking m
      then some (s, success)
      else if is_resetting m
      then some (s, in_reset)
      else if is_first m
      then some ((first_tick m now, w), success)
      else elim (expire_futures fuel now (record m { in_tick = true }, w)) [
        | none ↦ none
        | some s' ↦ some ((record s'.0 { last_tick_time = now; in_tick = false }, s'.1), success)
      ]
