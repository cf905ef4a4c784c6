-- ===== src/Task/Accesses.antt =====
-- The accesses to the shared state that the calls of a task are made of (task.h).
use libcopp.Base.{
  [], ℕ, ◌+◌, Bool, true, false, ◌||◌, none, some, ◌∷◌, ◌++◌, ltb, leb, ◌==◌, if◌then◌else◌,
}
use libcopp.Errno.{CoppErrorCode, success, not_inited, is_running, not_ready, already_finished}
use libcopp.TaskManager.Manager.{TaskStatus, running, waiting, done, canceled, status_rank}
use libcopp.Task.{
  Turn, at_rest, at_work, at_end, Task, same_status, is_exiting, is_completed, cas_status, code,
  flag, handle, Pc, outside, start_loop, start_co, start_done, start_wait, notify_loop, notify_in,
  notify_end, cancel_loop, kill_loop, kill_store, next_push, Call, start, resume, cancel, kill,
  next, setup_task_manager, cleanup_task_manager,
}

-- The test of `next`; the turn of the next task has come at once if this one is exiting.
unfoldable pub try_next : Task → ℕ → ℕ → Task × Pc
unfolding is_exiting is_completed
try_next t n p =
    if is_exiting t || is_completed t
    then (record t { activated = t.activated ++ ((n, p) ∷ []) }, outside (handle n))
    else (t, next_push n p)

-- `setup_task_manager` and `cleanup_task_manager`
unfoldable pub bind_manager : Task → ℕ → Task × Pc
bind_manager t m = elim t.binding_manager [
  | none ↦ (record t { binding_manager = some m }, outside (flag true))
  | some _ ↦ (t, outside (flag false))
]

unfoldable pub unbind_manager : Task → ℕ → Task × Pc
unbind_manager t m = elim t.binding_manager [
  | none ↦ (t, outside (flag false))
  | some m' ↦
      if m' == m
      then (record t { binding_manager = none }, outside (flag true))
      else (t, outside (flag false))
]

unfoldable pub first_start : Task → ℕ → TaskStatus → Task × Pc
first_start t p expected = elim t.coroutine_obj [
  | none ↦ (t, outside (code not_inited))
  | some _ ↦ (t, start_loop p expected)
]

-- The first access of a call.
unfoldable pub begin : Task → Call → Task × Pc
unfolding first_start try_next bind_manager unbind_manager
begin t (start p expected) = first_start t p expected
begin t (resume p) = first_start t p waiting
begin t (cancel p) = (t, cancel_loop p t.status)
begin t (kill status p) = (t, kill_loop status p t.status)
begin t (next n p) = try_next t n p
begin t (setup_task_manager m) = bind_manager t m
begin t (cleanup_task_manager m) = unbind_manager t m

-- The head of the loop of `start`.
unfoldable pub try_start : Bool → Task → ℕ → TaskStatus → Task × Pc
unfolding cas_status
try_start spurious t p from =
    if leb (status_rank done) (status_rank from)
    then (t, outside (code already_finished))
    else if same_status from running
    then (t, outside (code is_running))
    else let (stored, seen, t') = cas_status spurious t from running in
      if stored then (t', start_co p) else (t', start_loop p seen)

-- `coroutine_obj_->start` or `resume`, up to where the coroutine runs, as one access: that the
-- context of a coroutine is `EN_CRS_READY` again some accesses before it has left is not seen here.
unfoldable pub enter_co : Task → Pc → (CoppErrorCode → Pc) → Task × Pc
enter_co t inside back = elim t.coroutine_obj [
  | none ↦ (t, back not_inited)
  | some at_rest ↦ (record t { coroutine_obj = some at_work }, inside)
  | some at_work ↦ (t, back is_running)
  | some at_end ↦ (t, back not_ready)
]

abbrev pub after_co : Task → Turn → Task
after_co t turn = record t { coroutine_obj = some turn }

unfoldable pub try_done : Bool → Task → ℕ → CoppErrorCode → TaskStatus → Task × Pc
unfolding cas_status
try_done spurious t p ret from =
    if ltb (status_rank from) (status_rank done)
    then (let (stored, seen, t') = cas_status spurious t from done in
        if stored
        then (record t' { finish_priv_data = p }, notify_loop p ret)
        else (t', start_done p ret seen))
    else (record t { finish_priv_data = p }, notify_loop p ret)

unfoldable pub try_wait : Bool → Task → CoppErrorCode → TaskStatus → Task × Pc
unfolding cas_status
try_wait spurious t ret from =
    if leb (status_rank done) (status_rank from)
    then (t, notify_loop t.finish_priv_data ret)
    else let (stored, seen, t') = cas_status spurious t from waiting in
      if stored then (t', outside (code ret)) else (t', start_wait ret seen)

-- A `cancel` or `kill` that took the task.
abbrev pub count_late : Task → TaskStatus → Task
count_late t from =
    if leb (status_rank done) (status_rank from) then record t { late = t.late + 1 } else t

unfoldable pub try_cancel : Bool → Task → ℕ → TaskStatus → Task × Pc
unfolding cas_status
try_cancel spurious t p from =
    if same_status running from
    then (t, outside (code is_running))
    else let (stored, seen, t') = cas_status spurious t from canceled in
      if stored then (count_late t' from, notify_loop p success) else (t', cancel_loop p seen)

unfoldable pub try_kill : Bool → Task → TaskStatus → ℕ → TaskStatus → Task × Pc
unfolding cas_status
try_kill spurious t status p from =
    let (stored, seen, t') = cas_status spurious t from status in
    if stored
    then if same_status running from
      then (t', kill_store p)
      else (count_late t' from, notify_loop p success)
    else (t', kill_loop status p seen)

-- The loop of `_notify_finished`: it resumes the coroutine until that has finished.
unfoldable pub notify_round : Task → ℕ → CoppErrorCode → Task × Pc
unfolding enter_co
notify_round t p ret = elim t.coroutine_obj [
  | none ↦ (t, notify_end p ret)
  | some at_end ↦ (t, notify_end p ret)
  | some _ ↦ enter_co t (notify_in p ret) (λ _. notify_loop p ret)
]

-- `task_impl::_notify_finished`
unfoldable pub notify_impl : Task → ℕ → Task
notify_impl t p = record t { finish_priv_data = p; on_finished_calls = t.on_finished_calls + 1 }

-- `active_next_tasks`: the list and the binding are taken under the lock.
unfoldable pub active_next_tasks : Task → Task
active_next_tasks t = record t {
  next_list = [];
  binding_manager = none;
  activated = t.activated ++ t.next_list;
  told = elim t.binding_manager [ none ↦ t.told | some m ↦ m ∷ t.told ];
}
