-- ===== src/Task/Tests.antt =====
-- A task whose coroutine has begun, with a manager and a next task, and two threads.
use libcopp.Base.{◌+◌, ◌≤◌, ◌<◌, ◌≡◌, refl, true, false, some, [], ◌∷◌, if◌then◌else◌, sum_by}
use libcopp.Errno.{success, not_inited}
use libcopp.TaskManager.Manager.{created, running, waiting, killed, canceled, timeout}
use libcopp.Task.{
  same_status, Turn, at_rest, at_work, at_end, Task, new_task, is_exiting, is_canceled, is_faulted,
  is_timeout, Pc, outside, code, start_loop, start_co, start_in, kill_loop, cas_status, start,
  resume, kill, cancel, notify_loop, notify_in, notify_end, notify_next,
}
use libcopp.Task.Accesses.{
  begin, first_start, try_start, try_kill, enter_co, notify_round, notify_impl, active_next_tasks,
}
use libcopp.Task.Threads.{
  begins, starts, enters, kills, notifies, finishes_at_last, ends, activates, System, acts, Reach,
  first, later,
}
use libcopp.Task.Phases.{owns, owes, Over}
use libcopp.Task.Ended.{on_finished_once, one_runner}
use libcopp.Task.Alone.{
  iterate, is_some, is_startable, started_as, ended_as, start_alone, cancel_alone,
}

abbrev waits_with_next : Task
waits_with_next = record (new_task true) {
  status = waiting;
  next_list = (7, 0) ∷ [];
  binding_manager = some 3;
}

-- One thread is in the coroutine, and the other has begun a call.
abbrev in_co : Task
in_co = record (new_task true) { status = running; coroutine_obj = some at_work }

abbrev two_threads : System
two_threads = (in_co, start_in 5 ∷ kill_loop killed 9 running ∷ [])

two_threads-Reach : Reach true 2 two_threads
unfolding begin first_start try_start enter_co cas_status
two_threads-Reach =
    later
      (later
        (later
          (later first (
            acts {s = (new_task true, start_loop 5 created)} [] (outside (code success) ∷ [])
              (begins (code success) (start 5 created) refl)))
          (acts {s = (record (new_task true) { status = running }, start_co 5)} []
            (outside (code success) ∷ []) (starts false 5 created)))
        (acts {s = (in_co, start_in 5)} [] (outside (code success) ∷ []) (enters 5)))
      (acts {s = (in_co, kill_loop killed 9 running)} (start_in 5 ∷ []) []
        (begins (code success) (kill killed 9) refl))

-- One thread has killed a new task, and has returned.
abbrev killed_new : Task
killed_new = ended_as (new_task true) killed 9

abbrev after_kill : Task → Pc → System
after_kill t pc = (t, pc ∷ [])

abbrev is_killed : Turn → Task
is_killed turn = record (new_task true) { status = killed; coroutine_obj = some turn }

killed_new-Reach : Reach true 1 (after_kill killed_new (outside (code success)))
unfolding begin try_kill cas_status notify_round enter_co notify_impl active_next_tasks
killed_new-Reach =
    let one : Reach true 1 (after_kill (new_task true) (kill_loop killed 9 created)) = later first (
      acts {s = (new_task true, kill_loop killed 9 created)} [] []
        (begins (code success) (kill killed 9) refl)) in
    let two : Reach true 1 (after_kill (is_killed at_rest) (notify_loop 9 success)) = later one (
      acts {s = (is_killed at_rest, notify_loop 9 success)} [] [] (kills false killed 9 created)) in
    let three : Reach true 1 (after_kill (is_killed at_work) (notify_in 9 success)) =
      later two (acts {s = (is_killed at_work, notify_in 9 success)} [] [] (notifies 9 success)) in
    let four : Reach true 1 (after_kill (is_killed at_end) (notify_loop 9 success)) =
      later three
        (acts {s = (is_killed at_end, notify_loop 9 success)} [] [] (finishes_at_last 9 success)) in
    let five : Reach true 1 (after_kill (is_killed at_end) (notify_end 9 success)) =
      later four (acts {s = (is_killed at_end, notify_end 9 success)} [] [] (notifies 9 success)) in
    let six : Reach true 1 (after_kill killed_new (notify_next success)) =
      later five (acts {s = (killed_new, notify_next success)} [] [] (ends 9 success)) in
    later six (acts {s = (killed_new, outside (code success))} [] [] (activates success))

on_finished_once_example :
    (killed_new.on_finished_calls ≤ 1 + killed_new.late)
    × (is_exiting killed_new ≡ false → killed_new.on_finished_calls ≡ 0)
    × (0 < killed_new.on_finished_calls → Over killed_new)
    × (is_exiting killed_new ≡ true
        → sum_by owns (outside (code success) ∷ []) ≡ 0
        → sum_by owes (outside (code success) ∷ []) ≡ 0
        → killed_new.on_finished_calls ≡ 1 + killed_new.late)
on_finished_once_example = on_finished_once killed_new-Reach

one_runner_example :
    (same_status in_co.status running ≡ true → sum_by owns two_threads.1 ≡ 1)
    × (same_status in_co.status running ≡ false
        → is_exiting in_co ≡ false
        → sum_by owns two_threads.1 ≡ 0)
    × (sum_by owns two_threads.1 ≤ 1)
one_runner_example = one_runner two_threads-Reach

start_alone_example :
    (iterate true 9 (begin waits_with_next (start 4 created)) ≡ (
      if is_some waits_with_next.coroutine_obj
      then (if is_startable created
          then started_as true waits_with_next 4 waiting
          else started_as true waits_with_next 4 created)
      else (waits_with_next, outside (code not_inited))))
    × (iterate true 9 (begin waits_with_next (resume 4))
        ≡ iterate true 9 (begin waits_with_next (start 4 waiting)))
start_alone_example = start_alone true waits_with_next 4 created (λ h k. refl)

cancel_alone_example :
    (iterate true 6 (begin waits_with_next (cancel 4))
      ≡ (ended_as waits_with_next canceled 4, outside (code success)))
    × (iterate true 6 (begin waits_with_next (kill timeout 4))
        ≡ (ended_as waits_with_next timeout 4, outside (code success)))
cancel_alone_example = cancel_alone true waits_with_next 4 timeout (λ h k. cc)

-- The statuses that the tests of a task tell apart.
tells_apart :
    (is_canceled (record waits_with_next { status = canceled }) ≡ true)
    × (is_faulted (record waits_with_next { status = canceled }) ≡ false)
    × (is_faulted (record waits_with_next { status = timeout }) ≡ true)
    × (is_timeout (record waits_with_next { status = killed }) ≡ false)
unfolding is_canceled is_faulted is_timeout
tells_apart = (refl, refl, refl, refl)
