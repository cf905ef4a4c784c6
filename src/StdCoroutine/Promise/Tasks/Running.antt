-- ===== src/StdCoroutine/Promise/Tasks/Running.antt =====
-- `start`, `kill` and `cancel` of `task_future_base`.
use libcopp.Base.{
  ℕ, zero, suc, Bool, true, false, not, ◌&&◌, ◌||◌, Option, none, some, ltb, leb, if◌then◌else◌,
}
use libcopp.StdCoroutine.Promise.{
  PromiseStatus, created, running, done, cancle, status_rank, destroying, has_returned, check_flag,
  set_status, is_waiting, with_promise,
}
use libcopp.StdCoroutine.Promise.Tasks.{Tasks, TaskRuntime, context_of, with_context}
use libcopp.StdCoroutine.Promise.Tasks.Futures.{future_context}

module _ {T : Type 0} where
  abbrev pub set_lock : Tasks T → ℕ → Bool → Tasks T
  set_lock w c b = with_context w c (record (context_of w c) { is_locked = b })

  -- The tests of `start` under the lock, with the handle and the promise of the task to run.
  unfoldable pub take_created : Tasks T → Option ℕ → Option ℕ → Tasks T × Option (ℕ × ℕ)
  unfolding set_status
  take_created w none promise = (w, none)
  take_created w (some h) none = (w, none)
  take_created w (some h) (some p) =
      if w.is_done h
      then (w, none)
      else (let (p', is_set, e) = set_status (w.promises p) running (some created) in
          (with_promise w p p', if is_set then some (h, p) else none))

  -- `start` up to the resumption of the task, the lock free again.
  unfoldable pub begin : Tasks T → ℕ → Tasks T × Option (ℕ × ℕ)
  unfolding take_created
  begin w c =
      let d = (context_of w c).current_handle in
      let (w', taken) = take_created (set_lock w c true) d.handle d.promise in
      (set_lock w' c false, taken)

  -- The flags that keep a task from being resumed.
  unfoldable pub may_resume : Tasks T → ℕ → Bool
  unfolding check_flag
  may_resume w p =
      not (check_flag (w.promises p) has_returned) && not (check_flag (w.promises p) destroying)

  -- A round of the loop in `kill`: `none` where it goes round again, else the world, the result, and
  -- the handle to resume. A task with no promise has the status `invalid` and is left alone.
  unfoldable pub kill_promise :
      Tasks T → Option ℕ → Option ℕ → PromiseStatus → Bool → Option (Tasks T × Bool × Option ℕ)
  unfolding set_status may_resume is_waiting
  kill_promise w none promise target force_resume = some (w, false, none)
  kill_promise w (some h) none target force_resume = some (w, false, none)
  kill_promise w (some h) (some p) target force_resume =
      let current_status = (w.promises p).status in
      let (p', is_set, e) = set_status (w.promises p) target (some current_status) in
      let w' = with_promise w p p' in
      if w.is_done h
      then some (w, false, none)
      else if leb (status_rank done) (status_rank current_status)
      then some (w, false, none)
      else if not is_set
      then none
      else some
          (w', true, if (force_resume || is_waiting p') && may_resume w' p then some h else none)

  unfoldable pub kill_round :
      Tasks T → ℕ → PromiseStatus → Bool → Option (Tasks T × Bool × Option ℕ)
  unfolding kill_promise
  kill_round w c target force_resume =
      let d = (context_of w c).current_handle in
      kill_promise w d.handle d.promise target force_resume

  -- The loop, which ends at once where the future has no context.
  unfoldable pub kill_loop :
      ℕ → Tasks T → ℕ → ℕ → PromiseStatus → Bool → Option (Tasks T × Bool × Option ℕ)
  unfolding kill_round future_context
  kill_loop zero w f c target force_resume = none
  kill_loop (suc fuel) w f c target force_resume = elim (future_context w f) [
    | none ↦ some (w, true, none)
    | some c' ↦ elim (kill_round w c target force_resume) [
      | none ↦ kill_loop fuel w f c target force_resume
      | some r ↦ some r
    ]
  ]

module _ {T : Type 0} (rt : TaskRuntime T) where
  unfoldable pub start : Tasks T → ℕ → Tasks T × Bool
  unfolding begin may_resume future_context
  start w f = elim (future_context w f) [
    | none ↦ (w, false)
    | some c ↦
        if (context_of w c).is_locked
        then (w, false)
        else (let (w', taken) = begin w c in
            elim taken [
              | none ↦ (w', false)
              | some (h, p) ↦ (if may_resume w' p then rt.resume w' h else w', true)
            ])
  ]

  -- The task runs under the lock.
  unfoldable pub run_killed : Tasks T → ℕ → Option ℕ → Tasks T
  run_killed w c none = set_lock w c false
  run_killed w c (some h) = set_lock (rt.resume w h) c false

  unfoldable pub kill_locked : ℕ → Tasks T → ℕ → ℕ → PromiseStatus → Bool → Option (Tasks T × Bool)
  unfolding kill_loop run_killed
  kill_locked fuel w f c target force_resume = elim (context_of w c).current_handle.handle [
    | none ↦ some (w, false)
    | some h ↦ elim (kill_loop fuel (set_lock w c true) f c target force_resume) [
      | none ↦ none
      | some (w', ret, to_resume) ↦ some (run_killed w' c to_resume, ret)
    ]
  ]

  -- `none` when the loop does not end in `fuel` rounds.
  unfoldable pub kill : ℕ → Tasks T → ℕ → PromiseStatus → Bool → Option (Tasks T × Bool)
  unfolding kill_locked future_context
  kill fuel w f target force_resume =
      if ltb (status_rank target) (status_rank done)
      then some (w, false)
      else elim (future_context w f) [
        | none ↦ some (w, false)
        | some c ↦
            if (context_of w c).is_locked
            then some (w, false)
            else kill_locked fuel w f c target force_resume
      ]

  unfoldable pub cancel : ℕ → Tasks T → ℕ → Bool → Option (Tasks T × Bool)
  unfolding kill
  cancel fuel w f force_resume = kill fuel w f cancle force_resume
