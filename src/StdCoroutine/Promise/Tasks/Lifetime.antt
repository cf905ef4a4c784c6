-- ===== src/StdCoroutine/Promise/Tasks/Lifetime.antt =====
-- How a task ends: its coroutine is run to the end and destroyed with its context.
use libcopp.Base.{ℕ, zero, suc, ◌-◌, true, Option, none, some, ltb, ◌==◌, if◌then◌else◌, update}
use libcopp.StdCoroutine.Callers.{null_delegate}
use libcopp.StdCoroutine.Promise.{
  done, killed, status_rank, destroying, has_returned, check_flag, set_flag, set_status,
  with_promise, final_await_suspend,
}
use libcopp.StdCoroutine.Promise.Tasks.{
  Tasks, TaskRuntime, context_of, with_context, is_pending, set_value, unbound, move_context,
}

module _ {T : Type 0} where
  -- The first part of `force_finish`.
  unfoldable pub kill_unfinished : Tasks T → ℕ → Tasks T
  unfolding set_status
  kill_unfinished w c = elim (context_of w c).current_handle.promise [
    | none ↦ w
    | some p ↦
        if ltb (status_rank (w.promises p).status) (status_rank done)
        then with_promise w p (set_status (w.promises p) killed none).0
        else w
  ]

  abbrev pub unfinished_promise : Tasks T → Option ℕ → ℕ → Option ℕ
  unfinished_promise w none h = none
  unfinished_promise w (some p) h = if check_flag (w.promises p) has_returned then none else some h

  -- The coroutine that the loop of `force_finish` resumes, `none` where the loop ends.
  unfoldable pub unfinished : Tasks T → ℕ → Option ℕ
  unfolding check_flag
  unfinished w c =
      let d = (context_of w c).current_handle in
      elim d.handle [
        | none ↦ none
        | some h ↦ if w.is_done h then none else unfinished_promise w d.promise h
      ]

  -- An owner of the context goes.
  abbrev pub disown : Tasks T → ℕ → Tasks T
  disown w c = record w {
    others = record w.others { use_count = update w.others.use_count c (w.others.use_count c - 1) };
  }

module _ {T : Type 0} (rt : TaskRuntime T) where
  -- `none` when the loop does not end in `fuel` rounds.
  unfoldable pub finish_loop : ℕ → Tasks T → ℕ → Option (Tasks T)
  unfolding unfinished
  finish_loop zero w c = none
  finish_loop (suc fuel) w c = elim (unfinished w c) [
    | none ↦ some w
    | some h ↦ finish_loop fuel (rt.resume w h) c
  ]

  unfoldable pub force_finish : ℕ → Tasks T → ℕ → Option (Tasks T)
  unfolding finish_loop kill_unfinished
  force_finish fuel w c = finish_loop fuel (kill_unfinished w c) c

  unfoldable pub mark_destroying : Tasks T → Option ℕ → Tasks T
  unfolding set_flag
  mark_destroying w none = w
  mark_destroying w (some p) = with_promise w p (set_flag (w.promises p) destroying true)

  unfoldable pub destroy_handle : Tasks T → Option ℕ → Tasks T
  destroy_handle w none = w
  destroy_handle w (some h) = rt.destroy w h

  unfoldable pub force_destroy : Tasks T → ℕ → Tasks T
  unfolding mark_destroying destroy_handle
  force_destroy w c =
      let d = (context_of w c).current_handle in
      let w' = with_context w c (record (context_of w c) { current_handle = null_delegate }) in
      destroy_handle (mark_destroying w' d.promise) d.handle

  -- `~task_context_delegate` of a value, then `~task_context_base`.
  unfoldable pub destroy_context : ℕ → Tasks T → ℕ → Option (Tasks T)
  unfolding force_finish force_destroy is_pending set_value
  destroy_context fuel w c =
      let w' = if is_pending w c then set_value w c (rt.error_transform killed) else w in
      elim (force_finish fuel w' c) [ none ↦ none | some w'' ↦ some (force_destroy w'' c) ]

  -- The last owner destroys the context.
  unfoldable pub release : ℕ → Tasks T → ℕ → Option (Tasks T)
  unfolding destroy_context
  release fuel w c =
      if w.others.use_count c - 1 == 0
      then destroy_context fuel (disown w c) c
      else some (disown w c)

  unfoldable pub unbind_from_manager : Tasks T → ℕ → Tasks T
  unbind_from_manager w c = elim (context_of w c).binding_manager_ptr [
    | none ↦ unbound w c
    | some m ↦ elim (context_of w c).binding_manager_fn [
      | none ↦ unbound w c
      | some f ↦ rt.notify (unbound w c) f m c
    ]
  ]

  -- `final_awaitable::await_suspend`; `none` also where the promise has no context.
  unfoldable pub task_final_await_suspend : ℕ → Tasks T → ℕ → Option (Tasks T)
  unfolding unbind_from_manager release move_context
  task_final_await_suspend fuel w p =
      let (w', context) = move_context w p in
      elim context [
        | none ↦ none
        | some c ↦ release fuel (final_await_suspend rt.resume (unbind_from_manager w' c) p) c
      ]
