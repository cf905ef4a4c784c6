-- ===== src/StdCoroutine/Promise/Tasks/Awaitable.antt =====
-- `task_awaitable`, by which a coroutine waits for a task, and the part of a task in `some`.
use libcopp.Base.{
  ℕ, Bool, true, false, not, ◌||◌, Option, none, some, ltb, leb, ◌==◌, if◌then◌else◌,
}
use libcopp.StdCoroutine.Callers.{HandleDelegate, null_delegate}
use libcopp.StdCoroutine.Promise.{
  PromiseStatus, invalid, done, killed, status_rank, internal_waitting, set_flag, with_promise,
}
use libcopp.StdCoroutine.Promise.Tasks.{
  Tasks, TaskRuntime, context_of, with_context, is_ready, context_add_caller, context_remove_caller,
  has_multiple_callers, data_of,
}
use libcopp.StdCoroutine.Promise.Tasks.Futures.{future_context, is_exiting}

-- With the `caller_` of `awaitable_base_type`.
pub record TaskAwaitable : Type 0 where
  pub context : Option ℕ
  pub caller : HandleDelegate

-- `operator co_await`
pub co_await : {T : Type 0} → Tasks T → ℕ → TaskAwaitable
unfolding future_context
co_await w f = record { context = future_context w f; caller = null_delegate }

module _ {T : Type 0} where
  unfoldable pub await_ready : Tasks T → TaskAwaitable → Bool
  unfolding is_ready
  await_ready w a = elim a.context [
    | none ↦ true
    | some c ↦ is_ready w c || elim (context_of w c).current_handle.promise [
      | none ↦ true
      | some p ↦ leb (status_rank done) (status_rank (w.promises p).status)
    ]
  ]

  abbrev pub set_internal_waitting : Tasks T → ℕ → Bool → Tasks T
  set_internal_waitting w p b = with_promise w p (set_flag (w.promises p) internal_waitting b)

  -- The caller is the coroutine `h` of the promise `p`.
  unfoldable pub await_suspend : Tasks T → TaskAwaitable → ℕ → ℕ → (Tasks T × TaskAwaitable) × Bool
  unfolding set_flag context_add_caller
  await_suspend w a h p =
      let caller : HandleDelegate = record { handle = some h; promise = some p } in
      elim a.context [
        | none ↦ ((w, a), false)
        | some c ↦
            if ltb (status_rank (w.promises p).status) (status_rank done)
            then (
              (
                set_internal_waitting (context_add_caller w c caller) p true,
                record a { caller = caller },
              ),
              true,
            )
            else ((w, a), false)
      ]

  -- The result with no regard to the caller.
  unfoldable pub own_result : Tasks T → Option ℕ → PromiseStatus
  unfolding is_ready
  own_result w none = invalid
  own_result w (some c) = if is_ready w c then done else killed

  unfoldable pub caller_result : Tasks T → Option ℕ → HandleDelegate → PromiseStatus
  unfolding own_result
  caller_result w none caller = own_result w none
  caller_result w (some c) caller =
      if is_ready w c
      then own_result w (some c)
      else elim caller.promise [ none ↦ own_result w (some c) | some p ↦ (w.promises p).status ]

  unfoldable pub clear_waitting : Tasks T → Option ℕ → Tasks T
  unfolding set_flag
  clear_waitting w none = w
  clear_waitting w (some p) = set_internal_waitting w p false

  unfoldable pub leave_context : Tasks T → Option ℕ → HandleDelegate → Tasks T
  unfolding context_remove_caller
  leave_context w none caller = w
  leave_context w (some c) caller = context_remove_caller w c caller

  unfoldable pub detach : Tasks T → TaskAwaitable → (Tasks T × TaskAwaitable) × PromiseStatus
  unfolding own_result caller_result clear_waitting leave_context
  detach w a = elim a.caller.handle [
    | none ↦ ((w, a), own_result w a.context)
    | some h ↦
        let w' = clear_waitting w a.caller.promise in
        (
          (leave_context w' a.context a.caller, record a { caller = null_delegate }),
          caller_result w' a.context a.caller,
        )
  ]

  -- `await_resume` of a task of nothing.
  pub await_resume_void : Tasks T → TaskAwaitable → Tasks T × TaskAwaitable
  unfolding detach
  await_resume_void w a = (detach w a).0

  unfoldable pub awaits_with_others : Tasks T → TaskAwaitable → Bool
  unfolding has_multiple_callers
  awaits_with_others w a = elim a.context [ none ↦ false | some c ↦ has_multiple_callers w c ]

  -- `some_delegate_task_action`
  pub suspend_future : Tasks T → ℕ → HandleDelegate → Tasks T
  unfolding context_add_caller
  suspend_future w f caller = elim (future_context w f) [
    | none ↦ w
    | some c ↦ context_add_caller w c caller
  ]

  pub resume_future : Tasks T → ℕ → HandleDelegate → Tasks T
  unfolding context_remove_caller
  resume_future w f caller = elim (future_context w f) [
    | none ↦ w
    | some c ↦ context_remove_caller w c caller
  ]

  pub is_future_pending : Tasks T → ℕ → Bool
  unfolding is_exiting
  is_future_pending w f = not (is_exiting w f)

module _ {T : Type 0} (rt : TaskRuntime T) where
  -- The value of a task that is done; its only caller may move it out. `none` stands for a
  -- dereferenced null.
  unfoldable pub take_value : Tasks T → ℕ → Bool → Tasks T × Option T
  unfolding data_of
  take_value w c is_shared = elim (data_of w c) [
    | none ↦ (w, none)
    | some v ↦ (
      if is_shared
          then w
          else with_context w c (record (context_of w c) { value = some (rt.move_from v) }),
      some v,
    )
  ]

  unfoldable pub await_resume : Tasks T → TaskAwaitable → (Tasks T × TaskAwaitable) × Option T
  unfolding detach awaits_with_others take_value
  await_resume w a =
      let is_shared = awaits_with_others w a in
      let ((w', a'), status) = detach w a in
      if not (status_rank status == status_rank done)
      then ((w', a'), some (rt.error_transform status))
      else elim a'.context [
        | none ↦ ((w', a'), some (rt.error_transform invalid))
        | some c ↦ let (w'', v) = take_value w' c is_shared in ((w'', a'), v)
      ]
