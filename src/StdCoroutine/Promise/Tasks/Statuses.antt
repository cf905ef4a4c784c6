-- ===== src/StdCoroutine/Promise/Tasks/Statuses.antt =====
-- The status of a task's promise through everything that is done with the task.
use libcopp.Base.{
  ℕ, ◌≤◌, ◌≡◌, refl, inl, inr, Bool, false, Option, none, some, arith, ◌==◌, Bool-cases,
  Option-cases,
}
use libcopp.StdCoroutine.Callers.{HandleDelegate}
use libcopp.StdCoroutine.Promise.{
  PromiseStatus, status_rank, Promise, set_flag, set_status, with_promise, promise_add_caller,
  promise_remove_caller, inherits,
}
use libcopp.StdCoroutine.Promise.Tasks.{
  Tasks, TaskRuntime, context_of, context_add_caller, context_remove_caller, set_value,
  mark_returned, return_value, initial_await_resume,
}
use libcopp.StdCoroutine.Promise.Tasks.Lifetime.{kill_unfinished}
use libcopp.StdCoroutine.Promise.Tasks.Running.{take_created, begin}
use libcopp.StdCoroutine.Promise.Tasks.Awaitable.{
  TaskAwaitable, await_suspend, detach, clear_waitting, leave_context, take_value,
}

-- A status that is final stays, and one that is not `created` any more never is again.
abbrev pub Advances : PromiseStatus → PromiseStatus → Type 0
Advances a b =
    (3 ≤ status_rank a → status_rank b ≡ status_rank a) × (2 ≤ status_rank a → 2 ≤ status_rank b)

abbrev pub Later : {T : Type 0} → Tasks T → Tasks T → Type 0
Later w w' = (j : ℕ) → Advances (w.promises j).status (w'.promises j).status

mark_returned-Advances : (q : Promise) → Advances q.status (mark_returned q).status
unfolding mark_returned
mark_returned-Advances q = (λ h. ground arith, λ h. ground arith)

module _ {T : Type 0} where
  pub Later-refl : (w : Tasks T) → Later w w
  Later-refl w j = (λ h. refl, λ h. h)

  pub Later-trans : (u v w : Tasks T) → Later u v → Later v w → Later u w
  Later-trans u v w a b j = (λ h. omega (arith, (a j).0 h, (b j).0), λ h. (b j).1 ((a j).1 h))

  pub with_promise-Later :
      (w : Tasks T) (p : ℕ) (q : Promise)
      → Advances (w.promises p).status q.status
      → Later w (with_promise w p q)
  with_promise-Later w p q h j = elim (Bool-cases (p == j)) [
    | inl e ↦ let same : p ≡ j = ground (arith, e) in rw (e, ← same) h
    | inr e ↦ rw e (λ k. refl, λ k. k)
  ]

  pub return_value-Later : (w : Tasks T) (p : ℕ) (v : T) → Later w (return_value w p v)
  unfolding return_value set_value
  return_value-Later w p v j = elim (Option-cases (w.others.context_strong_ref p)) [
    | inl e ↦
        rw (e, return_value)
          (with_promise-Later w p (mark_returned (w.promises p)) (mark_returned-Advances _) j)
    | inr (c, e) ↦
        rw (e, return_value)
          (with_promise-Later w p (mark_returned (w.promises p)) (mark_returned-Advances _) j)
  ]

  pub initial_await_resume-Later : (w : Tasks T) (p : ℕ) → Later w (initial_await_resume w p)
  unfolding initial_await_resume set_status
  initial_await_resume-Later w p j = (λ h. ground arith, λ h. ground arith)

  pub kill_unfinished-Later : (w : Tasks T) (c : ℕ) → Later w (kill_unfinished w c)
  unfolding kill_unfinished set_status
  kill_unfinished-Later w c j = (λ h. ground arith, λ h. ground arith)

  remove_caller-Later :
      (w : Tasks T) (p : ℕ) (d : HandleDelegate) (b : Bool)
      → Later w (promise_remove_caller w p d b)
  unfolding promise_remove_caller inherits
  remove_caller-Later w p d b j = (λ h. ground arith, λ h. ground arith)

  pub begin-Later : (w : Tasks T) (c : ℕ) → Later w (begin w c).0
  unfolding begin take_created set_status
  begin-Later w c j = (λ h. ground arith, λ h. ground arith)

  pub take_value-Later :
      (rt : TaskRuntime T) (w : Tasks T) (c : ℕ) (b : Bool) → Later w (take_value rt w c b).0
  unfolding take_value
  take_value-Later rt w c b j = (λ h. ground arith, λ h. ground arith)

  pub await_suspend-Later :
      (w : Tasks T) (a : TaskAwaitable) (h p : ℕ) → Later w (await_suspend w a h p).0.0
  unfolding await_suspend context_add_caller promise_add_caller set_flag
  await_suspend-Later w a h p j = (λ h. ground arith, λ h. ground arith)

  clear_waitting-Later : (w : Tasks T) (p : Option ℕ) → Later w (clear_waitting w p)
  unfolding clear_waitting set_flag
  clear_waitting-Later w none j = Later-refl w j
  clear_waitting-Later w (some p) j = (λ h. ground arith, λ h. ground arith)

  leave_context-Later :
      (w : Tasks T) (c : Option ℕ) (d : HandleDelegate) → Later w (leave_context w c d)
  unfolding leave_context context_remove_caller
  leave_context-Later w none d = Later-refl w
  leave_context-Later w (some c) d = elim (Option-cases (context_of w c).current_handle.promise) [
    | inl e ↦ rw (e, leave_context, context_remove_caller) (Later-refl w)
    | inr (p, e) ↦ rw (e, leave_context, context_remove_caller) (remove_caller-Later w p d false)
  ]

  pub detach-Later : (w : Tasks T) (a : TaskAwaitable) → Later w (detach w a).0.0
  unfolding detach
  detach-Later w a = elim (Option-cases a.caller.handle) [
    | inl e ↦ rw (e, detach) (Later-refl w)
    | inr (h, e) ↦
        rw (e, detach)
          (Later-trans w (clear_waitting w a.caller.promise)
            (leave_context (clear_waitting w a.caller.promise) a.context a.caller)
            (clear_waitting-Later w a.caller.promise)
            (leave_context-Later (clear_waitting w a.caller.promise) a.context a.caller))
  ]

module _ {T : Type 0} (rt : TaskRuntime T) where
  -- What the program's coroutines and callbacks do keeps the final statuses.
  pub record IsForward : Type 0 where
    pub resume-Later : (w : Tasks T) (h : ℕ) → Later w (rt.resume w h)
    pub destroy-Later : (w : Tasks T) (h : ℕ) → Later w (rt.destroy w h)
    pub notify-Later : (w : Tasks T) (f m c : ℕ) → Later w (rt.notify w f m c)
