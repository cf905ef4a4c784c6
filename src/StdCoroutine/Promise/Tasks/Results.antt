-- ===== src/StdCoroutine/Promise/Tasks/Results.antt =====
-- What a coroutine that waits for a task gets.
use libcopp.Base.{
  ℕ, ◌≡◌, refl, ap, ◌∙◌, inl, inr, Bool, true, false, Option, none, some, arith, ltb, ◌==◌,
  if◌then◌else◌, Bool-cases, Option-cases,
}
use libcopp.StdCoroutine.Callers.{HandleDelegate}
use libcopp.StdCoroutine.Promise.{
  done, status_rank, check_flag, set_flag, set_status, promise_remove_caller,
}
use libcopp.StdCoroutine.Promise.Tasks.{
  TaskStore, Tasks, TaskRuntime, context_of, is_ready, data_of, set_value, mark_returned,
  return_value, context_remove_caller,
}
use libcopp.StdCoroutine.Promise.Tasks.Awaitable.{
  TaskAwaitable, await_ready, own_result, caller_result, detach, clear_waitting, leave_context,
  take_value, await_resume,
}

module _ {T : Type 0} where
  is_ready_of_value :
      (w : Tasks T) (c : ℕ) (v : T) → (context_of w c).value ≡ some v → is_ready w c ≡ true
  unfolding is_ready
  is_ready_of_value w c v e = ground (arith, e)

  value_of_is_ready : (w : Tasks T) (c : ℕ) → is_ready w c ≡ false → (context_of w c).value ≡ none
  unfolding is_ready
  value_of_is_ready w c e = ground (arith, e)

  clear_waitting-others : (w : Tasks T) (p : Option ℕ) → (clear_waitting w p).others ≡ w.others
  unfolding clear_waitting
  clear_waitting-others w none = refl
  clear_waitting-others w (some p) = refl

  leave_context-others :
      (w : Tasks T) (c : Option ℕ) (d : HandleDelegate) → (leave_context w c d).others ≡ w.others
  unfolding leave_context context_remove_caller promise_remove_caller
  leave_context-others w none d = refl
  leave_context-others w (some c) d = elim (Option-cases (context_of w c).current_handle.promise) [
    | inl e ↦ rw (e, leave_context, context_remove_caller) refl
    | inr (p, e) ↦ rw (e, leave_context, context_remove_caller) refl
  ]

  detach-others : (w : Tasks T) (a : TaskAwaitable) → (detach w a).0.0.others ≡ w.others
  unfolding detach
  detach-others w a = elim (Option-cases a.caller.handle) [
    | inl e ↦ rw (e, detach) refl
    | inr (h, e) ↦
        rw (e, detach)
          (leave_context-others (clear_waitting w a.caller.promise) a.context a.caller
            ∙ clear_waitting-others w a.caller.promise)
  ]

  detach-context : (w : Tasks T) (a : TaskAwaitable) → (detach w a).0.1.context ≡ a.context
  unfolding detach
  detach-context w a = ground arith

  -- A flag of the caller is no flag by which a task is ready.
  clear_waitting-is_ready :
      (w : Tasks T) (p : Option ℕ) (c : ℕ) → is_ready (clear_waitting w p) c ≡ is_ready w c
  unfolding clear_waitting is_ready check_flag set_flag
  clear_waitting-is_ready w none c = refl
  clear_waitting-is_ready w (some p) c =
      elim (Option-cases (context_of w c).current_handle.promise) [
        | inl e ↦ rw (e, is_ready) refl
        | inr (q, e) ↦ rw (e, is_ready) (ground arith)
      ]

  detach-ready :
      (w : Tasks T) (a : TaskAwaitable) (c : ℕ)
      → a.context ≡ some c
      → is_ready w c ≡ true
      → (detach w a).1 ≡ done
  unfolding detach caller_result own_result
  detach-ready w a c e r = elim (Option-cases a.caller.handle) [
    | inl k ↦ rw (k, detach, e, own_result, r) refl
    | inr (h, k) ↦
        let r' = clear_waitting-is_ready w a.caller.promise c ∙ r in
        rw (k, detach, e, caller_result, r', own_result) refl
  ]

  -- With a context that is not ready, a caller goes by the status of its own promise.
  detach-caller :
      (w : Tasks T) (a : TaskAwaitable) (c h q : ℕ)
      → a.context ≡ some c
      → a.caller.handle ≡ some h
      → a.caller.promise ≡ some q
      → is_ready w c ≡ false
      → (detach w a).1 ≡ (w.promises q).status
  unfolding detach caller_result clear_waitting set_flag
  detach-caller w a c h q e k l r =
      let r' = clear_waitting-is_ready w a.caller.promise c ∙ r in
      rw (k, detach, e, caller_result, r', l, clear_waitting) (ground arith)

module _ {T : Type 0} (rt : TaskRuntime T) where
  take_value-some :
      (w : Tasks T) (c : ℕ) (v : T) (is_shared : Bool)
      → (context_of w c).value ≡ some v
      → (take_value rt w c is_shared).1 ≡ some v
  unfolding take_value data_of
  take_value-some w c v is_shared e =
      let ready = is_ready_of_value w c v e in rw (ready, take_value, data_of, e) refl

  take_value-none :
      (w : Tasks T) (c : ℕ) (is_shared : Bool)
      → (context_of w c).value ≡ none
      → (take_value rt w c is_shared).1 ≡ none
  unfolding take_value data_of
  take_value-none w c is_shared e = elim (Bool-cases (is_ready w c)) [
    | inl r ↦ rw (r, take_value, data_of, e) refl
    | inr r ↦ rw (r, take_value, data_of) refl
  ]

  -- A coroutine that waits for a task whose context has a value goes on at once and gets the value.
  await_resume-value :
      (w : Tasks T) (a : TaskAwaitable) (c : ℕ) (v : T)
      → a.context ≡ some c
      → (context_of w c).value ≡ some v
      → (await_ready w a ≡ true) × ((await_resume rt w a).1 ≡ some v)
  unfolding await_ready await_resume
  await_resume-value w a c v e x =
      let ready = is_ready_of_value w c v x in
      let status = detach-ready w a c e ready in
      let context = detach-context w a ∙ e in
      let value : (context_of (detach w a).0.0 c).value ≡ some v =
        ap (λ (s : TaskStore T). (s.contexts c).value) (detach-others w a) ∙ x in
      (
        rw (e, await_ready, ready) refl,
        rw (status, await_resume, context) (take_value-some (detach w a).0.0 c v _ value),
      )

  -- After a task whose context is `c` returns `v`, its status is `done` or the final status that it
  -- had before; in both cases a coroutine that waits for it goes on at once and gets `v`.
  pub return_value-await_resume :
      (w : Tasks T) (p c : ℕ) (a : TaskAwaitable) (v : T)
      → w.others.context_strong_ref p ≡ some c
      → a.context ≡ some c
      → let w' = return_value w p v in
        (await_ready w' a ≡ true)
        × ((await_resume rt w' a).1 ≡ some v)
        × (status_rank (w'.promises p).status ≡ (
            if ltb (status_rank (w.promises p).status) 3
            then 3
            else status_rank (w.promises p).status))
  unfolding return_value mark_returned set_value set_flag set_status
  return_value-await_resume w p c a v s e =
      let value : (context_of (return_value w p v) c).value ≡ some v =
        rw (s, return_value) (ground arith) in
      let (ready, result) = await_resume-value (return_value w p v) a c v e value in
      (ready, result, rw (s, return_value) (ground arith))

  -- A coroutine that waits for a task and is resumed before the task returns gets the error value of
  -- the status of its own promise, but with the status `done` it dereferences null.
  pub interrupted-await_resume :
      (w : Tasks T) (a : TaskAwaitable) (c h q : ℕ)
      → a.context ≡ some c
      → a.caller.handle ≡ some h
      → a.caller.promise ≡ some q
      → is_ready w c ≡ false
      → (await_resume rt w a).1 ≡ (
          if status_rank (w.promises q).status == 3
          then none
          else some (rt.error_transform (w.promises q).status))
  unfolding await_resume
  interrupted-await_resume w a c h q e k l r =
      let status = detach-caller w a c h q e k l r in
      let context = detach-context w a ∙ e in
      let value : (context_of (detach w a).0.0 c).value ≡ none =
        ap (λ (s : TaskStore T). (s.contexts c).value) (detach-others w a)
        ∙ value_of_is_ready w c r in
      elim (Bool-cases (status_rank (w.promises q).status == 3)) [
        | inl d ↦ rw (status, await_resume, d, context) (take_value-none (detach w a).0.0 c _ value)
        | inr d ↦ rw (status, await_resume, d) refl
      ]
