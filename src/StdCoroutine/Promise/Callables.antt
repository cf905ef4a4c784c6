-- ===== src/StdCoroutine/Promise/Callables.antt =====
-- include/libcopp/coroutine/callable_promise.h: coroutines that are called, their promises, futures
-- and awaitables. A coroutine and its promise have one number, as they are one frame.
pub mod Futures
pub mod Finishing
pub mod Awaiting
pub mod Actions
mod Tests
use libcopp.Base.{
  ℕ, zero, suc, ◌+◌, ◌-◌, ◌*◌, ◌/◌, ◌%◌, ◌^◌, ◌≤◌, ◌<◌, ◌≡◌, refl, sym, ap, ◌∙◌, subst, ◌≢◌, ◌↔◌,
  ◌⊎◌, inl, inr, Bool, true, false, not, ◌&&◌, ◌||◌, Option, none, some, List, [], ◌∷◌, ◌++◌, map,
  arith, ltb, leb, ◌==◌, if◌then◌else◌, size_mod, Bool-cases, Option-cases, length, is_empty,
  length-append, All, All-append, All-parts, All-mono, sum_by, sum_by-append, update,
}
use libcopp.StdCoroutine.Callers.{HandleDelegate, null_delegate}
use libcopp.StdCoroutine.Promise.{
  PromiseStatus, invalid, created, running, done, cancle, killed, timeout, status_rank, PromiseFlag,
  destroying, final_suspend, internal_waitting, has_returned, Promise, new_promise, check_flag,
  set_flag, set_status, is_waiting, set_waiting_handle, World, with_promise, Resume,
  promise_add_caller, promise_remove_caller, resume_waiting,
}

-- `data_` of each promise, and the `current_handle_` of each future.
pub record CallableStore (T : Type 0) : Type 0 where
  pub data_of : ℕ → T
  pub futures : ℕ → Option ℕ

abbrev pub Callables : Type 0 → Type 0
Callables T = World (CallableStore T)

-- What is not in the file: `resume` and `destroy` of a coroutine's handle, and the operations of the
-- value type: the value that stands for an error, and what is left of a value that was moved from.
pub record CallableRuntime (T : Type 0) : Type 0 where
  pub resume : Resume (CallableStore T)
  pub destroy : Callables T → ℕ → Callables T
  pub error_transform : PromiseStatus → T
  pub move_from : T → T

-- `callable_awaitable_base`, with the `caller_` of `awaitable_base_type`.
pub record CallableAwaitable : Type 0 where
  pub callee : Option ℕ
  pub caller : HandleDelegate

-- `handle_delegate` of the coroutine of a number.
abbrev pub delegate : ℕ → HandleDelegate
delegate h = record { handle = some h; promise = some h }

module _ {T : Type 0} where
  abbrev pub with_data : Callables T → ℕ → T → Callables T
  with_data w h v = record w { others = record w.others { data_of = update w.others.data_of h v } }

  abbrev pub with_future : Callables T → ℕ → Option ℕ → Callables T
  with_future w f o = record w {
    others = record w.others { futures = update w.others.futures f o };
  }

  pub return_void : Callables T → ℕ → Callables T
  unfolding set_flag set_status
  return_void w h =
      let p = set_flag (w.promises h) has_returned true in
      with_promise w h
        (if ltb (status_rank p.status) (status_rank done) then (set_status p done none).0 else p)

  unfoldable pub return_value : Callables T → ℕ → T → Callables T
  unfolding set_flag set_status
  return_value w h v =
      let p = set_flag (w.promises h) has_returned true in
      with_data
        (with_promise w h
          (if ltb (status_rank p.status) (status_rank done) then (set_status p done none).0 else p))
        h v

  -- `initial_awaitable::await_resume`
  pub initial_await_resume : Callables T → ℕ → Callables T
  unfolding set_status
  initial_await_resume w h =
      let p = w.promises h in
      if status_rank p.status == status_rank created
      then with_promise w h (set_status p running (some created)).0
      else w

  -- The tests on a callee that is not null.
  unfoldable pub is_callee_ready : Callables T → ℕ → Bool
  unfolding check_flag
  is_callee_ready w h =
      w.is_done h
      || (leb (status_rank done) (status_rank (w.promises h).status)
          || (check_flag (w.promises h) has_returned || w.is_done h))

  unfoldable pub await_ready : Callables T → CallableAwaitable → Bool
  unfolding is_callee_ready
  await_ready w a = elim a.callee [ none ↦ true | some h ↦ is_callee_ready w h ]

  -- A caller that is not done, `c`, waits for `h`.
  pub suspend_caller : Callables T → ℕ → ℕ → Callables T
  unfolding set_waiting_handle set_flag promise_add_caller
  suspend_caller w c h =
      let w1 = with_promise w c (set_waiting_handle (w.promises c) (delegate h)) in
      let w2 = promise_add_caller w1 h (delegate c) in
      with_promise w2 c (set_flag (w2.promises c) internal_waitting true)

  unfoldable pub clear_caller : Callables T → Option ℕ → Callables T
  unfolding set_flag set_waiting_handle
  clear_caller w none = w
  clear_caller w (some p) =
      with_promise w p
        (set_waiting_handle (set_flag (w.promises p) internal_waitting false) null_delegate)

  -- The part of `detach` for an awaitable with a caller.
  unfoldable pub leave_callee : Callables T → ℕ → HandleDelegate → Callables T
  unfolding clear_caller promise_remove_caller
  leave_callee w h caller = elim caller.handle [
    | none ↦ w
    | some c ↦ promise_remove_caller (clear_caller w caller.promise) h caller true
  ]

  -- The status that an unfinished callee gets, `none` for a dereferenced null.
  unfoldable pub status_from : Callables T → HandleDelegate → Option PromiseStatus
  status_from w caller = elim caller.handle [
    | none ↦ some killed
    | some c ↦ elim caller.promise [ none ↦ none | some p ↦ some (w.promises p).status ]
  ]

  unfoldable pub end_callee : Callables T → ℕ → HandleDelegate → Option (Callables T)
  unfolding status_from set_status
  end_callee w h caller =
      if ltb (status_rank (w.promises h).status) (status_rank done)
      then elim (status_from w caller) [
        | none ↦ none
        | some status ↦ some (with_promise w h (set_status (w.promises h) status none).0)
      ]
      else some w

  -- `none` here and below stands for a dereferenced null.
  unfoldable pub detach : Callables T → CallableAwaitable → Option (Callables T × CallableAwaitable)
  unfolding leave_callee end_callee
  detach w a = elim a.callee [
    | none ↦ none
    | some h ↦ elim (end_callee (leave_callee w h a.caller) h a.caller) [
      | none ↦ none
      | some w' ↦ some (w', record a { caller = null_delegate })
    ]
  ]

  -- `operator co_await`
  pub co_await : Callables T → ℕ → CallableAwaitable
  co_await w f = record { callee = w.others.futures f; caller = null_delegate }

  -- The constructor and the assignment that move the future `g` to `f`.
  pub move_future : Callables T → ℕ → ℕ → Callables T
  move_future w f g = with_future (with_future w f (w.others.futures g)) g none

  pub is_ready : Callables T → ℕ → Bool
  unfolding check_flag
  is_ready w f = elim (w.others.futures f) [
    | none ↦ true
    | some h ↦ w.is_done h || check_flag (w.promises h) has_returned
  ]

  -- `get_status`
  pub future_status : Callables T → ℕ → Option PromiseStatus
  future_status w f = elim (w.others.futures f) [
    | none ↦ none
    | some h ↦ some (w.promises h).status
  ]

  -- `some_delegate_callable_action`
  pub suspend_future : Callables T → HandleDelegate → ℕ → Option (Callables T)
  unfolding promise_add_caller
  suspend_future w caller f = elim (w.others.futures f) [
    | none ↦ none
    | some h ↦ some (promise_add_caller w h caller)
  ]

  pub resume_future : Callables T → HandleDelegate → ℕ → Option (Callables T)
  unfolding promise_remove_caller
  resume_future w caller f = elim (w.others.futures f) [
    | none ↦ none
    | some h ↦ some (promise_remove_caller w h caller false)
  ]

  pub is_pending : Callables T → ℕ → Option Bool
  unfolding future_status
  is_pending w f = elim (future_status w f) [
    | none ↦ none
    | some s ↦
        some (leb (status_rank created) (status_rank s) && ltb (status_rank s) (status_rank done))
  ]

module _ {T : Type 0} (rt : CallableRuntime T) where
  -- A caller that is done does not wait; a callee that waits goes on with the caller's status.
  pub refuse_caller : Callables T → ℕ → ℕ → Callables T
  unfolding check_flag set_status
  refuse_caller w c h =
      let p = w.promises h in
      if ltb (status_rank p.status) (status_rank done) && check_flag p internal_waitting
      then rt.resume (with_promise w h (set_status p (w.promises c).status none).0) h
      else w

  -- The caller is the coroutine `c`.
  pub await_suspend :
      Callables T → CallableAwaitable → ℕ → Option ((Callables T × CallableAwaitable) × Bool)
  unfolding suspend_caller refuse_caller
  await_suspend w a c = elim a.callee [
    | none ↦ none
    | some h ↦ some (
        if ltb (status_rank (w.promises c).status) (status_rank done)
        then ((suspend_caller w c h, record a { caller = delegate c }), true)
        else ((refuse_caller w c h, a), false))
  ]

  pub await_resume_void : Callables T → CallableAwaitable → Option (Callables T × CallableAwaitable)
  unfolding detach resume_waiting
  await_resume_void w a = elim a.callee [
    | none ↦ none
    | some h ↦ elim (detach w a) [
      | none ↦ none
      | some (w', a') ↦ some (resume_waiting rt.resume w' h (delegate h) true, a')
    ]
  ]

  -- The value of a callee that was detached.
  unfoldable pub take_data : Callables T → ℕ → Callables T × T
  unfolding check_flag
  take_data w h =
      if not (check_flag (w.promises h) has_returned)
      then (w, rt.error_transform (w.promises h).status)
      else (with_data w h (rt.move_from (w.others.data_of h)), w.others.data_of h)

  unfoldable pub await_resume :
      Callables T → CallableAwaitable → Option ((Callables T × CallableAwaitable) × T)
  unfolding detach resume_waiting take_data
  await_resume w a = elim a.callee [
    | none ↦ none
    | some h ↦ elim (detach w a) [
      | none ↦ none
      | some (w', a') ↦
          let (w'', v) = take_data (resume_waiting rt.resume w' h (delegate h) true) h in
          some ((w'', a'), v)
    ]
  ]
