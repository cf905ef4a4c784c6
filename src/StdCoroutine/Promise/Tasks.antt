-- ===== src/StdCoroutine/Promise/Tasks.antt =====
-- include/libcotask/task_promise.h: tasks that are C++20 coroutines, their contexts and promises. A
-- coroutine, a promise, a context, a manager and a callback of one are numbers; null is `none`.
pub mod Lifetime
pub mod Futures
pub mod Running
pub mod Awaitable
pub mod Counts
pub mod Vacant
pub mod Assigning
pub mod Statuses
pub mod Forward
pub mod Once
pub mod Histories
pub mod Ending
pub mod Finishing
pub mod Results
mod Tests
use libcopp.Base.{
  ℕ, zero, suc, ◌+◌, ◌-◌, ◌*◌, ◌/◌, ◌%◌, ◌^◌, ◌≤◌, ◌<◌, ◌≡◌, refl, sym, ap, ◌∙◌, subst, ◌≢◌, ◌↔◌,
  ◌⊎◌, inl, inr, Bool, true, false, not, ◌&&◌, ◌||◌, Option, none, some, List, [], ◌∷◌, ◌++◌, map,
  arith, ltb, leb, ◌==◌, if◌then◌else◌, size_mod, Bool-cases, Option-cases, length, is_empty,
  length-append, All, All-append, All-parts, All-mono, sum_by, sum_by-append, update,
}
use libcopp.IntrusivePtr.{get, set}
use libcopp.StdCoroutine.Callers.{HandleDelegate, null_delegate}
use libcopp.StdCoroutine.Callers.Variant
use libcopp.StdCoroutine.Promise.{
  PromiseStatus, invalid, created, running, done, cancle, killed, timeout, status_rank, PromiseFlag,
  destroying, final_suspend, internal_waitting, has_returned, Promise, new_promise, check_flag,
  set_flag, set_status, is_waiting, World, with_promise, Resume, promise_add_caller,
  promise_remove_caller, promise_resume_callers, final_await_suspend,
}

-- `task_context`: `data` is the value of `data_`, if there is one.
pub record TaskContext (T : Type 0) : Type 0 where
  pub id : ℕ
  pub future_counter : ℕ
  pub is_locked : Bool
  pub current_handle : HandleDelegate
  pub value : Option T
  pub binding_manager_ptr : Option ℕ
  pub binding_manager_fn : Option ℕ

abbrev pub new_context : {T : Type 0} → ℕ → TaskContext T
new_context id = record {
  id = id;
  future_counter = 0;
  is_locked = false;
  current_handle = null_delegate;
  value = none;
  binding_manager_ptr = none;
  binding_manager_fn = none;
}

-- The contexts, how many `std::shared_ptr` own each, the `context_strong_ref_` of each promise, and
-- the variables that hold a `task_future`.
pub record TaskStore (T : Type 0) : Type 0 where
  pub contexts : ℕ → TaskContext T
  pub use_count : ℕ → ℕ
  pub context_strong_ref : ℕ → Option ℕ
  pub futures : List (Option ℕ)

abbrev pub Tasks : Type 0 → Type 0
Tasks T = World (TaskStore T)

-- What is not in the file: `resume` and `destroy` of a coroutine's handle, the callback of a manager
-- (its number, the manager, the context), and the operations of the value type: the value that stands
-- for an error, and what is left of a value that was returned to its only caller.
pub record TaskRuntime (T : Type 0) : Type 0 where
  pub resume : Resume (TaskStore T)
  pub destroy : Tasks T → ℕ → Tasks T
  pub notify : Tasks T → ℕ → ℕ → ℕ → Tasks T
  pub error_transform : PromiseStatus → T
  pub move_from : T → T

-- The first two statements of `return_value`.
pub mark_returned : Promise → Promise
unfolding set_flag set_status
mark_returned p =
    let p' = set_flag p has_returned true in
    if ltb (status_rank p'.status) (status_rank done) then (set_status p' done none).0 else p'

module _ {T : Type 0} where
  abbrev pub context_of : Tasks T → ℕ → TaskContext T
  context_of w c = w.others.contexts c

  abbrev pub with_context : Tasks T → ℕ → TaskContext T → Tasks T
  with_context w c x = record w {
    others = record w.others { contexts = update w.others.contexts c x };
  }

  -- `task_context_base`
  pub is_ready : Tasks T → ℕ → Bool
  is_ready w c =
      let x = context_of w c in
      elim x.current_handle.promise [
        | none ↦ false
        | some p ↦ check_flag (w.promises p) has_returned
      ]
      || elim x.value [ none ↦ false | some v ↦ true ]

  pub is_pending : Tasks T → ℕ → Bool
  is_pending w c = elim (context_of w c).value [ none ↦ true | some v ↦ false ]

  pub get_status : Tasks T → ℕ → PromiseStatus
  get_status w c = elim (context_of w c).current_handle.promise [
    | none ↦ invalid
    | some p ↦ (w.promises p).status
  ]

  pub has_multiple_callers : Tasks T → ℕ → Bool
  has_multiple_callers w c = elim (context_of w c).current_handle.promise [
    | none ↦ false
    | some p ↦ Variant.has_multiple_callers (w.promises p).caller_manager
  ]

  pub context_add_caller : Tasks T → ℕ → HandleDelegate → Tasks T
  context_add_caller w c d = elim (context_of w c).current_handle.promise [
    | none ↦ w
    | some p ↦ promise_add_caller w p d
  ]

  pub context_remove_caller : Tasks T → ℕ → HandleDelegate → Tasks T
  context_remove_caller w c d = elim (context_of w c).current_handle.promise [
    | none ↦ w
    | some p ↦ promise_remove_caller w p d false
  ]

  -- `data`: no value before the context is ready.
  pub data_of : Tasks T → ℕ → Option T
  unfolding is_ready
  data_of w c = if is_ready w c then (context_of w c).value else none

  pub set_value : Tasks T → ℕ → T → Tasks T
  set_value w c v = with_context w c (record (context_of w c) { value = some v })

  pub initialize_handle : Tasks T → ℕ → HandleDelegate → Tasks T
  initialize_handle w c d = with_context w c (record (context_of w c) { current_handle = d })

  pub setup_task_manager : Tasks T → ℕ → ℕ → ℕ → Tasks T × Bool
  setup_task_manager w c manager fn = elim (context_of w c).binding_manager_ptr [
    | none ↦ (
      with_context w c (record (context_of w c) {
        binding_manager_ptr = some manager;
        binding_manager_fn = some fn;
      }),
      true,
    )
    | some m ↦ (w, false)
  ]

  abbrev pub unbound : Tasks T → ℕ → Tasks T
  unbound w c =
      with_context w c
        (record (context_of w c) { binding_manager_ptr = none; binding_manager_fn = none })

  pub cleanup_task_manager : Tasks T → ℕ → ℕ → Tasks T × Bool
  cleanup_task_manager w c manager = elim (context_of w c).binding_manager_ptr [
    | none ↦ (w, false)
    | some m ↦ if m == manager then (unbound w c, true) else (w, false)
  ]

  -- The promise, `task_promise_base`. Its constructor makes the context `c`, whose id is `id`.
  pub construct_promise : Tasks T → ℕ → ℕ → ℕ → Tasks T
  construct_promise w p c id = record w {
    promises = update w.promises p new_promise;
    others = record w.others {
      contexts = update w.others.contexts c (new_context id);
      use_count = update w.others.use_count c 1;
      context_strong_ref = update w.others.context_strong_ref p (some c);
    };
  }

  pub initialize_promise : Tasks T → ℕ → ℕ → Tasks T
  unfolding initialize_handle
  initialize_promise w p h = elim (w.others.context_strong_ref p) [
    | none ↦ w
    | some c ↦ initialize_handle w c (record { handle = some h; promise = some p })
  ]

  -- `initial_awaitable`
  pub initial_await_suspend : Tasks T → ℕ → ℕ → Tasks T
  unfolding initialize_promise
  initial_await_suspend w p h = initialize_promise w p h

  pub initial_await_resume : Tasks T → ℕ → Tasks T
  unfolding set_status
  initial_await_resume w p =
      if status_rank (w.promises p).status == status_rank created
      then with_promise w p (set_status (w.promises p) running (some created)).0
      else w

  pub return_value : Tasks T → ℕ → T → Tasks T
  unfolding mark_returned set_value
  return_value w p v =
      let w' = with_promise w p (mark_returned (w.promises p)) in
      elim (w'.others.context_strong_ref p) [ none ↦ w' | some c ↦ set_value w' c v ]

  pub move_context : Tasks T → ℕ → Tasks T × Option ℕ
  move_context w p = (
    record w {
      others = record w.others { context_strong_ref = update w.others.context_strong_ref p none };
    },
    w.others.context_strong_ref p,
  )

  -- `yield_value` of a `task_pick_id`.
  pub yield_task_id : Tasks T → ℕ → ℕ
  yield_task_id w p = elim (w.others.context_strong_ref p) [
    | none ↦ 0
    | some c ↦ (context_of w c).id
  ]

-- A task of nothing: `set_value` puts `true` there.
pub return_void : Tasks Bool → ℕ → Tasks Bool
unfolding return_value
return_void w p = return_value w p true
