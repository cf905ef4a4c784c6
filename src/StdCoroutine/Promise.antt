-- ===== src/StdCoroutine/Promise.antt =====
-- `promise_base_type`: status, flags, the coroutine that it waits for, and the ones that wait for it.
-- The promises are a store by number.
pub mod Waiting
pub mod Tasks
pub mod Callables
mod Tests
use libcopp.Base.{ℕ, Bool, true, false, ◌&&◌, Option, none, some, ltb, ◌==◌, if◌then◌else◌, update}
use libcopp.StdCoroutine.Callers.{HandleDelegate, null_delegate, same_handle, Runtime}
use libcopp.StdCoroutine.Callers.Variant.{
  Callers, no_callers, add_caller, remove_caller, emptied, resume_taken,
}

pub data PromiseStatus : Type 0 where
  invalid created running done cancle killed timeout : PromiseStatus

abbrev pub status_rank : PromiseStatus → ℕ
status_rank invalid = 0
status_rank created = 1
status_rank running = 2
status_rank done = 3
status_rank cancle = 4
status_rank killed = 5
status_rank timeout = 6

pub data PromiseFlag : Type 0 where
  destroying final_suspend internal_waitting has_returned : PromiseFlag

-- The bit of a flag.
abbrev pub flag_bit : PromiseFlag → ℕ
flag_bit destroying = 0
flag_bit final_suspend = 1
flag_bit internal_waitting = 2
flag_bit has_returned = 3

-- `flags_` as its 32 bits, by number.
pub record Promise : Type 0 where
  pub flags : ℕ → Bool
  pub status : PromiseStatus
  pub current_waiting : HandleDelegate
  pub caller_manager : Callers

abbrev pub new_promise : Promise
new_promise = record {
  flags = λ i. false;
  status = created;
  current_waiting = null_delegate;
  caller_manager = no_callers;
}

pub check_flag : Promise → PromiseFlag → Bool
check_flag p flag = p.flags (flag_bit flag)

pub set_flag : Promise → PromiseFlag → Bool → Promise
set_flag p flag value = record p { flags = update p.flags (flag_bit flag) value }

-- With no `expect` the status is stored; else it is compared first, and read back if it differs.
pub set_status :
    Promise → PromiseStatus → Option PromiseStatus → Promise × Bool × Option PromiseStatus
set_status p value none = (record p { status = value }, true, none)
set_status p value (some e) =
    if status_rank p.status == status_rank e
    then (record p { status = value }, true, some e)
    else (p, false, some p.status)

pub is_waiting : Promise → Bool
unfolding check_flag
is_waiting p = elim p.current_waiting.handle [
  | none ↦ check_flag p internal_waitting
  | some h ↦ true
]

pub set_waiting_handle : Promise → HandleDelegate → Promise
set_waiting_handle p handle = record p { current_waiting = handle }

-- The promises, which coroutines are done, and what else there is that a coroutine may change.
pub record World (E : Type 0) : Type 0 where
  pub promises : ℕ → Promise
  pub is_done : ℕ → Bool
  pub others : E

-- What a coroutine does when it is resumed.
abbrev pub Resume : Type 0 → Type 0
Resume E = World E → ℕ → World E

module _ {E : Type 0} where
  abbrev pub with_promise : World E → ℕ → Promise → World E
  with_promise w i p = record w { promises = update w.promises i p }

  abbrev pub runtime : Resume E → Runtime (World E)
  runtime resume = record {
    is_done = λ w h. w.is_done h;
    is_destroying = λ w i. check_flag (w.promises i) destroying;
    resume = resume;
  }

  pub promise_add_caller : World E → ℕ → HandleDelegate → World E
  promise_add_caller w self delegate =
      let p = w.promises self in
      with_promise w self
        (record p { caller_manager = add_caller w.is_done p.caller_manager delegate })

  -- The test under which `remove_caller` takes the status of the caller's promise over.
  pub inherits : World E → Promise → HandleDelegate → Bool → Option PromiseStatus
  inherits w p delegate inherit_status = elim delegate.promise [
    | none ↦ none
    | some q ↦
        let status = (w.promises q).status in
        if inherit_status
          && (ltb (status_rank p.status) (status_rank done)
              && ltb (status_rank done) (status_rank status))
        then some status
        else none
  ]

  pub promise_remove_caller : World E → ℕ → HandleDelegate → Bool → World E
  unfolding inherits
  promise_remove_caller w self delegate inherit_status =
      let p = w.promises self in
      let (callers, removed) = remove_caller p.caller_manager delegate in
      let status = if removed then inherits w p delegate inherit_status else none in
      with_promise w self (record p {
        caller_manager = callers;
        status = elim status [ none ↦ p.status | some st ↦ st ];
      })

  -- The handle that is to be resumed if it is one and is not done.
  pub waiting_for : World E → HandleDelegate → Option ℕ
  waiting_for w d = elim d.handle [ none ↦ none | some h ↦ if w.is_done h then none else some h ]

  -- `resume_waiting` up to the resumption of the coroutine that is waited for, whose promise may be null.
  pub leave_waiting : World E → ℕ → Option ℕ → HandleDelegate → Bool → World E
  unfolding promise_remove_caller
  leave_waiting w self none current inherit_status =
      with_promise w self (record (w.promises self) { current_waiting = null_delegate })
  leave_waiting w self (some q) current inherit_status =
      promise_remove_caller
        (with_promise w self (record (w.promises self) { current_waiting = null_delegate })) q
        current inherit_status

  -- With the handle to resume of the coroutine that is waited for, and of the current one.
  pub resume_from :
      Resume E → World E → ℕ → HandleDelegate → Bool → Option ℕ → Option ℕ → Option ℕ → World E
  unfolding leave_waiting check_flag
  resume_from resume w self current inherit_status (some h) promise own =
      resume (leave_waiting w self promise current inherit_status) h
  resume_from resume w self current inherit_status none promise none = w
  resume_from resume w self current inherit_status none promise (some h) =
      if check_flag (w.promises self) internal_waitting then resume w h else w

  pub resume_waiting : Resume E → World E → ℕ → HandleDelegate → Bool → World E
  unfolding waiting_for resume_from
  resume_waiting resume w self current inherit_status =
      let waiting = (w.promises self).current_waiting in
      resume_from resume w self current inherit_status (waiting_for w waiting) waiting.promise
        (waiting_for w current)

  -- `resume_callers`, on the manager of the promise, which is empty before the first caller runs.
  pub promise_resume_callers : Resume E → World E → ℕ → World E
  promise_resume_callers resume w self =
      let m = (w.promises self).caller_manager in
      let w' = with_promise w self (record (w.promises self) { caller_manager = emptied m }) in
      (resume_taken (runtime resume) w' m).0

  -- `final_awaitable::await_suspend`
  pub final_await_suspend : Resume E → World E → ℕ → World E
  unfolding promise_resume_callers set_flag
  final_await_suspend resume w self =
      promise_resume_callers resume
        (with_promise w self (set_flag (w.promises self) final_suspend true)) self
