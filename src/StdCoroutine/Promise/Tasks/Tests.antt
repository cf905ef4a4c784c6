-- ===== src/StdCoroutine/Promise/Tasks/Tests.antt =====
-- A task with the context 1 and the coroutine 10 of the promise 1, which variable 0 holds, and a
-- coroutine 20 of the promise 2 that waits for it.
use libcopp.Base.{
  ℕ, inl, inr, leb, Bool-cases, ◌≤◌, ◌<◌, ◌≡◌, refl, Bool, true, false, Option, none, some, [], ◌∷◌,
  arith, ◌==◌, if◌then◌else◌, update,
}
use libcopp.StdCoroutine.Callers.{null_delegate}
use libcopp.StdCoroutine.Promise.{
  PromiseStatus, killed, done, running, timeout, status_rank, new_promise, check_flag,
  promise_remove_caller,
}
use libcopp.StdCoroutine.Promise.Tasks.{
  TaskContext, new_context, Tasks, TaskRuntime, is_ready, return_value,
}
use libcopp.StdCoroutine.Promise.Tasks.Lifetime.{unfinished, release}
use libcopp.StdCoroutine.Promise.Tasks.Futures.{future_context, reset, assign}
use libcopp.StdCoroutine.Promise.Tasks.Running.{start, kill}
use libcopp.StdCoroutine.Promise.Tasks.Awaitable.{TaskAwaitable, await_ready, await_resume}
use libcopp.StdCoroutine.Promise.Tasks.Statuses.{Later, Later-refl, IsForward}
use libcopp.StdCoroutine.Promise.Tasks.Counts.{IsCounted}
use libcopp.StdCoroutine.Promise.Tasks.Assigning.{assign-IsCounted}
use libcopp.StdCoroutine.Promise.Tasks.Vacant.{IsCounting}
use libcopp.StdCoroutine.Promise.Tasks.Finishing.{IsFinite, EndsWhenKilled, reset-finishes}
use libcopp.StdCoroutine.Promise.Tasks.Results.{return_value-await_resume, interrupted-await_resume}
use libcopp.StdCoroutine.Promise.Tasks.Ending.{start_once, kill_once}
use libcopp.StdCoroutine.Promise.Tasks.Histories.{here, next, returns}

-- A coroutine ends when it is resumed.
abbrev ends_at_once : TaskRuntime ℕ
ends_at_once = record {
  resume = λ w h. record w { is_done = update w.is_done h true };
  destroy = λ w h. w;
  notify = λ w f m c. w;
  error_transform = status_rank;
  move_from = λ v. 0;
}

abbrev task_context : TaskContext ℕ
task_context = record (new_context 7) {
  future_counter = 1;
  current_handle = record { handle = some 10; promise = some 1 };
}

abbrev task_world : PromiseStatus → Tasks ℕ
task_world status = record {
  promises = λ p. if p == 2 then record new_promise { status = status } else new_promise;
  is_done = λ h. false;
  others = record {
    contexts = λ c. if 1 == c then task_context else new_context 0;
    use_count = λ c. 2;
    context_strong_ref = λ p. if p == 1 then some 1 else none;
    futures = some 1 ∷ none ∷ [];
  };
}

ends-IsForward : IsForward ends_at_once
ends-IsForward = record {
  resume-Later = λ w h. Later-refl w;
  destroy-Later = λ w h. Later-refl w;
  notify-Later = λ w f m c. Later-refl w;
}

abbrev rounds_left : ℕ → Tasks ℕ → ℕ
rounds_left c w = elim (unfinished w c) [ none ↦ 0 | some h ↦ 1 ]

rounds_left-lt : (c : ℕ) (w : Tasks ℕ) → rounds_left c w < 2
rounds_left-lt c w = ground arith

rounds_left_less :
    (c : ℕ) (w : Tasks ℕ) (h : ℕ)
    → unfinished w c ≡ some h
    → rounds_left c (ends_at_once.resume w h) < rounds_left c w
unfolding unfinished
rounds_left_less c w h e = ground (arith, e)

ends-IsFinite : (c : ℕ) → IsFinite ends_at_once c 2
ends-IsFinite c = record {
  left = rounds_left c;
  resume_less = rounds_left_less c;
  left-lt = rounds_left-lt c;
}

ends-IsCounting : IsCounting ends_at_once 2 0 2
ends-IsCounting = record {
  finite = ends-IsFinite;
  resume-IsVacant = λ w h v. v;
  destroy-IsVacant = λ w h v. v;
}

task_world-IsCounted : IsCounted 2 (task_world running).others
task_world-IsCounted = record { room = omega arith; counted = λ c. ground arith }

abbrev started : Tasks ℕ
started = (start ends_at_once (task_world running) 0).0

start_once_example : (start ends_at_once (return_value started 1 5) 0).1 ≡ false
unfolding start return_value
start_once_example =
    start_once ends_at_once ends-IsForward (task_world running) (return_value started 1 5) 0 0 1 1 1
      refl refl refl (next here (returns 1 5)) refl refl

-- What a kill leaves.
abbrev world_of : Option (Tasks ℕ × Bool) → Tasks ℕ
world_of none = task_world running
world_of (some r) = r.0

abbrev after_kill : Tasks ℕ
after_kill = world_of (kill ends_at_once 1 (task_world running) 0 killed true)

abbrev killed_again : Tasks ℕ
killed_again = world_of (kill ends_at_once 1 (return_value after_kill 1 5) 0 timeout true)

kill_once_example :
    (status_rank ((return_value after_kill 1 5).promises 1).status ≡ 5)
    × (◌≡◌ {A = Bool} false false)
unfolding kill return_value check_flag
kill_once_example =
    kill_once ends_at_once ends-IsForward (task_world running) after_kill
      (return_value after_kill 1 5) killed_again 0 0 0 0 1 1 1 killed timeout true true false
      (omega arith) (omega arith) refl refl refl (next here (returns 1 5)) refl refl refl

return_value-await_resume_example :
    let w = return_value (task_world running) 1 5 in
    let a : TaskAwaitable = record { context = some 1; caller = null_delegate } in
    (await_ready w a ≡ true)
    × ((await_resume ends_at_once w a).1 ≡ some 5)
    × (status_rank (w.promises 1).status ≡ 3)
return_value-await_resume_example =
    return_value-await_resume ends_at_once (task_world running) 1 1
      (record { context = some 1; caller = null_delegate }) 5 refl refl

abbrev waiting_awaitable : TaskAwaitable
waiting_awaitable = record {
  context = some 1;
  caller = record { handle = some 20; promise = some 2 };
}

interrupted-await_resume_example :
    (await_resume ends_at_once (task_world timeout) waiting_awaitable).1 ≡ some 6
unfolding is_ready check_flag
interrupted-await_resume_example =
    interrupted-await_resume ends_at_once (task_world timeout) waiting_awaitable 1 20 2 refl refl
      refl refl

-- A coroutine that goes on for ever while the status of the promise 1 is not final, and then ends.
abbrev polls : TaskRuntime ℕ
polls = record ends_at_once {
  resume = λ w h.
      if leb 3 (status_rank (w.promises 1).status)
      then record w { is_done = update w.is_done h true }
      else w;
}

polls-Later : (w : Tasks ℕ) (h : ℕ) → Later w (polls.resume w h)
polls-Later w h = elim (Bool-cases (leb 3 (status_rank (w.promises 1).status))) [
  | inl e ↦ rw e (Later-refl w)
  | inr e ↦ rw e (Later-refl w)
]

polls-IsForward : IsForward polls
polls-IsForward = record {
  resume-Later = polls-Later;
  destroy-Later = λ w h. Later-refl w;
  notify-Later = λ w f m c. Later-refl w;
}

polls_less :
    (w : Tasks ℕ) (h : ℕ)
    → unfinished w 1 ≡ some h
    → 3 ≤ status_rank (w.promises 1).status
    → rounds_left 1 (polls.resume w h) < rounds_left 1 w
unfolding unfinished
polls_less w h e s = ground (arith, e, s)

polls-EndsWhenKilled : EndsWhenKilled polls 1 1 2
polls-EndsWhenKilled = record {
  left = rounds_left 1;
  resume_less = polls_less;
  left-lt = λ w s. rounds_left-lt 1 w;
}

reset-finishes_example :
    (w' u : Tasks ℕ) × (reset polls 2 (task_world running) 0 ≡ some w')
    × (3 ≤ status_rank (w'.promises 1).status)
    × (unfinished u 1 ≡ none)
    × (release polls 2 u 1 ≡ some w')
unfolding future_context
reset-finishes_example =
    reset-finishes polls polls-IsForward 1 (task_world running) 0 1 1 polls-EndsWhenKilled refl refl
      refl

assign-IsCounted_example :
    (w' : Tasks ℕ) × (assign ends_at_once 2 (task_world running) 0 1 ≡ some w')
    × IsCounted 2 w'.others
    × (future_context w' 0 ≡ future_context w' 1)
assign-IsCounted_example =
    assign-IsCounted ends_at_once 2 0 2 ends-IsCounting (task_world running) 1 task_world-IsCounted
      (omega arith)

-- A coroutine that is killed with the status `done` while it waits gets no value.
killed_as_done : (await_resume ends_at_once (task_world done) waiting_awaitable).1 ≡ none
unfolding await_resume check_flag promise_remove_caller
killed_as_done = refl
