-- ===== src/StdCoroutine/Promise/Callables/Tests.antt =====
-- Callables that return, are waited for, killed and destroyed.
use libcopp.Base.{
  ◌-◌, ◌==◌, ◌≤◌, ltb, ◌+◌, ℕ, ◌<◌, ◌≡◌, refl, inl, inr, Bool, true, false, Option, none, some,
  arith, if◌then◌else◌, Bool-cases, update,
}
use libcopp.StdCoroutine.Callers.{null_delegate}
use libcopp.StdCoroutine.Promise.{
  running, cancle, killed, status_rank, destroying, internal_waitting, new_promise, check_flag,
  set_status, is_waiting, resume_waiting, waiting_for, resume_from,
}
use libcopp.StdCoroutine.Promise.Callables.{
  Callables, CallableRuntime, with_data, CallableAwaitable, with_future, delegate, return_value,
  await_resume, take_data, detach, leave_callee, end_callee, status_from,
}
use libcopp.StdCoroutine.Promise.Callables.Awaiting.{await_resume-return_value}
use libcopp.StdCoroutine.Promise.Callables.Futures.{
  is_unfinished, set_destroying, resumes, kill_round, kill_loop, run_killed, kill, destroy_future,
}
use libcopp.StdCoroutine.Promise.Callables.Finishing.{EndsWhenKilled, with_status, destroy-finishes}

-- A coroutine ends when it is resumed.
abbrev runs_out : CallableRuntime ℕ
runs_out = record {
  resume = λ w h. record w { is_done = update w.is_done h true };
  destroy = λ w h. w;
  error_transform = status_rank;
  move_from = λ v. 0;
}

-- The future 0 holds the coroutine 5, which runs; so does the coroutine 9.
abbrev running_callable : Callables ℕ
running_callable = record {
  promises = λ i. record new_promise { status = running };
  is_done = λ h. false;
  others = record { data_of = λ h. 0; futures = update (λ f. none) 0 (some 5) };
}

-- A coroutine that looks at its status when it is resumed: it goes on for ever while that is not
-- final, and then ends after as many further steps as its data says.
abbrev polls : CallableRuntime ℕ
polls = record runs_out {
  resume = λ w h.
      if ltb (status_rank (w.promises h).status) 3
      then w
      else if w.others.data_of h == 0
      then record w { is_done = update w.is_done h true }
      else with_data w h (w.others.data_of h - 1);
}

steps_left : ℕ → Callables ℕ → ℕ
unfolding is_unfinished
steps_left h w = if is_unfinished w h then w.others.data_of h + 1 else 0

steps_left_less :
    (h : ℕ) (w : Callables ℕ)
    → is_unfinished w h ≡ true
    → 3 ≤ status_rank (w.promises h).status
    → steps_left h (polls.resume w h) < steps_left h w
unfolding steps_left is_unfinished
steps_left_less h w e s = elim (Bool-cases (w.others.data_of h == 0)) [
  | inl z ↦ ground (arith, e, s, z)
  | inr z ↦ ground (arith, e, s, z)
]

steps_left-le : (h : ℕ) (w : Callables ℕ) → steps_left h (with_status w h killed) ≤ steps_left h w
unfolding steps_left is_unfinished check_flag
steps_left-le h w = ground arith

abbrev polls-EndsWhenKilled : (h : ℕ) → EndsWhenKilled polls h
polls-EndsWhenKilled h = record {
  left = steps_left h;
  resume_less = steps_left_less h;
  killed-le = steps_left-le h;
}

abbrev polling_callable : Callables ℕ
polling_callable = with_data running_callable 5 2

destroy-finishes_example :
    (u : Callables ℕ) × (is_unfinished u 5 ≡ false)
    × (is_unfinished polling_callable 5 ≡ false → u ≡ with_future polling_callable 0 none)
    × (check_flag ((set_destroying u 5).promises 5) destroying ≡ true)
    × (destroy_future polls 4 polling_callable 0 ≡ some (set_destroying u 5))
unfolding steps_left is_unfinished check_flag
destroy-finishes_example =
    destroy-finishes polls 4 polling_callable 0 5 (polls-EndsWhenKilled 5) refl (omega arith)

-- The coroutine 9 waits for the coroutine 5.
abbrev wait_for_five : CallableAwaitable
wait_for_five = record { callee = some 5; caller = delegate 9 }

await_resume-return_value_example :
    (w' : Callables ℕ) × (await_resume runs_out (return_value running_callable 5 7) wait_for_five
      ≡ some ((w', record wait_for_five { caller = null_delegate }), 7))
    × (check_flag (w'.promises 9) internal_waitting ≡ false)
    × ((w'.promises 9).current_waiting ≡ null_delegate)
    × (w'.others.data_of 5 ≡ 0)
unfolding check_flag
await_resume-return_value_example =
    await_resume-return_value runs_out running_callable wait_for_five 5 9 7 refl refl refl refl refl

abbrev status_of_five : Option (Callables ℕ × Bool) → ℕ
status_of_five none = 0
status_of_five (some (w, r)) = status_rank (w.promises 5).status

abbrev result_value : Option ((Callables ℕ × CallableAwaitable) × ℕ) → ℕ
result_value none = 9
result_value (some (r, v)) = v

-- The future of a callable that runs, killed with the status `cancle` by its force.
killed_status : status_of_five (kill runs_out 1 running_callable 0 cancle true) ≡ 4
unfolding kill kill_loop kill_round run_killed resumes set_status check_flag is_waiting
killed_status = refl

-- A callee that nobody waited for and that has not returned is killed, and gives the error for that.
unawaited_result :
    result_value
      (await_resume runs_out running_callable (record { callee = some 5; caller = null_delegate }))
    ≡ 5
unfolding await_resume detach leave_callee end_callee take_data check_flag resume_waiting
    resume_from waiting_for set_status status_from
unawaited_result = refl
