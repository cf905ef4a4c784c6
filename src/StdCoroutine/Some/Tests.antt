-- ===== src/StdCoroutine/Some/Tests.antt =====
-- Future 1 is pending and future 2 is ready.
use libcopp.Base.{
  ℕ, ◌+◌, ◌≤◌, ◌<◌, ◌≡◌, refl, ◌⊎◌, Bool, true, [], ◌∷◌, arith, ◌==◌, none, some, if◌then◌else◌,
  update,
}
use libcopp.StdCoroutine.Callers.{null_delegate}
use libcopp.StdCoroutine.Promise.{running, done, new_promise}
use libcopp.StdCoroutine.Promise.Callables.{Callables}
use libcopp.StdCoroutine.Promise.Callables.Actions.{callable_actions, callable_actions-IsStable}
use libcopp.StdCoroutine.Some.{SomeContext, SomeActions, classify, begin_some, await_resume}
use libcopp.StdCoroutine.Some.Scan.{Scanned, await_resume-Scanned, all_stops_early}

-- The state is which futures are pending.
abbrev by_number : SomeActions (ℕ → Bool)
by_number = record {
  is_pending = λ w f. w f;
  suspend_future = λ w d f. w;
  resume_future = λ w d f. w;
  promise_status = λ w p. running;
  set_internal_waitting = λ w p b. w;
}

abbrev first_pending : ℕ → Bool
first_pending f = f == 1

abbrev waits_for_two : SomeContext
waits_for_two = record {
  pending = 1 ∷ 3 ∷ [];
  ready = 2 ∷ [];
  ready_bound = 2;
  scan_bound = 1;
  status = running;
  caller_handle = null_delegate;
}

-- The callables 1, which runs, and 3, which is done.
abbrev two_callables : Callables ℕ
two_callables = record {
  promises = λ h. record new_promise { status = if h == 6 then done else running };
  is_done = λ h. h == 6;
  others = record { data_of = λ h. 0; futures = update (update (λ f. none) 1 (some 5)) 3 (some 6) };
}

await_resume-Scanned_example :
    let c' = (await_resume callable_actions (waits_for_two, two_callables) null_delegate).0 in
    (1 + 1 < 2) × (c' ≡ record waits_for_two { scan_bound = 2 })
    ⊎ (2 ≤ 1 + 1) × Scanned callable_actions two_callables waits_for_two c'
await_resume-Scanned_example =
    await_resume-Scanned callable_actions callable_actions-IsStable waits_for_two two_callables
      null_delegate

all_stops_early_example :
    let (c, goes_on) = begin_some by_number first_pending 0 2 (1 ∷ 2 ∷ []) in
    (goes_on ≡ true)
    × (c.ready_bound ≡ 1)
    × ((await_resume by_number (c, first_pending) null_delegate).0.status ≡ done)
unfolding classify
all_stops_early_example =
    all_stops_early by_number first_pending first_pending (1 ∷ 2 ∷ []) null_delegate (omega arith)
      (omega arith)

-- Then future 1 is pending still.
first_still_pending :
    let c = (begin_some by_number first_pending 0 2 (1 ∷ 2 ∷ [])).0 in
    (await_resume by_number (c, first_pending) null_delegate).0.pending ≡ 1 ∷ []
unfolding begin_some await_resume
first_still_pending = refl
