-- ===== src/StdCoroutine/Promise/Tasks/Histories.antt =====
-- Histories of the operations on tasks, each of which runs coroutines that go on in the history.
use libcopp.Base.{
  ℕ, suc, ◌≡◌, subst, inl, inr, Bool, Option, none, some, arith, Bool-cases, Option-cases,
}
use libcopp.StdCoroutine.Promise.{PromiseStatus}
use libcopp.StdCoroutine.Promise.Tasks.{
  Tasks, TaskRuntime, context_of, return_value, initial_await_resume,
}
use libcopp.StdCoroutine.Promise.Tasks.Lifetime.{task_final_await_suspend}
use libcopp.StdCoroutine.Promise.Tasks.Futures.{
  future_context, with_future, count_future, same_context, reset, assign, move_assign,
}
use libcopp.StdCoroutine.Promise.Tasks.Running.{begin, may_resume, start, kill}
use libcopp.StdCoroutine.Promise.Tasks.Awaitable.{TaskAwaitable, await_suspend, detach, take_value}
use libcopp.StdCoroutine.Promise.Tasks.Statuses.{
  Later, Later-refl, Later-trans, return_value-Later, initial_await_resume-Later, begin-Later,
  take_value-Later, await_suspend-Later, detach-Later, IsForward,
}
use libcopp.StdCoroutine.Promise.Tasks.Forward.{reset-Later, task_final_await_suspend-Later}
use libcopp.StdCoroutine.Promise.Tasks.Once.{kill_total}

module _ {T : Type 0} (rt : TaskRuntime T) where
  pub data Step (w : Tasks T) : Tasks T → Type 0 where
    starts : (f : ℕ) → Step w (start rt w f).0
    kills :
        (fuel f : ℕ) (target : PromiseStatus) (force : Bool) (w' : Tasks T) (r : Bool)
        → kill rt (suc fuel) w f target force ≡ some (w', r)
        → Step w w'
    first_runs : (p : ℕ) → Step w (initial_await_resume w p)
    returns : (p : ℕ) (v : T) → Step w (return_value w p v)
    ends : (fuel p : ℕ) (w' : Tasks T) → task_final_await_suspend rt fuel w p ≡ some w' → Step w w'
    suspends : (a : TaskAwaitable) (h p : ℕ) → Step w (await_suspend w a h p).0.0
    detaches : (a : TaskAwaitable) → Step w (detach w a).0.0
    takes : (c : ℕ) (is_shared : Bool) → Step w (take_value rt w c is_shared).0
    resets : (fuel f : ℕ) (w' : Tasks T) → reset rt fuel w f ≡ some w' → Step w w'
    assigns : (fuel f g : ℕ) (w' : Tasks T) → assign rt fuel w f g ≡ some w' → Step w w'
    moves : (fuel f g : ℕ) (w' : Tasks T) → move_assign rt fuel w f g ≡ some w' → Step w w'

  pub data Reach (w : Tasks T) : Tasks T → Type 0 where
    here : Reach w w
    next : {u v : Tasks T} → Reach w u → Step u v → Reach w v

  count_future-Later : (w : Tasks T) (c : Option ℕ) → Later w (count_future w c)
  unfolding count_future
  count_future-Later w none = Later-refl w
  count_future-Later w (some c) = Later-refl w

module _ {T : Type 0} (rt : TaskRuntime T) (forward : IsForward rt) where
  pub start-Later : (w : Tasks T) (f : ℕ) → Later w (start rt w f).0
  unfolding start
  start-Later w f = elim (Option-cases (future_context w f)) [
    | inl e ↦ rw (e, start) (Later-refl w)
    | inr (c, e) ↦ elim (Bool-cases (context_of w c).is_locked) [
      | inl l ↦ rw (e, start, l) (Later-refl w)
      | inr l ↦
          let w1 = (begin w c).0 in
          elim (Option-cases (begin w c).1) [
            | inl t ↦ rw (e, start, l, t) (begin-Later w c)
            | inr ((h, p), t) ↦ elim (Bool-cases (may_resume w1 p)) [
              | inl m ↦
                  rw (e, start, l, t, m)
                    (Later-trans w w1 (rt.resume w1 h) (begin-Later w c)
                      (forward.resume-Later w1 h))
              | inr m ↦ rw (e, start, l, t, m) (begin-Later w c)
            ]
          ]
    ]
  ]

  assign-Later : (fuel : ℕ) (w w' : Tasks T) (f g : ℕ) → assign rt fuel w f g ≡ some w' → Later w w'
  unfolding assign
  assign-Later fuel w w' f g e =
      elim (Bool-cases (same_context (future_context w f) (future_context w g))) [
        | inl s ↦ let same : w ≡ w' = ground (arith, s, e) in rw (← same) (Later-refl w)
        | inr s ↦ elim (Option-cases (reset rt fuel w f)) [
          | inl r ↦ cc (rw (s, assign, r) at e)
          | inr (u, r) ↦
              let c = future_context u g in
              let same : with_future (count_future u c) f c ≡ w' = ground (arith, s, r, e) in
              rw (← same) (
                Later-trans w u (count_future u c) (reset-Later rt forward fuel w u f r)
                  (count_future-Later rt u c))
        ]
      ]

  move_assign-Later :
      (fuel : ℕ) (w w' : Tasks T) (f g : ℕ) → move_assign rt fuel w f g ≡ some w' → Later w w'
  unfolding move_assign
  move_assign-Later fuel w w' f g e =
      elim (Bool-cases (same_context (future_context w f) (future_context w g))) [
        | inl s ↦ let same : w ≡ w' = ground (arith, s, e) in rw (← same) (Later-refl w)
        | inr s ↦ elim (Option-cases (reset rt fuel w f)) [
          | inl r ↦ cc (rw (s, move_assign, r) at e)
          | inr (u, r) ↦
              let same : with_future (with_future u f (future_context u g)) g (future_context u f)
                  ≡ w' =
                ground (arith, s, r, e) in
              rw (← same) (reset-Later rt forward fuel w u f r)
        ]
      ]

  Step-Later : {w w' : Tasks T} → Step rt w w' → Later w w'
  Step-Later {w} (starts f) = start-Later w f
  Step-Later {w} (kills fuel f target force w' r e) =
      let (r', e', later) = kill_total rt fuel w f target force in
      let same : r' ≡ (w', r) = cc in
      subst (λ (x : Tasks T × Bool). Later w x.0) same (later forward)
  Step-Later {w} (first_runs p) = initial_await_resume-Later w p
  Step-Later {w} (returns p v) = return_value-Later w p v
  Step-Later {w} (ends fuel p w' e) = task_final_await_suspend-Later rt forward fuel w w' p e
  Step-Later {w} (suspends a h p) = await_suspend-Later w a h p
  Step-Later {w} (detaches a) = detach-Later w a
  Step-Later {w} (takes c is_shared) = take_value-Later rt w c is_shared
  Step-Later {w} (resets fuel f w' e) = reset-Later rt forward fuel w w' f e
  Step-Later {w} (assigns fuel f g w' e) = assign-Later fuel w w' f g e
  Step-Later {w} (moves fuel f g w' e) = move_assign-Later fuel w w' f g e

  pub Reach-Later : {w w' : Tasks T} → Reach rt w w' → Later w w'
  Reach-Later {w} here = Later-refl w
  Reach-Later {w} (next {u} {v} r s) = Later-trans w u v (Reach-Later r) (Step-Later s)
