-- ===== src/StdCoroutine/Promise/Tasks/Once.antt =====
-- A task starts once and is killed once, whatever is done with it in between.
use libcopp.Base.{
  ℕ, suc, ◌≤◌, ◌≡◌, refl, ap, ◌∙◌, ◌≢◌, ◌⊎◌, inl, inr, Bool, true, false, Option, none, some, arith,
  ltb, Bool-cases, Option-cases,
}
use libcopp.StdCoroutine.Callers.{HandleDelegate}
use libcopp.StdCoroutine.Promise.{PromiseStatus, done, status_rank, set_status}
use libcopp.StdCoroutine.Promise.Tasks.{Tasks, TaskRuntime, context_of}
use libcopp.StdCoroutine.Promise.Tasks.Futures.{future_context}
use libcopp.StdCoroutine.Promise.Tasks.Running.{
  set_lock, take_created, kill_promise, kill_round, kill_loop, run_killed, kill_locked, kill,
}
use libcopp.StdCoroutine.Promise.Tasks.Statuses.{Later, Later-refl, Later-trans, IsForward}

module _ {T : Type 0} where
  -- A promise that is not `created` any more is not taken,
  pub take_created-none :
      (w : Tasks T) (h : Option ℕ) (p : ℕ)
      → 2 ≤ status_rank (w.promises p).status
      → (take_created w h (some p)).1 ≡ none
  unfolding take_created set_status
  take_created-none w none p r = refl
  take_created-none w (some h) p r = ground arith

  -- and one that is taken is `running`.
  pub take_created-rank :
      (w : Tasks T) (h promise : Option ℕ) (p k : ℕ)
      → promise ≡ some p
      → (take_created w h promise).1 ≡ some (k, p)
      → 2 ≤ status_rank ((take_created w h promise).0.promises p).status
  unfolding take_created set_status
  take_created-rank w none promise p k e t = cc
  take_created-rank w (some h) none p k e t = cc
  take_created-rank w (some h) (some q) p k e t = ground arith

  pub take_created-promise :
      (w : Tasks T) (h promise : Option ℕ) (p k : ℕ)
      → (take_created w h promise).1 ≡ some (k, p)
      → promise ≡ some p
  unfolding take_created set_status
  take_created-promise w none promise p k t = cc
  take_created-promise w (some h) none p k t = cc
  take_created-promise w (some h) (some q) p k t = ground arith

  -- The part of `kill` before the task runs: one round is enough.
  kill_promise-Later :
      (w w' : Tasks T) (handle promise h : Option ℕ) (target : PromiseStatus) (force r : Bool)
      → 3 ≤ status_rank target
      → kill_promise w handle promise target force ≡ some (w', r, h)
      → Later w w'
  unfolding kill_promise set_status
  kill_promise-Later w w' none promise h target force r t e j =
      (λ k. ground arith, λ k. ground arith)
  kill_promise-Later w w' (some k) none h target force r t e j =
      (λ k. ground arith, λ k. ground arith)
  kill_promise-Later w w' (some k) (some p) h target force r t e j =
      (λ k. ground arith, λ k. ground arith)

  kill_promise-ne-none :
      (w : Tasks T) (handle promise : Option ℕ) (target : PromiseStatus) (force : Bool)
      → kill_promise w handle promise target force ≢ none
  unfolding kill_promise set_status
  kill_promise-ne-none w none promise target force e = cc
  kill_promise-ne-none w (some k) none target force e = cc
  kill_promise-ne-none w (some k) (some p) target force e = ground arith

  -- A kill that succeeds gives the target, and finds no status that is final.
  pub kill_promise-true :
      (w w' : Tasks T) (handle promise h : Option ℕ) (p : ℕ) (target : PromiseStatus) (force : Bool)
      → promise ≡ some p
      → kill_promise w handle promise target force ≡ some (w', true, h)
      → (w'.promises p).status ≡ target
  unfolding kill_promise set_status
  kill_promise-true w w' none promise h p target force e k = ground arith
  kill_promise-true w w' (some x) none h p target force e k = ground arith
  kill_promise-true w w' (some x) (some q) h p target force e k = ground arith

  pub kill_promise-final :
      (w : Tasks T) (handle promise : Option ℕ) (p : ℕ) (target : PromiseStatus) (force : Bool)
      (r : Tasks T × Bool × Option ℕ)
      → promise ≡ some p
      → 3 ≤ status_rank (w.promises p).status
      → kill_promise w handle promise target force ≡ some r
      → r.1 ≡ false
  unfolding kill_promise set_status
  kill_promise-final w none promise p target force r e s k = ground arith
  kill_promise-final w (some x) none p target force r e s k = ground arith
  kill_promise-final w (some x) (some q) p target force r e s k = ground arith

  set_lock-current_handle :
      (w : Tasks T) (c : ℕ) (b : Bool)
      → (context_of (set_lock w c b) c).current_handle ≡ (context_of w c).current_handle
  set_lock-current_handle w c b = ground arith

  kill_loop_lem :
      (fuel : ℕ) (w : Tasks T) (f c c' : ℕ) (target : PromiseStatus) (force : Bool)
      → future_context w f ≡ some c'
      → kill_loop (suc fuel) w f c target force ≡ kill_round w c target force
  unfolding kill_loop kill_round
  kill_loop_lem fuel w f c c' target force e =
      let d = (context_of w c).current_handle in
      elim (Option-cases (kill_promise w d.handle d.promise target force)) [
        | inl k ↦ absurd (kill_promise-ne-none w d.handle d.promise target force k)
        | inr (r, k) ↦ rw (e, kill_loop, kill_round, k) refl
      ]

module _ {T : Type 0} (rt : TaskRuntime T) where
  -- `kill`, at a final target, of a task that has a context: it refuses a task whose lock is held or
  -- that has no handle, and else makes one round under the lock, runs the task and unlocks.
  pub kill_lem :
      (fuel : ℕ) (w : Tasks T) (f c : ℕ) (target : PromiseStatus) (force : Bool)
      → 3 ≤ status_rank target
      → future_context w f ≡ some c
      → let d = (context_of w c).current_handle in
        ((kill rt (suc fuel) w f target force ≡ some (w, false)))
        ⊎ ((r : Tasks T × Bool × Option ℕ) × (kill_promise
                (set_lock w c true)
                d.handle
                d.promise
                target
                force
              ≡ some r)
            × (kill rt (suc fuel) w f target force ≡ some (run_killed rt r.0 c r.2, r.1)))
  unfolding kill kill_locked kill_round
  kill_lem fuel w f c target force t e =
      let d = (context_of w c).current_handle in
      let w1 = set_lock w c true in
      let final : ltb (status_rank target) (status_rank done) ≡ false = ground (arith, t) in
      elim (Bool-cases (context_of w c).is_locked) [
        | inl l ↦ inl (rw (final, kill, e, l) refl)
        | inr l ↦ elim (Option-cases d.handle) [
          | inl k ↦ inl (rw (final, kill, e, l, kill_locked, k) refl)
          | inr (h, k) ↦ elim (Option-cases (kill_promise w1 d.handle d.promise target force)) [
            | inl n ↦ absurd (kill_promise-ne-none w1 d.handle d.promise target force n)
            | inr (r, n) ↦
                let round : kill_round w1 c target force ≡ some r =
                  ap (λ (x : HandleDelegate). kill_promise w1 x.handle x.promise target force)
                    (set_lock-current_handle w c true)
                  ∙ n in
                let loop = kill_loop_lem fuel w1 f c c target force e ∙ round in
                inr (r, n, rw (final, kill, e, l, kill_locked, k, loop) refl)
          ]
        ]
      ]

  pub run_killed-Later :
      IsForward rt → (w : Tasks T) (c : ℕ) (h : Option ℕ) → Later w (run_killed rt w c h)
  unfolding run_killed
  run_killed-Later forward w c none = Later-refl w
  run_killed-Later forward w c (some h) = forward.resume-Later w h

  kill-none :
      (fuel : ℕ) (w : Tasks T) (f : ℕ) (target : PromiseStatus) (force : Bool)
      → ltb (status_rank target) (status_rank done) ≡ false
      → future_context w f ≡ none
      → kill rt fuel w f target force ≡ some (w, false)
  unfolding kill
  kill-none fuel w f target force t e = rw (t, kill, e) refl

  -- `kill` ends in one round.
  pub kill_total :
      (fuel : ℕ) (w : Tasks T) (f : ℕ) (target : PromiseStatus) (force : Bool)
      → (r : Tasks T × Bool) × (kill rt (suc fuel) w f target force ≡ some r)
        × (IsForward rt → Later w r.0)
  unfolding kill
  kill_total fuel w f target force =
      elim (Bool-cases (ltb (status_rank target) (status_rank done))) [
        | inl low ↦ ((w, false), rw (low, kill) refl, λ _. Later-refl w)
        | inr final ↦ elim (Option-cases (future_context w f)) [
          | inl e ↦ ((w, false), kill-none (suc fuel) w f target force final e, λ _. Later-refl w)
          | inr (c, e) ↦
              let t : 3 ≤ status_rank target = ground (arith, final) in
              elim (kill_lem fuel w f c target force t e) [
                | inl same ↦ ((w, false), same, λ _. Later-refl w)
                | inr (r, round, same) ↦ (
                  (run_killed rt r.0 c r.2, r.1),
                  same,
                  λ forward.
                      Later-trans w r.0 (run_killed rt r.0 c r.2)
                        (kill_promise-Later (set_lock w c true) r.0
                          (context_of w c).current_handle.handle
                          (context_of w c).current_handle.promise r.2 target force r.1 t round)
                        (run_killed-Later forward r.0 c r.2),
                )
              ]
        ]
      ]
