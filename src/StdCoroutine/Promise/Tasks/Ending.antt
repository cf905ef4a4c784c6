-- ===== src/StdCoroutine/Promise/Tasks/Ending.antt =====
-- A start and a kill that succeed, and what every history after them leaves.
use libcopp.Base.{
  ℕ, suc, ◌≤◌, ◌≡◌, refl, ap, ◌∙◌, subst, inl, inr, Bool, true, false, none, some, arith,
  Bool-cases, Option-cases,
}
use libcopp.StdCoroutine.Promise.{PromiseStatus, status_rank}
use libcopp.StdCoroutine.Promise.Tasks.{Tasks, TaskRuntime, context_of}
use libcopp.StdCoroutine.Promise.Tasks.Futures.{future_context}
use libcopp.StdCoroutine.Promise.Tasks.Running.{
  set_lock, take_created, begin, may_resume, start, kill_promise, run_killed, kill,
}
use libcopp.StdCoroutine.Promise.Tasks.Statuses.{IsForward}
use libcopp.StdCoroutine.Promise.Tasks.Once.{
  kill_lem, kill_promise-true, run_killed-Later, kill_promise-final, take_created-none,
  take_created-rank, take_created-promise,
}
use libcopp.StdCoroutine.Promise.Tasks.Histories.{Reach, Reach-Later}

module _ {T : Type 0} (rt : TaskRuntime T) (forward : IsForward rt) where
  -- A task that starts, with the promise `p`, has left `created`.
  start-rank :
      (w : Tasks T) (f c p : ℕ)
      → future_context w f ≡ some c
      → (context_of w c).current_handle.promise ≡ some p
      → (start rt w f).1 ≡ true
      → 2 ≤ status_rank ((start rt w f).0.promises p).status
  unfolding start begin
  start-rank w f c p e d s = elim (Bool-cases (context_of w c).is_locked) [
    | inl l ↦ cc (rw (e, start, l) at s)
    | inr l ↦ elim (Option-cases (begin w c).1) [
      | inl t ↦ cc (rw (e, start, l, t) at s)
      | inr ((h, q), t) ↦
          let w1 = (begin w c).0 in
          let handle = (context_of w c).current_handle in
          let u = set_lock w c true in
          let taken : handle.promise ≡ some q =
            take_created-promise u handle.handle handle.promise q h t in
          let same : q ≡ p = cc in
          let left : 2 ≤ status_rank (w1.promises q).status =
            take_created-rank u handle.handle handle.promise q h taken t in
          let is_left : 2 ≤ status_rank (w1.promises p).status = rw (← same) left in
          elim (Bool-cases (may_resume w1 q)) [
            | inl m ↦ rw (e, start, l, t, m) ((forward.resume-Later w1 h p).1 is_left)
            | inr m ↦ rw (e, start, l, t, m) is_left
          ]
    ]
  ]

  start-false :
      (w : Tasks T) (f c p : ℕ)
      → future_context w f ≡ some c
      → (context_of w c).current_handle.promise ≡ some p
      → 2 ≤ status_rank (w.promises p).status
      → (start rt w f).1 ≡ false
  unfolding start begin
  start-false w f c p e d s = elim (Bool-cases (context_of w c).is_locked) [
    | inl l ↦ rw (e, start, l) refl
    | inr l ↦
        let u = set_lock w c true in
        let t : (begin w c).1 ≡ none =
          ap (λ o. (take_created u (context_of w c).current_handle.handle o).1) d
          ∙ take_created-none u (context_of w c).current_handle.handle p s in
        rw (e, start, l, t) refl
  ]

  kill-rank :
      (w w1 : Tasks T) (fuel f c p : ℕ) (target : PromiseStatus) (force : Bool)
      → 3 ≤ status_rank target
      → future_context w f ≡ some c
      → (context_of w c).current_handle.promise ≡ some p
      → kill rt (suc fuel) w f target force ≡ some (w1, true)
      → status_rank (w1.promises p).status ≡ status_rank target
  kill-rank w w1 fuel f c p target force t e d k =
      let h = (context_of w c).current_handle in
      elim (kill_lem rt fuel w f c target force t e) [
        | inl same ↦ cc
        | inr ((u, r, x), round, same) ↦
            let is_true : r ≡ true = cc in
            let is_world : run_killed rt u c x ≡ w1 = ground (arith, same, k) in
            let at_target : (u.promises p).status ≡ target =
              kill_promise-true (set_lock w c true) u h.handle h.promise x p target force d (
                subst
                  (λ (b : Bool).
                    kill_promise (set_lock w c true) h.handle h.promise target force
                    ≡ some (u, b, x))
                  is_true round) in
            let at_rank = ap status_rank at_target in
            let later = (run_killed-Later rt forward u c x p).0 in
            rw (← is_world) (omega (arith, later, at_rank))
      ]

  kill-false :
      (w w1 : Tasks T) (fuel f c p : ℕ) (target : PromiseStatus) (force r : Bool)
      → 3 ≤ status_rank target
      → future_context w f ≡ some c
      → (context_of w c).current_handle.promise ≡ some p
      → 3 ≤ status_rank (w.promises p).status
      → kill rt (suc fuel) w f target force ≡ some (w1, r)
      → r ≡ false
  kill-false w w1 fuel f c p target force r t e d s k =
      let h = (context_of w c).current_handle in
      elim (kill_lem rt fuel w f c target force t e) [
        | inl same ↦ cc
        | inr (x, round, same) ↦
            let still : x.1 ≡ false =
              kill_promise-final (set_lock w c true) h.handle h.promise p target force x d s
                round in
            cc
      ]

  -- After a start of a task that returns true, in every history of starts, kills, returns, waits and
  -- changes of futures whose coroutines keep the final statuses, no start of a future of a context
  -- with the same promise returns true again.
  pub start_once :
      (w w' : Tasks T) (f f' c c' p : ℕ)
      → future_context w f ≡ some c
      → (context_of w c).current_handle.promise ≡ some p
      → (start rt w f).1 ≡ true
      → Reach rt (start rt w f).0 w'
      → future_context w' f' ≡ some c'
      → (context_of w' c').current_handle.promise ≡ some p
      → (start rt w' f').1 ≡ false
  start_once w w' f f' c c' p e d s r e' d' =
      start-false w' f' c' p e' d' ((Reach-Later rt forward r p).1 (start-rank w f c p e d s))

  -- After a kill of a task that returns true, with a final target, in every such history the status
  -- of its promise stays the target, and no kill of a future of a context with the same promise
  -- returns true again.
  pub kill_once :
      (w w1 w' w2 : Tasks T) (fuel fuel' f f' c c' p : ℕ) (target target' : PromiseStatus)
      (force force' r : Bool)
      → 3 ≤ status_rank target
      → 3 ≤ status_rank target'
      → future_context w f ≡ some c
      → (context_of w c).current_handle.promise ≡ some p
      → kill rt (suc fuel) w f target force ≡ some (w1, true)
      → Reach rt w1 w'
      → future_context w' f' ≡ some c'
      → (context_of w' c').current_handle.promise ≡ some p
      → kill rt (suc fuel') w' f' target' force' ≡ some (w2, r)
      → (status_rank (w'.promises p).status ≡ status_rank target) × (r ≡ false)
  kill_once w w1 w' w2 fuel fuel' f f' c c' p target target' force force' r t t' e d k reach e' d'
        k' =
      let killed_rank = kill-rank w w1 fuel f c p target force t e d k in
      let later = Reach-Later rt forward reach p in
      let still : status_rank (w'.promises p).status ≡ status_rank target =
        omega (arith, later.0, killed_rank) in
      (still, kill-false w' w2 fuel' f' c' p target' force' r t' e' d' (omega (arith, still)) k')
