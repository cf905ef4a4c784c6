-- ===== src/StdCoroutine/Promise/Tasks/Forward.antt =====
-- The operations that run coroutines keep the final statuses, if the coroutines do.
use libcopp.Base.{
  ℕ, zero, suc, ◌-◌, ◌≡◌, refl, inl, inr, true, Option, none, some, List, [], ◌∷◌, arith, ◌==◌,
  if◌then◌else◌, Bool-cases, Option-cases,
}
use libcopp.StdCoroutine.Callers.{
  HandleDelegate, null_delegate, resume_caller, resume_all, is_resumable,
}
use libcopp.StdCoroutine.Callers.Variant.{Callers, single, multi, emptied, resume_taken}
use libcopp.StdCoroutine.Promise.{
  killed, final_suspend, set_flag, with_promise, runtime, promise_resume_callers,
  final_await_suspend,
}
use libcopp.StdCoroutine.Promise.Tasks.{
  Tasks, TaskRuntime, context_of, with_context, set_value, move_context, is_pending, unbound,
}
use libcopp.StdCoroutine.Promise.Tasks.Lifetime.{
  kill_unfinished, unfinished, finish_loop, force_finish, force_destroy, mark_destroying,
  destroy_handle, destroy_context, release, unbind_from_manager, task_final_await_suspend, disown,
}
use libcopp.StdCoroutine.Promise.Tasks.Futures.{future_context, with_future, uncount_future, reset}
use libcopp.StdCoroutine.Promise.Tasks.Statuses.{
  Later, Later-refl, Later-trans, with_promise-Later, kill_unfinished-Later, IsForward,
}

module _ {T : Type 0} (rt : TaskRuntime T) (forward : IsForward rt) where
  resume_caller-Later :
      (w : Tasks T) (d : HandleDelegate) → Later w (resume_caller (runtime rt.resume) w d).0
  unfolding resume_caller
  resume_caller-Later w d = elim (Option-cases d.handle) [
    | inl e ↦ rw (e, resume_caller) (Later-refl w)
    | inr (h, e) ↦ elim (Bool-cases (is_resumable (runtime rt.resume) w d h)) [
      | inl r ↦ rw (e, resume_caller, r) (forward.resume-Later w h)
      | inr r ↦ rw (e, resume_caller, r) (Later-refl w)
    ]
  ]

  resume_all-Later :
      (w : Tasks T) (l : List HandleDelegate) → Later w (resume_all (runtime rt.resume) w l).0
  unfolding resume_all
  resume_all-Later w [] = Later-refl w
  resume_all-Later w (d ∷ l) =
      let w' = (resume_caller (runtime rt.resume) w d).0 in
      Later-trans w w' (resume_all (runtime rt.resume) w' l).0 (resume_caller-Later w d)
        (resume_all-Later w' l)

  resume_taken-Later :
      (w : Tasks T) (m : Callers) → Later w (resume_taken (runtime rt.resume) w m).0
  unfolding resume_taken
  resume_taken-Later w (single d) = resume_caller-Later w d
  resume_taken-Later w (multi l) = resume_all-Later w l

  final_await_suspend-Later : (w : Tasks T) (p : ℕ) → Later w (final_await_suspend rt.resume w p)
  unfolding final_await_suspend promise_resume_callers set_flag
  final_await_suspend-Later w p =
      let w1 = with_promise w p (set_flag (w.promises p) final_suspend true) in
      let m = (w1.promises p).caller_manager in
      let w2 = with_promise w1 p (record (w1.promises p) { caller_manager = emptied m }) in
      let w3 = (resume_taken (runtime rt.resume) w2 m).0 in
      Later-trans w w1 w3
        (with_promise-Later w p (set_flag (w.promises p) final_suspend true) (λ h. refl, λ h. h))
        (Later-trans w1 w2 w3
          (with_promise-Later w1 p (record (w1.promises p) { caller_manager = emptied m })
            (λ h. refl, λ h. h))
          (resume_taken-Later w2 m))

  pub finish_loop-Later :
      (fuel : ℕ) (w w' : Tasks T) (c : ℕ) → finish_loop rt fuel w c ≡ some w' → Later w w'
  unfolding finish_loop
  finish_loop-Later zero w w' c e = cc
  finish_loop-Later (suc fuel) w w' c e = elim (Option-cases (unfinished w c)) [
    | inl u ↦ let same : w ≡ w' = ground (arith, u, e) in rw (← same) (Later-refl w)
    | inr (h, u) ↦
        Later-trans w (rt.resume w h) w' (forward.resume-Later w h)
          (finish_loop-Later fuel (rt.resume w h) w' c (rw (u, finish_loop) at e))
  ]

  pub force_finish-Later :
      (fuel : ℕ) (w w' : Tasks T) (c : ℕ) → force_finish rt fuel w c ≡ some w' → Later w w'
  unfolding force_finish
  force_finish-Later fuel w w' c e =
      Later-trans w (kill_unfinished w c) w' (kill_unfinished-Later w c)
        (finish_loop-Later fuel (kill_unfinished w c) w' c e)

  mark_destroying-Later : (w : Tasks T) (p : Option ℕ) → Later w (mark_destroying rt w p)
  unfolding mark_destroying set_flag
  mark_destroying-Later w none = Later-refl w
  mark_destroying-Later w (some p) = with_promise-Later w p _ (λ h. refl, λ h. h)

  destroy_handle-Later : (w : Tasks T) (h : Option ℕ) → Later w (destroy_handle rt w h)
  unfolding destroy_handle
  destroy_handle-Later w none = Later-refl w
  destroy_handle-Later w (some h) = forward.destroy-Later w h

  force_destroy-Later : (w : Tasks T) (c : ℕ) → Later w (force_destroy rt w c)
  unfolding force_destroy
  force_destroy-Later w c =
      let d = (context_of w c).current_handle in
      let w1 = with_context w c (record (context_of w c) { current_handle = null_delegate }) in
      let w2 = mark_destroying rt w1 d.promise in
      Later-trans w w2 (destroy_handle rt w2 d.handle) (mark_destroying-Later w1 d.promise)
        (destroy_handle-Later w2 d.handle)

  destroy_context-Later :
      (fuel : ℕ) (w w' : Tasks T) (c : ℕ) → destroy_context rt fuel w c ≡ some w' → Later w w'
  unfolding destroy_context set_value
  destroy_context-Later fuel w w' c e =
      let w1 = if is_pending w c then set_value w c (rt.error_transform killed) else w in
      let first : Later w w1 = elim (Bool-cases (is_pending w c)) [
        | inl b ↦ rw b (Later-refl w)
        | inr b ↦ rw b (Later-refl w)
      ] in
      elim (Option-cases (force_finish rt fuel w1 c)) [
        | inl f ↦ cc (rw (f, destroy_context) at e)
        | inr (w2, f) ↦ Later-trans w w1 w' first (
            Later-trans w1 w2 w' (force_finish-Later fuel w1 w2 c f) (
              let same : force_destroy rt w2 c ≡ w' = ground (arith, e, f) in
              rw (← same) (force_destroy-Later w2 c)))
      ]

  pub release-Later :
      (fuel : ℕ) (w w' : Tasks T) (c : ℕ) → release rt fuel w c ≡ some w' → Later w w'
  unfolding release
  release-Later fuel w w' c e = elim (Bool-cases (w.others.use_count c - 1 == 0)) [
    | inl z ↦ destroy_context-Later fuel (disown w c) w' c (rw (z, release) at e)
    | inr z ↦ let moved : disown w c ≡ w' = ground (arith, z, e) in rw (← moved) (Later-refl w)
  ]

  unbind_from_manager-Later : (w : Tasks T) (c : ℕ) → Later w (unbind_from_manager rt w c)
  unfolding unbind_from_manager
  unbind_from_manager-Later w c = elim (Option-cases (context_of w c).binding_manager_ptr) [
    | inl e ↦ rw (e, unbind_from_manager) (Later-refl w)
    | inr (m, e) ↦ elim (Option-cases (context_of w c).binding_manager_fn) [
      | inl g ↦ rw (e, unbind_from_manager, g) (Later-refl w)
      | inr (f, g) ↦ rw (e, unbind_from_manager, g) (forward.notify-Later (unbound w c) f m c)
    ]
  ]

  pub task_final_await_suspend-Later :
      (fuel : ℕ) (w w' : Tasks T) (p : ℕ)
      → task_final_await_suspend rt fuel w p ≡ some w'
      → Later w w'
  unfolding task_final_await_suspend move_context
  task_final_await_suspend-Later fuel w w' p e =
      elim (Option-cases (w.others.context_strong_ref p)) [
        | inl g ↦ cc (rw (g, task_final_await_suspend) at e)
        | inr (c, g) ↦
            let w1 = (move_context w p).0 in
            let w2 = unbind_from_manager rt w1 c in
            let w3 = final_await_suspend rt.resume w2 p in
            Later-trans w w2 w' (unbind_from_manager-Later w1 c) (
              Later-trans w2 w3 w' (final_await_suspend-Later w2 p)
                (release-Later fuel w3 w' c (rw (g, task_final_await_suspend) at e)))
      ]

  pub reset-Later : (fuel : ℕ) (w w' : Tasks T) (f : ℕ) → reset rt fuel w f ≡ some w' → Later w w'
  unfolding reset uncount_future
  reset-Later fuel w w' f e = elim (Option-cases (future_context w f)) [
    | inl g ↦ let same : w ≡ w' = ground (arith, g, e) in rw (← same) (Later-refl w)
    | inr (c, g) ↦
        let w1 = uncount_future (with_future w f none) c in
        elim (Bool-cases ((context_of w1 c).future_counter == 0)) [
          | inr z ↦ release-Later fuel w1 w' c (rw (g, reset, z) at e)
          | inl z ↦ elim (Option-cases (force_finish rt fuel w1 c)) [
            | inl k ↦ cc (rw (g, reset, z, k) at e)
            | inr (w2, k) ↦
                Later-trans w w2 w' (force_finish-Later fuel w1 w2 c k)
                  (release-Later fuel w2 w' c (rw (g, reset, z, k) at e))
          ]
        ]
  ]
