-- ===== src/StdCoroutine/Promise/Callables/Awaiting.antt =====
-- What a coroutine that waits for a callable gets.
use libcopp.Base.{
  ℕ, ◌≤◌, ◌≡◌, refl, ap, ◌∙◌, inl, inr, Bool, true, false, none, some, arith, ltb, ◌==◌, Bool-cases,
  Option-cases,
}
use libcopp.StdCoroutine.Callers.{HandleDelegate, null_delegate}
use libcopp.StdCoroutine.Promise.{
  status_rank, internal_waitting, has_returned, World, Resume, check_flag, set_flag, set_status,
  set_waiting_handle, promise_remove_caller, inherits, waiting_for, resume_from, resume_waiting,
}
use libcopp.StdCoroutine.Promise.Callables.{
  CallableStore, with_data, Callables, CallableRuntime, CallableAwaitable, delegate, return_value,
  clear_caller, leave_callee, end_callee, detach, take_data, await_resume,
}

-- A coroutine that waits for nothing resumes nothing.
resume_waiting_idle :
    {E : Type 0} (resume : Resume E) (w : World E) (h : ℕ) (current : HandleDelegate)
    (inherit_status : Bool)
    → (w.promises h).current_waiting.handle ≡ none
    → check_flag (w.promises h) internal_waitting ≡ false
    → resume_waiting resume w h current inherit_status ≡ w
unfolding resume_waiting resume_from waiting_for
resume_waiting_idle resume w h current i e n = elim (Option-cases (waiting_for w current)) [
  | inl o ↦ rw (resume_waiting, waiting_for, e, o, resume_from) refl
  | inr (k, o) ↦ rw (resume_waiting, waiting_for, e, o, resume_from, n) refl
]

module _ {T : Type 0} where
  -- A callee with a final status keeps its promise but for its callers.
  leave_callee-same :
      (w : Callables T) (h c : ℕ)
      → (c == h) ≡ false
      → 3 ≤ status_rank (w.promises h).status
      → let w' = leave_callee w h (delegate c) in
        ((w'.promises h).status ≡ (w.promises h).status)
        × ((j : ℕ) → (w'.promises h).flags j ≡ (w.promises h).flags j)
        × ((w'.promises h).current_waiting ≡ (w.promises h).current_waiting)
        × (w'.others ≡ w.others)
        × (check_flag (w'.promises c) internal_waitting ≡ false)
        × ((w'.promises c).current_waiting ≡ null_delegate)
  unfolding leave_callee clear_caller promise_remove_caller inherits set_flag set_waiting_handle
      check_flag
  leave_callee-same w h c n s = (
    ground (arith, n, s),
    (λ j. ground (arith, n, s)),
    ground (arith, n),
    refl,
    ground (arith, n),
    ground (arith, n),
  )

  end_callee_final :
      (w : Callables T) (h : ℕ) (caller : HandleDelegate)
      → 3 ≤ status_rank (w.promises h).status
      → end_callee w h caller ≡ some w
  unfolding end_callee
  end_callee_final w h caller s = ground (arith, s)

  -- The promise after `return_value`.
  return_value-same :
      (w : Callables T) (h : ℕ) (v : T)
      → let w' = return_value w h v in
        (3 ≤ status_rank (w'.promises h).status)
        × (check_flag (w'.promises h) has_returned ≡ true)
        × (check_flag (w'.promises h) internal_waitting
            ≡ check_flag (w.promises h) internal_waitting)
        × ((w'.promises h).current_waiting ≡ (w.promises h).current_waiting)
        × (w'.others.data_of h ≡ v)
  unfolding return_value set_flag set_status check_flag
  return_value-same w h v = elim (Bool-cases (ltb (status_rank (w.promises h).status) 3)) [
    | inl l ↦
        (ground (arith, l), ground (arith, l), ground (arith, l), ground (arith, l), ground arith)
    | inr l ↦
        (ground (arith, l), ground (arith, l), ground (arith, l), ground (arith, l), ground arith)
  ]

  detach_ended :
      (w w1 : Callables T) (a : CallableAwaitable) (h : ℕ) (caller : HandleDelegate)
      → a.callee ≡ some h
      → a.caller ≡ caller
      → end_callee (leave_callee w h caller) h caller ≡ some w1
      → detach w a ≡ some (w1, record a { caller = null_delegate })
  unfolding detach
  detach_ended w w1 a h caller e d x =
      let x' : end_callee (leave_callee w h a.caller) h a.caller ≡ some w1 =
        ap (λ k. end_callee (leave_callee w h k) h k) d ∙ x in
      rw (detach, e, x') (ap (λ o. some (w1, record { callee = o; caller = null_delegate })) e)

module _ {T : Type 0} (rt : CallableRuntime T) where
  await_resume-detached :
      (w w1 : Callables T) (a a' : CallableAwaitable) (h : ℕ)
      → a.callee ≡ some h
      → detach w a ≡ some (w1, a')
      → resume_waiting rt.resume w1 h (delegate h) true ≡ w1
      → check_flag (w1.promises h) has_returned ≡ true
      → let v = w1.others.data_of h in
        await_resume rt w a ≡ some ((with_data w1 h (rt.move_from v), a'), v)
  unfolding await_resume take_data
  await_resume-detached w w1 a a' h e x idle r = rw (await_resume, e, x, idle, take_data, r) refl

  -- After the callee `h` of a coroutine `c` that waits for it returns `v`, where `h` waits for
  -- nothing itself, `await_resume` gives `v`; then `c` waits for nothing, the awaitable has no
  -- caller, and `h` keeps what is left of `v` once it is moved.
  pub await_resume-return_value :
      (w : Callables T) (a : CallableAwaitable) (h c : ℕ) (v : T)
      → a.callee ≡ some h
      → a.caller ≡ delegate c
      → (c == h) ≡ false
      → check_flag (w.promises h) internal_waitting ≡ false
      → (w.promises h).current_waiting.handle ≡ none
      → (w' : Callables T) × (await_resume rt (return_value w h v) a
          ≡ some ((w', record a { caller = null_delegate }), v))
        × (check_flag (w'.promises c) internal_waitting ≡ false)
        × ((w'.promises c).current_waiting ≡ null_delegate)
        × (w'.others.data_of h ≡ rt.move_from v)
  unfolding check_flag
  await_resume-return_value w a h c v e d n i idle =
      let w0 = return_value w h v in
      let (rank, r, i0, k0, v0) = return_value-same w h v in
      let w1 = leave_callee w0 h (delegate c) in
      let (s1, f1, k1, o1, c1, m1) = leave_callee-same w0 h c n rank in
      let rank1 : 3 ≤ status_rank (w1.promises h).status = omega (arith, rank, ap status_rank s1) in
      let ended = end_callee_final w1 h (delegate c) rank1 in
      let is_idle =
        resume_waiting_idle rt.resume w1 h (delegate h) true
          (ap (λ (x : HandleDelegate). x.handle) (k1 ∙ k0) ∙ idle) (f1 2 ∙ i0 ∙ i) in
      let value : w1.others.data_of h ≡ v = ap (λ (x : CallableStore T). x.data_of h) o1 ∙ v0 in
      let result =
        await_resume-detached w0 w1 a (record a { caller = null_delegate }) h e
          (detach_ended w0 w1 a h (delegate c) e d ended) is_idle (f1 3 ∙ r) in
      (
        with_data w1 h (rt.move_from (w1.others.data_of h)),
        (result
            ∙ ap
                (λ x. some (
                  (
                    with_data w1 h (rt.move_from (w1.others.data_of h)),
                    record a { caller = null_delegate },
                  ),
                  x,
                ))
                value),
        c1,
        m1,
        (ground arith ∙ ap rt.move_from value),
      )
