-- ===== src/StdCoroutine/Promise/Waiting.antt =====
-- A promise that stops waiting is resumed by nobody else.
use libcopp.Base.{ℕ, ◌≡◌, refl, ap, ◌∙◌, Bool, false, some, arith, ◌==◌}
use mathlib.Core.Path.{ap₂}
use libcopp.StdCoroutine.Callers.{HandleDelegate, null_delegate, same_handle}
use libcopp.StdCoroutine.Callers.Sets.{same_handle_refl}
use libcopp.StdCoroutine.Callers.Variant.{contains}
use libcopp.StdCoroutine.Callers.Variant.Holds.{remove_caller-contains}
use libcopp.StdCoroutine.Promise.{
  World, with_promise, Resume, waiting_for, promise_remove_caller, leave_waiting, resume_from,
  resume_waiting,
}

removed-contains :
    {E : Type 0} (w : World E) (self : ℕ) (d : HandleDelegate) (k : ℕ) (inherit_status : Bool)
    → d.handle ≡ some k
    → contains k ((promise_remove_caller w self d inherit_status).promises self).caller_manager
      ≡ false
unfolding promise_remove_caller
removed-contains w self d k i e =
    let same = ap (λ o. same_handle o (some k)) e ∙ same_handle_refl (some k) in
    ground (arith, remove_caller-contains (w.promises self).caller_manager d k, same)

removed-waiting :
    {E : Type 0} (w : World E) (self j : ℕ) (d : HandleDelegate) (inherit_status : Bool)
    → ((promise_remove_caller w self d inherit_status).promises j).current_waiting
      ≡ (w.promises j).current_waiting
unfolding promise_remove_caller
removed-waiting w self j d i = ground arith

waiting_for_lem :
    {E : Type 0} (w : World E) (d : HandleDelegate) (h : ℕ)
    → d.handle ≡ some h
    → w.is_done h ≡ false
    → waiting_for w d ≡ some h
unfolding waiting_for
waiting_for_lem w d h e live = rw (e, waiting_for, live) refl

-- A promise that waits for the coroutine `h` of the promise `q`, which is not done, resumes it with
-- `resume_waiting`; when it does, it waits no more and its own coroutine `k` is no caller of `q`, so
-- that the end of `q` does not resume `k` a second time, and no third promise has changed.
pub resume_waiting-leaves :
    {E : Type 0} (resume : Resume E) (w : World E) (self h q k : ℕ) (current : HandleDelegate)
    (inherit_status : Bool)
    → let waiting = (w.promises self).current_waiting in
      waiting.handle ≡ some h
      → w.is_done h ≡ false
      → waiting.promise ≡ some q
      → current.handle ≡ some k
      → (w' : World E) × (resume_waiting resume w self current inherit_status ≡ resume w' h)
        × ((w'.promises self).current_waiting ≡ null_delegate)
        × (contains k (w'.promises q).caller_manager ≡ false)
        × ((j : ℕ) → (self == j) ≡ false → (q == j) ≡ false → w'.promises j ≡ w.promises j)
unfolding resume_waiting resume_from leave_waiting promise_remove_caller
resume_waiting-leaves resume w self h q k current i e live p c =
    let w1 = with_promise w self (record (w.promises self) { current_waiting = null_delegate }) in
    let w' = promise_remove_caller w1 q current i in
    (
      w',
      ap₂ (λ a b. resume_from resume w self current i a b (waiting_for w current))
          (waiting_for_lem w (w.promises self).current_waiting h e live) p,
      (removed-waiting w1 q self current i ∙ ground arith),
      removed-contains w1 q current k i c,
      (λ j a b. ground (arith, a, b)),
    )
