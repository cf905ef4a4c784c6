-- ===== src/StdCoroutine/Promise/Callables/Actions.antt =====
-- `some_delegate_callable_action` fills the interface of the wait for some of several futures.
use libcopp.Base.{ℕ, ◌≡◌, refl, ap, inl, inr, Bool, false, Option, none, some, arith, Option-cases}
use libcopp.StdCoroutine.Callers.{HandleDelegate}
use libcopp.StdCoroutine.Promise.{
  Promise, internal_waitting, set_flag, with_promise, promise_remove_caller, inherits,
}
use libcopp.StdCoroutine.Promise.Callables.{
  Callables, suspend_future, resume_future, is_pending, future_status,
}
use libcopp.StdCoroutine.Some.{SomeActions}
use libcopp.StdCoroutine.Some.Scan.{IsStable}

abbrev or_not : Option Bool → Bool
or_not none = false
or_not (some b) = b

-- An empty future, which the action would dereference, is not pending here.
pub callable_actions : {T : Type 0} → SomeActions (Callables T)
unfolding suspend_future resume_future is_pending set_flag
callable_actions = record {
  is_pending = λ w f. or_not (is_pending w f);
  suspend_future = λ w d f. elim (suspend_future w d f) [ none ↦ w | some w' ↦ w' ];
  resume_future = λ w d f. elim (resume_future w d f) [ none ↦ w | some w' ↦ w' ];
  promise_status = λ w p. (w.promises p).status;
  set_internal_waitting = λ w p b. with_promise w p (set_flag (w.promises p) internal_waitting b);
}

module _ {T : Type 0} where
  -- Only the statuses say what is pending.
  is_pending_same :
      (w : Callables T) (promises : ℕ → Promise) (g : ℕ)
      → ((j : ℕ) → (promises j).status ≡ (w.promises j).status)
      → is_pending (record w { promises = promises }) g ≡ is_pending w g
  unfolding is_pending future_status
  is_pending_same w promises g same = elim (Option-cases (w.others.futures g)) [
    | inl e ↦ rw (is_pending, future_status, e) refl
    | inr (h, e) ↦ let at = same h in rw (is_pending, future_status, e, at) refl
  ]

  left_status :
      (w : Callables T) (h j : ℕ) (d : HandleDelegate)
      → ((promise_remove_caller w h d false).promises j).status ≡ (w.promises j).status
  unfolding promise_remove_caller inherits
  left_status w h j d = elim (Option-cases d.promise) [
    | inl e ↦ rw (promise_remove_caller, inherits, e) (ground arith)
    | inr (q, e) ↦ rw (promise_remove_caller, inherits, e) (ground arith)
  ]

  flag_status :
      (w : Callables T) (p j : ℕ) (b : Bool)
      → ((with_promise w p (set_flag (w.promises p) internal_waitting b)).promises j).status
        ≡ (w.promises j).status
  unfolding set_flag
  flag_status w p j b = ground arith

  resumed_same :
      (w : Callables T) (d : HandleDelegate) (f g : ℕ)
      → is_pending (elim (resume_future w d f) [ none ↦ w | some w' ↦ w' ]) g ≡ is_pending w g
  unfolding resume_future
  resumed_same w d f g = elim (Option-cases (w.others.futures f)) [
    | inl e ↦ rw (resume_future, e) refl
    | inr (h, e) ↦
        rw (resume_future, e)
          (is_pending_same w (promise_remove_caller w h d false).promises g
            (λ j. left_status w h j d))
  ]

-- No callable becomes pending, or ceases to be, by who waits for it.
pub callable_actions-IsStable : {T : Type 0} → IsStable (callable_actions {T = T})
unfolding callable_actions
callable_actions-IsStable = record {
  resume_stable = λ w d f g. ap or_not (resumed_same w d f g);
  waitting_stable = λ w p g b. ap or_not (
      is_pending_same w (with_promise w p (set_flag (w.promises p) internal_waitting b)).promises g
        (λ j. flag_status w p j b));
}
