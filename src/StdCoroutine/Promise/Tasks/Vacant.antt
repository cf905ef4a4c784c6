-- ===== src/StdCoroutine/Promise/Tasks/Vacant.antt =====
-- A variable whose future is being reset stays empty while the task is run to its end.
use libcopp.Base.{
  ℕ, zero, suc, ◌-◌, ◌<◌, ◌≡◌, refl, subst, inl, inr, true, Option, none, some, List, [], ◌∷◌,
  arith, ◌==◌, if◌then◌else◌, Bool-cases, Option-cases, length,
}
use libcopp.IntrusivePtr.{get, set}
use libcopp.StdCoroutine.Callers.{null_delegate}
use libcopp.StdCoroutine.Promise.{killed}
use libcopp.StdCoroutine.Promise.Tasks.{
  TaskContext, TaskStore, Tasks, TaskRuntime, context_of, with_context, set_value, is_pending,
}
use libcopp.StdCoroutine.Promise.Tasks.Lifetime.{
  disown, kill_unfinished, unfinished, finish_loop, force_finish, force_destroy, mark_destroying,
  destroy_handle, destroy_context, release,
}
use libcopp.StdCoroutine.Promise.Tasks.Futures.{same_context}
use libcopp.StdCoroutine.Promise.Tasks.Counts.{IsCounted, kill_unfinished-others}
use libcopp.StdCoroutine.Promise.Tasks.Finishing.{IsFinite, force_finish_total}

pub get-set-none : (l : List (Option ℕ)) (f : ℕ) → get (set l f none) f ≡ none
unfolding get set
get-set-none [] f = refl
get-set-none (u ∷ l) zero = refl
get-set-none (u ∷ l) (suc f) = get-set-none l f

pub get-set_self :
    (l : List (Option ℕ)) (f : ℕ) (v : Option ℕ) → f < length l → get (set l f v) f ≡ v
unfolding get set
get-set_self [] f v h = absurd (omega arith)
get-set_self (u ∷ l) zero v h = refl
get-set_self (u ∷ l) (suc f) v h = get-set_self l f v (omega arith)

pub same_context-eq : (a b : Option ℕ) → same_context a b ≡ true → a ≡ b
same_context-eq none none s = refl
same_context-eq none (some b) s = cc
same_context-eq (some a) none s = cc
same_context-eq (some a) (some b) s = ground arith

-- The futures are counted, and the variable `f` holds none.
pub record IsVacant {T : Type 0} (n f : ℕ) (s : TaskStore T) : Type 0 where
  pub counts : IsCounted n s
  pub vacant : get s.futures f ≡ none

module _ {T : Type 0} (rt : TaskRuntime T) (n f : ℕ) where
  -- The coroutines count their futures and leave the variable `f` alone while it is assigned, and
  -- each ends before it is resumed `fuel` times.
  pub record IsCounting (fuel : ℕ) : Type 0 where
    pub finite : (c : ℕ) → IsFinite rt c fuel
    pub resume-IsVacant :
        (w : Tasks T) (h : ℕ) → IsVacant n f w.others → IsVacant n f (rt.resume w h).others
    pub destroy-IsVacant :
        (w : Tasks T) (h : ℕ) → IsVacant n f w.others → IsVacant n f (rt.destroy w h).others

module _ {T : Type 0} (rt : TaskRuntime T) (n f fuel : ℕ) (counting : IsCounting rt n f fuel) where
  finish_loop-IsVacant :
      (rounds : ℕ) (w w' : Tasks T) (c : ℕ)
      → IsVacant n f w.others
      → finish_loop rt rounds w c ≡ some w'
      → IsVacant n f w'.others
  unfolding finish_loop
  finish_loop-IsVacant zero w w' c v e = cc
  finish_loop-IsVacant (suc rounds) w w' c v e = elim (Option-cases (unfinished w c)) [
    | inl u ↦
        let same : w ≡ w' = ground (arith, u, e) in
        subst (λ (x : Tasks T). IsVacant n f x.others) same v
    | inr (h, u) ↦
        finish_loop-IsVacant rounds (rt.resume w h) w' c (counting.resume-IsVacant w h v)
          (rw (u, finish_loop) at e)
  ]

  pub force_finish-IsVacant :
      (w w' : Tasks T) (c : ℕ)
      → IsVacant n f w.others
      → force_finish rt fuel w c ≡ some w'
      → IsVacant n f w'.others
  unfolding force_finish
  force_finish-IsVacant w w' c v e =
      finish_loop-IsVacant fuel (kill_unfinished w c) w' c (rw (kill_unfinished-others w c) v) e

  -- What leaves the counters and the variables alone.
  keeps-IsVacant :
      (w : Tasks T) (c : ℕ) (x : TaskContext T)
      → x.future_counter ≡ (context_of w c).future_counter
      → IsVacant n f w.others
      → IsVacant n f (with_context w c x).others
  keeps-IsVacant w c x e v = record {
    counts = record { room = v.counts.room; counted = λ j. ground (arith, e, v.counts.counted j) };
    vacant = v.vacant;
  }

  destroy_handle-IsVacant :
      (w : Tasks T) (h : Option ℕ)
      → IsVacant n f w.others
      → IsVacant n f (destroy_handle rt w h).others
  unfolding destroy_handle
  destroy_handle-IsVacant w none v = v
  destroy_handle-IsVacant w (some h) v = counting.destroy-IsVacant w h v

  mark_destroying-others : (w : Tasks T) (p : Option ℕ) → (mark_destroying rt w p).others ≡ w.others
  unfolding mark_destroying
  mark_destroying-others w none = refl
  mark_destroying-others w (some p) = refl

  force_destroy-IsVacant :
      (w : Tasks T) (c : ℕ) → IsVacant n f w.others → IsVacant n f (force_destroy rt w c).others
  unfolding force_destroy
  force_destroy-IsVacant w c v =
      let d = (context_of w c).current_handle in
      let w' = with_context w c (record (context_of w c) { current_handle = null_delegate }) in
      let v' =
        keeps-IsVacant w c (record (context_of w c) { current_handle = null_delegate }) refl v in
      destroy_handle-IsVacant (mark_destroying rt w' d.promise) d.handle
        (rw (mark_destroying-others w' d.promise) v')

  pub release-IsVacant :
      (w w' : Tasks T) (c : ℕ)
      → IsVacant n f w.others
      → release rt fuel w c ≡ some w'
      → IsVacant n f w'.others
  unfolding release destroy_context set_value
  release-IsVacant w w' c v e =
      let u = disown w c in
      let dropped : IsVacant n f u.others = record {
        counts = record { room = v.counts.room; counted = v.counts.counted };
        vacant = v.vacant;
      } in
      let x = if is_pending u c then set_value u c (rt.error_transform killed) else u in
      let given : IsVacant n f x.others = elim (Bool-cases (is_pending u c)) [
        | inl b ↦ rw b (
            keeps-IsVacant u c
              (record (context_of u c) { value = some (rt.error_transform killed) }) refl dropped)
        | inr b ↦ rw b dropped
      ] in
      let (y, run, end) = force_finish_total rt fuel x c (counting.finite c) in
      elim (Bool-cases (w.others.use_count c - 1 == 0)) [
        | inl z ↦
            let same : some (force_destroy rt y c) ≡ some w' =
              rw (z, release, destroy_context, run) at e in
            let same' : force_destroy rt y c ≡ w' = cc in
            subst (λ (t : Tasks T). IsVacant n f t.others) same'
              (force_destroy-IsVacant y c (force_finish-IsVacant x y c given run))
        | inr z ↦
            let same : some u ≡ some w' = rw (z, release) at e in
            let same' : u ≡ w' = cc in subst (λ (t : Tasks T). IsVacant n f t.others) same' dropped
      ]
