-- ===== src/StdCoroutine/Promise/Tasks/Finishing.antt =====
-- The last future of a task runs the task to its end.
use libcopp.Base.{
  ℕ, zero, suc, ◌-◌, ◌≤◌, ◌<◌, ◌≡◌, ◌∙◌, refl, inl, inr, true, none, some, arith, ltb, ◌==◌,
  if◌then◌else◌, Bool-cases, Option-cases,
}
use libcopp.StdCoroutine.Promise.{killed, status_rank, set_status, check_flag}
use libcopp.StdCoroutine.Promise.Tasks.{Tasks, TaskRuntime, context_of, set_value, is_pending}
use libcopp.StdCoroutine.Promise.Tasks.Lifetime.{
  kill_unfinished, unfinished, finish_loop, force_finish, force_destroy, destroy_context, release,
  disown,
}
use libcopp.StdCoroutine.Promise.Tasks.Futures.{future_context, with_future, uncount_future, reset}
use libcopp.StdCoroutine.Promise.Tasks.Statuses.{IsForward}
use libcopp.StdCoroutine.Promise.Tasks.Forward.{finish_loop-Later, release-Later}

module _ {T : Type 0} (rt : TaskRuntime T) where
  -- From every world the coroutine of the context `c` ends before it is resumed `fuel` times.
  pub record IsFinite (c fuel : ℕ) : Type 0 where
    pub left : Tasks T → ℕ
    pub resume_less :
        (w : Tasks T) (h : ℕ) → unfinished w c ≡ some h → left (rt.resume w h) < left w
    pub left-lt : (w : Tasks T) → left w < fuel

  finish_loop_total :
      (fuel rounds : ℕ) (w : Tasks T) (c : ℕ) (finite : IsFinite c fuel)
      → finite.left w < rounds
      → (w' : Tasks T) × (finish_loop rt rounds w c ≡ some w') × (unfinished w' c ≡ none)
  unfolding finish_loop
  finish_loop_total fuel zero w c finite h = absurd (omega arith)
  finish_loop_total fuel (suc rounds) w c finite h = elim (Option-cases (unfinished w c)) [
    | inl u ↦ (w, rw (u, finish_loop) refl, u)
    | inr (k, u) ↦
        let (w', run, end) =
          finish_loop_total fuel rounds (rt.resume w k) c finite
            (omega (arith, finite.resume_less w k u)) in
        (w', rw (u, finish_loop) run, end)
  ]

  pub force_finish_total :
      (fuel : ℕ) (w : Tasks T) (c : ℕ)
      → IsFinite c fuel
      → (w' : Tasks T) × (force_finish rt fuel w c ≡ some w') × (unfinished w' c ≡ none)
  unfolding force_finish
  force_finish_total fuel w c finite =
      finish_loop_total fuel fuel (kill_unfinished w c) c finite
        (finite.left-lt (kill_unfinished w c))

  pub release_total :
      (fuel : ℕ) (w : Tasks T) (c : ℕ)
      → IsFinite c fuel
      → (w' : Tasks T) × (release rt fuel w c ≡ some w')
  unfolding release destroy_context
  release_total fuel w c finite =
      let u = disown w c in
      let v = if is_pending u c then set_value u c (rt.error_transform killed) else u in
      let (w', run, end) = force_finish_total fuel v c finite in
      elim (Bool-cases (w.others.use_count c - 1 == 0)) [
        | inl z ↦ (force_destroy rt w' c, rw (z, release, destroy_context, run) refl)
        | inr z ↦ (u, rw (z, release) refl)
      ]

  kill_unfinished-rank :
      (w : Tasks T) (c p : ℕ)
      → (context_of w c).current_handle.promise ≡ some p
      → 3 ≤ status_rank ((kill_unfinished w c).promises p).status
  unfolding kill_unfinished set_status
  kill_unfinished-rank w c p e = elim (Bool-cases (ltb (status_rank (w.promises p).status) 3)) [
    | inl l ↦ rw (e, kill_unfinished, l) (ground arith)
    | inr l ↦ rw (e, kill_unfinished, l) (ground (arith, l))
  ]

  -- Once the status of its promise `p` is final, the coroutine of the context `c` ends before it is
  -- resumed `fuel` times; with another status it may go on for ever.
  pub record EndsWhenKilled (c p fuel : ℕ) : Type 0 where
    pub left : Tasks T → ℕ
    pub resume_less :
        (w : Tasks T) (h : ℕ)
        → unfinished w c ≡ some h
        → 3 ≤ status_rank (w.promises p).status
        → left (rt.resume w h) < left w
    pub left-lt : (w : Tasks T) → 3 ≤ status_rank (w.promises p).status → left w < fuel

  finish_killed_total :
      IsForward rt
      → (fuel rounds : ℕ) (w : Tasks T) (c p : ℕ) (ending : EndsWhenKilled c p fuel)
      → 3 ≤ status_rank (w.promises p).status
      → ending.left w < rounds
      → (u : Tasks T) × (finish_loop rt rounds w c ≡ some u) × (unfinished u c ≡ none)
  unfolding finish_loop
  finish_killed_total forward fuel zero w c p ending s l = absurd (omega arith)
  finish_killed_total forward fuel (suc rounds) w c p ending s l =
      elim (Option-cases (unfinished w c)) [
        | inl e ↦ (w, rw (finish_loop, e) refl, e)
        | inr (h, e) ↦
            let still : 3 ≤ status_rank ((rt.resume w h).promises p).status =
              omega (arith, s, (forward.resume-Later w h p).0 s) in
            let (u, run, end) =
              finish_killed_total forward fuel rounds (rt.resume w h) c p ending still
                (omega (arith, ending.resume_less w h e s)) in
            (u, rw (finish_loop, e) run, end)
      ]

  -- Neither the value for an error nor the status changes whether the coroutine has ended.
  kill_unfinished-unfinished :
      (w : Tasks T) (c : ℕ) → unfinished (kill_unfinished w c) c ≡ unfinished w c
  unfolding kill_unfinished unfinished set_status check_flag
  kill_unfinished-unfinished w c = elim (Option-cases (context_of w c).current_handle.promise) [
    | inl e ↦ rw (kill_unfinished, e) refl
    | inr (p, e) ↦ elim (Bool-cases (ltb (status_rank (w.promises p).status) 3)) [
      | inl l ↦ rw (kill_unfinished, e, l) (ground (arith, e))
      | inr l ↦ rw (kill_unfinished, e, l) refl
    ]
  ]

  release-ended :
      (fuel : ℕ) (u : Tasks T) (c : ℕ)
      → unfinished u c ≡ none
      → (w' : Tasks T) × (release rt (suc fuel) u c ≡ some w')
  unfolding release destroy_context force_finish finish_loop unfinished set_value
  release-ended fuel u c e =
      let d = disown u c in
      let v = if is_pending d c then set_value d c (rt.error_transform killed) else d in
      let same : unfinished v c ≡ unfinished u c = elim (Bool-cases (is_pending d c)) [
        | inl b ↦ rw b (ground arith)
        | inr b ↦ rw b refl
      ] in
      let ended : unfinished (kill_unfinished v c) c ≡ none =
        kill_unfinished-unfinished v c ∙ same ∙ e in
      elim (Bool-cases (u.others.use_count c - 1 == 0)) [
        | inl z ↦ (
          force_destroy rt (kill_unfinished v c) c,
          rw (z, release, destroy_context, force_finish, finish_loop, ended) refl,
        )
        | inr z ↦ (d, rw (z, release) refl)
      ]

  -- Where no coroutine and no callback makes a final status another, the last future of a context
  -- `c` with the promise `p`, whose coroutine ends once the status of `p` is final, is reset in
  -- finitely many rounds: the coroutine is killed and run until it has no handle, is done or has
  -- returned, then the context is released, and the status of `p` is final.
  pub reset-finishes :
      IsForward rt
      → (fuel : ℕ) (w : Tasks T) (f c p : ℕ) → EndsWhenKilled c p (suc fuel)
      → future_context w f ≡ some c
      → (context_of w c).current_handle.promise ≡ some p
      → (context_of w c).future_counter ≡ 1
      → (w' u : Tasks T) × (reset rt (suc fuel) w f ≡ some w')
        × (3 ≤ status_rank (w'.promises p).status)
        × (unfinished u c ≡ none)
        × (release rt (suc fuel) u c ≡ some w')
  unfolding reset uncount_future force_finish
  reset-finishes forward fuel w f c p ending e d one =
      let w1 = uncount_future (with_future w f none) c in
      let same : (context_of w1 c).current_handle.promise ≡ some p = ground (arith, d) in
      let v = kill_unfinished w1 c in
      let final = kill_unfinished-rank w1 c p same in
      let (u, run, end) =
        finish_killed_total forward (suc fuel) (suc fuel) v c p ending final
          (ending.left-lt v final) in
      let (w', freed) = release-ended fuel u c end in
      let counter : ((context_of w1 c).future_counter == 0) ≡ true = ground (arith, one) in
      let kept = finish_loop-Later rt forward (suc fuel) v u c run p in
      let kept' = release-Later rt forward (suc fuel) u w' c freed p in
      (
        w',
        u,
        rw (e, reset, counter, force_finish, run) freed,
        omega (arith, final, kept.0, kept'.0),
        end,
        freed,
      )
