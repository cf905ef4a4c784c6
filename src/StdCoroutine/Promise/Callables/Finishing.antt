-- ===== src/StdCoroutine/Promise/Callables/Finishing.antt =====
-- How the future of a callable is killed and ends.
use libcopp.Base.{
  ◌≤◌, ◌∙◌, ℕ, zero, suc, ◌<◌, ◌≡◌, refl, inl, inr, Bool, true, false, not, ◌&&◌, none, some, arith,
  ltb, leb, if◌then◌else◌, Bool-cases,
}
use libcopp.StdCoroutine.Promise.{
  PromiseStatus, killed, status_rank, destroying, check_flag, set_flag, set_status, with_promise,
}
use libcopp.StdCoroutine.Promise.Callables.{Callables, CallableRuntime, with_future}
use libcopp.StdCoroutine.Promise.Callables.Futures.{
  is_unfinished, kill_running, set_destroying, resumes, kill_round, kill_loop, run_killed, kill,
  finish_loop, destroy_future,
}

-- The promise with another status, and nothing else changed.
abbrev pub with_status : {T : Type 0} → Callables T → ℕ → PromiseStatus → Callables T
with_status w h target = with_promise w h (record (w.promises h) { status = target })

module _ {T : Type 0} where
  kill_running-final :
      (w : Callables T) (h : ℕ) → 3 ≤ status_rank ((kill_running w h).promises h).status
  unfolding kill_running set_status
  kill_running-final w h = elim (Bool-cases (ltb (status_rank (w.promises h).status) 3)) [
    | inl l ↦ rw (kill_running, l) (ground (arith, l))
    | inr l ↦ rw (kill_running, l) (ground (arith, l))
  ]

  kill_running-unfinished :
      (w : Callables T) (h : ℕ) → is_unfinished (kill_running w h) h ≡ is_unfinished w h
  unfolding kill_running is_unfinished set_status check_flag
  kill_running-unfinished w h = elim (Bool-cases (ltb (status_rank (w.promises h).status) 3)) [
    | inl l ↦ rw (kill_running, l) (ground arith)
    | inr l ↦ rw (kill_running, l) refl
  ]

module _ {T : Type 0} (rt : CallableRuntime T) where
  -- How often the coroutine `h` is still to be resumed once its status is final; with another status
  -- it may go on for ever. Only its own steps count, and no change of its status adds one.
  pub record EndsWhenKilled (h : ℕ) : Type 0 where
    pub left : Callables T → ℕ
    pub resume_less :
        (w : Callables T)
        → is_unfinished w h ≡ true
        → 3 ≤ status_rank (w.promises h).status
        → left (rt.resume w h) < left w
    pub killed-le : (w : Callables T) → left (with_status w h killed) ≤ left w

  kill_running-left :
      (w : Callables T) (h : ℕ) (ending : EndsWhenKilled h)
      → ending.left (kill_running w h) ≤ ending.left w
  unfolding kill_running set_status
  kill_running-left w h ending = elim (Bool-cases (ltb (status_rank (w.promises h).status) 3)) [
    | inl l ↦ rw (kill_running, l) (ending.killed-le w)
    | inr l ↦ rw (kill_running, l) (omega arith)
  ]

  finish_loop_total :
      (rounds : ℕ) (w : Callables T) (h : ℕ) (ending : EndsWhenKilled h)
      → ending.left w < rounds
      → (u : Callables T) × (finish_loop rt rounds w h ≡ some u)
        × (is_unfinished u h ≡ false)
        × (is_unfinished w h ≡ false → u ≡ w)
  unfolding finish_loop
  finish_loop_total zero w h ending l = absurd (omega arith)
  finish_loop_total (suc rounds) w h ending l = elim (Bool-cases (is_unfinished w h)) [
    | inl t ↦
        let w' = kill_running w h in
        let less =
          ending.resume_less w' (kill_running-unfinished w h ∙ t) (kill_running-final w h) in
        let (u, run, end, same) =
          finish_loop_total rounds (rt.resume w' h) h ending
            (omega (arith, less, kill_running-left w h ending)) in
        (u, rw (finish_loop, t) run, end, (λ n. absurd (ground (arith, t, n))))
    | inr n ↦ (w, rw (finish_loop, n) refl, n, (λ _. refl))
  ]

  -- A future whose coroutine ends once its status is final, but may go on for ever before, is
  -- destroyed in one more round than the coroutine is to be resumed: the future holds no coroutine
  -- while its coroutine runs, which is resumed until it is done or has returned, and then destroyed
  -- with the flag `kDestroying`. A coroutine that is done or has returned already is not resumed.
  pub destroy-finishes :
      (fuel : ℕ) (w : Callables T) (f h : ℕ) (ending : EndsWhenKilled h)
      → w.others.futures f ≡ some h
      → ending.left (with_future w f none) < fuel
      → (u : Callables T) × (is_unfinished u h ≡ false)
        × (is_unfinished w h ≡ false → u ≡ with_future w f none)
        × (check_flag ((set_destroying u h).promises h) destroying ≡ true)
        × (destroy_future rt fuel w f ≡ some (rt.destroy (set_destroying u h) h))
  unfolding destroy_future set_destroying check_flag set_flag finish_loop is_unfinished
  destroy-finishes zero w f h ending e l = absurd (omega arith)
  destroy-finishes (suc fuel) w f h ending e l =
      let w1 = with_future w f none in
      let (u, run, end, same) = finish_loop_total (suc fuel) w1 h ending l in
      (u, end, same, ground arith, rw (e, destroy_future, run) refl)

  -- What `kill` is meant to leave of a coroutine that can be killed.
  pub after_kill : Callables T → ℕ → PromiseStatus → Bool → Callables T
  unfolding resumes
  after_kill w h target force =
      let w' = with_status w h target in if resumes w' h force then rt.resume w' h else w'

  pub can_kill : Callables T → ℕ → PromiseStatus → Bool
  can_kill w h target =
      leb 3 (status_rank target) && (not (w.is_done h) && ltb (status_rank (w.promises h).status) 3)

  pub kill_lem :
      (fuel : ℕ) (w : Callables T) (f h : ℕ) (target : PromiseStatus) (force : Bool)
      → w.others.futures f ≡ some h
      → kill rt (suc fuel) w f target force
        ≡ some (if can_kill w h target then (after_kill w h target force, true) else (w, false))
  unfolding kill kill_loop kill_round run_killed after_kill can_kill set_status
  kill_lem fuel w f h target force e = elim (Bool-cases (ltb (status_rank target) 3)) [
    | inl t ↦ ground (arith, t)
    | inr t ↦ elim (Bool-cases (w.is_done h)) [
      | inl d ↦ ground (arith, t, d, e)
      | inr d ↦ elim (Bool-cases (leb 3 (status_rank (w.promises h).status))) [
        | inl s ↦ ground (arith, t, d, e, s)
        | inr s ↦ elim (Bool-cases (resumes (with_status w h target) h force)) [
          | inl r ↦ ground (arith, t, d, e, s, r)
          | inr r ↦ ground (arith, t, d, e, s, r)
        ]
      ]
    ]
  ]
