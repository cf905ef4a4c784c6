-- ===== src/StdCoroutine/Promise/Callables/Futures.antt =====
-- The futures of callables: how one is killed, and how one ends.
use libcopp.Base.{
  ℕ, zero, suc, Bool, true, false, not, ◌&&◌, ◌||◌, Option, none, some, ltb, leb, if◌then◌else◌,
}
use libcopp.StdCoroutine.Promise.{
  PromiseStatus, done, killed, status_rank, destroying, has_returned, check_flag, set_flag,
  set_status, is_waiting, with_promise,
}
use libcopp.StdCoroutine.Promise.Callables.{Callables, CallableRuntime, with_future}

module _ {T : Type 0} where
  -- The test of the loop in `~callable_future`, on a handle that is not null.
  unfoldable pub is_unfinished : Callables T → ℕ → Bool
  unfolding check_flag
  is_unfinished w h = not (w.is_done h) && not (check_flag (w.promises h) has_returned)

  unfoldable pub kill_running : Callables T → ℕ → Callables T
  unfolding set_status
  kill_running w h =
      if ltb (status_rank (w.promises h).status) (status_rank done)
      then with_promise w h (set_status (w.promises h) killed none).0
      else w

  unfoldable pub set_destroying : Callables T → ℕ → Callables T
  unfolding set_flag
  set_destroying w h = with_promise w h (set_flag (w.promises h) destroying true)

  -- Whether `kill` resumes the coroutine that it has marked.
  unfoldable pub resumes : Callables T → ℕ → Bool → Bool
  unfolding is_waiting check_flag
  resumes w h force_resume =
      let p = w.promises h in
      (force_resume || is_waiting p)
      && (not (check_flag p destroying) && not (check_flag p has_returned))

  -- A round of the loop in `kill`: `none` where it goes round again, else the world, the result, and
  -- the handle to resume.
  unfoldable pub kill_round :
      Callables T → ℕ → PromiseStatus → Bool → Option (Callables T × Bool × Option ℕ)
  unfolding set_status resumes
  kill_round w h target_status force_resume =
      let p = w.promises h in
      let (p', is_set, e) = set_status p target_status (some p.status) in
      let w' = with_promise w h p' in
      if w.is_done h
      then some (w, false, none)
      else if leb (status_rank done) (status_rank p.status)
      then some (w, false, none)
      else if not is_set
      then none
      else some (w', true, if resumes w' h force_resume then some h else none)

  unfoldable pub kill_loop :
      ℕ → Callables T → ℕ → PromiseStatus → Bool → Option (Callables T × Bool × Option ℕ)
  unfolding kill_round
  kill_loop zero w f target_status force_resume = none
  kill_loop (suc fuel) w f target_status force_resume =
      let rest = kill_loop fuel w f target_status force_resume in
      elim (w.others.futures f) [
        | none ↦ some (w, false, none)
        | some h ↦ elim (kill_round w h target_status force_resume) [
          | none ↦ rest
          | some r ↦ some r
        ]
      ]

module _ {T : Type 0} (rt : CallableRuntime T) where
  unfoldable pub run_killed : Callables T → Option ℕ → Callables T
  run_killed w to_resume = elim to_resume [ none ↦ w | some h ↦ rt.resume w h ]

  -- `none` when the loop does not end in `fuel` rounds.
  unfoldable pub kill : ℕ → Callables T → ℕ → PromiseStatus → Bool → Option (Callables T × Bool)
  unfolding kill_loop run_killed
  kill fuel w f target_status force_resume =
      if ltb (status_rank target_status) (status_rank done)
      then some (w, false)
      else elim (kill_loop fuel w f target_status force_resume) [
        | none ↦ none
        | some (w', ret, to_resume) ↦ some (run_killed w' to_resume, ret)
      ]

  unfoldable pub finish_loop : ℕ → Callables T → ℕ → Option (Callables T)
  unfolding is_unfinished kill_running
  finish_loop zero w h = none
  finish_loop (suc fuel) w h =
      let rest = finish_loop fuel (rt.resume (kill_running w h) h) h in
      if is_unfinished w h then rest else some w

  -- `~callable_future`; `none` when the loop does not end in `fuel` rounds.
  unfoldable pub destroy_future : ℕ → Callables T → ℕ → Option (Callables T)
  unfolding finish_loop set_destroying
  destroy_future fuel w f = elim (w.others.futures f) [
    | none ↦ some w
    | some h ↦ elim (finish_loop fuel (with_future w f none) h) [
      | none ↦ none
      | some w' ↦ some (rt.destroy (set_destroying w' h) h)
    ]
  ]
