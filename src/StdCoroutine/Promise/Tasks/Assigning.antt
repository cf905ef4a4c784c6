-- ===== src/StdCoroutine/Promise/Tasks/Assigning.antt =====
-- Futures that are reset and assigned, by programs whose coroutines count their own futures.
use libcopp.Base.{
  ℕ, ◌<◌, ◌≡◌, refl, sym, ◌∙◌, ◌⊎◌, inl, inr, Option, none, some, arith, ◌==◌, Bool-cases,
  Option-cases, length,
}
use libcopp.IntrusivePtr.{get, set}
use libcopp.IntrusivePtr.Counts.{length-set}
use libcopp.StdCoroutine.Promise.Tasks.{Tasks, TaskRuntime, context_of}
use libcopp.StdCoroutine.Promise.Tasks.Futures.{
  future_context, with_future, count_future, uncount_future, same_context, reset, assign,
  move_assign,
}
use libcopp.StdCoroutine.Promise.Tasks.Counts.{
  IsCounted, uncount_future-IsCounted, count_future-IsCounted, swap-IsCounted, get-set-get,
}
use libcopp.StdCoroutine.Promise.Tasks.Finishing.{force_finish_total, release_total}
use libcopp.StdCoroutine.Promise.Tasks.Vacant.{
  IsVacant, IsCounting, get-set-none, get-set_self, same_context-eq, force_finish-IsVacant,
  release-IsVacant,
}

module _ {T : Type 0} where
  count_future-futures :
      (w : Tasks T) (c : Option ℕ) → (count_future w c).others.futures ≡ w.others.futures
  unfolding count_future
  count_future-futures w none = refl
  count_future-futures w (some c) = refl

module _ {T : Type 0} (rt : TaskRuntime T) (n f fuel : ℕ) (counting : IsCounting rt n f fuel) where
  -- `reset` of a future ends, and leaves the variable empty and the others counted.
  reset-IsVacant :
      (w : Tasks T)
      → IsCounted n w.others
      → f < n
      → (w' : Tasks T) × (reset rt fuel w f ≡ some w') × IsVacant n f w'.others
  unfolding reset future_context uncount_future
  reset-IsVacant w i h = elim (Option-cases (future_context w f)) [
    | inl e ↦ (w, rw (e, reset) refl, record { counts = i; vacant = e })
    | inr (c, e) ↦
        let u = uncount_future (with_future w f none) c in
        let v : IsVacant n f u.others = record {
          counts = uncount_future-IsCounted n w f c i h e;
          vacant = get-set-none w.others.futures f;
        } in
        elim (Bool-cases ((context_of u c).future_counter == 0)) [
          | inr z ↦
              let (w', run) = release_total rt fuel u c (counting.finite c) in
              (w', rw (e, reset, z) run, release-IsVacant rt n f fuel counting u w' c v run)
          | inl z ↦
              let (x, finished, end) = force_finish_total rt fuel u c (counting.finite c) in
              let (w', run) = release_total rt fuel x c (counting.finite c) in
              (
                w',
                rw (e, reset, z, finished) run,
                release-IsVacant rt n f fuel counting x w' c
                    (force_finish-IsVacant rt n f fuel counting u x c v finished) run,
              )
        ]
  ]

  -- In a program whose coroutines count their futures, leave the variable that is assigned alone and
  -- end when they are resumed often enough, a copy of a future into another variable ends, each
  -- context counts its futures then, modulo 2^64, and both variables hold the same.
  pub assign-IsCounted :
      (w : Tasks T) (g : ℕ)
      → IsCounted n w.others
      → f < n
      → (w' : Tasks T) × (assign rt fuel w f g ≡ some w')
        × IsCounted n w'.others
        × (future_context w' f ≡ future_context w' g)
  unfolding assign future_context
  assign-IsCounted w g i h =
      elim (Bool-cases (same_context (future_context w f) (future_context w g))) [
        | inl s ↦ (
          w,
          rw (s, assign) refl,
          i,
          same_context-eq (get w.others.futures f) (get w.others.futures g) s,
        )
        | inr s ↦
            let (u, run, v) = reset-IsVacant w i h in
            let l = u.others.futures in
            let c = future_context u g in
            let room : f < length l = omega (arith, v.counts.room) in
            let agree : get (set l f c) f ≡ get (set l f c) g =
              get-set_self l f c room ∙ sym (get-set-get l f g room) in
            (
              with_future (count_future u c) f c,
              rw (s, assign, run) refl,
              count_future-IsCounted n u f c v.counts h v.vacant,
              rw (count_future-futures u c) agree,
            )
      ]

  -- Under the same conditions a moved future leaves its variable, unless both held the same context:
  -- then nothing changes.
  pub move_assign-IsCounted :
      (w : Tasks T) (g : ℕ)
      → IsCounted n w.others
      → f < n
      → g < n
      → (w' : Tasks T) × (move_assign rt fuel w f g ≡ some w')
        × IsCounted n w'.others
        × ((w' ≡ w) ⊎ (future_context w' g ≡ none))
  unfolding move_assign future_context
  move_assign-IsCounted w g i h k =
      elim (Bool-cases (same_context (future_context w f) (future_context w g))) [
        | inl s ↦ (w, rw (s, move_assign) refl, i, inl refl)
        | inr s ↦
            let (u, run, v) = reset-IsVacant w i h in
            let l = u.others.futures in
            let room : g < length (set l f (get l g)) =
              omega (arith, v.counts.room, length-set l f (get l g)) in
            let left = get-set_self (set l f (get l g)) g (get l f) room in
            (
              with_future (with_future u f (future_context u g)) g (future_context u f),
              rw (s, move_assign, run) refl,
              swap-IsCounted n u f g v.counts h k,
              inr (left ∙ v.vacant),
            )
      ]
