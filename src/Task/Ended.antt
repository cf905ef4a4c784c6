-- ===== src/Task/Ended.antt =====
-- How often `on_finished` is called, and how many threads have started the task, whatever the threads do.
use libcopp.Base.{
  ℕ, zero, suc, ◌+◌, ◌≤◌, ◌<◌, ◌≡◌, refl, sym, subst, inl, inr, Bool, true, false, List, ◌∷◌, ◌++◌,
  arith, Bool-cases, All, All-append, All-parts, All-mono, sum_by, sum_by-append,
}
use libcopp.Errno.{success}
use libcopp.TaskManager.Manager.{running}
use libcopp.Task.{
  same_status, at_rest, at_end, Task, new_task, is_completed, is_exiting, Pc, start_back,
  notify_loop, notify_in, start_in,
}
use libcopp.Task.Accesses.{notify_impl, active_next_tasks}
use libcopp.Task.Threads.{
  Move, begins, starts, enters, yields, finishes, looks, completes, waits, notifies, yields_again,
  finishes_at_last, ends, activates, cancels, kills, stores, pushes, System, Step, acts, idle,
  Reach, first, later,
}
use libcopp.Task.Phases.{
  owns, owes, runs, is_free, is_owned, is_ended, Over, turn_runs, Good, Fits, Goes, Fits-Grows,
  same-Grows, paid,
}
use libcopp.Task.Steps.{begin-Goes, try_start-Goes, back-Goes, start_co-Goes, notify_round-Goes}
use libcopp.Task.Closing.{try_done-Goes, try_wait-Goes, try_cancel-Goes, try_kill-Goes}

Move-Goes :
    {t : Task} {pc : Pc} {s : Task × Pc} (o w u : ℕ)
    → Move t pc s
    → Fits t pc
    → Good t (o + owns pc) (w + owes pc) (u + runs pc)
    → Goes o w u t s
unfolding notify_impl active_next_tasks
Move-Goes {t} o w u (begins a c ok) f g = begin-Goes t o w u c ok g
Move-Goes {t} o w u (starts spurious p from) f g = try_start-Goes t o w u spurious p from g
Move-Goes {t} o w u (enters p) f g = start_co-Goes t o w u p t.coroutine_obj refl g
Move-Goes {t} o w u (yields p) f g =
    back-Goes t o w u at_rest (start_in p) (start_back p success) refl refl refl refl tt g
Move-Goes {t} o w u (finishes p) f g =
    back-Goes t o w u at_end (start_in p) (start_back p success) refl refl refl refl tt g
Move-Goes {t} o w u (looks p ret) f g = elim (Bool-cases (is_completed t)) [
  | inl e ↦ rw e record { good = g; fits = inl refl; grows = same-Grows t }
  | inr e ↦ rw e record { good = g; fits = inl refl; grows = same-Grows t }
]
Move-Goes {t} o w u (completes spurious p ret from) f g =
    try_done-Goes t o w u spurious p ret from f g
Move-Goes {t} o w u (waits spurious ret from) f g = try_wait-Goes t o w u spurious ret from f g
Move-Goes {t} o w u (notifies p ret) f g = notify_round-Goes t o w u p ret t.coroutine_obj refl g
Move-Goes {t} o w u (yields_again p ret) f g =
    back-Goes t o w u at_rest (notify_in p ret) (notify_loop p ret) refl refl refl refl tt g
Move-Goes {t} o w u (finishes_at_last p ret) f g =
    back-Goes t o w u at_end (notify_in p ret) (notify_loop p ret) refl refl refl refl tt g
Move-Goes {t} o w u (ends p ret) f g = record {
  good = record { phase = paid _ _ _ _ _ 4 g.phase; turns = g.turns; after = λ _. f };
  fits = tt;
  grows = record { ended = λ h. h; over = λ h. h };
}
Move-Goes {t} o w u (activates ret) f g = record {
  good = record { phase = g.phase; turns = g.turns; after = g.after };
  fits = tt;
  grows = record { ended = λ h. h; over = λ h. h };
}
Move-Goes {t} o w u (cancels spurious p from) f g = try_cancel-Goes t o w u spurious p from g
Move-Goes {t} o w u (kills spurious status p from) f g =
    try_kill-Goes t o w u spurious status p from f g
Move-Goes {t} o w u (stores p) f g = record {
  good = record { phase = g.phase; turns = g.turns; after = g.after };
  fits = tt;
  grows = record { ended = λ h. h; over = λ h. h };
}
Move-Goes {t} o w u (pushes n p) f g = record {
  good = record { phase = g.phase; turns = g.turns; after = g.after };
  fits = tt;
  grows = record { ended = λ h. h; over = λ h. h };
}

new_turns : (b : Bool) → 0 ≡ turn_runs (new_task b).coroutine_obj
new_turns true = refl
new_turns false = refl

record Inv (s : System) : Type 0 where
  good : Good s.0 (sum_by owns s.1) (sum_by owes s.1) (sum_by runs s.1)
  fits : All (Fits s.0) s.1

idle-none :
    (n : ℕ) → (sum_by owns (idle n) ≡ 0) × (sum_by owes (idle n) ≡ 0) × (sum_by runs (idle n) ≡ 0)
idle-none zero = (refl, refl, refl)
idle-none (suc n) =
    let (o, w, u) = idle-none n in (omega (arith, o), omega (arith, w), omega (arith, u))

idle-Fits : (t : Task) (n : ℕ) → All (Fits t) (idle n)
idle-Fits t zero = tt
idle-Fits t (suc n) = (tt, idle-Fits t n)

-- The sum over the threads, with the part of one of them apart.
apart :
    (f : Pc → ℕ) (before after : List Pc) (pc : Pc)
    → sum_by f (before ++ (pc ∷ after)) ≡ sum_by f before + sum_by f after + f pc
apart f before after pc = omega (arith, sum_by-append f before (pc ∷ after))

Good-cast :
    {t : Task} {o w u o' w' u' : ℕ} → o ≡ o' → w ≡ w' → u ≡ u' → Good t o w u → Good t o' w' u'
Good-cast {t} {w} {u} {o'} {w'} e h k g =
    subst (λ x. Good t o' w' x) k (subst (λ x. Good t o' x u) h (subst (λ x. Good t x w u) e g))

Step-Inv : {s v : System} → Step s v → Inv s → Inv v
Step-Inv (acts {t} {pc} {s} before after m) i =
    let (f, h, k) = All-parts (Fits t) before pc after i.fits in
    let g = Move-Goes _ _ _ m h (
      Good-cast (apart owns before after pc) (apart owes before after pc)
        (apart runs before after pc) i.good) in
    record {
      good =
          Good-cast (sym (apart owns before after s.1)) (sym (apart owes before after s.1))
            (sym (apart runs before after s.1)) g.good;
      fits =
          All-append (Fits s.0) before (s.1 ∷ after)
            (All-mono (Fits t) (Fits s.0) before (λ p. Fits-Grows t s.0 p g.grows) f)
            (g.fits, All-mono (Fits t) (Fits s.0) after (λ p. Fits-Grows t s.0 p g.grows) k);
    }

new-Inv : (b : Bool) (n : ℕ) → Inv (new_task b, idle n)
new-Inv b n =
    let (o, w, u) = idle-none n in
    record {
      good = Good-cast (sym o) (sym w) (sym u) record {
        phase = is_free (omega arith) (λ k. omega arith) refl refl refl;
        turns = new_turns b;
        after = λ k. absurd (omega arith);
      };
      fits = idle-Fits (new_task b) n;
    }

Reach-Inv : {b : Bool} {n : ℕ} {s : System} → Reach b n s → Inv s
Reach-Inv {b} {n} first = new-Inv b n
Reach-Inv (later r m) = Step-Inv m (Reach-Inv r)

-- In every interleaving of any number of threads that start, resume, cancel and kill a task: it does
-- not call `on_finished` before it has ended and its coroutine, if any, has finished, and calls it
-- once, and once more for each `cancel` or `kill` that took it when it had ended already, as soon as
-- no thread is left that owns it or owes it a notification.
pub on_finished_once :
    {b : Bool} {n : ℕ} {s : System}
    → Reach b n s
    → let (t, l) = s in
      (t.on_finished_calls ≤ 1 + t.late)
      × (is_exiting t ≡ false → t.on_finished_calls ≡ 0)
      × (0 < t.on_finished_calls → Over t)
      × (is_exiting t ≡ true
          → sum_by owns l ≡ 0
          → sum_by owes l ≡ 0
          → t.on_finished_calls ≡ 1 + t.late)
unfolding is_exiting
on_finished_once {s = (t, l)} r =
    let g = (Reach-Inv r).good in
    elim g.phase [
      | is_free h k o n late ↦
          (omega arith, λ e. omega arith, g.after, λ e m q. absurd (ground arith))
      | is_owned h o n late ↦
          (omega arith, λ e. omega arith, g.after, λ e m q. absurd (ground arith))
      | is_ended h o n ↦ (omega arith, λ e. absurd (ground arith), g.after, λ e m q. omega arith)
    ]

-- In every interleaving a task is `EN_TS_RUNNING` exactly while it has not ended and one thread is
-- between a start that took it and the end of that start, and no second thread is ever there, not
-- even after the task was killed meanwhile.
pub one_runner :
    {b : Bool} {n : ℕ} {s : System}
    → Reach b n s
    → let (t, l) = s in
      (same_status t.status running ≡ true → sum_by owns l ≡ 1)
      × (same_status t.status running ≡ false → is_exiting t ≡ false → sum_by owns l ≡ 0)
      × (sum_by owns l ≤ 1)
unfolding is_exiting
one_runner {s = (t, l)} r =
    let g = (Reach-Inv r).good in
    elim g.phase [
      | is_free h k o n late ↦ (λ e. absurd (ground arith), λ e m. o, omega arith)
      | is_owned h o n late ↦ (λ e. o, λ e m. absurd (ground arith), omega arith)
      | is_ended h o n ↦ (λ e. absurd (ground arith), λ e m. absurd (ground arith), o)
    ]
