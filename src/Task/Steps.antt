-- ===== src/Task/Steps.antt =====
-- Each access of a thread keeps the numbers in order.
use libcopp.Base.{
  ℕ, ◌+◌, ◌<◌, ◌≡◌, refl, subst, ◌≢◌, ◌⊎◌, inl, inr, Bool, true, false, ◌||◌, Option, none, some,
  arith, leb, ◌==◌, Bool-cases, Option-cases,
}
use libcopp.Errno.{CoppErrorCode}
use libcopp.TaskManager.Manager.{TaskStatus, running, waiting, done, status_rank}
use libcopp.Task.{
  Turn, at_rest, at_work, at_end, Task, is_completed, is_exiting, cas_status, same_status, Pc,
  outside, start_loop, start_in, start_back, Answer, Call, start, resume, cancel, kill, next,
  setup_task_manager, cleanup_task_manager,
}
use libcopp.Task.Accesses.{
  begin, first_start, try_next, bind_manager, unbind_manager, try_start, enter_co, after_co,
  notify_round,
}
use libcopp.Task.Threads.{allowed}
use libcopp.Task.Phases.{
  owns, owes, runs, Phase, Over, turn_runs, Good, Fits, Grows, Goes, same-Grows, claimed,
}

-- A compare-exchange stores, and then found what it expected, or changes nothing.
pub cas_status-cases :
    (spurious : Bool) (t : Task) (expected desired : TaskStatus)
    → ((status_rank t.status ≡ status_rank expected)
        × (cas_status spurious t expected desired
            ≡ (true, expected, record t { status = desired })))
      ⊎ (cas_status spurious t expected desired ≡ (false, t.status, t))
unfolding cas_status
cas_status-cases true t expected desired = inr refl
cas_status-cases false t expected desired = elim (Bool-cases (same_status t.status expected)) [
  | inl e ↦ inl (ground (arith, e), rw (e, cas_status) refl)
  | inr e ↦ inr (rw (e, cas_status) refl)
]

not_Over : (t : Task) (turn : Turn) → t.coroutine_obj ≡ some turn → turn ≢ at_end → ¬ Over t
not_Over t turn e k (inl h) = cc
not_Over t turn e k (inr h) = k cc

turn_runs-pos : (u : ℕ) (co : Option Turn) → u + 1 ≡ turn_runs co → (co ≡ some at_work) × (u ≡ 0)
turn_runs-pos u none h = absurd (omega arith)
turn_runs-pos u (some at_rest) h = absurd (omega arith)
turn_runs-pos u (some at_work) h = (refl, omega arith)
turn_runs-pos u (some at_end) h = absurd (omega arith)

rests_alone :
    (u : ℕ) (t : Task)
    → t.coroutine_obj ≡ some at_rest
    → u + 0 ≡ turn_runs t.coroutine_obj
    → u + 1 ≡ 1
rests_alone u t e h = omega (arith, subst (λ co. u + 0 ≡ turn_runs co) e h)

module _ (t : Task) (o w u : ℕ) where
  -- The task as it was, or changed where the numbers do not look, and a place of no weight.
  pub idle-Goes : (a : Answer) → Good t (o + 0) (w + 0) (u + 0) → Goes o w u t (t, outside a)
  idle-Goes a g = record { good = g; fits = tt; grows = same-Grows t }

  loop-Goes :
      (p : ℕ) (from : TaskStatus)
      → Good t (o + 0) (w + 0) (u + 0)
      → Goes o w u t (t, start_loop p from)
  loop-Goes p from g = record { good = g; fits = tt; grows = same-Grows t }

  pub begin-Goes :
      (c : Call) → allowed c ≡ true → Good t (o + 0) (w + 0) (u + 0) → Goes o w u t (begin t c)
  unfolding begin first_start try_next bind_manager unbind_manager
  begin-Goes (start p expected) h g = elim (Option-cases t.coroutine_obj) [
    | inl e ↦ simp (e, begin, first_start) (idle-Goes _ g)
    | inr (_, e) ↦ simp (e, begin, first_start) (loop-Goes p expected g)
  ]
  begin-Goes (resume p) h g = elim (Option-cases t.coroutine_obj) [
    | inl e ↦ simp (e, begin, first_start) (idle-Goes _ g)
    | inr (_, e) ↦ simp (e, begin, first_start) (loop-Goes p waiting g)
  ]
  begin-Goes (cancel p) h g = record { good = g; fits = tt; grows = same-Grows t }
  begin-Goes (kill status p) h g = record { good = g; fits = ground arith; grows = same-Grows t }
  begin-Goes (next n p) h g = elim (Bool-cases (is_exiting t || is_completed t)) [
    | inl e ↦
        simp (e, begin, try_next)
          record {
            good = record { phase = g.phase; turns = g.turns; after = g.after };
            fits = tt;
            grows = record { ended = λ h. h; over = λ h. h };
          }
    | inr e ↦ simp (e, begin, try_next) record { good = g; fits = tt; grows = same-Grows t }
  ]
  begin-Goes (setup_task_manager m) h g = elim (Option-cases t.binding_manager) [
    | inl e ↦
        simp (e, begin, bind_manager)
          record {
            good = record { phase = g.phase; turns = g.turns; after = g.after };
            fits = tt;
            grows = record { ended = λ h. h; over = λ h. h };
          }
    | inr (_, e) ↦ simp (e, begin, bind_manager) (idle-Goes _ g)
  ]
  begin-Goes (cleanup_task_manager m) h g = elim (Option-cases t.binding_manager) [
    | inl e ↦ simp (e, begin, unbind_manager) (idle-Goes _ g)
    | inr (m', e) ↦ elim (Bool-cases (m' == m)) [
      | inl k ↦
          simp (e, k, begin, unbind_manager)
            record {
              good = record { phase = g.phase; turns = g.turns; after = g.after };
              fits = tt;
              grows = record { ended = λ h. h; over = λ h. h };
            }
      | inr k ↦ simp (e, k, begin, unbind_manager) (idle-Goes _ g)
    ]
  ]

  pub try_start-Goes :
      (spurious : Bool) (p : ℕ) (from : TaskStatus)
      → Good t (o + 0) (w + 0) (u + 0)
      → Goes o w u t (try_start spurious t p from)
  unfolding try_start
  try_start-Goes spurious p from g = elim (Bool-cases (leb (status_rank done) (status_rank from))) [
    | inl e ↦ rw (e, try_start) (idle-Goes _ g)
    | inr e ↦ elim (Bool-cases (same_status from running)) [
      | inl k ↦ rw (e, k, try_start) (idle-Goes _ g)
      | inr k ↦ elim (cas_status-cases spurious t from running) [
        | inl (at, m) ↦
            rw (e, k, m, try_start)
              record {
                good = record {
                  phase = claimed _ _ _ _ _ 2 (ground (arith, at)) (ground (arith, at)) g.phase;
                  turns = g.turns;
                  after = g.after;
                };
                fits = tt;
                grows = record { ended = λ h. absurd (ground (arith, at, e)); over = λ h. h };
              }
        | inr m ↦ rw (e, k, m, try_start) (loop-Goes p t.status g)
      ]
    ]
  ]

  -- A coroutine that is not at its end goes on, yields, or ends.
  after_co-Good :
      (turn turn' : Turn) (o' w' u' : ℕ)
      → t.coroutine_obj ≡ some turn
      → turn ≢ at_end
      → u' ≡ turn_runs (some turn')
      → Phase (status_rank t.status) o' (t.on_finished_calls + w') t.late
      → (0 < t.on_finished_calls → Over t)
      → Good (after_co t turn') o' w' u'
  after_co-Good turn turn' o' w' u' e k n p a = record {
    phase = p;
    turns = n;
    after = λ h. absurd (not_Over t turn e k (a h));
  }

  after_co-Grows :
      (turn turn' : Turn) → t.coroutine_obj ≡ some turn → turn ≢ at_end → Grows t (after_co t turn')
  after_co-Grows turn turn' e k = record {
    ended = λ h. h;
    over = λ h. absurd (not_Over t turn e k h);
  }

  -- A thread that has run the coroutine comes back.
  pub back-Goes :
      (turn : Turn) (inside back : Pc)
      → turn_runs (some turn) ≡ 0
      → owns back ≡ owns inside
      → owes back ≡ owes inside
      → runs back ≡ 0
      → Fits (after_co t turn) back
      → Good t (o + owns inside) (w + owes inside) (u + 1)
      → Goes o w u t (after_co t turn, back)
  back-Goes turn inside back n h k r f g =
      let (at, none_else) = turn_runs-pos u t.coroutine_obj g.turns in
      record {
        good =
            rw (h, k, r)
              (after_co-Good at_work turn _ _ _ at (λ e. cc) (omega (arith, n, none_else)) g.phase
                g.after);
        fits = f;
        grows = after_co-Grows at_work turn at (λ e. cc);
      }

  pub start_co-Goes :
      (p : ℕ) (co : Option Turn)
      → t.coroutine_obj ≡ co
      → Good t (o + 1) (w + 0) (u + 0)
      → Goes o w u t (enter_co t (start_in p) (start_back p))
  unfolding enter_co
  start_co-Goes p none e g = simp (e, enter_co) record { good = g; fits = tt; grows = same-Grows t }
  start_co-Goes p (some at_rest) e g =
      simp (e, enter_co)
        record {
          good =
              after_co-Good at_rest at_work _ _ _ e (λ k. cc) (rests_alone u t e g.turns) g.phase
                g.after;
          fits = tt;
          grows = after_co-Grows at_rest at_work e (λ k. cc);
        }
  start_co-Goes p (some at_work) e g =
      simp (e, enter_co) record { good = g; fits = tt; grows = same-Grows t }
  start_co-Goes p (some at_end) e g =
      simp (e, enter_co) record { good = g; fits = tt; grows = same-Grows t }

  pub notify_round-Goes :
      (p : ℕ) (ret : CoppErrorCode) (co : Option Turn)
      → t.coroutine_obj ≡ co
      → Good t (o + 0) (w + 1) (u + 0)
      → Goes o w u t (notify_round t p ret)
  unfolding notify_round enter_co
  notify_round-Goes p ret none e g =
      simp (e, notify_round) record { good = g; fits = inl e; grows = same-Grows t }
  notify_round-Goes p ret (some at_rest) e g =
      simp (e, notify_round, enter_co)
        record {
          good =
              after_co-Good at_rest at_work _ _ _ e (λ k. cc) (rests_alone u t e g.turns) g.phase
                g.after;
          fits = tt;
          grows = after_co-Grows at_rest at_work e (λ k. cc);
        }
  notify_round-Goes p ret (some at_work) e g =
      simp (e, notify_round, enter_co) record { good = g; fits = tt; grows = same-Grows t }
  notify_round-Goes p ret (some at_end) e g =
      simp (e, notify_round) record { good = g; fits = inr e; grows = same-Grows t }
