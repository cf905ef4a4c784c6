-- ===== src/Task/Closing.antt =====
-- The accesses that end a task, or give its status back, keep the numbers in order.
use libcopp.Base.{ℕ, ◌+◌, ◌≤◌, ◌≡◌, inl, inr, Bool, false, arith, ltb, leb, Bool-cases}
use libcopp.Errno.{CoppErrorCode, success}
use libcopp.TaskManager.Manager.{TaskStatus, running, waiting, done, canceled, status_rank}
use libcopp.Task.{Task, same_status, notify_loop}
use libcopp.Task.Accesses.{try_done, try_wait, try_cancel, try_kill, count_late}
use libcopp.Task.Phases.{
  Good, Saw, Goes, same-Grows, closed, rests, taken_running, taken_free, taken_late, owned_or_ended,
}
use libcopp.Task.Steps.{cas_status-cases, idle-Goes}

module _ (t : Task) (o w u : ℕ) where
  -- What an owner has seen of the status.
  seen-Saw : Good t (o + 1) (w + 0) (u + 0) → Saw t t.status
  seen-Saw g = elim (owned_or_ended _ _ _ _ _ 4 g.phase) [ inl e ↦ inl e | inr e ↦ inr (e, e) ]

  -- The owner finds that the task has ended, and changes nothing that the numbers look at.
  closed-Goes :
      (p q : ℕ) (ret : CoppErrorCode)
      → 4 ≤ status_rank t.status
      → Good t (o + 1) (w + 0) (u + 0)
      → Goes o w u t (record t { finish_priv_data = q }, notify_loop p ret)
  closed-Goes p q ret h g = record {
    good = record {
      phase = closed _ _ _ _ _ _ h g.phase (inr h);
      turns = g.turns;
      after = g.after;
    };
    fits = tt;
    grows = record { ended = λ k. k; over = λ k. k };
  }

  pub try_done-Goes :
      (spurious : Bool) (p : ℕ) (ret : CoppErrorCode) (from : TaskStatus)
      → Saw t from
      → Good t (o + 1) (w + 0) (u + 0)
      → Goes o w u t (try_done spurious t p ret from)
  unfolding try_done
  try_done-Goes spurious p ret from s g =
      elim (Bool-cases (ltb (status_rank from) (status_rank done))) [
        | inl e ↦ elim (cas_status-cases spurious t from done) [
          | inl (at, m) ↦
              rw (e, m, try_done)
                record {
                  good = record {
                    phase =
                        closed _ _ _ _ _ 4 (omega arith) g.phase
                          (owned_or_ended _ _ _ _ _ 4 g.phase);
                    turns = g.turns;
                    after = g.after;
                  };
                  fits = tt;
                  grows = record { ended = λ h. omega arith; over = λ h. h };
                }
          | inr m ↦ rw (e, m, try_done) record { good = g; fits = seen-Saw g; grows = same-Grows t }
        ]
        | inr e ↦ rw (e, try_done) (closed-Goes p p ret (ground (arith, e, s)) g)
      ]

  pub try_wait-Goes :
      (spurious : Bool) (ret : CoppErrorCode) (from : TaskStatus)
      → Saw t from
      → Good t (o + 1) (w + 0) (u + 0)
      → Goes o w u t (try_wait spurious t ret from)
  unfolding try_wait
  try_wait-Goes spurious ret from s g =
      elim (Bool-cases (leb (status_rank done) (status_rank from))) [
        | inl e ↦
            rw (e, try_wait)
              (closed-Goes t.finish_priv_data t.finish_priv_data ret (ground (arith, e, s)) g)
        | inr e ↦ elim (cas_status-cases spurious t from waiting) [
          | inl (at, m) ↦
              rw (e, m, try_wait)
                record {
                  good = record {
                    phase =
                        rests _ _ _ _ _ 3 (ground (arith, e, s, at)) (omega arith)
                          (λ k. omega arith) g.phase;
                    turns = g.turns;
                    after = g.after;
                  };
                  fits = tt;
                  grows = record { ended = λ h. absurd (ground (arith, e, s, at)); over = λ h. h };
                }
          | inr m ↦ rw (e, m, try_wait) record { good = g; fits = seen-Saw g; grows = same-Grows t }
        ]
      ]

  -- `cancel` or `kill` takes a task that does not run, from what it has seen of the status.
  taken-Goes :
      (from status : TaskStatus) (p : ℕ)
      → status_rank t.status ≡ status_rank from
      → same_status running from ≡ false
      → 4 ≤ status_rank status
      → Good t (o + 0) (w + 0) (u + 0)
      → Goes o w u t (count_late (record t { status = status }) from, notify_loop p success)
  taken-Goes from status p at n h g =
      elim (Bool-cases (leb (status_rank done) (status_rank from))) [
        | inl e ↦ rw e record {
          good = record {
            phase = taken_late _ _ _ _ _ _ (ground (arith, at, e)) h g.phase;
            turns = g.turns;
            after = g.after;
          };
          fits = tt;
          grows = record { ended = λ _. h; over = λ k. k };
        }
        | inr e ↦ rw e record {
          good = record {
            phase =
                taken_free _ _ _ _ _ _ (ground (arith, at, e)) (ground (arith, at, n)) h g.phase;
            turns = g.turns;
            after = g.after;
          };
          fits = tt;
          grows = record { ended = λ _. h; over = λ k. k };
        }
      ]

  pub try_cancel-Goes :
      (spurious : Bool) (p : ℕ) (from : TaskStatus)
      → Good t (o + 0) (w + 0) (u + 0)
      → Goes o w u t (try_cancel spurious t p from)
  unfolding try_cancel
  try_cancel-Goes spurious p from g = elim (Bool-cases (same_status running from)) [
    | inl e ↦ rw (e, try_cancel) (idle-Goes t o w u _ g)
    | inr e ↦ elim (cas_status-cases spurious t from canceled) [
      | inl (at, m) ↦ rw (e, m, try_cancel) (taken-Goes from canceled p at e (omega arith) g)
      | inr m ↦ rw (e, m, try_cancel) record { good = g; fits = tt; grows = same-Grows t }
    ]
  ]

  pub try_kill-Goes :
      (spurious : Bool) (status : TaskStatus) (p : ℕ) (from : TaskStatus)
      → 4 ≤ status_rank status
      → Good t (o + 0) (w + 0) (u + 0)
      → Goes o w u t (try_kill spurious t status p from)
  unfolding try_kill
  try_kill-Goes spurious status p from h g = elim (cas_status-cases spurious t from status) [
    | inl (at, m) ↦ elim (Bool-cases (same_status running from)) [
      | inl e ↦
          rw (m, e, try_kill)
            record {
              good = record {
                phase = taken_running _ _ _ _ _ _ (ground (arith, at, e)) h g.phase;
                turns = g.turns;
                after = g.after;
              };
              fits = tt;
              grows = record { ended = λ _. h; over = λ k. k };
            }
      | inr e ↦ rw (m, e, try_kill) (taken-Goes from status p at e h g)
    ]
    | inr m ↦ rw (m, try_kill) record { good = g; fits = h; grows = same-Grows t }
  ]
