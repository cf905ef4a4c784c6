-- ===== src/Task/Alone.antt =====
-- Calls that no other thread disturbs.
use libcopp.Base.{
  ◌∙◌, ℕ, zero, suc, ◌+◌, ◌≡◌, refl, ap, ◌≢◌, inl, inr, Bool, true, false, not, ◌||◌, Option, none,
  some, [], ◌∷◌, ◌++◌, arith, leb, ◌==◌, if◌then◌else◌, Bool-cases, Option-cases,
}
use libcopp.Errno.{success, not_inited, is_running, already_finished}
use libcopp.TaskManager.Manager.{TaskStatus, running, waiting, done, canceled, status_rank}
use libcopp.Task.{
  same_status, Turn, at_rest, at_work, at_end, Task, is_completed, cas_status, Pc, outside, code,
  handle, start_loop, start_co, cancel_loop, kill_loop, kill_store, next_push, start_back,
  start_done, start_wait, notify_loop, notify_in, notify_end, notify_next, start_in, start, resume,
  cancel, kill,
}
use libcopp.Task.Accesses.{
  begin, first_start, try_start, enter_co, after_co, try_done, try_wait, try_cancel, try_kill,
  notify_round, notify_impl, active_next_tasks, count_late,
}

-- The next access, with no spurious failure. A coroutine that is started or resumed runs to its end
-- if `is_last`, and else yields; one that is resumed for the notification runs to its end.
abbrev pub go : Bool → Task × Pc → Task × Pc
go is_last (t, outside a) = (t, outside a)
go is_last (t, start_loop p from) = try_start false t p from
go is_last (t, start_co p) = enter_co t (start_in p) (start_back p)
go is_last (t, start_in p) =
    (after_co t (if is_last then at_end else at_rest), start_back p success)
go is_last (t, start_back p ret) =
    (t, if is_completed t then start_done p ret running else start_wait ret running)
go is_last (t, start_done p ret from) = try_done false t p ret from
go is_last (t, start_wait ret from) = try_wait false t ret from
go is_last (t, notify_loop p ret) = notify_round t p ret
go is_last (t, notify_in p ret) = (after_co t at_end, notify_loop p ret)
go is_last (t, notify_end p ret) = (notify_impl t p, notify_next ret)
go is_last (t, notify_next ret) = (active_next_tasks t, outside (code ret))
go is_last (t, cancel_loop p from) = try_cancel false t p from
go is_last (t, kill_loop status p from) = try_kill false t status p from
go is_last (t, kill_store p) = (record t { finish_priv_data = p }, outside (code success))
go is_last (t, next_push n p) =
    (record t { next_list = t.next_list ++ ((n, p) ∷ []) }, outside (handle n))

abbrev pub iterate : Bool → ℕ → Task × Pc → Task × Pc
iterate is_last zero s = s
iterate is_last (suc k) s = iterate is_last k (go is_last s)

-- What is left of a task that has ended with `status`.
abbrev pub ended_with : Task → Option Turn → TaskStatus → ℕ → Task
ended_with t co status p = record t {
  status = status;
  coroutine_obj = co;
  finish_priv_data = p;
  next_list = [];
  binding_manager = none;
  on_finished_calls = t.on_finished_calls + 1;
  activated = t.activated ++ t.next_list;
  told = elim t.binding_manager [ none ↦ t.told | some m ↦ m ∷ t.told ];
}

abbrev pub ended_as : Task → TaskStatus → ℕ → Task
ended_as t = ended_with t (elim t.coroutine_obj [ none ↦ none | some _ ↦ some at_end ])

abbrev pub is_some {ℓ} : {A : Type ℓ} → Option A → Bool
is_some none = false
is_some (some a) = true

abbrev pub is_startable : TaskStatus → Bool
is_startable s = not (leb (status_rank done) (status_rank s) || same_status s running)

-- What `start` makes of a task: it is refused, or the task ends, or waits.
abbrev pub started_as : Bool → Task → ℕ → TaskStatus → Task × Pc
started_as is_last t p seen =
    if leb (status_rank done) (status_rank seen)
    then (t, outside (code already_finished))
    else if same_status seen running
    then (t, outside (code is_running))
    else (
      if is_last then ended_as t done p else record t { status = waiting },
      outside (code success),
    )

-- From where it has taken the task, `start` ends it, or lets it wait.
run_to_end :
    (is_last : Bool) (t : Task) (p : ℕ)
    → t.coroutine_obj ≡ some at_rest
    → iterate is_last 7 (record t { status = running }, start_co p) ≡ (
      if is_last then ended_as t done p else record t { status = waiting },
      outside (code success),
    )
unfolding enter_co is_completed try_done try_wait cas_status notify_round notify_impl
    active_next_tasks
run_to_end true t p e = simp e refl
run_to_end false t p e = simp e refl

-- The first round of the loop takes the task if its status is the expected one.
round_known :
    (is_last : Bool) (t : Task) (p : ℕ)
    → (is_startable t.status ≡ true → t.coroutine_obj ≡ some at_rest)
    → iterate is_last 8 (t, start_loop p t.status) ≡ started_as is_last t p t.status
unfolding try_start cas_status
round_known is_last t p h = elim (Bool-cases (leb (status_rank done) (status_rank t.status))) [
  | inl e ↦ simp (e, try_start) refl
  | inr e ↦ elim (Bool-cases (same_status t.status running)) [
    | inl k ↦ simp (e, k, try_start) refl
    | inr k ↦
        let same : (status_rank t.status == status_rank t.status) ≡ true = ground arith in
        simp (e, k, same, try_start, cas_status) (run_to_end is_last t p (h (simp (e, k) refl)))
  ]
]

-- With another expected status the first round only learns the status.
start_round :
    (is_last : Bool) (t : Task) (p : ℕ) (expected : TaskStatus)
    → (is_startable t.status ≡ true → t.coroutine_obj ≡ some at_rest)
    → iterate is_last 9 (t, start_loop p expected) ≡ (
        if is_startable expected
        then started_as is_last t p t.status
        else started_as is_last t p expected)
unfolding try_start cas_status
start_round is_last t p expected h =
    elim (Bool-cases (leb (status_rank done) (status_rank expected))) [
      | inl e ↦ simp (e, try_start) refl
      | inr e ↦ elim (Bool-cases (same_status expected running)) [
        | inl k ↦ simp (e, k, try_start) refl
        | inr k ↦ elim (Bool-cases (same_status t.status expected)) [
          | inl m ↦
              let same : status_rank t.status ≡ status_rank expected = ground (arith, m) in
              let self : (status_rank expected == status_rank expected) ≡ true = ground arith in
              simp (e, k, same, self, try_start, cas_status)
                (ap (λ s. go is_last s) (run_to_end is_last t p (h (simp (same, e, k) refl))))
          | inr m ↦ simp (e, k, m, try_start, cas_status) (round_known is_last t p h)
        ]
      ]
    ]

-- When no other thread acts, `start` and `resume` return after at most nine accesses. An expected status of a task that runs or has ended is refused as that, whatever
-- the task's is. Any other is only a first guess: a task that has ended or runs is refused, and one
-- that has not begun or waits runs, whatever was expected: if its coroutine yields, it waits, and
-- else it is done, calls `on_finished` once, hands on its next tasks in order and tells its manager. Without a coroutine both are refused.
pub start_alone :
    (is_last : Bool) (t : Task) (p : ℕ) (expected : TaskStatus)
    → (t.coroutine_obj ≢ none → is_startable t.status ≡ true → t.coroutine_obj ≡ some at_rest)
    → (iterate is_last 9 (begin t (start p expected)) ≡ (
        if is_some t.coroutine_obj
        then (if is_startable expected
            then started_as is_last t p t.status
            else started_as is_last t p expected)
        else (t, outside (code not_inited))))
      × (iterate is_last 9 (begin t (resume p)) ≡ iterate is_last 9 (begin t (start p waiting)))
unfolding begin first_start
start_alone is_last t p expected h = elim (Option-cases t.coroutine_obj) [
  | inl e ↦ (simp (e, begin, first_start) refl, refl)
  | inr (turn, e) ↦
      let r = start_round is_last t p expected (h (λ k. cc)) in
      (simp (e, begin, first_start) (simp e at r), refl)
]

-- A thread that has taken the task notifies its end.
notify_to_end :
    (is_last : Bool) (t : Task) (p : ℕ) (co : Option Turn)
    → t.coroutine_obj ≡ co
    → co ≢ some at_work
    → iterate is_last 5 (t, notify_loop p success) ≡ (ended_as t t.status p, outside (code success))
unfolding notify_round enter_co notify_impl active_next_tasks
notify_to_end is_last t p none e h =
    simp (e, notify_round) (ap (λ co. (ended_with t co t.status p, outside (code success))) e)
notify_to_end is_last t p (some at_rest) e h = simp (e, notify_round, enter_co) refl
notify_to_end is_last t p (some at_work) e h = absurd (h refl)
notify_to_end is_last t p (some at_end) e h =
    simp (e, notify_round) (ap (λ co. (ended_with t co t.status p, outside (code success))) e)

-- When no other thread acts and the coroutine runs to its end when it is notified, `cancel` and `kill`
-- return after at most six accesses. Of a task that runs, `cancel` is refused, and `kill` only sets the status and
-- keeps the private data. Any other task gets the status, runs its coroutine to the end, calls
-- `on_finished`, hands on its next tasks in order and tells its manager, also when it had ended.
pub cancel_alone :
    (is_last : Bool) (t : Task) (p : ℕ) (status : TaskStatus)
    → (same_status running t.status ≡ false → t.coroutine_obj ≢ some at_work)
    → (iterate is_last 6 (begin t (cancel p)) ≡ (
        if same_status running t.status
        then (t, outside (code is_running))
        else (count_late (ended_as t canceled p) t.status, outside (code success))))
      × (iterate is_last 6 (begin t (kill status p)) ≡ (
          if same_status running t.status
          then (record t { status = status; finish_priv_data = p }, outside (code success))
          else (count_late (ended_as t status p) t.status, outside (code success))))
unfolding begin try_cancel try_kill cas_status
cancel_alone is_last t p status h =
    let self : same_status t.status t.status ≡ true = ground arith in
    elim (Bool-cases (same_status running t.status)) [
      | inl e ↦ (simp (e, begin, try_cancel) refl, simp (e, self, begin, try_kill, cas_status) refl)
      | inr e ↦ elim (Bool-cases (leb (status_rank done) (status_rank t.status))) [
        | inl k ↦ (
          simp (e, k, self, begin, try_cancel, cas_status)
              (notify_to_end is_last _ p t.coroutine_obj refl (h e)),
          simp (e, k, self, begin, try_kill, cas_status)
              (notify_to_end is_last _ p t.coroutine_obj refl (h e)),
        )
        | inr k ↦ (
          simp (e, k, self, begin, try_cancel, cas_status)
              (notify_to_end is_last _ p t.coroutine_obj refl (h e)),
          simp (e, k, self, begin, try_kill, cas_status)
              (notify_to_end is_last _ p t.coroutine_obj refl (h e)),
        )
      ]
    ]

-- A task that can start, started as a new one or resumed.
pub start_free :
    (is_last : Bool) (t : Task) (p : ℕ) (expected : TaskStatus)
    → is_startable expected ≡ true
    → t.coroutine_obj ≡ some at_rest
    → is_startable t.status ≡ true
    → iterate is_last 9 (begin t (start p expected)) ≡ (
      if is_last then ended_as t done p else record t { status = waiting },
      outside (code success),
    )
start_free is_last t p expected g e h =
    let has : is_some t.coroutine_obj ≡ true = ap (λ o. is_some o) e in
    let on : leb (status_rank done) (status_rank t.status) ≡ false = ground arith in
    let out : same_status t.status running ≡ false = ground arith in
    (start_alone is_last t p expected (λ _ _. e)).0 ∙ rw (has, g, on, out) refl
