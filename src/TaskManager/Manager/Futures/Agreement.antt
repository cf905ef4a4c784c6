-- ===== src/TaskManager/Manager/Futures/Agreement.antt =====
-- The manager of futures against the manager of stackful tasks, over the same tasks.
use libcopp.Base.{
  ℕ, zero, suc, ◌≡◌, refl, sym, ap, ◌∙◌, inl, inr, true, ◌&&◌, Option, none, some, List, [], ◌∷◌,
  arith, ltb, Bool-cases, Option-cases,
}
use libcopp.Errno.{success}
use libcopp.StdCoroutine.Promise
use libcopp.StdCoroutine.Promise.{PromiseStatus}
use libcopp.TaskManager.Timers.{TickSpec, TimerNode, tick_until}
use libcopp.TaskManager.Table.{find}
use libcopp.TaskManager.Manager
use libcopp.TaskManager.Manager.{
  Node, TaskManager, TaskStatus, TaskOps, is_resetting, is_ticking, take, is_confirmed, first_tick,
  is_past, is_first, add_node, add_task, set_timeout, drop_task, remove_task, end_task, cancel,
  kill, time_out, expire_first, expire_round, expire, tick,
}
use libcopp.TaskManager.Manager.Futures.{
  FutureOps, insert_future, add_future, set_future_timeout, drop_future, remove_future, kill_future,
  cancel_future, time_out_future, expire_future, expire_futures, tick_futures,
}

pub as_task_status : PromiseStatus → TaskStatus
as_task_status Promise.invalid = Manager.invalid
as_task_status Promise.created = Manager.created
as_task_status Promise.running = Manager.running
as_task_status Promise.done = Manager.done
as_task_status Promise.cancle = Manager.canceled
as_task_status Promise.killed = Manager.killed
as_task_status Promise.timeout = Manager.timeout

pub as_promise_status : TaskStatus → PromiseStatus
as_promise_status Manager.invalid = Promise.invalid
as_promise_status Manager.created = Promise.created
as_promise_status Manager.running = Promise.running
as_promise_status Manager.waiting = Promise.running
as_promise_status Manager.done = Promise.done
as_promise_status Manager.canceled = Promise.cancle
as_promise_status Manager.killed = Promise.killed
as_promise_status Manager.timeout = Promise.timeout

-- Futures as stackful tasks whose calls return `COPP_EC_SUCCESS`.
pub as_tasks : {W : Type 0} → FutureOps W → TaskOps W
unfolding as_task_status as_promise_status
as_tasks ops = record {
  get_id = ops.get_id;
  is_exiting = ops.is_exiting;
  get_status = λ w k. as_task_status (ops.get_status w k);
  setup_task_manager = ops.setup_task_manager;
  cleanup_task_manager = ops.cleanup_task_manager;
  start = λ s k p. ((ops.start s k).0, success);
  resume = λ s k p. ((ops.start s k).0, success);
  cancel = λ s k p. ((ops.kill s k Promise.cancle).0, success);
  kill = λ s k status p. ((ops.kill s k (as_promise_status status)).0, success);
}

as_promise_status_lem :
    (status : PromiseStatus) → as_promise_status (as_task_status status) ≡ status
unfolding as_task_status as_promise_status
as_promise_status_lem Promise.invalid = refl
as_promise_status_lem Promise.created = refl
as_promise_status_lem Promise.running = refl
as_promise_status_lem Promise.done = refl
as_promise_status_lem Promise.cancle = refl
as_promise_status_lem Promise.killed = refl
as_promise_status_lem Promise.timeout = refl

-- Both managers take the same statuses for those of a task that runs.
runs_agree :
    (status : PromiseStatus)
    → let f = Promise.status_rank status in
      let t = Manager.status_rank (as_task_status status) in
      (ltb (Promise.status_rank Promise.created) f && ltb f (Promise.status_rank Promise.done))
      ≡ (ltb (Manager.status_rank Manager.created) t && ltb t (Manager.status_rank Manager.done))
unfolding as_task_status
runs_agree Promise.invalid = refl
runs_agree Promise.created = refl
runs_agree Promise.running = refl
runs_agree Promise.done = refl
runs_agree Promise.cancle = refl
runs_agree Promise.killed = refl
runs_agree Promise.timeout = refl

module _ {W : Type 0} (ops : FutureOps W) where
  add_future_lem :
      (s : TaskManager × W) (k timeout_sec timeout_nsec : ℕ)
      → add_future ops s (some k) timeout_sec timeout_nsec
        ≡ add_task (as_tasks ops) s (some k) timeout_sec timeout_nsec
  unfolding add_future add_task insert_future add_node as_tasks
  add_future_lem s k timeout_sec timeout_nsec = ground arith

  drop_future_lem :
      (s : TaskManager × W) (o : Option ℕ)
      → (drop_future ops s o).0 ≡ (drop_task (as_tasks ops) s o).0
  unfolding drop_future drop_task as_tasks
  drop_future_lem s none = refl
  drop_future_lem s (some k) =
      let status = ops.get_status (ops.cleanup_task_manager s.1 k) k in
      let f = Promise.status_rank status in
      elim (Bool-cases
        (ltb (Promise.status_rank Promise.created) f && ltb f (Promise.status_rank Promise.done))) [
          | inl e ↦ let e' = sym (runs_agree status) ∙ e in rw (e, drop_future, e', drop_task) refl
          | inr e ↦ let e' = sym (runs_agree status) ∙ e in rw (e, drop_future, e', drop_task) refl
        ]

  remove_future_lem :
      (s : TaskManager × W) (id : ℕ) (o : Option ℕ)
      → (remove_future ops s id o).0 ≡ (remove_task (as_tasks ops) s id o).0
  unfolding remove_future remove_task
  remove_future_lem s id o = elim (Bool-cases (is_resetting s.0)) [
    | inl e ↦ rw (e, remove_future, remove_task) refl
    | inr e ↦ elim (Option-cases (find id s.0.tasks)) [
      | inl f ↦ rw (e, remove_future, remove_task, f) refl
      | inr (n, f) ↦ elim (Bool-cases (is_confirmed o n)) [
        | inl y ↦
            rw (e, remove_future, remove_task, f, y)
              (drop_future_lem (take s.0 id n, s.1) n.task_ptr)
        | inr y ↦ rw (e, remove_future, remove_task, f, y) refl
      ]
    ]
  ]

  kill_future_lem :
      (s : TaskManager × W) (id p : ℕ) (target : PromiseStatus)
      → kill_future ops s id target ≡ kill (as_tasks ops) s id (as_task_status target) p
  unfolding kill_future kill end_task as_tasks
  kill_future_lem s id p target = elim (Bool-cases (is_resetting s.0)) [
    | inl e ↦ rw (e, kill_future, kill, end_task) refl
    | inr e ↦ elim (Option-cases (find id s.0.tasks)) [
      | inl f ↦ rw (e, kill_future, kill, end_task, f) refl
      | inr (n, f) ↦ elim (Option-cases n.task_ptr) [
        | inl q ↦ rw (e, kill_future, kill, end_task, f, q) refl
        | inr (k, q) ↦
            let taken : TaskManager × W = (take s.0 id n, ops.cleanup_task_manager s.1 k) in
            rw (e, kill_future, kill, end_task, f, q)
              (ap (λ (status : PromiseStatus). ((ops.kill taken k status).0, success))
                (sym (as_promise_status_lem target)))
      ]
    ]
  ]

  time_out_future_lem :
      (s : TaskManager × W) (o : Option ℕ) → time_out_future ops s o ≡ time_out (as_tasks ops) s o
  unfolding time_out_future time_out as_tasks as_promise_status
  time_out_future_lem s none = refl
  time_out_future_lem s (some k) = refl

  expire_future_lem :
      (now : TickSpec) (s : TaskManager × W) (l : List TimerNode)
      → expire_future ops now s l ≡ expire_first (as_tasks ops) now s l
  unfolding expire_future expire_first
  expire_future_lem now s [] = refl
  expire_future_lem now s (t ∷ l) = elim (Bool-cases (tick_until now t.expired_time)) [
    | inl e ↦ rw (e, expire_future, expire_first) refl
    | inr e ↦ elim (Option-cases (find t.task_id s.0.tasks)) [
      | inl f ↦ rw (e, expire_future, expire_first, f) refl
      | inr (n, f) ↦
          rw (e, expire_future, expire_first, f)
            (ap some (time_out_future_lem (take s.0 t.task_id n, s.1) n.task_ptr))
    ]
  ]

  expire_futures_lem :
      (fuel : ℕ) (now : TickSpec) (s : TaskManager × W)
      → expire_futures ops fuel now s ≡ expire (as_tasks ops) fuel now s
  unfolding expire_futures expire expire_round
  expire_futures_lem zero now s = refl
  expire_futures_lem (suc fuel) now s =
      let same = expire_future_lem now s s.0.task_timeout_timer in
      elim (Option-cases (expire_future ops now s s.0.task_timeout_timer)) [
        | inl e ↦
            let e' : expire_round (as_tasks ops) now s ≡ none = sym same ∙ e in
            rw (e, expire_futures, e', expire) refl
        | inr (s', e) ↦
            let e' : expire_round (as_tasks ops) now s ≡ some s' = sym same ∙ e in
            rw (e, expire_futures, e', expire) (expire_futures_lem fuel now s')
      ]

  tick_futures_lem :
      (fuel : ℕ) (s : TaskManager × W) (sec nsec : ℕ)
      → tick_futures ops fuel s sec nsec ≡ tick (as_tasks ops) fuel s sec nsec
  unfolding tick_futures tick
  tick_futures_lem fuel s sec nsec =
      let now : TickSpec = record { tv_sec = sec; tv_nsec = nsec } in
      let begun : TaskManager × W = (record s.0 { in_tick = true }, s.1) in
      rw (expire_futures_lem fuel now begun, tick_futures, tick) refl

  -- On tasks that are futures, the manager of futures does what the manager of stackful tasks does,
  -- with the same results: `add_task` of a future that is not empty, `set_timeout`, `kill`, `cancel`
  -- and `tick`; and `remove_task` leaves the same.
  pub futures-Agree :
      (s : TaskManager × W) (id k p fuel a b : ℕ) (o : Option ℕ) (target : PromiseStatus)
      → (add_future ops s (some k) a b ≡ add_task (as_tasks ops) s (some k) a b)
        × (set_future_timeout ops s id a b ≡ set_timeout (as_tasks ops) s id a b)
        × ((remove_future ops s id o).0 ≡ (remove_task (as_tasks ops) s id o).0)
        × (kill_future ops s id target ≡ kill (as_tasks ops) s id (as_task_status target) p)
        × (cancel_future ops s id ≡ cancel (as_tasks ops) s id p)
        × (tick_futures ops fuel s a b ≡ tick (as_tasks ops) fuel s a b)
  unfolding set_future_timeout set_timeout cancel_future kill_future cancel end_task as_tasks
  futures-Agree s id k p fuel a b o target = (
    add_future_lem s k a b,
    refl,
    remove_future_lem s id o,
    kill_future_lem s id p target,
    ground arith,
    tick_futures_lem fuel s a b,
  )
