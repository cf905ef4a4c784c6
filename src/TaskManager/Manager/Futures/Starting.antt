-- ===== src/TaskManager/Manager/Futures/Starting.antt =====
-- What `start` and `remove_task` of the manager of futures leave and return.
use libcopp.Base.{
  ℕ, subst, List, none, if◌then◌else◌, ◌≡◌, refl, sym, ap, ◌∙◌, ◌≢◌, ◌⊎◌, inl, inr, Bool, true,
  false, ◌&&◌, ◌||◌, Option, some, arith, ltb, leb, ◌==◌, Bool-cases, Option-cases,
}
use libcopp.Errno.{pos, code_value, CoppErrorCode, success}
use libcopp.StdCoroutine.Promise
use libcopp.StdCoroutine.Promise.{PromiseStatus}
use libcopp.TaskManager.Timers.{TimerNode, erase}
use libcopp.TaskManager.Table.{find, erase_key}
use libcopp.TaskManager.Manager.{
  Node, TaskManager, is_resetting, take, is_confirmed, remove_timeout_timer,
}
use libcopp.TaskManager.Manager.Futures.{
  FutureOps, as_int, drop_future, remove_future, find_future, start_task, start_future,
}

-- A task is exiting by its status, which the binding to a manager has no part in.
pub record IsStatus {W : Type 0} (ops : FutureOps W) : Type 0 where
  pub is_exiting_lem :
      (w : W) (k : ℕ)
      → ops.is_exiting w k ≡ (
          let status = Promise.status_rank (ops.get_status w k) in
          leb (Promise.status_rank Promise.done) status
          || (status == Promise.status_rank Promise.invalid))
  pub cleanup_status :
      (w : W) (k : ℕ) → ops.get_status (ops.cleanup_task_manager w k) k ≡ ops.get_status w k

abbrev pub runs : PromiseStatus → Bool
runs status =
    let at = Promise.status_rank status in
    ltb (Promise.status_rank Promise.created) at && ltb at (Promise.status_rank Promise.done)

-- The timers without the one of a node.
abbrev pub without_timer : List TimerNode → Node → List TimerNode
without_timer timers n = elim n.timer_node [ none ↦ timers | some t ↦ erase t timers ]

-- The manager without the node of `id`.
abbrev pub without : TaskManager → ℕ → Node → TaskManager
without m id n = record m {
  tasks = erase_key id m.tasks;
  task_timeout_timer = without_timer m.task_timeout_timer n;
}

take_lem : (m : TaskManager) (id : ℕ) (n : Node) → take m id n ≡ without m id n
unfolding take remove_timeout_timer
take_lem m id n = elim (Option-cases n.timer_node) [
  | inl e ↦ rw (take, remove_timeout_timer, e) refl
  | inr (x, e) ↦ rw (take, remove_timeout_timer, e) refl
]

as_int_lem : (b : Bool) → as_int b ≡ (if b then pos 1 else pos 0)
as_int_lem true = refl
as_int_lem false = refl

one_is_no_code : (c : CoppErrorCode) → code_value c ≢ pos 1
one_is_no_code c e = elim c as (λ c. code_value c ≢ pos 1) [ success ↦ λ h. cc | _ ↦ λ h. cc ] e

module _ {W : Type 0} (ops : FutureOps W) where
  drop_future-exiting :
      IsStatus ops
      → (s : TaskManager × W) (k : ℕ) → ops.is_exiting s.1 k ≡ true
      → drop_future ops s (some k) ≡ ((s.0, ops.cleanup_task_manager s.1 k), code_value success)
  unfolding drop_future
  drop_future-exiting laws s k e =
      let exits = sym (laws.is_exiting_lem s.1 k) ∙ e in
      let same = ap Promise.status_rank (laws.cleanup_status s.1 k) in
      let ended : runs (ops.get_status (ops.cleanup_task_manager s.1 k) k) ≡ false =
        ground (arith, exits, same) in
      rw (ended, drop_future) refl

  drop_future-running :
      IsStatus ops
      → (s : TaskManager × W) (k : ℕ) → runs (ops.get_status s.1 k) ≡ true
      → let (s1, is_killed) = ops.kill (s.0, ops.cleanup_task_manager s.1 k) k Promise.killed in
        drop_future ops s (some k) ≡ (s1, as_int is_killed)
  unfolding drop_future
  drop_future-running laws s k r =
      let still : runs (ops.get_status (ops.cleanup_task_manager s.1 k) k) ≡ true =
        ap runs (laws.cleanup_status s.1 k) ∙ r in
      rw (still, drop_future) refl

  -- What is left of `s1` when `start` has asked for the removal of the context `k` from under `id`:
  -- without the entry, its timer and its binding, or as it was.
  pub data Removed (s1 : TaskManager × W) (id k : ℕ) : TaskManager × W → Type 0 where
    still_there :
        (n : Node)
        → is_resetting s1.0 ≡ false
        → find id s1.0.tasks ≡ some n
        → n.task_ptr ≡ some k
        → Removed s1 id k (without s1.0 id n, ops.cleanup_task_manager s1.1 k)
    is_gone : find_future ops s1 id ≢ some (some k) → Removed s1 id k s1

  remove_future-Removed :
      IsStatus ops
      → (s : TaskManager × W) (id k : ℕ) → ops.is_exiting s.1 k ≡ true
      → Removed s id k (remove_future ops s id (some k)).0
  unfolding remove_future find_future
  remove_future-Removed laws s id k x = elim (Bool-cases (is_resetting s.0)) [
    | inl e ↦ rw (e, remove_future) (is_gone (λ h. cc (rw (e, find_future) at h)))
    | inr e ↦ elim (Option-cases (find id s.0.tasks)) [
      | inl f ↦ rw (e, remove_future, f) (is_gone (λ h. cc (rw (e, find_future, f) at h)))
      | inr (n, f) ↦ elim (Option-cases n.task_ptr) [
        | inl q ↦
            rw (e, remove_future, f, is_confirmed, q)
              (is_gone (λ h. cc (rw (e, find_future, f, q) at h)))
        | inr (k', q) ↦ elim (Bool-cases (k' == k)) [
          | inl same ↦
              let q' : n.task_ptr ≡ some k = q ∙ ground (arith, same) in
              let sure : is_confirmed (some k) n ≡ true = rw (q', is_confirmed) (ground arith) in
              let dropped =
                ap (drop_future ops (take s.0 id n, s.1)) q'
                ∙ drop_future-exiting laws (take s.0 id n, s.1) k x in
              rw (e, remove_future, f, sure, dropped)
                (subst (λ m. Removed s id k (m, ops.cleanup_task_manager s.1 k))
                  (sym (take_lem s.0 id n)) (still_there n e f q'))
          | inr other ↦
              let unsure : is_confirmed (some k) n ≡ false = rw (q, is_confirmed) other in
              let missing : find_future ops s id ≢ some (some k) = λ h.
                let same = rw (e, find_future, f, q) at h in absurd (ground (arith, same, other)) in
              rw (e, remove_future, f, unsure) (is_gone missing)
        ]
      ]
    ]
  ]

  -- `start` of a task that is in the table, out of a reset, starts it and returns `COPP_EC_SUCCESS`.
  -- If the task is exiting then, its entry is taken out, with its binding and its timer, but only if
  -- the id still has the same context: a task that has the id meanwhile is left alone. If the task
  -- goes on, the manager is as the start left it.
  pub start_future-Removed :
      IsStatus ops
      → (s : TaskManager × W) (id k : ℕ) (n : Node) → is_resetting s.0 ≡ false
      → find id s.0.tasks ≡ some n
      → n.task_ptr ≡ some k
      → let s1 = (ops.start s k).0 in
        let (s', code) = start_future ops s id in
        (code ≡ success)
        × ((ops.is_exiting s1.1 k ≡ false) × (s' ≡ s1)
            ⊎ (ops.is_exiting s1.1 k ≡ true) × Removed s1 id k s')
  unfolding start_future start_task
  start_future-Removed laws s id k n e f q =
      let s1 = (ops.start s k).0 in
      elim (Bool-cases (ops.is_exiting s1.1 k)) [
        | inl x ↦
            rw (e, start_future, f, q, start_task, x)
              (refl, inr (refl, remove_future-Removed laws s1 id k x))
        | inr x ↦ rw (e, start_future, f, q, start_task, x) (refl, inl (refl, refl))
      ]

  drop_future-resting :
      IsStatus ops
      → (s : TaskManager × W) (k : ℕ) → runs (ops.get_status s.1 k) ≡ false
      → drop_future ops s (some k) ≡ ((s.0, ops.cleanup_task_manager s.1 k), code_value success)
  unfolding drop_future
  drop_future-resting laws s k r =
      let still : runs (ops.get_status (ops.cleanup_task_manager s.1 k) k) ≡ false =
        ap runs (laws.cleanup_status s.1 k) ∙ r in
      rw (still, drop_future) refl

  -- `remove_task` of a task, out of a reset and with its own context or null to confirm, takes its
  -- entry out with its timer and its binding. If the task does not run it returns 0. If it runs, the
  -- task is killed off the table, and the value is 1, which is the value of no code, if the kill
  -- succeeds, and 0, which is `COPP_EC_SUCCESS`, if it is refused.
  pub remove_future_value :
      IsStatus ops
      → (s : TaskManager × W) (id k : ℕ) (o : Option ℕ) (n : Node) → is_resetting s.0 ≡ false
      → find id s.0.tasks ≡ some n
      → n.task_ptr ≡ some k
      → is_confirmed o n ≡ true
      → let unbound : TaskManager × W = (without s.0 id n, ops.cleanup_task_manager s.1 k) in
        let (s1, is_killed) = ops.kill unbound k Promise.killed in
        let (s', value) = remove_future ops s id o in
        (runs (ops.get_status s.1 k) ≡ true
          → (s' ≡ s1) × (value ≡ (if is_killed then pos 1 else pos 0)))
        × (runs (ops.get_status s.1 k) ≡ false → (s' ≡ unbound) × (value ≡ pos 0))
        × ((c : CoppErrorCode) → code_value c ≢ pos 1)
  unfolding remove_future
  remove_future_value laws s id k o n e f q c =
      let removed : remove_future ops s id o ≡ drop_future ops (without s.0 id n, s.1) (some k) =
        rw (e, remove_future, f, c)
          (ap (drop_future ops (take s.0 id n, s.1)) q
            ∙ ap (λ m. drop_future ops (m, s.1) (some k)) (take_lem s.0 id n)) in
      let taken : TaskManager × W = (without s.0 id n, s.1) in
      (
        (λ r.
            let all = removed ∙ drop_future-running laws taken k r in
            (ap (λ x. x.0) all, ap (λ x. x.1) all ∙ as_int_lem _)),
        (λ r.
            let all = removed ∙ drop_future-resting laws taken k r in
            (ap (λ x. x.0) all, ap (λ x. x.1) all)),
        one_is_no_code,
      )
