-- ===== src/TaskManager/Manager/Timing.antt =====
-- A task gets a timer.
use libcopp.Base.{
  ℕ, ◌+◌, ◌≡◌, refl, ◌∙◌, inl, inr, false, not, ◌&&◌, ◌||◌, none, some, List, arith, leb, ◌==◌,
  if◌then◌else◌, Bool-cases,
}
use libcopp.TaskManager.Timers.{TimerNode, timer_same, has}
use libcopp.TaskManager.Timers.Order.{timer_same-false, has-insert}
use libcopp.TaskManager.Table.{find, find-put}
use libcopp.TaskManager.Manager.{
  Node, TaskManager, remove_timeout_timer, set_timeout_timer, with_timer,
}
use libcopp.TaskManager.Manager.Invariant.{Consistent}
use libcopp.TaskManager.Manager.Freed.{
  IsFreed, absent-IsFreed, remove_timeout_timer-IsFreed, remove_timeout_timer-node, put-Consistent,
  insert-Consistent, freed-insert,
}

-- The timers once `id` has the timeout given, the time of the last tick included; 0 is for none.
abbrev pub timer_after : TaskManager → ℕ → ℕ → ℕ → TimerNode
timer_after m id timeout_sec timeout_nsec = record {
  expired_time = record {
    tv_sec = m.last_tick_time.tv_sec + timeout_sec;
    tv_nsec = m.last_tick_time.tv_nsec + timeout_nsec;
  };
  task_id = id;
}

pub record IsTimed (get_id : ℕ → ℕ) (m m' : TaskManager) (id timeout_sec timeout_nsec : ℕ)
    : Type 0 where
  pub consistent : Consistent get_id m'
  pub timers :
      (t : TimerNode)
      → has t m'.task_timeout_timer ≡ (
          if id == t.task_id
          then not ((timeout_sec == 0) && (timeout_nsec == 0))
            && timer_same t (timer_after m id timeout_sec timeout_nsec)
          else has t m.task_timeout_timer)
  pub tasks : (j : ℕ) → (id == j) ≡ false → find j m'.tasks ≡ find j m.tasks
  pub listed :
      (k : ℕ) × (n : Node) × (find id m'.tasks ≡ some n) × (n.task_ptr ≡ some k) × (get_id k ≡ id)

freed-has :
    (m : TaskManager) (id : ℕ) (timers : List TimerNode) (t : TimerNode)
    → IsFreed m id timers
    → has t timers ≡ (if id == t.task_id then false else has t m.task_timeout_timer)
freed-has m id timers t f = elim (Bool-cases (id == t.task_id)) [
  | inl e ↦ elim (Bool-cases (has t timers)) [
    | inl h ↦ absurd (ground (arith, e, f.gone t h))
    | inr h ↦ rw e h
  ]
  | inr e ↦ rw e (f.kept t e)
]

timer_after-has :
    (m : TaskManager) (id i timeout_sec timeout_nsec : ℕ) (rest : List TimerNode) (t : TimerNode)
    → (leb timeout_sec 0 && leb timeout_nsec 0) ≡ false
    → i ≡ id
    → has t rest ≡ (if id == t.task_id then false else has t m.task_timeout_timer)
    → (timer_same t (timer_after m i timeout_sec timeout_nsec) || has t rest) ≡ (
        if id == t.task_id
        then not ((timeout_sec == 0) && (timeout_nsec == 0))
          && timer_same t (timer_after m id timeout_sec timeout_nsec)
        else has t m.task_timeout_timer)
timer_after-has m id i timeout_sec timeout_nsec rest t z at h =
    elim (Bool-cases (id == t.task_id)) [
      | inl e ↦ rw at (ground (arith, z, h, e))
      | inr e ↦
          ground (
            arith,
            z,
            h,
            e,
            timer_same-false t (timer_after m i timeout_sec timeout_nsec) (rw at e),
          )
    ]

with_timer-freed :
    (get_id : ℕ → ℕ) (m : TaskManager) (id : ℕ) (n : Node) (timeout_sec timeout_nsec k : ℕ)
    → Consistent get_id m
    → IsFreed m id (remove_timeout_timer m.task_timeout_timer n).0
    → n.task_ptr ≡ some k
    → get_id k ≡ id
    → IsTimed get_id m
        (with_timer get_id m id n timeout_sec timeout_nsec)
        id
        timeout_sec
        timeout_nsec
unfolding set_timeout_timer
with_timer-freed get_id m id n timeout_sec timeout_nsec k c f e at =
    let rest = (remove_timeout_timer m.task_timeout_timer n).0 in
    let n' = (remove_timeout_timer m.task_timeout_timer n).1 in
    let (off, kept) = remove_timeout_timer-node m.task_timeout_timer n in
    let own : n'.task_ptr ≡ some k = kept ∙ e in
    elim (Bool-cases (leb timeout_sec 0 && leb timeout_nsec 0)) [
      | inl z ↦
          rw (z, set_timeout_timer)
            (record {
              consistent = put-Consistent get_id m id rest n' c f (k, own, at) off;
              timers = λ t. freed-has m id rest t f ∙ ground (arith, z);
              tasks = λ j h. find-put id j n' m.tasks ∙ ground (arith, h);
              listed = (k, n', (find-put id id n' m.tasks ∙ ground arith), own, at);
            })
      | inr z ↦
          let u : TimerNode = timer_after m (get_id k) timeout_sec timeout_nsec in
          let timed_has = λ (t : TimerNode).
            timer_after-has m id (get_id k) timeout_sec timeout_nsec rest t z at in
          rw (z, set_timeout_timer, own, freed-insert m id rest u f at)
            (record {
              consistent = insert-Consistent get_id m id rest n' u c f (k, own, at) at;
              timers = λ t. has-insert t u rest ∙ timed_has t (freed-has m id rest t f);
              tasks = λ j h.
                  find-put id j (record n' { timer_node = some u }) m.tasks ∙ ground (arith, h);
              listed = (
                k,
                record n' { timer_node = some u },
                (find-put id id (record n' { timer_node = some u }) m.tasks ∙ ground arith),
                own,
                at,
              );
            })
    ]

pub with_timer_new :
    (get_id : ℕ → ℕ) (m : TaskManager) (k timeout_sec timeout_nsec : ℕ)
    → Consistent get_id m
    → find (get_id k) m.tasks ≡ none
    → IsTimed get_id m
        (with_timer get_id m
          (get_id k)
          (record { task_ptr = some k; timer_node = none })
          timeout_sec
          timeout_nsec)
        (get_id k)
        timeout_sec
        timeout_nsec
unfolding remove_timeout_timer
with_timer_new get_id m k timeout_sec timeout_nsec c e =
    with_timer-freed get_id m (get_id k) (record { task_ptr = some k; timer_node = none })
      timeout_sec timeout_nsec k c (absent-IsFreed get_id m (get_id k) c e) refl refl

pub with_timer_known :
    (get_id : ℕ → ℕ) (m : TaskManager) (id : ℕ) (n : Node) (timeout_sec timeout_nsec : ℕ)
    → Consistent get_id m
    → find id m.tasks ≡ some n
    → IsTimed get_id m
        (with_timer get_id m id n timeout_sec timeout_nsec)
        id
        timeout_sec
        timeout_nsec
with_timer_known get_id m id n timeout_sec timeout_nsec c e =
    let (k, p, at) = (c.owned id n e).task in
    with_timer-freed get_id m id n timeout_sec timeout_nsec k c
      (remove_timeout_timer-IsFreed get_id m id n c e) p at
