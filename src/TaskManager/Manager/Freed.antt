-- ===== src/TaskManager/Manager/Freed.antt =====
-- The timer of one task leaves the set, and the table and the set still agree.
use libcopp.Base.{
  ℕ, ◌≡◌, refl, sym, ◌∙◌, inl, inr, true, false, none, some, List, arith, ◌==◌, Bool-cases,
  Option-cases,
}
use libcopp.TaskManager.Timers.{TimerNode, timer_same, insert, erase, has}
use libcopp.TaskManager.Timers.Order.{
  timer_same-≡, timer_same_refl, has-insert, insert-has, has-erase, Sorted, erase-Sorted,
  insert-Sorted,
}
use libcopp.TaskManager.Table.{find, put, erase_key, find-put, find-erase_key}
use libcopp.TaskManager.Manager.{Node, TaskManager, remove_timeout_timer, take}
use libcopp.TaskManager.Manager.Invariant.{IsOwned, Consistent}

-- The set of timers without that of `id`.
pub record IsFreed (m : TaskManager) (id : ℕ) (timers : List TimerNode) : Type 0 where
  pub sorted : Sorted timers
  pub gone : (t : TimerNode) → has t timers ≡ true → (id == t.task_id) ≡ false
  pub kept : (t : TimerNode) → (id == t.task_id) ≡ false → has t timers ≡ has t m.task_timeout_timer

pub absent-IsFreed :
    (get_id : ℕ → ℕ) (m : TaskManager) (id : ℕ)
    → Consistent get_id m
    → find id m.tasks ≡ none
    → IsFreed m id m.task_timeout_timer
absent-IsFreed get_id m id c e = record {
  sorted = c.sorted;
  gone = λ t h. elim (Bool-cases (id == t.task_id)) [
    | inl k ↦
        let at : id ≡ t.task_id = ground arith in
        let (n, f, _) = c.timed t h in absurd (ground (arith, at, e, f))
    | inr k ↦ k
  ];
  kept = λ t h. refl;
}

no_timer-IsFreed :
    (get_id : ℕ → ℕ) (m : TaskManager) (id : ℕ) (n : Node)
    → Consistent get_id m
    → find id m.tasks ≡ some n
    → n.timer_node ≡ none
    → IsFreed m id m.task_timeout_timer
no_timer-IsFreed get_id m id n c e o = record {
  sorted = c.sorted;
  gone = λ t h. elim (Bool-cases (id == t.task_id)) [
    | inl k ↦
        let at : id ≡ t.task_id = ground arith in
        let (n', f, q) = c.timed t h in let f' : find id m.tasks ≡ some n' = rw at f in absurd cc
    | inr k ↦ k
  ];
  kept = λ t h. refl;
}

timer-IsFreed :
    (get_id : ℕ → ℕ) (m : TaskManager) (id : ℕ) (n : Node) (u : TimerNode)
    → Consistent get_id m
    → find id m.tasks ≡ some n
    → n.timer_node ≡ some u
    → IsFreed m id (erase u m.task_timeout_timer)
timer-IsFreed get_id m id n u c e o =
    let mine = ((c.owned id n e).timer u o).1 in
    record {
      sorted = erase-Sorted u m.task_timeout_timer c.sorted;
      gone = λ t h. elim (Bool-cases (id == t.task_id)) [
        | inl k ↦
            let at : id ≡ t.task_id = ground arith in
            let (n', f, q) = c.timed t (ground (arith, h, has-erase t u m.task_timeout_timer)) in
            let f' : find id m.tasks ≡ some n' = rw at f in
            let same : t ≡ u = cc in
            let refuted = timer_same_refl u in
            absurd (ground (arith, h, has-erase t u m.task_timeout_timer, same, refuted))
        | inr k ↦ k
      ];
      kept = λ t h. elim (Bool-cases (timer_same t u)) [
        | inl k ↦ let at = timer_same-≡ t u k in absurd (ground (arith, at, mine, h))
        | inr k ↦ ground (arith, k, has-erase t u m.task_timeout_timer)
      ];
    }

pub remove_timeout_timer-IsFreed :
    (get_id : ℕ → ℕ) (m : TaskManager) (id : ℕ) (n : Node)
    → Consistent get_id m
    → find id m.tasks ≡ some n
    → IsFreed m id (remove_timeout_timer m.task_timeout_timer n).0
unfolding remove_timeout_timer
remove_timeout_timer-IsFreed get_id m id n c e = elim (Option-cases n.timer_node) [
  | inl o ↦ rw (o, remove_timeout_timer) (no_timer-IsFreed get_id m id n c e o)
  | inr (u, o) ↦ rw (o, remove_timeout_timer) (timer-IsFreed get_id m id n u c e o)
]

pub remove_timeout_timer-node :
    (timers : List TimerNode) (n : Node)
    → ((remove_timeout_timer timers n).1.timer_node ≡ none)
      × ((remove_timeout_timer timers n).1.task_ptr ≡ n.task_ptr)
unfolding remove_timeout_timer
remove_timeout_timer-node timers n = elim (Option-cases n.timer_node) [
  | inl o ↦ rw (o, remove_timeout_timer) (o, refl)
  | inr (u, o) ↦ rw (o, remove_timeout_timer) (refl, refl)
]

pub freed-same :
    (get_id : ℕ → ℕ) (m : TaskManager) (id : ℕ) (timers : List TimerNode) (j : ℕ) (n : Node)
    → Consistent get_id m
    → IsFreed m id timers
    → (id == j) ≡ false
    → find j m.tasks ≡ some n
    → IsOwned get_id timers j n
freed-same get_id m id timers j n c f h e =
    let o = c.owned j n e in
    record {
      task = o.task;
      timer = λ t k. ((f.kept t (ground (arith, o.timer t k)) ∙ (o.timer t k).0), (o.timer t k).1);
    }

pub freed-timed :
    (get_id : ℕ → ℕ) (m : TaskManager) (id : ℕ) (timers : List TimerNode) (t : TimerNode)
    → Consistent get_id m
    → IsFreed m id timers
    → has t timers ≡ true
    → (n : Node) × (find t.task_id m.tasks ≡ some n) × (n.timer_node ≡ some t)
freed-timed get_id m id timers t c f h = c.timed t (sym (f.kept t (f.gone t h)) ∙ h)

pub erase-Consistent :
    (get_id : ℕ → ℕ) (m : TaskManager) (id : ℕ) (timers : List TimerNode)
    → Consistent get_id m
    → IsFreed m id timers
    → Consistent get_id (record m { tasks = erase_key id m.tasks; task_timeout_timer = timers })
erase-Consistent get_id m id timers c f = record {
  sorted = f.sorted;
  timed = λ t h.
      let (n, e, k) = freed-timed get_id m id timers t c f h in
      (n, (find-erase_key id t.task_id m.tasks ∙ rw (f.gone t h) e), k);
  owned = λ j n e. elim (Bool-cases (id == j)) [
    | inl h ↦ absurd (ground (arith, e, h, find-erase_key id j m.tasks))
    | inr h ↦
        freed-same get_id m id timers j n c f h (ground (arith, e, h, find-erase_key id j m.tasks))
  ];
}

pub put-Consistent :
    (get_id : ℕ → ℕ) (m : TaskManager) (id : ℕ) (timers : List TimerNode) (n : Node)
    → Consistent get_id m
    → IsFreed m id timers
    → (k : ℕ) × (n.task_ptr ≡ some k) × (get_id k ≡ id)
    → n.timer_node ≡ none
    → Consistent get_id (record m { tasks = put id n m.tasks; task_timeout_timer = timers })
put-Consistent get_id m id timers n c f own e = record {
  sorted = f.sorted;
  timed = λ t h.
      let (n', e', k) = freed-timed get_id m id timers t c f h in
      (n', (find-put id t.task_id n m.tasks ∙ rw (f.gone t h) e'), k);
  owned = λ j n' e'. elim (Bool-cases (id == j)) [
    | inl h ↦
        let at : id ≡ j = ground arith in
        let same : n ≡ n' = ground (arith, e', h, find-put id j n m.tasks) in
        rw (sym same, sym at) (record { task = own; timer = λ t k. absurd cc })
    | inr h ↦
        freed-same get_id m id timers j n' c f h (ground (arith, e', h, find-put id j n m.tasks))
  ];
}

pub insert-Consistent :
    (get_id : ℕ → ℕ) (m : TaskManager) (id : ℕ) (timers : List TimerNode) (n : Node) (u : TimerNode)
    → Consistent get_id m
    → IsFreed m id timers
    → (k : ℕ) × (n.task_ptr ≡ some k) × (get_id k ≡ id)
    → u.task_id ≡ id
    → Consistent get_id (record m {
      tasks = put id (record n { timer_node = some u }) m.tasks;
      task_timeout_timer = (insert u timers).0;
    })
insert-Consistent get_id m id timers n u c f own at = record {
  sorted = insert-Sorted u timers f.sorted;
  timed = λ t h. elim (Bool-cases (timer_same t u)) [
    | inl k ↦
        let same = timer_same-≡ t u k in
        (
          record n { timer_node = some u },
          ground
              (arith, at, same, find-put id t.task_id (record n { timer_node = some u }) m.tasks),
          rw same refl,
        )
    | inr k ↦
        let h' : has t timers ≡ true = ground (arith, h, k, has-insert t u timers) in
        let (n', e', k') = freed-timed get_id m id timers t c f h' in
        (n', (find-put id t.task_id _ m.tasks ∙ rw (f.gone t h') e'), k')
  ];
  owned = λ j n' e'. elim (Bool-cases (id == j)) [
    | inl h ↦
        let eq : id ≡ j = ground arith in
        let same : record n { timer_node = some u } ≡ n' =
          ground (arith, e', h, find-put id j (record n { timer_node = some u }) m.tasks) in
        rw (sym same, sym eq)
          (record {
            task = own;
            timer = λ t k.
                let e : u ≡ t = cc in
                (
                  rw (sym e) (has-insert u u timers ∙ ground (arith, timer_same_refl u)),
                  rw (sym e) at,
                );
          })
    | inr h ↦
        let o =
          freed-same get_id m id timers j n' c f h
            (ground (arith, e', h, find-put id j (record n { timer_node = some u }) m.tasks)) in
        record {
          task = o.task;
          timer = λ t k. ((has-insert t u timers ∙ ground (arith, o.timer t k)), (o.timer t k).1);
        }
  ];
}

-- A timer of a freed id is new.
pub freed-insert :
    (m : TaskManager) (id : ℕ) (timers : List TimerNode) (u : TimerNode)
    → IsFreed m id timers
    → u.task_id ≡ id
    → (insert u timers).1 ≡ true
freed-insert m id timers u f at = elim (Bool-cases (insert u timers).1) [
  | inl e ↦ e
  | inr e ↦ let gone = f.gone u (insert-has u timers e) in absurd (ground (arith, gone, at))
]

pub take-Consistent :
    (get_id : ℕ → ℕ) (m : TaskManager) (id : ℕ) (n : Node)
    → Consistent get_id m
    → find id m.tasks ≡ some n
    → Consistent get_id (take m id n)
unfolding take
take-Consistent get_id m id n c e =
    erase-Consistent get_id m id _ c (remove_timeout_timer-IsFreed get_id m id n c e)
