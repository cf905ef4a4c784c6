-- ===== src/TaskManager/Manager/Invariant.antt =====
-- The table and the set of timers agree.
use libcopp.Base.{ℕ, ◌≡◌, sym, subst, true, some, List}
use libcopp.TaskManager.Timers.{TimerNode, has}
use libcopp.TaskManager.Timers.Order.{Sorted}
use libcopp.TaskManager.Table.{find}
use libcopp.TaskManager.Manager.{Node, TaskManager, new_manager}

-- The node of `id` has a task with this id, and its timer, if it has one, is in the set under `id`.
pub record IsOwned (get_id : ℕ → ℕ) (timers : List TimerNode) (id : ℕ) (n : Node) : Type 0 where
  pub task : (k : ℕ) × (n.task_ptr ≡ some k) × (get_id k ≡ id)
  pub timer : (t : TimerNode) → n.timer_node ≡ some t → (has t timers ≡ true) × (t.task_id ≡ id)

-- The timers are in order, each belongs to a task of the table, and each task owns its node.
pub record Consistent (get_id : ℕ → ℕ) (m : TaskManager) : Type 0 where
  pub sorted : Sorted m.task_timeout_timer
  pub timed :
      (t : TimerNode)
      → has t m.task_timeout_timer ≡ true
      → (n : Node) × (find t.task_id m.tasks ≡ some n) × (n.timer_node ≡ some t)
  pub owned :
      (id : ℕ) (n : Node) → find id m.tasks ≡ some n → IsOwned get_id m.task_timeout_timer id n

-- The flags and the time of the last tick are apart from this.
pub Consistent-same :
    (get_id : ℕ → ℕ) (m m' : TaskManager)
    → m.tasks ≡ m'.tasks
    → m.task_timeout_timer ≡ m'.task_timeout_timer
    → Consistent get_id m
    → Consistent get_id m'
Consistent-same get_id m m' p q c = record {
  sorted = subst Sorted q c.sorted;
  timed = λ t h. rw (sym p) (c.timed t (rw q h));
  owned = λ id n h. subst (λ l. IsOwned get_id l id n) q (c.owned id n (rw p h));
}

pub new_manager-Consistent : (get_id : ℕ → ℕ) → Consistent get_id new_manager
unfolding has find
new_manager-Consistent get_id = record {
  sorted = tt;
  timed = λ t h. absurd cc;
  owned = λ id n h. absurd cc;
}
