-- ===== src/TaskManager/Manager/Expiry.antt =====
-- What `tick` leaves: its loop ends, and no timer that is left is over.
use libcopp.Base.{
  ℕ, zero, suc, ◌≤◌, ◌<◌, ◌≡◌, refl, sym, ap, ◌∙◌, subst, ◌⊎◌, inl, inr, true, Option, none, some,
  List, [], ◌∷◌, arith, Bool-cases, length,
}
use libcopp.TaskManager.Timers.{TickSpec, TimerNode, tick_until, has}
use libcopp.TaskManager.Timers.Order.{
  has-nil, has-head, has-cons, Sorted, tick_until-timer_before, length-erase_head,
}
use libcopp.TaskManager.Manager.{
  Node, TaskManager, TaskOps, TaskStatus, timeout, take, remove_timeout_timer, time_out,
  expire_first, expire_round, expire,
}
use libcopp.TaskManager.Manager.Invariant.{Consistent}
use libcopp.TaskManager.Manager.Freed.{take-Consistent}
use libcopp.TaskManager.Manager.Operations.{Keeps}

-- A task that is killed adds no timer.
pub record IsQuiet {W : Type 0} (ops : TaskOps W) : Type 0 where
  pub keeps : Keeps ops
  pub kill :
      (s : TaskManager × W) (k : ℕ) (st : TaskStatus) (p : ℕ)
      → length (ops.kill s k st p).0.0.task_timeout_timer ≤ length s.0.task_timeout_timer

-- No timer is over.
abbrev pub AllLater : TickSpec → TaskManager → Type 0
AllLater now m =
    (t : TimerNode) → has t m.task_timeout_timer ≡ true → tick_until now t.expired_time ≡ true

take-length :
    (m : TaskManager) (id : ℕ) (n : Node) (t : TimerNode) (l : List TimerNode)
    → m.task_timeout_timer ≡ t ∷ l
    → n.timer_node ≡ some t
    → length (take m id n).task_timeout_timer < length m.task_timeout_timer
unfolding take remove_timeout_timer
take-length m id n t l e o = rw (o, take, e) (length-erase_head t l)

all_later :
    (now : TickSpec) (t : TimerNode) (l : List TimerNode)
    → tick_until now t.expired_time ≡ true
    → Sorted (t ∷ l)
    → (timers : List TimerNode) → timers ≡ t ∷ l
    → (u : TimerNode) → has u timers ≡ true
    → tick_until now u.expired_time ≡ true
all_later now t l later s timers e u h = elim (has-cons u t l (sym (ap (has u) e) ∙ h)) [
  | inl at ↦ rw at later
  | inr k ↦ tick_until-timer_before now t u later (s.0 u k)
]

module _ {W : Type 0} (ops : TaskOps W) (quiet : IsQuiet ops) where
  time_out-kept :
      (s : TaskManager × W) (o : Option ℕ)
      → Consistent ops.get_id s.0
      → Consistent ops.get_id (time_out ops s o).0
        × (length (time_out ops s o).0.task_timeout_timer ≤ length s.0.task_timeout_timer)
  unfolding time_out
  time_out-kept s none c = (c, omega arith)
  time_out-kept s (some k) c = elim (Bool-cases (ops.is_exiting s.1 k)) [
    | inl e ↦ rw (e, time_out) (c, omega arith)
    | inr e ↦
        let s' : TaskManager × W = (s.0, ops.cleanup_task_manager s.1 k) in
        rw (e, time_out) (quiet.keeps.kill s' k timeout 0 c, quiet.kill s' k timeout 0)
  ]

  -- A round ends the loop with no timer over, or it ends a timer.
  expire_first-cases :
      (now : TickSpec) (s : TaskManager × W) (timers : List TimerNode)
      → Consistent ops.get_id s.0
      → s.0.task_timeout_timer ≡ timers
      → (expire_first ops now s timers ≡ none) × AllLater now s.0
        ⊎ ((s' : TaskManager × W) × (expire_first ops now s timers ≡ some s')
            × Consistent ops.get_id s'.0
            × (length s'.0.task_timeout_timer < length s.0.task_timeout_timer))
  unfolding expire_first
  expire_first-cases now s [] c e =
      inl (refl, λ t h. absurd (ground (arith, h, ap (has t) e, has-nil t)))
  expire_first-cases now s (t ∷ l) c e = elim (Bool-cases (tick_until now t.expired_time)) [
    | inl later ↦ inl (
      rw (later, expire_first) refl,
      all_later now t l later (subst Sorted e c.sorted) s.0.task_timeout_timer e,
    )
    | inr over ↦
        let (n, f, o) = c.timed t (ap (has t) e ∙ has-head t l) in
        let taken = take-Consistent ops.get_id s.0 t.task_id n c f in
        let (c', le) = time_out-kept (take s.0 t.task_id n, s.1) n.task_ptr taken in
        let less = take-length s.0 t.task_id n t l e o in
        inr (
          time_out ops (take s.0 t.task_id n, s.1) n.task_ptr,
          rw (over, f, expire_first) refl,
          c',
          omega (arith, le, less),
        )
  ]

  -- Enough fuel for the loop is one more than the number of timers.
  pub expire_total :
      (fuel : ℕ) (now : TickSpec) (s : TaskManager × W)
      → Consistent ops.get_id s.0
      → length s.0.task_timeout_timer < fuel
      → (s' : TaskManager × W) × (expire ops fuel now s ≡ some s')
        × Consistent ops.get_id s'.0
        × AllLater now s'.0
  unfolding expire expire_round
  expire_total zero now s c lt = absurd (omega arith)
  expire_total (suc fuel) now s c lt =
      elim (expire_first-cases now s s.0.task_timeout_timer c refl) [
        | inl (e, later) ↦ (s, rw (e, expire) refl, c, later)
        | inr (s', e, c', less) ↦
            let (s'', e', c'', later) = expire_total fuel now s' c' (omega (arith, less, lt)) in
            (s'', rw (e, expire) e', c'', later)
      ]
