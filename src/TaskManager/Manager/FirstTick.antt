-- ===== src/TaskManager/Manager/FirstTick.antt =====
-- The first tick moves every timer on by its time, and the nodes with them.
use libcopp.Base.{
  ℕ, ◌≡◌, refl, sym, ap, ◌∙◌, subst, ◌≢◌, inl, inr, true, false, some, List, [], ◌∷◌, arith, ◌==◌,
  Bool-cases, Option-cases,
}
use libcopp.TaskManager.Timers.{TickSpec, TimerNode, has, shift, shift_all}
use libcopp.TaskManager.Timers.Order.{
  has-nil, has-head, has-cons, has-tail, shift_all-has, has-shift_all, shift_all-Sorted, shift_id,
}
use libcopp.TaskManager.Table.{find, find-put}
use libcopp.TaskManager.Manager.{Node, TaskManager, first_tick, renew_one, renew}
use libcopp.TaskManager.Manager.Invariant.{Consistent, IsOwned}

renew_one-other :
    (t : TimerNode) (tasks : List (ℕ × Node)) (j : ℕ)
    → (t.task_id == j) ≡ false
    → find j (renew_one t tasks) ≡ find j tasks
unfolding renew_one
renew_one-other t tasks j h = elim (Option-cases (find t.task_id tasks)) [
  | inl e ↦ rw (e, renew_one) refl
  | inr (n, e) ↦
      rw (e, renew_one)
        (find-put t.task_id j (record n { timer_node = some t }) tasks ∙ ground (arith, h))
]

renew_one-hit :
    (t : TimerNode) (tasks : List (ℕ × Node)) (n : Node)
    → find t.task_id tasks ≡ some n
    → find t.task_id (renew_one t tasks) ≡ some (record n { timer_node = some t })
unfolding renew_one
renew_one-hit t tasks n e =
    rw (e, renew_one)
      (find-put t.task_id t.task_id (record n { timer_node = some t }) tasks ∙ ground arith)

renew-other :
    (l : List TimerNode) (tasks : List (ℕ × Node)) (j : ℕ)
    → ((t : TimerNode) → has t l ≡ true → (t.task_id == j) ≡ false)
    → find j (renew l tasks) ≡ find j tasks
unfolding renew
renew-other [] tasks j h = refl
renew-other (t ∷ l) tasks j h =
    renew-other l (renew_one t tasks) j (λ u k. h u (has-tail u t l k))
    ∙ renew_one-other t tasks j (h t (has-head t l))

-- Of the timers of one set no two belong to one task.
abbrev AreOwn : List TimerNode → Type 0
AreOwn l = (u v : TimerNode) → has u l ≡ true → has v l ≡ true → u.task_id ≡ v.task_id → u ≡ v

renew-hit :
    (l : List TimerNode) (tasks : List (ℕ × Node)) (t : TimerNode) (n : Node)
    → AreOwn l
    → has t l ≡ true
    → find t.task_id tasks ≡ some n
    → find t.task_id (renew l tasks) ≡ some (record n { timer_node = some t })
unfolding renew
renew-hit [] tasks t n own h e = absurd (ground (arith, h, has-nil t))
renew-hit (u ∷ l) tasks t n own h e =
    let own' : AreOwn l = λ x y p q. own x y (has-tail x u l p) (has-tail y u l q) in
    elim (Bool-cases (u.task_id == t.task_id)) [
      | inl k ↦
          let same : u ≡ t = own u t (has-head u l) h (ground arith) in
          let one : find t.task_id (renew_one u tasks) ≡ some (record n { timer_node = some t }) =
            rw same (renew_one-hit t tasks n e) in
          elim (Bool-cases (has t l)) [
            | inl again ↦
                renew-hit l (renew_one u tasks) t (record n { timer_node = some t }) own' again one
            | inr last ↦
                renew-other l (renew_one u tasks) t.task_id (λ v q.
                  elim (Bool-cases (v.task_id == t.task_id)) [
                    | inl p ↦
                        let at : v ≡ t = own v t (has-tail v u l q) h (ground arith) in
                        absurd (ground (arith, ap (λ x. has x l) at, q, last))
                    | inr p ↦ p
                  ])
                ∙ one
          ]
      | inr k ↦ elim (has-cons t u l h) [
        | inl at ↦ absurd (ground (arith, at, k))
        | inr later ↦
            renew-hit l (renew_one u tasks) t n own' later (renew_one-other u tasks t.task_id k ∙ e)
      ]
    ]

timers-AreOwn :
    (get_id : ℕ → ℕ) (m : TaskManager) → Consistent get_id m → AreOwn m.task_timeout_timer
timers-AreOwn get_id m c u v p q at =
    let (n, e, o) = c.timed u p in
    let (n', e', o') = c.timed v q in let e'' : find u.task_id m.tasks ≡ some n' = rw at e' in cc

shifted-AreOwn : (now : TickSpec) (l : List TimerNode) → AreOwn l → AreOwn (shift_all now l)
shifted-AreOwn now l own u v p q at =
    let (u', p', e) = shift_all-has now u l p in
    let (v', q', e') = shift_all-has now v l q in
    let ids : u'.task_id ≡ v'.task_id =
      sym (shift_id now u')
      ∙ ap (λ t. t.task_id) (sym e)
      ∙ at
      ∙ ap (λ t. t.task_id) e'
      ∙ shift_id now v' in
    e ∙ ap (shift now) (own u' v' p' q' ids) ∙ sym e'

-- A task without a timer keeps its node.
renew-none :
    (get_id : ℕ → ℕ) (m : TaskManager) (now : TickSpec) (j : ℕ)
    → Consistent get_id m
    → ((u : TimerNode) → has u m.task_timeout_timer ≡ true → u.task_id ≢ j)
    → find j (renew (shift_all now m.task_timeout_timer) m.tasks) ≡ find j m.tasks
renew-none get_id m now j c h = renew-other (shift_all now m.task_timeout_timer) m.tasks j (λ t k.
    elim (Bool-cases (t.task_id == j)) [
      | inl e ↦
          let (u, k', at) = shift_all-has now t m.task_timeout_timer k in
          let id : t.task_id ≡ j = ground arith in
          absurd (h u k' (sym (shift_id now u) ∙ ap (λ x. x.task_id) (sym at) ∙ id))
      | inr e ↦ e
    ])

renew-shift :
    (get_id : ℕ → ℕ) (m : TaskManager) (now : TickSpec) (u : TimerNode) (n : Node)
    → Consistent get_id m
    → has u m.task_timeout_timer ≡ true
    → find u.task_id m.tasks ≡ some n
    → find u.task_id (renew (shift_all now m.task_timeout_timer) m.tasks)
      ≡ some (record n { timer_node = some (shift now u) })
renew-shift get_id m now u n c h e =
    subst
      (λ i.
        find i (renew (shift_all now m.task_timeout_timer) m.tasks)
        ≡ some (record n { timer_node = some (shift now u) }))
      (shift_id now u)
      (renew-hit (shift_all now m.task_timeout_timer) m.tasks (shift now u) n
        (shifted-AreOwn now m.task_timeout_timer (timers-AreOwn get_id m c))
        (has-shift_all now u m.task_timeout_timer h)
        (ap (λ i. find i m.tasks) (shift_id now u) ∙ e))

first_tick-node :
    (get_id : ℕ → ℕ) (m : TaskManager) (now : TickSpec) (j : ℕ) (n : Node)
    → Consistent get_id m
    → find j (renew (shift_all now m.task_timeout_timer) m.tasks) ≡ some n
    → IsOwned get_id (shift_all now m.task_timeout_timer) j n
first_tick-node get_id m now j n c e = elim (Option-cases (find j m.tasks)) [
  | inl f ↦
      let kept = renew-none get_id m now j c (λ u h at.
        let (n', f', _) = c.timed u h in
        let f'' : find j m.tasks ≡ some n' = rw (sym at) f' in cc) in
      absurd (ground (arith, e, f, kept))
  | inr (n0, f) ↦
      let own = c.owned j n0 f in
      elim (Option-cases n0.timer_node) [
        | inl o ↦
            let kept = renew-none get_id m now j c (λ u h at.
              let (n', f', o') = c.timed u h in
              let f'' : find j m.tasks ≡ some n' = rw (sym at) f' in cc) in
            let same : n0 ≡ n = cc in
            rw (sym same) (record { task = own.task; timer = λ t k. absurd cc })
        | inr (u, o) ↦
            let (h, id) = own.timer u o in
            let hit = renew-shift get_id m now u n0 c h (rw id f) in
            let hit' : find j (renew (shift_all now m.task_timeout_timer) m.tasks)
                ≡ some (record n0 { timer_node = some (shift now u) }) =
              rw (sym id) hit in
            let same : record n0 { timer_node = some (shift now u) } ≡ n = cc in
            rw (sym same) (record {
              task = own.task;
              timer = λ t k.
                  let at : shift now u ≡ t = cc in
                  rw (sym at) (has-shift_all now u m.task_timeout_timer h, (shift_id now u ∙ id));
            })
      ]
]

first_tick-owned :
    (get_id : ℕ → ℕ) (m : TaskManager) (now : TickSpec)
    → Consistent get_id m
    → Consistent get_id (first_tick m now)
unfolding first_tick
first_tick-owned get_id m now c = record {
  sorted = shift_all-Sorted now m.task_timeout_timer;
  timed = λ t h.
      let (u, k, at) = shift_all-has now t m.task_timeout_timer h in
      let (n, e, o) = c.timed u k in
      (
        record n { timer_node = some (shift now u) },
        rw at (
            ap (λ i. find i (renew (shift_all now m.task_timeout_timer) m.tasks)) (shift_id now u)
            ∙ renew-shift get_id m now u n c k e),
        rw at refl,
      );
  owned = λ j n e. first_tick-node get_id m now j n c e;
}

-- A consistent manager is consistent after its first tick, and the timer of each task is the old one
-- moved on.
pub first_tick-Consistent :
    (get_id : ℕ → ℕ) (m : TaskManager) (now : TickSpec)
    → Consistent get_id m
    → Consistent get_id (first_tick m now)
      × ((t : TimerNode)
          → has t m.task_timeout_timer ≡ true
          → has (shift now t) (first_tick m now).task_timeout_timer ≡ true)
      × ((t : TimerNode)
          → has t (first_tick m now).task_timeout_timer ≡ true
          → (u : TimerNode) × (has u m.task_timeout_timer ≡ true) × (t ≡ shift now u))
unfolding first_tick
first_tick-Consistent get_id m now c = (
  first_tick-owned get_id m now c,
  (λ t h. has-shift_all now t m.task_timeout_timer h),
  (λ t h. shift_all-has now t m.task_timeout_timer h),
)
