-- ===== src/TaskManager/Timers/Order.antt =====
-- What insertion, removal and the first tick do to the set of timers.
use libcopp.Base.{
  ◌+◌, ◌≤◌, ◌<◌, ◌≡◌, refl, ◌∙◌, ◌⊎◌, inl, inr, true, false, not, ◌&&◌, ◌||◌, List, [], ◌∷◌, arith,
  ◌==◌, Bool-cases, length,
}
use mathlib.Core.Path.{ap₂}
use libcopp.TaskManager.Timers.{
  TickSpec, tick_before, tick_until, TimerNode, timer_same, timer_before, insert, erase, has, shift,
  shift_all,
}

pub tick-ext : (a b : TickSpec) → a.tv_sec ≡ b.tv_sec → a.tv_nsec ≡ b.tv_nsec → a ≡ b
tick-ext a b p q = ap₂ (λ x y. record { tv_sec = x; tv_nsec = y }) p q

pub timer_same-≡ : (t u : TimerNode) → timer_same t u ≡ true → t ≡ u
unfolding timer_same
timer_same-≡ t u h =
    ap₂ (λ x y. record { expired_time = x; task_id = y })
      (tick-ext t.expired_time u.expired_time (ground arith) (ground arith)) (ground arith)

pub timer_same_refl : (t : TimerNode) → timer_same t t ≡ true
unfolding timer_same
timer_same_refl t = ground arith

-- What is the same as `v` is another than `u` if `u` is.
timer_same_other :
    (t u v : TimerNode) → timer_same u v ≡ false → timer_same t v ≡ true → timer_same t u ≡ false
unfolding timer_same
timer_same_other t u v h k = ground arith

pub timer_before_trans :
    (t u v : TimerNode)
    → timer_before t u ≡ true
    → timer_before u v ≡ true
    → timer_before t v ≡ true
unfolding timer_before tick_before
timer_before_trans t u v h k = ground arith

timer_before_total :
    (t u : TimerNode) → timer_before t u ≡ false → timer_same t u ≡ false → timer_before u t ≡ true
unfolding timer_before tick_before timer_same
timer_before_total t u h k = ground arith

pub has-insert :
    (t u : TimerNode) (l : List TimerNode) → has t (insert u l).0 ≡ (timer_same t u || has t l)
unfolding has insert
has-insert t u [] = ground arith
has-insert t u (v ∷ l) = elim (Bool-cases (timer_before u v)) [
  | inl e ↦ rw (e, has, insert) refl
  | inr e ↦ elim (Bool-cases (timer_same u v)) [
    | inl e' ↦ let at = timer_same-≡ u v e' in rw (e, e', has, insert, at) (ground arith)
    | inr e' ↦ rw (e, e', has, insert) (ground (arith, has-insert t u l))
  ]
]

-- A timer that was not new is there already.
pub insert-has : (u : TimerNode) (l : List TimerNode) → (insert u l).1 ≡ false → has u l ≡ true
unfolding has insert
insert-has u [] h = cc
insert-has u (v ∷ l) h = ground (arith, insert-has u l)

pub has-erase :
    (t u : TimerNode) (l : List TimerNode) → has t (erase u l) ≡ (has t l && not (timer_same t u))
unfolding has erase
has-erase t u [] = refl
has-erase t u (v ∷ l) = elim (Bool-cases (timer_same u v)) [
  | inl e ↦ let at = timer_same-≡ u v e in ground (arith, at, has-erase t u l)
  | inr e ↦ elim (Bool-cases (timer_same t v)) [
    | inl e' ↦ ground (arith, e, e', has-erase t u l, timer_same_other t u v e e')
    | inr e' ↦ ground (arith, has-erase t u l)
  ]
]

pub length-erase : (u : TimerNode) (l : List TimerNode) → length (erase u l) ≤ length l
unfolding erase
length-erase u [] = omega arith
length-erase u (v ∷ l) = ground (arith, length-erase u l)

abbrev pub Sorted : List TimerNode → Type 0
Sorted [] = Unit
Sorted (t ∷ l) = ((u : TimerNode) → has u l ≡ true → timer_before t u ≡ true) × Sorted l

pub erase-Sorted : (u : TimerNode) (l : List TimerNode) → Sorted l → Sorted (erase u l)
unfolding erase
erase-Sorted u [] s = tt
erase-Sorted u (v ∷ l) s = elim (Bool-cases (timer_same u v)) [
  | inl e ↦ rw (e, erase) (erase-Sorted u l s.1)
  | inr e ↦ rw (e, erase) ((λ t h. s.0 t (ground (arith, has-erase t u l))), erase-Sorted u l s.1)
]

pub insert-Sorted : (u : TimerNode) (l : List TimerNode) → Sorted l → Sorted (insert u l).0
unfolding insert has
insert-Sorted u [] s = ((λ t h. cc), tt)
insert-Sorted u (v ∷ l) s = elim (Bool-cases (timer_before u v)) [
  | inl e ↦
      rw (e, insert)
        (
          (λ t h. elim (Bool-cases (timer_same t v)) [
            | inl e' ↦ rw (timer_same-≡ t v e') e
            | inr e' ↦ timer_before_trans u v t e (s.0 t (ground arith))
          ]),
          s,
        )
  | inr e ↦ elim (Bool-cases (timer_same u v)) [
    | inl e' ↦ rw (e, e', insert) s
    | inr e' ↦
        rw (e, e', insert)
          (
            (λ t h. elim (Bool-cases (timer_same t u)) [
              | inl k ↦ rw (timer_same-≡ t u k) (timer_before_total u v e e')
              | inr k ↦ s.0 t (ground (arith, has-insert t u l))
            ]),
            insert-Sorted u l s.1,
          )
  ]
]

pub timer_same-false : (t u : TimerNode) → (u.task_id == t.task_id) ≡ false → timer_same t u ≡ false
unfolding timer_same
timer_same-false t u h = ground arith

-- Past the first timer that is not over, none is.
pub tick_until-timer_before :
    (now : TickSpec) (t u : TimerNode)
    → tick_until now t.expired_time ≡ true
    → timer_before t u ≡ true
    → tick_until now u.expired_time ≡ true
unfolding tick_until timer_before tick_before
tick_until-timer_before now t u h k = ground arith

pub length-erase_head :
    (t : TimerNode) (l : List TimerNode) → length (erase t (t ∷ l)) < length (t ∷ l)
unfolding erase
length-erase_head t l = rw (timer_same_refl t, erase) (omega (arith, length-erase t l))

pub has-nil : (t : TimerNode) → has t [] ≡ false
unfolding has
has-nil t = refl

pub has-head : (t : TimerNode) (l : List TimerNode) → has t (t ∷ l) ≡ true
unfolding has
has-head t l = rw (timer_same_refl t, has) refl

pub has-cons :
    (u t : TimerNode) (l : List TimerNode) → has u (t ∷ l) ≡ true → (u ≡ t) ⊎ (has u l ≡ true)
unfolding has
has-cons u t l h = elim (Bool-cases (timer_same u t)) [
  | inl e ↦ inl (timer_same-≡ u t e)
  | inr e ↦ inr (ground (arith, e, h))
]

pub has-tail : (u t : TimerNode) (l : List TimerNode) → has u l ≡ true → has u (t ∷ l) ≡ true
unfolding has
has-tail u t l h = ground (arith, h)

pub shift_all-has :
    (now : TickSpec) (t : TimerNode) (l : List TimerNode)
    → has t (shift_all now l) ≡ true
    → (u : TimerNode) × (has u l ≡ true) × (t ≡ shift now u)
unfolding shift_all
shift_all-has now t [] h = absurd (ground (arith, h, has-nil t))
shift_all-has now t (v ∷ l) h = elim (Bool-cases (timer_same t (shift now v))) [
  | inl e ↦ (v, has-head v l, timer_same-≡ t (shift now v) e)
  | inr e ↦
      let (u, k, at) =
        shift_all-has now t l
          (ground (arith, e, h, has-insert t (shift now v) (shift_all now l))) in
      (u, has-tail u v l k, at)
]

pub has-shift_all :
    (now : TickSpec) (u : TimerNode) (l : List TimerNode)
    → has u l ≡ true
    → has (shift now u) (shift_all now l) ≡ true
unfolding shift_all
has-shift_all now u [] h = absurd (ground (arith, h, has-nil u))
has-shift_all now u (v ∷ l) h = elim (has-cons u v l h) [
  | inl e ↦ rw e (
      has-insert (shift now v) (shift now v) (shift_all now l)
      ∙ ground (arith, timer_same_refl (shift now v)))
  | inr k ↦
      has-insert (shift now u) (shift now v) (shift_all now l)
      ∙ ground (arith, has-shift_all now u l k)
]

pub shift_all-Sorted : (now : TickSpec) (l : List TimerNode) → Sorted (shift_all now l)
unfolding shift_all
shift_all-Sorted now [] = tt
shift_all-Sorted now (v ∷ l) =
    insert-Sorted (shift now v) (shift_all now l) (shift_all-Sorted now l)

pub shift_id : (now : TickSpec) (t : TimerNode) → (shift now t).task_id ≡ t.task_id
unfolding shift
shift_id now t = refl

pub tick_until_next_second :
    (a b c : TickSpec) → a.tv_sec ≡ b.tv_sec + 1 → c.tv_sec ≡ b.tv_sec → tick_until a c ≡ false
unfolding tick_until
tick_until_next_second a b c h k = ground arith
