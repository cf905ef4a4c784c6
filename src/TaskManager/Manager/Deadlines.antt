-- ===== src/TaskManager/Manager/Deadlines.antt =====
-- What `tick` promises of the deadlines, and what it does not.
use libcopp.Base.{
  ℕ, ◌+◌, ◌*◌, ◌<◌, ◌≡◌, refl, ◌∙◌, ◌≢◌, inl, inr, true, false, ◌||◌, none, some, arith, Bool-cases,
  length,
}
use libcopp.Errno.{CoppErrorCode, success, in_reset}
use libcopp.TaskManager.Timers.{TickSpec, TimerNode, tick_until, has}
use libcopp.TaskManager.Timers.Order.{timer_same_refl, tick_until_next_second}
use libcopp.TaskManager.Table.{find}
use libcopp.TaskManager.Manager.{
  TaskManager, TaskOps, set_timeout, tick, first_tick, is_past, is_ticking, is_resetting, is_first,
}
use libcopp.TaskManager.Manager.Invariant.{Consistent, Consistent-same}
use libcopp.TaskManager.Manager.Timing.{timer_after}
use libcopp.TaskManager.Manager.Operations.{set_timeout-IsTimed}
use libcopp.TaskManager.Manager.Expiry.{IsQuiet, AllLater, expire_total}
use libcopp.TaskManager.Manager.FirstTick.{first_tick-Consistent}

abbrev pub at_time : ℕ → ℕ → TickSpec
at_time sec nsec = record { tv_sec = sec; tv_nsec = nsec }

-- What a tick at `now` leaves of `s`.
pub data Ticked {W : Type 0} (s : TaskManager × W) (now : TickSpec)
    : TaskManager × W → CoppErrorCode → Type 0 where
  is_ignored : (is_past s.0 now || is_ticking s.0) ≡ true → Ticked s now s success
  is_refused : is_resetting s.0 ≡ true → Ticked s now s in_reset
  begins : is_first s.0 ≡ true → Ticked s now (first_tick s.0 now, s.1) success
  expires :
      {s' : TaskManager × W}
      → AllLater now s'.0
      → s'.0.last_tick_time ≡ now
      → s'.0.in_tick ≡ false
      → Ticked s now s' success

-- With more fuel than there are timers a tick returns, for tasks that add no timer when they are
-- killed. The manager stays consistent. The tick does nothing in the past, inside another tick and,
-- with `COPP_EC_IN_RESET`, inside a reset; the first one moves the timers on; any other leaves only
-- timers that are not before its time, and is the last tick.
pub tick-Ticked :
    {W : Type 0} (ops : TaskOps W) (s : TaskManager × W) (fuel sec nsec : ℕ)
    → IsQuiet ops
    → Consistent ops.get_id s.0
    → length s.0.task_timeout_timer < fuel
    → (s' : TaskManager × W) × (code : CoppErrorCode) × (tick ops fuel s sec nsec ≡ some (s', code))
      × Consistent ops.get_id s'.0
      × Ticked s (at_time sec nsec) s' code
unfolding tick
tick-Ticked ops s fuel sec nsec quiet c lt =
    let now = at_time sec nsec in
    elim (Bool-cases (is_past s.0 now)) [
      | inl e ↦ (s, success, rw (e, tick) refl, c, is_ignored (ground (arith, e)))
      | inr e ↦ elim (Bool-cases (is_ticking s.0)) [
        | inl e1 ↦ (s, success, rw (e, e1, tick) refl, c, is_ignored (ground (arith, e, e1)))
        | inr e1 ↦ elim (Bool-cases (is_resetting s.0)) [
          | inl e2 ↦ (s, in_reset, rw (e, e1, e2, tick) refl, c, is_refused e2)
          | inr e2 ↦ elim (Bool-cases (is_first s.0)) [
            | inl e3 ↦ (
              (first_tick s.0 now, s.1),
              success,
              rw (e, e1, e2, e3, tick) refl,
              (first_tick-Consistent ops.get_id s.0 now c).0,
              begins e3,
            )
            | inr e3 ↦
                let v : TaskManager = record s.0 { in_tick = true } in
                let (s', go, c', later) =
                  expire_total ops quiet fuel now (v, s.1)
                    (Consistent-same ops.get_id s.0 v refl refl c) lt in
                let m' : TaskManager = record s'.0 { last_tick_time = now; in_tick = false } in
                (
                  (m', s'.1),
                  success,
                  rw (e, e1, e2, e3, tick, go) refl,
                  Consistent-same ops.get_id s'.0 m' refl refl c',
                  expires later refl refl,
                )
          ]
        ]
      ]
    ]

-- A timeout below a second, set after a last tick in whose second it does not end, is over for a tick
-- at the start of the next second, which is before the deadline: the nanoseconds are added and
-- never carried.
pub set_timeout_early :
    {W : Type 0} (ops : TaskOps W) (s : TaskManager × W) (id timeout_nsec : ℕ)
    → Consistent ops.get_id s.0
    → is_resetting s.0 ≡ false
    → find id s.0.tasks ≢ none
    → 1000000000 < s.0.last_tick_time.tv_nsec + timeout_nsec
    → 0 < timeout_nsec
    → let last = s.0.last_tick_time in
      (t : TimerNode) × (has t (set_timeout ops s id 0 timeout_nsec).0.0.task_timeout_timer ≡ true)
      × (t.task_id ≡ id)
      × (tick_until (at_time (last.tv_sec + 1) 0) t.expired_time ≡ false)
      × ((last.tv_sec + 1) * 1000000000 < last.tv_sec * 1000000000 + last.tv_nsec + timeout_nsec)
set_timeout_early ops s id timeout_nsec c r known late positive =
    let last = s.0.last_tick_time in
    let t = timer_after s.0 id 0 timeout_nsec in
    elim (set_timeout-IsTimed ops s c id 0 timeout_nsec) [
      | inl (e, _, _) ↦ absurd (ground (arith, e, r))
      | inr (inl (_, e, _, _)) ↦ absurd (known e)
      | inr (inr (_, _, _, timed)) ↦ (
        t,
        (timed.timers t ∙ ground (arith, timer_same_refl t)),
        refl,
        tick_until_next_second (at_time (last.tv_sec + 1) 0) last t.expired_time refl (omega arith),
        omega arith,
      )
    ]
